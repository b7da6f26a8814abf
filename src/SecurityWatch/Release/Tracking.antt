-- ===== src/SecurityWatch/Release/Tracking.antt =====
-- What the check with source tracking reports, against the branch and the comparison that it found.
use fleetdeck.Prelude.{
  ◌≤◌, ◌≡◌, refl, ap, ◌≢◌, ◌⊎◌, inl, inr, true, not, ◌||◌, Option, none, some, String, arith, ◌==◌,
  eq_iff, eqb, Bool-cases, Option-cases,
}
use Prim.Native.String
use fleetdeck.Regex.{match_string}
use fleetdeck.SecurityWatch.Types.{Check, check}
use fleetdeck.SecurityWatch.Release.{
  Reply, not_built, no_response, responded, source_commit_pattern, BranchRef, Comparison, Lookups,
  source_json, is_fast_forward, is_branch_ref, after_ref, is_tracking_target, source_release,
}

module _ (net : Lookups) where
  -- The request was answered with status 200 and a body that decodes to the value.
  abbrev pub IsAnswered : {A : Type 0} → (String → Option A) → String → A → Type 0
  IsAnswered unmarshal path a =
      (body : String) × (net.get path ≡ responded 200 (some body)) × (unmarshal body ≡ some a)

  decoded_reply :
      {A : Type 0} (unmarshal : String → Option A) (reply : Reply) (a : A)
      → source_json net unmarshal reply ≡ some a
      → (body : String) × (reply ≡ responded 200 (some body)) × (unmarshal body ≡ some a)
  decoded_reply unmarshal not_built a e = cc
  decoded_reply unmarshal no_response a e = cc
  decoded_reply unmarshal (responded status none) a e = elim (Bool-cases (eqb status 200)) [
    | inl good ↦ let clash : none ≡ some a = rw good at e in cc
    | inr bad ↦ let clash : none ≡ some a = rw bad at e in cc
  ]
  decoded_reply unmarshal (responded status (some body)) a e = elim (Bool-cases (eqb status 200)) [
    | inl good ↦
        let same : status ≡ 200 = ground (arith, good) in
        (body, ap (λ n. responded n (some body)) same, rw good at e)
    | inr bad ↦ let clash : none ≡ some a = rw bad at e in cc
  ]

  abbrev pub ref_path : String → String → String
  ref_path repo branch =
      String.◌++◌ (String.◌++◌ (String.◌++◌ "/repos/" repo) "/git/ref/heads/")
        (net.path_escape branch)

  abbrev pub compare_path : String → String → String → String
  compare_path repo installed latest =
      String.◌++◌
        (String.◌++◌ (String.◌++◌ (String.◌++◌ (String.◌++◌ "/repos/" repo) "/compare/") installed)
          "...")
        latest

  -- What the branch lookup found.
  pub record OnBranch (branch repo : String) (r : BranchRef) : Type 0 where
    pub target : is_tracking_target net repo branch ≡ true
    pub answered : IsAnswered net.unmarshal_ref (ref_path repo branch) r
    pub ref : r.ref ≡ String.◌++◌ "refs/heads/" branch
    pub object_type : r.object_type ≡ "commit"
    pub object_sha : match_string source_commit_pattern r.object_sha ≡ true

  -- The comparison says that the branch goes on from the commit and has lost nothing of it: both what
  -- it compares from and where the two histories part is the commit itself.
  pub record GoesOn (commit : String) (x : Comparison) : Type 0 where
    pub base : x.base_sha ≡ commit
    pub merge_base : x.merge_base_sha ≡ commit
    pub status : x.status ≡ "ahead"
    pub ahead : 1 ≤ x.ahead_by
    pub not_behind : x.behind_by ≡ 0

  is_fast_forward-GoesOn :
      (commit : String) (x : Comparison) → is_fast_forward net commit x ≡ true → GoesOn commit x
  is_fast_forward-GoesOn commit x h = record {
    base = ground (arith, h, eq_iff x.base_sha commit);
    merge_base = ground (arith, h, eq_iff x.merge_base_sha commit);
    status = ground (arith, h, eq_iff x.status "ahead");
    ahead = ground (arith, h);
    not_behind = ground (arith, h);
  }

  abbrev comparison_of : String → String → String → Option Comparison
  comparison_of repo installed latest =
      source_json net net.unmarshal_comparison (net.get (compare_path repo installed latest))

  -- Unknown, or up to date or with an update by what the lookups found.
  abbrev pub IsEvidenced : String → String → String → Check → Type 0
  IsEvidenced commit branch repo c =
      (c.status ≡ "unknown")
      ⊎ ((r : BranchRef) × OnBranch branch repo r
          × (((c.status ≡ "up_to_date") × (commit ≡ r.object_sha))
              ⊎ ((c.status ≡ "update_available")
                  × (commit ≢ r.object_sha)
                  × ((x : Comparison) × IsAnswered net.unmarshal_comparison
                        (compare_path repo commit r.object_sha) x
                      × GoesOn commit x))))

  is_branch_ref-OnBranch :
      (branch repo : String) (r : BranchRef)
      → is_tracking_target net repo branch ≡ true
      → source_json net net.unmarshal_ref (net.get (ref_path repo branch)) ≡ some r
      → is_branch_ref net branch r ≡ true
      → OnBranch branch repo r
  is_branch_ref-OnBranch branch repo r t e h = record {
    target = t;
    answered = decoded_reply net.unmarshal_ref (net.get (ref_path repo branch)) r e;
    ref = ground (arith, h, eq_iff r.ref (String.◌++◌ "refs/heads/" branch));
    object_type = ground (arith, h, eq_iff r.object_type "commit");
    object_sha = ground (arith, h);
  }

  after_ref-IsEvidenced :
      (commit branch repo : String) (o : Option BranchRef)
      → is_tracking_target net repo branch ≡ true
      → source_json net net.unmarshal_ref (net.get (ref_path repo branch)) ≡ o
      → IsEvidenced commit branch repo (
          after_ref net repo o
            (record (check "unknown" "") { installed = commit; source_branch = branch }))
  after_ref-IsEvidenced commit branch repo none t e = inl refl
  after_ref-IsEvidenced commit branch repo (some r) t e =
      elim (Bool-cases (is_branch_ref net branch r)) [
        | inr other ↦ rw other (inl refl)
        | inl named ↦ elim (Bool-cases (commit == r.object_sha)) [
          | inl current ↦ rw named (
              rw current (
                inr (
                  r,
                  is_branch_ref-OnBranch branch repo r t e named,
                  inl (refl, (eq_iff commit r.object_sha).0 current),
                )))
          | inr behind ↦ elim (Option-cases (comparison_of repo commit r.object_sha)) [
            | inl missing ↦ rw named (rw behind (rw missing (inl refl)))
            | inr (x, found) ↦ elim (Bool-cases (is_fast_forward net commit x)) [
              | inr diverged ↦ rw named (rw behind (rw found (rw diverged (inl refl))))
              | inl ahead ↦ rw named (
                  rw behind (
                    rw found (
                      rw ahead (
                        inr (
                          r,
                          is_branch_ref-OnBranch branch repo r t e named,
                          inr (
                            refl,
                            (λ z. ground (arith, z, behind, eq_iff commit r.object_sha)),
                            (
                              x,
                              decoded_reply net.unmarshal_comparison _ x found,
                              is_fast_forward-GoesOn commit x ahead,
                            ),
                          ),
                        )))))
            ]
          ]
        ]
      ]

  -- With source tracking the check stays unknown, unless the lookup of the branch was answered with
  -- status 200 and a body that names that branch and a commit. It is up to date only if that commit is
  -- the installed one. An update is reported only if the comparison of the two commits was answered
  -- with status 200 and says that the branch is ahead by at least one commit and behind by none, and
  -- that both its base and its merge base are the installed commit.
  pub source_release-IsEvidenced :
      (commit branch repo installed : String)
      → IsEvidenced commit branch repo (source_release net commit branch repo installed)
  unfolding source_release
  source_release-IsEvidenced commit branch repo installed =
      elim (Bool-cases
        (not (installed == "dev") || not (match_string source_commit_pattern commit))) [
          | inl bad ↦ rw bad (inl refl)
          | inr good ↦ elim (Bool-cases (is_tracking_target net repo branch)) [
            | inr other ↦ rw good (rw other (inl refl))
            | inl target ↦
                rw good (rw target (after_ref-IsEvidenced commit branch repo _ target refl))
          ]
        ]
