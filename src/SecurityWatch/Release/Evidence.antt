-- ===== src/SecurityWatch/Release/Evidence.antt =====
-- What the release check reports, against the versions and commits that it found.
use fleetdeck.Prelude.{
  ℕ, ◌<◌, ◌≡◌, refl, ◌≢◌, ◌⊎◌, inl, inr, true, false, some, List, [], ◌∷◌, String, arith, ◌==◌,
  eq_iff, Bool-cases,
}
use Prim.Native.String
use fleetdeck.Regex.{match_string}
use fleetdeck.SecurityWatch.Types.{Check, check}
use fleetdeck.SecurityWatch.Release.{
  repository_pattern, responded, ReleaseInfo, Groups, Lookups, Verdict, older, newer, same,
  compare_part, compare_parts, verdict, judge, latest_release, release,
}

pub record Version : Type 0 where
  pub major : ℕ
  pub minor : ℕ
  pub patch : ℕ

-- The parts of two versions, side by side.
abbrev pub pairs : Version → Version → List (ℕ × ℕ)
pairs v w = (v.major, w.major) ∷ (v.minor, w.minor) ∷ (v.patch, w.patch) ∷ []

-- The order of versions: the first part that differs decides.
abbrev pub IsBefore : List (ℕ × ℕ) → Type 0
IsBefore [] = ⊥
IsBefore ((a, b) ∷ ps) = (a < b) ⊎ ((a ≡ b) × IsBefore ps)

abbrev pub AreEqual : List (ℕ × ℕ) → Type 0
AreEqual [] = Unit
AreEqual ((a, b) ∷ ps) = (a ≡ b) × AreEqual ps

abbrev pub verdicts : List (ℕ × ℕ) → List Verdict
verdicts [] = []
verdicts ((a, b) ∷ ps) = compare_part (some a) (some b) ∷ verdicts ps

part_cases :
    (a b : ℕ)
    → ((compare_part (some a) (some b) ≡ older) × (a < b))
      ⊎ ((compare_part (some a) (some b) ≡ newer) × (b < a))
      ⊎ ((compare_part (some a) (some b) ≡ same) × (a ≡ b))
part_cases a b = ground arith

-- What the loop over the parts decides.
abbrev pub IsDecided : List (ℕ × ℕ) → Verdict → Type 0
IsDecided ps v =
    ((v ≡ older) × IsBefore ps)
    ⊎ ((v ≡ newer) × (IsBefore ps → ⊥) × (AreEqual ps → ⊥))
    ⊎ ((v ≡ same) × AreEqual ps × (IsBefore ps → ⊥))

compare_parts-IsDecided : (ps : List (ℕ × ℕ)) → IsDecided ps (compare_parts (verdicts ps))
unfolding compare_parts
compare_parts-IsDecided [] = inr (inr (refl, tt, λ h. h))
compare_parts-IsDecided ((a, b) ∷ ps) = elim (part_cases a b) [
  | inl (e, l) ↦ rw e (inl (refl, inl l))
  | inr (inl (e, l)) ↦ rw e (
      inr (
        inl (
          refl,
          λ h. elim h [ inl x ↦ absurd (omega arith) | inr (x, y) ↦ absurd (omega arith) ],
          λ (x, y). absurd (omega arith),
        )))
  | inr (inr (e, l)) ↦ rw e (elim (compare_parts-IsDecided ps) [
    | inl (d, h) ↦ inl (d, inr (l, h))
    | inr (inl (d, h, k)) ↦
        inr
          (inl (d, λ x. elim x [ inl y ↦ absurd (omega arith) | inr (y, z) ↦ h z ], λ (x, y). k y))
    | inr (inr (d, h, k)) ↦
        inr (inr (d, (l, h), λ x. elim x [ inl y ↦ absurd (omega arith) | inr (y, z) ↦ k z ]))
  ])
]

module _ (net : Lookups) where
  -- The groups hold the numbers of the version.
  pub record Reads (g : Groups) (v : Version) : Type 0 where
    pub major : net.parse_uint g.major ≡ some v.major
    pub minor : net.parse_uint g.minor ≡ some v.minor
    pub patch : net.parse_uint g.patch ≡ some v.patch

  verdict-Reads :
      (current latest : Groups) (v w : Version)
      → Reads current v
      → Reads latest w
      → verdict net current latest ≡ compare_parts (verdicts (pairs v w))
  verdict-Reads current latest v w a b =
      rw (a.major, a.minor, a.patch, b.major, b.minor, b.patch) refl

  -- The latest release is newer, or the installed one is a build of it before its release.
  abbrev pub IsOutdated : Groups → Version → Groups → Version → Type 0
  IsOutdated current v latest w =
      IsBefore (pairs v w) ⊎ (AreEqual (pairs v w) × (current.suffix ≢ "") × (latest.suffix ≡ ""))

  judge-IsOutdated :
      (d : Verdict) (current latest : Groups) (v w : Version) (c : Check)
      → IsDecided (pairs v w) d
      → ((judge net d current latest c).status ≡ "update_available") × IsOutdated current v latest w
        ⊎ ((judge net d current latest c).status ≡ "up_to_date")
          × (IsOutdated current v latest w → ⊥)
  judge-IsOutdated d current latest v w c (inl (e, h)) = rw e (inl (refl, inl h))
  judge-IsOutdated d current latest v w c (inr (inl (e, h, k))) =
      rw e (inr (refl, λ x. elim x [ inl y ↦ h y | inr (y, z, u) ↦ k y ]))
  judge-IsOutdated d current latest v w c (inr (inr (e, h, k))) =
      elim (Bool-cases (current.suffix == "")) [
        | inl released ↦
            rw (e, released)
              (inr (
                refl,
                λ x. elim x [
                  | inl y ↦ k y
                  | inr (y, z, u) ↦ z ((eq_iff current.suffix "").0 released)
                ],
              ))
        | inr pre ↦ elim (Bool-cases (latest.suffix == "")) [
          | inl done ↦
              rw (e, pre, done)
                (inl (
                  refl,
                  inr (
                    h,
                    (λ z. ground (arith, pre, z, eq_iff current.suffix "")),
                    (eq_iff latest.suffix "").0 done,
                  ),
                ))
          | inr later ↦
              rw (e, pre, later)
                (inr (
                  refl,
                  λ x. elim x [
                    | inl y ↦ k y
                    | inr (y, z, u) ↦ ground (arith, later, u, eq_iff latest.suffix "")
                  ],
                ))
        ]
      ]

  -- What the release lookup found: a published release and its version.
  pub record Finds (repo : String) (r : ReleaseInfo) (latest : Groups) : Type 0 where
    pub body : String
    pub named : match_string repository_pattern repo ≡ true
    pub answered :
        net.get (String.◌++◌ (String.◌++◌ "/repos/" repo) "/releases/latest")
        ≡ responded 200 (some body)
    pub decoded : net.unmarshal_release body ≡ some r
    pub published : (r.draft ≡ false) × (r.prerelease ≡ false)
    pub parsed : net.find_submatch r.tag_name ≡ some latest

  latest_release-judge :
      (repo installed : String) (r : ReleaseInfo) (current latest : Groups)
      → Finds repo r latest
      → net.find_submatch installed ≡ some current
      → latest_release net repo installed
        ≡ judge net
            (verdict net current latest)
            current
            latest
            (record (check "unknown" "") { installed = installed; latest = r.tag_name })
  unfolding latest_release
  latest_release-judge repo installed r current latest f i =
      rw (f.named, f.answered, f.decoded, f.parsed, f.published.0, f.published.1, i) refl

  -- Where a published release is found and both versions read as numbers, the check reports an update
  -- exactly if the installed version is before the latest, part by part, or is a build before the
  -- release of the same version; otherwise it reports up to date.
  pub release-IsOutdated :
      (commit repo installed : String) (r : ReleaseInfo) (current latest : Groups) (v w : Version)
      → Finds repo r latest
      → net.find_submatch installed ≡ some current
      → Reads current v
      → Reads latest w
      → (((release net commit "" repo installed).status ≡ "update_available")
          × IsOutdated current v latest w)
        ⊎ (((release net commit "" repo installed).status ≡ "up_to_date")
            × (IsOutdated current v latest w → ⊥))
  unfolding release ◌==◌
  release-IsOutdated commit repo installed r current latest v w f i a b =
      rw (latest_release-judge repo installed r current latest f i) (
        rw (verdict-Reads current latest v w a b) (
          judge-IsOutdated (compare_parts (verdicts (pairs v w))) current latest v w _
            (compare_parts-IsDecided (pairs v w))))
