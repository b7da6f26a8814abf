-- ===== src/SecurityWatch/Release.antt =====
-- internal/securitywatch/check.go `release`, and source.go `sourceRelease` and `sourceJSON`. What
-- net/http, encoding/json, url.PathEscape, the capture groups of the release pattern and
-- strconv.ParseUint answer are parameters.
pub mod Evidence
pub mod Tracking
use fleetdeck.Prelude.{
  ℕ, zero, suc, ◌+◌, ◌-◌, ◌*◌, ◌≤◌, ◌<◌, ◌≡◌, refl, sym, ap, ◌∙◌, ◌≢◌, ◌↔◌, ◌⊎◌, inl, inr, Bool,
  true, false, not, ◌&&◌, ◌||◌, Option, none, some, List, [], ◌∷◌, ◌++◌, map, String, arith, ◌==◌,
  eq_iff, eq_refl, byte_length, ltb, leb, eqb, if◌then◌else◌, Bool-cases, Option-cases, length, all,
  any, All, length-append, rev_onto, rev_onto-append, is_nil, sort_by, length-sort_by, any-sort_by,
  Outcome, ok, err, ◌>>=◌, ◌>>◌, guard, Outcome-cases,
}
use fleetdeck.Prelude.Dict.{
  Dict, lookup, insert, delete, delete_if, lookup-insert, lookup-delete, length-insert,
  length-delete, length-delete_if, IsDistinct, drop_if, lookup-delete_if, insert-IsDistinct,
  delete-IsDistinct, delete_if-IsDistinct, length-insert_found,
}
use fleetdeck.Prelude.Texts.{codes, has_prefix, has_suffix, contains, text_leb}
use Prim.Native.String
use fleetdeck.Regex.{
  Regex, class, cat, times, upto, plus, match_string, is_lower, is_upper, is_digit, is_hex,
}
use fleetdeck.SecurityWatch.Types.{Check, check}

abbrev pub is_name_char : ℕ → Bool
is_name_char c = is_lower c || is_upper c || is_digit c || eqb c b'_' || eqb c b'.' || eqb c b'-'

-- `^[A-Za-z0-9_.-]+/[A-Za-z0-9_.-]+$`
unfoldable pub repository_pattern : Regex
unfolding plus
repository_pattern =
    cat (plus (class is_name_char)) (cat (class (eqb b'/')) (plus (class is_name_char)))

-- `^[a-f0-9]{40}$`
unfoldable pub source_commit_pattern : Regex
unfolding times
source_commit_pattern = times 40 (class is_hex)

-- `^[A-Za-z0-9][A-Za-z0-9._/-]{0,199}$`
unfoldable pub source_branch_pattern : Regex
unfolding upto
source_branch_pattern =
    cat (class (λ c. is_lower c || is_upper c || is_digit c))
      (upto 199 (class (λ c. is_name_char c || eqb c b'/')))

-- A response: its status, and its body if it was read within the limit of one MiB.
pub data Reply : Type 0 where
  not_built no_response : Reply
  responded : ℕ → Option String → Reply

pub record ReleaseInfo : Type 0 where
  pub tag_name : String
  pub draft : Bool
  pub prerelease : Bool

-- The groups of the release pattern that the source reads.
pub record Groups : Type 0 where
  pub major : String
  pub minor : String
  pub patch : String
  pub suffix : String

pub record BranchRef : Type 0 where
  pub ref : String
  pub object_type : String
  pub object_sha : String

pub record Comparison : Type 0 where
  pub status : String
  pub ahead_by : ℕ
  pub behind_by : ℕ
  pub base_sha : String
  pub merge_base_sha : String

-- What the checker asks of others.
pub record Lookups : Type 0 where
  pub get : String → Reply
  pub unmarshal_release : String → Option ReleaseInfo
  pub unmarshal_ref : String → Option BranchRef
  pub unmarshal_comparison : String → Option Comparison
  pub find_submatch : String → Option Groups
  pub parse_uint : String → Option ℕ
  pub path_escape : String → String

infixl 40 ◌+++◌
abbrev ◌+++◌ : String → String → String
s +++ t = String.◌++◌ s t

abbrev pub unknown_with : String → Check → Check
unknown_with code c = record c { code = code }

-- One part of the version: undecided where it is the same.
pub data Verdict : Type 0 where
  older newer same invalid : Verdict

abbrev pub compare_part : Option ℕ → Option ℕ → Verdict
compare_part none b = invalid
compare_part (some a) none = invalid
compare_part (some a) (some b) = if ltb a b then older else if ltb b a then newer else same

-- The loop over the three parts.
unfoldable pub compare_parts : List Verdict → Verdict
compare_parts [] = same
compare_parts (same ∷ vs) = compare_parts vs
compare_parts (older ∷ vs) = older
compare_parts (newer ∷ vs) = newer
compare_parts (invalid ∷ vs) = invalid

module _ (net : Lookups) where
  abbrev pub verdict : Groups → Groups → Verdict
  verdict current latest = compare_parts (
      compare_part (net.parse_uint current.major) (net.parse_uint latest.major)
      ∷ compare_part (net.parse_uint current.minor) (net.parse_uint latest.minor)
      ∷ compare_part (net.parse_uint current.patch) (net.parse_uint latest.patch)
      ∷ [])

  abbrev pub judge : Verdict → Groups → Groups → Check → Check
  judge older current latest c = record c { status = "update_available" }
  judge newer current latest c = record c { status = "up_to_date" }
  judge invalid current latest c = record c { status = "unknown"; code = "invalid_version" }
  judge same current latest c =
      if not (current.suffix == "") && latest.suffix == ""
      then record c { status = "update_available" }
      else record c { status = "up_to_date" }

  -- From the comparison of the versions on.
  abbrev pub compare_versions : Option Groups → Option Groups → Check → Check
  compare_versions none latest c = unknown_with "unversioned_local_build" c
  compare_versions (some current) none c = unknown_with "invalid_release_response" c
  compare_versions (some current) (some latest) c = judge (verdict current latest) current latest c

  abbrev pub is_some : {A : Type 0} → Option A → Bool
  is_some none = false
  is_some (some a) = true

  abbrev pub after_release : Option ReleaseInfo → String → Check → Check
  after_release none installed c = unknown_with "invalid_release_response" c
  after_release (some r) installed c =
      if not (is_some (net.find_submatch r.tag_name)) || r.draft || r.prerelease
      then unknown_with "invalid_release_response" c
      else compare_versions (net.find_submatch installed) (net.find_submatch r.tag_name)
          (record c { latest = r.tag_name })

  abbrev pub decode_with : {A : Type 0} → (String → Option A) → Option String → Option A
  decode_with unmarshal none = none
  decode_with unmarshal (some body) = unmarshal body

  abbrev pub after_reply : Reply → String → Check → Check
  after_reply not_built installed c = unknown_with "release_lookup_failed" c
  after_reply no_response installed c = unknown_with "release_lookup_failed" c
  after_reply (responded status body) installed c =
      if eqb status 200
      then after_release (decode_with net.unmarshal_release body) installed c
      else unknown_with "release_lookup_unavailable" c

  unfoldable pub latest_release : String → String → Check
  latest_release repo installed =
      let result = record (check "unknown" "") { installed = installed } in
      if match_string repository_pattern repo
      then after_reply (net.get ("/repos/" +++ repo +++ "/releases/latest")) installed result
      else unknown_with "invalid_release_repository" result

  -- `sourceJSON`
  abbrev pub source_json : {A : Type 0} → (String → Option A) → Reply → Option A
  source_json unmarshal not_built = none
  source_json unmarshal no_response = none
  source_json unmarshal (responded status body) =
      if eqb status 200 then decode_with unmarshal body else none

  abbrev pub is_fast_forward : String → Comparison → Bool
  is_fast_forward installed x =
      x.base_sha == installed
      && x.merge_base_sha == installed
      && x.status == "ahead"
      && ltb 0 x.ahead_by
      && eqb x.behind_by 0

  abbrev pub after_comparison : Option Comparison → Check → Check
  after_comparison none c = unknown_with "source_comparison_unavailable" c
  after_comparison (some x) c =
      if is_fast_forward c.installed x
      then record c { status = "update_available"; code = "source_commit_update_available" }
      else unknown_with "source_history_not_fast_forward" c

  abbrev pub is_branch_ref : String → BranchRef → Bool
  is_branch_ref branch r =
      r.ref == ("refs/heads/" +++ branch)
      && r.object_type == "commit"
      && match_string source_commit_pattern r.object_sha

  abbrev pub after_ref : String → Option BranchRef → Check → Check
  after_ref repo none c = unknown_with "source_branch_lookup_unavailable" c
  after_ref repo (some r) c =
      if is_branch_ref c.source_branch r
      then (let c = record c { latest = r.object_sha } in
          if c.installed == c.latest
          then record c { status = "up_to_date"; code = "source_commit_current" }
          else after_comparison
              (source_json net.unmarshal_comparison (
                net.get
                  ("/repos/" +++ repo +++ "/compare/" +++ c.installed +++ "..." +++ c.latest)))
              c)
      else unknown_with "invalid_source_branch_response" c

  abbrev pub is_tracking_target : String → String → Bool
  is_tracking_target repo branch =
      match_string repository_pattern repo
      && not (contains (codes repo) (codes ".."))
      && match_string source_branch_pattern branch
      && not (contains (codes branch) (codes ".."))
      && not (contains (codes branch) (codes "//"))
      && not (has_suffix (codes branch) (codes "/"))
      && not (has_suffix (codes branch) (codes "."))
      && not (has_suffix (codes branch) (codes ".lock"))

  unfoldable pub source_release : String → String → String → String → Check
  source_release commit branch repo installed =
      let result = record (check "unknown" "") { installed = commit; source_branch = branch } in
      if not (installed == "dev") || not (match_string source_commit_pattern commit)
      then unknown_with "invalid_source_build_metadata" result
      else if not (is_tracking_target repo branch)
      then unknown_with "invalid_source_tracking_target" result
      else after_ref repo
          (source_json net.unmarshal_ref
            (net.get ("/repos/" +++ repo +++ "/git/ref/heads/" +++ net.path_escape branch)))
          result

  -- `Checker.release`, for the source commit and branch of the checker.
  unfoldable pub release : String → String → String → String → Check
  release commit branch repo installed =
      if branch == ""
      then latest_release repo installed
      else source_release commit branch repo installed
