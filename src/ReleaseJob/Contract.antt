-- ===== src/ReleaseJob/Contract.antt =====
-- internal/releasejob/contract.go: the patterns, `Request.Validate` and `Decode`.
pub mod Laws
use fleetdeck.Prelude.{
  ℕ, suc, ◌+◌, Bool, true, false, not, ◌&&◌, ◌||◌, List, [], ◌∷◌, ◌++◌, String, Option, none, some,
  ◌==◌, eqb, ltb, all, any, length, if◌then◌else◌, Outcome, ok, err, guard, ◌>>=◌, ◌>>◌,
}
use fleetdeck.Prelude.Texts.{codes, contains}
use fleetdeck.Regex.{
  Regex, class, cat, alt, star, times, upto, plus, literal, match_string, is_lower, is_upper,
  is_digit, is_hex,
}
use fleetdeck.ReleaseJob.Types.{Request, Image, schema_version}

-- `^[a-zA-Z0-9][a-zA-Z0-9._-]{0,127}$`
unfoldable pub identifier_pattern : Regex
unfolding upto
identifier_pattern = cat (class (λ c. is_lower c || is_upper c || is_digit c)) (
    upto 127 (
      class
        (λ c. is_lower c || is_upper c || is_digit c || eqb c b'.' || eqb c b'_' || eqb c b'-')))

-- `^sha256:[a-f0-9]{64}$`
unfoldable pub digest_pattern : Regex
unfolding times literal
digest_pattern = cat (literal (codes "sha256:")) (times 64 (class is_hex))

-- `[a-z0-9]+(?:[._-][a-z0-9]+)*`
unfoldable pub path_part : Regex
unfolding plus
path_part =
    let word = plus (class (λ c. is_lower c || is_digit c)) in
    cat word (star (cat (class (λ c. eqb c b'.' || eqb c b'_' || eqb c b'-')) word))

-- `^part(?:/part)+@sha256:[a-f0-9]{64}$`
unfoldable pub image_pattern : Regex
unfolding plus path_part digest_pattern
image_pattern =
    cat path_part
      (cat (plus (cat (class (eqb b'/')) path_part)) (cat (class (eqb b'@')) digest_pattern))

pub data ContractError : Type 0 where
  unsupported_schema invalid_identifier invalid_manifest_digest : ContractError
  invalid_environment invalid_expected_release backup_not_required : ContractError
  invalid_migration_mode compatibility_not_applicable unsupported_compatibility : ContractError
  staging_recovery production_migration production_recovery : ContractError
  image_count : ContractError
  invalid_component duplicate_component mutable_reference : ℕ → ContractError

-- The map of named identifiers is walked in any order; the order decides only which name is
-- reported, and the error here does not carry it.
abbrev pub identifiers : Request → List String
identifiers r =
    r.job_id ∷ r.idempotency_key ∷ r.release_id ∷ r.target.id ∷ r.target.profile ∷ r.health_profile
    ∷ []

abbrev pub is_identifier : String → Bool
is_identifier s = match_string identifier_pattern s

unfoldable pub check_identity : Request → Outcome ContractError (Unit {0})
check_identity r = do
  guard (eqb r.schema_version schema_version) unsupported_schema
  guard (all is_identifier (identifiers r)) invalid_identifier
  guard (match_string digest_pattern r.manifest_digest) invalid_manifest_digest

abbrev pub expected_ok : Option String → Bool
expected_ok none = true
expected_ok (some v) = is_identifier v

unfoldable pub check_policy : Request → Outcome ContractError (Unit {0})
check_policy r = do
  let staging = r.target.environment == "staging"
  let production = r.target.environment == "production"
  let applies = r.migration.mode == "preflight-and-apply"
  let skips = r.migration.mode == "none"
  let compatibility = r.migration.compatibility
  guard (staging || production) invalid_environment
  guard (expected_ok r.target.expected_current_release_id) invalid_expected_release
  guard (not (production && not r.backup.required)) backup_not_required
  guard (applies || skips) invalid_migration_mode
  guard (not (skips && not (compatibility == "not-applicable"))) compatibility_not_applicable
  guard
      (not (
        applies
        && not (compatibility == "unreviewed")
        && not (compatibility == "online-expand-contract")
        && not (compatibility == "maintenance-write-freeze")))
      unsupported_compatibility
  guard (not (staging && not (r.recovery.mode == "manual"))) staging_recovery
  guard (not (production && (applies && not (compatibility == "online-expand-contract"))))
      production_migration
  guard (not (production && not (r.recovery.mode == "runtime-only"))) production_recovery

-- The loop over the images: `seen` is the set of components so far, `i` the index.
unfoldable pub check_images : List String → ℕ → List Image → Outcome ContractError (Unit {0})
check_images seen i [] = ok tt
check_images seen i (image ∷ images) =
    let rest = check_images (image.component ∷ seen) (i + 1) images in
    do
      guard (is_identifier image.component) (invalid_component i)
      guard (not (any (λ c. c == image.component) seen)) (duplicate_component i)
      guard
          (not (contains (codes image.reference) (codes ":latest"))
            && match_string image_pattern image.reference)
          (mutable_reference i)
      rest

unfoldable pub validate : Request → Outcome ContractError (Unit {0})
validate r = do
  check_identity r
  check_policy r
  guard (ltb 0 (length r.images) && ltb (length r.images) 33) image_count
  check_images [] 0 r.images

-- What follows the request in its stream.
pub data Trailing : Type 0 where
  at_end more_json not_json : Trailing

pub data DecodeError : Type 0 where
  not_decoded too_large trailing_json trailing_data : DecodeError
  rejected : ContractError → DecodeError

abbrev pub decode_rest :
    Request → Bool → Trailing → Outcome ContractError (Unit {0}) → Outcome DecodeError Request
decode_rest request true rest v = err too_large
decode_rest request false more_json v = err trailing_json
decode_rest request false not_json v = err trailing_data
decode_rest request false at_end (err e) = err (rejected e)
decode_rest request false at_end (ok u) = ok request

-- `Decode`: what the JSON decoder makes of the stream, whether the limit was used up, what follows.
unfoldable pub decode : Option Request → Bool → Trailing → Outcome DecodeError Request
decode none exhausted rest = err not_decoded
decode (some request) exhausted rest = decode_rest request exhausted rest (validate request)
