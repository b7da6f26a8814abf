-- ===== src/ReleaseJob/Contract/Laws.antt =====
-- What a request that passes `Request.Validate` looks like.
use fleetdeck.Prelude.{
  Outcome, Bool, err, ap, Option, none, some, ℕ, ◌+◌, ◌≤◌, ◌≡◌, refl, ◌≢◌, ◌↔◌, ◌⊎◌, true, false,
  List, [], ◌∷◌, String, Option, none, some, arith, ◌==◌, eq_iff, all, any, length, All, ok,
}
use fleetdeck.Prelude.Texts.{codes, contains}
use fleetdeck.Regex.{Matches}
use fleetdeck.Regex.Correct.{match_string_iff}
use fleetdeck.ReleaseJob.Types.{Request, Image, schema_version}
use fleetdeck.ReleaseJob.Contract.{
  ContractError, Trailing, at_end, more_json, not_json, decode_rest, decode, identifier_pattern,
  digest_pattern, image_pattern, identifiers, is_identifier, expected_ok, check_identity,
  check_policy, check_images, validate,
}

abbrev pub IsIdentifier : String → Type 0
IsIdentifier s = Matches identifier_pattern (codes s)

abbrev pub IsDigest : String → Type 0
IsDigest s = Matches digest_pattern (codes s)

-- A registry reference by digest, without the mutable tag.
abbrev pub IsImmutable : String → Type 0
IsImmutable s = (contains (codes s) (codes ":latest") ≡ false) × Matches image_pattern (codes s)

abbrev pub HasMigration : Request → Type 0
HasMigration r =
    (r.migration.mode ≡ "none") × (r.migration.compatibility ≡ "not-applicable")
    ⊎ (r.migration.mode ≡ "preflight-and-apply")
      × ((r.migration.compatibility ≡ "unreviewed")
          ⊎ (r.migration.compatibility ≡ "online-expand-contract")
          ⊎ (r.migration.compatibility ≡ "maintenance-write-freeze"))

-- Staging is recovered by hand. Production needs a backup, recovers the runtime only, and migrates
-- online or not at all.
abbrev pub HasEnvironment : Request → Type 0
HasEnvironment r =
    (r.target.environment ≡ "staging") × (r.recovery.mode ≡ "manual")
    ⊎ (r.target.environment ≡ "production")
      × (r.backup.required ≡ true)
      × (r.recovery.mode ≡ "runtime-only")
      × ((r.migration.mode ≡ "none") ⊎ (r.migration.compatibility ≡ "online-expand-contract"))

abbrev pub HasExpected : Option String → Type 0
HasExpected none = Unit
HasExpected (some v) = IsIdentifier v

-- Each component is named once, and not by a name in `seen`.
abbrev pub HasImages : List String → List Image → Type 0
HasImages seen [] = Unit
HasImages seen (image ∷ images) =
    IsIdentifier image.component
    × All (λ c. c ≢ image.component) seen
    × IsImmutable image.reference
    × HasImages (image.component ∷ seen) images

pub record IsAcceptable (r : Request) : Type 0 where
  pub schema : r.schema_version ≡ schema_version
  pub named : All IsIdentifier (identifiers r)
  pub digest : IsDigest r.manifest_digest
  pub environment : HasEnvironment r
  pub expected : HasExpected r.target.expected_current_release_id
  pub migration : HasMigration r
  pub few : (1 ≤ length r.images) × (length r.images ≤ 32)
  pub images : HasImages [] r.images

all_iff : (xs : List String) → (all is_identifier xs ≡ true) ↔ All IsIdentifier xs
all_iff [] = (λ _. tt, λ _. refl)
all_iff (x ∷ xs) = ground (arith, match_string_iff identifier_pattern x, all_iff xs)

absent_iff :
    (seen : List String) (x : String) → (any (λ c. c == x) seen ≡ false) ↔ All (λ c. c ≢ x) seen
absent_iff [] x = (λ _. tt, λ _. refl)
absent_iff (c ∷ seen) x = ground (arith, eq_iff c x, absent_iff seen x)

staging_ne : ◌≢◌ {A = String} "staging" "production"
staging_ne = cc

mode_ne : ◌≢◌ {A = String} "none" "preflight-and-apply"
mode_ne = cc

expected_iff : (o : Option String) → (expected_ok o ≡ true) ↔ HasExpected o
expected_iff none = (λ _. tt, λ _. refl)
expected_iff (some v) = match_string_iff identifier_pattern v

policy_iff :
    (r : Request)
    → (check_policy r ≡ ok tt)
      ↔ (HasEnvironment r × HasExpected r.target.expected_current_release_id × HasMigration r)
unfolding check_policy
policy_iff r = ground (
  arith,
  staging_ne,
  mode_ne,
  expected_iff r.target.expected_current_release_id,
  eq_iff r.target.environment "staging",
  eq_iff r.target.environment "production",
  eq_iff r.migration.mode "none",
  eq_iff r.migration.mode "preflight-and-apply",
  eq_iff r.migration.compatibility "not-applicable",
  eq_iff r.migration.compatibility "unreviewed",
  eq_iff r.migration.compatibility "online-expand-contract",
  eq_iff r.migration.compatibility "maintenance-write-freeze",
  eq_iff r.recovery.mode "manual",
  eq_iff r.recovery.mode "runtime-only",
)

images_iff :
    (seen : List String) (i : ℕ) (images : List Image)
    → (check_images seen i images ≡ ok tt) ↔ HasImages seen images
unfolding check_images
images_iff seen i [] = (λ _. tt, λ _. refl)
images_iff seen i (image ∷ images) = ground (
  arith,
  match_string_iff identifier_pattern image.component,
  absent_iff seen image.component,
  match_string_iff image_pattern image.reference,
  images_iff (image.component ∷ seen) (i + 1) images,
)

identity_iff :
    (r : Request)
    → (check_identity r ≡ ok tt) ↔ (
        (r.schema_version ≡ schema_version)
        × All IsIdentifier (identifiers r)
        × IsDigest r.manifest_digest)
unfolding check_identity
identity_iff r =
    ground (arith, all_iff (identifiers r), match_string_iff digest_pattern r.manifest_digest)

-- `Validate` accepts a request exactly when it is acceptable: schema, identifiers, digest,
-- environment with its recovery and migration policy, and one to 32 immutable images of distinct
-- components.
pub validate_iff : (r : Request) → (validate r ≡ ok tt) ↔ IsAcceptable r
unfolding validate
validate_iff r = (
  λ h.
      let parts : (check_identity r ≡ ok tt)
          × (check_policy r ≡ ok tt)
          × (1 ≤ length r.images)
          × (length r.images ≤ 32)
          × (check_images [] 0 r.images ≡ ok tt) =
        ground arith in
      let (schema, named, digest) = (identity_iff r).0 parts.0 in
      let (environment, expected, migration) = (policy_iff r).0 parts.1 in
      record {
        schema = schema;
        named = named;
        digest = digest;
        environment = environment;
        expected = expected;
        migration = migration;
        few = (parts.2, parts.3);
        images = (images_iff [] 0 r.images).0 parts.4;
      },
  λ a.
      rw
        (
          (identity_iff r).1 (a.schema, a.named, a.digest),
          (policy_iff r).1 (a.environment, a.expected, a.migration),
          (images_iff [] 0 r.images).1 a.images,
        )
        (ground (arith, a.few)),
)

-- In production the backup is required and recovery restores the runtime only.
pub IsAcceptable-production :
    {r : Request}
    → IsAcceptable r
    → r.target.environment ≡ "production"
    → (r.backup.required ≡ true) × (r.recovery.mode ≡ "runtime-only")
IsAcceptable-production a h = ground (arith, a.environment, staging_ne)

some_inj : {request r : Request} → some request ≡ some r → request ≡ r
some_inj h = cc

decode_rest_iff :
    (request : Request) (exhausted : Bool) (rest : Trailing) (v : Outcome ContractError (Unit {0}))
    (r : Request)
    → (decode_rest request exhausted rest v ≡ ok r)
      ↔ ((request ≡ r) × (exhausted ≡ false) × (rest ≡ at_end) × (v ≡ ok tt))
decode_rest_iff request true rest v r = (λ h. cc, λ h. cc)
decode_rest_iff request false more_json v r = (λ h. cc, λ h. cc)
decode_rest_iff request false not_json v r = (λ h. cc, λ h. cc)
decode_rest_iff request false at_end (err e) r = (λ h. cc, λ h. cc)
decode_rest_iff request false at_end (ok u) r = (λ h. (cc, refl, refl, refl), λ h. cc)

-- `Decode` yields a request exactly if the decoder found it within the limit, nothing follows it, and
-- it is acceptable.
pub decode_iff :
    (found : Option Request) (exhausted : Bool) (rest : Trailing) (r : Request)
    → (decode found exhausted rest ≡ ok r)
      ↔ ((found ≡ some r) × (exhausted ≡ false) × (rest ≡ at_end) × IsAcceptable r)
unfolding decode
decode_iff none exhausted rest r = (λ h. cc, λ h. cc)
decode_iff (some request) exhausted rest r =
    let (there, back) = decode_rest_iff request exhausted rest (validate request) r in
    (
      λ h.
          let (same, within, end, valid) = there h in
          (ap some same, within, end, (validate_iff r).0 (rw (← same) valid)),
      λ (f, within, end, a). back (some_inj f, within, end, rw (some_inj f) ((validate_iff r).1 a)),
    )
