-- ===== src/Fleet.antt =====
-- internal/fleet/protocol.go: `Snapshot`, `Validate` and `Decode`. An instant is a number of
-- nanoseconds since Go's zero time, so `IsZero` is 0. `json.Unmarshal` is a parameter.
pub mod Laws
use fleetdeck.Prelude.{
  ℕ, zero, suc, ◌+◌, ◌-◌, ◌*◌, ◌≤◌, ◌<◌, ◌≡◌, refl, sym, ap, ◌∙◌, ◌≢◌, ◌↔◌, ◌⊎◌, inl, inr, Bool,
  true, false, not, ◌&&◌, ◌||◌, Option, none, some, List, [], ◌∷◌, ◌++◌, map, String, arith, ◌==◌,
  eq_iff, eq_refl, byte_length, ltb, leb, eqb, if◌then◌else◌, Bool-cases, Option-cases, length, all,
  any, All, length-append, rev_onto, rev_onto-append, is_nil, Outcome, ok, err, ◌>>=◌, ◌>>◌, guard,
  Outcome-cases,
}
use fleetdeck.Prelude.Dict.{
  Dict, lookup, insert, delete, delete_if, lookup-insert, lookup-delete, length-insert,
  length-delete, length-delete_if, IsDistinct, drop_if, lookup-delete_if, insert-IsDistinct,
  delete-IsDistinct, delete_if-IsDistinct, length-insert_found,
}
use fleetdeck.Regex.{Regex, class, cat, upto, match_string, is_lower, is_digit}

abbrev pub max_bytes : ℕ
max_bytes = 1048576

abbrev pub second : ℕ
second = 1000000000

abbrev pub max_age : ℕ
max_age = 180 * second

-- `^[a-z0-9][a-z0-9-]{0,62}$`
unfoldable pub identifier : Regex
unfolding upto
identifier =
    cat (class (λ c. is_lower c || is_digit c))
      (upto 62 (class (λ c. is_lower c || is_digit c || eqb c 45)))

-- Go's `int`, where it may be negative.
pub data ℤ : Type 0 where
  pos negsuc : ℕ → ℤ

pub record Project : Type 0 where
  pub name : String
  pub registry_status : String
  pub last_backup : Option ℕ

pub record Checks : Type 0 where
  pub observation : String
  pub checked_at : Option ℕ
  pub healthy : ℤ
  pub unhealthy : ℤ
  pub unknown : ℤ

pub record Security : Type 0 where
  pub observation : String
  pub checked_at : Option ℕ
  pub critical : ℤ
  pub high : ℤ
  pub runtime_findings : ℤ
  pub unknown : ℤ

pub record Snapshot : Type 0 where
  pub schema : ℕ
  pub node_id : String
  pub generated_at : ℕ
  pub version : String
  pub commit : String
  pub projects : List Project
  pub monitoring : Checks
  pub security : Security

pub data SnapshotError : Type 0 where
  invalid_identity stale_clock invalid_project invalid_status invalid_count : SnapshotError
  stale_observation invalid_healthy_claim invalid_clean_claim too_large invalid_json : SnapshotError

abbrev pub valid_id : String → Bool
valid_id id = match_string identifier id

abbrev pub is_ahead : ℕ → ℕ → Bool
is_ahead now at = ltb (now + 30 * second) at

abbrev pub is_ahead_option : ℕ → Option ℕ → Bool
is_ahead_option now none = false
is_ahead_option now (some at) = is_ahead now at

abbrev pub is_seen : String → List String → Bool
is_seen name seen = any (λ n. n == name) seen

-- The loop over the projects, with the names seen so far.
unfoldable pub check_projects : ℕ → List String → List Project → Bool
check_projects now seen [] = true
check_projects now seen (p ∷ ps) =
    valid_id p.name
    && not (is_seen p.name seen)
    && leb (byte_length p.registry_status) 40
    && not (is_ahead_option now p.last_backup)
    && check_projects now (p.name ∷ seen) ps

abbrev pub is_status : String → Bool
is_status s = s == "ok" || s == "attention" || s == "unknown"

abbrev pub is_count : ℤ → Bool
is_count (pos n) = leb n 1000000
is_count (negsuc n) = false

abbrev pub is_zero : ℤ → Bool
is_zero (pos n) = eqb n 0
is_zero (negsuc n) = false

-- Whether an observation that is not unknown is current.
abbrev pub is_fresh : ℕ → String → Option ℕ → ℕ → Bool
is_fresh now observation none age = observation == "unknown"
is_fresh now observation (some at) age =
    observation == "unknown" || (not (eqb at 0) && not (is_ahead now at) && leb (now - at) age)

abbrev pub identity_holds : String → Snapshot → Bool
identity_holds node s =
    eqb s.schema 1
    && valid_id node
    && s.node_id == node
    && leb (byte_length s.version) 100
    && leb (byte_length s.commit) 100
    && leb (length s.projects) 500

abbrev pub clock_holds : ℕ → Snapshot → Bool
clock_holds now s =
    not (eqb s.generated_at 0)
    && not (is_ahead now s.generated_at)
    && leb (now - s.generated_at) max_age

abbrev pub projects_hold : ℕ → Snapshot → Bool
projects_hold now s = check_projects now [] s.projects

abbrev pub statuses_hold : Snapshot → Bool
statuses_hold s = is_status s.monitoring.observation && is_status s.security.observation

abbrev pub counts_hold : Snapshot → Bool
counts_hold s =
    is_count s.monitoring.healthy
    && is_count s.monitoring.unhealthy
    && is_count s.monitoring.unknown
    && is_count s.security.critical
    && is_count s.security.high
    && is_count s.security.runtime_findings
    && is_count s.security.unknown

abbrev pub observations_hold : ℕ → Snapshot → Bool
observations_hold now s =
    is_fresh now s.monitoring.observation s.monitoring.checked_at max_age
    && is_fresh now s.security.observation s.security.checked_at (93600 * second)

abbrev pub healthy_claim_holds : Snapshot → Bool
healthy_claim_holds s =
    not (s.monitoring.observation == "ok")
    || (not (is_zero s.monitoring.healthy)
        && is_zero s.monitoring.unhealthy
        && is_zero s.monitoring.unknown)

abbrev pub clean_claim_holds : Snapshot → Bool
clean_claim_holds s =
    not (s.security.observation == "ok")
    || (is_zero s.security.critical
        && is_zero s.security.high
        && is_zero s.security.runtime_findings
        && is_zero s.security.unknown)

unfoldable pub validate : String → ℕ → Snapshot → Outcome SnapshotError (Unit {0})
validate node now s =
    guard (identity_holds node s) invalid_identity
    >> guard (clock_holds now s) stale_clock
    >> guard (projects_hold now s) invalid_project
    >> guard (statuses_hold s) invalid_status
    >> guard (counts_hold s) invalid_count
    >> guard (observations_hold now s) stale_observation
    >> guard (healthy_claim_holds s) invalid_healthy_claim
    >> guard (clean_claim_holds s) invalid_clean_claim

-- `Decode`, on what at most `MaxBytes` and one bytes of the reader give.
unfoldable pub decode :
    (String → Option Snapshot) → Option String → String → ℕ → Outcome SnapshotError Snapshot
decode unmarshal none node now = err too_large
decode unmarshal (some body) node now =
    if leb (byte_length body) max_bytes
    then elim (unmarshal body) [
      | none ↦ err invalid_json
      | some s ↦ validate node now s >>= λ _. ok s
    ]
    else err too_large
