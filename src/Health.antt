-- ===== src/Health.antt =====
-- internal/health/health.go: `classifyHealth` and `ParseHealthReport`. `strings.ToLower`,
-- `strings.Split` at commas, `strings.TrimSpace` and the JSON decoding of an array or a line are parameters.
-- The listing comes from `docker compose ps`.
pub mod Laws
use fleetdeck.Prelude.Texts.{codes, has_prefix}
use fleetdeck.Prelude.{
  ℕ, zero, suc, ◌+◌, ◌-◌, ◌*◌, ◌≤◌, ◌<◌, ◌≡◌, refl, sym, ap, ◌∙◌, ◌≢◌, ◌↔◌, ◌⊎◌, inl, inr, Bool,
  true, false, not, ◌&&◌, ◌||◌, Option, none, some, List, [], ◌∷◌, ◌++◌, map, String, arith, ◌==◌,
  eq_iff, eq_refl, byte_length, ltb, leb, eqb, if◌then◌else◌, Bool-cases, Option-cases, length, all,
  any, All, length-append, rev_onto, rev_onto-append, is_nil, Outcome, ok, err, ◌>>=◌, ◌>>◌, guard,
  Outcome-cases,
}
use fleetdeck.Prelude.Dict.{
  Dict, lookup, insert, delete, delete_if, lookup-insert, lookup-delete, length-insert,
  length-delete, length-delete_if, IsDistinct, drop_if, lookup-delete_if, insert-IsDistinct,
  delete-IsDistinct, delete_if-IsDistinct, length-insert_found,
}

pub record ServiceHealth : Type 0 where
  pub name : String
  pub service_status : String
  pub health : String

-- A line of the report's errors.
pub data Complaint : Type 0 where
  no_containers : Complaint
  is_in : String → String → Complaint
  has_state : String → String → Complaint

pub record HealthReport : Type 0 where
  pub healthy : Bool
  pub services : List ServiceHealth
  pub errors : List Complaint

pub record ComposePsEntry : Type 0 where
  pub name : String
  pub state : String
  pub service_status : String
  pub health : String
  pub labels : String
  pub exit_code : Option ℕ

abbrev pub exited_clean : Option ℕ → Bool
exited_clean none = false
exited_clean (some n) = eqb n 0

module _ (to_lower : String → String) (split : String → List String) where
  abbrev pub classify_oneshot : String → Option ℕ → String
  classify_oneshot state exit_code =
      if state == "exited" && exited_clean exit_code
      then "completed"
      else if state == "running" || state == "created"
      then "starting"
      else "unhealthy"

  abbrev pub classify_service : String → String → String
  classify_service state health =
      if state == "restarting"
      then "restarting"
      else if not (state == "running")
      then "unknown"
      else if health == "healthy"
      then "healthy"
      else if health == "unhealthy"
      then "unhealthy"
      else if health == "starting"
      then "starting"
      else "healthy"

  unfoldable pub classify_health : ComposePsEntry → String
  classify_health e =
      if any (λ label. label == "io.fleetdeck.lifecycle=oneshot") (split e.labels)
      then classify_oneshot (to_lower e.state) e.exit_code
      else classify_service (to_lower e.state) (to_lower e.health)

  -- What the loop adds to the errors for an entry.
  unfoldable pub complaint : ComposePsEntry → Option Complaint
  complaint e =
      let health = classify_health e in
      if health == "unhealthy" || health == "restarting" || health == "starting"
      then some (is_in e.name health)
      else if health == "unknown"
      then (if e.state == "running" then none else some (has_state e.name e.state))
      else none

  abbrev pub complain : Option Complaint → HealthReport → HealthReport
  complain none report = report
  complain (some c) report = record report { healthy = false; errors = report.errors ++ (c ∷ []) }

  unfoldable pub report_entries : List ComposePsEntry → HealthReport → HealthReport
  report_entries [] report = report
  report_entries (e ∷ es) report = report_entries es (
      complain (complaint e) (record report {
        services =
            report.services
            ++ (record {
              name = e.name;
              service_status = e.service_status;
              health = classify_health e;
            }
                ∷ []);
      }))

  abbrev pub no_report : HealthReport
  no_report = record { healthy = false; services = []; errors = no_containers ∷ [] }

  abbrev pub report_of : List ComposePsEntry → HealthReport
  report_of [] = no_report
  report_of (e ∷ es) =
      report_entries (e ∷ es) (record { healthy = true; services = []; errors = [] })

  -- The trimmed output, decoded.
  unfoldable pub parse_health_report :
      (String → String) → (String → Option (List ComposePsEntry)) → String → Option HealthReport
  parse_health_report trim parse raw =
      if trim raw == ""
      then some no_report
      else elim (parse (trim raw)) [ none ↦ none | some entries ↦ some (report_of entries) ]

-- `parseComposeJSON`: the output as one JSON array, or else line by line. What the decoder makes of an
-- array and of a line are parameters.
module _ (trim : String → String) (lines : String → List String)
    (unmarshal_array : String → Option (List ComposePsEntry))
    (unmarshal_entry : String → Option ComposePsEntry) where
  abbrev pub cons_entry :
      Option ComposePsEntry → Option (List ComposePsEntry) → Option (List ComposePsEntry)
  cons_entry none rest = none
  cons_entry (some e) none = none
  cons_entry (some e) (some es) = some (e ∷ es)

  -- The loop over the lines: blank lines are passed over, and one bad line fails it.
  unfoldable pub parse_lines : List String → Option (List ComposePsEntry)
  parse_lines [] = some []
  parse_lines (line ∷ rest) =
      let others = parse_lines rest in
      if trim line == "" then others else cons_entry (unmarshal_entry (trim line)) others

  abbrev pub or_lines : Option (List ComposePsEntry) → String → Option (List ComposePsEntry)
  or_lines none raw = parse_lines (lines raw)
  or_lines (some es) raw = some es

  unfoldable pub parse_compose_json : String → Option (List ComposePsEntry)
  parse_compose_json raw =
      if trim raw == ""
      then some []
      else or_lines
          (if has_prefix (codes (trim raw)) (codes "[") then unmarshal_array (trim raw) else none)
          (trim raw)
