-- ===== src/Deploy/Watchdog.antt =====
-- internal/deploy/watchdog.go: `Observe`. What the loop meets is a list: a tick with whether the
-- deadline has passed and what the probe answers then, or the end of the context. Durations are in
-- nanoseconds; one that is not positive is 0.
pub mod Runs
pub mod Verdict
use fleetdeck.Prelude.{
  ℕ, zero, suc, ◌+◌, ◌-◌, ◌*◌, ◌≤◌, ◌<◌, ◌≡◌, refl, sym, ap, ◌∙◌, ◌≢◌, ◌↔◌, ◌⊎◌, inl, inr, Bool,
  true, false, not, ◌&&◌, ◌||◌, Option, none, some, List, [], ◌∷◌, ◌++◌, map, String, arith, ◌==◌,
  eq_iff, eq_refl, byte_length, ltb, leb, eqb, if◌then◌else◌, Bool-cases, Option-cases, length, all,
  any, All, length-append, rev_onto, rev_onto-append, is_nil, sort_by, length-sort_by, any-sort_by,
  Outcome, ok, err, ◌>>=◌, ◌>>◌, guard, Outcome-cases,
}
use fleetdeck.Prelude.Dict.{
  Dict, lookup, insert, delete, delete_if, lookup-insert, lookup-delete, length-insert,
  length-delete, length-delete_if, IsDistinct, drop_if, lookup-delete_if, insert-IsDistinct,
  delete-IsDistinct, delete_if-IsDistinct, length-insert_found,
}
use fleetdeck.Prelude.Texts.{codes, has_prefix, has_suffix, contains, text_leb}

pub record WatchdogConfig : Type 0 where
  pub url : String
  pub duration : ℕ
  pub interval : ℕ
  pub timeout : ℕ
  pub failure_threshold : ℕ
  pub expected_status : ℕ

pub record WatchResult : Type 0 where
  pub healthy : Bool
  pub probes : ℕ
  pub consecutive_failures : ℕ
  pub last_status : ℕ
  pub last_error : String

-- What a probe answers: a status, or 0 and an error.
pub data Probe : Type 0 where
  answered : ℕ → Probe
  broken : String → Probe

pub data Event : Type 0 where
  tick : Bool → Probe → Event
  cancelled : Event

abbrev pub or_default : ℕ → ℕ → ℕ
or_default n default_value = if eqb n 0 then default_value else n

unfoldable pub apply_watchdog_defaults : WatchdogConfig → WatchdogConfig
apply_watchdog_defaults cfg = record cfg {
  duration = or_default cfg.duration 300000000000;
  interval = or_default cfg.interval 10000000000;
  timeout = or_default cfg.timeout 5000000000;
  failure_threshold = or_default cfg.failure_threshold 3;
  expected_status = or_default cfg.expected_status 200;
}

abbrev pub status_of : Probe → ℕ
status_of (answered n) = n
status_of (broken e) = 0

abbrev pub error_of : Probe → String
error_of (answered n) = ""
error_of (broken e) = e

abbrev pub max_of : ℕ → ℕ → ℕ
max_of a b = if ltb b a then a else b

-- `probe`: the result and the count of consecutive failures after it.
unfoldable pub probe : WatchdogConfig → Probe → WatchResult → ℕ → WatchResult × ℕ
probe cfg p result consecutive =
    let seen = record result {
      probes = result.probes + 1;
      last_status = status_of p;
      last_error = error_of p;
    } in
    if eqb (status_of p) cfg.expected_status then (seen, 0) else (
      record seen { consecutive_failures = max_of (consecutive + 1) result.consecutive_failures },
      consecutive + 1,
    )

-- The loop; it has no result where the events end before it returns.
unfoldable pub observe_loop : WatchdogConfig → WatchResult → ℕ → List Event → Option WatchResult
observe_loop cfg result consecutive [] = none
observe_loop cfg result consecutive (cancelled ∷ es) =
    some (record result { healthy = ltb consecutive cfg.failure_threshold })
observe_loop cfg result consecutive (tick late p ∷ es) =
    let (seen, count) = probe cfg p result consecutive in
    let rest = observe_loop cfg seen count es in
    if late
    then some (record result { healthy = true })
    else if leb cfg.failure_threshold count
    then some seen
    else rest

abbrev pub initial_result : WatchResult
initial_result = record {
  healthy = false;
  probes = 0;
  consecutive_failures = 0;
  last_status = 0;
  last_error = "";
}

-- `Observe` with the defaults applied.
abbrev pub observe_with : WatchdogConfig → Probe → List Event → Option WatchResult
observe_with cfg p es =
    let (seen, count) = probe cfg p initial_result 0 in
    let rest = observe_loop cfg seen count es in
    if leb cfg.failure_threshold count then some seen else rest

unfoldable pub observe : WatchdogConfig → Probe → List Event → Option WatchResult
observe cfg p es = observe_with (apply_watchdog_defaults cfg) p es
