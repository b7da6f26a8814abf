-- ===== src/Monitor/Alerts.antt =====
-- internal/monitor/alerts.go: `AlertManager`. The mutex makes each `Process` one step.
pub mod History
pub mod Targets
use fleetdeck.Prelude.{
  ℕ, ◌+◌, Bool, true, false, not, ◌&&◌, ◌||◌, List, [], ◌∷◌, String, Option, none, some, ◌==◌, ltb,
  leb, if◌then◌else◌,
}
use fleetdeck.Prelude.Dict.{Dict, lookup, insert}
use fleetdeck.Monitor.Types.{
  Target, CheckResult, health_status, Title, recovered, health_check_blocked, is_down, Cause,
  request_failed, bad_status, Message, healthy_again, challenged, failed_checks, Alert,
  AlertProvider,
}

pub record TargetState : Type 0 where
  pub consecutive_failures : ℕ
  pub consecutive_status : ℕ
  pub pending_status : String
  pub alerted_status : String

abbrev pub fresh : TargetState
fresh = record {
  consecutive_failures = 0;
  consecutive_status = 0;
  pending_status = "";
  alerted_status = "";
}

pub record AlertManager : Type 0 where
  pub failure_threshold : ℕ
  pub states : Dict TargetState

unfoldable pub new_alert_manager : ℕ → AlertManager
new_alert_manager threshold = record {
  failure_threshold = if ltb threshold 1 then 1 else threshold;
  states = [];
}

abbrev pub recovery_alert : CheckResult → Alert
recovery_alert r = record {
  level = "info";
  title = recovered r.target.name;
  message = healthy_again r.target.name r.status_code r.response_time;
  target = r.target.name;
  timestamp = r.checked_at;
}

abbrev pub blocked_alert : CheckResult → Alert
blocked_alert r = record {
  level = "warning";
  title = health_check_blocked r.target.name;
  message = challenged;
  target = r.target.name;
  timestamp = r.checked_at;
}

-- A transport error is replaced by a fixed cause.
abbrev pub down_alert : CheckResult → ℕ → Alert
down_alert r failures = record {
  level = "critical";
  title = is_down r.target.name;
  message =
      failed_checks r.target.name failures
        (if r.error == "" then bad_status r.status_code else request_failed);
  target = r.target.name;
  timestamp = r.checked_at;
}

abbrev pub bump : ℕ → ℕ → ℕ
bump threshold n = if ltb n threshold then n + 1 else n

-- The counters after a check that was not healthy.
unfoldable pub count_failure : ℕ → String → TargetState → TargetState
count_failure threshold status s =
    let changed = not (s.pending_status == status) in
    record s {
      consecutive_failures = bump threshold s.consecutive_failures;
      consecutive_status = bump threshold (if changed then 0 else s.consecutive_status);
      pending_status = if changed then status else s.pending_status;
    }

abbrev pub must_alert : ℕ → String → TargetState → Bool
must_alert threshold status s =
    leb threshold s.consecutive_failures
    && not (s.alerted_status == status)
    && (s.alerted_status == "" || leb threshold s.consecutive_status)

-- `Process` on the state of the result's target: its new state, and the alert to send.
unfoldable pub process_state : ℕ → CheckResult → TargetState → TargetState × Option Alert
unfolding count_failure
process_state threshold r s =
    let status = health_status r in
    let counted = count_failure threshold status s in
    if status == "healthy"
    then (fresh, if s.alerted_status == "" then none else some (recovery_alert r))
    else if must_alert threshold status counted
    then (
      record counted { alerted_status = status },
      some (
          if status == "blocked"
          then blocked_alert r
          else down_alert r counted.consecutive_failures),
    )
    else (counted, none)

abbrev pub state_of : String → AlertManager → TargetState
state_of name am = elim (lookup name am.states) [ none ↦ fresh | some s ↦ s ]

unfoldable pub process : AlertManager → CheckResult → AlertManager × Option Alert
process am r =
    let (s, alert) = process_state am.failure_threshold r (state_of r.target.name am) in
    (record am { states = insert r.target.name s am.states }, alert)

-- `send`: every provider is called, whether the others fail or not.
unfoldable pub send : {W : Type 0} → List (AlertProvider W) → Alert → W → W
send [] alert w = w
send (p ∷ ps) alert w = send ps alert (p.send alert w).1

abbrev pub send_option : {W : Type 0} → List (AlertProvider W) → Option Alert → W → W
send_option ps none w = w
send_option ps (some alert) w = send ps alert w

-- `Process` with its sending, over the manager's providers.
unfoldable pub process_and_send :
    {W : Type 0} → List (AlertProvider W) → AlertManager → CheckResult → W → AlertManager × W
process_and_send ps am r w =
    let (changed, alert) = process am r in (changed, send_option ps alert w)
