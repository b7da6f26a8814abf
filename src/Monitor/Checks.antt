-- ===== src/Monitor/Checks.antt =====
-- internal/monitor/monitor.go: `New`, `CheckOnce` and `record`. What net/http answers to a request,
-- under the redirect policy it is given, is an argument, with the time it took; so are
-- `strings.TrimSpace` and `strings.EqualFold`. Saving the state file is left out.
pub mod Interleaved
pub mod Status
use fleetdeck.Prelude.{
  ℕ, zero, suc, ◌+◌, ◌-◌, ◌*◌, ◌≤◌, ◌<◌, ◌≡◌, refl, sym, ap, ◌∙◌, ◌≢◌, ◌↔◌, ◌⊎◌, inl, inr, Bool,
  true, false, not, ◌&&◌, ◌||◌, Option, none, some, List, [], ◌∷◌, ◌++◌, map, String, arith, ◌==◌,
  eq_iff, eq_refl, byte_length, ltb, leb, eqb, if◌then◌else◌, Bool-cases, Option-cases, length, all,
  any, All, length-append, rev_onto, rev_onto-append, is_nil, Outcome, ok, err, ◌>>=◌, ◌>>◌, guard,
  Outcome-cases,
}
use fleetdeck.Prelude.Dict.{
  Dict, lookup, insert, delete, delete_if, lookup-insert, lookup-delete, length-insert,
  length-delete, length-delete_if, IsDistinct, drop_if, lookup-delete_if, insert-IsDistinct,
  delete-IsDistinct, delete_if-IsDistinct, length-insert_found,
}
use fleetdeck.Monitor.Types.{
  Target, CheckResult, failure_cloudflare_challenge, health_status, Alert,
}
use fleetdeck.Monitor.Alerts.{AlertManager, new_alert_manager, process}

pub record Monitor : Type 0 where
  pub targets : List Target
  pub alerts : AlertManager
  pub results : Dict CheckResult
  pub state_path : String

unfoldable pub new_monitor : List Target → ℕ → Monitor
new_monitor targets threshold = record {
  targets = targets;
  alerts = new_alert_manager (if eqb threshold 0 then 3 else threshold);
  results = [];
  state_path = "";
}

-- What the policy for redirects says: follow it, take the last response, or give up.
pub data Redirect : Type 0 where
  follow use_last_response too_many : Redirect

-- What came of a request: it could not be built, got no response, or got a status and the value of
-- the header Cf-Mitigated.
pub data Exchange : Type 0 where
  not_built : String → Exchange
  no_response : String → ℕ → Exchange
  responded : ℕ → String → ℕ → Exchange

abbrev pub or_else : String → String → String
or_else s default_value = if s == "" then default_value else s

abbrev pub number_or : ℕ → ℕ → ℕ
number_or n default_value = if eqb n 0 then default_value else n

abbrev pub unchecked : Target → ℕ → CheckResult
unchecked target at = record {
  target = target;
  status_code = 0;
  response_time = 0;
  healthy = false;
  failure_kind = "";
  error = "";
  checked_at = at;
}

module _ (trim : String → String) (equal_fold : String → String → Bool) where
  abbrev pub is_cloudflare_challenge : String → Bool
  is_cloudflare_challenge mitigated = equal_fold (trim mitigated) "challenge"

  -- The policy, on the header of the response that redirects, if there is one, and the number of
  -- requests so far.
  abbrev pub check_redirect : Option String → ℕ → Redirect
  check_redirect none via = if leb 10 via then too_many else follow
  check_redirect (some mitigated) via =
      if is_cloudflare_challenge mitigated
      then use_last_response
      else if leb 10 via
      then too_many
      else follow

  abbrev pub after_exchange : CheckResult → ℕ → Exchange → CheckResult
  after_exchange r expected (not_built e) = record r { error = e }
  after_exchange r expected (no_response e took) = record r { error = e; response_time = took }
  after_exchange r expected (responded code mitigated took) =
      let answered = record r { status_code = code; response_time = took } in
      if is_cloudflare_challenge mitigated
      then record answered { failure_kind = failure_cloudflare_challenge }
      else record answered { healthy = eqb code expected }

  -- The request has the target's method, URL and timeout, or the defaults for those.
  unfoldable pub check_once :
      (String → String → ℕ → (Option String → ℕ → Redirect) → Exchange) → Target → ℕ → CheckResult
  check_once exchange target at =
      after_exchange (unchecked target at) (number_or target.expected_status 200) (
        exchange (or_else target.method "GET") target.url (number_or target.timeout 10000000000)
          check_redirect)

-- The two critical sections of `record`, which goroutines call at the same time: each is one step, and
-- steps of other calls may come between the two.
unfoldable pub store_result : CheckResult → Monitor → Monitor
store_result r m = record m { results = insert r.target.name r m.results }

-- The alert is the one that the alert manager sends.
unfoldable pub notify_alerts : CheckResult → Monitor → Monitor × Option Alert
notify_alerts r m = let (am, alert) = process m.alerts r in (record m { alerts = am }, alert)
