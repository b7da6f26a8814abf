-- ===== src/Examples/Alerts.antt =====
-- A target that fails three times while another is healthy.
use fleetdeck.Prelude.{
  ℕ, ◌≡◌, refl, ◌≢◌, Bool, true, false, Option, none, some, List, [], ◌∷◌, String, ◌==◌,
  if◌then◌else◌,
}
use fleetdeck.Prelude.Dict.{lookup, insert}
use fleetdeck.Monitor.Checks.{
  new_monitor, store_result, notify_alerts, Monitor, Redirect, Exchange, responded, check_once,
}
use fleetdeck.Monitor.Checks.Status.{Trip, walk, Answers, trip_status, check_once-status}
use fleetdeck.Monitor.Checks.Interleaved.{
  InFlight, set, nothing_in_flight, Running, made, storing, notifying, Agrees, Running-Agrees,
}
use fleetdeck.Monitor.Types.{Target, CheckResult}
use fleetdeck.Monitor.Alerts.{new_alert_manager, process, process_state, count_failure, state_of}
use fleetdeck.Monitor.Types.{health_status}
use fleetdeck.Monitor.Alerts.History.{after, Tracks, Decided}
use fleetdeck.Monitor.Alerts.Targets.{
  process_all, results_of, process_all-state_of, manager_after, view_of, manager_after-Tracks,
  process-Decided,
}

abbrev site : String → Target
site n = record {
  name = n;
  url = "https://a";
  method = "GET";
  expected_status = 200;
  timeout = 1;
  interval = 1;
}

abbrev seen_at : String → Bool → ℕ → CheckResult
seen_at n good at = record {
  target = site n;
  status_code = if good then 200 else 500;
  response_time = 5;
  healthy = good;
  failure_kind = "";
  error = "";
  checked_at = at;
}

abbrev outage : List CheckResult
outage = seen_at "a" false 1 ∷ seen_at "b" true 2 ∷ seen_at "a" false 3 ∷ []

third_alerts : (process (manager_after 3 outage) (seen_at "a" false 4)).1 ≢ none
unfolding process process_state count_failure health_status new_alert_manager lookup insert ◌==◌
third_alerts h = cc

process-Decided_example :
    Decided
      (new_alert_manager 3).failure_threshold
      (view_of "a" outage)
      (state_of "a" (manager_after 3 outage))
      (seen_at "a" false 4)
      (process (manager_after 3 outage) (seen_at "a" false 4)).1
process-Decided_example = process-Decided 3 (seen_at "a" false 4) outage

manager_after-Tracks_example :
    Tracks
      (new_alert_manager 3).failure_threshold
      (view_of "a" outage)
      (state_of "a" (manager_after 3 outage))
manager_after-Tracks_example = manager_after-Tracks 3 "a" outage

process_all-state_of_example :
    state_of "a" (process_all (new_alert_manager 3) outage)
    ≡ after
        (new_alert_manager 3).failure_threshold
        (results_of "a" outage)
        (state_of "a" (new_alert_manager 3))
process_all-state_of_example = process_all-state_of "a" (new_alert_manager 3) outage

abbrev same_text : String → String
same_text s = s

-- A server that redirects to a challenge, which redirects to an answer.
abbrev guarded_trip : Trip
guarded_trip = record {
  redirects =
      record { code = 302; mitigated = ""; took = 3 }
      ∷ record { code = 302; mitigated = "challenge"; took = 5 }
      ∷ [];
  last = responded 200 "" 9;
  error = "stopped after 10 redirects";
}

abbrev guarded_server : String → String → ℕ → Trip
guarded_server method url timeout = guarded_trip

abbrev client : String → String → ℕ → (Option String → ℕ → Redirect) → Exchange
client method url timeout policy =
    walk policy guarded_trip.error 1 guarded_trip.redirects guarded_trip.last

client-Answers : Answers client guarded_server
client-Answers method url timeout policy = refl

check_once-status_example :
    health_status (check_once same_text ◌==◌ client (site "a") 4)
    ≡ trip_status same_text ◌==◌ 10 200 guarded_trip.redirects guarded_trip.last
check_once-status_example =
    check_once-status same_text ◌==◌ client guarded_server (site "a") 4 client-Answers

-- Which is: blocked.
guarded-blocked :
    trip_status same_text ◌==◌ 10 200 guarded_trip.redirects guarded_trip.last ≡ "blocked"
unfolding ◌==◌
guarded-blocked = refl

abbrev down_a : CheckResult
down_a = seen_at "a" false 1

abbrev down_b : CheckResult
down_b = seen_at "b" false 2

-- Both loops have stored a result, and the one of the target a has told the alert manager.
abbrev two_loops : Monitor
two_loops =
    (notify_alerts down_a
      (store_result down_b (store_result down_a (new_monitor (site "a" ∷ []) 3)))).0

abbrev b_in_flight : InFlight
b_in_flight = set "a" none (set "b" (some down_b) (set "a" (some down_a) nothing_in_flight))

two_loops-Running : Running (site "a" ∷ []) 3 two_loops b_in_flight
unfolding ◌==◌
two_loops-Running = notifying down_a refl (storing down_b refl (storing down_a refl made))

Running-Agrees_example : Agrees "a" two_loops b_in_flight
Running-Agrees_example = Running-Agrees "a" two_loops-Running
