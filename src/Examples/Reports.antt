-- ===== src/Examples/Reports.antt =====
-- A snapshot, a watch and a listing of services.
use fleetdeck.Prelude.{
  ◌≡◌, refl, true, false, Option, none, some, List, [], ◌∷◌, map, String, ◌==◌, length, all,
}
use fleetdeck.Fleet.{pos, Snapshot}
use fleetdeck.Deploy.Watchdog.{
  WatchdogConfig, WatchResult, answered, broken, Event, tick, apply_watchdog_defaults, observe,
}
use fleetdeck.Deploy.Watchdog.Runs.{longest_run, offered}
use fleetdeck.Deploy.Watchdog.Verdict.{IsVerdict, observe-IsVerdict}
use fleetdeck.Health.{HealthReport, ComposePsEntry, parse_health_report}
use fleetdeck.Health.Laws.{shown, reported, is_up, parse_health_report-is_up}

abbrev node_snapshot : Snapshot
node_snapshot = record {
  schema = 1;
  node_id = "n1";
  generated_at = 500;
  version = "v1";
  commit = "c";
  projects = record { name = "shop"; registry_status = "ok"; last_backup = some 400 } ∷ [];
  monitoring = record {
    observation = "ok";
    checked_at = some 450;
    healthy = pos 2;
    unhealthy = pos 0;
    unknown = pos 0;
  };
  security = record {
    observation = "unknown";
    checked_at = none;
    critical = pos 0;
    high = pos 0;
    runtime_findings = pos 0;
    unknown = pos 3;
  };
}

abbrev no_settings : WatchdogConfig
no_settings = record {
  url = "https://a";
  duration = 0;
  interval = 0;
  timeout = 0;
  failure_threshold = 0;
  expected_status = 0;
}

abbrev flapping : List Event
flapping = tick false (broken "refused") ∷ tick false (answered 200) ∷ tick true (answered 200) ∷ []

observe-IsVerdict_example :
    (w : WatchResult) × (observe no_settings (answered 500) flapping ≡ some w)
    × IsVerdict
        (apply_watchdog_defaults no_settings).failure_threshold
        (longest_run
          (apply_watchdog_defaults no_settings).expected_status
          (answered 500 ∷ offered flapping))
        (length (answered 500 ∷ offered flapping))
        w
observe-IsVerdict_example = observe-IsVerdict no_settings (answered 500) flapping refl

abbrev web : ComposePsEntry
web = record {
  name = "web";
  state = "running";
  service_status = "Up";
  health = "healthy";
  labels = "";
  exit_code = none;
}

abbrev as_is : String → String
as_is s = s

abbrev one_part : String → List String
one_part s = s ∷ []

abbrev one_service : String → Option (List ComposePsEntry)
one_service s = some (web ∷ [])

parse_health_report-is_up_example :
    (w : HealthReport) × (parse_health_report as_is one_part as_is one_service "[{}]" ≡ some w)
    × (w.healthy ≡ all (is_up as_is one_part) (web ∷ []))
    × (map shown w.services ≡ map reported (web ∷ []))
unfolding ◌==◌
parse_health_report-is_up_example =
    parse_health_report-is_up as_is one_part as_is one_service "[{}]" web [] refl refl refl
