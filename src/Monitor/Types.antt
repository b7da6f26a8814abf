-- ===== src/Monitor/Types.antt =====
-- internal/monitor/monitor.go: targets, results and their health status; alerts.go: alerts and their
-- providers. Durations and instants are numbers of nanoseconds.
use fleetdeck.Prelude.{ℕ, Bool, String, ◌==◌, if◌then◌else◌}

pub record Target : Type 0 where
  pub name : String
  pub url : String
  pub method : String
  pub expected_status : ℕ
  pub timeout : ℕ
  pub interval : ℕ

pub record CheckResult : Type 0 where
  pub target : Target
  pub status_code : ℕ
  pub response_time : ℕ
  pub healthy : Bool
  pub failure_kind : String
  pub error : String
  pub checked_at : ℕ

abbrev pub failure_cloudflare_challenge : String
failure_cloudflare_challenge = "cloudflare_challenge"

unfoldable pub health_status : CheckResult → String
health_status r =
    if r.failure_kind == failure_cloudflare_challenge
    then "blocked"
    else if r.healthy
    then "healthy"
    else "unhealthy"

-- The formatted titles and messages, by their format and its arguments.
pub data Title : Type 0 where
  recovered health_check_blocked is_down : String → Title
  plain : String → Title

pub data Cause : Type 0 where
  request_failed : Cause
  bad_status : ℕ → Cause

pub data Message : Type 0 where
  healthy_again : String → ℕ → ℕ → Message
  challenged : Message
  failed_checks : String → ℕ → Cause → Message
  text : String → Message
  security_summary : ℕ → ℕ → ℕ → Bool → Message

pub record Alert : Type 0 where
  pub level : String
  pub title : Title
  pub message : Message
  pub target : String
  pub timestamp : ℕ

-- `AlertProvider`, over the state `W` of the world: a call says whether it failed.
pub record AlertProvider (W : Type 0) : Type 0 where
  pub name : String
  pub send : Alert → W → Bool × W
