-- ===== src/ReleaseJob/Types.antt =====
-- The data of a release job: internal/releasejob/contract.go (the request) and executor.go (the
-- evidence, the result, the reservation). An instant of time.Time is a number of nanoseconds.
use fleetdeck.Prelude.{ℕ, Bool, List, Option, String}

pub record Target : Type 0 where
  pub id : String
  pub environment : String
  pub profile : String
  pub expected_current_release_id : Option String

pub record Image : Type 0 where
  pub component : String
  pub reference : String

pub record BackupPolicy : Type 0 where
  pub required : Bool

pub record MigrationPolicy : Type 0 where
  pub mode : String
  pub compatibility : String

pub record RecoveryPolicy : Type 0 where
  pub mode : String

pub record Request : Type 0 where
  pub schema_version : ℕ
  pub job_id : String
  pub idempotency_key : String
  pub release_id : String
  pub manifest_digest : String
  pub target : Target
  pub images : List Image
  pub backup : BackupPolicy
  pub migration : MigrationPolicy
  pub recovery : RecoveryPolicy
  pub health_profile : String

pub record PreflightEvidence : Type 0 where
  pub compose_valid : Bool
  pub images_resolved : Bool
  pub migration_ready : Bool

pub record BackupEvidence : Type 0 where
  pub backup_id : String
  pub manifest_sha256 : String
  pub verified : Bool
  pub encrypted : Bool
  pub offsite_verified : Bool

pub record RollbackEvidence : Type 0 where
  pub backup_id : String
  pub mode : String
  pub restored : Bool
  pub health_verified : Bool

pub record ApplyEvidence : Type 0 where
  pub applied_components : ℕ
  pub migration_applied : Bool

pub record HealthEvidence : Type 0 where
  pub profile : String
  pub checks_passed : ℕ
  pub attempts : ℕ

-- `failed_step` and `error_code` are "" where the source leaves them out.
pub record Result : Type 0 where
  pub schema_version : ℕ
  pub job_id : String
  pub idempotency_key : String
  pub release_id : String
  pub target_id : String
  pub status : String
  pub started_at : ℕ
  pub finished_at : Option ℕ
  pub preflight : Option PreflightEvidence
  pub backup : Option BackupEvidence
  pub rollback : Option RollbackEvidence
  pub apply : Option ApplyEvidence
  pub health : Option HealthEvidence
  pub failed_step : String
  pub error_code : String

-- A reservation was acquired, or replays a stored result.
pub data Reservation : Type 0 where
  acquired : Reservation
  replay : Option Result → Reservation

abbrev pub schema_version : ℕ
schema_version = 2
