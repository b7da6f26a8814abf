-- ===== src/ReleaseJob/Executor.antt =====
-- internal/releasejob/executor.go: `Execute`, over the store of release_jobs.go and a runtime.
pub mod Ends
pub mod Cases
pub mod Safety
pub mod Replay
pub mod Protocol
use Prim.Native.String
use fleetdeck.Prelude.{
  ℕ, Bool, true, false, not, ◌&&◌, ◌||◌, String, Option, none, some, ◌==◌, eqb, ltb, length,
  if◌then◌else◌, Outcome, ok, err,
}
use fleetdeck.Regex.{match_string}
use fleetdeck.ReleaseJob.Types.{
  Request, Result, PreflightEvidence, BackupEvidence, RollbackEvidence, ApplyEvidence,
  HealthEvidence, Reservation, acquired, replay, schema_version,
}
use fleetdeck.ReleaseJob.Contract.{ContractError, digest_pattern, validate}
use fleetdeck.ReleaseJob.Store.{
  Json, Db, Stmt, StoreError, reserve, current_release, complete_success, complete_failure,
}

-- What a runtime call returns: the evidence, whether its error is set, and the host afterwards.
abbrev pub Reply : Type 0 → Type 0 → Type 0
Reply W A = A × Bool × W

-- The interface `Runtime` and the clock, over the state `W` of the host.
pub record Runtime (W : Type 0) : Type 0 where
  pub now : W → ℕ
  pub preflight : Request → W → Reply W PreflightEvidence
  pub create_and_verify_backup : Request → W → Reply W BackupEvidence
  pub restore_backup : Request → BackupEvidence → W → Reply W RollbackEvidence
  pub apply : Request → W → Reply W ApplyEvidence
  pub verify_health : Request → W → Reply W HealthEvidence

pub data ExecuteError : Type 0 where
  invalid : ContractError → ExecuteError
  not_hashed : ExecuteError
  not_reserved : StoreError → ExecuteError
  no_replay_result : ExecuteError
  not_persisted : StoreError → ExecuteError

-- `(result, nil)`, `(result, error)` and `(Result{}, error)`.
pub data Executed : Type 0 where
  returned : Result → Executed
  failed : Result → Executed
  refused : ExecuteError → Executed

-- `RequestSHA256`; the hash of a document is the argument `sha256_hex`.
abbrev pub request_sha256 : {Doc : Type 0} → Json Doc → (Doc → String) → Request → Option String
request_sha256 json sha256_hex request = elim (json.marshal_request request) [
  | none ↦ none
  | some doc ↦ some (String.◌++◌ "sha256:" (sha256_hex doc))
]

abbrev pub same_optional_string : Option String → Option String → Bool
same_optional_string none none = true
same_optional_string (some a) (some b) = a == b
same_optional_string _ _ = false

abbrev pub started_result : Request → ℕ → Result
started_result request started_at = record {
  schema_version = schema_version;
  job_id = request.job_id;
  idempotency_key = request.idempotency_key;
  release_id = request.release_id;
  target_id = request.target.id;
  status = "running";
  started_at = started_at;
  finished_at = none;
  preflight = none;
  backup = none;
  rollback = none;
  apply = none;
  health = none;
  failed_step = "";
  error_code = "";
}

-- The conditions under which a step is taken to have failed.
abbrev pub preflight_failed : PreflightEvidence → Bool → Bool
preflight_failed p e = e || not p.compose_valid || not p.images_resolved || not p.migration_ready

abbrev pub backup_failed : BackupEvidence → Bool → Bool
backup_failed b e =
    e
    || not b.verified
    || not b.encrypted
    || not b.offsite_verified
    || not (match_string digest_pattern b.manifest_sha256)
    || b.backup_id == ""

abbrev pub apply_failed : Request → ApplyEvidence → Bool → Bool
apply_failed request a e = e || not (eqb a.applied_components (length request.images))

abbrev pub migration_missing : Request → ApplyEvidence → Bool
migration_missing request a =
    request.migration.mode == "preflight-and-apply" && not a.migration_applied

abbrev pub health_failed : Request → HealthEvidence → Bool → Bool
health_failed request h e = e || not (h.profile == request.health_profile) || ltb h.checks_passed 1

abbrev pub rollback_failed : Request → BackupEvidence → RollbackEvidence → Bool → Bool
rollback_failed request b r e =
    e
    || not (r.backup_id == b.backup_id)
    || not (r.mode == request.recovery.mode)
    || not r.restored
    || not r.health_verified

-- `if err != nil { return Result{}, … }` after a completion.
abbrev pub persisted : Outcome StoreError (Unit {0}) → Executed → Executed
persisted (ok _) answer = answer
persisted (err e) answer = refused (not_persisted e)

-- The answer of an execution, and the store and the host that it leaves.
abbrev pub Final : Type 0 → Type 0 → Type 0
Final Doc W = Executed × Db Doc × W

module _ {Doc W : Type 0} (json : Json Doc) (runtime : Runtime W) (runs : Stmt → Bool) where
  unfoldable pub fail : Result → String → String → Db Doc → W → Final Doc W
  fail result step code db w =
      let result = record result {
        status = "failed";
        finished_at = some (runtime.now w);
        failed_step = step;
        error_code = code;
      } in
      let (answer, changed) = complete_failure json runs result db in
      (persisted answer (failed result), changed, w)

  unfoldable pub recover_and_fail :
      Result → Request → BackupEvidence → String → String → Db Doc → W → Final Doc W
  recover_and_fail result request backup step code db w =
      let (rollback, e, w) = runtime.restore_backup request backup w in
      let result = record result { rollback = some rollback } in
      if rollback_failed request backup rollback e
      then fail result "rollback" "ROLLBACK_FAILED" db w
      else fail result step code db w

  -- The failures after the release was applied: with a backup and runtime-only recovery the backup
  -- is restored first.
  abbrev pub fail_applied :
      Result → Request → Option BackupEvidence → String → String → Db Doc → W → Final Doc W
  fail_applied result request none step code db w = fail result step code db w
  fail_applied result request (some backup) step code db w =
      if request.recovery.mode == "runtime-only"
      then recover_and_fail result request backup step code db w
      else fail result step code db w

  unfoldable pub succeed : Result → Request → Db Doc → W → Final Doc W
  succeed result request db w =
      let result = record result { status = "succeeded"; finished_at = some (runtime.now w) } in
      let (answer, changed) = complete_success json runs result request.manifest_digest db in
      (persisted answer (returned result), changed, w)

  unfoldable pub run_health : Result → Request → Db Doc → W → Final Doc W
  run_health result request db w =
      let (health, e, w) = runtime.verify_health request w in
      let result = record result { health = some health } in
      if health_failed request health e
      then fail_applied result request result.backup "health" "HEALTH_FAILED" db w
      else succeed result request db w

  unfoldable pub run_apply : Result → Request → Db Doc → W → Final Doc W
  run_apply result request db w =
      let (apply, e, w) = runtime.apply request w in
      let result = record result { apply = some apply } in
      if apply_failed request apply e
      then fail_applied result request result.backup "apply" "APPLY_FAILED" db w
      else if migration_missing request apply
      then fail_applied result request result.backup "apply" "MIGRATION_NOT_APPLIED" db w
      else run_health result request db w

  unfoldable pub run_backup : Result → Request → Db Doc → W → Final Doc W
  run_backup result request db w =
      if request.backup.required
      then (let (backup, e, w) = runtime.create_and_verify_backup request w in
          let result = record result { backup = some backup } in
          if backup_failed backup e
          then fail result "backup" "BACKUP_NOT_VERIFIED" db w
          else run_apply result request db w)
      else run_apply result request db w

  unfoldable pub run_preflight : Result → Request → Db Doc → W → Final Doc W
  run_preflight result request db w =
      let (preflight, e, w) = runtime.preflight request w in
      let result = record result { preflight = some preflight } in
      if preflight_failed preflight e
      then fail result "preflight" "PREFLIGHT_FAILED" db w
      else run_backup result request db w

  abbrev pub after_current :
      Outcome StoreError (Option String) → Result → Request → Db Doc → W → Final Doc W
  after_current (err _) result request db w =
      fail result "expected-current-release" "CURRENT_RELEASE_UNAVAILABLE" db w
  after_current (ok current) result request db w =
      if same_optional_string current request.target.expected_current_release_id
      then run_preflight result request db w
      else fail result "expected-current-release" "CURRENT_RELEASE_MISMATCH" db w

  -- From the acquired reservation on.
  unfoldable pub run_job : Result → Request → Db Doc → W → Final Doc W
  run_job result request db w =
      after_current (current_release runs request.target.id db) result request db w

  abbrev pub after_reserve : Outcome StoreError Reservation → ℕ → Request → Db Doc → W → Final Doc W
  after_reserve (err e) started_at request db w = (refused (not_reserved e), db, w)
  after_reserve (ok (replay none)) started_at request db w = (refused no_replay_result, db, w)
  after_reserve (ok (replay (some result))) started_at request db w = (returned result, db, w)
  after_reserve (ok acquired) started_at request db w =
      run_job (started_result request started_at) request db w

  abbrev pub after_hash : Option String → Request → Db Doc → W → Final Doc W
  after_hash none request db w = (refused not_hashed, db, w)
  after_hash (some hash) request db w =
      let started_at = runtime.now w in
      let (reservation, changed) = reserve json runs request hash started_at db in
      after_reserve reservation started_at request changed w

  abbrev pub after_validate :
      Outcome ContractError (Unit {0}) → Option String → Request → Db Doc → W → Final Doc W
  after_validate (err e) hash request db w = (refused (invalid e), db, w)
  after_validate (ok _) hash request db w = after_hash hash request db w

  unfoldable pub execute : (Doc → String) → Request → Db Doc → W → Final Doc W
  execute sha256_hex request db w =
      after_validate (validate request) (request_sha256 json sha256_hex request) request db w
