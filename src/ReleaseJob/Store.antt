-- ===== src/ReleaseJob/Store.antt =====
-- internal/db/release_jobs.go, over the tables release_jobs and release_targets of internal/db/db.go.
-- A table is the list of its rows. SQLite runs each transaction as one step; which statements the
-- driver refuses is the argument `runs`. The JSON encoding is the argument `json`, over a type of
-- documents.
pub mod Answers
pub mod Invariant
pub mod Reach
use Prim.Native.String.{len}
use fleetdeck.Prelude.{
  ℕ, suc, Bool, true, false, not, ◌&&◌, ◌||◌, List, [], ◌∷◌, ◌++◌, String, Option, none, some, map,
  ◌==◌, eqb, any, length, if◌then◌else◌, Outcome, ok, err, guard, ◌>>=◌, ◌>>◌,
}
use fleetdeck.Prelude.Texts.{codes, has_prefix}
use fleetdeck.ReleaseJob.Types.{Request, Result, Reservation, acquired, replay}

-- encoding/json, as far as the store uses it: `none` is an error of the encoder or decoder.
pub record Json (Doc : Type 0) : Type 0 where
  pub marshal_request : Request → Option Doc
  pub marshal_result : Result → Option Doc
  pub unmarshal_result : Doc → Option Result

-- A row of release_jobs.
pub record Job (Doc : Type 0) : Type 0 where
  pub idempotency_key : String
  pub job_id : String
  pub release_id : String
  pub manifest_digest : String
  pub target_id : String
  pub environment : String
  pub request_sha256 : String
  pub request_json : Doc
  pub status : String
  pub result_json : Option Doc
  pub started_at : ℕ
  pub finished_at : Option ℕ

-- A row of release_targets.
pub record TargetRow : Type 0 where
  pub target_id : String
  pub current_release_id : String
  pub manifest_digest : String
  pub updated_at : Option ℕ

pub record Db (Doc : Type 0) : Type 0 where
  pub jobs : List (Job Doc)
  pub targets : List TargetRow

-- The statements of the file, each run at most once by an execution.
pub data Stmt : Type 0 where
  begin_reserve select_key select_active insert_job commit_reserve : Stmt
  select_current : Stmt
  begin_success update_success upsert_target commit_success : Stmt
  update_failure : Stmt

pub data StoreError : Type 0 where
  marshal_failed unmarshal_failed key_reused job_in_progress target_busy : StoreError
  invalid_status no_stored_result constraint_violated lost_race : StoreError
  not_a_success not_a_failure invalid_digest : StoreError
  driver_failed : Stmt → StoreError

-- A transaction commits its copy of the tables, or leaves them as they were.
abbrev pub transaction :
    {Doc A : Type 0} → Db Doc → Outcome StoreError (A × Db Doc) → Outcome StoreError A × Db Doc
transaction db (ok (a, changed)) = (ok a, changed)
transaction db (err e) = (err e, db)

abbrev pub or_error : {A : Type 0} → Option A → StoreError → Outcome StoreError A
or_error none e = err e
or_error (some a) e = ok a

module _ {Doc : Type 0} where
  -- `SELECT … WHERE idempotency_key = ?`
  unfoldable pub find_job : String → List (Job Doc) → Option (Job Doc)
  find_job key [] = none
  find_job key (j ∷ js) = if j.idempotency_key == key then some j else find_job key js

  -- `WHERE target_id = ? AND status = 'running'`
  abbrev pub is_active : String → Job Doc → Bool
  is_active target j = j.target_id == target && j.status == "running"

  unfoldable pub busy : String → List (Job Doc) → Bool
  busy target js = any (is_active target) js

  -- The UNIQUE constraint on job_id.
  unfoldable pub job_id_taken : String → List (Job Doc) → Bool
  job_id_taken id js = any (λ j. j.job_id == id) js

  -- `WHERE idempotency_key = ? AND job_id = ? AND status = 'running'`
  abbrev pub is_open : Result → Job Doc → Bool
  is_open r j =
      j.idempotency_key == r.idempotency_key && j.job_id == r.job_id && j.status == "running"

  abbrev pub close_row : Result → Doc → Job Doc → Job Doc
  close_row r doc j =
      if is_open r j
      then record j { status = r.status; result_json = some doc; finished_at = r.finished_at }
      else j

  abbrev pub count_open : Result → List (Job Doc) → ℕ
  count_open r [] = 0
  count_open r (j ∷ js) = let rest = count_open r js in if is_open r j then suc rest else rest

  abbrev pub new_job : Request → String → Doc → ℕ → Job Doc
  new_job request sha256 doc started_at = record {
    idempotency_key = request.idempotency_key;
    job_id = request.job_id;
    release_id = request.release_id;
    manifest_digest = request.manifest_digest;
    target_id = request.target.id;
    environment = request.target.environment;
    request_sha256 = sha256;
    request_json = doc;
    status = "running";
    result_json = none;
    started_at = started_at;
    finished_at = none;
  }

abbrev pub is_finished : Result → Bool
is_finished r = elim r.finished_at [ none ↦ false | some _ ↦ true ]

abbrev pub upsert : TargetRow → List TargetRow → List TargetRow
upsert t [] = t ∷ []
upsert t (u ∷ us) = if u.target_id == t.target_id then t ∷ us else u ∷ upsert t us

unfoldable pub find_target : String → List TargetRow → Option TargetRow
find_target id [] = none
find_target id (t ∷ ts) = if t.target_id == id then some t else find_target id ts

module _ {Doc : Type 0} (json : Json Doc) where
  -- What `Reserve` answers where the key has a row.
  unfoldable pub stored : Job Doc → String → Outcome StoreError Reservation
  stored j sha256 = do
    guard (j.request_sha256 == sha256) key_reused
    guard (not (j.status == "running")) job_in_progress
    guard (j.status == "succeeded" || j.status == "failed") invalid_status
    doc ← or_error j.result_json no_stored_result
    result ← or_error (json.unmarshal_result doc) unmarshal_failed
    ok (replay (some result))

module _ {Doc : Type 0} (runs : Stmt → Bool) where
  -- What `Reserve` does where the key has no row.
  unfoldable pub insert_new :
      Request → String → Doc → ℕ → Db Doc → Outcome StoreError (Reservation × Db Doc)
  insert_new request sha256 doc started_at db = do
    guard (runs select_active) (driver_failed select_active)
    guard (not (busy request.target.id db.jobs)) target_busy
    guard (runs insert_job) (driver_failed insert_job)
    guard (not (job_id_taken request.job_id db.jobs)) constraint_violated
    guard (runs commit_reserve) (driver_failed commit_reserve)
    ok (acquired, record db { jobs = new_job request sha256 doc started_at ∷ db.jobs })

  unfoldable pub current_release : String → Db Doc → Outcome StoreError (Option String)
  current_release target db = do
    guard (runs select_current) (driver_failed select_current)
    ok (elim (find_target target db.targets) [ none ↦ none | some t ↦ some t.current_release_id ])

module _ {Doc : Type 0} (json : Json Doc) (runs : Stmt → Bool) where
  abbrev pub reserve_found :
      Option (Job Doc)
      → Request
      → String
      → Doc
      → ℕ
      → Db Doc
      → Outcome StoreError (Reservation × Db Doc)
  reserve_found (some j) request sha256 doc started_at db = do
    answer ← stored json j sha256
    ok (answer, db)
  reserve_found none request sha256 doc started_at db =
      insert_new runs request sha256 doc started_at db

  unfoldable pub reserve : Request → String → ℕ → Db Doc → Outcome StoreError Reservation × Db Doc
  reserve request sha256 started_at db = transaction db do
    doc ← or_error (json.marshal_request request) marshal_failed
    guard (runs begin_reserve) (driver_failed begin_reserve)
    guard (runs select_key) (driver_failed select_key)
    reserve_found (find_job request.idempotency_key db.jobs) request sha256 doc started_at db

  abbrev pub failure_document : Result → Outcome StoreError Doc
  failure_document r = do
    guard (r.status == "failed" && is_finished r && not (r.error_code == "")) not_a_failure
    doc ← or_error (json.marshal_result r) marshal_failed
    guard (runs update_failure) (driver_failed update_failure)
    ok doc

  unfoldable pub complete_success :
      Result → String → Db Doc → Outcome StoreError (Unit {0}) × Db Doc
  complete_success r manifest_digest db = transaction db do
    guard (r.status == "succeeded" && is_finished r) not_a_success
    guard (has_prefix (codes manifest_digest) (codes "sha256:") && eqb (len manifest_digest) 71)
        invalid_digest
    doc ← or_error (json.marshal_result r) marshal_failed
    guard (runs begin_success) (driver_failed begin_success)
    guard (runs update_success) (driver_failed update_success)
    guard (eqb (count_open r db.jobs) 1) lost_race
    guard (runs upsert_target) (driver_failed upsert_target)
    guard (runs commit_success) (driver_failed commit_success)
    ok (
      tt,
      record {
        jobs = map (close_row r doc) db.jobs;
        targets =
            upsert
              (record {
                target_id = r.target_id;
                current_release_id = r.release_id;
                manifest_digest = manifest_digest;
                updated_at = r.finished_at;
              })
              db.targets;
      },
    )

  -- The update is one statement outside a transaction: the rows that it closed stay closed where
  -- their number is not one.
  abbrev pub close_failure :
      Outcome StoreError Doc → Result → Db Doc → Outcome StoreError (Unit {0}) × Db Doc
  close_failure (err e) r db = (err e, db)
  close_failure (ok doc) r db = (
    guard (eqb (count_open r db.jobs) 1) lost_race,
    record db { jobs = map (close_row r doc) db.jobs },
  )

  unfoldable pub complete_failure : Result → Db Doc → Outcome StoreError (Unit {0}) × Db Doc
  complete_failure r db = close_failure (failure_document r) r db
