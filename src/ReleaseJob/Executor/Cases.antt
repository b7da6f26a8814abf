-- ===== src/ReleaseJob/Executor/Cases.antt =====
-- The ways through `Execute`, and what each end of a job records.
use fleetdeck.ReleaseJob.Executor.{
  not_persisted, after_validate, Runtime, returned, failed, refused, ExecuteError, Final,
  request_sha256, started_result, fail, succeed, run_job, after_reserve, after_hash, execute,
}
use fleetdeck.ReleaseJob.Contract.{ContractError, validate}
use fleetdeck.ReleaseJob.Store.Answers.{
  IsClosed, IsInserted, Reserved, reserve-Reserved, complete_success_cases, complete_failure-Failed,
  success_row,
}
use fleetdeck.ReleaseJob.Store.{Json, Job, Db, Stmt, StoreError, find_job, stored, upsert}
use fleetdeck.ReleaseJob.Types.{Request, Result, Reservation, acquired, replay}
use fleetdeck.Prelude.{
  ◌⊎◌, sym, ◌≡◌, refl, ◌≢◌, inl, inr, Bool, String, Option, none, some, arith, eq_iff, Outcome, ok,
  err,
}

abbrev pub failure_of : {W : Type 0} → Runtime W → Result → W → String → String → Result
failure_of runtime r w step code = record r {
  status = "failed";
  finished_at = some (runtime.now w);
  failed_step = step;
  error_code = code;
}

abbrev pub success_of : {W : Type 0} → Runtime W → Result → W → Result
success_of runtime r w = record r { status = "succeeded"; finished_at = some (runtime.now w) }

module _ {Doc : Type 0} (json : Json Doc) (j : Job Doc) (hash : String) where
  -- A stored row answers with the result of a job that has ended.
  pub stored_ok :
      (a : Reservation)
      → stored json j hash ≡ ok a
      → (r : Result) × (doc : Doc) × (a ≡ replay (some r))
        × (j.request_sha256 ≡ hash)
        × (j.status ≢ "running")
        × (j.result_json ≡ some doc)
        × (json.unmarshal_result doc ≡ some r)
  unfolding stored
  stored_ok a h = ground (arith, eq_iff j.request_sha256 hash, eq_iff j.status "running")

module _ {Doc W : Type 0} (json : Json Doc) (runtime : Runtime W) (runs : Stmt → Bool) where
  -- The three ways through `Execute`: an error before the job, a stored result, a run.
  module _ (sha256_hex : Doc → String) (request : Request) (db : Db Doc) (w : W)
      (P : Final Doc W → Type 0) (on_error : (e : ExecuteError) → P (refused e, db, w))
      (on_replay : (hash : String) (j : Job Doc) (r : Result)
        → validate request ≡ ok tt
        → request_sha256 json sha256_hex request ≡ some hash
        → find_job request.idempotency_key db.jobs ≡ some j
        → stored json j hash ≡ ok (replay (some r))
        → P (returned r, db, w))
      (on_run : (hash : String) (changed : Db Doc)
        → validate request ≡ ok tt
        → request_sha256 json sha256_hex request ≡ some hash
        → IsInserted json runs request hash (runtime.now w) db changed
        → P (
            run_job json runtime runs
              (started_result request (runtime.now w))
              request
              changed
              w)) where
    reserved_ends :
        (hash : String) (o : Outcome StoreError Reservation) (changed : Db Doc)
        → validate request ≡ ok tt
        → request_sha256 json sha256_hex request ≡ some hash
        → Reserved json runs request hash (runtime.now w) db o changed
        → P (after_reserve json runtime runs o (runtime.now w) request changed w)
    reserved_ends hash o changed v s (inl (a, i)) = rw a (on_run hash changed v s i)
    reserved_ends hash (err e) changed v s (inr (inl (j, f, a, c))) = rw c (on_error _)
    reserved_ends hash (ok acquired) changed v s (inr (inl (j, f, a, c))) =
        let never = stored_ok json j hash acquired (sym a) in cc never.2
    reserved_ends hash (ok (replay none)) changed v s (inr (inl (j, f, a, c))) = rw c (on_error _)
    reserved_ends hash (ok (replay (some r))) changed v s (inr (inl (j, f, a, c))) =
        rw c (on_replay hash j r v s f (sym a))
    reserved_ends hash o changed v s (inr (inr (e, a, c))) = rw (a, c) (on_error _)

    hash_ends :
        (h : Option String)
        → validate request ≡ ok tt
        → request_sha256 json sha256_hex request ≡ h
        → P (after_hash json runtime runs h request db w)
    hash_ends none v s = on_error _
    hash_ends (some hash) v s =
        reserved_ends hash _ _ v s (reserve-Reserved json runs request hash (runtime.now w) db)

    validate_ends :
        (m : Outcome ContractError (Unit {0}))
        → validate request ≡ m
        → P (
            after_validate json runtime runs m
              (request_sha256 json sha256_hex request)
              request
              db
              w)
    validate_ends (err e) v = on_error _
    validate_ends (ok _) v = hash_ends (request_sha256 json sha256_hex request) v refl

    pub execute_ends : P (execute json runtime runs sha256_hex request db w)
    unfolding execute
    execute_ends = validate_ends (validate request) refl

  module _ (r : Result) (db : Db Doc) (w : W) where
    -- A failure is recorded, or the error says that it was not. No release becomes current.
    pub fail_cases :
        (step code : String)
        → (let (o, changed, w') = fail json runtime runs r step code db w in
            (changed.targets ≡ db.targets)
            × ((o ≡ failed (failure_of runtime r w step code))
                  × IsClosed json runs "failed" (failure_of runtime r w step code) db changed
                ⊎ ((e : StoreError) × (o ≡ refused (not_persisted e)))))
    unfolding fail
    fail_cases step code =
        elim (complete_failure-Failed json runs (failure_of runtime r w step code) db) [
          | inl (o, c, t) ↦ (t, rw o (inl (refl, c)))
          | inr (inl (doc, o, n, s, e)) ↦ (rw e refl, rw o (inr (_, refl)))
          | inr (inr (x, o, e)) ↦ (rw e refl, rw o (inr (_, refl)))
        ]

    pub succeed_cases :
        (request : Request)
        → (let (o, changed, w') = succeed json runtime runs r request db w in
            (o ≡ returned (success_of runtime r w))
              × IsClosed json runs "succeeded" (success_of runtime r w) db changed
              × (changed.targets
                  ≡ upsert
                      (success_row (success_of runtime r w) request.manifest_digest)
                      db.targets)
            ⊎ ((e : StoreError) × (o ≡ refused (not_persisted e)) × (changed ≡ db)))
    unfolding succeed
    succeed_cases request =
        elim (complete_success_cases json runs (success_of runtime r w) request.manifest_digest
          db) [ inl (o, c, t) ↦ rw o (inl (refl, c, t)) | inr (e, o, c) ↦ rw o (inr (e, refl, c)) ]

  pub fail-ne-returned :
      (r : Result) (db : Db Doc) (w : W) (step code : String) (x : Result)
      → (fail json runtime runs r step code db w).0 ≢ returned x
  fail-ne-returned r db w step code x h = elim (fail_cases r db w step code).1 [
    | inl (o, c) ↦ cc
    | inr (e, o) ↦ cc
  ]
