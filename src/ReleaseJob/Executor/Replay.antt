-- ===== src/ReleaseJob/Executor/Replay.antt =====
-- A request that was executed to its end is not executed again.
use fleetdeck.ReleaseJob.Executor.Cases.{
  execute_ends, fail_cases, succeed_cases, success_of, failure_of,
}
use fleetdeck.ReleaseJob.Executor.Ends.{IsFor, run_job_ends}
use fleetdeck.ReleaseJob.Executor.{
  Runtime, Executed, returned, failed, refused, Final, request_sha256, run_job, execute,
}
use fleetdeck.ReleaseJob.Contract.{validate}
use fleetdeck.ReleaseJob.Store.Answers.{IsClosed}
use fleetdeck.ReleaseJob.Store.Invariant.{ended_ne}
use fleetdeck.ReleaseJob.Store.{
  Json, Job, Db, Stmt, begin_reserve, select_key, find_job, is_open, close_row, new_job, stored,
  reserve,
}
use fleetdeck.ReleaseJob.Types.{Request, Result, replay}
use fleetdeck.Prelude.{
  eq_refl, ℕ, ◌≡◌, refl, ◌⊎◌, inl, inr, Bool, true, List, [], ◌∷◌, String, Option, none, some,
  arith, eq_iff, ◌∙◌, sym, ok, map, ap,
}

-- What is decoded is what was encoded.
abbrev pub RoundTrips : {Doc : Type 0} → Json Doc → Type 0
RoundTrips json =
    (r : Result) (doc : _) → json.marshal_result r ≡ some doc → json.unmarshal_result doc ≡ some r

module _ {Doc : Type 0} (json : Json Doc) where
  find_job-map :
      (r : Result) (doc : Doc) (key : String) (j : Job Doc) (js : List (Job Doc))
      → find_job key js ≡ some j
      → find_job key (map (close_row r doc) js) ≡ some (close_row r doc j)
  unfolding find_job
  find_job-map r doc key j [] h = cc
  find_job-map r doc key j (k ∷ js) h = ground (arith, find_job-map r doc key j js)

  find_job_head : (j : Job Doc) (js : List (Job Doc)) → find_job j.idempotency_key (j ∷ js) ≡ some j
  unfolding find_job
  find_job_head j js = ground (arith, eq_refl j.idempotency_key)

  request_sha256_some :
      (sha256_hex : Doc → String) (request : Request) (hash : String)
      → request_sha256 json sha256_hex request ≡ some hash
      → (doc : Doc) × (json.marshal_request request ≡ some doc)
  request_sha256_some sha256_hex request hash h = ground arith

  stored-close_row :
      (r : Result) (doc : Doc) (j : Job Doc) (hash : String)
      → is_open r j ≡ true
      → j.request_sha256 ≡ hash
      → (r.status ≡ "succeeded") ⊎ (r.status ≡ "failed")
      → json.unmarshal_result doc ≡ some r
      → stored json (close_row r doc j) hash ≡ ok (replay (some r))
  unfolding stored
  stored-close_row r doc j hash o s e u = ground (
    arith,
    eq_iff j.request_sha256 hash,
    eq_iff r.status "running",
    eq_iff r.status "succeeded",
    eq_iff r.status "failed",
    ended_ne e,
  )

-- The result of an answer.
abbrev pub result_of : Executed → Option Result
result_of (returned r) = some r
result_of (failed r) = some r
result_of (refused e) = none

module _ {Doc W : Type 0} (json : Json Doc) (runtime : Runtime W) (runs : Stmt → Bool)
    (law : RoundTrips json) where
  -- The result that is returned, with or without an error, is the one that the store will replay.
  abbrev Recorded : Request → String → Final Doc W → Type 0
  Recorded request hash f =
      (r : Result)
      → result_of f.0 ≡ some r
      → (j : Job Doc) × (find_job request.idempotency_key f.1.jobs ≡ some j)
        × (stored json j hash ≡ ok (replay (some r)))

  closed-Recorded :
      (request : Request) (hash : String) (status : String) (r : Result) (j : Job Doc)
      (db changed : Db Doc)
      → (status ≡ "succeeded") ⊎ (status ≡ "failed")
      → is_open r j ≡ true
      → j.request_sha256 ≡ hash
      → find_job request.idempotency_key db.jobs ≡ some j
      → IsClosed json runs status r db changed
      → (k : Job Doc) × (find_job request.idempotency_key changed.jobs ≡ some k)
        × (stored json k hash ≡ ok (replay (some r)))
  closed-Recorded request hash status r j db changed e o s f c = (
    close_row r c.doc j,
    rw c.closed (find_job-map json r c.doc _ j db.jobs f),
    stored-close_row json r c.doc j hash o s (rw c.final e) (law r c.doc c.encoded),
  )

  new_job_open :
      (request : Request) (hash : String) (doc : Doc) (at : ℕ) (r : Result)
      → IsFor request r
      → is_open r (new_job request hash doc at) ≡ true
  new_job_open request hash doc at r h = ground (
    arith,
    eq_refl "running",
    eq_iff request.idempotency_key r.idempotency_key,
    eq_iff request.job_id r.job_id,
  )

  run_job-Recorded :
      (request : Request) (hash : String) (doc : Doc) (at : ℕ) (db : Db Doc) (r : Result) (w : W)
      → find_job request.idempotency_key db.jobs ≡ some (new_job request hash doc at)
      → IsFor request r
      → Recorded request hash (run_job json runtime runs r request db w)
  run_job-Recorded request hash doc at db r w f =
      run_job_ends json runtime runs request db (Recorded request hash)
        (λ r step code w h x e.
          let (t, cases) = fail_cases json runtime runs r db w step code in
          elim cases [
            | inl (o, c) ↦
                let same : failure_of runtime r w step code ≡ x = cc (ap result_of (sym o) ∙ e) in
                rw (← same) (
                  closed-Recorded request hash _ _ _ db _ (inr refl)
                    (new_job_open request hash doc at (failure_of runtime r w step code) h) refl f
                    c)
            | inr (y, o) ↦ cc (ap result_of (sym o) ∙ e)
          ])
        (λ r w p x e. elim (succeed_cases json runtime runs r db w request) [
          | inl (o, c, t) ↦
              let same : success_of runtime r w ≡ x = cc (ap result_of (sym o) ∙ e) in
              rw (← same) (
                closed-Recorded request hash _ _ _ db _ (inl refl)
                  (new_job_open request hash doc at (success_of runtime r w) p.for) refl f c)
          | inr (y, o, c) ↦ cc (ap result_of (sym o) ∙ e)
        ])
        r w

  execute-Recorded :
      (sha256_hex : Doc → String) (request : Request) (db : Db Doc) (w : W) (r : Result)
      → (let f = execute json runtime runs sha256_hex request db w in
          result_of f.0 ≡ some r
          → (hash : String) × (validate request ≡ ok tt)
            × (request_sha256 json sha256_hex request ≡ some hash)
            × (j : Job Doc) × (find_job request.idempotency_key f.1.jobs ≡ some j)
            × (stored json j hash ≡ ok (replay (some r))))
  execute-Recorded sha256_hex request db w r =
      execute_ends json runtime runs sha256_hex request db w
        (λ f.
          result_of f.0 ≡ some r
          → (hash : String) × (validate request ≡ ok tt)
            × (request_sha256 json sha256_hex request ≡ some hash)
            × (j : Job Doc) × (find_job request.idempotency_key f.1.jobs ≡ some j)
            × (stored json j hash ≡ ok (replay (some r))))
        (λ e h. cc) (λ hash j x v s f a h. (hash, v, s, j, f, rw a (cc)))
        (λ hash changed v s i h.
          let found : find_job request.idempotency_key changed.jobs
              ≡ some (new_job request hash i.doc (runtime.now w)) =
            rw i.inserted (find_job_head json _ db.jobs) in
          let (j, f, a) =
            run_job-Recorded request hash i.doc _ changed _ w found (refl, refl, refl, refl) r h in
          (hash, v, s, j, f, a))

module _ {Doc W : Type 0} (json : Json Doc) (runtime : Runtime W) (runs : Stmt → Bool) where
  execute-stored :
      (sha256_hex : Doc → String) (request : Request) (db : Db Doc) (w : W) (hash : String)
      (doc : Doc) (j : Job Doc) (r : Result)
      → runs begin_reserve ≡ true
      → runs select_key ≡ true
      → validate request ≡ ok tt
      → request_sha256 json sha256_hex request ≡ some hash
      → json.marshal_request request ≡ some doc
      → find_job request.idempotency_key db.jobs ≡ some j
      → stored json j hash ≡ ok (replay (some r))
      → execute json runtime runs sha256_hex request db w ≡ (returned r, db, w)
  unfolding execute reserve
  execute-stored sha256_hex request db w hash doc j r b k v s m f a =
      rw (v, s) (rw (m, b, k, f) (rw a))

module _ {Doc W : Type 0} (json : Json Doc) (runtime : Runtime W) (runs again : Stmt → Bool)
    (law : RoundTrips json) where
  -- Executing a request again, once its job has returned a result with or without an error, returns
  -- that result without an error. It calls nothing of the runtime and changes nothing in the store,
  -- if the two statements that read the row do not fail and decoding undoes encoding.
  pub execute_twice :
      (sha256_hex : Doc → String) (request : Request) (db : Db Doc) (w later : W) (r : Result)
      → again begin_reserve ≡ true
      → again select_key ≡ true
      → result_of (execute json runtime runs sha256_hex request db w).0 ≡ some r
      → (let changed = (execute json runtime runs sha256_hex request db w).1 in
          execute json runtime again sha256_hex request changed later
          ≡ (returned r, changed, later))
  execute_twice sha256_hex request db w later r b k h =
      let (hash, v, s, j, f, a) =
        execute-Recorded json runtime runs law sha256_hex request db w r h in
      let (doc, m) = request_sha256_some json sha256_hex request hash s in
      execute-stored json runtime again sha256_hex request _ later hash doc j r b k v s m f a
