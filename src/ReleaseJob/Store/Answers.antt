-- ===== src/ReleaseJob/Store/Answers.antt =====
-- What each operation of the store answers, and what it leaves in the tables.
use fleetdeck.Prelude.{
  eqb, ℕ, ◌≡◌, refl, ◌≢◌, ◌⊎◌, inl, inr, Bool, false, ◌∷◌, String, Option, none, some, map, arith,
  eq_iff, Outcome, ok, err, Option-cases, Bool-cases, Outcome-cases,
}
use fleetdeck.ReleaseJob.Types.{Request, Result, Reservation, acquired}
use fleetdeck.ReleaseJob.Store.{
  close_failure, failure_document, lost_race, upsert, count_open, select_key, begin_reserve, Json,
  StoreError, Job, TargetRow, Db, Stmt, find_job, busy, job_id_taken, close_row, new_job, stored,
  insert_new, reserve, complete_success, complete_failure, reserve_found, transaction,
}

abbrev pub success_row : Result → String → TargetRow
success_row r digest = record {
  target_id = r.target_id;
  current_release_id = r.release_id;
  manifest_digest = digest;
  updated_at = r.finished_at;
}

module _ {Doc : Type 0} (json : Json Doc) (runs : Stmt → Bool) where
  -- A reservation that was acquired has added a running row, to tables with no row of its key or its
  -- job, and no running row of its target.
  pub record IsInserted (request : Request) (sha256 : String) (at : ℕ) (db changed : Db Doc)
      : Type 0 where
    pub doc : Doc
    pub encoded : json.marshal_request request ≡ some doc
    pub inserted : changed ≡ record db { jobs = new_job request sha256 doc at ∷ db.jobs }
    pub fresh : find_job request.idempotency_key db.jobs ≡ none
    pub idle : busy request.target.id db.jobs ≡ false
    pub new_id : job_id_taken request.job_id db.jobs ≡ false

  -- Every answer of `Reserve`: an acquired reservation with its row; the answer of the row that has
  -- the key; an error. The tables change in the first case only.
  abbrev pub Reserved :
      Request → String → ℕ → Db Doc → Outcome StoreError Reservation → Db Doc → Type 0
  Reserved request sha256 at db o changed =
      (o ≡ ok acquired) × IsInserted request sha256 at db changed
      ⊎ ((j : Job Doc) × (find_job request.idempotency_key db.jobs ≡ some j)
          × (o ≡ stored json j sha256)
          × (changed ≡ db))
      ⊎ ((e : StoreError) × (o ≡ err e) × (changed ≡ db))

  insert_new-Reserved :
      (request : Request) (sha256 : String) (doc : Doc) (at : ℕ) (db : Db Doc)
      → json.marshal_request request ≡ some doc
      → find_job request.idempotency_key db.jobs ≡ none
      → (let r = transaction db (insert_new runs request sha256 doc at db) in
          Reserved request sha256 at db r.0 r.1)
  unfolding insert_new
  insert_new-Reserved request sha256 doc at db h f = ground arith

  reserve_found-Reserved :
      (request : Request) (sha256 : String) (doc : Doc) (at : ℕ) (db : Db Doc)
      (found : Option (Job Doc))
      → json.marshal_request request ≡ some doc
      → find_job request.idempotency_key db.jobs ≡ found
      → (let r = transaction db (reserve_found json runs found request sha256 doc at db) in
          Reserved request sha256 at db r.0 r.1)
  reserve_found-Reserved request sha256 doc at db none h f =
      insert_new-Reserved request sha256 doc at db h f
  reserve_found-Reserved request sha256 doc at db (some j) h f =
      elim (Outcome-cases (stored json j sha256)) [
        | inl (a, e) ↦ inr (inl (j, f, rw e, rw e))
        | inr (x, e) ↦ inr (inl (j, f, rw e, rw e))
      ]

  pub reserve-Reserved :
      (request : Request) (sha256 : String) (at : ℕ) (db : Db Doc)
      → (let r = reserve json runs request sha256 at db in Reserved request sha256 at db r.0 r.1)
  unfolding reserve
  reserve-Reserved request sha256 at db = elim (Option-cases (json.marshal_request request)) [
    | inl e ↦ rw e (inr (inr (_, refl, refl)))
    | inr (doc, e) ↦ rw e (elim (Bool-cases (runs begin_reserve)) [
      | inr f ↦ rw f (inr (inr (_, refl, refl)))
      | inl t ↦ rw t (elim (Bool-cases (runs select_key)) [
        | inr f ↦ rw f (inr (inr (_, refl, refl)))
        | inl u ↦ rw u (reserve_found-Reserved request sha256 doc at db _ e refl)
      ])
    ])
  ]

  -- A completion that succeeded has closed the one running row of its key and job.
  pub record IsClosed (status : String) (r : Result) (db changed : Db Doc) : Type 0 where
    pub doc : Doc
    pub encoded : json.marshal_result r ≡ some doc
    pub final : r.status ≡ status
    pub one : count_open r db.jobs ≡ 1
    pub closed : changed.jobs ≡ map (close_row r doc) db.jobs

  pub complete_success_cases :
      (r : Result) (digest : String) (db : Db Doc)
      → (let (o, changed) = complete_success json runs r digest db in
          (o ≡ ok tt)
            × IsClosed "succeeded" r db changed
            × (changed.targets ≡ upsert (success_row r digest) db.targets)
          ⊎ ((e : StoreError) × (o ≡ err e) × (changed ≡ db)))
  unfolding complete_success
  complete_success_cases r digest db = ground (arith, eq_iff r.status "succeeded")

  failure_document_ok :
      (r : Result) (doc : Doc)
      → failure_document json runs r ≡ ok doc
      → (r.status ≡ "failed") × (json.marshal_result r ≡ some doc)
  failure_document_ok r doc h = ground (arith, eq_iff r.status "failed")

  -- Where the update closed several rows, they stay closed although an error is returned.
  abbrev pub Failed : Result → Db Doc → Outcome StoreError (Unit {0}) → Db Doc → Type 0
  Failed r db o changed =
      (o ≡ ok tt) × IsClosed "failed" r db changed × (changed.targets ≡ db.targets)
      ⊎ ((doc : Doc) × (o ≡ err lost_race)
          × (count_open r db.jobs ≢ 1)
          × (r.status ≡ "failed")
          × (changed ≡ record db { jobs = map (close_row r doc) db.jobs }))
      ⊎ ((e : StoreError) × (o ≡ err e) × (changed ≡ db))

  close_failure-Failed :
      (r : Result) (db : Db Doc) (m : Outcome StoreError Doc)
      → failure_document json runs r ≡ m
      → (let (o, changed) = close_failure json runs m r db in Failed r db o changed)
  close_failure-Failed r db (err e) f = inr (inr (e, refl, refl))
  close_failure-Failed r db (ok doc) f =
      let (final, encoded) = failure_document_ok r doc f in
      elim (Bool-cases (eqb (count_open r db.jobs) 1)) [
        | inl e ↦ rw e (
            inl (
              refl,
              record {
                doc = doc;
                encoded = encoded;
                final = final;
                one = ground arith;
                closed = refl;
              },
              refl,
            ))
        | inr e ↦ rw e (inr (inl (doc, refl, ground arith, final, refl)))
      ]

  pub complete_failure-Failed :
      (r : Result) (db : Db Doc)
      → (let (o, changed) = complete_failure json runs r db in Failed r db o changed)
  unfolding complete_failure
  complete_failure-Failed r db = close_failure-Failed r db (failure_document json runs r) refl
