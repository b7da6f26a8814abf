-- ===== src/ReleaseJob/Store/Invariant.antt =====
-- The tables stay consistent under every operation of the store, whichever statements fail.
use fleetdeck.Prelude.{
  ℕ, ◌≡◌, refl, ◌≢◌, ◌⊎◌, inl, inr, Bool, false, List, [], ◌∷◌, String, none, map, arith, eq_iff,
  All,
}
use fleetdeck.ReleaseJob.Types.{Request, Result}
use fleetdeck.ReleaseJob.Store.{
  Json, Job, Db, Stmt, find_job, busy, job_id_taken, close_row, new_job, reserve, complete_success,
  complete_failure,
}
use fleetdeck.ReleaseJob.Store.Answers.{
  reserve-Reserved, complete_success_cases, complete_failure-Failed,
}

pub ended_ne : {s : String} → (s ≡ "succeeded") ⊎ (s ≡ "failed") → s ≢ "running"
ended_ne (inl e) h = cc
ended_ne (inr e) h = cc

module _ {Doc : Type 0} where
  -- Two rows share neither key nor job, and do not run on one target.
  pub record IsApart (j k : Job Doc) : Type 0 where
    pub keys : k.idempotency_key ≢ j.idempotency_key
    pub ids : k.job_id ≢ j.job_id
    pub targets : j.status ≡ "running" → k.status ≡ "running" → k.target_id ≢ j.target_id

  abbrev pub AllApart : List (Job Doc) → Type 0
  AllApart [] = Unit
  AllApart (j ∷ js) = All (IsApart j) js × AllApart js

  -- A row runs, or has ended with a stored result.
  pub record IsSettled (j : Job Doc) : Type 0 where
    pub known : (j.status ≡ "running") ⊎ (j.status ≡ "succeeded") ⊎ (j.status ≡ "failed")
    pub ended : j.status ≢ "running" → j.result_json ≢ none

  pub record IsConsistent (db : Db Doc) : Type 0 where
    pub apart : AllApart db.jobs
    pub settled : All IsSettled db.jobs

  new_job-IsApart :
      (request : Request) (sha256 : String) (doc : Doc) (at : ℕ) (js : List (Job Doc))
      → find_job request.idempotency_key js ≡ none
      → busy request.target.id js ≡ false
      → job_id_taken request.job_id js ≡ false
      → All (IsApart (new_job request sha256 doc at)) js
  unfolding find_job busy job_id_taken
  new_job-IsApart request sha256 doc at [] h b t = tt
  new_job-IsApart request sha256 doc at (j ∷ js) h b t = ground (
    arith,
    eq_iff j.idempotency_key request.idempotency_key,
    eq_iff j.job_id request.job_id,
    eq_iff j.target_id request.target.id,
    eq_iff j.status "running",
    new_job-IsApart request sha256 doc at js,
  )

  module _ (r : Result) (doc : Doc) (ended : r.status ≢ "running") where
    close_row-IsApart :
        (j k : Job Doc) → IsApart j k → IsApart (close_row r doc j) (close_row r doc k)
    close_row-IsApart j k a = ground (arith, a.keys, a.ids)

    close_row-All :
        (j : Job Doc) (js : List (Job Doc))
        → All (IsApart j) js
        → All (IsApart (close_row r doc j)) (map (close_row r doc) js)
    close_row-All j [] h = tt
    close_row-All j (k ∷ js) (a, h) = (close_row-IsApart j k a, close_row-All j js h)

    close_rows-AllApart : (js : List (Job Doc)) → AllApart js → AllApart (map (close_row r doc) js)
    close_rows-AllApart [] h = tt
    close_rows-AllApart (j ∷ js) (a, h) = (close_row-All j js a, close_rows-AllApart js h)

    close_rows-IsSettled :
        (r.status ≡ "succeeded") ⊎ (r.status ≡ "failed")
        → (js : List (Job Doc)) → All IsSettled js
        → All IsSettled (map (close_row r doc) js)
    close_rows-IsSettled e [] h = tt
    close_rows-IsSettled e (j ∷ js) (s, h) =
        (ground (arith, s.known, s.ended), close_rows-IsSettled e js h)

module _ {Doc : Type 0} (json : Json Doc) (runs : Stmt → Bool) where
  -- A reservation keeps the tables consistent, whatever it answers.
  pub reserve-IsConsistent :
      (request : Request) (sha256 : String) (at : ℕ) (db : Db Doc)
      → IsConsistent db
      → IsConsistent (reserve json runs request sha256 at db).1
  reserve-IsConsistent request sha256 at db h =
      elim (reserve-Reserved json runs request sha256 at db) [
        | inl (o, i) ↦ rw i.inserted (record {
          apart =
              (new_job-IsApart request sha256 i.doc at db.jobs i.fresh i.idle i.new_id, h.apart);
          settled = (ground arith, h.settled);
        })
        | inr (inl (j, f, o, e)) ↦ rw e h
        | inr (inr (x, o, e)) ↦ rw e h
      ]

  closed-IsConsistent :
      (r : Result) (doc : Doc) (db changed : Db Doc)
      → (r.status ≡ "succeeded") ⊎ (r.status ≡ "failed")
      → changed.jobs ≡ map (close_row r doc) db.jobs
      → IsConsistent db
      → IsConsistent changed
  closed-IsConsistent r doc db changed e c h = record {
    apart = rw c (close_rows-AllApart r doc (ended_ne e) db.jobs h.apart);
    settled = rw c (close_rows-IsSettled r doc (ended_ne e) e db.jobs h.settled);
  }

  -- So does a completion, whether it succeeds or not.
  pub complete_success-IsConsistent :
      (r : Result) (digest : String) (db : Db Doc)
      → IsConsistent db
      → IsConsistent (complete_success json runs r digest db).1
  complete_success-IsConsistent r digest db h =
      elim (complete_success_cases json runs r digest db) [
        | inl (o, c, t) ↦ closed-IsConsistent r c.doc db _ (inl c.final) c.closed h
        | inr (x, o, e) ↦ rw e h
      ]

  pub complete_failure-IsConsistent :
      (r : Result) (db : Db Doc)
      → IsConsistent db
      → IsConsistent (complete_failure json runs r db).1
  complete_failure-IsConsistent r db h = elim (complete_failure-Failed json runs r db) [
    | inl (o, c, t) ↦ closed-IsConsistent r c.doc db _ (inr c.final) c.closed h
    | inr (inl (doc, o, n, f, e)) ↦ rw e (closed-IsConsistent r doc db _ (inr f) refl h)
    | inr (inr (x, o, e)) ↦ rw e h
  ]
