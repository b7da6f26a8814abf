-- ===== src/ReleaseJob/Store/Reach.antt =====
-- Executors that share the store: any order of its operations, on any arguments.
use fleetdeck.ReleaseJob.Store.Answers.{
  reserve-Reserved, complete_success_cases, complete_failure-Failed,
}
use fleetdeck.ReleaseJob.Store.Invariant.{
  IsConsistent, reserve-IsConsistent, complete_success-IsConsistent, complete_failure-IsConsistent,
}
use fleetdeck.ReleaseJob.Store.{
  Json, Job, Db, Stmt, find_job, reserve, complete_success, complete_failure, close_row,
}
use fleetdeck.ReleaseJob.Types.{Request, Result}
use fleetdeck.Prelude.{
  ℕ, ◌≡◌, ◌≢◌, Bool, List, [], ◌∷◌, String, none, some, map, arith, eq_iff, inl, inr,
}

abbrev pub empty : {Doc : Type 0} → Db Doc
empty = record { jobs = []; targets = [] }

module _ {Doc : Type 0} (json : Json Doc) where
  -- One operation of some executor. Which statements fail differs from step to step.
  pub data Step (db : Db Doc) : Db Doc → Type 0 where
    reserving :
        (runs : Stmt → Bool) (request : Request) (sha256 : String) (at : ℕ)
        → Step db (reserve json runs request sha256 at db).1
    succeeding :
        (runs : Stmt → Bool) (r : Result) (digest : String)
        → Step db (complete_success json runs r digest db).1
    failing : (runs : Stmt → Bool) (r : Result) → Step db (complete_failure json runs r db).1

  pub data Reach (db : Db Doc) : Db Doc → Type 0 where
    here : Reach db db
    next : {mid last : Db Doc} → Reach db mid → Step mid last → Reach db last

  Step-IsConsistent :
      {db changed : Db Doc} → Step db changed → IsConsistent db → IsConsistent changed
  Step-IsConsistent {db} (reserving runs request sha256 at) h =
      reserve-IsConsistent json runs request sha256 at db h
  Step-IsConsistent {db} (succeeding runs r digest) h =
      complete_success-IsConsistent json runs r digest db h
  Step-IsConsistent {db} (failing runs r) h = complete_failure-IsConsistent json runs r db h

  -- From consistent tables on, such as the empty ones, and whatever executors do, no two rows share a
  -- key or a job, no target has two running jobs, and every row that ended has a stored result.
  pub Reach-IsConsistent : {db last : Db Doc} → IsConsistent db → Reach db last → IsConsistent last
  Reach-IsConsistent h here = h
  Reach-IsConsistent h (next r s) = Step-IsConsistent s (Reach-IsConsistent h r)

  find_job-close_rows :
      (r : Result) (doc : Doc) (key : String) (j : Job Doc) (js : List (Job Doc))
      → find_job key js ≡ some j
      → j.status ≢ "running"
      → find_job key (map (close_row r doc) js) ≡ some j
  unfolding find_job
  find_job-close_rows r doc key j [] h n = cc
  find_job-close_rows r doc key j (k ∷ js) h n =
      ground (arith, eq_iff k.status "running", find_job-close_rows r doc key j js)

  find_job_fresh :
      (key : String) (j k : Job Doc) (js : List (Job Doc))
      → find_job key js ≡ some j
      → find_job k.idempotency_key js ≡ none
      → find_job key (k ∷ js) ≡ some j
  unfolding find_job
  find_job_fresh key j k js h f = ground (arith, eq_iff k.idempotency_key key)

  module _ (key : String) (j : Job Doc) (db : Db Doc) (ended : j.status ≢ "running") where
    reserve-final :
        (runs : Stmt → Bool) (request : Request) (sha256 : String) (at : ℕ)
        → find_job key db.jobs ≡ some j
        → find_job key (reserve json runs request sha256 at db).1.jobs ≡ some j
    reserve-final runs request sha256 at f =
        elim (reserve-Reserved json runs request sha256 at db) [
          | inl (o, i) ↦ rw i.inserted (find_job_fresh key j _ db.jobs f i.fresh)
          | inr (inl (k, g, o, e)) ↦ rw e f
          | inr (inr (x, o, e)) ↦ rw e f
        ]

    success-final :
        (runs : Stmt → Bool) (r : Result) (digest : String)
        → find_job key db.jobs ≡ some j
        → find_job key (complete_success json runs r digest db).1.jobs ≡ some j
    success-final runs r digest f = elim (complete_success_cases json runs r digest db) [
      | inl (o, c, t) ↦ rw c.closed (find_job-close_rows r c.doc key j db.jobs f ended)
      | inr (x, o, e) ↦ rw e f
    ]

    failure-final :
        (runs : Stmt → Bool) (r : Result)
        → find_job key db.jobs ≡ some j
        → find_job key (complete_failure json runs r db).1.jobs ≡ some j
    failure-final runs r f = elim (complete_failure-Failed json runs r db) [
      | inl (o, c, t) ↦ rw c.closed (find_job-close_rows r c.doc key j db.jobs f ended)
      | inr (inl (doc, o, n, s, e)) ↦ rw e (find_job-close_rows r doc key j db.jobs f ended)
      | inr (inr (x, o, e)) ↦ rw e f
    ]

  Step-final :
      {db changed : Db Doc} (key : String) (j : Job Doc)
      → Step db changed
      → j.status ≢ "running"
      → find_job key db.jobs ≡ some j
      → find_job key changed.jobs ≡ some j
  Step-final {db} key j (reserving runs request sha256 at) n f =
      reserve-final key j db n runs request sha256 at f
  Step-final {db} key j (succeeding runs r digest) n f = success-final key j db n runs r digest f
  Step-final {db} key j (failing runs r) n f = failure-final key j db n runs r f

  -- The stored row of a job that has ended never changes.
  pub Reach-final :
      {db last : Db Doc} (key : String) (j : Job Doc)
      → Reach db last
      → j.status ≢ "running"
      → find_job key db.jobs ≡ some j
      → find_job key last.jobs ≡ some j
  Reach-final key j here n f = f
  Reach-final key j (next r s) n f = Step-final key j s n (Reach-final key j r n f)
