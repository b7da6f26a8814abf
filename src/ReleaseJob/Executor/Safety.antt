-- ===== src/ReleaseJob/Executor/Safety.antt =====
-- A release becomes current only with the evidence of every step.
use fleetdeck.ReleaseJob.Executor.Cases.{execute_ends, fail_cases, succeed_cases, success_of}
use fleetdeck.ReleaseJob.Executor.Ends.{IsFor, IsProven, run_job_ends}
use fleetdeck.ReleaseJob.Executor.{Runtime, returned, Final, run_job, execute}
use fleetdeck.ReleaseJob.Contract.Laws.{IsAcceptable, validate_iff}
use fleetdeck.ReleaseJob.Store.Answers.{success_row}
use fleetdeck.ReleaseJob.Store.{Json, Db, Stmt, find_job, find_target, upsert, TargetRow}
use fleetdeck.ReleaseJob.Types.{Request, Result}
use fleetdeck.Prelude.{
  ap, ◌≡◌, refl, ◌≢◌, ◌⊎◌, inl, inr, Bool, List, [], ◌∷◌, String, none, some, arith, eq_iff,
}

find_target-upsert :
    (t : TargetRow) (ts : List TargetRow) → find_target t.target_id (upsert t ts) ≡ some t
unfolding find_target
find_target-upsert t [] = ground (arith, eq_iff t.target_id t.target_id)
find_target-upsert t (u ∷ us) =
    ground (
      arith,
      eq_iff t.target_id t.target_id,
      eq_iff u.target_id t.target_id,
      find_target-upsert t us,
    )

find_target-release :
    (request : Request) (r : Result) (ts : List TargetRow)
    → r.target_id ≡ request.target.id
    → find_target request.target.id (upsert (success_row r request.manifest_digest) ts)
      ≡ some (success_row r request.manifest_digest)
find_target-release request r ts e =
    rw (← e) (find_target-upsert (success_row r request.manifest_digest) ts)

module _ {Doc W : Type 0} (json : Json Doc) (runtime : Runtime W) (runs : Stmt → Bool) where
  -- A job that ran leaves the targets alone and returns no result without an error, or is proven and
  -- makes its release current.
  abbrev Released : Request → List TargetRow → Final Doc W → Type 0
  Released request targets f =
      (f.1.targets ≡ targets) × ((r : Result) → f.0 ≢ returned r)
      ⊎ ((r : Result) × (f.0 ≡ returned r)
          × IsProven request r
          × (r.status ≡ "succeeded")
          × (f.1.targets ≡ upsert (success_row r request.manifest_digest) targets))

  finished-IsProven :
      (request : Request) (r : Result) (w : W)
      → IsProven request r
      → IsProven request (success_of runtime r w)
  finished-IsProven request r w p = record {
    for = p.for;
    checked = p.checked;
    backed_up = p.backed_up;
    applied = p.applied;
    healthy = p.healthy;
  }

  run_job-Released :
      (request : Request) (db : Db Doc) (r : Result) (w : W)
      → IsFor request r
      → Released request db.targets (run_job json runtime runs r request db w)
  run_job-Released request db =
      run_job_ends json runtime runs request db (Released request db.targets)
        (λ r step code w h.
          let (t, cases) = fail_cases json runtime runs r db w step code in
          inl (t, elim cases [ inl (o, c) ↦ λ x e. cc | inr (x, o) ↦ λ y e. cc ]))
        (λ r w p. elim (succeed_cases json runtime runs r db w request) [
          | inl (o, c, t) ↦
              inr (success_of runtime r w, o, finished-IsProven request r w p, refl, t)
          | inr (e, o, c) ↦ inl (rw c refl, λ y h. cc)
        ])

  -- A stored result changes no target.
  abbrev Answered : Request → Db Doc → Final Doc W → Type 0
  Answered request db f =
      (find_job request.idempotency_key db.jobs ≡ none)
        × IsAcceptable request
        × Released request db.targets f
      ⊎ (f.1.targets ≡ db.targets)
        × ((r : Result) → f.0 ≡ returned r → find_job request.idempotency_key db.jobs ≢ none)

  execute-Answered :
      (sha256_hex : Doc → String) (request : Request) (db : Db Doc) (w : W)
      → Answered request db (execute json runtime runs sha256_hex request db w)
  execute-Answered sha256_hex request db w =
      execute_ends json runtime runs sha256_hex request db w (Answered request db)
        (λ e. inr (refl, λ r h. cc)) (λ hash j r v s f a. inr (refl, λ x h n. cc))
        (λ hash changed v s i.
          let same : changed.targets ≡ db.targets = ap (λ (d : Db Doc). d.targets) i.inserted in
          inl (
            i.fresh,
            (validate_iff request).0 v,
            rw (← same) (run_job-Released request changed _ w (refl, refl, refl, refl)),
          ))

  -- A new job that returns a result without an error was acceptable and is proven: it passed the
  -- preflight, has a verified, encrypted and offsite backup where one is required, applied every
  -- image and a demanded migration, and passed its health profile. Its release is then current.
  pub execute-IsProven :
      (sha256_hex : Doc → String) (request : Request) (db : Db Doc) (w : W) (r : Result)
      → find_job request.idempotency_key db.jobs ≡ none
      → (execute json runtime runs sha256_hex request db w).0 ≡ returned r
      → IsAcceptable request
        × IsProven request r
        × (r.status ≡ "succeeded")
        × (find_target request.target.id
              (execute json runtime runs sha256_hex request db w).1.targets
            ≡ some (success_row r request.manifest_digest))
  execute-IsProven sha256_hex request db w r fresh h =
      elim (execute-Answered sha256_hex request db w) [
        | inl (f, a, inl (t, no_result)) ↦ absurd (no_result r h)
        | inl (f, a, inr (x, o, p, s, t)) ↦
            let same : x ≡ r = cc in
            rw (← same) (a, p, s, rw t (find_target-release request x _ p.for.3))
        | inr (t, old) ↦ absurd (old r h fresh)
      ]

  -- Where no result is returned without an error, every current release stays what it was.
  pub execute_keeps_targets :
      (sha256_hex : Doc → String) (request : Request) (db : Db Doc) (w : W)
      → ((r : Result) → (execute json runtime runs sha256_hex request db w).0 ≢ returned r)
      → (execute json runtime runs sha256_hex request db w).1.targets ≡ db.targets
  execute_keeps_targets sha256_hex request db w h =
      elim (execute-Answered sha256_hex request db w) [
        | inl (f, a, inl (t, no_result)) ↦ t
        | inl (f, a, inr (x, o, p, s, t)) ↦ absurd (h x o)
        | inr (t, old) ↦ t
      ]
