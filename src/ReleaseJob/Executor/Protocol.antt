-- ===== src/ReleaseJob/Executor/Protocol.antt =====
-- The calls of a job on the host, as the release protocol: each call is made only where the protocol
-- has a step for it.
use fleetdeck.Prelude.{
  ◌≡◌, refl, inl, inr, Bool, true, false, ◌||◌, Option, none, some, String, ◌==◌, eq_iff,
  Bool-cases, Outcome, ok, err,
}
use fleetdeck.ReleaseJob.Executor.Cases.{fail-ne-returned, execute_ends}
use fleetdeck.ReleaseJob.Executor.{
  started_result, RollbackEvidence, HealthEvidence, ApplyEvidence, execute, PreflightEvidence,
  Runtime, returned, Final, preflight_failed, backup_failed, apply_failed, migration_missing,
  health_failed, rollback_failed, same_optional_string, fail, recover_and_fail, fail_applied,
  succeed, run_health, run_apply, run_backup, run_preflight, run_job, after_current,
}
use fleetdeck.ReleaseJob.Store.{find_job, Json, Db, Stmt, StoreError, current_release}
use fleetdeck.ReleaseJob.Types.{Request, Result, BackupEvidence}

-- Where a job stands; from `saved` on with the backup that was taken.
pub data Stage : Type 0 where
  begun checked released stopped : Stage
  saved applied broken : Option BackupEvidence → Stage

module _ {W : Type 0} (runtime : Runtime W) (request : Request) where
  -- The calls on the host that led from `w` to a stage.
  pub data Called (w : W) : Stage → W → Type 0 where
    start : Called w begun w
    preflight_pass :
        {v u : W} {p : PreflightEvidence} {e : Bool}
        → runtime.preflight request v ≡ (p, e, u)
        → preflight_failed p e ≡ false
        → Called w begun v
        → Called w checked u
    preflight_stop :
        {v u : W} {p : PreflightEvidence} {e : Bool}
        → runtime.preflight request v ≡ (p, e, u)
        → preflight_failed p e ≡ true
        → Called w begun v
        → Called w stopped u
    skip_backup :
        {v : W} → request.backup.required ≡ false → Called w checked v → Called w (saved none) v
    backup_pass :
        {v u : W} {b : BackupEvidence} {e : Bool}
        → runtime.create_and_verify_backup request v ≡ (b, e, u)
        → request.backup.required ≡ true
        → backup_failed b e ≡ false
        → Called w checked v
        → Called w (saved (some b)) u
    backup_stop :
        {v u : W} {b : BackupEvidence} {e : Bool}
        → runtime.create_and_verify_backup request v ≡ (b, e, u)
        → request.backup.required ≡ true
        → backup_failed b e ≡ true
        → Called w checked v
        → Called w stopped u
    apply_pass :
        {v u : W} {o : Option BackupEvidence} {a : ApplyEvidence} {e : Bool}
        → runtime.apply request v ≡ (a, e, u)
        → (apply_failed request a e || migration_missing request a) ≡ false
        → Called w (saved o) v
        → Called w (applied o) u
    apply_stop :
        {v u : W} {o : Option BackupEvidence} {a : ApplyEvidence} {e : Bool}
        → runtime.apply request v ≡ (a, e, u)
        → (apply_failed request a e || migration_missing request a) ≡ true
        → Called w (saved o) v
        → Called w (broken o) u
    health_pass :
        {v u : W} {o : Option BackupEvidence} {h : HealthEvidence} {e : Bool}
        → runtime.verify_health request v ≡ (h, e, u)
        → health_failed request h e ≡ false
        → Called w (applied o) v
        → Called w released u
    health_stop :
        {v u : W} {o : Option BackupEvidence} {h : HealthEvidence} {e : Bool}
        → runtime.verify_health request v ≡ (h, e, u)
        → health_failed request h e ≡ true
        → Called w (applied o) v
        → Called w (broken o) u
    restore :
        {v u : W} {b : BackupEvidence} {r : RollbackEvidence} {e : Bool}
        → runtime.restore_backup request b v ≡ (r, e, u)
        → request.recovery.mode ≡ "runtime-only"
        → Called w (broken (some b)) v
        → Called w stopped u

  -- A job that ended made the calls of some stage, and of `released` if it returns a result without
  -- an error.
  abbrev pub Follows : {Doc : Type 0} → W → Final Doc W → Type 0
  Follows w f = (s : Stage) × Called w s f.2 × ((r : Result) → f.0 ≡ returned r → s ≡ released)

module _ {Doc W : Type 0} (json : Json Doc) (runtime : Runtime W) (runs : Stmt → Bool)
    (request : Request) (db : Db Doc) (w : W) where
  fail-Follows :
      (s : Stage) (r : Result) (step code : String) (v : W)
      → Called runtime request w s v
      → Follows runtime request w (fail json runtime runs r step code db v)
  fail-Follows s r step code v c =
      (s, unfold fail in c, λ x h. absurd (fail-ne-returned json runtime runs r db v step code x h))

  recover-Follows :
      (b : BackupEvidence) (r : Result) (step code : String) (v : W)
      → request.recovery.mode ≡ "runtime-only"
      → Called runtime request w (broken (some b)) v
      → Follows runtime request w (recover_and_fail json runtime runs r request b step code db v)
  unfolding recover_and_fail
  recover-Follows b r step code v m c =
      let (rollback, e, u) = runtime.restore_backup request b v in
      elim (Bool-cases (rollback_failed request b rollback e)) [
        | inl f ↦ rw f (fail-Follows stopped _ _ _ _ (restore refl m c))
        | inr f ↦ rw f (fail-Follows stopped _ _ _ _ (restore refl m c))
      ]

  broken-Follows :
      (o : Option BackupEvidence) (r : Result) (step code : String) (v : W)
      → Called runtime request w (broken o) v
      → Follows runtime request w (fail_applied json runtime runs r request o step code db v)
  broken-Follows none r step code v c = fail-Follows (broken none) r step code v c
  broken-Follows (some b) r step code v c =
      elim (Bool-cases (request.recovery.mode == "runtime-only")) [
        | inl f ↦ rw f (recover-Follows b r step code v ((eq_iff _ _).0 f) c)
        | inr f ↦ rw f (fail-Follows (broken (some b)) r step code v c)
      ]

  succeed-Follows :
      (r : Result) (v : W)
      → Called runtime request w released v
      → Follows runtime request w (succeed json runtime runs r request db v)
  unfolding succeed
  succeed-Follows r v c = (released, c, λ x h. refl)

  health-Follows :
      (r : Result) (v : W)
      → Called runtime request w (applied r.backup) v
      → Follows runtime request w (run_health json runtime runs r request db v)
  unfolding run_health
  health-Follows r v c =
      let (x, e, u) = runtime.verify_health request v in
      elim (Bool-cases (health_failed request x e)) [
        | inl f ↦ rw f (broken-Follows r.backup _ _ _ _ (health_stop refl f c))
        | inr f ↦ rw f (succeed-Follows _ _ (health_pass refl f c))
      ]

  apply-Follows :
      (r : Result) (v : W)
      → Called runtime request w (saved r.backup) v
      → Follows runtime request w (run_apply json runtime runs r request db v)
  unfolding run_apply
  apply-Follows r v c =
      let (a, e, u) = runtime.apply request v in
      elim (Bool-cases (apply_failed request a e)) [
        | inl f ↦ rw f (broken-Follows r.backup _ _ _ _ (apply_stop refl (rw f) c))
        | inr f ↦ rw f (elim (Bool-cases (migration_missing request a)) [
          | inl g ↦ rw g (broken-Follows r.backup _ _ _ _ (apply_stop refl (rw (f, g)) c))
          | inr g ↦ rw g (health-Follows _ _ (apply_pass refl (rw (f, g)) c))
        ])
      ]

  backup-Follows :
      (r : Result) (v : W)
      → r.backup ≡ none
      → Called runtime request w checked v
      → Follows runtime request w (run_backup json runtime runs r request db v)
  unfolding run_backup
  backup-Follows r v n c = elim (Bool-cases request.backup.required) [
    | inr f ↦ simp f (apply-Follows r v (rw n (skip_backup f c)))
    | inl y ↦
        let (b, e, u) = runtime.create_and_verify_backup request v in
        simp y (elim (Bool-cases (backup_failed b e)) [
          | inl f ↦ rw f (fail-Follows stopped _ _ _ _ (backup_stop refl y f c))
          | inr f ↦ rw f (apply-Follows _ _ (backup_pass refl y f c))
        ])
  ]

  preflight-Follows :
      (r : Result) (v : W)
      → r.backup ≡ none
      → Called runtime request w begun v
      → Follows runtime request w (run_preflight json runtime runs r request db v)
  unfolding run_preflight
  preflight-Follows r v n c =
      let (p, e, u) = runtime.preflight request v in
      elim (Bool-cases (preflight_failed p e)) [
        | inl f ↦ rw f (fail-Follows stopped _ _ _ _ (preflight_stop refl f c))
        | inr f ↦ rw f (backup-Follows _ _ n (preflight_pass refl f c))
      ]

  current-Follows :
      (m : Outcome StoreError (Option String)) (r : Result)
      → r.backup ≡ none
      → Follows runtime request w (after_current json runtime runs m r request db w)
  current-Follows (err _) r n = fail-Follows begun _ _ _ _ start
  current-Follows (ok current) r n =
      elim (Bool-cases (same_optional_string current request.target.expected_current_release_id)) [
        | inl f ↦ rw f (preflight-Follows r w n start)
        | inr f ↦ rw f (fail-Follows begun _ _ _ _ start)
      ]

  run_job-Follows :
      (r : Result)
      → r.backup ≡ none
      → Follows runtime request w (run_job json runtime runs r request db w)
  unfolding run_job
  run_job-Follows r n = current-Follows (current_release runs request.target.id db) r n

module _ {Doc W : Type 0} (json : Json Doc) (runtime : Runtime W) (runs : Stmt → Bool)
    (sha256_hex : Doc → String) (request : Request) (db : Db Doc) (w : W) where
  abbrev pub FollowsNew : Final Doc W → Type 0
  FollowsNew f =
      (s : Stage) × Called runtime request w s f.2
      × ((r : Result)
          → f.0 ≡ returned r
          → find_job request.idempotency_key db.jobs ≡ none
          → s ≡ released)

  -- The calls of an execution on the host follow the protocol. A new job returns a result without
  -- an error only after the whole of it: preflight, backup where required, apply and health check.
  pub execute-Follows : FollowsNew (execute json runtime runs sha256_hex request db w)
  execute-Follows =
      execute_ends json runtime runs sha256_hex request db w FollowsNew
        (λ e. (begun, start, λ r h n. cc)) (λ hash j r v s f a. (begun, start, λ x h n. cc))
        (λ hash changed v s i.
          let (stage, c, d) =
            run_job-Follows json runtime runs request changed w
              (started_result request (runtime.now w)) refl in
          (stage, c, λ r h n. d r h))
