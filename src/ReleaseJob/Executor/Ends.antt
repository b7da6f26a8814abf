-- ===== src/ReleaseJob/Executor/Ends.antt =====
-- How an acquired job can end: by `fail`, or by `succeed` with the evidence of every step.
use fleetdeck.ReleaseJob.Executor.{
  after_current, StoreError, Runtime, Final, preflight_failed, backup_failed, apply_failed,
  migration_missing, health_failed, rollback_failed, same_optional_string, fail, recover_and_fail,
  fail_applied, succeed, run_health, run_apply, run_backup, run_preflight, run_job,
}
use fleetdeck.ReleaseJob.Contract.Laws.{IsDigest}
use fleetdeck.ReleaseJob.Contract.{digest_pattern}
use fleetdeck.Regex.Correct.{match_string_iff}
use fleetdeck.ReleaseJob.Store.{Json, Db, Stmt, current_release}
use fleetdeck.ReleaseJob.Types.{
  Request, Result, PreflightEvidence, BackupEvidence, ApplyEvidence, HealthEvidence,
}
use fleetdeck.Prelude.{
  ◌==◌, err, ok, Outcome, ◌≤◌, ◌≡◌, refl, ◌≢◌, inl, inr, Bool, true, false, String, Option, none,
  some, arith, eq_iff, length, Bool-cases,
}

-- The result is the one of the request's job.
abbrev pub IsFor : Request → Result → Type 0
IsFor request r =
    (r.job_id ≡ request.job_id)
    × (r.idempotency_key ≡ request.idempotency_key)
    × (r.release_id ≡ request.release_id)
    × (r.target_id ≡ request.target.id)

pub record IsChecked (stored : Option PreflightEvidence) : Type 0 where
  pub evidence : PreflightEvidence
  pub found : stored ≡ some evidence
  pub compose : evidence.compose_valid ≡ true
  pub resolved : evidence.images_resolved ≡ true
  pub ready : evidence.migration_ready ≡ true

pub record IsVerified (b : BackupEvidence) : Type 0 where
  pub verified : b.verified ≡ true
  pub encrypted : b.encrypted ≡ true
  pub offsite : b.offsite_verified ≡ true
  pub digest : IsDigest b.manifest_sha256
  pub named : b.backup_id ≢ ""

abbrev pub IsBackedUp : Request → Option BackupEvidence → Type 0
IsBackedUp request stored =
    request.backup.required ≡ true → (b : BackupEvidence) × (stored ≡ some b) × IsVerified b

pub record IsApplied (request : Request) (stored : Option ApplyEvidence) : Type 0 where
  pub evidence : ApplyEvidence
  pub found : stored ≡ some evidence
  pub every : evidence.applied_components ≡ length request.images
  pub migrated : request.migration.mode ≡ "preflight-and-apply" → evidence.migration_applied ≡ true

pub record IsHealthy (request : Request) (stored : Option HealthEvidence) : Type 0 where
  pub evidence : HealthEvidence
  pub found : stored ≡ some evidence
  pub profile : evidence.profile ≡ request.health_profile
  pub passed : 1 ≤ evidence.checks_passed

-- The result holds the evidence of every step of the request.
pub record IsProven (request : Request) (r : Result) : Type 0 where
  pub for : IsFor request r
  pub checked : IsChecked r.preflight
  pub backed_up : IsBackedUp request r.backup
  pub applied : IsApplied request r.apply
  pub healthy : IsHealthy request r.health

pub backup_ok : (b : BackupEvidence) (e : Bool) → backup_failed b e ≡ false → IsVerified b
backup_ok b e h =
    ground (arith, eq_iff b.backup_id "", match_string_iff digest_pattern b.manifest_sha256)

preflight_ok :
    (p : PreflightEvidence) (e : Bool) → preflight_failed p e ≡ false → IsChecked (some p)
preflight_ok p e h = record {
  evidence = p;
  found = refl;
  compose = ground arith;
  resolved = ground arith;
  ready = ground arith;
}

apply_ok :
    (request : Request) (a : ApplyEvidence) (e : Bool)
    → apply_failed request a e ≡ false
    → migration_missing request a ≡ false
    → IsApplied request (some a)
apply_ok request a e h m = record {
  evidence = a;
  found = refl;
  every = ground arith;
  migrated = λ p. ground (arith, eq_iff request.migration.mode "preflight-and-apply");
}

health_ok :
    (request : Request) (x : HealthEvidence) (e : Bool)
    → health_failed request x e ≡ false
    → IsHealthy request (some x)
health_ok request x e h = record {
  evidence = x;
  found = refl;
  profile = ground (arith, eq_iff x.profile request.health_profile);
  passed = ground arith;
}

-- What holds of every way to end holds of the run.
module _ {Doc W : Type 0} (json : Json Doc) (runtime : Runtime W) (runs : Stmt → Bool)
    (request : Request) (db : Db Doc) (P : Final Doc W → Type 0)
    (on_fail : (r : Result) (step code : String) (w : W)
      → IsFor request r
      → P (fail json runtime runs r step code db w))
    (on_success : (r : Result) (w : W)
      → IsProven request r
      → P (succeed json runtime runs r request db w)) where
  recover_ends :
      (r : Result) (b : BackupEvidence) (step code : String) (w : W)
      → IsFor request r
      → P (recover_and_fail json runtime runs r request b step code db w)
  unfolding recover_and_fail
  recover_ends r b step code w h =
      let (rollback, e, w') = runtime.restore_backup request b w in
      elim (Bool-cases (rollback_failed request b rollback e)) [
        | inl f ↦ rw f (on_fail _ _ _ _ h)
        | inr f ↦ rw f (on_fail _ _ _ _ h)
      ]

  fail_applied_ends :
      (r : Result) (o : Option BackupEvidence) (step code : String) (w : W)
      → IsFor request r
      → P (fail_applied json runtime runs r request o step code db w)
  fail_applied_ends r none step code w h = on_fail r step code w h
  fail_applied_ends r (some b) step code w h =
      elim (Bool-cases (request.recovery.mode == "runtime-only")) [
        | inl f ↦ rw f (recover_ends r b step code w h)
        | inr f ↦ rw f (on_fail r step code w h)
      ]

  health_ends :
      (r : Result) (w : W)
      → IsFor request r
      → IsChecked r.preflight
      → IsBackedUp request r.backup
      → IsApplied request r.apply
      → P (run_health json runtime runs r request db w)
  unfolding run_health
  health_ends r w h c b a =
      let (x, e, w') = runtime.verify_health request w in
      elim (Bool-cases (health_failed request x e)) [
        | inl f ↦ rw f (fail_applied_ends _ _ _ _ _ h)
        | inr f ↦ rw f (
            on_success _ _ (record {
              for = h;
              checked = c;
              backed_up = b;
              applied = a;
              healthy = health_ok request x e f;
            }))
      ]

  apply_ends :
      (r : Result) (w : W)
      → IsFor request r
      → IsChecked r.preflight
      → IsBackedUp request r.backup
      → P (run_apply json runtime runs r request db w)
  unfolding run_apply
  apply_ends r w h c b =
      let (a, e, w') = runtime.apply request w in
      elim (Bool-cases (apply_failed request a e)) [
        | inl f ↦ rw f (fail_applied_ends _ _ _ _ _ h)
        | inr f ↦ rw f (elim (Bool-cases (migration_missing request a)) [
          | inl g ↦ rw g (fail_applied_ends _ _ _ _ _ h)
          | inr g ↦ rw g (health_ends _ _ h c b (apply_ok request a e f g))
        ])
      ]

  backup_ends :
      (r : Result) (w : W)
      → IsFor request r
      → IsChecked r.preflight
      → P (run_backup json runtime runs r request db w)
  unfolding run_backup
  backup_ends r w h c = elim (Bool-cases request.backup.required) [
    | inr n ↦ simp n (apply_ends r w h c (λ y. cc))
    | inl y ↦
        let (b, e, w') = runtime.create_and_verify_backup request w in
        simp y (elim (Bool-cases (backup_failed b e)) [
          | inl f ↦ rw f (on_fail _ _ _ _ h)
          | inr f ↦ rw f (apply_ends _ _ h c (λ _. (b, refl, backup_ok b e f)))
        ])
  ]

  preflight_ends :
      (r : Result) (w : W) → IsFor request r → P (run_preflight json runtime runs r request db w)
  unfolding run_preflight
  preflight_ends r w h =
      let (p, e, w') = runtime.preflight request w in
      elim (Bool-cases (preflight_failed p e)) [
        | inl f ↦ rw f (on_fail _ _ _ _ h)
        | inr f ↦ rw f (backup_ends _ _ h (preflight_ok p e f))
      ]

  current_ends :
      (m : Outcome StoreError (Option String)) (r : Result) (w : W)
      → IsFor request r
      → P (after_current json runtime runs m r request db w)
  current_ends (err _) r w h = on_fail _ _ _ _ h
  current_ends (ok current) r w h =
      elim (Bool-cases (same_optional_string current request.target.expected_current_release_id)) [
        | inl f ↦ rw f (preflight_ends r w h)
        | inr f ↦ rw f (on_fail _ _ _ _ h)
      ]

  pub run_job_ends :
      (r : Result) (w : W) → IsFor request r → P (run_job json runtime runs r request db w)
  unfolding run_job
  run_job_ends r w h = current_ends (current_release runs request.target.id db) r w h
