-- ===== src/SourceDeploy/Engine.antt =====
-- internal/sourcedeploy/engine.go: `Apply` from the snapshot on, its deferred restart, and
-- `restoreSource`. A copy either puts the file in place or leaves what was there.
pub mod Restarted
pub mod Order
pub mod Snapshot
pub mod Replacement
pub mod Stage
pub mod Ordered
use fleetdeck.Prelude.{
  ℕ, zero, suc, ◌+◌, ◌-◌, ◌*◌, ◌≤◌, ◌<◌, ◌≡◌, refl, sym, ap, ◌∙◌, ◌≢◌, ◌↔◌, ◌⊎◌, inl, inr, Bool,
  true, false, not, ◌&&◌, ◌||◌, Option, none, some, List, [], ◌∷◌, ◌++◌, map, String, arith, ◌==◌,
  eq_iff, eq_refl, byte_length, ltb, leb, eqb, if◌then◌else◌, Bool-cases, Option-cases, length, all,
  any, All, length-append, rev_onto, rev_onto-append, is_nil, sort_by, length-sort_by, any-sort_by,
  Outcome, ok, err, ◌>>=◌, ◌>>◌, guard, Outcome-cases,
}
use fleetdeck.Prelude.Dict.{
  Dict, lookup, insert, delete, delete_if, lookup-insert, lookup-delete, length-insert,
  length-delete, length-delete_if, IsDistinct, drop_if, lookup-delete_if, insert-IsDistinct,
  delete-IsDistinct, delete_if-IsDistinct, length-insert_found,
}
use fleetdeck.Prelude.Texts.{codes, has_prefix, has_suffix, contains, text_leb}
use fleetdeck.SourceDeploy.Types.{
  unverified, verified, built, not_ready, replace_failed, pull_failed, edge_failed, status_failed,
  snapshot_failed, pulled, upped, edge_prepared, restored, status_set, services_started, replaced,
  files_added, Options, ServiceModel, Model, Event, History, ApplyError, Run, M, ◌>>>◌, pure, fail,
  answer, ask, require, note, perform, lift, check_that,
}
use fleetdeck.SourceDeploy.Runtime.{resolve, Containers, quiesce, save_runtime}
use fleetdeck.SourceDeploy.Staging.{Server, Staged, admit_project, stage_source}

pub record Commands : Type 0 where
  pub database_kind : ServiceModel → Option String
  pub containers : Containers
  pub project_config : History → Option (Option Model)
  pub backup : History → Option String
  pub add_files : List String → History → Bool
  pub verify : String → History → Bool
  pub pull : History → Bool
  pub build : Bool → History → Bool
  pub copy : String → History → Bool
  pub open_snapshot : String → History → Bool
  pub prepare_edge : History → Bool
  pub up : History → Bool
  pub set_status : String → History → Bool
  pub start : List String → History → Bool

module _ (server : Server) (commands : Commands) (o : Options) where
  unfoldable pub keep_snapshot : String → M (Unit {0})
  keep_snapshot id r =
      (ok tt, record r { snapshot = some id; history = Event.backed_up id ∷ r.history })

  unfoldable pub set_backup_id : String → M (Unit {0})
  set_backup_id id r = (ok tt, record r { backup_id = id })

  -- The snapshot of an existing project, verified.
  unfoldable pub take_snapshot : Staged → M (Unit {0})
  take_snapshot s = resolve o.name commands.project_config >>> λ old.
      quiesce commands.database_kind commands.containers old >>> λ _.
      ask commands.backup ApplyError.backup_failed >>> λ id. keep_snapshot id >>> λ _.
      perform (commands.add_files (s.updates ++ s.private)) files_added snapshot_failed >>> λ _.
      perform (commands.verify id) (verified id) unverified >>> λ _.
      set_backup_id id >>> λ _. save_runtime commands.database_kind commands.containers

  unfoldable pub protect : Bool → Staged → M (Unit {0})
  protect true s = take_snapshot s
  protect false s = pure tt

  unfoldable pub build_images : M (Unit {0})
  build_images = perform commands.pull pulled pull_failed >>> λ _.
      perform (commands.build o.no_cache) built ApplyError.build_failed

  -- The loop of `restoreSource`; its errors join one that is returned already.
  unfoldable pub restore_each : List String → Run → Run
  restore_each [] r = r
  restore_each (name ∷ names) r =
      restore_each names (record r { history = restored name ∷ r.history })

  -- `restoreSource`
  abbrev pub restore_source : String → List String → Run → Run
  restore_source id names r =
      if commands.open_snapshot id r.history then restore_each names r else r

  abbrev pub undo : Option String → List String → Run → Run
  undo none names r = r
  undo (some id) names r = restore_source id names r

  unfoldable pub abandon : {A : Type 0} → List String → ApplyError → M A
  abandon written e r = (err e, undo r.snapshot written r)

  unfoldable pub copied : Bool → String → List String → M (List String)
  copied true name written = note (replaced name) >>> λ _. pure (written ++ (name ∷ []))
  copied false name written = abandon written replace_failed

  unfoldable pub copy_file : String → List String → M (List String)
  copy_file name written r = copied (commands.copy name r.history) name written r

  -- The loop over the files to write.
  unfoldable pub replace_files : List String → List String → M (List String)
  replace_files [] written = pure written
  replace_files (name ∷ names) written =
      copy_file name written >>> λ extended. replace_files names extended

  unfoldable pub edge_answered : Bool → List String → M (Unit {0})
  edge_answered true written = note edge_prepared
  edge_answered false written = abandon written edge_failed

  unfoldable pub prepare_edge : List String → M (Unit {0})
  prepare_edge written r = edge_answered (commands.prepare_edge r.history) written r

  -- `up` was run: the services that were stopped are not started by hand any more.
  unfoldable pub note_up : Bool → M (Unit {0})
  note_up b r = (ok tt, record r { stopped = []; history = upped b ∷ r.history })

  unfoldable pub set_healthy : M (Unit {0})
  set_healthy r = (ok tt, record r { healthy = true })

  unfoldable pub finish_up : Bool → M (Unit {0})
  finish_up true = note_up true >>> λ _.
      perform (commands.set_status "running") (status_set "running") status_failed >>> λ _.
      set_healthy
  finish_up false = note_up false >>> λ _. note (status_set "failed") >>> λ _. fail not_ready

  unfoldable pub start_services : M (Unit {0})
  start_services r = finish_up (commands.up r.history) r

  unfoldable pub write_source : List String → M (Unit {0})
  write_source updates =
      replace_files updates [] >>> λ written. prepare_edge written >>> λ _. start_services

  -- From the snapshot on.
  unfoldable pub commit : Staged → M (Unit {0})
  commit s = protect s.existing s >>> λ _. build_images >>> λ _. write_source s.updates

  abbrev pub restart_answer : Bool → Run → Run
  restart_answer true r = record r { stopped = [] }
  restart_answer false r = r

  -- The deferred call of `restart`.
  abbrev pub restart : Run → Run
  restart r =
      if is_nil r.stopped
      then r
      else restart_answer (commands.start r.stopped r.history)
          (record r { history = services_started r.stopped ∷ r.history })

  abbrev pub new_run : Run
  new_run = record {
    created = false;
    healthy = false;
    backup_id = "";
    stopped = [];
    snapshot = none;
    history = [];
  }

  unfoldable pub attempt : M (Unit {0})
  attempt = admit_project server o >>> λ _. stage_source server o >>> λ s. commit s

  -- `Apply`
  unfoldable pub apply : Outcome ApplyError (Unit {0}) × Run
  apply = let (result, r) = attempt new_run in (result, restart r)
