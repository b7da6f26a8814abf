-- ===== src/SourceDeploy/Engine/Restarted.antt =====
-- The services that a run stops do not stay stopped without a try to start them.
use fleetdeck.Prelude.{
  ◌≡◌, refl, sym, ap, ◌∙◌, inl, inr, Bool, true, false, Option, none, some, List, [], ◌∷◌, String,
  Bool-cases, is_nil,
}
use fleetdeck.SourceDeploy.Types.{
  Options, Event, user_created, registered, files_added, pulled, built, edge_prepared, upped,
  writers_stopped, services_started, backed_up, verified, replaced, restored, tagged, status_set,
  History, ApplyError, Run, note,
}
use fleetdeck.SourceDeploy.Runtime.{halt}
use fleetdeck.SourceDeploy.Names.{drop_all, drop_all_itself}
use fleetdeck.SourceDeploy.Staging.{Server, Staged, set_created}
use fleetdeck.SourceDeploy.Keeps.{
  Keeps, keeping, bind-Keeps, resolve-Keeps, quiesce-Keeps, save_runtime-Keeps, pure-Keeps,
}
use fleetdeck.SourceDeploy.StagingKeeps.{admit_project-Keeps, stage_source-Keeps}
use fleetdeck.SourceDeploy.Engine.{
  edge_failed, replace_failed, Commands, keep_snapshot, set_backup_id, take_snapshot, protect,
  build_images, restore_each, undo, abandon, copied, copy_file, replace_files, edge_answered,
  prepare_edge, note_up, set_healthy, finish_up, start_services, write_source, commit,
  restart_answer, restart, new_run, attempt, apply,
}

-- The services that a call leaves stopped: those that were stopped, until they are started, or until
-- `up` takes over.
abbrev pub after_event : Event → List String → List String
after_event user_created names = names
after_event registered names = names
after_event files_added names = names
after_event pulled names = names
after_event built names = names
after_event edge_prepared names = names
after_event (upped b) names = []
after_event (writers_stopped stopped) names = stopped
after_event (services_started started) names = drop_all started names
after_event (backed_up id) names = names
after_event (verified id) names = names
after_event (replaced file) names = names
after_event (restored file) names = names
after_event (tagged service) names = names
after_event (status_set s) names = names

unfoldable pub left_stopped : History → List String
left_stopped [] = []
left_stopped (v ∷ h) = after_event v (left_stopped h)

-- The variable `stopped` is what was left stopped.
abbrev pub IsTracked : Run → Type 0
IsTracked r = r.stopped ≡ left_stopped r.history

module _ (server : Server) (commands : Commands) (o : Options) where
  halt-IsTracked :
      (names : List String)
      → Keeps IsTracked (halt commands.database_kind commands.containers names)
  unfolding halt left_stopped
  halt-IsTracked names = record { kept = λ r p. refl }

  tagged-IsTracked : (service : String) → Keeps IsTracked (note (tagged service))
  unfolding note left_stopped
  tagged-IsTracked service = record { kept = λ r p. p }

  restore_each-IsTracked :
      (names : List String) (r : Run)
      → IsTracked r
      → IsTracked (restore_each server commands o names r)
  unfolding restore_each left_stopped
  restore_each-IsTracked [] r p = p
  restore_each-IsTracked (name ∷ names) r p =
      restore_each-IsTracked names (record r { history = restored name ∷ r.history }) p

  undo-IsTracked :
      (id : Option String) (names : List String) (r : Run)
      → IsTracked r
      → IsTracked (undo server commands o id names r)
  undo-IsTracked none names r p = p
  undo-IsTracked (some id) names r p = elim (Bool-cases (commands.open_snapshot id r.history)) [
    | inl opened ↦ simp opened (restore_each-IsTracked names r p)
    | inr closed ↦ simp closed p
  ]

  abandon-IsTracked :
      {A : Type 0} (written : List String) (e : ApplyError)
      → Keeps IsTracked (abandon server commands o {A = A} written e)
  unfolding abandon
  abandon-IsTracked written e = record { kept = λ r p. undo-IsTracked r.snapshot written r p }

  files_added-IsTracked : Keeps IsTracked (note files_added)
  unfolding note left_stopped
  files_added-IsTracked = record { kept = λ r p. p }

  verified-IsTracked : (id : String) → Keeps IsTracked (note (verified id))
  unfolding note left_stopped
  verified-IsTracked id = record { kept = λ r p. p }

  keep_snapshot-IsTracked : (id : String) → Keeps IsTracked (keep_snapshot server commands o id)
  unfolding keep_snapshot left_stopped
  keep_snapshot-IsTracked id = record { kept = λ r p. p }

  set_backup_id-IsTracked : (id : String) → Keeps IsTracked (set_backup_id server commands o id)
  unfolding set_backup_id
  set_backup_id-IsTracked id = record { kept = λ r p. p }

  take_snapshot-IsTracked : (s : Staged) → Keeps IsTracked (take_snapshot server commands o s)
  unfolding take_snapshot
  take_snapshot-IsTracked s =
      search
        (
          keeping, resolve-Keeps, quiesce-Keeps, halt-IsTracked, keep_snapshot-IsTracked,
          files_added-IsTracked, verified-IsTracked, set_backup_id-IsTracked, save_runtime-Keeps,
          tagged-IsTracked,
        )
        depth 20

  protect-IsTracked : (b : Bool) (s : Staged) → Keeps IsTracked (protect server commands o b s)
  unfolding protect
  protect-IsTracked true s = take_snapshot-IsTracked s
  protect-IsTracked false s = pure-Keeps IsTracked tt

  pulled-IsTracked : Keeps IsTracked (note pulled)
  unfolding note left_stopped
  pulled-IsTracked = record { kept = λ r p. p }

  built-IsTracked : Keeps IsTracked (note built)
  unfolding note left_stopped
  built-IsTracked = record { kept = λ r p. p }

  build_images-IsTracked : Keeps IsTracked (build_images server commands o)
  unfolding build_images
  build_images-IsTracked = search (keeping, pulled-IsTracked, built-IsTracked) depth 12

  replaced-IsTracked : (name : String) → Keeps IsTracked (note (replaced name))
  unfolding note left_stopped
  replaced-IsTracked name = record { kept = λ r p. p }

  copied-IsTracked :
      (b : Bool) (name : String) (written : List String)
      → Keeps IsTracked (copied server commands o b name written)
  unfolding copied
  copied-IsTracked true name written = search (keeping, replaced-IsTracked)
  copied-IsTracked false name written = abandon-IsTracked written replace_failed

  copy_file-IsTracked :
      (name : String) (written : List String)
      → Keeps IsTracked (copy_file server commands o name written)
  unfolding copy_file
  copy_file-IsTracked name written = record {
    kept = λ r p. (copied-IsTracked (commands.copy name r.history) name written).kept r p;
  }

  replace_files-IsTracked :
      (names written : List String)
      → Keeps IsTracked (replace_files server commands o names written)
  unfolding replace_files
  replace_files-IsTracked [] written = pure-Keeps IsTracked written
  replace_files-IsTracked (name ∷ names) written =
      bind-Keeps IsTracked (copy_file-IsTracked name written)
        (λ extended. replace_files-IsTracked names extended)

  edge-IsTracked : Keeps IsTracked (note edge_prepared)
  unfolding note left_stopped
  edge-IsTracked = record { kept = λ r p. p }

  edge_answered-IsTracked :
      (b : Bool) (written : List String)
      → Keeps IsTracked (edge_answered server commands o b written)
  unfolding edge_answered
  edge_answered-IsTracked true written = edge-IsTracked
  edge_answered-IsTracked false written = abandon-IsTracked written edge_failed

  prepare_edge-IsTracked :
      (written : List String) → Keeps IsTracked (prepare_edge server commands o written)
  unfolding prepare_edge
  prepare_edge-IsTracked written = record {
    kept = λ r p. (edge_answered-IsTracked (commands.prepare_edge r.history) written).kept r p;
  }

  note_up-IsTracked : (b : Bool) → Keeps IsTracked (note_up server commands o b)
  unfolding note_up left_stopped
  note_up-IsTracked b = record { kept = λ r p. refl }

  status-IsTracked : (s : String) → Keeps IsTracked (note (status_set s))
  unfolding note left_stopped
  status-IsTracked s = record { kept = λ r p. p }

  set_healthy-IsTracked : Keeps IsTracked (set_healthy server commands o)
  unfolding set_healthy
  set_healthy-IsTracked = record { kept = λ r p. p }

  finish_up-IsTracked : (b : Bool) → Keeps IsTracked (finish_up server commands o b)
  unfolding finish_up
  finish_up-IsTracked true =
      search (keeping, note_up-IsTracked, status-IsTracked, set_healthy-IsTracked) depth 12
  finish_up-IsTracked false = search (keeping, note_up-IsTracked, status-IsTracked) depth 12

  start_services-IsTracked : Keeps IsTracked (start_services server commands o)
  unfolding start_services
  start_services-IsTracked = record {
    kept = λ r p. (finish_up-IsTracked (commands.up r.history)).kept r p;
  }

  commit-IsTracked : (s : Staged) → Keeps IsTracked (commit server commands o s)
  unfolding commit write_source
  commit-IsTracked s =
      search
        (
          keeping, protect-IsTracked, build_images-IsTracked, replace_files-IsTracked,
          prepare_edge-IsTracked, start_services-IsTracked,
        )
        depth 12

  user-IsTracked : Keeps IsTracked (note user_created)
  unfolding note left_stopped
  user-IsTracked = record { kept = λ r p. p }

  registered-IsTracked : Keeps IsTracked (note registered)
  unfolding note left_stopped
  registered-IsTracked = record { kept = λ r p. p }

  created-IsTracked : Keeps IsTracked (set_created server o)
  unfolding set_created
  created-IsTracked = record { kept = λ r p. p }

  attempt-IsTracked : Keeps IsTracked (attempt server commands o)
  unfolding attempt
  attempt-IsTracked =
      search
        (
          keeping, admit_project-Keeps, stage_source-Keeps, commit-IsTracked, user-IsTracked,
          registered-IsTracked, created-IsTracked,
        )
        depth 12

  restart_answer-history :
      (b : Bool) (r : Run) → (restart_answer server commands o b r).history ≡ r.history
  restart_answer-history true r = refl
  restart_answer-history false r = refl

  nil_of : (names : List String) → is_nil names ≡ true → names ≡ []
  nil_of [] h = refl
  nil_of (name ∷ names) h = cc

  restart-left_stopped :
      (r : Run) → IsTracked r → left_stopped (restart server commands o r).history ≡ []
  unfolding left_stopped
  restart-left_stopped r p = elim (Bool-cases (is_nil r.stopped)) [
    | inl idle ↦ simp idle (sym p ∙ nil_of r.stopped idle)
    | inr held ↦ simp held (
        ap left_stopped (
          restart_answer-history (commands.start r.stopped r.history)
            (record r { history = services_started r.stopped ∷ r.history }))
        ∙ ap (drop_all r.stopped) (sym p)
        ∙ drop_all_itself r.stopped)
  ]

  -- However `Apply` ends, the services that it stopped are not left so: after the last call that
  -- stopped services the run has called for these services to be started, or has run `up`.
  pub apply-left_stopped : left_stopped (apply server commands o).1.history ≡ []
  unfolding apply left_stopped
  apply-left_stopped =
      restart-left_stopped (attempt server commands o (new_run server commands o)).1
        (attempt-IsTracked.kept (new_run server commands o) refl)
