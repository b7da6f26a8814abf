-- ===== src/Deploy/BlueGreen.antt =====
-- internal/deploy/bluegreen.go: the blue-green strategy. What Docker, the hooks and the health check
-- answer is a function of the calls so far; an error's wrapped text is left out of the log.
pub mod Switch
use fleetdeck.Prelude.{
  ℕ, zero, suc, ◌+◌, ◌-◌, ◌*◌, ◌≤◌, ◌<◌, ◌≡◌, refl, sym, ap, ◌∙◌, ◌≢◌, ◌↔◌, ◌⊎◌, inl, inr, Bool,
  true, false, not, ◌&&◌, ◌||◌, Option, none, some, List, [], ◌∷◌, ◌++◌, map, String, arith, ◌==◌,
  eq_iff, eq_refl, byte_length, ltb, leb, eqb, if◌then◌else◌, Bool-cases, Option-cases, length, all,
  any, All, length-append, rev_onto, rev_onto-append, is_nil, sort_by, length-sort_by, any-sort_by,
  Outcome, ok, err, ◌>>=◌, ◌>>◌, guard, Outcome-cases,
}
use fleetdeck.Prelude.Dict.{
  Dict, lookup, insert, delete, delete_if, lookup-insert, lookup-delete, length-insert,
  length-delete, length-delete_if, IsDistinct, drop_if, lookup-delete_if, insert-IsDistinct,
  delete-IsDistinct, delete_if-IsDistinct, length-insert_found,
}
use fleetdeck.Prelude.Texts.{codes, has_prefix, has_suffix, contains, text_leb}
use fleetdeck.Deploy.Strategy.{
  DeployOptions, LogLine, output, labelled, DeployResult, empty_result, names_of, log,
}

-- The stop and the removal of containers are recorded when they are tried, the rest when it succeeds.
pub data Call : Type 0 where
  edge_ready image_built new_started new_healthy new_removed old_stopped original_started : Call
  hook_done : String → Call

abbrev pub Calls : Type 0
Calls = List Call

-- One round of the health check: whether the context had ended, the status of the answer, if there was
-- one, and whether the context ended during the pause.
pub record Poll : Type 0 where
  pub ended_before : Bool
  pub status : Option ℕ
  pub ended_after : Bool

pub data SwitchError : Type 0 where
  edge_failed build_failed start_failed unhealthy promote_failed : SwitchError
  hook_failed : String → SwitchError

pub record Host : Type 0 where
  pub now : Calls → ℕ
  pub prepare : Calls → Bool
  pub list_containers : Calls → Option (List String)
  pub build_no_cache : Calls → Bool
  pub exec_hook : String → Calls → String × Bool
  pub start_new : Calls → Bool
  pub settle : Calls → Bool
  pub polls : Calls → List Poll
  pub stop_old : Calls → Bool
  pub remove_new : Calls → Bool
  pub start_original : Calls → Bool

abbrev pub Switched : Type 0
Switched = DeployResult × Option SwitchError × Calls

abbrev pub is_good_status : Option ℕ → Bool
is_good_status none = false
is_good_status (some code) = leb 200 code && ltb code 400

-- The loop of `waitHealthy` until the deadline.
unfoldable pub poll_healthy : List Poll → Bool
poll_healthy [] = false
poll_healthy (p ∷ ps) =
    let rest = poll_healthy ps in
    if p.ended_before
    then false
    else if is_good_status p.status
    then true
    else if p.ended_after
    then false
    else rest

module _ (host : Host) (opts : DeployOptions) where
  -- `waitHealthy`
  abbrev pub wait_healthy : Calls → Bool
  wait_healthy h =
      if opts.health_check_url == "" then host.settle h else poll_healthy (host.polls h)

  abbrev pub break_off : ℕ → SwitchError → DeployResult → Calls → Switched
  break_off start e r h = (record r { duration = host.now h - start }, some e, h)

  unfoldable pub close_up : ℕ → DeployResult → Calls → Switched
  close_up start r h = (
    record r {
      new_containers = names_of (host.list_containers h);
      success = true;
      duration = host.now h - start;
      logs = r.logs ++ (output "deployment complete" ∷ []);
    },
    none,
    h,
  )

  abbrev pub after_hook :
      String
      → ℕ
      → (DeployResult → Calls → Switched)
      → String × Bool
      → DeployResult
      → Calls
      → Switched
  after_hook label start rest (out, true) r h =
      break_off start (hook_failed label) (log (labelled label out) r) h
  after_hook label start rest (out, false) r h =
      rest (log (labelled label out) r) (hook_done label ∷ h)

  unfoldable pub hook_then :
      String → String → ℕ → (DeployResult → Calls → Switched) → DeployResult → Calls → Switched
  hook_then label command start rest r h =
      if command == "" then rest r h else after_hook label start rest (host.exec_hook label h) r h

  -- A line in the log if the call failed.
  abbrev pub warn : Bool → String → DeployResult → DeployResult
  warn true text r = log (output text) r
  warn false text r = r

  -- Step 4.
  unfoldable pub promote : ℕ → DeployResult → Calls → Switched
  promote start r h =
      let r = log (output "promoting new containers") r in
      let r = warn (host.remove_new h) "warning: failed to remove temp project" r in
      let h = new_removed ∷ h in
      if host.start_original h
      then break_off start promote_failed r h
      else hook_then "post-deploy" opts.post_deploy_hook start (close_up start) r
          (original_started ∷ h)

  -- Step 3.
  unfoldable pub retire_old : ℕ → DeployResult → Calls → Switched
  retire_old start r h =
      let r = log (output "stopping old containers") (log (output "health checks passed") r) in
      let r = warn (host.stop_old h) "warning: failed to stop old containers" r in
      promote start r (old_stopped ∷ h)

  -- The new containers are not healthy: they are removed.
  unfoldable pub roll_back : ℕ → DeployResult → Calls → Switched
  roll_back start r h =
      let r = log (output "health check failed") r in
      let r = log (output "rolling back: removing new containers") r in
      let r = warn (host.remove_new h) "warning: rollback cleanup failed" r in
      break_off start unhealthy r (new_removed ∷ h)

  -- Steps 1 and 2.
  unfoldable pub start_new : ℕ → DeployResult → Calls → Switched
  start_new start r h =
      let r = log (output "starting new containers") r in
      if host.start_new h
      then break_off start start_failed r h
      else (let r = log (output "running health checks") r in
          let h = new_started ∷ h in
          if wait_healthy h then retire_old start r (new_healthy ∷ h) else roll_back start r h)

  unfoldable pub build_first : ℕ → DeployResult → Calls → Switched
  build_first start r h =
      if not opts.no_cache
      then hook_then "pre-deploy" opts.pre_deploy_hook start (start_new start) r h
      else if host.build_no_cache h
      then break_off start build_failed r h
      else hook_then "pre-deploy" opts.pre_deploy_hook start (start_new start) r (image_built ∷ h)

  -- `BlueGreenStrategy.Deploy`
  unfoldable pub blue_green_deploy : Switched
  blue_green_deploy =
      if host.prepare []
      then (empty_result, some edge_failed, [])
      else build_first (host.now [])
          (record empty_result {
            old_containers = names_of (host.list_containers (edge_ready ∷ []));
          })
          (edge_ready ∷ [])
