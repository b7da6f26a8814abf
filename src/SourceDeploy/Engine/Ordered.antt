-- ===== src/SourceDeploy/Engine/Ordered.antt =====
-- The calls of a whole run.
use fleetdeck.Prelude.{
  ◌≡◌, refl, ◌⊎◌, inl, inr, Bool, true, false, some, List, [], ◌∷◌, String, Bool-cases, is_nil,
  Outcome, ok, err,
}
use fleetdeck.SourceDeploy.Types.{Options, services_started, ApplyError, Run}
use fleetdeck.SourceDeploy.Staging.{Server, Staged}
use fleetdeck.SourceDeploy.StagingKeeps.{admit_project-Keeps}
use fleetdeck.SourceDeploy.Engine.{
  Commands, commit, restart_answer, restart, new_run, attempt, apply,
}
use fleetdeck.SourceDeploy.Engine.Order.{
  Saw, unrestored, Follows, IsSettled, Ended, Clean, Clean-Ended, Post, bind-Post, keep-Post,
}
use fleetdeck.SourceDeploy.Engine.Snapshot.{
  user-Clean, registered-Clean, created-Clean, Covered, protect-Post, IsBuilt, build_images-Post,
}
use fleetdeck.SourceDeploy.Engine.Replacement.{write_source-Post}
use fleetdeck.SourceDeploy.Engine.Stage.{IsStaged, stage_source-Post}

module _ (server : Server) (commands : Commands) (o : Options) where
  commit-Post :
      (s : Staged) (r : Run)
      → IsStaged server commands o s r
      → Post server commands o (λ a. Clean server commands o) (commit server commands o s r)
  unfolding commit
  commit-Post s r (p, cover) =
      bind-Post server commands o (λ a. Covered server commands o) (λ a. Clean server commands o) _
        _ r (protect-Post server commands o s.existing s r p cover)
        (λ a t q.
          bind-Post server commands o
            (λ a t. IsBuilt server commands o t × (unrestored t.history ≡ []))
            (λ a. Clean server commands o) _ _ t (build_images-Post server commands o t q)
            (λ b u w. write_source-Post server commands o s.updates u w))

  attempt-Post :
      (r : Run)
      → Clean server commands o r
      → Post server commands o (λ a. Clean server commands o) (attempt server commands o r)
  unfolding attempt
  attempt-Post r p =
      bind-Post server commands o (λ a. Clean server commands o) (λ a. Clean server commands o) _ _
        r
        (keep-Post server commands o (Clean server commands o) _ r (Clean-Ended server commands o)
          (admit_project-Keeps (Clean server commands o) server o (user-Clean server commands o)
            (registered-Clean server commands o) (created-Clean server commands o))
          p)
        (λ a t q.
          bind-Post server commands o (IsStaged server commands o) (λ a. Clean server commands o) _
            _ t (stage_source-Post server commands o t q) (λ s u w. commit-Post s u w))

  Post-Ended :
      (x : Outcome ApplyError (Unit {0}) × Run)
      → Post server commands o (λ a. Clean server commands o) x
      → Ended server commands o x.1
  Post-Ended (ok a, r) p = Clean-Ended server commands o r p
  Post-Ended (err e, r) p = p

  restart_answer-Ended :
      (b : Bool) (r : Run)
      → Ended server commands o r
      → Ended server commands o (restart_answer server commands o b r)
  restart_answer-Ended true r p = p
  restart_answer-Ended false r p = p

  Settled-more :
      (names : List String) (r : Run)
      → IsSettled server commands o r
      → IsSettled server commands o (record r { history = services_started names ∷ r.history })
  unfolding unrestored
  Settled-more names r p id taken = elim (p id taken) [ inl e ↦ inl e | inr seen ↦ inr (inr seen) ]

  restart-Ended :
      (r : Run) → Ended server commands o r → Ended server commands o (restart server commands o r)
  unfolding Follows
  restart-Ended r (f, c) =
      let started : Run = record r { history = services_started r.stopped ∷ r.history } in
      elim (Bool-cases (is_nil r.stopped)) [
        | inl idle ↦ simp idle (f, c)
        | inr held ↦ simp held (
            restart_answer-Ended (commands.start r.stopped r.history) started
              ((tt, f), Settled-more r.stopped r c))
      ]

  apply-Ended : Ended server commands o (apply server commands o).1
  unfolding apply Follows unrestored
  apply-Ended = restart-Ended (attempt server commands o (new_run server commands o)).1 (
      Post-Ended (attempt server commands o (new_run server commands o))
        (attempt-Post (new_run server commands o) (tt, refl)))

  -- However `Apply` ends, its calls came in order: no file of the project is replaced before the images
  -- are built and the snapshot verified, unless the project had no Compose model to be read; a file is
  -- restored only after it was replaced; `up` comes after the edge is edge_answered, and the project's
  -- status after `up`, according to its outcome.
  pub apply-Follows : Follows server commands o (apply server commands o).1.history
  apply-Follows = apply-Ended.0

  -- If a run of `Apply` took a snapshot, then at its end it has called, for every file that it
  -- replaced, for the restoration from the snapshot, or has run `up` with the new files, unless the
  -- snapshot could not be opened.
  pub apply-unrestored :
      (id : String)
      → (apply server commands o).1.snapshot ≡ some id
      → (unrestored (apply server commands o).1.history ≡ [])
        ⊎ Saw (λ h. commands.open_snapshot id h ≡ false) (apply server commands o).1.history
  apply-unrestored id taken = apply-Ended.1 id taken
