-- ===== src/SourceDeploy/Engine/Snapshot.antt =====
-- The snapshot and the images come before the files.
use fleetdeck.Prelude.{
  ◌≡◌, refl, ◌⊎◌, inl, inr, Bool, true, false, none, List, [], ◌∷◌, ◌++◌, String, Outcome, ok, err,
}
use fleetdeck.SourceDeploy.Types.{
  Options, Event, user_created, registered, files_added, pulled, built, backed_up, verified, tagged,
  History, ApplyError, Run, ◌>>>◌, pure, note, perform,
}
use fleetdeck.SourceDeploy.Runtime.{save_runtime, halt}
use fleetdeck.SourceDeploy.Staging.{Server, Staged, set_created}
use fleetdeck.SourceDeploy.Keeps.{
  Keeps, bind-Keeps, resolve-Keeps, quiesce-Keeps, save_runtime-Keeps, ask-Keeps,
}
use fleetdeck.SourceDeploy.Engine.{
  unverified, snapshot_failed, Commands, keep_snapshot, set_backup_id, take_snapshot, protect,
  build_images,
}
use fleetdeck.SourceDeploy.Engine.Order.{
  Has, Saw, unrestored, IsSafe, Follows, Ended, Clean, Clean-Ended, Post, bind-Post, keep-Post,
  perform-Post,
}

module _ (server : Server) (commands : Commands) (o : Options) where
  pub user-Clean : Keeps (Clean server commands o) (note user_created)
  unfolding note Follows unrestored
  user-Clean = record { kept = λ r (f, c). ((tt, f), c) }

  pub registered-Clean : Keeps (Clean server commands o) (note registered)
  unfolding note Follows unrestored
  registered-Clean = record { kept = λ r (f, c). ((tt, f), c) }

  pub created-Clean : Keeps (Clean server commands o) (set_created server o)
  unfolding set_created
  created-Clean = record { kept = λ r p. p }

  halt-Clean :
      (names : List String)
      → Keeps (Clean server commands o) (halt commands.database_kind commands.containers names)
  unfolding halt Follows unrestored
  halt-Clean names = record { kept = λ r (f, c). ((tt, f), c) }

  -- A snapshot of this name was verified.
  abbrev pub Verified : String → Run → Type 0
  Verified id r = Clean server commands o r × Has (verified id) r.history

  tagged-Verified : (id service : String) → Keeps (Verified id) (note (tagged service))
  unfolding note Follows unrestored
  tagged-Verified id service = record { kept = λ r ((f, c), v). ((((id, v), f), c), inr v) }

  save_runtime-Verified :
      (id : String) → Keeps (Verified id) (save_runtime commands.database_kind commands.containers)
  save_runtime-Verified id =
      save_runtime-Keeps (Verified id) commands.database_kind commands.containers
        (tagged-Verified id)

  set_backup_id-Verified : (id : String) → Keeps (Verified id) (set_backup_id server commands o id)
  unfolding set_backup_id
  set_backup_id-Verified id = record { kept = λ r p. p }

  abbrev pub Covered : Run → Type 0
  Covered r = Clean server commands o r × IsSafe server commands o r.history

  Covered-Post :
      (id : String) (x : Outcome ApplyError (Unit {0}) × Run)
      → Post server commands o (λ a. Verified id) x
      → Post server commands o (λ a. Covered) x
  Covered-Post id (ok a, r) (c, v) = (c, inl (id, v))
  Covered-Post id (err e, r) p = p

  verify-Post :
      (s : Staged) (id : String) (r : Run)
      → Clean server commands o r
      → Has (backed_up id) r.history
      → Post server commands o
          (λ a. Covered)
          ((perform (commands.add_files (s.updates ++ s.private)) files_added snapshot_failed
              >>> λ _. perform (commands.verify id) (verified id) unverified >>> λ _.
                  set_backup_id server commands o id >>> λ _.
                  save_runtime commands.database_kind commands.containers)
            r)
  unfolding Follows unrestored
  verify-Post s id r (f, c) b =
      bind-Post server commands o
        (λ a t.
          Clean server commands o t × Has (backed_up id) t.history × Has files_added t.history)
        (λ a. Covered) _ _ r
        (perform-Post server commands o _ _ _ _ r (Clean-Ended server commands o r (f, c))
          (((tt, f), c), inr b, inl refl))
        (λ a t (clean, backed, added).
          bind-Post server commands o (λ a. Verified id) (λ a. Covered) _ _ t
            (perform-Post server commands o _ _ _ _ t (Clean-Ended server commands o t clean)
              ((((added, backed), clean.0), clean.1), inl refl))
            (λ a u v. Covered-Post id _ (
              keep-Post server commands o (Verified id) _ u
                (λ t p. Clean-Ended server commands o t p.0)
                (bind-Keeps (Verified id) (set_backup_id-Verified id)
                  (λ a. save_runtime-Verified id))
                v)))

  take_snapshot-Post :
      (s : Staged) (r : Run)
      → Clean server commands o r
      → Post server commands o (λ a. Covered) (take_snapshot server commands o s r)
  unfolding take_snapshot keep_snapshot Follows unrestored
  take_snapshot-Post s r p =
      bind-Post server commands o (λ a. Clean server commands o) (λ a. Covered) _ _ r
        (keep-Post server commands o (Clean server commands o) _ r (Clean-Ended server commands o)
          (resolve-Keeps (Clean server commands o) o.name commands.project_config) p)
        (λ old t q.
          bind-Post server commands o (λ a. Clean server commands o) (λ a. Covered) _ _ t
            (keep-Post server commands o (Clean server commands o) _ t
              (Clean-Ended server commands o)
              (quiesce-Keeps (Clean server commands o) commands.database_kind commands.containers
                old halt-Clean)
              q)
            (λ a u w.
              bind-Post server commands o (λ a. Clean server commands o) (λ a. Covered) _ _ u
                (keep-Post server commands o (Clean server commands o) _ u
                  (Clean-Ended server commands o)
                  (ask-Keeps (Clean server commands o) commands.backup _) w)
                (λ id v (f, c).
                  bind-Post server commands o
                    (λ a t. Clean server commands o t × Has (backed_up id) t.history) (λ a. Covered)
                    _ _ v (((tt, f), c), inl refl)
                    (λ a x (clean, backed). verify-Post s id x clean backed))))

  pub protect-Post :
      (b : Bool) (s : Staged) (r : Run)
      → Clean server commands o r
      → (b ≡ true) ⊎ Saw (λ k. server.protected_project k ≡ none) r.history
      → Post server commands o (λ a. Covered) (protect server commands o b s r)
  unfolding protect pure
  protect-Post true s r p cover = take_snapshot-Post s r p
  protect-Post false s r p (inl bad) = cc
  protect-Post false s r p (inr bare) = (p, inr bare)

  Covered-Ended : (r : Run) → Covered r → Ended server commands o r
  Covered-Ended r p = Clean-Ended server commands o r p.0

  abbrev pub IsBuilt : Run → Type 0
  IsBuilt r =
      Follows server commands o r.history × IsSafe server commands o r.history × Has built r.history

  pub Safe-more :
      (v : Event) (h : History) → IsSafe server commands o h → IsSafe server commands o (v ∷ h)
  Safe-more v h (inl (id, found)) = inl (id, inr found)
  Safe-more v h (inr bare) = inr (inr bare)

  pub build_images-Post :
      (r : Run)
      → Covered r
      → Post server commands o
          (λ a t. IsBuilt t × (unrestored t.history ≡ []))
          (build_images server commands o r)
  unfolding build_images Follows unrestored
  build_images-Post r ((f, c), safe) =
      bind-Post server commands o (λ a t. Covered t × Has pulled t.history)
        (λ a t. IsBuilt t × (unrestored t.history ≡ [])) _ _ r
        (perform-Post server commands o _ _ _ _ r (Clean-Ended server commands o r (f, c))
          ((((tt, f), c), Safe-more pulled r.history safe), inl refl))
        (λ a t (((g, d), covered), had).
          perform-Post server commands o _ _ _ _ t (Clean-Ended server commands o t (g, d))
            (((had, g), Safe-more built t.history covered, inl refl), d))
