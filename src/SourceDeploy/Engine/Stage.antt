-- ===== src/SourceDeploy/Engine/Stage.antt =====
-- The stage tells whether there is anything to protect.
use fleetdeck.Prelude.{
  ◌≡◌, refl, sym, ◌∙◌, ◌⊎◌, inl, inr, Bool, true, false, Option, none, some, List, [], String,
  Outcome, ok, err,
}
use fleetdeck.SourceDeploy.Types.{Options, ApplyError, Run, ◌>>>◌, pure}
use fleetdeck.SourceDeploy.Staging.{Server, Staged, stage_source}
use fleetdeck.SourceDeploy.Keeps.{require-Keeps, ask-Keeps, check_that-Keeps}
use fleetdeck.SourceDeploy.StagingKeeps.{
  choose_updates-Keeps, preserve_private-Keeps, check_stage-Keeps, check_overrides-Keeps,
  check_empty-Keeps, created_now-Keeps,
}
use fleetdeck.SourceDeploy.Engine.{Commands}
use fleetdeck.SourceDeploy.Staging.{
  overrides, protected_now, stage_compose, stage_files, check_previous,
}
use fleetdeck.SourceDeploy.Engine.Order.{
  Saw, Saw-now, Ended, Clean, Clean-Ended, Post, bind-Post, keep-Post,
}

module _ (server : Server) (commands : Commands) (o : Options) where
  -- What is staged, and whether there is anything to protect.
  abbrev pub IsStaged : Staged → Run → Type 0
  IsStaged s r =
      Clean server commands o r
      × ((s.existing ≡ true) ⊎ Saw (λ k. server.protected_project k ≡ none) r.history)

  -- The rest of the staging changes nothing that the invariants speak of.
  stage_files-Post :
      (P : Run → Type 0) (files private : List String) (old : Bool × List String) (r : Run)
      → ((s : Run) → P s → Ended server commands o s)
      → P r
      → Post server commands o
          (λ s t. P t × (s.existing ≡ old.0))
          (stage_files server o files private old r)
  unfolding stage_files pure
  stage_files-Post P files private (existing, old_private) r ends p =
      bind-Post server commands o (λ a. P) _ _ _ r
        (keep-Post server commands o P _ r ends (require-Keeps P server.open_roots _) p)
        (λ a t q.
          bind-Post server commands o (λ a. P) _ _ _ t
            (keep-Post server commands o P _ t ends (choose_updates-Keeps P server o _ files []) q)
            (λ chosen u w.
              bind-Post server commands o (λ a. P) _ _ _ u
                (keep-Post server commands o P _ u ends (preserve_private-Keeps P server o _) w)
                (λ b v x.
                  bind-Post server commands o (λ a. P) _ _ _ v
                    (keep-Post server commands o P _ v ends (check_stage-Keeps P server o _ chosen)
                      x)
                    (λ updates y z. (z, refl)))))

  map-Post :
      {A : Type 0} (G H : A → Run → Type 0) (x : Outcome ApplyError A × Run)
      → ((a : A) (s : Run) → G a s → H a s)
      → Post server commands o G x
      → Post server commands o H x
  map-Post G H (ok a, r) h p = h a r p
  map-Post G H (err e, r) h p = p

  abbrev pub IsBare : Run → Type 0
  IsBare r = Clean server commands o r × Saw (λ k. server.protected_project k ≡ none) r.history

  -- From what the project had on.
  previous-Post :
      (found : Option (String × List String)) (compose : String) (files private : List String)
      (r : Run)
      → Clean server commands o r
      → found ≡ server.protected_project r.history
      → Post server commands o IsStaged (
          (check_previous server o compose found >>> λ old. stage_files server o files private old)
            r)
  unfolding check_previous pure
  previous-Post none compose files private r p e =
      let bare : Saw (λ k. server.protected_project k ≡ none) r.history =
        Saw-now (λ k. server.protected_project k ≡ none) r.history (sym e) in
      bind-Post server commands o (λ old t. IsBare t × (old.0 ≡ false)) IsStaged _ _ r
        (bind-Post server commands o (λ a. IsBare) (λ old t. IsBare t × (old.0 ≡ false)) _ _ r
          (keep-Post server commands o IsBare _ r (λ t q. Clean-Ended server commands o t q.0)
            (created_now-Keeps IsBare server o) (p, bare))
          (λ created t q.
            bind-Post server commands o (λ a. IsBare) (λ old t. IsBare t × (old.0 ≡ false)) _ _ t
              (keep-Post server commands o IsBare _ t (λ t q. Clean-Ended server commands o t q.0)
                (check_empty-Keeps IsBare server o created) q)
              (λ a u w. (w, refl))))
        (λ old t (q, without).
          map-Post (λ s t. IsBare t × (s.existing ≡ old.0)) IsStaged _
            (λ s u (w, same_flag). (w.0, inr w.1))
            (stage_files-Post IsBare files private old t
              (λ t q. Clean-Ended server commands o t q.0) q))
  previous-Post (some (old_compose, old_private)) compose files private r p e =
      bind-Post server commands o (λ old t. Clean server commands o t × (old.0 ≡ true)) IsStaged _ _
        r
        (bind-Post server commands o (λ a. Clean server commands o)
          (λ old t. Clean server commands o t × (old.0 ≡ true)) _ _ r
          (keep-Post server commands o (Clean server commands o) _ r (Clean-Ended server commands o)
            (require-Keeps (Clean server commands o) (server.project_identity old_compose) _) p)
          (λ a t q.
            bind-Post server commands o (λ a. Clean server commands o)
              (λ old t. Clean server commands o t × (old.0 ≡ true)) _ _ t
              (keep-Post server commands o (Clean server commands o) _ t
                (Clean-Ended server commands o) (check_that-Keeps (Clean server commands o) _ _) q)
              (λ a u w. (w, refl))))
        (λ old t (q, present).
          map-Post (λ s t. Clean server commands o t × (s.existing ≡ old.0)) IsStaged _
            (λ s u (w, same_flag). (w, inl (same_flag ∙ present)))
            (stage_files-Post (Clean server commands o) files private old t
              (Clean-Ended server commands o) q))

  stage_compose-Post :
      (files : List String) (found : String × List String) (r : Run)
      → Clean server commands o r
      → Post server commands o IsStaged (stage_compose server o files found r)
  unfolding stage_compose protected_now
  stage_compose-Post files (compose, private) r p =
      bind-Post server commands o (λ a. Clean server commands o) IsStaged _ _ r
        (keep-Post server commands o (Clean server commands o) _ r (Clean-Ended server commands o)
          (check_overrides-Keeps (Clean server commands o) server o overrides) p)
        (λ a t q.
          bind-Post server commands o (λ a. Clean server commands o) IsStaged _ _ t
            (keep-Post server commands o (Clean server commands o) _ t
              (Clean-Ended server commands o)
              (require-Keeps (Clean server commands o) (server.stage_identity compose) _) q)
            (λ b u w.
              bind-Post server commands o
                (λ f v. Clean server commands o v × (f ≡ server.protected_project v.history))
                IsStaged _ _ u (w, refl)
                (λ f v (x, e). previous-Post f compose files private v x e)))

  pub stage_source-Post :
      (r : Run)
      → Clean server commands o r
      → Post server commands o IsStaged (stage_source server o r)
  unfolding stage_source
  stage_source-Post r p =
      bind-Post server commands o (λ a. Clean server commands o) IsStaged _ _ r
        (keep-Post server commands o (Clean server commands o) _ r (Clean-Ended server commands o)
          (require-Keeps (Clean server commands o) server.make_stage _) p)
        (λ a t q.
          bind-Post server commands o (λ a. Clean server commands o) IsStaged _ _ t
            (keep-Post server commands o (Clean server commands o) _ t
              (Clean-Ended server commands o) (ask-Keeps (Clean server commands o) server.extract _)
              q)
            (λ files u w.
              bind-Post server commands o (λ a. Clean server commands o) IsStaged _ _ u
                (keep-Post server commands o (Clean server commands o) _ u
                  (Clean-Ended server commands o)
                  (require-Keeps (Clean server commands o) (server.is_clean files) _) w)
                (λ b v x.
                  bind-Post server commands o (λ a. Clean server commands o) IsStaged _ _ v
                    (keep-Post server commands o (Clean server commands o) _ v
                      (Clean-Ended server commands o)
                      (ask-Keeps (Clean server commands o) server.protected_stage _) x)
                    (λ found y z. stage_compose-Post files found y z))))
