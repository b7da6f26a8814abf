-- ===== src/SourceDeploy/Engine/Replacement.antt =====
-- The replacement of the files, and its rollback.
use fleetdeck.Prelude.{
  ◌≡◌, refl, ◌≢◌, inl, inr, Bool, true, false, Option, none, some, List, [], ◌∷◌, ◌++◌, String,
  Bool-cases, all, All,
}
use fleetdeck.SourceDeploy.Types.{
  Options, Event, edge_prepared, upped, replaced, restored, status_set, History, ApplyError, Run,
  ◌>>>◌, pure, fail, note, perform,
}
use fleetdeck.SourceDeploy.Staging.{Server}
use fleetdeck.SourceDeploy.Keeps.{Keeps}
use fleetdeck.SourceDeploy.Engine.{
  replace_failed, status_failed, edge_failed, Commands, restore_each, restore_source, undo, abandon,
  copied, copy_file, replace_files, edge_answered, prepare_edge, note_up, set_healthy, finish_up,
  start_services, write_source,
}
use fleetdeck.SourceDeploy.Names.{drop_one_within, none_within, add_within}
use fleetdeck.SourceDeploy.Runtime.{mem}
use fleetdeck.SourceDeploy.Engine.Order.{
  Has, Saw-now, unrestored, Follows, Ended, Clean, Clean-Ended, Post, bind-Post, keep-Post,
  perform-Post,
}
use fleetdeck.SourceDeploy.Engine.Snapshot.{IsBuilt, Safe-more}

module _ (server : Server) (commands : Commands) (o : Options) where
  abbrev pub AllReplaced : List String → History → Type 0
  AllReplaced names h = All (λ n. Has (replaced n) h) names

  AllReplaced-more :
      (names : List String) (v : Event) (h : History)
      → AllReplaced names h
      → AllReplaced names (v ∷ h)
  AllReplaced-more [] v h p = tt
  AllReplaced-more (name ∷ names) v h (p, ps) = (inr p, AllReplaced-more names v h ps)

  AllReplaced-end :
      (names : List String) (name : String) (h : History)
      → AllReplaced names h
      → Has (replaced name) h
      → AllReplaced (names ++ (name ∷ [])) h
  AllReplaced-end [] name h p q = (q, tt)
  AllReplaced-end (x ∷ names) name h (p, ps) q = (p, AllReplaced-end names name h ps q)

  -- The files written so far: those replaced and not restored are among them.
  abbrev pub IsWritten : List String → Run → Type 0
  IsWritten written r =
      (all (λ y. mem y written) (unrestored r.history) ≡ true) × AllReplaced written r.history

  restore_each-Clean :
      (names : List String) (r : Run)
      → Follows server commands o r.history
      → IsWritten names r
      → Clean server commands o (restore_each server commands o names r)
  unfolding restore_each Follows unrestored
  restore_each-Clean [] r f (w, a) = (f, none_within (unrestored r.history) w)
  restore_each-Clean (name ∷ names) r f (w, (a, rest)) =
      restore_each-Clean names (record r { history = restored name ∷ r.history }) (a, f)
        (
          drop_one_within name names (unrestored r.history) w,
          AllReplaced-more names (restored name) r.history rest,
        )

  restore_source-Ended :
      (id : String) (written : List String) (r : Run)
      → r.snapshot ≡ some id
      → Follows server commands o r.history
      → IsWritten written r
      → Ended server commands o (restore_source server commands o id written r)
  restore_source-Ended id written r taken f w =
      elim (Bool-cases (commands.open_snapshot id r.history)) [
        | inl opened ↦ simp opened (
            Clean-Ended server commands o (restore_each server commands o written r)
              (restore_each-Clean written r f w))
        | inr closed ↦ simp closed (
          f,
          λ other same_snapshot.
              inr (Saw-now (λ h. commands.open_snapshot other h ≡ false) r.history cc),
        )
      ]

  not_taken : (r : Run) (id : String) → r.snapshot ≡ none → r.snapshot ≢ some id
  not_taken r id e h = cc

  undo-Ended :
      (id : Option String) (written : List String) (r : Run)
      → r.snapshot ≡ id
      → Follows server commands o r.history
      → IsWritten written r
      → Ended server commands o (undo server commands o id written r)
  undo-Ended none written r taken f w =
      (f, λ other some_taken. absurd (not_taken r other taken some_taken))
  undo-Ended (some id) written r taken f w = restore_source-Ended id written r taken f w

  abandon-Post :
      {A : Type 0} (G : A → Run → Type 0) (written : List String) (e : ApplyError) (r : Run)
      → Follows server commands o r.history
      → IsWritten written r
      → Post server commands o G (abandon server commands o {A = A} written e r)
  unfolding abandon
  abandon-Post G written e r f w = undo-Ended r.snapshot written r refl f w

  abbrev pub Replacing : List String → Run → Type 0
  Replacing written r = IsBuilt server commands o r × IsWritten written r

  copied-Post :
      (b : Bool) (name : String) (written : List String) (r : Run)
      → Replacing written r
      → Post server commands o Replacing (copied server commands o b name written r)
  unfolding copied ◌>>>◌ note pure Follows unrestored
  copied-Post true name written r ((f, safe, had), (w, a)) = (
    (((had, safe), f), (Safe-more server commands o) (replaced name) r.history safe, inr had),
    (
      add_within name written (unrestored r.history) w,
      AllReplaced-end written name (replaced name ∷ r.history)
          (AllReplaced-more written (replaced name) r.history a) (inl refl),
    ),
  )
  copied-Post false name written r ((f, safe, had), w) =
      abandon-Post Replacing written replace_failed r f w

  replace_files-Post :
      (names written : List String) (r : Run)
      → Replacing written r
      → Post server commands o Replacing (replace_files server commands o names written r)
  unfolding replace_files copy_file pure
  replace_files-Post [] written r p = p
  replace_files-Post (name ∷ names) written r p =
      bind-Post server commands o Replacing Replacing _ _ r
        (copied-Post (commands.copy name r.history) name written r p)
        (λ extended t q. replace_files-Post names extended t q)

  abbrev pub IsEdged : Run → Type 0
  IsEdged r = Follows server commands o r.history × Has edge_prepared r.history

  edge_answered-Post :
      (b : Bool) (written : List String) (r : Run)
      → Replacing written r
      → Post server commands o (λ a. IsEdged) (edge_answered server commands o b written r)
  unfolding edge_answered note Follows
  edge_answered-Post true written r ((f, safe, had), w) = ((had, f), inl refl)
  edge_answered-Post false written r ((f, safe, had), w) = abandon-Post _ written edge_failed r f w

  set_healthy-Clean : Keeps (Clean server commands o) (set_healthy server commands o)
  unfolding set_healthy
  set_healthy-Clean = record { kept = λ r p. p }

  running-Post :
      (r : Run)
      → Clean server commands o r
      → Has (upped true) r.history
      → Post server commands o
          (λ a. Clean server commands o)
          ((perform (commands.set_status "running") (status_set "running") status_failed >>> λ _.
              set_healthy server commands o)
            r)
  unfolding Follows unrestored
  running-Post r (f, c) had =
      bind-Post server commands o (λ a. Clean server commands o) (λ a. Clean server commands o) _ _
        r
        (perform-Post server commands o _ _ _ _ r (Clean-Ended server commands o r (f, c))
          ((inl (refl, had), f), c))
        (λ a t p.
          keep-Post server commands o (Clean server commands o) _ t (Clean-Ended server commands o)
            set_healthy-Clean p)

  finish_up-Post :
      (b : Bool) (r : Run)
      → IsEdged r
      → Post server commands o (λ a. Clean server commands o) (finish_up server commands o b r)
  unfolding finish_up ◌>>>◌ note_up note fail Follows unrestored
  finish_up-Post true r (f, had) =
      running-Post (record r { stopped = []; history = upped true ∷ r.history }) ((had, f), refl)
        (inl refl)
  finish_up-Post false r (f, had) =
      Clean-Ended server commands o
        (record r { stopped = []; history = status_set "failed" ∷ upped false ∷ r.history })
        ((inr (refl, inl refl), (had, f)), refl)

  all_refl : (names : List String) → names ≡ [] → all (λ y. mem y []) names ≡ true
  all_refl names e = rw e refl

  pub write_source-Post :
      (updates : List String) (r : Run)
      → IsBuilt server commands o r × (unrestored r.history ≡ [])
      → Post server commands o
          (λ a. Clean server commands o)
          (write_source server commands o updates r)
  unfolding write_source prepare_edge start_services
  write_source-Post updates r (p, c) =
      bind-Post server commands o Replacing (λ a. Clean server commands o) _ _ r
        (replace_files-Post updates [] r (p, (all_refl (unrestored r.history) c, tt)))
        (λ written t q.
          bind-Post server commands o (λ a. IsEdged) (λ a. Clean server commands o) _ _ t
            (edge_answered-Post (commands.prepare_edge t.history) written t q)
            (λ a u e. finish_up-Post (commands.up u.history) u e))
