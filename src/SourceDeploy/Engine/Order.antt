-- ===== src/SourceDeploy/Engine/Order.antt =====
-- The order of the calls of a run, and what a failed run has to undo.
use fleetdeck.Prelude.{
  ◌≡◌, ◌⊎◌, inl, inr, Bool, true, false, none, some, List, [], ◌∷◌, String, Bool-cases, Outcome, ok,
  err,
}
use fleetdeck.SourceDeploy.Types.{
  Options, Event, user_created, registered, files_added, pulled, built, edge_prepared, upped,
  writers_stopped, services_started, backed_up, verified, replaced, restored, tagged, status_set,
  History, ApplyError, Run, M, ◌>>>◌, continue, require, note, perform, check_that,
}
use fleetdeck.SourceDeploy.Staging.{Server}
use fleetdeck.SourceDeploy.Keeps.{Keeps}
use fleetdeck.SourceDeploy.Engine.{Commands}
use fleetdeck.SourceDeploy.Names.{drop_all}

-- A call was made.
abbrev pub Has : Event → History → Type 0
Has e [] = ⊥
Has e (v ∷ h) = (v ≡ e) ⊎ Has e h

-- At some point of the run, which had made the calls so far, this held.
abbrev pub Saw : (History → Type 0) → History → Type 0
Saw P [] = P []
Saw P (v ∷ h) = P (v ∷ h) ⊎ Saw P h

pub Saw-now : (P : History → Type 0) (h : History) → P h → Saw P h
Saw-now P [] p = p
Saw-now P (v ∷ h) p = inl p

-- The files that were replaced and neither restored nor taken into use by `up`.
abbrev pub pending_after : Event → List String → List String
pending_after user_created names = names
pending_after registered names = names
pending_after files_added names = names
pending_after pulled names = names
pending_after built names = names
pending_after edge_prepared names = names
pending_after (upped b) names = []
pending_after (writers_stopped stopped) names = names
pending_after (services_started started) names = names
pending_after (backed_up id) names = names
pending_after (verified id) names = names
pending_after (replaced file) names = file ∷ names
pending_after (restored file) names = drop_all (file ∷ []) names
pending_after (tagged service) names = names
pending_after (status_set s) names = names

unfoldable pub unrestored : History → List String
unrestored [] = []
unrestored (v ∷ h) = pending_after v (unrestored h)

module _ (server : Server) (commands : Commands) (o : Options) where
  -- The project had no Compose model that could be read, or its snapshot was verified.
  abbrev pub IsSafe : History → Type 0
  IsSafe h = ((id : String) × Has (verified id) h) ⊎ Saw (λ k. server.protected_project k ≡ none) h

  -- What must have come before a call.
  abbrev pub Allowed : Event → History → Type 0
  Allowed user_created h = Unit
  Allowed registered h = Unit
  Allowed files_added h = Unit
  Allowed pulled h = Unit
  Allowed built h = Has pulled h
  Allowed edge_prepared h = Has built h
  Allowed (upped b) h = Has edge_prepared h
  Allowed (writers_stopped stopped) h = Unit
  Allowed (services_started started) h = Unit
  Allowed (backed_up id) h = Unit
  Allowed (verified id) h = Has files_added h × Has (backed_up id) h
  Allowed (replaced file) h = Has built h × IsSafe h
  Allowed (restored file) h = Has (replaced file) h
  Allowed (tagged service) h = (id : String) × Has (verified id) h
  Allowed (status_set s) h =
      (s ≡ "running") × Has (upped true) h ⊎ (s ≡ "failed") × Has (upped false) h

  unfoldable pub Follows : History → Type 0
  Follows [] = Unit
  Follows (v ∷ h) = Allowed v h × Follows h

  -- Every replaced file is restored or in use, if there is a snapshot and it can be opened.
  abbrev pub IsSettled : Run → Type 0
  IsSettled r =
      (id : String)
      → r.snapshot ≡ some id
      → (unrestored r.history ≡ []) ⊎ Saw (λ h. commands.open_snapshot id h ≡ false) r.history

  abbrev pub Ended : Run → Type 0
  Ended r = Follows r.history × IsSettled r

  abbrev pub Clean : Run → Type 0
  Clean r = Follows r.history × (unrestored r.history ≡ [])

  pub Clean-Ended : (r : Run) → Clean r → Ended r
  Clean-Ended r (f, e) = (f, λ id taken. inl e)

  -- What holds of a step's end, on either way out.
  abbrev pub Post : {A : Type 0} → (A → Run → Type 0) → Outcome ApplyError A × Run → Type 0
  Post G (ok a, r) = G a r
  Post G (err e, r) = Ended r

  continue-Post :
      {A B : Type 0} (G : A → Run → Type 0) (H : B → Run → Type 0) (x : Outcome ApplyError A × Run)
      (k : A → M B)
      → Post G x
      → ((a : A) (s : Run) → G a s → Post H (k a s))
      → Post H (continue k x)
  continue-Post G H (ok a, r) k p h = h a r p
  continue-Post G H (err e, r) k p h = p

  pub bind-Post :
      {A B : Type 0} (G : A → Run → Type 0) (H : B → Run → Type 0) (m : M A) (k : A → M B) (r : Run)
      → Post G (m r)
      → ((a : A) (s : Run) → G a s → Post H (k a s))
      → Post H ((m >>> k) r)
  unfolding ◌>>>◌
  bind-Post G H m k r p h = continue-Post G H (m r) k p h

  weaken-Post :
      {A : Type 0} (P : Run → Type 0) (x : Outcome ApplyError A × Run)
      → ((s : Run) → P s → Ended s)
      → P x.1
      → Post (λ a. P) x
  weaken-Post P (ok a, r) ends p = p
  weaken-Post P (err e, r) ends p = ends r p

  -- A step that keeps an invariant, which implies the end.
  pub keep-Post :
      {A : Type 0} (P : Run → Type 0) (m : M A) (r : Run)
      → ((s : Run) → P s → Ended s)
      → Keeps P m
      → P r
      → Post (λ a. P) (m r)
  keep-Post P m r ends keeps p = weaken-Post P (m r) ends (keeps.kept r p)

  pub perform-Post :
      (G : Unit {0} → Run → Type 0) (f : History → Bool) (v : Event) (e : ApplyError) (r : Run)
      → Ended r
      → G tt (record r { history = v ∷ r.history })
      → Post G (perform f v e r)
  unfolding perform ◌>>>◌ require note check_that
  perform-Post G f v e r b g = elim (Bool-cases (f r.history)) [
    | inl granted ↦ simp granted g
    | inr refused ↦ simp refused b
  ]
