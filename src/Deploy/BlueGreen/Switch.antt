-- ===== src/Deploy/BlueGreen/Switch.antt =====
-- When the old containers are stopped.
use fleetdeck.Prelude.{
  ℕ, ◌≡◌, refl, ◌∙◌, ◌≢◌, ◌⊎◌, inl, inr, Bool, true, false, Option, none, some, [], ◌∷◌, String,
  ◌==◌, Bool-cases,
}
use fleetdeck.Deploy.Strategy.{DeployOptions, DeployResult, log, output, labelled}
use fleetdeck.Deploy.BlueGreen.{
  Call, edge_ready, image_built, new_started, new_healthy, new_removed, old_stopped,
  original_started, hook_done, Calls, SwitchError, Host, Switched, wait_healthy, close_up,
  after_hook, hook_then, warn, promote, retire_old, roll_back, start_new, build_first,
  blue_green_deploy,
}

abbrev pub Has : Call → Calls → Type 0
Has e [] = ⊥
Has e (c ∷ h) = (c ≡ e) ⊎ Has e h

-- What must have come before a call.
abbrev pub Allowed : Call → Calls → Type 0
Allowed edge_ready h = Unit
Allowed image_built h = Has edge_ready h
Allowed new_started h = Has edge_ready h
Allowed new_healthy h = Has new_started h
Allowed new_removed h = Has new_started h
Allowed old_stopped h = Has new_healthy h
Allowed original_started h = Has old_stopped h × Has new_removed h
Allowed (hook_done label) h = (label ≢ "post-deploy") ⊎ Has original_started h

unfoldable pub Follows : Calls → Type 0
Follows [] = Unit
Follows (c ∷ h) = Allowed c h × Follows h

-- The end of a run: a success with the original project started from the new images, or an error.
abbrev pub Reports : DeployResult → Option SwitchError → Calls → Type 0
Reports r none h = (r.success ≡ true) × Has original_started h
Reports r (some e) h = r.success ≡ false

abbrev pub IsEnd : Switched → Type 0
IsEnd x = Follows x.2 × Reports x.0 x.1 x.2

pre_not_post : ◌≢◌ {A = String} "pre-deploy" "post-deploy"
pre_not_post h = cc

module _ (host : Host) (opts : DeployOptions) where
  warn-success :
      (b : Bool) (text : String) (r : DeployResult) → (warn host opts b text r).success ≡ r.success
  warn-success true text r = refl
  warn-success false text r = refl

  close_up-IsEnd :
      (start : ℕ) (r : DeployResult) (h : Calls)
      → Follows h
      → Has original_started h
      → IsEnd (close_up host opts start r h)
  unfolding close_up
  close_up-IsEnd start r h f had = (f, (refl, had))

  after_hook-IsEnd :
      (P : Calls → Type 0) (label : String) (start : ℕ) (rest : DeployResult → Calls → Switched)
      (answer : String × Bool) (r : DeployResult) (h : Calls)
      → Follows h
      → P h
      → P (hook_done label ∷ h)
      → Allowed (hook_done label) h
      → r.success ≡ false
      → ((s : DeployResult) (k : Calls) → Follows k → P k → s.success ≡ false → IsEnd (rest s k))
      → IsEnd (after_hook host opts label start rest answer r h)
  unfolding Follows
  after_hook-IsEnd P label start rest (out, true) r h f p more a e go = (f, e)
  after_hook-IsEnd P label start rest (out, false) r h f p more a e go =
      go (log (labelled label out) r) (hook_done label ∷ h) (a, f) more e

  hook_then-IsEnd :
      (P : Calls → Type 0) (label command : String) (start : ℕ)
      (rest : DeployResult → Calls → Switched) (r : DeployResult) (h : Calls)
      → Follows h
      → P h
      → P (hook_done label ∷ h)
      → Allowed (hook_done label) h
      → r.success ≡ false
      → ((s : DeployResult) (k : Calls) → Follows k → P k → s.success ≡ false → IsEnd (rest s k))
      → IsEnd (hook_then host opts label command start rest r h)
  unfolding hook_then
  hook_then-IsEnd P label command start rest r h f p more a e go =
      elim (Bool-cases (command == "")) [
        | inl no_hook ↦ simp no_hook (go r h f p e)
        | inr hook ↦
            simp hook
              (after_hook-IsEnd P label start rest (host.exec_hook label h) r h f p more a e go)
      ]

  promote-IsEnd :
      (start : ℕ) (r : DeployResult) (h : Calls)
      → Follows h
      → Has old_stopped h
      → Has new_started h
      → r.success ≡ false
      → IsEnd (promote host opts start r h)
  unfolding promote Follows
  promote-IsEnd start r h f old new e =
      let s =
        warn host opts (host.remove_new h) "warning: failed to remove temp project"
          (log (output "promoting new containers") r) in
      let same : s.success ≡ false = warn-success (host.remove_new h) _ _ ∙ e in
      elim (Bool-cases (host.start_original (new_removed ∷ h))) [
        | inl failed ↦ simp failed ((new, f), same)
        | inr started ↦ simp started (
            hook_then-IsEnd (Has original_started) "post-deploy" opts.post_deploy_hook start
              (close_up host opts start) s (original_started ∷ new_removed ∷ h)
              ((inr old, inl refl), (new, f)) (inl refl) (inr (inl refl)) (inr (inl refl)) same
              (λ t k g had l. close_up-IsEnd start t k g had))
      ]

  retire_old-IsEnd :
      (start : ℕ) (r : DeployResult) (h : Calls)
      → Follows h
      → Has new_healthy h
      → Has new_started h
      → r.success ≡ false
      → IsEnd (retire_old host opts start r h)
  unfolding retire_old Follows
  retire_old-IsEnd start r h f healthy new e =
      promote-IsEnd start _ (old_stopped ∷ h) (healthy, f) (inl refl) (inr new)
        (warn-success (host.stop_old h) _ _ ∙ e)

  roll_back-IsEnd :
      (start : ℕ) (r : DeployResult) (h : Calls)
      → Follows h
      → Has new_started h
      → r.success ≡ false
      → IsEnd (roll_back host opts start r h)
  unfolding roll_back Follows
  roll_back-IsEnd start r h f new e = ((new, f), warn-success (host.remove_new h) _ _ ∙ e)

  start_new-IsEnd :
      (start : ℕ) (r : DeployResult) (h : Calls)
      → Follows h
      → Has edge_ready h
      → r.success ≡ false
      → IsEnd (start_new host opts start r h)
  unfolding start_new Follows
  start_new-IsEnd start r h f edge e =
      let s = log (output "running health checks") (log (output "starting new containers") r) in
      elim (Bool-cases (host.start_new h)) [
        | inl failed ↦ simp failed (f, e)
        | inr started ↦ elim (Bool-cases (wait_healthy host opts (new_started ∷ h))) [
          | inl healthy ↦
              simp (started, healthy)
                (retire_old-IsEnd start s (new_healthy ∷ new_started ∷ h) (inl refl, (edge, f))
                  (inl refl) (inr (inl refl)) e)
          | inr sick ↦
              simp (started, sick)
                (roll_back-IsEnd start s (new_started ∷ h) (edge, f) (inl refl) e)
        ]
      ]

  pre_hook-IsEnd :
      (start : ℕ) (r : DeployResult) (h : Calls)
      → Follows h
      → Has edge_ready h
      → r.success ≡ false
      → IsEnd (
          hook_then host opts "pre-deploy" opts.pre_deploy_hook start
            (start_new host opts start)
            r
            h)
  pre_hook-IsEnd start r h f edge e =
      hook_then-IsEnd (Has edge_ready) "pre-deploy" opts.pre_deploy_hook start
        (start_new host opts start) r h f edge (inr edge) (inl pre_not_post) e
        (λ s k g had l. start_new-IsEnd start s k g had l)

  build_first-IsEnd :
      (start : ℕ) (r : DeployResult) (h : Calls)
      → Follows h
      → Has edge_ready h
      → r.success ≡ false
      → IsEnd (build_first host opts start r h)
  unfolding build_first Follows
  build_first-IsEnd start r h f edge e = elim (Bool-cases opts.no_cache) [
    | inr cached ↦ simp cached (pre_hook-IsEnd start r h f edge e)
    | inl uncached ↦ elim (Bool-cases (host.build_no_cache h)) [
      | inl failed ↦ simp (uncached, failed) (f, e)
      | inr done ↦
          simp (uncached, done) (pre_hook-IsEnd start r (image_built ∷ h) (edge, f) (inr edge) e)
    ]
  ]

  -- However a blue-green deployment ends, the old containers are stopped only after the new ones were
  -- started and found healthy, and the original project is started only after that and after the
  -- removal of the new containers was tried. It reports success exactly if it returns no error, and
  -- then the original project was started.
  pub blue_green_deploy-IsEnd : IsEnd (blue_green_deploy host opts)
  unfolding blue_green_deploy Follows
  blue_green_deploy-IsEnd = elim (Bool-cases (host.prepare [])) [
    | inl failed ↦ simp failed (tt, refl)
    | inr ready ↦
        simp ready (build_first-IsEnd (host.now []) _ (edge_ready ∷ []) (tt, tt) (inl refl) refl)
  ]
