-- ===== src/Deploy/Strategy/Ends.antt =====
-- How a deployment ends: a success has run its steps, an error stops the steps after it.
use fleetdeck.Prelude.{
  ℕ, ◌≡◌, refl, ap, ◌∙◌, ◌⊎◌, inl, inr, true, false, Option, none, some, List, [], ◌∷◌, ◌++◌,
  String, ◌==◌, Bool-cases, Option-cases,
}
use fleetdeck.Deploy.Strategy.{
  DeployOptions, DeployResult, DeployError, labelled, Docker, Deployed, log, complete, run_hook,
  prepared, basic_up, basic_deploy, update_services, after_services, after_list, rolling_up,
  rolling_deploy, hook_failed, edge_failed, build_failed, up_failed, pull_failed, services_failed,
  service_failed,
}

-- A success, for which `Q` holds, or an error.
abbrev pub Ends : {W : Type 0} → Type 0 → Deployed W → Type 0
Ends Q f =
    ((f.1 ≡ none) × (f.0.success ≡ true) × Q)
    ⊎ ((e : DeployError) × (f.1 ≡ some e) × (f.0.success ≡ false))

module _ {W : Type 0} (docker : Docker W) (opts : DeployOptions) where
  -- Every service of the list was updated, one after the other.
  abbrev pub Ran : List String → W → W → Type 0
  Ran [] w v = w ≡ v
  Ran (s ∷ ss) w v =
      ((docker.up_service s opts w).1 ≡ false) × Ran ss (docker.up_service s opts w).2 v

  -- All services were updated, or those before the first that failed and that one.
  abbrev pub Updated : List String → W → Option String → W → Type 0
  Updated services w o v =
      ((o ≡ none) × Ran services w v)
      ⊎ ((before : List String) × (s : String) × (after : List String) × (u : W) × (services
            ≡ before ++ (s ∷ after))
          × Ran before w u
          × ((docker.up_service s opts u).1 ≡ true)
          × ((docker.up_service s opts u).2 ≡ v)
          × (o ≡ some s))

  -- The rolling update goes through the services in order and stops at the first that fails: those
  -- after it are not touched.
  pub update_services-Updated :
      (services : List String) (r : DeployResult) (w : W)
      → Updated services w
          (update_services docker opts services r w).1
          (update_services docker opts services r w).2
  unfolding update_services
  update_services-Updated [] r w = inl (refl, refl)
  update_services-Updated (s ∷ ss) r w =
      let (out, e, v) = docker.up_service s opts w in
      elim (Bool-cases (docker.up_service s opts w).1) [
        | inl failed ↦ rw failed (inr ([], s, ss, w, refl, refl, failed, refl, refl))
        | inr fine ↦
            rw fine
              (elim (update_services-Updated ss (log (labelled s (docker.up_service s opts w).0) r)
                (docker.up_service s opts w).2) [
                  | inl (o, ran) ↦ inl (o, (refl, ran))
                  | inr (before, x, after, u, parts, ran, failed, last, o) ↦
                      inr (
                        s ∷ before,
                        x,
                        after,
                        u,
                        ap (λ l. s ∷ l) parts,
                        (fine, ran),
                        failed,
                        last,
                        o,
                      )
                ])
      ]

  module _ (Q : Type 0) where
    run_hook-Ends :
        (label command : String) (start : ℕ) (rest : DeployResult → W → Deployed W)
        (r : DeployResult) (w : W)
        → ((x : DeployResult) (v : W) → x.success ≡ false → Ends Q (rest x v))
        → r.success ≡ false
        → Ends Q (run_hook docker opts label command start rest r w)
    unfolding run_hook
    run_hook-Ends label command start rest r w h no_success = elim (Bool-cases (command == "")) [
      | inl skip ↦ rw skip (h r w no_success)
      | inr some_hook ↦ elim (Bool-cases (docker.exec_hook command opts w).1) [
        | inl failed ↦ rw some_hook (rw failed (inr (hook_failed label, refl, no_success)))
        | inr fine ↦ rw some_hook (rw fine (h _ _ no_success))
      ]
    ]

    prepared-Ends :
        (start : ℕ) (rest : DeployResult → W → Deployed W) (w : W)
        → ((x : DeployResult) (v : W) → x.success ≡ false → Ends Q (rest x v))
        → Ends Q (prepared docker opts start rest w)
    unfolding prepared
    prepared-Ends start rest w h = elim (Bool-cases (docker.prepare opts w).0) [
      | inl failed ↦ rw failed (inr (edge_failed, refl, refl))
      | inr fine ↦ rw fine (elim (Bool-cases opts.no_cache) [
        | inr cached ↦ simp cached (h _ _ refl)
        | inl fresh ↦
            simp fresh
              (elim (Bool-cases
                (docker.build_no_cache opts
                  (docker.list_containers opts (docker.prepare opts w).1).1).0) [
                    | inl broken ↦ rw broken (inr (build_failed, refl, refl))
                    | inr built ↦ rw built (h _ _ refl)
                  ])
      ])
    ]

    finish-Ends :
        (start : ℕ) (r : DeployResult) (w : W)
        → Q
        → r.success ≡ false
        → Ends Q (
            run_hook docker opts "post-deploy" opts.post_deploy_hook start
              (complete docker opts start)
              r
              w)
    unfolding complete
    finish-Ends start r w q =
        run_hook-Ends "post-deploy" opts.post_deploy_hook start (complete docker opts start) r w
          (λ x v f. inl (refl, refl, q))

  -- Some `docker compose up` of the project succeeded.
  abbrev pub CameUp : Type 0
  CameUp = (w : W) × ((docker.up opts w).1 ≡ false)

  basic_up-Ends :
      (start : ℕ) (r : DeployResult) (w : W)
      → r.success ≡ false
      → Ends CameUp (basic_up docker opts start r w)
  unfolding basic_up
  basic_up-Ends start r w f = elim (Bool-cases (docker.up opts w).1) [
    | inl failed ↦ rw failed (inr (up_failed, refl, f))
    | inr fine ↦ rw fine (finish-Ends CameUp start _ _ (w, fine) f)
  ]

  -- The basic strategy reports a success exactly where it returns no error, and then the project
  -- came up.
  pub basic_deploy-Ends : (w : W) → Ends CameUp (basic_deploy docker opts w)
  unfolding basic_deploy
  basic_deploy-Ends w = prepared-Ends CameUp (docker.now w) _ w (λ r v f.
      run_hook-Ends CameUp "pre-deploy" opts.pre_deploy_hook (docker.now w) _ r v
        (basic_up-Ends (docker.now w)) f)

  -- Every service that Compose listed was updated, in order, after the images were pulled.
  abbrev pub AllUpdated : Type 0
  AllUpdated =
      (w : W) × (services : List String) × (v : W) × ((docker.pull opts w).1 ≡ false)
      × ((docker.list_services opts (docker.pull opts w).2).0 ≡ some services)
      × Ran services (docker.list_services opts (docker.pull opts w).2).1 v

  after_services-Ends :
      (Q : Type 0) (start : ℕ) (services : List String) (r : DeployResult) (w : W)
      (f : DeployResult × Option String × W)
      → (f.1 ≡ none → Q)
      → f.0.success ≡ false
      → Ends Q (after_services docker opts start f)
  after_services-Ends Q start services r w (x, none, v) q n = finish-Ends Q start x v (q refl) n
  after_services-Ends Q start services r w (x, some s, v) q n = inr (service_failed s, refl, n)

  update_services-success :
      (services : List String) (r : DeployResult) (w : W)
      → (update_services docker opts services r w).0.success ≡ r.success
  unfolding update_services
  update_services-success [] r w = refl
  update_services-success (s ∷ ss) r w = elim (Bool-cases (docker.up_service s opts w).1) [
    | inl failed ↦ rw failed refl
    | inr fine ↦ rw fine (update_services-success ss _ _)
  ]

  Updated-Ran :
      (services : List String) (w : W) (o : Option String) (v : W)
      → Updated services w o v
      → o ≡ none
      → Ran services w v
  Updated-Ran services w o v (inl (e, ran)) n = ran
  Updated-Ran services w o v (inr (b, s, a, u, parts, ran, failed, last, e)) n = cc

  after_list-Ends :
      (start : ℕ) (r : DeployResult) (w : W)
      → (docker.pull opts w).1 ≡ false
      → r.success ≡ false
      → Ends AllUpdated
          (after_list docker opts start r (docker.list_services opts (docker.pull opts w).2))
  after_list-Ends start r w pulled n =
      let v = (docker.list_services opts (docker.pull opts w).2).1 in
      elim (Option-cases (docker.list_services opts (docker.pull opts w).2).0) [
        | inl missing ↦ rw missing (inr (services_failed, refl, n))
        | inr (services, listed) ↦ rw listed (
            after_services-Ends AllUpdated start services r v
              (update_services docker opts services r v)
              (λ e. (
                w,
                services,
                _,
                pulled,
                listed,
                Updated-Ran services v _ _ (update_services-Updated services r v) e,
              ))
              (update_services-success services r v ∙ n))
      ]

  rolling_up-Ends :
      (start : ℕ) (r : DeployResult) (w : W)
      → r.success ≡ false
      → Ends AllUpdated (rolling_up docker opts start r w)
  unfolding rolling_up
  rolling_up-Ends start r w n = elim (Bool-cases (docker.pull opts w).1) [
    | inl failed ↦ rw failed (inr (pull_failed, refl, n))
    | inr fine ↦ rw fine (after_list-Ends start r w fine n)
  ]

  -- The rolling strategy ends in one of two ways. It reports a success without an error, and then the
  -- images were pulled and every listed service was updated in order; or it returns an error and does
  -- not report a success.
  pub rolling_deploy-Ends : (w : W) → Ends AllUpdated (rolling_deploy docker opts w)
  unfolding rolling_deploy
  rolling_deploy-Ends w = prepared-Ends AllUpdated (docker.now w) _ w (λ r v f.
      run_hook-Ends AllUpdated "pre-deploy" opts.pre_deploy_hook (docker.now w) _ r v
        (rolling_up-Ends (docker.now w)) f)
