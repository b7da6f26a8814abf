-- ===== src/SourceDeploy/Confined.antt =====
-- The Compose models that `validateRuntime` lets pass.
use fleetdeck.Prelude.{
  ◌≡◌, refl, ap, ◌≢◌, ◌↔◌, ◌⊎◌, inl, inr, Bool, true, false, not, Option, none, some, List, [], ◌∷◌,
  String, arith, ◌==◌, eq_iff, Bool-cases, any, All, is_nil, Outcome, ok, err, ◌>>◌, guard,
}
use fleetdeck.Prelude.Dict.{Dict}
use fleetdeck.Prelude.Texts.{codes, contains}
use fleetdeck.SourceDeploy.Types.{
  Volume, Build, ServiceModel, Model, ApplyError, bind_escape, socket_access, context_escape,
  privileged_service, unconfined_service,
}
use fleetdeck.SourceDeploy.Runtime.{
  Paths, is_inside, is_below, check_volume, check_volumes, check_build, is_privileged,
  is_unconfined, check_service, check_services, validate_runtime,
}

module _ (paths : Paths) (stage : String) where
  -- The path is at or below the stage.
  abbrev pub IsInside : String → Type 0
  IsInside path = (rel : String) × (paths.rel stage path ≡ some rel) × (paths.is_local rel ≡ true)

  -- The path is below the stage, and is not named docker.sock.
  abbrev pub IsOwnFile : String → Type 0
  IsOwnFile path =
      ((rel : String) × (paths.rel stage path ≡ some rel)
        × (paths.is_local rel ≡ true)
        × (rel ≢ "."))
      × (paths.base path ≢ "docker.sock")

  abbrev pub BuildsInside : Option Build → Type 0
  BuildsInside none = Unit
  BuildsInside (some b) = IsInside b.context

  -- What a service may not declare: the privileged mode, the network, pid or ipc mode "host", a
  -- device, an added capability, an unconfined security option, a volume of type bind whose source is
  -- not below the stage or is named docker.sock, and a build context outside the stage.
  pub record IsAllowed (s : ServiceModel) : Type 0 where
    pub unprivileged : s.privileged ≡ false
    pub own_network : s.network_mode ≢ "host"
    pub own_pid : s.pid ≢ "host"
    pub own_ipc : s.ipc ≢ "host"
    pub no_devices : s.devices ≡ []
    pub no_capabilities : s.cap_add ≡ []
    pub options : All (λ o. contains (codes o) (codes "unconfined") ≡ false) s.security_opt
    pub binds : All (λ v. (v.kind ≢ "bind") ⊎ IsOwnFile v.source) s.volumes
    pub build : BuildsInside s.build

  guard_ok : (b : Bool) (e : ApplyError) → guard b e ≡ ok tt → b ≡ true
  guard_ok true e h = refl
  guard_ok false e h = cc

  both_ok : (m k : Outcome ApplyError (Unit {0})) → (m >> k) ≡ ok tt → (m ≡ ok tt) × (k ≡ ok tt)
  both_ok (ok a) k h = (refl, h)
  both_ok (err e) k h = cc

  is_inside-IsInside :
      (path : String) (r : Option String)
      → paths.rel stage path ≡ r
      → is_inside paths stage r ≡ true
      → IsInside path
  is_inside-IsInside path none e h = cc
  is_inside-IsInside path (some rel) e h = (rel, e, h)

  is_below_lem :
      (path : String) (r : Option String)
      → paths.rel stage path ≡ r
      → is_below paths stage r ≡ true
      → (rel : String) × (paths.rel stage path ≡ some rel)
        × (paths.is_local rel ≡ true)
        × (rel ≢ ".")
  is_below_lem path none e h = cc
  is_below_lem path (some rel) e h = (rel, e, ground (arith, h), ground (arith, h, eq_iff rel "."))

  check_volume-ok :
      (v : Volume) → check_volume paths stage v ≡ ok tt → (v.kind ≢ "bind") ⊎ IsOwnFile v.source
  check_volume-ok v h = elim (Bool-cases (v.kind == "bind")) [
    | inr other ↦ inl (ground (arith, other, eq_iff v.kind "bind"))
    | inl bind ↦
        let (below, apart) =
          both_ok (guard (is_below paths stage (paths.rel stage v.source)) bind_escape)
            (guard (not (paths.base v.source == "docker.sock")) socket_access) (simp bind at h) in
        let off : not (paths.base v.source == "docker.sock") ≡ true =
          guard_ok _ socket_access apart in
        inr (
          is_below_lem v.source _ refl (guard_ok _ bind_escape below),
          ground (arith, off, eq_iff (paths.base v.source) "docker.sock"),
        )
  ]

  check_volumes-ok :
      (vs : List Volume)
      → check_volumes paths stage vs ≡ ok tt
      → All (λ v. (v.kind ≢ "bind") ⊎ IsOwnFile v.source) vs
  unfolding check_volumes
  check_volumes-ok [] h = tt
  check_volumes-ok (v ∷ vs) h =
      let (first, rest) = both_ok (check_volume paths stage v) (check_volumes paths stage vs) h in
      (check_volume-ok v first, check_volumes-ok vs rest)

  check_build-ok : (b : Option Build) → check_build paths stage b ≡ ok tt → BuildsInside b
  check_build-ok none h = tt
  check_build-ok (some b) h = is_inside-IsInside b.context _ refl (guard_ok _ context_escape h)

  nothing_in : (xs : List String) → is_nil xs ≡ true → xs ≡ []
  nothing_in [] h = refl
  nothing_in (x ∷ xs) h = cc

  none_unconfined :
      (opts : List String)
      → any (is_unconfined paths stage) opts ≡ false
      → All (λ o. contains (codes o) (codes "unconfined") ≡ false) opts
  none_unconfined [] h = tt
  none_unconfined (o ∷ opts) h = (ground (arith, h), none_unconfined opts (ground (arith, h)))

  check_service-IsAllowed : (s : ServiceModel) → check_service paths stage s ≡ ok tt → IsAllowed s
  check_service-IsAllowed s h =
      let (h, built) = both_ok _ (check_build paths stage s.build) h in
      let (h, mounted) = both_ok _ (check_volumes paths stage s.volumes) h in
      let (h, opts) =
        both_ok (guard (not (is_privileged paths stage s)) privileged_service)
          (guard (not (any (is_unconfined paths stage) s.security_opt)) unconfined_service) h in
      let plain : not (is_privileged paths stage s) ≡ true = guard_ok _ privileged_service h in
      let held : not (any (is_unconfined paths stage) s.security_opt) ≡ true =
        guard_ok _ unconfined_service opts in
      record {
        unprivileged = ground (arith, plain);
        own_network = ground (arith, plain, eq_iff s.network_mode "host");
        own_pid = ground (arith, plain, eq_iff s.pid "host");
        own_ipc = ground (arith, plain, eq_iff s.ipc "host");
        no_devices = nothing_in s.devices (ground (arith, plain));
        no_capabilities = nothing_in s.cap_add (ground (arith, plain));
        options = none_unconfined s.security_opt (ground (arith, held));
        binds = check_volumes-ok s.volumes mounted;
        build = check_build-ok s.build built;
      }

  check_services-IsAllowed :
      (services : Dict ServiceModel)
      → check_services paths stage services ≡ ok tt
      → All (λ (s : String × ServiceModel). IsAllowed s.1) services
  unfolding check_services
  check_services-IsAllowed [] h = tt
  check_services-IsAllowed ((name, s) ∷ services) h =
      let (first, rest) =
        both_ok (check_service paths stage s) (check_services paths stage services) h in
      (check_service-IsAllowed s first, check_services-IsAllowed services rest)

  passed_guard : (b : Bool) (e : ApplyError) → b ≡ true → guard b e ≡ ok tt
  passed_guard b e h = rw h refl

  then_ok : (m k : Outcome ApplyError (Unit {0})) → m ≡ ok tt → k ≡ ok tt → (m >> k) ≡ ok tt
  then_ok m k h e = rw (h, e) refl

  any_unconfined :
      (opts : List String)
      → All (λ o. contains (codes o) (codes "unconfined") ≡ false) opts
      → any (is_unconfined paths stage) opts ≡ false
  any_unconfined [] h = refl
  any_unconfined (o ∷ opts) (x, xs) = rw x (any_unconfined opts xs)

  ok-check_volume :
      (v : Volume) → (v.kind ≢ "bind") ⊎ IsOwnFile v.source → check_volume paths stage v ≡ ok tt
  ok-check_volume v h = elim (Bool-cases (v.kind == "bind")) [
    | inr other ↦ rw other refl
    | inl bind ↦ elim h [
      | inl x ↦ absurd (x ((eq_iff v.kind "bind").0 bind))
      | inr ((rel, e, l, apart), socket) ↦ rw bind (
          then_ok _ _
            (passed_guard _ bind_escape (rw (e, l) (ground (arith, apart, eq_iff rel "."))))
            (passed_guard _ socket_access
              (ground (arith, socket, eq_iff (paths.base v.source) "docker.sock"))))
    ]
  ]

  ok-check_volumes :
      (vs : List Volume)
      → All (λ v. (v.kind ≢ "bind") ⊎ IsOwnFile v.source) vs
      → check_volumes paths stage vs ≡ ok tt
  unfolding check_volumes
  ok-check_volumes [] h = refl
  ok-check_volumes (v ∷ vs) (x, xs) = then_ok _ _ (ok-check_volume v x) (ok-check_volumes vs xs)

  ok-check_build : (b : Option Build) → BuildsInside b → check_build paths stage b ≡ ok tt
  ok-check_build none h = refl
  ok-check_build (some b) (rel, e, l) = passed_guard _ context_escape (rw (e, l) refl)

  ok-check_service : (s : ServiceModel) → IsAllowed s → check_service paths stage s ≡ ok tt
  ok-check_service s h =
      let plain : is_privileged paths stage s ≡ false = ground (
        arith,
        h.unprivileged,
        h.own_network,
        h.own_pid,
        h.own_ipc,
        ap is_nil h.no_devices,
        ap is_nil h.no_capabilities,
        eq_iff s.network_mode "host",
        eq_iff s.pid "host",
        eq_iff s.ipc "host",
      ) in
      then_ok _ _
        (then_ok _ _
          (then_ok _ _ (passed_guard _ privileged_service (ap not plain))
            (passed_guard _ unconfined_service (ap not (any_unconfined s.security_opt h.options))))
          (ok-check_volumes s.volumes h.binds))
        (ok-check_build s.build h.build)

  ok-check_services :
      (services : Dict ServiceModel)
      → All (λ (s : String × ServiceModel). IsAllowed s.1) services
      → check_services paths stage services ≡ ok tt
  unfolding check_services
  ok-check_services [] h = refl
  ok-check_services ((name, s) ∷ services) (x, xs) =
      then_ok _ _ (ok-check_service s x) (ok-check_services services xs)

  -- `validateRuntime` lets a Compose model pass exactly if no service is privileged, has the network,
  -- pid or ipc mode "host", has devices or added capabilities or a security option with the word
  -- unconfined, has a volume of type bind whose source is not below the stage or is named docker.sock,
  -- or is built from a context outside the stage. It says nothing of other settings.
  pub validate_runtime-IsAllowed :
      (m : Model)
      → (validate_runtime paths stage m ≡ ok tt)
        ↔ All (λ (s : String × ServiceModel). IsAllowed s.1) m.services
  unfolding validate_runtime
  validate_runtime-IsAllowed m = (check_services-IsAllowed m.services, ok-check_services m.services)
