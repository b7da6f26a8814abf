-- ===== src/Deploy/Strategy.antt =====
-- internal/deploy/strategy.go: the basic and the rolling strategy. Docker, the edge proxy and the
-- clock are the record `Docker`, over the state `W` of the host; what a command prints is text that
-- is trimmed already. An error's wrapped text is left out.
pub mod Ends
use fleetdeck.Prelude.{
  ℕ, zero, suc, ◌+◌, ◌-◌, ◌*◌, ◌≤◌, ◌<◌, ◌≡◌, refl, sym, ap, ◌∙◌, ◌≢◌, ◌↔◌, ◌⊎◌, inl, inr, Bool,
  true, false, not, ◌&&◌, ◌||◌, Option, none, some, List, [], ◌∷◌, ◌++◌, map, String, arith, ◌==◌,
  eq_iff, eq_refl, byte_length, ltb, leb, eqb, if◌then◌else◌, Bool-cases, Option-cases, length, all,
  any, All, length-append, rev_onto, rev_onto-append, is_nil, Outcome, ok, err, ◌>>=◌, ◌>>◌, guard,
  Outcome-cases,
}
use fleetdeck.Prelude.Dict.{
  Dict, lookup, insert, delete, delete_if, lookup-insert, lookup-delete, length-insert,
  length-delete, length-delete_if, IsDistinct, drop_if, lookup-delete_if, insert-IsDistinct,
  delete-IsDistinct, delete_if-IsDistinct, length-insert_found,
}

pub record DeployOptions : Type 0 where
  pub project_path : String
  pub project_name : String
  pub compose_file : String
  pub health_check_url : String
  pub timeout : ℕ
  pub pre_deploy_hook : String
  pub post_deploy_hook : String
  pub no_cache : Bool

pub data LogLine : Type 0 where
  output : String → LogLine
  labelled : String → String → LogLine

pub record DeployResult : Type 0 where
  pub success : Bool
  pub duration : ℕ
  pub old_containers : List String
  pub new_containers : List String
  pub logs : List LogLine

pub data DeployError : Type 0 where
  edge_failed build_failed up_failed pull_failed services_failed : DeployError
  hook_failed service_failed : String → DeployError

-- A command answers with its output and whether it failed.
pub record Docker (W : Type 0) : Type 0 where
  pub now : W → ℕ
  pub prepare : DeployOptions → W → Bool × W
  pub list_containers : DeployOptions → W → Option (List String) × W
  pub list_services : DeployOptions → W → Option (List String) × W
  pub build_no_cache : DeployOptions → W → Bool × W
  pub exec_hook : String → DeployOptions → W → String × Bool × W
  pub up : DeployOptions → W → String × Bool × W
  pub pull : DeployOptions → W → String × Bool × W
  pub up_service : String → DeployOptions → W → String × Bool × W

-- The result, the error, and the host.
abbrev pub Deployed : Type 0 → Type 0
Deployed W = DeployResult × Option DeployError × W

abbrev pub empty_result : DeployResult
empty_result = record {
  success = false;
  duration = 0;
  old_containers = [];
  new_containers = [];
  logs = [];
}

abbrev pub names_of : Option (List String) → List String
names_of none = []
names_of (some names) = names

abbrev pub log : LogLine → DeployResult → DeployResult
log line r = record r { logs = r.logs ++ (line ∷ []) }

module _ {W : Type 0} (docker : Docker W) (opts : DeployOptions) where
  -- `result.Duration = time.Since(start)` before a return.
  abbrev pub stop : ℕ → DeployError → DeployResult → W → Deployed W
  stop start e r w = (record r { duration = docker.now w - start }, some e, w)

  unfoldable pub complete : ℕ → DeployResult → W → Deployed W
  complete start r w =
      let (names, w) = docker.list_containers opts w in
      (
        record r {
          new_containers = names_of names;
          success = true;
          duration = docker.now w - start;
        },
        none,
        w,
      )

  -- A hook, if there is one, and then the rest.
  unfoldable pub run_hook :
      String → String → ℕ → (DeployResult → W → Deployed W) → DeployResult → W → Deployed W
  run_hook label command start rest r w =
      if command == ""
      then rest r w
      else (let (out, e, w) = docker.exec_hook command opts w in
          let r = log (labelled label out) r in
          if e then stop start (hook_failed label) r w else rest r w)

  unfoldable pub prepared : ℕ → (DeployResult → W → Deployed W) → W → Deployed W
  prepared start rest w =
      let (e, w) = docker.prepare opts w in
      if e
      then (empty_result, some edge_failed, w)
      else (let (old, w) = docker.list_containers opts w in
          let r = record empty_result { old_containers = names_of old } in
          if opts.no_cache
          then (let (e, w) = docker.build_no_cache opts w in
              if e then stop start build_failed r w else rest r w)
          else rest r w)

  unfoldable pub basic_up : ℕ → DeployResult → W → Deployed W
  basic_up start r w =
      let (out, e, w) = docker.up opts w in
      let r = log (output out) r in
      if e
      then stop start up_failed r w
      else run_hook "post-deploy" opts.post_deploy_hook start (complete start) r w

  -- `BasicStrategy.Deploy`
  unfoldable pub basic_deploy : W → Deployed W
  basic_deploy w =
      let start = docker.now w in
      prepared start (run_hook "pre-deploy" opts.pre_deploy_hook start (basic_up start)) w

  -- The loop over the services; the result, the service that failed, and the host.
  unfoldable pub update_services : List String → DeployResult → W → DeployResult × Option String × W
  update_services [] r w = (r, none, w)
  update_services (service ∷ services) r w =
      let (out, e, v) = docker.up_service service opts w in
      let logged = log (labelled service out) r in
      let rest = update_services services logged v in if e then (logged, some service, v) else rest

  abbrev pub after_services : ℕ → DeployResult × Option String × W → Deployed W
  after_services start (r, some service, w) = stop start (service_failed service) r w
  after_services start (r, none, w) =
      run_hook "post-deploy" opts.post_deploy_hook start (complete start) r w

  abbrev pub after_list : ℕ → DeployResult → Option (List String) × W → Deployed W
  after_list start r (none, w) = stop start services_failed r w
  after_list start r (some services, w) = after_services start (update_services services r w)

  unfoldable pub rolling_up : ℕ → DeployResult → W → Deployed W
  rolling_up start r w =
      let (out, e, w) = docker.pull opts w in
      if e
      then stop start pull_failed (log (output out) r) w
      else after_list start r (docker.list_services opts w)

  -- `RollingStrategy.Deploy`
  unfoldable pub rolling_deploy : W → Deployed W
  rolling_deploy w =
      let start = docker.now w in
      prepared start (run_hook "pre-deploy" opts.pre_deploy_hook start (rolling_up start)) w

-- The strategies by name.
pub data Strategy : Type 0 where
  basic blue_green rolling : Strategy

-- `GetStrategy`
abbrev pub get_strategy : String → Option Strategy
get_strategy name =
    if name == "basic" || name == ""
    then some basic
    else if name == "bluegreen"
    then some blue_green
    else if name == "rolling"
    then some rolling
    else none
