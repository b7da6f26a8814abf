-- ===== src/Examples/Deploys.antt =====
-- A rolling deployment of two services, on a host whose state counts the commands.
use fleetdeck.Prelude.{ℕ, ◌+◌, ◌≡◌, refl, ◌==◌, true, false, some, [], ◌∷◌, ltb}
use fleetdeck.Deploy.BlueGreen.{
  edge_ready, new_started, new_healthy, new_removed, old_stopped, hook_done, Host, hook_then,
  promote, retire_old, start_new, build_first, blue_green_deploy,
}
use fleetdeck.Deploy.BlueGreen.Switch.{IsEnd, blue_green_deploy-IsEnd}
use fleetdeck.Deploy.Strategy.{
  DeployOptions, Docker, empty_result, update_services, basic_deploy, rolling_deploy,
}
use fleetdeck.Deploy.Strategy.Ends.{
  Ends, Updated, CameUp, AllUpdated, update_services-Updated, basic_deploy-Ends,
  rolling_deploy-Ends,
}

abbrev options : DeployOptions
options = record {
  project_path = "/srv/a";
  project_name = "a";
  compose_file = "";
  health_check_url = "";
  timeout = 60;
  pre_deploy_hook = "migrate";
  post_deploy_hook = "";
  no_cache = false;
}

-- An update of a service after the fifth command fails.
abbrev counting_host : Docker ℕ
counting_host = record {
  now = λ w. w;
  prepare = λ o w. (false, w + 1);
  list_containers = λ o w. (some ("a-web" ∷ []), w + 1);
  list_services = λ o w. (some ("db" ∷ "web" ∷ []), w + 1);
  build_no_cache = λ o w. (false, w + 1);
  exec_hook = λ c o w. ("done", false, w + 1);
  up = λ o w. ("up", false, w + 1);
  pull = λ o w. ("", false, w + 1);
  up_service = λ s o w. ("", ltb 5 w, w + 1);
}

second_service_fails :
    (update_services counting_host options ("db" ∷ "web" ∷ "job" ∷ []) empty_result 5).1
    ≡ some "web"
unfolding update_services
second_service_fails = refl

update_services-Updated_example :
    Updated counting_host options
      ("db" ∷ "web" ∷ "job" ∷ [])
      5
      (update_services counting_host options ("db" ∷ "web" ∷ "job" ∷ []) empty_result 5).1
      (update_services counting_host options ("db" ∷ "web" ∷ "job" ∷ []) empty_result 5).2
update_services-Updated_example =
    update_services-Updated counting_host options ("db" ∷ "web" ∷ "job" ∷ []) empty_result 5

rolling_deploy-Ends_example :
    Ends (AllUpdated counting_host options) (rolling_deploy counting_host options 0)
rolling_deploy-Ends_example = rolling_deploy-Ends counting_host options 0

basic_deploy-Ends_example :
    Ends (CameUp counting_host options) (basic_deploy counting_host options 0)
basic_deploy-Ends_example = basic_deploy-Ends counting_host options 0

-- The new containers are healthy, but the original project does not start from them.
abbrev failing_switch : Host
failing_switch = record {
  now = λ h. 0;
  prepare = λ h. false;
  list_containers = λ h. some ("a-web" ∷ []);
  build_no_cache = λ h. false;
  exec_hook = λ c h. ("done", false);
  start_new = λ h. false;
  settle = λ h. true;
  polls = λ h. [];
  stop_old = λ h. false;
  remove_new = λ h. false;
  start_original = λ h. true;
}

-- Neither the old nor the new containers are left.
nothing_left :
    (blue_green_deploy failing_switch options).2
    ≡ new_removed
      ∷ old_stopped
      ∷ new_healthy
      ∷ new_started
      ∷ hook_done "pre-deploy"
      ∷ edge_ready
      ∷ []
unfolding blue_green_deploy build_first hook_then start_new retire_old promote ◌==◌
nothing_left = refl

blue_green_deploy-IsEnd_example : IsEnd (blue_green_deploy failing_switch options)
blue_green_deploy-IsEnd_example = blue_green_deploy-IsEnd failing_switch options
