-- ===== src/Examples/Sources.antt =====
-- The update of an existing project, of which the second file cannot be written.
use fleetdeck.Prelude.{
  ◌≡◌, refl, ◌↔◌, ◌⊎◌, true, false, not, Option, none, some, List, [], ◌∷◌, String, ◌==◌,
  if◌then◌else◌, All, Outcome, ok,
}
use fleetdeck.Prelude.Dict.{lookup, insert}
use fleetdeck.SourceDeploy.Types.{
  Options, ServiceModel, Model, files_added, pulled, built, writers_stopped, services_started,
  backed_up, verified, replaced, restored, History, ApplyError, Run, ◌>>>◌, pure, fail, answer, ask,
  require, note, perform, lift, check_that, branch,
}
use fleetdeck.SourceDeploy.Runtime.{resolve, quiesce, save_runtime, halt}
use fleetdeck.SourceDeploy.Staging.{Server, admit_project, stage_source, set_created}
use fleetdeck.SourceDeploy.Engine.{
  Commands, keep_snapshot, set_backup_id, take_snapshot, protect, build_images, restore_each,
  abandon, copied, copy_file, replace_files, edge_answered, prepare_edge, note_up, set_healthy,
  finish_up, start_services, write_source, commit, attempt, apply,
}
use fleetdeck.SourceDeploy.Types.{Entry, missing, directory, regular_file, branch}
use fleetdeck.SourceDeploy.Runtime.{
  stop_any, stop_writers, database_kinds, writers, tag_images, tag_line, tag_image,
  validate_runtime, check_services, check_volumes,
}
use fleetdeck.SourceDeploy.Staging.{
  Server, register, check_overrides, check_empty, created_now, check_previous, keep, drop_candidate,
  offer_env, lstat_now, offer_file, preserve_entry, check_buildx, check_stage, stage_files,
  protected_now, stage_compose, sensitive, protected, choose_updates, preserve_private,
  check_destinations, is_free, is_project_directory, lacks_override, can_write,
}
use fleetdeck.SourceDeploy.Engine.Restarted.{left_stopped, apply-left_stopped}
use fleetdeck.SourceDeploy.Confined.{IsAllowed, validate_runtime-IsAllowed}
use fleetdeck.SourceDeploy.Engine.Order.{unrestored, Saw, Follows}
use fleetdeck.SourceDeploy.Engine.Ordered.{apply-Follows, apply-unrestored}

abbrev shop : ServiceModel
shop = record {
  image = "shop";
  labels = [];
  build = none;
  volumes =
      record { kind = "volume"; source = "data"; read_only = false }
      ∷ record { kind = "bind"; source = "conf/site"; read_only = true }
      ∷ [];
  privileged = false;
  network_mode = "";
  pid = "";
  ipc = "";
  devices = [];
  cap_add = [];
  security_opt = [];
}

abbrev shop_model : Model
shop_model = record { name = "shop"; services = ("web", shop) ∷ [] }

abbrev lstat_shop : String → History → Entry
lstat_shop name h = if name == "new.txt" then missing else regular_file

abbrev small_server : Server
small_server = record {
  valid_name = λ s. true;
  to_lower = λ s. s;
  split_slash = λ s. s ∷ [];
  clean = λ s. s;
  linux_user_name = λ s. s;
  project_path = "/srv/shop";
  stage_path = "/srv/stage";
  paths = record { rel = λ a b. some b; is_local = λ s. true; base = λ s. s };
  prepare_base = λ h. true;
  admit = λ h. true;
  list_projects =
      λ h. some (record { name = "shop"; domain = "shop.test"; project_path = "/srv/shop" } ∷ []);
  lstat_path = λ h. directory;
  create_user = λ h. true;
  make_directory = λ h. true;
  create_project = λ h. true;
  lock_project = λ h. true;
  make_stage = λ h. true;
  extract = λ h. some ("compose.yml" ∷ "new.txt" ∷ []);
  is_clean = λ files h. true;
  protected_stage = λ h. some ("compose.yml", []);
  protected_project = λ h. some ("compose.yml", []);
  has_override = λ name h. false;
  stage_identity = λ name h. true;
  project_identity = λ name h. true;
  read_directory = λ h. none;
  open_roots = λ h. true;
  lstat = lstat_shop;
  remove_candidate = λ name h. true;
  copy_private = λ name h. true;
  environment_valid = λ h. true;
  stage_config = λ h. some (some shop_model);
  has_buildx = λ h. true;
  protect_contexts = λ m private h. some [];
  no_links = λ name h. true;
}

-- The services run until they are stopped.
abbrev running : History → Option (List String)
running [] = some ("web" ∷ [])
running (v ∷ h) = some []

abbrev full_disk : Commands
full_disk = record {
  database_kind = λ s. some "";
  containers = record {
    list_running = running;
    stop = λ h. true;
    list_ids = λ h. some [];
    inspect = λ h. none;
    tag = λ h. true;
    write_images = λ h. true;
  };
  project_config = λ h. some (some shop_model);
  backup = λ h. some "b1";
  add_files = λ names h. true;
  verify = λ id h. true;
  pull = λ h. true;
  build = λ no_cache h. true;
  copy = λ name h. not (name == "new.txt");
  open_snapshot = λ id h. true;
  prepare_edge = λ h. true;
  up = λ h. true;
  set_status = λ s h. true;
  start = λ names h. true;
}

abbrev shop_options : Options
shop_options = record {
  name = "shop";
  domain = "shop.test";
  timeout = 60000000000;
  no_cache = false;
}

abbrev failed_update : Outcome ApplyError (Unit {0}) × Run
failed_update = apply small_server full_disk shop_options

failed_update_ends :
    (failed_update.1.history
      ≡ services_started ("web" ∷ [])
        ∷ restored "compose.yml"
        ∷ replaced "compose.yml"
        ∷ built
        ∷ pulled
        ∷ verified "b1"
        ∷ files_added
        ∷ backed_up "b1"
        ∷ writers_stopped ("web" ∷ [])
        ∷ [])
    × (failed_update.1.snapshot ≡ some "b1")
unfolding ◌>>>◌ pure fail answer ask check_that require note perform lift branch check_volumes
    check_services validate_runtime resolve database_kinds writers halt stop_writers stop_any
    quiesce tag_image tag_line tag_images save_runtime sensitive protected is_free
    is_project_directory set_created register admit_project lacks_override check_overrides
    check_empty created_now check_previous keep drop_candidate offer_env lstat_now offer_file
    choose_updates preserve_entry preserve_private check_buildx can_write check_destinations
    check_stage stage_files protected_now stage_compose stage_source keep_snapshot set_backup_id
    take_snapshot protect build_images restore_each abandon copied copy_file replace_files
    edge_answered prepare_edge note_up set_healthy finish_up start_services write_source commit
    attempt apply ◌==◌ lookup insert
failed_update_ends = (refl, refl)

apply-unrestored_example :
    (unrestored failed_update.1.history ≡ [])
    ⊎ Saw (λ h. full_disk.open_snapshot "b1" h ≡ false) failed_update.1.history
apply-unrestored_example =
    apply-unrestored small_server full_disk shop_options "b1" failed_update_ends.1

apply-Follows_example : Follows small_server full_disk shop_options failed_update.1.history
apply-Follows_example = apply-Follows small_server full_disk shop_options

apply-left_stopped_example : left_stopped failed_update.1.history ≡ []
apply-left_stopped_example = apply-left_stopped small_server full_disk shop_options

shop_valid : validate_runtime small_server.paths "/srv/stage" shop_model ≡ ok tt
unfolding validate_runtime check_services check_volumes ◌==◌
shop_valid = refl

validate_runtime-IsAllowed_example :
    (validate_runtime small_server.paths "/srv/stage" shop_model ≡ ok tt)
    ↔ All
        (λ (s : String × ServiceModel). IsAllowed small_server.paths "/srv/stage" s.1)
        shop_model.services
validate_runtime-IsAllowed_example =
    validate_runtime-IsAllowed small_server.paths "/srv/stage" shop_model
