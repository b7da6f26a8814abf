-- ===== src/SourceDeploy/Runtime.antt =====
-- internal/sourcedeploy: `validateRuntime` and `Engine.model` of engine.go, and `quiesce` and
-- `saveRuntime` of runtime.go. What docker prints is given by words; `backup.DatabaseKind` and the
-- functions of path/filepath are parameters.
use fleetdeck.Prelude.{
  Bool, true, false, not, ◌&&◌, ◌||◌, Option, none, some, List, [], ◌∷◌, String, ◌==◌,
  if◌then◌else◌, any, is_nil, sort_by, Outcome, ok, err, ◌>>=◌, ◌>>◌, guard,
}
use fleetdeck.Prelude.Dict.{Dict, lookup, insert}
use fleetdeck.Prelude.Texts.{codes, contains, text_leb}
use fleetdeck.Regex.{match_string}
use fleetdeck.SecurityWatch.Tools.{image_id_pattern}
use fleetdeck.SourceDeploy.Types.{
  tag_failed, tagged, runtime_not_saved, images_failed, model_invalid, socket_access,
  unconfined_service, several_images, writer_running, database_kind_failed, bind_escape,
  runtime_unlisted, privileged_service, unknown_service, model_failed, services_unlisted,
  invalid_image, stop_failed, context_escape, Volume, Build, ServiceModel, Model, Event, History,
  ApplyError, M, ◌>>>◌, pure, fail, answer, ask, require, perform, lift, check_that, branch,
}

pub record Paths : Type 0 where
  pub rel : String → String → Option String
  pub is_local : String → Bool
  pub base : String → String

module _ (paths : Paths) (stage : String) where
  abbrev pub is_inside : Option String → Bool
  is_inside none = false
  is_inside (some rel) = paths.is_local rel

  abbrev pub is_below : Option String → Bool
  is_below none = false
  is_below (some rel) = paths.is_local rel && not (rel == ".")

  abbrev pub check_volume : Volume → Outcome ApplyError (Unit {0})
  check_volume v =
      if v.kind == "bind"
      then guard (is_below (paths.rel stage v.source)) bind_escape
        >> guard (not (paths.base v.source == "docker.sock")) socket_access
      else ok tt

  unfoldable pub check_volumes : List Volume → Outcome ApplyError (Unit {0})
  check_volumes [] = ok tt
  check_volumes (v ∷ vs) = check_volume v >> check_volumes vs

  abbrev pub check_build : Option Build → Outcome ApplyError (Unit {0})
  check_build none = ok tt
  check_build (some b) = guard (is_inside (paths.rel stage b.context)) context_escape

  abbrev pub is_privileged : ServiceModel → Bool
  is_privileged s =
      s.privileged
      || s.network_mode == "host"
      || s.pid == "host"
      || s.ipc == "host"
      || not (is_nil s.devices)
      || not (is_nil s.cap_add)

  abbrev pub is_unconfined : String → Bool
  is_unconfined opt = contains (codes opt) (codes "unconfined")

  -- The body of the loop over the services.
  abbrev pub check_service : ServiceModel → Outcome ApplyError (Unit {0})
  check_service s =
      guard (not (is_privileged s)) privileged_service
      >> guard (not (any is_unconfined s.security_opt)) unconfined_service
      >> check_volumes s.volumes
      >> check_build s.build

  unfoldable pub check_services : Dict ServiceModel → Outcome ApplyError (Unit {0})
  check_services [] = ok tt
  check_services ((name, s) ∷ services) = check_service s >> check_services services

  -- `validateRuntime`; which of several errors Go reports is open, as the services are a map.
  unfoldable pub validate_runtime : Model → Outcome ApplyError (Unit {0})
  validate_runtime m = check_services m.services

-- `Engine.model`, with the check of what Docker resolved.
abbrev pub is_resolved : String → Model → Bool
is_resolved name m = not (is_nil m.services) && m.name == name

unfoldable pub resolve : String → (History → Option (Option Model)) → M Model
resolve name config = ask config model_failed >>> λ decoded. answer decoded model_invalid >>> λ m.
    check_that (is_resolved name m) model_invalid >>> λ _. pure m

-- What docker answers about the project's containers.
pub record Containers : Type 0 where
  pub list_running : History → Option (List String)
  pub stop : History → Bool
  pub list_ids : History → Option (List String)
  pub inspect : History → Option (List (List String))
  pub tag : History → Bool
  pub write_images : History → Bool

abbrev pub mem : String → List String → Bool
mem x xs = any (λ y. y == x) xs

module _ (database_kind : ServiceModel → Option String) (docker : Containers) where
  abbrev pub is_writable : Volume → Bool
  is_writable v = not v.read_only && not (v.kind == "tmpfs")

  unfoldable pub database_kinds : Dict ServiceModel → Outcome ApplyError (Dict String)
  database_kinds [] = ok []
  database_kinds ((name, s) ∷ services) = elim (database_kind s) [
    | none ↦ err database_kind_failed
    | some kind ↦ database_kinds services >>= λ kinds. ok ((name, kind) ∷ kinds)
  ]

  abbrev pub is_stateful : Dict ServiceModel → Bool
  is_stateful services = any (λ (s : String × ServiceModel). any is_writable s.1.volumes) services

  abbrev pub kind_of : Dict String → String → Option String
  kind_of kinds service = lookup service kinds

  -- The loop over the running services: those to stop.
  unfoldable pub writers : Dict String → List String → Outcome ApplyError (List String)
  writers kinds [] = ok []
  writers kinds (service ∷ services) = elim (kind_of kinds service) [
    | none ↦ err unknown_service
    | some kind ↦
        writers kinds services >>= λ rest. ok (if kind == "" then service ∷ rest else rest)
  ]

  -- The stop command is run, and `stopped` assigned, whether or not it fails.
  unfoldable pub halt : List String → M (Unit {0})
  halt names r =
      (ok tt, record r { stopped = names; history = Event.writers_stopped names ∷ r.history })

  abbrev pub none_running : List String → List String → Bool
  none_running stopped still = not (any (λ s. mem s stopped) still)

  -- The writers are stopped, and found to be stopped.
  unfoldable pub stop_writers : List String → M (Unit {0})
  stop_writers names = halt names >>> λ _. require docker.stop stop_failed >>> λ _.
      ask docker.list_running services_unlisted >>> λ still.
      check_that (none_running names still) writer_running

  unfoldable pub stop_any : List String → M (Unit {0})
  stop_any names = branch (is_nil names) (pure tt) (stop_writers (sort_by text_leb names))

  -- `quiesce`
  unfoldable pub quiesce : Model → M (Unit {0})
  quiesce m = lift (database_kinds m.services) >>> λ kinds.
      branch (is_stateful m.services)
        (ask docker.list_running services_unlisted >>> λ running.
          lift (writers kinds running) >>> λ names. stop_any names)
        (pure tt)

  abbrev pub is_image_id : String → Bool
  is_image_id s = match_string image_id_pattern s

  abbrev pub same_image : String → Option String → Bool
  same_image image none = true
  same_image image (some previous) = previous == image

  unfoldable pub tag_image : String → String → Dict String → M (Dict String)
  tag_image image service previous = check_that (is_image_id image) invalid_image >>> λ _.
      check_that (same_image image (lookup service previous)) several_images >>> λ _.
      perform docker.tag (tagged service) tag_failed >>> λ _. pure (insert service image previous)

  unfoldable pub tag_line : List String → Dict String → M (Dict String)
  tag_line (image ∷ service ∷ []) previous = tag_image image service previous
  tag_line (image ∷ service ∷ more ∷ rest) previous = fail invalid_image
  tag_line (image ∷ []) previous = fail invalid_image
  tag_line [] previous = fail invalid_image

  -- The loop over the lines, each a list of words.
  unfoldable pub tag_images : List (List String) → Dict String → M (Unit {0})
  tag_images [] previous = pure tt
  tag_images (line ∷ lines) previous =
      tag_line line previous >>> λ extended. tag_images lines extended

  -- `saveRuntime`
  unfoldable pub save_runtime : M (Unit {0})
  save_runtime = ask docker.list_ids runtime_unlisted >>> λ ids.
      branch (is_nil ids) (pure tt)
        (ask docker.inspect images_failed >>> λ lines. tag_images lines [])
      >>> λ _. require docker.write_images runtime_not_saved
