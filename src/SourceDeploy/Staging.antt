-- ===== src/SourceDeploy/Staging.antt =====
-- internal/sourcedeploy: `Apply` of engine.go up to the check of the files to write, and `sensitive`
-- and `protected` of files.go. The file system, the archive, the secret scan and the reading of
-- Compose files answer through the record `Server`.
use fleetdeck.Prelude.{
  Bool, true, false, not, ◌&&◌, ◌||◌, Option, none, some, List, [], ◌∷◌, ◌++◌, String, ◌==◌,
  byte_length, ltb, leb, if◌then◌else◌, all, any, sort_by, ok,
}
use fleetdeck.Prelude.Texts.{codes, has_prefix, has_suffix, text_leb}
use fleetdeck.SourceDeploy.Types.{
  project_locked, not_a_directory, projects_failed, project_differs, admission_locked,
  register_failed, source_unprotected, base_path_failed, user_failed, not_clean, compose_renamed,
  extract_failed, private_copy_failed, unprotected_update, context_failed, name_too_long,
  irregular_destination, invalid_timeout, source_lookup_failed, source_removal_failed, invalid_name,
  compose_override, directory_failed, no_buildx, path_occupied, identity_failed, stage_failed,
  environment_failed, linked_path, Options, ServiceModel, Model, Project, Entry, missing,
  unreadable, directory, other_file, regular_file, Event, History, M, ◌>>>◌, pure, fail, ask,
  require, perform, lift, check_that, branch,
}
use fleetdeck.SourceDeploy.Runtime.{Paths, validate_runtime, resolve, mem}

pub record Server : Type 0 where
  pub valid_name : String → Bool
  pub to_lower : String → String
  pub split_slash : String → List String
  pub clean : String → String
  pub linux_user_name : String → String
  pub project_path : String
  pub stage_path : String
  pub paths : Paths
  pub prepare_base : History → Bool
  pub admit : History → Bool
  pub list_projects : History → Option (List Project)
  pub lstat_path : History → Entry
  pub create_user : History → Bool
  pub make_directory : History → Bool
  pub create_project : History → Bool
  pub lock_project : History → Bool
  pub make_stage : History → Bool
  pub extract : History → Option (List String)
  pub is_clean : List String → History → Bool
  pub protected_stage : History → Option (String × List String)
  pub protected_project : History → Option (String × List String)
  pub has_override : String → History → Bool
  pub stage_identity : String → History → Bool
  pub project_identity : String → History → Bool
  pub read_directory : History → Option (List String)
  pub open_roots : History → Bool
  pub lstat : String → History → Entry
  pub remove_candidate : String → History → Bool
  pub copy_private : String → History → Bool
  pub environment_valid : History → Bool
  pub stage_config : History → Option (Option Model)
  pub has_buildx : History → Bool
  pub protect_contexts : Model → List String → History → Option (List String)
  pub no_links : String → History → Bool

-- What is staged: whether the project had a Compose model, the private paths, and what to write.
pub record Staged : Type 0 where
  pub existing : Bool
  pub private : List String
  pub updates : List String

abbrev pub skipped : List String
skipped =
    ".git" ∷ ".svn" ∷ ".ssh" ∷ ".aws" ∷ ".kube" ∷ ".fleetdeck" ∷ "node_modules" ∷ ".next" ∷ ".nuxt"
    ∷ ".venv" ∷ "venv" ∷ "__pycache__" ∷ "target" ∷ ".cache" ∷ "coverage" ∷ ".turbo" ∷ ".DS_Store"
    ∷ []

abbrev pub key_suffixes : List String
key_suffixes = ".pem" ∷ ".key" ∷ ".p12" ∷ ".pfx" ∷ ".jks" ∷ []

abbrev pub overrides : List String
overrides =
    "compose.override.yml" ∷ "compose.override.yaml" ∷ "docker-compose.override.yml"
    ∷ "docker-compose.override.yaml" ∷ []

module _ (server : Server) (o : Options) where
  abbrev pub is_sensitive_part : String → Bool
  is_sensitive_part part =
      let lower = server.to_lower part in
      mem part skipped
      || has_prefix (codes lower) (codes ".fleetdeck")
      || lower == ".env"
      || has_prefix (codes lower) (codes ".env.")
      || any (λ ext. has_suffix (codes lower) (codes ext)) key_suffixes

  unfoldable pub sensitive : String → Bool
  sensitive name = any is_sensitive_part (server.split_slash name)

  abbrev pub is_at_or_below : String → String → Bool
  is_at_or_below name p = name == p || has_prefix (codes name) (codes p ++ codes "/")

  unfoldable pub protected : String → List String → Bool
  protected name paths = sensitive name || any (is_at_or_below name) paths

  abbrev pub find_project : List Project → Option Project
  find_project [] = none
  find_project (p ∷ ps) = let rest = find_project ps in if p.name == o.name then some p else rest

  abbrev pub is_missing : Entry → Bool
  is_missing missing = true
  is_missing unreadable = false
  is_missing directory = false
  is_missing other_file = false
  is_missing regular_file = false

  unfoldable pub is_free : History → Bool
  is_free h = is_missing (server.lstat_path h)

  abbrev pub is_directory : Entry → Bool
  is_directory missing = false
  is_directory unreadable = false
  is_directory directory = true
  is_directory other_file = false
  is_directory regular_file = false

  unfoldable pub is_project_directory : History → Bool
  is_project_directory h = is_directory (server.lstat_path h)

  unfoldable pub set_created : M (Unit {0})
  set_created r = (ok tt, record r { created = true })

  -- The project is created, or has to be the one that was asked for.
  unfoldable pub register : Option Project → M (Unit {0})
  register none = require is_free path_occupied >>> λ _.
      check_that (leb (byte_length (server.linux_user_name o.name)) 32) name_too_long >>> λ _.
      perform server.create_user Event.user_created user_failed >>> λ _.
      require server.make_directory directory_failed >>> λ _.
      perform server.create_project Event.registered register_failed >>> λ _. set_created
  register (some p) =
      check_that (server.clean p.project_path == server.project_path && p.domain == o.domain)
        project_differs

  -- `Apply` up to the lock on the project.
  unfoldable pub admit_project : M (Unit {0})
  admit_project = check_that (server.valid_name o.name) invalid_name >>> λ _.
      check_that (ltb 0 o.timeout && leb o.timeout 3600000000000) invalid_timeout >>> λ _.
      require server.prepare_base base_path_failed >>> λ _.
      require server.admit admission_locked >>> λ _.
      ask server.list_projects projects_failed >>> λ projects.
      register (find_project projects) >>> λ _.
      require is_project_directory not_a_directory >>> λ _.
      require server.lock_project project_locked

  unfoldable pub lacks_override : String → History → Bool
  lacks_override name h = not (server.has_override name h)

  unfoldable pub check_overrides : List String → M (Unit {0})
  check_overrides [] = pure tt
  check_overrides (name ∷ names) =
      require (lacks_override name) compose_override >>> λ _. check_overrides names

  abbrev pub is_leftover : String → Bool
  is_leftover name = name == ".fleetdeck.lock" || sensitive name

  -- A registered project without a Compose model must be empty.
  unfoldable pub check_empty : Bool → M (Unit {0})
  check_empty true = pure tt
  check_empty false = ask server.read_directory directory_failed >>> λ names.
      check_that (all is_leftover names) unprotected_update

  unfoldable pub created_now : M Bool
  created_now r = (ok r.created, r)

  -- What the project had before: whether it had a Compose model, and its private paths.
  unfoldable pub check_previous : String → Option (String × List String) → M (Bool × List String)
  check_previous compose none =
      created_now >>> λ created. check_empty created >>> λ _. pure (false, [])
  check_previous compose (some (old_compose, old_private)) =
      require (server.project_identity old_compose) identity_failed >>> λ _.
      check_that (old_compose == compose) compose_renamed >>> λ _. pure (true, old_private)

  unfoldable pub keep : String → List String → M (List String)
  keep name rest = pure (name ∷ rest)

  unfoldable pub drop_candidate : String → List String → M (List String)
  drop_candidate name rest =
      require (server.remove_candidate name) source_removal_failed >>> λ _. pure rest

  unfoldable pub offer_env : Entry → String → List String → M (List String)
  offer_env missing name rest = keep name rest
  offer_env unreadable name rest = fail source_lookup_failed
  offer_env directory name rest = drop_candidate name rest
  offer_env other_file name rest = drop_candidate name rest
  offer_env regular_file name rest = drop_candidate name rest

  unfoldable pub lstat_now : String → M Entry
  lstat_now name r = (ok (server.lstat name r.history), r)

  -- The body of the loop over the files of the archive; the updates are kept latest first.
  unfoldable pub offer_file : List String → String → List String → M (List String)
  offer_file private name chosen =
      branch (protected name private)
        (branch (name == ".env") (lstat_now name >>> λ entry. offer_env entry name chosen)
          (drop_candidate name chosen))
        (keep name chosen)

  unfoldable pub choose_updates : List String → List String → List String → M (List String)
  choose_updates private [] chosen = pure chosen
  choose_updates private (name ∷ names) chosen =
      offer_file private name chosen >>> λ extended. choose_updates private names extended

  unfoldable pub preserve_entry : Entry → String → M (Unit {0})
  preserve_entry missing name = pure tt
  preserve_entry unreadable name = fail source_lookup_failed
  preserve_entry directory name = pure tt
  preserve_entry other_file name = require (server.copy_private name) private_copy_failed
  preserve_entry regular_file name = require (server.copy_private name) private_copy_failed

  unfoldable pub preserve_private : List String → M (Unit {0})
  preserve_private [] = pure tt
  preserve_private (name ∷ names) =
      lstat_now name >>> λ entry. preserve_entry entry name >>> λ _. preserve_private names

  abbrev pub is_built : String × ServiceModel → Bool
  is_built (name, s) = elim s.build [ none ↦ false | some b ↦ true ]

  unfoldable pub check_buildx : Bool → M (Unit {0})
  check_buildx true = require server.has_buildx no_buildx
  check_buildx false = pure tt

  abbrev pub add_missing : List String → List String → List String
  add_missing [] updates = updates
  add_missing (name ∷ names) updates =
      add_missing names (if mem name updates then updates else name ∷ updates)

  abbrev pub is_writable_entry : Entry → Bool
  is_writable_entry missing = true
  is_writable_entry unreadable = true
  is_writable_entry directory = false
  is_writable_entry other_file = false
  is_writable_entry regular_file = true

  unfoldable pub can_write : String → History → Bool
  can_write name h = is_writable_entry (server.lstat name h)

  unfoldable pub check_destinations : List String → M (Unit {0})
  check_destinations [] = pure tt
  check_destinations (name ∷ names) = require (server.no_links name) linked_path >>> λ _.
      require (can_write name) irregular_destination >>> λ _. check_destinations names

  -- The validation of the staged project, and the list of what to write.
  unfoldable pub check_stage : List String → List String → M (List String)
  check_stage private chosen = require server.environment_valid environment_failed >>> λ _.
      resolve o.name server.stage_config >>> λ m.
      lift (validate_runtime server.paths server.stage_path m) >>> λ _.
      check_buildx (any is_built m.services) >>> λ _.
      ask (server.protect_contexts m private) context_failed >>> λ ignores.
      (let updates = sort_by text_leb (add_missing ignores chosen) in
        check_destinations updates >>> λ _. pure updates)

  unfoldable pub stage_files : List String → List String → Bool × List String → M Staged
  stage_files files private (existing, old_private) =
      let all_private = private ++ old_private in
      require server.open_roots stage_failed >>> λ _.
      choose_updates all_private files [] >>> λ chosen.
      preserve_private (all_private ++ (".env" ∷ [])) >>> λ _.
      check_stage all_private chosen >>> λ updates.
      pure (record { existing = existing; private = all_private; updates = updates })

  unfoldable pub protected_now : M (Option (String × List String))
  protected_now r = (ok (server.protected_project r.history), r)

  unfoldable pub stage_compose : List String → String × List String → M Staged
  stage_compose files (compose, private) = check_overrides overrides >>> λ _.
      require (server.stage_identity compose) identity_failed >>> λ _. protected_now >>> λ previous.
      check_previous compose previous >>> λ old. stage_files files private old

  -- `Apply` from the stage on, up to the check of the files to write.
  unfoldable pub stage_source : M Staged
  stage_source = require server.make_stage stage_failed >>> λ _.
      ask server.extract extract_failed >>> λ files.
      require (server.is_clean files) not_clean >>> λ _.
      ask server.protected_stage source_unprotected >>> λ found. stage_compose files found
