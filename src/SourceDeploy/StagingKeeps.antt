-- ===== src/SourceDeploy/StagingKeeps.antt =====
-- The staging keeps what the creation of a project keeps.
use fleetdeck.Prelude.{Bool, true, false, Option, none, some, List, [], ◌∷◌, String}
use fleetdeck.SourceDeploy.Types.{
  Options, Project, Entry, missing, unreadable, directory, other_file, regular_file, Event, Run,
  note,
}
use fleetdeck.SourceDeploy.Staging.{
  Server, admit_project, stage_source, register, set_created, check_overrides, check_empty,
  check_previous, keep, drop_candidate, offer_env, lstat_now, offer_file, choose_updates,
  preserve_entry, preserve_private, check_buildx, check_destinations, check_stage, stage_files,
  protected_now, stage_compose, created_now,
}
use fleetdeck.SourceDeploy.Keeps.{Keeps, keeping, bind-Keeps, resolve-Keeps}

module _ (P : Run → Type 0) where
  module _ (server : Server) (o : Options) where
    register-Keeps :
        (p : Option Project)
        → Keeps P (note Event.user_created)
        → Keeps P (note Event.registered)
        → Keeps P (set_created server o)
        → Keeps P (register server o p)
    unfolding register
    register-Keeps none h k l = search keeping depth 12
    register-Keeps (some p) h k l = search keeping

    pub admit_project-Keeps :
        Keeps P (note Event.user_created)
        → Keeps P (note Event.registered)
        → Keeps P (set_created server o)
        → Keeps P (admit_project server o)
    unfolding admit_project
    admit_project-Keeps h k l = search (keeping, register-Keeps) depth 14

    pub check_overrides-Keeps : (names : List String) → Keeps P (check_overrides server o names)
    unfolding check_overrides
    check_overrides-Keeps [] = search keeping
    check_overrides-Keeps (name ∷ names) =
        bind-Keeps P (search keeping) (λ _. check_overrides-Keeps names)

    pub created_now-Keeps : Keeps P (created_now server o)
    unfolding created_now
    created_now-Keeps = record { kept = λ r p. p }

    lstat_now-Keeps : (name : String) → Keeps P (lstat_now server o name)
    unfolding lstat_now
    lstat_now-Keeps name = record { kept = λ r p. p }

    protected_now-Keeps : Keeps P (protected_now server o)
    unfolding protected_now
    protected_now-Keeps = record { kept = λ r p. p }

    pub check_empty-Keeps : (b : Bool) → Keeps P (check_empty server o b)
    unfolding check_empty
    check_empty-Keeps true = search keeping
    check_empty-Keeps false = search keeping

    pub check_previous-Keeps :
        (compose : String) (found : Option (String × List String))
        → Keeps P (check_previous server o compose found)
    unfolding check_previous
    check_previous-Keeps compose none =
        search (keeping, created_now-Keeps, check_empty-Keeps) depth 12
    check_previous-Keeps compose (some (old_compose, old_private)) = search keeping depth 12

    drop_candidate-Keeps :
        (name : String) (rest : List String) → Keeps P (drop_candidate server o name rest)
    unfolding drop_candidate
    drop_candidate-Keeps name rest = search keeping

    keep-Keeps : (name : String) (rest : List String) → Keeps P (keep server o name rest)
    unfolding keep
    keep-Keeps name rest = search keeping

    offer_env-Keeps :
        (entry : Entry) (name : String) (rest : List String)
        → Keeps P (offer_env server o entry name rest)
    unfolding offer_env
    offer_env-Keeps missing name rest = search (keeping, keep-Keeps)
    offer_env-Keeps unreadable name rest = search keeping
    offer_env-Keeps directory name rest = search (keeping, drop_candidate-Keeps)
    offer_env-Keeps other_file name rest = search (keeping, drop_candidate-Keeps)
    offer_env-Keeps regular_file name rest = search (keeping, drop_candidate-Keeps)

    offer_file-Keeps :
        (private : List String) (name : String) (rest : List String)
        → Keeps P (offer_file server o private name rest)
    unfolding offer_file
    offer_file-Keeps private name rest =
        search (keeping, lstat_now-Keeps, offer_env-Keeps, keep-Keeps, drop_candidate-Keeps) depth
          12

    pub choose_updates-Keeps :
        (private names chosen : List String)
        → Keeps P (choose_updates server o private names chosen)
    unfolding choose_updates
    choose_updates-Keeps private [] chosen = search keeping
    choose_updates-Keeps private (name ∷ names) chosen =
        bind-Keeps P (offer_file-Keeps private name chosen)
          (λ extended. choose_updates-Keeps private names extended)

    preserve_entry-Keeps :
        (entry : Entry) (name : String) → Keeps P (preserve_entry server o entry name)
    unfolding preserve_entry
    preserve_entry-Keeps missing name = search keeping
    preserve_entry-Keeps unreadable name = search keeping
    preserve_entry-Keeps directory name = search keeping
    preserve_entry-Keeps other_file name = search keeping
    preserve_entry-Keeps regular_file name = search keeping

    pub preserve_private-Keeps : (names : List String) → Keeps P (preserve_private server o names)
    unfolding preserve_private
    preserve_private-Keeps [] = search keeping
    preserve_private-Keeps (name ∷ names) = bind-Keeps P (lstat_now-Keeps name) (λ entry.
        bind-Keeps P (preserve_entry-Keeps entry name) (λ _. preserve_private-Keeps names))

    check_buildx-Keeps : (b : Bool) → Keeps P (check_buildx server o b)
    unfolding check_buildx
    check_buildx-Keeps true = search keeping
    check_buildx-Keeps false = search keeping

    check_destinations-Keeps : (names : List String) → Keeps P (check_destinations server o names)
    unfolding check_destinations
    check_destinations-Keeps [] = search keeping
    check_destinations-Keeps (name ∷ names) =
        bind-Keeps P (search keeping)
          (λ _. bind-Keeps P (search keeping) (λ _. check_destinations-Keeps names))

    pub check_stage-Keeps :
        (private chosen : List String) → Keeps P (check_stage server o private chosen)
    unfolding check_stage
    check_stage-Keeps private chosen =
        search (keeping, resolve-Keeps, check_buildx-Keeps, check_destinations-Keeps) depth 14

    pub stage_files-Keeps :
        (files private : List String) (old : Bool × List String)
        → Keeps P (stage_files server o files private old)
    unfolding stage_files
    stage_files-Keeps files private (existing, old_private) =
        search (keeping, choose_updates-Keeps, preserve_private-Keeps, check_stage-Keeps) depth 14

    stage_compose-Keeps :
        (files : List String) (found : String × List String)
        → Keeps P (stage_compose server o files found)
    unfolding stage_compose
    stage_compose-Keeps files (compose, private) =
        search
          (
            keeping, check_overrides-Keeps, protected_now-Keeps, check_previous-Keeps,
            stage_files-Keeps,
          )
          depth 14

    pub stage_source-Keeps : Keeps P (stage_source server o)
    unfolding stage_source
    stage_source-Keeps = search (keeping, stage_compose-Keeps) depth 14
