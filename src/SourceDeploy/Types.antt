-- ===== src/SourceDeploy/Types.antt =====
-- internal/sourcedeploy/engine.go: the options, the Compose model, what the server answers, and the
-- steps of `Apply` with their early returns. What a call answers may depend on all calls before it.
use fleetdeck.Prelude.{
  ℕ, Bool, true, false, Option, none, some, List, ◌∷◌, String, Outcome, ok, err,
}
use fleetdeck.Prelude.Dict.{Dict}

pub record Options : Type 0 where
  pub name : String
  pub domain : String
  pub timeout : ℕ
  pub no_cache : Bool

pub record Volume : Type 0 where
  pub kind : String
  pub source : String
  pub read_only : Bool

pub record Build : Type 0 where
  pub context : String
  pub dockerfile : String

pub record ServiceModel : Type 0 where
  pub image : String
  pub labels : Dict String
  pub build : Option Build
  pub volumes : List Volume
  pub privileged : Bool
  pub network_mode : String
  pub pid : String
  pub ipc : String
  pub devices : List String
  pub cap_add : List String
  pub security_opt : List String

-- The services of a resolved Compose file, by name.
pub record Model : Type 0 where
  pub name : String
  pub services : Dict ServiceModel

pub record Project : Type 0 where
  pub name : String
  pub domain : String
  pub project_path : String

-- What a run does to the server. The restoration of a file, the stop and the start of services and the
-- status of a failed project are recorded when they are tried, the others when they succeed.
pub data Event : Type 0 where
  user_created registered files_added pulled built edge_prepared : Event
  upped : Bool → Event
  writers_stopped services_started : List String → Event
  backed_up verified replaced restored tagged status_set : String → Event

abbrev pub History : Type 0
History = List Event

-- What `os.Lstat` finds at a path.
pub data Entry : Type 0 where
  missing unreadable directory other_file regular_file : Entry

pub data ApplyError : Type 0 where
  invalid_name invalid_timeout base_path_failed admission_locked projects_failed : ApplyError
  path_occupied name_too_long user_failed directory_failed register_failed : ApplyError
  project_differs not_a_directory project_locked stage_failed extract_failed not_clean : ApplyError
  source_unprotected compose_override identity_failed unprotected_update compose_renamed :
      ApplyError
  source_lookup_failed source_removal_failed private_copy_failed environment_failed : ApplyError
  model_failed model_invalid no_buildx context_failed linked_path irregular_destination : ApplyError
  privileged_service unconfined_service bind_escape socket_access context_escape : ApplyError
  database_kind_failed services_unlisted unknown_service stop_failed writer_running : ApplyError
  backup_failed snapshot_failed unverified runtime_unlisted images_failed invalid_image : ApplyError
  several_images tag_failed runtime_not_saved pull_failed build_failed replace_failed : ApplyError
  edge_failed not_ready status_failed : ApplyError

-- The result of `Apply` so far, its local variables `stopped` and `record`, and the calls, the latest
-- first.
pub record Run : Type 0 where
  pub created : Bool
  pub healthy : Bool
  pub backup_id : String
  pub stopped : List String
  pub snapshot : Option String
  pub history : History

abbrev pub M : Type 0 → Type 0
M A = Run → Outcome ApplyError A × Run

module _ {A B : Type 0} where
  abbrev pub continue : (A → M B) → Outcome ApplyError A × Run → Outcome ApplyError B × Run
  continue k (ok a, r) = k a r
  continue k (err e, r) = (err e, r)

  infixl 5 ◌>>>◌
  unfoldable pub ◌>>>◌ : M A → (A → M B) → M B
  (m >>> k) r = continue k (m r)

unfoldable pub pure : {A : Type 0} → A → M A
pure a r = (ok a, r)

unfoldable pub fail : {A : Type 0} → ApplyError → M A
fail e r = (err e, r)

unfoldable pub answer : {A : Type 0} → Option A → ApplyError → M A
answer none e r = (err e, r)
answer (some a) e r = (ok a, r)

-- A call that answers with a value or fails.
unfoldable pub ask : {A : Type 0} → (History → Option A) → ApplyError → M A
ask f e r = answer (f r.history) e r

unfoldable pub check_that : Bool → ApplyError → M (Unit {0})
check_that true e r = (ok tt, r)
check_that false e r = (err e, r)

unfoldable pub require : (History → Bool) → ApplyError → M (Unit {0})
require f e r = check_that (f r.history) e r

unfoldable pub note : Event → M (Unit {0})
note v r = (ok tt, record r { history = v ∷ r.history })

-- A call that does something unless it fails.
unfoldable pub perform : (History → Bool) → Event → ApplyError → M (Unit {0})
perform f v e = require f e >>> λ _. note v

-- A pure check.
unfoldable pub lift : {A : Type 0} → Outcome ApplyError A → M A
lift (ok a) r = (ok a, r)
lift (err e) r = (err e, r)

-- `if b { m } else { n }`
unfoldable pub branch : {A : Type 0} → Bool → M A → M A → M A
branch true m n = m
branch false m n = n
