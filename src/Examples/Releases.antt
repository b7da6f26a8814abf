-- ===== src/Examples/Releases.antt =====
-- A staging release, from its request to its stored result.
use fleetdeck.Prelude.{
  ℕ, ◌+◌, ◌≡◌, refl, ap, ◌≢◌, ◌↔◌, Bool, true, false, Option, none, some, [], ◌∷◌, String, ◌==◌, ok,
}
use fleetdeck.Regex.{
  nullable, seq, choice, deriv, accepts, match_string, times, upto, plus, literal,
}
use fleetdeck.ReleaseJob.Types.{Request, BackupEvidence, Result}
use fleetdeck.ReleaseJob.Contract.{
  decode, at_end, identifier_pattern, digest_pattern, path_part, image_pattern, check_identity,
  check_policy, check_images, validate,
}
use fleetdeck.ReleaseJob.Contract.Laws.{decode_iff, IsAcceptable, validate_iff}
use fleetdeck.ReleaseJob.Store.Answers.{success_row}
use fleetdeck.ReleaseJob.Executor.Ends.{IsProven}
use fleetdeck.ReleaseJob.Executor.Protocol.{FollowsNew}
use fleetdeck.ReleaseJob.Executor.Replay.{result_of}
use fleetdeck.ReleaseJob.Store.{
  current_release, insert_new, stored, find_target, job_id_taken, busy, find_job, Json, Job, Db,
  Stmt, reserve, complete_success, complete_failure,
}
use fleetdeck.ReleaseJob.Store.Invariant.{IsConsistent}
use fleetdeck.ReleaseJob.Store.Reach.{
  empty, reserving, failing, here, next, Reach-IsConsistent, Reach-final,
}
use fleetdeck.ReleaseJob.Executor.{
  run_job, run_preflight, run_backup, run_apply, run_health, succeed, fail, Runtime, Executed,
  returned, execute,
}
use fleetdeck.ReleaseJob.Executor.Safety.{execute-IsProven, execute_keeps_targets}
use fleetdeck.ReleaseJob.Executor.Replay.{RoundTrips, execute_twice}
use fleetdeck.ReleaseJob.Executor.Protocol.{execute-Follows}

data Document : Type 0 where
  request_document : Request → Document
  result_document : Result → Document

abbrev decode_result : Document → Option Result
decode_result (request_document r) = none
decode_result (result_document r) = some r

abbrev documents : Json Document
documents = record {
  marshal_request = λ r. some (request_document r);
  marshal_result = λ r. some (result_document r);
  unmarshal_result = decode_result;
}

abbrev digest : String
digest = "sha256:0123456789abcdef0123456789abcdef0123456789abcdef0123456789abcdef"

abbrev hex_of : Document → String
hex_of d = "00ff"

abbrev staging_request : Request
staging_request = record {
  schema_version = 2;
  job_id = "job-1";
  idempotency_key = "key-1";
  release_id = "r1";
  manifest_digest = digest;
  target = record {
    id = "t1";
    environment = "staging";
    profile = "p";
    expected_current_release_id = none;
  };
  images =
      record {
        component = "web";
        reference =
            "g.io/a/b@sha256:0123456789abcdef0123456789abcdef0123456789abcdef0123456789abcdef";
      }
      ∷ [];
  backup = record { required = true };
  migration = record { mode = "none"; compatibility = "not-applicable" };
  recovery = record { mode = "manual" };
  health_profile = "h";
}

-- A host whose state is its clock, on which every step succeeds.
abbrev good_host : Runtime ℕ
good_host = record {
  now = λ w. w;
  preflight = λ r w. (
    record { compose_valid = true; images_resolved = true; migration_ready = true },
    false,
    w + 1,
  );
  create_and_verify_backup = λ r w. (
    record {
      backup_id = "b1";
      manifest_sha256 = digest;
      verified = true;
      encrypted = true;
      offsite_verified = true;
    },
    false,
    w + 1,
  );
  restore_backup = λ r b w. (
    record { backup_id = b.backup_id; mode = "manual"; restored = true; health_verified = true },
    false,
    w + 1,
  );
  apply = λ r w. (record { applied_components = 1; migration_applied = false }, false, w + 1);
  verify_health = λ r w. (record { profile = "h"; checks_passed = 3; attempts = 1 }, false, w + 1);
}

abbrev always : Stmt → Bool
always s = true

abbrev outcome : Executed × Db Document × ℕ
outcome = execute documents good_host always hex_of staging_request empty 10

abbrev released_result : Result
released_result = record {
  schema_version = 2;
  job_id = "job-1";
  idempotency_key = "key-1";
  release_id = "r1";
  target_id = "t1";
  status = "succeeded";
  started_at = 10;
  finished_at = some 14;
  preflight =
      some (record { compose_valid = true; images_resolved = true; migration_ready = true });
  backup = some (record {
    backup_id = "b1";
    manifest_sha256 = digest;
    verified = true;
    encrypted = true;
    offsite_verified = true;
  });
  rollback = none;
  apply = some (record { applied_components = 1; migration_applied = false });
  health = some (record { profile = "h"; checks_passed = 3; attempts = 1 });
  failed_step = "";
  error_code = "";
}

outcome_returned : outcome.0 ≡ returned released_result
unfolding execute validate check_identity check_policy check_images identifier_pattern
    digest_pattern path_part image_pattern nullable seq choice deriv accepts match_string times upto
    plus literal reserve complete_success ◌==◌ run_job run_preflight run_backup run_apply run_health
    succeed fail current_release insert_new stored find_target job_id_taken busy find_job
outcome_returned = refl

execute-IsProven_example :
    IsAcceptable staging_request
    × IsProven staging_request released_result
    × (released_result.status ≡ "succeeded")
    × (find_target staging_request.target.id outcome.1.targets
        ≡ some (success_row released_result digest))
unfolding find_job
execute-IsProven_example =
    execute-IsProven documents good_host always hex_of staging_request empty 10 released_result refl
      outcome_returned

execute-Follows_example :
    FollowsNew documents good_host always hex_of staging_request empty 10 outcome
execute-Follows_example = execute-Follows documents good_host always hex_of staging_request empty 10

abbrev backup_evidence : BackupEvidence
backup_evidence = record {
  backup_id = "b1";
  manifest_sha256 = digest;
  verified = true;
  encrypted = true;
  offsite_verified = true;
}

documents-RoundTrips : RoundTrips documents
documents-RoundTrips r doc h = cc

execute_twice_example :
    execute documents good_host always hex_of staging_request outcome.1 20
    ≡ (returned released_result, outcome.1, 20)
execute_twice_example =
    execute_twice documents good_host always always documents-RoundTrips hex_of staging_request
      empty 10 20 released_result refl refl (ap result_of outcome_returned)

abbrev never : Stmt → Bool
never s = false

refused_always :
    (r : Result)
    → (execute documents good_host never hex_of staging_request empty 10).0 ≢ returned r
unfolding execute validate check_identity check_policy check_images identifier_pattern
    digest_pattern path_part image_pattern nullable seq choice deriv accepts match_string times upto
    plus literal reserve ◌==◌
refused_always r h = cc

execute_keeps_targets_example :
    (execute documents good_host never hex_of staging_request empty 10).1.targets ≡ []
execute_keeps_targets_example =
    execute_keeps_targets documents good_host never hex_of staging_request empty 10 refused_always

empty-IsConsistent : IsConsistent (empty {Doc = Document})
empty-IsConsistent = record { apart = tt; settled = tt }

Reach-IsConsistent_example :
    IsConsistent (reserve documents always staging_request "sha256:00ff" 10 empty).1
Reach-IsConsistent_example =
    Reach-IsConsistent documents empty-IsConsistent
      (next here (reserving always staging_request "sha256:00ff" 10))

abbrev ended_job : Job Document
ended_job = record {
  idempotency_key = "key-1";
  job_id = "job-1";
  release_id = "r1";
  manifest_digest = digest;
  target_id = "t1";
  environment = "staging";
  request_sha256 = "sha256:00ff";
  request_json = request_document staging_request;
  status = "succeeded";
  result_json = some (result_document released_result);
  started_at = 10;
  finished_at = some 14;
}

abbrev ended_db : Db Document
ended_db = record { jobs = ended_job ∷ []; targets = [] }

ended_found : find_job "key-1" ended_db.jobs ≡ some ended_job
unfolding find_job ◌==◌
ended_found = refl

succeeded-ne-running : ◌≢◌ {A = String} "succeeded" "running"
succeeded-ne-running h = cc

Reach-final_example :
    find_job "key-1" (complete_failure documents always released_result ended_db).1.jobs
    ≡ some ended_job
Reach-final_example =
    Reach-final documents "key-1" ended_job (next here (failing always released_result))
      succeeded-ne-running ended_found

validate_iff_example : (validate staging_request ≡ ok tt) ↔ IsAcceptable staging_request
validate_iff_example = validate_iff staging_request

decode_iff_example : (decode (some staging_request) false at_end ≡ ok staging_request) ↔ (
    (some staging_request ≡ some staging_request)
    × (false ≡ false)
    × (at_end ≡ at_end)
    × IsAcceptable staging_request)
decode_iff_example = decode_iff (some staging_request) false at_end staging_request
