-- ===== src/Examples/Audits.antt =====
-- A log of two entries.
use fleetdeck.Prelude.{
  ◌<◌, ◌≡◌, refl, true, false, Option, none, some, [], ◌∷◌, map, String, arith, ◌==◌, eqb,
  if◌then◌else◌, ok,
}
use fleetdeck.Audit.{AuditEntry, AuditLog, Answers, file_size, max_file_size, read_recent, rotate}
use fleetdeck.Audit.RoundTrip.{
  take, all_lines, spared, all_went_well, rotate-all_lines, text_of, IsCoded, log_all,
  read_recent-log_all,
}

abbrev login : AuditEntry
login = record {
  timestamp = 1;
  action = "login";
  project = "";
  user = "root";
  details = "";
  success = true;
}

abbrev deploy_failed : AuditEntry
deploy_failed = record {
  timestamp = 2;
  action = "deploy";
  project = "shop";
  user = "root";
  details = "";
  success = false;
}

-- A codec that knows these two.
abbrev encode_known : AuditEntry → Option String
encode_known e = if eqb e.timestamp 1 then some "login" else some "deploy"

abbrev decode_known : String → Option AuditEntry
decode_known s = if s == "login" then some login else some deploy_failed

abbrev keep_text : String → String
keep_text s = s

abbrev empty_log : AuditLog
empty_log = record {
  opened = true;
  live = some [];
  first = none;
  second = some ("old" ∷ []);
  third = none;
  fourth = none;
  fifth = some ("older" ∷ []);
}

login-IsCoded : IsCoded encode_known decode_known keep_text login
unfolding ◌==◌
login-IsCoded = record { encoded = refl; decoded = refl; filled = refl }

deploy-IsCoded : IsCoded encode_known decode_known keep_text deploy_failed
unfolding ◌==◌
deploy-IsCoded = record { encoded = refl; decoded = refl; filled = refl }

small_file :
    file_size (map (text_of encode_known decode_known keep_text) (login ∷ deploy_failed ∷ []))
    < max_file_size
unfolding file_size
small_file = omega arith

read_recent-log_all_example :
    read_recent encode_known decode_known keep_text true 1
      (log_all encode_known decode_known keep_text (login ∷ deploy_failed ∷ []) empty_log)
    ≡ ok (take 1 (deploy_failed ∷ login ∷ []))
read_recent-log_all_example =
    read_recent-log_all encode_known decode_known keep_text 1 (login ∷ deploy_failed ∷ []) empty_log
      (login-IsCoded, (deploy-IsCoded, tt)) refl refl small_file

-- The renaming of the first file fails, and that of the live one succeeds.
abbrev second_refused : Answers
second_refused = record all_went_well {
  renames = record {
    to_first = true;
    to_second = false;
    to_third = true;
    to_fourth = true;
    to_fifth = true;
  };
}

abbrev two_files : AuditLog
two_files = record empty_log { first = some ("kept" ∷ []) }

rotate-all_lines_example :
    all_lines (rotate second_refused two_files) ≡ spared second_refused.renames two_files
rotate-all_lines_example = rotate-all_lines second_refused two_files

-- The lines of the first file are gone, while those of the fifth stay.
rotate-second_refused : spared second_refused.renames two_files ≡ ("older" ∷ "old" ∷ [])
rotate-second_refused = refl
