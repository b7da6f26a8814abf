-- ===== src/Audit.antt =====
-- internal/audit/audit.go: `Log`, `rotate` and `ReadRecent`. A file is the list of its lines, oldest
-- first; a line is written whole or not at all. The JSON codec and bytes.TrimSpace are parameters.
pub mod RoundTrip
use fleetdeck.Prelude.{
  ℕ, zero, suc, ◌+◌, ◌-◌, ◌*◌, ◌≤◌, ◌<◌, ◌≡◌, refl, sym, ap, ◌∙◌, ◌≢◌, ◌↔◌, ◌⊎◌, inl, inr, Bool,
  true, false, not, ◌&&◌, ◌||◌, Option, none, some, List, [], ◌∷◌, ◌++◌, map, String, arith, ◌==◌,
  eq_iff, eq_refl, byte_length, ltb, leb, eqb, if◌then◌else◌, Bool-cases, Option-cases, length, all,
  any, All, length-append, rev_onto, rev_onto-append, is_nil, sort_by, length-sort_by, any-sort_by,
  Outcome, ok, err, ◌>>=◌, ◌>>◌, guard, Outcome-cases,
}
use fleetdeck.Prelude.Dict.{
  Dict, lookup, insert, delete, delete_if, lookup-insert, lookup-delete, length-insert,
  length-delete, length-delete_if, IsDistinct, drop_if, lookup-delete_if, insert-IsDistinct,
  delete-IsDistinct, delete_if-IsDistinct, length-insert_found,
}
use fleetdeck.Prelude.Texts.{codes, has_prefix, has_suffix, contains, text_leb}

pub record AuditEntry : Type 0 where
  pub timestamp : ℕ
  pub action : String
  pub project : String
  pub user : String
  pub details : String
  pub success : Bool

abbrev pub File : Type 0
File = List String

-- The live file, the rotated files from `.1` to `.5`, and whether the live one is open.
pub record AuditLog : Type 0 where
  pub opened : Bool
  pub live : Option File
  pub first : Option File
  pub second : Option File
  pub third : Option File
  pub fourth : Option File
  pub fifth : Option File

-- Whether each renaming of a rotation succeeds, by the file that it would make.
pub record Renames : Type 0 where
  pub to_first : Bool
  pub to_second : Bool
  pub to_third : Bool
  pub to_fourth : Bool
  pub to_fifth : Bool

-- What the operating system answers to a call of `Log`.
pub record Answers : Type 0 where
  pub written : Bool
  pub stat_ok : Bool
  pub renames : Renames
  pub reopened : Bool

abbrev pub max_file_size : ℕ
max_file_size = 10485760

unfoldable pub file_size : File → ℕ
file_size [] = 0
file_size (line ∷ lines) = byte_length line + 1 + file_size lines

-- `os.Rename`, whose failure is ignored: what is found at the source and at the destination after it.
abbrev pub rename : Bool → Option File → Option File → Option File × Option File
rename false src dst = (src, dst)
rename true none dst = (none, dst)
rename true (some f) dst = (none, some f)

abbrev pub reopen : Bool → AuditLog → AuditLog
reopen true s = record s { opened = true; live = elim s.live [ none ↦ some [] | some f ↦ some f ] }
reopen false s = s

-- The renamings, from the last rotated file to the live one.
abbrev pub shift : Renames → AuditLog → AuditLog
shift r s =
    let (fourth, fifth) = rename r.to_fifth s.fourth s.fifth in
    let (third, fourth) = rename r.to_fourth s.third fourth in
    let (second, third) = rename r.to_third s.second third in
    let (first, second) = rename r.to_second s.first second in
    let (live, first) = rename r.to_first s.live first in
    record {
      opened = false;
      live = live;
      first = first;
      second = second;
      third = third;
      fourth = fourth;
      fifth = fifth;
    }

-- `rotate`, for a log whose file is open.
unfoldable pub rotate : Answers → AuditLog → AuditLog
rotate a s = reopen a.reopened (shift a.renames s)

abbrev pub lines_in : Option File → File
lines_in none = []
lines_in (some f) = f

abbrev pub append_line : Bool → String → AuditLog → AuditLog
append_line true line s = record s { live = some (lines_in s.live ++ (line ∷ [])) }
append_line false line s = s

abbrev pub rotate_if_full : Answers → AuditLog → AuditLog
rotate_if_full a s =
    if a.stat_ok && leb max_file_size (file_size (lines_in s.live)) then rotate a s else s

module _ (encode : AuditEntry → Option String) (decode : String → Option AuditEntry)
    (trim : String → String) where
  abbrev pub write_encoded : Option String → Answers → AuditLog → AuditLog
  write_encoded none a s = s
  write_encoded (some line) a s = rotate_if_full a (append_line a.written line s)

  -- `Log`
  unfoldable pub log_entry : AuditEntry → Answers → AuditLog → AuditLog
  log_entry entry a s = if s.opened then write_encoded (encode entry) a s else s

  abbrev pub decode_line : String → Option AuditEntry
  decode_line line = if line == "" then none else decode line

  abbrev pub add_entry : Option AuditEntry → List AuditEntry → List AuditEntry → List AuditEntry
  add_entry none same_limit lower_limit = same_limit
  add_entry (some e) same_limit lower_limit = e ∷ lower_limit

  -- The loop from the end of the file.
  unfoldable pub read_back : ℕ → List String → List AuditEntry
  read_back zero lines = []
  read_back (suc n) [] = []
  read_back (suc n) (line ∷ lines) =
      let same_limit = read_back (suc n) lines in
      let lower_limit = read_back n lines in
      add_entry (decode_line (trim line)) same_limit lower_limit

  abbrev pub read_file : Bool → ℕ → Option File → Outcome (Unit {0}) (List AuditEntry)
  read_file readable limit none = ok []
  read_file true limit (some lines) = ok (read_back limit (rev_onto lines []))
  read_file false limit (some lines) = err tt

  -- `ReadRecent`
  unfoldable pub read_recent : Bool → ℕ → AuditLog → Outcome (Unit {0}) (List AuditEntry)
  read_recent readable limit s = read_file readable limit s.live
