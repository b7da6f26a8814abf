-- ===== src/Backup.antt =====
-- internal/backup/retention.go, and the queries of internal/db/backups.go that it uses. A query fails
-- as the answers say; rows of the same age may come in any order, and come here in that of the table.
pub mod Rows
pub mod Kept
use fleetdeck.Prelude.{
  ℕ, zero, suc, ◌+◌, ◌-◌, ◌*◌, ◌≤◌, ◌<◌, ◌≡◌, refl, sym, ap, ◌∙◌, ◌≢◌, ◌↔◌, ◌⊎◌, inl, inr, Bool,
  true, false, not, ◌&&◌, ◌||◌, Option, none, some, List, [], ◌∷◌, ◌++◌, map, String, arith, ◌==◌,
  eq_iff, eq_refl, byte_length, ltb, leb, eqb, if◌then◌else◌, Bool-cases, Option-cases, length, all,
  any, All, length-append, rev_onto, rev_onto-append, is_nil, sort_by, length-sort_by, any-sort_by,
  Outcome, ok, err, ◌>>=◌, ◌>>◌, guard, Outcome-cases,
}
use fleetdeck.Prelude.Dict.{
  Dict, lookup, insert, delete, delete_if, lookup-insert, lookup-delete, length-insert,
  length-delete, length-delete_if, IsDistinct, drop_if, lookup-delete_if, insert-IsDistinct,
  delete-IsDistinct, delete_if-IsDistinct, length-insert_found,
}
use fleetdeck.Prelude.Texts.{codes, has_prefix, has_suffix, contains, text_leb}

pub record BackupRecord : Type 0 where
  pub id : String
  pub project_id : String
  pub kind : String
  pub trigger : String
  pub path : String
  pub size_bytes : ℕ
  pub created_at : ℕ

-- The rows of the table and the directories with backups.
pub record Backups : Type 0 where
  pub rows : List BackupRecord
  pub files : List String

pub record BackupConfig : Type 0 where
  pub max_manual_backups : ℕ
  pub max_snapshots : ℕ
  pub max_age_days : ℕ

pub data RetentionError : Type 0 where
  count_failed oldest_failed expired_failed : RetentionError

-- What fails, by the state it is tried in.
pub record Failures : Type 0 where
  pub count : String → Backups → Bool
  pub oldest : String → Backups → Bool
  pub expired : Backups → Bool
  pub delete : String → Backups → Bool
  pub remove : String → Backups → Bool

abbrev pub is_of : String → String → BackupRecord → Bool
is_of project kind b = b.project_id == project && b.kind == kind

-- `SELECT COUNT(*)`
unfoldable pub count_backups : String → String → List BackupRecord → ℕ
count_backups project kind [] = 0
count_backups project kind (b ∷ bs) =
    let rest = count_backups project kind bs in if is_of project kind b then suc rest else rest

abbrev pub select : (BackupRecord → Bool) → List BackupRecord → List BackupRecord
select p [] = []
select p (b ∷ bs) = let rest = select p bs in if p b then b ∷ rest else rest

abbrev pub older : BackupRecord → BackupRecord → Bool
older a b = leb a.created_at b.created_at

-- `LIMIT`
abbrev pub limit_to : ℕ → List BackupRecord → List BackupRecord
limit_to zero bs = []
limit_to (suc n) [] = []
limit_to (suc n) (b ∷ bs) = b ∷ limit_to n bs

abbrev pub oldest_backups : String → String → ℕ → List BackupRecord → List BackupRecord
oldest_backups project kind limit rows =
    limit_to limit (sort_by older (select (is_of project kind) rows))

abbrev pub is_expired : String → ℕ → BackupRecord → Bool
is_expired project cutoff b = b.project_id == project && ltb b.created_at cutoff

abbrev pub expired_backups : String → ℕ → List BackupRecord → List BackupRecord
expired_backups project cutoff rows = sort_by older (select (is_expired project cutoff) rows)

-- `DELETE FROM backups WHERE id = ?`
unfoldable pub delete_row : String → List BackupRecord → List BackupRecord
delete_row id [] = []
delete_row id (b ∷ bs) = let rest = delete_row id bs in if b.id == id then rest else b ∷ rest

abbrev pub remove_path : String → List String → List String
remove_path path [] = []
remove_path path (f ∷ fs) = let rest = remove_path path fs in if f == path then rest else f ∷ rest

module _ (fails : Failures) where
  abbrev pub remove_files : BackupRecord → Backups → Backups
  remove_files b s =
      if fails.remove b.path s then s else record s { files = remove_path b.path s.files }

  -- `deleteBackup`
  unfoldable pub delete_backup : BackupRecord → Backups → Backups
  delete_backup b s =
      if fails.delete b.id s then s else remove_files b (record s { rows = delete_row b.id s.rows })

  unfoldable pub delete_all : List BackupRecord → Backups → Backups
  delete_all [] s = s
  delete_all (b ∷ bs) s = delete_all bs (delete_backup b s)

  abbrev pub trim_excess :
      String → String → ℕ → ℕ → Backups → Outcome RetentionError (Unit {0}) × Backups
  trim_excess project kind max count s =
      if leb count max
      then (ok tt, s)
      else if fails.oldest kind s
      then (err oldest_failed, s)
      else (ok tt, delete_all (oldest_backups project kind (count - max) s.rows) s)

  -- `enforceMaxCount`
  unfoldable pub enforce_max_count :
      String → String → ℕ → Backups → Outcome RetentionError (Unit {0}) × Backups
  enforce_max_count project kind max s =
      if eqb max 0
      then (ok tt, s)
      else if fails.count kind s
      then (err count_failed, s)
      else trim_excess project kind max (count_backups project kind s.rows) s

  -- The count that the loop over the expired backups sees: 0 if the query fails.
  abbrev pub seen_count : String → String → Backups → ℕ
  seen_count project kind s = if fails.count kind s then 0 else count_backups project kind s.rows

  unfoldable pub delete_expired : String → List BackupRecord → Backups → Backups
  delete_expired project [] s = s
  delete_expired project (b ∷ bs) s =
      delete_expired project bs
        (if leb (seen_count project b.kind s) 1 then s else delete_backup b s)

  abbrev pub enforce_age :
      BackupConfig → String → ℕ → Backups → Outcome RetentionError (Unit {0}) × Backups
  enforce_age config project now s =
      if eqb config.max_age_days 0
      then (ok tt, s)
      else if fails.expired s
      then (err expired_failed, s)
      else (
        ok tt,
        delete_expired project
            (expired_backups project (now - config.max_age_days * 86400000000000) s.rows) s,
      )

  abbrev pub then_enforce :
      (Backups → Outcome RetentionError (Unit {0}) × Backups)
      → Outcome RetentionError (Unit {0}) × Backups
      → Outcome RetentionError (Unit {0}) × Backups
  then_enforce step (ok a, s) = step s
  then_enforce step (err e, s) = (err e, s)

  -- `EnforceRetention`; a day is 24 hours, as in UTC.
  unfoldable pub enforce_retention :
      BackupConfig → String → ℕ → Backups → Outcome RetentionError (Unit {0}) × Backups
  enforce_retention config project now s = then_enforce (enforce_age config project now) (
      then_enforce (enforce_max_count project "snapshot" config.max_snapshots)
        (enforce_max_count project "manual" config.max_manual_backups s))
