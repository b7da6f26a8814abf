-- ===== src/Examples/Retention.antt =====
-- Two manual backups of a project, one allowed.
use fleetdeck.Prelude.{ℕ, ◌≤◌, ◌≡◌, refl, true, false, [], ◌∷◌, String, arith, ◌==◌}
use fleetdeck.Backup.{
  BackupRecord, Backups, BackupConfig, Failures, count_backups, enforce_retention,
  enforce_max_count, delete_all, delete_backup, delete_row, delete_expired,
}
use fleetdeck.Backup.Rows.{have_own_ids}
use fleetdeck.Backup.Kept.{Held, enforce_retention-Held}

abbrev nothing_fails : Failures
nothing_fails = record {
  count = λ kind s. false;
  oldest = λ kind s. false;
  expired = λ s. false;
  delete = λ id s. false;
  remove = λ path s. false;
}

abbrev backup_of : String → ℕ → BackupRecord
backup_of id at = record {
  id = id;
  project_id = "shop";
  kind = "manual";
  trigger = "user";
  size_bytes = 1;
  path = id;
  created_at = at;
}

abbrev two_backups : Backups
two_backups = record { rows = backup_of "b2" 20 ∷ backup_of "b1" 10 ∷ []; files = "b1" ∷ "b2" ∷ [] }

abbrev one_each : BackupConfig
one_each = record { max_manual_backups = 1; max_snapshots = 1; max_age_days = 1 }

-- The older one goes; the newer one has expired but stays.
retained :
    (enforce_retention nothing_fails one_each "shop" 200000000000000 two_backups).1
    ≡ record { rows = backup_of "b2" 20 ∷ []; files = "b2" ∷ [] }
unfolding enforce_retention enforce_max_count delete_all delete_backup delete_row delete_expired
    count_backups ◌==◌
retained = refl

own_ids : have_own_ids two_backups.rows ≡ true
unfolding have_own_ids ◌==◌
own_ids = refl

one_counted : 1 ≤ count_backups "shop" "manual" two_backups.rows
unfolding count_backups ◌==◌
one_counted = omega arith

enforce_retention-Held_example :
    Held nothing_fails "shop" "manual"
      (enforce_retention nothing_fails one_each "shop" 200000000000000 two_backups).1
enforce_retention-Held_example =
    enforce_retention-Held nothing_fails "shop" "manual" one_each 200000000000000 two_backups
      own_ids one_counted
