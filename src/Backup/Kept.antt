-- ===== src/Backup/Kept.antt =====
-- The last backup of a type is kept.
use fleetdeck.Prelude.{
  ℕ, suc, ◌+◌, ◌-◌, ◌≤◌, ◌<◌, ◌≡◌, refl, ap, ◌∙◌, ◌⊎◌, inl, inr, Bool, true, false, not, List, [],
  ◌∷◌, String, arith, ◌==◌, eq_iff, leb, eqb, Bool-cases, length, all, sort_by, Outcome, ok, err,
}
use fleetdeck.Backup.{
  BackupRecord, Backups, BackupConfig, RetentionError, Failures, is_of, count_backups, select,
  older, oldest_backups, delete_row, remove_files, delete_backup, delete_all, trim_excess,
  enforce_max_count, seen_count, delete_expired, enforce_age, then_enforce, enforce_retention,
}
use fleetdeck.Backup.Rows.{
  have_own_ids, consistent, have_own_ids-delete_row, count-delete_row, count-other,
  all-consistent-delete_row, all-consistent, all-select, all-sort_by, all-limit_to, length-limit_to,
  of_kind-select,
}

module _ (fails : Failures) (project kind : String) where
  abbrev pub count_in : Backups → ℕ
  count_in s = count_backups project kind s.rows

  remove_files-rows : (b : BackupRecord) (s : Backups) → (remove_files fails b s).rows ≡ s.rows
  remove_files-rows b s = elim (Bool-cases (fails.remove b.path s)) [
    | inl stays ↦ simp stays refl
    | inr goes ↦ simp goes refl
  ]

  delete_backup-rows :
      (b : BackupRecord) (s : Backups)
      → ((delete_backup fails b s).rows ≡ s.rows)
        ⊎ ((delete_backup fails b s).rows ≡ delete_row b.id s.rows)
  unfolding delete_backup
  delete_backup-rows b s = elim (Bool-cases (fails.delete b.id s)) [
    | inl stays ↦ inl (simp stays refl)
    | inr goes ↦ inr (simp goes (remove_files-rows b (record s { rows = delete_row b.id s.rows })))
  ]

  -- The rows are those of a table, and the backups to come are rows of it or were.
  abbrev pub Fits : List BackupRecord → Backups → Type 0
  Fits bs s = (have_own_ids s.rows ≡ true) × (all (λ c. consistent c s.rows) bs ≡ true)

  -- What a deletion does to the count of the type.
  pub record Step (b : BackupRecord) (bs : List BackupRecord) (s t : Backups) : Type 0 where
    pub fits : Fits bs t
    pub few : count_in s ≤ suc (count_in t)
    pub apart : (b.kind == kind) ≡ false → count_in t ≡ count_in s

  delete_backup-Step :
      (b : BackupRecord) (bs : List BackupRecord) (s : Backups)
      → Fits (b ∷ bs) s
      → Step b bs s (delete_backup fails b s)
  delete_backup-Step b bs s (own, cs) =
      let now_b : consistent b s.rows ≡ true = ground (arith, cs) in
      let rest : all (λ c. consistent c s.rows) bs ≡ true = ground (arith, cs) in
      elim (delete_backup-rows b s) [
        | inl same_rows ↦ record {
          fits = rw same_rows (own, rest);
          few = rw same_rows (omega arith);
          apart = λ other. rw same_rows refl;
        }
        | inr fewer ↦ record {
          fits = rw fewer (
            have_own_ids-delete_row b.id s.rows own,
            all-consistent-delete_row b.id bs s.rows rest,
          );
          few = rw fewer (count-delete_row project kind b.id s.rows own);
          apart = λ other. rw fewer (count-other project kind b s.rows other now_b);
        }
      ]

  delete_all-own :
      (bs : List BackupRecord) (s : Backups)
      → Fits bs s
      → have_own_ids (delete_all fails bs s).rows ≡ true
  unfolding delete_all
  delete_all-own [] s h = h.0
  delete_all-own (b ∷ bs) s h =
      delete_all-own bs (delete_backup fails b s) (delete_backup-Step b bs s h).fits

  delete_all-few :
      (bs : List BackupRecord) (s : Backups)
      → Fits bs s
      → count_in s ≤ count_in (delete_all fails bs s) + length bs
  unfolding delete_all
  delete_all-few [] s h = omega arith
  delete_all-few (b ∷ bs) s h =
      let step = delete_backup-Step b bs s h in
      omega (arith, step.few, delete_all-few bs (delete_backup fails b s) step.fits)

  delete_all-apart :
      (bs : List BackupRecord) (s : Backups)
      → Fits bs s
      → all (λ b. not (b.kind == kind)) bs ≡ true
      → count_in (delete_all fails bs s) ≡ count_in s
  unfolding delete_all
  delete_all-apart [] s h others = refl
  delete_all-apart (b ∷ bs) s h others =
      let step = delete_backup-Step b bs s h in
      delete_all-apart bs (delete_backup fails b s) step.fits (ground (arith, others))
      ∙ step.apart (ground (arith, others))

  -- The table is in order and holds a backup of the type.
  abbrev pub Held : Backups → Type 0
  Held s = (have_own_ids s.rows ≡ true) × (1 ≤ count_in s)

  seen_at_most :
      (k : String) (s : Backups) → seen_count fails project k s ≤ count_backups project k s.rows
  seen_at_most k s = elim (Bool-cases (fails.count k s)) [
    | inl refused ↦ simp refused (omega arith)
    | inr counted ↦ simp counted (omega arith)
  ]

  several : (n m : ℕ) → leb n 1 ≡ false → n ≤ m → 2 ≤ m
  several n m h k = ground (arith, h, k)

  -- A backup of which there is another one of its type is deleted.
  spare_deleted :
      (b : BackupRecord) (bs : List BackupRecord) (s : Backups)
      → Fits (b ∷ bs) s
      → 1 ≤ count_in s
      → leb (seen_count fails project b.kind s) 1 ≡ false
      → 1 ≤ count_in (delete_backup fails b s)
  spare_deleted b bs s h c more =
      let step = delete_backup-Step b bs s h in
      elim (Bool-cases (b.kind == kind)) [
        | inl own_kind ↦
            let two =
              several (seen_count fails project b.kind s) (count_backups project b.kind s.rows) more
                (seen_at_most b.kind s) in
            let same_count =
              ap (λ k. count_backups project k s.rows) ((eq_iff b.kind kind).0 own_kind) in
            omega (arith, two, same_count, step.few)
        | inr other ↦ omega (arith, c, step.apart other)
      ]

  delete_expired-Held :
      (bs : List BackupRecord) (s : Backups)
      → Fits bs s
      → 1 ≤ count_in s
      → Held (delete_expired fails project bs s)
  unfolding delete_expired
  delete_expired-Held [] s h c = (h.0, c)
  delete_expired-Held (b ∷ bs) s h c =
      elim (Bool-cases (leb (seen_count fails project b.kind s) 1)) [
        | inl last ↦ simp last (delete_expired-Held bs s (h.0, ground (arith, h.1)) c)
        | inr spare ↦ simp spare (
            delete_expired-Held bs (delete_backup fails b s) (delete_backup-Step b bs s h).fits
              (spare_deleted b bs s h c spare))
      ]

  -- The oldest backups of a type, and the expired ones, are rows of the table.
  chosen-Fits :
      (p : BackupRecord → Bool) (s : Backups)
      → have_own_ids s.rows ≡ true
      → Fits (sort_by older (select p s.rows)) s
  chosen-Fits p s own = (
    own,
    all-sort_by (λ c. consistent c s.rows) (select p s.rows)
        (all-select (λ c. consistent c s.rows) p s.rows (all-consistent s.rows own)),
  )

  oldest-Fits :
      (k : String) (n : ℕ) (s : Backups)
      → have_own_ids s.rows ≡ true
      → Fits (oldest_backups project k n s.rows) s
  oldest-Fits k n s own =
      let (_, sorted) = chosen-Fits (is_of project k) s own in
      (own, all-limit_to (λ c. consistent c s.rows) n _ sorted)

  all_other :
      (k : String) (bs : List BackupRecord)
      → (k == kind) ≡ false
      → all (λ b. b.kind == k) bs ≡ true
      → all (λ b. not (b.kind == kind)) bs ≡ true
  all_other k [] other h = refl
  all_other k (b ∷ bs) other h =
      ground
        (arith, all_other k bs other, other, h, eq_iff b.kind k, eq_iff b.kind kind, eq_iff k kind)

  above : (n m : ℕ) → leb n m ≡ false → m < n
  above n m h = ground (arith, h)

  others :
      (k : String) (n : ℕ) (s : Backups)
      → (k == kind) ≡ false
      → all (λ b. not (b.kind == kind)) (oldest_backups project k n s.rows) ≡ true
  others k n s other = all_other k (oldest_backups project k n s.rows) other (
      all-limit_to (λ b. b.kind == k) n (sort_by older (select (is_of project k) s.rows))
        (all-sort_by (λ b. b.kind == k) (select (is_of project k) s.rows)
          (of_kind-select project k s.rows)))

  oldest_deleted :
      (k : String) (max : ℕ) (s : Backups)
      → Held s
      → 1 ≤ max
      → leb (count_backups project k s.rows) max ≡ false
      → Held (
          delete_all fails
            (oldest_backups project k (count_backups project k s.rows - max) s.rows)
            s)
  oldest_deleted k max s (own, c) one more =
      let excess = count_backups project k s.rows - max in
      let fits = oldest-Fits k excess s own in
      (
        delete_all-own _ s fits,
        elim (Bool-cases (k == kind)) [
          | inl own_kind ↦
              let same_count =
                ap (λ j. count_backups project j s.rows) ((eq_iff k kind).0 own_kind) in
              omega (
                arith,
                one,
                above (count_backups project k s.rows) max more,
                same_count,
                delete_all-few _ s fits,
                length-limit_to excess (sort_by older (select (is_of project k) s.rows)),
              )
          | inr other ↦ omega (arith, c, delete_all-apart _ s fits (others k excess s other))
        ],
      )

  trim_excess-Held :
      (k : String) (max : ℕ) (s : Backups)
      → Held s
      → 1 ≤ max
      → Held (trim_excess fails project k max (count_backups project k s.rows) s).1
  trim_excess-Held k max s h one = elim (Bool-cases (leb (count_backups project k s.rows) max)) [
    | inl few_enough ↦ simp few_enough h
    | inr many ↦ elim (Bool-cases (fails.oldest k s)) [
      | inl refused ↦ simp (many, refused) h
      | inr found ↦ simp (many, found) (oldest_deleted k max s h one many)
    ]
  ]

  not_zero : (n : ℕ) → eqb n 0 ≡ false → 1 ≤ n
  not_zero n h = ground (arith, h)

  enforce_max_count-Held :
      (k : String) (max : ℕ) (s : Backups)
      → Held s
      → Held (enforce_max_count fails project k max s).1
  unfolding enforce_max_count
  enforce_max_count-Held k max s h = elim (Bool-cases (eqb max 0)) [
    | inl unlimited ↦ simp unlimited h
    | inr limited ↦ elim (Bool-cases (fails.count k s)) [
      | inl refused ↦ simp (limited, refused) h
      | inr counted ↦ simp (limited, counted) (trim_excess-Held k max s h (not_zero max limited))
    ]
  ]

  enforce_age-Held :
      (config : BackupConfig) (now : ℕ) (s : Backups)
      → Held s
      → Held (enforce_age fails config project now s).1
  enforce_age-Held config now s h = elim (Bool-cases (eqb config.max_age_days 0)) [
    | inl unlimited ↦ simp unlimited h
    | inr limited ↦ elim (Bool-cases (fails.expired s)) [
      | inl refused ↦ simp (limited, refused) h
      | inr found ↦ simp (limited, found) (delete_expired-Held _ s (chosen-Fits _ s h.0) h.1)
    ]
  ]

  then_enforce-Held :
      (step : Backups → Outcome RetentionError (Unit {0}) × Backups)
      (x : Outcome RetentionError (Unit {0}) × Backups)
      → ((s : Backups) → Held s → Held (step s).1)
      → Held x.1
      → Held (then_enforce fails step x).1
  then_enforce-Held step (ok a, s) keeps h = keeps s h
  then_enforce-Held step (err e, s) keeps h = h

  -- Whatever limits are set and whatever fails, `EnforceRetention` keeps a backup of each type of which
  -- the project has one, if no two rows share their identifier.
  pub enforce_retention-Held :
      (config : BackupConfig) (now : ℕ) (s : Backups)
      → have_own_ids s.rows ≡ true
      → 1 ≤ count_in s
      → Held (enforce_retention fails config project now s).1
  unfolding enforce_retention
  enforce_retention-Held config now s own c =
      then_enforce-Held (enforce_age fails config project now) _ (enforce_age-Held config now) (
        then_enforce-Held (enforce_max_count fails project "snapshot" config.max_snapshots) _
          (enforce_max_count-Held "snapshot" config.max_snapshots)
          (enforce_max_count-Held "manual" config.max_manual_backups s (own, c)))
