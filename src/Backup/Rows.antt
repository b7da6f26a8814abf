-- ===== src/Backup/Rows.antt =====
-- Rows and their types under deletion, sorting and limits.
use fleetdeck.Prelude.{
  ℕ, zero, suc, ◌≤◌, ◌≡◌, refl, sym, ap, ◌∙◌, inl, inr, Bool, true, false, not, ◌&&◌, ◌||◌, List,
  [], ◌∷◌, String, arith, ◌==◌, eq_iff, eq_refl, Bool-cases, length, all, insert_sorted, sort_by,
}
use fleetdeck.Backup.{BackupRecord, is_of, count_backups, select, older, limit_to, delete_row}

-- The identifier is the table's primary key.
abbrev pub lacks : String → List BackupRecord → Bool
lacks id bs = all (λ b. not (b.id == id)) bs

unfoldable pub have_own_ids : List BackupRecord → Bool
have_own_ids [] = true
have_own_ids (b ∷ bs) = lacks b.id bs && have_own_ids bs

delete_row-lacks :
    (id : String) (bs : List BackupRecord) → lacks id bs ≡ true → delete_row id bs ≡ bs
unfolding delete_row
delete_row-lacks id [] h = refl
delete_row-lacks id (b ∷ bs) h =
    let rest = delete_row-lacks id bs in
    elim (Bool-cases (b.id == id)) [
      | inl taken ↦ absurd (ground (arith, taken, h))
      | inr other ↦ rw other (ap (λ r. b ∷ r) (rest (ground (arith, h))))
    ]

lacks-delete_row :
    (other id : String) (bs : List BackupRecord)
    → lacks other bs ≡ true
    → lacks other (delete_row id bs) ≡ true
unfolding delete_row
lacks-delete_row other id [] h = refl
lacks-delete_row other id (b ∷ bs) h = ground (arith, lacks-delete_row other id bs, h)

pub have_own_ids-delete_row :
    (id : String) (bs : List BackupRecord)
    → have_own_ids bs ≡ true
    → have_own_ids (delete_row id bs) ≡ true
unfolding delete_row have_own_ids
have_own_ids-delete_row id [] h = refl
have_own_ids-delete_row id (b ∷ bs) h =
    ground (arith, have_own_ids-delete_row id bs, lacks-delete_row b.id id bs, h)

taken_lacks :
    (id : String) (b : BackupRecord) (bs : List BackupRecord)
    → (b.id == id) ≡ true
    → have_own_ids (b ∷ bs) ≡ true
    → lacks id bs ≡ true
unfolding have_own_ids
taken_lacks id b bs e h =
    let first : lacks b.id bs ≡ true = ground (arith, h) in
    ap (λ i. lacks i bs) (sym ((eq_iff b.id id).0 e)) ∙ first

-- A deletion takes away one row at most.
pub count-delete_row :
    (project kind id : String) (bs : List BackupRecord)
    → have_own_ids bs ≡ true
    → count_backups project kind bs ≤ suc (count_backups project kind (delete_row id bs))
unfolding delete_row have_own_ids count_backups
count-delete_row project kind id [] h = omega arith
count-delete_row project kind id (b ∷ bs) h =
    let rest = count-delete_row project kind id bs in
    elim (Bool-cases (b.id == id)) [
      | inl taken ↦ simp taken (
          ground (
            arith,
            ap (count_backups project kind) (delete_row-lacks id bs (taken_lacks id b bs taken h)),
          ))
      | inr other ↦ simp other (ground (arith, rest (ground (arith, h))))
    ]

-- The rows with the identifier of a backup are of its type.
abbrev pub consistent : BackupRecord → List BackupRecord → Bool
consistent b bs = all (λ r. not (r.id == b.id) || r.kind == b.kind) bs

consistent-delete_row :
    (b : BackupRecord) (id : String) (bs : List BackupRecord)
    → consistent b bs ≡ true
    → consistent b (delete_row id bs) ≡ true
unfolding delete_row
consistent-delete_row b id [] h = refl
consistent-delete_row b id (r ∷ bs) h = ground (arith, consistent-delete_row b id bs, h)

-- A deletion leaves the other types alone.
pub count-other :
    (project kind : String) (b : BackupRecord) (bs : List BackupRecord)
    → (b.kind == kind) ≡ false
    → consistent b bs ≡ true
    → count_backups project kind (delete_row b.id bs) ≡ count_backups project kind bs
unfolding delete_row count_backups
count-other project kind b [] other h = refl
count-other project kind b (r ∷ bs) other h = ground (
  arith,
  count-other project kind b bs other,
  other,
  h,
  eq_iff r.kind kind,
  eq_iff r.kind b.kind,
  eq_iff b.kind kind,
)

pub all-consistent-delete_row :
    (id : String) (cs bs : List BackupRecord)
    → all (λ b. consistent b bs) cs ≡ true
    → all (λ b. consistent b (delete_row id bs)) cs ≡ true
all-consistent-delete_row id [] bs h = refl
all-consistent-delete_row id (c ∷ cs) bs h =
    ground (arith, all-consistent-delete_row id cs bs, consistent-delete_row c id bs, h)

lacks-consistent :
    (b : BackupRecord) (bs : List BackupRecord) → lacks b.id bs ≡ true → consistent b bs ≡ true
lacks-consistent b [] h = refl
lacks-consistent b (r ∷ bs) h = ground (arith, lacks-consistent b bs, h)

all-consistent-more :
    (b : BackupRecord) (cs bs : List BackupRecord)
    → lacks b.id cs ≡ true
    → all (λ c. consistent c bs) cs ≡ true
    → all (λ c. consistent c (b ∷ bs)) cs ≡ true
all-consistent-more b [] bs l h = refl
all-consistent-more b (c ∷ cs) bs l h =
    ground (arith, all-consistent-more b cs bs, l, h, eq_iff b.id c.id, eq_iff c.id b.id)

pub all-consistent :
    (bs : List BackupRecord) → have_own_ids bs ≡ true → all (λ c. consistent c bs) bs ≡ true
unfolding have_own_ids
all-consistent [] h = refl
all-consistent (b ∷ bs) h = ground (
  arith,
  all-consistent bs,
  all-consistent-more b bs bs,
  lacks-consistent b bs,
  eq_refl b.kind,
  h,
)

pub all-select :
    (p q : BackupRecord → Bool) (bs : List BackupRecord)
    → all p bs ≡ true
    → all p (select q bs) ≡ true
all-select p q [] h = refl
all-select p q (b ∷ bs) h = ground (arith, all-select p q bs, h)

all-insert_sorted :
    (p : BackupRecord → Bool) (b : BackupRecord) (bs : List BackupRecord)
    → all p (insert_sorted older b bs) ≡ (p b && all p bs)
all-insert_sorted p b [] = refl
all-insert_sorted p b (c ∷ bs) = ground (arith, all-insert_sorted p b bs)

pub all-sort_by :
    (p : BackupRecord → Bool) (bs : List BackupRecord)
    → all p bs ≡ true
    → all p (sort_by older bs) ≡ true
all-sort_by p [] h = refl
all-sort_by p (b ∷ bs) h =
    ground (arith, all-sort_by p bs, all-insert_sorted p b (sort_by older bs), h)

pub all-limit_to :
    (p : BackupRecord → Bool) (n : ℕ) (bs : List BackupRecord)
    → all p bs ≡ true
    → all p (limit_to n bs) ≡ true
all-limit_to p zero bs h = refl
all-limit_to p (suc n) [] h = refl
all-limit_to p (suc n) (b ∷ bs) h = ground (arith, all-limit_to p n bs, h)

pub length-limit_to : (n : ℕ) (bs : List BackupRecord) → length (limit_to n bs) ≤ n
length-limit_to zero bs = omega arith
length-limit_to (suc n) [] = omega arith
length-limit_to (suc n) (b ∷ bs) = omega (arith, length-limit_to n bs)

pub of_kind-select :
    (project kind : String) (bs : List BackupRecord)
    → all (λ b. b.kind == kind) (select (is_of project kind) bs) ≡ true
of_kind-select project kind [] = refl
of_kind-select project kind (b ∷ bs) = ground (arith, of_kind-select project kind bs)
