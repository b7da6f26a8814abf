-- ===== src/Audit/RoundTrip.antt =====
-- What was logged is read back, and what a rotation loses.
use fleetdeck.Prelude.{
  ℕ, zero, suc, ◌+◌, ◌<◌, ◌≡◌, refl, sym, ap, ◌∙◌, Bool, true, false, not, ◌&&◌, Option, none, some,
  List, [], ◌∷◌, ◌++◌, map, String, arith, ◌==◌, byte_length, if◌then◌else◌, All, rev_onto, ok,
}
use fleetdeck.Audit.{
  Renames, shift, AuditEntry, File, AuditLog, Answers, max_file_size, file_size, rename, reopen,
  rotate, lines_in, append_line, rotate_if_full, write_encoded, log_entry, read_back, read_file,
  read_recent,
}

abbrev pub take : {A : Type 0} → ℕ → List A → List A
take zero xs = []
take (suc n) [] = []
take (suc n) (x ∷ xs) = x ∷ take n xs

abbrev pub all_went_well : Answers
all_went_well = record {
  written = true;
  stat_ok = true;
  renames = record {
    to_first = true;
    to_second = true;
    to_third = true;
    to_fourth = true;
    to_fifth = true;
  };
  reopened = true;
}

-- The lines of all files, the oldest first.
abbrev pub all_lines : AuditLog → File
all_lines s =
    lines_in s.fifth
    ++ (lines_in s.fourth
        ++ (lines_in s.third ++ (lines_in s.second ++ (lines_in s.first ++ lines_in s.live))))

-- A renaming that succeeds, and whose source exists, takes the place of what was there.
abbrev pub is_taken : Bool → Option File → Bool
is_taken renamed none = false
is_taken renamed (some f) = renamed

-- What is left of a file: nothing if its place is taken and it was not moved up before.
abbrev pub left_of : Bool → Bool → Option File → File
left_of taken moved f = if taken && not moved then [] else lines_in f

-- The lines of all files, the oldest first, less those of the files that are overwritten.
abbrev pub spared : Renames → AuditLog → File
spared r s =
    let fifth = is_taken r.to_fifth s.fourth in
    let fourth = is_taken r.to_fourth s.third in
    let third = is_taken r.to_third s.second in
    let second = is_taken r.to_second s.first in
    let first = is_taken r.to_first s.live in
    left_of fifth false s.fifth
    ++ (left_of fourth fifth s.fourth
        ++ (left_of third fourth s.third
            ++ (left_of second third s.second
                ++ (left_of first second s.first ++ lines_in s.live))))

append_none : (f : File) → f ++ [] ≡ f
append_none [] = refl
append_none (x ∷ f) = ap (λ g. x ∷ g) (append_none f)

-- One renaming, where `below` says whether the place of its source is taken afterwards.
renamed_lines :
    (renamed below : Bool) (src dst : Option File) (rest : File)
    → lines_in (rename renamed src dst).1
        ++ (left_of below false (rename renamed src dst).0 ++ rest)
      ≡ left_of (is_taken renamed src) false dst
        ++ (left_of below (is_taken renamed src) src ++ rest)
renamed_lines true true none dst rest = refl
renamed_lines true false none dst rest = refl
renamed_lines false true none dst rest = refl
renamed_lines false false none dst rest = refl
renamed_lines true true (some f) dst rest = refl
renamed_lines true false (some f) dst rest = refl
renamed_lines false true (some f) dst rest = refl
renamed_lines false false (some f) dst rest = refl

last_renamed :
    (renamed : Bool) (src dst : Option File)
    → lines_in (rename renamed src dst).1 ++ lines_in (rename renamed src dst).0
      ≡ left_of (is_taken renamed src) false dst ++ lines_in src
last_renamed true none dst = refl
last_renamed false none dst = refl
last_renamed true (some f) dst = append_none f
last_renamed false (some f) dst = refl

next_renamed :
    (renamed below : Bool) (src dst : Option File) (lower rest : File)
    → lower ≡ left_of below false (rename renamed src dst).0 ++ rest
    → lines_in (rename renamed src dst).1 ++ lower
      ≡ left_of (is_taken renamed src) false dst
        ++ (left_of below (is_taken renamed src) src ++ rest)
next_renamed renamed below src dst lower rest e =
    ap (λ fs. lines_in (rename renamed src dst).1 ++ fs) e
    ∙ renamed_lines renamed below src dst rest

shift-spared : (r : Renames) (s : AuditLog) → all_lines (shift r s) ≡ spared r s
shift-spared r s =
    let fourth = (rename r.to_fifth s.fourth s.fifth).0 in
    let third = (rename r.to_fourth s.third fourth).0 in
    let second = (rename r.to_third s.second third).0 in
    let first = (rename r.to_second s.first second).0 in
    next_renamed r.to_fifth (is_taken r.to_fourth s.third) s.fourth s.fifth _ _ (
      next_renamed r.to_fourth (is_taken r.to_third s.second) s.third fourth _ _ (
        next_renamed r.to_third (is_taken r.to_second s.first) s.second third _ _ (
          next_renamed r.to_second (is_taken r.to_first s.live) s.first second _ _
            (last_renamed r.to_first s.live first))))

opened_lines :
    (f : Option File) → lines_in (elim f [ none ↦ some [] | some g ↦ some g ]) ≡ lines_in f
opened_lines none = refl
opened_lines (some g) = refl

reopen-all_lines : (b : Bool) (s : AuditLog) → all_lines (reopen b s) ≡ all_lines s
reopen-all_lines true s =
    ap
      (λ live.
        lines_in s.fifth
        ++ (lines_in s.fourth
            ++ (lines_in s.third ++ (lines_in s.second ++ (lines_in s.first ++ live)))))
      (opened_lines s.live)
reopen-all_lines false s = refl

-- After a rotation the files hold the lines that they held before, in the same order, less those of
-- each rotated file that was replaced: the file below it was renamed to it, and it had not itself been
-- renamed before. This is so whichever renamings fail, and whether or not the live file can be opened
-- again.
pub rotate-all_lines : (a : Answers) (s : AuditLog) → all_lines (rotate a s) ≡ spared a.renames s
unfolding rotate
rotate-all_lines a s = reopen-all_lines a.reopened (shift a.renames s) ∙ shift-spared a.renames s

module _ (encode : AuditEntry → Option String) (decode : String → Option AuditEntry)
    (trim : String → String) where
  abbrev pub text_of : AuditEntry → String
  text_of e = elim (encode e) [ none ↦ "" | some line ↦ line ]

  -- The entry can be encoded, and decoded from its line.
  pub record IsCoded (e : AuditEntry) : Type 0 where
    pub encoded : encode e ≡ some (text_of e)
    pub decoded : decode (trim (text_of e)) ≡ some e
    pub filled : (trim (text_of e) == "") ≡ false

  unfoldable pub log_all : List AuditEntry → AuditLog → AuditLog
  log_all [] s = s
  log_all (e ∷ es) s = log_all es (log_entry encode decode trim e all_went_well s)

  append_more : (xs : File) (y : String) (ys : File) → (xs ++ (y ∷ [])) ++ ys ≡ xs ++ (y ∷ ys)
  append_more [] y ys = refl
  append_more (x ∷ xs) y ys = ap (λ zs. x ∷ zs) (append_more xs y ys)

  read_back-take :
      (limit : ℕ) (es : List AuditEntry)
      → All IsCoded es
      → read_back encode decode trim limit (map text_of es) ≡ take limit es
  unfolding read_back
  read_back-take zero es h = refl
  read_back-take (suc n) [] h = refl
  read_back-take (suc n) (e ∷ es) (h, hs) =
      rw (h.filled, h.decoded) (ap (λ xs. e ∷ xs) (read_back-take n es hs))

  file_size-append : (xs ys : File) → file_size (xs ++ ys) ≡ file_size xs + file_size ys
  unfolding file_size
  file_size-append [] ys = omega arith
  file_size-append (x ∷ xs) ys = omega (arith, file_size-append xs ys)

  rotate_small :
      (s : AuditLog)
      → file_size (lines_in s.live) < max_file_size
      → rotate_if_full all_went_well s ≡ s
  rotate_small s h = ground (arith, h)

  -- One entry is appended while the file stays below the limit.
  log_entry-append :
      (e : AuditEntry) (s : AuditLog) (lines : File)
      → IsCoded e
      → s.opened ≡ true
      → s.live ≡ some lines
      → file_size lines + (byte_length (text_of e) + 1) < max_file_size
      → log_entry encode decode trim e all_went_well s
        ≡ record s { live = some (lines ++ (text_of e ∷ [])) }
  unfolding log_entry file_size
  log_entry-append e s lines h o l small =
      let appended = append_line true (text_of e) s in
      let size : file_size (lines_in s.live ++ (text_of e ∷ [])) < max_file_size =
        rw (ap lines_in l) (omega (arith, file_size-append lines (text_of e ∷ []), small)) in
      ap (λ b. if b then write_encoded encode decode trim (encode e) all_went_well s else s) o
      ∙ ap (λ x. write_encoded encode decode trim x all_went_well s) h.encoded
      ∙ rotate_small appended size
      ∙ ap (λ x. record s { live = some (lines_in x ++ (text_of e ∷ [])) }) l

  log_all-append :
      (es : List AuditEntry) (s : AuditLog) (lines : File)
      → All IsCoded es
      → s.opened ≡ true
      → s.live ≡ some lines
      → file_size lines + file_size (map text_of es) < max_file_size
      → (log_all es s).live ≡ some (lines ++ map text_of es)
  unfolding log_all file_size
  log_all-append [] s lines h o l small = l ∙ ap some (sym (append_none lines))
  log_all-append (e ∷ es) s lines (h, hs) o l small =
      let longer = lines ++ (text_of e ∷ []) in
      ap (λ x. (log_all es x).live) (log_entry-append e s lines h o l (omega (arith, small)))
      ∙ log_all-append es (record s { live = some longer }) longer hs o refl
          (omega (arith, small, file_size-append lines (text_of e ∷ [])))
      ∙ ap some (append_more lines (text_of e) (map text_of es))

  rev_onto-map :
      (es zs : List AuditEntry)
      → rev_onto (map text_of es) (map text_of zs) ≡ map text_of (rev_onto es zs)
  rev_onto-map [] zs = refl
  rev_onto-map (e ∷ es) zs = rev_onto-map es (e ∷ zs)

  All-rev_onto :
      (es zs : List AuditEntry) → All IsCoded es → All IsCoded zs → All IsCoded (rev_onto es zs)
  All-rev_onto [] zs h k = k
  All-rev_onto (e ∷ es) zs (h, hs) k = All-rev_onto es (e ∷ zs) hs (h, k)

  -- What was logged into an empty open file, every write succeeding and the file staying below the
  -- size of a rotation, is read back entry by entry: the latest first, up to the limit.
  pub read_recent-log_all :
      (limit : ℕ) (es : List AuditEntry) (s : AuditLog)
      → All IsCoded es
      → s.opened ≡ true
      → s.live ≡ some []
      → file_size (map text_of es) < max_file_size
      → read_recent encode decode trim true limit (log_all es s) ≡ ok (take limit (rev_onto es []))
  unfolding read_recent file_size
  read_recent-log_all limit es s h o l small =
      ap (read_file encode decode trim true limit)
        (log_all-append es s [] h o l (omega (arith, small)))
      ∙ ap (λ lines. ok (read_back encode decode trim limit lines)) (rev_onto-map es [])
      ∙ ap ok (read_back-take limit (rev_onto es []) (All-rev_onto es [] h tt))
