-- ===== src/SecurityWatch/Inventory/Complete.antt =====
-- What a checked inventory shows: incomplete checks stay unknown.
use fleetdeck.Prelude.{
  ℕ, ◌≡◌, refl, sym, ap, ◌∙◌, ◌≢◌, inl, inr, Bool, true, false, not, ◌||◌, Option, none, some, List,
  [], ◌∷◌, map, String, arith, ◌==◌, eq_iff, eq_refl, ltb, eqb, if◌then◌else◌, Bool-cases, length,
  all, any, All, is_nil, sort_by, length-sort_by, any-sort_by,
}
use fleetdeck.Prelude.Texts.{text_leb}
use fleetdeck.SecurityWatch.Types.{Check, check, Finding, Image, Container, Report}
use fleetdeck.Regex.{match_string}
use fleetdeck.SecurityWatch.Tools.{Inspected, Scan, Tools, container_before, container_id_pattern}
use fleetdeck.SecurityWatch.Scans.{
  after_scan, finish_scan, is_scan_of, scan, severe_findings, unknown_image,
}
use fleetdeck.SecurityWatch.Inventory.{
  after_ids, after_inspect, after_items, counted_inventory, images_of, read_items, run, scan_images,
}

module _ (tools : Tools) where
  abbrev pub is_listed : String → List Container → Bool
  is_listed id cs = any (λ c. c.image_id == id) cs

  any-images_of :
      (id : String) (cs : List Container)
      → any (λ i. i == id) (images_of tools cs) ≡ is_listed id cs
  unfolding images_of
  any-images_of id [] = refl
  any-images_of id (c ∷ cs) =
      ground (arith, any-images_of id cs, eq_iff c.image_id id, any-images_of c.image_id cs)

  finish_scan_id :
      (id : String) (s : Scan) (found : List Finding × Bool)
      → (finish_scan tools id s found).id ≡ id
  finish_scan_id id s (found, false) = refl
  finish_scan_id id s (found, true) = refl

  if_id :
      (b : Bool) (x y : Image) (id : String) → x.id ≡ id → y.id ≡ id → (if b then x else y).id ≡ id
  if_id true x y id e f = e
  if_id false x y id e f = f

  after_scan_id : (id : String) (r : Option (Option Scan)) → (after_scan tools id r).id ≡ id
  after_scan_id id none = refl
  after_scan_id id (some none) = refl
  after_scan_id id (some (some s)) =
      let found = severe_findings tools [] s.vulnerabilities in
      if_id (is_scan_of tools id s) (finish_scan tools id s found)
        (unknown_image tools id "invalid_or_mismatched_scan" []) id (finish_scan_id id s found) refl

  scan_id : (id : String) → (scan tools id).id ≡ id
  unfolding scan
  scan_id id = after_scan_id id (tools.trivy id)

  any-map-scan :
      (id : String) (ids : List String)
      → any (λ (i : Image). i.id == id) (map (scan tools) ids) ≡ any (λ i. i == id) ids
  any-map-scan id [] = refl
  any-map-scan id (x ∷ xs) = rw (scan_id x) (ap (λ b. x == id || b) (any-map-scan id xs))

  abbrev pub is_looked_at : List Image → Container → Bool
  is_looked_at images c = any (λ (i : Image). i.id == c.image_id) images

  -- The report has `n` containers, says so, and has looked at the image of each of them.
  pub record IsComplete (n : ℕ) (r : Report) : Type 0 where
    pub listed : length r.containers ≡ n
    pub counted : r.inventory.count ≡ n
    pub scanned : All (λ c. is_looked_at r.images c ≡ true) r.containers

  all_looked_at :
      (images : List Image) (cs : List Container)
      → ((id : String) → is_listed id cs ≡ true → any (λ (i : Image). i.id == id) images ≡ true)
      → All (λ c. is_looked_at images c ≡ true) cs
  all_looked_at images [] h = tt
  all_looked_at images (c ∷ cs) h = (
    h c.image_id (ground (arith, eq_refl c.image_id)),
    all_looked_at images cs (λ id l. h id (ground (arith, l))),
  )

  sorted_all :
      (c : String) (cs : List Container)
      → is_listed c (sort_by container_before cs) ≡ true
      → any (λ (i : Image). i.id == c) (map (scan tools) (sort_by text_leb (images_of tools cs)))
        ≡ true
  sorted_all c cs listed =
      any-map-scan c (sort_by text_leb (images_of tools cs))
      ∙ any-sort_by text_leb (λ i. i == c) (images_of tools cs)
      ∙ any-images_of c cs
      ∙ sym (any-sort_by container_before (λ k. k.image_id == c) cs)
      ∙ listed

  unknown-checked : ◌≢◌ {A = String} "unknown" "checked"
  unfolding ◌==◌
  unknown-checked e = let apart : true ≡ false = ap (λ (s : String). s == "unknown") e in cc

  scan_images-IsComplete :
      (n : ℕ) (r : Report)
      → (r.inventory.status ≡ "checked" → (length r.containers ≡ n) × (r.inventory.count ≡ n))
      → (scan_images tools r).inventory.status ≡ "checked"
      → IsComplete n (scan_images tools r)
  scan_images-IsComplete n r counts =
      elim (Bool-cases (ltb 100 (length (sort_by text_leb (images_of tools r.containers))))) [
        | inl many ↦ simp many (λ checked. absurd (unknown-checked checked))
        | inr few ↦ simp few (λ checked. record {
          listed = length-sort_by container_before r.containers ∙ (counts checked).0;
          counted = (counts checked).1;
          scanned =
              all_looked_at _ (sort_by container_before r.containers)
                (λ c listed. sorted_all c r.containers listed);
        })
      ]

  inventory_of : ℕ → List Container × Bool → Check
  inventory_of n (cs, false) = check "unknown" "invalid_container_inspection"
  inventory_of n (cs, true) =
      if eqb (length cs) n
      then counted_inventory tools n
      else check "unknown" "incomplete_container_inventory"

  counted_all :
      (n : ℕ) (cs : List Container)
      → (inventory_of n (cs, true)).status ≡ "checked"
      → (length cs ≡ n) × ((inventory_of n (cs, true)).count ≡ n)
  unfolding inventory_of
  counted_all n cs = elim (Bool-cases (eqb (length cs) n)) [
    | inl same_count ↦ simp same_count (λ checked. (ground (arith, same_count), refl))
    | inr fewer ↦ simp fewer (λ checked. absurd (unknown-checked checked))
  ]

  after_items-IsComplete :
      (n : ℕ) (found : List Container × Bool) (r : Report)
      → (after_items tools n found r).inventory.status ≡ "checked"
      → IsComplete n (after_items tools n found r)
  unfolding inventory_of
  after_items-IsComplete n (cs, false) r checked = absurd (unknown-checked checked)
  after_items-IsComplete n (cs, true) r checked =
      scan_images-IsComplete n (record r { inventory = inventory_of n (cs, true); containers = cs })
        (counted_all n cs) checked

  after_inspect-IsComplete :
      (n : ℕ) (found : Option (List (Option Inspected))) (r : Report)
      → (after_inspect tools n found r).inventory.status ≡ "checked"
      → IsComplete n (after_inspect tools n found r)
  after_inspect-IsComplete n none r checked = absurd (unknown-checked checked)
  after_inspect-IsComplete n (some items) r checked =
      after_items-IsComplete n (read_items tools items) r checked

  empty_checked :
      (r : Report)
      → r.containers ≡ []
      → IsComplete 0 (record r { inventory = counted_inventory tools 0 })
  empty_checked r e = record {
    listed = ap length e;
    counted = refl;
    scanned =
        all_looked_at r.images r.containers
          (λ c listed. let apart : true ≡ false = sym listed ∙ ap (is_listed c) e in cc);
  }

  either-IsComplete :
      (n : ℕ) (b : Bool) (x y : Report)
      → (x.inventory.status ≡ "checked" → IsComplete n x)
      → (y.inventory.status ≡ "checked" → IsComplete n y)
      → (if b then x else y).inventory.status ≡ "checked"
      → IsComplete n (if b then x else y)
  either-IsComplete n true x y first second = first
  either-IsComplete n false x y first second = second

  abbrev none_left : Report → Report
  none_left r = record r { inventory = counted_inventory tools 0 }

  abbrev inspected : List String → Report → Report
  inspected ids r = after_inspect tools (length ids) (tools.inspect ids) r

  inspected-IsComplete :
      (ids : List String) (r : Report)
      → r.containers ≡ []
      → (if is_nil ids then none_left r else inspected ids r).inventory.status ≡ "checked"
      → IsComplete (length ids) (if is_nil ids then none_left r else inspected ids r)
  inspected-IsComplete [] r fresh checked = empty_checked r fresh
  inspected-IsComplete (id ∷ ids) r fresh checked =
      after_inspect-IsComplete (length (id ∷ ids)) (tools.inspect (id ∷ ids)) r checked

  after_ids-IsComplete :
      (found : Option (List String)) (r : Report)
      → r.containers ≡ []
      → (after_ids tools found r).inventory.status ≡ "checked"
      → (ids : List String) × (found ≡ some ids) × IsComplete (length ids) (after_ids tools found r)
  after_ids-IsComplete none r fresh checked = absurd (unknown-checked checked)
  after_ids-IsComplete (some ids) r fresh checked =
      let stop : String → Report = λ code. record r { inventory = check "unknown" code } in
      let stopped : (code : String)
          → ◌≡◌ {A = String} "unknown" "checked"
          → IsComplete (length ids) (stop code) =
        λ code c. absurd (unknown-checked c) in
      let listed = if is_nil ids then none_left r else inspected ids r in
      let named =
        if not (all (match_string container_id_pattern) ids)
        then stop "invalid_container_identity"
        else listed in
      (
        ids,
        refl,
        either-IsComplete (length ids) (ltb 200 (length ids)) (stop "container_limit_exceeded")
            named (stopped "container_limit_exceeded")
            (either-IsComplete (length ids) (not (all (match_string container_id_pattern) ids))
              (stop "invalid_container_identity") listed (stopped "invalid_container_identity")
              (inspected-IsComplete ids r fresh))
            checked,
      )

  -- An inventory that `Run` calls checked is whole: Docker named the containers, the report lists as
  -- many containers as Docker named and gives that number as their count, and for each container that
  -- it lists it has looked at the image, whatever the other tools answered.
  pub run-IsComplete :
      (release : Check)
      → (run tools release).inventory.status ≡ "checked"
      → (ids : List String) × (tools.list_ids ≡ some ids)
        × IsComplete (length ids) (run tools release)
  unfolding run
  run-IsComplete release checked = after_ids-IsComplete tools.list_ids _ refl checked
