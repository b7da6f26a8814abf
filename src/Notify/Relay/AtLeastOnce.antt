-- ===== src/Notify/Relay/AtLeastOnce.antt =====
-- The cursor in the state file does not pass a batch that some provider has not accepted.
use fleetdeck.Prelude.{
  ℕ, ◌≡◌, refl, ◌∙◌, ◌⊎◌, inl, inr, Bool, true, false, ◌&&◌, ◌||◌, none, some, List, [], ◌∷◌,
  String, arith, ◌==◌, eq_iff, eq_refl, if◌then◌else◌, Bool-cases, any, rev_onto, Outcome, ok, err,
}
use fleetdeck.Prelude.Dict.{lookup-insert}
use fleetdeck.Notify.Relay.{
  PendingBatch, RelayState, Saving, saved, lost, unsynced, World, Progress, going, halted,
  DeliverError, delivery_failed, is_marked, mark, holding, sent_to, past, save_state, after_save,
  accept, keep_failed, offer, offer_all, settle_saved, settle, deliver,
}

-- The provider has accepted the batch.
abbrev pub accepted : String → World → String → Bool
accepted cursor w name = any (λ e. e.0 == cursor && e.1 == name) w.log

-- Only providers that accepted the batch are marked.
abbrev pub IsHonest : PendingBatch → World → Type 0
IsHonest b w = (name : String) → is_marked b name ≡ true → accepted b.cursor w name ≡ true

-- What the loop keeps: the batch stays the same but for its marks, which are honest, and the state
-- file stays behind it.
pub record Keeps (st : RelayState) (cursor : String) (b : PendingBatch) (w : World) : Type 0 where
  pub batch : b.cursor ≡ cursor
  pub honest : IsHonest b w
  pub behind : w.disk.cursor ≡ st.cursor

abbrev pub is_in : String → List String → Bool
is_in name names = any (λ n. n == name) names

abbrev pub AllMarked : List String → PendingBatch → Type 0
AllMarked names b = (name : String) → is_in name names ≡ true → is_marked b name ≡ true

abbrev pub Good : RelayState → String → List String → Progress → Type 0
Good st cursor seen (halted b w) = Keeps st cursor b w
Good st cursor seen (going failed b w) = Keeps st cursor b w × (failed ≡ false → AllMarked seen b)

is_marked-mark :
    (name other : String) (b : PendingBatch)
    → is_marked (mark name b) other ≡ (if name == other then true else is_marked b other)
is_marked-mark name other b = ground (arith, lookup-insert name other true b.delivered)

saving_cases : (s : Saving) → (s ≡ saved) ⊎ (s ≡ lost) ⊎ (s ≡ unsynced)
saving_cases saved = inl refl
saving_cases lost = inr (inl refl)
saving_cases unsynced = inr (inr refl)

module _ (sends : ℕ → Bool) (saves : ℕ → Saving) where
  save_state-log : (st : RelayState) (w : World) → (save_state sends saves st w).1.log ≡ w.log
  unfolding save_state
  save_state-log st w = ground arith

  save_state-behind :
      (st : RelayState) (w : World) (cursor : String)
      → w.disk.cursor ≡ cursor
      → st.cursor ≡ cursor
      → (save_state sends saves st w).1.disk.cursor ≡ cursor
  unfolding save_state
  save_state-behind st w cursor h e = ground (arith, h, e)

  after_save-Good :
      (st : RelayState) (cursor name : String) (seen : List String) (failed : Bool)
      (b : PendingBatch) (r : Bool × World)
      → Keeps st cursor b r.1
      → (failed ≡ false → AllMarked seen b)
      → Good st cursor seen (keep_failed sends saves failed (after_save sends saves b r))
  after_save-Good st cursor name seen failed b (true, w) k m = (k, m)
  after_save-Good st cursor name seen failed b (false, w) k m = k

  mark-IsHonest :
      (name : String) (b : PendingBatch) (w v : World)
      → IsHonest b w
      → v.log ≡ ((b.cursor, name) ∷ w.log)
      → IsHonest (mark name b) v
  mark-IsHonest name b w v h e other m =
      ground
        (arith, e, m, is_marked-mark name other b, h other, eq_iff name other, eq_refl b.cursor)

  mark-AllMarked :
      (name : String) (seen : List String) (b : PendingBatch)
      → AllMarked seen b
      → AllMarked (name ∷ seen) (mark name b)
  mark-AllMarked name seen b h other m = ground (arith, is_marked-mark name other b, h other, m)

  accept-Good :
      (st : RelayState) (cursor name : String) (seen : List String) (failed : Bool)
      (b : PendingBatch) (w : World)
      → Keeps st cursor b w
      → (failed ≡ false → AllMarked seen b)
      → Good st cursor (name ∷ seen) (accept sends saves st name failed b w)
  accept-Good st cursor name seen failed b w k m =
      let marked = holding st (mark name b) in
      let sent = sent_to name b w in
      after_save-Good st cursor name (name ∷ seen) failed (mark name b)
        (save_state sends saves marked sent)
        (record {
          batch = k.batch;
          honest =
              mark-IsHonest name b w (save_state sends saves marked sent).1 k.honest
                (save_state-log marked sent);
          behind = save_state-behind marked sent st.cursor k.behind refl;
        })
        (λ f. mark-AllMarked name seen b (m f))

  offer-Good :
      (st : RelayState) (cursor name : String) (seen : List String) (p : Progress)
      → Good st cursor seen p
      → Good st cursor (name ∷ seen) (offer sends saves st name p)
  unfolding offer
  offer-Good st cursor name seen (halted b w) k = k
  offer-Good st cursor name seen (going failed b w) (k, m) = elim (Bool-cases (is_marked b name)) [
    | inl marked ↦
        rw marked (k, λ f other i. ground (arith, m f other, i, marked, eq_iff name other))
    | inr fresh ↦ elim (Bool-cases (sends w.calls)) [
      | inl sent ↦ rw fresh (rw sent (accept-Good st cursor name seen failed b w k m))
      | inr fails ↦
          rw fresh
            (rw fails (record { batch = k.batch; honest = k.honest; behind = k.behind }, λ f. cc))
    ]
  ]

  offer_all-Good :
      (st : RelayState) (cursor : String) (seen names : List String) (p : Progress)
      → Good st cursor seen p
      → Good st cursor (rev_onto names seen) (offer_all sends saves st names p)
  unfolding offer_all
  offer_all-Good st cursor seen [] p h = h
  offer_all-Good st cursor seen (n ∷ ns) p h =
      offer_all-Good st cursor (n ∷ seen) ns (offer sends saves st n p)
        (offer-Good st cursor n seen p h)

  is_in-rev_onto :
      (name : String) (xs ys : List String)
      → is_in name (rev_onto xs ys) ≡ (is_in name xs || is_in name ys)
  is_in-rev_onto name [] ys = refl
  is_in-rev_onto name (x ∷ xs) ys = is_in-rev_onto name xs (x ∷ ys) ∙ ground arith

  abbrev pub AllAccepted : String → List String → World → Type 0
  AllAccepted cursor providers w =
      (name : String) → is_in name providers ≡ true → accepted cursor w name ≡ true

  -- What `deliver` leaves for a batch that was pending.
  abbrev pub Delivered :
      List String
      → RelayState
      → String
      → Outcome DeliverError (Unit {0}) × RelayState × World
      → Type 0
  Delivered providers st cursor f =
      ((f.2.disk.cursor ≡ st.cursor)
        ⊎ ((f.2.disk.cursor ≡ cursor) × AllAccepted cursor providers f.2))
      × (f.0 ≡ ok tt
          → (f.2.disk ≡ f.1)
            × (f.1.cursor ≡ cursor)
            × (f.1.pending ≡ none)
            × AllAccepted cursor providers f.2)
      × (f.0 ≡ err delivery_failed
          → (f.1.cursor ≡ st.cursor)
            × ((b : PendingBatch) × (f.1.pending ≡ some b) × (b.cursor ≡ cursor) × IsHonest b f.2))

  saved-Delivered :
      (providers : List String) (st : RelayState) (cursor : String) (b : PendingBatch) (w : World)
      → Keeps st cursor b w
      → AllAccepted cursor providers w
      → Delivered providers st cursor
          (settle_saved sends saves (past st b) (save_state sends saves (past st b) w))
  unfolding save_state
  saved-Delivered providers st cursor b w k a = elim (saving_cases (saves w.calls)) [
    | inl e ↦ rw e (inr (k.batch, a), λ o. (refl, k.batch, refl, a), λ o. cc)
    | inr (inl e) ↦ rw e (inl k.behind, λ o. cc, λ o. cc)
    | inr (inr e) ↦ rw e (inr (k.batch, a), λ o. cc, λ o. cc)
  ]

  settle-Delivered :
      (providers : List String) (st : RelayState) (cursor : String) (p : Progress)
      → Good st cursor (rev_onto providers []) p
      → Delivered providers st cursor (settle sends saves st p)
  settle-Delivered providers st cursor (halted b w) k = (inl k.behind, λ e. cc, λ e. cc)
  settle-Delivered providers st cursor (going true b w) (k, m) =
      (inl k.behind, λ e. cc, λ e. (refl, (b, refl, k.batch, k.honest)))
  settle-Delivered providers st cursor (going false b w) (k, m) =
      let all_accepted : AllAccepted cursor providers w = λ name i.
        ground (arith, k.batch, i, is_in-rev_onto name providers [], m refl name, k.honest name) in
      saved-Delivered providers st cursor b w k all_accepted

  -- Where a batch is pending whose marks are honest, and the state file is at the cursor before it,
  -- `deliver` moves the file's cursor past the batch only if every provider has accepted it, whatever
  -- sends and saves fail. Where it answers without an error, the file holds the new cursor, nothing is
  -- pending, and every provider has accepted the batch; where a send failed, the batch stays pending,
  -- and only providers that accepted it are marked.
  pub deliver-Delivered :
      (providers : List String) (st : RelayState) (b : PendingBatch) (w : World)
      → st.pending ≡ some b
      → IsHonest b w
      → w.disk.cursor ≡ st.cursor
      → Delivered providers st b.cursor (deliver sends saves providers st w)
  unfolding deliver
  deliver-Delivered providers st b w pending honest behind = simp pending (
      settle-Delivered providers st b.cursor (offer_all sends saves st providers (going false b w))
        (offer_all-Good st b.cursor [] providers (going false b w)
          (record { batch = refl; honest = honest; behind = behind }, λ f name i. cc)))
