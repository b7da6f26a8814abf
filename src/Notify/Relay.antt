-- ===== src/Notify/Relay.antt =====
-- internal/notify/relay.go: `saveState` and `deliver`. The state file is `disk`; what each save and
-- each send answers are functions of how many there were. A save can fail before the file is
-- renamed, or after it, when the directory is synchronized.
pub mod AtLeastOnce
use fleetdeck.Prelude.{
  ℕ, zero, suc, ◌+◌, ◌-◌, ◌*◌, ◌≤◌, ◌<◌, ◌≡◌, refl, sym, ap, ◌∙◌, ◌≢◌, ◌↔◌, ◌⊎◌, inl, inr, Bool,
  true, false, not, ◌&&◌, ◌||◌, Option, none, some, List, [], ◌∷◌, ◌++◌, map, String, arith, ◌==◌,
  eq_iff, eq_refl, byte_length, ltb, leb, eqb, if◌then◌else◌, Bool-cases, Option-cases, length, all,
  any, All, length-append, rev_onto, rev_onto-append, is_nil, Outcome, ok, err, ◌>>=◌, ◌>>◌, guard,
  Outcome-cases,
}
use fleetdeck.Prelude.Dict.{
  Dict, lookup, insert, delete, delete_if, lookup-insert, lookup-delete, length-insert,
  length-delete, length-delete_if, IsDistinct, drop_if, lookup-delete_if, insert-IsDistinct,
  delete-IsDistinct, delete_if-IsDistinct, length-insert_found,
}
use fleetdeck.Monitor.Types.{Alert}

pub record PendingBatch : Type 0 where
  pub cursor : String
  pub alert : Alert
  pub delivered : Dict Bool

pub record RelayState : Type 0 where
  pub since : String
  pub cursor : String
  pub pending : Option PendingBatch

pub data Saving : Type 0 where
  saved lost unsynced : Saving

-- The state file, and the batches that providers accepted: a batch's cursor with the provider.
pub record World : Type 0 where
  pub disk : RelayState
  pub log : List (String × String)
  pub calls : ℕ

-- Where the loop over the providers stands: it goes on, with whether a provider failed, or a save
-- has failed.
pub data Progress : Type 0 where
  going : Bool → PendingBatch → World → Progress
  halted : PendingBatch → World → Progress

pub data DeliverError : Type 0 where
  not_saved delivery_failed : DeliverError

abbrev pub is_marked : PendingBatch → String → Bool
is_marked b name = elim (lookup name b.delivered) [ none ↦ false | some m ↦ m ]

abbrev pub mark : String → PendingBatch → PendingBatch
mark name b = record b { delivered = insert name true b.delivered }

-- The state with the batch pending.
abbrev pub holding : RelayState → PendingBatch → RelayState
holding st b = record st { pending = some b }

-- The state once the batch is delivered.
abbrev pub past : RelayState → PendingBatch → RelayState
past st b = record st { cursor = b.cursor; pending = none }

-- The world after a provider accepted the batch.
abbrev pub sent_to : String → PendingBatch → World → World
sent_to name b w = record w { log = (b.cursor, name) ∷ w.log; calls = w.calls + 1 }

module _ (sends : ℕ → Bool) (saves : ℕ → Saving) where
  abbrev pub write : Saving → RelayState → World → Bool × World
  write saved st w = (true, record w { disk = st; calls = w.calls + 1 })
  write lost st w = (false, record w { calls = w.calls + 1 })
  write unsynced st w = (false, record w { disk = st; calls = w.calls + 1 })

  unfoldable pub save_state : RelayState → World → Bool × World
  save_state st w = write (saves w.calls) st w

  abbrev pub after_save : PendingBatch → Bool × World → Progress
  after_save b (true, w) = going false b w
  after_save b (false, w) = halted b w

  abbrev pub keep_failed : Bool → Progress → Progress
  keep_failed failed (going f b w) = going failed b w
  keep_failed failed (halted b w) = halted b w

  -- `Send` succeeded: the provider is marked and the mark saved.
  abbrev pub accept : RelayState → String → Bool → PendingBatch → World → Progress
  accept st name failed b w =
      keep_failed failed
        (after_save (mark name b) (save_state (holding st (mark name b)) (sent_to name b w)))

  -- The body of the loop, for one provider.
  unfoldable pub offer : RelayState → String → Progress → Progress
  offer st name (halted b w) = halted b w
  offer st name (going failed b w) =
      if is_marked b name
      then going failed b w
      else if sends w.calls
      then accept st name failed b w
      else going true b (record w { calls = w.calls + 1 })

  unfoldable pub offer_all : RelayState → List String → Progress → Progress
  offer_all st [] p = p
  offer_all st (name ∷ names) p = offer_all st names (offer st name p)

  abbrev pub settle_saved :
      RelayState → Bool × World → Outcome DeliverError (Unit {0}) × RelayState × World
  settle_saved st (true, w) = (ok tt, st, w)
  settle_saved st (false, w) = (err not_saved, st, w)

  abbrev pub settle : RelayState → Progress → Outcome DeliverError (Unit {0}) × RelayState × World
  settle st (halted b w) = (err not_saved, holding st b, w)
  settle st (going true b w) = (err delivery_failed, holding st b, w)
  settle st (going false b w) = settle_saved (past st b) (save_state (past st b) w)

  abbrev pub deliver_batch :
      List String
      → RelayState
      → Option PendingBatch
      → World
      → Outcome DeliverError (Unit {0}) × RelayState × World
  deliver_batch providers st none w = (ok tt, st, w)
  deliver_batch providers st (some b) w = settle st (offer_all st providers (going false b w))

  unfoldable pub deliver :
      List String → RelayState → World → Outcome DeliverError (Unit {0}) × RelayState × World
  deliver providers st w = deliver_batch providers st st.pending w
