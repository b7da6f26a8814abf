-- ===== src/Examples/Relays.antt =====
-- A batch for two providers, of which one fails at first.
use fleetdeck.Prelude.{ℕ, refl, Bool, not, some, [], ◌∷◌, eqb}
use fleetdeck.Prelude.Dict.{lookup}
use fleetdeck.Monitor.Types.{Alert, plain, text}
use fleetdeck.Notify.Relay.{PendingBatch, RelayState, Saving, saved, World, deliver}
use fleetdeck.Notify.Relay.AtLeastOnce.{IsHonest, Delivered, deliver-Delivered}

abbrev activity : Alert
activity = record {
  level = "info";
  title = plain "Server activity";
  message = text "ssh.login.accepted: 1";
  target = "host";
  timestamp = 7;
}

abbrev batch : PendingBatch
batch = record { cursor = "c2"; alert = activity; delivered = [] }

abbrev waiting : RelayState
waiting = record { since = "2026"; cursor = "c1"; pending = some batch }

abbrev before_delivery : World
before_delivery = record { disk = waiting; log = []; calls = 0 }

abbrev second_fails : ℕ → Bool
second_fails n = not (eqb n 2)

abbrev always_saved : ℕ → Saving
always_saved n = saved

batch-IsHonest : IsHonest batch before_delivery
unfolding lookup
batch-IsHonest name h = cc

deliver-Delivered_example :
    Delivered second_fails always_saved
      ("mail" ∷ "chat" ∷ [])
      waiting
      "c2"
      (deliver second_fails always_saved ("mail" ∷ "chat" ∷ []) waiting before_delivery)
deliver-Delivered_example =
    deliver-Delivered second_fails always_saved ("mail" ∷ "chat" ∷ []) waiting batch before_delivery
      refl batch-IsHonest refl
