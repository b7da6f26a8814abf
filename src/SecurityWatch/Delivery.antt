-- ===== src/SecurityWatch/Delivery.antt =====
-- internal/securitywatch/state.go: `Notify`. The JSON of a report and the hexadecimal SHA-256 of it
-- are parameters.
pub mod Once
use fleetdeck.Prelude.{
  ℕ, zero, suc, ◌+◌, ◌-◌, ◌*◌, ◌≤◌, ◌<◌, ◌≡◌, refl, sym, ap, ◌∙◌, ◌≢◌, ◌↔◌, ◌⊎◌, inl, inr, Bool,
  true, false, not, ◌&&◌, ◌||◌, Option, none, some, List, [], ◌∷◌, ◌++◌, map, String, arith, ◌==◌,
  eq_iff, eq_refl, byte_length, ltb, leb, eqb, if◌then◌else◌, Bool-cases, Option-cases, length, all,
  any, All, length-append, rev_onto, rev_onto-append, is_nil, sort_by, length-sort_by, any-sort_by,
  Outcome, ok, err, ◌>>=◌, ◌>>◌, guard, Outcome-cases,
}
use fleetdeck.Prelude.Dict.{
  Dict, lookup, insert, delete, delete_if, lookup-insert, lookup-delete, length-insert,
  length-delete, length-delete_if, IsDistinct, drop_if, lookup-delete_if, insert-IsDistinct,
  delete-IsDistinct, delete_if-IsDistinct, length-insert_found,
}
use fleetdeck.Prelude.Texts.{codes, has_prefix, has_suffix, contains, text_leb}
use fleetdeck.Monitor.Types.{Alert, AlertProvider, plain, security_summary}
use fleetdeck.SecurityWatch.Types.{Report, Counts, counts}

-- What a provider was told last.
pub record Delivery : Type 0 where
  pub digest : String
  pub alerted : Bool

pub record State : Type 0 where
  pub version : ℕ
  pub report : Option Report
  pub deliveries : Dict Delivery

abbrev pub previous_of : String → Dict Delivery → Delivery
previous_of name ds = elim (lookup name ds) [
  | none ↦ record { digest = ""; alerted = false }
  | some d ↦ d
]

-- The report without the time of its checks.
abbrev pub canonical : Report → Report
canonical r = record r { checked_at = 0 }

abbrev pub is_active : Counts → Bool
is_active n = ltb 0 (n.critical + n.warning + n.unknown)

abbrev pub level_of : Counts → String
level_of n =
    if ltb 0 n.critical
    then "critical"
    else if ltb 0 (n.warning + n.unknown)
    then "warning"
    else "info"

abbrev pub alert_for : Report → String → Alert
alert_for report label =
    let n = counts report in
    record {
      level = level_of n;
      title = plain (
          if is_active n
          then "Security checks need attention"
          else "Previously reported security checks are clear");
      message = security_summary n.critical n.warning n.unknown report.host.reboot_required;
      target = label;
      timestamp = report.checked_at;
    }

pub data NotifyError : Type 0 where
  not_marshalled : NotifyError
  delivery_failed : ℕ → NotifyError

-- The deliveries, the number of failures, and the world.
pub record Round (W : Type 0) : Type 0 where
  pub deliveries : Dict Delivery
  pub failures : ℕ
  pub world : W

module _ {W : Type 0} where
  abbrev pub deliver_to : String → Bool → String → Round W → Round W
  deliver_to digest active name s = record s {
    deliveries = insert name (record { digest = digest; alerted = active }) s.deliveries;
  }

  -- The body of the loop, for one provider.
  unfoldable pub inform : Alert → String → Bool → AlertProvider W → Round W → Round W
  inform alert digest active provider s =
      let previous = previous_of provider.name s.deliveries in
      if previous.digest == digest
      then s
      else if active || previous.alerted
      then (let (failed, w) = provider.send alert s.world in
          if failed
          then record s { failures = s.failures + 1; world = w }
          else deliver_to digest active provider.name (record s { world = w }))
      else deliver_to digest active provider.name s

  unfoldable pub inform_all : Alert → String → Bool → List (AlertProvider W) → Round W → Round W
  inform_all alert digest active [] s = s
  inform_all alert digest active (p ∷ ps) s =
      inform_all alert digest active ps (inform alert digest active p s)

  abbrev pub close_round : State → Report → Round W → Outcome NotifyError (Unit {0}) × State × W
  close_round state report s = (
    (if ltb 0 s.failures then err (delivery_failed s.failures) else ok tt),
    record state { report = some report; deliveries = s.deliveries },
    s.world,
  )

  abbrev pub notify_with :
      Option String
      → State
      → Report
      → String
      → List (AlertProvider W)
      → W
      → Outcome NotifyError (Unit {0}) × State × W
  notify_with none state report label providers w = (err not_marshalled, state, w)
  notify_with (some digest) state report label providers w = close_round state report (
      inform_all (alert_for report label) digest (is_active (counts report)) providers
        (record { deliveries = state.deliveries; failures = 0; world = w }))

  -- `Notify`; `digest_of` is the digest of a canonical report, if it could be encoded.
  unfoldable pub notify :
      (Report → Option String)
      → State
      → Report
      → String
      → List (AlertProvider W)
      → W
      → Outcome NotifyError (Unit {0}) × State × W
  notify digest_of state report label providers w =
      notify_with (digest_of (canonical report)) state report label providers w
