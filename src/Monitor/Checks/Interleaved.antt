-- ===== src/Monitor/Checks/Interleaved.antt =====
-- internal/monitor/monitor.go: the goroutines of `Start`, one for each target. The names of the
-- targets differ, as internal/monitor/targets.go asks. A goroutine is in `record` with at most one
-- result at a time, while the steps of all of them come in any order.
use fleetdeck.Prelude.{
  ℕ, ◌≤◌, ◌≡◌, refl, sym, ap, ◌∙◌, ◌≢◌, ◌⊎◌, inl, inr, Option, none, some, List, String, arith,
  ◌==◌, eq_iff, if◌then◌else◌, Bool-cases,
}
use fleetdeck.Prelude.Dict.{lookup, insert, lookup-insert}
use fleetdeck.Monitor.Types.{Target, CheckResult, health_status}
use fleetdeck.Monitor.Alerts.{
  TargetState, new_alert_manager, process_state, must_alert, count_failure, state_of, process,
}
use fleetdeck.Monitor.Alerts.Targets.{process-state_of, process-failure_threshold}
use fleetdeck.Monitor.Checks.{Monitor, new_monitor, store_result, notify_alerts}

-- The result of a target that is stored and not yet handed to the alert manager.
abbrev pub InFlight : Type 0
InFlight = String → Option CheckResult

abbrev pub set : String → Option CheckResult → InFlight → InFlight
set name o f n = if name == n then o else f n

abbrev pub nothing_in_flight : InFlight
nothing_in_flight n = none

-- The monitor after any steps of the loops.
pub data Running (targets : List Target) (threshold : ℕ) : Monitor → InFlight → Type 0 where
  made : Running targets threshold (new_monitor targets threshold) nothing_in_flight
  storing :
      {m : Monitor} {f : InFlight} (r : CheckResult)
      → f r.target.name ≡ none
      → Running targets threshold m f
      → Running targets threshold (store_result r m) (set r.target.name (some r) f)
  notifying :
      {m : Monitor} {f : InFlight} (r : CheckResult)
      → f r.target.name ≡ some r
      → Running targets threshold m f
      → Running targets threshold (notify_alerts r m).0 (set r.target.name none f)

-- The state of the alert manager fits the stored result: there are no failures without a result or
-- after a healthy one, and after any other there is one at least, with the status of that result.
abbrev pub Fits : Option CheckResult → TargetState → Type 0
Fits none s = s.consecutive_failures ≡ 0
Fits (some r) s =
    ((health_status r ≡ "healthy") × (s.consecutive_failures ≡ 0))
    ⊎ ((health_status r ≢ "healthy")
        × (1 ≤ s.consecutive_failures)
        × (s.pending_status ≡ health_status r))

-- What the monitor holds of a target, in flight or not.
abbrev pub Agrees : String → Monitor → InFlight → Type 0
Agrees n m f =
    ((f n ≡ none) × Fits (lookup n m.results) (state_of n m.alerts))
    ⊎ ((r : CheckResult) × (f n ≡ some r) × (lookup n m.results ≡ some r))

Fits-respects :
    (o o2 : Option CheckResult) (s s2 : TargetState) → o ≡ o2 → s ≡ s2 → Fits o s → Fits o2 s2
Fits-respects o o2 s s2 e f h = rw (sym e, sym f) h

count_failure-Fits :
    (t : ℕ) (status : String) (s : TargetState)
    → 1 ≤ t
    → (1 ≤ (count_failure t status s).consecutive_failures)
      × ((count_failure t status s).pending_status ≡ status)
unfolding count_failure
count_failure-Fits t status s h = elim (Bool-cases (s.pending_status == status)) [
  | inl same ↦ (ground (arith, h), rw same ((eq_iff s.pending_status status).0 same))
  | inr changed ↦ (ground (arith, h), rw changed refl)
]

process_state-Fits :
    (t : ℕ) (r : CheckResult) (s : TargetState) → 1 ≤ t → Fits (some r) (process_state t r s).0
unfolding process_state
process_state-Fits t r s h = elim (Bool-cases (health_status r == "healthy")) [
  | inl healthy ↦ rw healthy (inl ((eq_iff (health_status r) "healthy").0 healthy, refl))
  | inr other ↦
      let counted = count_failure t (health_status r) s in
      let apart : health_status r ≢ "healthy" =
        λ e. let same = (eq_iff (health_status r) "healthy").1 e in cc in
      let (failed, pending) = count_failure-Fits t (health_status r) s h in
      elim (Bool-cases (must_alert t (health_status r) counted)) [
        | inl alerting ↦ rw other (rw alerting (inr (apart, failed, pending)))
        | inr quiet ↦ rw other (rw quiet (inr (apart, failed, pending)))
      ]
]

Running-threshold :
    {targets : List Target} {threshold : ℕ} {m : Monitor} {f : InFlight}
    → Running targets threshold m f
    → 1 ≤ m.alerts.failure_threshold
unfolding new_monitor new_alert_manager store_result notify_alerts
Running-threshold made = ground arith
Running-threshold (storing r e c) = Running-threshold c
Running-threshold (notifying {m} r e c) =
    omega (arith, process-failure_threshold m.alerts r, Running-threshold c)

storing-Agrees :
    (n : String) (m : Monitor) (f : InFlight) (r : CheckResult)
    → Agrees n m f
    → Agrees n (store_result r m) (set r.target.name (some r) f)
unfolding store_result
storing-Agrees n m f r h = elim (Bool-cases (r.target.name == n)) [
  | inl same ↦ inr (r, rw same refl, lookup-insert r.target.name n r m.results ∙ rw same refl)
  | inr other ↦
      let kept : lookup n (insert r.target.name r m.results) ≡ lookup n m.results =
        lookup-insert r.target.name n r m.results ∙ rw other refl in
      elim h [
        | inl (e, fits) ↦ inl (rw other e, Fits-respects _ _ _ _ (sym kept) refl fits)
        | inr (x, e, held) ↦ inr (x, rw other e, kept ∙ held)
      ]
]

notifying-Agrees :
    (n : String) (m : Monitor) (f : InFlight) (r : CheckResult)
    → 1 ≤ m.alerts.failure_threshold
    → f r.target.name ≡ some r
    → Agrees n m f
    → Agrees n (notify_alerts r m).0 (set r.target.name none f)
unfolding notify_alerts
notifying-Agrees n m f r t e h = elim (Bool-cases (r.target.name == n)) [
  | inr other ↦
      let kept : state_of n (process m.alerts r).0 ≡ state_of n m.alerts =
        process-state_of n m.alerts r ∙ rw other refl in
      elim h [
        | inl (none_in, fits) ↦ inl (rw other none_in, Fits-respects _ _ _ _ refl (sym kept) fits)
        | inr (x, flying, held) ↦ inr (x, rw other flying, held)
      ]
  | inl same ↦
      let name : r.target.name ≡ n = (eq_iff r.target.name n).0 same in
      let told : state_of n (process m.alerts r).0
          ≡ (process_state m.alerts.failure_threshold r (state_of n m.alerts)).0 =
        process-state_of n m.alerts r ∙ rw same refl in
      let flies : f n ≡ some r = ap f (sym name) ∙ e in
      elim h [
        | inl (none_in, fits) ↦ let clash : none ≡ some r = sym none_in ∙ flies in cc
        | inr (x, flying, held) ↦ inl (
          rw same refl,
          Fits-respects (some r) _ _ _ (sym (held ∙ sym flying ∙ flies)) (sym told)
              (process_state-Fits m.alerts.failure_threshold r (state_of n m.alerts) t),
        )
      ]
]

-- Where each target has one loop, in whatever order the steps of the loops come, and whatever their
-- checks answered: for each target, either a result is in flight and is the one that the monitor has stored, or the state of the alert manager
-- fits the stored result. It has counted no failures where there is no result or a healthy one, and
-- at least one, of that very status, after any other result.
pub Running-Agrees :
    {targets : List Target} {threshold : ℕ} {m : Monitor} {f : InFlight} (n : String)
    → Running targets threshold m f
    → Agrees n m f
unfolding new_monitor new_alert_manager lookup
Running-Agrees n made = inl (refl, refl)
Running-Agrees n (storing {m} {f} r e c) = storing-Agrees n m f r (Running-Agrees n c)
Running-Agrees n (notifying {m} {f} r e c) =
    notifying-Agrees n m f r (Running-threshold c) e (Running-Agrees n c)
