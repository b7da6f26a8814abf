-- ===== src/Monitor/Alerts/Targets.antt =====
-- The alert manager with several targets: each target's state is decided by its own results alone.
use fleetdeck.Prelude.{
  ℕ, ◌≤◌, ◌≡◌, refl, ap, ◌∙◌, Bool, true, false, List, [], ◌∷◌, String, arith, ◌==◌, eq_iff,
  if◌then◌else◌,
}
use fleetdeck.Prelude.Dict.{lookup, lookup-insert}
use fleetdeck.Monitor.Types.{CheckResult}
use fleetdeck.Monitor.Alerts.{
  TargetState, fresh, AlertManager, new_alert_manager, process_state, state_of, process,
}
use fleetdeck.Monitor.Alerts.History.{
  View, nothing, view, after, Tracks, Tracks-fresh, after-Tracks, Decided, process_state-Decided,
}

-- The manager after the results, in their order.
abbrev pub process_all : AlertManager → List CheckResult → AlertManager
process_all am [] = am
process_all am (r ∷ rs) = process_all (process am r).0 rs

-- The results of one target.
abbrev pub results_of : String → List CheckResult → List CheckResult
results_of n [] = []
results_of n (r ∷ rs) = let rest = results_of n rs in if r.target.name == n then r ∷ rest else rest

pub process-state_of :
    (n : String) (am : AlertManager) (r : CheckResult)
    → state_of n (process am r).0 ≡ (
        if r.target.name == n
        then (process_state am.failure_threshold r (state_of n am)).0
        else state_of n am)
unfolding process
process-state_of n am r = ground (
  arith,
  eq_iff r.target.name n,
  lookup-insert r.target.name n (process_state am.failure_threshold r (state_of r.target.name am)).0
      am.states,
)

pub process-failure_threshold :
    (am : AlertManager) (r : CheckResult)
    → (process am r).0.failure_threshold ≡ am.failure_threshold
unfolding process
process-failure_threshold am r = refl

process_all-failure_threshold :
    (am : AlertManager) (rs : List CheckResult)
    → (process_all am rs).failure_threshold ≡ am.failure_threshold
process_all-failure_threshold am [] = refl
process_all-failure_threshold am (r ∷ rs) =
    process_all-failure_threshold (process am r).0 rs ∙ process-failure_threshold am r

after-if :
    (t : ℕ) (r : CheckResult) (rs : List CheckResult) (s : TargetState) (b : Bool)
    → after t rs (if b then (process_state t r s).0 else s) ≡ after t (if b then r ∷ rs else rs) s
after-if t r rs s true = refl
after-if t r rs s false = refl

-- After any results, of any targets, the manager holds for a target the state which that target's
-- own results lead to.
pub process_all-state_of :
    (n : String) (am : AlertManager) (rs : List CheckResult)
    → state_of n (process_all am rs) ≡ after am.failure_threshold (results_of n rs) (state_of n am)
process_all-state_of n am [] = refl
process_all-state_of n am (r ∷ rs) =
    process_all-state_of n (process am r).0 rs
    ∙ ap (λ t. after t (results_of n rs) (state_of n (process am r).0))
        (process-failure_threshold am r)
    ∙ ap (after am.failure_threshold (results_of n rs)) (process-state_of n am r)
    ∙ after-if am.failure_threshold r (results_of n rs) (state_of n am) (r.target.name == n)

threshold_pos : (t : ℕ) → 1 ≤ (new_alert_manager t).failure_threshold
unfolding new_alert_manager
threshold_pos t = ground arith

-- A manager that was made for a threshold and has then processed the results.
abbrev pub manager_after : ℕ → List CheckResult → AlertManager
manager_after threshold rs = process_all (new_alert_manager threshold) rs

-- What a target's results show.
abbrev pub view_of : String → List CheckResult → View
view_of n rs = view nothing (results_of n rs)

manager_after-state_of :
    (threshold : ℕ) (n : String) (rs : List CheckResult)
    → state_of n (manager_after threshold rs)
      ≡ after (new_alert_manager threshold).failure_threshold (results_of n rs) fresh
unfolding new_alert_manager lookup
manager_after-state_of threshold n rs = process_all-state_of n (new_alert_manager threshold) rs

-- After any results, of any targets, a target's counters are those its own results show, up to the
-- threshold, and an alert is out for it exactly from the threshold on.
pub manager_after-Tracks :
    (threshold : ℕ) (n : String) (rs : List CheckResult)
    → Tracks
        (new_alert_manager threshold).failure_threshold
        (view_of n rs)
        (state_of n (manager_after threshold rs))
manager_after-Tracks threshold n rs =
    let t = (new_alert_manager threshold).failure_threshold in
    rw (manager_after-state_of threshold n rs) (
      after-Tracks t (results_of n rs) nothing fresh (threshold_pos threshold)
        (Tracks-fresh t (threshold_pos threshold)))

-- After any results, of any targets, `process` decides on the next result of a target by that
-- target's own results. A healthy result alerts when the failures before it reached the threshold,
-- and only then. Any other result alerts no earlier than the threshold, alerts at the threshold, and
-- after it exactly when its status is not the alerted one and that status has been seen as often in
-- a row as the threshold asks.
pub process-Decided :
    (threshold : ℕ) (r : CheckResult) (rs : List CheckResult)
    → Decided
        (new_alert_manager threshold).failure_threshold
        (view_of r.target.name rs)
        (state_of r.target.name (manager_after threshold rs))
        r
        (process (manager_after threshold rs) r).1
unfolding process
process-Decided threshold r rs =
    rw (process_all-failure_threshold (new_alert_manager threshold) rs) (
      process_state-Decided (new_alert_manager threshold).failure_threshold r
        (view_of r.target.name rs) (state_of r.target.name (manager_after threshold rs))
        (threshold_pos threshold) (manager_after-Tracks threshold r.target.name rs))
