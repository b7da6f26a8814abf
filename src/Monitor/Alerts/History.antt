-- ===== src/Monitor/Alerts/History.antt =====
-- The alert manager against the history of a target's results.
use fleetdeck.Prelude.{
  sym, ℕ, ◌+◌, ◌≤◌, ◌<◌, ◌≡◌, ◌≢◌, ◌↔◌, ◌⊎◌, inl, inr, List, [], ◌∷◌, String, Option, none, some,
  arith, sym, ◌∙◌, ◌==◌, eq_iff, ltb, if◌then◌else◌,
}
use fleetdeck.Monitor.Types.{CheckResult, health_status, Alert}
use fleetdeck.Monitor.Alerts.{leb, count_failure, TargetState, fresh, recovery_alert, process_state}

abbrev pub IsHealthy : CheckResult → Type 0
IsHealthy r = health_status r ≡ "healthy"

-- What a history shows: how many results it ends with that are not healthy, how many of them at its
-- end have the same status, and that status.
pub record View : Type 0 where
  pub failures : ℕ
  pub same : ℕ
  pub last : String

abbrev pub nothing : View
nothing = record { failures = 0; same = 0; last = "" }

abbrev pub see : View → CheckResult → View
see v r = if health_status r == "healthy" then nothing else record {
  failures = v.failures + 1;
  same = if v.last == health_status r then v.same + 1 else 1;
  last = health_status r;
}

abbrev pub view : View → List CheckResult → View
view v [] = v
view v (r ∷ rs) = view (see v r) rs

-- The state after the results.
abbrev pub after : ℕ → List CheckResult → TargetState → TargetState
after t [] s = s
after t (r ∷ rs) s = after t rs (process_state t r s).0

abbrev pub cap : ℕ → ℕ → ℕ
cap t n = if ltb n t then n else t

-- The counters are those of the history, up to the threshold; an alert is out from the threshold on.
pub record Tracks (t : ℕ) (v : View) (s : TargetState) : Type 0 where
  pub failures : s.consecutive_failures ≡ cap t v.failures
  pub same : s.consecutive_status ≡ cap t v.same
  pub last : s.pending_status ≡ v.last
  pub quiet : v.failures < t → s.alerted_status ≡ ""
  pub alerted : t ≤ v.failures → s.alerted_status ≢ ""

status_cases :
    (r : CheckResult)
    → (health_status r ≡ "blocked")
      ⊎ (health_status r ≡ "healthy")
      ⊎ (health_status r ≡ "unhealthy")
unfolding health_status
status_cases r = ground arith

blocked-ne-empty : ◌≢◌ {A = String} "blocked" ""
blocked-ne-empty h = cc

healthy-ne-empty : ◌≢◌ {A = String} "healthy" ""
healthy-ne-empty h = cc

unhealthy-ne-empty : ◌≢◌ {A = String} "unhealthy" ""
unhealthy-ne-empty h = cc

status-ne-empty : (r : CheckResult) → health_status r ≢ ""
status-ne-empty r h = elim (status_cases r) [
  | inl e ↦ blocked-ne-empty (sym e ∙ h)
  | inr (inl e) ↦ healthy-ne-empty (sym e ∙ h)
  | inr (inr e) ↦ unhealthy-ne-empty (sym e ∙ h)
]

pub Tracks-fresh : (t : ℕ) → 1 ≤ t → Tracks t nothing fresh
Tracks-fresh t h = ground arith

process_state-Tracks :
    (t : ℕ) (r : CheckResult) (v : View) (s : TargetState)
    → 1 ≤ t
    → Tracks t v s
    → Tracks t (see v r) (process_state t r s).0
unfolding process_state count_failure
process_state-Tracks t r v s p h = ground (
  arith,
  status-ne-empty r,
  eq_iff s.alerted_status "",
  eq_iff s.alerted_status (health_status r),
  eq_iff (health_status r) "healthy",
  eq_iff s.pending_status (health_status r),
  eq_iff v.last (health_status r),
)

pub after-Tracks :
    (t : ℕ) (rs : List CheckResult) (v : View) (s : TargetState)
    → 1 ≤ t
    → Tracks t v s
    → Tracks t (view v rs) (after t rs s)
after-Tracks t [] v s p h = h
after-Tracks t (r ∷ rs) v s p h =
    after-Tracks t rs (see v r) (process_state t r s).0 p (process_state-Tracks t r v s p h)

-- The alert for a result, by what the history before it shows and the status last alerted on.
abbrev pub Decided : ℕ → View → TargetState → CheckResult → Option Alert → Type 0
Decided t v s r alert =
    (IsHealthy r → alert ≡ (if leb t v.failures then some (recovery_alert r) else none))
    × ((IsHealthy r → ⊥) → v.failures + 1 < t → alert ≡ none)
    × ((IsHealthy r → ⊥) → v.failures + 1 ≡ t → alert ≢ none)
    × ((IsHealthy r → ⊥)
        → t ≤ v.failures
        → (alert ≢ none) ↔ ((s.alerted_status ≢ health_status r) × (t ≤ (see v r).same)))

pub process_state-Decided :
    (t : ℕ) (r : CheckResult) (v : View) (s : TargetState)
    → 1 ≤ t
    → Tracks t v s
    → Decided t v s r (process_state t r s).1
unfolding process_state count_failure
process_state-Decided t r v s p h = ground (
  arith,
  status-ne-empty r,
  eq_iff s.alerted_status "",
  eq_iff s.alerted_status (health_status r),
  eq_iff (health_status r) "healthy",
  eq_iff s.pending_status (health_status r),
  eq_iff v.last (health_status r),
)
