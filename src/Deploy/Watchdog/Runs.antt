-- ===== src/Deploy/Watchdog/Runs.antt =====
-- The failures in a row among the probes of `Observe`.
use fleetdeck.Prelude.{
  ℕ, ◌+◌, ◌≤◌, ◌≡◌, refl, Bool, true, false, not, List, [], ◌∷◌, arith, eqb, if◌then◌else◌,
}
use fleetdeck.Deploy.Watchdog.{Probe, answered, broken, Event, tick, cancelled, status_of, max_of}

-- The probes that `Observe` makes unless it stops: one at each tick, up to the first event that ends
-- the watch.
abbrev pub offered : List Event → List Probe
offered [] = []
offered (cancelled ∷ es) = []
offered (tick true p ∷ es) = []
offered (tick false p ∷ es) = p ∷ offered es

-- An answer other than the expected status, or none.
abbrev pub is_failure : ℕ → Probe → Bool
is_failure expected (answered status) = not (eqb status expected)
is_failure expected (broken e) = not (eqb 0 expected)

-- How many failures the probes begin with.
abbrev pub leading : ℕ → List Probe → ℕ
leading expected [] = 0
leading expected (p ∷ ps) =
    let rest = leading expected ps in if is_failure expected p then rest + 1 else 0

-- The most failures in a row.
abbrev pub longest_run : ℕ → List Probe → ℕ
longest_run expected [] = 0
longest_run expected (p ∷ ps) = max_of (leading expected (p ∷ ps)) (longest_run expected ps)

-- The most failures in a row, where `n` failures came just before and `peak` in a row at some time.
abbrev pub run_after : ℕ → ℕ → ℕ → List Probe → ℕ
run_after expected n peak ps =
    max_of peak (max_of (n + leading expected ps) (longest_run expected ps))

pub leading-longest_run :
    (expected : ℕ) (ps : List Probe) → leading expected ps ≤ longest_run expected ps
leading-longest_run expected [] = omega arith
leading-longest_run expected (p ∷ ps) = ground arith

pub status-is_failure :
    (expected : ℕ) (p : Probe) → is_failure expected p ≡ not (eqb (status_of p) expected)
status-is_failure expected (answered status) = refl
status-is_failure expected (broken e) = refl

pub peak-run_after : (expected n peak : ℕ) (ps : List Probe) → peak ≤ run_after expected n peak ps
peak-run_after expected n peak ps = ground arith

pub run_after_nil : (expected n peak : ℕ) → n ≤ peak → run_after expected n peak [] ≡ peak
run_after_nil expected n peak h = ground (arith, h)

pub run_after_start :
    (expected : ℕ) (ps : List Probe) → run_after expected 0 0 ps ≡ longest_run expected ps
run_after_start expected ps = ground (arith, leading-longest_run expected ps)
