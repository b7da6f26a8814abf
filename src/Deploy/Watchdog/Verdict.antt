-- ===== src/Deploy/Watchdog/Verdict.antt =====
-- What `Observe` returns, and when.
use fleetdeck.Prelude.{
  ℕ, ◌+◌, ◌≤◌, ◌<◌, ◌≡◌, refl, sym, ◌⊎◌, inl, inr, Bool, true, false, ◌||◌, some, List, [], ◌∷◌,
  arith, ltb, leb, Bool-cases, length,
}
use fleetdeck.Deploy.Watchdog.{
  WatchdogConfig, WatchResult, Probe, Event, tick, cancelled, apply_watchdog_defaults, probe,
  observe_loop, initial_result, observe,
}
use fleetdeck.Deploy.Watchdog.Runs.{
  offered, longest_run, run_after, leading-longest_run, status-is_failure, peak-run_after,
  run_after_nil, run_after_start,
}

-- The context ends, or a tick comes after the deadline.
abbrev pub ends : List Event → Bool
ends [] = false
ends (cancelled ∷ es) = true
ends (tick late p ∷ es) = late || ends es

-- The verdict with the threshold `t` on `k` probes with at most `run` failures in a row.
abbrev pub IsVerdict : ℕ → ℕ → ℕ → WatchResult → Type 0
IsVerdict t run k w =
    ((w.healthy ≡ false) × (t ≤ run) × (w.consecutive_failures ≡ t) × (w.probes ≤ k))
    ⊎ ((w.healthy ≡ true) × (run < t) × (w.consecutive_failures ≡ run) × (w.probes ≡ k))

-- The watch goes on after `consecutive` failures in a row: no verdict has fallen.
pub record IsOpen (t : ℕ) (r : WatchResult) (consecutive : ℕ) : Type 0 where
  pub below : consecutive ≤ r.consecutive_failures
  pub peak : r.consecutive_failures < t
  pub undecided : r.healthy ≡ false

-- A probe moves a failure from the probes to come to those made.
probe-run_after :
    (cfg : WatchdogConfig) (p : Probe) (ps : List Probe) (r : WatchResult) (n : ℕ)
    → n ≤ r.consecutive_failures
    → run_after cfg.expected_status (probe cfg p r n).1 (probe cfg p r n).0.consecutive_failures ps
      ≡ run_after cfg.expected_status n r.consecutive_failures (p ∷ ps)
unfolding probe
probe-run_after cfg p ps r n h =
    ground (
      arith,
      h,
      status-is_failure cfg.expected_status p,
      leading-longest_run cfg.expected_status ps,
    )

probe-IsOpen :
    (cfg : WatchdogConfig) (p : Probe) (r : WatchResult) (n : ℕ)
    → IsOpen cfg.failure_threshold r n
    → leb cfg.failure_threshold (probe cfg p r n).1 ≡ false
    → IsOpen cfg.failure_threshold (probe cfg p r n).0 (probe cfg p r n).1
unfolding probe
probe-IsOpen cfg p r n h below = record {
  below = ground (arith, h.below, below);
  peak = ground (arith, h.below, h.peak, below);
  undecided = ground (arith, h.undecided);
}

probe-reached :
    (cfg : WatchdogConfig) (p : Probe) (r : WatchResult) (n : ℕ)
    → IsOpen cfg.failure_threshold r n
    → leb cfg.failure_threshold (probe cfg p r n).1 ≡ true
    → ((probe cfg p r n).0.healthy ≡ false)
      × ((probe cfg p r n).0.consecutive_failures ≡ cfg.failure_threshold)
unfolding probe
probe-reached cfg p r n h reached = ground (arith, h.below, h.peak, h.undecided, reached)

probes-probe :
    (cfg : WatchdogConfig) (p : Probe) (r : WatchResult) (n : ℕ)
    → (probe cfg p r n).0.probes ≡ r.probes + 1
unfolding probe
probes-probe cfg p r n = ground arith

IsVerdict-respects :
    (t run run2 k k2 : ℕ) (w : WatchResult)
    → run ≡ run2
    → k ≡ k2
    → IsVerdict t run k w
    → IsVerdict t run2 k2 w
IsVerdict-respects t run run2 k k2 w e f v = rw (sym e, sym f) v

observe_loop-IsVerdict :
    (cfg : WatchdogConfig) (r : WatchResult) (n : ℕ) (es : List Event)
    → IsOpen cfg.failure_threshold r n
    → ends es ≡ true
    → (w : WatchResult) × (observe_loop cfg r n es ≡ some w)
      × IsVerdict cfg.failure_threshold
          (run_after cfg.expected_status n r.consecutive_failures (offered es))
          (r.probes + length (offered es))
          w
unfolding observe_loop
observe_loop-IsVerdict cfg r n [] h e = cc
observe_loop-IsVerdict cfg r n (cancelled ∷ es) h e =
    let same = run_after_nil cfg.expected_status n r.consecutive_failures h.below in
    (
      record r { healthy = ltb n cfg.failure_threshold },
      refl,
      inr (ground (arith, h.below, h.peak), omega (arith, same, h.peak), sym same, omega arith),
    )
observe_loop-IsVerdict cfg r n (tick true p ∷ es) h e =
    let same = run_after_nil cfg.expected_status n r.consecutive_failures h.below in
    (
      record r { healthy = true },
      refl,
      inr (refl, omega (arith, same, h.peak), sym same, omega arith),
    )
observe_loop-IsVerdict cfg r n (tick false p ∷ es) h e =
    let seen = (probe cfg p r n).0 in
    let same = probe-run_after cfg p (offered es) r n h.below in
    elim (Bool-cases (leb cfg.failure_threshold (probe cfg p r n).1)) [
      | inl reached ↦
          let (unhealthy, peak) = probe-reached cfg p r n h reached in
          (
            seen,
            rw reached refl,
            inl (
              unhealthy,
              omega (
                arith,
                same,
                peak,
                peak-run_after cfg.expected_status (probe cfg p r n).1 seen.consecutive_failures
                    (offered es),
              ),
              peak,
              omega (arith, probes-probe cfg p r n),
            ),
          )
      | inr below ↦
          let (w, eq, v) =
            observe_loop-IsVerdict cfg seen (probe cfg p r n).1 es (probe-IsOpen cfg p r n h below)
              e in
          (
            w,
            rw below eq,
            IsVerdict-respects cfg.failure_threshold _ _ _ _ w same
                (omega (arith, probes-probe cfg p r n)) v,
          )
    ]

threshold_pos : (cfg : WatchdogConfig) → 1 ≤ (apply_watchdog_defaults cfg).failure_threshold
unfolding apply_watchdog_defaults
threshold_pos cfg = ground arith

-- Where the context ends or a tick comes after the deadline, `Observe` returns. With the defaults for
-- the settings that are not set, it returns unhealthy exactly if the probes up to that event have as
-- many failures in a row as the threshold, a failure being an answer other than the expected status or
-- no answer, and then reports the threshold as the failures in a row. Otherwise it returns healthy, has
-- made all those probes, and reports the most failures that they have in a row.
pub observe-IsVerdict :
    (cfg : WatchdogConfig) (p : Probe) (es : List Event)
    → ends es ≡ true
    → (w : WatchResult) × (observe cfg p es ≡ some w)
      × IsVerdict
          (apply_watchdog_defaults cfg).failure_threshold
          (longest_run (apply_watchdog_defaults cfg).expected_status (p ∷ offered es))
          (length (p ∷ offered es))
          w
unfolding observe observe_loop
observe-IsVerdict cfg p es e =
    let settings = apply_watchdog_defaults cfg in
    let (w, eq, v) =
      observe_loop-IsVerdict settings initial_result 0 (tick false p ∷ es)
        (record { below = omega arith; peak = threshold_pos cfg; undecided = refl }) e in
    (
      w,
      eq,
      IsVerdict-respects settings.failure_threshold _ _ _ _ w
          (run_after_start settings.expected_status (p ∷ offered es)) (omega arith) v,
    )
