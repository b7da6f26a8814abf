-- ===== src/SecurityWatch/Delivery/Once.antt =====
-- A report that every provider was told is not told again.
use fleetdeck.Prelude.{
  ℕ, ◌+◌, ◌≡◌, refl, sym, ap, ◌∙◌, ◌≢◌, ◌⊎◌, inl, inr, Bool, ◌||◌, Option, some, List, [], ◌∷◌,
  String, arith, ◌==◌, eq_iff, eq_refl, Bool-cases, Option-cases, Outcome, ok, err,
}
use fleetdeck.Prelude.Dict.{Dict, insert, lookup-insert}
use fleetdeck.Monitor.Types.{Alert, AlertProvider}
use fleetdeck.SecurityWatch.Types.{Report, counts}
use fleetdeck.SecurityWatch.Delivery.{
  Delivery, State, previous_of, canonical, is_active, alert_for, NotifyError, not_marshalled, Round,
  deliver_to, inform, inform_all, close_round, notify_with, notify,
}

failed_not_zero : (n : ℕ) → n + 1 ≢ 0
failed_not_zero n h = absurd (omega arith)

module _ {W : Type 0} (alert : Alert) (digest : String) (active : Bool) where
  -- The provider was told the report with the digest.
  abbrev pub IsTold : AlertProvider W → Dict Delivery → Type 0
  IsTold p ds = (previous_of p.name ds).digest ≡ digest

  IsTold-insert :
      (p : AlertProvider W) (name : String) (ds : Dict Delivery)
      → (name ≡ p.name) ⊎ IsTold p ds
      → IsTold p (insert name (record { digest = digest; alerted = active }) ds)
  IsTold-insert p name ds h = ground (
    arith,
    h,
    lookup-insert name p.name (record { digest = digest; alerted = active }) ds,
    eq_iff name p.name,
  )

  -- A provider was told before, or fails, or is told now.
  inform_cases :
      (p : AlertProvider W) (s : Round W)
      → ((inform alert digest active p s ≡ s) × IsTold p s.deliveries)
        ⊎ ((w : W) × (inform alert digest active p s
              ≡ record s { failures = s.failures + 1; world = w }))
        ⊎ ((w : W) × (inform alert digest active p s
              ≡ deliver_to digest active p.name (record s { world = w })))
  unfolding inform
  inform_cases p s = elim (Bool-cases ((previous_of p.name s.deliveries).digest == digest)) [
    | inl told ↦ rw told (inl (refl, (eq_iff _ _).0 told))
    | inr other ↦ elim (Bool-cases (active || (previous_of p.name s.deliveries).alerted)) [
      | inr quiet ↦ rw other (rw quiet (inr (inr (s.world, refl))))
      | inl due ↦ elim (Bool-cases (p.send alert s.world).0) [
        | inl fails ↦ rw other (rw due (rw fails (inr (inl ((p.send alert s.world).1, refl)))))
        | inr fine ↦ rw other (rw due (rw fine (inr (inr ((p.send alert s.world).1, refl)))))
      ]
    ]
  ]

  inform-IsTold :
      (p : AlertProvider W) (s : Round W)
      → (inform alert digest active p s).failures ≡ 0
      → (s.failures ≡ 0) × IsTold p (inform alert digest active p s).deliveries
  inform-IsTold p s h = elim (inform_cases p s) [
    | inl (e, told) ↦ simp e (simp e at h, told)
    | inr (inl (w, e)) ↦
        absurd (failed_not_zero s.failures (ap (λ (r : Round W). r.failures) (sym e) ∙ h))
    | inr (inr (w, e)) ↦ simp e (simp e at h, IsTold-insert p p.name s.deliveries (inl refl))
  ]

  inform-keeps :
      (p q : AlertProvider W) (s : Round W)
      → IsTold q s.deliveries
      → IsTold q (inform alert digest active p s).deliveries
  inform-keeps p q s h = elim (inform_cases p s) [
    | inl (e, told) ↦ simp e h
    | inr (inl (w, e)) ↦ simp e h
    | inr (inr (w, e)) ↦ simp e (IsTold-insert q p.name s.deliveries (inr h))
  ]

  inform_all-keeps :
      (q : AlertProvider W) (ps : List (AlertProvider W)) (s : Round W)
      → IsTold q s.deliveries
      → IsTold q (inform_all alert digest active ps s).deliveries
  unfolding inform_all
  inform_all-keeps q [] s h = h
  inform_all-keeps q (p ∷ ps) s h =
      inform_all-keeps q ps (inform alert digest active p s) (inform-keeps p q s h)

  abbrev pub AllTold : List (AlertProvider W) → Dict Delivery → Type 0
  AllTold [] ds = Unit
  AllTold (p ∷ ps) ds = IsTold p ds × AllTold ps ds

  inform_all-AllTold :
      (ps : List (AlertProvider W)) (s : Round W)
      → (inform_all alert digest active ps s).failures ≡ 0
      → (s.failures ≡ 0) × AllTold ps (inform_all alert digest active ps s).deliveries
  unfolding inform_all
  inform_all-AllTold [] s h = (h, tt)
  inform_all-AllTold (p ∷ ps) s h =
      let (none_failed, rest) = inform_all-AllTold ps (inform alert digest active p s) h in
      let (start, told) = inform-IsTold p s none_failed in
      (start, (inform_all-keeps p ps (inform alert digest active p s) told, rest))

  inform_told :
      (p : AlertProvider W) (s : Round W)
      → IsTold p s.deliveries
      → inform alert digest active p s ≡ s
  unfolding inform
  inform_told p s h = rw h (rw (eq_refl digest) refl)

  inform_all_told :
      (ps : List (AlertProvider W)) (s : Round W)
      → AllTold ps s.deliveries
      → inform_all alert digest active ps s ≡ s
  unfolding inform_all
  inform_all_told [] s h = refl
  inform_all_told (p ∷ ps) s (t, h) =
      ap (inform_all alert digest active ps) (inform_told p s t) ∙ inform_all_told ps s h

close_round-ok :
    {W : Type 0} (state : State) (report : Report) (s : Round W)
    → (close_round state report s).0 ≡ ok tt
    → s.failures ≡ 0
close_round-ok state report s h = ground (arith, h)

not_ok : (e : NotifyError) → ◌≢◌ {A = Outcome NotifyError (Unit {0})} (err e) (ok tt)
not_ok e h = cc

notify_with_again :
    {W : Type 0} (digest : String) (state : State) (report later : Report) (label again : String)
    (providers : List (AlertProvider W)) (w v : W)
    → (notify_with (some digest) state report label providers w).0 ≡ ok tt
    → (let told = (notify_with (some digest) state report label providers w).1 in
        notify_with (some digest) told later again providers v
        ≡ (ok tt, record told { report = some later }, v))
notify_with_again digest state report later label again providers w v h =
    let s =
      inform_all (alert_for report label) digest (is_active (counts report)) providers
        (record { deliveries = state.deliveries; failures = 0; world = w }) in
    let (_, told) =
      inform_all-AllTold (alert_for report label) digest (is_active (counts report)) providers
        (record { deliveries = state.deliveries; failures = 0; world = w })
        (close_round-ok state report s h) in
    ap (close_round (record state { report = some report; deliveries = s.deliveries }) later) (
      inform_all_told (alert_for later again) digest (is_active (counts later)) providers
        (record { deliveries = s.deliveries; failures = 0; world = v }) told)

module _ {W : Type 0} (digest_of : Report → Option String) where
  -- Once `Notify` has answered without an error, notifying the same providers of a report that differs
  -- at most in the time of its checks calls none of them: it answers without an error, changes no
  -- delivery, and only notes the report.
  pub notify_again :
      (state : State) (report later : Report) (label again : String)
      (providers : List (AlertProvider W)) (w v : W)
      → (notify digest_of state report label providers w).0 ≡ ok tt
      → canonical later ≡ canonical report
      → (let told = (notify digest_of state report label providers w).1 in
          notify digest_of told later again providers v
          ≡ (ok tt, record told { report = some later }, v))
  unfolding notify
  notify_again state report later label again providers w v h e =
      elim (Option-cases (digest_of (canonical report))) [
        | inl none_made ↦ absurd (
            not_ok not_marshalled
              (ap (λ o. (notify_with o state report label providers w).0) (sym none_made) ∙ h))
        | inr (digest, made) ↦ rw (ap digest_of e ∙ made) (
            rw made (
              notify_with_again digest state report later label again providers w v (rw made at h)))
      ]
