-- ===== src/Health/Laws.antt =====
-- The health report against the classification of each service.
use fleetdeck.Prelude.{
  ℕ, ◌≡◌, refl, sym, ap, ◌∙◌, ◌⊎◌, inl, inr, Bool, true, false, not, ◌&&◌, ◌||◌, Option, none, some,
  List, [], ◌∷◌, ◌++◌, map, String, arith, ◌==◌, eq_iff, eqb, if◌then◌else◌, Bool-cases, all, any,
}
use fleetdeck.Health.{
  ServiceHealth, classify_oneshot, classify_service, Complaint, HealthReport, ComposePsEntry,
  classify_health, complaint, complain, report_entries, report_of, parse_health_report,
}

abbrev pub is_done : Option ℕ → Bool
is_done none = false
is_done (some code) = eqb code 0

-- What a report shows of a service, and what the output says of it.
abbrev pub shown : ServiceHealth → String × String
shown s = (s.name, s.service_status)

abbrev pub reported : ComposePsEntry → String × String
reported e = (e.name, e.service_status)

append_nil : {A : Type 0} (xs : List A) → xs ++ [] ≡ xs
append_nil [] = refl
append_nil (x ∷ xs) = ap (λ ys. x ∷ ys) (append_nil xs)

map_snoc :
    {A B : Type 0} (f : A → B) (xs : List A) (y : A)
    → map f (xs ++ (y ∷ [])) ≡ map f xs ++ (f y ∷ [])
map_snoc f [] y = refl
map_snoc f (x ∷ xs) y = ap (λ ys. f x ∷ ys) (map_snoc f xs y)

append_one :
    {A : Type 0} (xs : List A) (y : A) (zs : List A) → (xs ++ (y ∷ [])) ++ zs ≡ xs ++ (y ∷ zs)
append_one [] y zs = refl
append_one (x ∷ xs) y zs = ap (λ ys. x ∷ ys) (append_one xs y zs)

module _ (to_lower : String → String) (split : String → List String) where
  abbrev pub is_oneshot : ComposePsEntry → Bool
  is_oneshot e = any (λ label. label == "io.fleetdeck.lifecycle=oneshot") (split e.labels)

  -- A oneshot service has done its work, and any other runs, without its health check failing or
  -- still to come.
  abbrev pub is_up : ComposePsEntry → Bool
  is_up e =
      if is_oneshot e
      then to_lower e.state == "exited" && is_done e.exit_code
      else to_lower e.state == "running"
        && not (to_lower e.health == "unhealthy" || to_lower e.health == "starting")

  -- What the loop takes for a service that does not make the report unhealthy.
  abbrev passes : String → Bool → Bool
  passes health runs = health == "healthy" || health == "completed" || (health == "unknown" && runs)

  abbrev is_quiet : ComposePsEntry → Bool
  is_quiet e = passes (classify_health to_lower split e) (e.state == "running")

  passes_if :
      (b : Bool) (x y : String) (runs : Bool)
      → passes (if b then x else y) runs ≡ (if b then passes x runs else passes y runs)
  passes_if true x y runs = refl
  passes_if false x y runs = refl

  passes_words :
      (runs : Bool)
      → (passes "healthy" runs ≡ true)
        × (passes "completed" runs ≡ true)
        × (passes "unknown" runs ≡ runs)
        × (passes "unhealthy" runs ≡ false)
        × (passes "restarting" runs ≡ false)
        × (passes "starting" runs ≡ false)
  unfolding ◌==◌
  passes_words runs = (refl, refl, ground arith, refl, refl, refl)

  passes-oneshot :
      (state : String) (code : Option ℕ) (runs : Bool)
      → passes (classify_oneshot to_lower split state code) runs
        ≡ (state == "exited" && is_done code)
  passes-oneshot state none runs =
      let (healthy, completed, unknown, unhealthy, restarting, starting) = passes_words runs in
      passes_if (state == "exited" && false) _ _ runs
      ∙ rw (passes_if (state == "running" || state == "created") "starting" "unhealthy" runs)
          (rw (completed, unhealthy, starting) (ground arith))
  passes-oneshot state (some code) runs =
      let (healthy, completed, unknown, unhealthy, restarting, starting) = passes_words runs in
      passes_if (state == "exited" && eqb code 0) _ _ runs
      ∙ rw (passes_if (state == "running" || state == "created") "starting" "unhealthy" runs)
          (rw (completed, unhealthy, starting) (ground arith))

  words_apart :
      (("running" == "restarting") ≡ false)
      × (("healthy" == "unhealthy") ≡ false)
      × (("healthy" == "starting") ≡ false)
  unfolding ◌==◌
  words_apart = (refl, refl, refl)

  -- Of two words that differ, a text is at most one.
  one_word : (s a b : String) → (a == b) ≡ false → (s == a) ≡ true → (s == b) ≡ false
  one_word s a b apart e = ap (λ x. x == b) ((eq_iff s a).0 e) ∙ apart

  passes-health :
      (health : String) (runs : Bool)
      → passes
          (if health == "healthy"
            then "healthy"
            else if health == "unhealthy"
            then "unhealthy"
            else if health == "starting"
            then "starting"
            else "healthy")
          runs
        ≡ not (health == "unhealthy" || health == "starting")
  passes-health health runs =
      let (healthy, completed, unknown, unhealthy, restarting, starting) = passes_words runs in
      let last = if health == "starting" then "starting" else "healthy" in
      passes_if (health == "healthy") "healthy"
        (if health == "unhealthy" then "unhealthy" else last) runs
      ∙ rw (passes_if (health == "unhealthy") "unhealthy" last runs) (
          rw (passes_if (health == "starting") "starting" "healthy" runs) (
            rw (healthy, unhealthy, starting)
              (ground (
                arith,
                one_word health "healthy" "unhealthy" words_apart.1,
                one_word health "healthy" "starting" words_apart.2,
              ))))

  passes-service :
      (state health : String) (runs : Bool)
      → ((state == "running") ≡ false → runs ≡ false)
      → passes (classify_service to_lower split state health) runs
        ≡ (state == "running" && not (health == "unhealthy" || health == "starting"))
  passes-service state health runs apart =
      let (healthy, completed, unknown, unhealthy, restarting, starting) = passes_words runs in
      passes_if (state == "restarting") "restarting" _ runs
      ∙ rw (passes_if (not (state == "running")) "unknown" _ runs) (
          rw (passes-health health runs, restarting, unknown)
            (ground (arith, apart, one_word state "running" "restarting" words_apart.0)))

  is_quiet-is_up : (e : ComposePsEntry) → to_lower "running" ≡ "running" → is_quiet e ≡ is_up e
  unfolding classify_health
  is_quiet-is_up e lower = elim (Bool-cases (is_oneshot e)) [
    | inl oneshot ↦
        rw oneshot (passes-oneshot (to_lower e.state) e.exit_code (e.state == "running"))
    | inr service ↦ rw service (
        passes-service (to_lower e.state) (to_lower e.health) (e.state == "running") (λ other.
          elim (Bool-cases (e.state == "running")) [
            | inr off ↦ off
            | inl on ↦
                let same : to_lower e.state ≡ "running" =
                  ap to_lower ((eq_iff e.state "running").0 on) ∙ lower in
                let lit : (to_lower e.state == "running") ≡ true =
                  (eq_iff (to_lower e.state) "running").1 same in
                cc
          ]))
  ]

  classify_health_cases :
      (e : ComposePsEntry)
      → (classify_health to_lower split e ≡ "healthy")
        ⊎ (classify_health to_lower split e ≡ "completed")
        ⊎ (classify_health to_lower split e ≡ "unknown")
        ⊎ (classify_health to_lower split e ≡ "unhealthy")
        ⊎ (classify_health to_lower split e ≡ "restarting")
        ⊎ (classify_health to_lower split e ≡ "starting")
  unfolding classify_health
  classify_health_cases e = ground arith

  complain-services :
      (o : Option Complaint) (r : HealthReport)
      → (complain to_lower split o r).services ≡ r.services
  complain-services none r = refl
  complain-services (some c) r = refl

  complaint-is_quiet :
      (e : ComposePsEntry) (r : HealthReport)
      → (complain to_lower split (complaint to_lower split e) r).healthy ≡ (r.healthy && is_quiet e)
  unfolding complaint ◌==◌
  complaint-is_quiet e r = elim (classify_health_cases e) [
    | inl c ↦ rw c (ground arith)
    | inr (inl c) ↦ rw c (ground arith)
    | inr (inr (inl c)) ↦ rw c (ground arith)
    | inr (inr (inr (inl c))) ↦ rw c (ground arith)
    | inr (inr (inr (inr (inl c)))) ↦ rw c (ground arith)
    | inr (inr (inr (inr (inr c)))) ↦ rw c (ground arith)
  ]

  report_entries-is_quiet :
      (es : List ComposePsEntry) (r : HealthReport)
      → (report_entries to_lower split es r).healthy ≡ (r.healthy && all is_quiet es)
  unfolding report_entries
  report_entries-is_quiet [] r = ground arith
  report_entries-is_quiet (e ∷ es) r =
      report_entries-is_quiet es _
      ∙ ap (λ b. b && all is_quiet es) (complaint-is_quiet e _)
      ∙ ground arith

  all_quiet :
      to_lower "running" ≡ "running" → (es : List ComposePsEntry) → all is_quiet es ≡ all is_up es
  all_quiet lower [] = refl
  all_quiet lower (e ∷ es) =
      rw (is_quiet-is_up e lower) (ap (λ b. is_up e && b) (all_quiet lower es))

  abbrev service_of : ComposePsEntry → ServiceHealth
  service_of e = record {
    name = e.name;
    service_status = e.service_status;
    health = classify_health to_lower split e;
  }

  report_entries-services :
      {A : Type 0} (f : ServiceHealth → A) (g : ComposePsEntry → A)
      → ((e : ComposePsEntry) → f (service_of e) ≡ g e)
      → (es : List ComposePsEntry) (r : HealthReport)
      → map f (report_entries to_lower split es r).services ≡ map f r.services ++ map g es
  unfolding report_entries
  report_entries-services f g same [] r = sym (append_nil (map f r.services))
  report_entries-services f g same (e ∷ es) r =
      report_entries-services f g same es _
      ∙ ap (λ s. map f s ++ map g es) (complain-services (complaint to_lower split e) _)
      ∙ ap (λ xs. xs ++ map g es) (map_snoc f r.services (service_of e))
      ∙ append_one (map f r.services) (f (service_of e)) (map g es)
      ∙ ap (λ x. map f r.services ++ (x ∷ map g es)) (same e)

  -- Where the output decodes to at least one service, the report lists the services in the order of
  -- the output, each with its name and status. It is healthy exactly if each oneshot service has exited
  -- with code 0, and each other service is running with a health that is neither unhealthy nor
  -- starting, letter case aside; strings.ToLower is to keep the word running as it is.
  pub parse_health_report-is_up :
      (trim : String → String) (parse : String → Option (List ComposePsEntry)) (raw : String)
      (e : ComposePsEntry) (es : List ComposePsEntry)
      → to_lower "running" ≡ "running"
      → (trim raw == "") ≡ false
      → parse (trim raw) ≡ some (e ∷ es)
      → (w : HealthReport) × (parse_health_report to_lower split trim parse raw ≡ some w)
        × (w.healthy ≡ all is_up (e ∷ es))
        × (map shown w.services ≡ map reported (e ∷ es))
  unfolding parse_health_report
  parse_health_report-is_up trim parse raw e es lower more eq = (
    report_of to_lower split (e ∷ es),
    rw more (rw eq refl),
    report_entries-is_quiet (e ∷ es) _ ∙ all_quiet lower (e ∷ es),
    report_entries-services shown reported (λ x. refl) (e ∷ es) _,
  )
