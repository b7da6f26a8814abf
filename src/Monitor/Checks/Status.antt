-- ===== src/Monitor/Checks/Status.antt =====
-- What a check reports, against the answers of the target and of what it redirects to.
use fleetdeck.Prelude.{
  ℕ, zero, suc, ◌+◌, ◌≡◌, refl, ap, ◌∙◌, inl, inr, Bool, true, false, Option, some, List, [], ◌∷◌,
  String, arith, ◌==◌, leb, eqb, if◌then◌else◌, Bool-cases, length, any,
}
use fleetdeck.Monitor.Types.{Target, health_status}
use fleetdeck.Monitor.Checks.{
  Redirect, Exchange, not_built, no_response, responded, number_or, or_else, unchecked, follow,
  use_last_response, too_many, check_redirect, after_exchange, check_once,
}

abbrev pub take : {A : Type 0} → ℕ → List A → List A
take zero xs = []
take (suc n) [] = []
take (suc n) (x ∷ xs) = x ∷ take n xs

-- A response that redirects: its status, its header Cf-Mitigated and the time until then.
pub record Hop : Type 0 where
  pub code : ℕ
  pub mitigated : String
  pub took : ℕ

-- What a request meets: the responses that redirect, and what the last request comes to. The error is
-- the one that a redirect too many is reported with.
pub record Trip : Type 0 where
  pub redirects : List Hop
  pub last : Exchange
  pub error : String

-- What net/http documents for CheckRedirect: it is asked at each redirect, with the response and the
-- number of requests so far. It may have the redirect followed, this response returned, or an error.
abbrev pub decided : Redirect → String → Hop → Exchange → Exchange
decided follow error hop rest = rest
decided use_last_response error hop rest = responded hop.code hop.mitigated hop.took
decided too_many error hop rest = no_response error hop.took

abbrev pub walk : (Option String → ℕ → Redirect) → String → ℕ → List Hop → Exchange → Exchange
walk policy error via [] last = last
walk policy error via (hop ∷ hops) last =
    decided (policy (some hop.mitigated) via) error hop (walk policy error (via + 1) hops last)

-- The client answers with what the policy makes of the trip.
abbrev pub Answers :
    (String → String → ℕ → (Option String → ℕ → Redirect) → Exchange)
    → (String → String → ℕ → Trip)
    → Type 0
Answers exchange server =
    (method url : String) (timeout : ℕ) (policy : Option String → ℕ → Redirect)
    → exchange method url timeout policy
      ≡ walk policy (server method url timeout).error 1 (server method url timeout).redirects
          (server method url timeout).last

module _ (trim : String → String) (equal_fold : String → String → Bool) where
  -- The header says challenge, blanks around it and letter case aside.
  abbrev pub says_challenge : String → Bool
  says_challenge mitigated = equal_fold (trim mitigated) "challenge"

  -- The status that the end of a trip stands for.
  abbrev pub last_status : ℕ → Exchange → String
  last_status expected (not_built e) = "unhealthy"
  last_status expected (no_response e took) = "unhealthy"
  last_status expected (responded code mitigated took) =
      if says_challenge mitigated
      then "blocked"
      else if eqb code expected
      then "healthy"
      else "unhealthy"

  -- The status that a trip stands for, where the redirect of that number is one too many.
  abbrev pub trip_status : ℕ → ℕ → List Hop → Exchange → String
  trip_status limit expected hops last =
      if any (λ (h : Hop). says_challenge h.mitigated) (take limit hops)
      then "blocked"
      else if leb limit (length hops)
      then "unhealthy"
      else last_status expected last

  after_exchange-status :
      (target : Target) (at expected : ℕ) (x : Exchange)
      → health_status (after_exchange trim equal_fold (unchecked target at) expected x)
        ≡ last_status expected x
  unfolding health_status ◌==◌
  after_exchange-status target at expected (not_built e) = refl
  after_exchange-status target at expected (no_response e took) = refl
  after_exchange-status target at expected (responded code mitigated took) =
      elim (Bool-cases (says_challenge mitigated)) [ inl c ↦ rw c refl | inr c ↦ rw c refl ]

  last_status_challenge :
      (expected : ℕ) (hop : Hop)
      → says_challenge hop.mitigated ≡ true
      → last_status expected (responded hop.code hop.mitigated hop.took) ≡ "blocked"
  last_status_challenge expected hop c =
      ap (λ b. if b then "blocked" else if eqb hop.code expected then "healthy" else "unhealthy") c

  leb-suc : (a b : ℕ) → leb (suc a) b ≡ leb (suc (suc a)) (suc b)
  leb-suc a b = ground arith

  -- The status after a redirect that was followed.
  abbrev trip_rest : List Hop → Exchange → ℕ → ℕ → Bool → String
  trip_rest hops last expected left past =
      if any (λ (h : Hop). says_challenge h.mitigated) (take (suc left) hops)
      then "blocked"
      else if past
      then "unhealthy"
      else last_status expected last

  decided-status :
      (expected via : ℕ) (error : String) (hop : Hop) (rest : Exchange) (d : Redirect)
      → check_redirect trim equal_fold (some hop.mitigated) via ≡ d
      → last_status expected
          (decided (check_redirect trim equal_fold (some hop.mitigated) via) error hop rest)
        ≡ last_status expected (decided d error hop rest)
  decided-status expected via error hop rest d e =
      ap (λ x. last_status expected (decided x error hop rest)) e

  -- From a request on: `left` redirects are followed before the one that is too many.
  walk-status :
      (expected via left : ℕ) (error : String) (hops : List Hop) (last : Exchange)
      → via + left ≡ 10
      → last_status expected (walk (check_redirect trim equal_fold) error via hops last)
        ≡ trip_status (suc left) expected hops last
  walk-status expected via left error [] last e =
      let short : leb (suc left) 0 ≡ false = ground arith in rw short refl
  walk-status expected via zero error (hop ∷ hops) last e =
      let full : leb 10 via ≡ true = ground (arith, e) in
      elim (Bool-cases (says_challenge hop.mitigated)) [
        | inl c ↦
            decided-status expected via error hop _ use_last_response (rw c refl)
            ∙ last_status_challenge expected hop c
            ∙ rw c refl
        | inr c ↦
            decided-status expected via error hop _ too_many (rw (c, full) refl)
            ∙ (let past : leb 1 (length (hop ∷ hops)) ≡ true = ground arith in rw (c, past) refl)
      ]
  walk-status expected via (suc left) error (hop ∷ hops) last e =
      let more : leb 10 via ≡ false = ground (arith, e) in
      elim (Bool-cases (says_challenge hop.mitigated)) [
        | inl c ↦
            decided-status expected via error hop _ use_last_response (rw c refl)
            ∙ last_status_challenge expected hop c
            ∙ rw c refl
        | inr c ↦
            decided-status expected via error hop _ follow (rw (c, more) refl)
            ∙ walk-status expected (via + 1) left error hops last (omega (arith, e))
            ∙ rw c (ap (trip_rest hops last expected left) (leb-suc left (length hops)))
      ]

  -- Where the client treats redirects as net/http documents, a check reports blocked exactly if one of
  -- the first ten responses that redirect is a challenge, or if there are fewer than ten and the last
  -- response is one. Without a challenge it reports unhealthy after ten redirects. Otherwise it reports
  -- healthy exactly if the last response has the expected status, 200 where none is set.
  pub check_once-status :
      (exchange : String → String → ℕ → (Option String → ℕ → Redirect) → Exchange)
      (server : String → String → ℕ → Trip) (target : Target) (at : ℕ)
      → Answers exchange server
      → health_status (check_once trim equal_fold exchange target at) ≡ (
          let trip =
            server
              (or_else target.method "GET")
              target.url
              (number_or target.timeout 10000000000) in
          trip_status 10 (number_or target.expected_status 200) trip.redirects trip.last)
  unfolding check_once
  check_once-status exchange server target at answers =
      let trip =
        server (or_else target.method "GET") target.url (number_or target.timeout 10000000000) in
      let expected = number_or target.expected_status 200 in
      after_exchange-status target at expected _
      ∙ ap (last_status expected) (answers _ _ _ (check_redirect trim equal_fold))
      ∙ walk-status expected 1 9 trip.error trip.redirects trip.last refl
