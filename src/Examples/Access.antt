-- ===== src/Examples/Access.antt =====
-- A session that is issued and checked, and requests through the rate limiter.
use fleetdeck.Prelude.{
  ℕ, ◌-◌, ◌≡◌, refl, Bool, true, false, ◌&&◌, Option, none, some, List, [], ◌∷◌, String, arith,
  ◌==◌, byte_length, ltb, eqb, if◌then◌else◌,
}
use fleetdeck.Prelude.Dict.{lookup, drop_if}
use fleetdeck.Server.Sessions.{SessionEntry, valid_session, identity, is_expired}
use fleetdeck.Server.Sessions.Lifetime.{Operation, create, check, holder}
use fleetdeck.Server.Sessions.History.{
  InOrder, IsSound, store_after, facts_after, store_after-IsSound, honours, valid_session-honours,
  named, identity-honours,
}
use fleetdeck.Server.RateLimit.{IpLimiter, cleanup, rate_limit_middleware}
use fleetdeck.Server.RateLimit.Tables.{
  IsBounded, kept, consulted, rate_limit_middleware-IsBounded, rate_limit_middleware-consulted,
}
use fleetdeck.Server.ClientIp.{is_trusted_proxy, client_ip, client_ip-AllTrusted}

-- A stand-in for the hash.
abbrev plain_hash : String → String
plain_hash t = t

abbrev token : String
token = "0123456789abcdef0123456789abcdef0123456789abcdef0123456789abcdef"

abbrev entry : SessionEntry
entry = record { expires = 100; device = ""; subject = "s"; groups = [] }

abbrev calls : List Operation
calls = check token "" false 20 ∷ create (some token) entry 10 ∷ []

calls-InOrder : InOrder calls
calls-InOrder = (omega arith, tt)

store_after-IsSound_example :
    IsSound 20 (store_after plain_hash calls) (facts_after plain_hash calls)
store_after-IsSound_example = store_after-IsSound plain_hash calls calls-InOrder

valid_session-honours_example :
    (valid_session plain_hash token "" true 30 (store_after plain_hash calls)).0 ≡ (
      eqb (byte_length token) 64
      && honours "" true
          (drop_if (is_expired 30) (holder (plain_hash token) (facts_after plain_hash calls))))
valid_session-honours_example =
    valid_session-honours plain_hash calls token "" true 30 calls-InOrder (omega arith)

identity-honours_example : identity plain_hash token "" 30 (store_after plain_hash calls) ≡ (
    if eqb (byte_length token) 64
    then named ""
        (drop_if (is_expired 30) (holder (plain_hash token) (facts_after plain_hash calls)))
    else none)
identity-honours_example = identity-honours plain_hash calls token "" 30 calls-InOrder (omega arith)

-- A bucket that counts down.
abbrev take_one : ℕ → ℕ → Bool × ℕ
take_one left now = (ltb 0 left, left - 1)

abbrev visited : IpLimiter ℕ
visited = record {
  last_cleanup = 5;
  overflow = none;
  limiters = ("1.1.1.1", record { limiter = 2; last_seen = 5 }) ∷ [];
}

visited-IsBounded : IsBounded visited
unfolding lookup
visited-IsBounded = record { distinct = (refl, tt); bounded = omega arith }

rate_limit_middleware-IsBounded_example :
    IsBounded (rate_limit_middleware 3 take_one true "2.2.2.2" 6 visited).1
rate_limit_middleware-IsBounded_example =
    rate_limit_middleware-IsBounded 3 take_one true "2.2.2.2" 6 visited visited-IsBounded

rate_limit_middleware-consulted_example :
    (rate_limit_middleware 3 take_one true "2.2.2.2" 6 visited).0
    ≡ (take_one
        (consulted 3 take_one
          (cleanup 6 visited)
          (kept 6 visited (lookup "2.2.2.2" visited.limiters)))
        6).0
rate_limit_middleware-consulted_example =
    rate_limit_middleware-consulted 3 take_one "2.2.2.2" 6 visited visited-IsBounded

-- A splitter for the two texts below.
abbrev parts_of : String → List String
parts_of s =
    if s == "9.9.9.9,7.7.7.7,10.0.0.2"
    then "9.9.9.9" ∷ "7.7.7.7" ∷ "10.0.0.2" ∷ []
    else "10.0.0.1" ∷ "10.0.0.2" ∷ []

abbrev untrimmed : String → String
untrimmed s = s

abbrev read_ip : String → Option String
read_ip s = some s

abbrev proxies_raw : String
proxies_raw = "10.0.0.1,10.0.0.2"

client_ip-AllTrusted_example :
    client_ip parts_of untrimmed read_ip proxies_raw "10.0.0.1" "9.9.9.9,7.7.7.7,10.0.0.2"
    ≡ "7.7.7.7"
unfolding is_trusted_proxy ◌==◌
client_ip-AllTrusted_example =
    client_ip-AllTrusted parts_of untrimmed read_ip proxies_raw "10.0.0.1"
      "9.9.9.9,7.7.7.7,10.0.0.2" "7.7.7.7" "7.7.7.7" ("9.9.9.9" ∷ []) ("10.0.0.2" ∷ []) refl refl
      (("10.0.0.2", refl, refl), tt) refl refl
