-- ===== src/Server/RateLimit.antt =====
-- internal/server/ratelimit.go: `ipLimiter` and `rateLimitMiddleware`. The token bucket of
-- golang.org/x/time/rate is a parameter: a new bucket, and what `Allow` answers and leaves. A limiter
-- that `getLimiter` returns is the place it is kept at. Instants are in nanoseconds.
pub mod Tables
use fleetdeck.Prelude.{
  ℕ, zero, suc, ◌+◌, ◌-◌, ◌*◌, ◌≤◌, ◌<◌, ◌≡◌, refl, sym, ap, ◌∙◌, ◌≢◌, ◌↔◌, ◌⊎◌, inl, inr, Bool,
  true, false, not, ◌&&◌, ◌||◌, Option, none, some, List, [], ◌∷◌, ◌++◌, map, String, arith, ◌==◌,
  eq_iff, eq_refl, byte_length, ltb, leb, eqb, if◌then◌else◌, Bool-cases, Option-cases, length, all,
  any, All, length-append, rev_onto, rev_onto-append, is_nil, Outcome, ok, err, ◌>>=◌, ◌>>◌, guard,
  Outcome-cases,
}
use fleetdeck.Prelude.Dict.{
  Dict, lookup, insert, delete, delete_if, lookup-insert, lookup-delete, length-insert,
  length-delete, length-delete_if, IsDistinct, drop_if, lookup-delete_if, insert-IsDistinct,
  delete-IsDistinct, delete_if-IsDistinct, length-insert_found,
}

abbrev pub max_rate_limit_visitors : ℕ
max_rate_limit_visitors = 4096

abbrev pub minute : ℕ
minute = 60000000000

pub record VisitorLimiter (L : Type 0) : Type 0 where
  pub limiter : L
  pub last_seen : ℕ

pub record IpLimiter (L : Type 0) : Type 0 where
  pub last_cleanup : ℕ
  pub overflow : Option L
  pub limiters : Dict (VisitorLimiter L)

-- The limiter that a request is counted by.
pub data Place : Type 0 where
  visitor : String → Place
  shared : Place

module _ {L : Type 0} where
  abbrev pub new_ip_limiter : IpLimiter L
  new_ip_limiter = record { last_cleanup = 0; overflow = none; limiters = [] }

  abbrev pub is_stale : ℕ → VisitorLimiter L → Bool
  is_stale now v = ltb (3 * minute) (now - v.last_seen)

  unfoldable pub cleanup : ℕ → IpLimiter L → IpLimiter L
  cleanup now il =
      if leb minute (now - il.last_cleanup)
      then record il { last_cleanup = now; limiters = delete_if (is_stale now) il.limiters }
      else il

  module _ (new_limiter : L) where
    abbrev pub or_new : Option L → L
    or_new none = new_limiter
    or_new (some l) = l

    abbrev pub find_limiter :
        String → ℕ → IpLimiter L → Option (VisitorLimiter L) → Place × IpLimiter L
    find_limiter ip now il none =
        if leb max_rate_limit_visitors (length il.limiters)
        then (shared, record il { overflow = some (or_new il.overflow) })
        else (
          visitor ip,
          record il {
            limiters = insert ip (record { limiter = new_limiter; last_seen = now }) il.limiters;
          },
        )
    find_limiter ip now il (some v) =
        (visitor ip, record il { limiters = insert ip (record v { last_seen = now }) il.limiters })

    unfoldable pub get_limiter : String → ℕ → IpLimiter L → Place × IpLimiter L
    get_limiter ip now il =
        let cleaned = cleanup now il in find_limiter ip now cleaned (lookup ip cleaned.limiters)

    module _ (allow : L → ℕ → Bool × L) where
      abbrev pub spend : String → ℕ → IpLimiter L → Option (VisitorLimiter L) → Bool × IpLimiter L
      spend ip now il none = (false, il)
      spend ip now il (some v) =
          let (answer, l) = allow v.limiter now in
          (answer, record il { limiters = insert ip (record v { limiter = l }) il.limiters })

      -- `Allow` on the limiter at the place.
      abbrev pub allow_at : ℕ → Place × IpLimiter L → Bool × IpLimiter L
      allow_at now (visitor ip, il) = spend ip now il (lookup ip il.limiters)
      allow_at now (shared, il) =
          let (answer, l) = allow (or_new il.overflow) now in
          (answer, record il { overflow = some l })

      -- Whether a request for the path from the address passes.
      unfoldable pub rate_limit_middleware : Bool → String → ℕ → IpLimiter L → Bool × IpLimiter L
      rate_limit_middleware is_api ip now il =
          if is_api then allow_at now (get_limiter ip now il) else (true, il)

      -- `loginRateLimit`: whether a login attempt passes, over a limiter of its own.
      abbrev pub login_rate_limit : String → ℕ → IpLimiter L → Bool × IpLimiter L
      login_rate_limit ip now il = allow_at now (get_limiter ip now il)
