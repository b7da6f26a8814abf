-- ===== src/Server/RateLimit/Tables.antt =====
-- The rate limiter's table over any requests: its bound, and that a visitor's limiter is its own.
use fleetdeck.Prelude.{
  ltb, ℕ, ◌-◌, ◌≤◌, ◌<◌, ◌≡◌, refl, ap, ◌∙◌, ◌⊎◌, inl, inr, Bool, true, false, Option, none, some,
  String, arith, ◌==◌, eq_refl, leb, if◌then◌else◌, Bool-cases, length,
}
use fleetdeck.Prelude.Dict.{
  Dict, lookup, insert, lookup-insert, length-insert, length-delete_if, IsDistinct, drop_if,
  lookup-delete_if, insert-IsDistinct, delete_if-IsDistinct, length-insert_found,
}
use fleetdeck.Server.RateLimit.{
  max_rate_limit_visitors, minute, VisitorLimiter, IpLimiter, Place, visitor, shared, is_stale,
  cleanup, or_new, find_limiter, get_limiter, spend, allow_at, rate_limit_middleware,
}

module _ {L : Type 0} where
  pub record IsBounded (il : IpLimiter L) : Type 0 where
    pub distinct : IsDistinct il.limiters
    pub bounded : length il.limiters ≤ max_rate_limit_visitors

  -- Not seen for more than three minutes, in nanoseconds.
  abbrev pub is_gone : ℕ → VisitorLimiter L → Bool
  is_gone now v = ltb 180000000000 (now - v.last_seen)

  -- What a lookup finds after the cleanup, which comes a minute after the last one.
  abbrev pub kept : ℕ → IpLimiter L → Option (VisitorLimiter L) → Option (VisitorLimiter L)
  kept now il o = if leb 60000000000 (now - il.last_cleanup) then drop_if (is_gone now) o else o

  cleanup-IsBounded : (now : ℕ) (il : IpLimiter L) → IsBounded il → IsBounded (cleanup now il)
  unfolding cleanup
  cleanup-IsBounded now il h = elim (Bool-cases (leb minute (now - il.last_cleanup))) [
    | inl due ↦ rw due (record {
      distinct = delete_if-IsDistinct (is_stale now) il.limiters h.distinct;
      bounded = ground (arith, h.bounded, length-delete_if (is_stale now) il.limiters);
    })
    | inr early ↦ rw early h
  ]

  lookup-cleanup :
      (ip : String) (now : ℕ) (il : IpLimiter L)
      → IsBounded il
      → lookup ip (cleanup now il).limiters ≡ kept now il (lookup ip il.limiters)
  unfolding cleanup
  lookup-cleanup ip now il h = elim (Bool-cases (leb minute (now - il.last_cleanup))) [
    | inl due ↦ rw due (lookup-delete_if ip (is_stale now) il.limiters h.distinct)
    | inr early ↦ rw early refl
  ]

  module _ (new_limiter : L) (allow : L → ℕ → Bool × L) where
    set-IsBounded :
        (ip : String) (v : VisitorLimiter L) (il : IpLimiter L)
        → IsBounded il
        → (length il.limiters < max_rate_limit_visitors)
          ⊎ ((w : VisitorLimiter L) × (lookup ip il.limiters ≡ some w))
        → IsBounded (record il { limiters = insert ip v il.limiters })
    set-IsBounded ip v il h (inl room) = record {
      distinct = insert-IsDistinct ip v il.limiters h.distinct;
      bounded = ground (arith, room, length-insert ip v il.limiters);
    }
    set-IsBounded ip v il h (inr (w, found)) = record {
      distinct = insert-IsDistinct ip v il.limiters h.distinct;
      bounded = ground (arith, h.bounded, length-insert_found ip v w il.limiters found);
    }

    find_limiter-IsBounded :
        (ip : String) (now : ℕ) (il : IpLimiter L) (o : Option (VisitorLimiter L))
        → lookup ip il.limiters ≡ o
        → IsBounded il
        → IsBounded (find_limiter new_limiter ip now il o).1
    find_limiter-IsBounded ip now il none e h =
        elim (Bool-cases (leb max_rate_limit_visitors (length il.limiters))) [
          | inl full ↦ rw full (record { distinct = h.distinct; bounded = h.bounded })
          | inr room ↦ rw room (set-IsBounded ip _ il h (inl (ground (arith, room))))
        ]
    find_limiter-IsBounded ip now il (some v) e h = set-IsBounded ip _ il h (inr (v, e))

    spend-IsBounded :
        (ip : String) (now : ℕ) (il : IpLimiter L) (o : Option (VisitorLimiter L))
        → lookup ip il.limiters ≡ o
        → IsBounded il
        → IsBounded (spend new_limiter allow ip now il o).1
    spend-IsBounded ip now il none e h = h
    spend-IsBounded ip now il (some v) e h = set-IsBounded ip _ il h (inr (v, e))

    allow_at-IsBounded :
        (now : ℕ) (p : Place × IpLimiter L)
        → IsBounded p.1
        → IsBounded (allow_at new_limiter allow now p).1
    allow_at-IsBounded now (visitor ip, il) h =
        spend-IsBounded ip now il (lookup ip il.limiters) refl h
    allow_at-IsBounded now (shared, il) h = record { distinct = h.distinct; bounded = h.bounded }

    -- From a bounded table on, a request keeps it to at most 4096 visitors, each with one entry.
    pub rate_limit_middleware-IsBounded :
        (is_api : Bool) (ip : String) (now : ℕ) (il : IpLimiter L)
        → IsBounded il
        → IsBounded (rate_limit_middleware new_limiter allow is_api ip now il).1
    unfolding rate_limit_middleware get_limiter
    rate_limit_middleware-IsBounded false ip now il h = h
    rate_limit_middleware-IsBounded true ip now il h =
        allow_at-IsBounded now (get_limiter new_limiter ip now il) (
          find_limiter-IsBounded ip now (cleanup now il) (lookup ip (cleanup now il).limiters) refl
            (cleanup-IsBounded now il h))

    find_limiter-others :
        (ip j : String) (now : ℕ) (il : IpLimiter L) (o : Option (VisitorLimiter L))
        → (ip == j) ≡ false
        → lookup j (find_limiter new_limiter ip now il o).1.limiters ≡ lookup j il.limiters
    find_limiter-others ip j now il none ne =
        elim (Bool-cases (leb max_rate_limit_visitors (length il.limiters))) [
          | inl full ↦ rw full refl
          | inr room ↦ rw room (lookup-insert ip j _ il.limiters ∙ rw ne refl)
        ]
    find_limiter-others ip j now il (some v) ne = lookup-insert ip j _ il.limiters ∙ rw ne refl

    -- The limiter that a request is to be counted by: the visitor's own, a new one, or, where the
    -- table is full, the one that all further visitors share.
    abbrev pub consulted : IpLimiter L → Option (VisitorLimiter L) → L
    consulted il none =
        if leb max_rate_limit_visitors (length il.limiters)
        then or_new new_limiter il.overflow
        else new_limiter
    consulted il (some v) = v.limiter

    spend-found :
        (ip : String) (now : ℕ) (il : IpLimiter L) (v : VisitorLimiter L)
        → lookup ip il.limiters ≡ some v
        → (spend new_limiter allow ip now il (lookup ip il.limiters)).0 ≡ (allow v.limiter now).0
    spend-found ip now il v found = rw found refl

    lookup-set :
        (ip : String) (v : VisitorLimiter L) (m : Dict (VisitorLimiter L))
        → lookup ip (insert ip v m) ≡ some v
    lookup-set ip v m = lookup-insert ip ip v m ∙ rw (eq_refl ip) refl

    allow_at-consulted :
        (ip : String) (now : ℕ) (il : IpLimiter L) (o : Option (VisitorLimiter L))
        → (allow_at new_limiter allow now (find_limiter new_limiter ip now il o)).0
          ≡ (allow (consulted il o) now).0
    allow_at-consulted ip now il none =
        elim (Bool-cases (leb max_rate_limit_visitors (length il.limiters))) [
          | inl full ↦ rw full refl
          | inr room ↦ rw room (spend-found ip now _ _ (lookup-set ip _ il.limiters))
        ]
    allow_at-consulted ip now il (some v) = spend-found ip now _ _ (lookup-set ip _ il.limiters)

    -- Where the table is bounded, an API request passes exactly if the bucket it is to be counted by allows it at that instant.
    pub rate_limit_middleware-consulted :
        (ip : String) (now : ℕ) (il : IpLimiter L)
        → IsBounded il
        → (rate_limit_middleware new_limiter allow true ip now il).0
          ≡ (allow (consulted (cleanup now il) (kept now il (lookup ip il.limiters))) now).0
    unfolding rate_limit_middleware get_limiter
    rate_limit_middleware-consulted ip now il h =
        allow_at-consulted ip now (cleanup now il) (lookup ip (cleanup now il).limiters)
        ∙ ap (λ o. (allow (consulted (cleanup now il) o) now).0) (lookup-cleanup ip now il h)
