-- ===== src/Server/Sessions/History.antt =====
-- The session store after any calls: its bound, and the sessions that it honours.
use fleetdeck.Prelude.{
  ℕ, ◌≤◌, ◌≡◌, refl, sym, ap, ◌∙◌, inl, inr, Bool, true, false, ◌&&◌, Option, none, some, List, [],
  ◌∷◌, String, arith, byte_length, leb, eqb, if◌then◌else◌, Bool-cases, length,
}
use fleetdeck.Prelude.Dict.{
  lookup, delete, delete_if, length-insert, length-delete, length-delete_if, IsDistinct, drop_if,
  insert-IsDistinct, delete-IsDistinct, delete_if-IsDistinct,
}
use fleetdeck.Server.Sessions.{
  max_sessions, SessionEntry, SessionStore, new_session_store, is_expired, create_identity_groups,
  issue, identity, identified, grants, after_find, valid_session, revoke,
}
use fleetdeck.Server.Sessions.Lifetime.{
  Operation, create, check, withdraw, Fact, instant, holder, noted, perform, record_facts, Agrees,
  Agrees-later, purge-Agrees, insert-Agrees, delete-Agrees, expire-Agrees,
}

-- The clock does not go back from one call to the next; the calls are given the latest first.
abbrev pub InOrder : List Operation → Type 0
InOrder [] = Unit
InOrder (o ∷ []) = Unit
InOrder (o ∷ p ∷ os) = (instant p ≤ instant o) × InOrder (p ∷ os)

abbrev pub latest : List Operation → ℕ
latest [] = 0
latest (o ∷ os) = instant o

-- What every call keeps.
pub record IsSound (t : ℕ) (s : SessionStore) (fs : List Fact) : Type 0 where
  pub distinct : IsDistinct s
  pub bounded : length s ≤ max_sessions
  pub agrees : Agrees t s fs

-- The answer of `valid_session` for what the facts say of the token.
abbrev pub honours : String → Bool → Option SessionEntry → Bool
honours device r none = false
honours device r (some e) = grants device r e

abbrev pub named : String → Option SessionEntry → Option SessionEntry
named device none = none
named device (some e) = if grants device true e then some e else none

identified-named :
    (token device : String) (now : ℕ) (o : Option SessionEntry)
    → identified token device now o
      ≡ (if eqb (byte_length token) 64 then named device (drop_if (is_expired now) o) else none)
identified-named token device now none = ground arith
identified-named token device now (some e) = ground arith

module _ (sha256 : String → String) where
  abbrev pub store_after : List Operation → SessionStore
  store_after [] = new_session_store
  store_after (o ∷ os) = perform sha256 o (store_after os)

  abbrev pub facts_after : List Operation → List Fact
  facts_after [] = []
  facts_after (o ∷ os) = record_facts sha256 o (store_after os) (facts_after os)

  issue-IsSound :
      (token : String) (e : SessionEntry) (t : ℕ) (s : SessionStore) (fs : List Fact)
      → IsSound t s fs
      → IsSound t (issue sha256 token e t s).1 (noted sha256 e (issue sha256 token e t s).0 fs)
  issue-IsSound token e t s fs h = elim (Bool-cases (leb max_sessions (length s))) [
    | inl full ↦ rw full h
    | inr room ↦ elim (Bool-cases (leb e.expires t)) [
      | inl late ↦ rw room (rw late h)
      | inr runs ↦ rw room (
          rw runs (record {
            distinct = insert-IsDistinct (sha256 token) e s h.distinct;
            bounded = ground (arith, length-insert (sha256 token) e s);
            agrees = insert-Agrees t (sha256 token) e s fs h.agrees;
          }))
    ]
  ]

  create-IsSound :
      (g : Option String) (e : SessionEntry) (t : ℕ) (s : SessionStore) (fs : List Fact)
      → IsSound t s fs
      → IsSound t
          (create_identity_groups sha256 g e t s).1
          (noted sha256 e (create_identity_groups sha256 g e t s).0 fs)
  unfolding create_identity_groups
  create-IsSound none e t s fs h = h
  create-IsSound (some token) e t s fs h =
      issue-IsSound token e t (delete_if (is_expired t) s) fs (record {
        distinct = delete_if-IsDistinct (is_expired t) s h.distinct;
        bounded = ground (arith, h.bounded, length-delete_if (is_expired t) s);
        agrees = purge-Agrees t s fs h.distinct h.agrees;
      })

  gone-IsSound :
      (j : String) (t : ℕ) (s : SessionStore) (fs : List Fact)
      → drop_if (is_expired t) (lookup j s) ≡ none
      → IsSound t s fs
      → IsSound t (delete j s) fs
  gone-IsSound j t s fs gone h = record {
    distinct = delete-IsDistinct j s h.distinct;
    bounded = ground (arith, h.bounded, length-delete j s);
    agrees = expire-Agrees t j s fs gone h.agrees;
  }

  after_find-IsSound :
      (token device : String) (r : Bool) (t : ℕ) (s : SessionStore) (fs : List Fact)
      (o : Option SessionEntry)
      → lookup (sha256 token) s ≡ o
      → IsSound t s fs
      → IsSound t (after_find sha256 token device r t s o).1 fs
  after_find-IsSound token device r t s fs none e h =
      gone-IsSound (sha256 token) t s fs (ap (drop_if (is_expired t)) e) h
  after_find-IsSound token device r t s fs (some x) e h = elim (Bool-cases (is_expired t x)) [
    | inl late ↦ rw late (
        gone-IsSound (sha256 token) t s fs (ap (drop_if (is_expired t)) e ∙ ground (arith, late)) h)
    | inr runs ↦ rw runs h
  ]

  check-IsSound :
      (token device : String) (r : Bool) (t : ℕ) (s : SessionStore) (fs : List Fact)
      → IsSound t s fs
      → IsSound t (valid_session sha256 token device r t s).1 fs
  unfolding valid_session
  check-IsSound token device r t s fs h = elim (Bool-cases (eqb (byte_length token) 64)) [
    | inl good ↦ rw good (after_find-IsSound token device r t s fs (lookup (sha256 token) s) refl h)
    | inr bad ↦ rw bad h
  ]

  perform-IsSound :
      (o : Operation) (s : SessionStore) (fs : List Fact)
      → IsSound (instant o) s fs
      → IsSound (instant o) (perform sha256 o s) (record_facts sha256 o s fs)
  unfolding perform record_facts revoke
  perform-IsSound (create g e t) s fs h = create-IsSound g e t s fs h
  perform-IsSound (check token d r t) s fs h = check-IsSound token d r t s fs h
  perform-IsSound (withdraw token t) s fs h = record {
    distinct = delete-IsDistinct (sha256 token) s h.distinct;
    bounded = ground (arith, h.bounded, length-delete (sha256 token) s);
    agrees = delete-Agrees t (sha256 token) s fs h.agrees;
  }

  IsSound-later :
      (t u : ℕ) (s : SessionStore) (fs : List Fact) → t ≤ u → IsSound t s fs → IsSound u s fs
  IsSound-later t u s fs le h = record {
    distinct = h.distinct;
    bounded = h.bounded;
    agrees = Agrees-later t u s fs le h.agrees;
  }

  -- After any calls in the order of time, the store has at most one entry for each key and at most
  -- 1024 in all, and the sessions of it that still run are those that were issued and neither
  -- replaced nor revoked since.
  pub store_after-IsSound :
      (os : List Operation) → InOrder os → IsSound (latest os) (store_after os) (facts_after os)
  unfolding lookup
  store_after-IsSound [] h = record { distinct = tt; bounded = omega arith; agrees = λ k. refl }
  store_after-IsSound (o ∷ []) h =
      perform-IsSound o [] [] (record { distinct = tt; bounded = omega arith; agrees = λ k. refl })
  store_after-IsSound (o ∷ p ∷ os) h =
      perform-IsSound o (store_after (p ∷ os)) (facts_after (p ∷ os)) (
        IsSound-later (instant p) (instant o) (store_after (p ∷ os)) (facts_after (p ∷ os)) h.0
          (store_after-IsSound (p ∷ os) h.1))

  after_find-honours :
      (token device : String) (r : Bool) (t : ℕ) (s : SessionStore) (o : Option SessionEntry)
      → (after_find sha256 token device r t s o).0 ≡ honours device r (drop_if (is_expired t) o)
  after_find-honours token device r t s none = refl
  after_find-honours token device r t s (some e) = ground arith

  -- After any calls in the order of time, a token of 64 bytes is valid exactly if a session was
  -- issued for it, was neither replaced nor revoked since, has not expired, belongs to the device,
  -- and has a subject where one is asked for. Neither the purges nor the checks of other tokens
  -- change that.
  pub valid_session-honours :
      (os : List Operation) (token device : String) (r : Bool) (now : ℕ)
      → InOrder os
      → latest os ≤ now
      → (valid_session sha256 token device r now (store_after os)).0 ≡ (
          eqb (byte_length token) 64
          && honours device r (drop_if (is_expired now) (holder (sha256 token) (facts_after os))))
  unfolding valid_session
  valid_session-honours os token device r now h late =
      let k = sha256 token in
      let sound =
        IsSound-later (latest os) now (store_after os) (facts_after os) late
          (store_after-IsSound os h) in
      elim (Bool-cases (eqb (byte_length token) 64)) [
        | inl good ↦ rw good (
            after_find-honours token device r now (store_after os) (lookup k (store_after os))
            ∙ ap (honours device r) (sound.agrees k))
        | inr bad ↦ rw bad refl
      ]

  -- After any calls in the order of time, `identity` answers with a session exactly where
  -- `valid_session` with a subject asked for would accept the token, and it is the one issued.
  pub identity-honours :
      (os : List Operation) (token device : String) (now : ℕ)
      → InOrder os
      → latest os ≤ now
      → identity sha256 token device now (store_after os) ≡ (
          if eqb (byte_length token) 64
          then named device (drop_if (is_expired now) (holder (sha256 token) (facts_after os)))
          else none)
  unfolding identity
  identity-honours os token device now h late =
      let k = sha256 token in
      let sound =
        IsSound-later (latest os) now (store_after os) (facts_after os) late
          (store_after-IsSound os h) in
      rw (sym (sound.agrees k)) (identified-named token device now (lookup k (store_after os)))
