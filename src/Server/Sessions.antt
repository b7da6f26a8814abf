-- ===== src/Server/Sessions.antt =====
-- internal/server/sessions.go: `sessionStore`. The mutex makes each operation one step; the instant
-- that `s.now()` answers is an argument, in nanoseconds, and so are the token that
-- `GenerateAPIToken` made and the SHA-256 of a token.
pub mod Lifetime
pub mod History
use fleetdeck.Prelude.{
  ℕ, zero, suc, ◌+◌, ◌-◌, ◌*◌, ◌≤◌, ◌<◌, ◌≡◌, refl, sym, ap, ◌∙◌, ◌≢◌, ◌↔◌, ◌⊎◌, inl, inr, Bool,
  true, false, not, ◌&&◌, ◌||◌, Option, none, some, List, [], ◌∷◌, ◌++◌, map, String, arith, ◌==◌,
  eq_iff, eq_refl, byte_length, ltb, leb, eqb, if◌then◌else◌, Bool-cases, Option-cases, length, all,
  any, All, length-append, Outcome, ok, err, ◌>>=◌, ◌>>◌, guard, Outcome-cases,
}
use fleetdeck.Prelude.Dict.{
  Dict, lookup, insert, delete, delete_if, lookup-insert, lookup-delete, length-insert,
  length-delete, length-delete_if, IsDistinct, drop_if, lookup-delete_if, insert-IsDistinct,
  delete-IsDistinct, delete_if-IsDistinct,
}

abbrev pub session_lifetime : ℕ
session_lifetime = 28800000000000

abbrev pub max_sessions : ℕ
max_sessions = 1024

pub record SessionEntry : Type 0 where
  pub expires : ℕ
  pub device : String
  pub subject : String
  pub groups : List String

pub data SessionError : Type 0 where
  no_token session_limit already_expired : SessionError

abbrev pub SessionStore : Type 0
SessionStore = Dict SessionEntry

abbrev pub new_session_store : SessionStore
new_session_store = []

-- `!now.Before(entry.expires)`
abbrev pub is_expired : ℕ → SessionEntry → Bool
is_expired now e = leb e.expires now

-- The answer for the entry found.
abbrev pub identified : String → String → ℕ → Option SessionEntry → Option SessionEntry
identified token device now none = none
identified token device now (some e) =
    if not (eqb (byte_length token) 64)
      || e.subject == ""
      || not (e.device == device)
      || is_expired now e
    then none
    else some e

abbrev pub grants : String → Bool → SessionEntry → Bool
grants device require_identity e =
    e.device == device && (not require_identity || not (e.subject == ""))

module _ (sha256 : String → String) where
  abbrev pub issue :
      String → SessionEntry → ℕ → SessionStore → Outcome SessionError String × SessionStore
  issue token e now s =
      if leb max_sessions (length s)
      then (err session_limit, s)
      else if leb e.expires now
      then (err already_expired, s)
      else (ok token, insert (sha256 token) e s)

  unfoldable pub create_identity_groups :
      Option String → SessionEntry → ℕ → SessionStore → Outcome SessionError String × SessionStore
  create_identity_groups none e now s = (err no_token, s)
  create_identity_groups (some token) e now s = issue token e now (delete_if (is_expired now) s)

  abbrev pub create_identity :
      Option String
      → String
      → String
      → ℕ
      → ℕ
      → SessionStore
      → Outcome SessionError String × SessionStore
  create_identity generated device subject expires now s =
      create_identity_groups generated
        (record { expires = expires; device = device; subject = subject; groups = [] }) now s

  -- The clock is read once for the expiry and again under the lock.
  abbrev pub create_for_device :
      Option String → String → ℕ → ℕ → SessionStore → Outcome SessionError String × SessionStore
  create_for_device generated device before now s =
      create_identity generated device "" (before + session_lifetime) now s

  unfoldable pub identity : String → String → ℕ → SessionStore → Option SessionEntry
  identity token device now s = identified token device now (lookup (sha256 token) s)

  abbrev pub after_find :
      String → String → Bool → ℕ → SessionStore → Option SessionEntry → Bool × SessionStore
  after_find token device require_identity now s none = (false, delete (sha256 token) s)
  after_find token device require_identity now s (some e) =
      if is_expired now e
      then (false, delete (sha256 token) s)
      else (grants device require_identity e, s)

  -- The answer, and the store without the entry where it has expired.
  unfoldable pub valid_session : String → String → Bool → ℕ → SessionStore → Bool × SessionStore
  valid_session token device require_identity now s =
      if eqb (byte_length token) 64
      then after_find token device require_identity now s (lookup (sha256 token) s)
      else (false, s)

  unfoldable pub revoke : String → SessionStore → SessionStore
  revoke token s = delete (sha256 token) s
