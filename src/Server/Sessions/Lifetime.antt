-- ===== src/Server/Sessions/Lifetime.antt =====
-- The session store against the sessions that were issued and revoked: the purges are not seen.
use fleetdeck.Prelude.{
  ℕ, ◌≤◌, ◌≡◌, refl, sym, ap, ◌∙◌, Bool, Option, none, some, List, [], ◌∷◌, String, arith, ◌==◌,
  eq_iff, if◌then◌else◌, Outcome, ok, err,
}
use fleetdeck.Prelude.Dict.{
  lookup, insert, delete, delete_if, lookup-insert, lookup-delete, IsDistinct, drop_if,
  lookup-delete_if,
}
use fleetdeck.Server.Sessions.{
  SessionEntry, SessionStore, SessionError, is_expired, create_identity_groups, valid_session,
  revoke,
}

-- The calls, each with what `GenerateAPIToken` and the clock answer.
pub data Operation : Type 0 where
  create : Option String → SessionEntry → ℕ → Operation
  check : String → String → Bool → ℕ → Operation
  withdraw : String → ℕ → Operation

-- What a call did to the sessions as their owners see them.
pub data Fact : Type 0 where
  issued : String → SessionEntry → Fact
  withdrawn : String → Fact

abbrev pub instant : Operation → ℕ
instant (create g e now) = now
instant (check t d r now) = now
instant (withdraw t now) = now

-- The session that a key stands for by the facts, the latest first.
abbrev pub holder : String → List Fact → Option SessionEntry
holder k [] = none
holder k (issued j e ∷ fs) = if j == k then some e else holder k fs
holder k (withdrawn j ∷ fs) = if j == k then none else holder k fs

module _ (sha256 : String → String) where
  abbrev pub noted : SessionEntry → Outcome SessionError String → List Fact → List Fact
  noted e (ok token) fs = issued (sha256 token) e ∷ fs
  noted e (err r) fs = fs

  unfoldable pub perform : Operation → SessionStore → SessionStore
  perform (create g e now) s = (create_identity_groups sha256 g e now s).1
  perform (check t d r now) s = (valid_session sha256 t d r now s).1
  perform (withdraw t now) s = revoke sha256 t s

  unfoldable pub record_facts : Operation → SessionStore → List Fact → List Fact
  record_facts (create g e now) s fs = noted e (create_identity_groups sha256 g e now s).0 fs
  record_facts (check t d r now) s fs = fs
  record_facts (withdraw t now) s fs = withdrawn (sha256 t) ∷ fs

-- The sessions that still run at an instant are those of the facts.
abbrev pub Agrees : ℕ → SessionStore → List Fact → Type 0
Agrees t s fs =
    (k : String) → drop_if (is_expired t) (lookup k s) ≡ drop_if (is_expired t) (holder k fs)

pub drop_if-later :
    (t u : ℕ) (o : Option SessionEntry)
    → t ≤ u
    → drop_if (is_expired u) (drop_if (is_expired t) o) ≡ drop_if (is_expired u) o
drop_if-later t u none h = refl
drop_if-later t u (some e) h = ground arith

pub Agrees-later :
    (t u : ℕ) (s : SessionStore) (fs : List Fact) → t ≤ u → Agrees t s fs → Agrees u s fs
Agrees-later t u s fs h a k =
    sym (drop_if-later t u (lookup k s) h)
    ∙ ap (drop_if (is_expired u)) (a k)
    ∙ drop_if-later t u (holder k fs) h

pub purge-Agrees :
    (t : ℕ) (s : SessionStore) (fs : List Fact)
    → IsDistinct s
    → Agrees t s fs
    → Agrees t (delete_if (is_expired t) s) fs
purge-Agrees t s fs d a k =
    ap (drop_if (is_expired t)) (lookup-delete_if k (is_expired t) s d)
    ∙ drop_if-later t t (lookup k s) (omega arith)
    ∙ a k

pub insert-Agrees :
    (t : ℕ) (j : String) (e : SessionEntry) (s : SessionStore) (fs : List Fact)
    → Agrees t s fs
    → Agrees t (insert j e s) (issued j e ∷ fs)
insert-Agrees t j e s fs a k = ground (arith, lookup-insert j k e s, a k)

pub delete-Agrees :
    (t : ℕ) (j : String) (s : SessionStore) (fs : List Fact)
    → Agrees t s fs
    → Agrees t (delete j s) (withdrawn j ∷ fs)
delete-Agrees t j s fs a k = ground (arith, lookup-delete j k s, a k)

-- To delete an entry that no longer runs is not seen.
pub expire-Agrees :
    (t : ℕ) (j : String) (s : SessionStore) (fs : List Fact)
    → drop_if (is_expired t) (lookup j s) ≡ none
    → Agrees t s fs
    → Agrees t (delete j s) fs
expire-Agrees t j s fs gone a k = ground (arith, eq_iff j k, lookup-delete j k s, a k)
