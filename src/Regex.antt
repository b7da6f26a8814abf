-- ===== src/Regex.antt =====
-- The regular expressions that the program hands to Go's regexp package, all of them anchored at
-- both ends: their meaning as a relation, and a matcher by derivatives that decides it.
pub mod Correct
use fleetdeck.Prelude.{
  ℕ, zero, suc, ◌≡◌, Bool, true, false, ◌&&◌, ◌||◌, List, [], ◌∷◌, ◌++◌, String, leb, eqb,
  if◌then◌else◌,
}
use fleetdeck.Prelude.Texts.{codes}

pub data Regex : Type 0 where
  never : Regex
  eps : Regex
  class : (ℕ → Bool) → Regex
  cat : Regex → Regex → Regex
  alt : Regex → Regex → Regex
  star : Regex → Regex

-- The texts that an expression matches from end to end.
pub data Matches : Regex → List ℕ → Type 0 where
  empty : Matches eps []
  one : {p : ℕ → Bool} {c : ℕ} → p c ≡ true → Matches (class p) (c ∷ [])
  join :
      {r q : Regex} {s t u : List ℕ} → s ++ t ≡ u → Matches r s → Matches q t → Matches (cat r q) u
  left : {r q : Regex} {s : List ℕ} → Matches r s → Matches (alt r q) s
  right : {r q : Regex} {s : List ℕ} → Matches q s → Matches (alt r q) s
  done : {r : Regex} → Matches (star r) []
  more :
      {r : Regex} {c : ℕ} {s t u : List ℕ}
      → c ∷ (s ++ t) ≡ u
      → Matches r (c ∷ s)
      → Matches (star r) t
      → Matches (star r) u

unfoldable pub nullable : Regex → Bool
nullable never = false
nullable eps = true
nullable (class p) = false
nullable (cat r q) = nullable r && nullable q
nullable (alt r q) = nullable r || nullable q
nullable (star r) = true

-- `cat` and `alt` that keep derivatives small.
unfoldable pub seq : Regex → Regex → Regex
seq never q = never
seq eps q = q
seq r q = cat r q

unfoldable pub choice : Regex → Regex → Regex
choice never q = q
choice r never = r
choice r q = alt r q

-- What is left to match after the character `c`.
unfoldable pub deriv : ℕ → Regex → Regex
unfolding seq choice
deriv c never = never
deriv c eps = never
deriv c (class p) = if p c then eps else never
deriv c (cat r q) =
    let first = seq (deriv c r) q in
    let second = deriv c q in if nullable r then choice first second else first
deriv c (alt r q) = choice (deriv c r) (deriv c q)
deriv c (star r) = seq (deriv c r) (star r)

unfoldable pub accepts : Regex → List ℕ → Bool
unfolding deriv nullable
accepts r [] = nullable r
accepts r (c ∷ s) = accepts (deriv c r) s

-- `pattern.MatchString(text)` for an anchored pattern.
unfoldable pub match_string : Regex → String → Bool
unfolding accepts
match_string r s = accepts r (codes s)

-- `r{n}`
unfoldable pub times : ℕ → Regex → Regex
times zero r = eps
times (suc n) r = cat r (times n r)

-- `r{0,n}`
unfoldable pub upto : ℕ → Regex → Regex
upto zero r = eps
upto (suc n) r = alt eps (cat r (upto n r))

-- `r+`
unfoldable pub plus : Regex → Regex
plus r = cat r (star r)

abbrev pub is_lower : ℕ → Bool
is_lower c = leb b'a' c && leb c b'z'

abbrev pub is_upper : ℕ → Bool
is_upper c = leb b'A' c && leb c b'Z'

abbrev pub is_digit : ℕ → Bool
is_digit c = leb b'0' c && leb c b'9'

abbrev pub is_hex : ℕ → Bool
is_hex c = leb b'a' c && leb c b'f' || is_digit c

-- A literal text.
unfoldable pub literal : List ℕ → Regex
literal [] = eps
literal (c ∷ s) = cat (class (eqb c)) (literal s)
