-- ===== src/Prelude/Texts.antt =====
-- Texts as lists of code points: the bytes of a text, where it is ASCII.
use Prim.Native.Nat.{ℕ, ◌+◌}
use Prim.Native.Char.{code}
use Prim.Native.String.{String}
use mathlib.Core.Path.{◌≡◌, refl}
use mathlib.Core.Logic.{◌↔◌}
use text.Mathlib.Text.{◌==◌ as str_eq}
use text.Mathlib.TextEquality.{eq_iff as str_eq_iff}
use mathlib.Core.List.{List, [], ◌∷◌}
use mathlib.Core.Bool.{Bool, true, false, ◌&&◌, ◌||◌}
use fleetdeck.Prelude.Lists.{rev_onto}
use fleetdeck.Prelude.Tests.{eqb, ltb, if◌then◌else◌}

abbrev pub codes : String → List ℕ
codes String.[] = []
codes (String.◌∷◌ c s) = code c ∷ codes s

-- `len(s)`: the bytes of the text in UTF-8.
abbrev pub byte_length : String → ℕ
byte_length String.[] = 0
byte_length (String.◌∷◌ c s) =
    (if ltb (code c) 128
      then 1
      else if ltb (code c) 2048
      then 2
      else if ltb (code c) 65536
      then 3
      else 4)
    + byte_length s

-- `strings.HasPrefix(s, prefix)`
abbrev pub has_prefix : List ℕ → List ℕ → Bool
has_prefix s [] = true
has_prefix [] (p ∷ ps) = false
has_prefix (c ∷ s) (p ∷ ps) = eqb c p && has_prefix s ps

-- `strings.Contains(s, part)`
abbrev pub contains : List ℕ → List ℕ → Bool
contains [] part = has_prefix [] part
contains (c ∷ s) part = has_prefix (c ∷ s) part || contains s part

-- `strings.HasSuffix(s, suffix)`
abbrev pub has_suffix : List ℕ → List ℕ → Bool
has_suffix s suffix = has_prefix (rev_onto s []) (rev_onto suffix [])

-- The order of texts.
abbrev pub codes_leb : List ℕ → List ℕ → Bool
codes_leb [] t = true
codes_leb (c ∷ s) [] = false
codes_leb (c ∷ s) (d ∷ t) = ltb c d || eqb c d && codes_leb s t

abbrev pub text_leb : String → String → Bool
text_leb s t = codes_leb (codes s) (codes t)

-- Equality of texts. It is shut, so that a proof about branching code meets it as one Boolean, and
-- reads it through `eq_iff`.
infix 50 ◌==◌
unfoldable pub ◌==◌ : String → String → Bool
s == t = str_eq s t

pub eq_iff : (s t : String) → ((s == t) ≡ true) ↔ (s ≡ t)
unfolding ◌==◌
eq_iff = str_eq_iff

pub eq_refl : (s : String) → (s == s) ≡ true
eq_refl s = (eq_iff s s).1 refl
