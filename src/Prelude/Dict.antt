-- ===== src/Prelude/Dict.antt =====
-- Go's `map` with string keys as an association list. The order of entries is not the map's.
use Prim.Native.Nat.{◌+◌, ◌≤◌}
use mathlib.Core.Path.{◌≡◌, refl}
use mathlib.Core.Bool.{Bool}
use mathlib.Core.Option.{Option, none, some}
use mathlib.Core.List.{List, [], ◌∷◌}
use native.Mathlib.Omega.{arith}
use fleetdeck.Prelude.Tests.{if◌then◌else◌}
use fleetdeck.Prelude.Lists.{length}
use fleetdeck.Prelude.Texts.{◌==◌, eq_iff}
use Prim.Native.String.{String}

abbrev pub Dict {ℓ} : Type ℓ → Type ℓ
Dict V = List (String × V)

module _ {ℓ} {V : Type ℓ} where
  -- `m[k]`
  unfoldable pub lookup : String → Dict V → Option V
  lookup k [] = none
  lookup k ((j, v) ∷ m) = if j == k then some v else lookup k m

  -- `m[k] = v`
  unfoldable pub insert : String → V → Dict V → Dict V
  insert k v [] = (k, v) ∷ []
  insert k v ((j, w) ∷ m) = if j == k then (k, v) ∷ m else (j, w) ∷ insert k v m

  -- `delete(m, k)`
  unfoldable pub delete : String → Dict V → Dict V
  delete k [] = []
  delete k ((j, w) ∷ m) = let rest = delete k m in if j == k then rest else (j, w) ∷ rest

  -- `for k, v := range m { if test(v) { delete(m, k) } }`
  unfoldable pub delete_if : (V → Bool) → Dict V → Dict V
  delete_if test [] = []
  delete_if test ((j, w) ∷ m) =
      let rest = delete_if test m in if test w then rest else (j, w) ∷ rest

  -- After `m[set] = new` the key `asked` reads `new` where it is the one set, else as before.
  pub lookup-insert :
      (set asked : String) (new : V) (m : Dict V)
      → lookup asked (insert set new m) ≡ (if set == asked then some new else lookup asked m)
  unfolding insert lookup
  lookup-insert set asked new [] = refl
  lookup-insert set asked new ((key, old) ∷ m) =
      ground
        (arith, lookup-insert set asked new m, eq_iff key set, eq_iff key asked, eq_iff set asked)

  pub lookup-delete :
      (k j : String) (m : Dict V) → lookup j (delete k m) ≡ (if k == j then none else lookup j m)
  unfolding lookup delete
  lookup-delete k j [] = ground arith
  lookup-delete k j ((i, w) ∷ m) =
      ground (arith, eq_iff k j, eq_iff i k, eq_iff i j, lookup-delete k j m)

  pub length-insert : (k : String) (v : V) (m : Dict V) → length (insert k v m) ≤ length m + 1
  unfolding insert
  length-insert k v [] = omega arith
  length-insert k v ((i, w) ∷ m) = ground (arith, length-insert k v m)

  pub length-delete : (k : String) (m : Dict V) → length (delete k m) ≤ length m
  unfolding delete
  length-delete k [] = omega arith
  length-delete k ((i, w) ∷ m) = ground (arith, length-delete k m)

  pub length-delete_if : (test : V → Bool) (m : Dict V) → length (delete_if test m) ≤ length m
  unfolding delete_if
  length-delete_if test [] = omega arith
  length-delete_if test ((i, w) ∷ m) = ground (arith, length-delete_if test m)

  -- No key has two entries, as in a Go map.
  abbrev pub IsDistinct : Dict V → Type ℓ
  IsDistinct [] = Unit
  IsDistinct ((j, w) ∷ m) = (lookup j m ≡ none) × IsDistinct m

  -- What a lookup finds after the entries that pass the test are gone.
  abbrev pub drop_if : (V → Bool) → Option V → Option V
  drop_if test none = none
  drop_if test (some v) = if test v then none else some v

  pub lookup-delete_if :
      (k : String) (test : V → Bool) (m : Dict V)
      → IsDistinct m
      → lookup k (delete_if test m) ≡ drop_if test (lookup k m)
  unfolding lookup delete_if
  lookup-delete_if k test [] h = refl
  lookup-delete_if k test ((j, w) ∷ m) h = ground (arith, eq_iff j k, lookup-delete_if k test m h.1)

  pub insert-IsDistinct :
      (k : String) (v : V) (m : Dict V) → IsDistinct m → IsDistinct (insert k v m)
  unfolding lookup insert
  insert-IsDistinct k v [] h = (refl, tt)
  insert-IsDistinct k v ((j, w) ∷ m) h =
      ground (arith, eq_iff j k, eq_iff k j, lookup-insert k j v m, insert-IsDistinct k v m h.1)

  pub delete-IsDistinct : (k : String) (m : Dict V) → IsDistinct m → IsDistinct (delete k m)
  unfolding lookup delete
  delete-IsDistinct k [] h = tt
  delete-IsDistinct k ((j, w) ∷ m) h =
      ground (arith, eq_iff k j, lookup-delete k j m, delete-IsDistinct k m h.1)

  pub delete_if-IsDistinct :
      (test : V → Bool) (m : Dict V) → IsDistinct m → IsDistinct (delete_if test m)
  unfolding lookup delete_if
  delete_if-IsDistinct test [] h = tt
  delete_if-IsDistinct test ((j, w) ∷ m) h =
      ground (arith, lookup-delete_if j test m h.1, delete_if-IsDistinct test m h.1)

  -- To set a key that is there adds no entry.
  pub length-insert_found :
      (k : String) (v w : V) (m : Dict V) → lookup k m ≡ some w → length (insert k v m) ≡ length m
  unfolding lookup insert
  length-insert_found k v w [] h = ground (arith, h)
  length-insert_found k v w ((j, u) ∷ m) h = ground (arith, h, length-insert_found k v w m)
