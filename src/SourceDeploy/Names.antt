-- ===== src/SourceDeploy/Names.antt =====
-- Lists of names without those that another list has.
use fleetdeck.Prelude.{
  ◌≡◌, refl, true, ◌||◌, List, [], ◌∷◌, ◌++◌, String, arith, ◌==◌, eq_refl, if◌then◌else◌, all,
}
use fleetdeck.SourceDeploy.Runtime.{mem}

abbrev pub drop_all : List String → List String → List String
drop_all xs [] = []
drop_all xs (y ∷ ys) = let rest = drop_all xs ys in if mem y xs then rest else y ∷ rest

pub drop_all_within : (xs ys : List String) → all (λ y. mem y xs) ys ≡ true → drop_all xs ys ≡ []
drop_all_within xs [] h = refl
drop_all_within xs (y ∷ ys) h = ground (arith, drop_all_within xs ys, h)

mem_more :
    (x : String) (xs ys : List String)
    → all (λ y. mem y xs) ys ≡ true
    → all (λ y. mem y (x ∷ xs)) ys ≡ true
mem_more x xs [] h = refl
mem_more x xs (y ∷ ys) h = ground (arith, mem_more x xs ys, h)

pub all-mem : (xs : List String) → all (λ y. mem y xs) xs ≡ true
all-mem [] = refl
all-mem (x ∷ xs) = ground (arith, mem_more x xs xs, all-mem xs, eq_refl x)

pub drop_all_itself : (xs : List String) → drop_all xs xs ≡ []
drop_all_itself xs = drop_all_within xs xs (all-mem xs)

pub drop_one_within :
    (x : String) (xs ys : List String)
    → all (λ y. mem y (x ∷ xs)) ys ≡ true
    → all (λ y. mem y xs) (drop_all (x ∷ []) ys) ≡ true
drop_one_within x xs [] h = refl
drop_one_within x xs (y ∷ ys) h = ground (arith, drop_one_within x xs ys, h)

pub none_within : (ys : List String) → all (λ y. mem y []) ys ≡ true → ys ≡ []
none_within [] h = refl
none_within (y ∷ ys) h = cc

mem_end : (x y : String) (xs : List String) → mem y (xs ++ (x ∷ [])) ≡ (mem y xs || x == y)
mem_end x y [] = ground arith
mem_end x y (z ∷ xs) = ground (arith, mem_end x y xs)

all_within_end :
    (x : String) (xs ys : List String)
    → all (λ y. mem y xs) ys ≡ true
    → all (λ y. mem y (xs ++ (x ∷ []))) ys ≡ true
all_within_end x xs [] h = refl
all_within_end x xs (y ∷ ys) h = ground (arith, all_within_end x xs ys, mem_end x y xs, h)

pub add_within :
    (x : String) (xs ys : List String)
    → all (λ y. mem y xs) ys ≡ true
    → all (λ y. mem y (xs ++ (x ∷ []))) (x ∷ ys) ≡ true
add_within x xs ys h = ground (arith, all_within_end x xs ys, mem_end x x xs, eq_refl x, h)
