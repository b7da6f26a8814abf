-- ===== src/Regex/Correct.antt =====
-- The matcher by derivatives decides the relation.
use mathlib.Core.Path.{subst}
use mathlib.Core.Bool.{and-eq-true_iff}
use fleetdeck.Prelude.{
  ℕ, ◌≡◌, refl, ◌∙◌, ap, ◌↔◌, inl, inr, true, List, [], ◌∷◌, ◌++◌, String, arith, Bool-cases,
}
use fleetdeck.Prelude.Texts.{codes}
use fleetdeck.Regex.{
  Regex, never, eps, class, cat, alt, star, Matches, empty, one, join, left, right, done, more,
  nullable, seq, choice, deriv, accepts, match_string,
}

nullable_sound : (r : Regex) → nullable r ≡ true → Matches r []
unfolding nullable
nullable_sound never h = cc
nullable_sound eps h = empty
nullable_sound (class p) h = cc
nullable_sound (cat r q) h =
    let (a, b) = (and-eq-true_iff _ _).0 h in join refl (nullable_sound r a) (nullable_sound q b)
nullable_sound (alt r q) h = elim (Bool-cases (nullable r)) [
  | inl a ↦ left (nullable_sound r a)
  | inr b ↦ right (nullable_sound q (rw b at h))
]
nullable_sound (star r) h = done

append-nil_left : (s t : List ℕ) → s ++ t ≡ [] → (s ≡ []) × (t ≡ [])
append-nil_left [] t h = (refl, h)
append-nil_left (x ∷ s) t h = cc

nullable_complete : {r : Regex} {s : List ℕ} → Matches r s → s ≡ [] → nullable r ≡ true
unfolding nullable
nullable_complete empty h = refl
nullable_complete (one e) h = cc
nullable_complete (join {s} {t} e m n) h =
    let (a, b) = append-nil_left s t (e ∙ h) in rw (nullable_complete m a) (nullable_complete n b)
nullable_complete (left m) h = rw (nullable_complete m h)
nullable_complete (right {r} m) h = ground (arith, nullable_complete m h)
nullable_complete done h = refl
nullable_complete (more e m n) h = cc

not-Matches-never : {s : List ℕ} → ¬ Matches never s
not-Matches-never m = elim m [ ]

seq_sound : (r q : Regex) {s : List ℕ} → Matches (seq r q) s → Matches (cat r q) s
unfolding seq
seq_sound never q m = absurd (not-Matches-never m)
seq_sound eps q m = join refl empty m
seq_sound _ q m = m

Matches-eps : {s : List ℕ} → Matches eps s → s ≡ []
Matches-eps empty = refl

seq_complete : (r q : Regex) {s : List ℕ} → Matches (cat r q) s → Matches (seq r q) s
unfolding seq
seq_complete never q (join e m n) = absurd (not-Matches-never m)
seq_complete eps q (join {t} e m n) =
    let e' : t ≡ _ = rw (Matches-eps m) at e in subst (Matches q) e' n
seq_complete _ q m = m

choice_sound : (r q : Regex) {s : List ℕ} → Matches (choice r q) s → Matches (alt r q) s
unfolding choice
choice_sound never q m = right m
choice_sound r never m = left m
choice_sound _ _ m = m

choice_complete : (r q : Regex) {s : List ℕ} → Matches (alt r q) s → Matches (choice r q) s
unfolding choice
choice_complete never q (left m) = absurd (not-Matches-never m)
choice_complete never q (right m) = m
choice_complete r never (left m) = m
choice_complete r never (right m) = absurd (not-Matches-never m)
choice_complete _ _ m = m

module _ {r r' : Regex} {c : ℕ} (ih : (s : List ℕ) → Matches r' s → Matches r (c ∷ s)) where
  cat_after : {q : Regex} {s : List ℕ} → Matches (cat r' q) s → Matches (cat r q) (c ∷ s)
  cat_after (join {s} e m n) = join (ap (λ l. c ∷ l) e) (ih s m) n

  star_after : {s : List ℕ} → Matches (cat r' (star r)) s → Matches (star r) (c ∷ s)
  star_after (join {s} e m n) = more (ap (λ l. c ∷ l) e) (ih s m) n

cat_empty : {r q : Regex} {u : List ℕ} → nullable r ≡ true → Matches q u → Matches (cat r q) u
cat_empty {r} h m = join refl (nullable_sound r h) m

Matches-alt {ℓ} :
    {P : Type ℓ} {r q : Regex} {s : List ℕ}
    → (Matches r s → P)
    → (Matches q s → P)
    → Matches (alt r q) s
    → P
Matches-alt f g (left m) = f m
Matches-alt f g (right m) = g m

module _ (c : ℕ) where
  deriv_sound : (r : Regex) (s : List ℕ) → Matches (deriv c r) s → Matches r (c ∷ s)
  unfolding deriv
  deriv_sound never s m = absurd (not-Matches-never m)
  deriv_sound eps s m = absurd (not-Matches-never m)
  deriv_sound (class p) s m = elim (Bool-cases (p c)) [
    | inl h ↦ rw (Matches-eps (rw h at m)) (one h)
    | inr h ↦ absurd (not-Matches-never (rw h at m))
  ]
  deriv_sound (cat r q) s m = elim (Bool-cases (nullable r)) [
    | inl h ↦
        Matches-alt (λ m'. cat_after (deriv_sound r) (seq_sound _ q m'))
          (λ m'. cat_empty h (deriv_sound q s m')) (choice_sound _ _ (rw h at m))
    | inr h ↦ cat_after (deriv_sound r) (seq_sound _ q (rw h at m))
  ]
  deriv_sound (alt r q) s m =
      Matches-alt (λ m'. left (deriv_sound r s m')) (λ m'. right (deriv_sound q s m'))
        (choice_sound _ _ m)
  deriv_sound (star r) s m = star_after (deriv_sound r) (seq_sound _ (star r) m)

  deriv_complete :
      {r : Regex} {u : List ℕ} → Matches r u → (s : List ℕ) → u ≡ c ∷ s → Matches (deriv c r) s
  unfolding deriv
  deriv_complete empty s h = cc
  deriv_complete (one {p} {c = d} e) s h =
      let hit : p c ≡ true = cc in let rest : s ≡ [] = cc in rw (hit, rest) empty
  deriv_complete (join {r} {q} {s = []} e m n) s' h =
      let n' : Matches (deriv c q) s' = deriv_complete n s' (e ∙ h) in
      rw (nullable_complete m refl) (choice_complete _ _ (right n'))
  deriv_complete (join {r} {q} {s = x ∷ s} {t} e m n) s' h =
      let m' : Matches (deriv c r) s = deriv_complete m s (cc) in
      let both : Matches (seq (deriv c r) q) s' = seq_complete _ q (join (cc) m' n) in
      elim (Bool-cases (nullable r)) [
        | inl e ↦ rw e (choice_complete _ _ (left both))
        | inr e ↦ rw e both
      ]
  deriv_complete (left m) s h = choice_complete _ _ (left (deriv_complete m s h))
  deriv_complete (right m) s h = choice_complete _ _ (right (deriv_complete m s h))
  deriv_complete done s h = cc
  deriv_complete (more {s} {t} e m n) s' h =
      seq_complete _ _ (join (cc) (deriv_complete m s (cc)) n)

accepts_sound : (r : Regex) (s : List ℕ) → accepts r s ≡ true → Matches r s
unfolding accepts
accepts_sound r [] h = nullable_sound r h
accepts_sound r (c ∷ s) h = deriv_sound c r s (accepts_sound (deriv c r) s h)

accepts_complete : (r : Regex) (s : List ℕ) → Matches r s → accepts r s ≡ true
unfolding accepts
accepts_complete r [] m = nullable_complete m refl
accepts_complete r (c ∷ s) m = accepts_complete (deriv c r) s (deriv_complete c m s refl)

-- The matcher accepts exactly the texts that the expression matches from end to end.
pub match_string_iff : (r : Regex) (s : String) → (match_string r s ≡ true) ↔ Matches r (codes s)
unfolding match_string
match_string_iff r s = (accepts_sound r (codes s), accepts_complete r (codes s))
