-- ===== src/Base/Text/Laws.antt =====
-- Trimming and lower case: each is idempotent, and they commute.
use halfmoon.Base.Tests.{Bool-cases}
use halfmoon.Base.Lists.{All}
use halfmoon.Base.Text.{
  Text, is_space, lower, to_lower, trim_space, keep_right, trim_left, trim_right,
}
use Prim.Native.Nat.{ℕ}
use mathlib.Core.Path.{◌≡◌, refl, ap, ap₂, sym, ◌∙◌}
use mathlib.Core.Logic.{inl, inr, ◌≢◌}
use mathlib.Core.Bool.{true, false}
use mathlib.Core.List.{[], ◌∷◌, ◌++◌}
use native.Mathlib.Omega.{arith}

pub lower_idem : (c : ℕ) → lower (lower c) ≡ lower c
lower_idem c = ground arith

pub is_space-lower : (c : ℕ) → is_space (lower c) ≡ is_space c
is_space-lower c = ground arith

pub to_lower_idem : (s : Text) → to_lower (to_lower s) ≡ to_lower s
unfolding to_lower
to_lower_idem [] = refl
to_lower_idem (c ∷ s) = ap₂ (◌∷◌) (lower_idem c) (to_lower_idem s)

pub to_lower-append : (l r : Text) → to_lower (l ++ r) ≡ to_lower l ++ to_lower r
unfolding to_lower
to_lower-append [] r = refl
to_lower-append (c ∷ l) r = ap (λ x. lower c ∷ x) (to_lower-append l r)

keep_right-lower :
    (c : ℕ) (s : Text) → keep_right (lower c) (to_lower s) ≡ to_lower (keep_right c s)
unfolding keep_right to_lower
keep_right-lower c [] = rw (is_space-lower c) (ground arith)
keep_right-lower c (x ∷ s) = refl

trim_right-lower : (s : Text) → trim_right (to_lower s) ≡ to_lower (trim_right s)
unfolding trim_right to_lower
trim_right-lower [] = refl
trim_right-lower (c ∷ s) = rw (trim_right-lower s) (keep_right-lower c (trim_right s))

trim_left-lower : (s : Text) → trim_left (to_lower s) ≡ to_lower (trim_left s)
unfolding trim_left to_lower
trim_left-lower [] = refl
trim_left-lower (c ∷ s) = elim (Bool-cases (is_space c)) [
  | inl e ↦ rw (is_space-lower c, e) (trim_left-lower s)
  | inr e ↦ rw (is_space-lower c, e)
]

pub trim_space-to_lower : (s : Text) → trim_space (to_lower s) ≡ to_lower (trim_space s)
unfolding trim_space
trim_space-to_lower s = ap trim_right (trim_left-lower s) ∙ trim_right-lower (trim_left s)

trim_left_idem : (s : Text) → trim_left (trim_left s) ≡ trim_left s
unfolding trim_left
trim_left_idem [] = refl
trim_left_idem (c ∷ s) = elim (Bool-cases (is_space c)) [
  | inl e ↦ rw e (trim_left_idem s)
  | inr e ↦ rw (e, trim_left) (rw e)
]

trim_left-keep_right :
    (c : ℕ) (t : Text) → is_space c ≡ true → trim_left (keep_right c t) ≡ trim_left t
unfolding trim_left keep_right
trim_left-keep_right c [] e = rw e
trim_left-keep_right c (x ∷ t) e = rw e

keep_right_solid : (c : ℕ) (t : Text) → is_space c ≡ false → keep_right c t ≡ c ∷ t
unfolding keep_right
keep_right_solid c [] e = rw e
keep_right_solid c (x ∷ t) e = refl

trim_left-trim_right : (s : Text) → trim_left (trim_right s) ≡ trim_right (trim_left s)
unfolding trim_left trim_right
trim_left-trim_right [] = refl
trim_left-trim_right (c ∷ s) = elim (Bool-cases (is_space c)) [
  | inl e ↦ trim_left-keep_right c (trim_right s) e ∙ trim_left-trim_right s ∙ sym (rw e)
  | inr e ↦
      rw (keep_right_solid c (trim_right s) e) (rw e (sym (keep_right_solid c (trim_right s) e)))
]

trim_right-keep_right :
    (c : ℕ) (t : Text) → trim_right t ≡ t → trim_right (keep_right c t) ≡ keep_right c t
unfolding trim_right keep_right
trim_right-keep_right c [] h = elim (Bool-cases (is_space c)) [
  | inl e ↦ rw e
  | inr e ↦ rw (e, keep_right) (rw e)
]
trim_right-keep_right c (x ∷ t) h = ap (keep_right c) h

trim_right_idem : (s : Text) → trim_right (trim_right s) ≡ trim_right s
unfolding trim_right
trim_right_idem [] = refl
trim_right_idem (c ∷ s) = trim_right-keep_right c (trim_right s) (trim_right_idem s)

pub trim_space_idem : (s : Text) → trim_space (trim_space s) ≡ trim_space s
unfolding trim_space
trim_space_idem s =
    ap trim_right (trim_left-trim_right (trim_left s))
    ∙ trim_right_idem (trim_left (trim_left s))
    ∙ ap trim_right (trim_left_idem s)

append-ne : (s t : Text) → t ≢ [] → s ++ t ≢ []
append-ne [] t h = h
append-ne (c ∷ s) t h = λ z. cc

trim_right-cons : (c : ℕ) (t : Text) → trim_right t ≢ [] → trim_right (c ∷ t) ≡ c ∷ trim_right t
unfolding trim_right
trim_right-cons c t h = go (trim_right t) h
  where
    go : (u : Text) → u ≢ [] → keep_right c u ≡ c ∷ u
    go [] k = absurd (k refl)
    go (x ∷ u) k = unfold keep_right in refl

trim_right-append : (s t : Text) → trim_right t ≡ t → t ≢ [] → trim_right (s ++ t) ≡ s ++ t
trim_right-append [] t e h = e
trim_right-append (c ∷ s) t e h =
    trim_right-cons c (s ++ t) (λ z. append-ne s t h (sym (trim_right-append s t e h) ∙ z))
    ∙ ap (◌∷◌ c) (trim_right-append s t e h)

-- A text that begins with no space and ends in a trimmed text is trimmed.
pub trim_space_join :
    (c : ℕ) (s t : Text)
    → is_space c ≡ false
    → trim_space t ≡ t
    → t ≢ []
    → trim_space (c ∷ s ++ t) ≡ c ∷ s ++ t
unfolding trim_space trim_left
trim_space_join c s t h e n =
    rw h (trim_right-append (c ∷ s) t (ap trim_right (sym e) ∙ trim_right_idem (trim_left t) ∙ e) n)

-- Trimming does not reach past a character that is no space.
trim_right-inside :
    (s : Text) (d : ℕ) (t : Text)
    → is_space d ≡ false
    → trim_right (s ++ d ∷ t) ≡ s ++ d ∷ trim_right t
unfolding trim_right
trim_right-inside [] d t e = keep_right_solid d (trim_right t) e
trim_right-inside (c ∷ s) d t e =
    trim_right-cons c (s ++ d ∷ t)
      (λ z. append-ne s (d ∷ trim_right t) (λ k. cc) (sym (trim_right-inside s d t e) ∙ z))
    ∙ ap (◌∷◌ c) (trim_right-inside s d t e)

pub trim_space-inside :
    (c : ℕ) (s : Text) (d : ℕ) (t : Text)
    → is_space c ≡ false
    → is_space d ≡ false
    → trim_space (c ∷ s ++ d ∷ t) ≡ c ∷ s ++ d ∷ trim_right t
unfolding trim_space trim_left
trim_space-inside c s d t e h = rw e (trim_right-inside (c ∷ s) d t h)

pub trim_space_solid : (s : Text) → All (λ c. is_space c ≡ false) s → trim_space s ≡ s
unfolding trim_space trim_left trim_right
trim_space_solid [] h = refl
trim_space_solid (c ∷ s) h = rw h.0 (solid (c ∷ s) h)
  where
    solid : (t : Text) → All (λ c. is_space c ≡ false) t → trim_right t ≡ t
    solid [] k = refl
    solid (d ∷ t) k = rw (solid t k.1) (keep_right_solid d t k.0)
