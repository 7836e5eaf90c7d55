-- ===== src/Channels/Split/Search.antt =====
-- Where the searches of SplitMessage can find something.
use halfmoon.Base.{
  ℕ, zero, suc, ◌+◌, ◌-◌, ◌≤◌, ◌<◌, ◌≡◌, inl, inr, ap, ◌∙◌, max, Bool, true, Option, none, some, [],
  ◌∷◌, arith, ltb, length, take, subst, drop, Bool-cases, Option-cases,
}
use halfmoon.Base.Text.{Text}
use halfmoon.Channels.Split.{
  holds_at, find_down, find_last, fence_at, toggle, unclosed_from, find_last_unclosed,
  code_block_buffer, effective_limit, beyond, natural_split, is_newline, is_gap, slice,
  trim_right_blank, keep_blank,
}

pub find_down_bounds :
    (p : ℕ → Bool) (runes : Text) (lo n i : ℕ)
    → find_down p runes lo n ≡ some i
    → (lo ≤ i) × (i < lo + n) × (holds_at p runes i ≡ true)
unfolding find_down
find_down_bounds p runes lo zero i e = absurd (cc)
find_down_bounds p runes lo (suc n) i e = elim (Bool-cases (holds_at p runes (lo + n))) [
  | inl h ↦ let same : lo + n ≡ i = ground arith in (omega arith, omega arith, ground arith)
  | inr h ↦
      let (low, high, found) = find_down_bounds p runes lo n i (ground arith) in
      (low, omega arith, found)
]

pub find_last_bounds :
    (p : ℕ → Bool) (runes : Text) (start end window i : ℕ)
    → find_last p runes start end window ≡ some i
    → (start ≤ i) × (i < end) × (holds_at p runes i ≡ true)
unfolding find_last
find_last_bounds p runes start end window i e =
    let (low, high, found) =
      find_down_bounds p runes (max (end - window) start) (end - max (end - window) start) i e in
    (omega arith, omega arith, found)

beyond_cases : (o : Option ℕ) (bound i : ℕ) → beyond o bound ≡ some i → (o ≡ some i) × (bound < i)
beyond_cases none bound i e = absurd (cc)
beyond_cases (some j) bound i e = elim (Bool-cases (ltb bound j)) [
  | inl h ↦ (ground arith, ground arith)
  | inr h ↦ absurd (ground arith)
]

pub beyond_bounds :
    (p : ℕ → Bool) (runes : Text) (start end window bound i : ℕ)
    → beyond (find_last p runes start end window) bound ≡ some i
    → (bound < i) × (i < end)
beyond_bounds p runes start end window bound i e =
    let (found, h) = beyond_cases (find_last p runes start end window) bound i e in
    let (low, high, _) = find_last_bounds p runes start end window i found in (h, high)

pub natural_split_bounds :
    (runes : Text) (start end i : ℕ)
    → natural_split runes start end ≡ some i
    → (start < i) × (i < end)
unfolding natural_split
natural_split_bounds runes start end i e =
    elim (Option-cases (beyond (find_last is_newline runes start end 200) start)) [
      | inl n ↦ beyond_bounds is_gap runes start end 100 start i (ground arith)
      | inr (j, k) ↦
          let same : j ≡ i = ground arith in
          beyond_bounds is_newline runes start end 200 start i (k ∙ ap some same)
    ]

-- An optional place lies between.
abbrev pub Within : ℕ → ℕ → Option ℕ → Type 0
Within lo hi none = Unit
Within lo hi (some u) = (lo ≤ u) × (u < hi)

toggle-Within :
    (lo hi i : ℕ) (o : Option ℕ) → lo ≤ i → i < hi → Within lo hi o → Within lo hi (toggle i o)
toggle-Within lo hi i none l h w = (l, h)
toggle-Within lo hi i (some j) l h w = tt

unclosed_from-Within :
    (runes : Text) (lo hi i n : ℕ) (o : Option ℕ)
    → lo ≤ i
    → i + n ≤ hi
    → Within lo hi o
    → Within lo hi (unclosed_from runes i n o)
unfolding unclosed_from
unclosed_from-Within runes lo hi i zero o l h w = w
unclosed_from-Within runes lo hi i (suc zero) o l h w = w
unclosed_from-Within runes lo hi i (suc (suc zero)) o l h w = w
unclosed_from-Within runes lo hi i (suc (suc (suc n))) o l h w =
    elim (Bool-cases (fence_at runes i)) [
      | inl f ↦
          rw (f, unclosed_from)
            (unclosed_from-Within runes lo hi (i + 3) n (toggle i o) (omega arith) (omega arith)
              (toggle-Within lo hi i o l (omega arith) w))
      | inr f ↦
          rw (f, unclosed_from)
            (unclosed_from-Within runes lo hi (i + 1) (suc (suc n)) o (omega arith) (omega arith) w)
    ]

pub find_last_unclosed_bounds :
    (runes : Text) (start end u : ℕ)
    → start ≤ end
    → find_last_unclosed runes start end ≡ some u
    → (start ≤ u) × (u < end)
unfolding find_last_unclosed
find_last_unclosed_bounds runes start end u le e =
    subst (Within start end) e
      (unclosed_from-Within runes start end start (end - start) none (omega arith) (omega arith) tt)

pub effective_limit_bounds : (m : ℕ) → 0 < m → (0 < effective_limit m) × (effective_limit m ≤ m)
unfolding effective_limit code_block_buffer
effective_limit_bounds m h = (ground arith, ground arith)

length-take-le_count : (n : ℕ) (s : Text) → length (take n s) ≤ n
length-take-le_count zero s = omega arith
length-take-le_count (suc n) [] = omega arith
length-take-le_count (suc n) (c ∷ s) = omega (arith, length-take-le_count n s)

pub length-slice-le : (runes : Text) (a b : ℕ) → length (slice runes a b) ≤ b - a
unfolding slice
length-slice-le runes a b = length-take-le_count (b - a) (drop a runes)

pub length-trim_right_blank-le : (s : Text) → length (trim_right_blank s) ≤ length s
unfolding trim_right_blank
length-trim_right_blank-le [] = omega arith
length-trim_right_blank-le (c ∷ s) =
    let ih = length-trim_right_blank-le s in kept c (trim_right_blank s) (length s) ih
  where
    kept : (d : ℕ) (t : Text) (n : ℕ) → length t ≤ n → length (keep_blank d t) ≤ suc n
    kept d [] n h = ground arith
    kept d (x ∷ xs) n h = omega arith
