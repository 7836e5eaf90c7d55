-- ===== src/Channels/Split/Endless/Steps.antt =====
-- The steps of a round on a text that begins with a fence whose line does not end in time.
use halfmoon.Base.{
  ℕ, zero, suc, ◌+◌, ◌-◌, ◌≤◌, ◌<◌, ◌≡◌, inl, inr, refl, ap, ◌∙◌, max, Bool, true, false, Option,
  none, some, [], ◌∷◌, ◌++◌, arith, ltb, length, take, All, Bool-cases, Option-cases,
}
use halfmoon.Base.Text.{Text, is_space, trim_space}
use halfmoon.Channels.Split.{
  fence, is_newline, is_gap, is_tick, holds_at, find_down, find_last, fence_at, unclosed_from,
  find_last_unclosed, closing_from, find_next_closing, newline_from, find_newline, slice,
  natural_split, effective_limit, inner_limit, emit_inside, split_block, close_block, split_round,
}

-- A character that is neither a space nor a backtick.
abbrev pub IsInk : ℕ → Type 0
IsInk c = (is_space c ≡ false) × (is_tick c ≡ false)

-- A fence, the rest of its line, and what follows.
abbrev pub fenced : Text → Text → Text
fenced line rest = fence ++ line ++ 10 ∷ rest

pub holds_at-lacks :
    (p : ℕ → Bool) (s t : Text) (i : ℕ)
    → All (λ c. p c ≡ false) s
    → i < length s
    → holds_at p (s ++ t) i ≡ false
unfolding holds_at
holds_at-lacks p [] t i h lt = absurd (omega arith)
holds_at-lacks p (c ∷ s) t zero h lt = h.0
holds_at-lacks p (c ∷ s) t (suc i) h lt = holds_at-lacks p s t i h.1 (omega arith)

pub find_down-none :
    (p : ℕ → Bool) (runes : Text) (lo n : ℕ)
    → ((i : ℕ) → i < lo + n → holds_at p runes i ≡ false)
    → find_down p runes lo n ≡ none
unfolding find_down
find_down-none p runes lo zero h = refl
find_down-none p runes lo (suc n) h =
    rw (h (lo + n) (omega arith)) (find_down-none p runes lo n (λ i k. h i (omega arith)))

pub find_last-none :
    (p : ℕ → Bool) (runes : Text) (end window : ℕ)
    → ((i : ℕ) → i < end → holds_at p runes i ≡ false)
    → find_last p runes 0 end window ≡ none
unfolding find_last
find_last-none p runes end window h =
    find_down-none p runes (max (end - window) 0) (end - max (end - window) 0)
      (λ i k. h i (omega arith))

pub fence_at-lacks :
    (runes : Text) (i : ℕ) → holds_at is_tick runes i ≡ false → fence_at runes i ≡ false
unfolding fence_at
fence_at-lacks runes i h = rw h refl

pub natural_split-none :
    (runes : Text) (start end : ℕ)
    → find_last is_newline runes start end 200 ≡ none
    → find_last is_gap runes start end 100 ≡ none
    → natural_split runes start end ≡ none
unfolding natural_split
natural_split-none runes start end e f = ground arith

pub unclosed_from-lacks :
    (runes : Text) (i n : ℕ) (o : Option ℕ)
    → ((j : ℕ) → i ≤ j → j < i + n → holds_at is_tick runes j ≡ false)
    → unclosed_from runes i n o ≡ o
unfolding unclosed_from
unclosed_from-lacks runes i zero o h = refl
unclosed_from-lacks runes i (suc zero) o h = refl
unclosed_from-lacks runes i (suc (suc zero)) o h = refl
unclosed_from-lacks runes i (suc (suc (suc n))) o h =
    rw (fence_at-lacks runes i (h i (omega arith) (omega arith)), unclosed_from)
      (unclosed_from-lacks runes (i + 1) (suc (suc n)) o (λ j l k. h j (omega arith) (omega arith)))

pub closing_from-tick :
    (runes : Text) (i n c : ℕ)
    → closing_from runes i n ≡ some c
    → (j : ℕ) × (c ≡ j + 3) × (i ≤ j) × (holds_at is_tick runes j ≡ true)
unfolding closing_from fence_at
closing_from-tick runes i zero c e = absurd (cc)
closing_from-tick runes i (suc zero) c e = absurd (cc)
closing_from-tick runes i (suc (suc zero)) c e = absurd (cc)
closing_from-tick runes i (suc (suc (suc n))) c e = elim (Bool-cases (fence_at runes i)) [
  | inl f ↦ (i, ground arith, omega arith, ground arith)
  | inr f ↦
      let (j, is_it, l, t) = closing_from-tick runes (i + 1) (suc (suc n)) c (ground arith) in
      (j, is_it, omega arith, t)
]

pub newline_from-line :
    (s t : Text) (i : ℕ)
    → All (λ c. is_newline c ≡ false) s
    → newline_from (s ++ 10 ∷ t) i ≡ some (i + length s)
unfolding newline_from
newline_from-line [] t i h = let e : i ≡ i + 0 = omega arith in ap some e
newline_from-line (c ∷ s) t i h =
    let e : i + 1 + length s ≡ i + suc (length s) = omega arith in
    rw h.0 (newline_from-line s t (i + 1) h.1 ∙ ap some e)

pub take-prefix : (s t : Text) → take (length s) (s ++ t) ≡ s
take-prefix [] t = refl
take-prefix (c ∷ s) t = ap (◌∷◌ c) (take-prefix s t)

pub All-map {ℓ κ} :
    {P : ℕ → Type ℓ} {Q : ℕ → Type κ} (f : (c : ℕ) → P c → Q c) (s : Text) → All P s → All Q s
All-map f [] h = tt
All-map f (c ∷ s) h = (f c h.0, All-map f s h.1)

pub ink_not_newline : (c : ℕ) → IsInk c → is_newline c ≡ false
ink_not_newline c h = ground arith

pub ink_not_gap : (c : ℕ) → IsInk c → is_gap c ≡ false
ink_not_gap c h = ground arith

-- The last resort of a round, from what its searches find.
pub split_block-last :
    (m : ℕ) (runes : Text) (start u end h : ℕ) (header : Text)
    → find_newline runes u ≡ some h
    → trim_space (slice runes u h) ≡ header
    → ltb (h + 20) end ≡ false
    → natural_split runes start u ≡ none
    → ltb 20 (u - start) ≡ false
    → ltb m 5 ≡ false
    → split_block m runes start u end ≡ emit_inside runes start header (inner_limit m runes start)
unfolding split_block
split_block-last m runes start u end h header newline trimmed far no_split near roomy = ground arith

pub close_block-open :
    (m : ℕ) (runes : Text) (end : ℕ)
    → ((c : ℕ) → find_next_closing runes end (length runes) ≡ some c → m < c)
    → end < length runes
    → close_block m runes 0 0 end ≡ split_block m runes 0 0 end
unfolding close_block
close_block-open m runes end far lt =
    elim (Option-cases (find_next_closing runes end (length runes))) [
      | inl n ↦ ground arith
      | inr (c, e) ↦ let k = far c e in ground arith
    ]

pub split_round-open :
    (m : ℕ) (runes : Text) (end : ℕ)
    → 0 + effective_limit m ≡ end
    → natural_split runes 0 end ≡ none
    → find_last_unclosed runes 0 end ≡ some 0
    → split_round m runes 0 ≡ close_block m runes 0 0 end
unfolding split_round
split_round-open m runes end e n u = ground arith

pub effective_limit-ge : (m : ℕ) → 8 ≤ m → 3 ≤ effective_limit m
unfolding effective_limit
effective_limit-ge m h = omega arith
