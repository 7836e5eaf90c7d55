-- ===== src/Channels/Split/Endless.antt =====
-- A fence whose line does not fit a chunk: SplitMessage repeats that line in every round.
pub mod Steps
use halfmoon.Base.{
  ℕ, zero, suc, ◌+◌, ◌-◌, ◌≤◌, ◌<◌, ◌≡◌, ◌≢◌, ◌⊎◌, inl, inr, subst, refl, ap, sym, ◌∙◌, min, max,
  Bool, true, false, Option, none, some, List, [], ◌∷◌, ◌++◌, append_assoc, arith, ltb, leb, ◌==◌,
  if◌then◌else◌, length, length-append, get_elem?, take, drop, drop-append, All, Bool-cases,
  Option-cases, dec_lt,
}
use halfmoon.Base.Text.{Text, is_space, trim_space, trim_right}
use halfmoon.Base.Text.Laws.{trim_space-inside, trim_space_solid}
use halfmoon.Channels.Split.{
  Step, panics, emits, fence, is_newline, is_gap, is_tick, holds_at, find_down, find_last, fence_at,
  unclosed_from, find_last_unclosed, closing_from, find_next_closing, newline_from, find_newline,
  slice, trim_right_blank, or_else, beyond, natural_split, effective_limit, inner_limit,
  emit_inside, split_block, close_block, split_round, Status, running, split_from,
}
use halfmoon.Channels.Split.Search.{effective_limit_bounds}
use halfmoon.Channels.Split.Endless.Steps.{
  IsInk, fenced, holds_at-lacks, find_down-none, find_last-none, fence_at-lacks, natural_split-none,
  unclosed_from-lacks, closing_from-tick, newline_from-line, take-prefix, All-map, ink_not_newline,
  ink_not_gap, split_block-last, close_block-open, split_round-open, effective_limit-ge,
}

module _ (m : ℕ) (line rest : Text) (roomy : 8 ≤ m) (ink : All IsInk line)
    (long : m ≤ length line) where
  opening : Text
  opening = fence ++ line

  runes : Text
  runes = fenced line rest

  opening-lacks :
      (p : ℕ → Bool)
      → p b'`' ≡ false
      → ((c : ℕ) → IsInk c → p c ≡ false)
      → All (λ c. p c ≡ false) opening
  unfolding opening
  opening-lacks p t f = (t, (t, (t, All-map f line ink)))

  length-opening : length opening ≡ 3 + length line
  unfolding opening
  length-opening = omega arith

  runes-opening : runes ≡ opening ++ 10 ∷ rest
  unfolding runes opening
  runes-opening = refl

  length-runes : length opening < length runes
  length-runes = rw runes-opening (let e = length-append opening (10 ∷ rest) in omega arith)

  runes-lacks :
      (p : ℕ → Bool)
      → p b'`' ≡ false
      → ((c : ℕ) → IsInk c → p c ≡ false)
      → (i : ℕ) → i < m
      → holds_at p runes i ≡ false
  runes-lacks p t f i lt = rw runes-opening (
      holds_at-lacks p opening (10 ∷ rest) i (opening-lacks p t f)
        (let e = length-opening in omega arith))

  no_split : (end : ℕ) → end ≤ m → natural_split runes 0 end ≡ none
  no_split end le =
      natural_split-none runes 0 end
        (find_last-none is_newline runes end 200
          (λ i k. runes-lacks is_newline refl ink_not_newline i (omega arith)))
        (find_last-none is_gap runes end 100
          (λ i k. runes-lacks is_gap refl ink_not_gap i (omega arith)))

  line_lacks_ticks : (i : ℕ) → 3 ≤ i → i < m → holds_at is_tick runes i ≡ false
  line_lacks_ticks (suc (suc (suc i))) l lt =
      unfold runes holds_at in
      holds_at-lacks is_tick line (10 ∷ rest) i (All-map (λ c h. h.1) line ink) (omega arith)
  line_lacks_ticks zero l lt = absurd (omega arith)
  line_lacks_ticks (suc zero) l lt = absurd (omega arith)
  line_lacks_ticks (suc (suc zero)) l lt = absurd (omega arith)

  opens :
      (n : ℕ) → unclosed_from runes 0 (suc (suc (suc n))) none ≡ unclosed_from runes 3 n (some 0)
  unfolding unclosed_from fence_at holds_at runes
  opens n = refl

  -- The block is open when the limit is reached.
  unclosed : (end : ℕ) → 3 ≤ end → end ≤ m → find_last_unclosed runes 0 end ≡ some 0
  unfolding find_last_unclosed
  unclosed (suc (suc (suc n))) l le =
      let e : suc (suc (suc n)) - 0 ≡ suc (suc (suc n)) = omega arith in
      rw (e, opens n)
        (unclosed_from-lacks runes 3 n (some 0) (λ i k h. line_lacks_ticks i k (omega arith)))
  unclosed zero l le = absurd (omega arith)
  unclosed (suc zero) l le = absurd (omega arith)
  unclosed (suc (suc zero)) l le = absurd (omega arith)

  no_close : (end c : ℕ) → 3 ≤ end → find_next_closing runes end (length runes) ≡ some c → m < c
  unfolding find_next_closing
  no_close end c l e =
      let (i, is_it, le, t) = closing_from-tick runes end (length runes - end) c e in
      elim (dec_lt i m) [
        | yes h ↦ absurd (let f = line_lacks_ticks i (omega arith) h in cc)
        | no h ↦ omega arith
      ]

  newline_at : find_newline runes 0 ≡ some (length opening)
  unfolding find_newline
  newline_at =
      rw runes-opening
        (newline_from-line opening rest 0 (opening-lacks is_newline refl ink_not_newline))
      ∙ (let e : 0 + length opening ≡ length opening = omega arith in ap some e)

  header_is : trim_space (slice runes 0 (length opening)) ≡ opening
  unfolding slice
  header_is =
      let e : length opening - 0 ≡ length opening = omega arith in
      rw (e, runes-opening, take-prefix opening (10 ∷ rest))
        (trim_space_solid opening (opening-lacks is_space refl (λ c h. h.0)))

  -- The chunk of every round, and what the next round begins with.
  repeated : Text → Step
  repeated rest' =
      emits (trim_right_blank (slice runes 0 (m - 5)) ++ 10 ∷ fence) (fenced line rest') 0

  tail-IsInk :
      (n : ℕ) (s : Text)
      → All IsInk s
      → n < length s
      → (d : ℕ) × (ds : Text) × (drop n s ≡ d ∷ ds) × IsInk d
  tail-IsInk n [] h lt = absurd (omega arith)
  tail-IsInk zero (c ∷ s) h lt = (c, s, refl, h.0)
  tail-IsInk (suc n) (c ∷ s) h lt = tail-IsInk n s h.1 (omega arith)

  drop_opening :
      (d : ℕ) (ds : Text) → drop (m - 8) line ≡ d ∷ ds → drop (m - 5) runes ≡ d ∷ ds ++ 10 ∷ rest
  unfolding runes
  drop_opening d ds e =
      let k : m - 5 ≡ suc (suc (suc (m - 8))) = omega arith in
      rw (k, drop-append (m - 8) line (10 ∷ rest) (omega arith), e) refl

  retrimmed :
      (d : ℕ) (t : Text)
      → is_space d ≡ false
      → trim_space (opening ++ 10 ∷ d ∷ t) ≡ fenced line (d ∷ trim_right t)
  unfolding opening
  retrimmed d t h =
      let inner = append_assoc line (10 ∷ []) (d ∷ t) in
      let outer = append_assoc line (10 ∷ []) (d ∷ trim_right t) in
      ap (λ x. trim_space (fence ++ x)) (sym inner)
      ∙ trim_space-inside b'`' (b'`' ∷ b'`' ∷ line ++ 10 ∷ []) d t refl h
      ∙ ap (λ x. fence ++ x) outer

  again : (rest' : Text) × (emit_inside runes 0 opening (m - 5) ≡ repeated rest')
  unfolding emit_inside repeated
  again =
      let (d, ds, e, i) = tail-IsInk (m - 8) line ink (omega arith) in
      (
        d ∷ trim_right (ds ++ 10 ∷ rest),
        ap (λ x. emits (trim_right_blank (slice runes 0 (m - 5)) ++ 10 ∷ fence) x 0)
            (rw (drop_opening d ds e) (retrimmed d (ds ++ 10 ∷ rest) i.0)),
      )

  inner_limit_is : inner_limit m runes 0 ≡ m - 5
  unfolding inner_limit
  inner_limit_is = let e = length-runes in let k = length-opening in omega arith

  split_block_is :
      (end : ℕ) → end ≤ m → split_block m runes 0 0 end ≡ emit_inside runes 0 opening (m - 5)
  split_block_is end le =
      split_block-last m runes 0 0 end (length opening) opening newline_at header_is
        (let e = length-opening in ground arith) (no_split 0 (omega arith)) refl (ground arith)
      ∙ ap (emit_inside runes 0 opening) inner_limit_is

  round_is : split_round m runes 0 ≡ emit_inside runes 0 opening (m - 5)
  round_is =
      let (low, high) = effective_limit_bounds m (omega arith) in
      let wide : 3 ≤ effective_limit m = effective_limit-ge m roomy in
      let end : 0 + effective_limit m ≡ effective_limit m = omega arith in
      split_round-open m runes (effective_limit m) end (no_split (effective_limit m) high)
        (unclosed (effective_limit m) wide high)
      ∙ close_block-open m runes (effective_limit m) (λ c e. no_close (effective_limit m) c wide e)
          (let k = length-runes in let e = length-opening in omega arith)
      ∙ split_block_is (effective_limit m) high

leb-false : (a b : ℕ) → b < a → leb a b ≡ false
leb-false a b h = ground arith

length-fenced : (line rest : Text) → 3 + length line < length (fenced line rest)
length-fenced line rest = let e = length-append line (10 ∷ rest) in omega arith

-- A text that begins with a fence whose line does not fit into a chunk is never split to the end:
-- for every limit of at least 8 characters, if the line behind the fence ends in a line feed and
-- has at least as many characters as the limit, none of them a space or a backtick, then after any
-- number of rounds the loop is still running and has appended one more chunk in every round.
pub split_from-endless :
    (fuel m : ℕ) (line rest : Text)
    → 8 ≤ m
    → All IsInk line
    → m ≤ length line
    → ((split_from fuel m (fenced line rest) 0).1 ≡ running)
      × (length (split_from fuel m (fenced line rest) 0).0 ≡ fuel)
unfolding split_from
split_from-endless zero m line rest roomy ink long = (refl, refl)
split_from-endless (suc fuel) m line rest roomy ink long =
    let (rest', e) = again m line rest roomy ink long in
    let round : split_round m (fenced line rest) 0
        ≡ emits (trim_right_blank (slice (fenced line rest) 0 (m - 5)) ++ 10 ∷ fence)
            (fenced line rest') 0 =
      unfold runes repeated in round_is m line rest roomy ink long ∙ e in
    let (status, count) = split_from-endless fuel m line rest' roomy ink long in
    let size = length-fenced line rest in
    let more = leb-false (length (fenced line rest)) 0 (omega arith) in
    let wide = leb-false (length (fenced line rest) - 0) m (omega arith) in
    rw (more, wide, round, split_from) (status, ap suc count)
