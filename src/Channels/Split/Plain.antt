-- ===== src/Channels/Split/Plain.antt =====
-- Texts without fences: SplitMessage ends, and loses only white space.
use halfmoon.Base.{
  ℕ, zero, suc, ◌+◌, ◌-◌, ◌<◌, ◌≡◌, inl, inr, refl, ap, sym, ◌∙◌, false, not, none, List, [], ◌∷◌,
  ◌++◌, append-nil, arith, leb, length, length-drop, take, take-all, drop, drop-drop, drop-all,
  filter, Bool-cases,
}
use halfmoon.Base.Text.{Text}
use halfmoon.Channels.Split.{
  emits, is_blank, fence_at, unclosed_from, find_last_unclosed, or_else, natural_split, count_blank,
  slice, effective_limit, emit_plain, split_round, Status, finished, split_from, split_message,
}
use halfmoon.Base.Int.{pos}
use halfmoon.Channels.Split.Bounds.{natural_end}

-- The text has no fence.
abbrev pub NoFence : Text → Type 0
NoFence runes = (i : ℕ) → fence_at runes i ≡ false

-- The characters that are no white space.
abbrev pub solid : Text → Text
solid s = filter (λ c. not (is_blank c)) s

abbrev pub concat : List Text → Text
concat [] = []
concat (s ∷ ss) = s ++ concat ss

unclosed_from-none : (runes : Text) (i n : ℕ) → NoFence runes → unclosed_from runes i n none ≡ none
unfolding unclosed_from
unclosed_from-none runes i zero h = refl
unclosed_from-none runes i (suc zero) h = refl
unclosed_from-none runes i (suc (suc zero)) h = refl
unclosed_from-none runes i (suc (suc (suc n))) h =
    rw (h i, unclosed_from) (unclosed_from-none runes (i + 1) (suc (suc n)) h)

find_last_unclosed-none :
    (runes : Text) (start end : ℕ) → NoFence runes → find_last_unclosed runes start end ≡ none
unfolding find_last_unclosed
find_last_unclosed-none runes start end h = unclosed_from-none runes start (end - start) h

emit_plain-forward :
    (m : ℕ) (runes : Text) (start e : ℕ)
    → start < e
    → emit_plain m runes start e
      ≡ emits (slice runes start e) runes (e + count_blank (drop e runes))
unfolding emit_plain
emit_plain-forward m runes start e h = let k : leb e start ≡ false = ground arith in rw k refl

split_round-plain :
    (m : ℕ) (runes : Text) (start e : ℕ)
    → or_else (natural_split runes start (start + effective_limit m)) (start + effective_limit m)
      ≡ e
    → NoFence runes
    → split_round m runes start ≡ emit_plain m runes start e
unfolding split_round
split_round-plain m runes start e k h =
    let n = find_last_unclosed-none runes start e h in ground arith

solid-append : (s t : Text) → solid (s ++ t) ≡ solid s ++ solid t
solid-append [] t = refl
solid-append (c ∷ s) t = elim (Bool-cases (is_blank c)) [
  | inl b ↦ rw b (solid-append s t)
  | inr b ↦ rw b (ap (◌∷◌ c) (solid-append s t))
]

solid-skip : (s : Text) → solid (drop (count_blank s) s) ≡ solid s
unfolding count_blank
solid-skip [] = refl
solid-skip (c ∷ s) = elim (Bool-cases (is_blank c)) [
  | inl b ↦ rw b (solid-skip s)
  | inr b ↦ let e : count_blank (c ∷ s) ≡ 0 = ground arith in ap (λ n. solid (drop n (c ∷ s))) e
]

take-append-drop : (n : ℕ) (s : Text) → take n s ++ drop n s ≡ s
take-append-drop zero s = refl
take-append-drop (suc n) [] = refl
take-append-drop (suc n) (c ∷ s) = ap (◌∷◌ c) (take-append-drop n s)

-- A chunk, the white space behind it and the rest are the text from the start on.
solid_round :
    (runes : Text) (start e : ℕ)
    → start < e
    → solid (slice runes start e) ++ solid (drop (e + count_blank (drop e runes)) runes)
      ≡ solid (drop start runes)
unfolding slice
solid_round runes start e h =
    let k : start + (e - start) ≡ e = omega arith in
    let behind : drop (e - start) (drop start runes) ≡ drop e runes =
      drop-drop (e - start) start runes ∙ ap (λ n. drop n runes) k in
    ap (λ x. solid (take (e - start) (drop start runes)) ++ solid x)
      (sym (drop-drop (count_blank (drop e runes)) e runes))
    ∙ ap (λ x. solid (take (e - start) (drop start runes)) ++ x) (solid-skip (drop e runes))
    ∙ ap (λ x. solid (take (e - start) (drop start runes)) ++ solid x) (sym behind)
    ∙ sym (solid-append (take (e - start) (drop start runes)) (drop (e - start) (drop start runes)))
    ∙ ap solid (take-append-drop (e - start) (drop start runes))

slice-all : (runes : Text) (start : ℕ) → slice runes start (length runes) ≡ drop start runes
unfolding slice
slice-all runes start =
    let e = length-drop start runes in
    take-all (length runes - start) (drop start runes) (omega arith)

-- A text with no fence: enough rounds end, and the chunks have the characters of the text, in order,
-- white space aside.
record Splits (runes : Text) (start : ℕ) (out : List Text × Status) : Type 0 where
  pub ends : out.1 ≡ finished
  pub keeps : solid (concat out.0) ≡ solid (drop start runes)

further :
    (n start later fuel : ℕ)
    → n - start < suc fuel
    → leb n start ≡ false
    → start < later
    → n - later < fuel
further n start later fuel h more lt = ground arith

split_from-Splits :
    (fuel m : ℕ) (runes : Text) (start : ℕ)
    → 0 < m
    → NoFence runes
    → length runes - start < fuel
    → Splits runes start (split_from fuel m runes start)
unfolding split_from
split_from-Splits zero m runes start positive h enough = absurd (omega arith)
split_from-Splits (suc fuel) m runes start positive h enough =
    elim (Bool-cases (leb (length runes) start)) [
      | inl done ↦
          rw (done, split_from)
            (record { ends = refl; keeps = ap solid (sym (drop-all start runes (ground arith))) })
      | inr more ↦ elim (Bool-cases (leb (length runes - start) m)) [
        | inl last ↦
            rw (more, last, split_from)
              (record {
                ends = refl;
                keeps =
                    ap solid
                      (append-nil (slice runes start (length runes)) ∙ slice-all runes start);
              })
        | inr long ↦
            let e =
              or_else (natural_split runes start (start + effective_limit m))
                (start + effective_limit m) in
            let (ahead, _) = natural_end m runes start positive in
            let round : split_round m runes start
                ≡ emits (slice runes start e) runes (e + count_blank (drop e runes)) =
              split_round-plain m runes start e refl h ∙ emit_plain-forward m runes start e ahead in
            let s = split_from-Splits fuel m runes (e + count_blank (drop e runes)) positive h (
              further (length runes) start (e + count_blank (drop e runes)) fuel enough more
                (omega arith)) in
            rw (more, long, round, split_from)
              (record {
                ends = s.ends;
                keeps =
                    solid-append (slice runes start e)
                      (concat (split_from fuel m runes (e + count_blank (drop e runes))).0)
                    ∙ ap (λ x. solid (slice runes start e) ++ x) s.keeps
                    ∙ solid_round runes start e ahead;
              })
      ]
    ]

-- SplitMessage ends on every text with no fence, for every positive limit: as many rounds as the
-- text has characters, and one more, are enough. The chunks one behind the other have the
-- characters of the text, in order, except for white space.
pub split_message-plain :
    (content : Text) (n : ℕ)
    → NoFence content
    → let out = split_message (suc (length content)) content (pos (suc n)) in
      (out.1 ≡ finished) × (solid (concat out.0) ≡ solid content)
unfolding split_message
split_message-plain content n h =
    let s =
      split_from-Splits (suc (length content)) (suc n) content 0 (omega arith) h (omega arith) in
    (s.ends, s.keeps)
