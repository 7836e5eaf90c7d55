-- ===== src/Channels/Split/Bounds.antt =====
-- The length of the chunks of SplitMessage.
use halfmoon.Base.{
  subst, inl, inr, ◌⊎◌, ℕ, zero, suc, ◌+◌, ◌-◌, ◌≤◌, ◌<◌, ◌≡◌, ◌≢◌, refl, min, false, ◌∷◌, arith,
  ltb, leb, length, length-append, All, Bool-cases, Option-cases,
}
use halfmoon.Base.Text.{Text, trim_space}
use halfmoon.Channels.Split.{
  Step, panics, emits, fence, find_last, is_newline, or_else, beyond, natural_split, find_newline,
  find_last_unclosed, find_next_closing, slice, trim_right_blank, effective_limit, inner_limit,
  emit_plain, emit_inside, split_block, close_block, split_round, panicked, split_from,
}
use halfmoon.Channels.Split.Search.{
  beyond_bounds, natural_split_bounds, find_last_unclosed_bounds, effective_limit_bounds,
  length-slice-le, length-trim_right_blank-le,
}

-- The round does not panic, and its chunk has at most m characters.
abbrev Fits : ℕ → Step → Type 0
Fits m panics = ⊥
Fits m (emits chunk runes start) = length chunk ≤ m

emit_plain-Fits :
    (m : ℕ) (runes : Text) (start e : ℕ)
    → 0 < m
    → e ≤ start + m
    → Fits m (emit_plain m runes start e)
unfolding emit_plain
emit_plain-Fits m runes start e positive h =
    let (_, limit) = effective_limit_bounds m positive in
    let plain = length-slice-le runes start e in
    let forced = length-slice-le runes start (start + effective_limit m) in
    elim (Bool-cases (leb e start)) [ inl k ↦ rw k (omega arith) | inr k ↦ rw k (omega arith) ]

emit_inside-Fits :
    (m : ℕ) (runes : Text) (start : ℕ) (header : Text) (e : ℕ)
    → 5 ≤ m
    → e ≤ start + m - 5
    → Fits m (emit_inside runes start header e)
unfolding emit_inside
emit_inside-Fits m runes start header e h le =
    let cut = length-trim_right_blank-le (slice runes start e) in
    let part = length-slice-le runes start e in
    let joined = length-append (trim_right_blank (slice runes start e)) (10 ∷ fence) in omega arith

inner_end :
    (m : ℕ) (runes : Text) (start bound : ℕ)
    → or_else
        (beyond (find_last is_newline runes start (inner_limit m runes start) 200) bound)
        (inner_limit m runes start)
      ≤ start + m - 5
unfolding inner_limit
inner_end m runes start bound =
    elim (Option-cases
      (beyond (find_last is_newline runes start (min (start + m - 5) (length runes)) 200) bound)) [
        | inl n ↦ rw n (omega arith)
        | inr (i, e) ↦
            let (_, h) =
              beyond_bounds is_newline runes start (min (start + m - 5) (length runes)) 200 bound i
                e in
            rw e (omega arith)
      ]

split_block-Fits :
    (m : ℕ) (runes : Text) (start u msg_end : ℕ)
    → 5 ≤ m
    → u < start + m
    → Fits m (split_block m runes start u msg_end)
unfolding split_block
split_block-Fits m runes start u msg_end h lt =
    elim (Bool-cases (ltb (or_else (find_newline runes u) (u + length header) + 20) msg_end)) [
      | inl inside ↦
          rw (inside, roomy)
            (emit_inside-Fits m runes start header _ h
              (inner_end m runes start (or_else (find_newline runes u) (u + length header))))
      | inr outside ↦ rw outside (elim (Option-cases (natural_split runes start u)) [
        | inr (i, e) ↦
            let (_, k) = natural_split_bounds runes start u i e in
            rw e (emit_plain-Fits m runes start i (omega arith) (omega arith))
        | inl n ↦ rw n (elim (Bool-cases (ltb 20 (u - start))) [
          | inl far ↦ rw far (emit_plain-Fits m runes start u (omega arith) (omega arith))
          | inr near ↦
              rw (near, roomy)
                (emit_inside-Fits m runes start header (inner_limit m runes start) h
                  (unfold inner_limit in omega arith))
        ])
      ])
    ]
  where
    header : Text
    header = trim_space (slice runes u (or_else (find_newline runes u) (u + 3)))

    roomy : ltb m 5 ≡ false
    roomy = ground arith

close_block-Fits :
    (m : ℕ) (runes : Text) (start u msg_end : ℕ)
    → 5 ≤ m
    → u < start + m
    → msg_end ≤ start + m
    → Fits m (close_block m runes start u msg_end)
unfolding close_block
close_block-Fits m runes start u msg_end h lt le =
    let split = split_block-Fits m runes start u msg_end h lt in
    elim (Bool-cases (ltb msg_end (length runes))) [
      | inr k ↦ rw k (emit_plain-Fits m runes start msg_end (omega arith) le)
      | inl k ↦ rw k (elim (Option-cases (find_next_closing runes msg_end (length runes))) [
        | inl n ↦ rw n split
        | inr (c, e) ↦ rw e (elim (Bool-cases (leb (c - start) m)) [
          | inl fits ↦ rw fits (emit_plain-Fits m runes start c (omega arith) (ground arith))
          | inr long ↦ rw long split
        ])
      ])
    ]

pub natural_end :
    (m : ℕ) (runes : Text) (start : ℕ)
    → 0 < m
    → (start
        < or_else
            (natural_split runes start (start + effective_limit m))
            (start + effective_limit m))
      × (or_else (natural_split runes start (start + effective_limit m)) (start + effective_limit m)
          ≤ start + m)
natural_end m runes start h =
    let (low, high) = effective_limit_bounds m h in
    elim (Option-cases (natural_split runes start (start + effective_limit m))) [
      | inl n ↦ rw n (omega arith, omega arith)
      | inr (i, e) ↦
          let (l, k) = natural_split_bounds runes start (start + effective_limit m) i e in
          rw e (l, omega arith)
    ]

split_round-Fits : (m : ℕ) (runes : Text) (start : ℕ) → 5 ≤ m → Fits m (split_round m runes start)
unfolding split_round
split_round-Fits m runes start h = elim (Option-cases (find_last_unclosed runes start msg_end)) [
  | inl n ↦ rw (n, split_round, Fits) (emit_plain-Fits m runes start msg_end (omega arith) ends.1)
  | inr (u, e) ↦
      let low = ends.0 in
      let high = ends.1 in
      let (_, k) = find_last_unclosed_bounds runes start msg_end u (omega arith) e in
      rw (e, split_round, Fits) (close_block-Fits m runes start u msg_end h (omega arith) ends.1)
]
  where
    msg_end : ℕ
    msg_end =
        or_else (natural_split runes start (start + effective_limit m)) (start + effective_limit m)

    ends : (start < msg_end) × (msg_end ≤ start + m)
    ends = natural_end m runes start (omega arith)

Step-cases : (s : Step) → (s ≡ panics) ⊎ ((c : Text) × (r : Text) × (n : ℕ) × (s ≡ emits c r n))
Step-cases panics = inl refl
Step-cases (emits c r n) = inr (c, r, n, refl)

-- With a limit of at least 5 characters, no chunk that SplitMessage ever appends has more characters
-- than the limit, with the fences that it injects, and it never panics: for every text, and however
-- long the loop runs.
pub split_from_bounds :
    (fuel m : ℕ) (runes : Text) (start : ℕ)
    → 5 ≤ m
    → All (λ c. length c ≤ m) (split_from fuel m runes start).0
      × ((split_from fuel m runes start).1 ≢ panicked)
unfolding split_from
split_from_bounds zero m runes start h = (tt, λ e. cc)
split_from_bounds (suc fuel) m runes start h = elim (Bool-cases (leb (length runes) start)) [
  | inl done ↦ rw (done, split_from) (tt, λ e. cc)
  | inr more ↦ elim (Bool-cases (leb (length runes - start) m)) [
    | inl last ↦
        let le = length-slice-le runes start (length runes) in
        rw (more, last, split_from) ((ground arith, tt), λ e. cc)
    | inr long ↦ elim (Step-cases (split_round m runes start)) [
      | inl p ↦ absurd (subst (Fits m) p (split_round-Fits m runes start h))
      | inr (c, r, n, e) ↦
          let (short, safe) = split_from_bounds fuel m r n h in
          rw (more, long, e, split_from)
            ((subst (Fits m) e (split_round-Fits m runes start h), short), safe)
    ]
  ]
]
