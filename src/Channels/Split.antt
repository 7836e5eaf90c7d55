-- ===== src/Channels/Split.antt =====
-- pkg/channels/split.go. The index -1, or start-1, for what was not found is `none`. A slice whose end
-- lies before its start panics.
pub mod Search
pub mod Bounds
pub mod Endless
pub mod Plain
mod Tests
use halfmoon.Base.{
  ℕ, zero, suc, ◌+◌, ◌-◌, ◌*◌, ◌/◌, ◌≤◌, min, max, Bool, true, false, ◌&&◌, ◌||◌, Option, none,
  some, List, [], ◌∷◌, ◌++◌, ltb, leb, ◌==◌, if◌then◌else◌, length, get_elem?, take, drop,
}
use halfmoon.Base.Text.{Text, codes, trim_space}
use halfmoon.Base.Int.{ℤ, pos, negsuc}

abbrev pub fence : Text
fence = b'`' ∷ b'`' ∷ b'`' ∷ []

abbrev pub is_newline : ℕ → Bool
is_newline c = c == 10

abbrev pub is_gap : ℕ → Bool
is_gap c = c == 32 || c == 9

-- The characters of " \t\n\r".
abbrev pub is_blank : ℕ → Bool
is_blank c = c == 32 || c == 9 || c == 10 || c == 13

unfoldable pub holds_at : (ℕ → Bool) → Text → ℕ → Bool
holds_at p runes i = elim (get_elem? runes i) [ none ↦ false | some c ↦ p c ]

-- The loop of findLastNewlineInRange and findLastSpaceInRange over the n places from lo on, downwards.
unfoldable pub find_down : (ℕ → Bool) → Text → ℕ → ℕ → Option ℕ
unfolding holds_at
find_down p runes lo zero = none
find_down p runes lo (suc n) =
    let rest = find_down p runes lo n in if holds_at p runes (lo + n) then some (lo + n) else rest

unfoldable pub find_last : (ℕ → Bool) → Text → ℕ → ℕ → ℕ → Option ℕ
unfolding find_down
find_last p runes start end window =
    let lo = max (end - window) start in find_down p runes lo (end - lo)

abbrev pub is_tick : ℕ → Bool
is_tick c = c == b'`'

unfoldable pub fence_at : Text → ℕ → Bool
unfolding holds_at
fence_at runes i =
    holds_at is_tick runes i && holds_at is_tick runes (i + 1) && holds_at is_tick runes (i + 2)

abbrev pub toggle : ℕ → Option ℕ → Option ℕ
toggle i none = some i
toggle i (some j) = none

-- The loop of findLastUnclosedCodeBlockInRange over the n places from i on; the last argument is the
-- place of the block that is open. A fence has three places left.
unfoldable pub unclosed_from : Text → ℕ → ℕ → Option ℕ → Option ℕ
unfolding fence_at
unclosed_from runes i (suc (suc (suc n))) open_at = elim (fence_at runes i) [
  | true ↦ unclosed_from runes (i + 3) n (toggle i open_at)
  | false ↦ unclosed_from runes (i + 1) (suc (suc n)) open_at
]
unclosed_from runes i zero open_at = open_at
unclosed_from runes i (suc zero) open_at = open_at
unclosed_from runes i (suc (suc zero)) open_at = open_at

unfoldable pub find_last_unclosed : Text → ℕ → ℕ → Option ℕ
unfolding unclosed_from
find_last_unclosed runes start end = unclosed_from runes start (end - start) none

unfoldable pub closing_from : Text → ℕ → ℕ → Option ℕ
unfolding fence_at
closing_from runes i (suc (suc (suc n))) = elim (fence_at runes i) [
  | true ↦ some (i + 3)
  | false ↦ closing_from runes (i + 1) (suc (suc n))
]
closing_from runes i zero = none
closing_from runes i (suc zero) = none
closing_from runes i (suc (suc zero)) = none

unfoldable pub find_next_closing : Text → ℕ → ℕ → Option ℕ
unfolding closing_from
find_next_closing runes start end = closing_from runes start (end - start)

-- The index of the first newline of a text that begins at i.
unfoldable pub newline_from : Text → ℕ → Option ℕ
newline_from [] i = none
newline_from (c ∷ s) i = let rest = newline_from s (i + 1) in if is_newline c then some i else rest

unfoldable pub find_newline : Text → ℕ → Option ℕ
unfolding newline_from
find_newline runes from = newline_from (drop from runes) from

unfoldable pub slice : Text → ℕ → ℕ → Text
slice runes a b = take (b - a) (drop a runes)

keep_blank : ℕ → Text → Text
keep_blank c [] = if is_blank c then [] else c ∷ []
keep_blank c (x ∷ xs) = c ∷ x ∷ xs

-- strings.TrimRight(s, " \t\n\r")
unfoldable pub trim_right_blank : Text → Text
unfolding keep_blank
trim_right_blank [] = []
trim_right_blank (c ∷ s) = keep_blank c (trim_right_blank s)

unfoldable pub count_blank : Text → ℕ
count_blank [] = 0
count_blank (c ∷ s) = let rest = count_blank s in if is_blank c then suc rest else 0

unfoldable pub code_block_buffer : ℕ → ℕ
code_block_buffer m = if ltb (m / 2) (max (m / 10) 50) then m / 2 else max (m / 10) 50

unfoldable pub effective_limit : ℕ → ℕ
unfolding code_block_buffer
effective_limit m = max (m - code_block_buffer m) (m / 2)

-- The place that was found, if it lies behind the bound.
abbrev pub beyond : Option ℕ → ℕ → Option ℕ
beyond none bound = none
beyond (some i) bound = if ltb bound i then some i else none

abbrev pub or_else : Option ℕ → ℕ → ℕ
or_else none d = d
or_else (some i) d = i

-- The last newline between, else the last space.
unfoldable pub natural_split : Text → ℕ → ℕ → Option ℕ
unfolding find_last
natural_split runes start end = elim (beyond (find_last is_newline runes start end 200) start) [
  | some i ↦ some i
  | none ↦ beyond (find_last is_gap runes start end 100) start
]

-- A round of the loop: it panics, or appends a chunk and goes on.
pub data Step : Type 0 where
  panics : Step
  emits : Text → Text → ℕ → Step

-- The end of a round that does not split inside a block.
unfoldable pub emit_plain : ℕ → Text → ℕ → ℕ → Step
unfolding slice count_blank effective_limit
emit_plain m runes start msg_end =
    let e = if leb msg_end start then start + effective_limit m else msg_end in
    emits (slice runes start e) runes (e + count_blank (drop e runes))

-- A split inside a block, with the fences that are injected.
unfoldable pub emit_inside : Text → ℕ → Text → ℕ → Step
unfolding slice trim_right_blank
emit_inside runes start header msg_end =
    emits (trim_right_blank (slice runes start msg_end) ++ 10 ∷ fence)
      (trim_space (header ++ 10 ∷ drop msg_end runes)) 0

-- min(start+maxLen-5, totalLen), which lies before the start if maxLen is below 5.
unfoldable pub inner_limit : ℕ → Text → ℕ → ℕ
inner_limit m runes start = min (start + m - 5) (length runes)

-- The block opens at u and cannot be closed in this chunk.
unfoldable pub split_block : ℕ → Text → ℕ → ℕ → ℕ → Step
unfolding find_newline slice find_last natural_split emit_plain emit_inside inner_limit
split_block m runes start u msg_end =
    let header_end = find_newline runes u in
    let header = trim_space (slice runes u (or_else header_end (u + 3))) in
    let header_end_index = or_else header_end (u + length header) in
    if ltb (header_end_index + 20) msg_end
    then (if ltb m 5
        then panics
        else emit_inside runes start header (
            or_else
              (beyond (find_last is_newline runes start (inner_limit m runes start) 200)
                header_end_index)
              (inner_limit m runes start)))
    else elim (natural_split runes start u) [
      | some i ↦ emit_plain m runes start i
      | none ↦
          if ltb 20 (u - start)
          then emit_plain m runes start u
          else if ltb m 5
          then panics
          else emit_inside runes start header (inner_limit m runes start)
    ]

-- A block is open at u: the chunk is extended to its closing fence, if that fits.
unfoldable pub close_block : ℕ → Text → ℕ → ℕ → ℕ → Step
unfolding find_next_closing emit_plain split_block
close_block m runes start u msg_end =
    if ltb msg_end (length runes)
    then (elim (find_next_closing runes msg_end (length runes)) [
      | some c ↦
          if leb (c - start) m
          then emit_plain m runes start c
          else split_block m runes start u msg_end
      | none ↦ split_block m runes start u msg_end
    ])
    else emit_plain m runes start msg_end

unfoldable pub split_round : ℕ → Text → ℕ → Step
unfolding natural_split effective_limit find_last_unclosed close_block emit_plain
split_round m runes start =
    let end = start + effective_limit m in
    let msg_end = or_else (natural_split runes start end) end in
    elim (find_last_unclosed runes start msg_end) [
      | none ↦ emit_plain m runes start msg_end
      | some u ↦ close_block m runes start u msg_end
    ]

pub data Status : Type 0 where
  finished panicked running : Status

abbrev pub prepend : Text → List Text × Status → List Text × Status
prepend c (cs, s) = (c ∷ cs, s)

-- The loop on fuel: the chunks so far, and whether it is still running.
unfoldable pub split_from : ℕ → ℕ → Text → ℕ → List Text × Status
unfolding split_round slice
split_from zero m runes start = ([], running)
split_from (suc fuel) m runes start =
    if leb (length runes) start
    then ([], finished)
    else if leb (length runes - start) m
    then (slice runes start (length runes) ∷ [], finished)
    else elim (split_round m runes start) [
      | panics ↦ ([], panicked)
      | emits chunk runes' start' ↦ prepend chunk (split_from fuel m runes' start')
    ]

abbrev pub unsplit : Text → List Text × Status
unsplit [] = ([], finished)
unsplit (c ∷ s) = ((c ∷ s) ∷ [], finished)

unfoldable pub split_message : ℕ → Text → ℤ → List Text × Status
unfolding split_from
split_message fuel content (negsuc k) = unsplit content
split_message fuel content (pos zero) = unsplit content
split_message fuel content (pos (suc n)) = split_from fuel (suc n) content 0
