-- ===== src/Channels/Split/Tests.antt =====
-- Runs of pkg/channels/split.go on concrete texts.
use halfmoon.Base.{ℕ, zero, suc, ◌≤◌, ◌≡◌, ◌≢◌, refl, false, [], ◌∷◌, All, arith, any, length}
use halfmoon.Base.Int.{pos}
use halfmoon.Base.Text.{Text, codes}
use halfmoon.Channels.Split.{
  fence_at, is_tick, holds_at, split_from, split_message, finished, panicked, running,
}
use halfmoon.Channels.Split.Bounds.{split_from_bounds}
use halfmoon.Channels.Split.Endless.{split_from-endless}
use halfmoon.Channels.Split.Endless.Steps.{IsInk, fenced}
use halfmoon.Channels.Split.Plain.{NoFence, solid, concat, split_message-plain}

split_from_bounds_example :
    All
      (λ c. length c ≤ 12)
      (split_from 9 12 (codes "hello ```go\nab\ncd\nef\n``` and more text") 0).0
    × ((split_from 9 12 (codes "hello ```go\nab\ncd\nef\n``` and more text") 0).1 ≢ panicked)
split_from_bounds_example =
    split_from_bounds 9 12 (codes "hello ```go\nab\ncd\nef\n``` and more text") 0 (omega arith)

abbrev line : Text
line = codes "{\"a\":[1,2,3]}"

line-IsInk : All IsInk line
line-IsInk = ground arith

split_from-endless_example :
    ((split_from 5 10 (fenced line (codes "```")) 0).1 ≡ running)
    × (length (split_from 5 10 (fenced line (codes "```")) 0).0 ≡ 5)
split_from-endless_example =
    split_from-endless 5 10 line (codes "```") (omega arith) line-IsInk (omega arith)

no_tick : (s : Text) (i : ℕ) → any is_tick s ≡ false → holds_at is_tick s i ≡ false
unfolding holds_at
no_tick [] i e = refl
no_tick (c ∷ s) zero e = ground arith
no_tick (c ∷ s) (suc i) e = no_tick s i (ground arith)

plain-NoFence : (s : Text) → any is_tick s ≡ false → NoFence s
unfolding fence_at
plain-NoFence s e i = let k = no_tick s i e in ground arith

split_message-plain_example :
    let out = split_message 22 (codes "one two\tthree, a text") (pos 6) in
    (out.1 ≡ finished) × (solid (concat out.0) ≡ solid (codes "one two\tthree, a text"))
split_message-plain_example =
    split_message-plain (codes "one two\tthree, a text") 5
      (plain-NoFence (codes "one two\tthree, a text") refl)
