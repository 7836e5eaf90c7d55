-- ===== src/Agent/Steering.antt =====
-- pkg/agent/steering.go: the queue of messages that interrupt a running turn. Each method holds the
-- lock for its whole body.
pub mod Order
mod Tests
use halfmoon.Base.{
  ℕ, ◌+◌, Bool, true, false, Option, none, some, List, [], ◌∷◌, ◌++◌, leb, if◌then◌else◌, length,
  holds,
}
use halfmoon.Base.Text.{Text, text_dec, codes, trim_space}
use halfmoon.Base.Assoc.{lookup, insert, delete}
use halfmoon.Protocol.{Message}

-- MaxQueueSize
abbrev pub max_queue_size : ℕ
max_queue_size = 10

-- manualSteeringScope
abbrev pub manual_scope : Text
manual_scope = codes "__manual__"

pub data SteeringMode : Type 0 where
  one_at_a_time all : SteeringMode

unfoldable pub parse_steering_mode : Text → SteeringMode
parse_steering_mode s = if holds (text_dec s (codes "all")) then all else one_at_a_time

pub record SteeringQueue : Type 0 where
  pub queues : List (Text × List Message)
  pub mode : SteeringMode

unfoldable pub new_steering_queue : SteeringMode → SteeringQueue
new_steering_queue mode = record { queues = []; mode = mode }

abbrev pub or_manual : Text → Text
or_manual [] = manual_scope
or_manual (c ∷ s) = c ∷ s

unfoldable pub normalize_scope : Text → Text
normalize_scope scope = or_manual (trim_space scope)

abbrev pub or_empty : Option (List Message) → List Message
or_empty none = []
or_empty (some ms) = ms

-- sq.queues[scope]
unfoldable pub pending : Text → SteeringQueue → List Message
pending scope sq = or_empty (lookup text_dec scope sq.queues)

-- The flag says that the queue is full.
unfoldable pub push_scope : Text → Message → SteeringQueue → SteeringQueue × Bool
unfolding normalize_scope pending
push_scope scope msg sq =
    let s = normalize_scope scope in
    if leb max_queue_size (length (pending s sq))
    then (sq, true)
    else (record sq { queues = insert text_dec s (pending s sq ++ msg ∷ []) sq.queues }, false)

unfoldable pub push : Message → SteeringQueue → SteeringQueue × Bool
unfolding push_scope
push msg sq = push_scope manual_scope msg sq

-- What is left of a queue after its first message was taken.
put_rest : Text → List Message → SteeringQueue → SteeringQueue
put_rest scope [] sq = record sq { queues = delete text_dec scope sq.queues }
put_rest scope (m ∷ ms) sq = record sq { queues = insert text_dec scope (m ∷ ms) sq.queues }

take_from : SteeringMode → Text → List Message → SteeringQueue → SteeringQueue × List Message
unfolding put_rest
take_from mode scope [] sq = (sq, [])
take_from all scope (m ∷ ms) sq = (record sq { queues = delete text_dec scope sq.queues }, m ∷ ms)
take_from one_at_a_time scope (m ∷ ms) sq = (put_rest scope ms sq, m ∷ [])

unfoldable pub dequeue_locked : Text → SteeringQueue → SteeringQueue × List Message
unfolding take_from pending
dequeue_locked scope sq = take_from sq.mode scope (pending scope sq) sq

unfoldable pub dequeue_scope : Text → SteeringQueue → SteeringQueue × List Message
unfolding dequeue_locked normalize_scope
dequeue_scope scope sq = dequeue_locked (normalize_scope scope) sq

unfoldable pub dequeue : SteeringQueue → SteeringQueue × List Message
unfolding dequeue_scope
dequeue sq = dequeue_scope manual_scope sq

or_dequeue_manual : SteeringQueue × List Message → SteeringQueue × List Message
unfolding dequeue_locked
or_dequeue_manual (sq, []) = dequeue_locked manual_scope sq
or_dequeue_manual (sq, m ∷ ms) = (sq, m ∷ ms)

dequeue_trimmed : Text → SteeringQueue → SteeringQueue × List Message
unfolding or_dequeue_manual
dequeue_trimmed [] sq = dequeue_locked manual_scope sq
dequeue_trimmed (c ∷ s) sq = or_dequeue_manual (dequeue_locked (c ∷ s) sq)

unfoldable pub dequeue_scope_with_fallback : Text → SteeringQueue → SteeringQueue × List Message
unfolding dequeue_trimmed
dequeue_scope_with_fallback scope sq = dequeue_trimmed (trim_space scope) sq

total_length : List (Text × List Message) → ℕ
total_length [] = 0
total_length ((scope, queue) ∷ queues) = length queue + total_length queues

-- len of all scopes
unfoldable pub len : SteeringQueue → ℕ
unfolding total_length
len sq = total_length sq.queues

unfoldable pub len_scope : Text → SteeringQueue → ℕ
unfolding pending normalize_scope
len_scope scope sq = length (pending (normalize_scope scope) sq)

unfoldable pub set_mode : SteeringMode → SteeringQueue → SteeringQueue
set_mode mode sq = record sq { mode = mode }
