-- ===== src/Agent/Steering/Order.antt =====
-- What goes through the steering queue over a run of calls.
pub mod Pending
use halfmoon.Base.{
  subst, ◌+◌, ◌≤◌, ◌≡◌, inl, inr, refl, ap, sym, ◌∙◌, Bool, true, false, List, [], ◌∷◌, ◌++◌,
  append-nil, append_assoc, arith, leb, if◌then◌else◌, length, length-append, ite, Bool-cases,
}
use halfmoon.Base.Text.{Text, text_dec, trim_space}
use halfmoon.Base.Assoc.{lookup, insert, delete, lookup-insert, lookup-delete}
use halfmoon.Protocol.{Message}
use halfmoon.Agent.Steering.{
  SteeringMode, all, one_at_a_time, SteeringQueue, max_queue_size, manual_scope, new_steering_queue,
  normalize_scope, or_empty, pending, push_scope, put_rest, take_from, dequeue_locked,
  dequeue_scope, or_dequeue_manual, dequeue_trimmed, dequeue_scope_with_fallback, set_mode,
}
use halfmoon.Agent.Steering.Order.Pending.{
  dequeues, falls_back, Op, pushes, sets_mode, perform, performs, accepted_by, delivered_by,
  accepted, delivered, perform-pending,
}

-- Over every run of calls, the messages that a scope's queue has delivered, and then those that wait
-- there, are those that waited there first and then those it accepted, in this order: none is lost,
-- none is delivered twice and none overtakes another, whatever the mode and whichever method took
-- it.
pub delivered-accepted :
    (k : Text) (ops : List Op) (sq : SteeringQueue)
    → delivered k ops sq ++ pending k (performs ops sq) ≡ pending k sq ++ accepted k ops sq
unfolding delivered accepted performs
delivered-accepted k [] sq = sym (append-nil (pending k sq))
delivered-accepted k (op ∷ ops) sq =
    append_assoc (delivered_by k op sq) (delivered k ops (perform op sq))
      (pending k (performs ops (perform op sq)))
    ∙ ap (◌++◌ (delivered_by k op sq)) (delivered-accepted k ops (perform op sq))
    ∙ sym (
        append_assoc (delivered_by k op sq) (pending k (perform op sq))
          (accepted k ops (perform op sq)))
    ∙ ap (λ x. x ++ accepted k ops (perform op sq)) (perform-pending k op sq)
    ∙ append_assoc (pending k sq) (accepted_by k op sq) (accepted k ops (perform op sq))

-- No queue holds more than this.
abbrev pub IsBounded : SteeringQueue → Type 0
IsBounded sq = (k : Text) → length (pending k sq) ≤ max_queue_size

push_scope-full :
    (scope : Text) (msg : Message) (sq : SteeringQueue)
    → (push_scope scope msg sq).1 ≡ leb max_queue_size (length (pending (normalize_scope scope) sq))
unfolding push_scope
push_scope-full scope msg sq =
    elim (Bool-cases (leb max_queue_size (length (pending (normalize_scope scope) sq)))) [
      | inl e ↦ ground arith
      | inr e ↦ ground arith
    ]

room_for :
    (k s : Text) (msg : Message) (sq : SteeringQueue) (d : Dec (s ≡ k)) (full : Bool)
    → leb max_queue_size (length (pending s sq)) ≡ full
    → length (pending k sq) ≤ max_queue_size
    → length (pending k sq) + length (ite d (if full then [] else msg ∷ []) []) ≤ max_queue_size
room_for k s msg sq (no n) full e h = omega (arith, h)
room_for k s msg sq (yes p) true e h = omega (arith, h)
room_for k s msg sq (yes p) false e h =
    let same : length (pending s sq) ≡ length (pending k sq) = ap (λ x. length (pending x sq)) p in
    ground arith

accepted_by-room :
    (k : Text) (op : Op) (sq : SteeringQueue)
    → length (pending k sq) ≤ max_queue_size
    → length (pending k sq) + length (accepted_by k op sq) ≤ max_queue_size
unfolding accepted_by
accepted_by-room k (pushes scope msg) sq h = rw (push_scope-full scope msg sq) (
    room_for k (normalize_scope scope) msg sq (text_dec (normalize_scope scope) k)
      (leb max_queue_size (length (pending (normalize_scope scope) sq))) refl h)
accepted_by-room k (dequeues scope) sq h = omega (arith, h)
accepted_by-room k (falls_back scope) sq h = omega (arith, h)
accepted_by-room k (sets_mode mode) sq h = omega (arith, h)

performs-IsBounded_from :
    (ops : List Op) (sq : SteeringQueue) → IsBounded sq → IsBounded (performs ops sq)
unfolding performs
performs-IsBounded_from [] sq h = h
performs-IsBounded_from (op ∷ ops) sq h = performs-IsBounded_from ops (perform op sq) (λ k.
    let all = ap length (perform-pending k op sq) in
    let room = accepted_by-room k op sq (h k) in
    let left = length-append (delivered_by k op sq) (pending k (perform op sq)) in
    let right = length-append (pending k sq) (accepted_by k op sq) in omega arith)

-- After any run of calls on a new queue, no scope has more than ten messages waiting.
pub performs-IsBounded :
    (mode : SteeringMode) (ops : List Op) → IsBounded (performs ops (new_steering_queue mode))
performs-IsBounded mode ops =
    performs-IsBounded_from ops (new_steering_queue mode)
      (λ k. unfold new_steering_queue pending lookup in omega arith)
