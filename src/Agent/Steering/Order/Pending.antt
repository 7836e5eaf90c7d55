-- ===== src/Agent/Steering/Order/Pending.antt =====
-- What one call does to the messages that wait in a scope: of pkg/agent/steering.go.
use halfmoon.Base.{
  subst, ◌≡◌, refl, ap, sym, ◌∙◌, Bool, true, false, List, [], ◌∷◌, ◌++◌, append-nil, arith, leb,
  if◌then◌else◌, length, ite,
}
use halfmoon.Base.Text.{Text, text_dec, trim_space}
use halfmoon.Base.Assoc.{lookup, insert, delete, lookup-insert, lookup-delete}
use halfmoon.Protocol.{Message}
use halfmoon.Agent.Steering.{
  SteeringMode, all, one_at_a_time, SteeringQueue, max_queue_size, manual_scope, normalize_scope,
  or_empty, pending, push_scope, put_rest, take_from, dequeue_locked, dequeue_scope,
  or_dequeue_manual, dequeue_trimmed, dequeue_scope_with_fallback, set_mode,
}

pub data Op : Type 0 where
  pushes : Text → Message → Op
  dequeues falls_back : Text → Op
  sets_mode : SteeringMode → Op

unfoldable pub perform : Op → SteeringQueue → SteeringQueue
perform (pushes scope msg) sq = (push_scope scope msg sq).0
perform (dequeues scope) sq = (dequeue_scope scope sq).0
perform (falls_back scope) sq = (dequeue_scope_with_fallback scope sq).0
perform (sets_mode mode) sq = set_mode mode sq

unfoldable pub performs : List Op → SteeringQueue → SteeringQueue
performs [] sq = sq
performs (op ∷ ops) sq = performs ops (perform op sq)

-- The messages that a call gets into this scope's queue: one, unless the queue is full.
unfoldable pub accepted_by : Text → Op → SteeringQueue → List Message
accepted_by k (pushes scope msg) sq =
    ite (text_dec (normalize_scope scope) k) (if (push_scope scope msg sq).1 then [] else msg ∷ [])
      []
accepted_by k _ sq = []

-- The scope that dequeueScopeWithFallback takes from: its own if messages wait there.
fallback_source : Text → SteeringQueue → Text
fallback_source [] sq = manual_scope
fallback_source (c ∷ s) sq = elim (pending (c ∷ s) sq) [ [] ↦ manual_scope | m ∷ ms ↦ c ∷ s ]

-- The messages that a call returns from this scope's queue.
unfoldable pub delivered_by : Text → Op → SteeringQueue → List Message
unfolding fallback_source
delivered_by k (dequeues scope) sq =
    ite (text_dec (normalize_scope scope) k) (dequeue_scope scope sq).1 []
delivered_by k (falls_back scope) sq =
    ite (text_dec (fallback_source (trim_space scope) sq) k)
      (dequeue_scope_with_fallback scope sq).1 []
delivered_by k _ sq = []

unfoldable pub accepted : Text → List Op → SteeringQueue → List Message
accepted k [] sq = []
accepted k (op ∷ ops) sq = accepted_by k op sq ++ accepted k ops (perform op sq)

unfoldable pub delivered : Text → List Op → SteeringQueue → List Message
delivered k [] sq = []
delivered k (op ∷ ops) sq = delivered_by k op sq ++ delivered k ops (perform op sq)

with_queues : SteeringQueue → List (Text × List Message) → SteeringQueue
with_queues sq queues = record sq { queues = queues }

pending-insert :
    (k s : Text) (ms : List Message) (sq : SteeringQueue)
    → pending k (with_queues sq (insert text_dec s ms sq.queues))
      ≡ ite (text_dec s k) ms (pending k sq)
unfolding with_queues pending
pending-insert k s ms sq = ground (arith, lookup-insert text_dec s k ms sq.queues)

pending-delete :
    (k s : Text) (sq : SteeringQueue)
    → pending k (with_queues sq (delete text_dec s sq.queues))
      ≡ ite (text_dec s k) [] (pending k sq)
unfolding with_queues pending
pending-delete k s sq = ground (arith, lookup-delete text_dec s k sq.queues)

-- What is taken from the scope and what stays there are what was there.
split_pending :
    (k s : Text) (out rest : List Message) (sq : SteeringQueue) (d : Dec (s ≡ k))
    → pending s sq ≡ out ++ rest
    → ite d out [] ++ ite d rest (pending k sq) ≡ pending k sq
split_pending k s out rest sq (yes p) e = sym e ∙ ap (λ x. pending x sq) p
split_pending k s out rest sq (no n) e = refl

added_pending :
    (k s : Text) (msgs : List Message) (sq : SteeringQueue) (d : Dec (s ≡ k))
    → ite d (pending s sq ++ msgs) (pending k sq) ≡ pending k sq ++ ite d msgs []
added_pending k s msgs sq (yes p) = ap (λ x. pending x sq ++ msgs) p
added_pending k s msgs sq (no n) = sym (append-nil (pending k sq))

ite_nil : {P : Type 0} (d : Dec P) → ◌≡◌ {A = List Message} (ite d [] []) []
ite_nil (yes p) = refl
ite_nil (no n) = refl

push_scope-pending :
    (k scope : Text) (msg : Message) (sq : SteeringQueue)
    → pending k (push_scope scope msg sq).0 ≡ pending k sq ++ accepted_by k (pushes scope msg) sq
unfolding push_scope accepted_by with_queues
push_scope-pending k scope msg sq =
    go (leb max_queue_size (length (pending (normalize_scope scope) sq)))
  where
    pushed : Bool → SteeringQueue × Bool
    pushed b = if b then (sq, true) else (
      with_queues sq (
          insert text_dec (normalize_scope scope) (pending (normalize_scope scope) sq ++ msg ∷ [])
            sq.queues),
      false,
    )

    go :
        (b : Bool)
        → pending k (pushed b).0
          ≡ pending k sq
            ++ ite (text_dec (normalize_scope scope) k) (if (pushed b).1 then [] else msg ∷ []) []
    go true = rw (ite_nil (text_dec (normalize_scope scope) k)) (sym (append-nil (pending k sq)))
    go false =
        pending-insert k (normalize_scope scope) (pending (normalize_scope scope) sq ++ msg ∷ []) sq
        ∙ added_pending k (normalize_scope scope) (msg ∷ []) sq (text_dec (normalize_scope scope) k)

take_from-pending :
    (mode : SteeringMode) (k scope : Text) (ms : List Message) (sq : SteeringQueue)
    → pending scope sq ≡ ms
    → ite (text_dec scope k) (take_from mode scope ms sq).1 []
        ++ pending k (take_from mode scope ms sq).0
      ≡ pending k sq
unfolding take_from put_rest with_queues
take_from-pending mode k scope [] sq e = ground arith
take_from-pending all k scope (m ∷ ms) sq e =
    rw (pending-delete k scope sq)
      (split_pending k scope (m ∷ ms) [] sq (text_dec scope k) (e ∙ sym (append-nil (m ∷ ms))))
take_from-pending one_at_a_time k scope (m ∷ []) sq e =
    rw (pending-delete k scope sq) (split_pending k scope (m ∷ []) [] sq (text_dec scope k) e)
take_from-pending one_at_a_time k scope (m ∷ n ∷ ms) sq e =
    rw (pending-insert k scope (n ∷ ms) sq)
      (split_pending k scope (m ∷ []) (n ∷ ms) sq (text_dec scope k) e)

dequeue_locked-pending :
    (k s : Text) (sq : SteeringQueue)
    → ite (text_dec s k) (dequeue_locked s sq).1 [] ++ pending k (dequeue_locked s sq).0
      ≡ pending k sq
unfolding dequeue_locked
dequeue_locked-pending k s sq = take_from-pending sq.mode k s (pending s sq) sq refl

-- Nothing is taken from an empty queue, and something from one that is not.
take_from-empty :
    (mode : SteeringMode) (s : Text) (sq : SteeringQueue) → take_from mode s [] sq ≡ (sq, [])
unfolding take_from
take_from-empty mode s sq = refl

take_from-some :
    (mode : SteeringMode) (s : Text) (m : Message) (ms : List Message) (sq : SteeringQueue)
    → or_dequeue_manual (take_from mode s (m ∷ ms) sq) ≡ take_from mode s (m ∷ ms) sq
unfolding take_from or_dequeue_manual
take_from-some all s m ms sq = refl
take_from-some one_at_a_time s m ms sq = refl

locked :
    (s : Text) (ms : List Message) (sq : SteeringQueue)
    → pending s sq ≡ ms
    → dequeue_locked s sq ≡ take_from sq.mode s ms sq
unfolding dequeue_locked
locked s ms sq e = ap (λ x. take_from sq.mode s x sq) e

empty_handed : (sq : SteeringQueue) → or_dequeue_manual (sq, []) ≡ dequeue_locked manual_scope sq
unfolding or_dequeue_manual
empty_handed sq = refl

-- The fallback takes from its source.
dequeue_trimmed-source :
    (t : Text) (sq : SteeringQueue)
    → dequeue_trimmed t sq ≡ dequeue_locked (fallback_source t sq) sq
unfolding dequeue_trimmed fallback_source
dequeue_trimmed-source [] sq = refl
dequeue_trimmed-source (c ∷ s) sq = go (pending (c ∷ s) sq) refl
  where
    go :
        (ms : List Message)
        → pending (c ∷ s) sq ≡ ms
        → or_dequeue_manual (dequeue_locked (c ∷ s) sq)
          ≡ dequeue_locked (elim ms [ [] ↦ manual_scope | m ∷ ns ↦ c ∷ s ]) sq
    go [] e =
        ap or_dequeue_manual (locked (c ∷ s) [] sq e ∙ take_from-empty sq.mode (c ∷ s) sq)
        ∙ empty_handed sq
    go (m ∷ ms) e =
        let l = locked (c ∷ s) (m ∷ ms) sq e in
        ap or_dequeue_manual l ∙ take_from-some sq.mode (c ∷ s) m ms sq ∙ sym l

pub perform-pending :
    (k : Text) (op : Op) (sq : SteeringQueue)
    → delivered_by k op sq ++ pending k (perform op sq) ≡ pending k sq ++ accepted_by k op sq
unfolding perform delivered_by accepted_by dequeue_scope dequeue_scope_with_fallback set_mode
perform-pending k (pushes scope msg) sq = push_scope-pending k scope msg sq
perform-pending k (dequeues scope) sq =
    dequeue_locked-pending k (normalize_scope scope) sq ∙ sym (append-nil (pending k sq))
perform-pending k (falls_back scope) sq =
    let source = fallback_source (trim_space scope) sq in
    subst (λ x. ite (text_dec source k) x.1 [] ++ pending k x.0 ≡ pending k sq)
      (sym (dequeue_trimmed-source (trim_space scope) sq)) (dequeue_locked-pending k source sq)
    ∙ sym (append-nil (pending k sq))
perform-pending k (sets_mode mode) sq =
    unfold pending in sym (append-nil (or_empty (lookup text_dec k sq.queues)))
