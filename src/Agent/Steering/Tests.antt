-- ===== src/Agent/Steering/Tests.antt =====
-- Runs of pkg/agent/steering.go on concrete calls.
use halfmoon.Base.{◌≡◌, List, [], ◌∷◌, ◌++◌}
use halfmoon.Base.Text.{Text, codes}
use halfmoon.Protocol.{Message, plain}
use halfmoon.Agent.Steering.{SteeringQueue, one_at_a_time, all, new_steering_queue, pending}
use halfmoon.Agent.Steering.Order.{IsBounded, delivered-accepted, performs-IsBounded}
use halfmoon.Agent.Steering.Order.Pending.{
  Op, pushes, dequeues, falls_back, sets_mode, performs, accepted, delivered,
}

abbrev note : Text → Message
note text = plain (codes "user") text

abbrev calls : List Op
calls =
    pushes (codes "cli") (note (codes "stop"))
    ∷ pushes (codes " cli ") (note (codes "wait"))
    ∷ pushes [] (note (codes "hello"))
    ∷ falls_back (codes "cli")
    ∷ sets_mode all
    ∷ dequeues (codes "cli")
    ∷ falls_back (codes "cli")
    ∷ []

abbrev queue : SteeringQueue
queue = new_steering_queue one_at_a_time

delivered-accepted_example :
    delivered (codes "cli") calls queue ++ pending (codes "cli") (performs calls queue)
    ≡ pending (codes "cli") queue ++ accepted (codes "cli") calls queue
delivered-accepted_example = delivered-accepted (codes "cli") calls queue

performs-IsBounded_example : IsBounded (performs calls (new_steering_queue one_at_a_time))
performs-IsBounded_example = performs-IsBounded one_at_a_time calls
