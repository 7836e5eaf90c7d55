-- ===== src/Agent/Budget/Tests.antt =====
-- Runs of pkg/agent/context_budget.go on concrete histories.
use halfmoon.Base.{◌≡◌, refl, true, false, List, [], ◌∷◌, arith}
use halfmoon.Base.Text.{codes, text_dec}
use halfmoon.Base.Int.{pos}
use halfmoon.Protocol.{Message, plain}
use halfmoon.Agent.Budget.{user_at, find_safe_boundary, is_safe_boundary, is_over_context_budget}
use halfmoon.Agent.Budget.Boundary.{
  Nearest, find_safe_boundary-Nearest, is_safe_boundary-find_safe_boundary,
}

abbrev asked : Message
asked = plain (codes "user") (codes "hi")

abbrev answered : Message
answered = plain (codes "assistant") (codes "hello")

-- Two turns.
abbrev history : List Message
history = asked ∷ answered ∷ asked ∷ answered ∷ answered ∷ []

find_safe_boundary-Nearest_example : Nearest history 3 (find_safe_boundary history (pos 3))
find_safe_boundary-Nearest_example =
    find_safe_boundary-Nearest history 3 (omega arith) (omega arith)

second_turn : user_at history 2 ≡ true
unfolding user_at text_dec
second_turn = refl

is_safe_boundary-find_safe_boundary_example :
    is_safe_boundary history (pos (find_safe_boundary history (pos 1))) ≡ true
is_safe_boundary-find_safe_boundary_example =
    is_safe_boundary-find_safe_boundary history (pos 1) 2 second_turn

within_budget : is_over_context_budget 100 history [] 20 ≡ false
unfolding is_over_context_budget
within_budget = refl
