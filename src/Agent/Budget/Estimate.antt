-- ===== src/Agent/Budget/Estimate.antt =====
-- The token estimates: a shorter history costs less, and every message costs something.
use halfmoon.Base.{
  ℕ, zero, suc, ◌+◌, ◌*◌, ◌≤◌, ◌≡◌, false, List, [], ◌∷◌, ◌++◌, arith, length, drop,
}
use halfmoon.Protocol.{Message}
use halfmoon.Agent.Budget.{
  ToolDefinition, message_chars, estimate_message_tokens, messages_tokens, is_over_context_budget,
}

estimate_message_tokens-ge : (m : Message) → 4 + length m.media * 256 ≤ estimate_message_tokens m
unfolding estimate_message_tokens message_chars
estimate_message_tokens-ge m = omega arith

messages_tokens-append :
    (ms ns : List Message) → messages_tokens (ms ++ ns) ≡ messages_tokens ms + messages_tokens ns
unfolding messages_tokens
messages_tokens-append [] ns = omega arith
messages_tokens-append (m ∷ ms) ns = omega (arith, messages_tokens-append ms ns)

messages_tokens-drop :
    (n : ℕ) (ms : List Message) → messages_tokens (drop n ms) ≤ messages_tokens ms
unfolding messages_tokens
messages_tokens-drop zero ms = omega arith
messages_tokens-drop (suc n) [] = omega arith
messages_tokens-drop (suc n) (m ∷ ms) = omega (arith, messages_tokens-drop n ms)

messages_tokens-ge : (ms : List Message) → 4 * length ms ≤ messages_tokens ms
unfolding messages_tokens
messages_tokens-ge [] = omega arith
messages_tokens-ge (m ∷ ms) = omega (arith, messages_tokens-ge ms, estimate_message_tokens-ge m)

-- Cutting messages off the front of a history that is within the budget keeps it within the budget,
-- and a history within the budget has at most a quarter as many messages as the window has tokens
-- left beside the reserve for the answer.
pub is_over_context_budget-drop :
    (context_window n : ℕ) (messages : List Message) (tool_defs : List ToolDefinition)
    (max_tokens : ℕ)
    → is_over_context_budget context_window messages tool_defs max_tokens ≡ false
    → (is_over_context_budget context_window (drop n messages) tool_defs max_tokens ≡ false)
      × (4 * length messages + max_tokens ≤ context_window)
unfolding is_over_context_budget
is_over_context_budget-drop context_window n messages tool_defs max_tokens e =
    let shorter = messages_tokens-drop n messages in
    let each = messages_tokens-ge messages in (ground arith, ground arith)
