-- ===== src/Agent/Budget.antt =====
-- pkg/agent/context_budget.go: where a history may be cut, and the token estimates.
pub mod Boundary
pub mod Estimate
mod Tests
use halfmoon.Base.{
  ℕ, ◌+◌, ◌*◌, ◌/◌, Bool, true, false, ◌||◌, Option, none, some, List, [], ◌∷◌, ltb, leb, ◌==◌,
  if◌then◌else◌, length, get_elem?, holds,
}
use halfmoon.Base.Text.{Text, text_dec, codes}
use halfmoon.Base.Int.{ℤ, pos, negsuc}
use halfmoon.Protocol.{Message, ToolCall, FunctionCall, ContentBlock}

unfoldable pub is_user : Message → Bool
is_user m = holds (text_dec m.role (codes "user"))

-- The loop of parseTurnBoundaries from an index on.
unfoldable pub turns_from : ℕ → List Message → List ℕ
turns_from i [] = []
turns_from i (m ∷ ms) = let rest = turns_from (i + 1) ms in if is_user m then i ∷ rest else rest

unfoldable pub parse_turn_boundaries : List Message → List ℕ
unfolding turns_from
parse_turn_boundaries history = turns_from 0 history

unfoldable pub user_at : List Message → ℕ → Bool
unfolding is_user
user_at history i = elim (get_elem? history i) [ none ↦ false | some m ↦ is_user m ]

unfoldable pub is_safe_boundary : List Message → ℤ → Bool
unfolding user_at
is_safe_boundary history (negsuc k) = true
is_safe_boundary history (pos i) =
    if i == 0 || leb (length history) i then true else user_at history i

-- The last boundary at or before the target, over the one found so far.
unfoldable pub backward_from : ℕ → ℤ → List ℕ → ℤ
backward_from target found [] = found
backward_from target found (t ∷ ts) =
    backward_from target (if leb t target then pos t else found) ts

unfoldable pub first_after : ℕ → List ℕ → ℕ
first_after target [] = 0
first_after target (t ∷ ts) = let rest = first_after target ts in if ltb target t then t else rest

or_forward : ℤ → ℕ → ℕ
or_forward (negsuc k) forward = forward
or_forward (pos b) forward = if ltb 0 b then b else forward

unfoldable pub nearest_turn : ℕ → List ℕ → ℕ
unfolding backward_from first_after or_forward
nearest_turn target [] = target
nearest_turn target (t ∷ ts) =
    or_forward (backward_from target (negsuc 0) (t ∷ ts)) (first_after target (t ∷ ts))

unfoldable pub find_safe_boundary : List Message → ℤ → ℕ
unfolding nearest_turn
find_safe_boundary history (negsuc k) = 0
find_safe_boundary history (pos target) =
    if length history == 0 || target == 0
    then 0
    else if leb (length history) target
    then length history
    else nearest_turn target (parse_turn_boundaries history)

-- The bytes of a text in UTF-8: len(s). Its code points, utf8.RuneCountInString(s), are its length.
abbrev pub byte_width : ℕ → ℕ
byte_width c = if ltb c 0x80 then 1 else if ltb c 0x800 then 2 else if ltb c 0x10000 then 3 else 4

unfoldable pub byte_length : Text → ℕ
byte_length [] = 0
byte_length (c ∷ s) = byte_width c + byte_length s

-- The texts of the blocks and 20 characters for each.
unfoldable pub system_parts_chars : List ContentBlock → ℕ
system_parts_chars [] = 0
system_parts_chars (part ∷ parts) = length part.text + 20 + system_parts_chars parts

unfoldable pub call_chars : ToolCall → ℕ
unfolding byte_length
call_chars tc = byte_length tc.id + byte_length tc.kind + (elim tc.function [
  | none ↦ byte_length tc.name
  | some f ↦ byte_length f.name + byte_length f.arguments
])

unfoldable pub calls_chars : List ToolCall → ℕ
unfolding call_chars
calls_chars [] = 0
calls_chars (tc ∷ tcs) = call_chars tc + calls_chars tcs

unfoldable pub message_chars : Message → ℕ
unfolding system_parts_chars calls_chars byte_length
message_chars m =
    let content = length m.content in
    let parts = system_parts_chars m.system_parts in
    (if ltb content parts then parts else content)
    + length m.reasoning_content
    + calls_chars m.tool_calls
    + byte_length m.tool_call_id
    + 12

unfoldable pub estimate_message_tokens : Message → ℕ
unfolding message_chars
estimate_message_tokens m = message_chars m * 2 / 5 + length m.media * 256

-- `parameters` is the JSON schema: absent, one that cannot be encoded, or its encoding.
pub record ToolDefinition : Type 0 where
  pub name : Text
  pub description : Text
  pub parameters : Option (Option Text)

abbrev pub schema_chars : Option (Option Text) → ℕ
schema_chars none = 0
schema_chars (some none) = 0
schema_chars (some (some json)) = byte_length json

unfoldable pub defs_chars : List ToolDefinition → ℕ
unfolding byte_length
defs_chars [] = 0
defs_chars (d ∷ ds) =
    byte_length d.name + byte_length d.description + schema_chars d.parameters + 20 + defs_chars ds

-- No definitions have no characters, so the early return gives what the sum gives.
unfoldable pub estimate_tool_defs_tokens : List ToolDefinition → ℕ
unfolding defs_chars
estimate_tool_defs_tokens [] = 0
estimate_tool_defs_tokens (d ∷ ds) = defs_chars (d ∷ ds) * 2 / 5

unfoldable pub messages_tokens : List Message → ℕ
unfolding estimate_message_tokens
messages_tokens [] = 0
messages_tokens (m ∷ ms) = estimate_message_tokens m + messages_tokens ms

unfoldable pub is_over_context_budget : ℕ → List Message → List ToolDefinition → ℕ → Bool
unfolding messages_tokens estimate_tool_defs_tokens
is_over_context_budget context_window messages tool_defs max_tokens =
    ltb context_window (messages_tokens messages + estimate_tool_defs_tokens tool_defs + max_tokens)
