-- ===== src/Protocol.antt =====
-- pkg/providers/protocoltypes/types.go: the messages that every part of the program passes on.
use halfmoon.Base.{List, [], Option, map}
use halfmoon.Base.Text.{Text}

pub record FunctionCall : Type 0 where
  pub name : Text
  pub arguments : Text
  pub thought_signature : Text

-- `Arguments` is a map of Go values; each stands here as its JSON text.
pub record ToolCall : Type 0 where
  pub id : Text
  pub kind : Text
  pub function : Option FunctionCall
  pub name : Text
  pub arguments : List (Text × Text)
  pub thought_signature : Text
  pub extra_content : Option (Option Text)

-- `cache_control` is the type of the cache control block, where there is one.
pub record ContentBlock : Type 0 where
  pub kind : Text
  pub text : Text
  pub cache_control : Option Text

pub record Message : Type 0 where
  pub role : Text
  pub content : Text
  pub media : List Text
  pub reasoning_content : Text
  pub system_parts : List ContentBlock
  pub tool_calls : List ToolCall
  pub tool_call_id : Text

-- The fields tagged `json:"-"` do not survive encoding.
abbrev pub stored_call : ToolCall → ToolCall
stored_call c = record c { name = []; arguments = []; thought_signature = [] }

unfoldable pub stored : Message → Message
stored m = record m { tool_calls = map stored_call m.tool_calls }

-- A message of a role and a text alone, as AddMessage builds it.
abbrev pub plain : Text → Text → Message
plain role content = record {
  role = role;
  content = content;
  media = [];
  reasoning_content = [];
  system_parts = [];
  tool_calls = [];
  tool_call_id = [];
}
