-- ===== src/Tools/Registry.antt =====
-- pkg/tools/registry.go. A tool is of a type that is a parameter, with what its methods answer where
-- they are used; a time to live of 0 stands for every one that is not positive.
pub mod Visible
mod Tests
use halfmoon.Base.{
  ℕ, zero, suc, ◌+◌, ◌-◌, ◌%◌, ◌^◌, Bool, true, false, ◌&&◌, ◌||◌, not, Option, none, some, List,
  [], ◌∷◌, ltb, leb, if◌then◌else◌, length, holds,
}
use halfmoon.Base.Text.{Text, text_dec}
use halfmoon.Base.Assoc.{lookup, insert}

module _ (Tool : Type 0) where
  pub record ToolEntry : Type 0 where
    pub tool : Tool
    pub is_core : Bool
    pub ttl : ℕ

  pub record ToolRegistry : Type 0 where
    pub tools : List (Text × ToolEntry)
    pub version : ℕ

module _ {Tool : Type 0} where
  abbrev pub new_tool_registry : ToolRegistry Tool
  new_tool_registry = record { tools = []; version = 0 }

  -- The counter of versions has 64 bits.
  register_entry : Text → ToolEntry Tool → ToolRegistry Tool → ToolRegistry Tool
  register_entry name entry r = record {
    tools = insert text_dec name entry r.tools;
    version = (r.version + 1) % 2 ^ 64;
  }

  -- Register, of a tool with the name
  unfoldable pub register : Text → Tool → ToolRegistry Tool → ToolRegistry Tool
  unfolding register_entry
  register name tool r = register_entry name (record { tool = tool; is_core = true; ttl = 0 }) r

  unfoldable pub register_hidden : Text → Tool → ToolRegistry Tool → ToolRegistry Tool
  unfolding register_entry
  register_hidden name tool r =
      register_entry name (record { tool = tool; is_core = false; ttl = 0 }) r

  abbrev pub promote_entry : ℕ → ToolEntry Tool → ToolEntry Tool
  promote_entry ttl e = if e.is_core then e else record e { ttl = ttl }

  promote_found :
      Text
      → ℕ
      → Option (ToolEntry Tool)
      → List (Text × ToolEntry Tool)
      → List (Text × ToolEntry Tool)
  promote_found name ttl none tools = tools
  promote_found name ttl (some e) tools = insert text_dec name (promote_entry ttl e) tools

  -- The loop of PromoteTools over the names.
  unfoldable pub promote :
      List Text → ℕ → List (Text × ToolEntry Tool) → List (Text × ToolEntry Tool)
  unfolding promote_found
  promote [] ttl tools = tools
  promote (name ∷ names) ttl tools =
      promote names ttl (promote_found name ttl (lookup text_dec name tools) tools)

  unfoldable pub promote_tools : List Text → ℕ → ToolRegistry Tool → ToolRegistry Tool
  unfolding promote
  promote_tools names ttl r = record r { tools = promote names ttl r.tools }

  abbrev pub tick_entry : ToolEntry Tool → ToolEntry Tool
  tick_entry e = if not e.is_core && ltb 0 e.ttl then record e { ttl = e.ttl - 1 } else e

  unfoldable pub tick : List (Text × ToolEntry Tool) → List (Text × ToolEntry Tool)
  tick [] = []
  tick ((n, e) ∷ tools) = (n, tick_entry e) ∷ tick tools

  unfoldable pub tick_ttl : ToolRegistry Tool → ToolRegistry Tool
  unfolding tick
  tick_ttl r = record r { tools = tick r.tools }

  unfoldable pub snapshot : List (Text × ToolEntry Tool) → List (Text × Tool)
  snapshot [] = []
  snapshot ((n, e) ∷ tools) =
      let rest = snapshot tools in if e.is_core then rest else (n, e.tool) ∷ rest

  -- SnapshotHiddenTools, with the tools in place of their descriptions.
  unfoldable pub snapshot_hidden_tools : ToolRegistry Tool → List (Text × Tool) × ℕ
  unfolding snapshot
  snapshot_hidden_tools r = (snapshot r.tools, r.version)

  unfoldable pub get_entry : Option (ToolEntry Tool) → Option Tool
  get_entry none = none
  get_entry (some e) = if not e.is_core && leb e.ttl 0 then none else some e.tool

  unfoldable pub get : Text → ToolRegistry Tool → Option Tool
  unfolding get_entry
  get name r = get_entry (lookup text_dec name r.tools)

  unfoldable pub clone : ToolRegistry Tool → ToolRegistry Tool
  clone r = record { tools = r.tools; version = 0 }

  unfoldable pub count : ToolRegistry Tool → ℕ
  count r = length r.tools

-- What a tool's Execute does: it returns a result or nil, or panics.
pub data Ran (Result : Type 0) : Type 0 where
  returned : Result → Ran Result
  returned_nil crashed : Ran Result

-- The results that the registry makes itself, and the tool's own.
pub data Outcome (Result : Type 0) : Type 0 where
  not_found invalid_arguments panic_recovered nil_result : Outcome Result
  result : Result → Outcome Result

module _ {Tool Args Result : Type 0} (valid : Tool → Args → Bool)
    (run : Tool → Args → Ran Result) where
  ran_outcome : Ran Result → Outcome Result
  ran_outcome (returned r) = result r
  ran_outcome returned_nil = nil_result
  ran_outcome crashed = panic_recovered

  execute_found : Option Tool → Args → Outcome Result
  unfolding ran_outcome
  execute_found none args = not_found
  execute_found (some tool) args =
      let o = ran_outcome (run tool args) in if valid tool args then o else invalid_arguments

  -- ExecuteWithContext; validateToolArgs and the tools are parameters.
  unfoldable pub execute_with_context : Text → Args → ToolRegistry Tool → Outcome Result
  unfolding execute_found get
  execute_with_context name args r = execute_found (get name r) args
