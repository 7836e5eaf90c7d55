-- ===== src/Tools/Registry/Tests.antt =====
-- Runs of the registry of tools.
use halfmoon.Base.{ℕ, ◌≡◌, refl, false, none, some, List, [], ◌∷◌, ltb, holds, if◌then◌else◌}
use halfmoon.Base.Text.{text_dec, codes}
use halfmoon.Base.Assoc.{lookup, insert}
use halfmoon.Tools.Registry.{
  ToolRegistry, new_tool_registry, register, register_hidden, promote_tools, get,
}
use halfmoon.Tools.Registry.Visible.{
  Op, registers, promotes, ticks, performs, count_ticks, get-promote_tools,
}

-- One core tool and one hidden tool; a tool is its number.
abbrev two_tools : ToolRegistry ℕ
unfolding register register_hidden
two_tools = register (codes "shell") 1 (register_hidden (codes "pdf") 2 new_tool_registry)

abbrev some_calls : List (Op ℕ)
some_calls = ticks ∷ registers (codes "web") 3 ∷ promotes (codes "shell" ∷ []) 9 ∷ ticks ∷ []

differ : {P : Type 0} (d : Dec P) → holds d ≡ false → ¬ P
differ (yes p) h = absurd (cc)
differ (no n) h = n

get-promote_tools_example :
    get (codes "pdf") (performs some_calls (promote_tools (codes "pdf" ∷ []) 3 two_tools))
    ≡ (if ltb (count_ticks some_calls) 3 then some 2 else none)
unfolding two_tools register register_hidden lookup insert text_dec
get-promote_tools_example =
    get-promote_tools (codes "pdf") 2 0 3 (codes "pdf" ∷ []) some_calls two_tools refl refl (
      tt,
      (
        differ (text_dec (codes "web") (codes "pdf")) refl,
        ((differ (text_dec (codes "shell") (codes "pdf")) refl, tt), (tt, tt)),
      ),
    )
