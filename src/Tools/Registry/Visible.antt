-- ===== src/Tools/Registry/Visible.antt =====
-- How long a hidden tool can be called.
use halfmoon.Base.{
  ◌⊎◌, ℕ, zero, suc, ◌-◌, ◌≡◌, ◌≢◌, ◌∙◌, subst, sym, ap, refl, inl, inr, Bool, true, false, Option,
  none, some, List, [], ◌∷◌, arith, ltb, leb, if◌then◌else◌, ite, Bool-cases, All, holds,
}
use halfmoon.Base.Text.{Text, text_dec}
use halfmoon.Base.Assoc.{lookup, lookup-insert_self, lookup-insert_ne}
use halfmoon.Tools.Registry.{
  ToolEntry, ToolRegistry, register_entry, register, register_hidden, promote_found, promote,
  promote_tools, tick_entry, tick, tick_ttl, get_entry, get,
}

-- The calls that change the registry.
pub data Op (Tool : Type 0) : Type 0 where
  registers registers_hidden : Text → Tool → Op Tool
  promotes : List Text → ℕ → Op Tool
  ticks : Op Tool

abbrev pub is_named : Text → List Text → Bool
is_named name [] = false
is_named name (m ∷ names) = if holds (text_dec m name) then true else is_named name names

later_named :
    {P : Type 0} (d : Dec P) (b : Bool) → (P → ⊥) → (if holds d then true else b) ≡ true → b ≡ true
later_named (yes p) b n h = absurd (n p)
later_named (no d) b n h = h

module _ {Tool : Type 0} where
  abbrev pub perform : Op Tool → ToolRegistry Tool → ToolRegistry Tool
  unfolding register register_hidden promote_tools tick_ttl
  perform (registers name tool) r = register name tool r
  perform (registers_hidden name tool) r = register_hidden name tool r
  perform (promotes names ttl) r = promote_tools names ttl r
  perform ticks r = tick_ttl r

  abbrev pub performs : List (Op Tool) → ToolRegistry Tool → ToolRegistry Tool
  performs [] r = r
  performs (op ∷ ops) r = performs ops (perform op r)

  -- The call neither registers nor promotes the tool.
  abbrev pub Spares : Text → Op Tool → Type 0
  Spares name (registers n tool) = n ≢ name
  Spares name (registers_hidden n tool) = n ≢ name
  Spares name (promotes names ttl) = All (λ n. n ≢ name) names
  Spares name ticks = Unit

  abbrev pub count_ticks : List (Op Tool) → ℕ
  count_ticks [] = 0
  count_ticks (registers n t ∷ ops) = count_ticks ops
  count_ticks (registers_hidden n t ∷ ops) = count_ticks ops
  count_ticks (promotes ns k ∷ ops) = count_ticks ops
  count_ticks (ticks ∷ ops) = suc (count_ticks ops)

  abbrev hidden : Tool → ℕ → ToolEntry Tool
  hidden tool n = record { tool = tool; is_core = false; ttl = n }

  abbrev ticked : Option (ToolEntry Tool) → Option (ToolEntry Tool)
  ticked none = none
  ticked (some e) = some (tick_entry e)

  ticked-ite :
      {P : Type 0} (d : Dec P) (e : ToolEntry Tool) (x y : Option (ToolEntry Tool))
      → x ≡ ticked y
      → ite d (some (tick_entry e)) x ≡ ticked (ite d (some e) y)
  ticked-ite (yes k) e x y h = refl
  ticked-ite (no k) e x y h = h

  lookup-tick :
      (name : Text) (tools : List (Text × ToolEntry Tool))
      → lookup text_dec name (tick tools) ≡ ticked (lookup text_dec name tools)
  unfolding lookup tick
  lookup-tick name [] = refl
  lookup-tick name ((m, e) ∷ tools) = ticked-ite (text_dec m name) e _ _ (lookup-tick name tools)

  tick_hidden : (tool : Tool) (n : ℕ) → tick_entry (hidden tool n) ≡ hidden tool (n - 1)
  tick_hidden tool zero = refl
  tick_hidden tool (suc n) = if_positive (ltb 0 (suc n)) (ground arith)
    where
      if_positive :
          (b : Bool)
          → b ≡ true
          → (if b then hidden tool (suc n - 1) else hidden tool (suc n)) ≡ hidden tool (suc n - 1)
      if_positive true e = refl
      if_positive false e = absurd (cc)

  promoted_other :
      (name m : Text) (k : ℕ) (x : Option (ToolEntry Tool)) (tools : List (Text × ToolEntry Tool))
      → m ≢ name
      → lookup text_dec name (promote_found m k x tools) ≡ lookup text_dec name tools
  unfolding promote_found
  promoted_other name m k none tools d = refl
  promoted_other name m k (some e) tools d = lookup-insert_ne text_dec m name _ tools d

  promoted_self :
      (name : Text) (tool : Tool) (k n : ℕ) (tools : List (Text × ToolEntry Tool))
      → lookup text_dec name tools ≡ some (hidden tool n)
      → lookup text_dec name (promote_found name k (lookup text_dec name tools) tools)
        ≡ some (hidden tool k)
  promoted_self name tool k n tools h =
      ap (λ x. lookup text_dec name (promote_found name k x tools)) h
      ∙ unfold promote_found in lookup-insert_self text_dec name (hidden tool k) tools

  lookup-promote_spared :
      (name : Text) (names : List Text) (k : ℕ) (tools : List (Text × ToolEntry Tool))
      → All (λ n. n ≢ name) names
      → lookup text_dec name (promote names k tools) ≡ lookup text_dec name tools
  unfolding promote
  lookup-promote_spared name [] k tools a = refl
  lookup-promote_spared name (m ∷ names) k tools a =
      lookup-promote_spared name names k _ a.1 ∙ promoted_other name m k _ tools a.0

  -- A tool that has the time to live already keeps it.
  lookup-promote_again :
      (name : Text) (tool : Tool) (names : List Text) (k : ℕ) (tools : List (Text × ToolEntry Tool))
      → lookup text_dec name tools ≡ some (hidden tool k)
      → lookup text_dec name (promote names k tools) ≡ some (hidden tool k)
  unfolding promote
  lookup-promote_again name tool [] k tools h = h
  lookup-promote_again name tool (m ∷ names) k tools h =
      lookup-promote_again name tool names k _ (elim (text_dec m name) [
        | yes e ↦
            subst
              (λ x.
                lookup text_dec name (promote_found x k (lookup text_dec x tools) tools)
                ≡ some (hidden tool k))
              (sym e) (promoted_self name tool k k tools h)
        | no d ↦ promoted_other name m k _ tools d ∙ h
      ])

  lookup-promote_listed :
      (name : Text) (tool : Tool) (names : List Text) (k n : ℕ)
      (tools : List (Text × ToolEntry Tool))
      → is_named name names ≡ true
      → lookup text_dec name tools ≡ some (hidden tool n)
      → lookup text_dec name (promote names k tools) ≡ some (hidden tool k)
  unfolding promote
  lookup-promote_listed name tool [] k n tools c h = absurd (cc)
  lookup-promote_listed name tool (m ∷ names) k n tools c h = elim (text_dec m name) [
    | yes e ↦ lookup-promote_again name tool names k _ (
        subst
          (λ x.
            lookup text_dec name (promote_found x k (lookup text_dec x tools) tools)
            ≡ some (hidden tool k))
          (sym e) (promoted_self name tool k n tools h))
    | no d ↦
        lookup-promote_listed name tool names k n _ (later_named (text_dec m name) _ d c)
          (promoted_other name m k _ tools d ∙ h)
  ]

  kept_entry :
      (name : Text) (tool : Tool) (n : ℕ) (ops : List (Op Tool)) (r : ToolRegistry Tool)
      → All (Spares name) ops
      → lookup text_dec name r.tools ≡ some (hidden tool n)
      → lookup text_dec name (performs ops r).tools ≡ some (hidden tool (n - count_ticks ops))
  unfolding perform register register_hidden register_entry promote_tools tick_ttl
  kept_entry name tool n [] r a h = h ∙ ap (λ k. some (hidden tool k)) (omega arith)
  kept_entry name tool n (registers m t ∷ ops) r a h =
      kept_entry name tool n ops _ a.1 (lookup-insert_ne text_dec m name _ r.tools a.0 ∙ h)
  kept_entry name tool n (registers_hidden m t ∷ ops) r a h =
      kept_entry name tool n ops _ a.1 (lookup-insert_ne text_dec m name _ r.tools a.0 ∙ h)
  kept_entry name tool n (promotes ns k ∷ ops) r a h =
      kept_entry name tool n ops _ a.1 (lookup-promote_spared name ns k r.tools a.0 ∙ h)
  kept_entry name tool n (ticks ∷ ops) r a h =
      kept_entry name tool (n - 1) ops _ a.1
        (lookup-tick name r.tools ∙ ap ticked h ∙ ap some (tick_hidden tool n))
      ∙ ap (λ k. some (hidden tool k)) (omega arith)

  -- A hidden tool that is promoted with a time to live can be called until that many ticks have gone
  -- by, and not after, whatever else is registered and promoted meanwhile.
  pub get-promote_tools :
      (name : Text) (tool : Tool) (n ttl : ℕ) (names : List Text) (ops : List (Op Tool))
      (r : ToolRegistry Tool)
      → lookup text_dec name r.tools ≡ some (hidden tool n)
      → is_named name names ≡ true
      → All (Spares name) ops
      → get name (performs ops (promote_tools names ttl r))
        ≡ (if ltb (count_ticks ops) ttl then some tool else none)
  unfolding get promote_tools
  get-promote_tools name tool n ttl names ops r h c a =
      ap get_entry (
        kept_entry name tool ttl ops (record r { tools = promote names ttl r.tools }) a
          (lookup-promote_listed name tool names ttl n r.tools c h))
      ∙ shown (Bool-cases (ltb (count_ticks ops) ttl))
    where
      shown :
          (ltb (count_ticks ops) ttl ≡ true) ⊎ (ltb (count_ticks ops) ttl ≡ false)
          → get_entry (some (hidden tool (ttl - count_ticks ops)))
            ≡ (if ltb (count_ticks ops) ttl then some tool else none)
      shown (inl b) = rw (b, get_entry, not_over b) refl
        where
          not_over : ltb (count_ticks ops) ttl ≡ true → leb (ttl - count_ticks ops) 0 ≡ false
          not_over b = ground arith
      shown (inr b) = rw (b, get_entry, over b) refl
        where
          over : ltb (count_ticks ops) ttl ≡ false → leb (ttl - count_ticks ops) 0 ≡ true
          over b = ground arith
