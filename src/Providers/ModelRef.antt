-- ===== src/Providers/ModelRef.antt =====
-- pkg/providers/model_ref.go
pub mod Canonical
mod Tests
use halfmoon.Base.{ℕ, Bool, true, false, Option, none, some, List, [], ◌∷◌, ◌++◌}
use halfmoon.Base.Text.{Text, text_dec, codes, to_lower, trim_space, cut}
use halfmoon.Base.Assoc.{lookup}

pub record ModelRef : Type 0 where
  pub provider : Text
  pub model : Text

-- The rows of the switch of NormalizeProvider.
abbrev pub provider_aliases : List (Text × Text)
provider_aliases =
    (codes "z.ai", codes "zai")
    ∷ (codes "z-ai", codes "zai")
    ∷ (codes "opencode-zen", codes "opencode")
    ∷ (codes "qwen", codes "qwen-portal")
    ∷ (codes "kimi-code", codes "kimi-coding")
    ∷ (codes "gpt", codes "openai")
    ∷ (codes "claude", codes "anthropic")
    ∷ (codes "glm", codes "zhipu")
    ∷ (codes "google", codes "gemini")
    ∷ (codes "alibaba-coding", codes "coding-plan")
    ∷ (codes "qwen-coding", codes "coding-plan")
    ∷ (codes "alibaba-coding-anthropic", codes "coding-plan-anthropic")
    ∷ (codes "qwen-international", codes "qwen-intl")
    ∷ (codes "dashscope-intl", codes "qwen-intl")
    ∷ (codes "dashscope-us", codes "qwen-us")
    ∷ []

abbrev pub or_same : Option Text → Text → Text
or_same none p = p
or_same (some t) p = t

unfoldable pub normalize_provider : Text → Text
normalize_provider provider =
    let p = to_lower (trim_space provider) in or_same (lookup text_dec p provider_aliases) p

-- strings.TrimSpace(raw[idx+1:]), refused if it is empty
ref_of : Text → Text → Option ModelRef
ref_of provider [] = none
ref_of provider (c ∷ s) = some (record { provider = provider; model = c ∷ s })

-- The text before the first slash and behind it, if the slash does not come first.
parse_parts : Text → Text → Option (Text × Text) → Option ModelRef
unfolding ref_of
parse_parts raw fallback none =
    some (record { provider = normalize_provider fallback; model = raw })
parse_parts raw fallback (some ([], r)) =
    some (record { provider = normalize_provider fallback; model = raw })
parse_parts raw fallback (some (c ∷ l, r)) = ref_of (normalize_provider (c ∷ l)) (trim_space r)

parse_trimmed : Text → Text → Option ModelRef
unfolding parse_parts
parse_trimmed [] fallback = none
parse_trimmed (c ∷ s) fallback = parse_parts (c ∷ s) fallback (cut b'/' (c ∷ s))

unfoldable pub parse_model_ref : Text → Text → Option ModelRef
unfolding parse_trimmed
parse_model_ref raw default_provider = parse_trimmed (trim_space raw) default_provider

unfoldable pub model_key : Text → Text → Text
model_key provider model = normalize_provider provider ++ b'/' ∷ to_lower (trim_space model)
