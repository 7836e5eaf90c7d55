-- ===== src/Providers/ModelRef/Tests.antt =====
-- Runs of pkg/providers/model_ref.go on concrete names.
use halfmoon.Base.{◌≡◌, ◌↔◌, refl, some, any, ◌==◌, arith, false, [], ◌∷◌, ◌++◌}
use halfmoon.Base.Text.{codes, to_lower, trim_space}
use halfmoon.Base.Assoc.{lookup}
use halfmoon.Base.Text.{text_dec, Text}
use halfmoon.Providers.ModelRef.{parse_model_ref, model_key, normalize_provider}
use halfmoon.Providers.ModelRef.Canonical.{NoSlash, model_key_injective, parse_model_ref-join}

no_slash : (s : Text) → any (λ c. c == b'/') s ≡ false → NoSlash s
no_slash [] e = tt
no_slash (c ∷ s) e = (ground arith, no_slash s (ground arith))

claude-NoSlash : NoSlash (normalize_provider (codes "Claude"))
unfolding normalize_provider lookup text_dec to_lower trim_space
claude-NoSlash = no_slash (normalize_provider (codes "Claude")) refl

anthropic-NoSlash : NoSlash (normalize_provider (codes "anthropic"))
unfolding normalize_provider lookup text_dec to_lower trim_space
anthropic-NoSlash = no_slash (normalize_provider (codes "anthropic")) refl

model_key_injective_example :
    (model_key (codes "Claude") (codes "opus") ≡ model_key (codes "anthropic") (codes " Opus")) ↔ (
      (normalize_provider (codes "Claude") ≡ normalize_provider (codes "anthropic"))
      × (to_lower (trim_space (codes "opus")) ≡ to_lower (trim_space (codes " Opus"))))
model_key_injective_example =
    model_key_injective (codes "Claude") (codes "anthropic") (codes "opus") (codes " Opus")
      claude-NoSlash anthropic-NoSlash

trimmed : trim_space (codes "opus/4") ≡ codes "opus/4"
unfolding trim_space
trimmed = refl

parse_model_ref-join_example :
    parse_model_ref (codes "GPT" ++ b'/' ∷ codes "opus/4") (codes "openai")
    ≡ some (record { provider = normalize_provider (codes "GPT"); model = codes "opus/4" })
parse_model_ref-join_example =
    parse_model_ref-join b'G' (codes "PT") b'o' (codes "pus/4") (codes "openai")
      (no_slash (codes "GPT") refl) refl trimmed
