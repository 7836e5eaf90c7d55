-- ===== src/Providers/Fallback/Tests.antt =====
-- Runs of pkg/providers/fallback.go on concrete candidates.
use halfmoon.Base.{ℕ, ◌≡◌, refl, inr, false, none, [], ◌∷◌, All, map}
use halfmoon.Base.Assoc.{lookup, insert}
use halfmoon.Base.Text.{text_dec, codes, to_lower, trim_space}
use halfmoon.Providers.Reason.{deadline_exceeded, timeout, FailoverError, is_retriable}
use halfmoon.Providers.ModelRef.{model_key, normalize_provider}
use halfmoon.Providers.Cooldown.{
  CooldownTracker, new_cooldown_tracker, is_available, mark_failure, mark_success, entry_of,
}
use halfmoon.Providers.Classifier.{classify_error}
use halfmoon.Providers.Fallback.{
  FallbackCandidate, ModelConfig, Turn, responds, fails, success, exhausted, key_of, execute,
  resolve_candidates_with_lookup, failed_attempt,
}
use halfmoon.Providers.Fallback.{execute_image, image_attempt, error_text}
use halfmoon.Providers.Fallback.Image.{FailImage, execute_image-exhausted}
use halfmoon.Providers.Classifier.{
  is_image_dimension_error, is_image_size_error, matches_any, image_dimension_patterns,
  image_size_patterns,
}
use halfmoon.Providers.Fallback.Chain.{Through, start, past, Retries}
use halfmoon.Providers.Fallback.Execute.{
  tried, candidates, IsPassable, Succeeds, Won, execute-exhausted, execute-success, success-execute,
}
use halfmoon.Providers.Fallback.Others.{Spares, entry_of-execute}
use halfmoon.Providers.Fallback.Resolve.{
  Distinct, IsListed, read_as, keys, resolve_candidates_complete,
}

abbrev gpt : FallbackCandidate
gpt = record { provider = codes "openai"; model = codes "gpt-5" }

abbrev opus : FallbackCandidate
opus = record { provider = codes "anthropic"; model = codes "opus" }

abbrev slow : Turn ℕ
slow = record {
  candidate = gpt;
  canceled_before = false;
  checked = 1;
  measured = 2;
  answer = fails deadline_exceeded;
  canceled_after = false;
  duration = 30;
  marked = 3;
}

abbrev answers : Turn ℕ
answers = record {
  candidate = opus;
  canceled_before = false;
  checked = 4;
  measured = 4;
  answer = responds 42;
  canceled_after = false;
  duration = 5;
  marked = 6;
}

abbrev too_late : FailoverError
too_late = record {
  reason = timeout;
  provider = codes "openai";
  model = codes "gpt-5";
  status = 0;
  wrapped = deadline_exceeded;
}

abbrev marked_slow : CooldownTracker
marked_slow = mark_failure (key_of gpt) timeout 3 new_cooldown_tracker

one_slow :
    (execute (slow ∷ []) new_cooldown_tracker).1 ≡ exhausted (failed_attempt slow too_late ∷ [])
unfolding execute is_available lookup classify_error is_retriable
one_slow = refl

execute-exhausted_example :
    Through
      (slow ∷ [])
      new_cooldown_tracker
      (failed_attempt slow too_late ∷ [])
      (execute (slow ∷ []) new_cooldown_tracker).0
    × (map tried (failed_attempt slow too_late ∷ []) ≡ candidates (slow ∷ []))
    × All IsPassable (failed_attempt slow too_late ∷ [])
execute-exhausted_example =
    execute-exhausted (slow ∷ []) new_cooldown_tracker (failed_attempt slow too_late ∷ []) one_slow

slow_first :
    (execute (slow ∷ answers ∷ []) new_cooldown_tracker).1
    ≡ success 42 opus (failed_attempt slow too_late ∷ [])
unfolding execute is_available lookup classify_error is_retriable mark_failure insert text_dec
    model_key normalize_provider to_lower trim_space
slow_first = refl

execute-success_example :
    Won
      (slow ∷ answers ∷ [])
      new_cooldown_tracker
      (execute (slow ∷ answers ∷ []) new_cooldown_tracker).0
      42
      opus
      (failed_attempt slow too_late ∷ [])
execute-success_example =
    execute-success (slow ∷ answers ∷ []) new_cooldown_tracker 42 opus
      (failed_attempt slow too_late ∷ []) slow_first

slow-Retries : Retries slow new_cooldown_tracker marked_slow (failed_attempt slow too_late)
unfolding is_available lookup classify_error is_retriable
slow-Retries = record {
  raised = deadline_exceeded;
  error = too_late;
  running = refl;
  available = refl;
  failing = refl;
  still_running = refl;
  classified_as = refl;
  retriable = refl;
  counted = refl;
  recorded = refl;
}

answers-Succeeds : Succeeds answers marked_slow 42
unfolding is_available lookup mark_failure insert text_dec model_key normalize_provider to_lower
    trim_space
answers-Succeeds = record { running = refl; available = refl; answered = refl }

success-execute_example :
    execute (slow ∷ answers ∷ []) new_cooldown_tracker
    ≡ (mark_success (key_of opus) marked_slow, success 42 opus (failed_attempt slow too_late ∷ []))
success-execute_example =
    success-execute (slow ∷ []) [] answers 42 (past (inr slow-Retries) start) answers-Succeeds

spared : Spares (codes "gemini/pro") (slow ∷ answers ∷ [])
unfolding model_key normalize_provider lookup text_dec to_lower trim_space
spared = ((λ e. cc), ((λ e. cc), tt))

entry_of-execute_example :
    entry_of (codes "gemini/pro") (execute (slow ∷ answers ∷ []) new_cooldown_tracker).0
    ≡ entry_of (codes "gemini/pro") new_cooldown_tracker
entry_of-execute_example =
    entry_of-execute (codes "gemini/pro") (slow ∷ answers ∷ []) new_cooldown_tracker spared

abbrev config : ModelConfig
config = record {
  primary = codes "openai/gpt-5";
  fallbacks = codes "claude/opus" ∷ codes "GPT/GPT-5 " ∷ [];
}

resolve_candidates_complete_example :
    let cs = resolve_candidates_with_lookup config (codes "openai") (λ raw. none) in
    Distinct [] (keys cs)
    × All
        (λ raw. IsListed (read_as (λ raw. none) (codes "openai") raw) cs)
        (config.primary ∷ config.fallbacks)
resolve_candidates_complete_example =
    resolve_candidates_complete (λ raw. none) (codes "openai") config

image_slow : execute_image (slow ∷ []) ≡ exhausted (image_attempt slow deadline_exceeded ∷ [])
unfolding execute_image error_text to_lower is_image_dimension_error is_image_size_error matches_any
    image_dimension_patterns image_size_patterns
image_slow = refl

execute_image-exhausted_example : FailImage (slow ∷ []) (image_attempt slow deadline_exceeded ∷ [])
execute_image-exhausted_example =
    execute_image-exhausted (slow ∷ []) (image_attempt slow deadline_exceeded ∷ []) image_slow
