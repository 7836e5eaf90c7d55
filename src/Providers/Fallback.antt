-- ===== src/Providers/Fallback.antt =====
-- pkg/providers/fallback.go. What happens around a candidate (the clock, the caller's context and
-- the answer of `run`) is given with it, as a turn. One request runs at a time on the tracker.

pub mod Chain
pub mod Execute
pub mod Image
pub mod Others
pub mod Resolve
mod Tests
use halfmoon.Base.{
  ℕ, Bool, true, false, ◌||◌, Option, none, some, List, [], ◌∷◌, ◌++◌, if◌then◌else◌, holds,
}
use halfmoon.Base.Text.{Text, text_dec, codes, trim_space, to_lower}
use halfmoon.Base.Assoc.{lookup, insert}
use halfmoon.Providers.Reason.{
  FailoverReason, rate_limit, format, GoError, canceled, deadline_exceeded, other, FailoverError,
  is_retriable,
}
use halfmoon.Providers.ModelRef.{ModelRef, parse_model_ref, model_key}
use halfmoon.Providers.Cooldown.{
  CooldownTracker, is_available, cooldown_remaining, mark_failure, mark_success,
}
use halfmoon.Providers.Classifier.{classify_error, is_image_dimension_error, is_image_size_error}

pub record FallbackCandidate : Type 0 where
  pub provider : Text
  pub model : Text

pub record ModelConfig : Type 0 where
  pub primary : Text
  pub fallbacks : List Text

-- The keys that were seen, and the candidates so far.
pub record Candidates : Type 0 where
  pub seen : List Text
  pub found : List FallbackCandidate

unfoldable pub is_seen : Text → List Text → Bool
is_seen key [] = false
is_seen key (k ∷ ks) = holds (text_dec k key) || is_seen key ks

pub resolved : (Text → Option Text) → Text → Text
resolved find raw = elim (find raw) [ none ↦ raw | some t ↦ t ]

add_ref : Option ModelRef → Candidates → Candidates
unfolding is_seen
add_ref none c = c
add_ref (some ref) c = if is_seen (model_key ref.provider ref.model) c.seen then c else record {
  seen = model_key ref.provider ref.model ∷ c.seen;
  found = c.found ++ record { provider = ref.provider; model = ref.model } ∷ [];
}

unfoldable pub add_candidate : (Text → Option Text) → Text → Text → Candidates → Candidates
unfolding resolved add_ref
add_candidate find default_provider raw c =
    add_ref (parse_model_ref (resolved find (trim_space raw)) default_provider) c

add_candidates : (Text → Option Text) → Text → List Text → Candidates → Candidates
unfolding add_candidate
add_candidates find default_provider [] c = c
add_candidates find default_provider (raw ∷ raws) c =
    add_candidates find default_provider raws (add_candidate find default_provider raw c)

unfoldable pub resolve_candidates_with_lookup :
    ModelConfig → Text → (Text → Option Text) → List FallbackCandidate
unfolding add_candidates
resolve_candidates_with_lookup cfg default_provider find =
    (add_candidates find default_provider (cfg.primary ∷ cfg.fallbacks)
      (record { seen = []; found = [] })).found

-- A nil lookup resolves nothing.
unfoldable pub resolve_candidates : ModelConfig → Text → List FallbackCandidate
unfolding resolve_candidates_with_lookup
resolve_candidates cfg default_provider =
    resolve_candidates_with_lookup cfg default_provider (λ raw. none)

pub data AttemptError : Type 0 where
  in_cooldown : Text → ℕ → AttemptError
  raw : GoError → AttemptError
  classified : FailoverError → AttemptError

pub record FallbackAttempt : Type 0 where
  pub provider : Text
  pub model : Text
  pub error : AttemptError
  pub reason : Option FailoverReason
  pub duration : ℕ
  pub skipped : Bool

pub data Answer (R : Type 0) : Type 0 where
  responds : R → Answer R
  fails : GoError → Answer R

-- `checked`, `measured` and `marked` are the clock at IsAvailable, CooldownRemaining and MarkFailure;
-- `canceled_before` and `canceled_after` are what ctx.Err() says before `run` and after it.
pub record Turn (R : Type 0) : Type 0 where
  pub candidate : FallbackCandidate
  pub canceled_before : Bool
  pub checked : ℕ
  pub measured : ℕ
  pub answer : Answer R
  pub canceled_after : Bool
  pub duration : ℕ
  pub marked : ℕ

pub data Outcome (R : Type 0) : Type 0 where
  no_candidates : Outcome R
  success : R → FallbackCandidate → List FallbackAttempt → Outcome R
  aborted_by_user : Outcome R
  unclassified : FallbackCandidate → GoError → Outcome R
  aborted : FailoverError → Outcome R
  exhausted : List FallbackAttempt → Outcome R

-- What one candidate comes to: the chain goes on in a new state with one more attempt, or ends.
pub data Verdict (S R : Type 0) : Type 0 where
  continues : S → FallbackAttempt → Verdict S R
  ends : S → Outcome R → Verdict S R

-- err.Error()
unfoldable pub error_text : GoError → Text
error_text canceled = codes "context canceled"
error_text deadline_exceeded = codes "context deadline exceeded"
error_text (other s) = s

abbrev pub key_of : FallbackCandidate → Text
key_of c = model_key c.provider c.model

module _ {R : Type 0} where
  unfoldable pub skipped_attempt : Turn R → CooldownTracker → FallbackAttempt
  skipped_attempt t ct = record {
    provider = t.candidate.provider;
    model = t.candidate.model;
    error =
        in_cooldown (key_of t.candidate) (cooldown_remaining (key_of t.candidate) t.measured ct);
    reason = some rate_limit;
    duration = 0;
    skipped = true;
  }

  unfoldable pub failed_attempt : Turn R → FailoverError → FallbackAttempt
  failed_attempt t e = record {
    provider = t.candidate.provider;
    model = t.candidate.model;
    error = classified e;
    reason = some e.reason;
    duration = t.duration;
    skipped = false;
  }

  after_error : Turn R → GoError → CooldownTracker → Verdict CooldownTracker R
  unfolding failed_attempt
  after_error t err ct =
      if t.canceled_after
      then ends ct aborted_by_user
      else elim (classify_error err t.candidate.provider t.candidate.model) [
        | none ↦ ends ct (unclassified t.candidate err)
        | some e ↦
            if is_retriable e
            then continues (mark_failure (key_of t.candidate) e.reason t.marked ct)
                (failed_attempt t e)
            else ends ct (aborted e)
      ]

  -- The body of the loop of Execute.
  unfoldable pub take_turn :
      Turn R → List FallbackAttempt → CooldownTracker → Verdict CooldownTracker R
  unfolding skipped_attempt after_error
  take_turn t attempts ct =
      if t.canceled_before
      then ends ct aborted_by_user
      else if is_available (key_of t.candidate) t.checked ct
      then elim t.answer [
        | responds r ↦ ends (mark_success (key_of t.candidate) ct) (success r t.candidate attempts)
        | fails err ↦ after_error t err ct
      ]
      else continues ct (skipped_attempt t ct)

  -- The loop; behind the last candidate it returns the aggregate error.
  unfoldable pub execute_from :
      List (Turn R) → List FallbackAttempt → CooldownTracker → CooldownTracker × Outcome R
  unfolding take_turn
  execute_from [] attempts ct = (ct, exhausted attempts)
  execute_from (t ∷ ts) attempts ct = elim (take_turn t attempts ct) [
    | continues ct' a ↦ execute_from ts (attempts ++ a ∷ []) ct'
    | ends ct' o ↦ (ct', o)
  ]

  unfoldable pub execute : List (Turn R) → CooldownTracker → CooldownTracker × Outcome R
  unfolding execute_from
  execute [] ct = (ct, no_candidates)
  execute (t ∷ ts) ct = execute_from (t ∷ ts) [] ct

  unfoldable pub image_attempt : Turn R → GoError → FallbackAttempt
  image_attempt t err = record {
    provider = t.candidate.provider;
    model = t.candidate.model;
    error = raw err;
    reason = none;
    duration = t.duration;
    skipped = false;
  }

  image_error : Turn R → GoError → Verdict (Unit {0}) R
  unfolding error_text image_attempt
  image_error t err =
      if t.canceled_after
      then ends tt aborted_by_user
      else let msg = to_lower (error_text err) in
        if is_image_dimension_error msg || is_image_size_error msg
        then ends tt (
            aborted (record {
              reason = format;
              provider = t.candidate.provider;
              model = t.candidate.model;
              status = 0;
              wrapped = err;
            }))
        else continues tt (image_attempt t err)

  -- The body of the loop of ExecuteImage, which does not look at the tracker.
  unfoldable pub take_image_turn : Turn R → List FallbackAttempt → Verdict (Unit {0}) R
  unfolding image_error
  take_image_turn t attempts =
      if t.canceled_before then ends tt aborted_by_user else elim t.answer [
        | responds r ↦ ends tt (success r t.candidate attempts)
        | fails err ↦ image_error t err
      ]

  unfoldable pub execute_image_from : List (Turn R) → List FallbackAttempt → Outcome R
  unfolding take_image_turn
  execute_image_from [] attempts = exhausted attempts
  execute_image_from (t ∷ ts) attempts = elim (take_image_turn t attempts) [
    | continues _ a ↦ execute_image_from ts (attempts ++ a ∷ [])
    | ends _ o ↦ o
  ]

  unfoldable pub execute_image : List (Turn R) → Outcome R
  unfolding execute_image_from
  execute_image [] = no_candidates
  execute_image (t ∷ ts) = execute_image_from (t ∷ ts) []
