-- ===== src/Providers/Cooldown/Tests.antt =====
-- Runs of pkg/providers/cooldown.go on concrete histories.
use halfmoon.Base.{◌+◌, ◌*◌, ◌≡◌, ◌<◌, true, false, List, [], ◌∷◌, arith}
use halfmoon.Base.Text.{Text, codes, text_dec}
use halfmoon.Providers.Reason.{rate_limit, billing}
use halfmoon.Providers.Cooldown.{hour, is_available, error_count}
use halfmoon.Providers.Cooldown.Timing.{minute}
use halfmoon.Providers.Cooldown.Backoff.{backoff, is_available-failed}
use halfmoon.Providers.Cooldown.History.{
  Event, failed, succeeded, after, streak, error_count-streak, is_available-after,
}

abbrev key : Text
key = codes "openai/gpt-5"

-- Two failures a minute apart, another model's success, then a billing error.
abbrev history : List Event
history =
    record { at = 200 * minute; key = key; mark = failed billing }
    ∷ record { at = 150 * minute; key = codes "gemini/pro"; mark = succeeded }
    ∷ record { at = 101 * minute; key = key; mark = failed rate_limit }
    ∷ record { at = 100 * minute; key = key; mark = failed rate_limit }
    ∷ []

error_count-streak_example : error_count key (after history) ≡ streak key history
error_count-streak_example = error_count-streak key history

is_available-after_example : is_available key (200 * minute + 24 * hour) (after history) ≡ true
is_available-after_example =
    is_available-after key (200 * minute) (200 * minute + 24 * hour) history
      (omega arith, (omega arith, (omega arith, (omega arith, tt)))) (omega arith)

still_out :
    230 * minute
    < 210 * minute
      + backoff rate_limit key
          (record { at = 210 * minute; key = key; mark = failed rate_limit } ∷ history)
unfolding streak text_dec
still_out = omega arith

is_available-failed_example :
    is_available key
      (230 * minute)
      (after (record { at = 210 * minute; key = key; mark = failed rate_limit } ∷ history))
    ≡ false
is_available-failed_example =
    is_available-failed key rate_limit (210 * minute) (230 * minute) history still_out
