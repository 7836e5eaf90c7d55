-- ===== src/Providers/Cooldown.antt =====
-- pkg/providers/cooldown.go. Times and durations are nanoseconds, `none` is the zero time, and the
-- clock is an argument of each call. Counters do not wrap.
pub mod Timing
pub mod History
pub mod Backoff
mod Tests
use halfmoon.Base.{
  ℕ, suc, ◌+◌, ◌-◌, ◌*◌, ◌^◌, min, max, Bool, true, false, ◌&&◌, Option, none, some, List, [], ◌∷◌,
  ltb, if◌then◌else◌,
}
use halfmoon.Base.Text.{Text, text_dec}
use halfmoon.Base.Assoc.{lookup, insert}
use halfmoon.Providers.Reason.{FailoverReason, billing, reason_dec}

abbrev pub millisecond : ℕ
millisecond = 1_000_000

abbrev pub hour : ℕ
hour = 3_600_000 * millisecond

-- defaultFailureWindow
abbrev pub failure_window : ℕ
failure_window = 24 * hour

pub record Entry : Type 0 where
  pub error_count : ℕ
  pub failure_counts : List (FailoverReason × ℕ)
  pub cooldown_end : Option ℕ
  pub disabled_until : Option ℕ
  pub disabled_reason : Option FailoverReason
  pub last_failure : Option ℕ

pub record CooldownTracker : Type 0 where
  pub entries : List (Text × Entry)

abbrev pub new_cooldown_tracker : CooldownTracker
new_cooldown_tracker = record { entries = [] }

abbrev pub new_entry : Entry
new_entry = record {
  error_count = 0;
  failure_counts = [];
  cooldown_end = none;
  disabled_until = none;
  disabled_reason = none;
  last_failure = none;
}

abbrev pub or_zero : Option ℕ → ℕ
or_zero none = 0
or_zero (some n) = n

-- entry.FailureCounts[reason]
unfoldable pub count_of : FailoverReason → List (FailoverReason × ℕ) → ℕ
count_of r counts = or_zero (lookup reason_dec r counts)

-- The powers of `math.Pow` are whole numbers here, so the arithmetic is exact.
unfoldable pub calculate_standard_cooldown : ℕ → ℕ
calculate_standard_cooldown error_count =
    min 3_600_000 (60_000 * 5 ^ min (max 1 error_count - 1) 3) * millisecond

unfoldable pub calculate_billing_cooldown : ℕ → ℕ
calculate_billing_cooldown billing_error_count =
    min (24 * 60 * 60 * 1000) (5 * 60 * 60 * 1000 * 2 ^ min (max 1 billing_error_count - 1) 10)
    * millisecond

-- now.Sub(last) > window, for a last failure that there was
abbrev pub is_stale : Option ℕ → ℕ → Bool
is_stale none now = false
is_stale (some last) now = ltb failure_window (now - last)

-- The window reset of MarkFailure.
unfoldable pub refresh : ℕ → Entry → Entry
refresh now e =
    if is_stale e.last_failure now then record e { error_count = 0; failure_counts = [] } else e

is_billing : FailoverReason → Bool
is_billing billing = true
is_billing _ = false

-- The counters of MarkFailure.
unfoldable pub tally : ℕ → FailoverReason → Entry → Entry
tally now r e = record e {
  error_count = e.error_count + 1;
  failure_counts = insert reason_dec r (count_of r e.failure_counts + 1) e.failure_counts;
  last_failure = some now;
}

-- The cooldown that MarkFailure sets from the counters.
unfoldable pub penalize : ℕ → FailoverReason → Entry → Entry
unfolding is_billing
penalize now r e =
    if is_billing r
    then record e {
      disabled_until = some (now + calculate_billing_cooldown (count_of billing e.failure_counts));
      disabled_reason = some billing;
    }
    else record e { cooldown_end = some (now + calculate_standard_cooldown e.error_count) }

unfoldable pub fail_entry : ℕ → FailoverReason → Entry → Entry
unfolding refresh tally penalize
fail_entry now r e = penalize now r (tally now r (refresh now e))

abbrev pub or_new : Option Entry → Entry
or_new none = new_entry
or_new (some e) = e

unfoldable pub entry_of : Text → CooldownTracker → Option Entry
entry_of key ct = lookup text_dec key ct.entries

unfoldable pub mark_failure : Text → FailoverReason → ℕ → CooldownTracker → CooldownTracker
unfolding entry_of fail_entry
mark_failure key r now ct = record ct {
  entries = insert text_dec key (fail_entry now r (or_new (entry_of key ct))) ct.entries;
}

unfoldable pub succeed_entry : Entry → Entry
succeed_entry e = record e {
  error_count = 0;
  failure_counts = [];
  cooldown_end = none;
  disabled_until = none;
  disabled_reason = none;
}

unfoldable pub mark_success : Text → CooldownTracker → CooldownTracker
unfolding entry_of succeed_entry
mark_success key ct = elim (entry_of key ct) [
  | none ↦ ct
  | some e ↦ record ct { entries = insert text_dec key (succeed_entry e) ct.entries }
]

-- !end.IsZero() && now.Before(end)
abbrev pub is_ahead : Option ℕ → ℕ → Bool
is_ahead none now = false
is_ahead (some end) now = ltb now end

abbrev pub entry_available : Option Entry → ℕ → Bool
entry_available none now = true
entry_available (some e) now =
    if is_ahead e.disabled_until now
    then false
    else if is_ahead e.cooldown_end now
    then false
    else true

unfoldable pub is_available : Text → ℕ → CooldownTracker → Bool
unfolding entry_of
is_available key now ct = entry_available (entry_of key ct) now

-- The larger of what remains so far and what remains until an end that lies ahead.
abbrev pub remaining_until : Option ℕ → ℕ → ℕ → ℕ
remaining_until end now remaining =
    if is_ahead end now
    then if ltb remaining (or_zero end - now) then or_zero end - now else remaining
    else remaining

abbrev pub entry_remaining : Option Entry → ℕ → ℕ
entry_remaining none now = 0
entry_remaining (some e) now =
    remaining_until e.cooldown_end now (remaining_until e.disabled_until now 0)

unfoldable pub cooldown_remaining : Text → ℕ → CooldownTracker → ℕ
unfolding entry_of
cooldown_remaining key now ct = entry_remaining (entry_of key ct) now

unfoldable pub error_count : Text → CooldownTracker → ℕ
unfolding entry_of
error_count key ct = (or_new (entry_of key ct)).error_count

unfoldable pub failure_count : Text → FailoverReason → CooldownTracker → ℕ
unfolding entry_of
failure_count key r ct = count_of r (or_new (entry_of key ct)).failure_counts
