-- ===== src/Providers/Reason.antt =====
-- pkg/providers/types.go: why a request failed.
use halfmoon.Base.{ℕ, Bool, true, false}
use halfmoon.Base.Text.{Text}

pub data FailoverReason : Type 0 where
  auth rate_limit billing timeout format context_overflow overloaded unknown : FailoverReason

unfoldable pub reason_dec : Discrete FailoverReason
reason_dec = hlevel

-- An error value: the two of package context that the code compares with, or another by its text.
pub data GoError : Type 0 where
  canceled deadline_exceeded : GoError
  other : Text → GoError

pub record FailoverError : Type 0 where
  pub reason : FailoverReason
  pub provider : Text
  pub model : Text
  pub status : ℕ
  pub wrapped : GoError

abbrev pub retriable_reason : FailoverReason → Bool
retriable_reason format = false
retriable_reason context_overflow = false
retriable_reason _ = true

unfoldable pub is_retriable : FailoverError → Bool
is_retriable e = retriable_reason e.reason
