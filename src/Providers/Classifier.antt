-- ===== src/Providers/Classifier.antt =====
-- pkg/providers/error_classifier.go
pub mod Reasons
pub mod Status
mod Tests
use halfmoon.Base.{
  ℕ, ◌+◌, ◌-◌, ◌*◌, Bool, true, false, ◌&&◌, ◌||◌, Option, none, some, List, [], ◌∷◌, leb, ltb,
  if◌then◌else◌, ◌==◌, any, String,
}
use halfmoon.Base.Text.{Text, codes, lower, to_lower, contains}
use halfmoon.Providers.Reason.{
  FailoverReason, auth, rate_limit, billing, timeout, format, context_overflow, GoError, canceled,
  deadline_exceeded, other, FailoverError,
}
use halfmoon.Providers.Regex.{
  Regex, empty, boundary, one, followed, star, optional, Grouped, is_digit, match_string,
  find_group,
}

-- A letter of a pattern under the flag (?i): case folding adds the long s and the Kelvin sign.
folds : ℕ → ℕ → Bool
folds d c = lower c == d || (c == 0x17F && d == b's') || (c == 0x212A && d == b'k')

literal : Text → Regex
unfolding folds
literal [] = empty
literal (d ∷ ds) = followed (one (folds d)) (literal ds)

-- [_ ]
gap : Regex
gap = one (λ c. c == b'_' || c == 32)

-- .*
anything : Regex
anything = star (one (λ c. if c == 10 then false else true))

-- \s
space_char : ℕ → Bool
space_char c = (leb 9 c && leb c 10) || (leb 12 c && leb c 13) || c == 32

digit : Regex
digit = one is_digit

pub data ErrorPattern : Type 0 where
  substring : Text → ErrorPattern
  regex : Regex → ErrorPattern

abbrev substr : String → ErrorPattern
substr s = substring (codes s)

word_number : String → Regex
unfolding literal
word_number s = followed boundary (followed (literal (codes s)) boundary)

unfoldable pub rate_limit_patterns : List ErrorPattern
unfolding literal gap anything
rate_limit_patterns =
    regex (followed (literal (codes "rate")) (followed gap (literal (codes "limit"))))
    ∷ substr "too many requests"
    ∷ substr "429"
    ∷ substr "exceeded your current quota"
    ∷ regex (followed (literal (codes "exceeded")) (followed anything (literal (codes "quota"))))
    ∷ regex (literal (codes "resource has been exhausted"))
    ∷ regex
        (followed (literal (codes "resource")) (followed anything (literal (codes "exhausted"))))
    ∷ substr "resource_exhausted"
    ∷ substr "quota exceeded"
    ∷ substr "usage limit"
    ∷ []

quote : Regex
quote = one (λ c. c == 34)

spaces : Regex
unfolding space_char
spaces = star (one space_char)

unfoldable pub overloaded_patterns : List ErrorPattern
unfolding literal quote spaces
overloaded_patterns =
    regex (literal (codes "overloaded_error"))
    ∷ regex (
        followed quote (
          followed (literal (codes "type")) (
            followed quote (
              followed spaces (
                followed (literal (codes ":")) (
                  followed spaces
                    (followed quote (followed (literal (codes "overloaded_error")) quote))))))))
    ∷ substr "overloaded"
    ∷ []

unfoldable pub timeout_patterns : List ErrorPattern
timeout_patterns =
    substr "timeout"
    ∷ substr "timed out"
    ∷ substr "deadline exceeded"
    ∷ substr "context deadline exceeded"
    ∷ []

unfoldable pub billing_patterns : List ErrorPattern
unfolding word_number
billing_patterns =
    regex (word_number "402")
    ∷ substr "payment required"
    ∷ substr "insufficient credits"
    ∷ substr "credit balance"
    ∷ substr "plans & billing"
    ∷ substr "insufficient balance"
    ∷ []

unfoldable pub auth_patterns : List ErrorPattern
unfolding literal gap word_number
auth_patterns =
    regex (
      followed (literal (codes "invalid")) (
        followed (optional gap)
          (followed (literal (codes "api")) (followed (optional gap) (literal (codes "key"))))))
    ∷ substr "incorrect api key"
    ∷ substr "invalid token"
    ∷ substr "authentication"
    ∷ substr "re-authenticate"
    ∷ substr "oauth token refresh failed"
    ∷ substr "unauthorized"
    ∷ substr "forbidden"
    ∷ substr "access denied"
    ∷ substr "expired"
    ∷ substr "token has expired"
    ∷ regex (word_number "401")
    ∷ regex (word_number "403")
    ∷ substr "no credentials found"
    ∷ substr "no api key found"
    ∷ []

unfoldable pub format_patterns : List ErrorPattern
format_patterns =
    substr "string should match pattern"
    ∷ substr "tool_use.id"
    ∷ substr "tool_use_id"
    ∷ substr "messages.1.content.1.tool_use.id"
    ∷ substr "invalid request format"
    ∷ []

exceeded_context : String → Regex
unfolding literal gap
exceeded_context s = followed (literal (codes "context")) (
    followed (optional gap)
      (followed (literal (codes s)) (followed (optional gap) (literal (codes "exceeded")))))

unfoldable pub context_overflow_patterns : List ErrorPattern
unfolding exceeded_context
context_overflow_patterns =
    regex (exceeded_context "length")
    ∷ regex (exceeded_context "window")
    ∷ substr "maximum context length"
    ∷ substr "token limit"
    ∷ substr "too many tokens"
    ∷ substr "prompt is too long"
    ∷ substr "request too large"
    ∷ []

unfoldable pub image_dimension_patterns : List ErrorPattern
unfolding literal
image_dimension_patterns = regex (literal (codes "image dimensions exceed max")) ∷ []

unfoldable pub image_size_patterns : List ErrorPattern
unfolding literal anything
image_size_patterns =
    regex (followed (literal (codes "image exceeds")) (followed anything (literal (codes "mb"))))
    ∷ []

-- An empty substring is no pattern.
matches : Text → ErrorPattern → Bool
unfolding match_string contains
matches msg (regex r) = match_string r msg
matches msg (substring []) = false
matches msg (substring (c ∷ s)) = contains msg (c ∷ s)

unfoldable pub matches_any : Text → List ErrorPattern → Bool
unfolding matches
matches_any msg patterns = any (matches msg) patterns

-- The patterns of httpStatusPatterns, which have no flag: a character matches itself.
exactly : Text → Regex
exactly [] = empty
exactly (d ∷ ds) = followed (one (λ c. c == d)) (exactly ds)

three_digits : Regex
unfolding digit
three_digits = followed digit (followed digit digit)

-- `status[:\s]+(\d{3})`
status_word : Grouped
unfolding exactly space_char three_digits
status_word =
    let mark = λ (c : ℕ). c == b':' || space_char c in
    record {
      before = followed (exactly (codes "status")) (followed (one mark) (star (one mark)));
      group = three_digits;
      behind = empty;
    }

-- `http[/\s]+\d*\.?\d*\s+(\d{3})`
http_word : Grouped
unfolding exactly space_char three_digits
http_word =
    let mark = λ (c : ℕ). c == b'/' || space_char c in
    record {
      before = followed (exactly (codes "http")) (
          followed (one mark) (
            followed (star (one mark)) (
              followed (star digit) (
                followed (optional (exactly (codes ".")))
                  (followed (star digit) (followed (one space_char) (star (one space_char))))))));
      group = three_digits;
      behind = empty;
    }

-- `\b([3-5]\d{2})\b`
bare_number : Grouped
unfolding digit
bare_number = record {
  before = boundary;
  group = followed (one (λ c. leb b'3' c && leb c b'5')) (followed digit digit);
  behind = boundary;
}

http_status_patterns : List Grouped
unfolding status_word http_word bare_number
http_status_patterns = status_word ∷ http_word ∷ bare_number ∷ []

unfoldable pub parse_digits : ℕ → Text → ℕ
parse_digits n [] = n
parse_digits n (c ∷ s) = parse_digits (if is_digit c then n * 10 + (c - b'0') else n) s

extract_with : List Grouped → Text → ℕ
unfolding find_group parse_digits
extract_with [] msg = 0
extract_with (p ∷ ps) msg =
    let rest = extract_with ps msg in
    elim (find_group p msg) [ none ↦ rest | some s ↦ parse_digits 0 s ]

unfoldable pub extract_http_status : Text → ℕ
unfolding extract_with http_status_patterns
extract_http_status msg = extract_with http_status_patterns msg

-- transientStatusCodes
abbrev pub is_transient : ℕ → Bool
is_transient s =
    s == 500 || s == 502 || s == 503 || s == 521 || s == 522 || s == 523 || s == 524 || s == 529

unfoldable pub classify_by_status : ℕ → Option FailoverReason
classify_by_status s =
    if s == 401 || s == 403
    then some auth
    else if s == 402
    then some billing
    else if s == 408
    then some timeout
    else if s == 429
    then some rate_limit
    else if s == 400
    then some format
    else if is_transient s
    then some timeout
    else none

unfoldable pub classify_by_message : Text → Option FailoverReason
classify_by_message msg =
    if matches_any msg rate_limit_patterns
    then some rate_limit
    else if matches_any msg overloaded_patterns
    then some rate_limit
    else if matches_any msg billing_patterns
    then some billing
    else if matches_any msg timeout_patterns
    then some timeout
    else if matches_any msg auth_patterns
    then some auth
    else if matches_any msg format_patterns
    then some format
    else if matches_any msg context_overflow_patterns
    then some context_overflow
    else none

unfoldable pub is_image_dimension_error : Text → Bool
is_image_dimension_error msg = matches_any msg image_dimension_patterns

unfoldable pub is_image_size_error : Text → Bool
is_image_size_error msg = matches_any msg image_size_patterns

-- The reason by status, with the status, where the message has one that counts.
by_status : Text → Option (FailoverReason × ℕ)
unfolding classify_by_status
by_status msg =
    let s = extract_http_status msg in
    if ltb 0 s then elim (classify_by_status s) [ none ↦ none | some r ↦ some (r, s) ] else none

-- The reason and the status of a message in lower case.
unfoldable pub classify_text : Text → Option (FailoverReason × ℕ)
unfolding by_status
classify_text msg =
    if is_image_dimension_error msg || is_image_size_error msg
    then some (format, 0)
    else elim (by_status msg) [
      | some (r, s) ↦ some (r, s)
      | none ↦ elim (classify_by_message msg) [ none ↦ none | some r ↦ some (r, 0) ]
    ]

unfoldable pub classify_error : GoError → Text → Text → Option FailoverError
classify_error canceled provider model = none
classify_error deadline_exceeded provider model = some (record {
  reason = timeout;
  provider = provider;
  model = model;
  status = 0;
  wrapped = deadline_exceeded;
})
classify_error (other text) provider model = elim (classify_text (to_lower text)) [
  | none ↦ none
  | some (r, s) ↦
      some (record {
        reason = r;
        provider = provider;
        model = model;
        status = s;
        wrapped = other text;
      })
]
