-- ===== src/Providers/Classifier/Reasons.antt =====
-- What ClassifyError can answer, and the status codes that it reads from a message.
use halfmoon.Base.{
  ℕ, ◌≡◌, ◌≢◌, ◌⊎◌, inl, inr, refl, sym, ◌∙◌, subst, true, ◌||◌, Option, none, some, [], arith, ltb,
  Option-cases, Bool-cases,
}
use mathlib.Core.Option.{some-injective}
use halfmoon.Base.Text.{Text, to_lower}
use halfmoon.Providers.Reason.{
  FailoverReason, auth, rate_limit, billing, timeout, format, context_overflow, overloaded, unknown,
  GoError, canceled, deadline_exceeded, other, FailoverError,
}
use halfmoon.Providers.Classifier.Status.{HasStatus, extract_http_status-HasStatus}
use halfmoon.Providers.Classifier.{
  classify_error, classify_text, by_status, classify_by_status, classify_by_message,
  extract_http_status, is_image_dimension_error, is_image_size_error, is_transient,
}

-- The statuses that ClassifyError acts on, by reason.
abbrev pub StatusReason : FailoverReason → ℕ → Type 0
StatusReason auth s = (s ≡ 401) ⊎ (s ≡ 403)
StatusReason rate_limit s = s ≡ 429
StatusReason billing s = s ≡ 402
StatusReason timeout s = (s ≡ 408) ⊎ (is_transient s ≡ true)
StatusReason format s = s ≡ 400
StatusReason context_overflow s = ⊥
StatusReason overloaded s = ⊥
StatusReason unknown s = ⊥

by_status_iff : (s : ℕ) (r : FailoverReason) → classify_by_status s ≡ some r → StatusReason r s
unfolding classify_by_status
by_status_iff s auth e = ground arith
by_status_iff s rate_limit e = ground arith
by_status_iff s billing e = ground arith
by_status_iff s timeout e = ground arith
by_status_iff s format e = ground arith
by_status_iff s context_overflow e = ground arith
by_status_iff s overloaded e = ground arith
by_status_iff s unknown e = ground arith

-- The text of an error in lower case, for the errors that ClassifyError reads.
abbrev pub lower_text : GoError → Text
lower_text canceled = []
lower_text deadline_exceeded = []
lower_text (other text) = to_lower text

-- An answer of ClassifyError: its names are the caller's, its error is the one given, its reason is
-- neither "overloaded" nor "unknown"; a status, where it has one, accounts for the reason, and its
-- three digits stand in the text of the error.
pub record IsAnswer (err : GoError) (provider model : Text) (e : FailoverError) : Type 0 where
  pub provider_is : e.provider ≡ provider
  pub model_is : e.model ≡ model
  pub wrapped_is : e.wrapped ≡ err
  pub not_overloaded : e.reason ≢ overloaded
  pub not_unknown : e.reason ≢ unknown
  pub status_accounts : e.status ≢ 0 → StatusReason e.reason e.status
  pub status_shown : e.status ≢ 0 → HasStatus (lower_text err) e.status

record IsReading (msg : Text) (r : FailoverReason) (s : ℕ) : Type 0 where
  pub known : (r ≢ overloaded) × (r ≢ unknown)
  pub accounts : s ≢ 0 → StatusReason r s
  pub shown : s ≢ 0 → HasStatus msg s

classify_by_status-IsReading :
    (msg : Text) (s : ℕ) (r : FailoverReason)
    → s ≡ extract_http_status msg
    → classify_by_status s ≡ some r
    → IsReading msg r s
unfolding classify_by_status
classify_by_status-IsReading msg s r x e = record {
  known = (λ k. ground arith, λ k. ground arith);
  accounts = λ _. by_status_iff s r e;
  shown = λ n. subst (HasStatus msg) (sym x) (extract_http_status-HasStatus msg (λ z. n (x ∙ z)));
}

classify_by_message-IsReading :
    (msg : Text) (r : FailoverReason) → classify_by_message msg ≡ some r → IsReading msg r 0
unfolding classify_by_message
classify_by_message-IsReading msg r e = record {
  known = (λ k. ground arith, λ k. ground arith);
  accounts = λ k. absurd (k refl);
  shown = λ k. absurd (k refl);
}

format-IsReading : (msg : Text) → IsReading msg format 0
format-IsReading msg = record {
  known = (λ k. cc, λ k. cc);
  accounts = λ k. absurd (k refl);
  shown = λ k. absurd (k refl);
}

some_same {ℓ} : {A : Type ℓ} {x y : A} → some x ≡ some y → x ≡ y
some_same e = some-injective _ _ e

-- An answer that was computed is the one that was given.
IsReading-same :
    (msg : Text) (q r : FailoverReason) (t s : ℕ)
    → IsReading msg q t
    → ◌≡◌ {A = Option (FailoverReason × ℕ)} (some (q, t)) (some (r, s))
    → IsReading msg r s
IsReading-same msg q r t s h e =
    let reasons : q ≡ r = cc in
    let statuses : t ≡ s = cc in
    subst (λ x. IsReading msg r x) statuses (subst (λ x. IsReading msg x t) reasons h)

by_status-IsReading :
    (msg : Text) (r : FailoverReason) (s : ℕ) → by_status msg ≡ some (r, s) → IsReading msg r s
unfolding by_status
by_status-IsReading msg r s e = elim (Bool-cases (ltb 0 (extract_http_status msg))) [
  | inr z ↦ absurd (ground arith)
  | inl p ↦ elim (Option-cases (classify_by_status (extract_http_status msg))) [
    | inl n ↦ absurd (ground arith)
    | inr (q, k) ↦
        IsReading-same msg q r (extract_http_status msg) s
          (classify_by_status-IsReading msg (extract_http_status msg) q refl k) (ground arith)
  ]
]

Reading-cases :
    (o : Option (FailoverReason × ℕ))
    → (o ≡ none) ⊎ ((r : FailoverReason) × (s : ℕ) × (o ≡ some (r, s)))
Reading-cases none = inl refl
Reading-cases (some (r, s)) = inr (r, s, refl)

classify_text-IsReading :
    (msg : Text) (r : FailoverReason) (s : ℕ) → classify_text msg ≡ some (r, s) → IsReading msg r s
unfolding classify_text
classify_text-IsReading msg r s e =
    elim (Bool-cases (is_image_dimension_error msg || is_image_size_error msg)) [
      | inl i ↦ IsReading-same msg format r 0 s (format-IsReading msg) (ground arith)
      | inr i ↦ elim (Reading-cases (by_status msg)) [
        | inr (q, t, k) ↦ by_status-IsReading msg r s (ground arith)
        | inl n ↦ elim (Option-cases (classify_by_message msg)) [
          | inl z ↦ absurd (ground arith)
          | inr (q, k) ↦
              IsReading-same msg q r 0 s (classify_by_message-IsReading msg q k) (ground arith)
        ]
      ]
    ]

-- Whatever ClassifyError answers names the provider and the model it was given and wraps the given
-- error; its reason is neither "overloaded" nor "unknown"; and a status other than 0 is one that
-- the table of status codes assigns to that reason, and stands as three digits in a row in the text of
-- the error.
pub classify_error-IsAnswer :
    (err : GoError) (provider model : Text) (e : FailoverError)
    → classify_error err provider model ≡ some e
    → IsAnswer err provider model e
unfolding classify_error
classify_error-IsAnswer canceled provider model e h = absurd (cc)
classify_error-IsAnswer deadline_exceeded provider model e h =
    subst (IsAnswer deadline_exceeded provider model) (some_same h) (record {
      provider_is = refl;
      model_is = refl;
      wrapped_is = refl;
      not_overloaded = λ k. cc;
      not_unknown = λ k. cc;
      status_accounts = λ k. absurd (k refl);
      status_shown = λ k. absurd (k refl);
    })
classify_error-IsAnswer (other text) provider model e h =
    elim (Reading-cases (classify_text (to_lower text))) [
      | inl n ↦ absurd (ground arith)
      | inr (r, s, k) ↦
          let reading : IsReading (to_lower text) r s =
            classify_text-IsReading (to_lower text) r s k in
          let answer : FailoverError = record {
            reason = r;
            provider = provider;
            model = model;
            status = s;
            wrapped = other text;
          } in
          let same : some answer ≡ some e = sym (rw (k, classify_error)) ∙ h in
          subst (IsAnswer (other text) provider model) (some_same same) (record {
            provider_is = refl;
            model_is = refl;
            wrapped_is = refl;
            not_overloaded = reading.known.0;
            not_unknown = reading.known.1;
            status_accounts = reading.accounts;
            status_shown = reading.shown;
          })
    ]
