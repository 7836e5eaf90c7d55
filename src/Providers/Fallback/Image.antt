-- ===== src/Providers/Fallback/Image.antt =====
-- What a call of ExecuteImage reports when no candidate answers.
use halfmoon.Base.{
  ◌≡◌, ◌≢◌, ◌⊎◌, inl, inr, refl, ap, sym, ◌∙◌, subst, false, List, [], ◌∷◌, ◌++◌, append-nil,
  append_assoc, arith, ◌||◌, Bool-cases,
}
use halfmoon.Base.Text.{to_lower}
use halfmoon.Providers.Reason.{GoError}
use halfmoon.Providers.Classifier.{is_image_dimension_error, is_image_size_error}
use halfmoon.Providers.Fallback.{
  FallbackAttempt, Turn, Answer, responds, fails, Outcome, exhausted, Verdict, continues, ends,
  error_text, image_attempt, image_error, take_image_turn, execute_image_from, execute_image,
}

module _ {R : Type 0} where
  Verdict-cases :
      {S : Type 0} (v : Verdict S R)
      → ((s : S) × (a : FallbackAttempt) × (v ≡ continues s a))
        ⊎ ((s : S) × (o : Outcome R) × (v ≡ ends s o))
  Verdict-cases (continues s a) = inl (s, a, refl)
  Verdict-cases (ends s o) = inr (s, o, refl)

  Answer-cases : (x : Answer R) → ((r : R) × (x ≡ responds r)) ⊎ ((err : GoError) × (x ≡ fails err))
  Answer-cases (responds r) = inl (r, refl)
  Answer-cases (fails err) = inr (err, refl)

  -- The candidate was run, failed with an error that is not about the image, and was recorded with
  -- that error.
  pub record FailsImage (t : Turn R) (a : FallbackAttempt) : Type 0 where
    pub raised : GoError
    pub running : t.canceled_before ≡ false
    pub failing : t.answer ≡ fails raised
    pub still_running : t.canceled_after ≡ false
    pub other_matter :
        (is_image_dimension_error (to_lower (error_text raised))
          || is_image_size_error (to_lower (error_text raised)))
        ≡ false
    pub recorded : a ≡ image_attempt t raised

  -- One attempt for each candidate, in their order.
  abbrev pub FailImage : List (Turn R) → List FallbackAttempt → Type 0
  FailImage [] [] = Unit
  FailImage [] (a ∷ log) = ⊥
  FailImage (t ∷ ts) [] = ⊥
  FailImage (t ∷ ts) (a ∷ log) = FailsImage t a × FailImage ts log

  image_continues :
      (t : Turn R) (attempts : List FallbackAttempt) (a : FallbackAttempt) (s : Unit {0})
      → take_image_turn t attempts ≡ continues s a
      → FailsImage t a
  unfolding take_image_turn image_error
  image_continues t attempts a s e = elim (Answer-cases t.answer) [
    | inl (r, k) ↦ absurd (ground arith)
    | inr (err, k) ↦
        elim (Bool-cases (
          is_image_dimension_error (to_lower (error_text err))
          || is_image_size_error (to_lower (error_text err)))) [
            | inl i ↦ absurd (ground arith)
            | inr i ↦ record {
              raised = err;
              running = ground arith;
              failing = k;
              still_running = ground arith;
              other_matter = i;
              recorded = ground arith;
            }
          ]
  ]

  image_ends :
      (t : Turn R) (attempts log : List FallbackAttempt) (s : Unit {0})
      → take_image_turn t attempts ≢ ends s (exhausted log)
  unfolding take_image_turn image_error
  image_ends t attempts log s e = elim (Answer-cases t.answer) [
    | inl (r, k) ↦ ground arith
    | inr (err, k) ↦ ground arith
  ]

  -- The attempts behind those that were there, and what they are.
  record Failed (ts : List (Turn R)) (attempts log : List FallbackAttempt) : Type 0 where
    pub rest : List FallbackAttempt
    pub log_is : log ≡ attempts ++ rest
    pub failures : FailImage ts rest

  execute_image_from-Failed :
      (ts : List (Turn R)) (attempts log : List FallbackAttempt)
      → execute_image_from ts attempts ≡ exhausted log
      → Failed ts attempts log
  unfolding execute_image_from
  execute_image_from-Failed [] attempts log e = record {
    rest = [];
    log_is = let same : attempts ≡ log = cc in sym same ∙ sym (append-nil attempts);
    failures = tt;
  }
  execute_image_from-Failed (t ∷ ts) attempts log e =
      elim (Verdict-cases (take_image_turn t attempts)) [
        | inr (s, o, k) ↦ absurd (
            image_ends t attempts log s
              (let same : o ≡ exhausted log = ground arith in k ∙ ap (ends s) same))
        | inl (s, a, k) ↦
            let f = execute_image_from-Failed ts (attempts ++ a ∷ []) log (ground arith) in
            record {
              rest = a ∷ f.rest;
              log_is = f.log_is ∙ append_assoc attempts (a ∷ []) f.rest;
              failures = (image_continues t attempts a s k, f.failures);
            }
      ]

  -- When ExecuteImage returns the aggregate error, it has one attempt for each candidate, in their
  -- order, and each candidate was run, whatever its cooldown, failed with an error that is not about
  -- the image, and was recorded with that error, while the caller's context was not canceled before
  -- or after it.
  pub execute_image-exhausted :
      (ts : List (Turn R)) (log : List FallbackAttempt)
      → execute_image ts ≡ exhausted log
      → FailImage ts log
  unfolding execute_image
  execute_image-exhausted [] log e = absurd (cc)
  execute_image-exhausted (t ∷ ts) log e =
      let f = execute_image_from-Failed (t ∷ ts) [] log e in
      subst (FailImage (t ∷ ts)) (sym f.log_is) f.failures
