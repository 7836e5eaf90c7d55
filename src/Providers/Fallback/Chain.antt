-- ===== src/Providers/Fallback/Chain.antt =====
-- When the chain goes past a candidate, and what that makes of a whole call of Execute.
use halfmoon.Base.{
  ◌≡◌, ◌⊎◌, inl, inr, refl, ap, sym, ◌∙◌, true, false, some, List, [], ◌∷◌, ◌++◌, append-nil,
  append_assoc, arith, Bool-cases, Option-cases,
}
use halfmoon.Providers.Reason.{GoError, FailoverError, is_retriable}
use halfmoon.Providers.Cooldown.{CooldownTracker, is_available, mark_failure}
use halfmoon.Providers.Classifier.{classify_error}
use halfmoon.Providers.Fallback.{
  FallbackAttempt, Turn, Answer, responds, fails, Verdict, continues, ends, Outcome, exhausted,
  key_of, skipped_attempt, failed_attempt, take_turn, execute_from,
}

module _ {R : Type 0} where
  -- The candidate is in cooldown: it is recorded as skipped, and the tracker stays.
  pub record Skips (t : Turn R) (ct ct' : CooldownTracker) (a : FallbackAttempt) : Type 0 where
    pub running : t.canceled_before ≡ false
    pub cooling : is_available (key_of t.candidate) t.checked ct ≡ false
    pub kept : ct' ≡ ct
    pub recorded : a ≡ skipped_attempt t ct

  -- The candidate fails with a retriable error: it is recorded and marked in the tracker.
  pub record Retries (t : Turn R) (ct ct' : CooldownTracker) (a : FallbackAttempt) : Type 0 where
    pub raised : GoError
    pub error : FailoverError
    pub running : t.canceled_before ≡ false
    pub available : is_available (key_of t.candidate) t.checked ct ≡ true
    pub failing : t.answer ≡ fails raised
    pub still_running : t.canceled_after ≡ false
    pub classified_as : classify_error raised t.candidate.provider t.candidate.model ≡ some error
    pub retriable : is_retriable error ≡ true
    pub counted : ct' ≡ mark_failure (key_of t.candidate) error.reason t.marked ct
    pub recorded : a ≡ failed_attempt t error

  abbrev pub Passes : Turn R → CooldownTracker → CooldownTracker → FallbackAttempt → Type 0
  Passes t ct ct' a = Skips t ct ct' a ⊎ Retries t ct ct' a

  -- The chain goes past these candidates, one attempt for each.
  pub data Through
      : List (Turn R) → CooldownTracker → List FallbackAttempt → CooldownTracker → Type 0 where
    start : {ct : CooldownTracker} → Through [] ct [] ct
    past :
        {t : Turn R} {ts : List (Turn R)} {ct ct' ct'' : CooldownTracker} {a : FallbackAttempt}
        {log : List FallbackAttempt}
        → Passes t ct ct' a
        → Through ts ct' log ct''
        → Through (t ∷ ts) ct (a ∷ log) ct''

  Answer-cases : (x : Answer R) → ((r : R) × (x ≡ responds r)) ⊎ ((err : GoError) × (x ≡ fails err))
  Answer-cases (responds r) = inl (r, refl)
  Answer-cases (fails err) = inr (err, refl)

  failure-Retries :
      (t : Turn R) (attempts : List FallbackAttempt) (ct ct' : CooldownTracker)
      (a : FallbackAttempt) (err : GoError) (x : FailoverError)
      → take_turn t attempts ct ≡ continues ct' a
      → t.canceled_before ≡ false
      → is_available (key_of t.candidate) t.checked ct ≡ true
      → t.answer ≡ fails err
      → classify_error err t.candidate.provider t.candidate.model ≡ some x
      → Retries t ct ct' a
  unfolding take_turn
  failure-Retries t attempts ct ct' a err x e run av f k = record {
    raised = err;
    error = x;
    running = run;
    available = av;
    failing = f;
    still_running = ground arith;
    classified_as = k;
    retriable = ground arith;
    counted = ground arith;
    recorded = ground arith;
  }

  pub continues-Passes :
      (t : Turn R) (attempts : List FallbackAttempt) (ct ct' : CooldownTracker)
      (a : FallbackAttempt)
      → take_turn t attempts ct ≡ continues ct' a
      → Passes t ct ct' a
  unfolding take_turn
  continues-Passes t attempts ct ct' a e = elim (Bool-cases t.canceled_before) [
    | inl c ↦ absurd (ground arith)
    | inr run ↦ elim (Bool-cases (is_available (key_of t.candidate) t.checked ct)) [
      | inr cool ↦
          inl
            (record { running = run; cooling = cool; kept = ground arith; recorded = ground arith })
      | inl av ↦ elim (Answer-cases t.answer) [
        | inl (r, k) ↦ absurd (ground arith)
        | inr (err, k) ↦
            elim (Option-cases (classify_error err t.candidate.provider t.candidate.model)) [
              | inl n ↦ absurd (ground arith)
              | inr (x, q) ↦ inr (failure-Retries t attempts ct ct' a err x e run av k q)
            ]
      ]
    ]
  ]

  pub Passes-continues :
      (t : Turn R) (attempts : List FallbackAttempt) (ct ct' : CooldownTracker)
      (a : FallbackAttempt)
      → Passes t ct ct' a
      → take_turn t attempts ct ≡ continues ct' a
  unfolding take_turn
  Passes-continues t attempts ct ct' a (inl s) = ground arith
  Passes-continues t attempts ct ct' a (inr r) = ground arith

  Verdict-cases :
      (v : Verdict CooldownTracker R)
      → ((ct : CooldownTracker) × (a : FallbackAttempt) × (v ≡ continues ct a))
        ⊎ ((ct : CooldownTracker) × (o : Outcome R) × (v ≡ ends ct o))
  Verdict-cases (continues ct a) = inl (ct, a, refl)
  Verdict-cases (ends ct o) = inr (ct, o, refl)

  -- What a call of the loop did: it went past every candidate, or past some and ended at the next.
  pub record Ends (ts : List (Turn R)) (attempts : List FallbackAttempt) (ct ct' : CooldownTracker)
      (o : Outcome R) : Type 0 where
    pub earlier : List (Turn R)
    pub last : Turn R
    pub later : List (Turn R)
    pub log : List FallbackAttempt
    pub reached : CooldownTracker
    pub turns : ts ≡ earlier ++ last ∷ later
    pub through : Through earlier ct log reached
    pub ending : take_turn last (attempts ++ log) reached ≡ ends ct' o

  abbrev pub Ran :
      List (Turn R) → List FallbackAttempt → CooldownTracker → CooldownTracker → Outcome R → Type 0
  Ran ts attempts ct ct' o =
      ((log : List FallbackAttempt) × Through ts ct log ct' × (o ≡ exhausted (attempts ++ log)))
      ⊎ Ends ts attempts ct ct' o

  past_one :
      (t : Turn R) (ts : List (Turn R)) (attempts : List FallbackAttempt)
      (ct mid ct' : CooldownTracker) (a : FallbackAttempt) (o : Outcome R)
      → Passes t ct mid a
      → Ran ts (attempts ++ a ∷ []) mid ct' o
      → Ran (t ∷ ts) attempts ct ct' o
  past_one t ts attempts ct mid ct' a o p (inl (log, th, e)) =
      inl (a ∷ log, past p th, e ∙ ap exhausted (append_assoc attempts (a ∷ []) log))
  past_one t ts attempts ct mid ct' a o p (inr r) = inr (record {
    earlier = t ∷ r.earlier;
    last = r.last;
    later = r.later;
    log = a ∷ r.log;
    reached = r.reached;
    turns = ap (◌∷◌ t) r.turns;
    through = past p r.through;
    ending = rw (← append_assoc attempts (a ∷ []) r.log) r.ending;
  })

  pub execute_from-Ran :
      (ts : List (Turn R)) (attempts : List FallbackAttempt) (ct : CooldownTracker)
      → Ran ts attempts ct (execute_from ts attempts ct).0 (execute_from ts attempts ct).1
  unfolding execute_from
  execute_from-Ran [] attempts ct = inl ([], start, ap exhausted (sym (append-nil attempts)))
  execute_from-Ran (t ∷ ts) attempts ct = elim (Verdict-cases (take_turn t attempts ct)) [
    | inl (mid, a, e) ↦
        rw (e, execute_from)
          (past_one t ts attempts ct mid _ a _ (continues-Passes t attempts ct mid a e)
            (execute_from-Ran ts (attempts ++ a ∷ []) mid))
    | inr (end, o, e) ↦
        rw (e, execute_from)
          (inr (record {
            earlier = [];
            last = t;
            later = ts;
            log = [];
            reached = ct;
            turns = refl;
            through = start;
            ending = ap (λ x. take_turn t x ct) (append-nil attempts) ∙ e;
          }))
  ]
