-- ===== src/Providers/Fallback/Execute.antt =====
-- What a call of Execute promises about its candidates, its attempts and the tracker.
use halfmoon.Base.{
  ◌≡◌, ◌≢◌, ◌⊎◌, inl, inr, refl, ap, ap₂, ◌∙◌, true, false, List, [], ◌∷◌, ◌++◌, map, append-nil,
  append_assoc, arith, All,
}
use halfmoon.Providers.Reason.{FailoverError, is_retriable}
use halfmoon.Providers.Cooldown.{CooldownTracker, is_available, mark_success}
use halfmoon.Providers.Fallback.{
  FallbackCandidate, FallbackAttempt, Turn, responds, ends, success, classified, exhausted, key_of,
  skipped_attempt, failed_attempt, take_turn, execute_from, execute,
}
use halfmoon.Providers.Fallback.Chain.{
  Passes, Through, start, past, Passes-continues, Ran, execute_from-Ran,
}

-- The candidate that an attempt is about.
abbrev pub tried : FallbackAttempt → FallbackCandidate
tried a = record { provider = a.provider; model = a.model }

-- An error is in the log only if it is retriable.
abbrev pub IsPassable : FallbackAttempt → Type 0
IsPassable a =
    (a.skipped ≡ true) ⊎ ((e : FailoverError) × (a.error ≡ classified e) × (is_retriable e ≡ true))

module _ {R : Type 0} where
  abbrev pub candidates : List (Turn R) → List FallbackCandidate
  candidates ts = map (λ t. t.candidate) ts

  Passes-tried :
      (t : Turn R) (ct ct' : CooldownTracker) (a : FallbackAttempt)
      → Passes t ct ct' a
      → tried a ≡ t.candidate
  unfolding skipped_attempt failed_attempt
  Passes-tried t ct ct' a (inl s) = ap tried s.recorded
  Passes-tried t ct ct' a (inr r) = ap tried r.recorded

  Through-tried :
      (ts : List (Turn R)) {ct ct' : CooldownTracker} {log : List FallbackAttempt}
      → Through ts ct log ct'
      → map tried log ≡ candidates ts
  Through-tried ts start = refl
  Through-tried ts (past {t = t} {ts = ts'} p th) =
      ap₂ (◌∷◌) (Passes-tried t _ _ _ p) (Through-tried ts' th)

  Through-IsPassable :
      (ts : List (Turn R)) {ct ct' : CooldownTracker} {log : List FallbackAttempt}
      → Through ts ct log ct'
      → All IsPassable log
  unfolding skipped_attempt failed_attempt
  Through-IsPassable ts start = tt
  Through-IsPassable ts (past {ts = ts'} (inl s) th) =
      (inl (ap (λ a. a.skipped) s.recorded), Through-IsPassable ts' th)
  Through-IsPassable ts (past {ts = ts'} (inr r) th) =
      (inr (r.error, ap (λ a. a.error) r.recorded, r.retriable), Through-IsPassable ts' th)

  ending_not_exhausted :
      (t : Turn R) (attempts log : List FallbackAttempt) (ct ct' : CooldownTracker)
      → take_turn t attempts ct ≢ ends ct' (exhausted log)
  unfolding take_turn
  ending_not_exhausted t attempts log ct ct' = λ e. ground arith

  pub execute-Ran :
      (ts : List (Turn R)) (ct : CooldownTracker)
      → ts ≢ []
      → Ran ts [] ct (execute ts ct).0 (execute ts ct).1
  unfolding execute
  execute-Ran [] ct h = absurd (h refl)
  execute-Ran (t ∷ ts) ct h = execute_from-Ran (t ∷ ts) [] ct

  -- When Execute gives up on all candidates, the chain went past each of them in order, with one
  -- attempt for each: a candidate whose key was not available was recorded as skipped and left the
  -- tracker alone; every other was available, was run, failed with an error that ClassifyError finds
  -- retriable, and was recorded with it and marked in the tracker.
  pub execute-exhausted :
      (ts : List (Turn R)) (ct : CooldownTracker) (log : List FallbackAttempt)
      → (execute ts ct).1 ≡ exhausted log
      → Through ts ct log (execute ts ct).0 × (map tried log ≡ candidates ts) × All IsPassable log
  execute-exhausted [] ct log e = absurd (unfold execute in ground arith)
  execute-exhausted (t ∷ ts) ct log e = elim (execute-Ran (t ∷ ts) ct (λ z. cc)) [
    | inl (l, th, k) ↦
        let same : l ≡ log = cc in
        rw (← same) (th, Through-tried (t ∷ ts) th, Through-IsPassable (t ∷ ts) th)
    | inr r ↦ absurd (
        ending_not_exhausted r.last _ log r.reached _
          (r.ending ∙ ap (ends (execute (t ∷ ts) ct).0) e))
  ]

  -- The turn at which the chain succeeds, in the state that it is reached in.
  pub record Succeeds (t : Turn R) (reached : CooldownTracker) (r : R) : Type 0 where
    pub running : t.canceled_before ≡ false
    pub available : is_available (key_of t.candidate) t.checked reached ≡ true
    pub answered : t.answer ≡ responds r

  success-Succeeds :
      (t : Turn R) (attempts log : List FallbackAttempt) (ct ct' : CooldownTracker) (r : R)
      (c : FallbackCandidate)
      → take_turn t attempts ct ≡ ends ct' (success r c log)
      → Succeeds t ct r
        × (c ≡ t.candidate)
        × (log ≡ attempts)
        × (ct' ≡ mark_success (key_of t.candidate) ct)
  unfolding take_turn
  success-Succeeds t attempts log ct ct' r c e = (
    record { running = ground arith; available = ground arith; answered = ground arith },
    ground arith,
    ground arith,
    ground arith,
  )

  Succeeds-ends :
      (t : Turn R) (attempts : List FallbackAttempt) (ct : CooldownTracker) (r : R)
      → Succeeds t ct r
      → take_turn t attempts ct
        ≡ ends (mark_success (key_of t.candidate) ct) (success r t.candidate attempts)
  unfolding take_turn
  Succeeds-ends t attempts ct r s = ground arith

  -- The turns before the winner, the winner, and the turns that are not tried.
  pub record Won (ts : List (Turn R)) (ct ct' : CooldownTracker) (r : R) (c : FallbackCandidate)
      (log : List FallbackAttempt) : Type 0 where
    pub earlier : List (Turn R)
    pub winner : Turn R
    pub later : List (Turn R)
    pub reached : CooldownTracker
    pub turns : ts ≡ earlier ++ winner ∷ later
    pub through : Through earlier ct log reached
    pub succeeds : Succeeds winner reached r
    pub named : c ≡ winner.candidate
    pub reset : ct' ≡ mark_success (key_of winner.candidate) reached

  -- When Execute returns a response, it is that of the first candidate that was neither skipped nor
  -- failed: every one before it was passed for a cooldown or a retriable error, each with one
  -- attempt, and its own key was available and is marked as good.
  pub execute-success :
      (ts : List (Turn R)) (ct : CooldownTracker) (r : R) (c : FallbackCandidate)
      (log : List FallbackAttempt)
      → (execute ts ct).1 ≡ success r c log
      → Won ts ct (execute ts ct).0 r c log
  execute-success [] ct r c log e = absurd (unfold execute in ground arith)
  execute-success (t ∷ ts) ct r c log e = elim (execute-Ran (t ∷ ts) ct (λ z. cc)) [
    | inl (l, th, k) ↦ absurd (ground arith)
    | inr w ↦
        let (s, named, same, reset) =
          success-Succeeds w.last _ log w.reached _ r c
            (w.ending ∙ ap (ends (execute (t ∷ ts) ct).0) e) in
        record {
          earlier = w.earlier;
          winner = w.last;
          later = w.later;
          reached = w.reached;
          turns = w.turns;
          through = rw same w.through;
          succeeds = s;
          named = named;
          reset = reset;
        }
  ]

  execute_from-success :
      (earlier later : List (Turn R)) (t : Turn R) (attempts : List FallbackAttempt)
      {ct reached : CooldownTracker} {log : List FallbackAttempt} (r : R)
      → Through earlier ct log reached
      → Succeeds t reached r
      → execute_from (earlier ++ t ∷ later) attempts ct
        ≡ (mark_success (key_of t.candidate) reached, success r t.candidate (attempts ++ log))
  unfolding execute_from
  execute_from-success earlier later t attempts {ct} r start s =
      rw (Succeeds-ends t attempts ct r s, append-nil attempts, execute_from)
  execute_from-success earlier later t attempts {ct} r
        (past {t = u} {ts = us} {ct' = mid} {a = a} p th) s =
      rw (Passes-continues u attempts ct mid a p, execute_from)
        (execute_from-success us later t (attempts ++ a ∷ []) r th s
          ∙ rw (append_assoc attempts (a ∷ [])))

  -- Execute does return the response of a candidate that is reached, available and answers, whatever
  -- stands behind it.
  pub success-execute :
      (earlier later : List (Turn R)) (t : Turn R) {ct reached : CooldownTracker}
      {log : List FallbackAttempt} (r : R)
      → Through earlier ct log reached
      → Succeeds t reached r
      → execute (earlier ++ t ∷ later) ct
        ≡ (mark_success (key_of t.candidate) reached, success r t.candidate log)
  unfolding execute
  success-execute earlier later t r start s = execute_from-success [] later t [] r start s
  success-execute earlier later t r (past {ts = us} p th) s =
      execute_from-success _ later t [] r (past p th) s
