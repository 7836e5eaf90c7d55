-- ===== src/Providers/Fallback/Others.antt =====
-- Which cooldowns a call of Execute can change.
use halfmoon.Base.{
  ◌≡◌, ◌≢◌, inl, inr, refl, ap, ◌∙◌, subst, List, [], ◌∷◌, ◌++◌, arith, All, Option-cases,
}
use halfmoon.Base.Text.{Text, text_dec}
use halfmoon.Base.Assoc.{lookup-insert_ne}
use halfmoon.Providers.Reason.{FailoverError}
use halfmoon.Providers.Cooldown.{CooldownTracker, mark_failure, mark_success, entry_of}
use halfmoon.Providers.Fallback.{FallbackAttempt, Turn, ends, Outcome, key_of, take_turn, execute}
use halfmoon.Providers.Fallback.Chain.{Passes, Through, start, past}
use halfmoon.Providers.Fallback.Execute.{execute-Ran}

mark_success-other :
    (key k : Text) (ct : CooldownTracker)
    → k ≢ key
    → entry_of key (mark_success k ct) ≡ entry_of key ct
unfolding mark_success entry_of
mark_success-other key k ct h = elim (Option-cases (entry_of k ct)) [
  | inl n ↦ rw (n, mark_success)
  | inr (e, q) ↦ rw (q, mark_success) (lookup-insert_ne text_dec k key _ ct.entries h)
]

module _ {R : Type 0} where
  -- No turn is about this key.
  abbrev pub Spares : Text → List (Turn R) → Type 0
  Spares key ts = All (λ t. key_of t.candidate ≢ key) ts

  mark_failure-other :
      (key k : Text) (t : Turn R) (e : FailoverError) (ct : CooldownTracker)
      → k ≢ key
      → entry_of key (mark_failure k e.reason t.marked ct) ≡ entry_of key ct
  unfolding mark_failure entry_of
  mark_failure-other key k t e ct h = lookup-insert_ne text_dec k key _ ct.entries h

  Passes-other :
      (key : Text) (t : Turn R) (ct ct' : CooldownTracker) (a : FallbackAttempt)
      → key_of t.candidate ≢ key
      → Passes t ct ct' a
      → entry_of key ct' ≡ entry_of key ct
  Passes-other key t ct ct' a h (inl s) = ap (entry_of key) s.kept
  Passes-other key t ct ct' a h (inr r) =
      ap (entry_of key) r.counted ∙ mark_failure-other key (key_of t.candidate) t r.error ct h

  Through-other :
      (key : Text) (ts : List (Turn R)) {ct ct' : CooldownTracker} {log : List FallbackAttempt}
      → Spares key ts
      → Through ts ct log ct'
      → entry_of key ct' ≡ entry_of key ct
  Through-other key ts h start = refl
  Through-other key ts h (past {t = t} {ts = us} p th) =
      Through-other key us h.1 th ∙ Passes-other key t _ _ _ h.0 p

  ending-other :
      (key : Text) (t : Turn R) (attempts : List FallbackAttempt) (ct ct' : CooldownTracker)
      (o : Outcome R)
      → key_of t.candidate ≢ key
      → take_turn t attempts ct ≡ ends ct' o
      → entry_of key ct' ≡ entry_of key ct
  unfolding take_turn
  ending-other key t attempts ct ct' o h e =
      ground (arith, mark_success-other key (key_of t.candidate) ct)

  Spares-middle :
      (key : Text) (us : List (Turn R)) (t : Turn R) (vs : List (Turn R))
      → Spares key (us ++ t ∷ vs)
      → Spares key us × (key_of t.candidate ≢ key)
  Spares-middle key [] t vs h = (tt, h.0)
  Spares-middle key (u ∷ us) t vs h = let (a, b) = Spares-middle key us t vs h.1 in ((h.0, a), b)

  -- Execute touches the cooldown of its own candidates alone.
  pub entry_of-execute :
      (key : Text) (ts : List (Turn R)) (ct : CooldownTracker)
      → Spares key ts
      → entry_of key (execute ts ct).0 ≡ entry_of key ct
  entry_of-execute key [] ct h = unfold execute in refl
  entry_of-execute key (t ∷ ts) ct h = elim (execute-Ran (t ∷ ts) ct (λ z. cc)) [
    | inl (l, th, k) ↦ Through-other key (t ∷ ts) h th
    | inr r ↦
        let (a, b) = Spares-middle key r.earlier r.last r.later (subst (Spares key) r.turns h) in
        ending-other key r.last _ r.reached _ _ b r.ending ∙ Through-other key r.earlier a r.through
  ]
