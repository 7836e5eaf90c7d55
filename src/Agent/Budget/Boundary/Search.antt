-- ===== src/Agent/Budget/Boundary/Search.antt =====
-- The two searches of findSafeBoundary over the turns of a history: what each of them finds.
use halfmoon.Base.{
  ℕ, zero, suc, ◌+◌, ◌≤◌, ◌<◌, ◌≡◌, ◌⊎◌, inl, inr, refl, ap, ◌∙◌, true, false, List, [], ◌∷◌, arith,
  ltb, leb, length, Bool-cases,
}
use halfmoon.Base.Int.{ℤ, pos}
use halfmoon.Protocol.{Message}
use halfmoon.Agent.Budget.{is_user, turns_from, user_at, backward_from, first_after}

-- No message of the list from this one to that one is the user's.
abbrev pub NoUser : List Message → (ℕ → Type 0) → Type 0
NoUser ms P = (k : ℕ) → P k → user_at ms k ≡ false

user_at_in : (ms : List Message) (k : ℕ) → user_at ms k ≡ true → k < length ms
unfolding user_at
user_at_in [] k e = absurd (cc)
user_at_in (m ∷ ms) zero e = omega arith
user_at_in (m ∷ ms) (suc k) e = omega (arith, user_at_in ms k e)

-- What the search before the target finds: the last turn there, or what was found already.
pub record Before (ms : List Message) (i target : ℕ) (r : ℤ) : Type 0 where
  pub at : ℕ
  pub is_it : r ≡ pos (i + at)
  pub within : i + at ≤ target
  pub user : user_at ms at ≡ true
  pub last : NoUser ms (λ j. (at < j) × (i + j ≤ target))

unfoldable pub Found : List Message → ℕ → ℕ → ℤ → ℤ → Type 0
Found ms i target found r = ((r ≡ found) × NoUser ms (λ j. i + j ≤ target)) ⊎ Before ms i target r

pub no_user_cons :
    (m : Message) (ms : List Message) (P : ℕ → Type 0)
    → (P 0 → is_user m ≡ false)
    → NoUser ms (λ j. P (suc j))
    → NoUser (m ∷ ms) P
unfolding user_at
no_user_cons m ms P h t zero p = h p
no_user_cons m ms P h t (suc k) p = t k p

Before-cons :
    (m : Message) (ms : List Message) (i target : ℕ) (r : ℤ)
    → Before ms (i + 1) target r
    → Before (m ∷ ms) i target r
unfolding user_at
Before-cons m ms i target r b = record {
  at = suc b.at;
  is_it = let e : i + 1 + b.at ≡ i + suc b.at = omega arith in b.is_it ∙ ap pos e;
  within = let w = b.within in omega arith;
  user = b.user;
  last =
      no_user_cons m ms (λ j. (suc b.at < j) × (i + j ≤ target)) (λ p. absurd (omega (arith, p.0)))
        (λ k p. b.last k (omega (arith, p.0), omega (arith, p.1)));
}

none_before :
    (m : Message) (ms : List Message) (i target : ℕ)
    → (i ≤ target → is_user m ≡ false)
    → NoUser ms (λ j. i + 1 + j ≤ target)
    → NoUser (m ∷ ms) (λ j. i + j ≤ target)
none_before m ms i target h t =
    no_user_cons m ms (λ j. i + j ≤ target) (λ p. h (omega (arith, p)))
      (λ k p. t k (omega (arith, p)))

pub backward_from-Found :
    (ms : List Message) (i target : ℕ) (found : ℤ)
    → Found ms i target found (backward_from target found (turns_from i ms))
unfolding Found backward_from turns_from
backward_from-Found [] i target found = inl (refl, λ k p. unfold user_at in refl)
backward_from-Found (m ∷ ms) i target found = elim (Bool-cases (is_user m)) [
  | inr other ↦ rw other (elim (backward_from-Found ms (i + 1) target found) [
    | inl n ↦ inl (n.0, none_before m ms i target (λ _. other) n.1)
    | inr b ↦ inr (Before-cons m ms i target _ b)
  ])
  | inl user ↦ rw user (elim (Bool-cases (leb i target)) [
    | inr late ↦
        rw (late, backward_from)
          (elim (backward_from-Found ms (i + 1) target found) [
            | inl n ↦ inl (n.0, none_before m ms i target (λ p. absurd (ground arith)) n.1)
            | inr b ↦ inr (Before-cons m ms i target _ b)
          ])
    | inl before ↦
        rw (before, backward_from)
          (elim (backward_from-Found ms (i + 1) target (pos i)) [
            | inl n ↦ inr (record {
              at = 0;
              is_it = n.0 ∙ ap pos (omega arith);
              within = ground arith;
              user = unfold user_at in user;
              last =
                  no_user_cons m ms (λ j. (0 < j) × (i + j ≤ target))
                    (λ p. absurd (omega (arith, p.0))) (λ k p. n.1 k (omega (arith, p.1)));
            })
            | inr b ↦ inr (Before-cons m ms i target _ b)
          ])
  ])
]

-- What the search behind the target finds: the first turn there.
pub record After (ms : List Message) (i target r : ℕ) : Type 0 where
  pub at : ℕ
  pub is_it : r ≡ i + at
  pub beyond : target < i + at
  pub user : user_at ms at ≡ true
  pub first : NoUser ms (λ j. (j < at) × (target < i + j))

unfoldable pub Forward : List Message → ℕ → ℕ → ℕ → Type 0
Forward ms i target r = ((r ≡ 0) × NoUser ms (λ j. target < i + j)) ⊎ After ms i target r

After-cons :
    (m : Message) (ms : List Message) (i target r : ℕ)
    → (target < i → is_user m ≡ false)
    → After ms (i + 1) target r
    → After (m ∷ ms) i target r
unfolding user_at
After-cons m ms i target r h b = record {
  at = suc b.at;
  is_it = let e = b.is_it in omega arith;
  beyond = let w = b.beyond in omega arith;
  user = b.user;
  first =
      no_user_cons m ms (λ j. (j < suc b.at) × (target < i + j)) (λ p. h (omega (arith, p.1)))
        (λ k p. b.first k (omega (arith, p.0), omega (arith, p.1)));
}

pub first_after-Forward :
    (ms : List Message) (i target : ℕ) → Forward ms i target (first_after target (turns_from i ms))
unfolding Forward first_after turns_from
first_after-Forward [] i target = inl (refl, λ k p. unfold user_at in refl)
first_after-Forward (m ∷ ms) i target = elim (Bool-cases (is_user m)) [
  | inr other ↦ rw other (elim (first_after-Forward ms (i + 1) target) [
    | inl n ↦ inl (
      n.0,
      no_user_cons m ms (λ j. target < i + j) (λ _. other) (λ k p. n.1 k (omega (arith, p))),
    )
    | inr b ↦ inr (After-cons m ms i target _ (λ _. other) b)
  ])
  | inl user ↦ rw user (elim (Bool-cases (ltb target i)) [
    | inl beyond ↦ rw beyond (
        inr (record {
          at = 0;
          is_it = omega arith;
          beyond = ground arith;
          user = unfold user_at in user;
          first = λ k p. absurd (omega (arith, p.0));
        }))
    | inr late ↦ rw late (elim (first_after-Forward ms (i + 1) target) [
      | inl n ↦ inl (
        n.0,
        no_user_cons m ms (λ j. target < i + j) (λ p. absurd (ground arith))
            (λ k p. n.1 k (omega (arith, p))),
      )
      | inr b ↦ inr (After-cons m ms i target _ (λ p. absurd (ground arith)) b)
    ])
  ])
]
