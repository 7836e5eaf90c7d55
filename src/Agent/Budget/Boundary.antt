-- ===== src/Agent/Budget/Boundary.antt =====
-- findSafeBoundary: the boundary is the nearest one, before the target if there is one.
pub mod Search
use halfmoon.Base.{
  subst, ℕ, zero, suc, ◌+◌, ◌≤◌, ◌<◌, ◌≡◌, ◌⊎◌, inl, inr, refl, ap, sym, ◌∙◌, true, false, List, [],
  ◌∷◌, arith, ltb, leb, length, Bool-cases, dec_lt,
}
use halfmoon.Base.Int.{ℤ, pos, negsuc}
use halfmoon.Protocol.{Message}
use halfmoon.Agent.Budget.{
  is_user, turns_from, parse_turn_boundaries, user_at, is_safe_boundary, backward_from, first_after,
  or_forward, nearest_turn, find_safe_boundary,
}
use halfmoon.Agent.Budget.Boundary.Search.{
  NoUser, Found, no_user_cons, backward_from-Found, Forward, first_after-Forward,
}

-- What the boundary nearest to a target inside the history is: the last turn at or before the
-- target, but not the first message; else the first turn behind the target; else the start, where
-- the first message is the only turn; and the target itself where there is no turn at all.
pub data Nearest (ms : List Message) (target : ℕ) : ℕ → Type 0 where
  before :
      (b : ℕ)
      → 0 < b
      → b ≤ target
      → user_at ms b ≡ true
      → NoUser ms (λ j. (b < j) × (j ≤ target))
      → Nearest ms target b
  behind :
      (b : ℕ)
      → target < b
      → user_at ms b ≡ true
      → NoUser ms (λ j. (0 < j) × (j < b))
      → Nearest ms target b
  single : user_at ms 0 ≡ true → NoUser ms (λ j. 0 < j) → Nearest ms target 0
  no_turn : NoUser ms (λ j. Unit {0}) → Nearest ms target target

turns-empty : (i : ℕ) (ms : List Message) → turns_from i ms ≡ [] → NoUser ms (λ j. Unit {0})
unfolding turns_from
turns-empty i [] e = λ k p. unfold user_at in refl
turns-empty i (m ∷ ms) e = elim (Bool-cases (is_user m)) [
  | inl user ↦ absurd (ground arith)
  | inr other ↦
      no_user_cons m ms (λ j. Unit {0}) (λ _. other) (turns-empty (i + 1) ms (ground arith))
]

List-cases {ℓ} : {A : Type ℓ} (xs : List A) → (xs ≡ []) ⊎ ((y : A) × (ys : List A) × (xs ≡ y ∷ ys))
List-cases [] = inl refl
List-cases (y ∷ ys) = inr (y, ys, refl)

turns-cons :
    (i : ℕ) (ms : List Message) (t : ℕ) (ts : List ℕ)
    → turns_from i ms ≡ t ∷ ts
    → (k : ℕ) × (user_at ms k ≡ true)
unfolding turns_from user_at
turns-cons i [] t ts e = absurd (cc)
turns-cons i (m ∷ ms) t ts e = elim (Bool-cases (is_user m)) [
  | inl user ↦ (0, user)
  | inr other ↦ let (k, u) = turns-cons (i + 1) ms t ts (ground arith) in (suc k, u)
]

nearest_turn-cases :
    (ms : List Message) (target : ℕ) (t : ℕ) (ts : List ℕ)
    → turns_from 0 ms ≡ t ∷ ts
    → nearest_turn target (turns_from 0 ms)
      ≡ or_forward
          (backward_from target (negsuc 0) (turns_from 0 ms))
          (first_after target (turns_from 0 ms))
unfolding nearest_turn
nearest_turn-cases ms target t ts e = rw e refl

or_forward-behind : (b : ℤ) (f : ℕ) → (b ≡ negsuc 0) ⊎ (b ≡ pos 0) → or_forward b f ≡ f
unfolding or_forward
or_forward-behind b f (inl e) = rw e refl
or_forward-behind b f (inr e) = rw e refl

or_forward-before : (b : ℤ) (n f : ℕ) → b ≡ pos n → 0 < n → or_forward b f ≡ n
unfolding or_forward
or_forward-before b n f e h = rw e (ground arith)

-- The search behind the target decides where nothing but the first message is before it.
behind-Nearest :
    (ms : List Message) (target f k : ℕ)
    → user_at ms k ≡ true
    → NoUser ms (λ j. (0 < j) × (j ≤ target))
    → Forward ms 0 target f
    → Nearest ms target f
unfolding Forward
behind-Nearest ms target f k user free (inr a) =
    subst (Nearest ms target) (let e = a.is_it in omega arith) (
      behind a.at (let w = a.beyond in omega arith) a.user (λ j p. elim (dec_lt target j) [
        | yes h ↦ a.first j (p.1, omega (arith, h))
        | no h ↦ free j (p.0, omega (arith, h))
      ]))
behind-Nearest ms target f k user free (inl n) =
    let rest : NoUser ms (λ j. 0 < j) = λ j p. elim (dec_lt target j) [
      | yes h ↦ n.1 j (omega (arith, h))
      | no h ↦ free j (p, omega (arith, h))
    ] in
    subst (Nearest ms target) (sym n.0) (single (first_user k user rest) rest)
  where
    first_user : (j : ℕ) → user_at ms j ≡ true → NoUser ms (λ i. 0 < i) → user_at ms 0 ≡ true
    first_user zero u r = u
    first_user (suc j) u r = absurd (let v = r (suc j) (omega arith) in cc)

or_forward-Nearest :
    (ms : List Message) (target k : ℕ) (b : ℤ) (f : ℕ)
    → user_at ms k ≡ true
    → Found ms 0 target (negsuc 0) b
    → Forward ms 0 target f
    → Nearest ms target (or_forward b f)
unfolding Found
or_forward-Nearest ms target k b f user (inl n) h =
    subst (Nearest ms target) (sym (or_forward-behind b f (inl n.0)))
      (behind-Nearest ms target f k user (λ j p. n.1 j (omega (arith, p.1))) h)
or_forward-Nearest ms target k b f user (inr x) h = elim (dec_lt 0 x.at) [
  | yes l ↦
      let at : b ≡ pos x.at = x.is_it ∙ ap pos (omega arith) in
      subst (Nearest ms target) (sym (or_forward-before b x.at f at l)) (
        before x.at l (let w = x.within in omega arith) x.user
          (λ j p. x.last j (p.0, omega (arith, p.1))))
  | no l ↦
      let at : b ≡ pos 0 = x.is_it ∙ ap pos (omega arith) in
      subst (Nearest ms target) (sym (or_forward-behind b f (inr at))) (
        behind-Nearest ms target f k user (λ j p. x.last j (omega (arith, p.0), omega (arith, p.1)))
          h)
]

nearest_turn-Nearest :
    (ms : List Message) (target : ℕ) → Nearest ms target (nearest_turn target (turns_from 0 ms))
nearest_turn-Nearest ms target = elim (List-cases (turns_from 0 ms)) [
  | inl e ↦ rw e (unfold nearest_turn in no_turn (turns-empty 0 ms e))
  | inr (t, ts, e) ↦
      let (k, user) = turns-cons 0 ms t ts e in
      subst (Nearest ms target) (sym (nearest_turn-cases ms target t ts e)) (
        or_forward-Nearest ms target k _ _ user (backward_from-Found ms 0 target (negsuc 0))
          (first_after-Forward ms 0 target))
]

-- For a target inside the history, findSafeBoundary returns the nearest boundary: the last turn at or
-- before the target that is not the first message; else the first turn behind the target; else the
-- start; and the target itself in a history with no turn.
pub find_safe_boundary-Nearest :
    (history : List Message) (target : ℕ)
    → 0 < target
    → target < length history
    → Nearest history target (find_safe_boundary history (pos target))
unfolding find_safe_boundary parse_turn_boundaries
find_safe_boundary-Nearest history target positive inside =
    subst (Nearest history target) (sym computed) (nearest_turn-Nearest history target)
  where
    computed : find_safe_boundary history (pos target) ≡ nearest_turn target (turns_from 0 history)
    computed = ground arith

Nearest-safe :
    (history : List Message) (target k b : ℕ)
    → user_at history k ≡ true
    → Nearest history target b
    → is_safe_boundary history (pos b) ≡ true
unfolding is_safe_boundary
Nearest-safe history target k b user (before c p w u l) = ground arith
Nearest-safe history target k b user (behind c w u l) = ground arith
Nearest-safe history target k b user (single u l) = ground arith
Nearest-safe history target k b user (no_turn n) = absurd (let v = n k tt in cc)

start_safe :
    (history : List Message) (target : ℕ)
    → ¬ 0 < target
    → is_safe_boundary history (pos (find_safe_boundary history (pos target))) ≡ true
unfolding is_safe_boundary find_safe_boundary
start_safe history target z = ground arith

end_safe :
    (history : List Message) (target : ℕ)
    → 0 < target
    → ¬ target < length history
    → is_safe_boundary history (pos (find_safe_boundary history (pos target))) ≡ true
unfolding is_safe_boundary find_safe_boundary
end_safe history target p l = ground arith

-- In a history with a user message, what findSafeBoundary returns is always a safe boundary, for
-- every target, also one outside the history.
pub is_safe_boundary-find_safe_boundary :
    (history : List Message) (target : ℤ) (k : ℕ)
    → user_at history k ≡ true
    → is_safe_boundary history (pos (find_safe_boundary history target)) ≡ true
is_safe_boundary-find_safe_boundary history (negsuc i) k user =
    unfold is_safe_boundary find_safe_boundary in refl
is_safe_boundary-find_safe_boundary history (pos target) k user = elim (dec_lt 0 target) [
  | no z ↦ start_safe history target z
  | yes p ↦ elim (dec_lt target (length history)) [
    | no l ↦ end_safe history target p l
    | yes i ↦ Nearest-safe history target k _ user (find_safe_boundary-Nearest history target p i)
  ]
]
