-- ===== src/Providers/Regex/Found.antt =====
-- Where the groups that the matcher finds stand in the text.
use halfmoon.Base.{
  ℕ, zero, suc, ◌-◌, ◌≡◌, ◌∙◌, refl, ap, sym, Bool, true, false, Option, none, some, List, [], ◌∷◌,
  ◌++◌, append_assoc, arith, if◌then◌else◌, All, All-append, length, subst,
}
use halfmoon.Base.Text.{Text}
use halfmoon.Providers.Regex.{
  Regex, empty, boundary, one, followed, star, optional, Place, step, flat_map, many, run,
  at_boundary, Grouped, between, groups, head_or, group_from, find_group,
}

All-flat_map {ℓ κ} :
    {A : Type ℓ} {B : Type κ} (P : A → Type 0) (Q : B → Type 0) (f : A → List B) (xs : List A)
    → ((x : A) → P x → All Q (f x))
    → All P xs
    → All Q (flat_map f xs)
unfolding flat_map
All-flat_map P Q f [] h a = tt
All-flat_map P Q f (x ∷ xs) h a =
    All-append Q (f x) (flat_map f xs) (h x a.0) (All-flat_map P Q f xs h a.1)

All-weaken {ℓ} :
    {A : Type ℓ} (P Q : A → Type 0) (xs : List A) → ((x : A) → P x → Q x) → All P xs → All Q xs
All-weaken P Q [] h a = tt
All-weaken P Q (x ∷ xs) h a = (h x a.0, All-weaken P Q xs h a.1)

All-constant {ℓ κ} :
    {A : Type ℓ} {B : Type κ} (Q : B → Type 0) (y : B) (xs : List A)
    → Q y
    → All Q (flat_map (λ x. y ∷ []) xs)
unfolding flat_map
All-constant Q y [] h = tt
All-constant Q y (x ∷ xs) h = (h, All-constant Q y xs h)

-- A place of the text.
record IsAt (s : Text) (p : Place) : Type 0 where
  pub front : Text
  pub joined : s ≡ front ++ p.rest

-- The second place is one character behind the first.
record Taken (test : ℕ → Bool) (p q : Place) : Type 0 where
  pub char : ℕ
  pub passes : test char ≡ true
  pub joined : p.rest ≡ char ∷ q.rest

step-Taken : (test : ℕ → Bool) (p : Place) → All (Taken test p) (step test p)
unfolding step
step-Taken test p = go p.rest refl
  where
    go :
        (t : Text)
        → p.rest ≡ t
        → All (Taken test p) (elim t [
          | [] ↦ []
          | c ∷ s ↦ if test c then record { before = some c; rest = s } ∷ [] else []
        ])
    go [] e = tt
    go (c ∷ s) e = passed (test c) refl
      where
        passed :
            (b : Bool)
            → test c ≡ b
            → All (Taken test p) (if b then record { before = some c; rest = s } ∷ [] else [])
        passed true h = (record { char = c; passes = h; joined = e }, tt)
        passed false h = tt

IsAt-Taken : (test : ℕ → Bool) (s : Text) (p q : Place) → IsAt s p → Taken test p q → IsAt s q
IsAt-Taken test s p q k t = record {
  front = k.front ++ t.char ∷ [];
  joined =
      k.joined ∙ ap (λ x. k.front ++ x) t.joined ∙ sym (append_assoc k.front (t.char ∷ []) q.rest);
}

many-IsAt :
    (n : ℕ) (m : Place → List Place) (s : Text) (p : Place)
    → ((q : Place) → IsAt s q → All (IsAt s) (m q))
    → IsAt s p
    → All (IsAt s) (many n m p)
unfolding many
many-IsAt zero m s p h k = (k, tt)
many-IsAt (suc n) m s p h k =
    All-append (IsAt s) (flat_map (many n m) (m p)) (p ∷ [])
      (All-flat_map (IsAt s) (IsAt s) (many n m) (m p) (λ q. many-IsAt n m s q h) (h p k)) (k, tt)

run-IsAt : (r : Regex) (s : Text) (p : Place) → IsAt s p → All (IsAt s) (run r p)
unfolding run
run-IsAt empty s p k = (k, tt)
run-IsAt boundary s p k = go (at_boundary p)
  where
    go : (b : Bool) → All (IsAt s) (if b then p ∷ [] else [])
    go true = (k, tt)
    go false = tt
run-IsAt (one test) s p k =
    All-weaken (Taken test p) (IsAt s) (step test p) (λ q. IsAt-Taken test s p q k)
      (step-Taken test p)
run-IsAt (followed r q) s p k =
    All-flat_map (IsAt s) (IsAt s) (run q) (run r p) (run-IsAt q s) (run-IsAt r s p k)
run-IsAt (star r) s p k = many-IsAt (length p.rest) (run r) s p (run-IsAt r s) k
run-IsAt (optional r) s p k = All-append (IsAt s) (run r p) (p ∷ []) (run-IsAt r s p k) (k, tt)

-- The text of a group of three characters, each of which passes its test, stands in the text.
pub record Shown (d e f : ℕ → Bool) (s t : Text) : Type 0 where
  pub front : Text
  pub back : Text
  pub first : ℕ
  pub second : ℕ
  pub third : ℕ
  pub is : t ≡ first ∷ second ∷ third ∷ []
  pub joined : s ≡ front ++ first ∷ second ∷ third ∷ back
  pub passes : (d first ≡ true) × (e second ≡ true) × (f third ≡ true)

between-three :
    (x y z : ℕ) (s : Text)
    → between (x ∷ y ∷ z ∷ s) (length (x ∷ y ∷ z ∷ s) - length s) ≡ x ∷ y ∷ z ∷ []
unfolding between
between-three x y z s =
    let n : length (x ∷ y ∷ z ∷ s) - length s ≡ 3 = omega arith in ap (between (x ∷ y ∷ z ∷ s)) n

step_thrice :
    (d e f : ℕ → Bool) (s : Text) (p q1 q2 q3 : Place)
    → IsAt s p
    → Taken d p q1
    → Taken e q1 q2
    → Taken f q2 q3
    → Shown d e f s (between p.rest (length p.rest - length q3.rest))
step_thrice d e f s p q1 q2 q3 k a b c = record {
  front = k.front;
  back = q3.rest;
  first = a.char;
  second = b.char;
  third = c.char;
  is =
      ap (λ t. between t (length t - length q3.rest)) three
      ∙ between-three a.char b.char c.char q3.rest;
  joined = k.joined ∙ ap (λ t. k.front ++ t) three;
  passes = (a.passes, b.passes, c.passes);
}
  where
    three : p.rest ≡ a.char ∷ b.char ∷ c.char ∷ q3.rest
    three = a.joined ∙ ap (λ t. a.char ∷ t) (b.joined ∙ ap (λ t. b.char ∷ t) c.joined)

module _ (before behind : Regex) (d e f : ℕ → Bool) (s : Text) where
  abbrev pub of_three : Grouped
  of_three = record {
    before = before;
    group = followed (one d) (followed (one e) (one f));
    behind = behind;
  }

  run-three :
      (p : Place)
      → IsAt s p
      → All
          (λ q. Shown d e f s (between p.rest (length p.rest - length q.rest)))
          (run of_three.group p)
  unfolding run
  run-three p k =
      All-flat_map (Taken d p) Group (λ q1. flat_map (step f) (step e q1)) (step d p)
        (λ q1 a.
          All-flat_map (Taken e q1) Group (step f) (step e q1)
            (λ q2 b.
              All-weaken (Taken f q2) Group (step f q2)
                (λ q3 c. step_thrice d e f s p q1 q2 q3 k a b c) (step-Taken f q2))
            (step-Taken e q1))
        (step-Taken d p)
    where
      Group : Place → Type 0
      Group q = Shown d e f s (between p.rest (length p.rest - length q.rest))

  groups-Shown : (p : Place) → IsAt s p → All (Shown d e f s) (groups of_three p)
  unfolding groups
  groups-Shown p k =
      All-flat_map (IsAt s) (Shown d e f s) _ (run before p)
        (λ a ka.
          All-flat_map (λ q. Shown d e f s (between a.rest (length a.rest - length q.rest)))
            (Shown d e f s) _ (run of_three.group a)
            (λ q h.
              All-constant (Shown d e f s) (between a.rest (length a.rest - length q.rest))
                (run behind q) h)
            (run-three a ka))
        (run-IsAt before s p k)

  first_of :
      (ts : List Text) (o : Option Text) (t : Text)
      → All (Shown d e f s) ts
      → (o ≡ some t → Shown d e f s t)
      → head_or ts o ≡ some t
      → Shown d e f s t
  unfolding head_or
  first_of [] o t a h e' = h e'
  first_of (x ∷ ts) o t a h e' = let same : x ≡ t = cc in subst (Shown d e f s) same a.0

  group_from-Shown :
      (b : Option ℕ) (front rest t : Text)
      → s ≡ front ++ rest
      → group_from of_three b rest ≡ some t
      → Shown d e f s t
  unfolding group_from
  group_from-Shown b front [] t j h =
      first_of (groups of_three (record { before = b; rest = [] })) none t
        (groups-Shown (record { before = b; rest = [] }) (record { front = front; joined = j }))
        (λ z. absurd (cc)) h
  group_from-Shown b front (c ∷ rest) t j h =
      first_of (groups of_three (record { before = b; rest = c ∷ rest }))
        (group_from of_three (some c) rest) t
        (groups-Shown (record { before = b; rest = c ∷ rest })
          (record { front = front; joined = j }))
        (group_from-Shown (some c) (front ++ c ∷ []) rest t
          (j ∙ sym (append_assoc front (c ∷ []) rest)))
        h

  -- What FindStringSubmatch gives for a group of three characters stands in the text.
  pub find_group-Shown : (t : Text) → find_group of_three s ≡ some t → Shown d e f s t
  unfolding find_group
  find_group-Shown t h = group_from-Shown none [] s t refl h
