-- ===== src/Providers/Classifier/Status.antt =====
-- The number that extractHTTPStatus reads from a message.
use halfmoon.Base.{
  ℕ, ◌+◌, ◌-◌, ◌*◌, ◌≡◌, ◌≢◌, ◌∙◌, refl, ap, sym, subst, Bool, true, Option, none, some, List, [],
  ◌∷◌, ◌++◌, arith, leb, ◌&&◌,
}
use halfmoon.Base.Text.{Text}
use halfmoon.Providers.Regex.{Regex, Grouped, is_digit, find_group}
use halfmoon.Providers.Regex.Found.{Shown, of_three, find_group-Shown}
use halfmoon.Providers.Classifier.{
  digit, three_digits, status_word, http_word, bare_number, http_status_patterns, parse_digits,
  extract_with, extract_http_status,
}

-- The number is three digits that stand side by side in the message.
pub record HasStatus (msg : Text) (status : ℕ) : Type 0 where
  pub front : Text
  pub back : Text
  pub hundreds : ℕ
  pub tens : ℕ
  pub ones : ℕ
  pub digits : (is_digit hundreds ≡ true) × (is_digit tens ≡ true) × (is_digit ones ≡ true)
  pub joined : msg ≡ front ++ hundreds ∷ tens ∷ ones ∷ back
  pub reads : status ≡ (hundreds - b'0') * 100 + (tens - b'0') * 10 + (ones - b'0')

parse_three :
    (x y z : ℕ)
    → is_digit x ≡ true
    → is_digit y ≡ true
    → is_digit z ≡ true
    → parse_digits 0 (x ∷ y ∷ z ∷ []) ≡ (x - b'0') * 100 + (y - b'0') * 10 + (z - b'0')
unfolding parse_digits
parse_three x y z dx dy dz = rw (dx, dy, dz) (omega arith)

Shown-HasStatus :
    (d : ℕ → Bool) (msg t : Text)
    → ((c : ℕ) → d c ≡ true → is_digit c ≡ true)
    → Shown d is_digit is_digit msg t
    → HasStatus msg (parse_digits 0 t)
Shown-HasStatus d msg t h k = record {
  front = k.front;
  back = k.back;
  hundreds = k.first;
  tens = k.second;
  ones = k.third;
  digits = (h k.first k.passes.0, k.passes.1, k.passes.2);
  joined = k.joined;
  reads =
      ap (parse_digits 0) k.is
      ∙ parse_three k.first k.second k.third (h k.first k.passes.0) k.passes.1 k.passes.2;
}

abbrev status_or : Option Text → ℕ → ℕ
status_or none rest = rest
status_or (some t) rest = parse_digits 0 t

status_or-HasStatus :
    (msg : Text) (o : Option Text) (rest : ℕ)
    → ((t : Text) → o ≡ some t → HasStatus msg (parse_digits 0 t))
    → (rest ≢ 0 → HasStatus msg rest)
    → status_or o rest ≢ 0
    → HasStatus msg (status_or o rest)
status_or-HasStatus msg none rest h k n = k n
status_or-HasStatus msg (some t) rest h k n = h t refl

extract_with-cons :
    (g : Grouped) (gs : List Grouped) (msg : Text)
    → extract_with (g ∷ gs) msg ≡ status_or (find_group g msg) (extract_with gs msg)
unfolding extract_with
extract_with-cons g gs msg = go (find_group g msg)
  where
    go :
        (o : Option Text)
        → elim o [ none ↦ extract_with gs msg | some s ↦ parse_digits 0 s ]
          ≡ status_or o (extract_with gs msg)
    go none = refl
    go (some t) = refl

group-HasStatus :
    (before behind : Regex) (d : ℕ → Bool) (gs : List Grouped) (msg : Text)
    → ((c : ℕ) → d c ≡ true → is_digit c ≡ true)
    → (extract_with gs msg ≢ 0 → HasStatus msg (extract_with gs msg))
    → extract_with (of_three before behind d is_digit is_digit msg ∷ gs) msg ≢ 0
    → HasStatus msg (extract_with (of_three before behind d is_digit is_digit msg ∷ gs) msg)
group-HasStatus before behind d gs msg h k n =
    let e = extract_with-cons (of_three before behind d is_digit is_digit msg) gs msg in
    subst (HasStatus msg) (sym e) (
      status_or-HasStatus msg _ _
        (λ t f.
          Shown-HasStatus d msg t h (find_group-Shown before behind d is_digit is_digit msg t f))
        k (λ z. n (e ∙ z)))

-- A number other than 0 that extractHTTPStatus answers is one of three digits in the message.
pub extract_http_status-HasStatus :
    (msg : Text) → extract_http_status msg ≢ 0 → HasStatus msg (extract_http_status msg)
unfolding extract_http_status http_status_patterns status_word http_word bare_number three_digits
    digit
extract_http_status-HasStatus msg =
    group-HasStatus status_word.before status_word.behind is_digit (http_word ∷ bare_number ∷ [])
      msg (λ c e. e)
      (group-HasStatus http_word.before http_word.behind is_digit (bare_number ∷ []) msg (λ c e. e)
        (group-HasStatus bare_number.before bare_number.behind (λ c. leb b'3' c && leb c b'5') []
          msg (λ c e. ground arith) (λ n. absurd (n (unfold extract_with in refl)))))
