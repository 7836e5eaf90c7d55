-- ===== src/Providers/Regex.antt =====
-- Go's package regexp for the patterns of pkg/providers/error_classifier.go: a backtracking matcher
-- that gives the ends of the matches in the order in which regexp prefers them.
pub mod Found
use halfmoon.Base.{
  ℕ, zero, suc, Bool, true, false, ◌&&◌, ◌||◌, not, Option, none, some, List, [], ◌∷◌, ◌++◌, leb,
  if◌then◌else◌, ◌==◌, length, ◌-◌,
}
use halfmoon.Base.Text.{Text}

pub data Regex : Type 0 where
  empty boundary : Regex
  one : (ℕ → Bool) → Regex
  followed : Regex → Regex → Regex
  star optional : Regex → Regex

-- A place in a text: the character before it, and what follows.
pub record Place : Type 0 where
  pub before : Option ℕ
  pub rest : Text

abbrev pub is_digit : ℕ → Bool
is_digit c = leb b'0' c && leb c b'9'

-- \w of the ASCII word boundary \b
abbrev pub is_word : ℕ → Bool
is_word c = is_digit c || (leb 97 c && leb c 122) || (leb 65 c && leb c 90) || c == b'_'

is_word_at : Option ℕ → Bool
is_word_at none = false
is_word_at (some c) = is_word c

head : Text → Option ℕ
head [] = none
head (c ∷ s) = some c

at_boundary : Place → Bool
unfolding is_word_at head
at_boundary p =
    if is_word_at p.before then not (is_word_at (head p.rest)) else is_word_at (head p.rest)

pub step : (ℕ → Bool) → Place → List Place
step test p = elim p.rest [
  | [] ↦ []
  | c ∷ s ↦ if test c then record { before = some c; rest = s } ∷ [] else []
]

pub flat_map {ℓ κ} : {A : Type ℓ} {B : Type κ} → (A → List B) → List A → List B
flat_map f [] = []
flat_map f (x ∷ xs) = f x ++ flat_map f xs

-- As many rounds as there are characters are enough for a star whose rounds each take one.
many : ℕ → (Place → List Place) → Place → List Place
unfolding flat_map
many zero m p = p ∷ []
many (suc n) m p = flat_map (many n m) (m p) ++ p ∷ []

unfoldable pub run : Regex → Place → List Place
unfolding at_boundary step flat_map many
run empty p = p ∷ []
run boundary p = if at_boundary p then p ∷ [] else []
run (one test) p = step test p
run (followed r q) p = flat_map (run q) (run r p)
run (star r) p = many (length p.rest) (run r) p
run (optional r) p = run r p ++ p ∷ []

is_nonempty {ℓ} : {A : Type ℓ} → List A → Bool
is_nonempty [] = false
is_nonempty (x ∷ xs) = true

-- The search from a place on: MatchString.
search_from : Regex → Option ℕ → Text → Bool
unfolding run is_nonempty
search_from r b [] = is_nonempty (run r (record { before = b; rest = [] }))
search_from r b (c ∷ s) =
    is_nonempty (run r (record { before = b; rest = c ∷ s })) || search_from r (some c) s

unfoldable pub match_string : Regex → Text → Bool
unfolding search_from
match_string r s = search_from r none s

-- A pattern with one group: what stands before it, the group, and what follows it.
pub record Grouped : Type 0 where
  pub before : Regex
  pub group : Regex
  pub behind : Regex

-- The text between a place and a later one.
between : Text → ℕ → Text
between s zero = []
between [] (suc n) = []
between (c ∷ s) (suc n) = c ∷ between s n

-- The groups of the matches that begin at a place, the preferred one first.
groups : Grouped → Place → List Text
unfolding run flat_map between
groups g p =
    flat_map
      (λ a.
        flat_map
          (λ b.
            flat_map (λ c. between a.rest (length a.rest - length b.rest) ∷ []) (run g.behind b))
          (run g.group a))
      (run g.before p)

head_or {ℓ} : {A : Type ℓ} → List A → Option A → Option A
head_or [] d = d
head_or (x ∷ xs) d = some x

group_from : Grouped → Option ℕ → Text → Option Text
unfolding groups head_or
group_from g b [] = head_or (groups g (record { before = b; rest = [] })) none
group_from g b (c ∷ s) =
    head_or (groups g (record { before = b; rest = c ∷ s })) (group_from g (some c) s)

-- FindStringSubmatch of a pattern with one group, as the text of the group
unfoldable pub find_group : Grouped → Text → Option Text
unfolding group_from
find_group g s = group_from g none s
