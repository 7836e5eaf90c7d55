-- ===== src/Media/Store/Counts.antt =====
-- How many refs of the media store pass a test.
use halfmoon.Base.{ℕ, ◌+◌, ◌≡◌, refl, Bool, true, false, none, some, List, [], ◌∷◌, arith}
use halfmoon.Base.Text.{Text, text_dec}
use halfmoon.Base.Assoc.{lookup, insert, delete, lookup-insert, lookup-delete}
use halfmoon.Media.Store.{MediaEntry}

abbrev pub Refs : Type 0
Refs = List (Text × MediaEntry)

abbrev pub one_if : Bool → ℕ
one_if true = 1
one_if false = 0

abbrev pub count : (MediaEntry → Bool) → Refs → ℕ
count q [] = 0
count q ((r, e) ∷ m) = one_if (q e) + count q m

-- No ref stands twice.
abbrev pub Distinct : Refs → Type 0
Distinct [] = Unit
Distinct ((r, e) ∷ m) = (lookup text_dec r m ≡ none) × Distinct m

pub count-insert :
    (q : MediaEntry → Bool) (r : Text) (e : MediaEntry) (m : Refs)
    → lookup text_dec r m ≡ none
    → count q (insert text_dec r e m) ≡ one_if (q e) + count q m
unfolding lookup insert
count-insert q r e [] h = refl
count-insert q r e ((j, d) ∷ m) h = ground (arith, count-insert q r e m)

pub delete-absent : (r : Text) (m : Refs) → lookup text_dec r m ≡ none → delete text_dec r m ≡ m
unfolding lookup delete
delete-absent r [] h = refl
delete-absent r ((j, d) ∷ m) h = ground (arith, delete-absent r m)

pub count-delete :
    (q : MediaEntry → Bool) (r : Text) (e : MediaEntry) (m : Refs)
    → Distinct m
    → lookup text_dec r m ≡ some e
    → count q m ≡ one_if (q e) + count q (delete text_dec r m)
unfolding lookup delete
count-delete q r e [] u h = absurd (cc)
count-delete q r e ((j, d) ∷ m) u h =
    ground (arith, u.0, delete-absent r m, count-delete q r e m u.1)

pub Distinct-insert :
    (r : Text) (e : MediaEntry) (m : Refs) → Distinct m → Distinct (insert text_dec r e m)
unfolding lookup insert
Distinct-insert r e [] u = (refl, tt)
Distinct-insert r e ((j, d) ∷ m) u =
    ground (arith, u, Distinct-insert r e m u.1, lookup-insert text_dec r j e m)

pub Distinct-delete : (r : Text) (m : Refs) → Distinct m → Distinct (delete text_dec r m)
unfolding delete
Distinct-delete r [] u = tt
Distinct-delete r ((j, d) ∷ m) u =
    ground (arith, u, Distinct-delete r m u.1, lookup-delete text_dec r j m)
