-- ===== src/Memory/Lines.antt =====
-- The scanner of pkg/memory/jsonl.go: bufio.Scanner with ScanLines over the bytes of a file.
use halfmoon.Base.{
  ℕ, ◌*◌, ◌≤◌, ◌≡◌, refl, ap, ◌≢◌, Bool, true, false, List, [], ◌∷◌, ◌++◌, arith, append_assoc,
  ◌||◌, ◌==◌, leb, if◌then◌else◌, length, All, any,
}

abbrev pub Bytes : Type 0
Bytes = List ℕ

push : ℕ → List Bytes → List Bytes
push c [] = (c ∷ []) ∷ []
push c (l ∷ ls) = (c ∷ l) ∷ ls

-- The text between line feeds; what stands behind the last one is a line if it is not empty.
unfoldable pub raw_lines : Bytes → List Bytes
unfolding push
raw_lines [] = []
raw_lines (c ∷ s) = let rest = raw_lines s in if c == 10 then [] ∷ rest else push c rest

-- ScanLines drops one trailing carriage return.
unfoldable pub drop_cr : Bytes → Bytes
drop_cr [] = []
drop_cr (c ∷ []) = if c == 13 then [] else c ∷ []
drop_cr (c ∷ d ∷ s) = c ∷ drop_cr (d ∷ s)

abbrev pub is_empty : Bytes → Bool
is_empty [] = true
is_empty (c ∷ s) = false

-- maxLineSize
abbrev pub max_line_size : ℕ
max_line_size = 10 * 1024 * 1024

-- A line that does not leave room in the buffer for its line feed stops the scan.
abbrev pub too_long : Bytes → Bool
too_long l = leb max_line_size (length l)

-- The non-empty lines, over which both loops run.
unfoldable pub keep_lines : List Bytes → List Bytes
unfolding drop_cr
keep_lines [] = []
keep_lines (l ∷ ls) =
    let rest = keep_lines ls in if is_empty (drop_cr l) then rest else drop_cr l ∷ rest

-- What json.Marshal writes: no byte below a space.
abbrev pub Printable : Bytes → Type 0
Printable = All (λ c. 32 ≤ c)

-- A line feed behind a printable line ends it, whatever follows.
pub raw_lines-line : (l s : Bytes) → Printable l → raw_lines (l ++ 10 ∷ s) ≡ l ∷ raw_lines s
unfolding raw_lines push
raw_lines-line [] s h = refl
raw_lines-line (c ∷ l) s h = ground (arith, raw_lines-line l s h.1)

pub raw_lines-partial : (c : ℕ) (l : Bytes) → Printable (c ∷ l) → raw_lines (c ∷ l) ≡ (c ∷ l) ∷ []
unfolding raw_lines push
raw_lines-partial c [] h = ground arith
raw_lines-partial c (d ∷ l) h = ground (arith, raw_lines-partial d l h.1)

pub drop_cr-Printable : (l : Bytes) → Printable l → drop_cr l ≡ l
unfolding drop_cr
drop_cr-Printable [] h = refl
drop_cr-Printable (c ∷ []) h = ground arith
drop_cr-Printable (c ∷ d ∷ l) h = ap (◌∷◌ c) (drop_cr-Printable (d ∷ l) h.1)

pub keep_lines-append :
    (ls ms : List Bytes) → keep_lines (ls ++ ms) ≡ keep_lines ls ++ keep_lines ms
unfolding keep_lines
keep_lines-append [] ms = refl
keep_lines-append (l ∷ ls) ms = ground (arith, keep_lines-append ls ms)

pub any-append {ℓ} :
    {A : Type ℓ} (p : A → Bool) (xs ys : List A) → any p (xs ++ ys) ≡ (any p xs || any p ys)
any-append p [] ys = refl
any-append p (x ∷ xs) ys = ground (arith, any-append p xs ys)

-- What rewriteJSONL writes for these lines.
unfoldable pub unlines : List Bytes → Bytes
unlines [] = []
unlines (l ∷ ls) = l ++ 10 ∷ unlines ls

pub unlines-append :
    (ls : List Bytes) (l : Bytes) → unlines (ls ++ l ∷ []) ≡ unlines ls ++ (l ++ 10 ∷ [])
unfolding unlines
unlines-append [] l = refl
unlines-append (k ∷ ls) l = simp (unlines-append ls l, append_assoc)

pub raw_lines-unlines :
    (ls : List Bytes) (t : Bytes)
    → All Printable ls
    → raw_lines (unlines ls ++ t) ≡ ls ++ raw_lines t
unfolding unlines
raw_lines-unlines [] t h = refl
raw_lines-unlines (l ∷ ls) t h =
    simp (append_assoc, raw_lines-line l (unlines ls ++ t) h.0, raw_lines-unlines ls t h.1)

-- A line that both loops keep as it is.
abbrev pub IsLine : Bytes → Type 0
IsLine l = Printable l × (l ≢ [])

pub keep_lines-All : (ls : List Bytes) → All IsLine ls → keep_lines ls ≡ ls
unfolding keep_lines
keep_lines-All [] h = refl
keep_lines-All (l ∷ ls) h = ground (arith, drop_cr-Printable l h.0.0, keep_lines-All ls h.1)
