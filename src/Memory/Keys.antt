-- ===== src/Memory/Keys.antt =====
-- pkg/memory/jsonl.go: the files of many sessions. A key names its files by its sanitized form.
use halfmoon.Base.{
  ℕ, ◌≡◌, ◌≢◌, refl, ite, Option, none, some, List, [], ◌∷◌, arith, ◌==◌, if◌then◌else◌, All,
}
use halfmoon.Base.Text.{Text, text_dec}
use halfmoon.Base.Assoc.{lookup, insert, lookup-insert}
use halfmoon.Memory.Store.{Files, no_files, Written}

-- strings.ReplaceAll of one character by another
unfoldable pub replace_all : ℕ → ℕ → Text → Text
replace_all a b [] = []
replace_all a b (c ∷ s) = (if c == a then b else c) ∷ replace_all a b s

unfoldable pub sanitize_key : Text → Text
unfolding replace_all
sanitize_key key = replace_all b'\\' b'_' (replace_all b'/' b'_' (replace_all b':' b'_' key))

-- The files of the sessions, by the names that jsonlPath and metaPath build.
abbrev pub Disk : Type 0
Disk = List (Text × Files)

abbrev or_no_files : Option Files → Files
or_no_files none = no_files
or_no_files (some f) = f

unfoldable pub files_at : Text → Disk → Files
files_at key disk = or_no_files (lookup text_dec (sanitize_key key) disk)

-- An operation on a session writes that session's files alone.
unfoldable pub write_at : Text → (Files → Written) → Disk → Disk
unfolding files_at
write_at key op disk = insert text_dec (sanitize_key key) (op (files_at key disk)).0 disk

abbrev pub IsPlainChar : ℕ → Type 0
IsPlainChar c = (c ≢ b'/') × (c ≢ b'\\') × (c ≢ b':')

-- No sanitized key has a separator of paths or of keys.
pub sanitize_key-plain : (key : Text) → All IsPlainChar (sanitize_key key)
unfolding sanitize_key
sanitize_key-plain [] = tt
sanitize_key-plain (c ∷ key) = ((ground arith, ground arith, ground arith), sanitize_key-plain key)

-- Sanitizing twice changes nothing more.
pub sanitize_key_idem : (key : Text) → sanitize_key (sanitize_key key) ≡ sanitize_key key
unfolding sanitize_key
sanitize_key_idem [] = refl
sanitize_key_idem (c ∷ key) = ground (arith, sanitize_key_idem key)

-- An operation on one key does not touch the session of another, if their sanitized keys differ. If
-- these are equal, as those of "a:b" and "a/b" are, the two keys share one session.
pub files_at-write_at :
    (j k : Text) (op : Files → Written) (disk : Disk)
    → files_at k (write_at j op disk)
      ≡ ite (text_dec (sanitize_key j) (sanitize_key k)) (op (files_at k disk)).0 (files_at k disk)
unfolding files_at write_at
files_at-write_at j k op disk = ground (
  arith,
  lookup-insert text_dec (sanitize_key j) (sanitize_key k)
      (op (or_no_files (lookup text_dec (sanitize_key j) disk))).0 disk,
)
