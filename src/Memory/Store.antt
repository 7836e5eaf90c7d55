-- ===== src/Memory/Store.antt =====
-- pkg/memory/jsonl.go: the two files of one session and the operations on them. A fault says where
-- an operation stops, by an error or by a crash; what was written before it stays written.
pub mod Clean
pub mod Keeps
pub mod Session
pub mod Crash
pub mod Rewrite
use halfmoon.Base.{
  ℕ, suc, ◌+◌, ◌-◌, Bool, Option, none, some, List, [], ◌∷◌, ◌++◌, ◌==◌, leb, ltb, if◌then◌else◌,
  length, any, take,
}
use halfmoon.Base.Text.{Text}
use halfmoon.Base.Int.{ℤ, pos, negsuc}
use halfmoon.Protocol.{Message, plain}
use halfmoon.Memory.Lines.{Bytes, raw_lines, keep_lines, too_long}
use halfmoon.Memory.Codec.{Codec}

-- `none` is the zero time.
pub record Meta : Type 0 where
  pub key : Text
  pub summary : Text
  pub skip : ℕ
  pub count : ℕ
  pub created_at : Option ℕ
  pub updated_at : Option ℕ

-- `corrupt` is a metadata file that cannot be read or decoded.
pub data MetaFile : Type 0 where
  absent corrupt : MetaFile
  present : Meta → MetaFile

pub record Files : Type 0 where
  pub jsonl : Option Bytes
  pub meta : MetaFile

abbrev pub no_files : Files
no_files = record { jsonl = none; meta = absent }

pub data Error : Type 0 where
  meta_unreadable meta_unwritten line_too_long unencodable unopened unwritten unsynced : Error
  unclosed unrewritten : Error

pub data Result {ℓ} (A : Type ℓ) : Type ℓ where
  ok : A → Result A
  err : Error → Result A

infixl 5 ◌>>=◌
abbrev pub ◌>>=◌ {ℓ κ} : {A : Type ℓ} {B : Type κ} → Result A → (A → Result B) → Result B
ok a >>= f = f a
err e >>= f = err e

-- `write_cut n` is an append of which only the first n bytes reach the file.
pub data Fault : Type 0 where
  no_fault open_fails sync_fails close_fails meta_fails rewrite_fails : Fault
  write_cut : ℕ → Fault

-- An operation that writes returns the files as it leaves them, and its error.
abbrev pub Written : Type 0
Written = Files × Option Error

meta_of : Text → MetaFile → Result Meta
meta_of key absent =
    ok (record {
      key = key;
      summary = [];
      skip = 0;
      count = 0;
      created_at = none;
      updated_at = none;
    })
meta_of key corrupt = err meta_unreadable
meta_of key (present m) = ok m

unfoldable pub read_meta : Text → Files → Result Meta
unfolding meta_of
read_meta key f = meta_of key f.meta

unfoldable pub write_meta : Fault → Meta → Files → Written
write_meta meta_fails m f = (f, some meta_unwritten)
write_meta _ m f = (record f { meta = present m }, none)

abbrev pub since : Option ℕ → ℕ → Option ℕ
since none now = some now
since (some t) now = some t

abbrev pub bytes_of : Option Bytes → Bytes
bytes_of none = []
bytes_of (some t) = t

module _ (c : Codec) where
  -- The loop of readMessages over the non-empty lines.
  unfoldable pub read_loop : ℕ → ℕ → List Bytes → List Message
  read_loop skip n [] = []
  read_loop skip n (l ∷ ls) =
      let rest = read_loop skip (n + 1) ls in
      if leb (n + 1) skip then rest else elim (c.unmarshal l) [ none ↦ rest | some m ↦ m ∷ rest ]

  unfoldable pub read_messages : Option Bytes → ℕ → Result (List Message)
  read_messages none skip = ok []
  read_messages (some t) skip =
      if any too_long (raw_lines t)
      then err line_too_long
      else ok (read_loop skip 0 (keep_lines (raw_lines t)))

  unfoldable pub get_history : Text → Files → Result (List Message)
  get_history key f = do m ← read_meta key f; read_messages f.jsonl m.skip

unfoldable pub count_lines : Option Bytes → Result ℕ
count_lines none = ok 0
count_lines (some t) =
    if any too_long (raw_lines t) then err line_too_long else ok (length (keep_lines (raw_lines t)))

unfoldable pub get_summary : Text → Files → Result Text
get_summary key f = do m ← read_meta key f; ok m.summary

-- What follows readMeta in a writing operation.
abbrev pub with_meta : Result Meta → (Meta → Files → Written) → Files → Written
with_meta (ok m) k f = k m f
with_meta (err e) k f = (f, some e)

unfoldable pub set_summary : Text → Text → ℕ → Fault → Files → Written
set_summary key summary now fault f =
    with_meta (read_meta key f)
      (λ m. write_meta fault (record m {
        created_at = since m.created_at now;
        summary = summary;
        updated_at = some now;
      }))
      f

-- The metadata update at the end of addMsg.
counted : ℕ → Meta → Meta
counted now m = record m {
  created_at = if m.count == 0 then since m.created_at now else m.created_at;
  count = m.count + 1;
  updated_at = some now;
}

appended : Bytes → Files → Files
appended line f = record f { jsonl = some (bytes_of f.jsonl ++ line) }

add_line : Text → Bytes → ℕ → Fault → Files → Written
unfolding counted appended
add_line key line now open_fails f = (f, some unopened)
add_line key line now (write_cut n) f = (appended (take n line) f, some unwritten)
add_line key line now sync_fails f = (appended line f, some unsynced)
add_line key line now close_fails f = (appended line f, some unclosed)
add_line key line now fault f =
    with_meta (read_meta key (appended line f)) (λ m. write_meta fault (counted now m))
      (appended line f)

-- addMsg, which AddFullMessage calls as it is
unfoldable pub add_full_message : Codec → Text → Message → ℕ → Fault → Files → Written
unfolding add_line
add_full_message c key m now fault f = elim (c.marshal m) [
  | none ↦ (f, some unencodable)
  | some l ↦ add_line key (l ++ 10 ∷ []) now fault f
]

unfoldable pub add_message : Codec → Text → Text → Text → ℕ → Fault → Files → Written
unfolding add_full_message
add_message c key role content = add_full_message c key (plain role content)

-- The offset that TruncateHistory records, from the recounted lines.
unfoldable pub new_skip : ℤ → ℕ → ℕ → ℕ
new_skip (negsuc k) skip count = count
new_skip (pos k) skip count =
    if k == 0 then count else if ltb k (count - skip) then count - k else skip

truncated : ℤ → ℕ → ℕ → Meta → Meta
unfolding new_skip
truncated keep now n m = record m {
  count = n;
  skip = new_skip keep m.skip n;
  updated_at = some now;
}

with_count : Result ℕ → (ℕ → Files → Written) → Files → Written
with_count (ok n) k f = k n f
with_count (err e) k f = (f, some e)

unfoldable pub truncate_history : Text → ℤ → ℕ → Fault → Files → Written
unfolding truncated with_count
truncate_history key keep now fault f =
    with_meta (read_meta key f)
      (λ m. with_count (count_lines f.jsonl) (λ n. write_meta fault (truncated keep now n m))) f

-- The lines of rewriteJSONL, or nothing if a message cannot be encoded.
unfoldable pub encode_all : Codec → List Message → Option Bytes
encode_all c [] = some []
encode_all c (m ∷ ms) = elim (c.marshal m) [
  | none ↦ none
  | some l ↦ elim (encode_all c ms) [ none ↦ none | some rest ↦ some (l ++ 10 ∷ rest) ]
]

rewrite_with : Fault → Option Bytes → Files → Written
rewrite_with fault none f = (f, some unencodable)
rewrite_with rewrite_fails (some t) f = (f, some unrewritten)
rewrite_with fault (some t) f = (record f { jsonl = some t }, none)

unfoldable pub rewrite_jsonl : Codec → Fault → List Message → Files → Written
unfolding rewrite_with
rewrite_jsonl c fault ms f = rewrite_with fault (encode_all c ms) f

-- The metadata is written first; the file is rewritten only if that succeeded.
then_rewrite : Codec → Fault → List Message → Written → Written
then_rewrite c fault ms (f, some e) = (f, some e)
then_rewrite c fault ms (f, none) = rewrite_jsonl c fault ms f

unfoldable pub set_history : Codec → Text → List Message → ℕ → Fault → Files → Written
unfolding then_rewrite
set_history c key ms now fault f =
    with_meta (read_meta key f)
      (λ m g. then_rewrite c fault ms (
        write_meta fault
          (record m {
            created_at = since m.created_at now;
            skip = 0;
            count = length ms;
            updated_at = some now;
          })
          g))
      f

compact_to : Codec → ℕ → Fault → Meta → Result (List Message) → Files → Written
unfolding then_rewrite
compact_to c now fault m (err e) f = (f, some e)
compact_to c now fault m (ok active) f =
    then_rewrite c fault active
      (write_meta fault (record m { skip = 0; count = length active; updated_at = some now }) f)

unfoldable pub compact : Codec → Text → ℕ → Fault → Files → Written
unfolding compact_to
compact c key now fault f =
    with_meta (read_meta key f)
      (λ m g.
        if m.skip == 0
        then (g, none)
        else compact_to c now fault m (read_messages c g.jsonl m.skip) g)
      f
