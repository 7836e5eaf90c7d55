-- ===== src/Memory/Store/Clean.antt =====
-- What a session's files hold between operations that were not interrupted, and what reading such
-- files gives.
use halfmoon.Base.{
  ℕ, suc, ◌+◌, ◌-◌, ◌≤◌, ◌≡◌, ◌≢◌, refl, ap, sym, ◌∙◌, false, Option, none, some, List, [], ◌∷◌,
  ◌++◌, append-nil, arith, length, any, All, dec_lt, drop, drop-all,
}
use halfmoon.Base.Text.{Text}
use halfmoon.Protocol.{Message, stored}
use halfmoon.Memory.Lines.{
  Bytes, raw_lines, too_long, Printable, IsLine, unlines, raw_lines-unlines, keep_lines-All,
}
use halfmoon.Memory.Codec.{Codec}
use halfmoon.Memory.Store.{
  MetaFile, Meta, absent, corrupt, present, Files, ok, bytes_of, read_meta, read_loop,
  read_messages, get_history, count_lines, get_summary,
}

-- A line that was written for a message and fits the scanner's buffer.
abbrev pub IsMessageLine : Codec → Bytes → Type 0
IsMessageLine c l = (m : Message) × (c.marshal m ≡ some l) × (too_long l ≡ false)

abbrev pub skip_of : MetaFile → ℕ
skip_of absent = 0
skip_of corrupt = 0
skip_of (present m) = m.skip

abbrev pub summary_of : MetaFile → Text
summary_of absent = []
summary_of corrupt = []
summary_of (present m) = m.summary

pub record Clean (c : Codec) (f : Files) (ls : List Bytes) : Type 0 where
  pub bytes : bytes_of f.jsonl ≡ unlines ls
  pub lines : All (IsMessageLine c) ls
  pub readable : f.meta ≢ corrupt
  pub within : skip_of f.meta ≤ length ls

pub read_meta-readable :
    (key : Text) (f : Files)
    → f.meta ≢ corrupt
    → (m : Meta) × (read_meta key f ≡ ok m)
      × (m.skip ≡ skip_of f.meta)
      × (m.summary ≡ summary_of f.meta)
unfolding read_meta
read_meta-readable key f h = go f.meta h
  where
    go :
        (x : MetaFile)
        → x ≢ corrupt
        → (m : Meta) × (read_meta key (record { jsonl = none; meta = x }) ≡ ok m)
          × (m.skip ≡ skip_of x)
          × (m.summary ≡ summary_of x)
    go absent k = (_, refl, refl, refl)
    go corrupt k = absurd (k refl)
    go (present m) k = (m, refl, refl, refl)

unfoldable pub decode_all : Codec → List Bytes → List Message
decode_all c [] = []
decode_all c (l ∷ ls) =
    let rest = decode_all c ls in elim (c.unmarshal l) [ none ↦ rest | some m ↦ m ∷ rest ]

module _ (c : Codec) where
  pub IsMessageLine-IsLine : (l : Bytes) → IsMessageLine c l → IsLine l
  IsMessageLine-IsLine l (m, e, h) = (c.marshal-Printable m l e, c.marshal-ne m l e)

  pub All-IsLine : (ls : List Bytes) → All (IsMessageLine c) ls → All IsLine ls
  All-IsLine [] h = tt
  All-IsLine (l ∷ ls) h = (IsMessageLine-IsLine l h.0, All-IsLine ls h.1)

  pub All-Printable : (ls : List Bytes) → All (IsMessageLine c) ls → All Printable ls
  All-Printable [] h = tt
  All-Printable (l ∷ ls) h = ((IsMessageLine-IsLine l h.0).0, All-Printable ls h.1)

  pub short_lines : (ls : List Bytes) → All (IsMessageLine c) ls → any too_long ls ≡ false
  short_lines [] h = refl
  short_lines (l ∷ ls) h = rw h.0.2 (short_lines ls h.1)

  pub raw_lines-clean : (ls : List Bytes) → All (IsMessageLine c) ls → raw_lines (unlines ls) ≡ ls
  unfolding raw_lines
  raw_lines-clean ls h =
      ap raw_lines (sym (append-nil (unlines ls)))
      ∙ raw_lines-unlines ls [] (All-Printable ls h)
      ∙ append-nil ls

  -- The loop of readMessages drops the lines that are skipped and decodes the others.
  pub read_loop-decode_all :
      (skip n : ℕ) (ls : List Bytes) → read_loop c skip n ls ≡ decode_all c (drop (skip - n) ls)
  unfolding read_loop decode_all
  read_loop-decode_all skip n [] = ap (decode_all c) (sym (drop-all (skip - n) [] (omega arith)))
  read_loop-decode_all skip n (l ∷ ls) = elim (dec_lt n skip) [
    | yes h ↦
        let e : skip - n ≡ suc (skip - (n + 1)) = omega arith in
        rw e (ground (arith, read_loop-decode_all skip (n + 1) ls))
    | no h ↦
        let e : skip - n ≡ 0 = omega arith in
        let e' : skip - (n + 1) ≡ 0 = omega arith in
        rw e (ground (arith, rw e' at (read_loop-decode_all skip (n + 1) ls)))
  ]

  pub decode_all-append :
      (ls ms : List Bytes) → decode_all c (ls ++ ms) ≡ decode_all c ls ++ decode_all c ms
  unfolding decode_all
  decode_all-append [] ms = refl
  decode_all-append (l ∷ ls) ms = ground (arith, decode_all-append ls ms)

  pub decode_all-line :
      (m : Message) (l : Bytes) → c.marshal m ≡ some l → decode_all c (l ∷ []) ≡ stored m ∷ []
  unfolding decode_all
  decode_all-line m l e = rw (c.unmarshal-marshal m l e, decode_all)

  messages-empty :
      (t : Option Bytes) (ls : List Bytes) → bytes_of t ≡ unlines ls → t ≡ none → ls ≡ []
  unfolding unlines
  messages-empty t [] e h = refl
  messages-empty t ([] ∷ ls) e h = ground arith
  messages-empty t ((b ∷ l) ∷ ls) e h = ground arith

  -- Both loops over a file of message lines, at any offset.
  pub read_messages-clean :
      (t : Option Bytes) (ls : List Bytes) (skip : ℕ)
      → bytes_of t ≡ unlines ls
      → All (IsMessageLine c) ls
      → read_messages c t skip ≡ ok (decode_all c (drop skip ls))
  unfolding read_messages
  read_messages-clean none ls skip e h =
      rw (messages-empty none ls e refl, drop-all {A = Bytes} skip [] (omega arith))
        (unfold decode_all in refl)
  read_messages-clean (some t) ls skip e h =
      rw (e, raw_lines-clean ls h, short_lines ls h, keep_lines-All ls (All-IsLine ls h))
        (ap ok (
          read_loop-decode_all skip 0 ls
          ∙ ap (λ k. decode_all c (drop k ls)) (let e' : skip - 0 ≡ skip = omega arith in e')))

  pub count_lines-clean :
      (t : Option Bytes) (ls : List Bytes)
      → bytes_of t ≡ unlines ls
      → All (IsMessageLine c) ls
      → count_lines t ≡ ok (length ls)
  unfolding count_lines
  count_lines-clean none ls e h = rw (messages-empty none ls e refl)
  count_lines-clean (some t) ls e h =
      rw (e, raw_lines-clean ls h, short_lines ls h, keep_lines-All ls (All-IsLine ls h))

  -- Reading a session's history from clean files.
  pub get_history-Clean :
      (key : Text) (f : Files) (ls : List Bytes)
      → Clean c f ls
      → get_history c key f ≡ ok (decode_all c (drop (skip_of f.meta) ls))
  unfolding get_history
  get_history-Clean key f ls k =
      let (m, e, es, _) = read_meta-readable key f k.readable in
      rw (e, es) (read_messages-clean f.jsonl ls (skip_of f.meta) k.bytes k.lines)

  pub get_summary-Clean :
      (key : Text) (f : Files) (ls : List Bytes)
      → Clean c f ls
      → get_summary key f ≡ ok (summary_of f.meta)
  unfolding get_summary
  get_summary-Clean key f ls k =
      let (m, e, _, es) = read_meta-readable key f k.readable in rw (e, es)
