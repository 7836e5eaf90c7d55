-- ===== src/Memory/Store/Keeps.antt =====
-- Each operation that is not interrupted leaves clean files, with these lines and this offset.
use halfmoon.Base.{
  ℕ, suc, ◌≤◌, ◌≡◌, ◌≢◌, refl, ap, sym, ◌∙◌, inl, inr, false, Option, none, some, List, [], ◌∷◌,
  ◌++◌, map, arith, length, length-append, All, All-append, All-drop, drop, ◌==◌, Bool-cases,
}
use halfmoon.Base.Text.{Text}
use halfmoon.Base.Int.{ℤ, pos, negsuc}
use halfmoon.Protocol.{Message, stored}
use halfmoon.Memory.Lines.{Bytes, too_long, unlines, unlines-append}
use halfmoon.Memory.Codec.{Codec}
use halfmoon.Memory.Store.{
  Meta, corrupt, Files, Error, bytes_of, read_messages, no_fault, write_meta, add_full_message,
  set_summary, truncate_history, new_skip, encode_all, rewrite_jsonl, then_rewrite, set_history,
  compact, compact_to,
}
use halfmoon.Memory.Store.Clean.{
  IsMessageLine, skip_of, summary_of, Clean, decode_all, read_meta-readable, read_messages-clean,
  count_lines-clean,
}

-- The messages and the lines that they are written as.
abbrev pub Encoded : Codec → List Message → List Bytes → Type 0
Encoded c [] [] = Unit
Encoded c [] (l ∷ ls) = ⊥
Encoded c (m ∷ ms) [] = ⊥
Encoded c (m ∷ ms) (l ∷ ls) = (c.marshal m ≡ some l) × (too_long l ≡ false) × Encoded c ms ls

-- What an operation leaves: no error, clean files, and this offset and summary.
pub record Leaves (c : Codec) (w : Files × Option Error) (ls : List Bytes) (skip : ℕ)
    (summary : Text) : Type 0 where
  pub done : w.1 ≡ none
  pub clean : Clean c w.0 ls
  pub skip_is : skip_of w.0.meta ≡ skip
  pub summary_is : summary_of w.0.meta ≡ summary

module _ (c : Codec) where
  pub encode_all-Encoded :
      (ms : List Message) (ls : List Bytes) → Encoded c ms ls → encode_all c ms ≡ some (unlines ls)
  unfolding encode_all unlines
  encode_all-Encoded [] [] e = refl
  encode_all-Encoded [] (l ∷ ls) e = absurd e
  encode_all-Encoded (m ∷ ms) [] e = absurd e
  encode_all-Encoded (m ∷ ms) (l ∷ ls) e = ground (arith, encode_all-Encoded ms ls e.2)

  pub Encoded-lines :
      (ms : List Message) (ls : List Bytes) → Encoded c ms ls → All (IsMessageLine c) ls
  Encoded-lines [] [] e = tt
  Encoded-lines [] (l ∷ ls) e = absurd e
  Encoded-lines (m ∷ ms) [] e = absurd e
  Encoded-lines (m ∷ ms) (l ∷ ls) e = ((m, e.0, e.1), Encoded-lines ms ls e.2)

  pub decode_all-Encoded :
      (ms : List Message) (ls : List Bytes) → Encoded c ms ls → decode_all c ls ≡ map stored ms
  unfolding decode_all
  decode_all-Encoded [] [] e = refl
  decode_all-Encoded [] (l ∷ ls) e = absurd e
  decode_all-Encoded (m ∷ ms) [] e = absurd e
  decode_all-Encoded (m ∷ ms) (l ∷ ls) e =
      rw (c.unmarshal-marshal m l e.0, decode_all)
        (ap (◌∷◌ (stored m)) (decode_all-Encoded ms ls e.2))

  -- What a clean file holds is written back as it was.
  pub Encoded-decode_all :
      (ls : List Bytes) → All (IsMessageLine c) ls → Encoded c (decode_all c ls) ls
  unfolding decode_all
  Encoded-decode_all [] h = tt
  Encoded-decode_all (l ∷ ls) ((m, e, short), h) =
      rw (c.unmarshal-marshal m l e, decode_all)
        (c.marshal-stored m ∙ e, short, Encoded-decode_all ls h)

  pub length-Encoded :
      (ms : List Message) (ls : List Bytes) → Encoded c ms ls → length ms ≡ length ls
  length-Encoded [] [] e = refl
  length-Encoded [] (l ∷ ls) e = absurd e
  length-Encoded (m ∷ ms) [] e = absurd e
  length-Encoded (m ∷ ms) (l ∷ ls) e = ap suc (length-Encoded ms ls e.2)

  write_meta-Leaves :
      (m : Meta) (g : Files) (ls : List Bytes)
      → bytes_of g.jsonl ≡ unlines ls
      → All (IsMessageLine c) ls
      → m.skip ≤ length ls
      → Leaves c (write_meta no_fault m g) ls m.skip m.summary
  unfolding write_meta
  write_meta-Leaves m g ls b h w = record {
    done = refl;
    clean = record { bytes = b; lines = h; readable = λ e. cc; within = w };
    skip_is = refl;
    summary_is = refl;
  }

  pub add_full_message-Leaves :
      (key : Text) (m : Message) (l : Bytes) (now : ℕ) (f : Files) (ls : List Bytes)
      → c.marshal m ≡ some l
      → too_long l ≡ false
      → Clean c f ls
      → Leaves c
          (add_full_message c key m now no_fault f)
          (ls ++ l ∷ [])
          (skip_of f.meta)
          (summary_of f.meta)
  unfolding add_full_message
  add_full_message-Leaves key m l now f ls e short k =
      let g : Files = record f { jsonl = some (bytes_of f.jsonl ++ (l ++ 10 ∷ [])) } in
      let (meta, em, es, eu) = read_meta-readable key g k.readable in
      rw (e, add_full_message)
        (rw (em, ← es, ← eu)
          (write_meta-Leaves _ _ (ls ++ l ∷ []) (rw (k.bytes) (sym (unlines-append ls l)))
            (All-append (IsMessageLine c) ls (l ∷ []) k.lines ((m, e, short), tt))
            (let w = k.within in omega (arith, length-append ls (l ∷ [])))))

  pub set_summary-Leaves :
      (key summary : Text) (now : ℕ) (f : Files) (ls : List Bytes)
      → Clean c f ls
      → Leaves c (set_summary key summary now no_fault f) ls (skip_of f.meta) summary
  unfolding set_summary
  set_summary-Leaves key summary now f ls k =
      let (meta, em, es, eu) = read_meta-readable key f k.readable in
      rw (em, ← es) (write_meta-Leaves _ f ls k.bytes k.lines (let w = k.within in omega arith))

  new_skip-le : (keep : ℤ) (skip count : ℕ) → skip ≤ count → new_skip keep skip count ≤ count
  unfolding new_skip
  new_skip-le (pos n) skip count h = ground arith
  new_skip-le (negsuc n) skip count h = omega arith

  pub truncate_history-Leaves :
      (key : Text) (keep : ℤ) (now : ℕ) (f : Files) (ls : List Bytes)
      → Clean c f ls
      → Leaves c
          (truncate_history key keep now no_fault f)
          ls
          (new_skip keep (skip_of f.meta) (length ls))
          (summary_of f.meta)
  unfolding truncate_history
  truncate_history-Leaves key keep now f ls k =
      let (meta, em, es, eu) = read_meta-readable key f k.readable in
      rw (em, count_lines-clean c f.jsonl ls k.bytes k.lines, ← es, ← eu)
        (write_meta-Leaves _ f ls k.bytes k.lines
          (new_skip-le keep meta.skip (length ls) (let w = k.within in omega arith)))

  rewrite-Leaves :
      (m : Meta) (f : Files) (ms : List Message) (ls : List Bytes)
      → Encoded c ms ls
      → m.skip ≡ 0
      → Leaves c (then_rewrite c no_fault ms (write_meta no_fault m f)) ls 0 m.summary
  unfolding write_meta then_rewrite rewrite_jsonl
  rewrite-Leaves m f ms ls e z = rw (encode_all-Encoded ms ls e) (record {
    done = refl;
    clean = record {
      bytes = refl;
      lines = Encoded-lines ms ls e;
      readable = λ e. cc;
      within = omega arith;
    };
    skip_is = z;
    summary_is = refl;
  })

  pub set_history-Leaves :
      (key : Text) (ms : List Message) (now : ℕ) (f : Files) (ls : List Bytes)
      → f.meta ≢ corrupt
      → Encoded c ms ls
      → Leaves c (set_history c key ms now no_fault f) ls 0 (summary_of f.meta)
  unfolding set_history
  set_history-Leaves key ms now f ls r e =
      let (meta, em, es, eu) = read_meta-readable key f r in
      rw (em, ← eu) (rewrite-Leaves _ f ms ls e refl)

  compact_none-Leaves :
      (f : Files) (ls : List Bytes)
      → Clean c f ls
      → skip_of f.meta ≡ 0
      → Leaves c (f, none) (drop (skip_of f.meta) ls) 0 (summary_of f.meta)
  compact_none-Leaves f ls k z = record {
    done = refl;
    clean = rw (ap (λ n. drop n ls) z) k;
    skip_is = z;
    summary_is = refl;
  }

  compact_to-Leaves :
      (m : Meta) (now : ℕ) (f : Files) (ls : List Bytes)
      → Clean c f ls
      → Leaves c
          (compact_to c now no_fault m (read_messages c f.jsonl m.skip) f)
          (drop m.skip ls)
          0
          m.summary
  unfolding compact_to
  compact_to-Leaves m now f ls k =
      rw (read_messages-clean c f.jsonl ls m.skip k.bytes k.lines, compact_to)
        (rewrite-Leaves _ f _ (drop m.skip ls)
          (Encoded-decode_all (drop m.skip ls) (All-drop (IsMessageLine c) m.skip ls k.lines)) refl)

  pub compact-Leaves :
      (key : Text) (now : ℕ) (f : Files) (ls : List Bytes)
      → Clean c f ls
      → Leaves c (compact c key now no_fault f) (drop (skip_of f.meta) ls) 0 (summary_of f.meta)
  unfolding compact
  compact-Leaves key now f ls k =
      let (meta, em, es, eu) = read_meta-readable key f k.readable in
      elim (Bool-cases (meta.skip == 0)) [
        | inl z ↦ rw (em, z) (compact_none-Leaves f ls k (ground arith))
        | inr p ↦ rw (em, p, ← es, ← eu) (compact_to-Leaves meta now f ls k)
      ]
