-- ===== src/Memory/Store/Crash/Lost.antt =====
-- Two ways in which an append that reports no error does not reach the reader.
use halfmoon.Base.{
  Bool, Option, ◌||◌, any, append-nil, subst, ℕ, ◌≤◌, ◌<◌, ◌≡◌, ◌≢◌, refl, ap, sym, ◌∙◌, true,
  false, none, some, List, [], ◌∷◌, ◌++◌, append_assoc, arith, length, All, All-append, take, drop,
}
use halfmoon.Base.Text.{Text}
use halfmoon.Protocol.{Message}
use halfmoon.Memory.Lines.{
  Bytes, too_long, raw_lines, unlines, unlines-append, Printable, IsLine, raw_lines-unlines,
  any-append,
}
use halfmoon.Memory.Codec.{Codec}
use halfmoon.Memory.Store.{
  corrupt, Files, ok, err, line_too_long, bytes_of, no_fault, write_cut, read_messages,
  add_full_message, add_line, get_history, write_meta,
}
use halfmoon.Memory.Store.Clean.{
  IsMessageLine, skip_of, Clean, decode_all, get_history-Clean, read_meta-readable, All-Printable,
}
use halfmoon.Memory.Store.Crash.{
  Printable-take, take-append, append-ne, read_messages-tail, decode_all-tail_none, with_jsonl,
  raw_lines-ended,
}

or_true : (b : Bool) → (b || true) ≡ true
or_true true = refl
or_true false = refl

module _ (c : Codec) where
  get_history-readable :
      (key : Text) (f : Files)
      → f.meta ≢ corrupt
      → get_history c key f ≡ read_messages c f.jsonl (skip_of f.meta)
  unfolding get_history
  get_history-readable key f h = let (m, em, es, _) = read_meta-readable key f h in rw (em, es)

  cut_jsonl :
      (key : Text) (m : Message) (l : Bytes) (now n : ℕ) (f : Files)
      → c.marshal m ≡ some l
      → (add_full_message c key m now (write_cut n) f).0
        ≡ with_jsonl c f (bytes_of f.jsonl ++ take n (l ++ 10 ∷ []))
  unfolding add_full_message
  cut_jsonl key m l now n f e = rw (e, add_full_message)

  -- An append whose metadata can be read succeeds, whatever stands in the file.
  append_readable :
      (key : Text) (m : Message) (l : Bytes) (now : ℕ) (f : Files)
      → c.marshal m ≡ some l
      → f.meta ≢ corrupt
      → let w = add_full_message c key m now no_fault f in
        (w.1 ≡ none)
        × (w.0.jsonl ≡ some (bytes_of f.jsonl ++ (l ++ 10 ∷ [])))
        × (skip_of w.0.meta ≡ skip_of f.meta)
        × (w.0.meta ≢ corrupt)
  unfolding add_full_message write_meta
  append_readable key m l now f e h =
      let g : Files = with_jsonl c f (bytes_of f.jsonl ++ (l ++ 10 ∷ [])) in
      let (meta, em, es, _) = read_meta-readable key g h in
      rw (e, add_full_message) (rw (em, add_line) (refl, refl, es, λ z. cc))

  part_ended :
      (ls : List Bytes) (p l : Bytes) (skip : ℕ)
      → All (IsMessageLine c) ls
      → Printable p
      → Printable l
      → l ≢ []
      → too_long (p ++ l) ≡ false
      → read_messages c (some (unlines ls ++ (p ++ (l ++ 10 ∷ [])))) skip
        ≡ ok (decode_all c (drop skip (ls ++ (p ++ l) ∷ [])))
  part_ended ls p l skip h hp hl ne short =
      let line : IsLine (p ++ l) = (All-append (λ b. 32 ≤ b) p l hp hl, append-ne p l ne) in
      rw (← append_assoc p l) (
        read_messages-tail c ls (p ++ l ++ 10 ∷ []) (p ++ l) skip h line short
          (raw_lines-ended c (p ++ l) line))

  -- An append that was cut inside its line leaves a part with no line feed. The next append is
  -- written behind that part: it reports no error, and its message is lost with the part, unless
  -- the two together happen to decode. The two together must fit the scanner's buffer.
  pub add_full_message-lost :
      (key : Text) (m m' : Message) (l l' : Bytes) (now later n : ℕ) (f : Files) (ls : List Bytes)
      → c.marshal m ≡ some l
      → c.marshal m' ≡ some l'
      → n < length l
      → too_long (take n l ++ l') ≡ false
      → c.unmarshal (take n l ++ l') ≡ none
      → Clean c f ls
      → let cut = (add_full_message c key m now (write_cut n) f).0 in
        let next = add_full_message c key m' later no_fault cut in
        (next.1 ≡ none) × (get_history c key next.0 ≡ get_history c key f)
  add_full_message-lost key m m' l l' now later n f ls e e' lt short lost k =
      let g : Files = with_jsonl c f (bytes_of f.jsonl ++ take n (l ++ 10 ∷ [])) in
      let (done, grown, at, sound) = append_readable key m' l' later g e' k.readable in
      rw (cut_jsonl key m l now n f e) (
        done,
        get_history-readable key _ sound
            ∙ rw (grown, at, take-append n l (10 ∷ []) (omega arith), k.bytes, append_assoc)
                (part_ended ls (take n l) l' (skip_of f.meta) k.lines
                  (Printable-take n l (c.marshal-Printable m l e)) (c.marshal-Printable m' l' e')
                  (c.marshal-ne m' l' e') short)
            ∙ ap ok (decode_all-tail_none c (skip_of f.meta) ls (take n l ++ l') k.within lost)
            ∙ sym (get_history-Clean c key f ls k),
      )

  -- A file of whole lines of which one does not fit the buffer, with metadata that can be read.
  record Stuck (f : Files) : Type 0 where
    pub ls : List Bytes
    pub bytes : f.jsonl ≡ some (unlines ls)
    pub printable : All Printable ls
    pub long : any too_long ls ≡ true
    pub readable : f.meta ≢ corrupt

  Stuck-unreadable : (key : Text) (f : Files) → Stuck f → get_history c key f ≡ err line_too_long
  Stuck-unreadable key f k =
      get_history-readable key f k.readable
      ∙ ap (λ t. read_messages c t (skip_of f.meta)) k.bytes
      ∙ unfold read_messages in rw (whole, k.long) refl
    where
      whole : raw_lines (unlines k.ls) ≡ k.ls
      whole =
          ap raw_lines (sym (append-nil (unlines k.ls)))
          ∙ raw_lines-unlines k.ls [] k.printable
          ∙ unfold raw_lines in append-nil k.ls

  any_front :
      (ls : List Bytes) (l : Bytes) → any too_long ls ≡ true → any too_long (ls ++ l ∷ []) ≡ true
  any_front ls l h = any-append too_long ls (l ∷ []) ∙ ap (λ b. b || (too_long l || false)) h

  Stuck-append :
      (key : Text) (m : Message) (now : ℕ) (f : Files)
      → Stuck f
      → Stuck (add_full_message c key m now no_fault f).0
  unfolding add_full_message
  Stuck-append key m now f k = go (c.marshal m) refl
    where
      same : c.marshal m ≡ none → f ≡ (add_full_message c key m now no_fault f).0
      same e = rw (e, add_full_message) refl

      go : (o : Option Bytes) → c.marshal m ≡ o → Stuck (add_full_message c key m now no_fault f).0
      go none e = subst Stuck (same e) k
      go (some l) e =
          let (done, grown, at, sound) = append_readable key m l now f e k.readable in
          record {
            ls = k.ls ++ l ∷ [];
            bytes =
                grown
                ∙ ap (λ t. some (bytes_of t ++ (l ++ 10 ∷ []))) k.bytes
                ∙ ap some (sym (unlines-append k.ls l));
            printable =
                All-append Printable k.ls (l ∷ []) k.printable (c.marshal-Printable m l e, tt);
            long = any_front k.ls l k.long;
            readable = sound;
          }

  -- The files after appends of these messages at these times, with no fault.
  unfoldable pub after_appends : Text → List (Message × ℕ) → Files → Files
  after_appends key [] f = f
  after_appends key ((m, now) ∷ rest) f =
      after_appends key rest (add_full_message c key m now no_fault f).0

  Stuck-appends :
      (key : Text) (appends : List (Message × ℕ)) (f : Files)
      → Stuck f
      → Stuck (after_appends key appends f)
  unfolding after_appends
  Stuck-appends key [] f k = k
  Stuck-appends key ((m, now) ∷ rest) f k = Stuck-appends key rest _ (Stuck-append key m now f k)

  any_last : (ls : List Bytes) (l : Bytes) → too_long l ≡ true → any too_long (ls ++ l ∷ []) ≡ true
  any_last [] l h = ap (λ b. b || false) h
  any_last (k ∷ ls) l h = ap (λ b. too_long k || b) (any_last ls l h) ∙ or_true (too_long k)

  -- A message whose line does not fit the scanner's buffer is appended with no error. After that, and
  -- after any further appends, the history cannot be read.
  pub get_history-too_long :
      (key : Text) (m : Message) (l : Bytes) (now : ℕ) (appends : List (Message × ℕ)) (f : Files)
      (ls : List Bytes)
      → c.marshal m ≡ some l
      → too_long l ≡ true
      → Clean c f ls
      → let w = add_full_message c key m now no_fault f in
        (w.1 ≡ none) × (get_history c key (after_appends key appends w.0) ≡ err line_too_long)
  get_history-too_long key m l now appends f ls e long k =
      let (done, grown, at, sound) = append_readable key m l now f e k.readable in
      (
        done,
        Stuck-unreadable key _ (
            Stuck-appends key appends _ (record {
              ls = ls ++ l ∷ [];
              bytes =
                  grown
                  ∙ ap (λ t. some (t ++ (l ++ 10 ∷ []))) k.bytes
                  ∙ ap some (sym (unlines-append ls l));
              printable =
                  All-append Printable ls (l ∷ []) (All-Printable c ls k.lines)
                    (c.marshal-Printable m l e, tt);
              long = any_last ls l long;
              readable = sound;
            })),
      )
