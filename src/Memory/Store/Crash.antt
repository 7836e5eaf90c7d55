-- ===== src/Memory/Store/Crash.antt =====
-- What an interrupted operation leaves behind, and what the next operation makes of it.
pub mod Lost
use halfmoon.Base.{
  ℕ, zero, suc, ◌-◌, ◌≤◌, ◌<◌, ◌≡◌, ◌≢◌, ◌⊎◌, refl, ap, sym, subst, ◌∙◌, inl, inr, true, false,
  none, some, List, [], ◌∷◌, ◌++◌, append-nil, append_assoc, arith, length, length-append, All,
  All-append, take, take-all, length-take-le, drop, drop-append, dec_lt,
}
use halfmoon.Base.Text.{Text}
use halfmoon.Protocol.{Message, stored}
use halfmoon.Memory.Lines.{
  Bytes, too_long, unlines, Printable, IsLine, raw_lines, raw_lines-line, raw_lines-partial,
  raw_lines-unlines, keep_lines-All, any-append,
}
use halfmoon.Memory.Codec.{Codec}
use halfmoon.Memory.Store.{
  corrupt, Files, Written, Result, ok, err, line_too_long, bytes_of, Fault, no_fault, open_fails,
  sync_fails, close_fails, meta_fails, rewrite_fails, write_cut, read_messages, add_full_message,
  add_line, get_history, write_meta,
}
use halfmoon.Memory.Store.Keeps.{add_full_message-Leaves}
use halfmoon.Memory.Store.Clean.{
  IsMessageLine, skip_of, Clean, decode_all, decode_all-append, decode_all-line,
  read_loop-decode_all, get_history-Clean, read_meta-readable, short_lines, All-IsLine,
  All-Printable, IsMessageLine-IsLine, read_messages-clean,
}

pub Printable-take : (n : ℕ) (l : Bytes) → Printable l → Printable (take n l)
Printable-take zero l h = tt
Printable-take (suc n) [] h = tt
Printable-take (suc n) (c ∷ l) h = (h.0, Printable-take n l h.1)

pub take-append : (n : ℕ) (l t : Bytes) → n ≤ length l → take n (l ++ t) ≡ take n l
take-append zero l t h = refl
take-append (suc n) [] t h = absurd (omega arith)
take-append (suc n) (c ∷ l) t h = ap (◌∷◌ c) (take-append n l t (omega arith))

short-take : (n : ℕ) (l : Bytes) → too_long l ≡ false → too_long (take n l) ≡ false
short-take n l h = ground (arith, length-take-le n l)

pub append-ne : (p l : Bytes) → l ≢ [] → p ++ l ≢ []
append-ne [] l h = h
append-ne (b ∷ p) l h = λ e. cc

module _ (c : Codec) where
  -- One more line, ended or not, behind message lines.
  pub read_messages-tail :
      (ls : List Bytes) (t : Bytes) (l : Bytes) (skip : ℕ)
      → All (IsMessageLine c) ls
      → IsLine l
      → too_long l ≡ false
      → raw_lines t ≡ l ∷ []
      → read_messages c (some (unlines ls ++ t)) skip ≡ ok (decode_all c (drop skip (ls ++ l ∷ [])))
  unfolding read_messages
  read_messages-tail ls t l skip h il short e =
      rw
        (
          raw_lines-unlines ls t (All-Printable c ls h),
          e,
          any-append too_long ls (l ∷ []),
          short_lines c ls h,
          short,
          keep_lines-All (ls ++ l ∷ [])
              (All-append IsLine ls (l ∷ []) (All-IsLine c ls h) (il, tt)),
        )
        (ap ok (
          read_loop-decode_all c skip 0 (ls ++ l ∷ [])
          ∙ ap (λ k. decode_all c (drop k (ls ++ l ∷ [])))
              (let e' : skip - 0 ≡ skip = omega arith in e')))

  decode_all-none : (l : Bytes) → c.unmarshal l ≡ none → decode_all c (l ∷ []) ≡ []
  unfolding decode_all
  decode_all-none l e = rw (e, decode_all)

  pub decode_all-tail_none :
      (skip : ℕ) (ls : List Bytes) (l : Bytes)
      → skip ≤ length ls
      → c.unmarshal l ≡ none
      → decode_all c (drop skip (ls ++ l ∷ [])) ≡ decode_all c (drop skip ls)
  decode_all-tail_none skip ls l w e =
      rw
        (
          drop-append skip ls (l ∷ []) w,
          decode_all-append c (drop skip ls) (l ∷ []),
          decode_all-none l e,
        )
        (append-nil _)

  decode_all-tail :
      (skip : ℕ) (ls : List Bytes) (m : Message) (l : Bytes)
      → skip ≤ length ls
      → c.marshal m ≡ some l
      → decode_all c (drop skip (ls ++ l ∷ [])) ≡ decode_all c (drop skip ls) ++ stored m ∷ []
  decode_all-tail skip ls m l w e = rw (
    drop-append skip ls (l ∷ []) w,
    decode_all-append c (drop skip ls) (l ∷ []),
    decode_all-line c m l e,
  )

  -- The history that clean files show.
  abbrev pub history : Files → List Bytes → List Message
  history f ls = decode_all c (drop (skip_of f.meta) ls)

  abbrev pub with_jsonl : Files → Bytes → Files
  with_jsonl f t = record f { jsonl = some t }

  get_history-jsonl :
      (key : Text) (f : Files) (t : Bytes) (r : Result (List Message))
      → f.meta ≢ corrupt
      → read_messages c (some t) (skip_of f.meta) ≡ r
      → get_history c key (with_jsonl f t) ≡ r
  unfolding get_history
  get_history-jsonl key f t r h e =
      let (m, em, es, _) = read_meta-readable key (with_jsonl f t) h in rw (em, es) e

  -- The whole line is in the file, with its line feed or without.
  whole_line :
      (key : Text) (f : Files) (ls : List Bytes) (m : Message) (l t : Bytes)
      → Clean c f ls
      → c.marshal m ≡ some l
      → too_long l ≡ false
      → raw_lines t ≡ l ∷ []
      → get_history c key (with_jsonl f (bytes_of f.jsonl ++ t))
        ≡ ok (history f ls ++ stored m ∷ [])
  whole_line key f ls m l t k e short et = get_history-jsonl key f _ _ k.readable (
      rw k.bytes (
        read_messages-tail ls t l _ k.lines (IsMessageLine-IsLine c l (m, e, short)) short et
        ∙ ap ok (decode_all-tail _ ls m l k.within e)))

  raw_lines-IsLine : (l : Bytes) → IsLine l → raw_lines l ≡ l ∷ []
  raw_lines-IsLine [] h = absurd (h.1 refl)
  raw_lines-IsLine (d ∷ l) h = raw_lines-partial d l h.0

  pub raw_lines-ended : (l : Bytes) → IsLine l → raw_lines (l ++ 10 ∷ []) ≡ l ∷ []
  raw_lines-ended l h = raw_lines-line l [] h.0 ∙ unfold raw_lines in refl

  -- A part of the line, which does not decode.
  part_line :
      (key : Text) (f : Files) (ls : List Bytes) (p : Bytes)
      → Clean c f ls
      → Printable p
      → too_long p ≡ false
      → c.unmarshal p ≡ none
      → get_history c key (with_jsonl f (bytes_of f.jsonl ++ p)) ≡ ok (history f ls)
  part_line key f ls [] k h short e = get_history-jsonl key f _ _ k.readable (
      rw (append-nil (bytes_of f.jsonl))
        (read_messages-clean c (some (bytes_of f.jsonl)) ls _ k.bytes k.lines))
  part_line key f ls (d ∷ p) k h short e = get_history-jsonl key f _ _ k.readable (
      rw k.bytes (
        read_messages-tail ls (d ∷ p) (d ∷ p) _ k.lines (h, λ e. cc) short (raw_lines-partial d p h)
        ∙ ap ok (decode_all-tail_none _ ls (d ∷ p) k.within e)))

  cut_line :
      (key : Text) (f : Files) (ls : List Bytes) (m : Message) (l : Bytes) (n : ℕ)
      → Clean c f ls
      → c.marshal m ≡ some l
      → too_long l ≡ false
      → let h = get_history c key (with_jsonl f (bytes_of f.jsonl ++ take n (l ++ 10 ∷ []))) in
        (h ≡ ok (history f ls)) ⊎ (h ≡ ok (history f ls ++ stored m ∷ []))
  cut_line key f ls m l n k e short = elim (dec_lt n (length l)) [
    | yes lt ↦ inl (
        rw (take-append n l (10 ∷ []) (omega arith)) (
          part_line key f ls (take n l) k (Printable-take n l (c.marshal-Printable m l e))
            (short-take n l short) (c.unmarshal-take m l n e lt)))
    | no ge ↦ inr (whole_line key f ls m l _ k e short (whole ge))
  ]
    where
      line : IsLine l
      line = IsMessageLine-IsLine c l (m, e, short)

      whole : ¬ (n < length l) → raw_lines (take n (l ++ 10 ∷ [])) ≡ l ∷ []
      whole ge = elim (dec_lt (length l) n) [
        | yes gt ↦
            rw (take-all n (l ++ 10 ∷ []) (omega (arith, length-append l (10 ∷ []))))
              (raw_lines-ended l line)
        | no le ↦
            let e' : n ≡ length l = omega arith in
            rw (take-append n l (10 ∷ []) (omega arith), take-all n l (omega arith))
              (raw_lines-IsLine l line)
      ]

  -- The history after an append: as before, or with the new message at its end.
  abbrev pub OldOrNew : Text → Written → List Message → Message → Type 0
  OldOrNew key w ms m =
      ((get_history c key w.0 ≡ ok ms) × (w.1 ≢ none))
      ⊎ (get_history c key w.0 ≡ ok (ms ++ stored m ∷ []))

  added :
      (key : Text) (m : Message) (l : Bytes) (now : ℕ) (f : Files) (ls : List Bytes)
      → c.marshal m ≡ some l
      → too_long l ≡ false
      → Clean c f ls
      → get_history c key (add_full_message c key m now no_fault f).0
        ≡ ok (history f ls ++ stored m ∷ [])
  added key m l now f ls e short k =
      let r = add_full_message-Leaves c key m l now f ls e short k in
      get_history-Clean c key _ (ls ++ l ∷ []) r.clean
      ∙ ap (λ n. ok (decode_all c (drop n (ls ++ l ∷ [])))) r.skip_is
      ∙ ap ok (decode_all-tail _ ls m l k.within e)

  -- The append has no second file to write.
  same :
      (key : Text) (m : Message) (l : Bytes) (now : ℕ) (f : Files)
      → c.marshal m ≡ some l
      → add_full_message c key m now rewrite_fails f ≡ add_full_message c key m now no_fault f
  unfolding add_full_message write_meta
  same key m l now f e = rw (e, add_full_message)

  at_fault :
      (key : Text) (m : Message) (l : Bytes) (now : ℕ) (fault : Fault) (f : Files) (ls : List Bytes)
      → c.marshal m ≡ some l
      → too_long l ≡ false
      → Clean c f ls
      → OldOrNew key (add_full_message c key m now fault f) (history f ls) m
  unfolding add_full_message write_meta
  at_fault key m l now no_fault f ls e short k = inr (added key m l now f ls e short k)
  at_fault key m l now open_fails f ls e short k =
      rw (e, add_full_message) (inl (get_history-Clean c key f ls k, λ z. cc))
  at_fault key m l now sync_fails f ls e short k =
      rw (e, add_full_message)
        (inr (
          whole_line key f ls m l _ k e short
            (raw_lines-ended l (IsMessageLine-IsLine c l (m, e, short)))))
  at_fault key m l now close_fails f ls e short k =
      rw (e, add_full_message)
        (inr (
          whole_line key f ls m l _ k e short
            (raw_lines-ended l (IsMessageLine-IsLine c l (m, e, short)))))
  at_fault key m l now meta_fails f ls e short k =
      let g : Files = record f { jsonl = some (bytes_of f.jsonl ++ (l ++ 10 ∷ [])) } in
      let (meta, em, _, _) = read_meta-readable key g k.readable in
      rw (e, add_full_message)
        (rw (em, add_line)
          (inr (
            whole_line key f ls m l _ k e short
              (raw_lines-ended l (IsMessageLine-IsLine c l (m, e, short))))))
  at_fault key m l now rewrite_fails f ls e short k =
      inr (rw (same key m l now f e) (added key m l now f ls e short k))
  at_fault key m l now (write_cut n) f ls e short k =
      rw (e, add_full_message)
        (elim (cut_line key f ls m l n k e short) [ inl h ↦ inl (h, λ z. cc) | inr h ↦ inr h ])

  -- Wherever an append to clean files stops, by an error or by a crash, the history is the one before
  -- or that with the new message, in its stored form, at its end, and it is the second if the append
  -- reported no error.
  -- The message's line must fit the scanner's buffer.
  pub get_history-add_full_message :
      (key : Text) (m : Message) (l : Bytes) (now : ℕ) (fault : Fault) (f : Files) (ls : List Bytes)
      (ms : List Message)
      → c.marshal m ≡ some l
      → too_long l ≡ false
      → Clean c f ls
      → get_history c key f ≡ ok ms
      → OldOrNew key (add_full_message c key m now fault f) ms m
  get_history-add_full_message key m l now fault f ls ms e short k b =
      subst (λ x. OldOrNew key (add_full_message c key m now fault f) x m) same_history
        (at_fault key m l now fault f ls e short k)
    where
      same_history : history f ls ≡ ms
      same_history = let r = get_history-Clean c key f ls k in cc
