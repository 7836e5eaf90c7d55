-- ===== src/Memory/Store/Session.antt =====
-- The two files of a session as a conversation: what the operations mean, and that the files
-- implement it over every history of operations that are not interrupted.
use halfmoon.Base.{
  ℕ, zero, suc, ◌+◌, ◌-◌, ◌≤◌, ◌<◌, ◌≡◌, refl, ap, sym, ◌∙◌, inl, inr, false, some, List, [], ◌∷◌,
  ◌++◌, map, arith, ltb, if◌then◌else◌, length, length-drop, All, All-drop, ap₂, drop, drop-all,
  drop-append, drop-drop, ◌==◌, Bool-cases,
}
use halfmoon.Base.Text.{Text}
use halfmoon.Base.Int.{ℤ, pos, negsuc}
use halfmoon.Protocol.{Message, stored}
use halfmoon.Memory.Lines.{Bytes, too_long, unlines}
use halfmoon.Memory.Codec.{Codec}
use halfmoon.Memory.Store.{
  Files, no_files, Written, ok, no_fault, add_full_message, set_summary, truncate_history, new_skip,
  set_history, compact, get_history, get_summary,
}
use halfmoon.Memory.Store.Clean.{
  IsMessageLine, skip_of, summary_of, Clean, decode_all, decode_all-append, decode_all-line,
  get_history-Clean, get_summary-Clean,
}
use halfmoon.Memory.Store.Keeps.{
  Encoded, Leaves, decode_all-Encoded, add_full_message-Leaves, set_summary-Leaves,
  truncate_history-Leaves, set_history-Leaves, compact-Leaves,
}

pub record Session : Type 0 where
  pub messages : List Message
  pub summary : Text

abbrev pub new_session : Session
new_session = record { messages = []; summary = [] }

pub data Op : Type 0 where
  adds : Message → Op
  summarizes : Text → Op
  truncates : ℤ → Op
  replaces : List Message → Op
  compacts : Op

-- The last k messages.
abbrev pub take_last {ℓ} : {A : Type ℓ} → ℕ → List A → List A
take_last k xs = drop (length xs - k) xs

abbrev pub kept {ℓ} : {A : Type ℓ} → ℤ → List A → List A
kept (negsuc k) xs = []
kept (pos k) xs = if k == 0 then [] else take_last k xs

-- What each operation means for the conversation.
unfoldable pub meaning : Op → Session → Session
meaning (adds m) s = record s { messages = s.messages ++ stored m ∷ [] }
meaning (summarizes t) s = record s { summary = t }
meaning (truncates keep) s = record s { messages = kept keep s.messages }
meaning (replaces ms) s = record s { messages = map stored ms }
meaning compacts s = s

unfoldable pub meanings : List (ℕ × Op) → Session → Session
meanings [] s = s
meanings ((now, op) ∷ ops) s = meanings ops (meaning op s)

module _ (c : Codec) (key : Text) where
  unfoldable pub perform : Op → ℕ → Files → Written
  perform (adds m) now f = add_full_message c key m now no_fault f
  perform (summarizes t) now f = set_summary key t now no_fault f
  perform (truncates keep) now f = truncate_history key keep now no_fault f
  perform (replaces ms) now f = set_history c key ms now no_fault f
  perform compacts now f = compact c key now no_fault f

  unfoldable pub performs : List (ℕ × Op) → Files → Files
  performs [] f = f
  performs ((now, op) ∷ ops) f = performs ops (perform op now f).0

-- The messages that the operation writes can be encoded, in lines that fit the scanner's buffer.
abbrev pub IsWritable : Codec → Op → Type 0
IsWritable c (adds m) = (l : Bytes) × (c.marshal m ≡ some l) × (too_long l ≡ false)
IsWritable c (summarizes t) = Unit
IsWritable c (truncates keep) = Unit
IsWritable c (replaces ms) = (ls : List Bytes) × Encoded c ms ls
IsWritable c compacts = Unit

pub record Represents (c : Codec) (f : Files) (s : Session) : Type 0 where
  pub lines : List Bytes
  pub clean : Clean c f lines
  pub messages_are : decode_all c (drop (skip_of f.meta) lines) ≡ s.messages
  pub summary_is : summary_of f.meta ≡ s.summary

module _ (c : Codec) where
  length-decode_all :
      (ls : List Bytes) → All (IsMessageLine c) ls → length (decode_all c ls) ≡ length ls
  unfolding decode_all
  length-decode_all [] h = refl
  length-decode_all (l ∷ ls) ((m, e, _), h) =
      rw (c.unmarshal-marshal m l e, decode_all) (ap suc (length-decode_all ls h))

  drop-decode_all :
      (n : ℕ) (ls : List Bytes)
      → All (IsMessageLine c) ls
      → drop n (decode_all c ls) ≡ decode_all c (drop n ls)
  unfolding decode_all
  drop-decode_all zero ls h = refl
  drop-decode_all (suc n) [] h = refl
  drop-decode_all (suc n) (l ∷ ls) ((m, e, _), h) =
      rw (c.unmarshal-marshal m l e, decode_all) (drop-decode_all n ls h)

  Represents-Leaves :
      (w : Written) (ls : List Bytes) (skip : ℕ) (summary : Text) (s : Session)
      → Leaves c w ls skip summary
      → decode_all c (drop skip ls) ≡ s.messages
      → summary ≡ s.summary
      → Represents c w.0 s
  Represents-Leaves w ls skip summary s k e e' = record {
    lines = ls;
    clean = k.clean;
    messages_are = rw (k.skip_is) e;
    summary_is = k.summary_is ∙ e';
  }

  all_dropped : (ls : List Bytes) → decode_all c (drop (length ls) ls) ≡ []
  unfolding decode_all
  all_dropped ls = ap (decode_all c) (drop-all (length ls) ls (omega arith))

  length-visible :
      (skip : ℕ) (ls : List Bytes)
      → All (IsMessageLine c) ls
      → length (decode_all c (drop skip ls)) ≡ length ls - skip
  length-visible skip ls h =
      length-decode_all (drop skip ls) (All-drop (IsMessageLine c) skip ls h) ∙ length-drop skip ls

  last_kept :
      (k skip : ℕ) (ls : List Bytes)
      → All (IsMessageLine c) ls
      → skip ≤ length ls
      → k < length ls - skip
      → decode_all c (drop (length ls - k) ls) ≡ take_last k (decode_all c (drop skip ls))
  last_kept k skip ls h w lt = rw (length-visible skip ls h) (
      ap (decode_all c) (
        ap (λ n. drop n ls)
          (let e : length ls - k ≡ skip + (length ls - skip - k) = omega arith in e)
        ∙ sym (drop-drop (length ls - skip - k) skip ls))
      ∙ sym (
          drop-decode_all (length ls - skip - k) (drop skip ls)
            (All-drop (IsMessageLine c) skip ls h)))

  none_dropped :
      (k skip : ℕ) (ls : List Bytes)
      → All (IsMessageLine c) ls
      → length ls - skip ≤ k
      → decode_all c (drop skip ls) ≡ take_last k (decode_all c (drop skip ls))
  none_dropped k skip ls h le =
      let e : 0 ≡ length (decode_all c (drop skip ls)) - k =
        omega (arith, length-visible skip ls h) in
      ap (λ n. drop n (decode_all c (drop skip ls))) e

  -- Dropping up to the new offset keeps the messages that the specification keeps.
  drop-new_skip :
      (keep : ℤ) (skip : ℕ) (ls : List Bytes)
      → All (IsMessageLine c) ls
      → skip ≤ length ls
      → decode_all c (drop (new_skip keep skip (length ls)) ls)
        ≡ kept keep (decode_all c (drop skip ls))
  unfolding new_skip
  drop-new_skip (negsuc k) skip ls h w = all_dropped ls
  drop-new_skip (pos k) skip ls h w = elim (Bool-cases (k == 0)) [
    | inl z ↦ rw z (all_dropped ls)
    | inr p ↦ rw p (elim (Bool-cases (ltb k (length ls - skip))) [
      | inl more ↦ rw more (last_kept k skip ls h w (ground arith))
      | inr less ↦ rw less (none_dropped k skip ls h (ground arith))
    ])
  ]

  pub perform-Represents :
      (key : Text) (op : Op) (now : ℕ) (f : Files) (s : Session)
      → IsWritable c op
      → Represents c f s
      → Represents c (perform c key op now f).0 (meaning op s)
  unfolding perform meaning
  perform-Represents key (adds m) now f s (l, e, short) r =
      Represents-Leaves _ _ _ _ _ (add_full_message-Leaves c key m l now f r.lines e short r.clean)
        (ap (decode_all c) (drop-append (skip_of f.meta) r.lines (l ∷ []) r.clean.within)
          ∙ decode_all-append c (drop (skip_of f.meta) r.lines) (l ∷ [])
          ∙ ap₂ (◌++◌) r.messages_are (decode_all-line c m l e))
        r.summary_is
  perform-Represents key (summarizes t) now f s _ r =
      Represents-Leaves _ r.lines _ _ _ (set_summary-Leaves c key t now f r.lines r.clean)
        r.messages_are refl
  perform-Represents key (truncates keep) now f s _ r =
      Represents-Leaves _ r.lines _ _ _ (truncate_history-Leaves c key keep now f r.lines r.clean)
        (drop-new_skip keep (skip_of f.meta) r.lines r.clean.lines r.clean.within
          ∙ ap (kept keep) r.messages_are)
        r.summary_is
  perform-Represents key (replaces ms) now f s (ls, e) r =
      Represents-Leaves _ ls _ _ _ (set_history-Leaves c key ms now f ls r.clean.readable e)
        (decode_all-Encoded c ms ls e) r.summary_is
  perform-Represents key compacts now f s _ r =
      Represents-Leaves _ _ _ _ s (compact-Leaves c key now f r.lines r.clean) r.messages_are
        r.summary_is

  performs-Represents :
      (key : Text) (ops : List (ℕ × Op)) (f : Files) (s : Session)
      → All (λ o. IsWritable c o.1) ops
      → Represents c f s
      → Represents c (performs c key ops f) (meanings ops s)
  unfolding performs meanings
  performs-Represents key [] f s h r = r
  performs-Represents key ((now, op) ∷ ops) f s h r =
      performs-Represents key ops (perform c key op now f).0 (meaning op s) h.1
        (perform-Represents key op now f s h.0 r)

  no_files-Represents : Represents c no_files new_session
  unfolding decode_all
  no_files-Represents = record {
    lines = [];
    clean = record {
      bytes = unfold unlines in refl;
      lines = tt;
      readable = λ e. cc;
      within = omega arith;
    };
    messages_are = refl;
    summary_is = refl;
  }

  -- Over every history of operations on a new session, the files read back as the conversation that
  -- the operations mean: each added message at the end, the last messages after a truncation, the
  -- whole list after a replacement, and the last summary. Compaction changes nothing. A message is
  -- read back in its stored form, without the fields that JSON leaves out. The messages must be
  -- encodable in lines that fit the scanner, and no operation may be interrupted.
  pub get_history-performs :
      (key : Text) (ops : List (ℕ × Op))
      → All (λ o. IsWritable c o.1) ops
      → (get_history c key (performs c key ops no_files) ≡ ok (meanings ops new_session).messages)
        × (get_summary key (performs c key ops no_files) ≡ ok (meanings ops new_session).summary)
  get_history-performs key ops h =
      let r = performs-Represents key ops no_files new_session h no_files-Represents in
      (
        get_history-Clean c key _ r.lines r.clean ∙ ap ok r.messages_are,
        get_summary-Clean c key _ r.lines r.clean ∙ ap ok r.summary_is,
      )
