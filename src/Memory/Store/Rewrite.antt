-- ===== src/Memory/Store/Rewrite.antt =====
-- Compact and SetHistory write the metadata, then the file: what a stop between the two leaves.
use halfmoon.Base.{
  ℕ, zero, suc, ◌≡◌, ◌≢◌, refl, ap, ◌∙◌, true, false, none, some, List, [], ◌∷◌, ◌++◌, arith,
  length, All-drop, take, drop, ◌==◌,
}
use halfmoon.Base.Text.{Text}
use halfmoon.Protocol.{Message}
use halfmoon.Memory.Lines.{Bytes}
use halfmoon.Memory.Codec.{Codec}
use halfmoon.Memory.Store.{
  Files, Written, Meta, ok, Fault, no_fault, rewrite_fails, compact, compact_to, get_history,
  write_meta, then_rewrite, rewrite_jsonl, set_history, since,
}
use halfmoon.Memory.Store.Clean.{
  IsMessageLine, skip_of, Clean, decode_all, get_history-Clean, read_meta-readable,
  read_messages-clean,
}
use halfmoon.Memory.Store.Keeps.{Encoded, encode_all-Encoded, Encoded-decode_all}

-- The files after a stop between the two writes: all lines, and an offset of zero.
record IsStopped (c : Codec) (w : Written) (ls : List Bytes) : Type 0 where
  pub failed : w.1 ≢ none
  pub clean : Clean c w.0 ls
  pub whole : skip_of w.0.meta ≡ 0

module _ (c : Codec) where
  rewrite_fails-IsStopped :
      (m : Meta) (f : Files) (ms : List Message) (ns ls : List Bytes)
      → Encoded c ms ns
      → m.skip ≡ 0
      → Clean c f ls
      → IsStopped c (then_rewrite c rewrite_fails ms (write_meta rewrite_fails m f)) ls
  unfolding write_meta then_rewrite rewrite_jsonl
  rewrite_fails-IsStopped m f ms ns ls e z k = rw (encode_all-Encoded c ms ns e) (record {
    failed = λ x. cc;
    clean = record { bytes = k.bytes; lines = k.lines; readable = λ x. cc; within = omega arith };
    whole = z;
  })

  compact-IsStopped :
      (key : Text) (now : ℕ) (f : Files) (ls : List Bytes)
      → Clean c f ls
      → skip_of f.meta ≢ 0
      → IsStopped c (compact c key now rewrite_fails f) ls
  unfolding compact compact_to
  compact-IsStopped key now f ls k p =
      let (meta, em, es, _) = read_meta-readable key f k.readable in
      let skipped : (meta.skip == 0) ≡ false = ground arith in
      rw (em, skipped, read_messages-clean c f.jsonl ls meta.skip k.bytes k.lines, compact_to)
        (rewrite_fails-IsStopped _ f _ (drop meta.skip ls) ls
          (Encoded-decode_all c (drop meta.skip ls)
            (All-drop (IsMessageLine c) meta.skip ls k.lines))
          refl k)

  compact_nothing :
      (key : Text) (now : ℕ) (fault : Fault) (f : Files) (ls : List Bytes)
      → Clean c f ls
      → skip_of f.meta ≡ 0
      → compact c key now fault f ≡ (f, none)
  unfolding compact
  compact_nothing key now fault f ls k z =
      let (meta, em, es, _) = read_meta-readable key f k.readable in
      let at_start : (meta.skip == 0) ≡ true = ground arith in rw (em, at_start)

  history_whole :
      (key : Text) (f : Files) (ls : List Bytes)
      → Clean c f ls
      → skip_of f.meta ≡ 0
      → get_history c key f ≡ ok (decode_all c ls)
  history_whole key f ls k z =
      get_history-Clean c key f ls k ∙ ap (λ n. ok (decode_all c (drop n ls))) z

  take-drop :
      (n : ℕ) (ls : List Bytes)
      → decode_all c ls ≡ decode_all c (take n ls) ++ decode_all c (drop n ls)
  unfolding decode_all
  take-drop zero ls = refl
  take-drop (suc n) [] = refl
  take-drop (suc n) (l ∷ ls) = ground (arith, take-drop n ls)

  -- A compaction that stops between its two writes loses nothing: the history is the old one with
  -- the truncated messages in front of it again. A Compact with nothing in between finds an offset of
  -- zero, reports no error and leaves the files as they are.
  pub compact_stopped :
      (key : Text) (now later : ℕ) (f : Files) (ls : List Bytes) (ms : List Message)
      → Clean c f ls
      → skip_of f.meta ≢ 0
      → get_history c key f ≡ ok ms
      → let w = compact c key now rewrite_fails f in
        (w.1 ≢ none)
        × (get_history c key w.0 ≡ ok (decode_all c (take (skip_of f.meta) ls) ++ ms))
        × (compact c key later no_fault w.0 ≡ (w.0, none))
  compact_stopped key now later f ls ms k p b =
      let s = compact-IsStopped key now f ls k p in
      (
        s.failed,
        history_whole key _ ls s.clean s.whole
            ∙ ap ok (
                take-drop (skip_of f.meta) ls
                ∙ ap (◌++◌ (decode_all c (take (skip_of f.meta) ls))) same_history),
        compact_nothing key later no_fault _ ls s.clean s.whole,
      )
    where
      same_history : decode_all c (drop (skip_of f.meta) ls) ≡ ms
      same_history = let r = get_history-Clean c key f ls k in cc

  -- A replacement that stops between its two writes loses nothing either: the history is every
  -- message that the file still holds.
  pub set_history_stopped :
      (key : Text) (ns : List Message) (n_lines : List Bytes) (now : ℕ) (f : Files)
      (ls : List Bytes) (ms : List Message)
      → Encoded c ns n_lines
      → Clean c f ls
      → get_history c key f ≡ ok ms
      → let w = set_history c key ns now rewrite_fails f in
        (w.1 ≢ none) × (get_history c key w.0 ≡ ok (decode_all c (take (skip_of f.meta) ls) ++ ms))
  unfolding set_history
  set_history_stopped key ns n_lines now f ls ms e k b =
      let (meta, em, es, _) = read_meta-readable key f k.readable in
      let s = rewrite_fails-IsStopped (replaced meta) f ns n_lines ls e refl k in
      rw em (
        s.failed,
        history_whole key _ ls s.clean s.whole
            ∙ ap ok (
                take-drop (skip_of f.meta) ls
                ∙ ap (◌++◌ (decode_all c (take (skip_of f.meta) ls))) same_history),
      )
    where
      same_history : decode_all c (drop (skip_of f.meta) ls) ≡ ms
      same_history = let r = get_history-Clean c key f ls k in cc

      replaced : Meta → Meta
      replaced m = record m {
        created_at = since m.created_at now;
        skip = 0;
        count = length ns;
        updated_at = some now;
      }
