-- ===== src/Memory/Tests.antt =====
-- Runs of pkg/memory/jsonl.go on concrete files, over an encoder of one message.
use halfmoon.Base.{
  ℕ, zero, suc, ◌<◌, ◌≡◌, ◌≢◌, refl, ap, sym, subst, ◌∙◌, true, false, Option, none, some, List, [],
  ◌∷◌, ◌++◌, arith, ltb, length, All, any, take, length-take, ite, map,
}
use halfmoon.Base.Text.{Text, text_dec, codes}
use halfmoon.Base.Int.{pos}
use halfmoon.Protocol.{stored_call, Message, ToolCall, ContentBlock, plain, stored}
use halfmoon.Memory.Lines.{
  Bytes, too_long, max_line_size, Printable, unlines, raw_lines, keep_lines, drop_cr,
}
use halfmoon.Memory.Codec.{Codec}
use halfmoon.Memory.Store.{
  Files, no_files, present, absent, no_fault, write_cut, rewrite_fails, line_too_long, ok, err,
  read_meta, read_messages, read_loop, add_full_message, get_history, get_summary, compact,
  set_history,
}
use halfmoon.Memory.Store.Clean.{Clean, decode_all}
use halfmoon.Memory.Store.Session.{
  Op, IsWritable, adds, truncates, replaces, compacts, summarizes, new_session, meanings, performs,
  get_history-performs,
}
use halfmoon.Memory.Store.Crash.{OldOrNew, get_history-add_full_message}
use halfmoon.Memory.Store.Crash.Lost.{add_full_message-lost, after_appends, get_history-too_long}
use halfmoon.Memory.Store.Rewrite.{compact_stopped, set_history_stopped}

abbrev pub greeting : Message
greeting = plain (codes "user") (codes "hi")

-- The message where the text is the greeting's and nothing else is set.
greets :
    Text → Text → List Text → Text → List ContentBlock → List ToolCall → Text → Bytes → Option Bytes
greets role content [] [] [] [] [] l =
    ite (text_dec role (codes "user")) (ite (text_dec content (codes "hi")) (some l) none) none
greets role content _ _ _ _ _ l = none

encode : Bytes → Message → Option Bytes
unfolding greets
encode l m =
    greets m.role m.content m.media m.reasoning_content m.system_parts m.tool_calls m.tool_call_id l

decode : Bytes → Bytes → Option Message
decode l t = ite (text_dec t l) (some greeting) none

greets-greeting :
    (role content : Text) (media : List Text) (reasoning : Text) (parts : List ContentBlock)
    (calls : List ToolCall) (id : Text) (l t : Bytes)
    → greets role content media reasoning parts calls id l ≡ some t
    → (◌≡◌ {A = Message}
        (record {
          role = role;
          content = content;
          media = media;
          reasoning_content = reasoning;
          system_parts = parts;
          tool_calls = calls;
          tool_call_id = id;
        })
        greeting)
      × (l ≡ t)
unfolding greets
greets-greeting role content [] [] [] [] [] l t e = elim (text_dec role (codes "user")) [
  | no p ↦ absurd (ground arith)
  | yes p ↦ elim (text_dec content (codes "hi")) [
    | no q ↦ absurd (ground arith)
    | yes q ↦ (cc, ground arith)
  ]
]
greets-greeting role content (x ∷ xs) reasoning parts calls id l t e = absurd (cc)
greets-greeting role content [] (x ∷ xs) parts calls id l t e = absurd (cc)
greets-greeting role content [] [] (x ∷ xs) calls id l t e = absurd (cc)
greets-greeting role content [] [] [] (x ∷ xs) id l t e = absurd (cc)
greets-greeting role content [] [] [] [] (x ∷ xs) l t e = absurd (cc)

encode-greeting : (l t : Bytes) (m : Message) → encode l m ≡ some t → (m ≡ greeting) × (l ≡ t)
unfolding encode
encode-greeting l t m e =
    greets-greeting m.role m.content m.media m.reasoning_content m.system_parts m.tool_calls
      m.tool_call_id l t e

greets-stored :
    (role content : Text) (media : List Text) (reasoning : Text) (parts : List ContentBlock)
    (calls : List ToolCall) (id : Text) (l : Bytes)
    → greets role content media reasoning parts (map stored_call calls) id l
      ≡ greets role content media reasoning parts calls id l
unfolding greets
greets-stored role content (x ∷ xs) reasoning parts calls id l = refl
greets-stored role content [] (x ∷ xs) parts calls id l = refl
greets-stored role content [] [] (x ∷ xs) calls id l = refl
greets-stored role content [] [] [] (x ∷ xs) id l = refl
greets-stored role content [] [] [] [] (x ∷ xs) l = refl
greets-stored role content [] [] [] [] [] l = refl

encode-stored : (l : Bytes) (m : Message) → encode l (stored m) ≡ encode l m
unfolding encode stored
encode-stored l m =
    greets-stored m.role m.content m.media m.reasoning_content m.system_parts m.tool_calls
      m.tool_call_id l

decode-itself : (l : Bytes) → decode l l ≡ some greeting
unfolding decode
decode-itself l = ground arith

decode-shorter : (l t : Bytes) → length t < length l → decode l t ≡ none
unfolding decode
decode-shorter l t h = elim (text_dec t l) [
  | yes p ↦ absurd (let e : length t ≡ length l = ap length p in omega arith)
  | no p ↦ ground arith
]

-- Every line can stand for the greeting.
greeting_codec : (l : Bytes) → Printable l → l ≢ [] → Codec
unfolding stored
greeting_codec l printable ne = record {
  marshal = encode l;
  unmarshal = decode l;
  marshal-Printable = λ m t e. subst Printable (encode-greeting l t m e).1 printable;
  marshal-ne = λ m t e. subst (λ x. x ≢ []) (encode-greeting l t m e).1 ne;
  unmarshal-marshal = λ m t e.
      let (is_greeting, same) = encode-greeting l t m e in
      subst (λ x. decode l x ≡ some (stored m)) same
        (decode-itself l ∙ ap (λ x. some (stored x)) (sym is_greeting));
  unmarshal-take = λ m t n e h.
      let same : t ≡ l = sym (encode-greeting l t m e).1 in
      decode-shorter l (take n t) (
        let long : length (take n t) ≡ n = length-take n t (omega arith) in
        let lengths : length t ≡ length l = ap length same in omega arith);
  marshal-stored = encode-stored l;
}

printable : (l : Bytes) → any (λ c. ltb c 32) l ≡ false → Printable l
printable [] e = tt
printable (c ∷ l) e = (ground arith, printable l (ground arith))

abbrev pub short_line : Bytes
short_line = codes "{\"role\":\"user\",\"content\":\"hi\"}"

-- Encodes the greeting as a short line.
pub codec : Codec
unfolding greeting_codec
codec = greeting_codec short_line (printable short_line refl) (λ e. cc)

pub marshal_greeting : codec.marshal greeting ≡ some short_line
unfolding codec encode greets text_dec
marshal_greeting = refl

abbrev key : Text
key = codes "cli:default"

-- A session that was added to twice, truncated to one message and added to again.
abbrev pub busy : List (ℕ × Op)
busy =
    (1, adds greeting)
    ∷ (2, adds greeting)
    ∷ (3, truncates (pos 1))
    ∷ (4, summarizes (codes "a greeting"))
    ∷ (5, compacts)
    ∷ (6, replaces (greeting ∷ greeting ∷ greeting ∷ []))
    ∷ (7, truncates (pos 2))
    ∷ (8, adds greeting)
    ∷ []

pub busy-IsWritable : All (λ o. IsWritable codec o.1) busy
busy-IsWritable =
    let adding : IsWritable codec (adds greeting) = (short_line, marshal_greeting, refl) in
    let replacing : IsWritable codec (replaces (greeting ∷ greeting ∷ greeting ∷ [])) = (
      short_line ∷ short_line ∷ short_line ∷ [],
      (marshal_greeting, refl, (marshal_greeting, refl, (marshal_greeting, refl, tt))),
    ) in
    (adding, (adding, (tt, (tt, (tt, (replacing, (tt, (adding, tt))))))))

get_history-performs_example :
    (get_history codec key (performs codec key busy no_files)
      ≡ ok (meanings busy new_session).messages)
    × (get_summary key (performs codec key busy no_files) ≡ ok (meanings busy new_session).summary)
get_history-performs_example = get_history-performs codec key busy busy-IsWritable

-- A session of one message, all of whose lines are counted.
abbrev one_message : Files
one_message = record { jsonl = some (short_line ++ 10 ∷ []); meta = absent }

one_message-Clean : Clean codec one_message (short_line ∷ [])
unfolding unlines
one_message-Clean = record {
  bytes = refl;
  lines = ((greeting, marshal_greeting, refl), tt);
  readable = λ e. cc;
  within = omega arith;
}

one_message-history : get_history codec key one_message ≡ ok (greeting ∷ [])
unfolding get_history read_meta read_messages raw_lines keep_lines drop_cr read_loop codec decode
    text_dec
one_message-history = refl

get_history-add_full_message_example :
    OldOrNew codec key
      (add_full_message codec key greeting 9 (write_cut 12) one_message)
      (greeting ∷ [])
      greeting
get_history-add_full_message_example =
    get_history-add_full_message codec key greeting short_line 9 (write_cut 12) one_message
      (short_line ∷ []) (greeting ∷ []) marshal_greeting refl one_message-Clean one_message-history

cut_decodes : codec.unmarshal (take 12 short_line ++ short_line) ≡ none
unfolding codec decode text_dec
cut_decodes = refl

add_full_message-lost_example :
    let cut = (add_full_message codec key greeting 9 (write_cut 12) one_message).0 in
    let next = add_full_message codec key greeting 10 no_fault cut in
    (next.1 ≡ none) × (get_history codec key next.0 ≡ get_history codec key one_message)
add_full_message-lost_example =
    add_full_message-lost codec key greeting greeting short_line short_line 9 10 12 one_message
      (short_line ∷ []) marshal_greeting marshal_greeting (omega arith) refl cut_decodes
      one_message-Clean

-- Two messages, of which the first is cut off.
abbrev cut_off : Files
cut_off = record {
  jsonl = some (short_line ++ 10 ∷ short_line ++ 10 ∷ []);
  meta = present (record {
    key = key;
    summary = [];
    skip = 1;
    count = 2;
    created_at = some 1;
    updated_at = some 3;
  });
}

cut_off-Clean : Clean codec cut_off (short_line ∷ short_line ∷ [])
unfolding unlines
cut_off-Clean = record {
  bytes = refl;
  lines = ((greeting, marshal_greeting, refl), ((greeting, marshal_greeting, refl), tt));
  readable = λ e. cc;
  within = omega arith;
}

cut_off-history : get_history codec key cut_off ≡ ok (greeting ∷ [])
unfolding get_history read_meta read_messages raw_lines keep_lines drop_cr read_loop codec decode
    text_dec
cut_off-history = refl

compact_stopped_example :
    let w = compact codec key 4 rewrite_fails cut_off in
    (w.1 ≢ none)
    × (get_history codec key w.0
        ≡ ok (decode_all codec (take 1 (short_line ∷ short_line ∷ [])) ++ greeting ∷ []))
    × (compact codec key 5 no_fault w.0 ≡ (w.0, none))
compact_stopped_example =
    compact_stopped codec key 4 5 cut_off (short_line ∷ short_line ∷ []) (greeting ∷ [])
      cut_off-Clean (λ e. cc) cut_off-history

set_history_stopped_example :
    let w = set_history codec key (greeting ∷ []) 4 rewrite_fails cut_off in
    (w.1 ≢ none)
    × (get_history codec key w.0
        ≡ ok (decode_all codec (take 1 (short_line ∷ short_line ∷ [])) ++ greeting ∷ []))
set_history_stopped_example =
    set_history_stopped codec key (greeting ∷ []) (short_line ∷ []) 4 cut_off
      (short_line ∷ short_line ∷ []) (greeting ∷ []) (marshal_greeting, refl, tt) cut_off-Clean
      cut_off-history

-- A line that fills the scanner's buffer.
replicate : ℕ → Bytes
replicate zero = []
replicate (suc n) = b'x' ∷ replicate n

length-replicate : (n : ℕ) → length (replicate n) ≡ n
unfolding replicate
length-replicate zero = refl
length-replicate (suc n) = ap suc (length-replicate n)

replicate-Printable : (n : ℕ) → Printable (replicate n)
unfolding replicate
replicate-Printable zero = tt
replicate-Printable (suc n) = (omega arith, replicate-Printable n)

long_line : Bytes
long_line = replicate max_line_size

long_line-too_long : too_long long_line ≡ true
unfolding long_line
long_line-too_long =
    let e : length (replicate max_line_size) ≡ max_line_size = length-replicate max_line_size in
    rw e refl

long_line-ne : long_line ≢ []
long_line-ne e =
    let n : length long_line ≡ max_line_size = unfold long_line in length-replicate max_line_size in
    let z : length long_line ≡ 0 = ap length e in absurd (omega arith)

long_codec : Codec
unfolding greeting_codec
long_codec =
    greeting_codec long_line (unfold long_line in replicate-Printable max_line_size) long_line-ne

marshal_long : long_codec.marshal greeting ≡ some long_line
unfolding long_codec encode greets text_dec
marshal_long = refl

no_files-Clean : Clean long_codec no_files []
unfolding unlines
no_files-Clean = record { bytes = refl; lines = tt; readable = λ e. cc; within = omega arith }

get_history-too_long_example :
    let w = add_full_message long_codec key greeting 1 no_fault no_files in
    (w.1 ≡ none)
    × (get_history long_codec key (after_appends long_codec key ((greeting, 2) ∷ []) w.0)
        ≡ err line_too_long)
get_history-too_long_example =
    get_history-too_long long_codec key greeting long_line 1 ((greeting, 2) ∷ []) no_files []
      marshal_long long_line-too_long no_files-Clean
