-- ===== src/Session/Backends.antt =====
-- The two implementations of pkg/session/session_store.go: the manager in memory keeps the same
-- conversation as the files of pkg/memory.
use halfmoon.Base.{
  ℕ, ◌-◌, ◌≡◌, refl, ap, ap₂, sym, ◌∙◌, inl, inr, none, some, List, [], ◌∷◌, ◌++◌, map, arith, leb,
  length, All, drop, ◌==◌, Bool-cases,
}
use halfmoon.Base.Text.{Text, text_dec}
use halfmoon.Base.Int.{ℤ, pos, negsuc}
use halfmoon.Base.Assoc.{lookup-insert_self}
use halfmoon.Protocol.{stored}
use halfmoon.Memory.Codec.{Codec}
use halfmoon.Memory.Store as Jsonl
use halfmoon.Memory.Store.{no_files, ok}
use halfmoon.Memory.Store.Session as Conversation
use halfmoon.Memory.Store.Session.{
  Op, adds, summarizes, truncates, replaces, compacts, meaning, meanings, kept, take_last,
  new_session, IsWritable, performs, get_history-performs,
}
use halfmoon.Session.{
  SessionManager, Session, find, put, cut_session, get_or_create, add_full_message, get_history,
  get_summary, set_summary, truncate_history, set_history,
}

-- The calls of the interface on a session of the manager; Save does not change it.
unfoldable pub perform : Text → Op → ℕ → SessionManager → SessionManager
perform key (adds m) now sm = add_full_message sm key m now
perform key (summarizes t) now sm = set_summary sm key t now
perform key (truncates keep) now sm = truncate_history sm key keep now
perform key (replaces ms) now sm = set_history sm key ms now
perform key compacts now sm = sm

unfoldable pub perform_all : Text → List (ℕ × Op) → SessionManager → SessionManager
perform_all key [] sm = sm
perform_all key ((now, op) ∷ ops) sm = perform_all key ops (perform key op now sm)

-- The messages of the operation have no field that its encoding leaves out.
abbrev pub IsPlain : Op → Type 0
IsPlain (adds m) = stored m ≡ m
IsPlain (summarizes t) = Unit
IsPlain (truncates keep) = Unit
IsPlain (replaces ms) = map stored ms ≡ ms
IsPlain compacts = Unit

record Shows (sm : SessionManager) (key : Text) (t : Conversation.Session) : Type 0 where
  pub session : Session
  pub found : find sm key ≡ some session
  pub messages_are : session.messages ≡ t.messages
  pub summary_is : session.summary ≡ t.summary

put-Shows :
    (sm : SessionManager) (key : Text) (s : Session) (t : Conversation.Session)
    → s.messages ≡ t.messages
    → s.summary ≡ t.summary
    → Shows (put sm key s) key t
unfolding put find
put-Shows sm key s t e e' = record {
  session = s;
  found = lookup-insert_self text_dec key s sm.sessions;
  messages_are = e;
  summary_is = e';
}

cut_session-messages :
    (keep : ℤ) (now : ℕ) (s : Session)
    → ((cut_session keep now s).messages ≡ kept keep s.messages)
      × ((cut_session keep now s).summary ≡ s.summary)
unfolding cut_session
cut_session-messages (negsuc k) now s = (refl, refl)
cut_session-messages (pos k) now s = elim (Bool-cases (k == 0)) [
  | inl z ↦ rw z (refl, refl)
  | inr p ↦ rw p (elim (Bool-cases (leb (length s.messages) k)) [
    | inl few ↦
        let e : 0 ≡ length s.messages - k = ground arith in
        rw few (ap (λ n. drop n s.messages) e, refl)
    | inr many ↦ rw many (refl, refl)
  ])
]

perform-Shows :
    (key : Text) (op : Op) (now : ℕ) (sm : SessionManager) (t : Conversation.Session)
    → IsPlain op
    → Shows sm key t
    → Shows (perform key op now sm) key (meaning op t)
unfolding perform meaning add_full_message set_summary truncate_history set_history
perform-Shows key (adds m) now sm t p h =
    rw (h.found, add_full_message)
      (put-Shows sm key _ _ (ap₂ (◌++◌) h.messages_are (ap (λ x. x ∷ []) (sym p))) h.summary_is)
perform-Shows key (summarizes u) now sm t p h =
    rw (h.found, set_summary) (put-Shows sm key _ _ h.messages_are refl)
perform-Shows key (truncates keep) now sm t p h =
    let (em, es) = cut_session-messages keep now h.session in
    rw (h.found, truncate_history)
      (put-Shows sm key _ _ (em ∙ ap (kept keep) h.messages_are) (es ∙ h.summary_is))
perform-Shows key (replaces ms) now sm t p h =
    rw (h.found, set_history) (put-Shows sm key _ _ (sym p) h.summary_is)
perform-Shows key compacts now sm t p h = h

perform_all-Shows :
    (key : Text) (ops : List (ℕ × Op)) (sm : SessionManager) (t : Conversation.Session)
    → All (λ o. IsPlain o.1) ops
    → Shows sm key t
    → Shows (perform_all key ops sm) key (meanings ops t)
unfolding perform_all meanings
perform_all-Shows key [] sm t p h = h
perform_all-Shows key ((now, op) ∷ ops) sm t p h =
    perform_all-Shows key ops (perform key op now sm) (meaning op t) p.1
      (perform-Shows key op now sm t p.0 h)

created-Shows :
    (key : Text) (now : ℕ) (sm : SessionManager)
    → find sm key ≡ none
    → Shows (get_or_create sm key now).0 key new_session
unfolding get_or_create
created-Shows key now sm e = rw (e, get_or_create) (put-Shows sm key _ _ refl refl)

get_history-Shows :
    (sm : SessionManager) (key : Text) (t : Conversation.Session)
    → Shows sm key t
    → (get_history sm key ≡ t.messages) × (get_summary sm key ≡ t.summary)
unfolding get_history get_summary
get_history-Shows sm key t h =
    (rw (h.found, get_history) h.messages_are, rw (h.found, get_summary) h.summary_is)

-- Over every history of calls on a session that was just created, the manager in memory and the
-- files give the same messages and the same summary: the same additions, truncations, replacements,
-- summaries and saves, where no message has a field that its encoding leaves out, every message fits
-- a line of the files, and no call is interrupted.
pub backends_agree :
    (c : Codec) (key : Text) (now : ℕ) (sm : SessionManager) (ops : List (ℕ × Op))
    → find sm key ≡ none
    → All (λ o. IsPlain o.1) ops
    → All (λ o. IsWritable c o.1) ops
    → let sm' = perform_all key ops (get_or_create sm key now).0 in
      let f = performs c key ops no_files in
      (Jsonl.get_history c key f ≡ ok (get_history sm' key))
      × (Jsonl.get_summary key f ≡ ok (get_summary sm' key))
backends_agree c key now sm ops e p w =
    let (h, s) = get_history-performs c key ops w in
    let (h', s') =
      get_history-Shows _ key _
        (perform_all-Shows key ops _ new_session p (created-Shows key now sm e)) in
    (h ∙ ap ok (sym h'), s ∙ ap ok (sym s'))
