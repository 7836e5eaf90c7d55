-- ===== src/Session.antt =====
-- pkg/session/manager.go: the sessions in memory, by their keys.
pub mod Backends
mod Tests
use halfmoon.Base.{
  ℕ, ◌+◌, ◌-◌, Bool, true, false, ◌||◌, ite, Option, none, some, List, [], ◌∷◌, ◌++◌, leb,
  if◌then◌else◌, ◌==◌, length, drop, holds, map,
}
use halfmoon.Base.Text.{Text, text_dec, codes}
use halfmoon.Base.Int.{ℤ, pos, negsuc}
use halfmoon.Base.Assoc.{lookup, insert}
use halfmoon.Protocol.{Message, plain, stored}
use halfmoon.Memory.Keys.{replace_all}

pub record Session : Type 0 where
  pub key : Text
  pub messages : List Message
  pub summary : Text
  pub created : ℕ
  pub updated : Option ℕ

-- `storage` is the directory's files: saved sessions by file name; `none` where the manager has no
-- directory.
pub record SessionManager : Type 0 where
  pub sessions : List (Text × Session)
  pub storage : Option (List (Text × Session))

unfoldable pub find : SessionManager → Text → Option Session
find sm key = lookup text_dec key sm.sessions

put : SessionManager → Text → Session → SessionManager
put sm key s = record sm { sessions = insert text_dec key s sm.sessions }

unfoldable pub get_or_create : SessionManager → Text → ℕ → SessionManager × Session
unfolding find put
get_or_create sm key now = elim (find sm key) [
  | some s ↦ (sm, s)
  | none ↦
      let s : Session = record {
        key = key;
        messages = [];
        summary = [];
        created = now;
        updated = some now;
      } in
      (put sm key s, s)
]

append_to : Text → Message → ℕ → Option Session → Session
append_to key m now (some s) = record s { messages = s.messages ++ m ∷ []; updated = some now }
append_to key m now none = record {
  key = key;
  messages = m ∷ [];
  summary = [];
  created = now;
  updated = some now;
}

unfoldable pub add_full_message : SessionManager → Text → Message → ℕ → SessionManager
unfolding append_to find put
add_full_message sm key m now = put sm key (append_to key m now (find sm key))

unfoldable pub add_message : SessionManager → Text → Text → Text → ℕ → SessionManager
unfolding add_full_message
add_message sm key role content = add_full_message sm key (plain role content)

unfoldable pub get_history : SessionManager → Text → List Message
unfolding find
get_history sm key = elim (find sm key) [ none ↦ [] | some s ↦ s.messages ]

unfoldable pub get_summary : SessionManager → Text → Text
unfolding find
get_summary sm key = elim (find sm key) [ none ↦ [] | some s ↦ s.summary ]

unfoldable pub set_summary : SessionManager → Text → Text → ℕ → SessionManager
unfolding find put
set_summary sm key summary now = elim (find sm key) [
  | none ↦ sm
  | some s ↦ put sm key (record s { summary = summary; updated = some now })
]

-- TruncateHistory of a session that is there.
cut_session : ℤ → ℕ → Session → Session
cut_session (negsuc k) now s = record s { messages = []; updated = some now }
cut_session (pos k) now s =
    if k == 0
    then record s { messages = []; updated = some now }
    else if leb (length s.messages) k
    then s
    else record s { messages = drop (length s.messages - k) s.messages; updated = some now }

unfoldable pub truncate_history : SessionManager → Text → ℤ → ℕ → SessionManager
unfolding find put cut_session
truncate_history sm key keep now = elim (find sm key) [
  | none ↦ sm
  | some s ↦ put sm key (cut_session keep now s)
]

unfoldable pub set_history : SessionManager → Text → List Message → ℕ → SessionManager
unfolding find put
set_history sm key history now = elim (find sm key) [
  | none ↦ sm
  | some s ↦ put sm key (record s { messages = history; updated = some now })
]

unfoldable pub sanitize_filename : Text → Text
unfolding replace_all
sanitize_filename key = replace_all b'\\' b'_' (replace_all b'/' b'_' (replace_all b':' b'_' key))

-- filepath.IsLocal of a name with no separator, on Unix.
is_local : Text → Bool
is_local [] = false
is_local (c ∷ s) = if holds (text_dec (c ∷ s) (codes "..")) then false else true

unfoldable pub is_valid_name : Text → Bool
unfolding is_local
is_valid_name name = if holds (text_dec name (codes ".")) then false else is_local name

pub data SaveError : Type 0 where
  invalid_name write_failed : SaveError

-- A session as its file holds it.
unfoldable pub on_disk : Session → Session
on_disk s = record s { messages = map stored s.messages }

-- Save to the file of the sanitized key. `fails` is an error of the file system before the rename,
-- which leaves the directory as it was.
save_to : List (Text × Session) → SessionManager → Text → Bool → SessionManager × Option SaveError
unfolding find
save_to files sm key fails =
    if is_valid_name (sanitize_filename key)
    then (elim (find sm key) [
      | none ↦ (sm, none)
      | some s ↦ if fails then (sm, some write_failed) else (
        record sm { storage = some (insert text_dec (sanitize_filename key) (on_disk s) files) },
        none,
      )
    ])
    else (sm, some invalid_name)

unfoldable pub save : SessionManager → Text → Bool → SessionManager × Option SaveError
unfolding save_to
save sm key fails = elim sm.storage [ none ↦ (sm, none) | some files ↦ save_to files sm key fails ]

-- loadSessions over the decoded files of the directory, in the order that ReadDir gives them.
unfoldable pub load_sessions : List (Text × Session) → List (Text × Session) → List (Text × Session)
load_sessions [] sessions = sessions
load_sessions ((name, s) ∷ files) sessions = load_sessions files (insert text_dec s.key s sessions)

unfoldable pub new_session_manager : Option (List (Text × Session)) → SessionManager
unfolding load_sessions
new_session_manager none = record { sessions = []; storage = none }
new_session_manager (some files) = record {
  sessions = load_sessions files [];
  storage = some files;
}
