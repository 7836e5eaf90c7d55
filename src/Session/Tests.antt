-- ===== src/Session/Tests.antt =====
-- Runs of pkg/session on concrete calls.
use halfmoon.Base.{◌≡◌, refl, none, All}
use halfmoon.Base.Text.{Text, codes}
use halfmoon.Base.Assoc.{lookup}
use halfmoon.Memory.Store as Jsonl
use halfmoon.Memory.Store.{no_files, ok}
use halfmoon.Memory.Store.Session.{performs}
use halfmoon.Memory.Tests.{codec, busy, busy-IsWritable}
use halfmoon.Protocol.{stored}
use halfmoon.Session.{
  SessionManager, new_session_manager, find, get_or_create, get_history, get_summary,
}
use halfmoon.Session.Backends.{perform_all, IsPlain, backends_agree}

abbrev key : Text
key = codes "cli:default"

abbrev manager : SessionManager
manager = new_session_manager none

manager-empty : find manager key ≡ none
unfolding new_session_manager find lookup
manager-empty = refl

busy-IsPlain : All (λ o. IsPlain o.1) busy
unfolding stored
busy-IsPlain = (refl, (refl, (tt, (tt, (tt, (refl, (tt, (refl, tt))))))))

backends_agree_example :
    let sm' = perform_all key busy (get_or_create manager key 1).0 in
    let f = performs codec key busy no_files in
    (Jsonl.get_history codec key f ≡ ok (get_history sm' key))
    × (Jsonl.get_summary key f ≡ ok (get_summary sm' key))
backends_agree_example =
    backends_agree codec key 1 manager busy manager-empty busy-IsPlain busy-IsWritable
