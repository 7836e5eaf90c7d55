-- ===== src/Memory/Codec.antt =====
-- encoding/json over a message, as pkg/memory/jsonl.go uses it: the calls json.Marshal and
-- json.Unmarshal with what encoding/json documents of them.
use halfmoon.Base.{◌≡◌, ◌≢◌, ℕ, ◌<◌, Option, none, some, [], length, take}
use halfmoon.Protocol.{Message, stored}
use halfmoon.Memory.Lines.{Bytes, Printable}

-- A line is one JSON object: it has no control characters, does not show the fields that have no
-- JSON name, reads back as the message without these, and no proper prefix of it is a JSON value.
pub record Codec : Type 0 where
  pub marshal : Message → Option Bytes
  pub unmarshal : Bytes → Option Message
  pub marshal-Printable : (m : Message) (l : Bytes) → marshal m ≡ some l → Printable l
  pub marshal-ne : (m : Message) (l : Bytes) → marshal m ≡ some l → l ≢ []
  pub unmarshal-marshal :
      (m : Message) (l : Bytes) → marshal m ≡ some l → unmarshal l ≡ some (stored m)
  pub unmarshal-take :
      (m : Message) (l : Bytes) (n : ℕ)
      → marshal m ≡ some l
      → n < length l
      → unmarshal (take n l) ≡ none
  pub marshal-stored : (m : Message) → marshal (stored m) ≡ marshal m
