-- ===== src/Routing/SessionKey.antt =====
-- pkg/routing/session_key.go. The identity links are a list in the order in which the loop over Go's
-- map meets them.
pub mod Trimmed
pub mod RoundTrip
use halfmoon.Base.{
  Bool, true, false, ◌||◌, Option, none, some, List, [], ◌∷◌, ◌++◌, if◌then◌else◌, any, holds,
}
use halfmoon.Base.Text.{Text, text_dec, codes, to_lower, trim_space, cut, has_prefix}
use halfmoon.Routing.AgentId.{normalize_agent_id, normalize_account_id}

-- The four scopes, the empty text, and any other.
pub data DmScope : Type 0 where
  unset main per_peer per_channel_peer per_account_channel_peer unknown : DmScope

pub record RoutePeer : Type 0 where
  pub kind : Text
  pub id : Text

pub record SessionKeyParams : Type 0 where
  pub agent_id : Text
  pub channel : Text
  pub account_id : Text
  pub peer : Option RoutePeer
  pub dm_scope : DmScope
  pub identity_links : List (Text × List Text)

pub record ParsedSessionKey : Type 0 where
  pub agent_id : Text
  pub rest : Text

abbrev pub or_text : Text → Text → Text
or_text [] d = d
or_text (c ∷ s) d = c ∷ s

-- "agent:<id>:<rest>"
unfoldable pub agent_key : Text → Text → Text
agent_key id rest = codes "agent:" ++ (id ++ b':' ∷ rest)

unfoldable pub build_agent_main_session_key : Text → Text
unfolding agent_key
build_agent_main_session_key agent_id = agent_key (normalize_agent_id agent_id) (codes "main")

unfoldable pub normalize_channel : Text → Text
normalize_channel channel = or_text (trim_space (to_lower channel)) (codes "unknown")

abbrev pub is_blank : Text → Bool
is_blank [] = true
is_blank (c ∷ s) = false

-- The part behind the first ":" of a text, where neither side is empty.
abbrev pub bare_id : Option (Text × Text) → List Text
bare_id none = []
bare_id (some ([], r)) = []
bare_id (some (c ∷ l, [])) = []
bare_id (some (c ∷ l, d ∷ r)) = (d ∷ r) ∷ []

abbrev pub scoped_id : Text → Text → List Text
scoped_id [] id = []
scoped_id (c ∷ s) id = (c ∷ s ++ b':' ∷ id) ∷ []

link_candidates : Text → Text → List Text
link_candidates channel peer_id =
    to_lower peer_id ∷ scoped_id (to_lower (trim_space channel)) (to_lower peer_id)
    ++ bare_id (cut b':' (to_lower peer_id))

is_candidate : List Text → Text → Bool
is_candidate candidates id =
    let normalized = to_lower (trim_space id) in
    if is_blank normalized then false else any (λ c. holds (text_dec c normalized)) candidates

find_link : List Text → List (Text × List Text) → Text
unfolding is_candidate
find_link candidates [] = []
find_link candidates ((canonical, ids) ∷ links) =
    let rest = find_link candidates links in
    if is_blank (trim_space canonical)
    then rest
    else if any (is_candidate candidates) ids
    then trim_space canonical
    else rest

linked_with : List (Text × List Text) → Text → Text → Text
unfolding find_link link_candidates
linked_with links channel [] = []
linked_with links channel (c ∷ s) = find_link (link_candidates channel (c ∷ s)) links

unfoldable pub resolve_linked_peer_id : List (Text × List Text) → Text → Text → Text
unfolding linked_with
resolve_linked_peer_id links channel peer_id = linked_with links channel (trim_space peer_id)

-- What stands behind the agent's id in the key of a direct peer; `none` where the code falls through
-- to the main key, which an empty peer and the other scopes get.
direct_part : DmScope → Text → Text → Text → Option Text
direct_part scope channel account [] = none
direct_part per_account_channel_peer channel account (c ∷ id) = some (
    normalize_channel channel
    ++ b':' ∷ (normalize_account_id account ++ (codes ":direct:" ++ c ∷ id)))
direct_part per_channel_peer channel account (c ∷ id) =
    some (normalize_channel channel ++ (codes ":direct:" ++ c ∷ id))
direct_part per_peer channel account (c ∷ id) = some (codes "direct:" ++ c ∷ id)
direct_part unset channel account (c ∷ id) = none
direct_part main channel account (c ∷ id) = none
direct_part unknown channel account (c ∷ id) = none

-- The peer's id after the identity links, which the main scope does not look at.
direct_id : DmScope → List (Text × List Text) → Text → Text → Text
unfolding resolve_linked_peer_id
direct_id unset links channel id = to_lower id
direct_id main links channel id = to_lower id
direct_id _ links channel id = to_lower (or_text (resolve_linked_peer_id links channel id) id)

abbrev pub peer_or_direct : Option RoutePeer → RoutePeer
peer_or_direct none = record { kind = codes "direct"; id = [] }
peer_or_direct (some p) = p

-- What stands behind the agent's id, with `none` for the main key.
unfoldable pub peer_part : SessionKeyParams → Option Text
unfolding direct_part direct_id
peer_part params =
    let peer = peer_or_direct params.peer in
    let kind = or_text (trim_space peer.kind) (codes "direct") in
    if holds (text_dec kind (codes "direct"))
    then direct_part params.dm_scope params.channel params.account_id
        (direct_id params.dm_scope params.identity_links params.channel (trim_space peer.id))
    else some (
        normalize_channel params.channel
        ++ b':' ∷ (kind ++ b':' ∷ or_text (to_lower (trim_space peer.id)) (codes "unknown")))

-- The part as a text.
abbrev pub or_main : Option Text → Text
or_main none = codes "main"
or_main (some rest) = rest

unfoldable pub peer_rest : SessionKeyParams → Text
unfolding peer_part
peer_rest params = or_main (peer_part params)

-- The main key is built by BuildAgentMainSessionKey, which normalizes the id that is given to it.
abbrev pub key_of_part : Text → Option Text → Text
key_of_part agent_id none = build_agent_main_session_key agent_id
key_of_part agent_id (some rest) = agent_key agent_id rest

unfoldable pub build_agent_peer_session_key : SessionKeyParams → Text
unfolding build_agent_main_session_key agent_key peer_part
build_agent_peer_session_key params =
    key_of_part (normalize_agent_id params.agent_id) (peer_part params)

-- The checks behind strings.SplitN(raw, ":", 3).
parsed : Text → Text → Text → Option ParsedSessionKey
parsed head id rest =
    if holds (text_dec head (codes "agent"))
    then if is_blank (trim_space id) || is_blank rest
      then none
      else some (record { agent_id = trim_space id; rest = rest })
    else none

parse_parts : Option (Text × Text) → Option ParsedSessionKey
unfolding parsed
parse_parts none = none
parse_parts (some (head, tail)) = elim (cut b':' tail) [
  | none ↦ none
  | some (id, rest) ↦ parsed head id rest
]

unfoldable pub parse_agent_session_key : Text → Option ParsedSessionKey
unfolding parse_parts
parse_agent_session_key session_key = parse_parts (cut b':' (trim_space session_key))

unfoldable pub is_subagent_session_key : Text → Bool
unfolding parse_agent_session_key
is_subagent_session_key session_key =
    let raw = trim_space session_key in
    has_prefix (to_lower raw) (codes "subagent:") || (elim (parse_agent_session_key raw) [
      | none ↦ false
      | some p ↦ has_prefix (to_lower p.rest) (codes "subagent:")
    ])
