-- ===== src/Routing/Route.antt =====
-- pkg/routing/route.go
pub mod Cascade
pub mod Agents
pub mod Stored
use halfmoon.Base.{
  Bool, true, false, not, ◌&&◌, ◌||◌, Option, none, some, List, [], ◌∷◌, if◌then◌else◌, holds,
}
use halfmoon.Base.Text.{Text, text_dec, codes, to_lower, trim_space}
use halfmoon.Routing.AgentId.{
  default_agent_id, default_account_id, normalize_agent_id, normalize_account_id,
}
use halfmoon.Routing.Config.{
  AgentConfig, PeerMatch, BindingMatch, AgentBinding, SessionConfig, Config, RouteInput, MatchedBy,
  by_peer, by_parent_peer, by_guild, by_team, by_account, by_channel, by_default, ResolvedRoute,
}
use halfmoon.Routing.SessionKey.{
  DmScope, unset, main, per_peer, per_channel_peer, per_account_channel_peer, unknown, RoutePeer,
  SessionKeyParams, is_blank, build_agent_main_session_key, build_agent_peer_session_key,
}

abbrev pub same : Text → Text → Bool
same s t = holds (text_dec s t)

-- matchesAccountID behind the trim.
abbrev pub account_matches : Text → Text → Bool
account_matches [] actual = same actual default_account_id
account_matches (c ∷ s) actual =
    if same (c ∷ s) (codes "*") then true else same (to_lower (c ∷ s)) (to_lower actual)

unfoldable pub matches_account_id : Text → Text → Bool
matches_account_id match_account_id actual = account_matches (trim_space match_account_id) actual

abbrev pub binding_passes : Text → Text → AgentBinding → Bool
binding_passes channel account_id b =
    let match_channel = to_lower (trim_space b.matches.channel) in
    if is_blank match_channel || not (same match_channel channel)
    then false
    else matches_account_id b.matches.account_id account_id

unfoldable pub filter_bindings : Text → Text → List AgentBinding → List AgentBinding
filter_bindings channel account_id [] = []
filter_bindings channel account_id (b ∷ bs) =
    let rest = filter_bindings channel account_id bs in
    if binding_passes channel account_id b then b ∷ rest else rest

-- The loop of the five find functions: the first binding that passes the test.
unfoldable pub first_match : (AgentBinding → Bool) → List AgentBinding → Option AgentBinding
first_match p [] = none
first_match p (b ∷ bs) = let rest = first_match p bs in if p b then some b else rest

-- The body of findPeerMatch's loop.
unfoldable pub is_peer_match : RoutePeer → AgentBinding → Bool
is_peer_match peer b = elim (b.matches.peer) [
  | none ↦ false
  | some m ↦
      let peer_kind = to_lower (trim_space m.kind) in
      let peer_id = trim_space m.id in
      if is_blank peer_kind || is_blank peer_id
      then false
      else same peer_kind (to_lower peer.kind) && same peer_id peer.id
]

unfoldable pub is_guild_match : Text → AgentBinding → Bool
is_guild_match guild_id b =
    let match_guild = trim_space b.matches.guild_id in
    not (is_blank match_guild) && same match_guild guild_id

unfoldable pub is_team_match : Text → AgentBinding → Bool
is_team_match team_id b =
    let match_team = trim_space b.matches.team_id in
    not (is_blank match_team) && same match_team team_id

abbrev pub has_peer : Option PeerMatch → Bool
has_peer none = false
has_peer (some m) = true

-- The binding names a peer, a guild or a team.
abbrev pub is_narrow : AgentBinding → Bool
is_narrow b =
    has_peer b.matches.peer || not (is_blank b.matches.guild_id) || not (is_blank b.matches.team_id)

unfoldable pub is_account_match : AgentBinding → Bool
is_account_match b =
    if same (trim_space b.matches.account_id) (codes "*") then false else not (is_narrow b)

unfoldable pub is_channel_wildcard_match : AgentBinding → Bool
is_channel_wildcard_match b =
    if not (same (trim_space b.matches.account_id) (codes "*")) then false else not (is_narrow b)

unfoldable pub find_peer_match : List AgentBinding → RoutePeer → Option AgentBinding
unfolding first_match is_peer_match
find_peer_match bindings peer = first_match (is_peer_match peer) bindings

unfoldable pub find_guild_match : List AgentBinding → Text → Option AgentBinding
unfolding first_match is_guild_match
find_guild_match bindings guild_id = first_match (is_guild_match guild_id) bindings

unfoldable pub find_team_match : List AgentBinding → Text → Option AgentBinding
unfolding first_match is_team_match
find_team_match bindings team_id = first_match (is_team_match team_id) bindings

unfoldable pub find_account_match : List AgentBinding → Option AgentBinding
unfolding first_match is_account_match
find_account_match bindings = first_match is_account_match bindings

unfoldable pub find_channel_wildcard_match : List AgentBinding → Option AgentBinding
unfolding first_match is_channel_wildcard_match
find_channel_wildcard_match bindings = first_match is_channel_wildcard_match bindings

-- The loop over the agents that are marked as the default.
unfoldable pub marked_default : List AgentConfig → Option Text
marked_default [] = none
marked_default (a ∷ agents) =
    let rest = marked_default agents in
    if a.is_default && not (is_blank (trim_space a.id))
    then some (normalize_agent_id (trim_space a.id))
    else rest

first_agent_id : List AgentConfig → Text
first_agent_id [] = default_agent_id
first_agent_id (a ∷ agents) =
    let id = trim_space a.id in if is_blank id then default_agent_id else normalize_agent_id id

unfoldable pub resolve_default_agent_id : List AgentConfig → Text
unfolding marked_default first_agent_id
resolve_default_agent_id agents = elim (marked_default agents) [
  | none ↦ first_agent_id agents
  | some id ↦ id
]

-- Some agent of the list has the normalized id.
unfoldable pub is_listed : Text → List AgentConfig → Bool
is_listed normalized [] = false
is_listed normalized (a ∷ agents) =
    same (normalize_agent_id a.id) normalized || is_listed normalized agents

pick_listed : List AgentConfig → Text → Text
unfolding is_listed resolve_default_agent_id
pick_listed [] normalized = normalized
pick_listed (a ∷ agents) normalized =
    if is_listed normalized (a ∷ agents)
    then normalized
    else normalize_agent_id (resolve_default_agent_id (a ∷ agents))

unfoldable pub pick_agent_id : List AgentConfig → Text → Text
unfolding pick_listed resolve_default_agent_id
pick_agent_id agents agent_id =
    let trimmed = trim_space agent_id in
    if is_blank trimmed
    then normalize_agent_id (resolve_default_agent_id agents)
    else pick_listed agents (normalize_agent_id trimmed)

-- The two levels that ask for a peer, and the two that ask for a name, when it is given.
unfoldable pub at_peer : Option RoutePeer → List AgentBinding → Option AgentBinding
unfolding find_peer_match
at_peer none bindings = none
at_peer (some peer) bindings =
    if is_blank (trim_space peer.id) then none else find_peer_match bindings peer

unfoldable pub at_guild : Text → List AgentBinding → Option AgentBinding
unfolding find_guild_match
at_guild guild_id bindings = if is_blank guild_id then none else find_guild_match bindings guild_id

unfoldable pub at_team : Text → List AgentBinding → Option AgentBinding
unfolding find_team_match
at_team team_id bindings = if is_blank team_id then none else find_team_match bindings team_id

-- A level's match, or the levels behind it.
abbrev pub or_next : Option AgentBinding → MatchedBy → Text × MatchedBy → Text × MatchedBy
or_next none level next = next
or_next (some b) level next = (b.agent_id, level)

-- The cascade: the agent that is asked for, and the level that asked for it.
unfoldable pub cascade : Config → RouteInput → List AgentBinding → Text × MatchedBy
unfolding at_peer at_guild at_team find_account_match find_channel_wildcard_match
    resolve_default_agent_id
cascade cfg input bindings = or_next (at_peer input.peer bindings) by_peer (
    or_next (at_peer input.parent_peer bindings) by_parent_peer (
      or_next (at_guild (trim_space input.guild_id) bindings) by_guild (
        or_next (at_team (trim_space input.team_id) bindings) by_team (
          or_next (find_account_match bindings) by_account (
            or_next (find_channel_wildcard_match bindings) by_channel
              (resolve_default_agent_id cfg.agents, by_default))))))

abbrev pub scope_or_main : DmScope → DmScope
scope_or_main unset = main
scope_or_main main = main
scope_or_main per_peer = per_peer
scope_or_main per_channel_peer = per_channel_peer
scope_or_main per_account_channel_peer = per_account_channel_peer
scope_or_main unknown = unknown

abbrev pub route_channel : RouteInput → Text
route_channel input = to_lower (trim_space input.channel)

abbrev pub session_params : Config → RouteInput → Text → SessionKeyParams
session_params cfg input agent_id = record {
  agent_id = agent_id;
  channel = route_channel input;
  account_id = normalize_account_id input.account_id;
  peer = input.peer;
  dm_scope = scope_or_main cfg.session.dm_scope;
  identity_links = cfg.session.identity_links;
}

-- The closure choose of ResolveRoute.
unfoldable pub choose : Config → RouteInput → Text × MatchedBy → ResolvedRoute
unfolding pick_agent_id build_agent_peer_session_key build_agent_main_session_key
choose cfg input (agent_id, matched_by) =
    let resolved_agent_id = pick_agent_id cfg.agents agent_id in
    record {
      agent_id = resolved_agent_id;
      channel = route_channel input;
      account_id = normalize_account_id input.account_id;
      session_key =
          to_lower (build_agent_peer_session_key (session_params cfg input resolved_agent_id));
      main_session_key = to_lower (build_agent_main_session_key resolved_agent_id);
      matched_by = matched_by;
    }

unfoldable pub resolve_route : Config → RouteInput → ResolvedRoute
unfolding cascade choose filter_bindings
resolve_route cfg input = choose cfg input (
    cascade cfg input
      (filter_bindings (route_channel input) (normalize_account_id input.account_id) cfg.bindings))
