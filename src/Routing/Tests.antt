-- ===== src/Routing/Tests.antt =====
-- Runs of routing.
use halfmoon.Base.{length, ◌≡◌, refl, true, false, none, some, [], ◌∷◌}
use halfmoon.Base.Text.{Text, text_dec, codes, to_lower, trim_space}
use halfmoon.Routing.AgentId.{normalize_agent_id, normalize_account_id, is_valid_id}
use halfmoon.Routing.AgentId.Laws.{IsId, normalize_agent_id-IsId}
use halfmoon.Routing.SessionKey.{
  per_peer, unset, SessionKeyParams, build_agent_peer_session_key, parse_agent_session_key,
  peer_rest,
}
use halfmoon.Routing.SessionKey.RoundTrip.{key_agent_id, parse-build_agent_peer_session_key}
use halfmoon.Routing.Config.{Config, RouteInput}
use halfmoon.Routing.Route.{
  session_params, matches_account_id, filter_bindings, route_channel, choose, resolve_route,
}
use halfmoon.Routing.Route.Agents.{Listed, resolve_route-Listed}
use halfmoon.Routing.Route.Stored.{sanitize_key-resolve_route}
use halfmoon.Routing.Route.Cascade.{levels, level_tests, verdict, best, resolve_route-best}

normalize_agent_id-IsId_example :
    IsId (normalize_agent_id (codes "My Agent!")) × IsId (normalize_account_id (codes "My Agent!"))
normalize_agent_id-IsId_example = normalize_agent_id-IsId (codes "My Agent!")

abbrev direct_peer : SessionKeyParams
direct_peer = record {
  agent_id = codes "Sales";
  channel = codes "Telegram";
  account_id = [];
  peer = some (record { kind = codes "direct"; id = codes "U1" });
  dm_scope = per_peer;
  identity_links = (codes "alice", codes "telegram:u1" ∷ []) ∷ [];
}

parse-build_agent_peer_session_key_example :
    parse_agent_session_key (build_agent_peer_session_key direct_peer)
    ≡ some (record { agent_id = key_agent_id direct_peer; rest = peer_rest direct_peer })
parse-build_agent_peer_session_key_example = parse-build_agent_peer_session_key direct_peer

abbrev two_agents : Config
two_agents = record {
  agents =
      record { id = codes "main"; is_default = true }
      ∷ record { id = codes "sales"; is_default = false }
      ∷ [];
  bindings =
      record {
        agent_id = codes "main";
        matches = record {
          channel = codes "slack";
          account_id = codes "*";
          peer = none;
          guild_id = [];
          team_id = [];
        };
      }
      ∷ record {
        agent_id = codes "sales";
        matches = record {
          channel = codes "slack";
          account_id = codes "*";
          peer = none;
          guild_id = [];
          team_id = codes "T1";
        };
      }
      ∷ [];
  session = record { dm_scope = unset; identity_links = [] };
}

abbrev team_message : RouteInput
team_message = record {
  channel = codes "Slack";
  account_id = [];
  peer = none;
  parent_peer = none;
  guild_id = [];
  team_id = codes "T1";
}

resolve_route-best_example :
    resolve_route two_agents team_message
    ≡ choose two_agents team_message (
        verdict two_agents levels (
          best (level_tests team_message) (
            filter_bindings
              (route_channel team_message)
              (normalize_account_id [])
              two_agents.bindings)))
resolve_route-best_example = resolve_route-best two_agents team_message

resolve_route-Listed_example :
    Listed (resolve_route two_agents team_message).agent_id two_agents.agents
    × (parse_agent_session_key (resolve_route two_agents team_message).session_key
        ≡ some (record {
          agent_id = (resolve_route two_agents team_message).agent_id;
          rest = to_lower (
              peer_rest (
                session_params two_agents team_message
                  (resolve_route two_agents team_message).agent_id));
        }))
unfolding is_valid_id
resolve_route-Listed_example =
    resolve_route-Listed two_agents team_message (λ z. cc) (refl, (refl, tt))

abbrev web_message : RouteInput
web_message = record team_message { team_id = [] }

sanitize_key-resolve_route_example :
    (resolve_route two_agents web_message).agent_id
    ≡ (resolve_route two_agents (record web_message { guild_id = codes "g" })).agent_id
unfolding is_valid_id resolve_route normalize_account_id normalize_agent_id text_dec trim_space
    to_lower matches_account_id
sanitize_key-resolve_route_example =
    sanitize_key-resolve_route two_agents web_message (record web_message { guild_id = codes "g" })
      (λ z. cc) (refl, (refl, tt))
      ((refl, (refl, (refl, (refl, tt)))), ((refl, (refl, (refl, (refl, (refl, tt))))), tt)) refl

-- The team's binding wins over the channel's, which stands in front of it.
team_first : (resolve_route two_agents team_message).agent_id ≡ codes "sales"
unfolding resolve_route normalize_account_id normalize_agent_id text_dec trim_space to_lower
    matches_account_id
team_first = refl

-- An underscore can stand at the front.
leading_underscore : normalize_agent_id (codes "_x!") ≡ codes "_x"
unfolding normalize_agent_id trim_space to_lower
leading_underscore = refl

-- NormalizeAgentID is not idempotent: the cut to 64 characters can bring a dash to the end after a
-- leading underscore has made the id invalid once more.
abbrev long_id : Text
long_id = codes "_aaaaaaaaaaaaaaaaaaaaaaaaaaaaaaaaaaaaaaaaaaaaaaaaaaaaaaaaaaaaaa!b"

renormalized :
    (length (normalize_agent_id long_id) ≡ 64)
    × (length (normalize_agent_id (normalize_agent_id long_id)) ≡ 63)
unfolding normalize_agent_id trim_space to_lower
renormalized = (refl, refl)
