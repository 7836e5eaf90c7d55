-- ===== src/Routing/Config.antt =====
-- The part of pkg/config/config.go that routing reads, and the input and the result of
-- pkg/routing/route.go.
use halfmoon.Base.{Bool, Option, List}
use halfmoon.Base.Text.{Text}
use halfmoon.Routing.SessionKey.{DmScope, RoutePeer}

-- The fields of an agent's configuration that routing reads.
pub record AgentConfig : Type 0 where
  pub id : Text
  pub is_default : Bool

pub record PeerMatch : Type 0 where
  pub kind : Text
  pub id : Text

pub record BindingMatch : Type 0 where
  pub channel : Text
  pub account_id : Text
  pub peer : Option PeerMatch
  pub guild_id : Text
  pub team_id : Text

pub record AgentBinding : Type 0 where
  pub agent_id : Text
  pub matches : BindingMatch

pub record SessionConfig : Type 0 where
  pub dm_scope : DmScope
  pub identity_links : List (Text × List Text)

pub record Config : Type 0 where
  pub agents : List AgentConfig
  pub bindings : List AgentBinding
  pub session : SessionConfig

pub record RouteInput : Type 0 where
  pub channel : Text
  pub account_id : Text
  pub peer : Option RoutePeer
  pub parent_peer : Option RoutePeer
  pub guild_id : Text
  pub team_id : Text

-- "binding.peer", "binding.peer.parent", "binding.guild", "binding.team", "binding.account",
-- "binding.channel", "default"
pub data MatchedBy : Type 0 where
  by_peer by_parent_peer by_guild by_team by_account by_channel by_default : MatchedBy

pub record ResolvedRoute : Type 0 where
  pub agent_id : Text
  pub channel : Text
  pub account_id : Text
  pub session_key : Text
  pub main_session_key : Text
  pub matched_by : MatchedBy
