-- ===== src/Routing/Route/Agents.antt =====
-- The agents that ResolveRoute can choose, and the keys of their sessions.
use halfmoon.Base.{
  ◌⊎◌, arith, ◌≢◌, subst, not, ◌≡◌, inl, inr, refl, ap, sym, ◌∙◌, Bool, true, false, ◌&&◌, Option,
  none, some, List, [], ◌∷◌, if◌then◌else◌, All, Bool-cases, holds,
}
use halfmoon.Base.Text.{Text, text_dec, to_lower, trim_space}
use halfmoon.Routing.AgentId.{is_valid_id, normalize_agent_id, normalize_account_id}
use halfmoon.Routing.AgentId.Laws.{
  normalize_agent_id-valid, is_valid_id-IsId, trim_space-AllIdChars,
}
use halfmoon.Routing.SessionKey.{is_blank, peer_rest, parse_agent_session_key}
use halfmoon.Routing.SessionKey.RoundTrip.{
  key_agent_id, key_agent_id-valid, parse-lower_session_key,
}
use halfmoon.Routing.Config.{AgentConfig, Config, RouteInput}
use halfmoon.Routing.Route.{
  same, marked_default, first_agent_id, resolve_default_agent_id, is_listed, pick_listed,
  pick_agent_id, filter_bindings, cascade, session_params, route_channel, choose, resolve_route,
}

-- Some agent of the list has the id.
abbrev pub Listed : Text → List AgentConfig → Type 0
Listed id [] = ⊥
Listed id (a ∷ agents) = (a.id ≡ id) ⊎ Listed id agents

abbrev pub AllValid : List AgentConfig → Type 0
AllValid = All (λ a. is_valid_id a.id ≡ true)

valid_trim : (s : Text) → is_valid_id s ≡ true → trim_space s ≡ s
valid_trim s v = trim_space-AllIdChars s (is_valid_id-IsId s v).chars

valid_blank : (s : Text) → is_valid_id s ≡ true → is_blank s ≡ false
valid_blank [] v = unfold is_valid_id in absurd (cc)
valid_blank (c ∷ s) v = refl

pub Listed-valid :
    (id : Text) (agents : List AgentConfig)
    → AllValid agents
    → Listed id agents
    → is_valid_id id ≡ true
Listed-valid id [] v l = absurd l
Listed-valid id (a ∷ agents) v (inl e) = subst (λ x. is_valid_id x ≡ true) e v.0
Listed-valid id (a ∷ agents) v (inr l) = Listed-valid id agents v.1 l

same-eq : (s t : Text) → same s t ≡ true → s ≡ t
same-eq s t = go (text_dec s t)
  where
    go : (d : Dec (s ≡ t)) → holds d ≡ true → s ≡ t
    go (yes e) h = e
    go (no n) h = absurd (cc)

is_listed-Listed :
    (id : Text) (agents : List AgentConfig)
    → AllValid agents
    → is_listed id agents ≡ true
    → Listed id agents
unfolding is_listed
is_listed-Listed id [] v h = absurd (cc)
is_listed-Listed id (a ∷ agents) v h = elim (Bool-cases (same (normalize_agent_id a.id) id)) [
  | inl e ↦ inl (sym (normalize_agent_id-valid a.id v.0) ∙ same-eq (normalize_agent_id a.id) id e)
  | inr e ↦ inr (is_listed-Listed id agents v.1 (ground arith))
]

ListedDefault : List AgentConfig → Option Text → Type 0
ListedDefault agents none = Unit
ListedDefault agents (some id) = Listed id agents

weaken-ListedDefault :
    (a : AgentConfig) (agents : List AgentConfig) (m : Option Text)
    → ListedDefault agents m
    → ListedDefault (a ∷ agents) m
unfolding ListedDefault
weaken-ListedDefault a agents none l = tt
weaken-ListedDefault a agents (some id) l = inr l

trimmed_id : (s : Text) → is_valid_id s ≡ true → normalize_agent_id (trim_space s) ≡ s
trimmed_id s v = ap normalize_agent_id (valid_trim s v) ∙ normalize_agent_id-valid s v

marked_default-Listed :
    (agents : List AgentConfig) → AllValid agents → ListedDefault agents (marked_default agents)
unfolding marked_default ListedDefault
marked_default-Listed [] v = tt
marked_default-Listed (a ∷ agents) v =
    elim (Bool-cases (a.is_default && not (is_blank (trim_space a.id)))) [
      | inl d ↦ rw d (inl (sym (trimmed_id a.id v.0)))
      | inr d ↦
          rw d (
            weaken-ListedDefault a agents (marked_default agents)
              (marked_default-Listed agents v.1))
    ]

first_agent_id-eq :
    (a : AgentConfig) (agents : List AgentConfig)
    → is_valid_id a.id ≡ true
    → first_agent_id (a ∷ agents) ≡ a.id
unfolding first_agent_id
first_agent_id-eq a agents v =
    rw (valid_trim a.id v, valid_blank a.id v) (normalize_agent_id-valid a.id v)

resolve_default_agent_id-Listed :
    (a : AgentConfig) (agents : List AgentConfig)
    → AllValid (a ∷ agents)
    → Listed (resolve_default_agent_id (a ∷ agents)) (a ∷ agents)
unfolding resolve_default_agent_id
resolve_default_agent_id-Listed a agents v =
    go (marked_default (a ∷ agents)) (marked_default-Listed (a ∷ agents) v)
  where
    go :
        (m : Option Text)
        → ListedDefault (a ∷ agents) m
        → Listed (elim m [ none ↦ first_agent_id (a ∷ agents) | some id ↦ id ]) (a ∷ agents)
    go none l = inl (sym (first_agent_id-eq a agents v.0))
    go (some id) l = unfold ListedDefault in l

default-Listed :
    (a : AgentConfig) (agents : List AgentConfig)
    → AllValid (a ∷ agents)
    → Listed (normalize_agent_id (resolve_default_agent_id (a ∷ agents))) (a ∷ agents)
default-Listed a agents v =
    let l = resolve_default_agent_id-Listed a agents v in
    subst (λ id. Listed id (a ∷ agents))
      (sym (
        normalize_agent_id-valid (resolve_default_agent_id (a ∷ agents))
          (Listed-valid _ (a ∷ agents) v l)))
      l

either-Listed :
    (c : Bool) (x y : Text) (agents : List AgentConfig)
    → (c ≡ true → Listed x agents)
    → (c ≡ false → Listed y agents)
    → Listed (if c then x else y) agents
either-Listed true x y agents l r = l refl
either-Listed false x y agents l r = r refl

pick_listed-Listed :
    (a : AgentConfig) (agents : List AgentConfig) (normalized : Text)
    → AllValid (a ∷ agents)
    → Listed (pick_listed (a ∷ agents) normalized) (a ∷ agents)
unfolding pick_listed
pick_listed-Listed a agents normalized v =
    either-Listed (is_listed normalized (a ∷ agents)) _ _ (a ∷ agents)
      (is_listed-Listed normalized (a ∷ agents) v) (λ _. default-Listed a agents v)

pick_agent_id-Listed :
    (a : AgentConfig) (agents : List AgentConfig) (agent_id : Text)
    → AllValid (a ∷ agents)
    → Listed (pick_agent_id (a ∷ agents) agent_id) (a ∷ agents)
unfolding pick_agent_id
pick_agent_id-Listed a agents agent_id v =
    either-Listed (is_blank (trim_space agent_id)) _ _ (a ∷ agents) (λ _. default-Listed a agents v)
      (λ _. pick_listed-Listed a agents (normalize_agent_id (trim_space agent_id)) v)

pub route-Listed :
    (agents : List AgentConfig) (agent_id : Text)
    → agents ≢ []
    → AllValid agents
    → Listed (pick_agent_id agents agent_id) agents
route-Listed [] agent_id n v = absurd (n refl)
route-Listed (a ∷ agents) agent_id n v = pick_agent_id-Listed a agents agent_id v

key_of :
    (cfg : Config) (input : RouteInput)
    → parse_agent_session_key (resolve_route cfg input).session_key
      ≡ some (record {
        agent_id = key_agent_id (session_params cfg input (resolve_route cfg input).agent_id);
        rest = to_lower (peer_rest (session_params cfg input (resolve_route cfg input).agent_id));
      })
unfolding resolve_route choose
key_of cfg input =
    parse-lower_session_key (session_params cfg input (resolve_route cfg input).agent_id)

-- When some agents are configured and each has a valid id, every message is routed to one of them,
-- whatever the bindings ask for, and the key of its session is read back as that agent's id with what
-- was built for the peer, in lower case, behind it.
pub resolve_route-Listed :
    (cfg : Config) (input : RouteInput)
    → cfg.agents ≢ []
    → AllValid cfg.agents
    → Listed (resolve_route cfg input).agent_id cfg.agents
      × (parse_agent_session_key (resolve_route cfg input).session_key
          ≡ some (record {
            agent_id = (resolve_route cfg input).agent_id;
            rest =
                to_lower (peer_rest (session_params cfg input (resolve_route cfg input).agent_id));
          }))
resolve_route-Listed cfg input n v = (listed, key)
  where
    asked : Text
    asked =
        (cascade cfg input (
          filter_bindings (route_channel input) (normalize_account_id input.account_id)
            cfg.bindings)).0

    listed : Listed (resolve_route cfg input).agent_id cfg.agents
    listed = unfold resolve_route choose in route-Listed cfg.agents asked n v

    key :
        parse_agent_session_key (resolve_route cfg input).session_key
        ≡ some (record {
          agent_id = (resolve_route cfg input).agent_id;
          rest = to_lower (peer_rest (session_params cfg input (resolve_route cfg input).agent_id));
        })
    key =
        key_of cfg input
        ∙ ap
            (λ id. some (record {
              agent_id = id;
              rest =
                  to_lower
                    (peer_rest (session_params cfg input (resolve_route cfg input).agent_id));
            }))
            (key_agent_id-valid (session_params cfg input (resolve_route cfg input).agent_id)
              (Listed-valid (resolve_route cfg input).agent_id cfg.agents v listed))
