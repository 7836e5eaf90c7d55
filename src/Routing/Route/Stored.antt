-- ===== src/Routing/Route/Stored.antt =====
-- The files under which pkg/memory keeps the sessions that ResolveRoute chooses.
use halfmoon.Base.{
  ℕ, ◌≡◌, ◌≢◌, ◌∙◌, subst, sym, ap, ap₂, refl, inl, inr, false, Option, none, some, List, [], ◌∷◌,
  ◌++◌, arith, ◌==◌, if◌then◌else◌, All, drop,
}
use halfmoon.Base.Text.{Text, codes, to_lower, cut}
use halfmoon.Memory.Keys.{replace_all, sanitize_key}
use halfmoon.Routing.AgentId.Laws.{AllIdChars, is_valid_id-IsId}
use halfmoon.Routing.SessionKey.{agent_key, peer_rest}
use halfmoon.Routing.SessionKey.RoundTrip.{
  key_agent_id, key_agent_id-valid, to_lower-build_agent_peer_session_key,
}
use halfmoon.Routing.Config.{AgentConfig, Config, RouteInput}
use halfmoon.Routing.Route.{session_params, choose, resolve_route}
use halfmoon.Routing.Route.Agents.{AllValid, Listed, Listed-valid, resolve_route-Listed}

replace_all-append :
    (a b : ℕ) (l r : Text) → replace_all a b (l ++ r) ≡ replace_all a b l ++ replace_all a b r
unfolding replace_all
replace_all-append a b [] r = refl
replace_all-append a b (c ∷ l) r =
    ap (λ x. (if c == a then b else c) ∷ x) (replace_all-append a b l r)

sanitize_key-append : (l r : Text) → sanitize_key (l ++ r) ≡ sanitize_key l ++ sanitize_key r
unfolding sanitize_key
sanitize_key-append l r =
    ap (λ x. replace_all b'\\' b'_' (replace_all b'/' b'_' x)) (replace_all-append b':' b'_' l r)
    ∙ ap (replace_all b'\\' b'_')
        (replace_all-append b'/' b'_' (replace_all b':' b'_' l) (replace_all b':' b'_' r))
    ∙ replace_all-append b'\\' b'_' (replace_all b'/' b'_' (replace_all b':' b'_' l))
        (replace_all b'/' b'_' (replace_all b':' b'_' r))

sanitize_key-AllIdChars : (s : Text) → AllIdChars s → sanitize_key s ≡ s
unfolding sanitize_key replace_all
sanitize_key-AllIdChars [] h = refl
sanitize_key-AllIdChars (c ∷ s) h =
    ap₂ (λ x xs. x ∷ xs) (let k = h.0 in ground arith) (sanitize_key-AllIdChars s h.1)

abbrev pub NoUnderscore : Text → Type 0
NoUnderscore = All (λ c. (c == b'_') ≡ false)

cut-NoUnderscore : (l r : Text) → NoUnderscore l → cut b'_' (l ++ b'_' ∷ r) ≡ some (l, r)
unfolding cut
cut-NoUnderscore [] r h = refl
cut-NoUnderscore (c ∷ l) r h = rw (h.0, cut-NoUnderscore l r h.1) refl

colon : (rest : Text) → sanitize_key (b':' ∷ rest) ≡ b'_' ∷ sanitize_key rest
unfolding sanitize_key replace_all
colon rest = refl

prefix : sanitize_key (codes "agent:") ≡ codes "agent_"
unfolding sanitize_key replace_all
prefix = refl

sanitize_key-agent_key :
    (id rest : Text)
    → AllIdChars id
    → sanitize_key (agent_key id rest) ≡ codes "agent_" ++ (id ++ b'_' ∷ sanitize_key rest)
unfolding agent_key
sanitize_key-agent_key id rest h =
    sanitize_key-append (codes "agent:") (id ++ b':' ∷ rest)
    ∙ ap (λ y. sanitize_key (codes "agent:") ++ y)
        (sanitize_key-append id (b':' ∷ rest)
          ∙ ap (λ x. x ++ sanitize_key (b':' ∷ rest)) (sanitize_key-AllIdChars id h)
          ∙ ap (λ y. id ++ y) (colon rest))
    ∙ ap (λ x. x ++ (id ++ b'_' ∷ sanitize_key rest)) prefix

-- What stands between the first two underscores of a file's name.
first_part : Option (Text × Text) → Text
first_part none = []
first_part (some (l, r)) = l

agent_of : Text → Text
unfolding first_part
agent_of name = first_part (cut b'_' (drop 6 name))

agent_of-key :
    (id rest : Text)
    → AllIdChars id
    → NoUnderscore id
    → agent_of (sanitize_key (agent_key id rest)) ≡ id
unfolding agent_of first_part
agent_of-key id rest h n =
    ap (λ x. first_part (cut b'_' (drop 6 x))) (sanitize_key-agent_key id rest h)
    ∙ ap first_part (cut-NoUnderscore id (sanitize_key rest) n)

Listed-NoUnderscore :
    (id : Text) (agents : List AgentConfig)
    → All (λ a. NoUnderscore a.id) agents
    → Listed id agents
    → NoUnderscore id
Listed-NoUnderscore id [] n l = absurd l
Listed-NoUnderscore id (a ∷ agents) n (inl e) = subst NoUnderscore e n.0
Listed-NoUnderscore id (a ∷ agents) n (inr l) = Listed-NoUnderscore id agents n.1 l

agent_of-route :
    (cfg : Config) (input : RouteInput)
    → cfg.agents ≢ []
    → AllValid cfg.agents
    → All (λ a. NoUnderscore a.id) cfg.agents
    → agent_of (sanitize_key (resolve_route cfg input).session_key)
      ≡ (resolve_route cfg input).agent_id
agent_of-route cfg input ne v n =
    let l = (resolve_route-Listed cfg input ne v).0 in
    let valid = Listed-valid (resolve_route cfg input).agent_id cfg.agents v l in
    ap (λ k. agent_of (sanitize_key k))
      (key
        ∙ ap (λ i. agent_key i rest)
            (key_agent_id-valid (session_params cfg input (resolve_route cfg input).agent_id)
              valid))
    ∙ agent_of-key (resolve_route cfg input).agent_id rest
        (is_valid_id-IsId (resolve_route cfg input).agent_id valid).chars
        (Listed-NoUnderscore (resolve_route cfg input).agent_id cfg.agents n l)
  where
    rest : Text
    rest = to_lower (peer_rest (session_params cfg input (resolve_route cfg input).agent_id))

    key :
        (resolve_route cfg input).session_key
        ≡ agent_key
            (key_agent_id (session_params cfg input (resolve_route cfg input).agent_id))
            (to_lower (peer_rest (session_params cfg input (resolve_route cfg input).agent_id)))
    key =
        unfold resolve_route choose in
        to_lower-build_agent_peer_session_key
          (session_params cfg input (resolve_route cfg input).agent_id)

-- When some agents are configured and each has a valid id without an underscore, two messages whose
-- session keys sanitizeKey turns into the same file name are routed to the same agent.
pub sanitize_key-resolve_route :
    (cfg : Config) (input other : RouteInput)
    → cfg.agents ≢ []
    → AllValid cfg.agents
    → All (λ a. NoUnderscore a.id) cfg.agents
    → sanitize_key (resolve_route cfg input).session_key
      ≡ sanitize_key (resolve_route cfg other).session_key
    → (resolve_route cfg input).agent_id ≡ (resolve_route cfg other).agent_id
sanitize_key-resolve_route cfg input other ne v n same =
    sym (agent_of-route cfg input ne v n) ∙ ap agent_of same ∙ agent_of-route cfg other ne v n
