-- ===== src/Routing/SessionKey/RoundTrip.antt =====
-- Parsing the keys that BuildAgentPeerSessionKey makes.
use halfmoon.Base.{
  ◌≡◌, ◌≢◌, refl, ap, sym, ◌∙◌, subst, false, true, Option, none, some, [], ◌∷◌, ◌++◌, arith, ◌==◌,
  All,
}
use halfmoon.Base.Text.{Text, text_dec, codes, to_lower, trim_space, cut}
use halfmoon.Base.Text.Laws.{to_lower-append}
use halfmoon.Routing.AgentId.{is_valid_id, normalize_agent_id}
use halfmoon.Routing.AgentId.Laws.{
  IsId, AllIdChars, normalize_agent_id-IsId, normalize_agent_id-valid, trim_space-AllIdChars,
  to_lower-AllIdChars,
}
use halfmoon.Routing.SessionKey.{
  SessionKeyParams, agent_key, or_main, peer_part, peer_rest, key_of_part,
  build_agent_main_session_key, build_agent_peer_session_key, parsed, parse_parts,
  parse_agent_session_key,
}
use halfmoon.Routing.SessionKey.Trimmed.{
  EndsTrimmed, ends_trimmed, EndsTrimmed-append, EndsTrimmed-cons, trim_space-EndsTrimmed,
  lower_trimmed, peer_rest-EndsTrimmed,
}

cut-lacks : (l r : Text) → All (λ c. (c == b':') ≡ false) l → cut b':' (l ++ b':' ∷ r) ≡ some (l, r)
unfolding cut
cut-lacks [] r h = refl
cut-lacks (c ∷ l) r h = rw (h.0, cut-lacks l r h.1) refl

no_colon : (s : Text) → AllIdChars s → All (λ c. (c == b':') ≡ false) s
no_colon [] h = tt
no_colon (c ∷ s) h = (let k = h.0 in ground arith, no_colon s h.1)

parsed-agent :
    (id rest : Text)
    → trim_space id ≡ id
    → id ≢ []
    → rest ≢ []
    → parsed (codes "agent") id rest ≡ some (record { agent_id = id; rest = rest })
unfolding parsed text_dec
parsed-agent [] rest t n k = absurd (n refl)
parsed-agent (c ∷ id) [] t n k = absurd (k refl)
parsed-agent (c ∷ id) (d ∷ rest) t n k = rw t refl

EndsTrimmed-ne : (s : Text) → EndsTrimmed s → s ≢ []
EndsTrimmed-ne s e z = go e.front e.last (sym z ∙ e.joined) e.nonempty
  where
    go : (f l : Text) → [] ≡ f ++ l → l ≢ [] → ⊥
    go [] l j n = n (sym j)
    go (c ∷ f) l j n = absurd (cc)

to_lower_nonempty : (s : Text) → s ≢ [] → to_lower s ≢ []
unfolding to_lower
to_lower_nonempty [] n = absurd (n refl)
to_lower_nonempty (c ∷ s) n = λ z. cc

EndsTrimmed-to_lower : (s : Text) → EndsTrimmed s → EndsTrimmed (to_lower s)
EndsTrimmed-to_lower s e =
    subst EndsTrimmed (sym (ap to_lower e.joined ∙ to_lower-append e.front e.last)) (
      ends_trimmed (to_lower e.front) (to_lower e.last) (lower_trimmed e.last e.trimmed)
        (to_lower_nonempty e.last e.nonempty))

parse-agent_key :
    (id rest : Text)
    → IsId id
    → EndsTrimmed rest
    → parse_agent_session_key (agent_key id rest) ≡ some (record { agent_id = id; rest = rest })
unfolding parse_agent_session_key agent_key parse_parts
parse-agent_key id rest is ends =
    rw
      (
        trim_space-EndsTrimmed b'a' (codes "gent:" ++ (id ++ b':' ∷ rest)) refl (
            EndsTrimmed-append (codes "gent:") _
              (EndsTrimmed-append id _ (EndsTrimmed-cons b':' _ ends))),
        cut-lacks (codes "agent") (id ++ b':' ∷ rest) (refl, (refl, (refl, (refl, (refl, tt))))),
      )
      (rw (parse_parts, cut-lacks id rest (no_colon id is.chars))
        (parsed-agent id rest (trim_space-AllIdChars id is.chars) is.nonempty
          (EndsTrimmed-ne rest ends)))

-- The agent's id in a key: the main key has it normalized twice.
abbrev id_of_part : Text → Option Text → Text
id_of_part agent_id none = normalize_agent_id agent_id
id_of_part agent_id (some rest) = agent_id

abbrev pub key_agent_id : SessionKeyParams → Text
key_agent_id params = id_of_part (normalize_agent_id params.agent_id) (peer_part params)

id_of_part-IsId :
    (agent_id : Text) (part : Option Text) → IsId agent_id → IsId (id_of_part agent_id part)
id_of_part-IsId agent_id none is = (normalize_agent_id-IsId agent_id).0
id_of_part-IsId agent_id (some rest) is = is

pub key_agent_id-IsId : (params : SessionKeyParams) → IsId (key_agent_id params)
key_agent_id-IsId params =
    id_of_part-IsId (normalize_agent_id params.agent_id) (peer_part params)
      (normalize_agent_id-IsId params.agent_id).0

id_of_part-valid :
    (agent_id : Text) (part : Option Text)
    → normalize_agent_id agent_id ≡ agent_id
    → id_of_part agent_id part ≡ agent_id
id_of_part-valid agent_id none e = e
id_of_part-valid agent_id (some rest) e = refl

-- A valid id stands in the key as it is.
pub key_agent_id-valid :
    (params : SessionKeyParams)
    → is_valid_id params.agent_id ≡ true
    → key_agent_id params ≡ params.agent_id
key_agent_id-valid params v =
    let e = normalize_agent_id-valid params.agent_id v in
    ap (λ id. id_of_part id (peer_part params)) e
    ∙ id_of_part-valid params.agent_id (peer_part params) e

key_of_part-agent_key :
    (agent_id : Text) (part : Option Text)
    → key_of_part agent_id part ≡ agent_key (id_of_part agent_id part) (or_main part)
unfolding build_agent_main_session_key
key_of_part-agent_key agent_id none = refl
key_of_part-agent_key agent_id (some rest) = refl

pub build_agent_peer_session_key-agent_key :
    (params : SessionKeyParams)
    → build_agent_peer_session_key params ≡ agent_key (key_agent_id params) (peer_rest params)
unfolding build_agent_peer_session_key peer_rest
build_agent_peer_session_key-agent_key params =
    key_of_part-agent_key (normalize_agent_id params.agent_id) (peer_part params)

-- The key that is built for any peer, scope and links is read back as the id of its agent and what
-- was built behind it. The id is the normalized one; in a main key it is normalized twice, which is
-- not always the same.
pub parse-build_agent_peer_session_key :
    (params : SessionKeyParams)
    → parse_agent_session_key (build_agent_peer_session_key params)
      ≡ some (record { agent_id = key_agent_id params; rest = peer_rest params })
parse-build_agent_peer_session_key params =
    ap parse_agent_session_key (build_agent_peer_session_key-agent_key params)
    ∙ parse-agent_key (key_agent_id params) (peer_rest params) (key_agent_id-IsId params)
        (peer_rest-EndsTrimmed params)

pub to_lower-agent_key :
    (id rest : Text) → AllIdChars id → to_lower (agent_key id rest) ≡ agent_key id (to_lower rest)
unfolding agent_key
to_lower-agent_key id rest h =
    rw
      (
        to_lower-append (codes "agent:") (id ++ b':' ∷ rest),
        to_lower-append id (b':' ∷ rest),
        to_lower-AllIdChars id h,
      )
      (unfold to_lower in refl)

-- The key in lower case, as ResolveRoute keeps it.
pub to_lower-build_agent_peer_session_key :
    (params : SessionKeyParams)
    → to_lower (build_agent_peer_session_key params)
      ≡ agent_key (key_agent_id params) (to_lower (peer_rest params))
to_lower-build_agent_peer_session_key params =
    ap to_lower (build_agent_peer_session_key-agent_key params)
    ∙ to_lower-agent_key (key_agent_id params) (peer_rest params) (key_agent_id-IsId params).chars

pub parse-lower_session_key :
    (params : SessionKeyParams)
    → parse_agent_session_key (to_lower (build_agent_peer_session_key params))
      ≡ some (record { agent_id = key_agent_id params; rest = to_lower (peer_rest params) })
parse-lower_session_key params =
    ap parse_agent_session_key (to_lower-build_agent_peer_session_key params)
    ∙ parse-agent_key (key_agent_id params) (to_lower (peer_rest params)) (key_agent_id-IsId params)
        (EndsTrimmed-to_lower (peer_rest params) (peer_rest-EndsTrimmed params))
