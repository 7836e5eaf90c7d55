-- ===== src/Routing/SessionKey/Trimmed.antt =====
-- The end of a key of BuildAgentPeerSessionKey, which ParseAgentSessionKey trims.
use halfmoon.Base.{
  ℕ, ◌≡◌, ◌≢◌, inl, inr, refl, ap, sym, ◌∙◌, subst, false, List, [], ◌∷◌, ◌++◌, append_assoc,
  Bool-cases, any, holds,
}
use halfmoon.Base.Text.{Text, text_dec, codes, to_lower, trim_space, is_space}
use halfmoon.Base.Text.Laws.{trim_space-to_lower, trim_space_idem, trim_space_join}
use halfmoon.Routing.AgentId.{normalize_account_id}
use halfmoon.Routing.SessionKey.{
  DmScope, unset, main, per_peer, per_channel_peer, per_account_channel_peer, unknown, RoutePeer,
  SessionKeyParams, or_text, normalize_channel, is_blank, is_candidate, find_link, link_candidates,
  linked_with, resolve_linked_peer_id, direct_part, direct_id, peer_or_direct, or_main, peer_part,
  peer_rest,
}

-- The text ends in a trimmed text that is not empty.
pub record EndsTrimmed (s : Text) : Type 0 where
  pub front : Text
  pub last : Text
  pub joined : s ≡ front ++ last
  pub trimmed : trim_space last ≡ last
  pub nonempty : last ≢ []

pub ends_trimmed :
    (front last : Text) → trim_space last ≡ last → last ≢ [] → EndsTrimmed (front ++ last)
ends_trimmed front last t n = record {
  front = front;
  last = last;
  joined = refl;
  trimmed = t;
  nonempty = n;
}

pub EndsTrimmed-append : (front s : Text) → EndsTrimmed s → EndsTrimmed (front ++ s)
EndsTrimmed-append front s e = record {
  front = front ++ e.front;
  last = e.last;
  joined = ap (λ x. front ++ x) e.joined ∙ sym (append_assoc front e.front e.last);
  trimmed = e.trimmed;
  nonempty = e.nonempty;
}

pub EndsTrimmed-cons : (c : ℕ) (s : Text) → EndsTrimmed s → EndsTrimmed (c ∷ s)
EndsTrimmed-cons c s e = EndsTrimmed-append (c ∷ []) s e

pub trim_space-EndsTrimmed :
    (c : ℕ) (s : Text) → is_space c ≡ false → EndsTrimmed s → trim_space (c ∷ s) ≡ c ∷ s
trim_space-EndsTrimmed c s h e =
    subst (λ x. trim_space (c ∷ x) ≡ c ∷ x) (sym e.joined)
      (trim_space_join c e.front e.last h e.trimmed e.nonempty)

pub lower_trimmed : (s : Text) → trim_space s ≡ s → trim_space (to_lower s) ≡ to_lower s
lower_trimmed s e = trim_space-to_lower s ∙ ap to_lower e

find_link_trimmed :
    (candidates : List Text) (links : List (Text × List Text))
    → trim_space (find_link candidates links) ≡ find_link candidates links
unfolding find_link
find_link_trimmed candidates [] = unfold trim_space in refl
find_link_trimmed candidates ((canonical, ids) ∷ links) =
    elim (Bool-cases (is_blank (trim_space canonical))) [
      | inl b ↦ rw b (find_link_trimmed candidates links)
      | inr b ↦ elim (Bool-cases (any (is_candidate candidates) ids)) [
        | inl a ↦ rw (b, a) (trim_space_idem canonical)
        | inr a ↦ rw (b, a) (find_link_trimmed candidates links)
      ]
    ]

resolved_trimmed :
    (links : List (Text × List Text)) (channel id : Text)
    → trim_space (resolve_linked_peer_id links channel id) ≡ resolve_linked_peer_id links channel id
unfolding resolve_linked_peer_id
resolved_trimmed links channel id = go (trim_space id)
  where
    go : (t : Text) → trim_space (linked_with links channel t) ≡ linked_with links channel t
    go [] = unfold linked_with trim_space in refl
    go (c ∷ s) = unfold linked_with in find_link_trimmed (link_candidates channel (c ∷ s)) links

or_text_trimmed :
    (s d : Text) → trim_space s ≡ s → trim_space d ≡ d → trim_space (or_text s d) ≡ or_text s d
or_text_trimmed [] d e k = k
or_text_trimmed (c ∷ s) d e k = e

direct_id_trimmed :
    (scope : DmScope) (links : List (Text × List Text)) (channel id : Text)
    → trim_space id ≡ id
    → trim_space (direct_id scope links channel id) ≡ direct_id scope links channel id
unfolding direct_id
direct_id_trimmed unset links channel id e = lower_trimmed id e
direct_id_trimmed main links channel id e = lower_trimmed id e
direct_id_trimmed per_peer links channel id e =
    lower_trimmed _ (or_text_trimmed _ id (resolved_trimmed links channel id) e)
direct_id_trimmed per_channel_peer links channel id e =
    lower_trimmed _ (or_text_trimmed _ id (resolved_trimmed links channel id) e)
direct_id_trimmed per_account_channel_peer links channel id e =
    lower_trimmed _ (or_text_trimmed _ id (resolved_trimmed links channel id) e)
direct_id_trimmed unknown links channel id e =
    lower_trimmed _ (or_text_trimmed _ id (resolved_trimmed links channel id) e)

main-EndsTrimmed : EndsTrimmed (codes "main")
main-EndsTrimmed = ends_trimmed [] (codes "main") (unfold trim_space in refl) (λ z. cc)

direct_part-EndsTrimmed :
    (scope : DmScope) (channel account id : Text)
    → trim_space id ≡ id
    → EndsTrimmed (or_main (direct_part scope channel account id))
unfolding direct_part
direct_part-EndsTrimmed scope channel account [] e = main-EndsTrimmed
direct_part-EndsTrimmed per_account_channel_peer channel account (c ∷ id) e =
    EndsTrimmed-append (normalize_channel channel) _ (
      EndsTrimmed-cons b':' _ (
        EndsTrimmed-append (normalize_account_id account) _
          (ends_trimmed (codes ":direct:") (c ∷ id) e (λ z. cc))))
direct_part-EndsTrimmed per_channel_peer channel account (c ∷ id) e =
    EndsTrimmed-append (normalize_channel channel) _
      (ends_trimmed (codes ":direct:") (c ∷ id) e (λ z. cc))
direct_part-EndsTrimmed per_peer channel account (c ∷ id) e =
    ends_trimmed (codes "direct:") (c ∷ id) e (λ z. cc)
direct_part-EndsTrimmed unset channel account (c ∷ id) e = main-EndsTrimmed
direct_part-EndsTrimmed main channel account (c ∷ id) e = main-EndsTrimmed
direct_part-EndsTrimmed unknown channel account (c ∷ id) e = main-EndsTrimmed

or_unknown-EndsTrimmed : (s : Text) → trim_space s ≡ s → EndsTrimmed (or_text s (codes "unknown"))
or_unknown-EndsTrimmed [] e =
    ends_trimmed [] (codes "unknown") (unfold trim_space in refl) (λ z. cc)
or_unknown-EndsTrimmed (c ∷ s) e = ends_trimmed [] (c ∷ s) e (λ z. cc)

pub peer_rest-EndsTrimmed : (params : SessionKeyParams) → EndsTrimmed (peer_rest params)
unfolding peer_rest peer_part
peer_rest-EndsTrimmed params = elim (Bool-cases (holds (text_dec kind (codes "direct")))) [
  | inl d ↦ rw d (
      direct_part-EndsTrimmed params.dm_scope params.channel params.account_id _ (
        direct_id_trimmed params.dm_scope params.identity_links params.channel (trim_space peer.id)
          (trim_space_idem peer.id)))
  | inr d ↦ rw d (
      EndsTrimmed-append (normalize_channel params.channel) _ (
        EndsTrimmed-cons b':' _ (
          EndsTrimmed-append kind _ (
            EndsTrimmed-cons b':' _ (
              or_unknown-EndsTrimmed (to_lower (trim_space peer.id))
                (lower_trimmed (trim_space peer.id) (trim_space_idem peer.id)))))))
]
  where
    peer : RoutePeer
    peer = peer_or_direct params.peer

    kind : Text
    kind = or_text (trim_space peer.kind) (codes "direct")
