-- ===== src/Routing/Route/Cascade.antt =====
-- The cascade of ResolveRoute against one look at each binding's rank.
use halfmoon.Base.{
  ℕ, zero, suc, ◌≡◌, inl, inr, refl, ap, ap₂, sym, ◌∙◌, Bool, true, false, Option, none, some, List,
  [], ◌∷◌, arith, leb, if◌then◌else◌, Bool-cases,
}
use halfmoon.Base.Text.{Text, trim_space}
use halfmoon.Routing.Config.{
  AgentBinding, Config, RouteInput, MatchedBy, by_peer, by_parent_peer, by_guild, by_team,
  by_account, by_channel, by_default,
}
use halfmoon.Routing.SessionKey.{RoutePeer, is_blank}
use halfmoon.Routing.Route.{
  first_match, is_peer_match, is_guild_match, is_team_match, is_account_match,
  is_channel_wildcard_match, find_peer_match, find_guild_match, find_team_match, find_account_match,
  find_channel_wildcard_match, resolve_default_agent_id, at_peer, at_guild, at_team, or_next,
  cascade, filter_bindings, route_channel, choose, resolve_route,
}
use halfmoon.Routing.AgentId.{normalize_account_id}

abbrev pub Test : Type 0
Test = AgentBinding → Bool

succ : Option (ℕ × AgentBinding) → Option (ℕ × AgentBinding)
succ none = none
succ (some (n, b)) = some (suc n, b)

-- The position of the first test that the binding passes.
unfoldable pub ranked : List Test → AgentBinding → Option (ℕ × AgentBinding)
unfolding succ
ranked [] b = none
ranked (p ∷ ps) b = let rest = ranked ps b in if p b then some (zero, b) else succ rest

-- The smaller rank, and of equal ranks the one in front.
unfoldable pub better :
    Option (ℕ × AgentBinding) → Option (ℕ × AgentBinding) → Option (ℕ × AgentBinding)
better none y = y
better (some x) none = some x
better (some (n, b)) (some (k, d)) = if leb n k then some (n, b) else some (k, d)

unfoldable pub best : List Test → List AgentBinding → Option (ℕ × AgentBinding)
unfolding ranked better
best ps [] = none
best ps (b ∷ bs) = better (ranked ps b) (best ps bs)

leb-suc : (n k : ℕ) → leb (suc n) (suc k) ≡ leb n k
leb-suc n k = elim (Bool-cases (leb n k)) [
  | inl l ↦ rw l (ground arith)
  | inr l ↦ rw l (ground arith)
]

leb-zero : (n : ℕ) → leb zero n ≡ true
leb-zero n = ground arith

leb-suc-zero : (n : ℕ) → leb (suc n) zero ≡ false
leb-suc-zero n = ground arith

better-succ : (x y : Option (ℕ × AgentBinding)) → better (succ x) (succ y) ≡ succ (better x y)
unfolding better succ
better-succ none y = refl
better-succ (some x) none = refl
better-succ (some (n, b)) (some (k, d)) = elim (Bool-cases (leb n k)) [
  | inl l ↦ rw (leb-suc n k, l) refl
  | inr l ↦ rw (leb-suc n k, l) refl
]

better-zero :
    (b : AgentBinding) (y : Option (ℕ × AgentBinding)) → better (some (zero, b)) y ≡ some (zero, b)
unfolding better
better-zero b none = refl
better-zero b (some (k, d)) = rw (leb-zero k) refl

succ-zero :
    (b : AgentBinding) (x : Option (ℕ × AgentBinding))
    → better (succ x) (some (zero, b)) ≡ some (zero, b)
unfolding better succ
succ-zero b none = refl
succ-zero b (some (k, d)) = rw (leb-suc-zero k) refl

best-nil : (bs : List AgentBinding) → best [] bs ≡ none
unfolding best ranked better
best-nil [] = refl
best-nil (b ∷ bs) = best-nil bs

scan_level : Option AgentBinding → Option (ℕ × AgentBinding) → Option (ℕ × AgentBinding)
unfolding succ
scan_level none rest = succ rest
scan_level (some b) rest = some (zero, b)

better-scan_level :
    (x : Option (ℕ × AgentBinding)) (m : Option AgentBinding) (y : Option (ℕ × AgentBinding))
    → better (succ x) (scan_level m y) ≡ scan_level m (better x y)
unfolding scan_level
better-scan_level x none y = better-succ x y
better-scan_level x (some b) y = succ-zero b x

best-cons :
    (p : Test) (ps : List Test) (bs : List AgentBinding)
    → best (p ∷ ps) bs ≡ scan_level (first_match p bs) (best ps bs)
unfolding best ranked first_match scan_level
best-cons p ps [] = unfold succ in refl
best-cons p ps (b ∷ bs) = elim (Bool-cases (p b)) [
  | inl h ↦ rw h (better-zero b (best (p ∷ ps) bs))
  | inr h ↦
      rw (h, best-cons p ps bs) (better-scan_level (ranked ps b) (first_match p bs) (best ps bs))
]

-- The six levels' tests; a level whose guard fails has a test that no binding passes.
peer_test : Option RoutePeer → Test
unfolding is_peer_match
peer_test none b = false
peer_test (some peer) b = if is_blank (trim_space peer.id) then false else is_peer_match peer b

named_test : (Text → Test) → Text → Test
named_test p id b = if is_blank id then false else p id b

unfoldable pub level_tests : RouteInput → List Test
unfolding is_guild_match is_team_match is_account_match is_channel_wildcard_match peer_test
    named_test
level_tests input =
    peer_test input.peer
    ∷ peer_test input.parent_peer
    ∷ named_test is_guild_match (trim_space input.guild_id)
    ∷ named_test is_team_match (trim_space input.team_id)
    ∷ is_account_match
    ∷ is_channel_wildcard_match
    ∷ []

abbrev pub levels : List MatchedBy
levels = by_peer ∷ by_parent_peer ∷ by_guild ∷ by_team ∷ by_account ∷ by_channel ∷ []

abbrev pub level_at : List MatchedBy → ℕ → MatchedBy
level_at [] n = by_default
level_at (l ∷ ls) zero = l
level_at (l ∷ ls) (suc n) = level_at ls n

unfoldable pub verdict : Config → List MatchedBy → Option (ℕ × AgentBinding) → Text × MatchedBy
unfolding resolve_default_agent_id
verdict cfg ls none = (resolve_default_agent_id cfg.agents, by_default)
verdict cfg ls (some (n, b)) = (b.agent_id, level_at ls n)

verdict-scan_level :
    (cfg : Config) (l : MatchedBy) (ls : List MatchedBy) (m : Option AgentBinding)
    (x : Option (ℕ × AgentBinding))
    → verdict cfg (l ∷ ls) (scan_level m x) ≡ or_next m l (verdict cfg ls x)
unfolding verdict scan_level succ
verdict-scan_level cfg l ls none none = refl
verdict-scan_level cfg l ls none (some (n, b)) = refl
verdict-scan_level cfg l ls (some d) x = refl

verdict-nil :
    (cfg : Config) (bs : List AgentBinding)
    → verdict cfg [] (best [] bs) ≡ (resolve_default_agent_id cfg.agents, by_default)
unfolding verdict
verdict-nil cfg bs = rw (best-nil bs) refl

level :
    (cfg : Config) (l : MatchedBy) (ls : List MatchedBy) (p : Test) (ps : List Test)
    (bs : List AgentBinding) {m : Option AgentBinding} {rest : Text × MatchedBy}
    → first_match p bs ≡ m
    → verdict cfg ls (best ps bs) ≡ rest
    → verdict cfg (l ∷ ls) (best (p ∷ ps) bs) ≡ or_next m l rest
level cfg l ls p ps bs e k =
    ap (verdict cfg (l ∷ ls)) (best-cons p ps bs)
    ∙ verdict-scan_level cfg l ls (first_match p bs) (best ps bs)
    ∙ ap₂ (λ x y. or_next x l y) e k

first_match-never : (bs : List AgentBinding) → first_match (λ b. false) bs ≡ none
unfolding first_match
first_match-never [] = refl
first_match-never (b ∷ bs) = first_match-never bs

first_match-if :
    (c : Bool) (p : Test) (bs : List AgentBinding)
    → first_match (λ b. if c then false else p b) bs ≡ (if c then none else first_match p bs)
first_match-if true p bs = first_match-never bs
first_match-if false p bs = refl

first_match-peer :
    (peer : Option RoutePeer) (bs : List AgentBinding)
    → first_match (peer_test peer) bs ≡ at_peer peer bs
unfolding peer_test at_peer find_peer_match
first_match-peer none bs = first_match-never bs
first_match-peer (some peer) bs =
    first_match-if (is_blank (trim_space peer.id)) (is_peer_match peer) bs

first_match-guild :
    (id : Text) (bs : List AgentBinding)
    → first_match (named_test is_guild_match id) bs ≡ at_guild id bs
unfolding named_test at_guild find_guild_match
first_match-guild id bs = first_match-if (is_blank id) (is_guild_match id) bs

first_match-team :
    (id : Text) (bs : List AgentBinding)
    → first_match (named_test is_team_match id) bs ≡ at_team id bs
unfolding named_test at_team find_team_match
first_match-team id bs = first_match-if (is_blank id) (is_team_match id) bs

cascade-best :
    (cfg : Config) (input : RouteInput) (bindings : List AgentBinding)
    → cascade cfg input bindings ≡ verdict cfg levels (best (level_tests input) bindings)
unfolding cascade level_tests find_account_match find_channel_wildcard_match
cascade-best cfg input bindings = sym (
    level cfg _ _ _ _ bindings (first_match-peer input.peer bindings) (
      level cfg _ _ _ _ bindings (first_match-peer input.parent_peer bindings) (
        level cfg _ _ _ _ bindings (first_match-guild (trim_space input.guild_id) bindings) (
          level cfg _ _ _ _ bindings (first_match-team (trim_space input.team_id) bindings) (
            level cfg _ _ _ _ bindings refl
              (level cfg _ _ _ _ bindings refl (verdict-nil cfg bindings)))))))

-- ResolveRoute's six scans of the bindings of the message's channel and account, one behind the other,
-- choose what a single pass over these bindings would that gives each the first of the six levels it
-- matches and keeps the one with the smallest level, the front one of two with the same level; when
-- none matches any level, the default agent is asked for.
pub resolve_route-best :
    (cfg : Config) (input : RouteInput)
    → resolve_route cfg input
      ≡ choose cfg input (
          verdict cfg levels (
            best (level_tests input) (
              filter_bindings
                (route_channel input)
                (normalize_account_id input.account_id)
                cfg.bindings)))
unfolding resolve_route
resolve_route-best cfg input = ap (choose cfg input) (
    cascade-best cfg input
      (filter_bindings (route_channel input) (normalize_account_id input.account_id) cfg.bindings))
