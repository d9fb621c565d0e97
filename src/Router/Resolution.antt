-- ===== src/Router/Resolution.antt =====
-- The order in which router.rs resolves an agent, against the specificity of a binding.
use adk_gateway.Common.{
  ℕ, String, List, [], ◌∷◌, ◌++◌, Option, none, some, Bool, true, false, not, ◌&&◌, if◌then◌else◌,
  str_eq, ◌==◌, All, All-map, All-append, ◌≡◌, refl, ◌<◌, ◌≤◌, arith,
}
use adk_gateway.Router.{
  InboundMessage, AgentBinding, MessageRouter, channel_name, exact_match, account_match,
  channel_match, find_binding, find_legacy, unwrap_or, resolve_agent,
}

abbrev pub names_account : InboundMessage → String → Bool
names_account msg a = not (str_eq msg.account_id "") && str_eq a msg.account_id

abbrev pub specificity : InboundMessage → Option String → Option String → ℕ
specificity msg none none = 1
specificity msg none (some peer) = 0
specificity msg (some a) none = if names_account msg a then 2 else 0
specificity msg (some a) (some peer) =
    if names_account msg a && str_eq peer msg.sender_id then 3 else 0

-- How specifically a binding fits a message: 3 for channel, account and peer, 2 for channel and
-- account, 1 for the channel alone, and 0 where it does not fit.
unfoldable pub rank : InboundMessage → AgentBinding → ℕ
rank msg ab =
    if str_eq ab.channel_type (channel_name msg.channel_type)
    then specificity msg ab.account_id ab.peer_filter
    else 0

match-rank :
    (msg : InboundMessage) (ab : AgentBinding)
    → (exact_match msg ab ≡ (rank msg ab == 3))
      × (account_match msg ab ≡ (rank msg ab == 2))
      × (channel_match msg ab ≡ (rank msg ab == 1))
unfolding exact_match account_match channel_match rank
match-rank msg ab = (ground arith, ground arith, ground arith)

find_first :
    (test : AgentBinding → Bool) (before after : List AgentBinding) (ab : AgentBinding)
    → All (λ b. test b ≡ false) before
    → test ab ≡ true
    → find_binding test (before ++ (ab ∷ after)) ≡ some ab.agent_id
unfolding find_binding
find_first test [] after ab fails fits = rw fits
find_first test (b ∷ before) after ab (h, fails) fits =
    rw h (find_first test before after ab fails fits)

find_none :
    (test : AgentBinding → Bool) (bs : List AgentBinding)
    → All (λ b. test b ≡ false) bs
    → find_binding test bs ≡ none
unfolding find_binding
find_none test [] fails = refl
find_none test (b ∷ bs) (h, fails) = rw h (find_none test bs fails)

find_skip :
    (test : AgentBinding → Bool) (before after : List AgentBinding) (ab : AgentBinding)
    → test ab ≡ false
    → find_binding test (before ++ (ab ∷ after)) ≡ find_binding test (before ++ after)
unfolding find_binding
find_skip test [] after ab fails = rw fails
find_skip test (b ∷ before) after ab fails = ground (arith, find_skip test before after ab fails)

rank-le : (msg : InboundMessage) (ab : AgentBinding) → rank msg ab ≤ 3
unfolding rank
rank-le msg ab = ground arith

-- The agent bindings as those that stand before the chosen one, it, and those after it.
module _ (msg : InboundMessage) (before after : List AgentBinding) (ab : AgentBinding)
    (test : AgentBinding → Bool) (k : ℕ) (tests : (b : AgentBinding) → test b ≡ (rank msg b == k))
    (above : All (λ b. rank msg b < rank msg ab) before)
    (below : All (λ b. rank msg b ≤ rank msg ab) after) where
  phase_hits : rank msg ab ≡ k → find_binding test (before ++ (ab ∷ after)) ≡ some ab.agent_id
  phase_hits e =
      find_first test before after ab
        (All-map (λ b (h : rank msg b < rank msg ab). ground (arith, tests b)) before above)
        (ground (arith, tests ab))

  phase_misses : rank msg ab < k → find_binding test (before ++ (ab ∷ after)) ≡ none
  phase_misses e = find_none test (before ++ (ab ∷ after)) (
      All-append (λ b. test b ≡ false) before (ab ∷ after)
        (All-map (λ b (h : rank msg b < rank msg ab). ground (arith, tests b)) before above)
        (
          ground (arith, tests ab),
          All-map (λ b (h : rank msg b ≤ rank msg ab). ground (arith, tests b)) after below,
        ))

-- An agent binding that fits decides: the agent is that of the first binding of the highest rank,
-- before every legacy binding and the default.
pub resolve_agent-most_specific :
    (r : MessageRouter) (msg : InboundMessage) (before after : List AgentBinding)
    (ab : AgentBinding)
    → r.agent_bindings ≡ before ++ (ab ∷ after)
    → 0 < rank msg ab
    → All (λ b. rank msg b < rank msg ab) before
    → All (λ b. rank msg b ≤ rank msg ab) after
    → resolve_agent r msg ≡ ab.agent_id
unfolding resolve_agent
resolve_agent-most_specific r msg before after ab e fits above below = ground (
  arith,
  rank-le msg ab,
  phase_hits msg before after ab (exact_match msg) 3 (λ b. (match-rank msg b).0) above below,
  phase_hits msg before after ab (account_match msg) 2 (λ b. (match-rank msg b).1) above below,
  phase_hits msg before after ab (channel_match msg) 1 (λ b. (match-rank msg b).2) above below,
  phase_misses msg before after ab (exact_match msg) 3 (λ b. (match-rank msg b).0) above below,
  phase_misses msg before after ab (account_match msg) 2 (λ b. (match-rank msg b).1) above below,
)

-- Where no agent binding fits, the first legacy binding that matches decides, and else the default.
pub resolve_agent_unbound :
    (r : MessageRouter) (msg : InboundMessage)
    → All (λ b. rank msg b ≡ 0) r.agent_bindings
    → resolve_agent r msg ≡ unwrap_or (find_legacy msg r.bindings) r.default_agent_id
unfolding resolve_agent
resolve_agent_unbound r msg none_fits =
    let miss =
      λ (test : AgentBinding → Bool) (k : ℕ) (pos : 0 < k)
          (tests : (b : AgentBinding) → test b ≡ (rank msg b == k)).
        find_none test r.agent_bindings (
          All-map (λ b (h : rank msg b ≡ 0). ground (arith, tests b)) r.agent_bindings none_fits) in
    rw (
      miss (exact_match msg) 3 (omega arith) (λ b. (match-rank msg b).0),
      miss (account_match msg) 2 (omega arith) (λ b. (match-rank msg b).1),
      miss (channel_match msg) 1 (omega arith) (λ b. (match-rank msg b).2),
    )

-- A binding with a peer filter and no account fits no message, so it changes no resolution.
pub peer_without_account_never_fits :
    (r : MessageRouter) (msg : InboundMessage) (before after : List AgentBinding)
    (ab : AgentBinding) (peer : String)
    → ab.account_id ≡ none
    → ab.peer_filter ≡ some peer
    → resolve_agent (record r { agent_bindings = before ++ (ab ∷ after) }) msg
      ≡ resolve_agent (record r { agent_bindings = before ++ after }) msg
unfolding resolve_agent exact_match account_match channel_match
peer_without_account_never_fits r msg before after ab peer no_account has_peer = rw (
  find_skip (exact_match msg) before after ab (ground arith),
  find_skip (account_match msg) before after ab (ground arith),
  find_skip (channel_match msg) before after ab (ground arith),
)
