-- ===== src/Router/Bindings.antt =====
-- Changes of the agent bindings of a router (router.rs).
use adk_gateway.Common.{
  String, List, [], ◌∷◌, ◌++◌, map, not, str_eq, filter, filter-append, filter-filter, ◌≡◌, refl,
  ap, arith, eq_iff,
}
use mathlib.Core.List.{append-nil}
use adk_gateway.AgentConfig.{ChannelBinding}
use adk_gateway.Router.{
  AgentBinding, MessageRouter, bind_agent, add_agent_bindings, remove_agent_bindings,
  update_agent_bindings,
}

-- The bindings of one agent, and those of all others.
abbrev pub own : String → List AgentBinding → List AgentBinding
own id = filter (λ b. str_eq b.agent_id id)

abbrev pub others : String → List AgentBinding → List AgentBinding
others id = filter (λ b. not (str_eq b.agent_id id))

own-bound :
    (id : String) (cbs : List ChannelBinding)
    → own id (map (bind_agent id) cbs) ≡ map (bind_agent id) cbs
own-bound id [] = refl
own-bound id (cb ∷ cbs) = ground (arith, eq_iff id id, own-bound id cbs)

others-bound : (id : String) (cbs : List ChannelBinding) → others id (map (bind_agent id) cbs) ≡ []
others-bound id [] = refl
others-bound id (cb ∷ cbs) = ground (arith, eq_iff id id, others-bound id cbs)

own-others : (id : String) (bs : List AgentBinding) → own id (others id bs) ≡ []
own-others id [] = refl
own-others id (b ∷ bs) = ground (arith, own-others id bs)

-- `update_agent_bindings` leaves the agent with exactly the given bindings, in their order, and
-- every other agent's bindings, the legacy bindings and the default as they were.
pub update_agent_bindings_lem :
    (r : MessageRouter) (id : String) (cbs : List ChannelBinding)
    → (own id (update_agent_bindings r id cbs).agent_bindings ≡ map (bind_agent id) cbs)
      × (others id (update_agent_bindings r id cbs).agent_bindings ≡ others id r.agent_bindings)
      × ((update_agent_bindings r id cbs).bindings ≡ r.bindings)
      × ((update_agent_bindings r id cbs).default_agent_id ≡ r.default_agent_id)
unfolding update_agent_bindings add_agent_bindings remove_agent_bindings
update_agent_bindings_lem r id cbs = (
  rw (
    filter-append (λ (b : AgentBinding). str_eq b.agent_id id) (others id r.agent_bindings)
        (map (bind_agent id) cbs),
    own-others id r.agent_bindings,
    own-bound id cbs,
  ),
  rw
      (
        filter-append (λ (b : AgentBinding). not (str_eq b.agent_id id))
            (others id r.agent_bindings) (map (bind_agent id) cbs),
        filter-filter (λ (b : AgentBinding). not (str_eq b.agent_id id)) r.agent_bindings,
        others-bound id cbs,
      )
      (append-nil (others id r.agent_bindings)),
  refl,
  refl,
)

-- The last of two updates of one agent decides: the first leaves no trace.
pub update_agent_bindings_twice :
    (r : MessageRouter) (id : String) (cbs cbs' : List ChannelBinding)
    → update_agent_bindings (update_agent_bindings r id cbs) id cbs'
      ≡ update_agent_bindings r id cbs'
unfolding update_agent_bindings add_agent_bindings remove_agent_bindings
update_agent_bindings_twice r id cbs cbs' =
    ap (λ bs. record r { agent_bindings = bs ++ map (bind_agent id) cbs' })
      (rw
        (
          filter-append (λ (b : AgentBinding). not (str_eq b.agent_id id))
              (others id r.agent_bindings) (map (bind_agent id) cbs),
          filter-filter (λ (b : AgentBinding). not (str_eq b.agent_id id)) r.agent_bindings,
          others-bound id cbs,
        )
        (append-nil (others id r.agent_bindings)))
