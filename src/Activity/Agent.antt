-- ===== src/Activity/Agent.antt =====
-- backend/src/api/agent-activity.ts: the keeper's moves as rows.
use sorosense.Base.{ℕ, String, Option, none, some, List, map}
use sorosense.Sort.{sort_by}
use sorosense.Seam.{Currency, currency_text, Amount}
use Prim.Native.String.{◌++◌}

-- `ActivityKind` of backend/src/api/activity.ts
pub data ActivityKind : Type 0 where
  allocated rebalanced froze proposed_exit compounded : ActivityKind

pub data AgentAction : Type 0 where
  allocate deallocate : Currency → Amount → AgentAction
  freeze unfreeze : AgentAction
  propose_exit : Currency → AgentAction

pub record AgentActionEvent : Type 0 where
  pub action : AgentAction
  pub seq : ℕ
  pub ts : Option ℕ

-- `actor` is always 'agent'.
pub record AgentActivityEntry : Type 0 where
  pub currency : Option Currency
  pub kind : ActivityKind
  pub detail : String
  pub seq : ℕ
  pub ts : Option ℕ

unfoldable pub map_action : AgentAction → ActivityKind × String
map_action (allocate c amount) =
    (allocated, "Allocated " ++ (currency_text c ++ " into the yield pool"))
map_action (deallocate c amount) = (rebalanced, "Rebalanced " ++ currency_text c)
map_action freeze = (froze, "Froze a pool to protect deposits")
map_action unfreeze = (froze, "Lifted a pool freeze")
map_action (propose_exit c) = (proposed_exit, "Proposed a safe exit for " ++ currency_text c)

abbrev pub agent_currency : AgentAction → Option Currency
agent_currency (allocate c amount) = some c
agent_currency (deallocate c amount) = some c
agent_currency freeze = none
agent_currency unfreeze = none
agent_currency (propose_exit c) = some c

abbrev pub agent_row : AgentActionEvent → AgentActivityEntry
agent_row ev = record {
  currency = agent_currency ev.action;
  kind = (map_action ev.action).0;
  detail = (map_action ev.action).1;
  seq = ev.seq;
  ts = ev.ts;
}

unfoldable pub derive_agent_activity : List AgentActionEvent → List AgentActivityEntry
derive_agent_activity events = map agent_row (sort_by (λ ev. ev.seq) events)
