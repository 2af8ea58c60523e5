-- ===== src/Activity/Order.antt =====
-- The rows that backend/src/api/user-activity.ts and backend/src/api/agent-activity.ts derive, whatever
-- the order in which their events come.
use sorosense.Base.{◌≡◌, List, map, ap}
use sorosense.Sort.{
  map-perm, map-Ascending, Ascending, sort_by-Ascending, sort_by-perm, sort_by-perm_eq,
  KeysDistinct,
}
use sorosense.Activity.User.{UserActionEvent, user_row, derive_user_activity}
use sorosense.Activity.Agent.{AgentActionEvent, agent_row, derive_agent_activity}
use mathlib.Core.List.{Permᴰ}

-- Every user event becomes exactly one row, the rows are in ascending order of their sequence numbers,
-- and they are the same for every order of the events if no two share a sequence number.
pub derive_user_activity_lem :
    (events : List UserActionEvent)
    → Permᴰ (derive_user_activity events) (map user_row events)
      × Ascending (λ row. row.seq) (derive_user_activity events)
      × ((events' : List UserActionEvent)
          → Permᴰ events events'
          → KeysDistinct (λ ev. ev.seq) events
          → derive_user_activity events ≡ derive_user_activity events')
unfolding derive_user_activity
derive_user_activity_lem events = (
  map-perm user_row (sort_by-perm (λ ev. ev.seq) events),
  map-Ascending user_row (λ row. row.seq) _ (sort_by-Ascending (λ ev. ev.seq) events),
  λ events' p d. ap (map user_row) (sort_by-perm_eq (λ ev. ev.seq) p d),
)

-- Every action of the agent becomes exactly one row, the rows are in ascending order of their sequence
-- numbers, and they are the same for every order of the events if no two share a sequence number.
pub derive_agent_activity_lem :
    (events : List AgentActionEvent)
    → Permᴰ (derive_agent_activity events) (map agent_row events)
      × Ascending (λ row. row.seq) (derive_agent_activity events)
      × ((events' : List AgentActionEvent)
          → Permᴰ events events'
          → KeysDistinct (λ ev. ev.seq) events
          → derive_agent_activity events ≡ derive_agent_activity events')
unfolding derive_agent_activity
derive_agent_activity_lem events = (
  map-perm agent_row (sort_by-perm (λ ev. ev.seq) events),
  map-Ascending agent_row (λ row. row.seq) _ (sort_by-Ascending (λ ev. ev.seq) events),
  λ events' p d. ap (map agent_row) (sort_by-perm_eq (λ ev. ev.seq) p d),
)
