-- ===== src/Activity/Tests.antt =====
-- Rows of backend/src/api/user-activity.ts and backend/src/api/agent-activity.ts at concrete events.
use sorosense.Base.{◌≡◌, refl, none, List, [], ◌∷◌, map}
use sorosense.Int.{pos}
use sorosense.Sort.{Ascending, KeysDistinct, sort_by, insert_by}
use sorosense.Seam.{usd}
use sorosense.Activity.User.{
  UserActionEvent, mandated, deposited, user_row, detail_for, derive_user_activity,
}
use sorosense.Activity.Agent.{AgentActionEvent, allocate, freeze, agent_row, derive_agent_activity}
use sorosense.Base.{some, All, length, ◌≤◌}
use sorosense.Dict.{get, put, has, add}
use sorosense.Compare.{Ordered, sort_with, insert_with}
use sorosense.Seam.{Currency}
use sorosense.Activity.Agent.{compounded, map_action}
use sorosense.Activity.Log.{
  Actor, NewEntry, ActivityLog, new_log, append, list, stored, list-append,
}
use sorosense.Activity.Feed.{
  ActivityFeedDeps, ActivityQuery, get_activity, merged, log_rows, chain_rows, user_rows,
  user_currencies, first_user_seq, first_currency_seq, after_entry, matches_scope, rows_in_order,
}
use sorosense.Activity.Scope.{InScope, get_activity-InScope}
use sorosense.Activity.Listing.{InBucket, get_activity_lem}
use sorosense.Activity.Order.{derive_user_activity_lem, derive_agent_activity_lem}
use mathlib.Core.List.{Permᴰ}

abbrev mandate : UserActionEvent
mandate = record { action = mandated; depositor = "alice"; seq = 4; ts = none }

abbrev first : UserActionEvent
first = record mandate { action = deposited usd (pos 100); seq = 2 }

sorted_rows : derive_user_activity (mandate ∷ first ∷ []) ≡ user_row first ∷ user_row mandate ∷ []
unfolding derive_user_activity sort_by insert_by detail_for
sorted_rows = refl

rows_listed :
    let events = mandate ∷ first ∷ [] in
    Permᴰ (derive_user_activity events) (map user_row events)
    × Ascending (λ row. row.seq) (derive_user_activity events)
    × ((events' : List UserActionEvent)
        → Permᴰ events events'
        → KeysDistinct (λ ev. ev.seq) events
        → derive_user_activity events ≡ derive_user_activity events')
rows_listed = derive_user_activity_lem (mandate ∷ first ∷ [])

abbrev move : AgentActionEvent
move = record { action = allocate usd (pos 100); seq = 5; ts = none }

abbrev stop : AgentActionEvent
stop = record { action = freeze; seq = 3; ts = none }

moves_listed :
    let events = move ∷ stop ∷ [] in
    Permᴰ (derive_agent_activity events) (map agent_row events)
    × Ascending (λ row. row.seq) (derive_agent_activity events)
    × ((events' : List AgentActionEvent)
        → Permᴰ events events'
        → KeysDistinct (λ ev. ev.seq) events
        → derive_agent_activity events ≡ derive_agent_activity events')
moves_listed = derive_agent_activity_lem (move ∷ stop ∷ [])

-- A log with one entry of the agent, and alice's first deposit between two moves of the agent.
abbrev entry : NewEntry
entry = record { currency = usd; kind = compounded; detail = "Compounded"; actor = none; ts = none }

abbrev log : ActivityLog
log = (append entry new_log).0

appended_entry : list (some usd) 5 (append entry log).0 ≡ stored entry log ∷ list (some usd) 4 log
appended_entry = list-append entry (some usd) 4 log

abbrev deps : ActivityFeedDeps
deps = record { log = log; user_events = mandate ∷ first ∷ []; agent_events = move ∷ stop ∷ [] }

abbrev query : ActivityQuery
query = record { depositor = some "alice"; actor = none; currency = none; limit = none }

-- The entry of the log has the sequence number 1, before alice's first deposit at 2.
alice_feed : map (λ row. row.seq) (get_activity query deps) ≡ 5 ∷ 4 ∷ 3 ∷ 2 ∷ []
unfolding get_activity merged log_rows chain_rows user_rows user_currencies first_user_seq
    first_currency_seq after_entry matches_scope rows_in_order append list sort_with insert_with
    derive_user_activity derive_agent_activity sort_by insert_by get put has add detail_for
    map_action
alice_feed = refl

get_activity-InScope_example : All (InScope "alice" deps.user_events) (get_activity query deps)
get_activity-InScope_example = get_activity-InScope query deps refl

get_activity_lem_example :
    let rows = get_activity query deps in
    (length rows ≤ 50)
    × Ordered (λ a b. b.seq ≤ a.seq) rows
    × ((a : Actor) → none ≡ some a → All (λ row. row.actor ≡ a) rows)
    × ((c : Currency) → none ≡ some c → All (InBucket c) rows)
get_activity_lem_example = get_activity_lem query deps
