-- ===== src/Activity/Listing.antt =====
-- The length, the order and the filters of the feed of backend/src/api/activity-feed.ts.
use sorosense.Base.{
  ◌≤◌, ◌≡◌, refl, ap, true, false, Option, none, some, List, ◌++◌, ◌⊎◌, inl, inr, keep, length,
  get_or, ◌∙◌, Option-cases, All, arith,
}
use sorosense.Lists.{All-append, All-take, keep-All_of, length-take, All-reverse, Ordered-take}
use mathlib.Core.Path.{subst}
use sorosense.Sum.{All-keep}
use sorosense.Sort.{map-All}
use sorosense.Compare.{sort_with-All, Ordered, sort_with-Ordered}
use sorosense.Seam.{Currency, currency_key, currency_beq_iff}
use sorosense.Activity.User.{UserActivityEntry}
use sorosense.Activity.Agent.{AgentActionEvent, AgentActivityEntry}
use sorosense.Activity.Log.{
  Actor, agent, actor_key, actor_beq_iff, ActivityLog, default_limit, list, in_bucket, filtered,
}
use sorosense.Activity.Feed.{
  ActivityFeedDeps, ActivityQuery, FeedEntry, user_rows, log_rows, chain_rows, merged, get_activity,
  rows_in_order, of_actor, user_in_bucket, agent_in_bucket, matches_scope, after_entry, user_feed,
  log_feed, agent_feed,
}

in_order : (a b : FeedEntry) → rows_in_order a b ≡ true → b.seq ≤ a.seq
unfolding rows_in_order
in_order a b h = ground (arith, h)

out_of_order : (a b : FeedEntry) → rows_in_order a b ≡ false → a.seq ≤ b.seq
unfolding rows_in_order
out_of_order a b h = ground (arith, h)

-- In the bucket, or a move of the agent that no bucket has.
abbrev pub InBucket : Currency → FeedEntry → Type 0
InBucket c row = (row.currency ≡ some c) ⊎ ((row.currency ≡ none) × (row.actor ≡ agent))

user_rows-InBucket :
    (query : ActivityQuery) (deps : ActivityFeedDeps) {c : Currency}
    → query.currency ≡ some c
    → All (InBucket c) (user_rows query deps)
unfolding user_rows
user_rows-InBucket query deps {c} asked = map-All user_feed (InBucket c) _ (
    keep-All_of _ (user_in_bucket query.currency) _
      (λ row h. inl (matched row (subst (λ q. user_in_bucket q row ≡ true) asked h))))
  where
    matched : (row : UserActivityEntry) → user_in_bucket (some c) row ≡ true → row.currency ≡ some c
    matched row h = elim (Option-cases row.currency) [
      | inl free ↦ absurd (ground (arith, h, free))
      | inr (b, e) ↦ e ∙ ap some ((currency_beq_iff b c).0 (ground (arith, h, e)))
    ]

log_rows-InBucket :
    (query : ActivityQuery) (rows : List FeedEntry) (log : ActivityLog) {c : Currency}
    → query.currency ≡ some c
    → All (InBucket c) (log_rows query rows log)
unfolding log_rows list
log_rows-InBucket query rows log {c} asked =
    All-keep (InBucket c) (λ r. after_entry query rows r.seq r.currency) _
      (All-keep (InBucket c) (λ r. matches_scope query rows r.currency) _
        (map-All log_feed (InBucket c) (list query.currency default_limit log)
          (All-take _ default_limit _ (All-reverse _ _ (entries query.currency asked)))))
  where
    entries :
        (currency : Option Currency)
        → currency ≡ some c
        → All (λ e. InBucket c (log_feed e)) (filtered currency log.entries)
    entries none e = cc
    entries (some b) e =
        keep-All_of _ (in_bucket (some b)) log.entries
          (λ entry h. inl (ap some ((currency_beq_iff entry.currency b).0 h) ∙ e))

chain_rows-InBucket :
    (query : ActivityQuery) (rows : List FeedEntry) (moves : List AgentActionEvent) {c : Currency}
    → query.currency ≡ some c
    → All (InBucket c) (chain_rows query rows moves)
unfolding chain_rows
chain_rows-InBucket query rows moves {c} asked = map-All agent_feed (InBucket c) _ (
    All-keep shown (λ r. after_entry query rows r.seq r.currency) _
      (All-keep shown (λ r. matches_scope query rows r.currency) _
        (keep-All_of shown (agent_in_bucket query.currency) _
          (λ row h. matched row (subst (λ q. agent_in_bucket q row ≡ true) asked h)))))
  where
    shown : AgentActivityEntry → Type 0
    shown row = InBucket c (agent_feed row)

    matched :
        (row : AgentActivityEntry)
        → agent_in_bucket (some c) row ≡ true
        → InBucket c (agent_feed row)
    matched row h = elim (Option-cases row.currency) [
      | inl free ↦ inr (free, refl)
      | inr (b, e) ↦ inl (e ∙ ap some ((currency_beq_iff b c).0 (ground (arith, h, e))))
    ]

of_actor-eq : {a : Actor} (row : FeedEntry) → of_actor (some a) row ≡ true → row.actor ≡ a
of_actor-eq {a} row h = (actor_beq_iff row.actor a).0 h

-- A feed has at most as many rows as its limit, 50 if none is given, and descends by the sequence
-- numbers. If the query names an actor all rows are that actor's, and if it names a currency each row
-- is in that bucket or is a move of the agent without a currency.
pub get_activity_lem :
    (query : ActivityQuery) (deps : ActivityFeedDeps)
    → let rows = get_activity query deps in
      (length rows ≤ get_or query.limit default_limit)
      × Ordered (λ a b. b.seq ≤ a.seq) rows
      × ((a : Actor) → query.actor ≡ some a → All (λ row. row.actor ≡ a) rows)
      × ((c : Currency) → query.currency ≡ some c → All (InBucket c) rows)
unfolding get_activity merged
get_activity_lem query deps =
    let own = user_rows query deps in
    let limit = get_or query.limit default_limit in
    let all = log_rows query own deps.log ++ (chain_rows query own deps.agent_events ++ own) in
    (
      length-take limit (merged query own deps),
      Ordered-take _ limit (merged query own deps) (
          sort_with-Ordered rows_in_order (λ a b. b.seq ≤ a.seq) (λ x y z p q. omega (arith, p, q))
            in_order out_of_order (keep (of_actor query.actor) all)),
      λ a asked. All-take _ limit (merged query own deps) (
          sort_with-All rows_in_order (λ row. row.actor ≡ a) (keep (of_actor query.actor) all)
            (keep-All_of _ (of_actor query.actor) all
              (λ row h. of_actor-eq row (subst (λ q. of_actor q row ≡ true) asked h)))),
      λ c asked. All-take (InBucket c) limit (merged query own deps) (
          sort_with-All rows_in_order (InBucket c) (keep (of_actor query.actor) all) (
            All-keep (InBucket c) (of_actor query.actor) all (
              All-append (InBucket c) (log_rows query own deps.log) _
                (log_rows-InBucket query own deps.log asked)
                (All-append (InBucket c) (chain_rows query own deps.agent_events) own
                  (chain_rows-InBucket query own deps.agent_events asked)
                  (user_rows-InBucket query deps asked))))),
    )
