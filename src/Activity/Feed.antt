-- ===== src/Activity/Feed.antt =====
-- backend/src/api/activity-feed.ts: the feed merged from the log, the agent's actions and the
-- depositors' own.
use sorosense.Base.{
  ℕ, String, Bool, true, false, Option, none, some, List, [], ◌∷◌, ◌++◌, map, keep, take, ◌==◌, not,
  ltb, leb, nat_beq, get_or, length, if◌then◌else◌, string_key,
}
use sorosense.Compare.{sort_with}
use sorosense.Dict.{Dict, get, put, has, add}
use sorosense.Seam.{Currency, currency_key, Address}
use sorosense.Activity.User.{
  UserActionKind, deposit, withdraw, sign_mandate, approve_exit, auto_compound, UserActionEvent,
  UserActivityEntry, derive_user_activity,
}
use sorosense.Activity.Agent.{
  ActivityKind, allocated, rebalanced, froze, proposed_exit, compounded, AgentActionEvent,
  AgentActivityEntry, derive_agent_activity,
}
use sorosense.Activity.Log.{
  Actor, you, agent, actor_key, ActivityEntry, ActivityLog, default_limit, list,
}
use Prim.Native.String.{compare}
use Prim.Native.Nat.{Ordering}

pub record ActivityFeedDeps : Type 0 where
  pub log : ActivityLog
  pub user_events : List UserActionEvent
  pub agent_events : List AgentActionEvent

pub record ActivityQuery : Type 0 where
  pub depositor : Option Address
  pub actor : Option Actor
  pub currency : Option Currency
  pub limit : Option ℕ

pub data FeedKind : Type 0 where
  of_agent : ActivityKind → FeedKind
  of_user : UserActionKind → FeedKind

pub record FeedEntry : Type 0 where
  pub seq : ℕ
  pub actor : Actor
  pub currency : Option Currency
  pub kind : FeedKind
  pub detail : String
  pub ts : Option ℕ
  pub depositor : Option Address

-- The members of the unions, as the text that the comparison sees.
abbrev pub actor_text : Actor → String
actor_text you = "you"
actor_text agent = "agent"

abbrev pub kind_text : FeedKind → String
kind_text (of_agent allocated) = "allocated"
kind_text (of_agent compounded) = "compounded"
kind_text (of_agent rebalanced) = "rebalanced"
kind_text (of_agent froze) = "froze"
kind_text (of_agent proposed_exit) = "proposed-exit"
kind_text (of_user deposit) = "deposit"
kind_text (of_user withdraw) = "withdraw"
kind_text (of_user sign_mandate) = "sign-mandate"
kind_text (of_user approve_exit) = "approve-exit"
kind_text (of_user auto_compound) = "auto-compound"

-- Whether `a` is at most `b`: texts compare by their characters. JavaScript compares UTF-16 units, which
-- is the same for characters up to U+FFFF.
abbrev pub text_le : String → String → Bool
text_le a b = elim (compare a b) [ Ordering.gt ↦ false | _ ↦ true ]

-- Whether `compareRows a b` is at most 0.
unfoldable pub rows_in_order : FeedEntry → FeedEntry → Bool
rows_in_order a b =
    if not (nat_beq a.seq b.seq)
    then ltb b.seq a.seq
    else (if not (actor_text a.actor == actor_text b.actor)
        then text_le (actor_text a.actor) (actor_text b.actor)
        else (if not (kind_text a.kind == kind_text b.kind)
            then text_le (kind_text a.kind) (kind_text b.kind)
            else text_le a.detail b.detail))

abbrev pub of_depositor : Option Address → UserActivityEntry → Bool
of_depositor none row = true
of_depositor (some d) row = row.depositor == d

abbrev pub same_currency : Option Currency → Currency → Bool
same_currency none c = false
same_currency (some b) c = b == c

abbrev pub user_in_bucket : Option Currency → UserActivityEntry → Bool
user_in_bucket none row = true
user_in_bucket (some c) row = same_currency row.currency c

abbrev pub user_feed : UserActivityEntry → FeedEntry
user_feed row = record {
  seq = row.seq;
  actor = you;
  currency = row.currency;
  kind = of_user row.kind;
  detail = row.detail;
  ts = row.ts;
  depositor = some row.depositor;
}

abbrev pub log_feed : ActivityEntry → FeedEntry
log_feed e = record {
  seq = e.id;
  actor = e.actor;
  currency = some e.currency;
  kind = of_agent e.kind;
  detail = e.detail;
  ts = e.ts;
  depositor = none;
}

abbrev pub agent_feed : AgentActivityEntry → FeedEntry
agent_feed row = record {
  seq = row.seq;
  actor = agent;
  currency = row.currency;
  kind = of_agent row.kind;
  detail = row.detail;
  ts = row.ts;
  depositor = none;
}

unfoldable pub user_rows : ActivityQuery → ActivityFeedDeps → List FeedEntry
user_rows query deps = map user_feed (
    keep (user_in_bucket query.currency)
      (keep (of_depositor query.depositor) (derive_user_activity deps.user_events)))

-- `Math.min` where `none` is infinity.
abbrev pub min_seq : Option ℕ → ℕ → ℕ
min_seq none n = n
min_seq (some m) n = if leb m n then m else n

-- The set, of which the code asks only what it has and whether it is empty.
unfoldable pub user_currencies : List FeedEntry → List Currency
user_currencies [] = []
user_currencies (row ∷ rows) =
    let rest = user_currencies rows in elim row.currency [ none ↦ rest | some c ↦ add c rest ]

unfoldable pub first_user_seq : List FeedEntry → Option ℕ
first_user_seq [] = none
first_user_seq (row ∷ rows) = some (min_seq (first_user_seq rows) row.seq)

unfoldable pub first_currency_seq : List FeedEntry → Dict Currency ℕ
first_currency_seq [] = []
first_currency_seq (row ∷ rows) =
    let rest = first_currency_seq rows in
    elim row.currency [ none ↦ rest | some c ↦ put c (min_seq (get c rest) row.seq) rest ]

-- `first` is the sequence number from which on a row is in scope, if there is one.
abbrev pub since : Option ℕ → ℕ → Bool
since none seq = false
since (some first) seq = leb first seq

abbrev pub agent_in_bucket : Option Currency → AgentActivityEntry → Bool
agent_in_bucket none row = true
agent_in_bucket (some c) row = elim row.currency [ none ↦ true | some b ↦ b == c ]

abbrev pub of_actor : Option Actor → FeedEntry → Bool
of_actor none row = true
of_actor (some a) row = row.actor == a

module _ (query : ActivityQuery) (rows : List FeedEntry) where
  unfoldable pub matches_scope : Option Currency → Bool
  matches_scope currency = elim query.depositor [
    | none ↦ true
    | some d ↦ elim currency [
      | none ↦ ltb 0 (length (user_currencies rows))
      | some c ↦ has c (user_currencies rows)
    ]
  ]

  unfoldable pub after_entry : ℕ → Option Currency → Bool
  after_entry seq currency = elim query.depositor [
    | none ↦ true
    | some d ↦ elim currency [
      | none ↦ since (first_user_seq rows) seq
      | some c ↦ since (get c (first_currency_seq rows)) seq
    ]
  ]

  unfoldable pub log_rows : ActivityLog → List FeedEntry
  log_rows log =
      keep (λ r. after_entry r.seq r.currency)
        (keep (λ r. matches_scope r.currency)
          (map log_feed (list query.currency default_limit log)))

  unfoldable pub chain_rows : List AgentActionEvent → List FeedEntry
  chain_rows events = map agent_feed (
      keep (λ r. after_entry r.seq r.currency)
        (keep (λ r. matches_scope r.currency)
          (keep (agent_in_bucket query.currency) (derive_agent_activity events))))

  unfoldable pub merged : ActivityFeedDeps → List FeedEntry
  merged deps =
      sort_with rows_in_order
        (keep (of_actor query.actor) (log_rows deps.log ++ (chain_rows deps.agent_events ++ rows)))

unfoldable pub get_activity : ActivityQuery → ActivityFeedDeps → List FeedEntry
get_activity query deps =
    take (get_or query.limit default_limit) (merged query (user_rows query deps) deps)
