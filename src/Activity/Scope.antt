-- ===== src/Activity/Scope.antt =====
-- What backend/src/api/activity-feed.ts shows to one depositor.
use sorosense.Base.{
  ℕ, ◌≤◌, ◌≡◌, refl, sym, ◌∙◌, ap, true, Option, none, some, List, [], ◌∷◌, ◌++◌, ◌⊎◌, inl, inr,
  keep, ◌==◌, leb, get_or, string_key, All, All-weaken, Bool-cases, Option-cases, arith,
}
use mathlib.Core.List.{Memᴰ}
use sorosense.Lists.{All-append, All-take, keep-All, keep-All_of, All-of_mem}
use sorosense.Sum.{All-keep}
use sorosense.Sort.{map-All, sort_by, sort_by-All}
use sorosense.Compare.{sort_with-All}
use sorosense.Dict.{get, get-put}
use sorosense.Seam.{Currency, currency_key, currency_beq_iff, Address}
use sorosense.Activity.User.{
  UserActionEvent, UserActivityEntry, user_row, derive_user_activity, user_currency,
}
use sorosense.Activity.Agent.{AgentActionEvent}
use sorosense.Activity.Log.{ActivityLog, list, default_limit}
use sorosense.Activity.Feed.{
  ActivityFeedDeps, ActivityQuery, FeedEntry, user_feed, log_feed, agent_feed, user_rows, min_seq,
  first_user_seq, first_currency_seq, after_entry, log_rows, chain_rows, merged, get_activity,
  rows_in_order, of_actor, user_in_bucket, of_depositor, matches_scope,
}

-- An action of the depositor up to a sequence number, in the same currency if there is one.
pub record Entered (d : Address) (events : List UserActionEvent) (seq : ℕ)
    (currency : Option Currency) : Type 0 where
  pub event : UserActionEvent
  pub known : Memᴰ event events
  pub own : event.depositor ≡ d
  pub earlier : event.seq ≤ seq
  pub same_bucket : (c : Currency) → currency ≡ some c → user_currency event.action ≡ some c

-- The row of an action of the depositor.
pub record IsOwn (d : Address) (events : List UserActionEvent) (row : FeedEntry) : Type 0 where
  pub event : UserActionEvent
  pub known : Memᴰ event events
  pub own : event.depositor ≡ d
  pub shown : row ≡ user_feed (user_row event)

module _ {ℓ} (P : FeedEntry → Type ℓ) where
  first_user_seq-some :
      (rows : List FeedEntry) {n : ℕ}
      → All P rows
      → first_user_seq rows ≡ some n
      → (row : FeedEntry) × (P row × (row.seq ≡ n))
  unfolding first_user_seq
  first_user_seq-some [] h e = cc
  first_user_seq-some (row ∷ rows) {n} (hr, h) e = elim (Option-cases (first_user_seq rows)) [
    | inl last ↦ (row, (hr, ground (arith, e, last)))
    | inr (m, more) ↦
        let (found, (p, q)) = first_user_seq-some rows h more in
        elim (Bool-cases (leb m row.seq)) [
          | inl older ↦ (found, (p, ground (arith, e, more, older, q)))
          | inr newer ↦ (row, (hr, ground (arith, e, more, newer)))
        ]
  ]

  first_currency_seq-some :
      (rows : List FeedEntry) (c : Currency) {n : ℕ}
      → All P rows
      → get c (first_currency_seq rows) ≡ some n
      → (row : FeedEntry) × (P row × ((row.seq ≡ n) × (row.currency ≡ some c)))
  unfolding first_currency_seq get
  first_currency_seq-some [] c h e = cc
  first_currency_seq-some (row ∷ rows) c {n} (hr, h) e = elim (Option-cases row.currency) [
    | inl free ↦ first_currency_seq-some rows c h (ground (arith, e, free))
    | inr (b, held) ↦
        let stored =
          get-put b c (min_seq (get b (first_currency_seq rows)) row.seq)
            (first_currency_seq rows) in
        elim (Bool-cases (b == c)) [
          | inr other ↦ first_currency_seq-some rows c h (ground (arith, e, held, stored, other))
          | inl same ↦ elim (Option-cases (get c (first_currency_seq rows))) [
            | inl last ↦ (
              row,
              (
                hr,
                (
                  ground (arith, e, held, stored, same, last, currency_beq_iff b c),
                  ground (arith, held, same, currency_beq_iff b c),
                ),
              ),
            )
            | inr (m, more) ↦
                let (found, (p, (q, r))) = first_currency_seq-some rows c h more in
                elim (Bool-cases (leb m row.seq)) [
                  | inl older ↦ (
                    found,
                    (
                      p,
                      (
                        ground (arith, e, held, stored, same, more, older, q, currency_beq_iff b c),
                        r,
                      ),
                    ),
                  )
                  | inr newer ↦ (
                    row,
                    (
                      hr,
                      (
                        ground (arith, e, held, stored, same, more, newer, currency_beq_iff b c),
                        ground (arith, held, same, currency_beq_iff b c),
                      ),
                    ),
                  )
                ]
          ]
        ]
  ]

module _ {d : Address} {events : List UserActionEvent} where
  IsOwn-Entered :
      {row : FeedEntry} {seq : ℕ} {currency : Option Currency}
      → IsOwn d events row
      → row.seq ≤ seq
      → ((c : Currency) → currency ≡ some c → row.currency ≡ some c)
      → Entered d events seq currency
  IsOwn-Entered {row} {seq} h le same = record {
    event = h.event;
    known = h.known;
    own = h.own;
    earlier = omega (arith, le, ap (λ r. r.seq) h.shown);
    same_bucket = λ c e. sym (ap (λ r. r.currency) h.shown) ∙ same c e;
  }

  after_entry-Entered :
      (query : ActivityQuery) (rows : List FeedEntry) (seq : ℕ) (currency : Option Currency)
      → query.depositor ≡ some d
      → All (IsOwn d events) rows
      → after_entry query rows seq currency ≡ true
      → Entered d events seq currency
  unfolding after_entry
  after_entry-Entered query rows seq none asked h e = elim (Option-cases (first_user_seq rows)) [
    | inl never ↦ absurd (ground (arith, e, asked, never))
    | inr (n, first) ↦
        let (row, (own, at)) = first_user_seq-some (IsOwn d events) rows h first in
        IsOwn-Entered own (ground (arith, e, asked, first, at)) (λ c p. cc)
  ]
  after_entry-Entered query rows seq (some c) asked h e =
      elim (Option-cases (get c (first_currency_seq rows))) [
        | inl never ↦ absurd (ground (arith, e, asked, never))
        | inr (n, first) ↦
            let (row, (own, (at, bucket))) =
              first_currency_seq-some (IsOwn d events) rows c h first in
            IsOwn-Entered own (ground (arith, e, asked, first, at)) (λ b p. bucket ∙ p)
      ]

-- The row comes from one of the events.
IsDerived : List UserActionEvent → UserActivityEntry → Type 0
IsDerived events row = (ev : UserActionEvent) × (Memᴰ ev events × (row ≡ user_row ev))

derive-IsDerived :
    (events : List UserActionEvent) → All (IsDerived events) (derive_user_activity events)
unfolding IsDerived derive_user_activity
derive-IsDerived events = map-All user_row (IsDerived events) (sort_by (λ ev. ev.seq) events) (
    sort_by-All (λ ev. ev.seq) _ events
      (All-of_mem (λ ev. IsDerived events (user_row ev)) events (λ ev m. (ev, (m, refl)))))

derived-IsOwn :
    (d : Address) (events : List UserActionEvent) (row : UserActivityEntry)
    → IsDerived events row
    → of_depositor (some d) row ≡ true
    → IsOwn d events (user_feed row)
unfolding IsDerived
derived-IsOwn d events row (ev, (m, e)) same = record {
  event = ev;
  known = m;
  own = sym (ap (λ r. r.depositor) e) ∙ (string_key.same_iff row.depositor d).0 same;
  shown = ap user_feed e;
}

user_rows-IsOwn :
    (query : ActivityQuery) (deps : ActivityFeedDeps) {d : Address}
    → query.depositor ≡ some d
    → All (IsOwn d deps.user_events) (user_rows query deps)
unfolding user_rows
user_rows-IsOwn query deps {d} asked =
    let rows = derive_user_activity deps.user_events in
    map-All user_feed (IsOwn d deps.user_events) _ (
      All-keep _ (user_in_bucket query.currency) (keep (of_depositor query.depositor) rows) (
        rw asked (
          All-weaken (λ row (from, same). derived-IsOwn d deps.user_events row from same) _
            (keep-All (IsDerived deps.user_events) (of_depositor (some d)) rows
              (derive-IsDerived deps.user_events)))))

-- An own action, or a move of the agent after an own action in its currency.
abbrev pub InScope : Address → List UserActionEvent → FeedEntry → Type 0
InScope d events row =
    IsOwn d events row ⊎ ((row.depositor ≡ none) × Entered d events row.seq row.currency)

module _ (query : ActivityQuery) (rows : List FeedEntry) {d : Address}
    (events : List UserActionEvent) (asked : query.depositor ≡ some d)
    (own : All (IsOwn d events) rows) where
  log_rows-InScope : (log : ActivityLog) → All (InScope d events) (log_rows query rows log)
  unfolding log_rows
  log_rows-InScope log =
      All-weaken
        (λ row (free, after).
          inr (free, after_entry-Entered query rows row.seq row.currency asked own after))
        _
        (keep-All (λ row. row.depositor ≡ none) (λ r. after_entry query rows r.seq r.currency) _
          (All-keep _ (λ r. matches_scope query rows r.currency) _
            (map-All log_feed (λ row. row.depositor ≡ none) _
              (All-of_mem _ (list query.currency default_limit log) (λ e m. refl)))))

  chain_rows-InScope :
      (moves : List AgentActionEvent) → All (InScope d events) (chain_rows query rows moves)
  unfolding chain_rows
  chain_rows-InScope moves = map-All agent_feed (InScope d events) _ (
      keep-All_of _ (λ r. after_entry query rows r.seq r.currency) _
        (λ row after.
          inr (refl, after_entry-Entered query rows row.seq row.currency asked own after)))

-- A feed that is asked for one depositor shows rows of that depositor's own actions, and of the agent's
-- moves only those that follow an own action: one in the move's currency, if the move has a currency.
pub get_activity-InScope :
    (query : ActivityQuery) (deps : ActivityFeedDeps) {d : Address}
    → query.depositor ≡ some d
    → All (InScope d deps.user_events) (get_activity query deps)
unfolding get_activity merged
get_activity-InScope query deps {d} asked =
    let rows = user_rows query deps in
    let own = user_rows-IsOwn query deps asked in
    let P = InScope d deps.user_events in
    let all : All P
        (log_rows query rows deps.log ++ (chain_rows query rows deps.agent_events ++ rows)) =
      All-append P (log_rows query rows deps.log) _
        (log_rows-InScope query rows deps.user_events asked own deps.log)
        (All-append P (chain_rows query rows deps.agent_events) rows
          (chain_rows-InScope query rows deps.user_events asked own deps.agent_events)
          (All-weaken (λ row h. inl h) rows own)) in
    All-take P (get_or query.limit default_limit) (merged query rows deps)
      (sort_with-All rows_in_order P _ (All-keep P (of_actor query.actor) _ all))
