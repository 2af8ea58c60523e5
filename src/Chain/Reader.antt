-- ===== src/Chain/Reader.antt =====
-- backend/src/chain/event-reader.ts: raw contract events, their decoding and the paged read.
use sorosense.Base.{
  ℕ, zero, suc, String, Bool, Option, none, some, List, [], ◌∷◌, ◌==◌, if◌then◌else◌, string_key,
}
use sorosense.Int.{ℤ}
use sorosense.Seam.{Currency, usd, eur, mxn, Address, Amount, Shares}
use sorosense.CostBasis.{VaultEvent, EventKind}
use sorosense.Activity.User.{UserActionEvent, UserAction, deposited, withdrew, mandated, toggled}
use sorosense.Activity.Agent.{
  AgentActionEvent, AgentAction, allocate, deallocate, freeze, unfreeze, propose_exit,
}

-- What `scValToNative` yields, as far as the decoder tells values apart: a number is whole or a
-- fraction, an array is its first element, an object its fields.
pub data Native : Type 0 where
  undefined nil fraction : Native
  text : String → Native
  bigint whole : ℤ → Native
  boolean : Bool → Native
  array : Native → Native
  object : (String → Native) → Native

pub data Topic : Type 0 where
  deposit_topic withdraw_topic consent_set auto_compound_set exit_approved : Topic
  allocated_topic deallocated_topic frozen_topic unfrozen_topic exit_proposed : Topic

-- `TOPIC`
unfoldable pub topic_of : String → Option Topic
topic_of name =
    if name == "deposit"
    then some deposit_topic
    else (if name == "withdraw"
        then some withdraw_topic
        else (if name == "consent_set"
            then some consent_set
            else (if name == "auto_compound_set"
                then some auto_compound_set
                else (if name == "exit_approved"
                    then some exit_approved
                    else (if name == "allocated"
                        then some allocated_topic
                        else (if name == "deallocated"
                            then some deallocated_topic
                            else (if name == "frozen"
                                then some frozen_topic
                                else (if name == "unfrozen"
                                    then some unfrozen_topic
                                    else (if name == "exit_proposed"
                                        then some exit_proposed
                                        else none)))))))))

abbrev pub variant_of : Native → Native
variant_of (array first) = first
variant_of v = v

abbrev pub currency_named : Native → Option Currency
currency_named (text s) =
    if s == "Usd"
    then some usd
    else (if s == "Eur" then some eur else (if s == "Mxn" then some mxn else none))
currency_named _ = none

unfoldable pub to_currency : Native → Option Currency
to_currency raw = currency_named (variant_of raw)

abbrev pub to_bigint : Native → Option ℤ
to_bigint (bigint n) = some n
to_bigint (whole n) = some n
to_bigint _ = none

abbrev pub to_text : Native → Option String
to_text (text s) = some s
to_text _ = none

abbrev pub to_boolean : Native → Option Bool
to_boolean (boolean b) = some b
to_boolean _ = none

abbrev pub fields_of : Native → String → Native
fields_of (object fields) = fields
fields_of _ = λ name. undefined

pub record RawEvent (ScVal : Type 0) : Type 0 where
  pub id : String
  pub ledger : ℕ
  pub ledger_closed_at : Option String
  pub topic : List ScVal
  pub value : ScVal

pub record EventPage (ScVal : Type 0) : Type 0 where
  pub events : List (RawEvent ScVal)
  pub latest_ledger : ℕ
  pub cursor : Option String

pub record DecodedEvents : Type 0 where
  pub vault_events : List VaultEvent
  pub user_events : List UserActionEvent
  pub agent_events : List AgentActionEvent

-- The rows that one event maps to.
pub record Rows : Type 0 where
  pub vault : Option VaultEvent
  pub user : Option UserActionEvent
  pub agent : Option AgentActionEvent

abbrev pub no_rows : Rows
no_rows = record { vault = none; user = none; agent = none }

abbrev pub user_row : UserAction → Address → ℕ → Option ℕ → Rows
user_row action depositor seq ts = record no_rows {
  user = some (record { action = action; depositor = depositor; seq = seq; ts = ts });
}

abbrev pub agent_row : AgentAction → ℕ → Option ℕ → Rows
agent_row action seq ts = record no_rows {
  agent = some (record { action = action; seq = seq; ts = ts });
}

abbrev pub action_of : EventKind → Currency → Amount → UserAction
action_of EventKind.deposit c amount = deposited c amount
action_of EventKind.withdraw c amount = withdrew c amount

-- A deposit or a withdrawal, unless a part of it cannot be read.
unfoldable pub transfer_rows :
    EventKind
    → Option Address
    → Option Currency
    → Option Amount
    → Option Shares
    → ℕ
    → Option ℕ
    → Rows
transfer_rows kind (some depositor) (some c) (some amount) (some shares) seq ts = record no_rows {
  vault = some (record {
    kind = kind;
    depositor = depositor;
    currency = c;
    amount = amount;
    shares = shares;
    seq = seq;
    ts = ts;
  });
  user =
      some (record { action = action_of kind c amount; depositor = depositor; seq = seq; ts = ts });
}
transfer_rows kind _ _ _ _ seq ts = no_rows

abbrev pub consent_rows : Option Address → ℕ → Option ℕ → Rows
consent_rows (some depositor) seq ts = user_row mandated depositor seq ts
consent_rows none seq ts = no_rows

abbrev pub toggle_rows : Option Address → Option Bool → ℕ → Option ℕ → Rows
toggle_rows (some depositor) (some enabled) seq ts = user_row (toggled enabled) depositor seq ts
toggle_rows _ _ seq ts = no_rows

abbrev pub move_rows :
    (Currency → Amount → AgentAction) → Option Currency → Option Amount → ℕ → Option ℕ → Rows
move_rows action (some c) (some amount) seq ts = agent_row (action c amount) seq ts
move_rows action _ _ seq ts = no_rows

abbrev pub exit_rows : Option Currency → ℕ → Option ℕ → Rows
exit_rows (some c) seq ts = agent_row (propose_exit c) seq ts
exit_rows none seq ts = no_rows

abbrev pub prepend {ℓ} : {A : Type ℓ} → Option A → List A → List A
prepend none xs = xs
prepend (some x) xs = x ∷ xs

-- `topic[index]`, decoded
abbrev pub topic_native : {ScVal : Type 0} → (ScVal → Native) → List ScVal → ℕ → Native
topic_native to_native [] index = undefined
topic_native to_native (v ∷ vs) zero = to_native v
topic_native to_native (v ∷ vs) (suc index) = topic_native to_native vs index

abbrev pub parse_ts : (String → Option ℕ) → Option String → Option ℕ
parse_ts parse_date none = none
parse_ts parse_date (some closed_at) = parse_date closed_at

-- `scValToNative` of the Stellar SDK, on values that it does not throw on, and `Date.parse` with NaN as
-- none.
module _ {ScVal : Type 0} (to_native : ScVal → Native) (parse_date : String → Option ℕ) where
  -- The body of `decodeEvent` for a known topic.
  unfoldable pub rows_of : Topic → RawEvent ScVal → ℕ → Rows
  rows_of topic ev seq =
      let ts = parse_ts parse_date ev.ledger_closed_at in
      let data' = fields_of (to_native ev.value) in
      let address = to_text (topic_native to_native ev.topic 1) in
      let currency = to_currency (topic_native to_native ev.topic 1) in
      let amount = to_bigint (data' "amount") in
      elim topic [
        | deposit_topic ↦
            transfer_rows EventKind.deposit address (to_currency (data' "currency")) amount
              (to_bigint (data' "shares")) seq ts
        | withdraw_topic ↦
            transfer_rows EventKind.withdraw address (to_currency (data' "currency")) amount
              (to_bigint (data' "shares")) seq ts
        | consent_set ↦ consent_rows address seq ts
        | auto_compound_set ↦ toggle_rows address (to_boolean (data' "enabled")) seq ts
        | exit_approved ↦ no_rows
        | allocated_topic ↦ move_rows allocate currency amount seq ts
        | deallocated_topic ↦ move_rows deallocate currency amount seq ts
        | frozen_topic ↦ agent_row freeze seq ts
        | unfrozen_topic ↦ agent_row unfreeze seq ts
        | exit_proposed ↦ exit_rows currency seq ts
      ]

  unfoldable pub decode_event : RawEvent ScVal → ℕ → Rows
  decode_event ev seq = elim (to_text (topic_native to_native ev.topic 0)) [
    | none ↦ no_rows
    | some name ↦ elim (topic_of name) [ none ↦ no_rows | some topic ↦ rows_of topic ev seq ]
  ]

  -- The events from position `seq` on.
  unfoldable pub decode_from : ℕ → List (RawEvent ScVal) → DecodedEvents
  decode_from seq [] = record { vault_events = []; user_events = []; agent_events = [] }
  decode_from seq (ev ∷ evs) =
      let rows = decode_event ev seq in
      let rest = decode_from (suc seq) evs in
      record {
        vault_events = prepend rows.vault rest.vault_events;
        user_events = prepend rows.user rest.user_events;
        agent_events = prepend rows.agent rest.agent_events;
      }

  abbrev pub decode_events : List (RawEvent ScVal) → DecodedEvents
  decode_events ordered = decode_from 0 ordered
