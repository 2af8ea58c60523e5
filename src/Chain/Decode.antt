-- ===== src/Chain/Decode.antt =====
-- What the decoder of backend/src/chain/event-reader.ts gives to the cost basis and to the activity.
use sorosense.Base.{
  ℕ, suc, ◌≤◌, String, Option, none, some, List, [], ◌∷◌, ◌≡◌, arith, All, All-weaken, sym,
  Option-cases, Bool-cases, get_or, string_key, ◌==◌, if◌then◌else◌, ap, inl, inr, refl, ◌⊎◌,
}
use mathlib.Core.Path.{subst}
use mathlib.Core.List.{Permᴰ}
use sorosense.CostBasis.{cost_basis_of}
use sorosense.CostBasis.Order.{cost_basis_of_order}
use sorosense.Sort.{UniqueKeys, UniqueKeys-KeysDistinct}
use sorosense.CostBasis.{VaultEvent, EventKind}
use sorosense.Activity.User.{UserAction, deposited, withdrew}
use sorosense.Seam.{Address, Currency, Amount, Shares}
use sorosense.Chain.Reader.{
  Native, Topic, deposit_topic, withdraw_topic, RawEvent, Rows, action_of, transfer_rows, rows_of,
  decode_event, decode_from, decode_events, prepend, topic_of, to_text, topic_native, to_currency,
  to_bigint, fields_of, parse_ts,
}

transferred :
    (kind : EventKind) (a : Option Address) (c : Option Currency) (amount : Option Amount)
    (shares : Option Shares) (seq : ℕ) (ts : Option ℕ) (v : VaultEvent)
    → (transfer_rows kind a c amount shares seq ts).vault ≡ some v
    → (v.kind ≡ kind)
      × (v.seq ≡ seq)
      × (v.ts ≡ ts)
      × ((a ≡ some v.depositor)
          × (c ≡ some v.currency)
          × (amount ≡ some v.amount)
          × (shares ≡ some v.shares))
      × ((transfer_rows kind a c amount shares seq ts).user
          ≡ some (record {
            action = action_of kind v.currency v.amount;
            depositor = v.depositor;
            seq = v.seq;
            ts = v.ts;
          }))
unfolding transfer_rows
transferred kind a c amount shares seq ts v h = ground (arith, h)

-- What a name is, by the topic that it stands for.
abbrev NameOf : String → Topic → Type 0
NameOf name deposit_topic = name ≡ "deposit"
NameOf name withdraw_topic = name ≡ "withdraw"
NameOf name topic = Unit

named_test :
    (name title : String) (here topic : Topic) (rest : Option Topic)
    → ((name ≡ title) → NameOf name here)
    → (rest ≡ some topic → NameOf name topic)
    → (if name == title then some here else rest) ≡ some topic
    → NameOf name topic
named_test name title here topic rest titled later h = elim (Bool-cases (name == title)) [
  | inl same ↦
      let one : here ≡ topic = ap (λ o. get_or o here) (rw same at h) in
      subst (NameOf name) one (titled ((string_key.same_iff name title).0 same))
  | inr other ↦ later (rw other at h)
]

topic_of-NameOf : (name : String) (topic : Topic) → topic_of name ≡ some topic → NameOf name topic
unfolding topic_of
topic_of-NameOf name topic =
    named_test name "deposit" _ topic _ (λ e. e)
      (named_test name "withdraw" _ topic _ (λ e. e)
        (named_test name "consent_set" _ topic _ (λ e. tt)
          (named_test name "auto_compound_set" _ topic _ (λ e. tt)
            (named_test name "exit_approved" _ topic _ (λ e. tt)
              (named_test name "allocated" _ topic _ (λ e. tt)
                (named_test name "deallocated" _ topic _ (λ e. tt)
                  (named_test name "frozen" _ topic _ (λ e. tt)
                    (named_test name "unfrozen" _ topic _ (λ e. tt)
                      (named_test name "exit_proposed" _ topic _ (λ e. tt)
                        (λ e. absurd (cc e)))))))))))

-- The kind of a row of the cost basis and the action of a row of the activity, by the name of the event.
abbrev pub IsKind : String → VaultEvent → UserAction → Type 0
IsKind name v action =
    ((name ≡ "deposit") × (v.kind ≡ EventKind.deposit) × (action ≡ deposited v.currency v.amount))
    ⊎ ((name ≡ "withdraw")
        × (v.kind ≡ EventKind.withdraw)
        × (action ≡ withdrew v.currency v.amount))

module _ {ScVal : Type 0} (to_native : ScVal → Native) (parse_date : String → Option ℕ) where
  -- A row says what the event carries.
  abbrev pub IsCarried : RawEvent ScVal → VaultEvent → Type 0
  IsCarried ev v =
      let payload = fields_of (to_native ev.value) in
      (to_text (topic_native to_native ev.topic 1) ≡ some v.depositor)
      × (to_currency (payload "currency") ≡ some v.currency)
      × (to_bigint (payload "amount") ≡ some v.amount)
      × (to_bigint (payload "shares") ≡ some v.shares)

  -- A row for the cost basis says what the event carries, at the event's position, and has its double
  -- in the other stream.
  abbrev pub Agrees : RawEvent ScVal → ℕ → Rows → Type 0
  Agrees ev seq rows =
      (v : VaultEvent)
      → rows.vault ≡ some v
      → (v.seq ≡ seq)
        × (v.ts ≡ parse_ts parse_date ev.ledger_closed_at)
        × IsCarried ev v
        × ((name : String) × ((action : UserAction) × ((to_text (topic_native to_native ev.topic 0)
                  ≡ some name)
                × IsKind name v action
                × (rows.user
                    ≡ some (record {
                      action = action;
                      depositor = v.depositor;
                      seq = v.seq;
                      ts = v.ts;
                    })))))

  none_agree :
      (ev : RawEvent ScVal) (seq : ℕ) (rows : Rows) → rows.vault ≡ none → Agrees ev seq rows
  none_agree ev seq rows e v h = absurd (ground (arith, e, h))

  rows_of-Agrees :
      (topic : Topic) (ev : RawEvent ScVal) (seq : ℕ) (name : String)
      → to_text (topic_native to_native ev.topic 0) ≡ some name
      → topic_of name ≡ some topic
      → Agrees ev seq (rows_of to_native parse_date topic ev seq)
  unfolding rows_of
  rows_of-Agrees deposit_topic ev seq name titled known v h =
      let (kind, at, time, carried, row) = transferred _ _ _ _ _ seq _ v h in
      (
        at,
        time,
        carried,
        (
          name,
          (
            deposited v.currency v.amount,
            (titled, inl (topic_of-NameOf name deposit_topic known, kind, refl), row),
          ),
        ),
      )
  rows_of-Agrees withdraw_topic ev seq name titled known v h =
      let (kind, at, time, carried, row) = transferred _ _ _ _ _ seq _ v h in
      (
        at,
        time,
        carried,
        (
          name,
          (
            withdrew v.currency v.amount,
            (titled, inr (topic_of-NameOf name withdraw_topic known, kind, refl), row),
          ),
        ),
      )
  rows_of-Agrees topic ev seq name titled known v h =
      none_agree ev seq (rows_of to_native parse_date topic ev seq) (ground arith) v h

  known_topic :
      (ev : RawEvent ScVal) (seq : ℕ) {name : String} {topic : Topic}
      → to_text (topic_native to_native ev.topic 0) ≡ some name
      → topic_of name ≡ some topic
      → decode_event to_native parse_date ev seq ≡ rows_of to_native parse_date topic ev seq
  unfolding decode_event
  known_topic ev seq titled known = ground (arith, titled, known)

  -- A row that is decoded for the cost basis comes from an event named a deposit or a withdrawal, and is
  -- of that kind. It has the depositor, the currency, the amount and the shares that the event carries,
  -- the event's position as its sequence number and its time, and the activity has a row of that
  -- depositor, position and time which is a deposit for a deposit and a withdrawal for a withdrawal, of
  -- the same currency and amount.
  pub decode_event-Agrees :
      (ev : RawEvent ScVal) (seq : ℕ) → Agrees ev seq (decode_event to_native parse_date ev seq)
  unfolding decode_event
  decode_event-Agrees ev seq = elim (Option-cases (to_text (topic_native to_native ev.topic 0))) [
    | inl untitled ↦
        none_agree ev seq (decode_event to_native parse_date ev seq) (ground (arith, untitled))
    | inr (name, titled) ↦ elim (Option-cases (topic_of name)) [
      | inl unknown ↦
          none_agree ev seq (decode_event to_native parse_date ev seq)
            (ground (arith, titled, unknown))
      | inr (topic, known) ↦
          subst (Agrees ev seq) (sym (known_topic ev seq titled known))
            (rows_of-Agrees topic ev seq name titled known)
    ]
  ]

  -- The sequence numbers are at least `seq`, and no two are equal.
  abbrev From : ℕ → List VaultEvent → Type 0
  From seq vs = All (λ v. seq ≤ v.seq) vs × UniqueKeys (λ v. v.seq) vs

  prepend-From :
      (ev : RawEvent ScVal) (seq : ℕ) (rows : Rows) (vs : List VaultEvent)
      → Agrees ev seq rows
      → From (suc seq) vs
      → From seq (prepend rows.vault vs)
  prepend-From ev seq rows vs agrees (later, unique) =
      let weak : All (λ v. seq ≤ v.seq) vs = All-weaken (λ v h. omega arith) vs later in
      elim (Option-cases rows.vault) [
        | inl none_found ↦ rw none_found (weak, unique)
        | inr (v, found) ↦
            let here : v.seq ≡ seq = (agrees v found).0 in
            rw found (
              (omega (arith, here), weak),
              (All-weaken (λ w h. λ e. absurd (omega (arith, h, here, e))) vs later, unique),
            )
      ]

  decode_from-From :
      (seq : ℕ) (evs : List (RawEvent ScVal))
      → From seq (decode_from to_native parse_date seq evs).vault_events
  unfolding decode_from
  decode_from-From seq [] = (tt, tt)
  decode_from-From seq (ev ∷ evs) =
      prepend-From ev seq (decode_event to_native parse_date ev seq) _ (decode_event-Agrees ev seq)
        (decode_from-From (suc seq) evs)

  -- The deposits and withdrawals that a decode yields give the same cost basis of every bucket, or
  -- the same error, in whatever order they are handed on.
  pub decode_events-order :
      (ordered : List (RawEvent ScVal)) {events : List VaultEvent}
      → Permᴰ (decode_events to_native parse_date ordered).vault_events events
      → (depositor : Address) (c : Currency)
      → cost_basis_of (decode_events to_native parse_date ordered).vault_events depositor c
        ≡ cost_basis_of events depositor c
  decode_events-order ordered p depositor c =
      cost_basis_of_order depositor c p
        (UniqueKeys-KeysDistinct (λ v. v.seq) _ (decode_from-From 0 ordered).1)
