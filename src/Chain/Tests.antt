-- ===== src/Chain/Tests.antt =====
-- Pages, polls and decodes of backend/src/chain and the theorems at concrete events.
use sorosense.Base.{
  ◌≡◌, refl, ℕ, String, Option, none, some, true, false, [], ◌∷◌, All, string_key, number_key, ◌+◌,
  ◌==◌, if◌then◌else◌,
}
use sorosense.Int.{pos}
use sorosense.Dict.{get, put}
use sorosense.Seam.{usd}
use sorosense.CostBasis.{deposit, VaultEvent, cost_basis_of}
use sorosense.Chain.Reader.{
  Native, text, bigint, object, undefined, RawEvent, EventPage, DecodedEvents, topic_of,
  to_currency, transfer_rows, rows_of, decode_event, decode_from, decode_events,
}
use sorosense.Chain.Store.{new_store, ingest_event, ingest_events, ingest, raw}
use sorosense.Base.{◌≢◌, arith, ne_of_same, refl}
use sorosense.Dict.{has, add}
use mathlib.Core.Option
use sorosense.Chain.Once.{
  read_vault_events, gather_pages, gather_page, gather, gather_event, read_vault_events-poll,
}
use sorosense.Chain.Poller.{EventSource, drain, poll}
use sorosense.Chain.Collect.{IsKnown, Holds, Extends, ingest_again, poll_keeps}
use sorosense.Chain.Decode.{Agrees, decode_event-Agrees, decode_events-order}
use mathlib.Core.List.{Permᴰ}

abbrev deposit_fields : String → Native
deposit_fields name =
    if name == "currency"
    then text "Usd"
    else (if name == "amount"
        then bigint (pos 100)
        else (if name == "shares" then bigint (pos 100) else undefined))

-- Values that are decoded already, and no times.
abbrev same_value : Native → Native
same_value v = v

abbrev no_date : String → Option ℕ
no_date closed_at = none

abbrev event : RawEvent Native
event = record {
  id = "1-0";
  ledger = 7;
  ledger_closed_at = none;
  topic = text "deposit" ∷ text "alice" ∷ [];
  value = object deposit_fields;
}

abbrev page : EventPage Native
page = record { events = event ∷ []; latest_ledger = 9; cursor = some "1-0" }

-- The page, and an empty page from then on.
abbrev source : EventSource ℕ Native
source = record {
  get_events = λ at w. (some (if w == 0 then page else record page { events = [] }), 1 + w);
}

abbrev row : VaultEvent
row = record {
  kind = deposit;
  depositor = "alice";
  currency = usd;
  amount = pos 100;
  shares = pos 100;
  seq = 0;
  ts = none;
}

decodes : (decode_event same_value no_date event 0).vault ≡ some row
unfolding decode_event topic_of rows_of transfer_rows to_currency
decodes = refl

polls : (poll source same_value no_date none new_store 0).store ≡ ingest page new_store
unfolding poll drain ingest ingest_events ingest_event get put
polls = refl

ingested_again :
    (ingest page (ingest page new_store) ≡ ingest page new_store)
    × All (IsKnown (ingest page new_store).by_id) page.events
    × ((id : String) (ev : RawEvent Native)
        → Holds id ev []
        → Holds id ev (ingest page new_store).by_id)
ingested_again = ingest_again page new_store

poll_keeps_example :
    let result = poll source same_value no_date none new_store 0 in
    Extends new_store result.store
    × ((decoded : DecodedEvents)
        → result.update ≡ some decoded
        → (result.reported ≡ false)
          × (decoded ≡ decode_events same_value no_date (raw result.store)))
    × (result.reported ≡ true → result.update ≡ none)
poll_keeps_example = poll_keeps source same_value no_date none new_store 0

decode_event-Agrees_example :
    Agrees same_value no_date event 0 (decode_event same_value no_date event 0)
decode_event-Agrees_example = decode_event-Agrees same_value no_date event 0

decode_events-order_case :
    cost_basis_of (decode_events same_value no_date (event ∷ event ∷ [])).vault_events "alice" usd
    ≡ cost_basis_of (record row { seq = 1 } ∷ row ∷ []) "alice" usd
unfolding decode_from decode_event topic_of rows_of transfer_rows to_currency
decode_events-order_case =
    decode_events-order same_value no_date (event ∷ event ∷ []) (Permᴰ.swap refl refl) "alice" usd

full_cursor :
    (c : Option String) (w : ℕ) (p : EventPage Native)
    → (source.get_events c w).0 ≡ some p
    → p.cursor ≢ some ""
full_cursor c w p e empty = ne_of_same {A = String} "1-0" "" refl (ground (arith, e, empty))

read_vault_events-poll_example :
    let p = poll source same_value no_date none new_store 0 in
    let r = read_vault_events same_value no_date source 0 in
    (p.world ≡ r.1)
    × (p.reported ≡ true → r.0 ≡ none)
    × ((update : DecodedEvents)
        → p.update ≡ some update
        → Option.map (λ x. x.decoded) r.0 ≡ some update)
read_vault_events-poll_example = read_vault_events-poll source same_value no_date full_cursor 0

-- The reads end at the empty page.
reads_page : (read_vault_events same_value no_date source 0).1 ≡ 2
unfolding read_vault_events gather_pages gather_page gather gather_event has add
reads_page = refl
