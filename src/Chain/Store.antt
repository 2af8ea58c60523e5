-- ===== src/Chain/Store.antt =====
-- backend/src/chain/event-store.ts: the events seen so far, by their ids.
use sorosense.Base.{
  ℕ, String, Option, none, some, List, [], ◌∷◌, map, ltb, if◌then◌else◌, length, string_key,
}
use sorosense.Dict.{Dict, get, put}
use sorosense.Sort.{sort_by}
use sorosense.Chain.Reader.{RawEvent, EventPage}

pub record EventStore (ScVal : Type 0) : Type 0 where
  pub by_id : Dict String (RawEvent ScVal)
  pub next_cursor : Option String
  pub watermark : ℕ

abbrev pub new_store : {ScVal : Type 0} → EventStore ScVal
new_store = record { by_id = []; next_cursor = none; watermark = 0 }

abbrev pub later_cursor : Option String → Option String → Option String
later_cursor none kept = kept
later_cursor (some cursor) kept = some cursor

module _ {ScVal : Type 0} where
  -- One round of the loop of `ingest`, and the loop.
  unfoldable pub ingest_event :
      RawEvent ScVal → Dict String (RawEvent ScVal) → Dict String (RawEvent ScVal)
  ingest_event ev held = elim (get ev.id held) [ some known ↦ held | none ↦ put ev.id ev held ]

  unfoldable pub ingest_events :
      List (RawEvent ScVal) → Dict String (RawEvent ScVal) → Dict String (RawEvent ScVal)
  ingest_events [] held = held
  ingest_events (ev ∷ evs) held = ingest_events evs (ingest_event ev held)

  unfoldable pub ingest : EventPage ScVal → EventStore ScVal → EventStore ScVal
  ingest page s = record {
    by_id = ingest_events page.events s.by_id;
    next_cursor = later_cursor page.cursor s.next_cursor;
    watermark = if ltb s.watermark page.latest_ledger then page.latest_ledger else s.watermark;
  }

  abbrev pub values : Dict String (RawEvent ScVal) → List (RawEvent ScVal)
  values held = map (λ entry. entry.1) held

  unfoldable pub raw : EventStore ScVal → List (RawEvent ScVal)
  raw s = sort_by (λ ev. ev.ledger) (values s.by_id)

  abbrev pub cursor : EventStore ScVal → Option String
  cursor s = s.next_cursor

  abbrev pub latest_ledger : EventStore ScVal → ℕ
  latest_ledger s = s.watermark

  abbrev pub size : EventStore ScVal → ℕ
  size s = length s.by_id
