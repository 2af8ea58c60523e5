-- ===== src/Chain/Poller.antt =====
-- backend/src/chain/poller.ts: one poll drains the pages behind the cursor into the store.
use sorosense.Base.{
  ℕ, zero, suc, ◌+◌, String, Bool, true, false, Option, none, some, ◌==◌, ◌||◌, if◌then◌else◌,
  length, string_key, nat_beq, get_or,
}
use sorosense.Chain.Reader.{Native, EventPage, DecodedEvents, decode_events}
use sorosense.Chain.Store.{EventStore, ingest, raw, cursor}

abbrev pub max_pages_per_poll : ℕ
max_pages_per_poll = 1_000

-- `none` is a read that rejects.
pub record EventSource (W ScVal : Type 0) : Type 0 where
  pub get_events : Option String → W → Option (EventPage ScVal) × W

-- Where the drain ends: the store and the source, how many events the pages held, and whether a read
-- rejected.
pub record Drain (W ScVal : Type 0) : Type 0 where
  pub store : EventStore ScVal
  pub world : W
  pub ingested : ℕ
  pub rejected : Bool

-- `update` is what `onUpdate` gets, if it is called; `reported` says whether `onError` is.
pub record Poll (W ScVal : Type 0) : Type 0 where
  pub store : EventStore ScVal
  pub world : W
  pub update : Option DecodedEvents
  pub reported : Bool

-- The source signals no progress after a page that was read from the cursor `before`.
abbrev pub stalls : Option String → Option String → Bool
stalls before none = true
stalls none (some after) = false
stalls (some before) (some after) = after == before

abbrev pub is_last : {ScVal : Type 0} → EventPage ScVal → Option String → Bool
is_last page before = nat_beq (length page.events) 0 || stalls before page.cursor

module _ {W ScVal : Type 0} (source : EventSource W ScVal) where
  -- The loop with `pages` rounds to go and `ingested` events behind it.
  unfoldable pub drain : ℕ → ℕ → EventStore ScVal → W → Drain W ScVal
  drain zero ingested s w = record { store = s; world = w; ingested = ingested; rejected = false }
  drain (suc pages) ingested s w =
      let w' = (source.get_events (cursor s) w).1 in
      elim (source.get_events (cursor s) w).0 [
        | none ↦ record { store = s; world = w'; ingested = ingested; rejected = true }
        | some page ↦
            let s' = ingest page s in
            let total = ingested + length page.events in
            elim (is_last page (cursor s)) [
              | true ↦ record { store = s'; world = w'; ingested = total; rejected = false }
              | false ↦ drain pages total s' w'
            ]
      ]

  module _ (to_native : ScVal → Native) (parse_date : String → Option ℕ) where
    abbrev pub settle : Drain W ScVal → Poll W ScVal
    settle end = record {
      store = end.store;
      world = end.world;
      update =
          if end.rejected || nat_beq end.ingested 0
          then none
          else some (decode_events to_native parse_date (raw end.store));
      reported = end.rejected;
    }

    -- `poll` with the option `maxPagesPerPoll`
    unfoldable pub poll : Option ℕ → EventStore ScVal → W → Poll W ScVal
    poll max_pages s w = settle (drain (get_or max_pages max_pages_per_poll) 0 s w)
