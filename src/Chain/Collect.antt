-- ===== src/Chain/Collect.antt =====
-- What the store of backend/src/chain/event-store.ts keeps, over pages and over polls
-- (backend/src/chain/poller.ts).
use sorosense.Base.{
  ℕ, zero, suc, ◌≤◌, ◌+◌, String, true, false, Option, none, some, List, [], ◌∷◌, ◌≡◌, refl, sym,
  arith, ltb, if◌then◌else◌, All, Option-cases, Bool-cases, inl, inr, string_key, length, get_or,
}
use sorosense.Dict.{Dict, get, put, get-put, get-put_self}
use sorosense.Chain.Reader.{Native, RawEvent, EventPage, DecodedEvents, decode_events}
use sorosense.Chain.Store.{
  EventStore, ingest_event, ingest_events, later_cursor, ingest, raw, cursor,
}
use sorosense.Chain.Poller.{EventSource, drain, poll, is_last, max_pages_per_poll}
use mathlib.Core.Path.{subst}

cursor_again : (c kept : Option String) → later_cursor c (later_cursor c kept) ≡ later_cursor c kept
cursor_again none kept = refl
cursor_again (some c) kept = refl

watermark_again :
    (w page : ℕ)
    → let w' = if ltb w page then page else w in (if ltb w' page then page else w') ≡ w'
watermark_again w page = ground arith

module _ {ScVal : Type 0} where
  abbrev pub Holds : String → RawEvent ScVal → Dict String (RawEvent ScVal) → Type 0
  Holds id ev held = get id held ≡ some ev

  ingest_event-known :
      (ev old : RawEvent ScVal) (held : Dict String (RawEvent ScVal))
      → Holds ev.id old held
      → ingest_event ev held ≡ held
  unfolding ingest_event
  ingest_event-known ev old held h = ground (arith, h)

  ingest_event-new :
      (ev : RawEvent ScVal) (held : Dict String (RawEvent ScVal))
      → get ev.id held ≡ none
      → ingest_event ev held ≡ put ev.id ev held
  unfolding ingest_event
  ingest_event-new ev held h = ground (arith, h)

  event-Holds :
      (id : String) (old ev : RawEvent ScVal) (held : Dict String (RawEvent ScVal))
      → Holds id old held
      → Holds id old (ingest_event ev held)
  event-Holds id old ev held h = elim (Option-cases (get ev.id held)) [
    | inl fresh ↦
        rw (ingest_event-new ev held fresh, get-put ev.id id ev held)
          (ground (arith, h, fresh, string_key.same_iff ev.id id))
    | inr (known, e) ↦ rw (ingest_event-known ev known held e) h
  ]

  events-Holds :
      (id : String) (old : RawEvent ScVal) (evs : List (RawEvent ScVal))
      (held : Dict String (RawEvent ScVal))
      → Holds id old held
      → Holds id old (ingest_events evs held)
  unfolding ingest_events
  events-Holds id old [] held h = h
  events-Holds id old (ev ∷ evs) held h =
      events-Holds id old evs (ingest_event ev held) (event-Holds id old ev held h)

  -- Some event is held under the id.
  abbrev pub IsKnown : Dict String (RawEvent ScVal) → RawEvent ScVal → Type 0
  IsKnown held ev = (old : RawEvent ScVal) × Holds ev.id old held

  ingest_event-IsKnown :
      (ev : RawEvent ScVal) (held : Dict String (RawEvent ScVal))
      → IsKnown (ingest_event ev held) ev
  ingest_event-IsKnown ev held = elim (Option-cases (get ev.id held)) [
    | inl fresh ↦ (ev, rw (ingest_event-new ev held fresh) (get-put_self ev.id ev held))
    | inr (known, e) ↦ (known, rw (ingest_event-known ev known held e) e)
  ]

  ingest_events-IsKnown :
      (evs : List (RawEvent ScVal)) (held : Dict String (RawEvent ScVal))
      → All (IsKnown (ingest_events evs held)) evs
  unfolding ingest_events
  ingest_events-IsKnown [] held = tt
  ingest_events-IsKnown (ev ∷ evs) held =
      let (old, e) = ingest_event-IsKnown ev held in
      (
        (old, events-Holds ev.id old evs (ingest_event ev held) e),
        ingest_events-IsKnown evs (ingest_event ev held),
      )

  nothing_new :
      (evs : List (RawEvent ScVal)) (held : Dict String (RawEvent ScVal))
      → All (IsKnown held) evs
      → ingest_events evs held ≡ held
  unfolding ingest_events
  nothing_new [] held h = refl
  nothing_new (ev ∷ evs) held ((old, e), h) =
      rw (ingest_event-known ev old held e) (nothing_new evs held h)

  -- A page that is ingested again, as overlapping polls do, changes nothing: no event, no cursor, no
  -- watermark. After the first time all of its events are known, and the events held before are as
  -- they were.
  pub ingest_again :
      (page : EventPage ScVal) (s : EventStore ScVal)
      → (ingest page (ingest page s) ≡ ingest page s)
        × All (IsKnown (ingest page s).by_id) page.events
        × ((id : String) (ev : RawEvent ScVal)
            → Holds id ev s.by_id
            → Holds id ev (ingest page s).by_id)
  unfolding ingest
  ingest_again page s = (
    rw
        (
          nothing_new page.events (ingest_events page.events s.by_id)
              (ingest_events-IsKnown page.events s.by_id),
          cursor_again page.cursor s.next_cursor,
          watermark_again s.watermark page.latest_ledger,
        )
        refl,
    ingest_events-IsKnown page.events s.by_id,
    λ id ev. events-Holds id ev page.events s.by_id,
  )

  -- `t` holds what `s` holds, and its watermark is not behind.
  abbrev pub Extends : EventStore ScVal → EventStore ScVal → Type 0
  Extends s t =
      ((id : String) (ev : RawEvent ScVal) → Holds id ev s.by_id → Holds id ev t.by_id)
      × (s.watermark ≤ t.watermark)

  ingest-Extends : (page : EventPage ScVal) (s : EventStore ScVal) → Extends s (ingest page s)
  unfolding ingest
  ingest-Extends page s = (λ id ev. events-Holds id ev page.events s.by_id, ground arith)

  pub Extends-trans : (r s t : EventStore ScVal) → Extends r s → Extends s t → Extends r t
  Extends-trans r s t (h, le) (h', le') = (λ id ev e. h' id ev (h id ev e), omega (arith, le, le'))

module _ {W ScVal : Type 0} (source : EventSource W ScVal) where
  drain_rejected :
      (pages total : ℕ) (s : EventStore ScVal) (w : W)
      → (source.get_events (cursor s) w).0 ≡ none
      → (drain source (suc pages) total s w).store ≡ s
  unfolding drain
  drain_rejected pages total s w h = ground (arith, h)

  drain_last :
      (pages total : ℕ) (s : EventStore ScVal) (w : W) {page : EventPage ScVal}
      → (source.get_events (cursor s) w).0 ≡ some page
      → is_last page (cursor s) ≡ true
      → (drain source (suc pages) total s w).store ≡ ingest page s
  unfolding drain
  drain_last pages total s w h last = ground (arith, h, last)

  drain_more :
      (pages total : ℕ) (s : EventStore ScVal) (w : W) {page : EventPage ScVal}
      → (source.get_events (cursor s) w).0 ≡ some page
      → is_last page (cursor s) ≡ false
      → (drain source (suc pages) total s w).store
        ≡ (drain source pages
            (total + length page.events)
            (ingest page s)
            (source.get_events (cursor s) w).1).store
  unfolding drain
  drain_more pages total s w h more = ground (arith, h, more)

  drain-Extends :
      (pages total : ℕ) (s : EventStore ScVal) (w : W)
      → Extends s (drain source pages total s w).store
  unfolding drain
  drain-Extends zero total s w = (λ id ev h. h, omega arith)
  drain-Extends (suc pages) total s w = elim (Option-cases (source.get_events (cursor s) w).0) [
    | inl rejected ↦
        subst (Extends s) (sym (drain_rejected pages total s w rejected))
          (λ id ev h. h, omega arith)
    | inr (page, read) ↦ elim (Bool-cases (is_last page (cursor s))) [
      | inl last ↦
          subst (Extends s) (sym (drain_last pages total s w read last)) (ingest-Extends page s)
      | inr more ↦ subst (Extends s) (sym (drain_more pages total s w read more)) (
          let w' = (source.get_events (cursor s) w).1 in
          let total' = total + length page.events in
          Extends-trans s (ingest page s) (drain source pages total' (ingest page s) w').store
            (ingest-Extends page s) (drain-Extends pages total' (ingest page s) w'))
    ]
  ]

  module _ (to_native : ScVal → Native) (parse_date : String → Option ℕ) where
    -- A poll keeps every event that the store held, unchanged, and its watermark, also where a read
    -- of the source rejects. If it hands an update on, no read rejected, and the update is the decode
    -- of all events in the store; if a read rejects, it reports that and hands nothing on.
    pub poll_keeps :
        (max_pages : Option ℕ) (s : EventStore ScVal) (w : W)
        → let result = poll source to_native parse_date max_pages s w in
          Extends s result.store
          × ((decoded : DecodedEvents)
              → result.update ≡ some decoded
              → (result.reported ≡ false)
                × (decoded ≡ decode_events to_native parse_date (raw result.store)))
          × (result.reported ≡ true → result.update ≡ none)
    unfolding poll
    poll_keeps max_pages s w =
        let end = drain source (get_or max_pages max_pages_per_poll) 0 s w in
        (
          drain-Extends (get_or max_pages max_pages_per_poll) 0 s w,
          λ decoded h. ground (arith, h),
          λ h. ground (arith, h),
        )
