-- ===== src/Chain/Once.antt =====
-- The paged one-shot read of backend/src/chain/event-reader.ts, and its agreement with a first poll of
-- backend/src/chain/poller.ts.
use sorosense.Base.{
  ℕ, zero, suc, ◌+◌, String, Bool, true, false, Option, none, some, List, [], ◌∷◌, ◌++◌, ◌≡◌, ◌≢◌,
  refl, sym, ap, ◌∙◌, ◌==◌, ◌||◌, if◌then◌else◌, length, string_key, nat_beq, arith, Option-cases,
  Bool-cases, inl, inr, ◌⊎◌,
}
use mathlib.Core.Option
use sorosense.Dict.{Dict, get, put, get-put, has, add, has-add}
use sorosense.Sort.{sort_by}
use sorosense.Chain.Reader.{Native, RawEvent, EventPage, DecodedEvents, decode_events}
use sorosense.Chain.Store.{
  EventStore, new_store, ingest_event, ingest_events, ingest, later_cursor, values, raw,
}
use sorosense.Chain.Poller.{EventSource, Drain, stalls, is_last, drain, settle, poll}

abbrev pub max_pages : ℕ
max_pages = 1_000

-- The variables of the loop over the pages.
pub record Gathered (ScVal : Type 0) : Type 0 where
  pub seen : List String
  pub events : List (RawEvent ScVal)
  pub cursor : Option String
  pub latest_ledger : ℕ

abbrev pub nothing_gathered : {ScVal : Type 0} → Gathered ScVal
nothing_gathered = record { seen = []; events = []; cursor = none; latest_ledger = 0 }

-- No further progress: no cursor, the same cursor or an empty page.
abbrev pub ends_at : Option String → Option String → Bool
ends_at before none = true
ends_at before (some after) = after == "" || stalls before (some after)

module _ {ScVal : Type 0} where
  -- One round of the loop over the events of a page, and the loop.
  unfoldable pub gather_event : RawEvent ScVal → Gathered ScVal → Gathered ScVal
  gather_event ev g =
      if has ev.id g.seen
      then g
      else record g { seen = add ev.id g.seen; events = g.events ++ (ev ∷ []) }

  unfoldable pub gather : List (RawEvent ScVal) → Gathered ScVal → Gathered ScVal
  gather [] g = g
  gather (ev ∷ evs) g = gather evs (gather_event ev g)

  -- A page, its cursor included.
  unfoldable pub gather_page : EventPage ScVal → Gathered ScVal → Gathered ScVal
  gather_page page g =
      let g' = gather page.events g in
      record g' { cursor = later_cursor page.cursor g.cursor; latest_ledger = page.latest_ledger }

  abbrev pub is_final : EventPage ScVal → Option String → Bool
  is_final page before = ends_at before page.cursor || nat_beq (length page.events) 0

  -- The loop with `pages` rounds to go; none is a read that rejects.
  unfoldable pub gather_pages :
      {W : Type 0} → EventSource W ScVal → ℕ → Gathered ScVal → W → Option (Gathered ScVal) × W
  gather_pages source zero g w = (some g, w)
  gather_pages source (suc pages) g w =
      let w' = (source.get_events g.cursor w).1 in
      elim (source.get_events g.cursor w).0 [
        | none ↦ (none, w')
        | some page ↦ elim (is_final page g.cursor) [
          | true ↦ (some (gather_page page g), w')
          | false ↦ gather_pages source pages (gather_page page g) w'
        ]
      ]

pub record DecodedVaultEvents : Type 0 where
  pub decoded : DecodedEvents
  pub latest_ledger : ℕ
  pub cursor : Option String

module _ {ScVal : Type 0} (to_native : ScVal → Native) (parse_date : String → Option ℕ) where
  abbrev pub decode_gathered : Gathered ScVal → DecodedVaultEvents
  decode_gathered g = record {
    decoded = decode_events to_native parse_date (sort_by (λ ev. ev.ledger) g.events);
    latest_ledger = g.latest_ledger;
    cursor = g.cursor;
  }

  unfoldable pub read_vault_events :
      {W : Type 0} → EventSource W ScVal → W → Option DecodedVaultEvents × W
  read_vault_events source w =
      let end = gather_pages source max_pages nothing_gathered w in
      (Option.map decode_gathered end.0, end.1)

known : {ScVal : Type 0} → Option (RawEvent ScVal) → Bool
known none = false
known (some ev) = true

module _ {ScVal : Type 0} where
  values-put :
      (k : String) (ev : RawEvent ScVal) (d : Dict String (RawEvent ScVal))
      → get k d ≡ none
      → values (put k ev d) ≡ values d ++ (ev ∷ [])
  unfolding get put
  values-put k ev [] h = refl
  values-put k ev ((j, v) ∷ d) h = elim (Bool-cases (j == k)) [
    | inl same ↦ absurd (ground (arith, h, same))
    | inr other ↦ rw other (ap (λ r. v ∷ r) (values-put k ev d (rw other at h)))
  ]

  -- The store and the variables of the loop hold the same.
  record Agrees (held : Dict String (RawEvent ScVal)) (g : Gathered ScVal) : Type 0 where
    same_events : values held ≡ g.events
    same_ids : (id : String) → has id g.seen ≡ known (get id held)

  event-Agrees :
      (ev : RawEvent ScVal) (held : Dict String (RawEvent ScVal)) (g : Gathered ScVal)
      → Agrees held g
      → Agrees (ingest_event ev held) (gather_event ev g)
  unfolding ingest_event gather_event known
  event-Agrees ev held g h = elim (Option-cases (get ev.id held)) [
    | inr (old, e) ↦
        let seen : has ev.id g.seen ≡ true = h.same_ids ev.id ∙ ap known e in
        rw (ingest_event, gather_event, e, seen) h
    | inl e ↦
        let fresh : has ev.id g.seen ≡ false = h.same_ids ev.id ∙ ap known e in
        rw (ingest_event, gather_event, e, fresh)
          (record {
            same_events = values-put ev.id ev held e ∙ ap (λ r. r ++ (ev ∷ [])) h.same_events;
            same_ids = λ id.
                ground (arith, has-add ev.id id g.seen, get-put ev.id id ev held, h.same_ids id);
          })
  ]

  events-Agrees :
      (evs : List (RawEvent ScVal)) (held : Dict String (RawEvent ScVal)) (g : Gathered ScVal)
      → Agrees held g
      → Agrees (ingest_events evs held) (gather evs g)
  unfolding ingest_events gather
  events-Agrees [] held g h = h
  events-Agrees (ev ∷ evs) held g h =
      events-Agrees evs (ingest_event ev held) (gather_event ev g) (event-Agrees ev held g h)

  is_final-eq :
      (page : EventPage ScVal) (before : Option String)
      → page.cursor ≢ some ""
      → is_final page before ≡ is_last page before
  is_final-eq page before h = elim (Option-cases page.cursor) [
    | inl e ↦ ground (arith, e)
    | inr (c, e) ↦ elim (Bool-cases (c == "")) [
      | inl empty ↦ absurd (h (e ∙ ap some ((string_key.same_iff c "").0 empty)))
      | inr full ↦ ground (arith, e, full)
    ]
  ]

  abbrev store_at : Dict String (RawEvent ScVal) → Option String → ℕ → EventStore ScVal
  store_at held c watermark = record { by_id = held; next_cursor = c; watermark = watermark }

  module _ {W : Type 0} (source : EventSource W ScVal) where
    -- Both loops end alike.
    abbrev Alike : Drain W ScVal → Option (Gathered ScVal) × W → Type 0
    Alike end read =
        (end.world ≡ read.1)
        × (((end.rejected ≡ true) × (read.0 ≡ none))
            ⊎ ((end.rejected ≡ false)
                × ((g : Gathered ScVal) × ((read.0 ≡ some g) × Agrees end.store.by_id g))))

    drain-Alike :
        ((c : Option String) (w : W) (page : EventPage ScVal)
          → (source.get_events c w).0 ≡ some page
          → page.cursor ≢ some "")
        → (pages ingested : ℕ) (held : Dict String (RawEvent ScVal)) (watermark : ℕ)
          (g : Gathered ScVal) (w : W)
        → Agrees held g
        → Alike
            (drain source pages ingested (store_at held g.cursor watermark) w)
            (gather_pages source pages g w)
    unfolding drain gather_pages gather_page ingest
    drain-Alike full zero ingested held watermark g w h = (refl, inr (refl, (g, (refl, h))))
    drain-Alike full (suc pages) ingested held watermark g w h =
        elim (Option-cases (source.get_events g.cursor w).0) [
          | inl e ↦ rw (drain, gather_pages, e) (refl, inl (refl, refl))
          | inr (page, e) ↦
              let next = events-Agrees page.events held g h in
              let agreed : Agrees (ingest page (store_at held g.cursor watermark)).by_id
                  (gather_page page g) =
                record { same_events = next.same_events; same_ids = next.same_ids } in
              let one = is_final-eq page g.cursor (full g.cursor w page e) in
              elim (Bool-cases (is_last page g.cursor)) [
                | inl last ↦
                    rw (drain, gather_pages, e, one, last)
                      (refl, inr (refl, (gather_page page g, (refl, agreed))))
                | inr more ↦
                    rw (drain, gather_pages, e, one, more)
                      (drain-Alike full pages (ingested + length page.events) _ _
                        (gather_page page g) (source.get_events g.cursor w).1 agreed)
              ]
        ]

    module _ (to_native : ScVal → Native) (parse_date : String → Option ℕ) where
      -- What the ends of the two loops make of it.
      settled :
          (end : Drain W ScVal) (read : Option (Gathered ScVal) × W)
          → Alike end read
          → let p = settle source to_native parse_date end in
            let r = Option.map (decode_gathered to_native parse_date) read.0 in
            (p.world ≡ read.1)
            × (p.reported ≡ true → r ≡ none)
            × ((update : DecodedEvents)
                → p.update ≡ some update
                → Option.map (λ x. x.decoded) r ≡ some update)
      unfolding raw
      settled end read (w, inl (rejected, e)) = (
        w,
        λ reported. ap (Option.map (decode_gathered to_native parse_date)) e,
        λ update u. absurd (ground (arith, u, rejected)),
      )
      settled end read (w, inr (calm, (g, (e, h)))) = (
        w,
        λ reported. absurd (ground (arith, reported, calm)),
        λ update u. elim (Bool-cases (nat_beq end.ingested 0)) [
          | inl idle ↦ absurd (ground (arith, u, calm, idle))
          | inr busy ↦
              ap
                (λ o.
                  Option.map (λ x. x.decoded) (Option.map (decode_gathered to_native parse_date) o))
                e
              ∙ ap
                  (λ evs. some (decode_events to_native parse_date (sort_by (λ ev. ev.ledger) evs)))
                  (sym h.same_events)
              ∙ ground (arith, u, calm, busy)
        ],
      )

      -- Over a source whose cursors are not empty, the one-shot read makes the same reads as the first poll
      -- of a new store: where the poll reports an error the read fails, and where the poll has an
      -- update the read gives the same decoded events.
      pub read_vault_events-poll :
          ((c : Option String) (w : W) (page : EventPage ScVal)
            → (source.get_events c w).0 ≡ some page
            → page.cursor ≢ some "")
          → (w : W)
          → let p = poll source to_native parse_date none new_store w in
            let r = read_vault_events to_native parse_date source w in
            (p.world ≡ r.1)
            × (p.reported ≡ true → r.0 ≡ none)
            × ((update : DecodedEvents)
                → p.update ≡ some update
                → Option.map (λ x. x.decoded) r.0 ≡ some update)
      unfolding poll read_vault_events known get has
      read_vault_events-poll full w =
          settled (drain source max_pages 0 new_store w)
            (gather_pages source max_pages nothing_gathered w)
            (drain-Alike full max_pages 0 [] 0 nothing_gathered w
              (record { same_events = refl; same_ids = λ id. refl }))
