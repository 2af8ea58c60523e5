-- ===== src/Realtime/Boot.antt =====
-- What the loops of backend/src/http/realtime.ts start with, and what they keep.
use sorosense.Base.{
  ℕ, ◌≤◌, String, ◌≡◌, refl, false, Option, none, some, ◌⊎◌, inl, inr, arith, Bool-cases,
  Option-cases,
}
use mathlib.Core.Path.{subst}
use sorosense.Int.{ℤ}
use sorosense.Text.{parse_int}
use sorosense.Chain.Reader.{Native, DecodedEvents, decode_events}
use sorosense.Chain.Store.{EventStore, new_store, raw}
use sorosense.Chain.Poller.{poll}
use sorosense.Chain.Collect.{Extends, Extends-trans, poll_keeps}
use sorosense.Snapshots.{SnapshotStore}
use sorosense.Realtime.{
  RealtimeEnv, is_integration_env, positive, int_env, configured_ledger, clamped_ledger, Feeds,
  Live, Handle, resolve_start_ledger, live_poll, live_snapshot, boot, start_realtime, Runs, booted,
  then_poll, then_snapshot, default_event_poll_ms, default_snapshot_interval_ms,
}

positive_some : (o : Option ℤ) {n : ℕ} → positive o ≡ some n → 1 ≤ n
positive_some o h = ground (arith, h)

int_env_positive : (raw : Option String) (fallback : ℕ) → 1 ≤ fallback → 1 ≤ int_env raw fallback
unfolding int_env
int_env_positive none fallback h = h
int_env_positive (some text) fallback h = elim (Option-cases (positive (parse_int text))) [
  | inl e ↦ rw e h
  | inr (n, e) ↦ rw e (positive_some (parse_int text) e)
]

configured_positive : (raw : Option String) {n : ℕ} → configured_ledger raw ≡ some n → 1 ≤ n
configured_positive none h = cc
configured_positive (some text) h = positive_some (parse_int text) h

clamped_positive : (latest : ℕ) → 1 ≤ clamped_ledger latest
clamped_positive latest = ground arith

module _ {W ScVal : Type 0} (to_native : ScVal → Native) (parse_date : String → Option ℕ)
    (feeds : Feeds W ScVal) where
  ledger_positive :
      (env : RealtimeEnv) (w : W) {ledger : ℕ}
      → (resolve_start_ledger to_native parse_date feeds env w).0 ≡ some ledger
      → 1 ≤ ledger
  unfolding resolve_start_ledger
  ledger_positive env w {ledger} h =
      elim (Option-cases (configured_ledger env.vault_start_ledger)) [
        | inr (n, e) ↦ ground (arith, h, e, configured_positive env.vault_start_ledger e)
        | inl e ↦ elim (Option-cases (feeds.read_latest_ledger w).0) [
          | inl f ↦ absurd (ground (arith, h, e, f))
          | inr (latest, f) ↦ ground (arith, h, e, f, clamped_positive latest)
        ]
      ]

  -- What is served is what the boot was given, or the decode of all events that a store held, of which
  -- the store has lost none.
  abbrev pub Serves : DecodedEvents → Live W ScVal → Type 0
  Serves given l =
      (l.events ≡ given)
      ⊎ ((s : EventStore ScVal) × (Extends s l.store
            × (l.events ≡ decode_events to_native parse_date (raw s))))

  kept : (s : EventStore ScVal) → Extends s s
  kept s = (λ id ev h. h, omega arith)

  Serves-later :
      {given : DecodedEvents} (l : Live W ScVal) (t : EventStore ScVal)
      → Extends l.store t
      → Serves given l
      → (l.events ≡ given)
        ⊎ ((s : EventStore ScVal) × (Extends s t
              × (l.events ≡ decode_events to_native parse_date (raw s))))
  Serves-later l t more (inl h) = inl h
  Serves-later l t more (inr (s, (e, h))) = inr (s, (Extends-trans s l.store t e more, h))

  live_poll-Serves :
      {given : DecodedEvents} (ledger : ℕ) (l : Live W ScVal)
      → Serves given l
      → Extends l.store (live_poll to_native parse_date feeds ledger l).store
        × Serves given (live_poll to_native parse_date feeds ledger l)
  unfolding live_poll
  live_poll-Serves {given} ledger l h =
      let p = poll (feeds.create_source ledger) to_native parse_date none l.store l.world in
      let (more, handed, refused) =
        poll_keeps (feeds.create_source ledger) to_native parse_date none l.store l.world in
      (
        more,
        elim (Option-cases p.update) [
          | inl e ↦ rw e (Serves-later l p.store more h)
          | inr (decoded, e) ↦ rw e (inr (p.store, (kept p.store, (handed decoded e).1)))
        ],
      )

  Runs-Serves :
      {given : DecodedEvents} {ledger : ℕ} {live l : Live W ScVal}
      → Serves given live
      → Runs to_native parse_date feeds ledger live l
      → Extends live.store l.store × Serves given l
  unfolding live_snapshot
  Runs-Serves {live = live} h booted = (kept live.store, h)
  Runs-Serves {ledger = ledger} {live = live} h (then_poll {l = l} runs) =
      let (more, served) = Runs-Serves h runs in
      let (next, served') = live_poll-Serves ledger l served in
      (
        Extends-trans live.store l.store (live_poll to_native parse_date feeds ledger l).store more
            next,
        served',
      )
  Runs-Serves h (then_snapshot runs) = Runs-Serves h runs

  -- The handle is in bounds, and whatever its loops do keeps serving.
  abbrev pub KeepsServing : DecodedEvents → Live W ScVal → Handle → Type 0
  KeepsServing given live h =
      ((1 ≤ h.start_ledger) × (1 ≤ h.event_poll_ms) × (1 ≤ h.snapshot_ms))
      × ((l : Live W ScVal)
          → Runs to_native parse_date feeds h.start_ledger live l
          → Extends live.store l.store × Serves given l)

  boot_keeps :
      (env : RealtimeEnv) (given : DecodedEvents) (ledger : ℕ) (live : Live W ScVal) {h : Handle}
      → 1 ≤ ledger
      → Serves given live
      → (boot to_native parse_date feeds env ledger live).0 ≡ some h
      → KeepsServing given (boot to_native parse_date feeds env ledger live).1 h
  unfolding live_snapshot
  boot_keeps env given ledger live {h} le served e =
      let made : Handle = record {
        start_ledger = ledger;
        event_poll_ms = int_env env.event_poll_ms default_event_poll_ms;
        snapshot_ms = int_env env.snapshot_interval_ms default_snapshot_interval_ms;
      } in
      let same : made ≡ h = ground (arith, e) in
      subst (KeepsServing given (boot to_native parse_date feeds env ledger live).1) same (
        (
          le,
          int_env_positive env.event_poll_ms default_event_poll_ms (omega arith),
          int_env_positive env.snapshot_interval_ms default_snapshot_interval_ms (omega arith),
        ),
        λ l runs. Runs-Serves (live_poll-Serves ledger live served).1 runs,
      )

  -- A boot without the four variables of the integration makes no read at all and leaves what it was
  -- given. A boot that succeeds starts at a ledger that is at least 1, with intervals of at
  -- least one millisecond, and however polls and snapshots then alternate, the store loses no event
  -- and what is served is what the boot was given or the decode of all events of a store that the
  -- current one extends.
  pub start_realtime_lem :
      (env : RealtimeEnv) (events : DecodedEvents) (snapshots : SnapshotStore) (w : W)
      → let boot = start_realtime to_native parse_date feeds env events snapshots w in
        (is_integration_env env ≡ false
          → (boot.0 ≡ none)
            × (boot.1.world ≡ w)
            × (boot.1.events ≡ events)
            × (boot.1.snapshots ≡ snapshots))
        × ((h : Handle) → boot.0 ≡ some h → KeepsServing events boot.1 h)
  unfolding start_realtime
  start_realtime_lem env events snapshots w = (
    λ off. rw (start_realtime, off) (refl, refl, refl, refl),
    λ h e. elim (Bool-cases (is_integration_env env)) [
      | inr off ↦ absurd (ground (arith, e, off))
      | inl on ↦ elim (Option-cases (resolve_start_ledger to_native parse_date feeds env w).0) [
        | inl f ↦ absurd (ground (arith, e, on, f))
        | inr (ledger, f) ↦
            rw (start_realtime, on, f)
              (boot_keeps env events ledger
                (record {
                  store = new_store;
                  events = events;
                  snapshots = snapshots;
                  world = (resolve_start_ledger to_native parse_date feeds env w).1;
                  errors = 0;
                })
                (ledger_positive env w f) (inl refl) (rw (start_realtime, on, f) at e))
      ]
    ],
  )
