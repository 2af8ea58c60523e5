-- ===== src/Realtime.antt =====
-- backend/src/http/realtime.ts: the live loops that feed the reads, built from the poller of
-- backend/src/chain/poller.ts and the ticks of backend/src/earnings/snapshotter.ts.
pub mod Boot
mod Tests
use sorosense.Base.{
  ℕ, ◌+◌, ◌-◌, String, Bool, true, false, Option, none, some, List, [], ◌∷◌, ltb, get_or,
  if◌then◌else◌,
}
use mathlib.Core.Option
use sorosense.Int.{ℤ, pos, negsuc}
use sorosense.Text.{parse_int}
use sorosense.Real.{truthy}
use sorosense.Chain.Reader.{Native, DecodedEvents}
use sorosense.Chain.Store.{EventStore, new_store}
use sorosense.Chain.Poller.{EventSource, Poll, poll}
use sorosense.Snapshots.{SnapshotStore, Sampling, Ticked, snapshot_tick}
use sorosense.Quotes.{all_currencies}

abbrev pub default_event_poll_ms : ℕ
default_event_poll_ms = 10_000

abbrev pub default_snapshot_interval_ms : ℕ
default_snapshot_interval_ms = 60_000

abbrev pub retention_margin_ledgers : ℕ
retention_margin_ledgers = 120_000

-- The environment variables that the boot looks at.
pub record RealtimeEnv : Type 0 where
  pub vault_contract_id : Option String
  pub stellar_rpc_url : Option String
  pub stellar_network_passphrase : Option String
  pub keeper_secret : Option String
  pub vault_start_ledger : Option String
  pub event_poll_ms : Option String
  pub snapshot_interval_ms : Option String

abbrev pub is_set : Option String → Bool
is_set o = elim (truthy o) [ none ↦ false | some s ↦ true ]

unfoldable pub is_integration_env : RealtimeEnv → Bool
is_integration_env env =
    if is_set env.vault_contract_id
    then (if is_set env.stellar_rpc_url
        then (if is_set env.stellar_network_passphrase then is_set env.keeper_secret else false)
        else false)
    else false

-- A number above zero.
abbrev pub positive : Option ℤ → Option ℕ
positive none = none
positive (some (negsuc n)) = none
positive (some (pos n)) = if ltb 0 n then some n else none

unfoldable pub int_env : Option String → ℕ → ℕ
int_env none fallback = fallback
int_env (some raw) fallback = get_or (positive (parse_int raw)) fallback

abbrev pub configured_ledger : Option String → Option ℕ
configured_ledger none = none
configured_ledger (some raw) = positive (parse_int raw)

-- `Math.max(1, latest - margin)`
abbrev pub clamped_ledger : ℕ → ℕ
clamped_ledger latest =
    if ltb 1 (latest - retention_margin_ledgers) then latest - retention_margin_ledgers else 1

-- What the boot is given: the read of the latest ledger (none where it rejects), the source from a
-- ledger on, and the share prices with the clock, over one world.
pub record Feeds (W ScVal : Type 0) : Type 0 where
  pub read_latest_ledger : W → Option ℕ × W
  pub create_source : ℕ → EventSource W ScVal
  pub sampling : Sampling W

-- The fields of `deps` that the loops write, with the store behind them and the number of calls of
-- `onError`.
pub record Live (W ScVal : Type 0) : Type 0 where
  pub store : EventStore ScVal
  pub events : DecodedEvents
  pub snapshots : SnapshotStore
  pub world : W
  pub errors : ℕ

-- The handle, and the intervals of its loops.
pub record Handle : Type 0 where
  pub start_ledger : ℕ
  pub event_poll_ms : ℕ
  pub snapshot_ms : ℕ

abbrev pub one_more : Bool → ℕ → ℕ
one_more true n = 1 + n
one_more false n = n

module _ {W ScVal : Type 0} (to_native : ScVal → Native) (parse_date : String → Option ℕ)
    (feeds : Feeds W ScVal) where
  unfoldable pub resolve_start_ledger : RealtimeEnv → W → Option ℕ × W
  resolve_start_ledger env w = elim (configured_ledger env.vault_start_ledger) [
    | some ledger ↦ (some ledger, w)
    | none ↦
        (Option.map clamped_ledger (feeds.read_latest_ledger w).0, (feeds.read_latest_ledger w).1)
  ]

  abbrev pub polled : Live W ScVal → Poll W ScVal → Live W ScVal
  polled live p = record live {
    store = p.store;
    events = get_or p.update live.events;
    world = p.world;
    errors = one_more p.reported live.errors;
  }

  -- One poll, of the source from a ledger on.
  unfoldable pub live_poll : ℕ → Live W ScVal → Live W ScVal
  live_poll ledger live =
      polled live
        (poll (feeds.create_source ledger) to_native parse_date none live.store live.world)

  abbrev pub snapped : Live W ScVal → Ticked W → Live W ScVal
  snapped live t = record live {
    snapshots = t.store;
    world = t.world;
    errors = one_more t.rejected live.errors;
  }

  unfoldable pub live_snapshot : Live W ScVal → Live W ScVal
  live_snapshot live =
      snapped live (snapshot_tick feeds.sampling all_currencies live.snapshots live.world)

  -- From the ledger on: one poll and one snapshot before the loops start.
  abbrev pub boot : RealtimeEnv → ℕ → Live W ScVal → Option Handle × Live W ScVal
  boot env ledger live = (
    some (record {
      start_ledger = ledger;
      event_poll_ms = int_env env.event_poll_ms default_event_poll_ms;
      snapshot_ms = int_env env.snapshot_interval_ms default_snapshot_interval_ms;
    }),
    live_snapshot (live_poll ledger live),
  )

  -- `startRealtime` on the fields of `deps`; no handle is `null`.
  unfoldable pub start_realtime :
      RealtimeEnv → DecodedEvents → SnapshotStore → W → Option Handle × Live W ScVal
  start_realtime env events snapshots w =
      let given : Live W ScVal = record {
        store = new_store;
        events = events;
        snapshots = snapshots;
        world = w;
        errors = 0;
      } in
      if is_integration_env env
      then elim (resolve_start_ledger env w).0 [
        | none ↦ (none, record given { world = (resolve_start_ledger env w).1; errors = 1 })
        | some ledger ↦ boot env ledger (record given { world = (resolve_start_ledger env w).1 })
      ]
      else (none, given)

  -- What the loops do from then on, in any order: each handler is fail-soft and none overlaps itself.
  pub data Runs (ledger : ℕ) (live : Live W ScVal) : Live W ScVal → Type 0 where
    booted : Runs ledger live live
    then_poll : {l : Live W ScVal} → Runs ledger live l → Runs ledger live (live_poll ledger l)
    then_snapshot : {l : Live W ScVal} → Runs ledger live l → Runs ledger live (live_snapshot l)
