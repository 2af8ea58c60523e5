-- ===== src/Realtime/Tests.antt =====
-- Boots of backend/src/http/realtime.ts, and the theorem at one.
use sorosense.Base.{ℕ, ◌+◌, String, ◌≡◌, refl, false, Option, none, some, [], number_key}
use sorosense.Int.{pos, ◌-ℤ◌}
use sorosense.Text.{parse_int}
use sorosense.Chain.Reader.{Native, DecodedEvents}
use sorosense.Realtime.{
  RealtimeEnv, is_integration_env, int_env, Feeds, Handle, resolve_start_ledger, start_realtime,
}
use sorosense.Realtime.Boot.{KeepsServing, start_realtime_lem}

abbrev same_value : Native → Native
same_value v = v

abbrev no_date : String → Option ℕ
no_date closed_at = none

-- A world that counts the reads; the chain is at ledger 200 000 and has no events.
abbrev feeds : Feeds ℕ Native
feeds = record {
  read_latest_ledger = λ n. (some 200_000, 1 + n);
  create_source = λ ledger. record {
    get_events = λ at n. (some (record { events = []; latest_ledger = 9; cursor = none }), 1 + n);
  };
  sampling = record { share_price = λ c n. (some (pos 7), 1 + n); clock = λ n. n };
}

abbrev live_env : RealtimeEnv
live_env = record {
  vault_contract_id = some "C";
  stellar_rpc_url = some "https://rpc";
  stellar_network_passphrase = some "test";
  keeper_secret = some "S";
  vault_start_ledger = some "-3";
  event_poll_ms = some "2500";
  snapshot_interval_ms = none;
}

abbrev no_events : DecodedEvents
no_events = record { vault_events = []; user_events = []; agent_events = [] }

abbrev handle : Handle
handle = record { start_ledger = 80_000; event_poll_ms = 2_500; snapshot_ms = 60_000 }

boots : (start_realtime same_value no_date feeds live_env no_events [] 0).0 ≡ some handle
unfolding start_realtime is_integration_env resolve_start_ledger int_env parse_int ◌-ℤ◌
boots = refl

stays_off :
    (start_realtime same_value no_date feeds
      (record live_env { keeper_secret = some "" })
      no_events
      []
      0).1.world
    ≡ 0
unfolding start_realtime is_integration_env
stays_off = refl

start_realtime_lem_example :
    let boot = start_realtime same_value no_date feeds live_env no_events [] 0 in
    (is_integration_env live_env ≡ false
      → (boot.0 ≡ none)
        × (boot.1.world ≡ 0)
        × (boot.1.events ≡ no_events)
        × (boot.1.snapshots ≡ []))
    × ((h : Handle) → boot.0 ≡ some h → KeepsServing same_value no_date feeds no_events boot.1 h)
start_realtime_lem_example = start_realtime_lem same_value no_date feeds live_env no_events [] 0
