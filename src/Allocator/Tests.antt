-- ===== src/Allocator/Tests.antt =====
-- Ticks of backend/src/mastra/allocator.ts and the theorems at concrete buckets.
use sorosense.Base.{
  ◌≡◌, ◌≢◌, refl, Option, none, some, true, false, List, [], ◌∷◌, arith, All, map, keep, string_key,
  if◌then◌else◌, ◌==◌, Bool,
}
use sorosense.Int.{ℤ, pos, ◌+ℤ◌, ◌-ℤ◌, ◌*ℤ◌, ◌/ℤ◌}
use sorosense.Dict.{get, put, has}
use sorosense.Double.Fixed.{fixed, fixed-IsStrictOrder}
use sorosense.Seam.{usd, Currency, currency_key, Address, PoolId}
use sorosense.Sentinel.{exceeds_rebalance_threshold}
use sorosense.Allocator.{
  compound, rebalance, noop, awaiting_exit_approval, Candidate, best_from, best_of, dwelling,
  too_costly, should_rebalance, classify_bucket,
}
use sorosense.Allocator.Tick.{
  BucketStore, empty_store, get_active_pool, get_last_rebalance_at, EffectCall, TickContext,
  input_of, drive, settle, run_allocator_tick, reads_on,
}
use sorosense.Allocator.Best.{IsUpper, classify_bucket-rebalance}
use sorosense.Allocator.Anomaly.{exit_call, exit_target, tick_waits, tick_anomaly}
use sorosense.Allocator.Dwell.{IsEarly, run_ticks, tick_dwells}
use sorosense.Allocator.Gate.{IsGated, call_for, tick-IsGated}
use mathlib.Core.List.{Memᴰ}

abbrev candidates : List (Candidate fixed)
candidates =
    record { pool_id = "blend"; ray = pos 50_000 }
    ∷ record { pool_id = "aqua"; ray = pos 80_000 }
    ∷ []

-- The bucket is in "blend" at 5%, "aqua" offers 8%, and every effect resolves.
abbrev ctx : TickContext fixed
ctx = record {
  currency = usd;
  active_anomaly = false;
  active_ray = some (pos 50_000);
  candidates = candidates;
  yield_accrued = true;
  threshold_pct = pos 10_000;
  effects = λ calls call. true;
  depositors = none;
  auto_compound_enabled = none;
  clock = some (pos 1_000_000);
  min_dwell_ms = none;
  position_value_usd = none;
  switch_cost_usd = none;
  dwell_horizon_days = none;
}

abbrev store : BucketStore
store = record empty_store { active = (usd, "blend") ∷ [] }

moves : classify_bucket fixed (input_of fixed ctx store) ≡ rebalance usd "blend" "aqua"
unfolding classify_bucket best_of best_from should_rebalance dwelling too_costly get has ◌-ℤ◌ ◌*ℤ◌
    ◌/ℤ◌
moves = refl

classify_bucket-rebalance_example :
    let input = input_of fixed ctx store in
    (input.has_pending_exit ≡ false)
    × (input.active_pool ≢ some "aqua")
    × ((best : Candidate fixed) × (best.pool_id ≡ "aqua")
        × Memᴰ best input.candidates
        × IsUpper fixed-IsStrictOrder best input.candidates
        × ((held : PoolId) (current : ℤ)
            → input.active_pool ≡ some held
            → input.active_ray ≡ some current
            → ("blend" ≡ held)
              × (exceeds_rebalance_threshold fixed current best.ray input.threshold_pct ≡ true)
              × (dwelling input.min_dwell_ms input.now_ms input.last_rebalance_at_ms ≡ false)
              × (too_costly fixed current best.ray input.position_value_usd input.switch_cost_usd
                    input.dwell_horizon_days
                  ≡ false)))
classify_bucket-rebalance_example =
    classify_bucket-rebalance fixed-IsStrictOrder (input_of fixed ctx store) moves

tick_moves : (run_allocator_tick fixed ctx store).decision ≡ some (rebalance usd "blend" "aqua")
unfolding run_allocator_tick drive settle classify_bucket best_of best_from should_rebalance
    dwelling too_costly get put has ◌-ℤ◌ ◌*ℤ◌ ◌/ℤ◌
tick_moves = refl

-- One day later.
abbrev later : TickContext fixed
later = record ctx { clock = some (pos 87_400_000) }

later-IsEarly : IsEarly usd (pos 1_000_000) later
unfolding ◌+ℤ◌
later-IsEarly = record {
  soon = pos 87_400_000;
  current = pos 50_000;
  same = refl;
  clock = refl;
  yield_known = refl;
  positive = omega arith;
  within = omega arith;
}

-- Two ticks of the next day.
tick_dwells_example :
    let next =
      run_allocator_tick fixed later
        (run_ticks (later ∷ []) (run_allocator_tick fixed ctx store).store) in
    ((c : Currency) (from' to' : PoolId) → ¬ (next.decision ≡ some (rebalance c from' to')))
    × (get_active_pool next.store usd ≡ some "aqua")
    × (get_last_rebalance_at next.store usd ≡ some (pos 1_000_000))
tick_dwells_example =
    tick_dwells ctx later (later ∷ []) store refl tick_moves (later-IsEarly, tt) later-IsEarly

abbrev waiting : BucketStore
waiting = record store { pending = usd ∷ [] }

waiting_tick :
    run_allocator_tick fixed ctx waiting
    ≡ record { calls = []; store = waiting; decision = some (noop usd awaiting_exit_approval) }
unfolding has
waiting_tick = tick_waits ctx waiting refl

abbrev flagged : TickContext fixed
flagged = record ctx { active_anomaly = true }

tick_anomaly_example :
    let run = run_allocator_tick fixed flagged store in
    (run.calls ≡ exit_call flagged "blend" ∷ [])
    × (exit_target flagged "blend" ≢ some "blend")
    × (get_active_pool run.store usd ≡ get_active_pool store usd)
    × (flagged.effects [] (exit_call flagged "blend") ≡ true
        → (again : TickContext fixed) → again.currency ≡ usd
        → run_allocator_tick fixed again run.store ≡ record {
          calls = [];
          store = run.store;
          decision = some (noop again.currency awaiting_exit_approval);
        })
    × (flagged.effects [] (exit_call flagged "blend") ≡ false
        → (run.store ≡ store) × (run.decision ≡ none))
unfolding get has
tick_anomaly_example = tick_anomaly flagged store "blend" refl refl refl

-- Alice reinvests, Bob does not, and Carol's preference cannot be read.
abbrev preference : Address → Option Bool
preference a = if a == "alice" then some true else (if a == "bob" then some false else none)

abbrev everyone : List Address
everyone = "carol" ∷ "bob" ∷ "alice" ∷ []

abbrev gated : TickContext fixed
gated = record ctx { depositors = some everyone; auto_compound_enabled = some preference }

tick-IsGated_example :
    All (IsGated preference) (run_allocator_tick fixed gated store).calls
    × ((c : Currency) (pool : PoolId)
        → classify_bucket fixed (input_of fixed gated store) ≡ compound c pool
        → ((calls : List EffectCall) (call : EffectCall) → gated.effects calls call ≡ true)
        → run_allocator_tick fixed gated store ≡ record {
          calls =
              map (call_for gated.effects preference c pool) (keep (reads_on preference) everyone);
          store = store;
          decision = some (compound c pool);
        })
tick-IsGated_example = tick-IsGated preference everyone gated store refl refl
