-- ===== src/Keeper.antt =====
-- backend/src/keeper/runner.ts: the effects of the allocator on the vault, and a tick against it.
pub mod Cron
pub mod Cli
pub mod Moves
mod Tests
use sorosense.Base.{Bool, true, false, Option, none, some, List, [], ◌∷◌, if◌then◌else◌, get_or}
use sorosense.Int.{ℤ}
use sorosense.Double.{Doubles}
use sorosense.Seam.{Currency, PoolId, Amount, ExitProposal, TxResult, currency_key}
use sorosense.Vault.Submit.{
  Write, allocate_call, deallocate_call, freeze_call, unfreeze_call, propose_call,
}
use sorosense.Allocator.{Candidate, Decision, named}
use sorosense.Allocator.Tick.{
  BucketStore, empty_store, set_active_pool, set_pending_exit, EffectCall, compound_call,
  rebalance_call, freeze_exit_call, AllocatorEffects, TickContext, TickRun, run_allocator_tick,
}

-- The vault client on the state `W` behind it: a write that is prepared, signed by the keeper and
-- submitted, and two reads. `none` is a throw.
pub record VaultClient (W : Type 0) : Type 0 where
  pub submit : Write → W → Option TxResult × W
  pub active_pool : W → Currency → Option (Option PoolId)
  pub pending_exit : W → Currency → Option (Option ExitProposal)

-- The options, resolved. A pool or an amount that cannot be found is `none`.
pub record KeeperRunnerOptions (W : Type 0) : Type 0 where
  pub client : VaultClient W
  pub integration : Bool
  pub pool_for : Currency → Option PoolId
  pub move_amount : Option (Currency → PoolId → Option Amount)
  pub clock : ℤ

module _ {W : Type 0} (options : KeeperRunnerOptions W) where
  -- `submit`: nothing reaches the client in mock mode.
  unfoldable pub guarded : Write → W → Option TxResult × W
  guarded write w = if options.integration then options.client.submit write w else (none, w)

  unfoldable pub amount_to_move : Currency → PoolId → Option Amount
  amount_to_move c pool = elim options.move_amount [ none ↦ none | some amount ↦ amount c pool ]

  abbrev pub resolved : Option TxResult → Bool
  resolved none = false
  resolved (some res) = true

  abbrev pub submit_only : Write → W → Bool × W
  submit_only write w = (resolved (guarded write w).0, (guarded write w).1)

  -- Two writes in a row: a throw of the first keeps the second from the client.
  abbrev pub submit_both : Write → Write → W → Bool × W
  submit_both first second w =
      if resolved (guarded first w).0
      then submit_only second (guarded first w).1
      else (false, (guarded first w).1)

  abbrev pub freeze_exit_writes : Currency → PoolId → Option PoolId → W → Bool × W
  freeze_exit_writes c pool (some to) w = submit_both (freeze_call pool) (propose_call c pool to) w
  freeze_exit_writes c pool none w = submit_only (freeze_call pool) w

  -- The effects: whether a call resolves, and the vault after it.
  unfoldable pub effect : EffectCall → W → Bool × W
  effect (compound_call c pool depositor) w = elim (amount_to_move c pool) [
    | none ↦ (false, w)
    | some amount ↦ submit_only (allocate_call pool c amount) w
  ]
  effect (rebalance_call c from to) w = elim (amount_to_move c from) [
    | none ↦ (false, w)
    | some amount ↦ submit_both (deallocate_call from c amount) (allocate_call to c amount) w
  ]
  effect (freeze_exit_call c pool to) w = freeze_exit_writes c pool (named to) w

  unfoldable pub run_calls : List EffectCall → W → W
  run_calls [] w = w
  run_calls (call ∷ calls) w = run_calls calls (effect call w).1

  -- The effects as the allocator sees them, from the vault `w` at the start of its tick.
  abbrev pub effects_from : W → AllocatorEffects
  effects_from w calls call = (effect call (run_calls calls w)).0

  -- `allocate`, `freezePool` and `unfreezePool`
  abbrev pub on_pool : Currency → (PoolId → Write) → W → Option TxResult × W
  on_pool c write w =
      if options.integration
      then elim (options.pool_for c) [ none ↦ (none, w) | some pool ↦ guarded (write pool) w ]
      else (none, w)

  unfoldable pub runner_allocate : Currency → Amount → W → Option TxResult × W
  runner_allocate c amount w = on_pool c (λ pool. allocate_call pool c amount) w

  unfoldable pub runner_freeze : Currency → W → Option TxResult × W
  runner_freeze c w = on_pool c freeze_call w

  unfoldable pub runner_unfreeze : Currency → W → Option TxResult × W
  runner_unfreeze c w = on_pool c unfreeze_call w

  abbrev pub seed_active : Currency → Option PoolId → BucketStore → BucketStore
  seed_active c none s = s
  seed_active c (some pool) s = set_active_pool c pool s

  abbrev pub seed_pending : Currency → Option ExitProposal → BucketStore → BucketStore
  seed_pending c none s = s
  seed_pending c (some proposal) s = set_pending_exit c true s

  -- The fresh store of a tick, from the live reads.
  unfoldable pub seeded : Currency → W → Option BucketStore
  seeded c w = elim (options.client.active_pool w c) [
    | none ↦ none
    | some pool ↦ elim (options.client.pending_exit w c) [
      | none ↦ none
      | some proposal ↦ some (seed_pending c proposal (seed_active c (named pool) empty_store))
    ]
  ]

module _ (d : Doubles) where
  pub record RunTickInput : Type 0 where
    pub candidates : List (Candidate d)
    pub active_anomaly : Option Bool
    pub active_ray : Option d.Number
    pub yield_accrued : Option Bool
    pub threshold_pct : Option d.Number
    pub min_dwell_ms : Option ℤ
    pub position_value_usd : Option d.Number
    pub switch_cost_usd : Option d.Number
    pub dwell_horizon_days : Option d.Number
    pub store : Option BucketStore

  abbrev pub default_threshold_pct : d.Number
  default_threshold_pct = d.decimal 15 1

  module _ {W : Type 0} (options : KeeperRunnerOptions W) where
    abbrev pub tick_context : Currency → RunTickInput → W → TickContext d
    tick_context c input w = record {
      currency = c;
      active_anomaly = get_or input.active_anomaly false;
      active_ray = input.active_ray;
      candidates = input.candidates;
      yield_accrued = get_or input.yield_accrued false;
      threshold_pct = get_or input.threshold_pct default_threshold_pct;
      effects = effects_from options w;
      depositors = none;
      auto_compound_enabled = none;
      clock = some options.clock;
      min_dwell_ms = input.min_dwell_ms;
      position_value_usd = input.position_value_usd;
      switch_cost_usd = input.switch_cost_usd;
      dwell_horizon_days = input.dwell_horizon_days;
    }

    abbrev pub store_for : Currency → RunTickInput → W → Option BucketStore
    store_for c input w = elim input.store [ some s ↦ some s | none ↦ seeded options c w ]

    -- The decision, or none where the tick rejects, and the vault after the tick's calls.
    unfoldable pub run_tick : Currency → RunTickInput → W → Option Decision × W
    run_tick c input w = elim (store_for c input w) [
      | none ↦ (none, w)
      | some s ↦
          let run = run_allocator_tick d (tick_context c input w) s in
          (run.decision, run_calls options run.calls w)
    ]
