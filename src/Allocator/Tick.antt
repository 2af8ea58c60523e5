-- ===== src/Allocator/Tick.antt =====
-- backend/src/mastra/allocator.ts, the execution: the store of the buckets, the effects that a tick
-- drives, and `runAllocatorTick`.
use sorosense.Base.{
  ℕ, Bool, true, false, Option, none, some, List, [], ◌∷◌, ◌++◌, get_or, if◌then◌else◌,
}
use sorosense.Int.{ℤ, pos}
use sorosense.Dict.{Dict, get, put, has, add, remove}
use sorosense.Double.{Doubles}
use sorosense.Seam.{Currency, currency_key, Address, PoolId}
use sorosense.Allocator.{
  Decision, compound, rebalance, freeze_exit, noop, Candidate, ClassifyInput, classify_bucket,
}

-- `InMemoryBucketStore`
pub record BucketStore : Type 0 where
  pub active : Dict Currency PoolId
  pub pending : List Currency
  pub last_move : Dict Currency ℤ

abbrev pub empty_store : BucketStore
empty_store = record { active = []; pending = []; last_move = [] }

abbrev pub get_active_pool : BucketStore → Currency → Option PoolId
get_active_pool s c = get c s.active

abbrev pub set_active_pool : Currency → PoolId → BucketStore → BucketStore
set_active_pool c pool s = record s { active = put c pool s.active }

abbrev pub has_pending_exit : BucketStore → Currency → Bool
has_pending_exit s c = has c s.pending

abbrev pub set_pending_exit : Currency → Bool → BucketStore → BucketStore
set_pending_exit c true s = record s { pending = add c s.pending }
set_pending_exit c false s = record s { pending = remove c s.pending }

abbrev pub get_last_rebalance_at : BucketStore → Currency → Option ℤ
get_last_rebalance_at s c = get c s.last_move

abbrev pub set_last_rebalance_at : Currency → ℤ → BucketStore → BucketStore
set_last_rebalance_at c at s = record s { last_move = put c at s.last_move }

-- A call of one of the injected effects.
pub data EffectCall : Type 0 where
  compound_call : Currency → PoolId → Option Address → EffectCall
  rebalance_call : Currency → PoolId → PoolId → EffectCall
  freeze_exit_call : Currency → PoolId → Option PoolId → EffectCall

-- The injected effects: whether a call resolves or rejects, which may depend on the calls before it
-- in the tick.
abbrev pub AllocatorEffects : Type 0
AllocatorEffects = List EffectCall → EffectCall → Bool

-- Seven days, in milliseconds.
abbrev pub default_min_dwell_ms : ℤ
default_min_dwell_ms = pos 604_800_000

abbrev pub default_dwell_horizon_days : ℕ
default_dwell_horizon_days = 30

module _ (d : Doubles) where
  -- `clock` is what the injected clock says; `auto_compound_enabled` yields `none` where the read of
  -- a preference throws.
  pub record TickContext : Type 0 where
    pub currency : Currency
    pub active_anomaly : Bool
    pub active_ray : Option d.Number
    pub candidates : List (Candidate d)
    pub yield_accrued : Bool
    pub threshold_pct : d.Number
    pub effects : AllocatorEffects
    pub depositors : Option (List Address)
    pub auto_compound_enabled : Option (Address → Option Bool)
    pub clock : Option ℤ
    pub min_dwell_ms : Option ℤ
    pub position_value_usd : Option d.Number
    pub switch_cost_usd : Option d.Number
    pub dwell_horizon_days : Option d.Number

  abbrev pub dwell_window : TickContext → Option ℤ
  dwell_window ctx = elim ctx.clock [
    | none ↦ ctx.min_dwell_ms
    | some _ ↦ some (get_or ctx.min_dwell_ms default_min_dwell_ms)
  ]

  -- What a tick reads: its context and the store.
  abbrev pub input_of : TickContext → BucketStore → ClassifyInput d
  input_of ctx s = record {
    currency = ctx.currency;
    active_pool = get_active_pool s ctx.currency;
    active_anomaly = ctx.active_anomaly;
    active_ray = ctx.active_ray;
    candidates = ctx.candidates;
    yield_accrued = ctx.yield_accrued;
    has_pending_exit = has_pending_exit s ctx.currency;
    threshold_pct = ctx.threshold_pct;
    now_ms = ctx.clock;
    last_rebalance_at_ms = get_last_rebalance_at s ctx.currency;
    min_dwell_ms = dwell_window ctx;
    position_value_usd = ctx.position_value_usd;
    switch_cost_usd = ctx.switch_cost_usd;
    dwell_horizon_days =
        some (get_or ctx.dwell_horizon_days (d.decimal default_dwell_horizon_days 0));
  }

-- The calls so far, and whether all of them resolved.
pub record Progress : Type 0 where
  pub calls : List EffectCall
  pub resolved : Bool

abbrev pub untouched : Progress
untouched = record { calls = []; resolved = true }

abbrev pub perform : AllocatorEffects → EffectCall → List EffectCall → Progress
perform effects call calls = record { calls = calls ++ (call ∷ []); resolved = effects calls call }

-- A preference that cannot be read counts as off.
abbrev pub reads_on : (Address → Option Bool) → Address → Bool
reads_on enabled depositor = get_or (enabled depositor) false

-- The loop over the depositors, from what the rounds before made. A rejection ends it.
unfoldable pub compound_each :
    AllocatorEffects
    → (Address → Option Bool)
    → Currency
    → PoolId
    → List Address
    → Progress
    → Progress
compound_each effects enabled c pool [] p = p
compound_each effects enabled c pool (a ∷ rest) p =
    let next =
      if reads_on enabled a then perform effects (compound_call c pool (some a)) p.calls else p in
    let all = compound_each effects enabled c pool rest next in if next.resolved then all else next

module _ (d : Doubles) where
  unfoldable pub gate_compound : TickContext d → Currency → PoolId → Progress
  gate_compound ctx c pool = elim ctx.depositors [
    | none ↦ perform ctx.effects (compound_call c pool none) []
    | some depositors ↦ elim ctx.auto_compound_enabled [
      | none ↦ perform ctx.effects (compound_call c pool none) []
      | some enabled ↦ compound_each ctx.effects enabled c pool depositors untouched
    ]
  ]

  -- The effect that a decision drives.
  unfoldable pub drive : TickContext d → Decision → Progress
  drive ctx (compound c pool) = gate_compound ctx c pool
  drive ctx (rebalance c from to) = perform ctx.effects (rebalance_call c from to) []
  drive ctx (freeze_exit c pool to) = perform ctx.effects (freeze_exit_call c pool to) []
  drive ctx (noop c reason) = untouched

  abbrev pub start_dwell : Option ℤ → Currency → BucketStore → BucketStore
  start_dwell none c s = s
  start_dwell (some now) c s = set_last_rebalance_at c now s

  -- What the tick stores once the effect has resolved.
  unfoldable pub settle : TickContext d → Decision → BucketStore → BucketStore
  settle ctx (compound c pool) s = s
  settle ctx (rebalance c from to) s = start_dwell ctx.clock c (set_active_pool c to s)
  settle ctx (freeze_exit c pool to) s = set_pending_exit c true s
  settle ctx (noop c reason) s = s

  -- `decision` is `none` where the tick rejects.
  pub record TickRun : Type 0 where
    pub calls : List EffectCall
    pub store : BucketStore
    pub decision : Option Decision

  abbrev pub finish : TickContext d → Decision → Progress → BucketStore → TickRun
  finish ctx decision p s =
      if p.resolved
      then record { calls = p.calls; store = settle ctx decision s; decision = some decision }
      else record { calls = p.calls; store = s; decision = none }

  unfoldable pub run_allocator_tick : TickContext d → BucketStore → TickRun
  run_allocator_tick ctx s =
      let decision = classify_bucket d (input_of d ctx s) in
      finish ctx decision (drive ctx decision) s
