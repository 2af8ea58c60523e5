-- ===== src/Allocator.antt =====
-- backend/src/mastra/allocator.ts, the decision: what a tick of the allocator does with one currency
-- bucket. Allocator/Tick runs it.
pub mod Tick
pub mod Best
pub mod Anomaly
pub mod Dwell
pub mod Gate
mod Tests
use sorosense.Base.{
  String, Bool, true, false, Option, none, some, List, [], ◌∷◌, ◌==◌, not, ◌&&◌, if◌then◌else◌,
  keep, string_key,
}
use sorosense.Int.{ℤ, pos, ◌-ℤ◌, ltb_ℤ}
use sorosense.Double.{Doubles}
use sorosense.Seam.{Currency, PoolId}
use sorosense.Sentinel.{exceeds_rebalance_threshold}
use mathlib.Core.Option

pub data NoopReason : Type 0 where
  awaiting_exit_approval nothing_to_do : NoopReason

pub data Decision : Type 0 where
  compound : Currency → PoolId → Decision
  rebalance : Currency → PoolId → PoolId → Decision
  freeze_exit : Currency → PoolId → Option PoolId → Decision
  noop : Currency → NoopReason → Decision

-- A pool that a text names: JavaScript takes the empty text for none.
abbrev pub named : Option PoolId → Option PoolId
named none = none
named (some p) = if p == "" then none else some p

-- `pool !== other`, where `other` may be null or undefined
abbrev pub differs : PoolId → Option PoolId → Bool
differs p none = true
differs p (some q) = not (p == q)

-- The second bar of `shouldRebalance`: the minimum holding period has not elapsed.
unfoldable pub dwelling : Option ℤ → Option ℤ → Option ℤ → Bool
dwelling (some min_dwell) (some now) (some last) =
    ltb_ℤ (pos 0) min_dwell && ltb_ℤ (now -ℤ last) min_dwell
dwelling _ _ _ = false

-- `activePool ?? best.poolId`
abbrev pub source_pool : Option PoolId → PoolId → PoolId
source_pool none best = best
source_pool (some held) best = held

-- The last two branches of `classifyBucket`.
abbrev pub stay : Currency → Option PoolId → Bool → Decision
stay c none accrued = noop c nothing_to_do
stay c (some held) accrued = if accrued then compound c held else noop c nothing_to_do

abbrev pub anomalous : Option PoolId → Bool → Option PoolId
anomalous held flagged = if flagged then named held else none

module _ (d : Doubles) where
  pub record Candidate : Type 0 where
    pub pool_id : PoolId
    pub ray : d.Number

  -- Times are integers, in milliseconds.
  pub record ClassifyInput : Type 0 where
    pub currency : Currency
    pub active_pool : Option PoolId
    pub active_anomaly : Bool
    pub active_ray : Option d.Number
    pub candidates : List Candidate
    pub yield_accrued : Bool
    pub has_pending_exit : Bool
    pub threshold_pct : d.Number
    pub now_ms : Option ℤ
    pub last_rebalance_at_ms : Option ℤ
    pub min_dwell_ms : Option ℤ
    pub position_value_usd : Option d.Number
    pub switch_cost_usd : Option d.Number
    pub dwell_horizon_days : Option d.Number

  -- The reducer of `bestOf`: the first of those with the greatest yield stays.
  abbrev pub better : Option Candidate → Candidate → Candidate
  better none c = c
  better (some best) c = if d.lt best.ray c.ray then c else best

  unfoldable pub best_from : Option Candidate → List Candidate → Option Candidate
  best_from best [] = best
  best_from best (c ∷ cs) = best_from (some (better best c)) cs

  unfoldable pub best_of : List Candidate → Option PoolId → Option Candidate
  best_of candidates exclude = best_from none (keep (λ c. differs c.pool_id exclude) candidates)

  abbrev pub expected_gain : d.Number → d.Number → d.Number → d.Number → d.Number
  expected_gain current candidate value horizon =
      d.times (d.times (d.over (d.minus candidate current) (d.decimal 100 0)) value)
        (d.over horizon (d.decimal 365 0))

  -- The extra yield over the horizon does not pay for the switch.
  unfoldable pub too_costly :
      d.Number → d.Number → Option d.Number → Option d.Number → Option d.Number → Bool
  too_costly current candidate (some value) (some cost) (some horizon) =
      d.le (expected_gain current candidate value horizon) cost
  too_costly current candidate _ _ _ = false

  -- `shouldRebalance` of a held pool with a known yield
  abbrev pub clears_gate : ClassifyInput → d.Number → Candidate → Bool
  clears_gate input current best =
      if not (exceeds_rebalance_threshold d current best.ray input.threshold_pct)
      then false
      else (if dwelling input.min_dwell_ms input.now_ms input.last_rebalance_at_ms
          then false
          else not (
              too_costly current best.ray input.position_value_usd input.switch_cost_usd
                input.dwell_horizon_days))

  unfoldable pub should_rebalance : ClassifyInput → Candidate → Bool
  should_rebalance input best = elim input.active_pool [
    | none ↦ true
    | some held ↦ elim input.active_ray [
      | none ↦ true
      | some current ↦ clears_gate input current best
    ]
  ]

  -- The branches from the third on.
  abbrev pub move_or_stay : ClassifyInput → Option Candidate → Decision
  move_or_stay input none = stay input.currency (named input.active_pool) input.yield_accrued
  move_or_stay input (some best) =
      if differs best.pool_id input.active_pool && should_rebalance input best
      then rebalance input.currency (source_pool input.active_pool best.pool_id) best.pool_id
      else stay input.currency (named input.active_pool) input.yield_accrued

  unfoldable pub classify_bucket : ClassifyInput → Decision
  classify_bucket input =
      if input.has_pending_exit
      then noop input.currency awaiting_exit_approval
      else elim (anomalous input.active_pool input.active_anomaly) [
        | some held ↦
            freeze_exit input.currency held
              (Option.map (λ c. c.pool_id) (best_of input.candidates (some held)))
        | none ↦ move_or_stay input (best_of input.candidates none)
      ]
