-- ===== src/Sentinel.antt =====
-- backend/src/sentinel/signals.ts and backend/src/sentinel/score.ts: the two risk signals of a pool
-- and the assessment that they make up.
pub mod Safety
pub mod Freeze
mod Tests
use sorosense.Base.{
  String, Bool, true, false, Option, none, some, List, [], ◌∷◌, ◌++◌, ◌&&◌, ◌||◌, not,
  if◌then◌else◌,
}
use sorosense.Double.{Doubles}

-- A text that Sentinel gives for its verdict.
pub data Reason : Type 0 where
  liquidity_missing thin_liquidity oracle_missing oracle_deviates yieldblox_shape : Reason

module _ (d : Doubles) where
  -- A read that failed is `none`.
  pub record PoolSignalInput : Type 0 where
    pub pool_id : String
    pub liquidity_usd : Option d.Number
    pub position_usd : d.Number
    pub oracle_twap : Option d.Number
    pub oracle_spot : Option d.Number

  pub record SignalThresholds : Type 0 where
    pub thin_liquidity_ratio : d.Number
    pub oracle_deviation_pct : d.Number

  abbrev pub default_thresholds : SignalThresholds
  default_thresholds = record {
    thin_liquidity_ratio = d.decimal 5 2;
    oracle_deviation_pct = d.decimal 1 2;
  }

  pub record Signal : Type 0 where
    pub value : d.Number
    pub tripped : Bool
    pub missing : Bool

  -- The verdict on a failed read: maximal risk.
  abbrev pub failed_read : Signal
  failed_read = record { value = d.decimal 1 0; tripped = true; missing = true }

  -- A ratio against its threshold; the value saturates at four times the threshold.
  abbrev pub measured : d.Number → d.Number → Signal
  measured ratio threshold = record {
    value = d.min (d.decimal 1 0) (d.over ratio (d.times threshold (d.decimal 4 0)));
    tripped = d.le threshold ratio;
    missing = false;
  }

  unfoldable pub liquidity_signal : PoolSignalInput → SignalThresholds → Signal
  liquidity_signal input t = elim input.liquidity_usd [
    | none ↦ failed_read
    | some liquidity ↦
        if d.is_nan liquidity || d.le liquidity (d.decimal 0 0)
        then failed_read
        else measured (d.over input.position_usd liquidity) t.thin_liquidity_ratio
  ]

  abbrev pub deviation : d.Number → d.Number → d.Number
  deviation twap spot = d.over (d.abs (d.minus spot twap)) twap

  unfoldable pub oracle_deviation_signal : PoolSignalInput → SignalThresholds → Signal
  oracle_deviation_signal input t = elim input.oracle_twap [
    | none ↦ failed_read
    | some twap ↦ elim input.oracle_spot [
      | none ↦ failed_read
      | some spot ↦
          if d.is_nan twap || d.is_nan spot || d.le twap (d.decimal 0 0)
          then failed_read
          else measured (deviation twap spot) t.oracle_deviation_pct
    ]
  ]

  pub record RiskAssessment : Type 0 where
    pub pool_id : String
    pub score : d.Number
    pub anomaly : Bool
    pub safe : Bool
    pub reasons : List Reason

  abbrev pub safe_score_ceiling : d.Number
  safe_score_ceiling = d.decimal 50 0

  -- The reason that one signal adds.
  abbrev pub reason_of : Signal → Reason → Reason → List Reason
  reason_of s absent over = if s.missing then absent ∷ [] else (if s.tripped then over ∷ [] else [])

  unfoldable pub composite : Signal → Signal → d.Number
  composite liq orc = d.round (
      d.times (d.plus (d.times liq.value (d.decimal 5 1)) (d.times orc.value (d.decimal 5 1)))
        (d.decimal 100 0))

  -- The body of `scorePool` on the two signals.
  abbrev pub assess : String → Signal → Signal → RiskAssessment
  assess pool liq orc =
      let score = composite liq orc in
      let fail_closed = liq.missing || orc.missing in
      let shape = liq.tripped && orc.tripped in
      let anomaly = fail_closed || shape || d.le safe_score_ceiling score in
      record {
        pool_id = pool;
        score = if fail_closed then d.decimal 100 0 else score;
        anomaly = anomaly;
        safe = not anomaly;
        reasons =
            reason_of liq liquidity_missing thin_liquidity
            ++ (reason_of orc oracle_missing oracle_deviates
                ++ (if shape then yieldblox_shape ∷ [] else []));
      }

  unfoldable pub score_pool : PoolSignalInput → SignalThresholds → RiskAssessment
  score_pool input t =
      assess input.pool_id (liquidity_signal input t) (oracle_deviation_signal input t)

  abbrev pub risk_adjusted_yield : d.Number → d.Number → d.Number
  risk_adjusted_yield apy score =
      d.times apy (d.minus (d.decimal 1 0) (d.over score (d.decimal 200 0)))

  abbrev pub exceeds_rebalance_threshold : d.Number → d.Number → d.Number → Bool
  exceeds_rebalance_threshold current candidate threshold =
      d.lt threshold (d.minus candidate current)
