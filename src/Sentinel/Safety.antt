-- ===== src/Sentinel/Safety.antt =====
-- What backend/src/sentinel/score.ts lets into the Safe set.
use sorosense.Base.{
  String, ◌⊎◌, true, false, some, ◌≡◌, ◌↔◌, refl, ◌&&◌, ◌||◌, arith, Option-cases, inl, inr,
  Bool-cases, [], ◌≢◌,
}
use sorosense.Double.{Doubles}
use sorosense.Sentinel.{
  PoolSignalInput, SignalThresholds, Signal, liquidity_signal, oracle_deviation_signal, deviation,
  measured, composite, safe_score_ceiling, assess, score_pool,
}

module _ (d : Doubles) where
  -- All three reads of a pool succeeded, with usable numbers.
  pub record Reads (input : PoolSignalInput d) : Type 0 where
    pub liquidity : d.Number
    pub twap : d.Number
    pub spot : d.Number
    pub liquidity_read : input.liquidity_usd ≡ some liquidity
    pub twap_read : input.oracle_twap ≡ some twap
    pub spot_read : input.oracle_spot ≡ some spot
    pub liquidity_usable : (d.is_nan liquidity || d.le liquidity (d.decimal 0 0)) ≡ false
    pub oracle_usable : (d.is_nan twap || d.is_nan spot || d.le twap (d.decimal 0 0)) ≡ false

  -- How `<` and `<=` of doubles compare: of two numbers one is below the other or they are in the
  -- converse order, and NaN is in no order with another number.
  pub record IsComparison : Type 0 where
    pub total :
        (x y : d.Number)
        → d.is_nan x ≡ false
        → d.is_nan y ≡ false
        → d.le y x ≡ false
        → d.lt x y ≡ true
    pub exclusive : (x y : d.Number) → d.lt x y ≡ true → d.le y x ≡ false
    pub unordered : (x y : d.Number) → d.is_nan y ≡ true → d.le x y ≡ false
    pub ceiling_is_number : d.is_nan (safe_score_ceiling d) ≡ false

  -- Below the ceiling of the Safe set, or NaN.
  abbrev pub IsLow : d.Number → Type 0
  IsLow score = (d.is_nan score ≡ true) ⊎ (d.lt score (safe_score_ceiling d) ≡ true)

  abbrev pub liquidity_of :
      (input : PoolSignalInput d) → Reads input → SignalThresholds d → Signal d
  liquidity_of input r t = measured d (d.over input.position_usd r.liquidity) t.thin_liquidity_ratio

  abbrev pub oracle_of : (input : PoolSignalInput d) → Reads input → SignalThresholds d → Signal d
  oracle_of input r t = measured d (deviation d r.twap r.spot) t.oracle_deviation_pct

module _ {d : Doubles} where
  read_signals :
      (input : PoolSignalInput d) (t : SignalThresholds d) (r : Reads d input)
      → (liquidity_signal d input t ≡ liquidity_of d input r t)
        × (oracle_deviation_signal d input t ≡ oracle_of d input r t)
  unfolding liquidity_signal oracle_deviation_signal
  read_signals input t r = (
    rw (r.liquidity_read, r.liquidity_usable) refl,
    rw (r.twap_read, r.spot_read, r.oracle_usable) refl,
  )

  liquidity_present :
      (input : PoolSignalInput d) (t : SignalThresholds d)
      → (liquidity_signal d input t).missing ≡ false
      → (l : d.Number) × (input.liquidity_usd ≡ some l)
        × ((d.is_nan l || d.le l (d.decimal 0 0)) ≡ false)
  unfolding liquidity_signal
  liquidity_present input t h = elim (Option-cases input.liquidity_usd) [
    | inl absent ↦ absurd (ground (arith, h, absent))
    | inr (l, read) ↦ (l, read, ground (arith, h, read))
  ]

  oracle_present :
      (input : PoolSignalInput d) (t : SignalThresholds d)
      → (oracle_deviation_signal d input t).missing ≡ false
      → (twap spot : d.Number) × (input.oracle_twap ≡ some twap)
        × (input.oracle_spot ≡ some spot)
        × ((d.is_nan twap || d.is_nan spot || d.le twap (d.decimal 0 0)) ≡ false)
  unfolding oracle_deviation_signal
  oracle_present input t h = elim (Option-cases input.oracle_twap) [
    | inl absent ↦ absurd (ground (arith, h, absent))
    | inr (twap, twap_read) ↦ elim (Option-cases input.oracle_spot) [
      | inl absent ↦ absurd (ground (arith, h, twap_read, absent))
      | inr (spot, spot_read) ↦
          (twap, spot, twap_read, spot_read, ground (arith, h, twap_read, spot_read))
    ]
  ]

  all-Reads :
      (input : PoolSignalInput d) (t : SignalThresholds d)
      → (liquidity_signal d input t).missing ≡ false
      → (oracle_deviation_signal d input t).missing ≡ false
      → Reads d input
  all-Reads input t liq orc =
      let (l, l_read, l_usable) = liquidity_present input t liq in
      let (twap, spot, twap_read, spot_read, usable) = oracle_present input t orc in
      record {
        liquidity = l;
        twap = twap;
        spot = spot;
        liquidity_read = l_read;
        twap_read = twap_read;
        spot_read = spot_read;
        liquidity_usable = l_usable;
        oracle_usable = usable;
      }

  safe_signals :
      (pool : String) (liq orc : Signal d)
      → (assess d pool liq orc).safe ≡ true
      → (liq.missing ≡ false)
        × (orc.missing ≡ false)
        × ((liq.tripped && orc.tripped) ≡ false)
        × ((assess d pool liq orc).score ≡ composite d liq orc)
        × (d.le (safe_score_ceiling d) (assess d pool liq orc).score ≡ false)
  safe_signals pool liq orc h = ground (arith, h)

  signals_safe :
      (pool : String) (liq orc : Signal d)
      → liq.missing ≡ false
      → orc.missing ≡ false
      → (liq.tripped && orc.tripped) ≡ false
      → d.le (safe_score_ceiling d) (assess d pool liq orc).score ≡ false
      → (assess d pool liq orc).safe ≡ true
  signals_safe pool liq orc l o calm low = ground (arith, l, o, calm, low)

  closed :
      (pool : String) (liq orc : Signal d)
      → (liq.missing || orc.missing) ≡ true
      → let a = assess d pool liq orc in
        (a.safe ≡ false) × (a.anomaly ≡ true) × (a.score ≡ d.decimal 100 0) × (a.reasons ≢ [])
  closed pool liq orc h = elim (Bool-cases liq.missing) [
    | inl absent ↦ (ground arith, ground arith, ground arith, λ e. ground (arith, e, absent))
    | inr present ↦ (ground arith, ground arith, ground arith, λ e. ground (arith, e, present, h))
  ]

  below-IsLow :
      IsComparison d
      → (score : d.Number) → (d.le (safe_score_ceiling d) score ≡ false) ↔ IsLow d score
  below-IsLow comparison score =
      let ceiling = safe_score_ceiling d in
      (
        λ h. elim (Bool-cases (d.is_nan score)) [
          | inl nan ↦ inl nan
          | inr number ↦ inr (comparison.total score ceiling number comparison.ceiling_is_number h)
        ],
        λ low. elim low [
          | inl nan ↦ comparison.unordered ceiling score nan
          | inr less ↦ comparison.exclusive score ceiling less
        ],
      )

  -- Whatever the thresholds, a pool is in the Safe set only if all of its reads succeeded with
  -- usable numbers, not both signals are tripped, and the score that it gets is below the ceiling or is
  -- not a number at all; and such a pool is in the Safe set. The score is then the weighted composite of
  -- both signals.
  pub score_pool_safe :
      IsComparison d
      → (input : PoolSignalInput d) (t : SignalThresholds d)
      → let a = score_pool d input t in
        (a.safe ≡ true) ↔ (
          (r : Reads d input) × (((liquidity_of d input r t).tripped
              && (oracle_of d input r t).tripped)
            ≡ false)
          × (a.score ≡ composite d (liquidity_of d input r t) (oracle_of d input r t))
          × IsLow d a.score)
  unfolding score_pool
  score_pool_safe comparison input t =
      let l = liquidity_signal d input t in
      let o = oracle_deviation_signal d input t in
      (
        λ safe.
            let (liq, orc, calm, score, low) = safe_signals input.pool_id l o safe in
            let r = all-Reads input t liq orc in
            let (e_liq, e_orc) = read_signals input t r in
            (
              r,
              rw (e_liq, e_orc) at calm,
              rw (← e_liq, ← e_orc) score,
              (below-IsLow comparison _).0 low,
            ),
        λ (r, calm, score, low).
            let (e_liq, e_orc) = read_signals input t r in
            let not_over = (below-IsLow comparison _).1 low in
            signals_safe input.pool_id l o (rw e_liq refl) (rw e_orc refl) (rw (e_liq, e_orc) calm)
              not_over,
      )

  -- If any read of a pool is missing or unusable, the assessment is an anomaly with the maximal
  -- score and with a reason, whatever the thresholds and the other reads.
  pub score_pool_fails_closed :
      (input : PoolSignalInput d) (t : SignalThresholds d)
      → ¬ Reads d input
      → let a = score_pool d input t in
        (a.safe ≡ false) × (a.anomaly ≡ true) × (a.score ≡ d.decimal 100 0) × (a.reasons ≢ [])
  unfolding score_pool
  score_pool_fails_closed input t unread =
      let liq = liquidity_signal d input t in
      let orc = oracle_deviation_signal d input t in
      closed input.pool_id liq orc (elim (Bool-cases (liq.missing || orc.missing)) [
        | inl absent ↦ absent
        | inr present ↦
            absurd (unread (all-Reads input t (ground (arith, present)) (ground (arith, present))))
      ])
