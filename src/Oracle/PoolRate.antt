-- ===== src/Oracle/PoolRate.antt =====
-- backend/src/tools/pool-rate.ts: the reader of a yield pool's rate.
use sorosense.Base.{
  ℕ, String, ◌≡◌, refl, true, false, Option, none, some, ◌||◌, not, if◌then◌else◌, Bool-cases,
  Option-cases, inl, inr, arith,
}
use sorosense.Double.{Doubles}
use sorosense.Results.{Result, ok, err, parse, unavailable}
use sorosense.Real.{truthy}
use sorosense.Oracle.{
  stalled, failed, describe, Reply, returned, threw, Built, source_made, misconfigured, Decoded,
  Decoding, decoded, undecodable, to_number, whole, failure,
}
use Prim.Native.String.{◌++◌}

pub record PoolSourceConfig : Type 0 where
  pub rpc_url : String
  pub network_passphrase : String
  pub pool_id : String
  pub timeout_ms : Option ℕ

pub record PoolRateEnv : Type 0 where
  pub stellar_rpc_url : Option String
  pub stellar_network_passphrase : Option String

unfoldable pub pool_source_config_from : String → PoolRateEnv → Option ℕ → Option PoolSourceConfig
pool_source_config_from pool env timeout_ms = elim (truthy env.stellar_rpc_url) [
  | none ↦ none
  | some url ↦ elim (truthy env.stellar_network_passphrase) [
    | none ↦ none
    | some passphrase ↦ elim (truthy (some pool)) [
      | none ↦ none
      | some id ↦ some (record {
        rpc_url = url;
        network_passphrase = passphrase;
        pool_id = id;
        timeout_ms = timeout_ms;
      })
    ]
  ]
]

module _ (d : Doubles) where
  -- The SDK and the network: a source simulates `rate_bps` over a world.
  pub record PoolNetwork (W S V : Type 0) : Type 0 where
    pub simulate : S → W → Reply V × W
    pub build : PoolSourceConfig → Built S
    pub to_native : V → Decoding d
    pub text : Decoded d → String

  pub record PoolRateOptions (S : Type 0) : Type 0 where
    pub source : Option S
    pub timeout_ms : Option ℕ
    pub env : PoolRateEnv

  -- `native` by `text`; what is no number is NaN, which is not finite.
  unfoldable pub checked_rate : (Decoded d → String) → String → Decoded d → Result d.Number
  checked_rate text pool native =
      let refused : Result d.Number = err parse (
        "yield pool rate for "
        ++ (pool ++ (" is not a positive bps u32 (" ++ (text native ++ ")")))) in
      elim (to_number d native) [
        | none ↦ refused
        | some bps ↦
            if not (d.is_finite bps) || (not (d.is_integer bps) || d.le bps (whole d 0))
            then refused
            else ok (d.over bps (whole d 100))
      ]

  module _ {W S V : Type 0} (net : PoolNetwork W S V) where
    unfoldable pub decode_rate : String → Option V → Result d.Number
    decode_rate pool none = err unavailable ("yield pool returned nothing for " ++ pool)
    decode_rate pool (some v) = elim (net.to_native v) [
      | undecodable why ↦
          err parse ("yield pool rate for " ++ (pool ++ (" is not decodable: " ++ describe why)))
      | decoded native ↦ checked_rate net.text pool native
    ]

    abbrev pub rate_in : String → Reply V → Result d.Number
    rate_in pool (threw cause) = failure ("yield pool rate_bps(" ++ (pool ++ ")")) cause
    rate_in pool (returned retval) = decode_rate pool retval

    -- The result, the source that the closure keeps, and the world.
    pub record PoolRead : Type 0 where
      pub result : Result d.Number
      pub source : Option S
      pub world : W

    abbrev pub read_rate_from : String → S → W → PoolRead
    read_rate_from pool source w =
        let (reply, w') = net.simulate source w in
        record { result = rate_in pool reply; source = some source; world = w' }

    -- One call of the reader that `makePoolRateReader` gives, whose source may be known.
    unfoldable pub read_pool_rate : PoolRateOptions S → String → Option S → W → PoolRead
    read_pool_rate options pool (some source) w = read_rate_from pool source w
    read_pool_rate options pool none w =
        elim (pool_source_config_from pool options.env options.timeout_ms) [
          | none ↦ record {
            result =
                err unavailable
                  "yield pool not configured (STELLAR_RPC_URL / _PASSPHRASE / pool id)";
            source = none;
            world = w;
          }
          | some config ↦ elim (net.build config) [
            | misconfigured cause ↦ record {
              result = err unavailable ("yield pool is misconfigured: " ++ describe cause);
              source = none;
              world = w;
            }
            | source_made source ↦ read_rate_from pool source w
          ]
        ]

  -- A rate that is let through is a hundredth of a finite whole number of basis points above zero.
  abbrev pub IsRate : Result d.Number → Type 0
  IsRate (err code why) = Unit
  IsRate (ok apy) =
      (bps : d.Number) × ((apy ≡ d.over bps (whole d 100))
        × ((d.is_finite bps ≡ true) × ((d.is_integer bps ≡ true) × (d.le bps (whole d 0) ≡ false))))

  checked_rate-IsRate :
      (text : Decoded d → String) (pool : String) (native : Decoded d)
      → IsRate (checked_rate text pool native)
  unfolding checked_rate
  checked_rate-IsRate text pool native = elim (Option-cases (to_number d native)) [
    | inl e ↦ rw (checked_rate, e) tt
    | inr (bps, e) ↦
        elim (Bool-cases
          (not (d.is_finite bps) || (not (d.is_integer bps) || d.le bps (whole d 0)))) [
            | inl bad ↦ rw (checked_rate, e, bad) tt
            | inr good ↦
                rw (checked_rate, e, good)
                  (
                    bps,
                    (refl, (ground (arith, good), (ground (arith, good), ground (arith, good)))),
                  )
          ]
  ]

  module _ {W S V : Type 0} (net : PoolNetwork W S V) where
    decode_rate-IsRate : (pool : String) (retval : Option V) → IsRate (decode_rate net pool retval)
    unfolding decode_rate
    decode_rate-IsRate pool none = tt
    decode_rate-IsRate pool (some v) = by_decoding (net.to_native v) refl
      where
        by_decoding :
            (native : Decoding d)
            → net.to_native v ≡ native
            → IsRate (decode_rate net pool (some v))
        by_decoding (undecodable why) e = rw (decode_rate, e) tt
        by_decoding (decoded native) e =
            rw (decode_rate, e) (checked_rate-IsRate net.text pool native)

    rate_in-IsRate : (pool : String) (reply : Reply V) → IsRate (rate_in net pool reply)
    rate_in-IsRate pool (threw stalled) = tt
    rate_in-IsRate pool (threw (failed why)) = tt
    rate_in-IsRate pool (returned retval) = decode_rate-IsRate pool retval

    -- Whatever the pool, the network and the environment answer, a call of the reader ends with a typed
    -- error or with a hundredth of a finite whole number of basis points that is not at most zero.
    pub read_pool_rate-IsRate :
        (options : PoolRateOptions S) (pool : String) (source : Option S) (w : W)
        → IsRate (read_pool_rate net options pool source w).result
    unfolding read_pool_rate
    read_pool_rate-IsRate options pool (some source) w = rate_in-IsRate pool _
    read_pool_rate-IsRate options pool none w =
        elim (Option-cases (pool_source_config_from pool options.env options.timeout_ms)) [
          | inl e ↦ rw (read_pool_rate, e) tt
          | inr (config, e) ↦ by_build config e (net.build config) refl
        ]
      where
        by_build :
            (config : PoolSourceConfig)
            → pool_source_config_from pool options.env options.timeout_ms ≡ some config
            → (b : Built S) → net.build config ≡ b
            → IsRate (read_pool_rate net options pool none w).result
        by_build config e (misconfigured cause) f = rw (read_pool_rate, e, f) tt
        by_build config e (source_made source) f = rw (read_pool_rate, e, f) (rate_in-IsRate pool _)
