-- ===== src/Oracle/Positive.antt =====
-- What the reader of backend/src/tools/price.ts lets through, and when it rejects.
use sorosense.Base.{
  String, ◌≡◌, refl, true, false, Option, none, some, inl, inr, ◌||◌, not, arith, Option-cases,
  Bool-cases,
}
use sorosense.Double.{Doubles}
use sorosense.Results.{Result, ok, err}
use sorosense.Oracle.{
  Cause, Reply, returned, threw, Decoded, nil, other, number, bigint, fields, Decoding, decoded,
  undecodable, whole, to_number, AssetPrice, decode_fields, decode_native, Network,
  ReflectorOptions, ReaderState, decode_price, scale_of, read_decimals, price_of, pinned_decimals,
  read_from, read_price, oracle_config_from, source_made, misconfigured, Built, OracleConfig,
  stalled, failed,
}

-- A finite number that is not at most zero.
abbrev pub IsPositive : (d : Doubles) → d.Number → Type 0
IsPositive d x = (d.is_finite x ≡ true) × (d.le x (whole d 0) ≡ false)

-- A price that is let through is positive.
abbrev pub Sound : {d : Doubles} → String → Result (AssetPrice d) → Type 0
Sound {d} asset (ok p) = (p.asset ≡ asset) × IsPositive d p.price
Sound {d} asset (err code why) = Unit

module _ {d : Doubles} where
  decode_fields-Sound :
      (text : Decoded d → String) (asset : String) (raw timestamp : Decoded d) (decimals : d.Number)
      → Sound asset (decode_fields d text asset raw timestamp decimals)
  unfolding decode_fields
  decode_fields-Sound text asset raw timestamp decimals = elim (Option-cases (to_number d raw)) [
    | inl e ↦ rw (decode_fields, e) tt
    | inr (x, e) ↦
        let price = d.over x (d.power (whole d 10) decimals) in
        elim (Bool-cases (not (d.is_finite price) || d.le price (whole d 0))) [
          | inl bad ↦ rw (decode_fields, e, bad) tt
          | inr good ↦
              rw (decode_fields, e, good) (refl, (ground (arith, good), ground (arith, good)))
        ]
  ]

  decode_native-Sound :
      (text : Decoded d → String) (asset : String) (native : Decoded d) (decimals : d.Number)
      → Sound asset (decode_native d text asset native decimals)
  decode_native-Sound text asset nil decimals = tt
  decode_native-Sound text asset (fields raw timestamp) decimals =
      decode_fields-Sound text asset raw timestamp decimals
  decode_native-Sound text asset (number x) decimals = tt
  decode_native-Sound text asset (bigint n) decimals = tt
  decode_native-Sound text asset other decimals = tt

  module _ {W S V : Type 0} (net : Network d W S V) where
    decode_price-Sound :
        (asset : String) (retval : Option V) (decimals : d.Number)
        → Sound asset (decode_price d net asset retval decimals)
    unfolding decode_price
    decode_price-Sound asset none decimals = tt
    decode_price-Sound asset (some v) decimals = by_decoding (net.to_native v) refl
      where
        by_decoding :
            (native : Decoding d)
            → net.to_native v ≡ native
            → Sound asset (decode_price d net asset (some v) decimals)
        by_decoding (undecodable why) e = rw (decode_price, e) tt
        by_decoding (decoded native) e =
            rw (decode_price, e) (decode_native-Sound net.text asset native decimals)

    price_of-Sound :
        (asset : String) (decimals : d.Number) (reply : Reply V)
        → Sound asset (price_of d net asset decimals reply)
    price_of-Sound asset decimals (threw stalled) = tt
    price_of-Sound asset decimals (threw (failed why)) = tt
    price_of-Sound asset decimals (returned retval) = decode_price-Sound asset retval decimals

    -- A value that the decoder throws on.
    abbrev pub Throws : Type 0
    Throws = (v : V) × ((why : Cause) × (net.to_native v ≡ undecodable why))

    -- A settled call is sound, and a rejected one threw in the decoding of a scale that is neither pinned
    -- nor known.
    abbrev pub Settled :
        ReflectorOptions d S → String → Option d.Number → Option (Result (AssetPrice d)) → Type 0
    Settled options asset known (some result) = Sound asset result
    Settled options asset known none =
        Throws × (pinned_decimals d net options ≡ none) × (known ≡ none)

    scale_of-none : (reply : Reply V) → scale_of d net reply ≡ none → Throws
    scale_of-none (threw cause) e = cc
    scale_of-none (returned none) e = cc
    scale_of-none (returned (some v)) e = by_decoding (net.to_native v) refl
      where
        by_decoding : (native : Decoding d) → net.to_native v ≡ native → Throws
        by_decoding (undecodable why) f = (v, (why, f))
        by_decoding (decoded native) f = absurd (ground (arith, e, f))

    read_decimals-none :
        (source : S) (pinned : Option d.Number) (w : W)
        → (read_decimals d net source pinned w).0 ≡ none
        → Throws × (pinned ≡ none)
    unfolding read_decimals
    read_decimals-none source (some n) w e = cc
    read_decimals-none source none w e = (scale_of-none _ e, refl)

    read_from-Settled :
        (options : ReflectorOptions d S) (asset : String) (source : S) (known : Option d.Number)
        (w : W)
        → Settled options asset known (read_from d net options asset source known w).result
    unfolding read_from
    read_from-Settled options asset source (some decimals) w = price_of-Sound asset decimals _
    read_from-Settled options asset source none w =
        by_scale (read_decimals d net source (pinned_decimals d net options) w).0 refl
      where
        by_scale :
            (scale : Option (Result d.Number))
            → (read_decimals d net source (pinned_decimals d net options) w).0 ≡ scale
            → Settled options asset none (read_from d net options asset source none w).result
        by_scale none e =
            let (throws, unpinned) =
              read_decimals-none source (pinned_decimals d net options) w e in
            rw (read_from, e) (throws, unpinned, refl)
        by_scale (some (err code why)) e = rw (read_from, e) tt
        by_scale (some (ok decimals)) e = rw (read_from, e) (price_of-Sound asset decimals _)

    -- Whatever the feed, the network and the environment do, a call of the reader settles with a price of
    -- the asset asked for that is finite and not at most zero, or with a typed error. It rejects only
    -- where no scale is known or pinned and the decoding of the feed's own scale throws.
    pub read_price-Settled :
        (options : ReflectorOptions d S) (asset : String) (st : ReaderState d S) (w : W)
        → Settled options asset st.decimals (read_price d net options asset st w).result
    unfolding read_price
    read_price-Settled options asset st w = elim (Option-cases st.source) [
      | inr (source, e) ↦ rw (read_price, e) (read_from-Settled options asset source st.decimals w)
      | inl e ↦ elim (Option-cases (oracle_config_from options.env options.timeout_ms)) [
        | inl f ↦ rw (read_price, e, f) tt
        | inr (config, f) ↦ by_build e config f (net.build config) refl
      ]
    ]
      where
        by_build :
            st.source ≡ none
            → (config : OracleConfig)
            → oracle_config_from options.env options.timeout_ms ≡ some config
            → (b : Built S) → net.build config ≡ b
            → Settled options asset st.decimals (read_price d net options asset st w).result
        by_build e config f (misconfigured cause) g = rw (read_price, e, f, g) tt
        by_build e config f (source_made source) g =
            rw (read_price, e, f, g) (read_from-Settled options asset source st.decimals w)
