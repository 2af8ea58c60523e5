-- ===== src/Oracle.antt =====
-- backend/src/tools/price.ts: the reader of the Reflector price feed. The SDK's transport and its
-- decoding of contract values are parameters.
pub mod Positive
pub mod Fx
pub mod PoolRate
mod Tests
use sorosense.Base.{
  ℕ, String, Bool, true, false, Option, none, some, List, [], ◌∷◌, ◌==◌, ◌||◌, ◌&&◌, not, get_or,
  string_key, if◌then◌else◌, leb,
}
use mathlib.Core.Option
use sorosense.Int.{ℤ, pos, negsuc}
use sorosense.Double.{Doubles}
use sorosense.Results.{Result, ok, err, ErrorCode, timeout, parse, unavailable, not_found}
use sorosense.Real.{truthy}
use sorosense.Text.{parse_int}
use Prim.Native.String.{◌++◌}

-- What a call throws: a stall, or anything else with its description.
pub data Cause : Type 0 where
  stalled : Cause
  failed : String → Cause

abbrev pub describe : Cause → String
describe stalled = "timed out"
describe (failed why) = why

abbrev pub failure {ℓ} : {A : Type ℓ} → String → Cause → Result A
failure what stalled = err timeout (what ++ " timed out")
failure what (failed why) = err unavailable (what ++ (" failed: " ++ why))

-- The two calls of the feed.
pub data Call : Type 0 where
  decimals_call : Call
  lastprice_call : String → Call

-- `returned none` is a simulation without a value.
pub data Reply (V : Type 0) : Type 0 where
  returned : Option V → Reply V
  threw : Cause → Reply V

pub record OracleConfig : Type 0 where
  pub rpc_url : String
  pub network_passphrase : String
  pub oracle_id : String
  pub timeout_ms : Option ℕ

pub data Built (S : Type 0) : Type 0 where
  source_made : S → Built S
  misconfigured : Cause → Built S

-- The environment variables that the reader looks at.
pub record OracleEnv : Type 0 where
  pub stellar_rpc_url : Option String
  pub stellar_network_passphrase : Option String
  pub reflector_oracle_id : Option String
  pub reflector_decimals : Option String

abbrev pub default_reflector_oracle_id : String
default_reflector_oracle_id = "CCYOZJCOPG34LLQQ7N24YXBM7LL62R7ONMZ3G6WZAAYPB5OYKOMJRN63"

unfoldable pub oracle_config_from : OracleEnv → Option ℕ → Option OracleConfig
oracle_config_from env timeout_ms = elim (truthy env.stellar_rpc_url) [
  | none ↦ none
  | some url ↦ elim (truthy env.stellar_network_passphrase) [
    | none ↦ none
    | some passphrase ↦ some (record {
      rpc_url = url;
      network_passphrase = passphrase;
      oracle_id = get_or (truthy env.reflector_oracle_id) default_reflector_oracle_id;
      timeout_ms = timeout_ms;
    })
  ]
]

abbrev pub not_negative : Option ℤ → Option ℕ
not_negative (some (pos n)) = some n
not_negative (some (negsuc n)) = none
not_negative none = none

unfoldable pub reflector_decimals : OracleEnv → Option ℕ
reflector_decimals env = elim (truthy env.reflector_decimals) [
  | none ↦ none
  | some raw ↦ not_negative (parse_int raw)
]

module _ (d : Doubles) where
  -- What `scValToNative` yields, as far as the decoders tell values apart: null and undefined, a
  -- number, a bigint, an object that is no array by its fields `price` and `timestamp`, or else.
  pub data Decoded : Type 0 where
    nil other : Decoded
    number : d.Number → Decoded
    bigint : ℤ → Decoded
    fields : Decoded → Decoded → Decoded

  pub data Decoding : Type 0 where
    decoded : Decoded → Decoding
    undecodable : Cause → Decoding

  abbrev pub whole : ℕ → d.Number
  whole n = d.decimal n 0

  abbrev pub to_number : Decoded → Option d.Number
  to_number (number x) = some x
  to_number (bigint n) = some (d.of_int n)
  to_number nil = none
  to_number other = none
  to_number (fields p t) = none

  pub record AssetPrice : Type 0 where
    pub asset : String
    pub price : d.Number
    pub ts : d.Number

  -- The price and the time of a `PriceData`, `raw` by `text`.
  unfoldable pub decode_fields :
      (Decoded → String) → String → Decoded → Decoded → d.Number → Result AssetPrice
  decode_fields text asset raw timestamp decimals = elim (to_number raw) [
    | none ↦ err parse ("reflector price for " ++ (asset ++ " has no numeric price field"))
    | some x ↦
        let price = d.over x (d.power (whole 10) decimals) in
        if not (d.is_finite price) || d.le price (whole 0)
        then err parse (
            "reflector price for "
            ++ (asset ++ (" is not a positive number (" ++ (text raw ++ ")"))))
        else ok
            (record { asset = asset; price = price; ts = get_or (to_number timestamp) (whole 0) })
  ]

  abbrev pub decode_native : (Decoded → String) → String → Decoded → d.Number → Result AssetPrice
  decode_native text asset nil decimals = err not_found ("reflector has no price for " ++ asset)
  decode_native text asset (fields raw timestamp) decimals =
      decode_fields text asset raw timestamp decimals
  decode_native text asset (number x) decimals =
      err parse ("reflector price for " ++ (asset ++ " is not a PriceData struct"))
  decode_native text asset (bigint n) decimals =
      err parse ("reflector price for " ++ (asset ++ " is not a PriceData struct"))
  decode_native text asset other decimals =
      err parse ("reflector price for " ++ (asset ++ " is not a PriceData struct"))

  -- The SDK and the network: `simulate` over a world, the constructors, the decoding and `String(x)`.
  pub record Network (W S V : Type 0) : Type 0 where
    pub simulate : S → Call → W → Reply V × W
    pub build : OracleConfig → Built S
    pub to_native : V → Decoding
    pub text : Decoded → String

  pub record ReflectorOptions (S : Type 0) : Type 0 where
    pub source : Option S
    pub decimals : Option d.Number
    pub timeout_ms : Option ℕ
    pub env : OracleEnv

  -- The variables that the closure of the reader keeps.
  pub record ReaderState (S : Type 0) : Type 0 where
    pub source : Option S
    pub decimals : Option d.Number

  module _ {W S V : Type 0} (net : Network W S V) where
    unfoldable pub decode_price : String → Option V → d.Number → Result AssetPrice
    decode_price asset none decimals = err unavailable ("reflector returned nothing for " ++ asset)
    decode_price asset (some v) decimals = elim (net.to_native v) [
      | undecodable why ↦
          err parse ("reflector price for " ++ (asset ++ (" is not decodable: " ++ describe why)))
      | decoded native ↦ decode_native net.text asset native decimals
    ]

    abbrev pub bad_scale : Decoded → Result d.Number
    bad_scale native = err parse ("reflector decimals() is not a u32 (" ++ (net.text native ++ ")"))

    abbrev pub checked_scale : Decoded → Result d.Number
    checked_scale (number x) =
        if not (d.is_integer x) || d.lt x (whole 0) then bad_scale (number x) else ok x
    checked_scale nil = bad_scale nil
    checked_scale other = bad_scale other
    checked_scale (bigint n) = bad_scale (bigint n)
    checked_scale (fields p t) = bad_scale (fields p t)

    -- The decoding of the scale stands outside the `try`: none is what it throws on.
    abbrev pub scale_of : Reply V → Option (Result d.Number)
    scale_of (threw cause) = some (failure "reflector decimals()" cause)
    scale_of (returned none) = some (checked_scale nil)
    scale_of (returned (some v)) = elim (net.to_native v) [
      | undecodable why ↦ none
      | decoded native ↦ some (checked_scale native)
    ]

    unfoldable pub read_decimals : S → Option d.Number → W → Option (Result d.Number) × W
    read_decimals source (some pinned) w = (some (ok pinned), w)
    read_decimals source none w =
        (scale_of (net.simulate source decimals_call w).0, (net.simulate source decimals_call w).1)

    abbrev pub price_of : String → d.Number → Reply V → Result AssetPrice
    price_of asset decimals (threw cause) = failure ("reflector lastprice(" ++ (asset ++ ")")) cause
    price_of asset decimals (returned retval) = decode_price asset retval decimals

    pub record Read : Type 0 where
      pub result : Option (Result AssetPrice)
      pub state : ReaderState S
      pub world : W

    abbrev pub last_price : String → S → d.Number → W → Read
    last_price asset source decimals w =
        let (reply, w') = net.simulate source (lastprice_call asset) w in
        record {
          result = some (price_of asset decimals reply);
          state = record { source = some source; decimals = some decimals };
          world = w';
        }

    -- What pins the scale.
    abbrev pub pinned_decimals : ReflectorOptions S → Option d.Number
    pinned_decimals options = elim options.decimals [
      | some n ↦ some n
      | none ↦ Option.map whole (reflector_decimals options.env)
    ]

    -- From the source on.
    unfoldable pub read_from : ReflectorOptions S → String → S → Option d.Number → W → Read
    read_from options asset source (some decimals) w = last_price asset source decimals w
    read_from options asset source none w =
        let w' = (read_decimals source (pinned_decimals options) w).1 in
        let st : ReaderState S = record { source = some source; decimals = none } in
        elim (read_decimals source (pinned_decimals options) w).0 [
          | none ↦ record { result = none; state = st; world = w' }
          | some (err code why) ↦ record { result = some (err code why); state = st; world = w' }
          | some (ok decimals) ↦ last_price asset source decimals w'
        ]

    -- One call of the reader; its result is none where the promise rejects.
    unfoldable pub read_price : ReflectorOptions S → String → ReaderState S → W → Read
    read_price options asset st w = elim st.source [
      | some source ↦ read_from options asset source st.decimals w
      | none ↦ elim (oracle_config_from options.env options.timeout_ms) [
        | none ↦ record {
          result =
              some
                (err unavailable "reflector oracle not configured (STELLAR_RPC_URL / _PASSPHRASE)");
          state = st;
          world = w;
        }
        | some config ↦ elim (net.build config) [
          | misconfigured cause ↦ record {
            result =
                some (err unavailable ("reflector oracle is misconfigured: " ++ describe cause));
            state = st;
            world = w;
          }
          | source_made source ↦ read_from options asset source st.decimals w
        ]
      ]
    ]

    -- `makeReflectorReader`
    abbrev pub new_reader : ReflectorOptions S → ReaderState S
    new_reader options = record { source = options.source; decimals = none }
