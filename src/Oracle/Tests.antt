-- ===== src/Oracle/Tests.antt =====
-- Prices and rates that backend/src/tools/price.ts and backend/src/tools/pool-rate.ts read from a canned
-- feed, and the theorem at it.
use sorosense.Base.{ℕ, ◌+◌, ◌≡◌, refl, String, Option, none, some}
use sorosense.Int.{pos, ◌*ℤ◌, ◌/ℤ◌}
use sorosense.Double.Fixed.{fixed}
use sorosense.Results.{ok}
use sorosense.Seam.{Currency, eur}
use sorosense.Oracle.{
  failed, decimals_call, lastprice_call, returned, source_made, number, bigint, fields, decoded,
  undecodable, Decoding, decode_fields, decode_price, Network, ReflectorOptions, read_decimals,
  read_from, read_price, new_reader, reflector_decimals,
}
use sorosense.Oracle.Fx.{FxEnv, fx_symbol_for, reflector_fx, FxSettled, reflector_fx-FxSettled}
use sorosense.Oracle.PoolRate.{
  PoolNetwork, PoolRateOptions, checked_rate, decode_rate, read_pool_rate, IsRate,
  read_pool_rate-IsRate,
}

data Canned : Type 0 where
  scale price broken : Canned

abbrev canned_native : Canned → Decoding fixed
canned_native scale = decoded (number (pos 20_000))
canned_native price = decoded (fields (bigint (pos 114)) (bigint (pos 7)))
canned_native broken = undecodable (failed "bad value")

-- A feed that lists one price, 1.14 at the scale of 2, over a world that counts the calls. A source is
-- what it answers when it is asked for the scale.
abbrev net : Network fixed ℕ Canned Canned
net = record {
  simulate = λ source call n. elim call [
    | decimals_call ↦ (returned (some source), 1 + n)
    | lastprice_call asset ↦ (returned (some price), 1 + n)
  ];
  build = λ config. source_made scale;
  to_native = canned_native;
  text = λ x. "?";
}

abbrev options : ReflectorOptions fixed Canned
options = record {
  source = some scale;
  decimals = none;
  timeout_ms = none;
  env = record {
    stellar_rpc_url = none;
    stellar_network_passphrase = none;
    reflector_oracle_id = none;
    reflector_decimals = none;
  };
}

abbrev env : FxEnv
env = record { fx_symbol_eur = none; fx_symbol_mxn = none }

abbrev symbol_of : Currency → Option String
symbol_of c = fx_symbol_for c env

euro :
    (reflector_fx fixed net options symbol_of eur (new_reader fixed net options) 0).rate
    ≡ some (ok (pos 11_400))
unfolding reflector_fx fx_symbol_for read_price read_from read_decimals decode_price decode_fields
    reflector_decimals ◌*ℤ◌ ◌/ℤ◌
euro = refl

-- The first read asks for the scale, a later one does not.
calls :
    let first = reflector_fx fixed net options symbol_of eur (new_reader fixed net options) 0 in
    (first.world ≡ 2)
    × ((reflector_fx fixed net options symbol_of eur first.state first.world).world ≡ 3)
unfolding reflector_fx fx_symbol_for read_price read_from read_decimals decode_price decode_fields
    reflector_decimals ◌*ℤ◌ ◌/ℤ◌
calls = (refl, refl)

-- A scale that does not decode rejects the call.
rejected :
    (read_price fixed net
      (record options { source = some broken })
      "EURC"
      (record { source = some broken; decimals = none })
      0).result
    ≡ none
unfolding read_price read_from read_decimals reflector_decimals
rejected = refl

reflector_fx-FxSettled_example :
    FxSettled fixed net options symbol_of eur none
      (reflector_fx fixed net options symbol_of eur (new_reader fixed net options) 0).rate
reflector_fx-FxSettled_example =
    reflector_fx-FxSettled fixed net options symbol_of eur (new_reader fixed net options) 0

abbrev pool_net : PoolNetwork fixed ℕ ℕ ℕ
pool_net = record {
  simulate = λ source n. (returned (some source), 1 + n);
  build = λ config. source_made 0;
  to_native = λ v. decoded (bigint (pos v));
  text = λ x. "?";
}

abbrev pool_options : PoolRateOptions fixed ℕ
pool_options = record {
  source = some 1_000;
  timeout_ms = none;
  env = record { stellar_rpc_url = none; stellar_network_passphrase = none };
}

ten_percent :
    (read_pool_rate fixed pool_net pool_options "CPOOL" (some 1_000) 0).result ≡ ok (pos 100_000)
unfolding read_pool_rate decode_rate checked_rate ◌*ℤ◌ ◌/ℤ◌
ten_percent = refl

read_pool_rate-IsRate_example :
    IsRate fixed (read_pool_rate fixed pool_net pool_options "CPOOL" (some 1_000) 0).result
read_pool_rate-IsRate_example =
    read_pool_rate-IsRate fixed pool_net pool_options "CPOOL" (some 1_000) 0
