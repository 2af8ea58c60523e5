-- ===== src/Oracle/Fx.antt =====
-- The exchange rates of backend/src/api/earnings.ts over the reader of backend/src/tools/price.ts.
use sorosense.Base.{String, ◌≡◌, refl, Option, none, some, inl, inr, get_or, Option-cases}
use mathlib.Core.Option
use sorosense.Double.{Doubles}
use sorosense.Results.{Result, ok, err, timeout, http, parse, unavailable, not_found}
use sorosense.Real.{truthy}
use sorosense.Seam.{Currency, usd, eur, mxn, currency_text}
use sorosense.Oracle.{
  Network, ReflectorOptions, ReaderState, AssetPrice, Read, read_price, whole, pinned_decimals,
}
use sorosense.Oracle.Positive.{IsPositive, Throws, Settled, read_price-Settled}
use Prim.Native.String.{◌++◌}

pub record FxEnv : Type 0 where
  pub fx_symbol_eur : Option String
  pub fx_symbol_mxn : Option String

unfoldable pub fx_symbol_for : Currency → FxEnv → Option String
fx_symbol_for usd env = none
fx_symbol_for eur env = some (get_or (truthy env.fx_symbol_eur) "EURC")
fx_symbol_for mxn env = truthy env.fx_symbol_mxn

module _ (d : Doubles) where
  -- A symbol that the feed does not carry is no rate.
  abbrev pub as_rate : Result (AssetPrice d) → Result d.Number
  as_rate (ok p) = ok p.price
  as_rate (err not_found why) = err unavailable why
  as_rate (err timeout why) = err timeout why
  as_rate (err http why) = err http why
  as_rate (err parse why) = err parse why
  as_rate (err unavailable why) = err unavailable why

  module _ {W S V : Type 0} (net : Network d W S V) (options : ReflectorOptions d S)
      (symbol_of : Currency → Option String) where
    pub record FxRead : Type 0 where
      pub rate : Option (Result d.Number)
      pub state : ReaderState d S
      pub world : W

    abbrev pub fx_of : Read d net → FxRead
    fx_of r = record { rate = Option.map as_rate r.result; state = r.state; world = r.world }

    -- A bucket other than USD.
    abbrev pub fx_by_symbol : Currency → ReaderState d S → W → FxRead
    fx_by_symbol c st w = elim (symbol_of c) [
      | none ↦ record {
        rate = some (
            err unavailable (
              "no Reflector symbol configured for "
              ++ (currency_text c ++ (" (FX_SYMBOL_" ++ (currency_text c ++ ")")))));
        state = st;
        world = w;
      }
      | some symbol ↦ fx_of (read_price d net options symbol st w)
    ]

    -- One call of the source that `makeReflectorFx` gives.
    unfoldable pub reflector_fx : Currency → ReaderState d S → W → FxRead
    reflector_fx usd st w = record { rate = some (ok (whole d 1)); state = st; world = w }
    reflector_fx eur st w = fx_by_symbol eur st w
    reflector_fx mxn st w = fx_by_symbol mxn st w

    -- What is told of a currency other than USD: a rate is finite and not at most zero, no error says that
    -- the currency is not found, and a rejection is one of the reader's.
    abbrev pub FeedSettled : Option d.Number → Option (Result d.Number) → Type 0
    FeedSettled known (some (ok x)) = IsPositive d x
    FeedSettled known (some (err code why)) = ¬ (code ≡ not_found)
    FeedSettled known none = Throws net × (pinned_decimals d net options ≡ none) × (known ≡ none)

    abbrev pub FxSettled : Currency → Option d.Number → Option (Result d.Number) → Type 0
    FxSettled usd known told = told ≡ some (ok (whole d 1))
    FxSettled eur known told = FeedSettled known told
    FxSettled mxn known told = FeedSettled known told

    as_rate-FeedSettled :
        (symbol : String) (known : Option d.Number) (result : Option (Result (AssetPrice d)))
        → Settled net options symbol known result
        → FeedSettled known (Option.map as_rate result)
    as_rate-FeedSettled symbol known none h = h
    as_rate-FeedSettled symbol known (some (ok p)) h = h.1
    as_rate-FeedSettled symbol known (some (err not_found why)) h = λ e. cc
    as_rate-FeedSettled symbol known (some (err timeout why)) h = λ e. cc
    as_rate-FeedSettled symbol known (some (err http why)) h = λ e. cc
    as_rate-FeedSettled symbol known (some (err parse why)) h = λ e. cc
    as_rate-FeedSettled symbol known (some (err unavailable why)) h = λ e. cc

    by_symbol-FeedSettled :
        (c : Currency) (st : ReaderState d S) (w : W)
        → FeedSettled st.decimals (fx_by_symbol c st w).rate
    by_symbol-FeedSettled c st w = elim (Option-cases (symbol_of c)) [
      | inl e ↦ rw (fx_by_symbol, e) (λ f. cc)
      | inr (symbol, e) ↦
          rw (fx_by_symbol, e)
            (as_rate-FeedSettled symbol st.decimals (read_price d net options symbol st w).result
              (read_price-Settled net options symbol st w))
    ]

    -- Whatever the feed answers, the rate of USD is the number one and never fails. For EUR and MXN a rate
    -- is finite and not at most zero, no error has the code `not_found`, and a call rejects only if the
    -- scale is neither known nor pinned and there is a value that the decoder of the feed throws on.
    pub reflector_fx-FxSettled :
        (c : Currency) (st : ReaderState d S) (w : W)
        → FxSettled c st.decimals (reflector_fx c st w).rate
    unfolding reflector_fx
    reflector_fx-FxSettled usd st w = refl
    reflector_fx-FxSettled eur st w = by_symbol-FeedSettled eur st w
    reflector_fx-FxSettled mxn st w = by_symbol-FeedSettled mxn st w
