-- ===== src/Http.antt =====
-- backend/src/http/app.ts: the routes over the composed reads. A handler that rejects has no answer here:
-- the framework gives one.
pub mod Shaped
mod Tests
use sorosense.Base.{
  ℕ, String, Bool, true, false, Option, none, some, List, [], ◌∷◌, ◌==◌, get_or, string_key,
  if◌then◌else◌,
}
use mathlib.Core.Option
use sorosense.Int.{ℤ, pos, negsuc}
use sorosense.Text.{parse_int}
use sorosense.Real.{truthy}
use sorosense.Double.{Doubles}
use sorosense.Results.{Result, ok, err, ErrorCode, timeout, http, parse, unavailable, not_found}
use sorosense.Seam.{Currency, usd, eur, mxn, Address}
use sorosense.CostBasis.{VaultEvent}
use sorosense.Snapshots.{SnapshotStore}
use sorosense.Activity.Log.{Actor, you, agent}
use sorosense.Activity.Feed.{ActivityFeedDeps, ActivityQuery, FeedEntry, get_activity}
use sorosense.Catalog.{ApySource, Pool, catalog_apy, get_pool}
use sorosense.Quotes.{
  all_currencies, VaultReads, FxSource, Holding, HoldingsDeps, Rate, get_holdings, get_rates,
}
use sorosense.Quotes.Simulate.{FundingOptions, get_funding_options}
use sorosense.Earnings.{EarningsView, EarningsDeps, get_earnings}

abbrev pub status_for_err : ErrorCode → ℕ
status_for_err not_found = 404
status_for_err timeout = 504
status_for_err unavailable = 503
status_for_err http = 502
status_for_err parse = 502

-- `parseCurrency`: none is 'invalid', `some none` no filter.
unfoldable pub parse_currency : Option String → Option (Option Currency)
parse_currency none = some none
parse_currency (some raw) =
    if raw == "USD"
    then some (some usd)
    else (if raw == "EUR"
        then some (some eur)
        else (if raw == "MXN" then some (some mxn) else none))

-- The tests on `actor` and on `limit`; none is a refused text.
unfoldable pub parse_actor : Option String → Option (Option Actor)
parse_actor none = some none
parse_actor (some raw) =
    if raw == "you" then some (some you) else (if raw == "agent" then some (some agent) else none)

abbrev pub natural : Option ℤ → Option (Option ℕ)
natural (some (pos n)) = some (some n)
natural (some (negsuc n)) = none
natural none = none

unfoldable pub parse_limit : Option String → Option (Option ℕ)
parse_limit none = some none
parse_limit (some raw) = natural (parse_int raw)

-- The routes with what they read of a request.
pub data Request : Type 0 where
  get_health funding_options rate_card : Request
  holdings_of earnings_of : Option String → Request
  activity_of : Option String → Option String → Option String → Option String → Request
  pool_of : String → Request

module _ (d : Doubles) where
  pub data Body : Type 0 where
    healthy : Body
    holdings_body : List (Holding d) → Body
    feed_body : List FeedEntry → Body
    earnings_body : EarningsView d → Body
    funding_body : FundingOptions → Body
    rates_body : List (Rate d) → Body
    pool_body : Pool d → Body
    error_body : ErrorCode → String → Body
    bad_request : String → Body

  pub record Reply : Type 0 where
    pub status : ℕ
    pub body : Body

  pub record HttpAppDeps : Type 0 where
    pub vault : VaultReads
    pub fx : FxSource d
    pub apy : Option (ApySource d)
    pub events : List VaultEvent
    pub snapshots : SnapshotStore
    pub activity : ActivityFeedDeps
    pub fee_bps : ℕ
    pub month_key : ℕ → String

  abbrev pub json_ok : Body → Reply
  json_ok body = record { status = 200; body = body }

  abbrev pub refused : String → Reply
  refused why = record { status = 400; body = bad_request why }

  -- `jsonErr` on a failed read, and its value otherwise.
  abbrev pub answer {ℓ} : {A : Type ℓ} → (A → Body) → Result A → Reply
  answer shape (err code why) = record { status = status_for_err code; body = error_body code why }
  answer shape (ok a) = json_ok (shape a)

  module _ (deps : HttpAppDeps) where
    abbrev pub apy_source : ApySource d
    apy_source = get_or deps.apy (catalog_apy d)

    abbrev pub holdings_deps : HoldingsDeps d
    holdings_deps = record {
      vault = deps.vault;
      fx = deps.fx;
      apy = apy_source;
      fee_bps = deps.fee_bps;
    }

    abbrev pub earnings_deps : EarningsDeps d
    earnings_deps = record {
      asset_value_of = deps.vault.asset_value_of;
      events = deps.events;
      snapshots = deps.snapshots;
      fx = deps.fx;
      currencies = all_currencies;
      month_key = deps.month_key;
    }

    unfoldable pub answer_holdings : Option String → Option Reply
    answer_holdings depositor = elim (truthy depositor) [
      | none ↦ some (refused "missing required query parameter: depositor")
      | some who ↦
          Option.map (answer holdings_body) (get_holdings d holdings_deps who all_currencies)
    ]

    unfoldable pub answer_earnings : Option String → Option Reply
    answer_earnings depositor = elim (truthy depositor) [
      | none ↦ some (refused "missing required query parameter: depositor")
      | some who ↦ Option.map (answer earnings_body) (get_earnings d who earnings_deps)
    ]

    unfoldable pub answer_activity :
        Option String → Option String → Option String → Option String → Reply
    answer_activity depositor actor currency limit = elim (parse_actor actor) [
      | none ↦ refused "invalid actor: expected 'you' or 'agent'"
      | some a ↦ elim (parse_currency currency) [
        | none ↦ refused "invalid currency: expected USD, EUR, or MXN"
        | some c ↦ elim (parse_limit limit) [
          | none ↦ refused "invalid limit"
          | some n ↦ json_ok (
              feed_body (
                get_activity (record { depositor = depositor; actor = a; currency = c; limit = n })
                  deps.activity))
        ]
      ]
    ]

    -- The handlers of `createApp`; none is one that rejects.
    unfoldable pub respond : Request → Option Reply
    respond get_health = some (json_ok healthy)
    respond (holdings_of depositor) = answer_holdings depositor
    respond (activity_of depositor actor currency limit) =
        some (answer_activity depositor actor currency limit)
    respond (earnings_of depositor) = answer_earnings depositor
    respond funding_options = some (json_ok (funding_body (get_funding_options d)))
    respond rate_card =
        some (answer rates_body (get_rates d apy_source deps.fee_bps all_currencies))
    respond (pool_of id) = some (answer pool_body (get_pool d id apy_source))
