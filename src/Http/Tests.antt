-- ===== src/Http/Tests.antt =====
-- Requests to backend/src/http/app.ts, and the theorem at one application.
use sorosense.Base.{◌≡◌, refl, none, some, []}
use sorosense.Int.{pos}
use sorosense.Text.{parse_int}
use sorosense.Dict.{has}
use sorosense.Double.Fixed.{fixed}
use sorosense.Results.{err, unavailable, not_found}
use sorosense.Seam.{usd, eur, mxn, active}
use sorosense.Activity.Log.{new_log}
use sorosense.Catalog.{get_pool, resolve_venue, get_venue}
use sorosense.Quotes.{get_holdings, bucket_holdings, bucket_holding, funded_bucket, all_of, collect}
use sorosense.Http.{
  pool_of, holdings_of, activity_of, HttpAppDeps, error_body, bad_request, respond, answer_holdings,
  answer_activity, parse_actor, parse_currency, parse_limit,
}

-- Euros are held, and have no exchange rate.
abbrev deps : HttpAppDeps fixed
deps = record {
  vault = record {
    balance_of = λ who c. elim c [ usd ↦ some (pos 0) | eur ↦ some (pos 5) | mxn ↦ some (pos 0) ];
    asset_value_of = λ who c. some (pos 5);
    active_pool = λ c. some none;
    pool_status = λ pool. some active;
  };
  fx = λ c. err unavailable "no rate";
  apy = none;
  events = [];
  snapshots = [];
  activity = record { log = new_log; user_events = []; agent_events = [] };
  fee_bps = 100;
  month_key = λ t. "1970-01";
}

no_rate :
    respond fixed deps (holdings_of (some "alice"))
    ≡ some (record { status = 503; body = error_body unavailable "no rate" })
unfolding respond answer_holdings get_holdings bucket_holdings bucket_holding funded_bucket all_of
    collect
no_rate = refl

trap_refused :
    respond fixed deps (pool_of "mgusd")
    ≡ some (record { status = 404; body = error_body not_found "unknown pool: mgusd" })
unfolding respond get_pool resolve_venue get_venue has
trap_refused = refl

bad_limit :
    respond fixed deps (activity_of none none none (some "many"))
    ≡ some (record { status = 400; body = bad_request "invalid limit" })
unfolding respond answer_activity parse_actor parse_currency parse_limit parse_int
bad_limit = refl
