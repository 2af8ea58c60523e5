-- ===== src/Http/Shaped.antt =====
-- The answers of backend/src/http/app.ts.
use sorosense.Base.{ℕ, String, ◌≡◌, Option, none, some}
use mathlib.Core.Option
use sorosense.Double.{Doubles}
use sorosense.Results.{ErrorCode, not_found, timeout, unavailable, http, parse}
use sorosense.Http.{
  Body, healthy, holdings_body, feed_body, earnings_body, funding_body, rates_body, pool_body,
  error_body, bad_request, Reply, HttpAppDeps,
}

module _ {d : Doubles} (deps : HttpAppDeps d) where
  -- The status of a failed read, by its code.
  abbrev pub FailsWith : ErrorCode → ℕ → Type 0
  FailsWith not_found status = status ≡ 404
  FailsWith timeout status = status ≡ 504
  FailsWith unavailable status = status ≡ 503
  FailsWith http status = status ≡ 502
  FailsWith parse status = status ≡ 502

  -- A body and the status that goes with it.
  abbrev pub Shape : Body d → ℕ → Type 0
  Shape (error_body code why) status = FailsWith code status
  Shape (bad_request why) status = status ≡ 400
  Shape healthy status = status ≡ 200
  Shape (funding_body options) status = status ≡ 200
  Shape (rates_body rates) status = status ≡ 200
  Shape (pool_body pool) status = status ≡ 200
  Shape (earnings_body view) status = status ≡ 200
  Shape (feed_body rows) status = status ≡ 200
  Shape (holdings_body holdings) status = status ≡ 200

  abbrev pub IsShaped : Option (Reply d) → Type 0
  IsShaped none = Unit
  IsShaped (some reply) = Shape reply.body reply.status

  -- A refusal.
  abbrev pub IsRefused : Option (Reply d) → Type 0
  IsRefused told = (why : String) × (told ≡ some (record { status = 400; body = bad_request why }))
