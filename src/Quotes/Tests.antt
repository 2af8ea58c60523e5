-- ===== src/Quotes/Tests.antt =====
-- Holdings, rates and projections of backend/src/api at concrete deposits, and the theorems at them.
use sorosense.Base.{◌≡◌, refl, false, none, some, [], ◌∷◌, All, string_key}
use sorosense.Int.{pos, ◌*ℤ◌, ◌/ℤ◌, ltb_ℤ, ◌+ℤ◌, ◌-ℤ◌}
use sorosense.Dict.{has}
use sorosense.Double.Fixed.{fixed, fixed-IsStrictOrder}
use sorosense.Fee.{net_apy, performance_fee_bps}
use sorosense.Text.{parse_int, last_word}
use sorosense.Results.{ok, err, unavailable}
use sorosense.Seam.{usd, eur, mxn, active}
use sorosense.Catalog.{
  rwa, lending, VenueMeta, CatalogEntry, to_meta, get_catalog, get_venue, resolve_venue,
  best_safe_venue, catalog_apy, kind_label,
}
use sorosense.Catalog.Best.{best_safe_venue_best}
use sorosense.Quotes.{
  VaultReads, FxSource, Holding, HoldingsDeps, get_holdings, get_rates, bucket_holdings,
  bucket_holding, funded_bucket, quote_bucket, all_of, collect,
}
use sorosense.Quotes.Funded.{IsFunded, IsPriced, get_holdings_funded, holdings_match_rates}

-- 25 dollars in no pool, and nothing else.
abbrev vault : VaultReads
vault = record {
  balance_of =
      λ who c. elim c [ usd ↦ some (pos 250_000_000) | eur ↦ some (pos 0) | mxn ↦ some (pos 0) ];
  asset_value_of = λ who c. some (pos 250_000_000);
  active_pool = λ c. some none;
  pool_status = λ pool. some active;
}

-- Only dollars have a rate.
abbrev fx : FxSource fixed
fx c = elim c [
  | usd ↦ ok (pos 10_000)
  | eur ↦ err unavailable "no rate"
  | mxn ↦ err unavailable "no rate"
]

abbrev deps : HoldingsDeps fixed
deps = record {
  vault = vault;
  fx = fx;
  apy = catalog_apy fixed;
  fee_bps = performance_fee_bps (some " 50bps");
}

fee_read : performance_fee_bps (some " 50bps") ≡ 50
unfolding performance_fee_bps parse_int
fee_read = refl

fee_default : performance_fee_bps (some "20000") ≡ 100
unfolding performance_fee_bps parse_int
fee_default = refl

cetes_label : kind_label rwa "Etherfuse  CETES " ≡ "CETES"
unfolding kind_label last_word
cetes_label = refl

abbrev best_usd : VenueMeta fixed
best_usd = record {
  id = "sorosense-usd";
  venue = "SoroSense";
  name = "SoroSense USD pool";
  kind = lending;
  apy = pos 100_000;
}

best_usd_found : best_safe_venue fixed usd ≡ some best_usd
unfolding best_safe_venue get_catalog has ◌*ℤ◌ ◌/ℤ◌
best_usd_found = refl

best_safe_venue_best_case :
    (resolve_venue fixed best_usd.id ≡ some best_usd)
    × ((v : CatalogEntry fixed) × ((best_usd ≡ to_meta fixed v) × (v.currency ≡ usd)))
    × All (λ w. ltb_ℤ best_usd.apy w.apy ≡ false) (get_catalog fixed (some usd))
best_safe_venue_best_case = best_safe_venue_best fixed-IsStrictOrder usd best_usd_found

abbrev held : Holding fixed
held = record {
  quoted = record {
    currency = usd;
    name = "SoroSense USD pool";
    venue = "SoroSense";
    kind = lending;
    tags = "SoroSense" ∷ "Fixed pool" ∷ [];
    apy = pos 100_000;
    net_apy = pos 99_500;
    fee_bps = 50;
  };
  shares = pos 250_000_000;
  value = pos 250_000_000;
  value_usd = pos 250_000;
  frozen = false;
}

-- The empty buckets ask for no rate.
listed : get_holdings fixed deps "alice" (usd ∷ eur ∷ []) ≡ some (ok (held ∷ []))
unfolding get_holdings bucket_holdings bucket_holding funded_bucket quote_bucket all_of collect
    net_apy performance_fee_bps parse_int kind_label best_safe_venue resolve_venue get_venue
    get_catalog has catalog_apy ◌+ℤ◌ ◌-ℤ◌ ◌*ℤ◌ ◌/ℤ◌
listed = refl

get_holdings_funded_example :
    All (IsFunded deps "alice") (held ∷ []) × All (IsPriced deps "alice") (usd ∷ eur ∷ [])
get_holdings_funded_example = get_holdings_funded deps "alice" (usd ∷ eur ∷ []) listed

holdings_match_rates_case :
    All
      (λ h.
        vault.active_pool h.quoted.currency ≡ some none
        → get_rates fixed (catalog_apy fixed) deps.fee_bps (h.quoted.currency ∷ [])
          ≡ ok (h.quoted ∷ []))
      (held ∷ [])
holdings_match_rates_case = holdings_match_rates deps "alice" (usd ∷ eur ∷ []) listed
