-- ===== src/Earnings/Tests.antt =====
-- Earnings of backend/src/api/earnings.ts at a concrete deposit, and the theorems at it.
use sorosense.Base.{
  ℕ, ◌≡◌, refl, true, false, some, [], ◌∷◌, ◌||◌, All, map, keep, arith, ◌≤◌, string_key,
  number_key,
}
use sorosense.Int.{ℤ, pos, ltb_ℤ, ◌*ℤ◌, ◌/ℤ◌, ◌+ℤ◌, ◌-ℤ◌}
use sorosense.Dict.{has, add, get, put}
use sorosense.Sort.{Ascending, UniqueKeys, sort_by, insert_by}
use sorosense.Double.Fixed.{fixed}
use sorosense.Results.{ok, err, unavailable}
use sorosense.Seam.{Currency, usd, eur, mxn, bucket_key, share_price_scale}
use sorosense.CostBasis.{
  VaultEvent, deposit, reconstruct_cost_basis, replay, replay_event, apply_kind, redeemed_cost,
}
use sorosense.Snapshots.{Snapshot, SnapshotStore, series}
use sorosense.Snapshots.Recorded.{IsRecorded}
use sorosense.Catalog.{get_catalog}
use sorosense.Earnings.{
  EarningsDeps, EarningsView, get_earnings, read_values, read_rates, compose, view_of, chart_from,
  state_at, price_at, sample_times, snapshot_times, event_times, total_of, zero_usd,
}
use sorosense.Earnings.Timeline.{is_past, last_price, price_at_last, Chained, Rises}
use sorosense.Earnings.View.{NeedsRate, get_earnings_totals, get_earnings_chart}

-- Alice puts 10 dollars in at time 500, and the price has risen by a tenth at time 900.
abbrev paid : VaultEvent
paid = record {
  kind = deposit;
  depositor = "alice";
  currency = usd;
  amount = pos 100_000_000;
  shares = pos 100_000_000;
  seq = 1;
  ts = some 500;
}

abbrev rise : Snapshot
rise = record { currency = usd; price = pos 1_100_000_000; ts = 900 }

abbrev snapshots : SnapshotStore
snapshots = (usd, rise ∷ []) ∷ []

ascending : (c : Currency) → Ascending (λ s. s.ts) (series c snapshots)
unfolding series get
ascending usd = (tt, tt)
ascending eur = tt
ascending mxn = tt

past : (c : Currency) → All (λ s. s.ts ≤ 1_000) (series c snapshots)
unfolding series get
past usd = (omega arith, tt)
past eur = tt
past mxn = tt

snapshots-IsRecorded : IsRecorded 1_000 snapshots
snapshots-IsRecorded = record { ascending = ascending; past = past }

price_at_last_case :
    price_at snapshots usd 950
    ≡ last_price share_price_scale (keep (is_past 950) (series usd snapshots))
price_at_last_case = price_at_last snapshots usd 950 snapshots-IsRecorded

abbrev deps : EarningsDeps fixed
deps = record {
  asset_value_of =
      λ who c. elim c [ usd ↦ some (pos 110_000_000) | eur ↦ some (pos 0) | mxn ↦ some (pos 0) ];
  events = paid ∷ [];
  snapshots = snapshots;
  fx = λ c. elim c [
    | usd ↦ ok (pos 10_000)
    | eur ↦ err unavailable "no rate"
    | mxn ↦ err unavailable "no rate"
  ];
  currencies = usd ∷ eur ∷ [];
  month_key = λ t. "1970-01";
}

abbrev earned : EarningsView fixed
earned = record {
  has_deposit = true;
  balance_usd = pos 110_000;
  apy = pos 100_000;
  earned_usd = pos 10_000;
  buckets =
      record {
        currency = usd;
        native_value = pos 110_000_000;
        usd_value = pos 110_000;
        earned_usd = pos 10_000;
      }
      ∷ record { currency = eur; native_value = pos 0; usd_value = pos 0; earned_usd = pos 0 }
      ∷ [];
  chart =
      record { ts = 500; value_usd = pos 100_000; earned_usd = pos 0 }
      ∷ record { ts = 900; value_usd = pos 110_000; earned_usd = pos 10_000 }
      ∷ [];
  monthly = record { label = "1970-01"; earned_usd = pos 10_000 } ∷ [];
}

viewed : get_earnings fixed "alice" deps ≡ some (ok earned)
unfolding get_earnings read_values read_rates compose view_of chart_from state_at price_at
    sample_times snapshot_times event_times series reconstruct_cost_basis replay replay_event
    apply_kind redeemed_cost get_catalog bucket_key get put has add sort_by insert_by ◌+ℤ◌ ◌-ℤ◌ ◌*ℤ◌
    ◌/ℤ◌
viewed = refl

get_earnings_totals_example :
    All (NeedsRate "alice" deps) (usd ∷ eur ∷ [])
    × (map (λ b. b.currency) earned.buckets ≡ usd ∷ eur ∷ [])
    × All (λ b. deps.asset_value_of "alice" b.currency ≡ some b.native_value) earned.buckets
    × (pos 110_000 ≡ total_of fixed (λ b. b.usd_value) (zero_usd fixed) earned.buckets)
    × (pos 10_000 ≡ total_of fixed (λ b. b.earned_usd) (zero_usd fixed) earned.buckets)
get_earnings_totals_example = get_earnings_totals "alice" deps viewed

max_over : (a b : ℤ) → ltb_ℤ (fixed.max a b) a ≡ false
max_over a b = ground arith

get_earnings_chart_example :
    let times = map (λ p. p.ts) earned.chart in
    Ascending (λ t. t) times
    × UniqueKeys (λ t. t) times
    × ((t : ℕ)
        → has t times ≡ (
            has t (snapshot_times snapshots (usd ∷ eur ∷ []))
            || has t (event_times "alice" (usd ∷ eur ∷ []) (paid ∷ []))))
    × Chained Rises earned.chart
get_earnings_chart_example = get_earnings_chart "alice" deps max_over viewed
