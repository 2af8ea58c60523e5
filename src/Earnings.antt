-- ===== src/Earnings.antt =====
-- backend/src/api/earnings.ts: the earnings of a depositor, from the vault, the cost basis, the recorded
-- prices and the exchange rates. The reads of one call see one state of the vault.
pub mod Timeline
pub mod View
mod Tests
use sorosense.Base.{
  ℕ, String, Bool, true, false, Option, none, some, List, [], ◌∷◌, ◌++◌, ◌==◌, ◌&&◌, ◌||◌, not, leb,
  map, keep, get_or, string_key, number_key, if◌then◌else◌,
}
use mathlib.Core.Option
use sorosense.Dict.{Dict, get, put, has, add}
use sorosense.Int.{ℤ, pos, ◌*ℤ◌, ◌/ℤ◌, ◌-ℤ◌, ltb_ℤ, leb_ℤ}
use sorosense.Sort.{sort_by}
use sorosense.Double.{Doubles}
use sorosense.Results.{Result, ok, err}
use sorosense.Seam.{
  Currency, currency_key, Address, Amount, PriceRay, share_price_scale, bucket_key,
}
use sorosense.CostBasis.{VaultEvent, CostBasis, basis_of, reconstruct_cost_basis}
use sorosense.Snapshots.{Snapshot, SnapshotStore, series}
use sorosense.Catalog.{CatalogEntry, get_catalog}
use sorosense.Quotes.{FxSource, to_usd}

-- The loop of `priceAt`, which stops at the first snapshot after `ts`.
abbrev pub scan_prices : ℕ → PriceRay → List Snapshot → PriceRay
scan_prices ts price [] = price
scan_prices ts price (s ∷ ss) =
    let rest = scan_prices ts s.price ss in if leb s.ts ts then rest else price

unfoldable pub price_at : SnapshotStore → Currency → ℕ → PriceRay
price_at snapshots c ts = scan_prices ts share_price_scale (series c snapshots)

-- An event is of the depositor and of a bucket that is looked at.
abbrev pub in_view : Address → List Currency → VaultEvent → Bool
in_view user currencies ev = ev.depositor == user && has ev.currency currencies

abbrev pub any_event : (VaultEvent → Bool) → List VaultEvent → Bool
any_event p [] = false
any_event p (ev ∷ evs) = p ev || any_event p evs

-- The times of the events in view that have one.
unfoldable pub event_times : Address → List Currency → List VaultEvent → List ℕ
event_times user currencies [] = []
event_times user currencies (ev ∷ evs) =
    let rest = event_times user currencies evs in
    if in_view user currencies ev then elim ev.ts [ none ↦ rest | some t ↦ t ∷ rest ] else rest

unfoldable pub snapshot_times : SnapshotStore → List Currency → List ℕ
snapshot_times snapshots [] = []
snapshot_times snapshots (c ∷ cs) =
    map (λ s. s.ts) (series c snapshots) ++ snapshot_times snapshots cs

-- `new Set(xs)`, in any order of its members: they are sorted at once.
abbrev pub members : List ℕ → List ℕ
members [] = []
members (x ∷ xs) = add x (members xs)

unfoldable pub sample_times : SnapshotStore → Address → List Currency → List VaultEvent → List ℕ
sample_times snapshots user currencies events =
    sort_by (λ t. t)
      (members (snapshot_times snapshots currencies ++ event_times user currencies events))

abbrev pub is_zero : ℤ → Bool
is_zero z = leb_ℤ z (pos 0) && leb_ℤ (pos 0) z

-- `reconstructCostBasis` of the events up to a time; one without a time is before all.
abbrev pub until : ℕ → List VaultEvent → List VaultEvent
until t events = keep (λ ev. leb (get_or ev.ts 0) t) events

module _ (d : Doubles) where
  pub record BucketBreakdown : Type 0 where
    pub currency : Currency
    pub native_value : Amount
    pub usd_value : d.Number
    pub earned_usd : d.Number

  pub record ChartPoint : Type 0 where
    pub ts : ℕ
    pub value_usd : d.Number
    pub earned_usd : d.Number

  pub record MonthlyEarned : Type 0 where
    pub label : String
    pub earned_usd : d.Number

  pub record EarningsView : Type 0 where
    pub has_deposit : Bool
    pub balance_usd : d.Number
    pub apy : d.Number
    pub earned_usd : d.Number
    pub buckets : List BucketBreakdown
    pub chart : List ChartPoint
    pub monthly : List MonthlyEarned

  -- `month_key` is the UTC month of a time as `YYYY-MM`, which JavaScript's `Date` computes. A read of
  -- the vault that rejects is none.
  pub record EarningsDeps : Type 0 where
    pub asset_value_of : Address → Currency → Option Amount
    pub events : List VaultEvent
    pub snapshots : SnapshotStore
    pub fx : FxSource d
    pub currencies : List Currency
    pub month_key : ℕ → String

  abbrev pub zero_usd : d.Number
  zero_usd = d.decimal 0 0

  abbrev pub highest_apy : d.Number → List (CatalogEntry d) → d.Number
  highest_apy best [] = best
  highest_apy best (v ∷ vs) = highest_apy (if d.lt best v.apy then v.apy else best) vs

  abbrev pub best_apy : Currency → d.Number
  best_apy c = highest_apy zero_usd (get_catalog d (some c))

  pub record UsdStateAt : Type 0 where
    pub value_usd : d.Number
    pub earned_usd : d.Number

  module _ (user : Address) (deps : EarningsDeps) (rates : Dict Currency d.Number) where
    abbrev pub fx_rate : Currency → d.Number
    fx_rate c = get_or (get c rates) zero_usd

    -- The loop of `stateAt` over the buckets.
    abbrev pub add_states : ℕ → Dict String CostBasis → UsdStateAt → List Currency → UsdStateAt
    add_states t bases st [] = st
    add_states t bases st (c ∷ cs) =
        let basis = basis_of (bucket_key user c) bases in
        let value = basis.shares *ℤ price_at deps.snapshots c t /ℤ share_price_scale in
        let st' : UsdStateAt = record {
          value_usd = d.plus st.value_usd (to_usd d value (fx_rate c));
          earned_usd = d.plus st.earned_usd (to_usd d (value -ℤ basis.contributed) (fx_rate c));
        } in
        add_states t bases st' cs

    -- `none` is the error of the replay.
    unfoldable pub state_at : ℕ → Option UsdStateAt
    state_at t =
        Option.map
          (λ bases.
            add_states t bases (record { value_usd = zero_usd; earned_usd = zero_usd })
              deps.currencies)
          (reconstruct_cost_basis (until t deps.events))

    -- The chart from a time on, where `floor` is the greatest of the earned values before.
    unfoldable pub chart_from : d.Number → List ℕ → Option (List ChartPoint)
    chart_from floor [] = some []
    chart_from floor (t ∷ ts) = elim (state_at t) [
      | none ↦ none
      | some st ↦
          let top = d.max floor st.earned_usd in
          Option.map (λ rest. record { ts = t; value_usd = st.value_usd; earned_usd = top } ∷ rest)
            (chart_from top ts)
    ]

    abbrev pub breakdown : Dict String CostBasis → Dict Currency Amount → Currency → BucketBreakdown
    breakdown bases values c =
        let value = get_or (get c values) (pos 0) in
        record {
          currency = c;
          native_value = value;
          usd_value = to_usd d value (fx_rate c);
          earned_usd =
              d.max zero_usd
                (to_usd d (value -ℤ (basis_of (bucket_key user c) bases).contributed) (fx_rate c));
        }

  -- `x += f(b)` over the buckets.
  abbrev pub total_of {ℓ} : {A : Type ℓ} → (A → d.Number) → d.Number → List A → d.Number
  total_of f acc [] = acc
  total_of f acc (b ∷ bs) = total_of f (d.plus acc (f b)) bs

  -- The last earned value of each month, in the order in which the months first appear.
  abbrev pub last_by_month :
      (ℕ → String) → Dict String d.Number → List ChartPoint → Dict String d.Number
  last_by_month month_key months [] = months
  last_by_month month_key months (p ∷ ps) =
      last_by_month month_key (put (month_key p.ts) p.earned_usd months) ps

  abbrev pub deltas : d.Number → Dict String d.Number → List MonthlyEarned
  deltas before [] = []
  deltas before ((label, cum) ∷ months) =
      record { label = label; earned_usd = d.minus cum before } ∷ deltas cum months

  module _ (user : Address) (deps : EarningsDeps) where
    -- The loops over the buckets that read their values and their rates.
    unfoldable pub read_values :
        Dict Currency Amount → List Currency → Option (Dict Currency Amount)
    read_values values [] = some values
    read_values values (c ∷ cs) = elim (deps.asset_value_of user c) [
      | none ↦ none
      | some value ↦ read_values (put c value values) cs
    ]

    abbrev pub untouched : Dict Currency Amount → Currency → Bool
    untouched values c =
        is_zero (get_or (get c values) (pos 0))
        && not (any_event (λ ev. in_view user deps.currencies ev && ev.currency == c) deps.events)

    unfoldable pub read_rates :
        Dict Currency Amount
        → Dict Currency d.Number
        → List Currency
        → Result (Dict Currency d.Number)
    read_rates values rates [] = ok rates
    read_rates values rates (c ∷ cs) =
        let skip = read_rates values rates cs in
        if untouched values c then skip else elim (deps.fx c) [
          | err code why ↦ err code why
          | ok rate ↦ read_rates values (put c rate rates) cs
        ]

    abbrev pub any_value : List BucketBreakdown → Bool
    any_value [] = false
    any_value (b ∷ bs) = ltb_ℤ (pos 0) b.native_value || any_value bs

    -- The view, once everything is read.
    unfoldable pub view_of :
        Dict Currency Amount
        → Dict Currency d.Number
        → Dict String CostBasis
        → List ChartPoint
        → EarningsView
    view_of values rates bases chart =
        let buckets = map (breakdown user deps rates bases values) deps.currencies in
        let balance = total_of (λ b. b.usd_value) zero_usd buckets in
        let weighted = total_of (λ b. d.times (best_apy b.currency) b.usd_value) zero_usd buckets in
        record {
          has_deposit = any_value buckets;
          balance_usd = balance;
          apy = if d.lt zero_usd balance then d.over weighted balance else zero_usd;
          earned_usd = total_of (λ b. b.earned_usd) zero_usd buckets;
          buckets = buckets;
          chart = chart;
          monthly = deltas zero_usd (last_by_month deps.month_key [] chart);
        }

    abbrev pub times_of : List ℕ
    times_of = sample_times deps.snapshots user deps.currencies deps.events

    -- From the rates on.
    unfoldable pub compose :
        Dict Currency Amount → Dict Currency d.Number → Option (Result EarningsView)
    compose values rates = elim (reconstruct_cost_basis deps.events) [
      | none ↦ none
      | some bases ↦
          Option.map (λ chart. ok (view_of values rates bases chart))
            (chart_from user deps rates zero_usd times_of)
    ]

    -- `none` is a rejected promise: a read of the vault that failed, or a replay that did.
    unfoldable pub get_earnings : Option (Result EarningsView)
    get_earnings = elim (read_values [] deps.currencies) [
      | none ↦ none
      | some values ↦ elim (read_rates values [] deps.currencies) [
        | err code why ↦ some (err code why)
        | ok rates ↦ compose values rates
      ]
    ]
