-- ===== src/Earnings/View.antt =====
-- What the view of backend/src/api/earnings.ts says, and where it fails.
use sorosense.Base.{
  String, ℕ, ◌≡◌, refl, sym, ap, ◌∙◌, false, some, List, [], ◌∷◌, ◌||◌, ◌&&◌, not, map, All, arith,
  Bool-cases, Option-cases, inl, inr, number_key, ◌==◌,
}
use mathlib.Core.Path.{subst}
use sorosense.Dict.{Dict, get, put, get-put, get-put_self, has}
use sorosense.Sort.{Ascending, UniqueKeys}
use sorosense.Double.{Doubles}
use sorosense.Results.{ok, Result-cases}
use sorosense.Seam.{Currency, currency_key, currency_beq_iff, Address, Amount}
use sorosense.CostBasis.{CostBasis, reconstruct_cost_basis}
use sorosense.Earnings.{
  EarningsDeps, EarningsView, ChartPoint, total_of, zero_usd, read_values, read_rates, untouched,
  is_zero, any_event, in_view, compose, view_of, get_earnings, times_of, chart_from, breakdown,
  snapshot_times, event_times,
}
use sorosense.Earnings.Timeline.{Chained, Rises, chart_times, chart-Rises, sample_times_lem}

module _ {d : Doubles} (user : Address) (deps : EarningsDeps d) where
  -- What a complete view comes from.
  record Composed (view : EarningsView d) : Type 0 where
    values : Dict Currency Amount
    rates : Dict Currency d.Number
    bases : Dict String CostBasis
    points : List (ChartPoint d)
    valued : read_values d user deps [] deps.currencies ≡ some values
    rated : read_rates d user deps values [] deps.currencies ≡ ok rates
    charted : chart_from d user deps rates (zero_usd d) (times_of d user deps) ≡ some points
    built : view ≡ view_of d user deps values rates bases points

  get_earnings-Composed :
      {view : EarningsView d} → get_earnings d user deps ≡ some (ok view) → Composed view
  unfolding get_earnings compose
  get_earnings-Composed e = elim (Option-cases (read_values d user deps [] deps.currencies)) [
    | inl v ↦ absurd (ground (arith, e, v))
    | inr (values, v) ↦ elim (Result-cases (read_rates d user deps values [] deps.currencies)) [
      | inl (code, (why, r)) ↦ absurd (ground (arith, e, v, r))
      | inr (rates, r) ↦ elim (Option-cases (reconstruct_cost_basis deps.events)) [
        | inl b ↦ absurd (ground (arith, e, v, r, b))
        | inr (bases, b) ↦
            elim (Option-cases (chart_from d user deps rates (zero_usd d) (times_of d user deps))) [
              | inl c ↦ absurd (ground (arith, e, v, r, b, c))
              | inr (points, c) ↦ record {
                values = values;
                rates = rates;
                bases = bases;
                points = points;
                valued = v;
                rated = r;
                charted = c;
                built = ground (arith, e, v, r, b, c);
              }
            ]
      ]
    ]
  ]

  -- What is stored is what the vault answered.
  IsRead : Dict Currency Amount → Type 0
  IsRead values =
      (c : Currency) (v : Amount) → get c values ≡ some v → deps.asset_value_of user c ≡ some v

  put-IsRead :
      (c : Currency) (v : Amount) (values : Dict Currency Amount)
      → deps.asset_value_of user c ≡ some v
      → IsRead values
      → IsRead (put c v values)
  unfolding IsRead
  put-IsRead c v values e h b w f = elim (Bool-cases (c == b)) [
    | inl same ↦ ground (arith, e, f, get-put c b v values, same, currency_beq_iff c b)
    | inr other ↦ h b w (ground (arith, f, get-put c b v values, other))
  ]

  abbrev Holds : Dict Currency Amount → Currency → Type 0
  Holds values c = (v : Amount) × (get c values ≡ some v)

  read_values-keeps :
      (b : Currency) (cs : List Currency) (values : Dict Currency Amount)
      {end : Dict Currency Amount}
      → Holds values b
      → read_values d user deps values cs ≡ some end
      → Holds end b
  unfolding read_values
  read_values-keeps b [] values h e =
      let same : values ≡ _ = ground (arith, e) in subst (λ x. Holds x b) same h
  read_values-keeps b (c ∷ cs) values (w, h) e = elim (Option-cases (deps.asset_value_of user c)) [
    | inl a ↦ absurd (ground (arith, e, a))
    | inr (v, a) ↦
        read_values-keeps b cs (put c v values)
          (elim (Bool-cases (c == b)) [
            | inl same ↦ (v, ground (arith, get-put c b v values, same))
            | inr other ↦ (w, ground (arith, get-put c b v values, other, h))
          ])
          (rw (read_values, a) at e)
  ]

  read_values-Holds :
      (cs : List Currency) (values : Dict Currency Amount) {end : Dict Currency Amount}
      → IsRead values
      → read_values d user deps values cs ≡ some end
      → IsRead end × All (Holds end) cs
  unfolding read_values
  read_values-Holds [] values h e =
      let same : values ≡ _ = ground (arith, e) in (subst IsRead same h, tt)
  read_values-Holds (c ∷ cs) values h e = elim (Option-cases (deps.asset_value_of user c)) [
    | inl a ↦ absurd (ground (arith, e, a))
    | inr (v, a) ↦
        let rest = rw (read_values, a) at e in
        let (read, held) = read_values-Holds cs (put c v values) (put-IsRead c v values a h) rest in
        (read, (read_values-keeps c cs (put c v values) (v, get-put_self c v values) rest, held))
  ]

  -- What a bucket that is not passed over needs.
  abbrev Rated : Dict Currency Amount → Currency → Type 0
  Rated values c =
      untouched d user deps values c ≡ false → (rate : d.Number) × (deps.fx c ≡ ok rate)

  read_rates-Rated :
      (values : Dict Currency Amount) (cs : List Currency) (rates : Dict Currency d.Number)
      {end : Dict Currency d.Number}
      → read_rates d user deps values rates cs ≡ ok end
      → All (Rated values) cs
  unfolding read_rates
  read_rates-Rated values [] rates e = tt
  read_rates-Rated values (c ∷ cs) rates e = elim (Bool-cases (untouched d user deps values c)) [
    | inl skip ↦
        (λ used. cc (skip, used), read_rates-Rated values cs rates (rw (read_rates, skip) at e))
    | inr used ↦ elim (Result-cases (deps.fx c)) [
      | inl (code, (why, f)) ↦ absurd (ground (arith, e, used, f))
      | inr (rate, f) ↦ (
        λ u. (rate, f),
        read_rates-Rated values cs (put c rate rates) (rw (read_rates, used, f) at e),
      )
    ]
  ]

  -- A bucket with value, or with an event of the depositor, has an exchange rate.
  abbrev pub NeedsRate : Currency → Type 0
  NeedsRate c =
      (v : Amount)
      → deps.asset_value_of user c ≡ some v
      → (is_zero v
          && not
              (any_event (λ ev. in_view user deps.currencies ev && ev.currency == c) deps.events))
        ≡ false
      → (rate : d.Number) × (deps.fx c ≡ ok rate)

  bucket-NeedsRate :
      (values : Dict Currency Amount) (c : Currency)
      → IsRead values
      → Holds values c
      → Rated values c
      → NeedsRate c
  unfolding IsRead
  bucket-NeedsRate values c read (w, held) rated v asked used =
      rated (ground (arith, held, read c w held, asked, used))

  value_read :
      (values : Dict Currency Amount) (rates : Dict Currency d.Number)
      (bases : Dict String CostBasis) (c : Currency)
      → IsRead values
      → Holds values c
      → deps.asset_value_of user c ≡ some (breakdown d user deps rates bases values c).native_value
  unfolding IsRead
  value_read values rates bases c read (w, held) = ground (arith, held, read c w held)

  buckets_read :
      (values : Dict Currency Amount) (rates : Dict Currency d.Number)
      (bases : Dict String CostBasis) (cs : List Currency)
      → IsRead values
      → All (Holds values) cs
      → (map (λ b. b.currency) (map (breakdown d user deps rates bases values) cs) ≡ cs)
        × All
            (λ b. deps.asset_value_of user b.currency ≡ some b.native_value)
            (map (breakdown d user deps rates bases values) cs)
  buckets_read values rates bases [] read h = (refl, tt)
  buckets_read values rates bases (c ∷ cs) read (hc, h) =
      let (names, rest) = buckets_read values rates bases cs read h in
      (ap (λ x. c ∷ x) names, (value_read values rates bases c read hc, rest))

  currencies-NeedsRate :
      (values : Dict Currency Amount) (cs : List Currency)
      → IsRead values
      → All (Holds values) cs
      → All (Rated values) cs
      → All NeedsRate cs
  currencies-NeedsRate values [] read h r = tt
  currencies-NeedsRate values (c ∷ cs) read (hc, h) (rc, r) =
      (bucket-NeedsRate values c read hc rc, currencies-NeedsRate values cs read h r)

  -- Where there is a view: every bucket that holds value or has an event of the depositor has an exchange
  -- rate, so that a missing rate fails the view. The view has a bucket for each currency, in order,
  -- with the value that the vault gives, and the balance and the earnings of the headline are the sums
  -- over these buckets.
  pub get_earnings_totals :
      {view : EarningsView d}
      → get_earnings d user deps ≡ some (ok view)
      → All NeedsRate deps.currencies
        × (map (λ b. b.currency) view.buckets ≡ deps.currencies)
        × All (λ b. deps.asset_value_of user b.currency ≡ some b.native_value) view.buckets
        × (view.balance_usd ≡ total_of d (λ b. b.usd_value) (zero_usd d) view.buckets)
        × (view.earned_usd ≡ total_of d (λ b. b.earned_usd) (zero_usd d) view.buckets)
  unfolding view_of IsRead get
  get_earnings_totals {view} e =
      let c = get_earnings-Composed e in
      let (read, held) = read_values-Holds deps.currencies [] (λ b v f. cc) c.valued in
      let (names, each) = buckets_read c.values c.rates c.bases deps.currencies read held in
      let rated = read_rates-Rated c.values deps.currencies [] c.rated in
      (
        currencies-NeedsRate c.values deps.currencies read held rated,
        ap (λ w. map (λ b. b.currency) w.buckets) c.built ∙ names,
        subst (λ w. All (λ b. deps.asset_value_of user b.currency ≡ some b.native_value) w.buckets)
            (sym c.built) each,
        rw c.built refl,
        rw c.built refl,
      )

  -- The chart of a view samples every time of a snapshot of its currencies and of an event in view with
  -- a time, each once, in ascending order, and where `Math.max` is never below its first argument the
  -- earned line does not fall from one point to the next.
  pub get_earnings_chart :
      {view : EarningsView d}
      → ((a b : d.Number) → d.lt (d.max a b) a ≡ false)
      → get_earnings d user deps ≡ some (ok view)
      → let times = map (λ p. p.ts) view.chart in
        Ascending (λ t. t) times
        × UniqueKeys (λ t. t) times
        × ((t : ℕ)
            → has t times ≡ (
                has t (snapshot_times deps.snapshots deps.currencies)
                || has t (event_times user deps.currencies deps.events)))
        × Chained Rises view.chart
  unfolding view_of
  get_earnings_chart {view} upper e =
      let c = get_earnings-Composed e in
      let (up, once, all) = sample_times_lem deps.snapshots user deps.currencies deps.events in
      let same : map (λ p. p.ts) view.chart ≡ times_of d user deps =
        ap (λ w. map (λ p. p.ts) w.chart) c.built
        ∙ chart_times user deps c.rates (zero_usd d) _ c.charted in
      rw same (
        up,
        once,
        all,
        subst (λ w. Chained Rises w.chart) (sym c.built)
            (chart-Rises user deps c.rates upper (zero_usd d) _ c.charted),
      )
