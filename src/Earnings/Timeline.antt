-- ===== src/Earnings/Timeline.antt =====
-- The prices and the samples behind the chart of backend/src/api/earnings.ts.
use sorosense.Base.{
  ℕ, ◌≤◌, ◌≡◌, ◌≢◌, refl, sym, ap, ◌∙◌, Bool, false, some, List, [], ◌∷◌, ◌++◌, ◌||◌, map, keep,
  leb, All, ne_of_same, arith, Bool-cases, Option-cases, inl, inr, number_key, ◌==◌,
}
use mathlib.Core.Path.{subst}
use sorosense.Dict.{Dict, has, add, has-add}
use sorosense.Sort.{
  sort_by, insert_by, Ascending, sort_by-Ascending, UniqueKeys, sort_by-UniqueKeys,
}
use sorosense.Double.{Doubles}
use sorosense.Seam.{Currency, Address, PriceRay, share_price_scale}
use sorosense.CostBasis.{VaultEvent}
use sorosense.Snapshots.{Snapshot, SnapshotStore, series}
use sorosense.Snapshots.Recorded.{IsRecorded}
use sorosense.Earnings.{
  scan_prices, price_at, members, sample_times, snapshot_times, event_times, EarningsDeps,
  ChartPoint, chart_from, state_at,
}

-- The price of the last snapshot of a list.
abbrev pub last_price : PriceRay → List Snapshot → PriceRay
last_price price [] = price
last_price price (s ∷ ss) = last_price s.price ss

abbrev pub is_past : ℕ → Snapshot → Bool
is_past t s = leb s.ts t

none_past :
    (t : ℕ) (s : Snapshot) (ss : List Snapshot)
    → All (λ x. s.ts ≤ x.ts) ss
    → leb s.ts t ≡ false
    → keep (is_past t) ss ≡ []
none_past t s [] h late = refl
none_past t s (x ∷ ss) (hx, h) late = let rest = none_past t s ss h late in ground (arith, rest)

scan_prices-eq :
    (t : ℕ) (price : PriceRay) (ss : List Snapshot)
    → Ascending (λ s. s.ts) ss
    → scan_prices t price ss ≡ last_price price (keep (is_past t) ss)
scan_prices-eq t price [] h = refl
scan_prices-eq t price (s ∷ ss) (hs, h) = elim (Bool-cases (leb s.ts t)) [
  | inl past ↦ rw past (scan_prices-eq t s.price ss h)
  | inr late ↦ rw late (ap (last_price price) (sym (none_past t s ss hs late)))
]

-- In a store that ticks have filled, the price at a time is that of the last snapshot up to then, and
-- the base price if there is none: the loop misses nothing where it stops early.
pub price_at_last :
    {now : ℕ} (snapshots : SnapshotStore) (c : Currency) (t : ℕ)
    → IsRecorded now snapshots
    → price_at snapshots c t ≡ last_price share_price_scale (keep (is_past t) (series c snapshots))
unfolding price_at
price_at_last snapshots c t h =
    scan_prices-eq t share_price_scale (series c snapshots) (h.ascending c)

has-append : (t : ℕ) (xs ys : List ℕ) → has t (xs ++ ys) ≡ (has t xs || has t ys)
unfolding has
has-append t [] ys = refl
has-append t (x ∷ xs) ys = ground (arith, has-append t xs ys)

has-members : (t : ℕ) (xs : List ℕ) → has t (members xs) ≡ has t xs
unfolding has
has-members t [] = refl
has-members t (x ∷ xs) = has-add x t (members xs) ∙ ap (λ r. x == t || r) (has-members t xs)

has-insert_by : (t x : ℕ) (xs : List ℕ) → has t (insert_by (λ t. t) x xs) ≡ (x == t || has t xs)
unfolding has insert_by
has-insert_by t x [] = refl
has-insert_by t x (y ∷ ys) = ground (arith, has-insert_by t x ys)

has-sort_by : (t : ℕ) (xs : List ℕ) → has t (sort_by (λ t. t) xs) ≡ has t xs
unfolding has sort_by
has-sort_by t [] = refl
has-sort_by t (x ∷ xs) =
    has-insert_by t x (sort_by (λ t. t) xs) ∙ ap (λ r. x == t || r) (has-sort_by t xs)

add-All : (P : ℕ → Type 0) (x : ℕ) (xs : List ℕ) → P x → All P xs → All P (add x xs)
unfolding add
add-All P x [] p h = (p, tt)
add-All P x (y ∷ ys) p (hy, h) = elim (Bool-cases (y == x)) [
  | inl same ↦ rw same (hy, h)
  | inr other ↦ rw other (hy, add-All P x ys p h)
]

add-UniqueKeys : (x : ℕ) (xs : List ℕ) → UniqueKeys (λ t. t) xs → UniqueKeys (λ t. t) (add x xs)
unfolding add
add-UniqueKeys x [] h = (tt, tt)
add-UniqueKeys x (y ∷ ys) (hy, h) = elim (Bool-cases (y == x)) [
  | inl same ↦ rw same (hy, h)
  | inr other ↦
      rw other (add-All (λ z. y ≢ z) x ys (ne_of_same y x other) hy, add-UniqueKeys x ys h)
]

members-UniqueKeys : (xs : List ℕ) → UniqueKeys (λ t. t) (members xs)
members-UniqueKeys [] = tt
members-UniqueKeys (x ∷ xs) = add-UniqueKeys x (members xs) (members-UniqueKeys xs)

-- The samples ascend, none comes twice, and they are the times of the snapshots and of the events in view.
pub sample_times_lem :
    (snapshots : SnapshotStore) (user : Address) (currencies : List Currency)
    (events : List VaultEvent)
    → let times = sample_times snapshots user currencies events in
      Ascending (λ t. t) times
      × UniqueKeys (λ t. t) times
      × ((t : ℕ)
          → has t times ≡ (
              has t (snapshot_times snapshots currencies)
              || has t (event_times user currencies events)))
unfolding sample_times
sample_times_lem snapshots user currencies events =
    let shots = snapshot_times snapshots currencies in
    let moves = event_times user currencies events in
    (
      sort_by-Ascending (λ t. t) (members (shots ++ moves)),
      sort_by-UniqueKeys (λ t. t) _ (members-UniqueKeys (shots ++ moves)),
      λ t.
          has-sort_by t (members (shots ++ moves))
          ∙ has-members t (shots ++ moves)
          ∙ has-append t shots moves,
    )

-- Neighbours stand in a relation.
abbrev pub Chained {ℓ} : {A : Type ℓ} → (A → A → Type 0) → List A → Type 0
Chained R [] = Unit
Chained R (x ∷ []) = Unit
Chained R (x ∷ y ∷ xs) = R x y × Chained R (y ∷ xs)

-- The earned line does not fall.
abbrev pub Rises : {d : Doubles} → ChartPoint d → ChartPoint d → Type 0
Rises {d} p q = d.lt q.earned_usd p.earned_usd ≡ false

module _ {d : Doubles} (user : Address) (deps : EarningsDeps d)
    (rates : Dict Currency d.Number) where
  chart_from-cons :
      (floor : d.Number) (t : ℕ) (ts : List ℕ) {points : List (ChartPoint d)}
      → chart_from d user deps rates floor (t ∷ ts) ≡ some points
      → (p : ChartPoint d) × ((rest : List (ChartPoint d)) × ((points ≡ p ∷ rest)
            × ((p.ts ≡ t)
                × ((e : d.Number) × ((p.earned_usd ≡ d.max floor e)
                      × (chart_from d user deps rates p.earned_usd ts ≡ some rest))))))
  unfolding chart_from
  chart_from-cons floor t ts {points} h = elim (Option-cases (state_at d user deps rates t)) [
    | inl s ↦ absurd (ground (arith, h, s))
    | inr (st, s) ↦
        let top = d.max floor st.earned_usd in
        elim (Option-cases (chart_from d user deps rates top ts)) [
          | inl r ↦ absurd (ground (arith, h, s, r))
          | inr (rest, r) ↦
              let p : ChartPoint d = record {
                ts = t;
                value_usd = st.value_usd;
                earned_usd = top;
              } in
              (p, (rest, (ground (arith, h, s, r), (refl, (st.earned_usd, (refl, r))))))
        ]
  ]

  pub chart_times :
      (floor : d.Number) (ts : List ℕ) {points : List (ChartPoint d)}
      → chart_from d user deps rates floor ts ≡ some points
      → map (λ p. p.ts) points ≡ ts
  unfolding chart_from
  chart_times floor [] {points} h =
      let done : [] ≡ points = ground (arith, h) in ap (map (λ p. p.ts)) (sym done)
  chart_times floor (t ∷ ts) h =
      let (p, (rest, (shape, (at, (e, (top, r)))))) = chart_from-cons floor t ts h in
      ap (map (λ p. p.ts)) shape
      ∙ ap (λ u. u ∷ map (λ p. p.ts) rest) at
      ∙ ap (λ us. t ∷ us) (chart_times p.earned_usd ts r)

  pub chart-Rises :
      ((a b : d.Number) → d.lt (d.max a b) a ≡ false)
      → (floor : d.Number) (ts : List ℕ) {points : List (ChartPoint d)}
      → chart_from d user deps rates floor ts ≡ some points
      → Chained Rises points
  unfolding chart_from
  chart-Rises upper floor [] {points} h =
      let done : [] ≡ points = ground (arith, h) in subst (Chained Rises) done tt
  chart-Rises upper floor (t ∷ []) {points} h =
      let (p, (rest, (shape, (at, (e, (top, r)))))) = chart_from-cons floor t [] h in
      let done : [] ≡ rest = ground (arith, r) in
      subst (Chained Rises) (ap (λ q. p ∷ q) done ∙ sym shape) tt
  chart-Rises upper floor (t ∷ u ∷ ts) {points} h =
      let (p, (rest, (shape, (at, (e, (top, r)))))) = chart_from-cons floor t (u ∷ ts) h in
      let (q, (more, (shape', (at', (e', (top', r')))))) = chart_from-cons p.earned_usd u ts r in
      subst (Chained Rises) (ap (λ x. p ∷ x) (sym shape') ∙ sym shape) (
        rw top' (upper p.earned_usd e'),
        subst (Chained Rises) shape' (chart-Rises upper p.earned_usd (u ∷ ts) r),
      )
