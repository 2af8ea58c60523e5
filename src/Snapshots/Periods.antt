-- ===== src/Snapshots/Periods.antt =====
-- The buckets of backend/src/earnings/snapshotter.ts against a direct search for the newest snapshot of
-- each period.
use sorosense.Base.{
  ℕ, ◌≡◌, ◌≢◌, refl, ap, ◌∙◌, Option, none, some, List, [], ◌∷◌, map, All, arith, if◌then◌else◌,
  ◌==◌, Bool-cases, Option-cases, inl, inr, ltb, number_key, ne_of_same,
}
use mathlib.Core.Option
use sorosense.Int.{ℤ}
use sorosense.Dict.{Dict, get, put, get-put}
use sorosense.Sort.{
  sort_by, insert_by, sort_by-All, sort_by-UniqueKeys, Ascending, sort_by-Ascending, UniqueKeys,
  map-Ascending, map-All,
}
use sorosense.Snapshots.{
  Snapshot, Granularity, Bucket, bucket_of, Calendar, bucket_start, hold, latest_of, bucket_series,
}

-- The price of the bucket with a given start.
unfoldable pub price_of_period : ℕ → List Bucket → Option ℤ
price_of_period k [] = none
price_of_period k (b ∷ bs) = if b.bucket_ts == k then some b.price else price_of_period k bs

put-All :
    (P : ℕ → Type 0) (k : ℕ) (s : Snapshot) (d : Dict ℕ Snapshot)
    → P k
    → All (λ entry. P entry.0) d
    → All (λ entry. P entry.0) (put k s d)
unfolding put
put-All P k s [] p h = (p, tt)
put-All P k s ((j, t) ∷ d) p (hj, h) = elim (Bool-cases (j == k)) [
  | inl same ↦ rw same (hj, h)
  | inr other ↦ rw other (hj, put-All P k s d p h)
]

put-UniqueKeys :
    (k : ℕ) (s : Snapshot) (d : Dict ℕ Snapshot)
    → UniqueKeys (λ entry. entry.0) d
    → UniqueKeys (λ entry. entry.0) (put k s d)
unfolding put
put-UniqueKeys k s [] h = (tt, tt)
put-UniqueKeys k s ((j, t) ∷ d) (hj, h) = elim (Bool-cases (j == k)) [
  | inl same ↦ rw same (hj, h)
  | inr other ↦
      rw other (put-All (λ i. j ≢ i) k s d (ne_of_same j k other) hj, put-UniqueKeys k s d h)
]

get-insert_by :
    (k : ℕ) (x : ℕ × Snapshot) (d : Dict ℕ Snapshot)
    → All (λ entry. x.0 ≢ entry.0) d
    → get k (insert_by (λ entry. entry.0) x d) ≡ (if x.0 == k then some x.1 else get k d)
unfolding get insert_by
get-insert_by k x [] h = refl
get-insert_by k x (y ∷ d) (hy, h) = ground (arith, hy, get-insert_by k x d h)

get-sort_by :
    (k : ℕ) (d : Dict ℕ Snapshot)
    → UniqueKeys (λ entry. entry.0) d
    → get k (sort_by (λ entry. entry.0) d) ≡ get k d
unfolding get sort_by
get-sort_by k [] h = refl
get-sort_by k (x ∷ d) (hx, h) =
    get-insert_by k x (sort_by (λ entry. entry.0) d)
      (sort_by-All (λ entry. entry.0) (λ entry. x.0 ≢ entry.0) d hx)
    ∙ ap (λ rest. if x.0 == k then some x.1 else rest) (get-sort_by k d h)

price_of_period-get :
    (k : ℕ) (d : Dict ℕ Snapshot)
    → price_of_period k (map bucket_of d) ≡ Option.map (λ s. s.price) (get k d)
unfolding price_of_period get
price_of_period-get k [] = refl
price_of_period-get k ((j, s) ∷ d) = elim (Bool-cases (j == k)) [
  | inl same ↦ rw same refl
  | inr other ↦ rw other (price_of_period-get k d)
]

map-UniqueKeys :
    (d : Dict ℕ Snapshot)
    → UniqueKeys (λ entry. entry.0) d
    → UniqueKeys (λ b. b.bucket_ts) (map bucket_of d)
map-UniqueKeys [] h = tt
map-UniqueKeys (x ∷ d) (hx, h) =
    (map-All bucket_of (λ b. x.0 ≢ b.bucket_ts) d hx, map-UniqueKeys d h)

module _ (calendar : Calendar) (g : Granularity) where
  -- The snapshot of the period `k` with the greatest time, of equals the last in the series.
  unfoldable pub newest_in : ℕ → List Snapshot → Option Snapshot
  newest_in k [] = none
  newest_in k (s ∷ ss) =
      let rest = newest_in k ss in
      if bucket_start calendar g s.ts == k
      then elim rest [ none ↦ some s | some t ↦ if ltb t.ts s.ts then some s else some t ]
      else rest

  -- What is held, against what a search of the rest finds.
  abbrev against : Option Snapshot → Option Snapshot → Option Snapshot
  against none found = found
  against (some held) none = some held
  against (some held) (some s) = if ltb s.ts held.ts then some held else some s

  latest_of-UniqueKeys :
      (ss : List Snapshot) (d : Dict ℕ Snapshot)
      → UniqueKeys (λ entry. entry.0) d
      → UniqueKeys (λ entry. entry.0) (latest_of calendar g ss d)
  unfolding latest_of
  latest_of-UniqueKeys [] d h = h
  latest_of-UniqueKeys (s ∷ ss) d h =
      latest_of-UniqueKeys ss (hold calendar g s d)
        (elim (Option-cases (get (bucket_start calendar g s.ts) d)) [
          | inl e ↦ rw (hold, e) (put-UniqueKeys (bucket_start calendar g s.ts) s d h)
          | inr (t, e) ↦ elim (Bool-cases (ltb s.ts t.ts)) [
            | inl older ↦ rw (hold, e, older) h
            | inr newer ↦ rw (hold, e, newer) (put-UniqueKeys (bucket_start calendar g s.ts) s d h)
          ]
        ])

  get-hold :
      (k : ℕ) (s : Snapshot) (d : Dict ℕ Snapshot)
      → get k (hold calendar g s d)
        ≡ (if bucket_start calendar g s.ts == k then against (get k d) (some s) else get k d)
  get-hold k s d = ground (arith, get-put (bucket_start calendar g s.ts) k s d)

  get-latest_of :
      (k : ℕ) (ss : List Snapshot) (d : Dict ℕ Snapshot)
      → get k (latest_of calendar g ss d) ≡ against (get k d) (newest_in k ss)
  unfolding latest_of newest_in
  get-latest_of k [] d = ground arith
  get-latest_of k (s ∷ ss) d =
      get-latest_of k ss (hold calendar g s d) ∙ ground (arith, get-hold k s d)

  -- For every series, in any order, and every granularity: the buckets ascend by their starts, no two
  -- share a start, and for every start they give the price of the newest snapshot whose period has that
  -- start, and no bucket if there is none.
  pub bucket_series_newest :
      (snapshots : List Snapshot)
      → let buckets = bucket_series calendar snapshots g in
        Ascending (λ b. b.bucket_ts) buckets
        × UniqueKeys (λ b. b.bucket_ts) buckets
        × ((k : ℕ) → price_of_period k buckets ≡ Option.map (λ s. s.price) (newest_in k snapshots))
  unfolding bucket_series newest_in get
  bucket_series_newest snapshots =
      let latest = latest_of calendar g snapshots [] in
      let unique = latest_of-UniqueKeys snapshots [] tt in
      (
        map-Ascending bucket_of (λ b. b.bucket_ts) _ (sort_by-Ascending (λ entry. entry.0) latest),
        map-UniqueKeys _ (sort_by-UniqueKeys (λ entry. entry.0) latest unique),
        λ k.
            price_of_period-get k (sort_by (λ entry. entry.0) latest)
            ∙ ap (Option.map (λ s. s.price))
                (get-sort_by k latest unique ∙ get-latest_of k snapshots []),
      )
