-- ===== src/Snapshots.antt =====
-- backend/src/earnings/snapshotter.ts: the share prices recorded per currency, and the calendar buckets
-- of a series.
pub mod Recorded
pub mod Periods
mod Tests
use sorosense.Base.{
  ℕ, ◌*◌, ◌/◌, Bool, true, false, Option, none, some, List, [], ◌∷◌, ◌++◌, map, get_or, ltb, not,
  number_key, if◌then◌else◌,
}
use sorosense.Dict.{Dict, get, put}
use sorosense.Sort.{sort_by}
use sorosense.Seam.{Currency, currency_key, PriceRay}

-- Times are milliseconds since the epoch.
pub record Snapshot : Type 0 where
  pub currency : Currency
  pub price : PriceRay
  pub ts : ℕ

-- The field of `InMemorySnapshotStore`.
abbrev pub SnapshotStore : Type 0
SnapshotStore = Dict Currency (List Snapshot)

unfoldable pub series : Currency → SnapshotStore → List Snapshot
series c store = get_or (get c store) []

unfoldable pub append : Snapshot → SnapshotStore → SnapshotStore
append s store = put s.currency (series s.currency store ++ (s ∷ [])) store

-- The price source and the clock, over a world that a read may change. `none` is a read that rejects.
pub record Sampling (W : Type 0) : Type 0 where
  pub share_price : Currency → W → Option PriceRay × W
  pub clock : W → ℕ

-- How a tick ends: the store, the world, and whether a read rejected it.
pub record Ticked (W : Type 0) : Type 0 where
  pub store : SnapshotStore
  pub world : W
  pub rejected : Bool

module _ {W : Type 0} (env : Sampling W) where
  unfoldable pub snapshot_tick : List Currency → SnapshotStore → W → Ticked W
  snapshot_tick [] store w = record { store = store; world = w; rejected = false }
  snapshot_tick (c ∷ cs) store w =
      let w' = (env.share_price c w).1 in
      elim (env.share_price c w).0 [
        | none ↦ record { store = store; world = w'; rejected = true }
        | some price ↦
            let s : Snapshot = record { currency = c; price = price; ts = env.clock w' } in
            snapshot_tick cs (append s store) w'
      ]

pub data Granularity : Type 0 where
  day week month year : Granularity

pub record Bucket : Type 0 where
  pub bucket_ts : ℕ
  pub price : PriceRay

abbrev pub day_ms : ℕ
day_ms = 86_400_000

abbrev pub week_ms : ℕ
week_ms = 7 * day_ms

-- The first instants of the UTC month and year of a time, which JavaScript's `Date` computes.
pub record Calendar : Type 0 where
  pub month_start : ℕ → ℕ
  pub year_start : ℕ → ℕ

abbrev pub bucket_of : ℕ × Snapshot → Bucket
bucket_of (start, s) = record { bucket_ts = start; price = s.price }

module _ (calendar : Calendar) where
  abbrev pub bucket_start : Granularity → ℕ → ℕ
  bucket_start day ts = ts / day_ms * day_ms
  bucket_start week ts = ts / week_ms * week_ms
  bucket_start month ts = calendar.month_start ts
  bucket_start year ts = calendar.year_start ts

  -- One round of the loop of `bucketSeries`, and the loop.
  abbrev pub hold : Granularity → Snapshot → Dict ℕ Snapshot → Dict ℕ Snapshot
  hold g s latest =
      let key = bucket_start g s.ts in
      elim (get key latest) [
        | none ↦ put key s latest
        | some held ↦ if ltb s.ts held.ts then latest else put key s latest
      ]

  unfoldable pub latest_of : Granularity → List Snapshot → Dict ℕ Snapshot → Dict ℕ Snapshot
  latest_of g [] latest = latest
  latest_of g (s ∷ ss) latest = latest_of g ss (hold g s latest)

  unfoldable pub bucket_series : List Snapshot → Granularity → List Bucket
  bucket_series snapshots g = map bucket_of (sort_by (λ entry. entry.0) (latest_of g snapshots []))
