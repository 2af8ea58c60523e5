-- ===== src/Snapshots/Tests.antt =====
-- Snapshots of backend/src/earnings/snapshotter.ts, and the theorems at them.
use sorosense.Base.{ℕ, ◌+◌, ◌*◌, ◌/◌, ◌≡◌, refl, none, some, List, [], ◌∷◌, arith}
use mathlib.Core.Option
use sorosense.Int.{pos}
use sorosense.Dict.{get, put}
use sorosense.Sort.{sort_by, insert_by, Ascending, UniqueKeys}
use sorosense.Seam.{usd, eur, mxn}
use sorosense.Snapshots.{
  Snapshot, series, append, Sampling, snapshot_tick, day, day_ms, Calendar, latest_of,
  bucket_series,
}
use sorosense.Snapshots.Recorded.{IsRecorded, snapshot_tick-IsRecorded}
use sorosense.Snapshots.Periods.{price_of_period, newest_in, bucket_series_newest}

-- A calendar of months of 30 days and years of 360.
abbrev calendar : Calendar
calendar = record {
  month_start = λ ts. ts / (30 * day_ms) * (30 * day_ms);
  year_start = λ ts. ts / (360 * day_ms) * (360 * day_ms);
}

abbrev at : ℕ → ℕ → Snapshot
at price ts = record { currency = usd; price = pos price; ts = ts }

-- Two on the first day, of which the later comes first, and one on the second.
abbrev snapshots : List Snapshot
snapshots = at 3 90_000_000 ∷ at 2 500 ∷ at 1 400 ∷ []

by_day :
    bucket_series calendar snapshots day
    ≡ record { bucket_ts = 0; price = pos 2 }
      ∷ record { bucket_ts = 86_400_000; price = pos 3 }
      ∷ []
unfolding bucket_series latest_of get put sort_by insert_by
by_day = refl

bucket_series_newest_example :
    let buckets = bucket_series calendar snapshots day in
    Ascending (λ b. b.bucket_ts) buckets
    × UniqueKeys (λ b. b.bucket_ts) buckets
    × ((k : ℕ)
        → price_of_period k buckets
          ≡ Option.map (λ s. s.price) (newest_in calendar day k snapshots))
bucket_series_newest_example = bucket_series_newest calendar day snapshots

-- A world that counts the reads, of which the one for MXN rejects.
abbrev env : Sampling ℕ
env = record {
  share_price = λ c n. (elim c [ usd ↦ some (pos 7) | eur ↦ some (pos 8) | mxn ↦ none ], 1 + n);
  clock = λ n. 1_000 * n;
}

stops_at_mxn :
    (snapshot_tick env (usd ∷ mxn ∷ eur ∷ []) [] 0).store
    ≡ (usd, record { currency = usd; price = pos 7; ts = 1_000 } ∷ []) ∷ []
unfolding snapshot_tick append series get put
stops_at_mxn = refl

empty-IsRecorded : IsRecorded 0 []
unfolding series get
empty-IsRecorded = record { ascending = λ c. tt; past = λ c. tt }

snapshot_tick-IsRecorded_example :
    let end = snapshot_tick env (usd ∷ mxn ∷ eur ∷ []) [] 0 in
    IsRecorded (env.clock end.world) end.store
snapshot_tick-IsRecorded_example =
    snapshot_tick-IsRecorded env (λ c n. omega arith) (usd ∷ mxn ∷ eur ∷ []) [] 0 empty-IsRecorded
