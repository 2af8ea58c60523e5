-- ===== src/Snapshots/Recorded.antt =====
-- What the ticks of backend/src/earnings/snapshotter.ts leave in the store.
use sorosense.Base.{
  ℕ, ◌≤◌, ◌≡◌, refl, List, [], ◌∷◌, ◌++◌, All, All-weaken, arith, if◌then◌else◌, ◌==◌, Bool-cases,
  Option-cases, inl, inr,
}
use sorosense.Dict.{get-put}
use sorosense.Sort.{Ascending}
use sorosense.Seam.{Currency, currency_key}
use sorosense.Lists.{All-append}
use sorosense.Snapshots.{Snapshot, SnapshotStore, series, append, Sampling, snapshot_tick}

-- Every series is ascending in time, up to the time `now`.
pub record IsRecorded (now : ℕ) (store : SnapshotStore) : Type 0 where
  pub ascending : (c : Currency) → Ascending (λ s. s.ts) (series c store)
  pub past : (c : Currency) → All (λ s. s.ts ≤ now) (series c store)

series-append :
    (s : Snapshot) (c : Currency) (store : SnapshotStore)
    → series c (append s store)
      ≡ (if s.currency == c then series s.currency store ++ (s ∷ []) else series c store)
unfolding series append
series-append s c store = elim (Bool-cases (s.currency == c)) [
  | inl same ↦ rw (get-put, same) refl
  | inr other ↦ rw (get-put, other) refl
]

snoc-Ascending :
    (s : Snapshot) (xs : List Snapshot)
    → Ascending (λ s. s.ts) xs
    → All (λ x. x.ts ≤ s.ts) xs
    → Ascending (λ s. s.ts) (xs ++ (s ∷ []))
snoc-Ascending s [] h p = (tt, tt)
snoc-Ascending s (x ∷ xs) (hx, h) (px, p) =
    (All-append _ xs (s ∷ []) hx (px, tt), snoc-Ascending s xs h p)

later-IsRecorded :
    {now now' : ℕ} {store : SnapshotStore}
    → now ≤ now'
    → IsRecorded now store
    → IsRecorded now' store
later-IsRecorded {store} le h = record {
  ascending = h.ascending;
  past = λ c. All-weaken (λ s p. omega (arith, le, p)) (series c store) (h.past c);
}

append-IsRecorded :
    {now : ℕ} {store : SnapshotStore} (s : Snapshot)
    → IsRecorded now store
    → now ≤ s.ts
    → IsRecorded s.ts (append s store)
append-IsRecorded {now} {store} s h le = record {
  ascending = λ c. elim (Bool-cases (s.currency == c)) [
    | inl same ↦
        rw (series-append s c store, same)
          (snoc-Ascending s (series s.currency store) (h.ascending s.currency) (older s.currency))
    | inr other ↦ rw (series-append s c store, other) (h.ascending c)
  ];
  past = λ c. elim (Bool-cases (s.currency == c)) [
    | inl same ↦
        rw (series-append s c store, same)
          (All-append _ (series s.currency store) (s ∷ []) (older s.currency) (omega arith, tt))
    | inr other ↦ rw (series-append s c store, other) (older c)
  ];
}
  where
    older : (c : Currency) → All (λ x. x.ts ≤ s.ts) (series c store)
    older c = All-weaken (λ x p. omega (arith, le, p)) (series c store) (h.past c)

module _ {W : Type 0} (env : Sampling W) where
  -- A tick under a clock that no read turns back keeps every series ascending and in the past of the
  -- clock, also where a read rejects it after some currencies were recorded.
  pub snapshot_tick-IsRecorded :
      ((c : Currency) (w : W) → env.clock w ≤ env.clock (env.share_price c w).1)
      → (cs : List Currency) (store : SnapshotStore) (w : W) → IsRecorded (env.clock w) store
      → let end = snapshot_tick env cs store w in IsRecorded (env.clock end.world) end.store
  unfolding snapshot_tick
  snapshot_tick-IsRecorded forward [] store w h = h
  snapshot_tick-IsRecorded forward (c ∷ cs) store w h =
      elim (Option-cases (env.share_price c w).0) [
        | inl e ↦ rw (snapshot_tick, e) (later-IsRecorded (forward c w) h)
        | inr (price, e) ↦
            let w' = (env.share_price c w).1 in
            let s : Snapshot = record { currency = c; price = price; ts = env.clock w' } in
            rw (snapshot_tick, e)
              (snapshot_tick-IsRecorded forward cs (append s store) w'
                (append-IsRecorded s h (forward c w)))
      ]
