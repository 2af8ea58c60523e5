-- ===== src/Allocator/Dwell.antt =====
-- The minimum holding period of backend/src/mastra/allocator.ts, from one tick to a later one.
use sorosense.Base.{
  none, List, [], ◌∷◌, All, ◌∙◌, Option-cases, true, some, ◌≡◌, refl, arith, Bool-cases, ◌+◌, ◌<◌,
  inl, inr, get_or,
}
use sorosense.Int.{ℤ, pos, ◌-ℤ◌, ◌+ℤ◌, pos_part, neg_part, ◌≤ℤ◌, ltb_ℤ, int_laws}
use sorosense.Dict.{get-put_self}
use sorosense.Double.{Doubles}
use sorosense.Seam.{Currency, currency_key, PoolId}
use sorosense.Allocator.{
  Decision, compound, rebalance, freeze_exit, noop, classify_bucket, dwelling,
}
use sorosense.Allocator.Tick.{
  BucketStore, get_active_pool, get_last_rebalance_at, TickContext, Progress, input_of, drive,
  settle, finish, run_allocator_tick, default_min_dwell_ms, dwell_window,
}
use sorosense.Allocator.Best.{move-clears_gate}

ltb_ℤ_of_lt : (a b : ℤ) → pos_part a + neg_part b < pos_part b + neg_part a → ltb_ℤ a b ≡ true
ltb_ℤ_of_lt a b h = ground arith

dwelling_within :
    (window now last : ℤ)
    → pos 1 ≤ℤ window
    → now +ℤ pos 1 ≤ℤ last +ℤ window
    → dwelling (some window) (some now) (some last) ≡ true
unfolding dwelling
dwelling_within window now last positive within =
    let some_window = ltb_ℤ_of_lt (pos 0) window (omega int_laws) in
    let early = ltb_ℤ_of_lt (now -ℤ last) window (omega int_laws) in rw (some_window, early) refl

-- The bucket is in the pool `to` since the time `now`.
abbrev IsPlaced : Currency → PoolId → ℤ → BucketStore → Type 0
IsPlaced c to now s = (get_active_pool s c ≡ some to) × (get_last_rebalance_at s c ≡ some now)

module _ {d : Doubles} where
  finish-some :
      (ctx : TickContext d) (s : BucketStore) (chosen decision : Decision) (p : Progress)
      → (finish d ctx chosen p s).decision ≡ some decision
      → (chosen ≡ decision) × ((finish d ctx chosen p s).store ≡ settle d ctx decision s)
  finish-some ctx s chosen decision p h = elim (Bool-cases p.resolved) [
    | inl resolved ↦ ground (arith, h, resolved)
    | inr rejected ↦ ground (arith, h, rejected)
  ]

  finished :
      (ctx : TickContext d) (s : BucketStore) {decision : Decision}
      → (run_allocator_tick d ctx s).decision ≡ some decision
      → (classify_bucket d (input_of d ctx s) ≡ decision)
        × ((run_allocator_tick d ctx s).store ≡ settle d ctx decision s)
  unfolding run_allocator_tick
  finished ctx s {decision} h =
      let chosen = classify_bucket d (input_of d ctx s) in
      finish-some ctx s chosen decision (drive d ctx chosen) h

  rejected :
      (ctx : TickContext d) (s : BucketStore)
      → (run_allocator_tick d ctx s).decision ≡ none
      → (run_allocator_tick d ctx s).store ≡ s
  unfolding run_allocator_tick
  rejected ctx s h = ground (arith, h)

  -- The bucket is in the pool that a tick moved it to, since the time of its clock.
  moved_to :
      (ctx : TickContext d) (s : BucketStore) (from to : PoolId) (now : ℤ)
      → ctx.clock ≡ some now
      → IsPlaced ctx.currency to now (settle d ctx (rebalance ctx.currency from to) s)
  unfolding settle
  moved_to ctx s from to now clock =
      rw clock (get-put_self ctx.currency to s.active, get-put_self ctx.currency now s.last_move)

  abbrev pub window_of : TickContext d → ℤ
  window_of ctx = get_or ctx.min_dwell_ms default_min_dwell_ms

  -- A tick of the currency that knows the yield of the active pool and has a clock, which says that the
  -- minimum holding period of this tick since `now`, a positive one, is not over.
  pub record IsEarly (c : Currency) (now : ℤ) (later : TickContext d) : Type 0 where
    pub soon : ℤ
    pub current : d.Number
    pub same : later.currency ≡ c
    pub clock : later.clock ≡ some soon
    pub yield_known : later.active_ray ≡ some current
    pub positive : pos 1 ≤ℤ window_of later
    pub within : soon +ℤ pos 1 ≤ℤ now +ℤ window_of later

  early_stays :
      (c : Currency) (to : PoolId) (now : ℤ) (later : TickContext d) (s : BucketStore)
      {c' : Currency} {from' to' : PoolId}
      → IsEarly c now later
      → IsPlaced c to now s
      → ¬ (classify_bucket d (input_of d later s) ≡ rebalance c' from' to')
  early_stays c to now later s early (pool, since) again =
      let pool' : get_active_pool s later.currency ≡ some to = rw early.same pool in
      let since' : get_last_rebalance_at s later.currency ≡ some now = rw early.same since in
      let (best, gate) = move-clears_gate (input_of d later s) again pool' early.yield_known in
      let dwells : dwelling (dwell_window d later) later.clock
            (get_last_rebalance_at s later.currency)
          ≡ true =
        rw (since', early.clock)
          (dwelling_within (window_of later) early.soon now early.positive early.within) in
      ground (arith, gate, dwells)

  settle-IsPlaced :
      (c : Currency) (to : PoolId) (now : ℤ) (later : TickContext d) (s : BucketStore)
      (decision : Decision)
      → ((c' : Currency) (from' to' : PoolId) → ¬ (decision ≡ rebalance c' from' to'))
      → IsPlaced c to now s
      → IsPlaced c to now (settle d later decision s)
  unfolding settle
  settle-IsPlaced c to now later s (compound c' pool) stays placed = placed
  settle-IsPlaced c to now later s (rebalance c' from' to') stays placed =
      absurd (stays c' from' to' refl)
  settle-IsPlaced c to now later s (freeze_exit c' pool to') stays placed = placed
  settle-IsPlaced c to now later s (noop c' reason) stays placed = placed

  tick-IsPlaced :
      (c : Currency) (to : PoolId) (now : ℤ) (later : TickContext d) (s : BucketStore)
      → IsEarly c now later
      → IsPlaced c to now s
      → IsPlaced c to now (run_allocator_tick d later s).store
  tick-IsPlaced c to now later s early placed =
      elim (Option-cases (run_allocator_tick d later s).decision) [
        | inl none_told ↦ rw (rejected later s none_told) placed
        | inr (decision, told) ↦
            let (chosen, store) = finished later s told in
            rw store (
              settle-IsPlaced c to now later s decision
                (λ c' from' to' e. early_stays c to now later s early placed (chosen ∙ e)) placed)
      ]

  -- Ticks one after the other, from a store.
  abbrev pub run_ticks : List (TickContext d) → BucketStore → BucketStore
  run_ticks [] s = s
  run_ticks (ctx ∷ rest) s = run_ticks rest (run_allocator_tick d ctx s).store

  ticks-IsPlaced :
      (c : Currency) (to : PoolId) (now : ℤ) (ticks : List (TickContext d)) (s : BucketStore)
      → All (IsEarly c now) ticks
      → IsPlaced c to now s
      → IsPlaced c to now (run_ticks ticks s)
  ticks-IsPlaced c to now [] s early placed = placed
  ticks-IsPlaced c to now (later ∷ rest) s (first, early) placed =
      ticks-IsPlaced c to now rest (run_allocator_tick d later s).store early
        (tick-IsPlaced c to now later s first placed)

  -- After a tick with a clock has moved the bucket, take any later ticks of the bucket on the store that
  -- it left: each knows the yield of the active pool and comes before its own minimum holding period,
  -- a positive one, since the move is over. None of these ticks moves the bucket, whatever the others
  -- decide and whether or not their effects resolve, and after them the bucket is in the pool that it was
  -- moved to, since the time of the move.
  pub tick_dwells :
      (ctx later : TickContext d) (between : List (TickContext d)) (s : BucketStore)
      {from to : PoolId} {now : ℤ}
      → ctx.clock ≡ some now
      → (run_allocator_tick d ctx s).decision ≡ some (rebalance ctx.currency from to)
      → All (IsEarly ctx.currency now) between
      → IsEarly ctx.currency now later
      → let at = run_ticks between (run_allocator_tick d ctx s).store in
        let next = run_allocator_tick d later at in
        ((c : Currency) (from' to' : PoolId) → ¬ (next.decision ≡ some (rebalance c from' to')))
        × (get_active_pool next.store ctx.currency ≡ some to)
        × (get_last_rebalance_at next.store ctx.currency ≡ some now)
  tick_dwells ctx later between s {from} {to} {now} clock moved early last =
      let (chosen, store) = finished ctx s moved in
      let c = ctx.currency in
      let first : IsPlaced c to now (run_allocator_tick d ctx s).store =
        rw store (moved_to ctx s from to now clock) in
      let at = run_ticks between (run_allocator_tick d ctx s).store in
      let placed = ticks-IsPlaced c to now between _ early first in
      let (pool, since) = tick-IsPlaced c to now later at last placed in
      (
        λ c' from' to' h. early_stays c to now later at last placed (finished later at h).0,
        pool,
        since,
      )
