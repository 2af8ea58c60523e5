-- ===== src/Allocator/Anomaly.antt =====
-- An anomaly on the pool that holds a bucket, in backend/src/mastra/allocator.ts: one freeze-exit,
-- then nothing until the depositor has approved.
use sorosense.Base.{
  true, false, Option, none, some, List, [], ◌∷◌, ◌∙◌, ◌≡◌, ◌≢◌, refl, All, arith, Bool-cases, inl,
  inr, Option-cases, string_key, same_refl,
}
use sorosense.Dict.{has-add}
use sorosense.Double.{Doubles}
use sorosense.Seam.{currency_key, PoolId}
use sorosense.Lists.{keep-All_of}
use sorosense.Allocator.{
  freeze_exit, noop, awaiting_exit_approval, named, differs, Candidate, best_from, best_of,
  classify_bucket,
}
use sorosense.Allocator.Tick.{
  BucketStore, get_active_pool, has_pending_exit, EffectCall, freeze_exit_call, TickContext,
  input_of, drive, settle, finish, run_allocator_tick, perform,
}
use mathlib.Core.Option

module _ {d : Doubles} where
  best_from-All :
      (P : Candidate d → Type 0) (b : Candidate d) (cs : List (Candidate d)) {r : Candidate d}
      → P b
      → All P cs
      → best_from d (some b) cs ≡ some r
      → P r
  unfolding best_from
  best_from-All P b [] {r} hb h e = let same : b ≡ r = ground arith in rw same at hb
  best_from-All P b (c ∷ cs) {r} hb (hc, h) e = elim (Bool-cases (d.lt b.ray c.ray)) [
    | inl greater ↦ best_from-All P c cs hc h (rw greater at e)
    | inr not_greater ↦ best_from-All P b cs hb h (rw not_greater at e)
  ]

  best_of-All :
      (P : Candidate d → Type 0) (cs : List (Candidate d)) {r : Candidate d}
      → All P cs
      → best_from d none cs ≡ some r
      → P r
  unfolding best_from
  best_of-All P [] {r} h e = ground arith
  best_of-All P (c ∷ cs) {r} (hc, h) e = best_from-All P c cs hc h e

  -- The pool that a bucket leaves is not the one that it is to go to.
  exit_elsewhere :
      (cs : List (Candidate d)) (held : PoolId)
      → Option.map (λ c. c.pool_id) (best_of d cs (some held)) ≢ some held
  unfolding best_of
  exit_elsewhere cs held h =
      let other = keep-All_of _ (λ c. differs c.pool_id (some held)) cs (λ c e. e) in
      elim (Option-cases (best_of d cs (some held))) [
        | inl none_found ↦ ground arith
        | inr (best, found) ↦
            let ne = best_of-All (λ c. differs c.pool_id (some held) ≡ true) _ other found in
            ground (arith, h, found, ne, same_refl held)
      ]

  -- While an exit of the bucket is pending, a tick calls no effect and changes nothing.
  pub tick_waits :
      (ctx : TickContext d) (s : BucketStore)
      → has_pending_exit s ctx.currency ≡ true
      → run_allocator_tick d ctx s ≡ record {
        calls = [];
        store = s;
        decision = some (noop ctx.currency awaiting_exit_approval);
      }
  unfolding run_allocator_tick classify_bucket drive settle
  tick_waits ctx s pending = rw pending refl

  abbrev pub exit_target : TickContext d → PoolId → Option PoolId
  exit_target ctx held = Option.map (λ c. c.pool_id) (best_of d ctx.candidates (some held))

  anomaly_decision :
      (ctx : TickContext d) (s : BucketStore) (held : PoolId)
      → has_pending_exit s ctx.currency ≡ false
      → named (get_active_pool s ctx.currency) ≡ some held
      → ctx.active_anomaly ≡ true
      → classify_bucket d (input_of d ctx s) ≡ freeze_exit ctx.currency held (exit_target ctx held)
  unfolding classify_bucket
  anomaly_decision ctx s held pending pool flagged = rw (pending, flagged, pool) refl

  abbrev pub exit_call : TickContext d → PoolId → EffectCall
  exit_call ctx held = freeze_exit_call ctx.currency held (exit_target ctx held)

  exit_run :
      (ctx : TickContext d) (s : BucketStore) (held : PoolId)
      → has_pending_exit s ctx.currency ≡ false
      → named (get_active_pool s ctx.currency) ≡ some held
      → ctx.active_anomaly ≡ true
      → run_allocator_tick d ctx s
        ≡ finish d ctx
            (freeze_exit ctx.currency held (exit_target ctx held))
            (perform ctx.effects (exit_call ctx held) [])
            s
  unfolding run_allocator_tick drive
  exit_run ctx s held pending pool flagged =
      rw (anomaly_decision ctx s held pending pool flagged) refl

  -- An anomaly on the pool that holds the bucket, with no exit pending, makes the tick call the
  -- freeze-exit once and no other effect. The exit leads to another pool or to none, and the bucket's
  -- active pool stays what it was. If the call resolves, no later tick of the bucket calls any effect
  -- while that store stands; if it rejects, the tick rejects and the store is as before.
  pub tick_anomaly :
      (ctx : TickContext d) (s : BucketStore) (held : PoolId)
      → has_pending_exit s ctx.currency ≡ false
      → named (get_active_pool s ctx.currency) ≡ some held
      → ctx.active_anomaly ≡ true
      → let run = run_allocator_tick d ctx s in
        (run.calls ≡ exit_call ctx held ∷ [])
        × (exit_target ctx held ≢ some held)
        × (get_active_pool run.store ctx.currency ≡ get_active_pool s ctx.currency)
        × (ctx.effects [] (exit_call ctx held) ≡ true
            → (later : TickContext d) → later.currency ≡ ctx.currency
            → run_allocator_tick d later run.store ≡ record {
              calls = [];
              store = run.store;
              decision = some (noop later.currency awaiting_exit_approval);
            })
        × (ctx.effects [] (exit_call ctx held) ≡ false → (run.store ≡ s) × (run.decision ≡ none))
  unfolding settle
  tick_anomaly ctx s held pending pool flagged =
      rw (exit_run ctx s held pending pool flagged)
        (elim (Bool-cases (ctx.effects [] (exit_call ctx held))) [
          | inl resolved ↦ rw resolved (
            refl,
            exit_elsewhere ctx.candidates held,
            refl,
            λ e later same. tick_waits later _ (
                rw same
                  (has-add ctx.currency ctx.currency s.pending ∙ rw (same_refl ctx.currency) refl)),
            λ e. ground arith,
          )
          | inr rejected ↦
              rw rejected (
                refl,
                exit_elsewhere ctx.candidates held,
                refl,
                λ e. ground arith,
                λ e. (refl, refl),
              )
        ])
