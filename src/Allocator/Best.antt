-- ===== src/Allocator/Best.antt =====
-- The pool that the allocator of backend/src/mastra/allocator.ts moves a bucket to.
use sorosense.Base.{
  Bool, true, false, Option, none, some, List, [], ◌∷◌, ◌≡◌, ◌≢◌, refl, keep, All, arith,
  Bool-cases, inl, inr, ◌⊎◌, Option-cases, string_key, same_refl,
}
use sorosense.Double.{Doubles, IsStrictOrder}
use sorosense.Seam.{Currency, PoolId}
use sorosense.Sentinel.{exceeds_rebalance_threshold}
use sorosense.Allocator.{
  rebalance, Candidate, ClassifyInput, best_from, best_of, should_rebalance, classify_bucket,
  move_or_stay, differs, clears_gate, source_pool, dwelling, too_costly, stay, named, anomalous,
}
use mathlib.Core.Path.{subst}
use mathlib.Core.List.{Memᴰ}

insert_second {ℓ} : {A : Type ℓ} {r b c : A} {cs : List A} → Memᴰ r (b ∷ cs) → Memᴰ r (b ∷ c ∷ cs)
insert_second (Memᴰ.head e) = Memᴰ.head e
insert_second (Memᴰ.tail m) = Memᴰ.tail (Memᴰ.tail m)

keep_all {ℓ} : {A : Type ℓ} (xs : List A) → keep (λ x. true) xs ≡ xs
keep_all [] = refl
keep_all (x ∷ xs) = rw (keep_all xs)

stay_holds :
    (held : Option PoolId) (accrued : Bool) (c c' : Currency) (from to : PoolId)
    → stay c held accrued ≢ rebalance c' from to
stay_holds none accrued c c' from to h = ground arith
stay_holds (some p) accrued c c' from to h = ground arith

differs_ne : (p : PoolId) (held : Option PoolId) → differs p held ≡ true → held ≢ some p
differs_ne p none h = ground arith
differs_ne p (some q) h = ground (arith, same_refl p)

module _ {d : Doubles} where
  moved :
      (input : ClassifyInput d) (best : Candidate d) {c : Currency} {from to : PoolId}
      → move_or_stay d input (some best) ≡ rebalance c from to
      → (best.pool_id ≡ to)
        × (from ≡ source_pool input.active_pool best.pool_id)
        × (differs best.pool_id input.active_pool ≡ true)
        × (should_rebalance d input best ≡ true)
  moved input best {c} {from} {to} h =
      ground (
        arith,
        h,
        stay_holds (named input.active_pool) input.yield_accrued input.currency c from to,
      )

  decided_to_move :
      (input : ClassifyInput d) {c : Currency} {from to : PoolId}
      → classify_bucket d input ≡ rebalance c from to
      → (input.has_pending_exit ≡ false)
        × (move_or_stay d input (best_of d input.candidates none) ≡ rebalance c from to)
  unfolding classify_bucket
  decided_to_move input h = elim (Option-cases (anomalous input.active_pool input.active_anomaly)) [
    | inl calm ↦ ground arith
    | inr anomaly ↦ ground arith
  ]

  gate :
      (input : ClassifyInput d) (best : Candidate d) (held : PoolId) (current : d.Number)
      → should_rebalance d input best ≡ true
      → input.active_pool ≡ some held
      → input.active_ray ≡ some current
      → clears_gate d input current best ≡ true
  unfolding should_rebalance
  gate input best held current h pool ray = rw (pool, ray) at h

  -- From a pool with a known yield, a move clears every bar.
  pub move-clears_gate :
      (input : ClassifyInput d) {c : Currency} {from to held : PoolId} {current : d.Number}
      → classify_bucket d input ≡ rebalance c from to
      → input.active_pool ≡ some held
      → input.active_ray ≡ some current
      → (best : Candidate d) × (clears_gate d input current best ≡ true)
  move-clears_gate input {c} {from} {to} {held} {current} h pool ray =
      let (no_exit, decided) = decided_to_move input h in
      elim (Option-cases (best_of d input.candidates none)) [
        | inl none_found ↦ absurd (
            stay_holds (named input.active_pool) input.yield_accrued _ _ _ _
              (rw none_found at decided))
        | inr (best, found) ↦
            let (target, source, other, go) = moved input best (rw found at decided) in
            (best, gate input best held current go pool ray)
      ]

module _ {d : Doubles} (order : IsStrictOrder d) where
  -- No candidate of the list has a greater yield.
  abbrev pub IsUpper : Candidate d → List (Candidate d) → Type 0
  IsUpper best cs = All (λ c. d.lt best.ray c.ray ≡ false) cs

  -- `r` is `b`, or has a greater yield.
  abbrev From : Candidate d → Candidate d → Type 0
  From b r = (r ≡ b) ⊎ (d.lt b.ray r.ray ≡ true)

  From-upper :
      (b r c : Candidate d) → From b r → d.lt b.ray c.ray ≡ false → d.lt r.ray c.ray ≡ false
  From-upper b r c (inl e) h = rw e h
  From-upper b r c (inr lt) h = ground (arith, order.transitive b.ray r.ray c.ray)

  From-trans : (a b c : Candidate d) → d.lt a.ray b.ray ≡ true → From b c → From a c
  From-trans a b c h (inl e) = inr (rw e h)
  From-trans a b c h (inr lt) = inr (order.transitive a.ray b.ray c.ray h lt)

  best_from-some :
      (b : Candidate d) (cs : List (Candidate d))
      → (r : Candidate d) × (best_from d (some b) cs ≡ some r)
        × From b r
        × IsUpper r cs
        × Memᴰ r (b ∷ cs)
  unfolding best_from
  best_from-some b [] = (b, refl, inl refl, tt, Memᴰ.head refl)
  best_from-some b (c ∷ cs) = elim (Bool-cases (d.lt b.ray c.ray)) [
    | inl greater ↦
        let (r, e, from, upper, mem) = best_from-some c cs in
        rw greater (
          r,
          e,
          From-trans b c r greater from,
          (From-upper c r c from (order.irreflexive c.ray), upper),
          Memᴰ.tail mem,
        )
    | inr not_greater ↦
        let (r, e, from, upper, mem) = best_from-some b cs in
        rw not_greater (r, e, from, (From-upper b r c from not_greater, upper), insert_second mem)
  ]

  best_of_all :
      (cs : List (Candidate d)) {best : Candidate d}
      → best_of d cs none ≡ some best
      → IsUpper best cs × Memᴰ best cs
  unfolding best_of best_from
  best_of_all [] h = ground arith
  best_of_all (c ∷ cs) {best} h =
      let (r, e, from, upper, mem) = best_from-some c cs in
      let found : best_from d (some c) cs ≡ some best = rw (keep_all cs) at h in
      let same : r ≡ best = ground (arith, e, found) in
      subst (λ b. IsUpper b (c ∷ cs) × Memᴰ b (c ∷ cs)) same
        ((From-upper c r c from (order.irreflexive c.ray), upper), mem)

  -- Where `<` is a strict order on the numbers, a move that the allocator decides on goes to a
  -- candidate such that none has a greater risk-adjusted yield, and not to the pool that holds the
  -- bucket. From a pool with a known yield, that candidate's edge is over the threshold, the
  -- minimum holding period is over, and the switch pays for itself. No exit is pending.
  pub classify_bucket-rebalance :
      (input : ClassifyInput d) {c : Currency} {from to : PoolId}
      → classify_bucket d input ≡ rebalance c from to
      → (input.has_pending_exit ≡ false)
        × (input.active_pool ≢ some to)
        × ((best : Candidate d) × (best.pool_id ≡ to)
            × Memᴰ best input.candidates
            × IsUpper best input.candidates
            × ((held : PoolId) (current : d.Number)
                → input.active_pool ≡ some held
                → input.active_ray ≡ some current
                → (from ≡ held)
                  × (exceeds_rebalance_threshold d current best.ray input.threshold_pct ≡ true)
                  × (dwelling input.min_dwell_ms input.now_ms input.last_rebalance_at_ms ≡ false)
                  × (too_costly d current best.ray input.position_value_usd input.switch_cost_usd
                        input.dwell_horizon_days
                      ≡ false)))
  classify_bucket-rebalance input {c} {from} {to} h =
      let (no_exit, decided) = decided_to_move input h in
      elim (Option-cases (best_of d input.candidates none)) [
        | inl none_found ↦ absurd (
            stay_holds (named input.active_pool) input.yield_accrued _ _ _ _
              (rw none_found at decided))
        | inr (best, found) ↦
            let (upper, mem) = best_of_all input.candidates found in
            let (target, source, other, go) = moved input best (rw found at decided) in
            (
              no_exit,
              rw target at (differs_ne best.pool_id input.active_pool other),
              (
                best,
                target,
                mem,
                upper,
                λ held current pool ray.
                    let open_gate = gate input best held current go pool ray in
                    ground (arith, source, pool, open_gate),
              ),
            )
      ]
