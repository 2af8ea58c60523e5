-- ===== src/Sentinel/Freeze/Protective.antt =====
-- What `freezePool` of backend/src/sentinel/freeze.ts comes to over a vault whose freeze is protective.
use sorosense.Base.{
  ℕ, zero, suc, true, false, some, [], ◌∷◌, ◌≡◌, ◌≢◌, refl, ◌⊎◌, inl, inr, arith, Option-cases,
  Bool-cases, sym,
}
use mathlib.Core.Path.{subst}
use sorosense.Int.{pos, pos_part, ◌+ℤ◌}
use sorosense.Seam.{PoolId, frozen, SignerRole, keeper, role_beq, Signer, TxResult}
use sorosense.Sentinel.Freeze.{
  Attempt, returned, threw, FreezeSeam, FreezeError, unknown_error, submit_reported, caught,
  not_the_keeper, FreezeOutcome, now_frozen, already_frozen, failed, FreezeDeps, FreezeRun, LoopEnd,
  retries, freeze_loop, conclude, try_to_freeze, freeze_pool,
}

-- What the path relies on: no attempt moves funds, and one that reports success leaves the pool
-- frozen. `Same` says that two states hold the same funds.
pub record IsProtective {W E : Type 0} (seam : FreezeSeam W E) (Same : W → W → Type 0)
    : Type 0 where
  pub same_refl : (w : W) → Same w w
  pub same_trans : (u v w : W) → Same u v → Same v w → Same u w
  pub freeze_same : (pool : PoolId) (s : Signer) (w : W) → Same w (seam.freeze pool s w).1
  pub freeze_marks :
      (pool : PoolId) (s : Signer) (w : W) (res : TxResult)
      → (seam.freeze pool s w).0 ≡ returned res
      → res.success ≡ true
      → seam.pool_status (seam.freeze pool s w).1 pool ≡ some frozen

role_ne : (r : SignerRole) → role_beq r keeper ≡ false → r ≢ keeper
role_ne r h = ground arith

role_eq : (r : SignerRole) → role_beq r keeper ≡ true → r ≡ keeper
role_eq r h = ground arith

module _ {W E : Type 0} (seam : FreezeSeam W E) {Same : W → W → Type 0}
    (laws : IsProtective seam Same) where
  Attempt-cases :
      (a : Attempt E)
      → ((res : TxResult) × (a ≡ returned res) × (res.success ≡ true))
        ⊎ ((res : TxResult) × (a ≡ returned res) × (res.success ≡ false))
        ⊎ ((e : E) × (a ≡ threw e))
  Attempt-cases (returned res) = elim (Bool-cases res.success) [
    | inl done ↦ inl (res, refl, done)
    | inr fails ↦ inr (inl (res, refl, fails))
  ]
  Attempt-cases (threw e) = inr (inr (e, refl))

  round_done :
      (tries : ℕ) (pool : PoolId) (s : Signer) (last : FreezeError E) (w : W) {res : TxResult}
      → (seam.freeze pool s w).0 ≡ returned res
      → res.success ≡ true
      → freeze_loop seam (suc tries) pool s last w
        ≡ record { hash = some res.hash; last_err = last; world = (seam.freeze pool s w).1 }
  unfolding freeze_loop
  round_done tries pool s last w e done = ground (arith, e, done)

  round_reported :
      (tries : ℕ) (pool : PoolId) (s : Signer) (last : FreezeError E) (w : W) {res : TxResult}
      → (seam.freeze pool s w).0 ≡ returned res
      → res.success ≡ false
      → freeze_loop seam (suc tries) pool s last w
        ≡ freeze_loop seam tries pool s (submit_reported res.hash) (seam.freeze pool s w).1
  unfolding freeze_loop
  round_reported tries pool s last w e fails = ground (arith, e, fails)

  round_threw :
      (tries : ℕ) (pool : PoolId) (s : Signer) (last : FreezeError E) (w : W) {x : E}
      → (seam.freeze pool s w).0 ≡ threw x
      → freeze_loop seam (suc tries) pool s last w
        ≡ freeze_loop seam tries pool s (caught x) (seam.freeze pool s w).1
  unfolding freeze_loop
  round_threw tries pool s last w e = ground (arith, e)

  -- The funds after the loop are those before it, and a hash means that the pool is frozen.
  abbrev Ends : PoolId → W → LoopEnd W E → Type 0
  Ends pool w end =
      Same w end.world
      × ((hash : ℕ) → end.hash ≡ some hash → seam.pool_status end.world pool ≡ some frozen)

  later-Ends :
      (pool : PoolId) (s : Signer) (w : W) (end : LoopEnd W E)
      → Ends pool (seam.freeze pool s w).1 end
      → Ends pool w end
  later-Ends pool s w end (same, marks) =
      (laws.same_trans w (seam.freeze pool s w).1 end.world (laws.freeze_same pool s w) same, marks)

  loop_protective :
      (tries : ℕ) (pool : PoolId) (s : Signer) (last : FreezeError E) (w : W)
      → Ends pool w (freeze_loop seam tries pool s last w)
  unfolding freeze_loop
  loop_protective zero pool s last w = (laws.same_refl w, λ hash h. ground arith)
  loop_protective (suc tries) pool s last w =
      let w' = (seam.freeze pool s w).1 in
      elim (Attempt-cases (seam.freeze pool s w).0) [
        | inl (res, e, done) ↦
            subst (Ends pool w) (sym (round_done tries pool s last w e done))
              (laws.freeze_same pool s w, λ hash h. laws.freeze_marks pool s w res e done)
        | inr (inl (res, e, fails)) ↦
            subst (Ends pool w) (sym (round_reported tries pool s last w e fails)) (
              later-Ends pool s w (freeze_loop seam tries pool s (submit_reported res.hash) w')
                (loop_protective tries pool s (submit_reported res.hash) w'))
        | inr (inr (x, e)) ↦ subst (Ends pool w) (sym (round_threw tries pool s last w e)) (
            later-Ends pool s w (freeze_loop seam tries pool s (caught x) w')
              (loop_protective tries pool s (caught x) w'))
      ]

  -- What a run promises, by its outcome.
  abbrev pub Promised : PoolId → FreezeDeps → W → FreezeRun W E → FreezeOutcome E → Type 0
  Promised pool deps w run (now_frozen p hash) =
      (p ≡ pool) × (seam.pool_status run.world pool ≡ some frozen) × (run.alerts ≡ [])
  Promised pool deps w run (already_frozen p) =
      (p ≡ pool) × (seam.pool_status w pool ≡ some frozen) × (run.world ≡ w) × (run.alerts ≡ [])
  Promised pool deps w run (failed p e) =
      (p ≡ pool)
      × (((deps.keeper.role ≢ keeper) × (run.world ≡ w) × (run.alerts ≡ []))
          ⊎ ((deps.keeper.role ≡ keeper)
              × (run.alerts
                  ≡ record { pool = pool; attempts = retries deps +ℤ pos 1; last_err = e } ∷ [])))

  conclude-Promised :
      (pool : PoolId) (deps : FreezeDeps) (w : W) (end : LoopEnd W E)
      → deps.keeper.role ≡ keeper
      → Same w end.world
      → ((hash : ℕ) → end.hash ≡ some hash → seam.pool_status end.world pool ≡ some frozen)
      → let run = conclude seam pool (retries deps +ℤ pos 1) end in
        Same w run.world × Promised pool deps w run run.outcome
  conclude-Promised pool deps w end role same marks = elim (Option-cases end.hash) [
    | inl none_found ↦ rw none_found (same, (refl, inr (role, refl)))
    | inr (hash, found) ↦ rw found (same, (refl, marks hash found, refl))
  ]

  -- The ways in which a run comes about.
  freeze_pool_ways :
      (pool : PoolId) (deps : FreezeDeps) (w : W) {run : FreezeRun W E}
      → freeze_pool seam pool deps w ≡ some run
      → ((role_beq deps.keeper.role keeper ≡ false)
          × (record { outcome = failed pool not_the_keeper; alerts = []; world = w } ≡ run))
        ⊎ ((seam.pool_status w pool ≡ some frozen)
            × (record { outcome = already_frozen pool; alerts = []; world = w } ≡ run))
        ⊎ ((role_beq deps.keeper.role keeper ≡ true) × (try_to_freeze seam pool deps w ≡ run))
  unfolding freeze_pool
  freeze_pool_ways pool deps w {run} h = ground (arith, h)

  -- A freeze never moves funds, whatever the signer and however the attempts end. If it says that
  -- the pool is frozen, or that it was, it is, and there is no alert; if it says that it failed, then
  -- either the signer is not the keeper and nothing was touched, or there is exactly one alert, with
  -- the number of attempts and the last error.
  pub freeze_pool_protective :
      (pool : PoolId) (deps : FreezeDeps) (w : W) {run : FreezeRun W E}
      → freeze_pool seam pool deps w ≡ some run
      → Same w run.world × Promised pool deps w run run.outcome
  freeze_pool_protective pool deps w {run} h =
      let P : FreezeRun W E → Type 0 = λ r. Same w r.world × Promised pool deps w r r.outcome in
      elim (freeze_pool_ways pool deps w h) [
        | inl (other, e) ↦
            subst P e (laws.same_refl w, (refl, inl (role_ne deps.keeper.role other, refl, refl)))
        | inr (inl (status, e)) ↦ subst P e (laws.same_refl w, (refl, status, refl, refl))
        | inr (inr (is_keeper, e)) ↦
            let tries = pos_part (retries deps +ℤ pos 1) in
            let (same, marks) = loop_protective tries pool deps.keeper unknown_error w in
            subst P e (
              conclude-Promised pool deps w
                (freeze_loop seam tries pool deps.keeper unknown_error w)
                (role_eq deps.keeper.role is_keeper) same marks)
      ]
