-- ===== src/Sentinel/Freeze.antt =====
-- backend/src/sentinel/freeze.ts: the keeper freezes a pool, with retries, over the part of the
-- vault's surface that it calls.
pub mod Protective
pub mod Mock
use sorosense.Base.{
  ℕ, zero, suc, Bool, true, false, Option, none, some, List, [], ◌∷◌, if◌then◌else◌, not, get_or,
}
use sorosense.Int.{ℤ, pos, pos_part, ◌+ℤ◌}
use sorosense.Seam.{
  PoolId, PoolStatus, active, frozen, SignerRole, keeper, role_beq, Signer, TxResult,
}

-- What `freeze(pool)` and then `signAndSubmit` come to: a receipt, or a throw.
pub data Attempt (E : Type 0) : Type 0 where
  returned : TxResult → Attempt E
  threw : E → Attempt E

-- The calls that the path makes, on the state `W` behind the vault client. A status read that
-- rejects is `none`.
pub record FreezeSeam (W E : Type 0) : Type 0 where
  pub pool_status : W → PoolId → Option PoolStatus
  pub freeze : PoolId → Signer → W → Attempt E × W

-- The texts of `error`, by what they say.
pub data FreezeError (E : Type 0) : Type 0 where
  not_the_keeper unknown_error : FreezeError E
  submit_reported : ℕ → FreezeError E
  caught : E → FreezeError E

pub data FreezeOutcome (E : Type 0) : Type 0 where
  now_frozen : PoolId → ℕ → FreezeOutcome E
  already_frozen : PoolId → FreezeOutcome E
  failed : PoolId → FreezeError E → FreezeOutcome E

-- `freeze(${pool}) failed after ${attempts} attempts: ${lastErr}`
pub record Alert (E : Type 0) : Type 0 where
  pub pool : PoolId
  pub attempts : ℤ
  pub last_err : FreezeError E

pub record FreezeDeps : Type 0 where
  pub keeper : Signer
  pub max_retries : Option ℤ

pub record FreezeRun (W E : Type 0) : Type 0 where
  pub outcome : FreezeOutcome E
  pub alerts : List (Alert E)
  pub world : W

-- Where the retry loop ends: with the hash of a success, or without one.
pub record LoopEnd (W E : Type 0) : Type 0 where
  pub hash : Option ℕ
  pub last_err : FreezeError E
  pub world : W

abbrev pub retries : FreezeDeps → ℤ
retries deps = get_or deps.max_retries (pos 2)

module _ {W E : Type 0} (seam : FreezeSeam W E) where
  -- The loop with `tries` rounds to go.
  unfoldable pub freeze_loop : ℕ → PoolId → Signer → FreezeError E → W → LoopEnd W E
  freeze_loop zero pool signer last w = record { hash = none; last_err = last; world = w }
  freeze_loop (suc tries) pool signer last w =
      let w' = (seam.freeze pool signer w).1 in
      elim (seam.freeze pool signer w).0 [
        | returned res ↦ elim res.success [
          | true ↦ record { hash = some res.hash; last_err = last; world = w' }
          | false ↦ freeze_loop tries pool signer (submit_reported res.hash) w'
        ]
        | threw e ↦ freeze_loop tries pool signer (caught e) w'
      ]

  -- What follows the loop.
  abbrev pub conclude : PoolId → ℤ → LoopEnd W E → FreezeRun W E
  conclude pool attempts end = elim end.hash [
    | some hash ↦ record { outcome = now_frozen pool hash; alerts = []; world = end.world }
    | none ↦ record {
      outcome = failed pool end.last_err;
      alerts = record { pool = pool; attempts = attempts; last_err = end.last_err } ∷ [];
      world = end.world;
    }
  ]

  abbrev pub try_to_freeze : PoolId → FreezeDeps → W → FreezeRun W E
  try_to_freeze pool deps w =
      let attempts = retries deps +ℤ pos 1 in
      conclude pool attempts (freeze_loop (pos_part attempts) pool deps.keeper unknown_error w)

  -- `none` where the status read rejects.
  unfoldable pub freeze_pool : PoolId → FreezeDeps → W → Option (FreezeRun W E)
  freeze_pool pool deps w =
      if not (role_beq deps.keeper.role keeper)
      then some (record { outcome = failed pool not_the_keeper; alerts = []; world = w })
      else elim (seam.pool_status w pool) [
        | none ↦ none
        | some frozen ↦ some (record { outcome = already_frozen pool; alerts = []; world = w })
        | some active ↦ some (try_to_freeze pool deps w)
      ]
