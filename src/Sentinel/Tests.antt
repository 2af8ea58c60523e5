-- ===== src/Sentinel/Tests.antt =====
-- Runs of backend/src/sentinel and the theorems at concrete pools and vaults.
use sorosense.Base.{◌≡◌, ◌≢◌, ◌↔◌, refl, none, some, true, false, [], ◌∷◌, arith, ◌&&◌, string_key}
use sorosense.Int.{pos, ◌+ℤ◌, ◌-ℤ◌, ◌*ℤ◌, ◌/ℤ◌}
use sorosense.Dict.{has, add}
use sorosense.Double.Fixed.{fixed}
use sorosense.Seam.{keeper, Signer}
use sorosense.Vault.State.{Vault, fresh, pool_status}
use sorosense.Vault.Operations.{VaultError, freeze}
use sorosense.Vault.Submit.{prepare, call, sign_and_submit, effect_of, role_of}
use sorosense.Sentinel.{
  PoolSignalInput, default_thresholds, liquidity_signal, oracle_deviation_signal, composite,
  score_pool,
}
use sorosense.Sentinel.Safety.{
  IsComparison, IsLow, Reads, liquidity_of, oracle_of, score_pool_safe, score_pool_fails_closed,
}
use sorosense.Sentinel.Freeze.{FreezeDeps, FreezeRun, now_frozen, freeze_loop, freeze_pool}
use sorosense.Sentinel.Freeze.Protective.{Promised, freeze_pool_protective}
use sorosense.Sentinel.Freeze.Mock.{freeze_and_submit, mock_seam, SameFunds, mock_seam-IsProtective}

-- A pool with ample liquidity and a steady oracle, and one whose oracle read failed.
abbrev calm : PoolSignalInput fixed
calm = record {
  pool_id = "blend";
  liquidity_usd = some (pos 10_000_000);
  position_usd = pos 100_000;
  oracle_twap = some (pos 10_000);
  oracle_spot = some (pos 10_000);
}

abbrev unread : PoolSignalInput fixed
unread = record calm { oracle_spot = none }

calm_is_safe : (score_pool fixed calm (default_thresholds fixed)).safe ≡ true
unfolding score_pool liquidity_signal oracle_deviation_signal composite ◌+ℤ◌ ◌-ℤ◌ ◌*ℤ◌ ◌/ℤ◌
calm_is_safe = refl

fixed-IsComparison : IsComparison fixed
fixed-IsComparison = record {
  total = λ x y is_x is_y h. ground (arith, h);
  exclusive = λ x y h. ground (arith, h);
  unordered = λ x y nan. absurd (cc nan);
  ceiling_is_number = refl;
}

score_pool_safe_example :
    let t = default_thresholds fixed in
    let a = score_pool fixed calm t in
    (a.safe ≡ true) ↔ (
      (r : Reads fixed calm) × (((liquidity_of fixed calm r t).tripped
          && (oracle_of fixed calm r t).tripped)
        ≡ false)
      × (a.score ≡ composite fixed (liquidity_of fixed calm r t) (oracle_of fixed calm r t))
      × IsLow fixed a.score)
score_pool_safe_example = score_pool_safe fixed-IsComparison calm (default_thresholds fixed)

unread-Reads : ¬ Reads fixed unread
unread-Reads r = absurd (ground (arith, r.spot_read))

score_pool_fails_closed_case :
    let a = score_pool fixed unread (default_thresholds fixed) in
    (a.safe ≡ false) × (a.anomaly ≡ true) × (a.score ≡ fixed.decimal 100 0) × (a.reasons ≢ [])
score_pool_fails_closed_case =
    score_pool_fails_closed unread (default_thresholds fixed) unread-Reads

abbrev guardian : Signer
guardian = record { role = keeper; address = "keeper"; sign = λ xdr. some "keeper" }

abbrev deps : FreezeDeps
deps = record { keeper = guardian; max_retries = none }

abbrev frozen_run : FreezeRun Vault VaultError
frozen_run = record {
  outcome = now_frozen "blend" 1;
  alerts = [];
  world = record fresh { frozen_pools = "blend" ∷ []; seq = 1 };
}

freezes : freeze_pool mock_seam "blend" deps fresh ≡ some frozen_run
unfolding freeze_pool freeze_loop freeze_and_submit prepare call sign_and_submit effect_of role_of
    freeze pool_status has add ◌+ℤ◌
freezes = refl

freeze_pool_protective_example :
    SameFunds fresh frozen_run.world
    × Promised mock_seam mock_seam-IsProtective "blend" deps fresh frozen_run frozen_run.outcome
freeze_pool_protective_example =
    freeze_pool_protective mock_seam mock_seam-IsProtective "blend" deps fresh freezes
