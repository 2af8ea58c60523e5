-- ===== src/Keeper/Tests.antt =====
-- The keeper of backend/src/keeper over the in-memory vault, and the theorems at concrete buckets.
use sorosense.Base.{ℕ, ◌≡◌, refl, true, false, Option, none, some, List, [], ◌∷◌, string_key}
use sorosense.Int.{pos, ◌+ℤ◌, ◌-ℤ◌}
use sorosense.Dict.{put, has, get}
use sorosense.Double.Fixed.{fixed}
use sorosense.Seam.{Currency, usd, currency_key, keeper, Signer, TxResult}
use sorosense.Vault.State.{Vault, fresh, active_pool, pending_exit}
use sorosense.Vault.Operations.{Result, ok, err, allocate, deallocate}
use sorosense.Vault.Submit.{call, prepare, role_of, effect_of, sign_and_submit}
use sorosense.Allocator.{
  Candidate, best_of, best_from, rebalance, classify_bucket, should_rebalance,
}
use sorosense.Allocator.Tick.{run_allocator_tick, drive, settle}
use sorosense.Keeper.{
  VaultClient, KeeperRunnerOptions, run_tick, run_calls, effect, seeded, guarded, amount_to_move,
}
use sorosense.Keeper.Cron.{
  default_currencies, cron_input, run_keeper_cron_once, candidates_for, keeper_pass,
  start_keeper_cron,
}
use sorosense.Decimal.{codes}
use sorosense.Keeper.Cli.{cli_main, cli_currency}
use sorosense.Keeper.Cli.Inert.{cli_main_inert}
use sorosense.Keeper.Moves.{run_keeper_cron_once_mock}

abbrev guardian : Signer
guardian = record { role = keeper; address = "keeper"; sign = λ xdr. some "keeper" }

abbrev receipt_of : Result TxResult → Option TxResult
receipt_of (ok res) = some res
receipt_of (err e) = none

abbrev mock_client : VaultClient Vault
mock_client = record {
  submit = λ write s.
      let (tx, s') = call write s in
      let (res, after) = sign_and_submit tx guardian s' in (receipt_of res, after);
  active_pool = λ s c. some (active_pool s c);
  pending_exit = λ s c. some (pending_exit s c);
}

abbrev options : KeeperRunnerOptions Vault
options = record {
  client = mock_client;
  integration = true;
  pool_for = λ c. none;
  move_amount = some (λ c pool. some (pos 10));
  clock = pos 0;
}

-- The bucket is in "slow", and "fast" offers a hundredth of a basis point more.
abbrev allocated : Vault
allocated = record fresh { active_pools = (usd, "slow") ∷ []; holdings = (usd, pos 10) ∷ [] }

abbrev candidates : Currency → List (Candidate fixed)
candidates c =
    record { pool_id = "slow"; ray = pos 50_000 }
    ∷ record { pool_id = "fast"; ray = pos 50_001 }
    ∷ []

mock_pass :
    (run_keeper_cron_once fixed
      (record options { integration = false })
      candidates
      default_currencies
      allocated).1
    ≡ allocated
mock_pass =
    run_keeper_cron_once_mock (record options { integration = false }) refl candidates
      default_currencies allocated

-- Once a day over both buckets, and nothing moves in mock mode.
abbrev schedule : ℕ → (Vault → Vault) → ℕ × Vault
schedule interval_ms handler = (interval_ms, handler allocated)

started :
    let (interval_ms, end) =
      start_keeper_cron fixed
        (record options { integration = false })
        (record { currencies = none; interval_ms = none })
        schedule in
    (interval_ms ≡ 86_400_000) × (end ≡ allocated)
unfolding start_keeper_cron keeper_pass
started = (
  refl,
  run_keeper_cron_once_mock (record options { integration = false }) refl (candidates_for fixed)
      default_currencies allocated,
)

cli_main_inert_example :
    (cli_main fixed
      (record options { integration = false })
      (codes "freeze" ∷ codes "usd" ∷ [])
      allocated).1
    ≡ allocated
cli_main_inert_example =
    cli_main_inert fixed (record options { integration = false }) refl
      (codes "freeze" ∷ codes "usd" ∷ []) allocated

-- An action that is not known, and one without its currency.
exit_codes :
    ((cli_main fixed options (codes "fly" ∷ []) allocated).0 ≡ 2)
    × ((cli_main fixed options (codes "freeze" ∷ []) allocated).0 ≡ 1)
unfolding cli_main cli_currency
exit_codes = (refl, refl)

moved :
    let run = run_tick fixed options usd (cron_input fixed options candidates usd) allocated in
    (run.0 ≡ some (rebalance usd "slow" "fast")) × (active_pool run.1 usd ≡ some "fast")
unfolding best_of best_from get put has active_pool pending_exit run_tick run_allocator_tick drive
    settle run_calls effect classify_bucket should_rebalance seeded guarded amount_to_move call
    prepare role_of effect_of sign_and_submit allocate deallocate ◌+ℤ◌ ◌-ℤ◌
moved = (refl, refl)
