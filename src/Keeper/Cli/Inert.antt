-- ===== src/Keeper/Cli/Inert.antt =====
-- The command line of the keeper without the integration environment (backend/src/keeper/cli.ts).
use sorosense.Base.{false, Option, none, some, List, [], ◌∷◌, ◌≡◌, refl, ◌∙◌}
use sorosense.Double.{Doubles}
use sorosense.Decimal.{Text}
use sorosense.Seam.{Currency, Amount}
use sorosense.Keeper.{KeeperRunnerOptions, runner_allocate, runner_freeze, runner_unfreeze}
use sorosense.Keeper.Cron.{candidates_for, cron_input, default_currencies}
use sorosense.Keeper.Moves.{tick_mock, run_keeper_cron_once_mock}
use sorosense.Keeper.Cli.{
  Action, allocate_action, freeze_action, unfreeze_action, tick_action, cron_action, action_named,
  cli_currency, cli_amount, exit_of, cli_allocate, cli_run, on_currency, dispatched, cli_main,
}

exit_leaves : {A W : Type 0} (x : Option A × W) → (exit_of x).1 ≡ x.1
exit_leaves (none, w) = refl
exit_leaves (some a, w) = refl

module _ (d : Doubles) {W : Type 0} (options : KeeperRunnerOptions W)
    (mock_mode : options.integration ≡ false) where
  run_inert :
      (action : Action) (raw : Option Text) (c : Currency) (w : W)
      → (cli_run d options action raw c w).1 ≡ w
  unfolding runner_allocate runner_freeze runner_unfreeze
  run_inert allocate_action raw c w = allocate_inert (cli_amount raw)
    where
      allocate_inert : (amount : Option Amount) → (cli_allocate d options c amount w).1 ≡ w
      allocate_inert none = refl
      allocate_inert (some amount) = rw mock_mode refl
  run_inert freeze_action raw c w = rw mock_mode refl
  run_inert unfreeze_action raw c w = rw mock_mode refl
  run_inert tick_action raw c w =
      exit_leaves _ ∙ tick_mock options mock_mode c (cron_input d options (candidates_for d) c) w
  run_inert cron_action raw c w = refl

  currency_inert :
      (action : Action) (c : Option Currency) (raw : Option Text) (w : W)
      → (on_currency d options action c raw w).1 ≡ w
  currency_inert action none raw w = refl
  currency_inert action (some c) raw w = run_inert action raw c w

  dispatched_inert :
      (action : Option Action) (currency amount : Option Text) (w : W)
      → (dispatched d options action currency amount w).1 ≡ w
  dispatched_inert none currency amount w = refl
  dispatched_inert (some cron_action) currency amount w =
      run_keeper_cron_once_mock options mock_mode (candidates_for d) default_currencies w
  dispatched_inert (some allocate_action) currency amount w =
      currency_inert allocate_action (cli_currency currency) amount w
  dispatched_inert (some freeze_action) currency amount w =
      currency_inert freeze_action (cli_currency currency) amount w
  dispatched_inert (some unfreeze_action) currency amount w =
      currency_inert unfreeze_action (cli_currency currency) amount w
  dispatched_inert (some tick_action) currency amount w =
      currency_inert tick_action (cli_currency currency) amount w

  -- Without the integration environment no command line changes the vault, whatever its arguments.
  pub cli_main_inert : (argv : List Text) (w : W) → (cli_main d options argv w).1 ≡ w
  unfolding cli_main
  cli_main_inert [] w = refl
  cli_main_inert (action ∷ []) w = dispatched_inert (action_named action) none none w
  cli_main_inert (action ∷ currency ∷ []) w =
      dispatched_inert (action_named action) (some currency) none w
  cli_main_inert (action ∷ currency ∷ amount ∷ rest) w =
      dispatched_inert (action_named action) (some currency) (some amount) w
