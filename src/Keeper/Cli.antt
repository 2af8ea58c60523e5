-- ===== src/Keeper/Cli.antt =====
-- backend/src/keeper/cli.ts: one action of the keeper from the command line, and its exit code.
pub mod Inert
use sorosense.Base.{
  ℕ, ◌-◌, Bool, true, false, Option, none, some, List, [], ◌∷◌, map, ◌≡◌, refl, ◌&&◌, leb, nat_beq,
  if◌then◌else◌,
}
use mathlib.Core.Option
use sorosense.Int.{ℤ, pos, leb_ℤ}
use sorosense.Double.{Doubles}
use sorosense.Decimal.{Text, codes, big_int}
use sorosense.Seam.{Currency, usd, eur, mxn, Amount}
use sorosense.Keeper.{
  KeeperRunnerOptions, runner_allocate, runner_freeze, runner_unfreeze, run_tick,
}
use sorosense.Keeper.Cron.{candidates_for, cron_input, default_currencies, run_keeper_cron_once}

pub data Action : Type 0 where
  allocate_action freeze_action unfreeze_action tick_action cron_action : Action

abbrev same_text : Text → Text → Bool
same_text [] [] = true
same_text [] (d ∷ t) = false
same_text (c ∷ s) [] = false
same_text (c ∷ s) (d ∷ t) = nat_beq c d && same_text s t

abbrev pub action_named : Text → Option Action
action_named raw =
    if same_text raw (codes "allocate")
    then some allocate_action
    else if same_text raw (codes "freeze")
    then some freeze_action
    else if same_text raw (codes "unfreeze")
    then some unfreeze_action
    else if same_text raw (codes "tick")
    then some tick_action
    else if same_text raw (codes "cron")
    then some cron_action
    else none

-- `toUpperCase` as far as it gives the letters of a currency: the small letters and the long s.
abbrev pub upper : ℕ → ℕ
upper c = if leb 97 c && leb c 122 then c - 32 else if nat_beq c 383 then 83 else c

-- An argument that is left out is `none`, and so is a throw.
unfoldable pub cli_currency : Option Text → Option Currency
cli_currency none = none
cli_currency (some raw) =
    let text = map upper raw in
    if same_text text (codes "USD")
    then some usd
    else if same_text text (codes "EUR")
    then some eur
    else if same_text text (codes "MXN")
    then some mxn
    else none

abbrev pub positive_value : Option ℤ → Option Amount
positive_value none = none
positive_value (some value) = if leb_ℤ value (pos 0) then none else some value

unfoldable pub cli_amount : Option Text → Option Amount
cli_amount none = none
cli_amount (some raw) = positive_value (big_int raw)

-- A call of the runner: what resolves exits with 0, what throws with 1.
abbrev pub exit_of {ℓ κ} : {A : Type ℓ} {W : Type κ} → Option A × W → ℕ × W
exit_of (none, w) = (1, w)
exit_of (some a, w) = (0, w)

module _ (d : Doubles) {W : Type 0} (options : KeeperRunnerOptions W) where
  abbrev pub cli_allocate : Currency → Option Amount → W → ℕ × W
  cli_allocate c none w = (1, w)
  cli_allocate c (some amount) w = exit_of (runner_allocate options c amount w)

  abbrev pub cli_run : Action → Option Text → Currency → W → ℕ × W
  cli_run allocate_action raw c w = cli_allocate c (cli_amount raw) w
  cli_run freeze_action raw c w = exit_of (runner_freeze options c w)
  cli_run unfreeze_action raw c w = exit_of (runner_unfreeze options c w)
  cli_run tick_action raw c w =
      exit_of (run_tick d options c (cron_input d options (candidates_for d) c) w)
  cli_run cron_action raw c w = (0, w)

  abbrev pub on_currency : Action → Option Currency → Option Text → W → ℕ × W
  on_currency action none raw w = (1, w)
  on_currency action (some c) raw w = cli_run action raw c w

  -- `cron` looks at no further argument, and each bucket that throws is reported as a noop.
  abbrev pub dispatched : Option Action → Option Text → Option Text → W → ℕ × W
  dispatched none currency amount w = (2, w)
  dispatched (some cron_action) currency amount w =
      (0, (run_keeper_cron_once d options (candidates_for d) default_currencies w).1)
  dispatched (some action) currency amount w = on_currency action (cli_currency currency) amount w

  unfoldable pub cli_main : List Text → W → ℕ × W
  cli_main [] w = (2, w)
  cli_main (action ∷ []) w = dispatched (action_named action) none none w
  cli_main (action ∷ currency ∷ []) w = dispatched (action_named action) (some currency) none w
  cli_main (action ∷ currency ∷ amount ∷ rest) w =
      dispatched (action_named action) (some currency) (some amount) w
