-- ===== src/Seed/Tests.antt =====
-- The demo seed of backend/src/scripts/demo-seed.ts over a network with one account.
use sorosense.Base.{
  ◌≡◌, refl, String, Bool, true, false, Option, some, [], ◌∷◌, if◌then◌else◌, ◌==◌, string_key,
}
use mathlib.Core.Option
use sorosense.Int.{ℤ, pos, ◌+ℤ◌, ◌-ℤ◌}
use sorosense.Seed.{
  seed_usd, SeedState, generate_key, fund, trustline, mint, consent, deposit, plan_steps,
  DepositorKey, SeedChain, SeedVault, SeedReport, await, read_state, deposit_step, run_steps,
  run_seed,
}
use sorosense.Seed.Run.{journey, run_seed-journey}
use sorosense.Seed.Proven.{IsProven, run_seed-IsProven}
use sorosense.Seed.Config.{
  SeedConfig, IsResolved, then_, resolve_seed_config, resolve_seed_config-IsResolved,
}
use Prim.Native.String.{◌++◌}

-- One account, worth its shares.
record Net : Type 0 where
  funded : Bool
  trusts : Bool
  consents : Bool
  balance : ℤ
  shares : ℤ

abbrev chain : SeedChain Net
chain = record {
  is_funded = λ a w. (some w.funded, w);
  fund_account = λ a w. (some true, record w { funded = true });
  has_line = λ a w. (some w.trusts, w);
  add_trustline = λ w. (some "trust", record w { trusts = true });
  balance_in = λ a w. (some w.balance, w);
  mint_to = λ a n w. (some "mint", record w { balance = w.balance +ℤ n });
}

abbrev bank : SeedVault Net
bank = record {
  consented = λ a w. (some w.consents, w);
  shares_of = λ a c w. (some w.shares, w);
  value_in = λ a c w. (some w.shares, w);
  price_of_share = λ c w. (some (pos 1), w);
  set_policy_consent =
      λ a w. (some (record { hash = "consent"; success = true }), record w { consents = true });
  deposit_into = λ a c n w.
      if w.consents
      then (
        some (record { hash = "deposit"; success = true }),
        record w { shares = w.shares +ℤ n; balance = w.balance -ℤ n },
      )
      else (some (record { hash = "refused"; success = false }), w);
}

abbrev key : DepositorKey
key = record { secret = "S"; public_key = "G"; generated = true }

-- Nothing is there, and then all is but the deposit.
abbrev empty : Net
empty = record { funded = false; trusts = false; consents = false; balance = pos 0; shares = pos 0 }

abbrev after_run : Net
after_run = record {
  funded = true;
  trusts = true;
  consents = true;
  balance = pos 0;
  shares = pos 7;
}

abbrev report : SeedReport
report = record {
  public_key = "G";
  currency = seed_usd;
  amount = pos 7;
  steps = generate_key ∷ fund ∷ trustline ∷ mint ∷ consent ∷ deposit ∷ [];
  hashes = record {
    trustline_hash = some "trust";
    mint_hash = some "mint";
    consent_hash = some "consent";
    deposit_hash = some "deposit";
  };
  shares = pos 7;
  value = pos 7;
  share_price = pos 1;
}

first_run : run_seed chain bank key seed_usd (pos 7) empty ≡ (some report, after_run)
unfolding run_seed run_steps read_state plan_steps deposit_step await ◌+ℤ◌ ◌-ℤ◌
first_run = refl

run_seed-journey_example :
    run_seed chain bank key seed_usd (pos 7) empty ≡ journey chain bank key seed_usd (pos 7) empty
run_seed-journey_example = run_seed-journey chain bank key seed_usd (pos 7) empty

run_seed-IsProven_example :
    (s : SeedState) × ((w : Net) × ((read_state chain bank key seed_usd (pos 7) empty ≡ (some s, w))
        × (report.steps ≡ plan_steps s (pos 7))
        × (report.amount ≡ pos 7)
        × IsProven chain bank key seed_usd (pos 7) report after_run))
run_seed-IsProven_example =
    run_seed-IsProven chain bank key seed_usd (pos 7) empty report after_run first_run

-- A second run deposits and does nothing else.
second_run :
    Option.map
      (λ (r : SeedReport). r.steps)
      (run_seed chain bank
        (record key { generated = false })
        seed_usd
        (pos 7)
        (record after_run { balance = pos 9 })).0
    ≡ some (deposit ∷ [])
unfolding run_seed run_steps read_state plan_steps deposit_step await ◌+ℤ◌ ◌-ℤ◌
second_run = refl

abbrev env : String → Option String
env name = if name == "STELLAR_NETWORK_PASSPHRASE" then some "test" else some (name ++ "!")

abbrev config : SeedConfig
config = record {
  contract_id = "VAULT_CONTRACT_ID!";
  rpc_url = "STELLAR_RPC_URL!";
  horizon_url = "STELLAR_HORIZON_URL!";
  network_passphrase = "test";
  faucet_issuer_secret = "FAUCET_ISSUER_SECRET!";
  currency = seed_usd;
  asset_code = "USDC";
  asset_issuer = "USDC_ISSUER!";
  sac = "USDC_SAC!";
}

abbrev contract_of : String → String → String → String
contract_of code issuer passphrase = code ++ "_SAC!"

resolve_seed_config-IsResolved_example : IsResolved "test" contract_of env seed_usd config
unfolding resolve_seed_config then_
resolve_seed_config-IsResolved_example =
    resolve_seed_config-IsResolved "test" contract_of env seed_usd config refl
