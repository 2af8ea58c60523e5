-- ===== src/Seed.antt =====
-- backend/src/scripts/demo-seed.ts: the plan of the demo seed, its run over the chain and the vault,
-- and its configuration.
pub mod Run
pub mod Proven
pub mod Config
pub mod Chain
mod Tests
use sorosense.Base.{
  String, Bool, true, false, Option, none, some, List, [], ◌∷◌, ◌&&◌, not, if◌then◌else◌,
}
use mathlib.Core.Option
use sorosense.Int.{ℤ, pos, ◌+ℤ◌, ◌-ℤ◌, ltb_ℤ, leb_ℤ}
use sorosense.Seam.{Currency, usd, eur, Address}

pub data SeedCurrency : Type 0 where
  seed_usd seed_eur : SeedCurrency

abbrev pub seed_bucket : SeedCurrency → Currency
seed_bucket seed_usd = usd
seed_bucket seed_eur = eur

pub data SeedStep : Type 0 where
  generate_key fund trustline mint consent deposit : SeedStep

pub record SeedState : Type 0 where
  pub has_secret : Bool
  pub funded : Bool
  pub has_trustline : Bool
  pub asset_balance : ℤ
  pub has_consent : Bool

-- `if (needed) steps.push(step)`
abbrev pub step_if : Bool → SeedStep → List SeedStep → List SeedStep
step_if true step rest = step ∷ rest
step_if false step rest = rest

unfoldable pub plan_steps : SeedState → ℤ → List SeedStep
plan_steps s amount = step_if (not s.has_secret) generate_key (
    step_if (not s.funded) fund (
      step_if (not s.has_trustline) trustline (
        step_if (ltb_ℤ s.asset_balance amount) mint
          (step_if (not s.has_consent) consent (deposit ∷ [])))))

pub record DepositorKey : Type 0 where
  pub secret : String
  pub public_key : Address
  pub generated : Bool

-- What a submitted write of the vault came to.
pub record SeedTx : Type 0 where
  pub hash : String
  pub success : Bool

-- The effects of the run on the state `W` of the network; `none` is a promise that rejects.
pub record SeedChain (W : Type 0) : Type 0 where
  pub is_funded : Address → W → Option Bool × W
  pub fund_account : Address → W → Option Bool × W
  pub has_line : Address → W → Option Bool × W
  pub add_trustline : W → Option String × W
  pub balance_in : Address → W → Option ℤ × W
  pub mint_to : Address → ℤ → W → Option String × W

-- The reads and the two signed writes of the vault client.
pub record SeedVault (W : Type 0) : Type 0 where
  pub consented : Address → W → Option Bool × W
  pub shares_of : Address → Currency → W → Option ℤ × W
  pub value_in : Address → Currency → W → Option ℤ × W
  pub price_of_share : Currency → W → Option ℤ × W
  pub set_policy_consent : Address → W → Option SeedTx × W
  pub deposit_into : Address → Currency → ℤ → W → Option SeedTx × W

-- The steps that submit a transaction have a hash.
pub record SeedHashes : Type 0 where
  pub trustline_hash : Option String
  pub mint_hash : Option String
  pub consent_hash : Option String
  pub deposit_hash : Option String

abbrev pub no_hashes : SeedHashes
no_hashes = record {
  trustline_hash = none;
  mint_hash = none;
  consent_hash = none;
  deposit_hash = none;
}

pub record SeedReport : Type 0 where
  pub public_key : Address
  pub currency : SeedCurrency
  pub amount : ℤ
  pub steps : List SeedStep
  pub hashes : SeedHashes
  pub shares : ℤ
  pub value : ℤ
  pub share_price : ℤ

-- `await`: what follows runs where the promise resolves.
unfoldable pub await {ℓ} :
    {W : Type ℓ} {A B : Type 0} → Option A × W → (A → W → Option B × W) → Option B × W
await (none, w) k = (none, w)
await (some a, w) k = k a w

abbrev pub pure {ℓ} : {W : Type ℓ} {A : Type 0} → A → W → Option A × W
pure a w = (some a, w)

-- `submit`, whose throw is a rejection.
abbrev pub accepted : SeedTx → Option String
accepted tx = if tx.success then some tx.hash else none

abbrev pub submit {ℓ} : {W : Type ℓ} → Option SeedTx × W → Option String × W
submit run = await run (λ tx w. (accepted tx, w))

module _ {W : Type 0} (chain : SeedChain W) (vault : SeedVault W) (key : DepositorKey)
    (currency : SeedCurrency) (amount : ℤ) where
  -- A read that is made only where the one before said yes.
  abbrev pub if_so : {A : Type 0} → Bool → (W → Option A × W) → A → W → Option A × W
  if_so true read default w = read w
  if_so false read default w = (some default, w)

  unfoldable pub read_state : W → Option SeedState × W
  read_state w = await (chain.is_funded key.public_key w) (λ funded w.
      await (if_so funded (chain.has_line key.public_key) false w) (λ trusts w.
        await (if_so trusts (chain.balance_in key.public_key) (pos 0) w) (λ balance w.
          await (if_so funded (vault.consented key.public_key) false w) (λ consents w.
            pure
              (record {
                has_secret = not key.generated;
                funded = funded;
                has_trustline = trusts;
                asset_balance = balance;
                has_consent = consents;
              })
              w))))

  abbrev pub same_amount : ℤ → ℤ → Bool
  same_amount a b = leb_ℤ a b && leb_ℤ b a

  -- The two assertions on the read-back; a failed one is a throw.
  abbrev pub checked : ℤ → ℤ → SeedReport → Option SeedReport
  checked shares_before value_before r =
      if ltb_ℤ shares_before r.shares && same_amount r.value (value_before +ℤ amount)
      then some r
      else none

  unfoldable pub deposit_step : List SeedStep → SeedHashes → W → Option SeedReport × W
  deposit_step steps hashes w =
      let bucket = seed_bucket currency in
      await (vault.shares_of key.public_key bucket w) (λ shares_before w.
        await (vault.value_in key.public_key bucket w) (λ value_before w.
          await (submit (vault.deposit_into key.public_key bucket amount w)) (λ hash w.
            await (vault.shares_of key.public_key bucket w) (λ shares w.
              await (vault.value_in key.public_key bucket w) (λ value w.
                await (vault.price_of_share bucket w) (λ share_price w. (
                  checked shares_before value_before (record {
                    public_key = key.public_key;
                    currency = currency;
                    amount = amount;
                    steps = steps;
                    hashes = record hashes { deposit_hash = some hash };
                    shares = shares;
                    value = value;
                    share_price = share_price;
                  }),
                  w,
                )))))))

  -- The loop over the planned steps; a plan that ends without a deposit is a throw.
  unfoldable pub run_steps :
      SeedState → List SeedStep → List SeedStep → SeedHashes → W → Option SeedReport × W
  run_steps s steps [] hashes w = (none, w)
  run_steps s steps (generate_key ∷ rest) hashes w = run_steps s steps rest hashes w
  run_steps s steps (fund ∷ rest) hashes w =
      await (chain.fund_account key.public_key w) (λ _ w. run_steps s steps rest hashes w)
  run_steps s steps (trustline ∷ rest) hashes w =
      await (chain.add_trustline w)
        (λ hash w. run_steps s steps rest (record hashes { trustline_hash = some hash }) w)
  run_steps s steps (mint ∷ rest) hashes w =
      await (chain.mint_to key.public_key (amount -ℤ s.asset_balance) w)
        (λ hash w. run_steps s steps rest (record hashes { mint_hash = some hash }) w)
  run_steps s steps (consent ∷ rest) hashes w =
      await (submit (vault.set_policy_consent key.public_key w))
        (λ hash w. run_steps s steps rest (record hashes { consent_hash = some hash }) w)
  run_steps s steps (deposit ∷ rest) hashes w = deposit_step steps hashes w

  unfoldable pub run_seed : W → Option SeedReport × W
  run_seed w =
      await (read_state w)
        (λ s w. run_steps s (plan_steps s amount) (plan_steps s amount) no_hashes w)
