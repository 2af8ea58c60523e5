-- ===== src/Seed/Config.antt =====
-- backend/src/scripts/demo-seed.ts, what a run is configured with: the environment, checked before any
-- call of the network, and the key of the depositor.
use sorosense.Base.{
  String, true, false, Bool-cases, Option, none, some, ◌≡◌, refl, get_or, inl, inr, ap, sym, ◌∙◌,
  ◌==◌, not, if◌then◌else◌, string_key,
}
use mathlib.Core.Option
use Prim.Native.String.{◌++◌}
use sorosense.Real.{truthy}
use sorosense.Seed.{SeedCurrency, seed_usd, seed_eur, DepositorKey}

abbrev pub asset_code_of : SeedCurrency → String
asset_code_of seed_usd = "USDC"
asset_code_of seed_eur = "EURC"

abbrev pub sac_var : SeedCurrency → String
sac_var seed_usd = "USDC_SAC"
sac_var seed_eur = "EURC_SAC"

abbrev pub issuer_var : SeedCurrency → String
issuer_var seed_usd = "USDC_ISSUER"
issuer_var seed_eur = "EURC_ISSUER"

abbrev pub default_usdc_issuer : String
default_usdc_issuer = "GDOWW3KRITEDQPL6UHB2NKT35UXY2HKXVYGWI47XZROI2KLBBTEWUL3T"

abbrev pub Env : Type 0
Env = String → Option String

-- `require_`; a missing or empty variable is a throw.
abbrev pub require_ : Env → String → Option String
require_ env name = truthy (env name)

abbrev default_issuer : SeedCurrency → Option String
default_issuer seed_usd = some default_usdc_issuer
default_issuer seed_eur = none

abbrev set_or : Option String → Option String → Option String
set_or none fallback = fallback
set_or (some value) fallback = some value

abbrev pub asset_issuer_of : Env → SeedCurrency → Option String
asset_issuer_of env c = truthy (set_or (env (issuer_var c)) (default_issuer c))

pub record SeedConfig : Type 0 where
  pub contract_id : String
  pub rpc_url : String
  pub horizon_url : String
  pub network_passphrase : String
  pub faucet_issuer_secret : String
  pub currency : SeedCurrency
  pub asset_code : String
  pub asset_issuer : String
  pub sac : String

-- What follows a check that may throw.
unfoldable pub then_ {ℓ κ} : {A : Type ℓ} {B : Type κ} → Option A → (A → Option B) → Option B
then_ none k = none
then_ (some a) k = k a

then_-some :
    {A B : Type 0} (o : Option A) (k : A → Option B) {b : B}
    → then_ o k ≡ some b
    → (a : A) × ((o ≡ some a) × (k a ≡ some b))
unfolding then_
then_-some none k h = absurd (cc h)
then_-some (some a) k h = (a, (refl, h))

guard-some :
    {A : Type 0} (a b : String) (k : Option A) {r : A}
    → (if not (a == b) then none else k) ≡ some r
    → (a ≡ b) × (k ≡ some r)
guard-some a b k h = elim (Bool-cases (a == b)) [
  | inl same ↦ ((string_key.same_iff a b).0 same, (rw same at h))
  | inr ne ↦ absurd (cc (rw ne at h))
]

-- `testnet` is the passphrase of the SDK, and `contract_of` derives the contract of a classic asset.
module _ (testnet : String) (contract_of : String → String → String → String) where
  unfoldable pub resolve_seed_config : Env → SeedCurrency → Option SeedConfig
  resolve_seed_config env c =
      then_ (require_ env "STELLAR_NETWORK_PASSPHRASE") (λ network_passphrase.
        if not (network_passphrase == testnet)
        then none
        else then_ (asset_issuer_of env c) (λ asset_issuer. then_ (require_ env (sac_var c)) (λ sac.
          if not (contract_of (asset_code_of c) asset_issuer network_passphrase == sac)
          then none
          else then_ (require_ env "VAULT_CONTRACT_ID") (λ contract_id.
            then_ (require_ env "STELLAR_RPC_URL") (λ rpc_url.
              then_ (require_ env "STELLAR_HORIZON_URL") (λ horizon_url.
                then_ (require_ env "FAUCET_ISSUER_SECRET") (λ faucet_issuer_secret. some (record {
                  contract_id = contract_id;
                  rpc_url = rpc_url;
                  horizon_url = horizon_url;
                  network_passphrase = network_passphrase;
                  faucet_issuer_secret = faucet_issuer_secret;
                  currency = c;
                  asset_code = asset_code_of c;
                  asset_issuer = asset_issuer;
                  sac = sac;
                }))))))))

  -- What a configuration is resolved to.
  pub record IsResolved (env : Env) (c : SeedCurrency) (config : SeedConfig) : Type 0 where
    pub testnet_only : config.network_passphrase ≡ testnet
    pub derived : contract_of config.asset_code config.asset_issuer testnet ≡ config.sac
    pub for_currency : config.currency ≡ c
    pub coded : config.asset_code ≡ asset_code_of c
    pub issued : asset_issuer_of env c ≡ some config.asset_issuer
    pub sac_named : require_ env (sac_var c) ≡ some config.sac
    pub contract_named : require_ env "VAULT_CONTRACT_ID" ≡ some config.contract_id
    pub rpc_named : require_ env "STELLAR_RPC_URL" ≡ some config.rpc_url
    pub horizon_named : require_ env "STELLAR_HORIZON_URL" ≡ some config.horizon_url
    pub passphrase_named :
        require_ env "STELLAR_NETWORK_PASSPHRASE" ≡ some config.network_passphrase
    pub secret_named : require_ env "FAUCET_ISSUER_SECRET" ≡ some config.faucet_issuer_secret

  -- A configuration is resolved for the testnet alone: its contract of the asset is the one that its
  -- code and its issuer derive there; the passphrase, the contract of the asset, the vault, the
  -- addresses of the RPC and of Horizon and the secret of the faucet are each those of a variable that
  -- is set and not empty; and it is for the currency asked for.
  pub resolve_seed_config-IsResolved :
      (env : Env) (c : SeedCurrency) (config : SeedConfig)
      → resolve_seed_config env c ≡ some config
      → IsResolved env c config
  unfolding resolve_seed_config
  resolve_seed_config-IsResolved env c config h =
      let (passphrase, (passphrase_named, h)) = then_-some _ _ h in
      let (on_testnet, h) = guard-some _ _ _ h in
      let (issuer, (issued, h)) = then_-some _ _ h in
      let (sac, (sac_named, h)) = then_-some _ _ h in
      let (derived, h) = guard-some _ _ _ h in
      let (contract, (contract_named, h)) = then_-some _ _ h in
      let (rpc, (rpc_named, h)) = then_-some _ _ h in
      let (horizon, (horizon_named, h)) = then_-some _ _ h in
      let (secret, (secret_named, h)) = then_-some _ _ h in
      let same = ap (λ o. get_or o config) h in
      record {
        testnet_only = sym (ap (λ q. q.network_passphrase) same) ∙ on_testnet;
        derived =
            sym (λ i. contract_of (same i).asset_code (same i).asset_issuer (on_testnet i))
            ∙ derived
            ∙ ap (λ q. q.sac) same;
        for_currency = sym (ap (λ q. q.currency) same);
        coded = sym (ap (λ q. q.asset_code) same);
        issued = issued ∙ ap (λ q. some q.asset_issuer) same;
        sac_named = sac_named ∙ ap (λ q. some q.sac) same;
        contract_named = contract_named ∙ ap (λ q. some q.contract_id) same;
        rpc_named = rpc_named ∙ ap (λ q. some q.rpc_url) same;
        horizon_named = horizon_named ∙ ap (λ q. some q.horizon_url) same;
        passphrase_named = passphrase_named ∙ ap (λ q. some q.network_passphrase) same;
        secret_named = secret_named ∙ ap (λ q. some q.faucet_issuer_secret) same;
      }

-- A pair of the SDK, by its secret and its address.
pub record KeyPair : Type 0 where
  pub pair_secret : String
  pub pair_public : String

-- `from_secret` and `fresh` are the SDK's; the second part is the line appended to the file of secrets.
unfoldable pub resolve_depositor_key :
    (String → Option KeyPair) → KeyPair → Env → Option DepositorKey × Option String
resolve_depositor_key from_secret fresh env = elim (truthy (env "DEMO_DEPOSITOR_SECRET")) [
  | none ↦ (
    some (record { secret = fresh.pair_secret; public_key = fresh.pair_public; generated = true }),
    some ("DEMO_DEPOSITOR_SECRET=" ++ fresh.pair_secret),
  )
  | some existing ↦ (
    Option.map
        (λ (pair : KeyPair). record {
          secret = existing;
          public_key = pair.pair_public;
          generated = false;
        })
        (from_secret existing),
    none,
  )
]
