-- ===== src/Vault/Operations.antt =====
-- The effects that the methods of `MockVaultClient` hand to `prepare`, each as a new state or an error.
-- The bodies as statements, where a throw takes no write back, are in Vault/Imperative.
use sorosense.Base.{
  ℕ, suc, ◌≡◌, refl, ◌⊎◌, inl, inr, Bool, Option, none, some, [], ◌∷◌, if◌then◌else◌, string_key,
}
use sorosense.Int.{pos, ◌+ℤ◌, ◌-ℤ◌, leb_ℤ, ltb_ℤ}
use sorosense.Dict.{Dict, put, delete, has, add, remove}
use sorosense.Seam.{
  Currency, Address, PoolId, Amount, Shares, SignerRole, ExitId, exit, exit_id_beq, ExitProposal,
  bucket_key, currency_key,
}
use sorosense.Vault.State.{
  Vault, total_shares_of, total_assets_of, holdings_of, balance_of, mint_shares, redeem_assets,
}

-- What the methods throw.
pub data VaultError : Type 0 where
  wrong_signer : SignerRole → SignerRole → VaultError
  sign_rejected : VaultError
  deposit_not_positive mints_no_shares : VaultError
  withdraw_not_positive withdraw_exceeds_owned : VaultError
  no_pending_exit : ExitId → VaultError
  pool_is_frozen : PoolId → VaultError
  allocate_not_positive deallocate_exceeds_holdings : VaultError
  yield_negative : VaultError

pub data Result {ℓ} (A : Type ℓ) : Type ℓ where
  ok : A → Result A
  err : VaultError → Result A

pub Result-cases {ℓ} :
    {A : Type ℓ} (r : Result A) → ((a : A) × (r ≡ ok a)) ⊎ ((e : VaultError) × (r ≡ err e))
Result-cases (ok a) = inl (a, refl)
Result-cases (err e) = inr (e, refl)

-- The state after a deposit that minted `minted`, and after a withdrawal that paid `assets`.
abbrev pub credited : Address → Currency → Amount → Shares → Vault → Vault
credited d c amount minted s = record s {
  shares = put (bucket_key d c) (balance_of s d c +ℤ minted) s.shares;
  total_shares = put c (total_shares_of s c +ℤ minted) s.total_shares;
  total_assets = put c (total_assets_of s c +ℤ amount) s.total_assets;
}

abbrev pub debited : Address → Currency → Shares → Amount → Vault → Vault
debited d c burned assets s = record s {
  shares = put (bucket_key d c) (balance_of s d c -ℤ burned) s.shares;
  total_shares = put c (total_shares_of s c -ℤ burned) s.total_shares;
  total_assets = put c (total_assets_of s c -ℤ assets) s.total_assets;
}

unfoldable pub deposit : Address → Currency → Amount → Vault → Result Vault
deposit d c amount s =
    if leb_ℤ amount (pos 0)
    then err deposit_not_positive
    else let minted = mint_shares s c amount in
      if leb_ℤ minted (pos 0) then err mints_no_shares else ok (credited d c amount minted s)

unfoldable pub withdraw : Address → Currency → Shares → Vault → Result Vault
withdraw d c shares s =
    if leb_ℤ shares (pos 0)
    then err withdraw_not_positive
    else if ltb_ℤ (balance_of s d c) shares
    then err withdraw_exceeds_owned
    else ok (debited d c shares (redeem_assets s c shares) s)

unfoldable pub set_policy_consent : Address → Vault → Result Vault
set_policy_consent d s = ok (record s { consent = add d s.consent })

unfoldable pub set_auto_compound : Address → Bool → Vault → Result Vault
set_auto_compound d enabled s = ok (record s {
  auto_compound_off = if enabled then remove d s.auto_compound_off else add d s.auto_compound_off;
})

-- `[...this.pending.values()].find((p) => p.id === exitId)`
unfoldable pub find_exit : ExitId → Dict Currency ExitProposal → Option ExitProposal
find_exit id [] = none
find_exit id ((c, p) ∷ d) = if exit_id_beq p.id id then some p else find_exit id d

abbrev pub approved : ExitProposal → Vault → Vault
approved p s = record s {
  active_pools = put p.currency p.to_pool s.active_pools;
  pending = delete p.currency s.pending;
}

unfoldable pub approve_exit : Address → ExitId → Vault → Result Vault
approve_exit d id s = elim (find_exit id s.pending) [
  | none ↦ err (no_pending_exit id)
  | some p ↦ ok (approved p s)
]

unfoldable pub allocate : PoolId → Currency → Amount → Vault → Result Vault
allocate pool c amount s =
    if has pool s.frozen_pools
    then err (pool_is_frozen pool)
    else if leb_ℤ amount (pos 0)
    then err allocate_not_positive
    else ok (record s {
      active_pools = put c pool s.active_pools;
      holdings = put c (holdings_of s c +ℤ amount) s.holdings;
    })

unfoldable pub deallocate : PoolId → Currency → Amount → Vault → Result Vault
deallocate pool c amount s =
    if ltb_ℤ (holdings_of s c) amount
    then err deallocate_exceeds_holdings
    else ok (record s { holdings = put c (holdings_of s c -ℤ amount) s.holdings })

unfoldable pub freeze : PoolId → Vault → Result Vault
freeze pool s = ok (record s { frozen_pools = add pool s.frozen_pools })

unfoldable pub unfreeze : PoolId → Vault → Result Vault
unfreeze pool s = ok (record s { frozen_pools = remove pool s.frozen_pools })

abbrev pub proposal : ℕ → Currency → PoolId → PoolId → ExitProposal
proposal n c from to = record { id = exit n; currency = c; from_pool = from; to_pool = to }

unfoldable pub propose_exit : Currency → PoolId → PoolId → Vault → Result Vault
propose_exit c from to s =
    ok (record s { seq = suc s.seq; pending = put c (proposal (suc s.seq) c from to) s.pending })

-- the test hooks
unfoldable pub simulate_yield : Currency → Amount → Vault → Result Vault
simulate_yield c amount s =
    if ltb_ℤ amount (pos 0)
    then err yield_negative
    else ok (record s { total_assets = put c (total_assets_of s c +ℤ amount) s.total_assets })

unfoldable pub simulate_failure : Bool → Vault → Vault
simulate_failure enabled s = record s { fail_submit = enabled }
