-- ===== src/Real/Roles.antt =====
-- The signers that the real client (packages/vault-client/src/real.ts) and the in-memory vault
-- (packages/vault-client/src/mock.ts) accept.
use sorosense.Base.{ℕ, String, false, Option, none, some, ◌≡◌, ◌≢◌, refl, arith}
use sorosense.Int.{ℤ}
use sorosense.Seam.{Address, PoolId, SignerRole, keeper, role_beq, Signer, Currency}
use sorosense.Vault.State.{Vault}
use sorosense.Vault.Operations.{err, wrong_signer}
use sorosense.Vault.Submit.{
  Write, deposit_call, withdraw_call, consent_call, auto_compound_call, approve_call, allocate_call,
  deallocate_call, freeze_call, unfreeze_call, propose_call, role_of, prepared, sign_and_submit,
}
use sorosense.Real.{
  BindingsCall, RealTx, Sent, pool_tx, propose_tx, pool_address, real_write, real_sign_and_submit,
}

role_differs : (r q : SignerRole) → r ≢ q → role_beq r q ≡ false
role_differs r q h = ground (arith, h)

pool_tx-role :
    (a : Option Address) (call : Address → BindingsCall) {tx : RealTx}
    → pool_tx a call ≡ some tx
    → tx.required_signer ≡ keeper
pool_tx-role none call h = ground arith
pool_tx-role (some a) call h = ground arith

propose_tx-role :
    (c : Currency) (a b : Option Address) {tx : RealTx}
    → propose_tx c a b ≡ some tx
    → tx.required_signer ≡ keeper
propose_tx-role c a b h = ground (arith, h)

module _ (resolve : Option (PoolId → Option Address)) (parse : String → Option ℤ) where
  real_write-role :
      (w : Write) {tx : RealTx}
      → real_write resolve parse w ≡ some tx
      → tx.required_signer ≡ role_of w
  unfolding real_write role_of
  real_write-role (deposit_call d c amount) h = ground (arith, h)
  real_write-role (withdraw_call d c shares) h = ground (arith, h)
  real_write-role (consent_call d) h = ground (arith, h)
  real_write-role (auto_compound_call d enabled) h = ground (arith, h)
  real_write-role (approve_call d id) h = ground (arith, h)
  real_write-role (allocate_call pool c amount) h = pool_tx-role (pool_address resolve pool) _ h
  real_write-role (deallocate_call pool c amount) h = pool_tx-role (pool_address resolve pool) _ h
  real_write-role (freeze_call pool) h = pool_tx-role (pool_address resolve pool) _ h
  real_write-role (unfreeze_call pool) h = pool_tx-role (pool_address resolve pool) _ h
  real_write-role (propose_call c from to) h =
      propose_tx-role c (pool_address resolve from) (pool_address resolve to) h

  -- With a signer of another role than the in-memory vault asks for, neither client touches
  -- anything: a write that the real client prepares throws before it calls the network, and the
  -- same write of the in-memory vault throws and leaves it as it was.
  pub clients_agree_on_signers :
      {W : Type 0} (send : BindingsCall → Signer → W → Option Sent × W) (write : Write)
      {tx : RealTx}
      → real_write resolve parse write ≡ some tx
      → (signer : Signer) → signer.role ≢ role_of write
      → (network : W) (xdr : ℕ) (s : Vault)
      → (real_sign_and_submit send tx signer network ≡ (none, network))
        × (sign_and_submit (prepared write xdr) signer s
            ≡ (err (wrong_signer (role_of write) signer.role), s))
  unfolding real_sign_and_submit sign_and_submit
  clients_agree_on_signers send write {tx} h signer wrong network xdr s =
      let refused = role_differs signer.role (role_of write) wrong in
      (rw (real_write-role write h, refused) refl, rw refused refl)
