-- ===== src/Vault/Submit.antt =====
-- The two phases of a write: `prepare` numbers the transaction, `signAndSubmit` checks the signer's
-- role, signs, and runs the effect on the state of that moment.
use sorosense.Base.{ℕ, suc, Bool, true, false, none, some, if◌then◌else◌, not}
use sorosense.Seam.{
  Currency, Address, PoolId, Amount, Shares, SignerRole, depositor, keeper, role_beq, ExitId,
  Signer, TxResult,
}
use sorosense.Vault.State.{Vault}
use sorosense.Vault.Operations.{
  wrong_signer, sign_rejected, Result, ok, err, deposit, withdraw, set_policy_consent,
  set_auto_compound, approve_exit, allocate, deallocate, freeze, unfreeze, propose_exit,
}

-- A call of one of the ten writing methods.
pub data Write : Type 0 where
  deposit_call : Address → Currency → Amount → Write
  withdraw_call : Address → Currency → Shares → Write
  consent_call : Address → Write
  auto_compound_call : Address → Bool → Write
  approve_call : Address → ExitId → Write
  allocate_call deallocate_call : PoolId → Currency → Amount → Write
  freeze_call unfreeze_call : PoolId → Write
  propose_call : Currency → PoolId → PoolId → Write

-- The role and the effect that each method hands to `prepare`.
unfoldable pub role_of : Write → SignerRole
role_of (deposit_call _ _ _) = depositor
role_of (withdraw_call _ _ _) = depositor
role_of (consent_call _) = depositor
role_of (auto_compound_call _ _) = depositor
role_of (approve_call _ _) = depositor
role_of (allocate_call _ _ _) = keeper
role_of (deallocate_call _ _ _) = keeper
role_of (freeze_call _) = keeper
role_of (unfreeze_call _) = keeper
role_of (propose_call _ _ _) = keeper

unfoldable pub effect_of : Write → Vault → Result Vault
effect_of (deposit_call d c amount) = deposit d c amount
effect_of (withdraw_call d c shares) = withdraw d c shares
effect_of (consent_call d) = set_policy_consent d
effect_of (auto_compound_call d enabled) = set_auto_compound d enabled
effect_of (approve_call d id) = approve_exit d id
effect_of (allocate_call pool c amount) = allocate pool c amount
effect_of (deallocate_call pool c amount) = deallocate pool c amount
effect_of (freeze_call pool) = freeze pool
effect_of (unfreeze_call pool) = unfreeze pool
effect_of (propose_call c from to) = propose_exit c from to

pub record PreparedTx : Type 0 where
  pub xdr : ℕ
  pub required_signer : SignerRole
  pub effect : Vault → Result Vault

unfoldable pub prepare : SignerRole → (Vault → Result Vault) → Vault → PreparedTx × Vault
prepare role effect s = (
  record { xdr = suc s.seq; required_signer = role; effect = effect },
  record s { seq = suc s.seq },
)

-- A method of the class: nothing but the sequence number changes until the submission.
unfoldable pub call : Write → Vault → PreparedTx × Vault
call w = prepare (role_of w) (effect_of w)

-- What `prepare` returned for the call `w`, under the number that it gave out.
abbrev pub prepared : Write → ℕ → PreparedTx
prepared w xdr = record { xdr = xdr; required_signer = role_of w; effect = effect_of w }

-- `effect()` and the receipt; an effect that is an error has made no write.
abbrev pub receipt : Result Vault → Vault → Result TxResult × Vault
receipt (ok s') s = (ok (record { hash = s'.seq; success = true }), s')
receipt (err e) s = (err e, s)

unfoldable pub sign_and_submit : PreparedTx → Signer → Vault → Result TxResult × Vault
sign_and_submit tx signer s =
    if not (role_beq signer.role tx.required_signer)
    then (err (wrong_signer tx.required_signer signer.role), s)
    else elim (signer.sign tx.xdr) [
      | none ↦ (err sign_rejected, s)
      | some _ ↦
          if s.fail_submit
          then (ok (record { hash = s.seq; success = false }), s)
          else receipt (tx.effect s) s
    ]
