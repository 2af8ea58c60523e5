-- ===== src/Vault/Imperative.antt =====
-- The bodies that the methods of packages/vault-client/src/mock.ts hand to `prepare`, statement by
-- statement: a write is made at once and nothing takes it back, so that a body which throws after a write
-- leaves that write behind.
pub mod Atomic
use sorosense.Base.{
  ℕ, suc, Bool, true, false, Bool-cases, Option, none, some, Option-cases, ◌≡◌, refl, ap, ◌∙◌, ◌⊎◌,
  inl, inr, if◌then◌else◌, not, string_key,
}
use sorosense.Int.{pos, ◌+ℤ◌, ◌-ℤ◌, leb_ℤ, ltb_ℤ}
use sorosense.Dict.{put, delete, has, add, remove}
use sorosense.Seam.{
  Currency, Address, PoolId, Amount, Shares, ExitId, Signer, TxResult, role_beq, bucket_key,
  currency_key,
}
use sorosense.Vault.State.{
  Vault, total_shares_of, total_assets_of, holdings_of, balance_of, mint_shares, redeem_assets,
}
use sorosense.Vault.Operations.{
  VaultError, wrong_signer, sign_rejected, deposit_not_positive, mints_no_shares,
  withdraw_not_positive, withdraw_exceeds_owned, no_pending_exit, pool_is_frozen,
  allocate_not_positive, deallocate_exceeds_holdings, Result, ok, err, deposit, withdraw,
  set_policy_consent, set_auto_compound, find_exit, approve_exit, allocate, deallocate, freeze,
  unfreeze, proposal, propose_exit,
}
use sorosense.Vault.Submit.{
  Write, deposit_call, withdraw_call, consent_call, auto_compound_call, approve_call, allocate_call,
  deallocate_call, freeze_call, unfreeze_call, propose_call, role_of, effect_of, prepared, receipt,
  sign_and_submit,
}
use sorosense.Vault.Commit.{submit_atomic}

-- The statements of a body: a throw, a write, and what follows a read of the fields.
pub data Program : Type 0 where
  done : Program
  throw : VaultError → Program
  write : (Vault → Vault) → Program → Program
  read : (Vault → Program) → Program

-- `effect()`: the error that it throws, if any, and the fields as they are then.
unfoldable pub run_program : Program → Vault → Option VaultError × Vault
run_program done s = (none, s)
run_program (throw e) s = (some e, s)
run_program (write f next) s = run_program next (f s)
run_program (read next) s = run_program (next s) s

abbrev pub deposit_program : Address → Currency → Amount → Program
deposit_program d c amount =
    if leb_ℤ amount (pos 0)
    then throw deposit_not_positive
    else read (λ at.
      let minted = mint_shares at c amount in
      if leb_ℤ minted (pos 0)
      then throw mints_no_shares
      else write
          (λ s. record s { shares = put (bucket_key d c) (balance_of s d c +ℤ minted) s.shares })
          (write
            (λ s. record s { total_shares = put c (total_shares_of s c +ℤ minted) s.total_shares })
            (write
              (λ s. record s {
                total_assets = put c (total_assets_of s c +ℤ amount) s.total_assets;
              })
              done)))

abbrev pub withdraw_program : Address → Currency → Shares → Program
withdraw_program d c shares = read (λ at.
    let owned = balance_of at d c in
    if leb_ℤ shares (pos 0)
    then throw withdraw_not_positive
    else if ltb_ℤ owned shares
    then throw withdraw_exceeds_owned
    else read (λ now.
      let assets = redeem_assets now c shares in
      write (λ s. record s { shares = put (bucket_key d c) (owned -ℤ shares) s.shares })
        (write
          (λ s. record s { total_shares = put c (total_shares_of s c -ℤ shares) s.total_shares })
          (write
            (λ s. record s { total_assets = put c (total_assets_of s c -ℤ assets) s.total_assets })
            done))))

abbrev pub approve_program : ExitId → Program
approve_program id = read (λ at. elim (find_exit id at.pending) [
  | none ↦ throw (no_pending_exit id)
  | some p ↦
      write (λ s. record s { active_pools = put p.currency p.to_pool s.active_pools })
        (write (λ s. record s { pending = delete p.currency s.pending }) done)
])

abbrev pub allocate_program : PoolId → Currency → Amount → Program
allocate_program pool c amount = read (λ at.
    if has pool at.frozen_pools
    then throw (pool_is_frozen pool)
    else if leb_ℤ amount (pos 0)
    then throw allocate_not_positive
    else write (λ s. record s { active_pools = put c pool s.active_pools })
        (write (λ s. record s { holdings = put c (holdings_of s c +ℤ amount) s.holdings }) done))

abbrev pub deallocate_program : Currency → Amount → Program
deallocate_program c amount = read (λ at.
    let held = holdings_of at c in
    if ltb_ℤ held amount
    then throw deallocate_exceeds_holdings
    else write (λ s. record s { holdings = put c (held -ℤ amount) s.holdings }) done)

-- The number of the proposal is taken before the proposal is stored.
abbrev pub propose_program : Currency → PoolId → PoolId → Program
propose_program c from to =
    write (λ s. record s { seq = suc s.seq })
      (read (λ at.
        write (λ s. record s { pending = put c (proposal at.seq c from to) s.pending }) done))

abbrev pub consent_program : Address → Program
consent_program d = write (λ s. record s { consent = add d s.consent }) done

abbrev pub auto_compound_program : Address → Bool → Program
auto_compound_program d enabled =
    if enabled
    then write (λ s. record s { auto_compound_off = remove d s.auto_compound_off }) done
    else write (λ s. record s { auto_compound_off = add d s.auto_compound_off }) done

abbrev pub freeze_program : PoolId → Program
freeze_program pool = write (λ s. record s { frozen_pools = add pool s.frozen_pools }) done

abbrev pub unfreeze_program : PoolId → Program
unfreeze_program pool = write (λ s. record s { frozen_pools = remove pool s.frozen_pools }) done

-- The body of each method.
unfoldable pub program_of : Write → Program
program_of (deposit_call d c amount) = deposit_program d c amount
program_of (withdraw_call d c shares) = withdraw_program d c shares
program_of (consent_call d) = consent_program d
program_of (auto_compound_call d enabled) = auto_compound_program d enabled
program_of (approve_call d id) = approve_program id
program_of (allocate_call pool c amount) = allocate_program pool c amount
program_of (deallocate_call pool c amount) = deallocate_program c amount
program_of (freeze_call pool) = freeze_program pool
program_of (unfreeze_call pool) = unfreeze_program pool
program_of (propose_call c from to) = propose_program c from to

abbrev pub told : Option VaultError × Vault → Result TxResult × Vault
told (none, s) = (ok (record { hash = s.seq; success = true }), s)
told (some e, s) = (err e, s)

-- `signAndSubmit` of what the method `w` returned, under the number that it gave out.
unfoldable pub run_submit : Write → ℕ → Signer → Vault → Result TxResult × Vault
run_submit w xdr signer s =
    if not (role_beq signer.role (role_of w))
    then (err (wrong_signer (role_of w) signer.role), s)
    else elim (signer.sign xdr) [
      | none ↦ (err sign_rejected, s)
      | some _ ↦
          if s.fail_submit
          then (ok (record { hash = s.seq; success = false }), s)
          else told (run_program (program_of w) s)
    ]
