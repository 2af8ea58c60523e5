-- ===== src/Vault/Outcome.antt =====
-- When a deposit and a withdrawal of packages/vault-client/src/mock.ts go through, and what then.
use sorosense.Base.{◌≡◌, arith}
use sorosense.Int.{pos, ◌≤ℤ◌, leb_ℤ→lt, ltb_ℤ→le}
use sorosense.Seam.{Currency, Address, Amount, Shares}
use sorosense.Vault.State.{Vault, balance_of, mint_shares, redeem_assets}
use sorosense.Vault.Operations.{ok, credited, debited, deposit, withdraw}

pub deposit_ok :
    (d : Address) (c : Currency) (amount : Amount) (s : Vault) {t : Vault}
    → deposit d c amount s ≡ ok t
    → (pos 1 ≤ℤ amount)
      × (pos 1 ≤ℤ mint_shares s c amount)
      × (t ≡ credited d c amount (mint_shares s c amount) s)
unfolding deposit
deposit_ok d c amount s {t} done =
    ground (arith, leb_ℤ→lt amount (pos 0), leb_ℤ→lt (mint_shares s c amount) (pos 0))

pub withdraw_ok :
    (d : Address) (c : Currency) (shares : Shares) (s : Vault) {t : Vault}
    → withdraw d c shares s ≡ ok t
    → (pos 1 ≤ℤ shares)
      × (shares ≤ℤ balance_of s d c)
      × (t ≡ debited d c shares (redeem_assets s c shares) s)
unfolding withdraw
withdraw_ok d c shares s {t} done =
    ground (arith, leb_ℤ→lt shares (pos 0), ltb_ℤ→le (balance_of s d c) shares)

pub withdraw_goes :
    (d : Address) (c : Currency) (shares : Shares) (s : Vault)
    → pos 1 ≤ℤ shares
    → shares ≤ℤ balance_of s d c
    → withdraw d c shares s ≡ ok (debited d c shares (redeem_assets s c shares) s)
unfolding withdraw
withdraw_goes d c shares s positive owned = ground arith
