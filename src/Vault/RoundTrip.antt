-- ===== src/Vault/RoundTrip.antt =====
-- A deposit that is redeemed at once (packages/vault-client/src/mock.ts).
use sorosense.Base.{ℕ, ◌+◌, ◌≡◌, arith, same_refl, string_key}
use sorosense.Int.{pos, negsuc, pos_part, ◌+ℤ◌, ◌≤ℤ◌, int_laws, pos_part-add}
use sorosense.Seam.{Currency, Address, Amount, bucket_key, currency_key}
use sorosense.Vault.State.{
  Vault, balance_of, total_shares_of, total_assets_of, mint_shares, redeem_assets,
}
use sorosense.Vault.Operations.{ok, credited, debited, deposit, withdraw}
use sorosense.Vault.Arithmetic.{mint, redeem, round_trip}
use sorosense.Vault.Balances.{value-put}
use sorosense.Vault.Outcome.{deposit_ok, withdraw_goes}
use sorosense.Vault.Solvency.{
  IsSolvent, deposit-IsSolvent, shares_nonneg, mint_shares-eq, redeem_assets-eq,
}

balance-credited :
    (d : Address) (c : Currency) (amount minted : Amount) (s : Vault)
    → balance_of (credited d c amount minted s) d c ≡ balance_of s d c +ℤ minted
balance-credited d c amount minted s = rw (
  value-put (bucket_key d c) (bucket_key d c) (balance_of s d c +ℤ minted) s.shares,
  same_refl (bucket_key d c),
)

redeem_assets-credited :
    (d : Address) (c : Currency) (n m : ℕ) {s : Vault}
    → IsSolvent s
    → IsSolvent (credited d c (pos n) (pos m) s)
    → redeem_assets (credited d c (pos n) (pos m) s) c (pos m)
      ≡ pos (redeem (pos_part (total_shares_of s c) + m) (pos_part (total_assets_of s c) + n) m)
redeem_assets-credited d c n m {s} h k = rw (
  redeem_assets-eq k c m,
  value-put c c (total_shares_of s c +ℤ pos m) s.total_shares,
  value-put c c (total_assets_of s c +ℤ pos n) s.total_assets,
  same_refl c,
  pos_part-add (total_shares_of s c) m (shares_nonneg h c),
  pos_part-add (total_assets_of s c) n (h.assets_nonneg c),
)

payout :
    (d : Address) (c : Currency) (amount : Amount) {s : Vault}
    → IsSolvent s
    → pos 1 ≤ℤ amount
    → IsSolvent (credited d c amount (mint_shares s c amount) s)
    → redeem_assets (credited d c amount (mint_shares s c amount) s) c (mint_shares s c amount)
      ≤ℤ amount
payout d c (negsuc n) h positive k = absurd (omega arith)
payout d c (pos n) {s} h positive k =
    let shares = pos_part (total_shares_of s c) in
    let assets = pos_part (total_assets_of s c) in
    let e = mint_shares-eq h c n in
    rw e (
      rw (redeem_assets-credited d c n (mint shares assets n) h (rw e at k))
        (omega (arith, round_trip shares assets n)))

-- The shares of a deposit that just went through can be redeemed at once, for no more than was
-- deposited.
pub withdraw-deposit :
    (d : Address) (c : Currency) (amount : Amount) {s t : Vault}
    → IsSolvent s
    → deposit d c amount s ≡ ok t
    → let minted = mint_shares s c amount in
      let paid = redeem_assets t c minted in
      (withdraw d c minted t ≡ ok (debited d c minted paid t)) × (paid ≤ℤ amount)
withdraw-deposit d c amount {s} {t} h done =
    let (positive, minted, e) = deposit_ok d c amount s done in
    let m = mint_shares s c amount in
    let solvent : IsSolvent t = rw done at (deposit-IsSolvent d c amount h) in
    let owned : balance_of t d c ≡ balance_of s d c +ℤ m = rw e (balance-credited d c amount m s) in
    let enough : m ≤ℤ balance_of t d c = rw owned (omega (int_laws, h.balance_nonneg d c)) in
    (withdraw_goes d c m t minted enough, rw e (payout d c amount h positive (rw e at solvent)))
