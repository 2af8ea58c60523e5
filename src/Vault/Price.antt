-- ===== src/Vault/Price.antt =====
-- The share price of packages/vault-client/src/mock.ts: it never falls, and a deposit that is
-- redeemed at once gains nothing.
use sorosense.Base.{ℕ, ◌≡◌, arith, Bool-cases, inl, inr, string_key, ◌+◌, ◌*◌, ◌≤◌, ◌/◌}
use sorosense.Int.{
  pos, negsuc, pos_part, ◌+ℤ◌, ◌-ℤ◌, ◌*ℤ◌, ◌/ℤ◌, ◌≤ℤ◌, int_laws, eq-pos_of_nonneg, pos_part-add,
  pos_part-sub,
}
use sorosense.Seam.{currency_beq, Currency, Address, Amount, Shares, currency_key, currency_beq_iff}
use sorosense.Vault.State.{
  Vault, balance_of, total_shares_of, total_assets_of, mint_shares, redeem_assets, share_price,
}
use sorosense.Vault.Operations.{ok, credited, debited, deposit, withdraw}
use sorosense.Vault.Arithmetic.{mint, redeem, mint_price, redeem_price, quoted_price}
use sorosense.Vault.Outcome.{deposit_ok, withdraw_ok}
use sorosense.Vault.Balances.{value-put}
use sorosense.Vault.Solvency.{
  IsSolvent, rebooked, deposit-IsSolvent, withdraw-IsSolvent, shares_nonneg, mint_shares-eq,
  redeem_assets-eq, balance-le-total, redeem_assets_bounds,
}

-- assets and shares of a bucket as natural numbers
abbrev assets : Vault → Currency → ℕ
assets s c = pos_part (total_assets_of s c)

abbrev supply : Vault → Currency → ℕ
supply s c = pos_part (total_shares_of s c)

share_price-eq :
    {s : Vault} (c : Currency)
    → IsSolvent s
    → share_price s c ≡ pos ((assets s c + 1) * 1_000_000_000 / (supply s c + 1))
unfolding share_price ◌+ℤ◌ ◌*ℤ◌ ◌/ℤ◌
share_price-eq {s} c h = rw (
  eq-pos_of_nonneg (total_shares_of s c) (shares_nonneg h c),
  eq-pos_of_nonneg (total_assets_of s c) (h.assets_nonneg c),
)

-- The exact price of bucket `c` is no lower in `t` than in `s`.
abbrev pub PriceLe : Currency → Vault → Vault → Type 0
PriceLe c s t = (assets s c + 1) * (supply t c + 1) ≤ (assets t c + 1) * (supply s c + 1)

share_price_mono :
    {s t : Vault} (c : Currency)
    → IsSolvent s
    → IsSolvent t
    → PriceLe c s t
    → share_price s c ≤ℤ share_price t c
share_price_mono {s} {t} c h k le =
    rw (share_price-eq c h, share_price-eq c k)
      (omega
        (arith, quoted_price 1_000_000_000 (supply s c) (assets s c) (supply t c) (assets t c) le))

rebooked_price :
    (d : Address) (c e : Currency) (v total : Shares) (amount : Amount) (s : Vault)
    → (assets s c + 1) * (pos_part total + 1) ≤ (pos_part amount + 1) * (supply s c + 1)
    → PriceLe e s (rebooked d c v total amount s)
rebooked_price d c e v total amount s h =
    rw (value-put c e total s.total_shares, value-put c e amount s.total_assets)
      (elim (Bool-cases (currency_beq c e)) [
        | inl same ↦ rw (same, ← (currency_beq_iff c e).0 same) h
        | inr other ↦ rw other (omega arith)
      ])

deposit_exact :
    (d : Address) (c e : Currency) (amount : Amount) {s : Vault}
    → IsSolvent s
    → pos 1 ≤ℤ amount
    → PriceLe e s (credited d c amount (mint_shares s c amount) s)
deposit_exact d c e (negsuc n) h positive = absurd (omega arith)
deposit_exact d c e (pos n) {s} h positive =
    let minted = mint (supply s c) (assets s c) n in
    rebooked_price d c e (balance_of s d c +ℤ mint_shares s c (pos n)) _ _ s (
      rw
        (
          mint_shares-eq h c n,
          pos_part-add (total_shares_of s c) minted (shares_nonneg h c),
          pos_part-add (total_assets_of s c) n (h.assets_nonneg c),
        )
        (mint_price (supply s c) (assets s c) n))

withdraw_exact :
    (d : Address) (c e : Currency) (shares : Shares) {s : Vault}
    → IsSolvent s
    → pos 1 ≤ℤ shares
    → shares ≤ℤ balance_of s d c
    → PriceLe e s (debited d c shares (redeem_assets s c shares) s)
withdraw_exact d c e (negsuc n) h positive owned = absurd (omega arith)
withdraw_exact d c e (pos k) {s} h positive owned =
    let paid = redeem (supply s c) (assets s c) k in
    let covered : pos k ≤ℤ total_shares_of s c = omega (int_laws, balance-le-total h d c) in
    let afforded : pos paid ≤ℤ total_assets_of s c =
      rw (redeem_assets-eq h c k) at (redeem_assets_bounds c (pos k) h (omega arith) covered).1 in
    rebooked_price d c e (balance_of s d c -ℤ pos k) _ _ s (
      rw
        (
          redeem_assets-eq h c k,
          pos_part-sub (total_shares_of s c) k covered,
          pos_part-sub (total_assets_of s c) paid afforded,
        )
        (redeem_price (supply s c) (assets s c) k (omega int_laws)))

-- A deposit that goes through lowers the share price of no bucket, exactly or as it is quoted.
pub deposit_price :
    (d : Address) (c e : Currency) (amount : Amount) {s t : Vault}
    → IsSolvent s
    → deposit d c amount s ≡ ok t
    → PriceLe e s t × (share_price s e ≤ℤ share_price t e)
deposit_price d c e amount {s} {t} h done =
    let (positive, minted, e') = deposit_ok d c amount s done in
    let exact : PriceLe e s t = rw e' (deposit_exact d c e amount h positive) in
    let solvent : IsSolvent t = rw done at (deposit-IsSolvent d c amount h) in
    (exact, share_price_mono e h solvent exact)

-- A withdrawal that goes through lowers the share price of no bucket, exactly or as it is quoted.
pub withdraw_price :
    (d : Address) (c e : Currency) (shares : Shares) {s t : Vault}
    → IsSolvent s
    → withdraw d c shares s ≡ ok t
    → PriceLe e s t × (share_price s e ≤ℤ share_price t e)
withdraw_price d c e shares {s} {t} h done =
    let (positive, owned, e') = withdraw_ok d c shares s done in
    let exact : PriceLe e s t = rw e' (withdraw_exact d c e shares h positive owned) in
    let solvent : IsSolvent t = rw done at (withdraw-IsSolvent d c shares h) in
    (exact, share_price_mono e h solvent exact)
