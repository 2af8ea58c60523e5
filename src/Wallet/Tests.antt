-- ===== src/Wallet/Tests.antt =====
-- The wallet balance of frontend/lib/wallet/balance.ts on one answer of Horizon.
use sorosense.Base.{ℕ, String, true, false, some, [], ◌∷◌, ◌≡◌, refl}
use sorosense.Quotes.Simulate.{usdc, eurc}
use sorosense.Decimal.{codes, trim, split_dot, big_int, number_in, digit_in, radix_of}
use sorosense.Int.{pos, ◌+ℤ◌, ◌*ℤ◌}
use sorosense.Amounts.{to_amount}
use sorosense.Wallet.{
  ClassicAsset, HorizonEnv, HorizonBalance, null_json, json, Fetched, rejected, responded,
  WalletBalance, asset_for, find_line, read_wallet_balance,
}
use sorosense.Wallet.Reads.{IsRead, read_wallet_balance-IsRead, read_wallet_balance_unset}

abbrev env : HorizonEnv
env = record { horizon_url = "https://horizon"; usdc_issuer = "GUSD"; eurc_issuer = "" }

abbrev held : HorizonBalance
held = record {
  balance = some (codes "12.5000000");
  asset_type = some "credit_alphanum4";
  asset_code = some "USDC";
  asset_issuer = some "GUSD";
}

abbrev horizon : String → ℕ → Fetched × ℕ
horizon address n = (responded 200 (json (held ∷ [])), n)

abbrev worth : WalletBalance
worth = record { amount = pos 125_000_000; trustline = true; unfunded = false }

read_wallet_balance-IsRead_example :
    (asset : ClassicAsset) × ((asset_for env usdc ≡ some asset)
      × IsRead asset (horizon "G" 0).0 worth)
unfolding read_wallet_balance asset_for find_line to_amount trim split_dot big_int number_in
    digit_in radix_of ◌+ℤ◌ ◌*ℤ◌
read_wallet_balance-IsRead_example = read_wallet_balance-IsRead env horizon usdc "G" 0 worth refl

-- No request is made for the euro, whose issuer is not set.
unset_run : (read_wallet_balance env horizon eurc "G" 0).1 ≡ 0
unfolding asset_for
unset_run = read_wallet_balance_unset env horizon eurc "G" 0 refl

-- An answer that is JSON's null makes the read reject.
null_answer :
    (read_wallet_balance {W = ℕ} env (λ a n. (responded 200 null_json, n)) usdc "G" 0).0 ≡ rejected
unfolding read_wallet_balance asset_for
null_answer = refl
