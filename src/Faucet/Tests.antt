-- ===== src/Faucet/Tests.antt =====
-- Requests to the faucet of backend/src/http/faucet.ts, and the theorem at a concrete one.
use sorosense.Base.{◌≡◌, refl, ℕ, ◌+◌, true, false, some, none, [], ◌==◌, ◌&&◌, string_key}
use sorosense.Int.{ℤ, pos, ◌-ℤ◌, ltb_ℤ}
use sorosense.Dict.{get}
use sorosense.Seam.{usd, Address, Currency, currency_key, bucket_key}
use sorosense.Faucet.{sent, FaucetConfig, FaucetBody, rate_limited, minted, serve, handle, limit_of}
use sorosense.Faucet.Limit.{mint_limits}

-- A minter that counts its calls.
abbrev config : FaucetConfig ℕ
config = record {
  sac = λ c. "CSAC";
  mint = λ sac to amount n. (some (sent "h"), 1 + n);
  amount = none;
  rate_limit_ms = none;
  is_pubkey = λ s. true;
}

abbrev body : FaucetBody
body = record { address = some "GA"; currency = some "USD" }

first_mint :
    (handle config (some body) (pos 5) (pos 9) [] 0).response ≡ minted "h" usd (pos 10_000_000_000)
unfolding handle serve get
first_mint = refl

mint_limits_example :
    let after = (handle config (some body) (pos 5) (pos 9) [] 0).last_mint_at in
    ((later at' : ℤ) (n : ℕ)
      → ltb_ℤ (later -ℤ pos 9) (limit_of config) ≡ true
      → handle config (some body) later at' after n
        ≡ record { response = rate_limited; last_mint_at = after; world = n })
    × ((b : Address) (other : Currency)
        → ("GA" == b && usd == other) ≡ false
        → get (bucket_key b other) after ≡ get (bucket_key b other) [])
mint_limits_example = mint_limits config body (pos 5) (pos 9) [] 0 refl refl first_mint
