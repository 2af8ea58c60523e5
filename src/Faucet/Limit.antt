-- ===== src/Faucet/Limit.antt =====
-- The limit of the faucet (backend/src/http/faucet.ts) from one request to a later one.
use sorosense.Base.{
  String, true, false, Option, some, ◌≡◌, refl, arith, Bool-cases, inl, inr, string_key, ◌==◌, ◌&&◌,
}
use sorosense.Int.{ℤ, ◌-ℤ◌, ltb_ℤ}
use sorosense.Dict.{Dict, get, put, get-put, get-put_self}
use sorosense.Seam.{Currency, currency_key, Address, bucket_key, bucket_key_beq}
use sorosense.Faucet.{
  MintResult, FaucetConfig, FaucetBody, rate_limited, minted, faucet_currency, checked_address,
  too_soon, limit_of, amount_of, answer, serve, handle,
}

module _ {W : Type 0} (config : FaucetConfig W) where
  answer_minted :
      (a : Address) (c : Currency) (result : Option MintResult) (at : ℤ) (mints : Dict String ℤ)
      (w : W)
      → {hash : String} {c' : Currency} {amount : ℤ}
      → (answer config a c result at mints w).response ≡ minted hash c' amount
      → (answer config a c result at mints w).last_mint_at ≡ put (bucket_key a c) at mints
  answer_minted a c result at mints w h = ground (arith, h)

  handled :
      (body : FaucetBody) {a : Address} {c : Currency} (now at : ℤ) (mints : Dict String ℤ) (w : W)
      → checked_address config.is_pubkey body.address ≡ some a
      → faucet_currency body.currency ≡ some c
      → handle config (some body) now at mints w ≡ serve config a c now at mints w
  unfolding handle
  handled body now at mints w ea ec = ground (arith, ea, ec)

  serve_minted :
      (a : Address) (c : Currency) (now at : ℤ) (mints : Dict String ℤ) (w : W) {hash : String}
      {c' : Currency} {amount : ℤ}
      → (serve config a c now at mints w).response ≡ minted hash c' amount
      → (serve config a c now at mints w).last_mint_at ≡ put (bucket_key a c) at mints
  unfolding serve
  serve_minted a c now at mints w h =
      elim (Bool-cases (too_soon (get (bucket_key a c) mints) now (limit_of config))) [
        | inl soon ↦ absurd (ground (arith, h, soon))
        | inr due ↦
            rw (serve, due)
              (answer_minted a c (config.mint (config.sac c) a (amount_of config) w).0 at mints
                (config.mint (config.sac c) a (amount_of config) w).1 (rw (serve, due) at h))
      ]

  serve_limited :
      (a : Address) (c : Currency) (now at last : ℤ) (mints : Dict String ℤ) (w : W)
      → get (bucket_key a c) mints ≡ some last
      → ltb_ℤ (now -ℤ last) (limit_of config) ≡ true
      → serve config a c now at mints w
        ≡ record { response = rate_limited; last_mint_at = mints; world = w }
  unfolding serve
  serve_limited a c now at last mints w held soon = rw (serve, held, soon) refl

  -- After a request that minted, a request for the same address and currency within the limit after
  -- the mint is refused without a call of the minter, whatever its world. The times of the other
  -- addresses and currencies are as they were, so the mint holds none of them up.
  pub mint_limits :
      (body : FaucetBody) {a : Address} {c c' : Currency} {hash : String} {amount : ℤ}
      → (now at : ℤ) (mints : Dict String ℤ) (w : W)
      → checked_address config.is_pubkey body.address ≡ some a
      → faucet_currency body.currency ≡ some c
      → (handle config (some body) now at mints w).response ≡ minted hash c' amount
      → let after = (handle config (some body) now at mints w).last_mint_at in
        ((later at' : ℤ) (w' : W)
          → ltb_ℤ (later -ℤ at) (limit_of config) ≡ true
          → handle config (some body) later at' after w'
            ≡ record { response = rate_limited; last_mint_at = after; world = w' })
        × ((b : Address) (other : Currency)
            → (a == b && c == other) ≡ false
            → get (bucket_key b other) after ≡ get (bucket_key b other) mints)
  mint_limits body {a} {c} now at mints w ea ec h =
      let first = handled body now at mints w ea ec in
      let stored = serve_minted a c now at mints w (rw first at h) in
      rw (first, stored)
        (
          λ later at' w' soon.
              rw (handled body later at' (put (bucket_key a c) at mints) w' ea ec) (
                serve_limited a c later at' at (put (bucket_key a c) at mints) w'
                  (get-put_self (bucket_key a c) at mints) soon),
          λ b other ne.
              rw
                (
                  get-put (bucket_key a c) (bucket_key b other) at mints,
                  bucket_key_beq a b c other,
                  ne,
                )
                refl,
        )
