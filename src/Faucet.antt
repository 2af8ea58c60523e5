-- ===== src/Faucet.antt =====
-- backend/src/http/faucet.ts: the handler of `POST /faucet` with its limit per address and currency.
pub mod Limit
mod Tests
use sorosense.Base.{
  String, Bool, true, false, Option, none, some, not, if◌then◌else◌, get_or, string_key, ◌==◌,
}
use sorosense.Int.{ℤ, pos, ◌-ℤ◌, ltb_ℤ}
use sorosense.Dict.{Dict, get, put}
use sorosense.Seam.{Currency, usd, eur, Address, bucket_key}

pub data MintResult : Type 0 where
  sent : String → MintResult
  no_trustline : MintResult

-- The options, resolved. The pattern of a Stellar public key is `is_pubkey`; a minter that throws
-- yields none.
pub record FaucetConfig (W : Type 0) : Type 0 where
  pub sac : Currency → String
  pub mint : String → Address → ℤ → W → Option MintResult × W
  pub amount : Option ℤ
  pub rate_limit_ms : Option ℤ
  pub is_pubkey : String → Bool

abbrev pub default_amount : ℤ
default_amount = pos 10_000_000_000

abbrev pub default_rate_limit_ms : ℤ
default_rate_limit_ms = pos 60_000

-- The body of the request; a field that is no text is none.
pub record FaucetBody : Type 0 where
  pub address : Option String
  pub currency : Option String

pub data Response : Type 0 where
  invalid_json invalid_address unsupported_currency rate_limited server_error : Response
  needs_change_trust : Currency → String → Response
  minted : String → Currency → ℤ → Response

pub record Handled (W : Type 0) : Type 0 where
  pub response : Response
  pub last_mint_at : Dict String ℤ
  pub world : W

abbrev pub faucet_currency : Option String → Option Currency
faucet_currency none = none
faucet_currency (some s) = if s == "USD" then some usd else (if s == "EUR" then some eur else none)

-- `typeof address === 'string' && STELLAR_PUBKEY.test(address)`
abbrev pub checked_address : (String → Bool) → Option String → Option Address
checked_address is_pubkey none = none
checked_address is_pubkey (some a) = if is_pubkey a then some a else none

-- The last mint is too recent.
abbrev pub too_soon : Option ℤ → ℤ → ℤ → Bool
too_soon none now limit = false
too_soon (some last) now limit = ltb_ℤ (now -ℤ last) limit

module _ {W : Type 0} (config : FaucetConfig W) where
  abbrev pub limit_of : ℤ
  limit_of = get_or config.rate_limit_ms default_rate_limit_ms

  abbrev pub amount_of : ℤ
  amount_of = get_or config.amount default_amount

  -- What follows the mint, at the time `at`.
  abbrev pub answer : Address → Currency → Option MintResult → ℤ → Dict String ℤ → W → Handled W
  answer a c none at mints w = record { response = server_error; last_mint_at = mints; world = w }
  answer a c (some no_trustline) at mints w = record {
    response = needs_change_trust c (config.sac c);
    last_mint_at = mints;
    world = w;
  }
  answer a c (some (sent hash)) at mints w = record {
    response = minted hash c amount_of;
    last_mint_at = put (bucket_key a c) at mints;
    world = w;
  }

  abbrev pub mint_for : Address → Currency → ℤ → Dict String ℤ → W → Handled W
  mint_for a c at mints w =
      answer a c (config.mint (config.sac c) a amount_of w).0 at mints
        (config.mint (config.sac c) a amount_of w).1

  -- A request with both fields in order.
  unfoldable pub serve : Address → Currency → ℤ → ℤ → Dict String ℤ → W → Handled W
  serve a c now at mints w =
      if too_soon (get (bucket_key a c) mints) now limit_of
      then record { response = rate_limited; last_mint_at = mints; world = w }
      else mint_for a c at mints w

  -- The handler, with what the clock says at the check and after the mint; `none` is no JSON body.
  unfoldable pub handle : Option FaucetBody → ℤ → ℤ → Dict String ℤ → W → Handled W
  handle none now at mints w = record { response = invalid_json; last_mint_at = mints; world = w }
  handle (some body) now at mints w = elim (checked_address config.is_pubkey body.address) [
    | none ↦ record { response = invalid_address; last_mint_at = mints; world = w }
    | some a ↦ elim (faucet_currency body.currency) [
      | none ↦ record { response = unsupported_currency; last_mint_at = mints; world = w }
      | some c ↦ serve a c now at mints w
    ]
  ]
