-- ===== src/Seed/Chain.antt =====
-- backend/src/scripts/demo-seed.ts, the live effects: `makeStellarChain` over Horizon, friendbot and the
-- minter of the faucet.
pub mod Seen
use sorosense.Base.{
  ℕ, zero, suc, String, Bool, true, false, Option, none, some, List, [], ◌∷◌, ◌==◌, ◌&&◌, ◌||◌, not,
  leb, nat_beq, if◌then◌else◌, ◌≡◌, refl, Bool-cases, inl, inr, arith, string_key,
}
use mathlib.Core.Option
use sorosense.Int.{ℤ, pos}
use sorosense.Decimal.{Text}
use sorosense.Amounts.{to_base_units}
use sorosense.Seam.{Address}
use sorosense.Seed.{SeedChain, await, pure}
use sorosense.Seed.Config.{SeedConfig}

-- A line of an account.
pub record AccountLine : Type 0 where
  pub line_type : String
  pub line_code : String
  pub line_issuer : String
  pub line_balance : Text

-- An account that Horizon answers 404 for, or one with its lines.
pub data Loaded : Type 0 where
  no_account : Loaded
  account : List AccountLine → Loaded

-- Horizon, friendbot and the minter, whose calls may throw; `sleep` is the second between two looks, and
-- `trust_asset` builds, signs and submits the change of trust. The minter has no hash where the account
-- has no trustline.
pub record Stellar (W : Type 0) : Type 0 where
  pub load_account : Address → W → Option Loaded × W
  pub friendbot : Address → W → Option ℕ × W
  pub sleep : W → W
  pub trust_asset : W → Option String × W
  pub minter : String → Address → ℤ → W → Option (Option String) × W

abbrev pub is_seed_line : SeedConfig → AccountLine → Bool
is_seed_line config b =
    not (b.line_type == "native")
    && not (b.line_type == "liquidity_pool_shares")
    && b.line_code == config.asset_code
    && b.line_issuer == config.asset_issuer

unfoldable pub seed_line : SeedConfig → List AccountLine → Option AccountLine
seed_line config [] = none
seed_line config (b ∷ bs) = if is_seed_line config b then some b else seed_line config bs

abbrev pub exists : Loaded → Bool
exists no_account = false
exists (account lines) = true

abbrev pub trusts : SeedConfig → Loaded → Bool
trusts config no_account = false
trusts config (account lines) = elim (seed_line config lines) [ none ↦ false | some b ↦ true ]

abbrev pub line_units : Option AccountLine → Option ℤ
line_units none = some (pos 0)
line_units (some b) = to_base_units b.line_balance

abbrev pub held_units : SeedConfig → Loaded → Option ℤ
held_units config no_account = some (pos 0)
held_units config (account lines) = line_units (seed_line config lines)

-- 400 is an account that exists already.
abbrev pub friendly : ℕ → Bool
friendly status = (leb 200 status && leb status 299) || nat_beq status 400

module _ {W : Type 0} (config : SeedConfig) (stellar : Stellar W) where
  unfoldable pub live_is_funded : Address → W → Option Bool × W
  live_is_funded address w = await (stellar.load_account address w) (λ a. pure (exists a))

  -- The looks that are left; the last one is followed by a throw.
  unfoldable pub look : ℕ → Address → W → Option Bool × W
  look zero address w = (none, w)
  look (suc n) address w =
      await (live_is_funded address w)
        (λ found w. elim found [ true ↦ (some true, w) | false ↦ look n address (stellar.sleep w) ])

  unfoldable pub live_fund : Address → W → Option Bool × W
  live_fund address w =
      await (stellar.friendbot address w)
        (λ status w. if friendly status then look 15 address w else (none, w))

  unfoldable pub make_stellar_chain : SeedChain W
  make_stellar_chain = record {
    is_funded = live_is_funded;
    fund_account = live_fund;
    has_line = λ address w. await (stellar.load_account address w) (λ a. pure (trusts config a));
    add_trustline = stellar.trust_asset;
    balance_in =
        λ address w. await (stellar.load_account address w) (λ a w. (held_units config a, w));
    mint_to = λ address amount w.
        await (stellar.minter config.sac address amount w) (λ hash w. (hash, w));
  }
