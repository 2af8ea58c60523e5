-- ===== src/Vault/State.antt =====
-- The state of `MockVaultClient`, its share arithmetic and its reads.
use sorosense.Base.{String, ℕ, Bool, not, Option, List, [], get_or, if◌then◌else◌, string_key}
use sorosense.Int.{ℤ, pos, ◌+ℤ◌, ◌*ℤ◌, ◌/ℤ◌}
use sorosense.Dict.{Dict, get, has}
use sorosense.Seam.{
  Currency, Address, PoolId, Amount, Shares, PriceRay, share_price_scale, PoolStatus, active,
  frozen, ExitProposal, bucket_key, currency_key,
}
use mathlib.Core.Bool.{false}

-- The private fields of the class, in its order.
pub record Vault : Type 0 where
  pub shares : Dict String Shares
  pub consent : List Address
  pub auto_compound_off : List Address
  pub frozen_pools : List PoolId
  pub active_pools : Dict Currency PoolId
  pub holdings : Dict Currency Amount
  pub pending : Dict Currency ExitProposal
  pub total_shares : Dict Currency Shares
  pub total_assets : Dict Currency Amount
  pub seq : ℕ
  pub fail_submit : Bool

-- `new MockVaultClient()`
abbrev pub fresh : Vault
fresh = record {
  shares = [];
  consent = [];
  auto_compound_off = [];
  frozen_pools = [];
  active_pools = [];
  holdings = [];
  pending = [];
  total_shares = [];
  total_assets = [];
  seq = 0;
  fail_submit = false;
}

abbrev pub virtual_offset : ℤ
virtual_offset = pos 1

-- `this.totalShares.get(currency) ?? 0n`, and so for the assets and a depositor's shares
abbrev pub total_shares_of : Vault → Currency → Shares
total_shares_of s c = get_or (get c s.total_shares) (pos 0)

abbrev pub total_assets_of : Vault → Currency → Amount
total_assets_of s c = get_or (get c s.total_assets) (pos 0)

abbrev pub holdings_of : Vault → Currency → Amount
holdings_of s c = get_or (get c s.holdings) (pos 0)

abbrev pub balance_of : Vault → Address → Currency → Shares
balance_of s user c = get_or (get (bucket_key user c) s.shares) (pos 0)

unfoldable pub mint_shares : Vault → Currency → Amount → Shares
mint_shares s c amount =
    amount *ℤ (total_shares_of s c +ℤ virtual_offset) /ℤ (total_assets_of s c +ℤ virtual_offset)

unfoldable pub redeem_assets : Vault → Currency → Shares → Amount
redeem_assets s c shares =
    shares *ℤ (total_assets_of s c +ℤ virtual_offset) /ℤ (total_shares_of s c +ℤ virtual_offset)

unfoldable pub share_price : Vault → Currency → PriceRay
share_price s c =
    (total_assets_of s c +ℤ virtual_offset)
    *ℤ share_price_scale
    /ℤ (total_shares_of s c +ℤ virtual_offset)

unfoldable pub asset_value_of : Vault → Address → Currency → Amount
asset_value_of s user c = redeem_assets s c (balance_of s user c)

unfoldable pub pool_status : Vault → PoolId → PoolStatus
pool_status s pool = if has pool s.frozen_pools then frozen else active

unfoldable pub has_consent : Vault → Address → Bool
has_consent s depositor = has depositor s.consent

unfoldable pub auto_compound_enabled : Vault → Address → Bool
auto_compound_enabled s depositor = not (has depositor s.auto_compound_off)

unfoldable pub active_pool : Vault → Currency → Option PoolId
active_pool s c = get c s.active_pools

unfoldable pub pending_exit : Vault → Currency → Option ExitProposal
pending_exit s c = get c s.pending
