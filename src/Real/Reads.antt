-- ===== src/Real/Reads.antt =====
-- The reads of packages/vault-client/src/real.ts over the reads of the generated client.
pub mod Exits
use sorosense.Base.{ℕ, String, Bool, Option, none, some, string_key}
use sorosense.Int.{ℤ}
use sorosense.Seam.{
  Currency, Address, PoolId, Amount, Shares, PoolStatus, active, frozen, ExitProposal, other,
}
use sorosense.Real.{
  BindingsCurrency, to_bindings_currency, from_bindings_currency, pool_address, active_pool_of,
  pool_id,
}
use mathlib.Core.Option

pub data BindingsPoolStatus : Type 0 where
  active_tag frozen_tag : BindingsPoolStatus

abbrev pub from_bindings_pool_status : BindingsPoolStatus → PoolStatus
from_bindings_pool_status frozen_tag = frozen
from_bindings_pool_status active_tag = active

pub record BindingsExitProposal : Type 0 where
  pub id : ℕ
  pub currency : BindingsCurrency
  pub from_pool : Address
  pub to_pool : Address

-- `print` is `String` on the id.
unfoldable pub from_bindings_exit_proposal :
    (ℕ → String) → (Address → PoolId) → BindingsExitProposal → ExitProposal
from_bindings_exit_proposal print decode p = record {
  id = other (print p.id);
  currency = from_bindings_currency p.currency;
  from_pool = decode p.from_pool;
  to_pool = decode p.to_pool;
}

-- What the generated client reads of one state of the contract; `none` is a promise that rejects.
pub record BindingsReads : Type 0 where
  pub balance_of : Address → BindingsCurrency → Option ℤ
  pub share_price : BindingsCurrency → Option ℤ
  pub value_of : Address → BindingsCurrency → Option ℤ
  pub pool_status : Address → Option BindingsPoolStatus
  pub has_consent : Address → Option Bool
  pub auto_compound_enabled : Address → Option Bool
  pub active_pool : BindingsCurrency → Option (Option Address)
  pub pending_exit : BindingsCurrency → Option (Option BindingsExitProposal)

module _ (resolve : Option (PoolId → Option Address)) (decode : Option (Address → Option PoolId))
    (print : ℕ → String) (reads : BindingsReads) where
  abbrev pub real_balance_of : Address → Currency → Option ℤ
  real_balance_of user c = reads.balance_of user (to_bindings_currency c)

  abbrev pub real_share_price : Currency → Option ℤ
  real_share_price c = reads.share_price (to_bindings_currency c)

  abbrev pub real_asset_value_of : Address → Currency → Option ℤ
  real_asset_value_of user c = reads.value_of user (to_bindings_currency c)

  abbrev pub status_at : Option Address → Option PoolStatus
  status_at none = none
  status_at (some address) = Option.map from_bindings_pool_status (reads.pool_status address)

  unfoldable pub real_pool_status : PoolId → Option PoolStatus
  real_pool_status pool = status_at (pool_address resolve pool)

  abbrev pub real_has_consent : Address → Option Bool
  real_has_consent depositor = reads.has_consent depositor

  abbrev pub real_auto_compound_enabled : Address → Option Bool
  real_auto_compound_enabled depositor = reads.auto_compound_enabled depositor

  unfoldable pub real_active_pool : Currency → Option (Option PoolId)
  real_active_pool c =
      Option.map (active_pool_of decode) (reads.active_pool (to_bindings_currency c))

  unfoldable pub real_pending_exit : Currency → Option (Option ExitProposal)
  real_pending_exit c =
      Option.map (Option.map (from_bindings_exit_proposal print (pool_id decode)))
        (reads.pending_exit (to_bindings_currency c))
