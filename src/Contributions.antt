-- ===== src/Contributions.antt =====
-- frontend/lib/vault/contributions.ts: the net contributions per currency, kept in one map.
pub mod Ledger
mod Tests
use sorosense.Base.{Option, none, some, List, [], ◌∷◌, get_or}
use sorosense.Int.{ℤ, pos, ◌+ℤ◌, ◌-ℤ◌}
use sorosense.Dict.{Dict, get, put}
use sorosense.Seam.{Currency, currency_key}

abbrev pub Contributions : Type 0
Contributions = Dict Currency ℤ

unfoldable pub get_contributions : Currency → Contributions → ℤ
get_contributions c ledger = get_or (get c ledger) (pos 0)

unfoldable pub record_deposit : Currency → ℤ → Contributions → Contributions
record_deposit c amount ledger = put c (get_contributions c ledger +ℤ amount) ledger

unfoldable pub record_withdraw : Currency → ℤ → Contributions → Contributions
record_withdraw c asset_amount ledger = put c (get_contributions c ledger -ℤ asset_amount) ledger

abbrev pub reset_contributions : Contributions → Contributions
reset_contributions ledger = []

-- A call of the module.
pub data LedgerCall : Type 0 where
  deposited : Currency → ℤ → LedgerCall
  withdrew : Currency → ℤ → LedgerCall
  cleared : LedgerCall

abbrev pub applied : LedgerCall → Contributions → Contributions
applied (deposited c amount) = record_deposit c amount
applied (withdrew c amount) = record_withdraw c amount
applied cleared = reset_contributions

unfoldable pub after_calls : List LedgerCall → Contributions → Contributions
after_calls [] ledger = ledger
after_calls (call ∷ calls) ledger = after_calls calls (applied call ledger)
