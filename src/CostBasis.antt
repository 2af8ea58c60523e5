-- ===== src/CostBasis.antt =====
-- backend/src/earnings/cost-basis.ts: the cost basis of each bucket, replayed from the vault's
-- deposit and withdrawal events.
pub mod Fold
pub mod Order
pub mod Buckets
pub mod Entry
mod Tests
use sorosense.Base.{
  ℕ, String, Bool, true, false, Option, none, some, List, [], ◌∷◌, get_or, if◌then◌else◌,
  string_key, ◌&&◌,
}
use mathlib.Core.Option
use sorosense.Int.{ℤ, pos, ◌+ℤ◌, ◌-ℤ◌, ◌*ℤ◌, ◌/ℤ◌, ltb_ℤ, leb_ℤ}
use sorosense.Dict.{Dict, get, put}
use sorosense.Sort.{sort_by}
use sorosense.Seam.{Currency, Address, Amount, Shares, share_price_scale, bucket_key}

pub data EventKind : Type 0 where
  deposit withdraw : EventKind

-- `ts`, in milliseconds, may be missing.
pub record VaultEvent : Type 0 where
  pub kind : EventKind
  pub depositor : Address
  pub currency : Currency
  pub amount : Amount
  pub shares : Shares
  pub seq : ℕ
  pub ts : Option ℕ

pub record CostBasis : Type 0 where
  pub shares : Shares
  pub contributed : Amount

abbrev pub empty_basis : CostBasis
empty_basis = record { shares = pos 0; contributed = pos 0 }

-- What a withdrawal takes off the contributions: their share, before the shares are burned.
unfoldable pub redeemed_cost : CostBasis → Shares → Amount
redeemed_cost b shares =
    if ltb_ℤ (pos 0) b.shares then b.contributed *ℤ shares /ℤ b.shares else pos 0

-- The loop's body on the event's bucket; `none` is the error that more shares are redeemed than held.
unfoldable pub apply_kind : EventKind → CostBasis → Amount → Shares → Option CostBasis
apply_kind deposit b amount shares =
    some (record { shares = b.shares +ℤ shares; contributed = b.contributed +ℤ amount })
apply_kind withdraw b amount shares =
    if ltb_ℤ b.shares shares
    then none
    else some (record {
      shares = b.shares -ℤ shares;
      contributed = b.contributed -ℤ redeemed_cost b shares;
    })

abbrev pub apply_event : CostBasis → VaultEvent → Option CostBasis
apply_event b ev = apply_kind ev.kind b ev.amount ev.shares

abbrev pub key_of : VaultEvent → String
key_of ev = bucket_key ev.depositor ev.currency

abbrev pub basis_of : String → Dict String CostBasis → CostBasis
basis_of key bases = get_or (get key bases) empty_basis

-- One round of the loop over all buckets, and the loop.
unfoldable pub replay_event : VaultEvent → Dict String CostBasis → Option (Dict String CostBasis)
replay_event ev bases = elim (apply_event (basis_of (key_of ev) bases) ev) [
  | none ↦ none
  | some basis ↦ some (put (key_of ev) basis bases)
]

unfoldable pub replay : List VaultEvent → Dict String CostBasis → Option (Dict String CostBasis)
replay [] bases = some bases
replay (ev ∷ evs) bases = elim (replay_event ev bases) [
  | none ↦ none
  | some bases' ↦ replay evs bases'
]

unfoldable pub reconstruct_cost_basis : List VaultEvent → Option (Dict String CostBasis)
reconstruct_cost_basis events = replay (sort_by (λ ev. ev.seq) events) []

unfoldable pub cost_basis_of : List VaultEvent → Address → Currency → Option CostBasis
cost_basis_of events depositor currency =
    Option.map (basis_of (bucket_key depositor currency)) (reconstruct_cost_basis events)

unfoldable pub weighted_entry_price : CostBasis → ℤ
weighted_entry_price b =
    if leb_ℤ b.shares (pos 0) && leb_ℤ (pos 0) b.shares
    then pos 0
    else b.contributed *ℤ share_price_scale /ℤ b.shares
