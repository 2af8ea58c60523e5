-- ===== src/CostBasis/Tests.antt =====
-- Runs of backend/src/earnings/cost-basis.ts and the theorems at concrete events.
use sorosense.Base.{◌≡◌, refl, none, some, List, [], ◌∷◌, arith, ◌*◌, ◌+◌, ◌≤◌}
use sorosense.Int.{pos, ◌+ℤ◌, ◌-ℤ◌, ◌*ℤ◌, ◌/ℤ◌, ◌≤ℤ◌, parts}
use sorosense.Dict.{get, put}
use sorosense.Sort.{sort_by, insert_by, UniqueKeys-KeysDistinct}
use sorosense.Sum.{sum_over}
use sorosense.Seam.{usd, eur, bucket_key}
use sorosense.CostBasis.{
  deposit, withdraw, VaultEvent, CostBasis, empty_basis, redeemed_cost, apply_kind, replay_event,
  replay, reconstruct_cost_basis, cost_basis_of, weighted_entry_price,
}
use sorosense.CostBasis.Buckets.{replay_one, events_of, cost_basis_of_bucket}
use sorosense.CostBasis.Order.{cost_basis_of_order, within, cost_basis_of_sums}
use sorosense.CostBasis.Fold.{IsSound, signed_shares, paid_in}
use sorosense.CostBasis.Entry.{withdraw_cost}
use mathlib.Core.List.{Permᴰ}

abbrev first_deposit : VaultEvent
first_deposit = record {
  kind = deposit;
  depositor = "alice";
  currency = usd;
  amount = pos 100;
  shares = pos 100;
  seq = 1;
  ts = none;
}

abbrev euro_deposit : VaultEvent
euro_deposit = record first_deposit { currency = eur; amount = pos 70; shares = pos 70; seq = 2 }

abbrev withdrawal : VaultEvent
withdrawal = record first_deposit { kind = withdraw; amount = pos 44; shares = pos 40; seq = 3 }

abbrev events : List VaultEvent
events = withdrawal ∷ first_deposit ∷ euro_deposit ∷ []

abbrev same_events : List VaultEvent
same_events = first_deposit ∷ withdrawal ∷ euro_deposit ∷ []

abbrev left : CostBasis
left = record { shares = pos 60; contributed = pos 60 }

usd_basis : cost_basis_of events "alice" usd ≡ some left
unfolding cost_basis_of reconstruct_cost_basis replay replay_event apply_kind redeemed_cost get put
    bucket_key sort_by insert_by ◌+ℤ◌ ◌-ℤ◌ ◌*ℤ◌ ◌/ℤ◌
usd_basis = refl

over_withdrawal_fails : cost_basis_of (record withdrawal { seq = 0 } ∷ events) "alice" eur ≡ none
unfolding cost_basis_of reconstruct_cost_basis replay replay_event apply_kind redeemed_cost get put
    bucket_key sort_by insert_by ◌+ℤ◌ ◌-ℤ◌ ◌*ℤ◌ ◌/ℤ◌
over_withdrawal_fails = refl

entry_price : weighted_entry_price left ≡ pos 1_000_000_000
unfolding weighted_entry_price ◌*ℤ◌ ◌/ℤ◌
entry_price = refl

cost_basis_of_bucket_case :
    cost_basis_of events "alice" usd
    ≡ replay_one (events_of (bucket_key "alice" usd) (sort_by (λ ev. ev.seq) events)) empty_basis
unfolding reconstruct_cost_basis replay replay_event apply_kind redeemed_cost get put bucket_key
    sort_by insert_by ◌+ℤ◌ ◌-ℤ◌ ◌*ℤ◌ ◌/ℤ◌
cost_basis_of_bucket_case =
    cost_basis_of_bucket events "alice" usd
      {bases = ("alice:USD", left)
        ∷ ("alice:EUR", record { shares = pos 70; contributed = pos 70 })
        ∷ []}
      refl

either_order : cost_basis_of events "alice" usd ≡ cost_basis_of same_events "alice" usd
either_order = cost_basis_of_order "alice" usd (Permᴰ.swap refl refl) (
    UniqueKeys-KeysDistinct (λ ev. ev.seq) events
      (
        (λ e. absurd (omega arith), (λ e. absurd (omega arith), tt)),
        ((λ e. absurd (omega arith), tt), (tt, tt)),
      ))

cost_basis_of_sums_example :
    IsSound left
    × (pos 60 ≡ sum_over (within "alice" usd signed_shares) events)
    × (pos 60 ≤ℤ sum_over (within "alice" usd paid_in) events)
cost_basis_of_sums_example =
    cost_basis_of_sums events "alice" usd
      ((omega arith, omega arith), ((omega arith, omega arith), ((omega arith, omega arith), tt)))
      usd_basis

abbrev held : CostBasis
held = record { shares = pos 100; contributed = pos 100 }

held-IsSound : IsSound held
held-IsSound = record {
  shares_nonneg = omega arith;
  contributed_nonneg = omega arith;
  emptied = λ e. absurd (omega (arith, parts e));
}

cost_of_forty : (100 * 60 ≤ 60 * 100) × (60 * 100 ≤ 100 * 60 + 100)
unfolding apply_kind redeemed_cost ◌+ℤ◌ ◌-ℤ◌ ◌*ℤ◌ ◌/ℤ◌
cost_of_forty = withdraw_cost held left (pos 44) (pos 40) held-IsSound (omega arith) refl
