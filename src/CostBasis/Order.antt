-- ===== src/CostBasis/Order.antt =====
-- The reconstruction of backend/src/earnings/cost-basis.ts as a whole: it does not depend on the
-- order in which the events arrive, and its figures are sums over them.
use sorosense.Base.{
  String, ◌≡◌, refl, some, List, [], All, ◌==◌, if◌then◌else◌, string_key, ap, sym, ◌∙◌, arith,
  Option-cases, inl, inr,
}
use sorosense.Int.{ℤ, pos, ◌≤ℤ◌, int_laws, parts}
use mathlib.Core.Option
use sorosense.Sum.{sum_over, sum_over-perm, sum_over-keep, All-perm, All-keep}
use sorosense.Sort.{sort_by, sort_by-perm, sort_by-perm_eq, KeysDistinct}
use sorosense.Seam.{Currency, Address, bucket_key}
use sorosense.Dict.{Dict}
use sorosense.CostBasis.{
  VaultEvent, CostBasis, empty_basis, key_of, basis_of, replay, reconstruct_cost_basis,
  cost_basis_of,
}
use sorosense.CostBasis.Buckets.{replay_one, events_of, cost_basis_of_bucket}
use sorosense.CostBasis.Fold.{IsEmitted, IsSound, signed_shares, paid_in, replay_one_sums}
use mathlib.Core.List.{Permᴰ}
use mathlib.Core.List.Permᴰ

-- Where no two events share a sequence number, every order of the same events gives the same basis,
-- or the same error.
pub cost_basis_of_order :
    {events events' : List VaultEvent} (depositor : Address) (c : Currency)
    → Permᴰ events events'
    → KeysDistinct (λ ev. ev.seq) events
    → cost_basis_of events depositor c ≡ cost_basis_of events' depositor c
unfolding cost_basis_of reconstruct_cost_basis
cost_basis_of_order depositor c p d =
    ap (λ sorted. Option.map (basis_of (bucket_key depositor c)) (replay sorted []))
      (sort_by-perm_eq (λ ev. ev.seq) p d)

-- A function on the events of one bucket, and zero on the others.
abbrev pub within : Address → Currency → (VaultEvent → ℤ) → VaultEvent → ℤ
within depositor c f ev = if key_of ev == bucket_key depositor c then f ev else pos 0

sum-events_of :
    (depositor : Address) (c : Currency) (f : VaultEvent → ℤ) (events : List VaultEvent)
    → sum_over f (events_of (bucket_key depositor c) (sort_by (λ ev. ev.seq) events))
      ≡ sum_over (within depositor c f) events
sum-events_of depositor c f events =
    sum_over-keep f (λ ev. key_of ev == bucket_key depositor c) (sort_by (λ ev. ev.seq) events)
    ∙ sum_over-perm (within depositor c f) (sort_by-perm (λ ev. ev.seq) events)

empty-IsSound : IsSound empty_basis
empty-IsSound = record {
  shares_nonneg = omega arith;
  contributed_nonneg = omega arith;
  emptied = λ e. refl;
}

cost_basis_of-some :
    (events : List VaultEvent) (depositor : Address) (c : Currency) {b : CostBasis}
    → cost_basis_of events depositor c ≡ some b
    → (bases : Dict String CostBasis) × (reconstruct_cost_basis events ≡ some bases)
unfolding cost_basis_of
cost_basis_of-some events depositor c {b} h = elim (Option-cases (reconstruct_cost_basis events)) [
  | inl failed ↦ ground arith
  | inr found ↦ found
]

-- Of events such as the vault emits, a reconstruction that goes through finds, for every bucket, the
-- shares minted less the shares burned, and contributions between zero and the assets paid in,
-- which are zero when no share is left.
pub cost_basis_of_sums :
    (events : List VaultEvent) (depositor : Address) (c : Currency) {b : CostBasis}
    → All IsEmitted events
    → cost_basis_of events depositor c ≡ some b
    → IsSound b
      × (b.shares ≡ sum_over (within depositor c signed_shares) events)
      × (b.contributed ≤ℤ sum_over (within depositor c paid_in) events)
cost_basis_of_sums events depositor c {b} emitted h =
    let key = bucket_key depositor c in
    let sorted = sort_by (λ ev. ev.seq) events in
    let (bases, e) = cost_basis_of-some events depositor c h in
    let own : replay_one (events_of key sorted) empty_basis ≡ some b =
      sym (cost_basis_of_bucket events depositor c e) ∙ h in
    let own_emitted : All IsEmitted (events_of key sorted) =
      All-keep IsEmitted (λ ev. key_of ev == key) sorted
        (All-perm IsEmitted (Permᴰ.symm (sort_by-perm (λ ev. ev.seq) events)) emitted) in
    let (sound, shares, cost) =
      replay_one_sums (events_of key sorted) empty_basis b own_emitted empty-IsSound own in
    let e_shares = sum-events_of depositor c signed_shares events in
    let e_paid = sum-events_of depositor c paid_in events in
    (
      sound,
      rw (← e_shares) (omega (int_laws, parts shares)),
      rw (← e_paid) (omega (int_laws, cost)),
    )
