-- ===== src/CostBasis/Buckets.antt =====
-- The buckets do not mix: what the replay of backend/src/earnings/cost-basis.ts finds for a bucket
-- is what a replay of that bucket's events alone finds.
use sorosense.Base.{
  String, ◌≡◌, Option, none, some, List, [], ◌∷◌, arith, ◌==◌, keep, if◌then◌else◌, string_key,
  Option-cases, inl, inr, Bool-cases, ◌∙◌, ap, sym,
}
use mathlib.Core.Option
use sorosense.Dict.{Dict, get, put, get-put}
use sorosense.Sort.{sort_by}
use sorosense.Seam.{Currency, Address, bucket_key}
use sorosense.CostBasis.{
  VaultEvent, CostBasis, empty_basis, apply_event, key_of, basis_of, replay_event, replay,
  reconstruct_cost_basis, cost_basis_of,
}

-- One bucket's basis through a list of its events.
unfoldable pub replay_one : List VaultEvent → CostBasis → Option CostBasis
replay_one [] b = some b
replay_one (ev ∷ evs) b = elim (apply_event b ev) [ none ↦ none | some b' ↦ replay_one evs b' ]

abbrev pub events_of : String → List VaultEvent → List VaultEvent
events_of key evs = keep (λ ev. key_of ev == key) evs

basis-put :
    (k j : String) (b : CostBasis) (bases : Dict String CostBasis)
    → basis_of j (put k b bases) ≡ (if k == j then b else basis_of j bases)
basis-put k j b bases = rw (get-put k j b bases) (ground arith)

replay_event_ok :
    (ev : VaultEvent) (bases bases' : Dict String CostBasis)
    → replay_event ev bases ≡ some bases'
    → (b : CostBasis) × (apply_event (basis_of (key_of ev) bases) ev ≡ some b)
      × (bases' ≡ put (key_of ev) b bases)
unfolding replay_event
replay_event_ok ev bases bases' h =
    elim (Option-cases (apply_event (basis_of (key_of ev) bases) ev)) [
      | inl failed ↦ ground arith
      | inr (b, e) ↦ (b, e, ground arith)
    ]

replay_one-cons :
    (ev : VaultEvent) (evs : List VaultEvent) (b b' : CostBasis)
    → apply_event b ev ≡ some b'
    → replay_one (ev ∷ evs) b ≡ replay_one evs b'
unfolding replay_one
replay_one-cons ev evs b b' h = ground arith

replay-cons :
    (ev : VaultEvent) (evs : List VaultEvent) (bases result : Dict String CostBasis)
    → replay (ev ∷ evs) bases ≡ some result
    → (bases' : Dict String CostBasis) × (replay_event ev bases ≡ some bases')
      × (replay evs bases' ≡ some result)
unfolding replay
replay-cons ev evs bases result h = elim (Option-cases (replay_event ev bases)) [
  | inl failed ↦ ground arith
  | inr (bases', e) ↦ (bases', e, ground arith)
]

replay_bucket :
    (key : String) (evs : List VaultEvent) (bases result : Dict String CostBasis)
    → replay evs bases ≡ some result
    → replay_one (events_of key evs) (basis_of key bases) ≡ some (basis_of key result)
unfolding replay replay_one
replay_bucket key [] bases result h = ground arith
replay_bucket key (ev ∷ evs) bases result h =
    let (bases', e, rest) = replay-cons ev evs bases result h in
    let (b, applied, stored) = replay_event_ok ev bases bases' e in
    let ih = replay_bucket key evs bases' result rest in
    let now = basis-put (key_of ev) key b bases in
    elim (Bool-cases (key_of ev == key)) [
      | inl same ↦
          let here : basis_of key bases' ≡ b = rw stored (now ∙ rw same) in
          let applied' : apply_event (basis_of key bases) ev ≡ some b =
            rw (← (string_key.same_iff (key_of ev) key).0 same) applied in
          rw same
            (replay_one-cons ev (events_of key evs) (basis_of key bases) b applied' ∙ rw here at ih)
      | inr other ↦
          let here : basis_of key bases' ≡ basis_of key bases = rw stored (now ∙ rw other) in
          rw other (rw here at ih)
    ]

-- Where the reconstruction goes through, the basis that it finds for a bucket is the one that a
-- replay of that bucket's own events finds, in the order of their sequence numbers: events of other
-- buckets have no part in it.
pub cost_basis_of_bucket :
    (events : List VaultEvent) (depositor : Address) (c : Currency) {bases : Dict String CostBasis}
    → reconstruct_cost_basis events ≡ some bases
    → cost_basis_of events depositor c
      ≡ replay_one (events_of (bucket_key depositor c) (sort_by (λ ev. ev.seq) events)) empty_basis
unfolding reconstruct_cost_basis cost_basis_of get
cost_basis_of_bucket events depositor c h =
    let key = bucket_key depositor c in
    ap (Option.map (basis_of key)) h
    ∙ sym (replay_bucket key (sort_by (λ ev. ev.seq) events) [] _ h)
