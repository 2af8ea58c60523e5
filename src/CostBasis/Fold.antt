-- ===== src/CostBasis/Fold.antt =====
-- One bucket of backend/src/earnings/cost-basis.ts: what its events add up to, and the bounds of its
-- basis.
use sorosense.Base.{
  ℕ, zero, suc, ◌*◌, ◌/◌, ◌≤◌, ◌<◌, ap, sym, ◌≡◌, refl, some, List, [], ◌∷◌, arith, All,
  if◌then◌else◌, Option-cases, inl, inr,
}
use sorosense.Int.{
  ℤ, pos, negsuc, pos_part, ◌+ℤ◌, ◌-ℤ◌, ◌*ℤ◌, ◌/ℤ◌, ◌≤ℤ◌, ltb_ℤ, int_laws, parts, ltb_ℤ→le,
  eq-pos_of_nonneg, eq_of_parts,
}
use sorosense.Sum.{sum_over}
use sorosense.Seam.{Amount, Shares}
use sorosense.CostBasis.{
  EventKind, deposit, withdraw, VaultEvent, CostBasis, redeemed_cost, apply_kind, apply_event,
}
use sorosense.CostBasis.Buckets.{replay_one}
use native.Mathlib.Nat.{div-le_of_le-mul, mul-div_cancel, mul-le-mul_left, div-zero}

-- What the vault emits: a deposit mints at least one share, and nothing is negative.
abbrev pub IsEmitted : VaultEvent → Type 0
IsEmitted ev = (pos 0 ≤ℤ ev.amount) × (pos 1 ≤ℤ ev.shares)

-- Nothing is negative, and without shares there are no contributions left.
pub record IsSound (b : CostBasis) : Type 0 where
  pub shares_nonneg : pos 0 ≤ℤ b.shares
  pub contributed_nonneg : pos 0 ≤ℤ b.contributed
  pub emptied : b.shares ≡ pos 0 → b.contributed ≡ pos 0

pub withdraw-some :
    (b b' : CostBasis) (amount : Amount) (shares : Shares)
    → apply_kind withdraw b amount shares ≡ some b'
    → (shares ≤ℤ b.shares)
      × (b'.shares ≡ b.shares -ℤ shares)
      × (b'.contributed ≡ b.contributed -ℤ redeemed_cost b shares)
unfolding apply_kind
withdraw-some b b' amount shares h = ground (arith, ltb_ℤ→le b.shares shares)

guarded_quotient :
    (c k h : ℕ) → (if ltb_ℤ (pos 0) (pos h) then pos (c * k / h) else pos 0) ≡ pos (c * k / h)
guarded_quotient c k zero = rw div-zero
guarded_quotient c k (suc h) = ground arith

-- The cost that goes with `k` of `held` shares, over natural numbers.
pub redeemed_cost-eq :
    (b : CostBasis) (k : ℕ)
    → pos 0 ≤ℤ b.shares
    → pos 0 ≤ℤ b.contributed
    → redeemed_cost b (pos k) ≡ pos (pos_part b.contributed * k / pos_part b.shares)
unfolding redeemed_cost ◌*ℤ◌ ◌/ℤ◌
redeemed_cost-eq b k h c =
    rw (eq-pos_of_nonneg b.shares h, eq-pos_of_nonneg b.contributed c)
      (guarded_quotient (pos_part b.contributed) k (pos_part b.shares))

all_cost :
    (b : CostBasis) (k : ℕ)
    → 0 < pos_part b.shares
    → pos 0 ≤ℤ b.contributed
    → k ≡ pos_part b.shares
    → pos (pos_part b.contributed * k / pos_part b.shares) ≡ b.contributed
all_cost b k some_held nonneg e =
    rw (e, mul-div_cancel (pos_part b.contributed) some_held)
      (sym (eq-pos_of_nonneg b.contributed nonneg))

-- It never exceeds the contributions, and is all of them when all shares go.
pub cost_bounds :
    (b : CostBasis) (shares : Shares)
    → IsSound b
    → pos 1 ≤ℤ shares
    → shares ≤ℤ b.shares
    → (pos 0 ≤ℤ redeemed_cost b shares)
      × (redeemed_cost b shares ≤ℤ b.contributed)
      × (shares ≡ b.shares → redeemed_cost b shares ≡ b.contributed)
cost_bounds b (negsuc k) s positive held = absurd (omega arith)
cost_bounds b (pos k) s positive held =
    let c = pos_part b.contributed in
    let h = pos_part b.shares in
    let some_held : 0 < h = omega int_laws in
    let k-le : k ≤ h = omega int_laws in
    let whole : c * k ≤ h * c = grind (arith, mul-le-mul_left c k-le) in
    let part : c * k / h ≤ c = div-le_of_le-mul h whole in
    rw (redeemed_cost-eq b k s.shares_nonneg s.contributed_nonneg) (
      omega arith,
      omega (int_laws, s.contributed_nonneg),
      λ e. all_cost b k some_held s.contributed_nonneg (ap pos_part e),
    )

apply_kind-IsSound :
    (kind : EventKind) (b b' : CostBasis) (amount : Amount) (shares : Shares)
    → pos 0 ≤ℤ amount
    → pos 1 ≤ℤ shares
    → IsSound b
    → apply_kind kind b amount shares ≡ some b'
    → IsSound b'
unfolding apply_kind
apply_kind-IsSound deposit b b' amount shares some_amount some_shares s h =
    let e : b' ≡ record { shares = b.shares +ℤ shares; contributed = b.contributed +ℤ amount } =
      ground arith in
    rw e (record {
      shares_nonneg = omega (int_laws, s.shares_nonneg);
      contributed_nonneg = omega (int_laws, s.contributed_nonneg);
      emptied = λ none. absurd (omega (int_laws, s.shares_nonneg, parts none));
    })
apply_kind-IsSound withdraw b b' amount shares some_amount some_shares s h =
    let (held, left, cost) = withdraw-some b b' amount shares h in
    let (nonneg, covered, whole) = cost_bounds b shares s some_shares held in
    record {
      shares_nonneg = rw left (omega int_laws);
      contributed_nonneg = rw cost (omega (int_laws, s.contributed_nonneg));
      emptied = λ none.
          let all : shares ≡ b.shares =
            eq_of_parts shares b.shares (omega (int_laws, parts none, parts left)) in
          rw (cost, whole all) (omega int_laws);
    }

-- One event keeps a sound basis sound.
apply_event-IsSound :
    (ev : VaultEvent) (b b' : CostBasis)
    → IsEmitted ev
    → IsSound b
    → apply_event b ev ≡ some b'
    → IsSound b'
apply_event-IsSound ev b b' e s h = apply_kind-IsSound ev.kind b b' ev.amount ev.shares e.0 e.1 s h

-- Shares that an event adds, negative where it burns them, and assets that it pays in.
abbrev signed : EventKind → Shares → ℤ
signed deposit shares = shares
signed withdraw shares = pos 0 -ℤ shares

abbrev paid : EventKind → Amount → ℤ
paid deposit amount = amount
paid withdraw amount = pos 0

abbrev pub signed_shares : VaultEvent → ℤ
signed_shares ev = signed ev.kind ev.shares

abbrev pub paid_in : VaultEvent → ℤ
paid_in ev = paid ev.kind ev.amount

apply_kind_sums :
    (kind : EventKind) (b b' : CostBasis) (amount : Amount) (shares : Shares)
    → pos 1 ≤ℤ shares
    → IsSound b
    → apply_kind kind b amount shares ≡ some b'
    → (b'.shares ≡ b.shares +ℤ signed kind shares)
      × (b'.contributed ≤ℤ b.contributed +ℤ paid kind amount)
unfolding apply_kind
apply_kind_sums deposit b b' amount shares some_shares s h =
    let e : b' ≡ record { shares = b.shares +ℤ shares; contributed = b.contributed +ℤ amount } =
      ground arith in
    rw e (refl, omega arith)
apply_kind_sums withdraw b b' amount shares some_shares s h =
    let (held, left, cost) = withdraw-some b b' amount shares h in
    let (nonneg, covered, whole) = cost_bounds b shares s some_shares held in
    rw (left, cost) (omega int_laws, omega int_laws)

apply_event_sums :
    (ev : VaultEvent) (b b' : CostBasis)
    → IsEmitted ev
    → IsSound b
    → apply_event b ev ≡ some b'
    → (b'.shares ≡ b.shares +ℤ signed_shares ev) × (b'.contributed ≤ℤ b.contributed +ℤ paid_in ev)
apply_event_sums ev b b' e s h = apply_kind_sums ev.kind b b' ev.amount ev.shares e.1 s h

pub replay_one_sums :
    (evs : List VaultEvent) (b b' : CostBasis)
    → All IsEmitted evs
    → IsSound b
    → replay_one evs b ≡ some b'
    → IsSound b'
      × (b'.shares ≡ b.shares +ℤ sum_over signed_shares evs)
      × (b'.contributed ≤ℤ b.contributed +ℤ sum_over paid_in evs)
unfolding replay_one
replay_one_sums [] b b' es s h =
    let same : b ≡ b' = ground arith in rw (← same) (s, omega int_laws, omega int_laws)
replay_one_sums (ev ∷ evs) b b' (e, es) s h = elim (Option-cases (apply_event b ev)) [
  | inl failed ↦ ground arith
  | inr (m, applied) ↦
      let rest : replay_one evs m ≡ some b' = ground arith in
      let (shares_1, cost_1) = apply_event_sums ev b m e s applied in
      let (sound, shares_2, cost_2) =
        replay_one_sums evs m b' es (apply_event-IsSound ev b m e s applied) rest in
      (sound, omega (int_laws, parts shares_1, parts shares_2), omega (int_laws, cost_1))
]
