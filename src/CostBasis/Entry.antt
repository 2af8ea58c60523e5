-- ===== src/CostBasis/Entry.antt =====
-- The entry price of backend/src/earnings/cost-basis.ts under a withdrawal.
use sorosense.Base.{ℕ, ◌+◌, ◌-◌, ◌*◌, ◌/◌, ◌≤◌, ◌<◌, ◌≡◌, some, arith}
use sorosense.Int.{pos, negsuc, pos_part, ◌≤ℤ◌, int_laws, pos_part-sub}
use sorosense.Seam.{Amount, Shares}
use sorosense.CostBasis.{withdraw, CostBasis, apply_kind}
use sorosense.CostBasis.Fold.{IsSound, withdraw-some, redeemed_cost-eq, cost_bounds}
use native.Mathlib.Nat.{div-mul-le_self, lt-div-mul-add, le_of_mul-le-mul_right, mul-le-mul_left}

pro_rata_parts :
    (u k v q : ℕ)
    → q * (u + k) ≤ (v + q) * k
    → (v + q) * k < q * (u + k) + (u + k)
    → ((v + q) * u ≤ v * (u + k)) × (v * (u + k) ≤ (v + q) * u + (u + k))
pro_rata_parts u k v q cost short = (omega arith, omega arith)

-- `c` contributed for `h` shares, of which `k` go.
pro_rata :
    (c h k : ℕ)
    → 0 < h
    → k ≤ h
    → (c * (h - k) ≤ (c - c * k / h) * h) × ((c - c * k / h) * h ≤ c * (h - k) + h)
pro_rata c h k some_held le =
    let q = c * k / h in
    let cost : q * h ≤ c * k = div-mul-le_self (c * k) h in
    let short : c * k < q * h + h = lt-div-mul-add some_held in
    let within : q ≤ c =
      le_of_mul-le-mul_right {k = h} (grind (arith, cost, mul-le-mul_left c le)) some_held in
    let shares : h - k + k ≡ h = omega arith in
    let assets : c - q + q ≡ c = omega arith in
    rw (shares, assets) at
      (pro_rata_parts (h - k) k (c - q) q (rw (shares, assets) cost) (rw (shares, assets) short))

-- From a sound basis, a withdrawal of at least one share that goes through never lowers the exact
-- cost per share, and leaves contributions at most one base unit over their exact share.
pub withdraw_cost :
    (b b' : CostBasis) (amount : Amount) (shares : Shares)
    → IsSound b
    → pos 1 ≤ℤ shares
    → apply_kind withdraw b amount shares ≡ some b'
    → (pos_part b.contributed * pos_part b'.shares ≤ pos_part b'.contributed * pos_part b.shares)
      × (pos_part b'.contributed * pos_part b.shares
          ≤ pos_part b.contributed * pos_part b'.shares + pos_part b.shares)
withdraw_cost b b' amount (negsuc k) s positive h = absurd (omega arith)
withdraw_cost b b' amount (pos k) s positive h =
    let (held, left, cost) = withdraw-some b b' amount (pos k) h in
    let (nonneg, covered, all) = cost_bounds b (pos k) s positive held in
    let e = redeemed_cost-eq b k s.shares_nonneg s.contributed_nonneg in
    let q = pos_part b.contributed * k / pos_part b.shares in
    rw (left, cost, e, pos_part-sub b.shares k held, pos_part-sub b.contributed q (rw e at covered))
      (pro_rata (pos_part b.contributed) (pos_part b.shares) k (omega int_laws) (omega int_laws))
