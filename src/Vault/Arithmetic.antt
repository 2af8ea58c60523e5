-- ===== src/Vault/Arithmetic.antt =====
-- The virtual-offset share arithmetic of packages/vault-client/src/mock.ts over natural numbers:
-- `t` shares and `a` assets in the bucket, `n` assets deposited, `k` shares redeemed.
use sorosense.Base.{ℕ, suc, ◌+◌, ◌-◌, ◌*◌, ◌/◌, ◌≤◌, ◌<◌, ◌≡◌, arith}
use native.Mathlib.Nat.{
  div-mul-le_self, div-lt_iff_lt-mul, le-div_iff_mul-le, mul-le-mul_right, le_of_mul-le-mul_right,
  div-le_of_le-mul,
}

abbrev pub mint : ℕ → ℕ → ℕ → ℕ
mint t a n = n * (t + 1) / (a + 1)

abbrev pub redeem : ℕ → ℕ → ℕ → ℕ
redeem t a k = k * (a + 1) / (t + 1)

mint_cost : (t a n : ℕ) → mint t a n * (a + 1) ≤ n * (t + 1)
mint_cost t a n = div-mul-le_self (n * (t + 1)) (a + 1)

redeem_cost : (t a k : ℕ) → redeem t a k * (t + 1) ≤ k * (a + 1)
redeem_cost t a k = div-mul-le_self (k * (a + 1)) (t + 1)

-- A redemption never pays out more than the bucket's assets.
pub redeem-le : (t a k : ℕ) → k ≤ t → redeem t a k ≤ a
redeem-le t a k h =
    let less : k * (a + 1) < suc a * (t + 1) = grind arith in
    let below : redeem t a k < suc a = (div-lt_iff_lt-mul {k = t + 1} (omega arith)).1 less in
    omega arith

-- A deposit does not lower the price.
pub mint_price : (t a n : ℕ) → (a + 1) * (t + mint t a n + 1) ≤ (a + n + 1) * (t + 1)
mint_price t a n = omega (arith, mint_cost t a n)

redeem_price_parts :
    (u k v x : ℕ)
    → x * (u + k + 1) ≤ k * (v + x + 1)
    → (v + x + 1) * (u + 1) ≤ (v + 1) * (u + k + 1)
redeem_price_parts u k v x h = omega arith

-- Nor does a redemption.
pub redeem_price : (t a k : ℕ) → k ≤ t → (a + 1) * (t - k + 1) ≤ (a - redeem t a k + 1) * (t + 1)
redeem_price t a k h =
    let x = redeem t a k in
    let shares : t - k + k ≡ t = omega arith in
    let assets : a - x + x ≡ a = omega (arith, redeem-le t a k h) in
    rw (shares, assets) at
      (redeem_price_parts (t - k) k (a - x) x (rw (shares, assets) (redeem_cost t a k)))

-- What was just minted redeems for no more than was paid.
pub round_trip : (t a n : ℕ) → redeem (t + mint t a n) (a + n) (mint t a n) ≤ n
round_trip t a n = div-le_of_le-mul (t + mint t a n + 1) (omega (arith, mint_cost t a n))

pub cross_multiply :
    (q u u' a a' scale : ℕ) → q * u ≤ a * scale → a * u' ≤ a' * u → q * u' * u ≤ a' * scale * u
cross_multiply q u u' a a' scale cost h =
    omega (arith, mul-le-mul_right u' cost, mul-le-mul_right scale h)

-- The price as the client quotes it, scaled and rounded down, follows the exact one.
pub quoted_price :
    (scale t a t' a' : ℕ)
    → (a + 1) * (t' + 1) ≤ (a' + 1) * (t + 1)
    → (a + 1) * scale / (t + 1) ≤ (a' + 1) * scale / (t' + 1)
quoted_price scale t a t' a' h =
    let q = (a + 1) * scale / (t + 1) in
    let cost : q * (t + 1) ≤ (a + 1) * scale = div-mul-le_self ((a + 1) * scale) (t + 1) in
    (le-div_iff_mul-le {k = t' + 1} (omega arith)).1 (
      le_of_mul-le-mul_right {k = t + 1}
        (cross_multiply q (t + 1) (t' + 1) (a + 1) (a' + 1) scale cost h) (omega arith))
