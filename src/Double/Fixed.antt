-- ===== src/Double/Fixed.antt =====
-- Numbers with four decimals, on which the tests run the code that calculates with doubles.
use sorosense.Base.{ltb, ◌%◌, ℕ, zero, suc, ◌*◌, ◌/◌, ◌+◌, ◌≡◌, true, false, if◌then◌else◌, arith}
use sorosense.Int.{ℤ, pos, pos_part, neg_part, ◌+ℤ◌, ◌-ℤ◌, ◌*ℤ◌, ◌/ℤ◌, ltb_ℤ, leb_ℤ}
use sorosense.Double.{Doubles, IsStrictOrder}
use Prim.Native.Nat.{◌^◌}

abbrev unit : ℤ
unit = pos 10_000

abbrev power_nat : ℤ → ℕ → ℤ
power_nat a zero = unit
power_nat a (suc n) = a *ℤ power_nat a n /ℤ unit

abbrev pub fixed : Doubles
fixed = record {
  Number = ℤ;
  decimal = λ n k. pos (n * 10_000 / 10 ^ k);
  plus = λ a b. a +ℤ b;
  minus = λ a b. a -ℤ b;
  times = λ a b. a *ℤ b /ℤ unit;
  over = λ a b. a *ℤ unit /ℤ b;
  lt = ltb_ℤ;
  le = leb_ℤ;
  is_nan = λ a. false;
  is_finite = λ a. true;
  is_integer = λ a. ltb (pos_part a % 10_000 + neg_part a % 10_000) 1;
  of_int = λ a. a *ℤ unit;
  power = λ a b. power_nat a (pos_part b / 10_000);
  max = λ a b. if leb_ℤ a b then b else a;
  min = λ a b. if leb_ℤ a b then a else b;
  abs = λ a. pos (pos_part a + neg_part a);
  round = λ a. (a +ℤ pos 5_000) /ℤ unit *ℤ unit;
}

lt_irreflexive : (x : ℤ) → ltb_ℤ x x ≡ false
lt_irreflexive x = ground arith

lt_transitive : (x y z : ℤ) → ltb_ℤ x y ≡ true → ltb_ℤ y z ≡ true → ltb_ℤ x z ≡ true
lt_transitive x y z p q = ground (arith, p, q)

pub fixed-IsStrictOrder : IsStrictOrder fixed
fixed-IsStrictOrder = record { irreflexive = lt_irreflexive; transitive = lt_transitive }
