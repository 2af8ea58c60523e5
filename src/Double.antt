-- ===== src/Double.antt =====
-- The IEEE 754 doubles of JavaScript's `number`, as the operations that the program applies to them.
-- They are a parameter of the model; what a theorem needs of them is a named hypothesis on it.
pub mod Fixed
use sorosense.Int.{ℤ}
use sorosense.Base.{ℕ, ◌≡◌, Bool, true, false}

pub record Doubles : Type 1 where
  pub Number : Type 0
  -- `decimal n k` is the literal n / 10ᵏ
  pub decimal : ℕ → ℕ → Number
  pub plus : Number → Number → Number
  pub minus : Number → Number → Number
  pub times : Number → Number → Number
  pub over : Number → Number → Number
  pub lt : Number → Number → Bool
  pub le : Number → Number → Bool
  pub is_nan : Number → Bool
  pub is_finite : Number → Bool
  pub is_integer : Number → Bool
  -- `Number` of a bigint, and `**`
  pub of_int : ℤ → Number
  pub power : Number → Number → Number
  -- `Math.min`, `Math.max`, `Math.abs`, `Math.round`
  pub max : Number → Number → Number
  pub min : Number → Number → Number
  pub abs : Number → Number
  pub round : Number → Number

-- `<` is a strict order on doubles, NaN included.
pub record IsStrictOrder (d : Doubles) : Type 0 where
  pub irreflexive : (x : d.Number) → d.lt x x ≡ false
  pub transitive : (x y z : d.Number) → d.lt x y ≡ true → d.lt y z ≡ true → d.lt x z ≡ true
