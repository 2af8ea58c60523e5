-- ===== src/Amounts.antt =====
-- Amounts as decimal texts: `toBaseUnits`, `parseAmount` and `formatUnits` of
-- backend/src/scripts/demo-seed.ts, `toAmount`, `fromAmount` and `formatCurrency` of
-- frontend/lib/vault/units.ts and `sanitizeAmount` of frontend/lib/vault/sanitize.ts.
pub mod RoundTrip
pub mod Sanitize
mod Tests
use sorosense.Base.{
  ℕ, zero, suc, ◌+◌, ◌*◌, ◌%◌, Bool, true, false, Option, none, some, List, [], ◌∷◌, ◌++◌, length,
  take, keep, map, leb, nat_beq, not, ◌&&◌, ◌||◌, if◌then◌else◌, get_or,
}
use mathlib.Core.Option
use sorosense.Int.{ℤ, pos, negsuc, ◌+ℤ◌, ◌-ℤ◌, ◌*ℤ◌, ◌/ℤ◌, leb_ℤ}
use sorosense.Decimal.{
  Text, codes, is_digit, dot, is_empty, show_int, pad_start, pad_end, drop_end, drop_start, trim,
  split_dot, second_of, big_int,
}

abbrev pub unit : ℕ
unit = 10_000_000

-- The remainder of bigints, with the sign of the dividend.
abbrev pub rem : ℤ → ℕ → ℤ
rem (pos n) m = pos (n % m)
rem (negsuc n) m = pos 0 -ℤ pos (suc n % m)

-- What the expression allows behind the digits: nothing, or a dot and one to seven digits.
abbrev pub fraction_ok : Text → Bool
fraction_ok [] = true
fraction_ok (c ∷ s) =
    nat_beq c dot && leb 1 (length s) && leb (length s) 7 && is_empty (drop_start is_digit s)

-- The expression of `toBaseUnits`.
abbrev pub is_decimal : Text → Bool
is_decimal [] = false
is_decimal (c ∷ s) = is_digit c && fraction_ok (drop_start is_digit s)

-- `BigInt(whole) * UNIT + BigInt(fraction)`, where either may throw.
abbrev pub units_and : Option ℤ → Option ℤ → Option ℤ
units_and none fraction = none
units_and (some whole) none = none
units_and (some whole) (some fraction) = some (whole *ℤ pos unit +ℤ fraction)

unfoldable pub to_base_units : Text → Option ℤ
to_base_units decimal =
    let text = trim decimal in
    let (whole, rest) = split_dot text in
    if not (is_decimal text)
    then none
    else units_and (big_int whole) (big_int (pad_end 7 (second_of rest)))

abbrev pub positive_amount : Option ℤ → Option ℤ
positive_amount none = none
positive_amount (some base) = if leb_ℤ base (pos 0) then none else some base

unfoldable pub parse_amount : Option Text → Option ℤ
parse_amount raw = positive_amount (to_base_units (get_or raw (codes "100")))

abbrev pub is_nought : ℕ → Bool
is_nought c = nat_beq c 48

abbrev pub fraction_of : ℤ → Text
fraction_of base = pad_start 7 (show_int (rem base unit))

unfoldable pub format_units : ℤ → Text
format_units base =
    let whole = show_int (base /ℤ pos unit) in
    let fraction = drop_end is_nought (fraction_of base) in
    if is_empty fraction then whole else whole ++ dot ∷ fraction

abbrev pub or_nought : Text → Text
or_nought [] = 48 ∷ []
or_nought (c ∷ s) = c ∷ s

abbrev pub is_dot : Text → Bool
is_dot [] = false
is_dot (c ∷ []) = nat_beq c dot
is_dot (c ∷ d ∷ s) = false

unfoldable pub to_amount : Text → Option ℤ
to_amount decimal =
    let cleaned = trim (keep (λ c. not (nat_beq c 44)) decimal) in
    let (whole, rest) = split_dot cleaned in
    if is_empty cleaned || is_dot cleaned
    then some (pos 0)
    else units_and (big_int whole)
        (big_int (or_nought (take 7 (second_of rest ++ codes "0000000"))))

unfoldable pub from_amount : ℤ → Text
from_amount a = show_int (a /ℤ pos unit) ++ dot ∷ take 2 (fraction_of a)

-- The first dot stays, the others go.
abbrev pub one_dot : Text → Text
one_dot [] = []
one_dot (c ∷ s) =
    let rest = one_dot s in
    if nat_beq c dot then c ∷ keep (λ d. not (nat_beq d dot)) s else c ∷ rest

-- `v.replace(/^0+(?=\d)/, "")`
abbrev pub lead : Text → Text
lead [] = []
lead (c ∷ []) = c ∷ []
lead (c ∷ d ∷ s) = let rest = lead (d ∷ s) in if is_nought c && is_digit d then rest else c ∷ d ∷ s

abbrev pub before_dot : Text → Text
before_dot [] = 48 ∷ []
before_dot (c ∷ s) = if nat_beq c dot then 48 ∷ c ∷ s else c ∷ s

abbrev pub comma_to_dot : ℕ → ℕ
comma_to_dot c = if nat_beq c 44 then dot else c

unfoldable pub sanitize_amount : Text → Text
sanitize_amount raw =
    before_dot (lead (one_dot (keep (λ c. is_digit c || nat_beq c dot) (map comma_to_dot raw))))
