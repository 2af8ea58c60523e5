-- ===== src/Decimal.antt =====
-- What the program does with decimal texts by JavaScript's library: texts as lists of code points,
-- `String` and `BigInt` of a bigint, `trim`, `split`, `padStart` and `padEnd`.
pub mod Values
pub mod Reading
use sorosense.Base.{
  ℕ, zero, suc, ◌+◌, ◌-◌, ◌*◌, ◌/◌, ◌%◌, String, Bool, true, false, Option, none, some, List, [],
  ◌∷◌, ◌++◌, length, ltb, leb, nat_beq, not, ◌&&◌, ◌||◌, if◌then◌else◌,
}
use mathlib.Core.Option
use sorosense.Int.{ℤ, pos, negsuc, ◌-ℤ◌}
use sorosense.Text.{is_space}
use Prim.Native.Char.{code}

abbrev pub Text : Type 0
Text = List ℕ

abbrev pub codes : String → Text
codes String.[] = []
codes (String.◌∷◌ c s) = code c ∷ codes s

abbrev pub is_digit : ℕ → Bool
is_digit c = leb 48 c && leb c 57

abbrev pub dot : ℕ
dot = 46

abbrev pub is_empty : Text → Bool
is_empty [] = true
is_empty (c ∷ s) = false

-- The digits of a number in front of a text; `fuel` is at least the number.
unfoldable pub digits : ℕ → ℕ → Text → Text
digits zero n s = s
digits (suc fuel) n s =
    let rest = digits fuel (n / 10) ((48 + n % 10) ∷ s) in if ltb 0 n then rest else s

unfoldable pub show : ℕ → Text
show n = if ltb 0 n then digits n n [] else 48 ∷ []

abbrev pub show_int : ℤ → Text
show_int (pos n) = show n
show_int (negsuc n) = 45 ∷ show (suc n)

-- What digits read as, behind the number `n`.
unfoldable pub value_from : ℕ → Text → ℕ
value_from n [] = n
value_from n (c ∷ s) = value_from (10 * n + (c - 48)) s

abbrev pub value : Text → ℕ
value = value_from 0

abbrev pub zeros : ℕ → Text
zeros zero = []
zeros (suc n) = 48 ∷ zeros n

-- `s.padStart(n, "0")` and `s.padEnd(n, "0")`
unfoldable pub pad_start : ℕ → Text → Text
pad_start n s = zeros (n - length s) ++ s

unfoldable pub pad_end : ℕ → Text → Text
pad_end zero s = s
pad_end (suc n) [] = 48 ∷ pad_end n []
pad_end (suc n) (c ∷ s) = c ∷ pad_end n s

-- `s.replace(/0+$/, "")`, and the same for spaces
abbrev pub drop_end : (ℕ → Bool) → Text → Text
drop_end p [] = []
drop_end p (c ∷ s) = let rest = drop_end p s in if p c && is_empty rest then [] else c ∷ rest

abbrev pub drop_start : (ℕ → Bool) → Text → Text
drop_start p [] = []
drop_start p (c ∷ s) = let rest = drop_start p s in if p c then rest else c ∷ s

unfoldable pub trim : Text → Text
trim s = drop_end is_space (drop_start is_space s)

-- `s.split(".")`: the text up to the first dot and those behind it.
unfoldable pub split_dot : Text → Text × List Text
split_dot [] = ([], [])
split_dot (c ∷ s) =
    let (first, rest) = split_dot s in
    if nat_beq c dot then ([], first ∷ rest) else (c ∷ first, rest)

-- The second part of a split, if there is one.
abbrev pub second_of : List Text → Text
second_of [] = []
second_of (s ∷ rest) = s

-- The value of a digit below the radix.
unfoldable pub digit_in : ℕ → ℕ → Option ℕ
digit_in radix c =
    let v =
      if is_digit c
      then c - 48
      else if leb 97 c && leb c 102
      then c - 87
      else if leb 65 c && leb c 70
      then c - 55
      else 16 in
    if ltb v radix then some v else none

unfoldable pub number_in : ℕ → ℕ → Text → Option ℕ
number_in radix n [] = some n
number_in radix n (c ∷ s) = elim (digit_in radix c) [
  | none ↦ none
  | some v ↦ number_in radix (radix * n + v) s
]

abbrev nonempty_in : ℕ → Text → Option ℕ
nonempty_in radix [] = none
nonempty_in radix (c ∷ s) = number_in radix 0 (c ∷ s)

abbrev lower : ℕ → ℕ
lower c = if leb 65 c && leb c 90 then c + 32 else c

-- The radix that a prefix names.
unfoldable pub radix_of : ℕ → ℕ → Option ℕ
radix_of c x =
    if nat_beq c 48
    then (if nat_beq (lower x) 120
        then some 16
        else if nat_beq (lower x) 111
        then some 8
        else if nat_beq (lower x) 98
        then some 2
        else none)
    else none

abbrev pub signed : ℕ → Text → Option ℤ
signed c s =
    if nat_beq c 45
    then Option.map (λ n. pos 0 -ℤ pos n) (nonempty_in 10 s)
    else if nat_beq c 43
    then Option.map pos (nonempty_in 10 s)
    else Option.map pos (number_in 10 0 (c ∷ s))

-- The literal of a bigint: digits behind at most a sign, or digits of another radix behind its prefix.
abbrev pub literal : Text → Option ℤ
literal [] = some (pos 0)
literal (c ∷ []) = signed c []
literal (c ∷ x ∷ s) = elim (radix_of c x) [
  | none ↦ signed c (x ∷ s)
  | some radix ↦ Option.map pos (nonempty_in radix s)
]

-- `BigInt(s)`; `none` is a throw.
unfoldable pub big_int : Text → Option ℤ
big_int s = literal (trim s)
