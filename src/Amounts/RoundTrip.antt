-- ===== src/Amounts/RoundTrip.antt =====
-- Amounts that are printed and read again (backend/src/scripts/demo-seed.ts,
-- frontend/lib/vault/units.ts).
use sorosense.Base.{
  ℕ, ◌-◌, ◌/◌, ◌%◌, ◌≤◌, Bool, true, false, Bool-cases, some, [], ◌∷◌, ◌++◌, length, take, keep,
  All, All-weaken, nat_beq, not, ◌≡◌, refl, sym, ap, ◌∙◌, inl, inr, arith,
}
use mathlib.Core.Path.{ap₂}
use sorosense.Lists.{All-append, All-take}
use sorosense.Int.{pos, ◌+ℤ◌, ◌*ℤ◌, ◌/ℤ◌}
use sorosense.Text.{is_space}
use sorosense.Decimal.{
  Text, codes, is_digit, dot, is_empty, show, value_from, value, pad_end, drop_end, drop_start,
  big_int,
}
use sorosense.Decimal.Values.{
  IsDigit, Below, value-show, show-digits, length-show, value-pad_start, All-pad_start,
  length-pad_start, pad_end-drop_end, All-drop_end, show_full, empty_text,
}
use sorosense.Decimal.Reading.{
  trim_digits, digits_no_space, split_dot-digits, split_dot-dot, big_int-digits,
}
use sorosense.Amounts.{
  unit, is_decimal, units_and, to_base_units, is_nought, fraction_of, format_units, to_amount,
  from_amount, or_nought, is_dot,
}

-- The seven digits of the part of a unit.
part :
    (n : ℕ)
    → (length (fraction_of (pos n)) ≡ 7)
      × (All IsDigit (fraction_of (pos n)))
      × (value (fraction_of (pos n)) ≡ n % unit)
unfolding Below
part n = (
  length-pad_start 7 (show (n % unit)) (length-show 6 (n % unit) (omega arith)),
  All-pad_start 7 (show (n % unit)) (show-digits (n % unit)),
  value-pad_start 7 (show (n % unit)) ∙ value-show (n % unit),
)

drop_start-digits :
    (s t : Text) → All IsDigit s → drop_start is_digit (s ++ t) ≡ drop_start is_digit t
drop_start-digits [] t h = refl
drop_start-digits (c ∷ s) t (hc, h) =
    let digit : is_digit c ≡ true = ground (arith, hc) in rw digit (drop_start-digits s t h)

no_digits_left : (s : Text) → All IsDigit s → drop_start is_digit s ≡ []
no_digits_left [] h = refl
no_digits_left (c ∷ s) (hc, h) =
    let digit : is_digit c ≡ true = ground (arith, hc) in rw digit (no_digits_left s h)

length-drop_end : (p : ℕ → Bool) (s : Text) → length (drop_end p s) ≤ length s
length-drop_end p [] = omega arith
length-drop_end p (c ∷ s) = ground (arith, length-drop_end p s)

-- What a text with digits on both sides of a dot is, to the expression.
decimal_of :
    (s f : Text)
    → All IsDigit s
    → All IsDigit f
    → is_empty s ≡ false
    → is_empty f ≡ false
    → length f ≤ 7
    → is_decimal (s ++ dot ∷ f) ≡ true
decimal_of [] f hs hf s_full f_full le = absurd (cc s_full)
decimal_of (c ∷ s) [] hs hf s_full f_full le = absurd (cc f_full)
decimal_of (c ∷ s) (d ∷ f) (hc, hs) hf s_full f_full le =
    let digit : is_digit c ≡ true = ground (arith, hc) in
    rw (digit, drop_start-digits s (dot ∷ d ∷ f) hs, no_digits_left (d ∷ f) hf) (ground (arith, le))

whole_decimal : (s : Text) → All IsDigit s → is_empty s ≡ false → is_decimal s ≡ true
whole_decimal [] hs s_full = absurd (cc s_full)
whole_decimal (c ∷ s) (hc, hs) s_full =
    let digit : is_digit c ≡ true = ground (arith, hc) in rw (digit, no_digits_left s hs) refl

no_space_dot :
    (s f : Text) → All IsDigit s → All IsDigit f → All (λ c. is_space c ≡ false) (s ++ dot ∷ f)
no_space_dot s f hs hf =
    All-append (λ c. is_space c ≡ false) s (dot ∷ f) (digits_no_space s hs)
      (refl, digits_no_space f hf)

to_base_units_whole :
    (s : Text)
    → All IsDigit s
    → is_empty s ≡ false
    → to_base_units s ≡ units_and (big_int s) (big_int (pad_end 7 []))
unfolding to_base_units
to_base_units_whole s hs s_full =
    rw (trim_digits s (digits_no_space s hs), whole_decimal s hs s_full, split_dot-digits s hs) refl

to_base_units_parts :
    (s f : Text)
    → All IsDigit s
    → All IsDigit f
    → is_empty s ≡ false
    → is_empty f ≡ false
    → length f ≤ 7
    → to_base_units (s ++ dot ∷ f) ≡ units_and (big_int s) (big_int (pad_end 7 f))
unfolding to_base_units
to_base_units_parts s f hs hf s_full f_full le =
    rw
      (
        trim_digits (s ++ dot ∷ f) (no_space_dot s f hs hf),
        decimal_of s f hs hf s_full f_full le,
        split_dot-dot s f hs hf,
      )
      refl

put_together : (n : ℕ) → units_and (some (pos (n / unit))) (some (pos (n % unit))) ≡ some (pos n)
unfolding ◌*ℤ◌ ◌+ℤ◌
put_together n = ap (λ k. some (pos k)) (omega arith)

-- Every amount that is not negative, printed as a decimal, is read back to the unit.
pub to_base_units-format_units : (n : ℕ) → to_base_units (format_units (pos n)) ≡ some (pos n)
unfolding format_units ◌/ℤ◌
to_base_units-format_units n =
    let whole = show (n / unit) in
    let fraction = drop_end is_nought (fraction_of (pos n)) in
    let whole_digits = show-digits (n / unit) in
    let (seven, digits, worth) = part n in
    let fraction_digits = All-drop_end (fraction_of (pos n)) digits in
    let padded : pad_end 7 fraction ≡ fraction_of (pos n) =
      ap (λ k. pad_end k fraction) (sym seven) ∙ pad_end-drop_end (fraction_of (pos n)) in
    let parts : units_and (big_int whole) (big_int (pad_end 7 fraction)) ≡ some (pos n) =
      ap₂ units_and
        (big_int-digits whole whole_digits ∙ ap (λ k. some (pos k)) (value-show (n / unit)))
        (ap big_int padded
          ∙ big_int-digits (fraction_of (pos n)) digits
          ∙ ap (λ k. some (pos k)) worth)
      ∙ put_together n in
    elim (Bool-cases (is_empty fraction)) [
      | inl none_left ↦ rw none_left (
          to_base_units_whole whole whole_digits (show_full (n / unit))
          ∙ ap (λ f. units_and (big_int whole) (big_int (pad_end 7 f)))
              (sym (empty_text fraction none_left))
          ∙ parts)
      | inr some_left ↦ rw some_left (
          to_base_units_parts whole fraction whole_digits fraction_digits (show_full (n / unit))
            some_left (omega (arith, length-drop_end is_nought (fraction_of (pos n)), seven))
          ∙ parts)
    ]

-- The first two of seven digits, and noughts behind them, read as what they are without the rest.
two_of_seven :
    (p : Text)
    → length p ≡ 7
    → All IsDigit p
    → value (or_nought (take 7 (take 2 p ++ codes "0000000"))) ≡ value p - value p % 100_000
unfolding value_from
two_of_seven (a ∷ b ∷ c ∷ d ∷ e ∷ f ∷ g ∷ []) h digits = omega (arith, digits)
two_of_seven [] h digits = absurd (omega arith)
two_of_seven (a ∷ []) h digits = absurd (omega arith)
two_of_seven (a ∷ b ∷ []) h digits = absurd (omega arith)
two_of_seven (a ∷ b ∷ c ∷ []) h digits = absurd (omega arith)
two_of_seven (a ∷ b ∷ c ∷ d ∷ []) h digits = absurd (omega arith)
two_of_seven (a ∷ b ∷ c ∷ d ∷ e ∷ []) h digits = absurd (omega arith)
two_of_seven (a ∷ b ∷ c ∷ d ∷ e ∷ f ∷ []) h digits = absurd (omega arith)
two_of_seven (a ∷ b ∷ c ∷ d ∷ e ∷ f ∷ g ∷ i ∷ s) h digits = absurd (omega arith)

pub no_comma : (s : Text) → All (λ c. nat_beq c 44 ≡ false) s → keep (λ c. not (nat_beq c 44)) s ≡ s
no_comma [] h = refl
no_comma (c ∷ s) (hc, h) = rw hc (ap (λ t. c ∷ t) (no_comma s h))

pub digits_no_comma : (s : Text) → All IsDigit s → All (λ c. nat_beq c 44 ≡ false) s
digits_no_comma = All-weaken (λ c h. ground (arith, h))

not_lone :
    (s f : Text)
    → is_empty s ≡ false
    → (is_empty (s ++ dot ∷ f) ≡ false) × (is_dot (s ++ dot ∷ f) ≡ false)
not_lone [] f h = absurd (cc h)
not_lone (c ∷ []) f h = (refl, refl)
not_lone (c ∷ d ∷ s) f h = (refl, refl)

pub to_amount_parts :
    (s f : Text)
    → All IsDigit s
    → All IsDigit f
    → is_empty s ≡ false
    → to_amount (s ++ dot ∷ f)
      ≡ units_and (big_int s) (big_int (or_nought (take 7 (f ++ codes "0000000"))))
unfolding to_amount
to_amount_parts s f hs hf s_full =
    let commas =
      All-append (λ c. nat_beq c 44 ≡ false) s (dot ∷ f) (digits_no_comma s hs)
        (refl, digits_no_comma f hf) in
    let (full, more) = not_lone s f s_full in
    rw
      (
        no_comma (s ++ dot ∷ f) commas,
        trim_digits (s ++ dot ∷ f) (no_space_dot s f hs hf),
        full,
        more,
        split_dot-dot s f hs hf,
      )
      refl

pub noughts : All IsDigit (codes "0000000")
noughts = omega arith

pub or_nought_digits : (s : Text) → All IsDigit s → All IsDigit (or_nought s)
or_nought_digits [] h = ((omega arith, omega arith), tt)
or_nought_digits (c ∷ s) h = h

cents :
    (n : ℕ)
    → units_and (some (pos (n / unit))) (some (pos (n % unit - n % unit % 100_000)))
      ≡ some (pos (n - n % 100_000))
unfolding ◌*ℤ◌ ◌+ℤ◌
cents n = ap (λ k. some (pos k)) (omega arith)

-- An amount that is not negative, printed with two decimals, is read back without what is below a
-- hundredth of a unit, and with nothing more.
pub to_amount-from_amount : (n : ℕ) → to_amount (from_amount (pos n)) ≡ some (pos (n - n % 100_000))
unfolding from_amount ◌/ℤ◌
to_amount-from_amount n =
    let whole = show (n / unit) in
    let (seven, digits, worth) = part n in
    let two = take 2 (fraction_of (pos n)) in
    let two_digits = All-take IsDigit 2 (fraction_of (pos n)) digits in
    let filled = or_nought (take 7 (two ++ codes "0000000")) in
    let filled_digits : All IsDigit filled = or_nought_digits (take 7 (two ++ codes "0000000")) (
      All-take IsDigit 7 (two ++ codes "0000000")
        (All-append IsDigit two (codes "0000000") two_digits noughts)) in
    to_amount_parts whole two (show-digits (n / unit)) two_digits (show_full (n / unit))
    ∙ ap₂ units_and
        (big_int-digits whole (show-digits (n / unit))
          ∙ ap (λ k. some (pos k)) (value-show (n / unit)))
        (big_int-digits filled filled_digits
          ∙ ap (λ k. some (pos k))
              (two_of_seven (fraction_of (pos n)) seven digits ∙ ap (λ k. k - k % 100_000) worth))
    ∙ cents n
