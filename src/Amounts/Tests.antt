-- ===== src/Amounts/Tests.antt =====
-- Amounts at concrete texts.
use sorosense.Base.{◌≡◌, refl, ℕ, ◌-◌, ◌%◌, none, some}
use sorosense.Int.{pos, ◌/ℤ◌}
use sorosense.Decimal.{codes, digits, show, pad_start, trim, split_dot}
use sorosense.Amounts.{to_base_units, format_units, to_amount, from_amount, sanitize_amount}
use sorosense.Amounts.RoundTrip.{to_base_units-format_units, to_amount-from_amount}
use sorosense.Amounts.Sanitize.{IsPlain, sanitize_amount_lem}

printed : format_units (pos 125_000_000) ≡ codes "12.5"
unfolding format_units show digits pad_start ◌/ℤ◌
printed = refl

refused_text : to_base_units (codes "1.23456789") ≡ none
unfolding to_base_units trim split_dot
refused_text = refl

to_base_units-format_units_example :
    to_base_units (format_units (pos 125_000_000)) ≡ some (pos 125_000_000)
to_base_units-format_units_example = to_base_units-format_units 125_000_000

to_amount-from_amount_example :
    to_amount (from_amount (pos 19_999_999)) ≡ some (pos (19_999_999 - 19_999_999 % 100_000))
to_amount-from_amount_example = to_amount-from_amount 19_999_999

sanitized : sanitize_amount (codes "0,1.5x") ≡ codes "0.15"
unfolding sanitize_amount
sanitized = refl

sanitize_amount_lem_example :
    IsPlain (sanitize_amount (codes "0,1.5x"))
    × ((n : ℕ) × (to_amount (sanitize_amount (codes "0,1.5x")) ≡ some (pos n)))
sanitize_amount_lem_example = sanitize_amount_lem (codes "0,1.5x")
