-- ===== src/Amounts/Sanitize.antt =====
-- What a sanitized text is, and that it is read as an amount (frontend/lib/vault/sanitize.ts,
-- frontend/lib/vault/units.ts).
use sorosense.Base.{
  ℕ, ◌*◌, ◌+◌, true, false, Bool-cases, some, [], ◌∷◌, ◌++◌, take, keep, map, All, nat_beq, not,
  ◌||◌, ◌&&◌, ◌≡◌, refl, ap, ◌∙◌, ◌⊎◌, inl, inr, arith,
}
use mathlib.Core.Path.{ap₂}
use sorosense.Lists.{All-append, All-take, keep-All_of}
use sorosense.Int.{pos, ◌*ℤ◌, ◌+ℤ◌}
use sorosense.Decimal.{Text, codes, is_digit, dot, is_empty, value, big_int}
use sorosense.Decimal.Values.{IsDigit}
use sorosense.Decimal.Reading.{trim_digits, digits_no_space, split_dot-digits, big_int-digits}
use sorosense.Amounts.{
  unit, units_and, to_amount, or_nought, is_dot, is_nought, one_dot, lead, before_dot, comma_to_dot,
  sanitize_amount,
}
use sorosense.Amounts.RoundTrip.{
  to_amount_parts, no_comma, digits_no_comma, noughts, or_nought_digits,
}

-- Digits, with at most one dot among them.
abbrev HasOneDot : Text → Type 0
HasOneDot s =
    All IsDigit s
    ⊎ ((w : Text) × ((f : Text) × ((s ≡ w ++ dot ∷ f) × All IsDigit w × All IsDigit f)))

-- The same, with a digit in front.
abbrev pub IsPlain : Text → Type 0
IsPlain s =
    (is_empty s ≡ false)
    × (All IsDigit s
        ⊎ ((w : Text) × ((f : Text) × ((s ≡ w ++ dot ∷ f)
                × (is_empty w ≡ false)
                × All IsDigit w
                × All IsDigit f))))

kept_char : (c : ℕ) → (is_digit c || nat_beq c dot) ≡ true → nat_beq c dot ≡ false → IsDigit c
kept_char c h k = ground (arith, h, k)

digits_of_kept :
    (s : Text)
    → All (λ c. (is_digit c || nat_beq c dot) ≡ true) s
    → All IsDigit (keep (λ d. not (nat_beq d dot)) s)
digits_of_kept [] h = tt
digits_of_kept (c ∷ s) (hc, h) = elim (Bool-cases (nat_beq c dot)) [
  | inl is_a_dot ↦ rw is_a_dot (digits_of_kept s h)
  | inr no_dot ↦ rw no_dot (kept_char c hc no_dot, digits_of_kept s h)
]

more_digit : (c : ℕ) (s : Text) → IsDigit c → HasOneDot s → HasOneDot (c ∷ s)
more_digit c s hc (inl h) = inl (hc, h)
more_digit c s hc (inr (w, (f, (e, hw, hf)))) = inr (c ∷ w, (f, (ap (λ t. c ∷ t) e, (hc, hw), hf)))

one_dot-HasOneDot :
    (s : Text) → All (λ c. (is_digit c || nat_beq c dot) ≡ true) s → HasOneDot (one_dot s)
one_dot-HasOneDot [] h = inl tt
one_dot-HasOneDot (c ∷ s) (hc, h) = elim (Bool-cases (nat_beq c dot)) [
  | inl is_a_dot ↦
      let c_dot : c ≡ dot = ground (arith, is_a_dot) in
      rw is_a_dot (
        inr (
          [],
          (
            keep (λ d. not (nat_beq d dot)) s,
            (ap (λ d. d ∷ keep (λ d. not (nat_beq d dot)) s) c_dot, tt, digits_of_kept s h),
          ),
        ))
  | inr no_dot ↦
      rw no_dot (more_digit c (one_dot s) (kept_char c hc no_dot) (one_dot-HasOneDot s h))
]

abbrev first_of : Text → ℕ
first_of [] = 0
first_of (c ∷ s) = c

abbrev rest_of : Text → Text
rest_of [] = []
rest_of (c ∷ s) = s

less_nought : (c : ℕ) (s : Text) → is_nought c ≡ true → HasOneDot (c ∷ s) → HasOneDot s
less_nought c s hc (inl (_, h)) = inl h
less_nought c s hc (inr ([], (f, (e, hw, hf)))) =
    let c_dot : c ≡ dot = ap first_of e in absurd (ground (arith, hc, c_dot))
less_nought c s hc (inr (d ∷ w, (f, (e, (hd, hw), hf)))) = inr (w, (f, (ap rest_of e, hw, hf)))

lead-HasOneDot : (s : Text) → HasOneDot s → HasOneDot (lead s)
lead-HasOneDot [] h = h
lead-HasOneDot (c ∷ []) h = h
lead-HasOneDot (c ∷ d ∷ s) h = elim (Bool-cases (is_nought c && is_digit d)) [
  | inl dropped ↦
      rw dropped (lead-HasOneDot (d ∷ s) (less_nought c (d ∷ s) (ground (arith, dropped)) h))
  | inr kept ↦ rw kept h
]

kept_chars :
    (s : Text)
    → All (λ c. (is_digit c || nat_beq c dot) ≡ true) (keep (λ c. is_digit c || nat_beq c dot) s)
kept_chars s = keep-All_of _ (λ c. is_digit c || nat_beq c dot) s (λ c h. h)

before_dot-IsPlain : (s : Text) → HasOneDot s → IsPlain (before_dot s)
before_dot-IsPlain [] h = (refl, inl ((omega arith, omega arith), tt))
before_dot-IsPlain (c ∷ s) (inl (hc, h)) =
    let no_dot : nat_beq c dot ≡ false = ground (arith, hc) in rw no_dot (refl, inl (hc, h))
before_dot-IsPlain (c ∷ s) (inr ([], (f, (e, hw, hf)))) =
    let c_dot : nat_beq c dot ≡ true = ground (arith, ap first_of e) in
    rw c_dot
      (refl, inr (48 ∷ [], (f, (ap (λ t. 48 ∷ t) e, refl, ((omega arith, omega arith), tt), hf))))
before_dot-IsPlain (c ∷ s) (inr (d ∷ w, (f, (e, (hd, hw), hf)))) =
    let no_dot : nat_beq c dot ≡ false = ground (arith, hd, ap first_of e) in
    rw no_dot (refl, inr (d ∷ w, (f, (e, refl, (hd, hw), hf))))

whole_amount :
    (s : Text)
    → is_empty s ≡ false
    → All IsDigit s
    → to_amount s ≡ units_and (big_int s) (big_int (or_nought (take 7 (codes "0000000"))))
unfolding to_amount
whole_amount s full h =
    rw
      (
        no_comma s (digits_no_comma s h),
        trim_digits s (digits_no_space s h),
        full,
        no_lone_dot s h,
        split_dot-digits s h,
      )
      refl
  where
    no_lone_dot : (s : Text) → All IsDigit s → is_dot s ≡ false
    no_lone_dot [] h = refl
    no_lone_dot (c ∷ []) (hc, h) = ground (arith, hc)
    no_lone_dot (c ∷ d ∷ s) h = refl

parts_read :
    (w f : Text)
    → All IsDigit w
    → All IsDigit f
    → units_and (big_int w) (big_int (or_nought (take 7 (f ++ codes "0000000"))))
      ≡ some (pos (value w * unit + value (or_nought (take 7 (f ++ codes "0000000")))))
unfolding ◌*ℤ◌ ◌+ℤ◌
parts_read w f hw hf =
    let filled = or_nought (take 7 (f ++ codes "0000000")) in
    let digits : All IsDigit filled = or_nought_digits (take 7 (f ++ codes "0000000")) (
      All-take IsDigit 7 (f ++ codes "0000000")
        (All-append IsDigit f (codes "0000000") hf noughts)) in
    ap₂ units_and (big_int-digits w hw) (big_int-digits filled digits)

plain_amount : (s : Text) → IsPlain s → (n : ℕ) × (to_amount s ≡ some (pos n))
plain_amount s (full, inl h) = (_, whole_amount s full h ∙ parts_read s [] h tt)
plain_amount s (full, inr (w, (f, (e, w_full, hw, hf)))) =
    (_, ap to_amount e ∙ to_amount_parts w f hw hf w_full ∙ parts_read w f hw hf)

-- Whatever is typed, the sanitized text is not empty and has digits alone, or digits, one dot and
-- perhaps digits; and it is read as an amount that is not negative, so that reading it never throws.
pub sanitize_amount_lem :
    (raw : Text)
    → IsPlain (sanitize_amount raw) × ((n : ℕ) × (to_amount (sanitize_amount raw) ≡ some (pos n)))
unfolding sanitize_amount
sanitize_amount_lem raw =
    let chars = kept_chars (map comma_to_dot raw) in
    let plain = before_dot-IsPlain _ (lead-HasOneDot _ (one_dot-HasOneDot _ chars)) in
    (plain, plain_amount _ plain)
