-- ===== src/Decimal/Reading.antt =====
-- What reading a decimal text does: trimming, splitting at the dot and `BigInt`.
use sorosense.Base.{
  ℕ, ◌+◌, ◌-◌, ◌*◌, false, [], ◌∷◌, ◌++◌, All, All-weaken, nat_beq, none, some, ◌≡◌, refl, ap, ◌∙◌,
  arith,
}
use sorosense.Int.{pos}
use sorosense.Text.{is_space}
use sorosense.Decimal.{
  Text, dot, value_from, value, drop_end, drop_start, trim, split_dot, number_in, big_int, literal,
  digit_in, radix_of, signed,
}
use sorosense.Decimal.Values.{IsDigit}

-- Text without spaces is not trimmed.
pub trim_digits : (s : Text) → All (λ c. is_space c ≡ false) s → trim s ≡ s
unfolding trim
trim_digits s h = ap (drop_end is_space) (start_kept s h) ∙ end_kept s h
  where
    start_kept : (s : Text) → All (λ c. is_space c ≡ false) s → drop_start is_space s ≡ s
    start_kept [] h = refl
    start_kept (c ∷ s) (hc, h) = rw hc refl

    end_kept : (s : Text) → All (λ c. is_space c ≡ false) s → drop_end is_space s ≡ s
    end_kept [] h = refl
    end_kept (c ∷ s) (hc, h) = rw hc (ap (λ t. c ∷ t) (end_kept s h))

pub digit_no_space : (c : ℕ) → IsDigit c → is_space c ≡ false
digit_no_space c (lo, hi) = ground arith

pub digits_no_space : (s : Text) → All IsDigit s → All (λ c. is_space c ≡ false) s
digits_no_space = All-weaken digit_no_space

pub split_dot-digits : (s : Text) → All IsDigit s → split_dot s ≡ (s, [])
unfolding split_dot
split_dot-digits [] h = refl
split_dot-digits (c ∷ s) (hc, h) =
    let no_dot : nat_beq c dot ≡ false = ground arith in
    rw no_dot (ap (λ u. (c ∷ u.0, u.1)) (split_dot-digits s h))

pub split_dot-dot :
    (s t : Text) → All IsDigit s → All IsDigit t → split_dot (s ++ dot ∷ t) ≡ (s, t ∷ [])
unfolding split_dot
split_dot-dot [] t h k = ap (λ u. ([], u.0 ∷ u.1)) (split_dot-digits t k)
split_dot-dot (c ∷ s) t (hc, h) k =
    let no_dot : nat_beq c dot ≡ false = ground arith in
    rw no_dot (ap (λ u. (c ∷ u.0, u.1)) (split_dot-dot s t h k))

digit_of_ten : (c : ℕ) → IsDigit c → digit_in 10 c ≡ some (c - 48)
unfolding digit_in
digit_of_ten c (lo, hi) = ground arith

number_in-value : (n : ℕ) (s : Text) → All IsDigit s → number_in 10 n s ≡ some (value_from n s)
unfolding number_in value_from
number_in-value n [] h = refl
number_in-value n (c ∷ s) (hc, h) =
    rw (number_in, digit_of_ten c hc) (number_in-value (10 * n + (c - 48)) s h)

signed_digits : (c : ℕ) (s : Text) → All IsDigit (c ∷ s) → signed c s ≡ some (pos (value (c ∷ s)))
signed_digits c s (hc, h) =
    let no_minus : nat_beq c 45 ≡ false = ground arith in
    let no_plus : nat_beq c 43 ≡ false = ground arith in
    rw (no_minus, no_plus, number_in-value 0 (c ∷ s) (hc, h)) refl

no_radix : (c x : ℕ) → IsDigit x → radix_of c x ≡ none
unfolding radix_of
no_radix c x (lo, hi) = ground arith

literal_digits : (s : Text) → All IsDigit s → literal s ≡ some (pos (value s))
unfolding value_from
literal_digits [] h = refl
literal_digits (c ∷ []) h = signed_digits c [] h
literal_digits (c ∷ x ∷ s) (hc, (hx, h)) =
    rw (literal, no_radix c x hx) (signed_digits c (x ∷ s) (hc, (hx, h)))

-- The bigint of digits is the number that they read as.
pub big_int-digits : (s : Text) → All IsDigit s → big_int s ≡ some (pos (value s))
unfolding big_int
big_int-digits s h = rw (trim_digits s (digits_no_space s h)) (literal_digits s h)
