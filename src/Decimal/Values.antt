-- ===== src/Decimal/Values.antt =====
-- Decimal texts and what they read as.
use sorosense.Base.{
  ℕ, zero, suc, ◌+◌, ◌-◌, ◌*◌, ◌/◌, ◌%◌, ◌≤◌, Bool, true, false, [], ◌∷◌, ◌++◌, length, All, ltb,
  nat_beq, ◌≡◌, refl, sym, ap, ◌∙◌, arith, Bool-cases, inl, inr, ◌⊎◌, ◌&&◌,
}
use mathlib.Core.Path.{ap₂}
use sorosense.Lists.{All-append}
use sorosense.Decimal.{
  Text, is_empty, digits, show, value_from, value, zeros, pad_start, pad_end, drop_end,
}

abbrev pub IsDigit : ℕ → Type 0
IsDigit c = (48 ≤ c) × (c ≤ 57)

-- The digits of a number, put before a text, read as the number before that text.
pub value_from-digits :
    (fuel n : ℕ) (s : Text) → n ≤ fuel → value_from 0 (digits fuel n s) ≡ value_from n s
unfolding digits value_from
value_from-digits zero n s h = ap (λ k. value_from k s) (omega arith)
value_from-digits (suc fuel) n s h = elim (Bool-cases (ltb 0 n)) [
  | inl more ↦
      rw more (
        value_from-digits fuel (n / 10) ((48 + n % 10) ∷ s) (ground (arith, more)) ∙ value_last n s)
  | inr done ↦ rw done (ap (λ k. value_from k s) (ground (arith, done)))
]
  where
    value_last : (n : ℕ) (s : Text) → value_from (n / 10) ((48 + n % 10) ∷ s) ≡ value_from n s
    value_last n s = ap (λ k. value_from k s) (omega arith)

pub All-digits : (fuel n : ℕ) (s : Text) → All IsDigit s → All IsDigit (digits fuel n s)
unfolding digits
All-digits zero n s h = h
All-digits (suc fuel) n s h = elim (Bool-cases (ltb 0 n)) [
  | inl more ↦
      rw more (All-digits fuel (n / 10) ((48 + n % 10) ∷ s) ((omega arith, omega arith), h))
  | inr done ↦ rw done h
]

pub value-show : (n : ℕ) → value (show n) ≡ n
unfolding show value_from
value-show n = elim (Bool-cases (ltb 0 n)) [
  | inl more ↦ rw more (value_from-digits n n [] (omega arith) ∙ refl)
  | inr done ↦ rw done (ground (arith, done))
]

pub show-digits : (n : ℕ) → All IsDigit (show n)
unfolding show
show-digits n = elim (Bool-cases (ltb 0 n)) [
  | inl more ↦ rw more (All-digits n n [] tt)
  | inr done ↦ rw done ((omega arith, omega arith), tt)
]

digits_full : (fuel n : ℕ) (s : Text) → is_empty s ≡ false → is_empty (digits fuel n s) ≡ false
unfolding digits
digits_full zero n s h = h
digits_full (suc fuel) n s h = elim (Bool-cases (ltb 0 n)) [
  | inl more ↦ rw more (digits_full fuel (n / 10) ((48 + n % 10) ∷ s) refl)
  | inr done ↦ rw done h
]

pub show_full : (n : ℕ) → is_empty (show n) ≡ false
unfolding show digits
show_full zero = refl
show_full (suc n) =
    let more : ltb 0 (suc n) ≡ true = ground arith in
    rw more (digits_full n (suc n / 10) ((48 + suc n % 10) ∷ []) refl)

-- Numbers below a power of ten, by the number of its noughts.
unfoldable pub Below : ℕ → ℕ → Type 0
Below zero n = n ≤ 0
Below (suc k) n = Below k (n / 10)

digits_zero : (fuel : ℕ) (s : Text) → digits fuel 0 s ≡ s
unfolding digits
digits_zero zero s = refl
digits_zero (suc fuel) s = refl

pub length-digits : (k fuel n : ℕ) (s : Text) → Below k n → length (digits fuel n s) ≤ k + length s
unfolding digits Below
length-digits zero fuel n s h =
    let none_left : n ≡ 0 = omega (arith, h) in rw none_left (rw (digits_zero fuel s) (omega arith))
length-digits (suc k) zero n s h = omega arith
length-digits (suc k) (suc fuel) n s h = elim (Bool-cases (ltb 0 n)) [
  | inl more ↦ rw more (omega (arith, length-digits k fuel (n / 10) ((48 + n % 10) ∷ s) h))
  | inr done ↦ rw done (omega arith)
]

pub length-show : (k n : ℕ) → Below (suc k) n → length (show n) ≤ suc k
unfolding show
length-show k n h = elim (Bool-cases (ltb 0 n)) [
  | inl more ↦ rw more (omega (arith, length-digits (suc k) n n [] h))
  | inr done ↦ rw done (omega arith)
]

-- Texts put together.
pub value_from-append : (n : ℕ) (s t : Text) → value_from n (s ++ t) ≡ value_from (value_from n s) t
unfolding value_from
value_from-append n [] t = refl
value_from-append n (c ∷ s) t = value_from-append (10 * n + (c - 48)) s t

pub value-zeros : (k : ℕ) → value (zeros k) ≡ 0
unfolding value_from
value-zeros zero = refl
value-zeros (suc k) = value-zeros k

pub All-zeros : (k : ℕ) → All IsDigit (zeros k)
All-zeros zero = tt
All-zeros (suc k) = ((omega arith, omega arith), All-zeros k)

length-zeros : (k : ℕ) → length (zeros k) ≡ k
length-zeros zero = refl
length-zeros (suc k) = ap suc (length-zeros k)

length-append : (s t : Text) → length (s ++ t) ≡ length s + length t
length-append [] t = omega arith
length-append (c ∷ s) t = omega (arith, length-append s t)

-- Seven digits for the part of a unit.
pub value-pad_start : (n : ℕ) (s : Text) → value (pad_start n s) ≡ value s
unfolding pad_start
value-pad_start n s =
    value_from-append 0 (zeros (n - length s)) s
    ∙ ap (λ k. value_from k s) (value-zeros (n - length s))

pub All-pad_start : (n : ℕ) (s : Text) → All IsDigit s → All IsDigit (pad_start n s)
unfolding pad_start
All-pad_start n s h = All-append IsDigit (zeros (n - length s)) s (All-zeros (n - length s)) h

pub length-pad_start : (n : ℕ) (s : Text) → length s ≤ n → length (pad_start n s) ≡ n
unfolding pad_start
length-pad_start n s h =
    omega (arith, length-append (zeros (n - length s)) s, length-zeros (n - length s))

pub empty_text : (s : Text) → is_empty s ≡ true → s ≡ []
empty_text [] h = refl
empty_text (c ∷ s) h = absurd (cc h)

-- Whether the end of a text that is dropped begins with its first character.
end_cases :
    (p : ℕ → Bool) (c : ℕ) (s : Text)
    → ((p c ≡ true) × ((drop_end p s ≡ []) × (drop_end p (c ∷ s) ≡ [])))
      ⊎ (drop_end p (c ∷ s) ≡ c ∷ drop_end p s)
end_cases p c s = elim (Bool-cases (p c && is_empty (drop_end p s))) [
  | inl both ↦
      inl (ground (arith, both), (empty_text (drop_end p s) (ground (arith, both)), rw both refl))
  | inr kept ↦ inr (rw kept refl)
]

-- What dropping the noughts at the end loses, padding gives back.
pub pad_end-drop_end : (s : Text) → pad_end (length s) (drop_end (λ c. nat_beq c 48) s) ≡ s
unfolding pad_end
pad_end-drop_end [] = refl
pad_end-drop_end (c ∷ s) = elim (end_cases (λ c. nat_beq c 48) c s) [
  | inl (nought, (none_left, dropped)) ↦ rw dropped (
      ap₂ (λ x t. x ∷ t) (ground (arith, nought))
        (ap (pad_end (length s)) (sym none_left) ∙ pad_end-drop_end s))
  | inr kept ↦ rw kept (ap (λ t. c ∷ t) (pad_end-drop_end s))
]

pub All-drop_end : (s : Text) → All IsDigit s → All IsDigit (drop_end (λ c. nat_beq c 48) s)
All-drop_end [] h = tt
All-drop_end (c ∷ s) (hc, h) = elim (end_cases (λ c. nat_beq c 48) c s) [
  | inl (_, (_, dropped)) ↦ rw dropped tt
  | inr kept ↦ rw kept (hc, All-drop_end s h)
]
