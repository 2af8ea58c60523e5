-- ===== src/Lists.antt =====
-- What holds of all elements of a list, through the operations on lists.
use sorosense.Base.{
  ℕ, zero, suc, ◌≤◌, ◌≡◌, refl, Bool, true, List, [], ◌∷◌, ◌++◌, keep, take, length, All,
  Bool-cases, inl, inr, arith,
}
use mathlib.Core.List.{Memᴰ, reverse, reverse-cons}
use sorosense.Compare.{Ordered}

module _ {ℓ} {A : Type ℓ} where
  pub All-append {κ} : (P : A → Type κ) (xs ys : List A) → All P xs → All P ys → All P (xs ++ ys)
  All-append P [] ys h k = k
  All-append P (x ∷ xs) ys (hx, h) k = (hx, All-append P xs ys h k)

  pub All-take {κ} : (P : A → Type κ) (n : ℕ) (xs : List A) → All P xs → All P (take n xs)
  All-take P zero xs h = tt
  All-take P (suc n) [] h = tt
  All-take P (suc n) (x ∷ xs) (hx, h) = (hx, All-take P n xs h)

  pub keep-All {κ} :
      (P : A → Type κ) (p : A → Bool) (xs : List A)
      → All P xs
      → All (λ x. P x × (p x ≡ true)) (keep p xs)
  keep-All P p [] h = tt
  keep-All P p (x ∷ xs) (hx, h) = elim (Bool-cases (p x)) [
    | inl kept ↦ rw kept ((hx, kept), keep-All P p xs h)
    | inr dropped ↦ rw dropped (keep-All P p xs h)
  ]

  -- What the test of a filter gives.
  pub keep-All_of {κ} :
      (P : A → Type κ) (p : A → Bool) (xs : List A)
      → ((x : A) → p x ≡ true → P x)
      → All P (keep p xs)
  keep-All_of P p [] f = tt
  keep-All_of P p (x ∷ xs) f = elim (Bool-cases (p x)) [
    | inl kept ↦ rw kept (f x kept, keep-All_of P p xs f)
    | inr dropped ↦ rw dropped (keep-All_of P p xs f)
  ]

  pub All-of_mem {κ} : (P : A → Type κ) (xs : List A) → ((x : A) → Memᴰ x xs → P x) → All P xs
  All-of_mem P [] f = tt
  All-of_mem P (x ∷ xs) f = (f x (Memᴰ.head refl), All-of_mem P xs (λ y m. f y (Memᴰ.tail m)))

  pub length-take : (n : ℕ) (xs : List A) → length (take n xs) ≤ n
  length-take zero xs = omega arith
  length-take (suc n) [] = omega arith
  length-take (suc n) (x ∷ xs) = omega (arith, length-take n xs)

  pub All-reverse {κ} : (P : A → Type κ) (xs : List A) → All P xs → All P (reverse xs)
  All-reverse P [] h = tt
  All-reverse P (x ∷ xs) (hx, h) =
      rw (reverse-cons x xs) (All-append P (reverse xs) (x ∷ []) (All-reverse P xs h) (hx, tt))

  pub Ordered-take {κ} :
      (R : A → A → Type κ) (n : ℕ) (xs : List A) → Ordered R xs → Ordered R (take n xs)
  Ordered-take R zero xs h = tt
  Ordered-take R (suc n) [] h = tt
  Ordered-take R (suc n) (x ∷ xs) (hx, h) = (All-take (R x) n xs hx, Ordered-take R n xs h)
