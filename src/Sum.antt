-- ===== src/Sum.antt =====
-- Sums of bigints over a list, and what a reordering of the list leaves alone.
use sorosense.Base.{
  ◌≡◌, refl, Bool, List, [], ◌∷◌, if◌then◌else◌, keep, All, ◌∙◌, Bool-cases, inl, inr,
}
use sorosense.Int.{ℤ, pos, ◌+ℤ◌, int_laws}
use mathlib.Core.List.{Permᴰ}
use mathlib.Core.Path.{subst}

abbrev pub sum_over {ℓ} : {A : Type ℓ} → (A → ℤ) → List A → ℤ
sum_over f [] = pos 0
sum_over f (x ∷ xs) = f x +ℤ sum_over f xs

swap_terms : (a b c : ℤ) → a +ℤ (b +ℤ c) ≡ b +ℤ (a +ℤ c)
swap_terms a b c = omega int_laws

zero-+ℤ : (a : ℤ) → a ≡ pos 0 +ℤ a
zero-+ℤ a = omega int_laws

module _ {ℓ} {A : Type ℓ} where
  pub sum_over-perm : (f : A → ℤ) {xs ys : List A} → Permᴰ xs ys → sum_over f xs ≡ sum_over f ys
  sum_over-perm f Permᴰ.nil = refl
  sum_over-perm f (Permᴰ.cons e p) = rw (e, sum_over-perm f p)
  sum_over-perm f (Permᴰ.swap {l = l} e g) = rw (e, g) (swap_terms _ _ (sum_over f l))
  sum_over-perm f (Permᴰ.trans p q) = sum_over-perm f p ∙ sum_over-perm f q

  pub sum_over-keep :
      (f : A → ℤ) (p : A → Bool) (xs : List A)
      → sum_over f (keep p xs) ≡ sum_over (λ x. if p x then f x else pos 0) xs
  sum_over-keep f p [] = refl
  sum_over-keep f p (x ∷ xs) = elim (Bool-cases (p x)) [
    | inl kept ↦ rw kept (rw (sum_over-keep f p xs))
    | inr dropped ↦ rw dropped (sum_over-keep f p xs ∙ zero-+ℤ _)
  ]

module _ {ℓ κ} {A : Type ℓ} (P : A → Type κ) where
  pub All-perm : {xs ys : List A} → Permᴰ xs ys → All P xs → All P ys
  All-perm Permᴰ.nil h = tt
  All-perm (Permᴰ.cons e p) (hx, h) = (subst P e hx, All-perm p h)
  All-perm (Permᴰ.swap e f) (ha, (hb, h)) = (subst P f hb, (subst P e ha, h))
  All-perm (Permᴰ.trans p q) h = All-perm q (All-perm p h)

  pub All-keep : (p : A → Bool) (xs : List A) → All P xs → All P (keep p xs)
  All-keep p [] h = tt
  All-keep p (x ∷ xs) (hx, h) = elim (Bool-cases (p x)) [
    | inl kept ↦ rw kept (hx, All-keep p xs h)
    | inr dropped ↦ rw dropped (All-keep p xs h)
  ]
