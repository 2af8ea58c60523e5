-- ===== src/Compare.antt =====
-- `Array.prototype.sort` by a comparison function, which is stable, as is this insertion sort. The
-- function is given by the test whether its result is at most 0.
use sorosense.Base.{
  ◌≡◌, Bool, true, false, List, [], ◌∷◌, if◌then◌else◌, Bool-cases, inl, inr, All, All-weaken,
}

-- Each element stands in the relation to all behind it.
abbrev pub Ordered {ℓ κ} : {A : Type ℓ} → (A → A → Type κ) → List A → Type κ
Ordered R [] = Unit
Ordered R (x ∷ xs) = All (R x) xs × Ordered R xs

module _ {ℓ} {A : Type ℓ} (at_most : A → A → Bool) where
  unfoldable pub insert_with : A → List A → List A
  insert_with x [] = x ∷ []
  insert_with x (y ∷ ys) = if at_most x y then x ∷ y ∷ ys else y ∷ insert_with x ys

  unfoldable pub sort_with : List A → List A
  sort_with [] = []
  sort_with (x ∷ xs) = insert_with x (sort_with xs)

  insert_with-All {κ} :
      (P : A → Type κ) (x : A) (xs : List A) → P x → All P xs → All P (insert_with x xs)
  unfolding insert_with
  insert_with-All P x [] p h = (p, tt)
  insert_with-All P x (y ∷ ys) p (hy, h) = elim (Bool-cases (at_most x y)) [
    | inl before ↦ rw before (p, (hy, h))
    | inr after ↦ rw after (hy, insert_with-All P x ys p h)
  ]

  pub sort_with-All {κ} : (P : A → Type κ) (xs : List A) → All P xs → All P (sort_with xs)
  unfolding sort_with
  sort_with-All P [] h = tt
  sort_with-All P (x ∷ xs) (hx, h) = insert_with-All P x (sort_with xs) hx (sort_with-All P xs h)

  module _ {κ} (R : A → A → Type κ) (trans : (x y z : A) → R x y → R y z → R x z)
      (yes_R : (x y : A) → at_most x y ≡ true → R x y)
      (no_R : (x y : A) → at_most x y ≡ false → R y x) where
    insert_with-Ordered : (x : A) (xs : List A) → Ordered R xs → Ordered R (insert_with x xs)
    unfolding insert_with
    insert_with-Ordered x [] h = (tt, tt)
    insert_with-Ordered x (y ∷ ys) (hy, h) = elim (Bool-cases (at_most x y)) [
      | inl before ↦
          let r = yes_R x y before in
          rw before ((r, All-weaken (λ z. trans x y z r) ys hy), (hy, h))
      | inr after ↦
          rw after (insert_with-All (R y) x ys (no_R x y after) hy, insert_with-Ordered x ys h)
    ]

    -- For a comparison that decides a transitive relation, the result is ordered by it.
    pub sort_with-Ordered : (xs : List A) → Ordered R (sort_with xs)
    unfolding sort_with
    sort_with-Ordered [] = tt
    sort_with-Ordered (x ∷ xs) = insert_with-Ordered x (sort_with xs) (sort_with-Ordered xs)
