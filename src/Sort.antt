-- ===== src/Sort.antt =====
-- `Array.prototype.sort` by a numeric key, ascending. The sort of JavaScript is stable, and so is
-- this insertion sort.
use sorosense.Base.{
  map, ℕ, ◌≤◌, ◌≡◌, refl, ◌≢◌, List, [], ◌∷◌, leb, if◌then◌else◌, arith, Bool-cases, inl, inr, All,
  ap, ◌∙◌, sym,
}
use mathlib.Core.List.{Pairwise, Permᴰ, Memᴰ, mem-cons_self}
use mathlib.Core.HLevel.{¬_prop}
use mathlib.Core.Path.{ap₂}
use mathlib.Core.Logic.{∥∥₁_elim}
use mathlib.Core.List.Memᴰ
use mathlib.Core.List.Permᴰ

module _ {ℓ} {A : Type ℓ} (key : A → ℕ) where
  unfoldable pub insert_by : A → List A → List A
  insert_by x [] = x ∷ []
  insert_by x (y ∷ ys) = if leb (key x) (key y) then x ∷ y ∷ ys else y ∷ insert_by x ys

  unfoldable pub sort_by : List A → List A
  sort_by [] = []
  sort_by (x ∷ xs) = insert_by x (sort_by xs)

  pub insert_by-All {κ} :
      (P : A → Type κ) (x : A) (xs : List A) → P x → All P xs → All P (insert_by x xs)
  unfolding insert_by
  insert_by-All P x [] p h = (p, tt)
  insert_by-All P x (y ∷ ys) p (hy, h) = elim (Bool-cases (leb (key x) (key y))) [
    | inl before ↦ rw before (p, (hy, h))
    | inr after ↦ rw after (hy, insert_by-All P x ys p h)
  ]

  pub sort_by-All {κ} : (P : A → Type κ) (xs : List A) → All P xs → All P (sort_by xs)
  unfolding sort_by
  sort_by-All P [] h = tt
  sort_by-All P (x ∷ xs) (hx, h) = insert_by-All P x (sort_by xs) hx (sort_by-All P xs h)

  -- Ascending by key, each element against all behind it.
  abbrev pub Ascending : List A → Type 0
  Ascending [] = Unit
  Ascending (x ∷ xs) = All (λ y. key x ≤ key y) xs × Ascending xs

  weaken-All : (m n : ℕ) (xs : List A) → m ≤ n → All (λ y. n ≤ key y) xs → All (λ y. m ≤ key y) xs
  weaken-All m n [] le h = tt
  weaken-All m n (x ∷ xs) le (hx, h) = (omega arith, weaken-All m n xs le h)

  insert_by-Ascending : (x : A) (xs : List A) → Ascending xs → Ascending (insert_by x xs)
  unfolding insert_by
  insert_by-Ascending x [] h = (tt, tt)
  insert_by-Ascending x (y ∷ ys) (hy, h) = elim (Bool-cases (leb (key x) (key y))) [
    | inl before ↦
        let le : key x ≤ key y = ground arith in
        rw before ((le, weaken-All (key x) (key y) ys le hy), (hy, h))
    | inr after ↦
        rw after
          (insert_by-All (λ z. key y ≤ key z) x ys (ground arith) hy, insert_by-Ascending x ys h)
  ]

  pub sort_by-Ascending : (xs : List A) → Ascending (sort_by xs)
  unfolding sort_by
  sort_by-Ascending [] = tt
  sort_by-Ascending (x ∷ xs) = insert_by-Ascending x (sort_by xs) (sort_by-Ascending xs)

  insert_by-perm : (x : A) (xs : List A) → Permᴰ (insert_by x xs) (x ∷ xs)
  unfolding insert_by
  insert_by-perm x [] = Permᴰ.refl (x ∷ [])
  insert_by-perm x (y ∷ ys) = elim (Bool-cases (leb (key x) (key y))) [
    | inl before ↦ rw before (Permᴰ.refl (x ∷ y ∷ ys))
    | inr after ↦
        rw after (Permᴰ.trans (Permᴰ.cons refl (insert_by-perm x ys)) (Permᴰ.swap refl refl))
  ]

  pub sort_by-perm : (xs : List A) → Permᴰ (sort_by xs) xs
  unfolding sort_by
  sort_by-perm [] = Permᴰ.nil
  sort_by-perm (x ∷ xs) =
      Permᴰ.trans (insert_by-perm x (sort_by xs)) (Permᴰ.cons refl (sort_by-perm xs))

  insert_by_comm :
      (x y : A) (xs : List A)
      → key x ≢ key y
      → insert_by x (insert_by y xs) ≡ insert_by y (insert_by x xs)
  unfolding insert_by
  insert_by_comm x y [] ne = ground arith
  insert_by_comm x y (z ∷ zs) ne = ground (arith, insert_by_comm x y zs ne)

  -- No two elements share their key.
  abbrev pub KeysDistinct : List A → Type ℓ
  KeysDistinct xs = Pairwise (λ a b. key a ≢ key b) xs

  -- Where no two keys are equal, the result does not depend on the order of the input.
  pub sort_by-perm_eq : {xs ys : List A} → Permᴰ xs ys → KeysDistinct xs → sort_by xs ≡ sort_by ys
  unfolding sort_by
  sort_by-perm_eq Permᴰ.nil d = refl
  sort_by-perm_eq (Permᴰ.cons {a = a} {b = b} {l₁ = l₁} {l₂ = l₂} e p) (Pairwise.cons h d) =
      ap₂ insert_by e (sort_by-perm_eq p d)
  sort_by-perm_eq (Permᴰ.swap {a = a} {b = b} {a' = a'} {b' = b'} {l = l} e f) (Pairwise.cons h d) =
      insert_by_comm a b (sort_by l) (h b mem-cons_self)
      ∙ ap₂ insert_by f (ap (λ x. insert_by x (sort_by l)) e)
  sort_by-perm_eq (Permᴰ.trans p q) d =
      sort_by-perm_eq p d
      ∙ sort_by-perm_eq q (Permᴰ.pairwise (λ a b. ¬_prop) (λ a b ne e. ne (sym e)) p d)

  abbrev pub UniqueKeys : List A → Type 0
  UniqueKeys [] = Unit
  UniqueKeys (x ∷ xs) = All (λ y. key x ≢ key y) xs × UniqueKeys xs

  insert_by-UniqueKeys :
      (x : A) (xs : List A)
      → All (λ y. key x ≢ key y) xs
      → UniqueKeys xs
      → UniqueKeys (insert_by x xs)
  unfolding insert_by
  insert_by-UniqueKeys x [] h u = (tt, tt)
  insert_by-UniqueKeys x (y ∷ ys) (hy, h) (uy, u) = elim (Bool-cases (leb (key x) (key y))) [
    | inl before ↦ rw before ((hy, h), (uy, u))
    | inr after ↦ rw after (
      insert_by-All (λ z. key y ≢ key z) x ys (λ e. hy (sym e)) uy,
      insert_by-UniqueKeys x ys h u,
    )
  ]

  pub sort_by-UniqueKeys : (xs : List A) → UniqueKeys xs → UniqueKeys (sort_by xs)
  unfolding sort_by
  sort_by-UniqueKeys [] h = tt
  sort_by-UniqueKeys (x ∷ xs) (hx, h) =
      insert_by-UniqueKeys x (sort_by xs) (sort_by-All (λ y. key x ≢ key y) xs hx)
        (sort_by-UniqueKeys xs h)

  of_All : (n : ℕ) (xs : List A) (a : A) → All (λ y. n ≢ key y) xs → Memᴰ a xs → n ≢ key a
  of_All n [] a h m = absurd (Memᴰ.not-nil m)
  of_All n (x ∷ xs) a (h, hs) (Memᴰ.head e) = rw e h
  of_All n (x ∷ xs) a (h, hs) (Memᴰ.tail m) = of_All n xs a hs m

  pub UniqueKeys-KeysDistinct : (xs : List A) → UniqueKeys xs → KeysDistinct xs
  UniqueKeys-KeysDistinct [] d = Pairwise.nil
  UniqueKeys-KeysDistinct (x ∷ xs) (h, d) =
      Pairwise.cons (λ a m. ∥∥₁_elim m ¬_prop (of_All (key x) xs a h))
        (UniqueKeys-KeysDistinct xs d)

module _ {ℓ κ} {A : Type ℓ} {B : Type κ} (f : A → B) where
  pub map-perm : {xs ys : List A} → Permᴰ xs ys → Permᴰ (map f xs) (map f ys)
  map-perm Permᴰ.nil = Permᴰ.nil
  map-perm (Permᴰ.cons e p) = Permᴰ.cons (ap f e) (map-perm p)
  map-perm (Permᴰ.swap e g) = Permᴰ.swap (ap f e) (ap f g)
  map-perm (Permᴰ.trans p q) = Permᴰ.trans (map-perm p) (map-perm q)

  pub map-All : (P : B → Type 0) (xs : List A) → All (λ x. P (f x)) xs → All P (map f xs)
  map-All P [] h = tt
  map-All P (x ∷ xs) (hx, h) = (hx, map-All P xs h)

  pub map-Ascending :
      (key : B → ℕ) (xs : List A) → Ascending (λ x. key (f x)) xs → Ascending key (map f xs)
  map-Ascending key [] h = tt
  map-Ascending key (x ∷ xs) (hx, h) =
      (map-All (λ y. key (f x) ≤ key y) xs hx, map-Ascending key xs h)
