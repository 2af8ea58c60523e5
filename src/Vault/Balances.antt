-- ===== src/Vault/Balances.antt =====
-- Balances and totals after a deposit and a withdrawal (mock.ts), and sums of balances.
use sorosense.Base.{
  String, ◌≡◌, refl, ap, true, false, ◌&&◌, List, [], ◌∷◌, get_or, if◌then◌else◌, arith, Key, ◌==◌,
  string_key, Bool-cases, inl, inr,
}
use sorosense.Int.{ℤ, pos, ◌+ℤ◌, int_laws}
use sorosense.Sum.{sum_over}
use sorosense.Dict.{Dict, get, put, has, get-put}
use sorosense.Seam.{Currency, Address, Shares, bucket_key, bucket_key_beq, currency_key}

-- A dictionary of bigints read with `?? 0n`.
pub value-put {ℓ} :
    {K : Type ℓ} ⦃e : Key K⦄ (k j : K) (v : ℤ) (d : Dict K ℤ)
    → get_or (get j (put k v d)) (pos 0) ≡ (if k == j then v else get_or (get j d) (pos 0))
value-put k j v d = rw (get-put k j v d) (ground arith)

pub balance-put :
    (d u : Address) (c e : Currency) (v : ℤ) (m : Dict String Shares)
    → get_or (get (bucket_key u e) (put (bucket_key d c) v m)) (pos 0)
      ≡ (if d == u && c == e then v else get_or (get (bucket_key u e) m) (pos 0))
balance-put d u c e v m =
    rw (value-put (bucket_key d c) (bucket_key u e) v m, bucket_key_beq d u c e)

-- No name stands twice.
abbrev pub Distinct {ℓ} : {A : Type ℓ} ⦃e : Key A⦄ → List A → Type 0
Distinct [] = Unit
Distinct (x ∷ xs) = (has x xs ≡ false) × Distinct xs

-- `f` with the value `v` at `a`.
abbrev pub replaced {ℓ} : {A : Type ℓ} ⦃e : Key A⦄ → A → ℤ → (A → ℤ) → A → ℤ
replaced a v f x = if a == x then v else f x

module _ {ℓ} {A : Type ℓ} ⦃e : Key A⦄ (a : A) (v : ℤ) (f : A → ℤ) where
  pub sum-replaced_absent :
      (xs : List A) → has a xs ≡ false → sum_over (replaced a v f) xs ≡ sum_over f xs
  unfolding has
  sum-replaced_absent [] h = refl
  sum-replaced_absent (x ∷ xs) h =
      ground (arith, e.same_iff a x, e.same_iff x a, sum-replaced_absent xs)

  pub sum-replaced_present :
      (xs : List A)
      → Distinct xs
      → has a xs ≡ true
      → sum_over (replaced a v f) xs +ℤ f a ≡ sum_over f xs +ℤ v
  unfolding has
  sum-replaced_present [] p h = cc
  sum-replaced_present (x ∷ xs) p h = elim (Bool-cases (x == a)) [
    | inl same ↦
        let e' = (e.same_iff x a).0 same in
        grind (int_laws, e.same_iff a x, ap f e', ap (λ y. has y xs) e', sum-replaced_absent xs)
    | inr other ↦ grind (int_laws, e.same_iff a x, e.same_iff x a, sum-replaced_present xs p.1)
  ]
