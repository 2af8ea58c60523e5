-- ===== src/Dict.antt =====
-- `Map` and `Set` of JavaScript: entries in insertion order, an update in place, `delete` by key.
use sorosense.Base.{
  ◌≡◌, refl, ◌≢◌, Bool, false, Option, none, some, List, [], ◌∷◌, arith, if◌then◌else◌, Key, ◌==◌,
  same_refl, ◌||◌, not, ◌&&◌,
}

abbrev pub Dict {ℓ κ} : Type ℓ → Type κ → Type (ℓ ⊔ κ)
Dict K V = List (K × V)

module _ {ℓ κ} {K : Type ℓ} {V : Type κ} ⦃e : Key K⦄ where
  -- `map.get(k)`
  unfoldable pub get : K → Dict K V → Option V
  get k [] = none
  get k ((j, v) ∷ d) = if j == k then some v else get k d

  -- `map.set(k, v)`
  unfoldable pub put : K → V → Dict K V → Dict K V
  put k v [] = (k, v) ∷ []
  put k v ((j, w) ∷ d) = if j == k then (j, v) ∷ d else (j, w) ∷ put k v d

  -- `map.delete(k)`
  unfoldable pub delete : K → Dict K V → Dict K V
  delete k [] = []
  delete k ((j, w) ∷ d) = if j == k then d else (j, w) ∷ delete k d

  pub get-put :
      (k j : K) (v : V) (d : Dict K V) → get j (put k v d) ≡ (if k == j then some v else get j d)
  unfolding get put
  get-put k j v [] = refl
  get-put k j v ((i, w) ∷ d) =
      ground (arith, e.same_iff k j, e.same_iff i k, e.same_iff i j, get-put k j v d)

  pub get-put_self : (k : K) (v : V) (d : Dict K V) → get k (put k v d) ≡ some v
  get-put_self k v d = rw (get-put, same_refl k)

  pub get-delete_ne : (k j : K) (d : Dict K V) → k ≢ j → get j (delete k d) ≡ get j d
  unfolding get delete
  get-delete_ne k j [] h = refl
  get-delete_ne k j ((i, w) ∷ d) h =
      ground (arith, e.same_iff i k, e.same_iff i j, get-delete_ne k j d h)

module _ {ℓ} {K : Type ℓ} ⦃e : Key K⦄ where
  -- `set.has(k)`, `set.add(k)`, `set.delete(k)`
  unfoldable pub has : K → List K → Bool
  has k [] = false
  has k (j ∷ s) = j == k || has k s

  unfoldable pub add : K → List K → List K
  add k [] = k ∷ []
  add k (j ∷ s) = if j == k then j ∷ s else j ∷ add k s

  unfoldable pub remove : K → List K → List K
  remove k [] = []
  remove k (j ∷ s) = let rest = remove k s in if j == k then rest else j ∷ rest

  pub has-add : (k j : K) (s : List K) → has j (add k s) ≡ (k == j || has j s)
  unfolding has add
  has-add k j [] = refl
  has-add k j (i ∷ s) =
      ground (arith, e.same_iff k j, e.same_iff i k, e.same_iff i j, has-add k j s)

  pub has-remove : (k j : K) (s : List K) → has j (remove k s) ≡ (not (k == j) && has j s)
  unfolding has remove
  has-remove k j [] = ground arith
  has-remove k j (i ∷ s) =
      ground (arith, e.same_iff k j, e.same_iff i k, e.same_iff i j, has-remove k j s)
