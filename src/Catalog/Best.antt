-- ===== src/Catalog/Best.antt =====
-- The venue that backend/src/api/venue-meta.ts picks for a bucket.
use sorosense.Base.{
  ◌≡◌, refl, ap, false, some, List, [], ◌∷◌, All, Bool-cases, Option-cases, inl, inr, arith,
}
use mathlib.Core.Option
use mathlib.Core.Path.{subst}
use sorosense.Dict.{has}
use sorosense.Double.{Doubles, IsStrictOrder}
use sorosense.Seam.{Currency, usd, eur, mxn}
use sorosense.Catalog.{
  CatalogEntry, VenueMeta, to_meta, get_catalog, get_venue, resolve_venue, better, best_entry,
  best_among, best_safe_venue,
}

-- An entry that its id finds, in the bucket.
abbrev IsListed : {d : Doubles} → Currency → CatalogEntry d → Type 0
IsListed {d} c v = (get_venue d v.id ≡ some v) × (v.currency ≡ c)

listed : (d : Doubles) (c : Currency) → All (IsListed c) (get_catalog d (some c))
unfolding get_catalog get_venue has
listed d usd = ((refl, refl), ((refl, refl), ((refl, refl), ((refl, refl), tt))))
listed d eur = ((refl, refl), ((refl, refl), tt))
listed d mxn = ((refl, refl), tt)

module _ {d : Doubles} where
  best_entry-All :
      (P : CatalogEntry d → Type 0) (b : CatalogEntry d) (vs : List (CatalogEntry d))
      → P b
      → All P vs
      → P (best_entry d b vs)
  best_entry-All P b [] hb h = hb
  best_entry-All P b (v ∷ vs) hb (hv, h) =
      best_entry-All P (better d b v) vs
        (elim (Bool-cases (d.lt b.apy v.apy)) [ inl up ↦ rw up hv | inr stay ↦ rw stay hb ]) h

  module _ (order : IsStrictOrder d) where
    -- Nothing that is not below the start beats the best.
    best_entry-over :
        (b w : CatalogEntry d) (vs : List (CatalogEntry d))
        → d.lt b.apy w.apy ≡ false
        → d.lt (best_entry d b vs).apy w.apy ≡ false
    best_entry-over b w [] h = h
    best_entry-over b w (v ∷ vs) h =
        best_entry-over (better d b v) w vs (elim (Bool-cases (d.lt b.apy v.apy)) [
          | inr stay ↦ rw stay h
          | inl up ↦ rw up (elim (Bool-cases (d.lt v.apy w.apy)) [
            | inr below ↦ below
            | inl over ↦ cc (order.transitive b.apy v.apy w.apy up over, h)
          ])
        ])

    best_entry_best :
        (b : CatalogEntry d) (vs : List (CatalogEntry d))
        → All (λ w. d.lt (best_entry d b vs).apy w.apy ≡ false) vs
    best_entry_best b [] = tt
    best_entry_best b (v ∷ vs) = (
      best_entry-over (better d b v) v vs (elim (Bool-cases (d.lt b.apy v.apy)) [
        | inl up ↦ rw up (order.irreflexive v.apy)
        | inr stay ↦ rw stay stay
      ]),
      best_entry_best (better d b v) vs,
    )

    -- The best of a list.
    best_among_lem :
        (P : CatalogEntry d → Type 0) (vs : List (CatalogEntry d)) {v : CatalogEntry d}
        → All P vs
        → best_among d vs ≡ some v
        → P v × All (λ w. d.lt v.apy w.apy ≡ false) vs
    best_among_lem P [] h e = cc
    best_among_lem P (b ∷ vs) {v} (hb, h) e =
        let same : best_entry d b (b ∷ vs) ≡ v = ground (arith, e) in
        subst (λ x. P x × All (λ w. d.lt x.apy w.apy ≡ false) (b ∷ vs)) same
          (best_entry-All P b (b ∷ vs) hb (hb, h), best_entry_best b (b ∷ vs))

    -- The best venue of a bucket, under doubles whose `<` is a strict order, is one of the catalog for
    -- that currency, it is what its id resolves to, and no entry for the currency pays more.
    pub best_safe_venue_best :
        (c : Currency) {meta : VenueMeta d}
        → best_safe_venue d c ≡ some meta
        → (resolve_venue d meta.id ≡ some meta)
          × ((v : CatalogEntry d) × ((meta ≡ to_meta d v) × (v.currency ≡ c)))
          × All (λ w. d.lt meta.apy w.apy ≡ false) (get_catalog d (some c))
    unfolding best_safe_venue resolve_venue
    best_safe_venue_best c {meta} h = elim (Option-cases (best_among d (get_catalog d (some c)))) [
      | inl e ↦ absurd (ground (arith, h, e))
      | inr (v, e) ↦
          let same : to_meta d v ≡ meta = ground (arith, h, e) in
          let ((found, bucket), over) =
            best_among_lem (IsListed c) (get_catalog d (some c)) (listed d c) e in
          subst
            (λ m.
              (Option.map (to_meta d) (get_venue d m.id) ≡ some m)
              × ((v : CatalogEntry d) × ((m ≡ to_meta d v) × (v.currency ≡ c)))
              × All (λ w. d.lt m.apy w.apy ≡ false) (get_catalog d (some c)))
            same (ap (Option.map (to_meta d)) found, (v, (refl, bucket)), over)
    ]
