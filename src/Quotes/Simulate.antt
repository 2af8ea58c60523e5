-- ===== src/Quotes/Simulate.antt =====
-- backend/src/api/simulate.ts: the earnings that the best venue of a bucket projects to, and
-- backend/src/api/funding.ts: the ways to fund a bucket.
use sorosense.Base.{
  ℕ, String, ◌≡◌, refl, Bool, true, false, Option, none, some, List, [], ◌∷◌, map, keep, ◌||◌,
  if◌then◌else◌, ap, ◌∙◌, arith,
}
use mathlib.Core.Option
use sorosense.Double.{Doubles}
use sorosense.Seam.{Currency, usd, eur, mxn, PoolId}
use sorosense.Catalog.{
  CatalogEntry, VenueMeta, VenueKind, rwa, vault, lending, get_catalog, best_among, best_entry,
  best_safe_venue, to_meta, better,
}

pub data StablecoinSym : Type 0 where
  usdc eurc cetes : StablecoinSym

pub record Stablecoin : Type 0 where
  pub sym : StablecoinSym
  pub currency : Currency
  pub chains : List String

pub record RwaOption : Type 0 where
  pub id : String
  pub name : String
  pub venue : String
  pub currency : Currency

pub record FundingOptions : Type 0 where
  pub stablecoins : List Stablecoin
  pub rwa_options : List RwaOption

abbrev pub stablecoins : List Stablecoin
stablecoins =
    record { sym = usdc; currency = usd; chains = "Stellar" ∷ [] }
    ∷ record { sym = eurc; currency = eur; chains = "Stellar" ∷ [] }
    ∷ record { sym = cetes; currency = mxn; chains = "Stellar" ∷ "Solana" ∷ [] }
    ∷ []

abbrev pub is_rwa : VenueKind → Bool
is_rwa rwa = true
is_rwa vault = false
is_rwa lending = false

module _ (d : Doubles) where
  abbrev pub rwa_option : CatalogEntry d → RwaOption
  rwa_option v = record { id = v.id; name = v.name; venue = v.venue; currency = v.currency }

  unfoldable pub get_funding_options : FundingOptions
  get_funding_options = record {
    stablecoins = stablecoins;
    rwa_options = map rwa_option (keep (λ v. is_rwa v.kind) (get_catalog d none));
  }

  pub record SimulateInput : Type 0 where
    pub currency : Currency
    pub amount : d.Number
    pub period_days : d.Number

  pub record SimulateResult : Type 0 where
    pub currency : Currency
    pub amount : d.Number
    pub period_days : d.Number
    pub apy : d.Number
    pub pool_id : PoolId
    pub projected_earnings : d.Number

  abbrev whole : ℕ → d.Number
  whole n = d.decimal n 0

  -- The id and rate of the better of a choice and a venue.
  abbrev pub better_choice : PoolId × d.Number → CatalogEntry d → PoolId × d.Number
  better_choice (id, apy) v = if d.lt apy v.apy then (v.id, v.apy) else (id, apy)

  abbrev pub best_choice : PoolId × d.Number → List (CatalogEntry d) → PoolId × d.Number
  best_choice b [] = b
  best_choice b (v ∷ vs) = best_choice (better_choice b v) vs

  abbrev pub first_choice : List (CatalogEntry d) → Option (PoolId × d.Number)
  first_choice [] = none
  first_choice (v ∷ vs) = some (best_choice (v.id, v.apy) (v ∷ vs))

  unfoldable pub best_safe_pool : Currency → Option (PoolId × d.Number)
  best_safe_pool c = first_choice (get_catalog d (some c))

  -- `to_fixed` is `Number(x.toFixed(2))`; `none` is the throw on a negative input.
  unfoldable pub simulate : (d.Number → d.Number) → SimulateInput → Option SimulateResult
  simulate to_fixed input =
      if d.lt input.amount (whole 0) || d.lt input.period_days (whole 0)
      then none
      else elim (best_safe_pool input.currency) [
        | none ↦ some (record {
          currency = input.currency;
          amount = input.amount;
          period_days = input.period_days;
          apy = whole 0;
          pool_id = "";
          projected_earnings = whole 0;
        })
        | some (id, apy) ↦
            let growth =
              d.minus
                (d.power (d.plus (whole 1) (d.over apy (whole 100)))
                  (d.over input.period_days (whole 365)))
                (whole 1) in
            some (record {
              currency = input.currency;
              amount = input.amount;
              period_days = input.period_days;
              apy = apy;
              pool_id = id;
              projected_earnings = to_fixed (d.times input.amount growth);
            })
      ]

  better_choice-eq :
      (b v : CatalogEntry d)
      → better_choice (b.id, b.apy) v ≡ ((better d b v).id, (better d b v).apy)
  better_choice-eq b v = ground arith

  best_choice-eq :
      (b : CatalogEntry d) (vs : List (CatalogEntry d))
      → best_choice (b.id, b.apy) vs ≡ ((best_entry d b vs).id, (best_entry d b vs).apy)
  best_choice-eq b [] = refl
  best_choice-eq b (v ∷ vs) =
      ap (λ c. best_choice c vs) (better_choice-eq b v) ∙ best_choice-eq (better d b v) vs

  abbrev entry_choice : CatalogEntry d → PoolId × d.Number
  entry_choice v = (v.id, v.apy)

  abbrev pub meta_choice : VenueMeta d → PoolId × d.Number
  meta_choice m = (m.id, m.apy)

  first_choice-eq :
      (vs : List (CatalogEntry d)) → first_choice vs ≡ Option.map entry_choice (best_among d vs)
  first_choice-eq [] = refl
  first_choice-eq (v ∷ vs) = ap some (best_choice-eq v (v ∷ vs))

  -- The projection of a bucket takes the pool and the rate of the venue that the other reads take for
  -- the best, and there is one exactly where they find one.
  pub best_safe_pool-eq :
      (c : Currency) → best_safe_pool c ≡ Option.map meta_choice (best_safe_venue d c)
  unfolding best_safe_pool best_safe_venue
  best_safe_pool-eq c =
      first_choice-eq (get_catalog d (some c)) ∙ composed (best_among d (get_catalog d (some c)))
    where
      composed :
          (o : Option (CatalogEntry d))
          → Option.map entry_choice o ≡ Option.map meta_choice (Option.map (to_meta d) o)
      composed none = refl
      composed (some v) = refl
