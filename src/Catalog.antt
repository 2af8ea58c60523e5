-- ===== src/Catalog.antt =====
-- backend/src/tools/catalog.ts and what reads it alone: the metadata of a venue
-- (backend/src/api/venue-meta.ts), a pool and its data (backend/src/api/pools.ts,
-- backend/src/tools/pool-data.ts) and the ways to fund a bucket (backend/src/api/funding.ts).
pub mod Best
use sorosense.Base.{
  ℕ, String, Bool, true, false, Option, none, some, List, [], ◌∷◌, map, keep, not, ◌==◌, ◌&&◌,
  if◌then◌else◌, string_key,
}
use mathlib.Core.Option
use sorosense.Dict.{has}
use sorosense.Double.{Doubles}
use sorosense.Results.{Result, ok, err, not_found}
use sorosense.Seam.{Currency, usd, eur, mxn, currency_key, PoolId}
use sorosense.Text.{last_word}
use Prim.Native.String.{◌++◌}

-- `DEFAULT_YIELD_RATE_BPS` of packages/vault-client/src/interface.ts
abbrev pub default_yield_rate_bps : ℕ
default_yield_rate_bps = 1_000

pub data VenueKind : Type 0 where
  lending vault rwa : VenueKind

pub data TrapReason : Type 0 where
  squatter_asset issuer_keeps_yield dead_pool ghost kyc_wall : TrapReason

pub record TrapEntry : Type 0 where
  pub id : String
  pub name : String
  pub reason : TrapReason

abbrev trap : String → String → TrapReason → TrapEntry
trap id name reason = record { id = id; name = name; reason = reason }

abbrev pub trap_venues : List TrapEntry
trap_venues =
    trap "usst-squatter" "USST (squatter asset)" squatter_asset
    ∷ trap "mgusd" "MGUSD" issuer_keeps_yield
    ∷ trap "ghost-97" "$97 ghost protocol" ghost
    ∷ trap "yieldblox-eurc" "YieldBlox EURC (drained)" dead_pool
    ∷ trap "ylds-kyc" "YLDS (KYC-gated)" kyc_wall
    ∷ []

abbrev pub trap_ids : List String
trap_ids = map (λ t. t.id) trap_venues

-- The tags of a bucket show it: a fund is tagged by the last word of its name.
unfoldable pub kind_label : VenueKind → String → String
kind_label vault name = "Vault"
kind_label lending name = "Fixed pool"
kind_label rwa name = last_word name

abbrev pub asked_for : Option Currency → Currency → Bool
asked_for none c = true
asked_for (some asked) c = c == asked

module _ (d : Doubles) where
  pub record CatalogEntry : Type 0 where
    pub id : String
    pub name : String
    pub venue : String
    pub currency : Currency
    pub kind : VenueKind
    pub apy : d.Number
    pub tvl_usd : ℕ

  abbrev pub sorosense_pool_fallback_apy : d.Number
  sorosense_pool_fallback_apy = d.over (d.decimal default_yield_rate_bps 0) (d.decimal 100 0)

  abbrev listing : String → String → String → Currency → VenueKind → d.Number → ℕ → CatalogEntry
  listing id name venue currency kind apy tvl = record {
    id = id;
    name = name;
    venue = venue;
    currency = currency;
    kind = kind;
    apy = apy;
    tvl_usd = tvl;
  }

  abbrev pub safe_venues : List CatalogEntry
  safe_venues =
      listing "sorosense-usd" "SoroSense USD pool" "SoroSense" usd lending
        sorosense_pool_fallback_apy 0
      ∷ listing "blend-usdc" "Blend USDC" "Blend" usd lending (d.decimal 66 1) 4_200_000
      ∷ listing "defindex-usdc" "DeFindex USDC vault" "DeFindex" usd vault (d.decimal 859 2)
          1_100_000
      ∷ listing "ondo-usdy" "Ondo USDY" "Ondo" usd rwa (d.decimal 465 2) 3_800_000
      ∷ listing "sorosense-eur" "SoroSense EUR pool" "SoroSense" eur lending
          sorosense_pool_fallback_apy 0
      ∷ listing "blend-eurc" "Blend EURC" "Blend" eur lending (d.decimal 51 1) 640_000
      ∷ listing "etherfuse-cetes" "Etherfuse CETES" "Etherfuse" mxn rwa (d.decimal 557 2) 900_000
      ∷ []

  unfoldable pub get_catalog : Option Currency → List CatalogEntry
  get_catalog currency =
      keep (λ v. not (has v.id trap_ids) && asked_for currency v.currency) safe_venues

  abbrev find_id : String → List CatalogEntry → Option CatalogEntry
  find_id id [] = none
  find_id id (v ∷ vs) = if v.id == id then some v else find_id id vs

  unfoldable pub get_venue : String → Option CatalogEntry
  get_venue id = if has id trap_ids then none else find_id id safe_venues

  pub record VenueMeta : Type 0 where
    pub id : String
    pub venue : String
    pub name : String
    pub kind : VenueKind
    pub apy : d.Number

  abbrev pub to_meta : CatalogEntry → VenueMeta
  to_meta v = record { id = v.id; venue = v.venue; name = v.name; kind = v.kind; apy = v.apy }

  unfoldable pub resolve_venue : PoolId → Option VenueMeta
  resolve_venue pool = Option.map to_meta (get_venue pool)

  -- `ApySource`, whose reads see one state of the network.
  abbrev pub ApySource : Type 0
  ApySource = PoolId → Result d.Number

  unfoldable pub catalog_apy : ApySource
  catalog_apy pool = elim (resolve_venue pool) [
    | none ↦ err not_found ("unknown pool: " ++ pool)
    | some meta ↦ ok meta.apy
  ]

  -- `reduce` with the better of two venues, from the first on.
  abbrev pub better : CatalogEntry → CatalogEntry → CatalogEntry
  better b v = if d.lt b.apy v.apy then v else b

  abbrev pub best_entry : CatalogEntry → List CatalogEntry → CatalogEntry
  best_entry b [] = b
  best_entry b (v ∷ vs) = best_entry (better b v) vs

  abbrev pub best_among : List CatalogEntry → Option CatalogEntry
  best_among [] = none
  best_among (v ∷ vs) = some (best_entry v (v ∷ vs))

  unfoldable pub best_safe_venue : Currency → Option VenueMeta
  best_safe_venue currency = Option.map to_meta (best_among (get_catalog (some currency)))

  pub record Pool : Type 0 where
    pub id : String
    pub name : String
    pub venue : String
    pub apy : d.Number

  unfoldable pub get_pool : PoolId → ApySource → Result Pool
  get_pool pool apy = elim (resolve_venue pool) [
    | none ↦ err not_found ("unknown pool: " ++ pool)
    | some meta ↦ elim (apy pool) [
      | err code why ↦ err code why
      | ok rate ↦ ok (record { id = meta.id; name = meta.name; venue = meta.venue; apy = rate })
    ]
  ]

  pub record PoolData : Type 0 where
    pub pool_id : PoolId
    pub currency : Currency
    pub apy : d.Number
    pub liquidity_usd : ℕ

  unfoldable pub get_pool_data : PoolId → Result PoolData
  get_pool_data pool = elim (get_venue pool) [
    | none ↦ err not_found ("unknown or non-vetted pool: " ++ pool)
    | some v ↦
        ok
          (record { pool_id = v.id; currency = v.currency; apy = v.apy; liquidity_usd = v.tvl_usd })
  ]
