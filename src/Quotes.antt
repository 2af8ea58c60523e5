-- ===== src/Quotes.antt =====
-- The reads that quote a venue's rate to a depositor: the rates (backend/src/api/rates.ts), the
-- holdings (backend/src/api/holdings.ts), the projection (backend/src/api/simulate.ts) and the source of
-- live rates (backend/src/api/live-apy.ts). The reads of one call see one state of the vault.
pub mod Funded
pub mod Simulate
mod Tests
use sorosense.Base.{
  ℕ, String, Bool, true, false, Option, none, some, List, [], ◌∷◌, ◌==◌, ◌||◌, get_or, string_key,
  if◌then◌else◌,
}
use mathlib.Core.Option
use sorosense.Dict.{Dict, get, put}
use sorosense.Int.{ℤ, pos, leb_ℤ}
use sorosense.Double.{Doubles}
use sorosense.Fee.{net_apy}
use sorosense.Results.{Result, ok, err}
use sorosense.Seam.{
  Currency, usd, eur, mxn, Address, PoolId, Shares, Amount, PoolStatus, active, frozen,
}
use sorosense.Real.{PoolEnv, truthy, pool_registry_entries, from_entries}
use sorosense.Catalog.{
  VenueKind, VenueMeta, ApySource, CatalogEntry, best_safe_venue, resolve_venue, kind_label,
  catalog_apy, get_catalog,
}

abbrev pub all_currencies : List Currency
all_currencies = usd ∷ eur ∷ mxn ∷ []

-- What the vault answers; `none` is a read that rejects.
pub record VaultReads : Type 0 where
  pub balance_of : Address → Currency → Option Shares
  pub asset_value_of : Address → Currency → Option Amount
  pub active_pool : Currency → Option (Option PoolId)
  pub pool_status : PoolId → Option PoolStatus

-- One base base_unit of a stablecoin is 10⁻⁷ of it.
abbrev pub base_unit : ℤ
base_unit = pos 10_000_000

abbrev pub is_frozen : PoolStatus → Bool
is_frozen active = false
is_frozen frozen = true

-- `Promise.all`: rejects if one does.
unfoldable pub all_of {ℓ} : {A : Type ℓ} → List (Option A) → Option (List A)
all_of [] = some []
all_of (none ∷ os) = none
all_of (some a ∷ os) = Option.map (λ rest. a ∷ rest) (all_of os)

-- The first error, or else what is there.
unfoldable pub collect {ℓ} : {A : Type ℓ} → List (Result (Option A)) → Result (List A)
collect [] = ok []
collect (err code why ∷ rs) = err code why
collect (ok held ∷ rs) = elim (collect rs) [
  | err code why ↦ err code why
  | ok rest ↦ elim held [ none ↦ ok rest | some a ↦ ok (a ∷ rest) ]
]

module _ (d : Doubles) where
  pub record Rate : Type 0 where
    pub currency : Currency
    pub name : String
    pub venue : String
    pub kind : VenueKind
    pub tags : List String
    pub apy : d.Number
    pub net_apy : d.Number
    pub fee_bps : ℕ

  abbrev pub tags_of : VenueMeta d → List String
  tags_of meta = meta.venue ∷ kind_label meta.kind meta.name ∷ []

  abbrev pub quoted_rate : Currency → VenueMeta d → d.Number → ℕ → Rate
  quoted_rate c meta apy fee = record {
    currency = c;
    name = meta.name;
    venue = meta.venue;
    kind = meta.kind;
    tags = tags_of meta;
    apy = apy;
    net_apy = net_apy d apy fee;
    fee_bps = fee;
  }

  -- One round of the loop of `getRates`; `none` is a currency that is passed over.
  unfoldable pub rate_for : ApySource d → ℕ → Currency → Result (Option Rate)
  rate_for apy fee c = elim (best_safe_venue d c) [
    | none ↦ ok none
    | some meta ↦ elim (apy meta.id) [
      | err code why ↦ err code why
      | ok rate ↦ ok (some (quoted_rate c meta rate fee))
    ]
  ]

  unfoldable pub get_rates : ApySource d → ℕ → List Currency → Result (List Rate)
  get_rates apy fee [] = ok []
  get_rates apy fee (c ∷ cs) = elim (rate_for apy fee c) [
    | err code why ↦ err code why
    | ok quoted ↦ elim (get_rates apy fee cs) [
      | err code why ↦ err code why
      | ok rest ↦ elim quoted [ none ↦ ok rest | some rate ↦ ok (rate ∷ rest) ]
    ]
  ]

  abbrev pub FxSource : Type 0
  FxSource = Currency → Result d.Number

  -- `toUsd`: base units to whole units, at a rate.
  abbrev pub to_usd : ℤ → d.Number → d.Number
  to_usd native rate = d.times (d.over (d.of_int native) (d.of_int base_unit)) rate

  pub record Holding : Type 0 where
    pub quoted : Rate
    pub shares : Shares
    pub value : Amount
    pub value_usd : d.Number
    pub frozen : Bool

  pub record HoldingsDeps : Type 0 where
    pub vault : VaultReads
    pub fx : FxSource
    pub apy : ApySource d
    pub fee_bps : ℕ

  module _ (deps : HoldingsDeps) where
    abbrev pub pool_frozen : Option PoolId → Option Bool
    pool_frozen pool = elim (truthy pool) [
      | none ↦ some false
      | some p ↦ Option.map is_frozen (deps.vault.pool_status p)
    ]

    abbrev pub venue_of : Currency → Option PoolId → Option (VenueMeta d)
    venue_of c pool = elim (truthy pool) [ none ↦ best_safe_venue d c | some p ↦ resolve_venue d p ]

    -- From the venue on.
    unfoldable pub quote_bucket :
        Currency
        → Shares
        → Amount
        → Option PoolId
        → d.Number
        → VenueMeta d
        → Option (Result (Option Holding))
    quote_bucket c shares value pool rate meta = elim (pool_frozen pool) [
      | none ↦ none
      | some is_paused ↦ elim (deps.apy meta.id) [
        | err code why ↦ some (err code why)
        | ok apy ↦ some (
            ok (
              some (record {
                quoted = quoted_rate c meta apy deps.fee_bps;
                shares = shares;
                value = value;
                value_usd = to_usd value rate;
                frozen = is_paused;
              })))
      ]
    ]

    -- A bucket with shares.
    unfoldable pub funded_bucket : Address → Currency → Shares → Option (Result (Option Holding))
    funded_bucket depositor c shares = elim (deps.vault.asset_value_of depositor c) [
      | none ↦ none
      | some value ↦ elim (deps.vault.active_pool c) [
        | none ↦ none
        | some pool ↦ elim (deps.fx c) [
          | err code why ↦ some (err code why)
          | ok rate ↦ elim (venue_of c pool) [
            | none ↦ some (ok none)
            | some meta ↦ quote_bucket c shares value pool rate meta
          ]
        ]
      ]
    ]

    unfoldable pub bucket_holding : Address → Currency → Option (Result (Option Holding))
    bucket_holding depositor c = elim (deps.vault.balance_of depositor c) [
      | none ↦ none
      | some shares ↦
          if leb_ℤ shares (pos 0) then some (ok none) else funded_bucket depositor c shares
    ]

    unfoldable pub bucket_holdings :
        Address → List Currency → List (Option (Result (Option Holding)))
    bucket_holdings depositor [] = []
    bucket_holdings depositor (c ∷ cs) = bucket_holding depositor c ∷ bucket_holdings depositor cs

    unfoldable pub get_holdings : Address → List Currency → Option (Result (List Holding))
    get_holdings depositor currencies =
        Option.map collect (all_of (bucket_holdings depositor currencies))

  -- The live source: the pools with a configured address answer for themselves. `reader` reads the
  -- rate of the contract at an address.
  unfoldable pub live_apy_source : PoolEnv → (Address → Result d.Number) → ApySource d
  live_apy_source env reader pool = elim (get pool (from_entries (pool_registry_entries env) [])) [
    | none ↦ catalog_apy d pool
    | some address ↦ reader address
  ]
