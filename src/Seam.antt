-- ===== src/Seam.antt =====
-- packages/vault-client/src/interface.ts: the types of the vault's callable surface.
use sorosense.Base.{
  String, ◌≡◌, refl, ap, ◌↔◌, Bool, true, false, Key, ◌==◌, arith, ◌&&◌, string_key, ℕ, Option,
  number_key,
}
use sorosense.Int.{ℤ, pos}
use Prim.Native.String.{◌++◌, count}
use text.Mathlib.TextLemmas.{length-append, append_inj}
use text.Mathlib.TextEquality.{eq_iff}
use text.Mathlib.Text.{◌==◌ as str_eq}

pub data Currency : Type 0 where
  usd eur mxn : Currency

-- An account or contract address, and a pool's identifier.
abbrev pub Address : Type 0
Address = String

abbrev pub PoolId : Type 0
PoolId = String

-- Base units, vault shares, and a price scaled by `share_price_scale`: bigints all.
abbrev pub Amount : Type 0
Amount = ℤ

abbrev pub Shares : Type 0
Shares = ℤ

abbrev pub PriceRay : Type 0
PriceRay = ℤ

abbrev pub share_price_scale : ℤ
share_price_scale = pos 1_000_000_000

pub data PoolStatus : Type 0 where
  active frozen : PoolStatus

pub data SignerRole : Type 0 where
  depositor keeper : SignerRole

abbrev pub currency_beq : Currency → Currency → Bool
currency_beq usd usd = true
currency_beq eur eur = true
currency_beq mxn mxn = true
currency_beq _ _ = false

pub currency_beq_iff : (a b : Currency) → (currency_beq a b ≡ true) ↔ (a ≡ b)
currency_beq_iff a b = ground arith

instance abbrev pub currency_key : Key Currency
currency_key = record { same = currency_beq; same_iff = currency_beq_iff }

abbrev pub role_beq : SignerRole → SignerRole → Bool
role_beq depositor depositor = true
role_beq keeper keeper = true
role_beq _ _ = false

abbrev pub currency_text : Currency → String
currency_text usd = "USD"
currency_text eur = "EUR"
currency_text mxn = "MXN"

-- `:${currency}`
abbrev suffix : Currency → String
suffix c = ":" ++ currency_text c

-- `${user}:${currency}`
unfoldable pub bucket_key : Address → Currency → String
bucket_key user currency = user ++ (":" ++ currency_text currency)

count-suffix : (c : Currency) → count (suffix c) ≡ 4
count-suffix usd = refl
count-suffix eur = refl
count-suffix mxn = refl

suffix_inj : (c d : Currency) → str_eq (suffix c) (suffix d) ≡ true → c ≡ d
suffix_inj usd usd h = refl
suffix_inj eur eur h = refl
suffix_inj mxn mxn h = refl
suffix_inj _ _ h = cc

bucket_key_inj :
    (u v : Address) (c d : Currency) → bucket_key u c ≡ bucket_key v d → (u ≡ v) × (c ≡ d)
unfolding bucket_key
bucket_key_inj u v c d h =
    let same_length : count u ≡ count v = omega (
      arith,
      length-append u (suffix c),
      length-append v (suffix d),
      count-suffix c,
      count-suffix d,
      ap count h,
    ) in
    let (p, q) = append_inj h same_length in
    (p, suffix_inj c d ((eq_iff (suffix c) (suffix d)).1 q))

-- The string keys of the buckets are equal exactly when both of their parts are.
pub bucket_key_beq :
    (u v : Address) (c d : Currency) → (bucket_key u c == bucket_key v d) ≡ (u == v && c == d)
bucket_key_beq u v c d = ground (
  arith,
  eq_iff u v,
  currency_beq_iff c d,
  eq_iff (bucket_key u c) (bucket_key v d),
  bucket_key_inj u v c d,
)

-- A safe exit that the agent proposed. Its `id` is the text `exit-${n}`, kept as its number, or any
-- other text: the program only makes ids of the first form, and compares them.
pub data ExitId : Type 0 where
  exit : ℕ → ExitId
  other : String → ExitId

abbrev pub exit_id_beq : ExitId → ExitId → Bool
exit_id_beq (exit m) (exit n) = m == n
exit_id_beq (other s) (other t) = s == t
exit_id_beq (exit _) (other _) = false
exit_id_beq (other _) (exit _) = false

pub record ExitProposal : Type 0 where
  pub id : ExitId
  pub currency : Currency
  pub from_pool : PoolId
  pub to_pool : PoolId

-- A wallet or key pair. `sign` gets the number of the envelope `mock-xdr-${n}`; `none` is a promise
-- that rejects.
pub record Signer : Type 0 where
  pub role : SignerRole
  pub address : Address
  pub sign : ℕ → Option String

-- `hash` is the number of `mock-tx-${n}`.
pub record TxResult : Type 0 where
  pub hash : ℕ
  pub success : Bool
