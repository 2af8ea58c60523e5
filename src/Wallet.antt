-- ===== src/Wallet.antt =====
-- frontend/lib/wallet/balance.ts: the balance of a stablecoin on the user's account, read from Horizon.
pub mod Reads
mod Tests
use sorosense.Base.{
  ℕ, String, Bool, true, false, Option, none, some, List, [], ◌∷◌, ◌==◌, ◌&&◌, not, leb, nat_beq,
  if◌then◌else◌, string_key,
}
use sorosense.Int.{ℤ, pos}
use sorosense.Quotes.Simulate.{StablecoinSym, usdc, eurc, cetes}
use sorosense.Decimal.{Text}
use sorosense.Amounts.{to_amount}

pub record ClassicAsset : Type 0 where
  pub code : String
  pub issuer : String

-- The variables of the build; one that is not set is empty, and the address has no slash at its end.
pub record HorizonEnv : Type 0 where
  pub horizon_url : String
  pub usdc_issuer : String
  pub eurc_issuer : String

abbrev issuer_of : HorizonEnv → StablecoinSym → String
issuer_of env usdc = env.usdc_issuer
issuer_of env eurc = env.eurc_issuer
issuer_of env cetes = ""

abbrev sym_code : StablecoinSym → String
sym_code usdc = "USDC"
sym_code eurc = "EURC"
sym_code cetes = "CETES"

unfoldable pub asset_for : HorizonEnv → StablecoinSym → Option ClassicAsset
asset_for env sym =
    if env.horizon_url == ""
    then none
    else if issuer_of env sym == ""
    then none
    else some (record { code = sym_code sym; issuer = issuer_of env sym })

abbrev pub is_some {ℓ} : {A : Type ℓ} → Option A → Bool
is_some none = false
is_some (some a) = true

abbrev pub balance_enabled : HorizonEnv → StablecoinSym → Bool
balance_enabled env sym = is_some (asset_for env sym)

-- A line of the answer; a field that is not a text is `none`.
pub record HorizonBalance : Type 0 where
  pub balance : Option Text
  pub asset_type : Option String
  pub asset_code : Option String
  pub asset_issuer : Option String

-- A body: no JSON, JSON's null, or an object, whose lines are none where it has no list of balances.
-- Each line is an object.
pub data HorizonBody : Type 0 where
  no_json null_json : HorizonBody
  json : List HorizonBalance → HorizonBody

-- What the request came to: it threw, or it has a status and a body.
pub data Fetched : Type 0 where
  fetch_threw : Fetched
  responded : ℕ → HorizonBody → Fetched

pub record WalletBalance : Type 0 where
  pub amount : ℤ
  pub trustline : Bool
  pub unfunded : Bool

-- `rejected` is no result: the promise rejects.
pub data BalanceResult : Type 0 where
  balance_ok : WalletBalance → BalanceResult
  not_configured read_failed bad_status bad_json unparseable rejected : BalanceResult

abbrev pub is_text : Option String → String → Bool
is_text none s = false
is_text (some t) s = t == s

abbrev pub is_line_of : ClassicAsset → HorizonBalance → Bool
is_line_of asset b =
    not (is_text b.asset_type "native")
    && is_text b.asset_code asset.code
    && is_text b.asset_issuer asset.issuer

unfoldable pub find_line : ClassicAsset → List HorizonBalance → Option HorizonBalance
find_line asset [] = none
find_line asset (b ∷ bs) = if is_line_of asset b then some b else find_line asset bs

abbrev pub no_trustline : Bool → BalanceResult
no_trustline unfunded =
    balance_ok (record { amount = pos 0; trustline = false; unfunded = unfunded })

abbrev pub parsed : Option ℤ → BalanceResult
parsed none = unparseable
parsed (some amount) = balance_ok (record { amount = amount; trustline = true; unfunded = false })

abbrev pub balance_of_line : Option HorizonBalance → BalanceResult
balance_of_line none = no_trustline false
balance_of_line (some line) = elim line.balance [
  | none ↦ no_trustline false
  | some text ↦ parsed (to_amount text)
]

abbrev pub lines_of : ClassicAsset → HorizonBody → BalanceResult
lines_of asset no_json = bad_json
lines_of asset null_json = rejected
lines_of asset (json balances) = balance_of_line (find_line asset balances)

abbrev pub outcome : ClassicAsset → Fetched → BalanceResult
outcome asset fetch_threw = read_failed
outcome asset (responded status body) =
    if nat_beq status 404
    then no_trustline true
    else if not (leb 200 status && leb status 299)
    then bad_status
    else lines_of asset body

-- `fetch` is asked for the account only where the asset is configured.
unfoldable pub read_wallet_balance :
    {W : Type 0}
    → HorizonEnv
    → (String → W → Fetched × W)
    → StablecoinSym
    → String
    → W
    → BalanceResult × W
read_wallet_balance env fetch sym address w = elim (asset_for env sym) [
  | none ↦ (not_configured, w)
  | some asset ↦ let (fetched, w') = fetch address w in (outcome asset fetched, w')
]
