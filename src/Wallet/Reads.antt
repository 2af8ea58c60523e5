-- ===== src/Wallet/Reads.antt =====
-- What a balance read from Horizon says (frontend/lib/wallet/balance.ts).
use sorosense.Base.{
  ℕ, String, Bool, true, false, Bool-cases, Option-cases, Option, none, some, List, [], ◌∷◌, ◌≡◌,
  refl, sym, ap, ◌∙◌, ◌⊎◌, inl, inr, leb, nat_beq, ◌&&◌, ◌≤◌, arith, All,
}
use mathlib.Core.List.{Memᴰ}
use sorosense.Int.{ℤ, pos}
use sorosense.Quotes.Simulate.{StablecoinSym}
use sorosense.Decimal.{Text}
use sorosense.Amounts.{to_amount}
use sorosense.Wallet.{
  ClassicAsset, HorizonEnv, asset_for, HorizonBalance, HorizonBody, no_json, null_json, json,
  Fetched, fetch_threw, responded, WalletBalance, BalanceResult, balance_ok, is_line_of, find_line,
  no_trustline, parsed, balance_of_line, lines_of, outcome, read_wallet_balance,
}

-- A trustline in an answer, and what it is worth.
abbrev pub IsHeld : ClassicAsset → List HorizonBalance → ℤ → Type 0
IsHeld asset balances amount =
    (line : HorizonBalance) × ((text : Text) × (Memᴰ line balances
        × (is_line_of asset line ≡ true)
        × (line.balance ≡ some text)
        × (to_amount text ≡ some amount)))

-- The answer has a body that can be trusted: a status of success.
abbrev pub IsFine : ℕ → Type 0
IsFine status = (200 ≤ status) × (status ≤ 299)

-- No line of the asset is in the answer, or one is that tells no balance.
abbrev pub IsUnheld : ClassicAsset → List HorizonBalance → Type 0
IsUnheld asset balances =
    All (λ line. is_line_of asset line ≡ false) balances
    ⊎ ((line : HorizonBalance) × (Memᴰ line balances
          × (is_line_of asset line ≡ true)
          × (line.balance ≡ none)))

-- The three states that the user interface tells apart: held, missing the trustline, and missing the
-- account.
abbrev pub IsRead : ClassicAsset → Fetched → WalletBalance → Type 0
IsRead asset fetched value =
    ((value.trustline ≡ true)
      × (value.unfunded ≡ false)
      × ((status : ℕ) × ((balances : List HorizonBalance) × ((fetched
                ≡ responded status (json balances))
              × IsFine status
              × IsHeld asset balances value.amount))))
    ⊎ ((value.trustline ≡ false)
        × (value.unfunded ≡ false)
        × (value.amount ≡ pos 0)
        × ((status : ℕ) × ((balances : List HorizonBalance) × ((fetched
                  ≡ responded status (json balances))
                × IsFine status
                × IsUnheld asset balances))))
    ⊎ ((value.trustline ≡ false)
        × (value.unfunded ≡ true)
        × (value.amount ≡ pos 0)
        × ((body : HorizonBody) × (fetched ≡ responded 404 body)))

missing_line :
    (asset : ClassicAsset) (balances : List HorizonBalance)
    → find_line asset balances ≡ none
    → All (λ line. is_line_of asset line ≡ false) balances
unfolding find_line
missing_line asset [] h = tt
missing_line asset (b ∷ bs) h = elim (Bool-cases (is_line_of asset b)) [
  | inl fits ↦ absurd (cc (rw fits at h))
  | inr other ↦ (other, missing_line asset bs (rw other at h))
]

found_line :
    (asset : ClassicAsset) (balances : List HorizonBalance) {line : HorizonBalance}
    → find_line asset balances ≡ some line
    → Memᴰ line balances × (is_line_of asset line ≡ true)
unfolding find_line
found_line asset [] h = absurd (cc h)
found_line asset (b ∷ bs) {line} h = elim (Bool-cases (is_line_of asset b)) [
  | inl fits ↦
      let same : b ≡ line = ap (λ o. elim o [ none ↦ b | some x ↦ x ]) (rw fits at h) in
      (Memᴰ.head (sym same), sym (ap (is_line_of asset) same) ∙ fits)
  | inr other ↦ let (later, fits) = found_line asset bs (rw other at h) in (Memᴰ.tail later, fits)
]

abbrev value_in : WalletBalance → BalanceResult → WalletBalance
value_in default (balance_ok value) = value
value_in default other = default

without_line :
    (unfunded : Bool) (value : WalletBalance)
    → no_trustline unfunded ≡ balance_ok value
    → (value.trustline ≡ false) × (value.amount ≡ pos 0) × (value.unfunded ≡ unfunded)
without_line unfunded value h =
    let same = ap (value_in value) h in
    (
      sym (ap (λ v. v.trustline) same),
      sym (ap (λ v. v.amount) same),
      sym (ap (λ v. v.unfunded) same),
    )

parsed_line :
    (o : Option ℤ) (value : WalletBalance)
    → parsed o ≡ balance_ok value
    → (o ≡ some value.amount) × (value.trustline ≡ true) × (value.unfunded ≡ false)
parsed_line none value h = absurd (cc h)
parsed_line (some amount) value h =
    let same = ap (value_in value) h in
    (
      ap (λ v. some v.amount) same,
      sym (ap (λ v. v.trustline) same),
      sym (ap (λ v. v.unfunded) same),
    )

-- The line that was found, if any, and its balance, if it is a text.
line-IsRead :
    (asset : ClassicAsset) (status : ℕ) (balances : List HorizonBalance) (value : WalletBalance)
    → IsFine status
    → balance_of_line (find_line asset balances) ≡ balance_ok value
    → IsRead asset (responded status (json balances)) value
line-IsRead asset status balances value fine h = elim (Option-cases (find_line asset balances)) [
  | inl no_line ↦
      let (trust, zero_amount, funded) = without_line false value (rw no_line at h) in
      let unheld : IsUnheld asset balances = inl (missing_line asset balances no_line) in
      inr (inl (trust, funded, zero_amount, (status, (balances, (refl, fine, unheld)))))
  | inr (line, found) ↦ elim (Option-cases line.balance) [
    | inl no_text ↦
        let (trust, zero_amount, funded) =
          without_line false value (rw no_text at (rw found at h)) in
        let (member, fits) = found_line asset balances found in
        let unheld : IsUnheld asset balances = inr (line, (member, fits, no_text)) in
        inr (inl (trust, funded, zero_amount, (status, (balances, (refl, fine, unheld)))))
    | inr (text, read) ↦
        let (worth, trust, funded) =
          parsed_line (to_amount text) value (rw read at (rw found at h)) in
        let (member, fits) = found_line asset balances found in
        let held : IsHeld asset balances value.amount =
          (line, (text, (member, fits, read, worth))) in
        inl (trust, funded, (status, (balances, (refl, fine, held))))
  ]
]

status-IsFine : (status : ℕ) → (leb 200 status && leb status 299) ≡ true → IsFine status
status-IsFine status h = (ground (arith, h), ground (arith, h))

outcome-IsRead :
    (asset : ClassicAsset) (fetched : Fetched) (value : WalletBalance)
    → outcome asset fetched ≡ balance_ok value
    → IsRead asset fetched value
outcome-IsRead asset fetch_threw value h = absurd (cc h)
outcome-IsRead asset (responded status body) value h = elim (Bool-cases (nat_beq status 404)) [
  | inl missing ↦
      let (trust, zero_amount, unfunded) = without_line true value (rw missing at h) in
      let same : status ≡ 404 = ground (arith, missing) in
      inr (inr (trust, unfunded, zero_amount, (body, ap (λ n. responded n body) same)))
  | inr there ↦ elim (Bool-cases (leb 200 status && leb status 299)) [
    | inl fine ↦ answered body (status-IsFine status fine) (rw fine at (rw there at h))
    | inr bad ↦ absurd (cc (rw bad at (rw there at h)))
  ]
]
  where
    answered :
        (body : HorizonBody)
        → IsFine status
        → lines_of asset body ≡ balance_ok value
        → IsRead asset (responded status body) value
    answered no_json fine h = absurd (cc h)
    answered null_json fine h = absurd (cc h)
    answered (json balances) fine h = line-IsRead asset status balances value fine h

module _ {W : Type 0} (env : HorizonEnv) (fetch : String → W → Fetched × W) (coin : StablecoinSym)
    (address : String) (w : W) where
  -- A balance that is read from Horizon is of an asset that is configured, and it is one of the three
  -- states for its own reason: with a trustline, the status is one of success and the amount is what a
  -- line of the asset in the answer reads as; without one, and the account funded, the status is one of
  -- success and the answer has no line of the asset, or one without a balance; and the account counts as
  -- unfunded only where the status was 404. No other status and no other body reads as a balance.
  pub read_wallet_balance-IsRead :
      (value : WalletBalance)
      → (read_wallet_balance env fetch coin address w).0 ≡ balance_ok value
      → (asset : ClassicAsset) × ((asset_for env coin ≡ some asset)
          × IsRead asset (fetch address w).0 value)
  unfolding read_wallet_balance
  read_wallet_balance-IsRead value h = elim (Option-cases (asset_for env coin)) [
    | inl unset ↦ absurd (cc (rw (read_wallet_balance, unset) at h))
    | inr (asset, set) ↦ (
      asset,
      (set, outcome-IsRead asset (fetch address w).0 value (rw (read_wallet_balance, set) at h)),
    )
  ]

  -- Nothing is asked of Horizon for an asset that is not configured.
  pub read_wallet_balance_unset :
      asset_for env coin ≡ none → (read_wallet_balance env fetch coin address w).1 ≡ w
  unfolding read_wallet_balance
  read_wallet_balance_unset unset = rw (read_wallet_balance, unset) refl
