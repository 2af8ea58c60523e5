-- ===== src/Vault/Solvency.antt =====
-- The books of the vault (packages/vault-client/src/mock.ts) balance: no depositor owns a negative
-- number of shares, and the depositors together never own more than the bucket's total.
use sorosense.Base.{
  ℕ, ◌≡◌, refl, false, List, [], ◌∷◌, arith, ◌==◌, Bool-cases, inl, inr, string_key, same_refl,
}
use sorosense.Int.{
  ℤ, pos, pos_part, ◌+ℤ◌, ◌*ℤ◌, ◌/ℤ◌, ◌≤ℤ◌, int_laws, eq-pos_of_nonneg, leb_ℤ, ltb_ℤ, parts,
  leb_ℤ→lt, ltb_ℤ→le, negsuc,
}
use sorosense.Dict.{has, put}
use sorosense.Seam.{Currency, Address, Amount, Shares, currency_key, currency_beq_iff, bucket_key}
use sorosense.Vault.State.{
  Vault, balance_of, total_shares_of, total_assets_of, mint_shares, redeem_assets,
}
use sorosense.Vault.Operations.{Result, ok, err, deposit, withdraw}
use sorosense.Vault.Arithmetic.{mint, redeem, redeem-le}
use sorosense.Sum.{sum_over}
use sorosense.Vault.Balances.{
  value-put, balance-put, Distinct, replaced, sum-replaced_absent, sum-replaced_present,
}

abbrev pub sum_balances : Vault → Currency → List Address → Shares
sum_balances s c users = sum_over (λ u. balance_of s u c) users

pub record IsSolvent (s : Vault) : Type 0 where
  pub balance_nonneg : (u : Address) (c : Currency) → pos 0 ≤ℤ balance_of s u c
  pub assets_nonneg : (c : Currency) → pos 0 ≤ℤ total_assets_of s c
  pub backed :
      (c : Currency) (users : List Address)
      → Distinct users
      → sum_balances s c users ≤ℤ total_shares_of s c

module _ {s : Vault} (solvent : IsSolvent s) where
  pub shares_nonneg : (c : Currency) → pos 0 ≤ℤ total_shares_of s c
  shares_nonneg c = solvent.backed c [] tt

  -- One depositor's shares are part of the total.
  pub balance-le-total : (u : Address) (c : Currency) → balance_of s u c ≤ℤ total_shares_of s c
  unfolding has
  balance-le-total u c = omega (int_laws, solvent.backed c (u ∷ []) (refl, tt))

  -- The arithmetic of a solvent vault is that of natural numbers.
  pub mint_shares-eq :
      (c : Currency) (n : ℕ)
      → mint_shares s c (pos n)
        ≡ pos (mint (pos_part (total_shares_of s c)) (pos_part (total_assets_of s c)) n)
  unfolding mint_shares ◌+ℤ◌ ◌*ℤ◌ ◌/ℤ◌
  mint_shares-eq c n = rw (
    eq-pos_of_nonneg (total_shares_of s c) (shares_nonneg c),
    eq-pos_of_nonneg (total_assets_of s c) (solvent.assets_nonneg c),
  )

  pub redeem_assets-eq :
      (c : Currency) (k : ℕ)
      → redeem_assets s c (pos k)
        ≡ pos (redeem (pos_part (total_shares_of s c)) (pos_part (total_assets_of s c)) k)
  unfolding redeem_assets ◌+ℤ◌ ◌*ℤ◌ ◌/ℤ◌
  redeem_assets-eq c k = rw (
    eq-pos_of_nonneg (total_shares_of s c) (shares_nonneg c),
    eq-pos_of_nonneg (total_assets_of s c) (solvent.assets_nonneg c),
  )

sum-ext :
    (f g : Address → ℤ)
    → ((u : Address) → f u ≡ g u)
    → (users : List Address) → sum_over f users ≡ sum_over g users
sum-ext f g h [] = refl
sum-ext f g h (u ∷ users) = rw (h u, sum-ext f g h users)

-- The three writes that a deposit and a withdrawal make.
abbrev pub rebooked : Address → Currency → Shares → Shares → Amount → Vault → Vault
rebooked d c v total assets s = record s {
  shares = put (bucket_key d c) v s.shares;
  total_shares = put c total s.total_shares;
  total_assets = put c assets s.total_assets;
}

module _ (d : Address) (c : Currency) (v total : Shares) (assets : Amount) {s : Vault}
    (solvent : IsSolvent s) where
  sum-rebooked_other :
      (e : Currency) (users : List Address)
      → (c == e) ≡ false
      → sum_balances (rebooked d c v total assets s) e users ≡ sum_balances s e users
  sum-rebooked_other e users other =
      sum-ext _ _ (λ u. rw (balance-put d u c e v s.shares) (ground arith)) users

  sum-rebooked_self :
      (users : List Address)
      → sum_balances (rebooked d c v total assets s) c users
        ≡ sum_over (replaced d v (λ u. balance_of s u c)) users
  sum-rebooked_self users =
      sum-ext _ _ (λ u. rw (balance-put d u c c v s.shares) (ground (arith, same_refl c))) users

  rebooked-backed :
      pos 0 ≤ℤ v
      → v +ℤ total_shares_of s c ≡ total +ℤ balance_of s d c
      → (users : List Address) → Distinct users
      → sum_balances (rebooked d c v total assets s) c users ≤ℤ total
  rebooked-backed nonneg moved users p =
      rw (sum-rebooked_self users) (elim (Bool-cases (has d users)) [
        | inl present ↦ omega (
          int_laws,
          parts moved,
          parts (sum-replaced_present d v (λ u. balance_of s u c) users p present),
          solvent.backed c users p,
        )
        | inr absent ↦ omega (
          int_laws,
          parts moved,
          parts (sum-replaced_absent d v (λ u. balance_of s u c) users absent),
          solvent.backed c (d ∷ users) (absent, p),
        )
      ])

  -- The books stay solvent when a balance and the total move by the same amount.
  pub rebooked-IsSolvent :
      pos 0 ≤ℤ v
      → pos 0 ≤ℤ assets
      → v +ℤ total_shares_of s c ≡ total +ℤ balance_of s d c
      → IsSolvent (rebooked d c v total assets s)
  rebooked-IsSolvent nonneg some_assets moved = record {
    balance_nonneg =
        λ u e. rw (balance-put d u c e v s.shares) (ground (arith, solvent.balance_nonneg u e));
    assets_nonneg =
        λ e. rw (value-put c e assets s.total_assets) (ground (arith, solvent.assets_nonneg e));
    backed = λ e users p. rw (value-put c e total s.total_shares) (
        ground (
          arith,
          sum-rebooked_other e users,
          rebooked-backed nonneg moved users p,
          currency_beq_iff c e,
          solvent.backed e users p,
        ));
  }

-- The state after a call that succeeded.
abbrev pub Keeps : (Vault → Type 0) → Result Vault → Type 0
Keeps P (ok s) = P s
Keeps P (err _) = Unit

pub deposit-IsSolvent :
    (d : Address) (c : Currency) (amount : Amount) {s : Vault}
    → IsSolvent s
    → Keeps IsSolvent (deposit d c amount s)
unfolding deposit
deposit-IsSolvent d c amount {s} solvent = elim (Bool-cases (leb_ℤ amount (pos 0))) [
  | inl bad ↦ rw bad tt
  | inr good ↦ rw good (elim (Bool-cases (leb_ℤ (mint_shares s c amount) (pos 0))) [
    | inl dust ↦ rw dust tt
    | inr minted ↦ rw minted (
        rebooked-IsSolvent d c _ _ _ solvent
          (omega (
            int_laws,
            solvent.balance_nonneg d c,
            leb_ℤ→lt (mint_shares s c amount) (pos 0) minted,
          ))
          (omega (int_laws, solvent.assets_nonneg c, leb_ℤ→lt amount (pos 0) good))
          (omega int_laws))
  ])
]

-- What a solvent vault pays for shares that are owned lies within its assets.
pub redeem_assets_bounds :
    (c : Currency) (shares : Shares) {s : Vault}
    → IsSolvent s
    → pos 0 ≤ℤ shares
    → shares ≤ℤ total_shares_of s c
    → (pos 0 ≤ℤ redeem_assets s c shares) × (redeem_assets s c shares ≤ℤ total_assets_of s c)
redeem_assets_bounds c (negsuc k) solvent positive owned = absurd (omega arith)
redeem_assets_bounds c (pos k) {s} solvent positive owned =
    let t = pos_part (total_shares_of s c) in
    let a = pos_part (total_assets_of s c) in
    rw (redeem_assets-eq solvent c k) (
      omega (
        int_laws,
        solvent.assets_nonneg c,
        redeem-le t a k (omega (arith, shares_nonneg solvent c)),
      ))

pub withdraw-IsSolvent :
    (d : Address) (c : Currency) (shares : Shares) {s : Vault}
    → IsSolvent s
    → Keeps IsSolvent (withdraw d c shares s)
unfolding withdraw
withdraw-IsSolvent d c shares {s} solvent = elim (Bool-cases (leb_ℤ shares (pos 0))) [
  | inl bad ↦ rw bad tt
  | inr good ↦ rw good (elim (Bool-cases (ltb_ℤ (balance_of s d c) shares)) [
    | inl over ↦ rw over tt
    | inr owned ↦
        let positive = leb_ℤ→lt shares (pos 0) good in
        let enough = ltb_ℤ→le (balance_of s d c) shares owned in
        let paid =
          redeem_assets_bounds c shares solvent (omega arith)
            (omega (int_laws, balance-le-total solvent d c)) in
        rw owned (
          rebooked-IsSolvent d c _ _ _ solvent (omega (int_laws, solvent.balance_nonneg d c))
            (omega (int_laws, solvent.assets_nonneg c)) (omega int_laws))
  ])
]
