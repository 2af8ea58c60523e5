-- ===== src/Contributions/Ledger.antt =====
-- The map of contributions against the calls since the last reset (frontend/lib/vault/contributions.ts).
use sorosense.Base.{
  Bool-cases, List, [], ◌∷◌, if◌then◌else◌, ◌==◌, ◌≡◌, refl, ap, ◌∙◌, inl, inr, arith,
}
use sorosense.Int.{ℤ, pos, ◌+ℤ◌, ◌-ℤ◌, int_laws}
use sorosense.Dict.{get, put, get-put}
use sorosense.Sum.{sum_over}
use sorosense.Seam.{Currency, currency_key, currency_beq_iff}
use sorosense.Contributions.{
  Contributions, get_contributions, record_deposit, record_withdraw, LedgerCall, deposited,
  withdrew, cleared, after_calls,
}

-- What a call adds to a currency.
abbrev pub change_of : Currency → LedgerCall → ℤ
change_of c (deposited b amount) = if b == c then amount else pos 0
change_of c (withdrew b amount) = if b == c then pos 0 -ℤ amount else pos 0
change_of c cleared = pos 0

-- The calls behind the last reset, where `kept` came before.
pub since_reset : List LedgerCall → List LedgerCall → List LedgerCall
since_reset kept [] = kept
since_reset kept (deposited c amount ∷ calls) = since_reset (deposited c amount ∷ kept) calls
since_reset kept (withdrew c amount ∷ calls) = since_reset (withdrew c amount ∷ kept) calls
since_reset kept (cleared ∷ calls) = since_reset [] calls

-- The ledger that stands for a list of calls.
abbrev StandsFor : List LedgerCall → Contributions → Type 0
StandsFor kept ledger = (c : Currency) → get_contributions c ledger ≡ sum_over (change_of c) kept

plus_swap : (a b : ℤ) → a +ℤ b ≡ b +ℤ a
plus_swap a b = omega int_laws

minus_swap : (a b : ℤ) → a -ℤ b ≡ (pos 0 -ℤ b) +ℤ a
minus_swap a b = omega int_laws

zero_plus : (a : ℤ) → a ≡ pos 0 +ℤ a
zero_plus a = omega int_laws

changed :
    (b : Currency) (x : ℤ) (ledger : Contributions) (c : Currency)
    → get_contributions c (put b x ledger) ≡ (if b == c then x else get_contributions c ledger)
unfolding get_contributions
changed b x ledger c = ground (arith, get-put b c x ledger)

deposit_stands :
    (b : Currency) (amount : ℤ) (kept : List LedgerCall) (ledger : Contributions)
    → StandsFor kept ledger
    → StandsFor (deposited b amount ∷ kept) (record_deposit b amount ledger)
unfolding record_deposit
deposit_stands b amount kept ledger h c =
    changed b (get_contributions b ledger +ℤ amount) ledger c ∙ elim (Bool-cases (b == c)) [
      | inl same ↦
          let eq : b ≡ c = (currency_beq_iff b c).0 same in
          rw same (
            ap (λ x. x +ℤ amount) (ap (λ e. get_contributions e ledger) eq ∙ h c)
            ∙ plus_swap (sum_over (change_of c) kept) amount)
      | inr other ↦ rw other (h c ∙ zero_plus (sum_over (change_of c) kept))
    ]

withdraw_stands :
    (b : Currency) (amount : ℤ) (kept : List LedgerCall) (ledger : Contributions)
    → StandsFor kept ledger
    → StandsFor (withdrew b amount ∷ kept) (record_withdraw b amount ledger)
unfolding record_withdraw
withdraw_stands b amount kept ledger h c =
    changed b (get_contributions b ledger -ℤ amount) ledger c ∙ elim (Bool-cases (b == c)) [
      | inl same ↦
          let eq : b ≡ c = (currency_beq_iff b c).0 same in
          rw same (
            ap (λ x. x -ℤ amount) (ap (λ e. get_contributions e ledger) eq ∙ h c)
            ∙ minus_swap (sum_over (change_of c) kept) amount)
      | inr other ↦ rw other (h c ∙ zero_plus (sum_over (change_of c) kept))
    ]

calls_stand :
    (calls kept : List LedgerCall) (ledger : Contributions)
    → StandsFor kept ledger
    → StandsFor (since_reset kept calls) (after_calls calls ledger)
unfolding after_calls since_reset get_contributions get
calls_stand [] kept ledger h = h
calls_stand (deposited b amount ∷ calls) kept ledger h =
    calls_stand calls (deposited b amount ∷ kept) (record_deposit b amount ledger)
      (deposit_stands b amount kept ledger h)
calls_stand (withdrew b amount ∷ calls) kept ledger h =
    calls_stand calls (withdrew b amount ∷ kept) (record_withdraw b amount ledger)
      (withdraw_stands b amount kept ledger h)
calls_stand (cleared ∷ calls) kept ledger h = calls_stand calls [] [] (λ c. refl)

-- After any calls the map gives for each currency the sum of the deposits less the withdrawals of that
-- currency since the last reset, whatever happened to the other currencies.
pub get_contributions_lem :
    (calls : List LedgerCall) (c : Currency)
    → get_contributions c (after_calls calls []) ≡ sum_over (change_of c) (since_reset [] calls)
unfolding get_contributions get
get_contributions_lem calls c = calls_stand calls [] [] (λ c. refl) c
