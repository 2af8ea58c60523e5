-- ===== src/Vault/Reachable.antt =====
-- Every state that calls and submissions can reach from `new MockVaultClient()`, in any order
-- (packages/vault-client/src/mock.ts), has solvent books.
use sorosense.Base.{
  string_key, same_refl, ◌∷◌, ℕ, ◌≡◌, refl, Bool, List, [], arith, inl, inr, Option, none, some,
  Bool-cases,
}
use sorosense.Int.{pos, ◌≤ℤ◌, ◌+ℤ◌, ◌-ℤ◌, ltb_ℤ, leb_ℤ, int_laws, ltb_ℤ→le}
use sorosense.Dict.{has, get}
use sorosense.Vault.Balances.{value-put}
use sorosense.Seam.{
  Currency, Address, Amount, Signer, ExitId, ExitProposal, bucket_key, currency_key,
}
use sorosense.Vault.State.{Vault, fresh, balance_of, total_assets_of, holdings_of, redeem_assets}
use sorosense.Vault.Operations.{
  no_pending_exit, approved, ok, err, approve_exit, find_exit, allocate, deallocate, freeze,
  unfreeze, propose_exit, set_policy_consent, set_auto_compound, simulate_yield, simulate_failure,
  withdraw, debited,
}
use sorosense.Vault.Submit.{
  Write, deposit_call, withdraw_call, consent_call, auto_compound_call, approve_call, allocate_call,
  deallocate_call, freeze_call, unfreeze_call, propose_call, effect_of, call, prepare,
  sign_and_submit, prepared,
}
use sorosense.Vault.Commit.{submit_atomic}
use sorosense.Vault.Solvency.{
  IsSolvent, Keeps, sum_balances, balance-le-total, redeem_assets_bounds, deposit-IsSolvent,
  withdraw-IsSolvent,
}

-- What leaves the three books alone keeps them solvent.
same_books :
    {s t : Vault}
    → IsSolvent s
    → t.shares ≡ s.shares
    → t.total_shares ≡ s.total_shares
    → t.total_assets ≡ s.total_assets
    → IsSolvent t
same_books {s} {t} h p q r = record {
  balance_nonneg = λ u c. rw p (h.balance_nonneg u c);
  assets_nonneg = λ c. rw r (h.assets_nonneg c);
  backed = λ c users d. rw (p, q) (h.backed c users d);
}

approve_exit-IsSolvent :
    (id : ExitId) (found : Option ExitProposal) {s : Vault}
    → IsSolvent s
    → Keeps IsSolvent (elim found [ none ↦ err (no_pending_exit id) | some p ↦ ok (approved p s) ])
approve_exit-IsSolvent id none h = tt
approve_exit-IsSolvent id (some p) h = same_books h refl refl refl

effect-IsSolvent : (w : Write) {s : Vault} → IsSolvent s → Keeps IsSolvent (effect_of w s)
unfolding effect_of set_policy_consent set_auto_compound approve_exit allocate deallocate freeze
    unfreeze propose_exit
effect-IsSolvent (deposit_call d c amount) h = deposit-IsSolvent d c amount h
effect-IsSolvent (withdraw_call d c shares) h = withdraw-IsSolvent d c shares h
effect-IsSolvent (consent_call d) h = same_books h refl refl refl
effect-IsSolvent (auto_compound_call d enabled) h = same_books h refl refl refl
effect-IsSolvent (approve_call d id) {s} h = approve_exit-IsSolvent id (find_exit id s.pending) h
effect-IsSolvent (allocate_call pool c amount) {s} h = elim (Bool-cases (has pool s.frozen_pools)) [
  | inl frozen ↦ rw frozen tt
  | inr open_pool ↦ rw open_pool (elim (Bool-cases (leb_ℤ amount (pos 0))) [
    | inl bad ↦ rw bad tt
    | inr good ↦ rw good (same_books h refl refl refl)
  ])
]
effect-IsSolvent (deallocate_call pool c amount) {s} h =
    elim (Bool-cases (ltb_ℤ (holdings_of s c) amount)) [
      | inl over ↦ rw over tt
      | inr good ↦ rw good (same_books h refl refl refl)
    ]
effect-IsSolvent (freeze_call pool) h = same_books h refl refl refl
effect-IsSolvent (unfreeze_call pool) h = same_books h refl refl refl
effect-IsSolvent (propose_call c from to) h = same_books h refl refl refl

pub simulate_yield-IsSolvent :
    (c : Currency) (amount : Amount) {s : Vault}
    → IsSolvent s
    → Keeps IsSolvent (simulate_yield c amount s)
unfolding simulate_yield
simulate_yield-IsSolvent c amount {s} h = elim (Bool-cases (ltb_ℤ amount (pos 0))) [
  | inl negative ↦ rw negative tt
  | inr nonneg ↦ rw nonneg (record {
    balance_nonneg = h.balance_nonneg;
    assets_nonneg = λ e.
        rw (value-put c e (total_assets_of s c +ℤ amount) s.total_assets)
          (grind (int_laws, ltb_ℤ→le amount (pos 0) nonneg, h.assets_nonneg c, h.assets_nonneg e));
    backed = h.backed;
  })
]

-- A submission in whatever state it finds.
pub submit-IsSolvent :
    (w : Write) (xdr : ℕ) (signer : Signer) {s : Vault}
    → IsSolvent s
    → IsSolvent (sign_and_submit (prepared w xdr) signer s).1
submit-IsSolvent w xdr signer {s} h = elim (submit_atomic (prepared w xdr) signer s) [
  | inl (t, c) ↦ rw c.receipt_lem (rw c.effect at (effect-IsSolvent w h))
  | inr r ↦ rw r.unchanged h
]

-- One step: a method call, a submission of a call made earlier, or a test hook that goes through.
pub data Step : Vault → Vault → Type 0 where
  called : {s : Vault} (w : Write) → Step s (call w s).1
  submitted :
      {s : Vault} (w : Write) (xdr : ℕ) (signer : Signer)
      → Step s (sign_and_submit (prepared w xdr) signer s).1
  yielded :
      {s t : Vault} (c : Currency) (amount : Amount) → simulate_yield c amount s ≡ ok t → Step s t
  failing : {s : Vault} (enabled : Bool) → Step s (simulate_failure enabled s)

pub data Reach : Vault → Type 0 where
  start : Reach fresh
  next : {s t : Vault} → Reach s → Step s t → Reach t

Step-IsSolvent : {s t : Vault} → Step s t → IsSolvent s → IsSolvent t
unfolding call prepare simulate_failure
Step-IsSolvent (called w) h = same_books h refl refl refl
Step-IsSolvent (submitted w xdr signer) h = submit-IsSolvent w xdr signer h
Step-IsSolvent (yielded c amount e) h = rw e at (simulate_yield-IsSolvent c amount h)
Step-IsSolvent (failing enabled) h = same_books h refl refl refl

sum_balances-fresh : (c : Currency) (users : List Address) → sum_balances fresh c users ≡ pos 0
unfolding get ◌+ℤ◌
sum_balances-fresh c [] = refl
sum_balances-fresh c (u ∷ users) = rw (sum_balances-fresh c users)

fresh-IsSolvent : IsSolvent fresh
unfolding get
fresh-IsSolvent = record {
  balance_nonneg = λ u c. omega arith;
  assets_nonneg = λ c. omega arith;
  backed = λ c users p. rw (sum_balances-fresh c users) (omega arith);
}

-- Whatever calls, submissions and hooks came before, in whatever order, no balance is negative, no
-- bucket's assets are negative, and the balances of any distinct depositors sum to at most the total.
pub Reach-IsSolvent : {s : Vault} → Reach s → IsSolvent s
Reach-IsSolvent start = fresh-IsSolvent
Reach-IsSolvent (next r step) = Step-IsSolvent step (Reach-IsSolvent r)

-- In a reachable state a depositor who owns shares can redeem all of them: the withdrawal goes
-- through, leaves a balance of zero, and is paid out of the bucket's assets.
pub withdraw_all :
    {s : Vault} (u : Address) (c : Currency)
    → Reach s
    → pos 1 ≤ℤ balance_of s u c
    → let paid = redeem_assets s c (balance_of s u c) in
      (withdraw u c (balance_of s u c) s ≡ ok (debited u c (balance_of s u c) paid s))
      × (balance_of (debited u c (balance_of s u c) paid s) u c ≡ pos 0)
      × (pos 0 ≤ℤ paid)
      × (paid ≤ℤ total_assets_of s c)
unfolding withdraw
withdraw_all {s} u c r owned =
    let h = Reach-IsSolvent r in
    let (positive, covered) =
      redeem_assets_bounds c (balance_of s u c) h (omega arith) (balance-le-total h u c) in
    (
      ground arith,
      rw
          (
            value-put (bucket_key u c) (bucket_key u c) (balance_of s u c -ℤ balance_of s u c)
                s.shares,
            same_refl (bucket_key u c),
          )
          (omega int_laws),
      positive,
      covered,
    )
