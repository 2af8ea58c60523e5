-- ===== src/Vault/Exits.antt =====
-- Safe exits: proposed by the keeper, approved by a depositor (packages/vault-client/src/mock.ts).
use sorosense.Base.{
  string_key, ℕ, suc, ◌≤◌, ◌≡◌, refl, false, Option, none, some, [], ◌∷◌, ◌==◌, same_ne, ne_of_same,
  ◌∙◌, sym, arith, Bool-cases, inl, inr,
}
use sorosense.Dict.{has, Dict, get, put, delete, get-put_self, get-put}
use sorosense.Seam.{
  Currency, Address, PoolId, ExitId, exit, ExitProposal, currency_key, currency_beq_iff, Amount,
}
use sorosense.Vault.State.{Vault, active_pool, pending_exit, mint_shares, balance_of, holdings_of}
use sorosense.Int.{pos, leb_ℤ, ltb_ℤ}
use sorosense.Vault.Commit.{submit_atomic}
use sorosense.Vault.Submit.{
  Write, deposit_call, withdraw_call, consent_call, auto_compound_call, approve_call, allocate_call,
  deallocate_call, freeze_call, unfreeze_call, propose_call, effect_of, call, prepare, prepared,
}
use sorosense.Vault.Solvency.{Keeps}
use sorosense.Vault.Reachable.{Step, called, submitted, yielded, failing, Reach, start, next}
use sorosense.Vault.Operations.{
  deposit, withdraw, set_policy_consent, set_auto_compound, allocate, deallocate, freeze, unfreeze,
  no_pending_exit, ok, err, find_exit, approved, approve_exit, propose_exit, proposal,
  simulate_yield, simulate_failure,
}

-- Each pending entry stands under its own currency and once, and its number was given out before.
abbrev pub PendingOk : ℕ → Dict Currency ExitProposal → Type 0
PendingOk n [] = Unit
PendingOk n ((c, p) ∷ d) =
    (p.currency ≡ c) × ((m : ℕ) × (p.id ≡ exit m) × (m ≤ n)) × (get c d ≡ none) × PendingOk n d

get-none-put :
    (c j : Currency) (p : ExitProposal) (d : Dict Currency ExitProposal)
    → (c == j) ≡ false
    → get j d ≡ none
    → get j (put c p d) ≡ none
get-none-put c j p d ne absent = rw (get-put c j p d, ne) absent

weaken-PendingOk : (n : ℕ) (d : Dict Currency ExitProposal) → PendingOk n d → PendingOk (suc n) d
weaken-PendingOk n [] h = tt
weaken-PendingOk n ((c, p) ∷ d) (e, (m, i, le), absent, rest) =
    (e, (m, i, omega arith), absent, weaken-PendingOk n d rest)

put-PendingOk :
    (n : ℕ) (c : Currency) (p : ExitProposal) (d : Dict Currency ExitProposal)
    → PendingOk n d
    → p.currency ≡ c
    → p.id ≡ exit (suc n)
    → PendingOk (suc n) (put c p d)
unfolding get put
put-PendingOk n c p [] h e i = (e, (suc n, i, omega arith), refl, tt)
put-PendingOk n c p ((j, q) ∷ d) (f, (m, k, le), absent, rest) e i = elim (Bool-cases (j == c)) [
  | inl same ↦ rw same (
    e ∙ sym ((currency_beq_iff j c).0 same),
    (suc n, i, omega arith),
    absent,
    weaken-PendingOk n d rest,
  )
  | inr ne ↦
      let ne' : (c == j) ≡ false = same_ne c j (λ e'. ne_of_same j c ne (sym e')) in
      rw ne
        (f, (m, k, omega arith), get-none-put c j p d ne' absent, put-PendingOk n c p d rest e i)
]

find_exit-put :
    (n : ℕ) (c : Currency) (p : ExitProposal) (d : Dict Currency ExitProposal)
    → PendingOk n d
    → p.id ≡ exit (suc n)
    → find_exit (exit (suc n)) (put c p d) ≡ some p
unfolding find_exit put
find_exit-put n c p [] h i = rw i (ground arith)
find_exit-put n c p ((j, q) ∷ d) (e, (m, k, le), absent, rest) i =
    ground (arith, currency_beq_iff j c, find_exit-put n c p d rest i)

get-delete_self :
    (n : ℕ) (c : Currency) (d : Dict Currency ExitProposal)
    → PendingOk n d
    → get c (delete c d) ≡ none
unfolding get delete
get-delete_self n c [] h = refl
get-delete_self n c ((j, q) ∷ d) (e, i, absent, rest) =
    ground (arith, currency_beq_iff j c, get-delete_self n c d rest)

approve_exit_ok :
    (d : Address) (id : ExitId) (p : ExitProposal) (s : Vault)
    → find_exit id s.pending ≡ some p
    → approve_exit d id s ≡ ok (approved p s)
unfolding approve_exit
approve_exit_ok d id p s found = ground arith

get-none-delete :
    (c j : Currency) (d : Dict Currency ExitProposal) → get j d ≡ none → get j (delete c d) ≡ none
unfolding get delete
get-none-delete c j [] h = refl
get-none-delete c j ((i, q) ∷ d) h =
    ground (arith, currency_beq_iff i c, currency_beq_iff i j, get-none-delete c j d)

delete-PendingOk :
    (n : ℕ) (c : Currency) (d : Dict Currency ExitProposal)
    → PendingOk n d
    → PendingOk n (delete c d)
unfolding delete
delete-PendingOk n c [] h = tt
delete-PendingOk n c ((j, q) ∷ d) (e, i, absent, rest) = elim (Bool-cases (j == c)) [
  | inl same ↦ rw same rest
  | inr ne ↦ rw ne (e, i, get-none-delete c j d absent, delete-PendingOk n c d rest)
]

-- The property of a state, for `Keeps`.
abbrev pub ExitsOk : Vault → Type 0
ExitsOk s = PendingOk s.seq s.pending

approve_exit-ExitsOk :
    (id : ExitId) (found : Option ExitProposal) (s : Vault)
    → PendingOk s.seq s.pending
    → Keeps ExitsOk (elim found [ none ↦ err (no_pending_exit id) | some p ↦ ok (approved p s) ])
approve_exit-ExitsOk id none s h = tt
approve_exit-ExitsOk id (some p) s h = delete-PendingOk s.seq p.currency s.pending h

effect-ExitsOk : (w : Write) (s : Vault) → ExitsOk s → Keeps ExitsOk (effect_of w s)
unfolding effect_of deposit withdraw set_policy_consent set_auto_compound approve_exit allocate
    deallocate freeze unfreeze propose_exit
effect-ExitsOk (deposit_call d c amount) s h = elim (Bool-cases (leb_ℤ amount (pos 0))) [
  | inl bad ↦ rw bad tt
  | inr good ↦ rw good (elim (Bool-cases (leb_ℤ (mint_shares s c amount) (pos 0))) [
    | inl dust ↦ rw dust tt
    | inr minted ↦ rw minted h
  ])
]
effect-ExitsOk (withdraw_call d c shares) s h = elim (Bool-cases (leb_ℤ shares (pos 0))) [
  | inl bad ↦ rw bad tt
  | inr good ↦ rw good (elim (Bool-cases (ltb_ℤ (balance_of s d c) shares)) [
    | inl over ↦ rw over tt
    | inr owned ↦ rw owned h
  ])
]
effect-ExitsOk (consent_call d) s h = h
effect-ExitsOk (auto_compound_call d enabled) s h = h
effect-ExitsOk (approve_call d id) s h = approve_exit-ExitsOk id (find_exit id s.pending) s h
effect-ExitsOk (allocate_call pool c amount) s h = elim (Bool-cases (has pool s.frozen_pools)) [
  | inl frozen ↦ rw frozen tt
  | inr open_pool ↦
      rw open_pool
        (elim (Bool-cases (leb_ℤ amount (pos 0))) [ inl bad ↦ rw bad tt | inr good ↦ rw good h ])
]
effect-ExitsOk (deallocate_call pool c amount) s h =
    elim (Bool-cases (ltb_ℤ (holdings_of s c) amount)) [
      | inl over ↦ rw over tt
      | inr good ↦ rw good h
    ]
effect-ExitsOk (freeze_call pool) s h = h
effect-ExitsOk (unfreeze_call pool) s h = h
effect-ExitsOk (propose_call c from to) s h =
    put-PendingOk s.seq c (proposal (suc s.seq) c from to) s.pending h refl refl

simulate_yield-ExitsOk :
    (c : Currency) (amount : Amount) (s : Vault)
    → ExitsOk s
    → Keeps ExitsOk (simulate_yield c amount s)
unfolding simulate_yield
simulate_yield-ExitsOk c amount s h = elim (Bool-cases (ltb_ℤ amount (pos 0))) [
  | inl negative ↦ rw negative tt
  | inr nonneg ↦ rw nonneg h
]

Step-ExitsOk : {s t : Vault} → Step s t → ExitsOk s → ExitsOk t
unfolding call prepare simulate_failure
Step-ExitsOk {s} (called w) h = weaken-PendingOk s.seq s.pending h
Step-ExitsOk {s} (submitted w xdr signer) h = elim (submit_atomic (prepared w xdr) signer s) [
  | inl (t, c) ↦ rw c.receipt_lem (rw c.effect at (effect-ExitsOk w s h))
  | inr r ↦ rw r.unchanged h
]
Step-ExitsOk {s} (yielded c amount e) h = rw e at (simulate_yield-ExitsOk c amount s h)
Step-ExitsOk (failing enabled) h = h

-- In every reachable state the pending exits are as `propose_approve` needs them.
pub Reach-ExitsOk : {s : Vault} → Reach s → ExitsOk s
Reach-ExitsOk start = tt
Reach-ExitsOk (next r step) = Step-ExitsOk step (Reach-ExitsOk r)

-- In a reachable state, after a proposal the bucket's pending exit is that proposal; its approval, by the id it got, makes
-- the target the bucket's active pool, clears the bucket's pending exit, and touches nothing else.
pub propose_approve :
    (c : Currency) (from to : PoolId) (d : Address) (s t u : Vault)
    → Reach s
    → t ≡ record s { seq = suc s.seq; pending = put c (proposal (suc s.seq) c from to) s.pending }
    → u ≡ record t { active_pools = put c to t.active_pools; pending = delete c t.pending }
    → (propose_exit c from to s ≡ ok t)
      × (pending_exit t c ≡ some (proposal (suc s.seq) c from to))
      × (approve_exit d (exit (suc s.seq)) t ≡ ok u)
      × (active_pool u c ≡ some to)
      × (pending_exit u c ≡ none)
unfolding propose_exit pending_exit active_pool
propose_approve c from to d s t u r et eu =
    let h = Reach-ExitsOk r in
    let p = proposal (suc s.seq) c from to in
    let found : find_exit (exit (suc s.seq)) t.pending ≡ some p =
      rw et (find_exit-put s.seq c p s.pending h refl) in
    let cleared =
      get-delete_self (suc s.seq) c (put c p s.pending)
        (put-PendingOk s.seq c p s.pending h refl refl) in
    (
      rw et,
      rw et (get-put_self c p s.pending),
      rw eu (approve_exit_ok d (exit (suc s.seq)) p t found),
      rw eu (get-put_self c to t.active_pools),
      rw (eu, et) cleared,
    )
