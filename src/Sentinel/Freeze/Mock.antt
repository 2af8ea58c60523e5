-- ===== src/Sentinel/Freeze/Mock.antt =====
-- The in-memory vault (packages/vault-client/src/mock.ts) as the vault behind `freezePool` of
-- backend/src/sentinel/freeze.ts.
use sorosense.Base.{true, false, some, ◌≡◌, refl, arith, inl, inr, string_key, suc, ap, ◌∙◌}
use mathlib.Core.Path.{subst}
use sorosense.Vault.Guards.{freeze_blocks}
use sorosense.Vault.Commit.{Rejected, submit_atomic}
use sorosense.Dict.{add}
use sorosense.Seam.{PoolId, frozen, keeper, Signer, TxResult}
use sorosense.Vault.State.{Vault, pool_status}
use sorosense.Vault.Operations.{VaultError, Result, ok, err, freeze}
use sorosense.Vault.Submit.{
  PreparedTx, freeze_call, prepare, call, sign_and_submit, effect_of, role_of,
}
use sorosense.Sentinel.Freeze.{Attempt, returned, threw, FreezeSeam}
use sorosense.Sentinel.Freeze.Protective.{IsProtective}

abbrev pub attempt_of : Result TxResult → Attempt VaultError
attempt_of (ok res) = returned res
attempt_of (err e) = threw e

-- `vault.freeze(pool)` and then `tx.signAndSubmit(keeper)`
unfoldable pub freeze_and_submit : PoolId → Signer → Vault → Attempt VaultError × Vault
freeze_and_submit pool signer s =
    let (tx, s') = call (freeze_call pool) s in
    let (res, after) = sign_and_submit tx signer s' in (attempt_of res, after)

abbrev pub mock_seam : FreezeSeam Vault VaultError
mock_seam = record { pool_status = λ s pool. some (pool_status s pool); freeze = freeze_and_submit }

-- Two states that differ in the frozen pools and the number of transactions alone.
abbrev pub SameFunds : Vault → Vault → Type 0
SameFunds s t = t ≡ record s { frozen_pools = t.frozen_pools; seq = t.seq }

-- The transaction that `freeze` prepares, and the state in which it is submitted.
abbrev freeze_tx : PoolId → Vault → PreparedTx
freeze_tx pool s = record { xdr = suc s.seq; required_signer = keeper; effect = freeze pool }

abbrev counted : Vault → Vault
counted s = record s { seq = suc s.seq }

submission :
    (pool : PoolId) (signer : Signer) (s : Vault)
    → let sub = sign_and_submit (freeze_tx pool s) signer (counted s) in
      freeze_and_submit pool signer s ≡ (attempt_of sub.0, sub.1)
unfolding freeze_and_submit call prepare effect_of role_of
submission pool signer s = refl

marked :
    (pool : PoolId) (s t : Vault)
    → freeze pool s ≡ ok t
    → record s { frozen_pools = add pool s.frozen_pools } ≡ t
unfolding freeze
marked pool s t h = ground arith

freeze_and_submit_same :
    (pool : PoolId) (signer : Signer) (s : Vault) → SameFunds s (freeze_and_submit pool signer s).1
freeze_and_submit_same pool signer s =
    rw (submission pool signer s) (elim (submit_atomic (freeze_tx pool s) signer (counted s)) [
      | inl (t, done) ↦
          rw done.receipt_lem (subst (SameFunds s) (marked pool (counted s) t done.effect) refl)
      | inr rejected ↦ rw rejected.unchanged refl
    ])

not-Rejected :
    (pool : PoolId) (signer : Signer) (s : Vault) (res : TxResult)
    → Rejected (freeze_tx pool s) signer (counted s)
    → attempt_of (sign_and_submit (freeze_tx pool s) signer (counted s)).0 ≡ returned res
    → res.success ≡ false
not-Rejected pool signer s res rejected e = elim rejected.reported [
  | inl (x, thrown) ↦ absurd (ground (arith, e, thrown))
  | inr failure ↦ ground (arith, e, failure)
]

freeze_and_submit_marks :
    (pool : PoolId) (signer : Signer) (s : Vault) (res : TxResult)
    → (freeze_and_submit pool signer s).0 ≡ returned res
    → res.success ≡ true
    → pool_status (freeze_and_submit pool signer s).1 pool ≡ frozen
freeze_and_submit_marks pool signer s res e done =
    elim (submit_atomic (freeze_tx pool s) signer (counted s)) [
      | inl (t, committed) ↦
          rw (submission pool signer s, committed.receipt_lem)
            (subst (λ u. pool_status u pool ≡ frozen) (marked pool (counted s) t committed.effect)
              (freeze_blocks pool (counted s)).1)
      | inr rejected ↦ absurd (
          ground (
            arith,
            done,
            not-Rejected pool signer s res rejected (rw (submission pool signer s) at e),
          ))
    ]

-- The in-memory vault keeps what `freezePool` relies on: an attempt to freeze changes nothing but the
-- frozen pools and the number of transactions, and one that reports success leaves the pool frozen.
pub mock_seam-IsProtective : IsProtective mock_seam SameFunds
mock_seam-IsProtective = record {
  same_refl = λ s. refl;
  same_trans = λ r s t h k.
      k ∙ ap {A = Vault} (λ u. record u { frozen_pools = t.frozen_pools; seq = t.seq }) h;
  freeze_same = freeze_and_submit_same;
  freeze_marks = λ pool s w res e done. ap some (freeze_and_submit_marks pool s w res e done);
}
