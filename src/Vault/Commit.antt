-- ===== src/Vault/Commit.antt =====
-- What a submission does to the state: all of its effect or nothing
-- (packages/vault-client/src/mock.ts, `prepare`).
use sorosense.Base.{◌≡◌, true, false, arith, ◌⊎◌, inl, inr, Bool-cases, Option-cases}
use sorosense.Seam.{role_beq, Signer}
use sorosense.Vault.State.{Vault}
use sorosense.Vault.Operations.{VaultError, ok, err, Result-cases}
use sorosense.Vault.Submit.{PreparedTx, sign_and_submit}

-- The effect ran, from a signature of the right role on a chain that accepts.
pub record Committed (tx : PreparedTx) (signer : Signer) (s t : Vault) : Type 0 where
  pub right_role : signer.role ≡ tx.required_signer
  pub accepted : s.fail_submit ≡ false
  pub effect : tx.effect s ≡ ok t
  pub receipt_lem : sign_and_submit tx signer s ≡ (ok (record { hash = t.seq; success = true }), t)

-- Nothing was written: an error, or a receipt that reports failure.
pub record Rejected (tx : PreparedTx) (signer : Signer) (s : Vault) : Type 0 where
  pub unchanged : (sign_and_submit tx signer s).1 ≡ s
  pub reported :
      ((e : VaultError) × ((sign_and_submit tx signer s).0 ≡ err e))
      ⊎ ((sign_and_submit tx signer s).0 ≡ ok (record { hash = s.seq; success = false }))

-- Every submission either commits the whole effect with a receipt of success, or leaves the state
-- as it was and reports an error or a failure.
pub submit_atomic :
    (tx : PreparedTx) (signer : Signer) (s : Vault)
    → ((t : Vault) × Committed tx signer s t) ⊎ Rejected tx signer s
unfolding sign_and_submit
submit_atomic tx signer s = elim (Result-cases (tx.effect s)) [
  | inl (t, e) ↦ elim (Bool-cases (role_beq signer.role tx.required_signer)) [
    | inl role ↦ elim (Option-cases (signer.sign tx.xdr)) [
      | inl rejected ↦ inr (ground arith)
      | inr (signature, signed) ↦ elim (Bool-cases s.fail_submit) [
        | inl failing ↦ inr (ground arith)
        | inr accepting ↦ inl (t, ground arith)
      ]
    ]
    | inr role ↦ inr (ground arith)
  ]
  | inr (x, e) ↦ inr (ground arith)
]
