-- ===== src/Vault/Imperative/Atomic.antt =====
-- The bodies of the ten writes of packages/vault-client/src/mock.ts, against the effects of
-- Vault/Operations.
use sorosense.Base.{
  ℕ, true, false, Bool-cases, Option, none, some, Option-cases, ◌≡◌, refl, ap, ◌∙◌, ◌⊎◌, inl, inr,
  if◌then◌else◌, string_key,
}
use sorosense.Int.{pos, leb_ℤ, ltb_ℤ}
use sorosense.Dict.{has}
use sorosense.Seam.{Signer, role_beq, currency_key}
use sorosense.Vault.State.{Vault, holdings_of, balance_of, mint_shares}
use sorosense.Vault.Operations.{
  VaultError, Result, ok, err, deposit, withdraw, set_policy_consent, set_auto_compound, find_exit,
  approve_exit, allocate, deallocate, freeze, unfreeze, propose_exit,
}
use sorosense.Vault.Submit.{
  Write, deposit_call, withdraw_call, consent_call, auto_compound_call, approve_call, allocate_call,
  deallocate_call, freeze_call, unfreeze_call, propose_call, role_of, effect_of, prepared, receipt,
  sign_and_submit,
}
use sorosense.Vault.Commit.{submit_atomic}
use sorosense.Vault.Imperative.{run_program, program_of, told, run_submit}

-- An effect that throws leaves the fields as they were.
abbrev all_or_nothing : Result Vault → Vault → Option VaultError × Vault
all_or_nothing (ok t) s = (none, t)
all_or_nothing (err e) s = (some e, s)

program_of-effect_of :
    (w : Write) (s : Vault) → run_program (program_of w) s ≡ all_or_nothing (effect_of w s) s
unfolding run_program program_of effect_of deposit withdraw set_policy_consent set_auto_compound
    approve_exit allocate deallocate freeze unfreeze propose_exit
program_of-effect_of (deposit_call d c amount) s = elim (Bool-cases (leb_ℤ amount (pos 0))) [
  | inl low ↦ rw (deposit, low) refl
  | inr positive ↦ elim (Bool-cases (leb_ℤ (mint_shares s c amount) (pos 0))) [
    | inl dust ↦ rw (deposit, positive, run_program, dust) refl
    | inr minted ↦ rw (deposit, positive, run_program, minted) refl
  ]
]
program_of-effect_of (withdraw_call d c shares) s = elim (Bool-cases (leb_ℤ shares (pos 0))) [
  | inl low ↦ rw (withdraw, low) refl
  | inr positive ↦ elim (Bool-cases (ltb_ℤ (balance_of s d c) shares)) [
    | inl unowned ↦ rw (withdraw, positive, run_program, unowned) refl
    | inr owned ↦ rw (withdraw, positive, run_program, owned) refl
  ]
]
program_of-effect_of (consent_call d) s = refl
program_of-effect_of (auto_compound_call d true) s = refl
program_of-effect_of (auto_compound_call d false) s = refl
program_of-effect_of (approve_call d id) s = elim (Option-cases (find_exit id s.pending)) [
  | inl unknown ↦ rw (run_program, approve_exit, unknown) refl
  | inr (p, known) ↦ rw (run_program, approve_exit, known) refl
]
program_of-effect_of (allocate_call pool c amount) s = elim (Bool-cases (has pool s.frozen_pools)) [
  | inl halted ↦ rw (program_of, run_program, allocate, halted) refl
  | inr usable ↦ elim (Bool-cases (leb_ℤ amount (pos 0))) [
    | inl low ↦ rw (program_of, run_program, allocate, usable, low) refl
    | inr positive ↦ rw (program_of, run_program, allocate, usable, positive) refl
  ]
]
program_of-effect_of (deallocate_call pool c amount) s =
    elim (Bool-cases (ltb_ℤ (holdings_of s c) amount)) [
      | inl over ↦ rw (program_of, run_program, deallocate, over) refl
      | inr held ↦ rw (program_of, run_program, deallocate, held) refl
    ]
program_of-effect_of (freeze_call pool) s = refl
program_of-effect_of (unfreeze_call pool) s = refl
program_of-effect_of (propose_call c from to) s = refl

told-all_or_nothing : (r : Result Vault) (s : Vault) → told (all_or_nothing r s) ≡ receipt r s
told-all_or_nothing (ok t) s = refl
told-all_or_nothing (err e) s = refl

-- The submission of the statements is that of the effect.
run_submit-sign_and_submit :
    (w : Write) (xdr : ℕ) (signer : Signer) (s : Vault)
    → run_submit w xdr signer s ≡ sign_and_submit (prepared w xdr) signer s
unfolding run_submit sign_and_submit
run_submit-sign_and_submit w xdr signer s =
    let same : told (run_program (program_of w) s) ≡ receipt (effect_of w s) s =
      ap told (program_of-effect_of w s) ∙ told-all_or_nothing (effect_of w s) s in
    elim (Bool-cases (role_beq signer.role (role_of w))) [
      | inl right ↦ elim (Option-cases (signer.sign xdr)) [
        | inl unsigned ↦ rw (run_submit, sign_and_submit, right, unsigned) refl
        | inr (signature, signed) ↦
            rw (run_submit, sign_and_submit, right, signed)
              (ap
                (λ r.
                  if s.fail_submit then (ok (record { hash = s.seq; success = false }), s) else r)
                same)
      ]
      | inr wrong ↦ rw (run_submit, sign_and_submit, wrong) refl
    ]

-- The body of the method ran to its end, from a signature of the right role on a chain that accepts.
pub record IsCommitted (w : Write) (xdr : ℕ) (signer : Signer) (s t : Vault) : Type 0 where
  pub right_role : signer.role ≡ role_of w
  pub accepted : s.fail_submit ≡ false
  pub ran : run_program (program_of w) s ≡ (none, t)
  pub applied : effect_of w s ≡ ok t
  pub told_so : run_submit w xdr signer s ≡ (ok (record { hash = t.seq; success = true }), t)

-- No field has changed, and the caller is told of an error or a failure.
pub record IsUndone (w : Write) (xdr : ℕ) (signer : Signer) (s : Vault) : Type 0 where
  pub unchanged : (run_submit w xdr signer s).1 ≡ s
  pub reported :
      ((e : VaultError) × ((run_submit w xdr signer s).0 ≡ err e))
      ⊎ ((run_submit w xdr signer s).0 ≡ ok (record { hash = s.seq; success = false }))

-- The body of each of the ten writes is run statement by statement, and nothing takes a write back.
-- Still a submission either runs the body to its end, with all of its writes and a receipt of success,
-- or it leaves every field as it was and reports an error or a failure: no body throws after a write.
pub run_submit_atomic :
    (w : Write) (xdr : ℕ) (signer : Signer) (s : Vault)
    → ((t : Vault) × IsCommitted w xdr signer s t) ⊎ IsUndone w xdr signer s
run_submit_atomic w xdr signer s =
    let same = run_submit-sign_and_submit w xdr signer s in
    elim (submit_atomic (prepared w xdr) signer s) [
      | inl (t, c) ↦ inl (
        t,
        record {
          right_role = c.right_role;
          accepted = c.accepted;
          ran = program_of-effect_of w s ∙ ap (λ r. all_or_nothing r s) c.effect;
          applied = c.effect;
          told_so = same ∙ c.receipt_lem;
        },
      )
      | inr r ↦ inr (record {
        unchanged = ap (λ q. q.1) same ∙ r.unchanged;
        reported = elim r.reported [
          | inl (e, x) ↦ inl (e, ap (λ q. q.0) same ∙ x)
          | inr x ↦ inr (ap (λ q. q.0) same ∙ x)
        ];
      })
    ]
