-- ===== src/Real/Tests.antt =====
-- The real client of packages/vault-client/src/real.ts at a concrete environment and call.
use sorosense.Base.{◌≡◌, refl, true, false, ℕ, ◌+◌, String, Option, none, some, string_key, arith}
use sorosense.Int.{ℤ, pos}
use sorosense.Dict.{get, put}
use sorosense.Seam.{eur, ExitProposal, depositor, keeper, Signer}
use sorosense.Vault.State.{fresh}
use sorosense.Vault.Operations.{err, wrong_signer}
use sorosense.Vault.Submit.{
  freeze_call, propose_call, approve_call, prepared, sign_and_submit, role_of,
}
use sorosense.Real.{
  PoolEnv, BindingsCall, freeze_b, propose_b, approve_b, eur_tag, depositor_tx, Sent, keeper_tx,
  pool_registry_entries, from_entries, build_pool_registry, build_pool_id_resolver, pool_address,
  real_write, real_sign_and_submit,
}
use sorosense.Real.Reads.{active_tag, BindingsExitProposal, BindingsReads, real_pending_exit}
use sorosense.Real.Reads.Exits.{pending_exit_round_trip}
use sorosense.Real.Roles.{clients_agree_on_signers}

abbrev env : PoolEnv
env = record {
  yield_usd = some "CUSD";
  blend_usd = none;
  yield_eur = none;
  blend_eur = some "CEUR";
}

-- A contract whose exit 7 is pending, and texts of the one id.
abbrev pending : BindingsExitProposal
pending = record { id = 7; currency = eur_tag; from_pool = "CEUR"; to_pool = "CUSD" }

abbrev contract : BindingsReads
contract = record {
  balance_of = λ user c. some (pos 0);
  share_price = λ c. some (pos 1);
  value_of = λ user c. some (pos 0);
  pool_status = λ a. some active_tag;
  has_consent = λ a. some true;
  auto_compound_enabled = λ a. some false;
  active_pool = λ c. some (some "CEUR");
  pending_exit = λ c. some (some pending);
}

abbrev exit_text : ℕ → String
exit_text n = "7"

abbrev exit_parse : String → Option ℤ
exit_parse s = some (pos 7)

pending_exit_round_trip_example :
    (e : ExitProposal) × (real_pending_exit
        (build_pool_registry env)
        (build_pool_id_resolver env)
        exit_text
        contract
        eur
      ≡ some (some e))
    × (real_write
          (build_pool_registry env)
          exit_parse
          (propose_call e.currency e.from_pool e.to_pool)
        ≡ some (keeper_tx (propose_b eur_tag "CEUR" "CUSD")))
    × (real_write (build_pool_registry env) exit_parse (approve_call "alice" e.id)
        ≡ depositor_tx (approve_b "alice" (pos 7)))
unfolding build_pool_registry pool_registry_entries pool_address from_entries get put
pending_exit_round_trip_example =
    pending_exit_round_trip env exit_text exit_parse contract eur pending "sorosense-eur"
      "sorosense-usd" "alice" refl refl refl refl

-- A network that counts its calls.
abbrev send : BindingsCall → Signer → ℕ → Option Sent × ℕ
send call signer n = (some (record { hash = some "h"; status = some "SUCCESS" }), 1 + n)

abbrev no_number : String → Option ℤ
no_number s = none

abbrev alice : Signer
alice = record { role = depositor; address = "alice"; sign = λ xdr. some "alice" }

clients_agree_on_signers_case :
    (real_sign_and_submit send (keeper_tx (freeze_b "blend")) alice 0 ≡ (none, 0))
    × (sign_and_submit (prepared (freeze_call "blend") 1) alice fresh
        ≡ (err (wrong_signer keeper depositor), fresh))
unfolding real_write pool_address role_of
clients_agree_on_signers_case =
    clients_agree_on_signers none no_number send (freeze_call "blend") refl alice
      (λ e. absurd (ground (arith, e))) 0 1 fresh
