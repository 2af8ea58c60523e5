-- ===== src/Real.antt =====
-- packages/vault-client/src/real.ts: the vault client over the generated contract bindings, and the pool
-- registry of backend/src/tools/vault.ts that it resolves pools by.
pub mod Pools
pub mod Roles
pub mod Reads
mod Tests
use sorosense.Base.{
  String, Bool, true, false, Option, none, some, List, [], ◌∷◌, ◌++◌, ◌==◌, not, if◌then◌else◌,
  get_or, string_key,
}
use sorosense.Int.{ℤ}
use sorosense.Dict.{Dict, get, put}
use sorosense.Seam.{
  Currency, usd, eur, mxn, Address, PoolId, Amount, Shares, PoolStatus, active, frozen, SignerRole,
  depositor, keeper, role_beq, ExitId, exit, other, Signer,
}
use sorosense.Vault.Submit.{
  Write, deposit_call, withdraw_call, consent_call, auto_compound_call, approve_call, allocate_call,
  deallocate_call, freeze_call, unfreeze_call, propose_call,
}
use mathlib.Core.Option

-- `env.YIELD_POOL_<CCY> ?? env.BLEND_POOL_<CCY>` for both currencies with a demo pool
pub record PoolEnv : Type 0 where
  pub yield_usd : Option String
  pub blend_usd : Option String
  pub yield_eur : Option String
  pub blend_eur : Option String

-- `demoPoolFor`; a currency without a demo pool is a throw.
abbrev pub demo_pool_for : Currency → Option PoolId
demo_pool_for usd = some "sorosense-usd"
demo_pool_for eur = some "sorosense-eur"
demo_pool_for mxn = none

abbrev pub or_else : Option String → Option String → Option String
or_else none y = y
or_else (some x) y = some x

-- A text that is set and not empty.
abbrev pub truthy : Option String → Option String
truthy none = none
truthy (some x) = if x == "" then none else some x

abbrev pub entry : PoolId → Option String → List (PoolId × Address)
entry slug none = []
entry slug (some address) = (slug, address) ∷ []

unfoldable pub pool_registry_entries : PoolEnv → List (PoolId × Address)
pool_registry_entries env =
    entry "sorosense-usd" (truthy (or_else env.yield_usd env.blend_usd))
    ++ entry "sorosense-eur" (truthy (or_else env.yield_eur env.blend_eur))

-- `new Map(entries)`, and the map of the entries turned around
unfoldable pub from_entries : List (String × String) → Dict String String → Dict String String
from_entries [] d = d
from_entries ((k, v) ∷ es) d = from_entries es (put k v d)

unfoldable pub inverted : List (PoolId × Address) → List (Address × PoolId)
inverted [] = []
inverted ((slug, address) ∷ es) = (address, slug) ∷ inverted es

-- `buildPoolRegistry`: no registry without entries; a slug that is not in it is a throw.
abbrev pub registry_of : List (PoolId × Address) → Option (PoolId → Option Address)
registry_of [] = none
registry_of (e ∷ es) = some (λ pool. truthy (get pool (from_entries (e ∷ es) [])))

unfoldable pub build_pool_registry : PoolEnv → Option (PoolId → Option Address)
build_pool_registry env = registry_of (pool_registry_entries env)

-- `buildPoolIdResolver`
abbrev pub resolver_of : List (PoolId × Address) → Option (Address → Option PoolId)
resolver_of [] = none
resolver_of (e ∷ es) =
    some (λ address. some (get_or (get address (from_entries (inverted (e ∷ es)) [])) address))

unfoldable pub build_pool_id_resolver : PoolEnv → Option (Address → Option PoolId)
build_pool_id_resolver env = resolver_of (pool_registry_entries env)

-- `poolAddress`; an unknown pool is a throw.
unfoldable pub pool_address : Option (PoolId → Option Address) → PoolId → Option Address
pool_address none pool = some pool
pool_address (some resolve) pool = truthy (resolve pool)

-- `poolId`: an address that is not known, or whose lookup throws, stands for itself.
unfoldable pub pool_id : Option (Address → Option PoolId) → Address → PoolId
pool_id none address = address
pool_id (some pool_id_for) address = get_or (truthy (pool_id_for address)) address

-- A call of the generated client, with its arguments encoded for the contract.
pub data BindingsCurrency : Type 0 where
  usd_tag eur_tag mxn_tag : BindingsCurrency

abbrev pub to_bindings_currency : Currency → BindingsCurrency
to_bindings_currency usd = usd_tag
to_bindings_currency eur = eur_tag
to_bindings_currency mxn = mxn_tag

abbrev pub from_bindings_currency : BindingsCurrency → Currency
from_bindings_currency usd_tag = usd
from_bindings_currency eur_tag = eur
from_bindings_currency mxn_tag = mxn

pub data BindingsCall : Type 0 where
  deposit_b withdraw_b : Address → BindingsCurrency → ℤ → BindingsCall
  consent_b : Address → BindingsCall
  auto_compound_b : Address → Bool → BindingsCall
  approve_b : Address → ℤ → BindingsCall
  allocate_b deallocate_b : Address → BindingsCurrency → Amount → BindingsCall
  freeze_b unfreeze_b : Address → BindingsCall
  propose_b : BindingsCurrency → Address → Address → BindingsCall

-- What a method returns: the role that must sign, and the call that the submission assembles, which
-- may throw.
pub record RealTx : Type 0 where
  pub required_signer : SignerRole
  pub assembled : Option BindingsCall

abbrev pub depositor_tx : BindingsCall → Option RealTx
depositor_tx call = some (record { required_signer = depositor; assembled = some call })

abbrev pub keeper_tx : BindingsCall → RealTx
keeper_tx call = record { required_signer = keeper; assembled = some call }

-- `BigInt(exitId)`: the ids of the in-memory vault are no numbers.
abbrev pub exit_number : (String → Option ℤ) → ExitId → Option ℤ
exit_number parse (exit n) = none
exit_number parse (other s) = parse s

abbrev pub pool_tx : Option Address → (Address → BindingsCall) → Option RealTx
pool_tx none call = none
pool_tx (some address) call = some (keeper_tx (call address))

abbrev pub propose_tx : Currency → Option Address → Option Address → Option RealTx
propose_tx c (some from) (some to) = some (keeper_tx (propose_b (to_bindings_currency c) from to))
propose_tx c _ _ = none

module _ (resolve : Option (PoolId → Option Address)) (parse : String → Option ℤ) where
  -- The ten writing methods; `none` is an unknown pool.
  unfoldable pub real_write : Write → Option RealTx
  real_write (deposit_call d c amount) = depositor_tx (deposit_b d (to_bindings_currency c) amount)
  real_write (withdraw_call d c shares) =
      depositor_tx (withdraw_b d (to_bindings_currency c) shares)
  real_write (consent_call d) = depositor_tx (consent_b d)
  real_write (auto_compound_call d enabled) = depositor_tx (auto_compound_b d enabled)
  real_write (approve_call d id) = some (record {
    required_signer = depositor;
    assembled = Option.map (approve_b d) (exit_number parse id);
  })
  real_write (allocate_call pool c amount) =
      pool_tx (pool_address resolve pool) (λ a. allocate_b a (to_bindings_currency c) amount)
  real_write (deallocate_call pool c amount) =
      pool_tx (pool_address resolve pool) (λ a. deallocate_b a (to_bindings_currency c) amount)
  real_write (freeze_call pool) = pool_tx (pool_address resolve pool) freeze_b
  real_write (unfreeze_call pool) = pool_tx (pool_address resolve pool) unfreeze_b
  real_write (propose_call c from to) =
      propose_tx c (pool_address resolve from) (pool_address resolve to)

-- What `signAndSend` came to: the hash and the final status, where there are any.
pub record Sent : Type 0 where
  pub hash : Option String
  pub status : Option String

pub record RealResult : Type 0 where
  pub hash : String
  pub success : Bool

abbrev pub is_success : Option String → Bool
is_success none = false
is_success (some status) = status == "SUCCESS"

-- `signAndSubmit` over the network `W` behind the generated client, whose call and whose `signAndSend`
-- may throw.
unfoldable pub real_sign_and_submit :
    {W : Type 0}
    → (BindingsCall → Signer → W → Option Sent × W)
    → RealTx
    → Signer
    → W
    → Option RealResult × W
real_sign_and_submit send tx signer w =
    if not (role_beq signer.role tx.required_signer) then (none, w) else elim tx.assembled [
      | none ↦ (none, w)
      | some call ↦
          let (sent, w') = send call signer w in
          (
            Option.map (λ s. record { hash = get_or s.hash ""; success = is_success s.status })
                sent,
            w',
          )
    ]

-- `activePool` on the address that the contract returned
abbrev pub active_pool_of : Option (Address → Option PoolId) → Option Address → Option PoolId
active_pool_of decode none = none
active_pool_of decode (some address) = some (pool_id decode address)
