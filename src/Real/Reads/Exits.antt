-- ===== src/Real/Reads/Exits.antt =====
-- A pending exit as the real client reads it, given back to its writes
-- (packages/vault-client/src/real.ts, backend/src/tools/vault.ts).
use sorosense.Base.{ℕ, String, Option, some, ◌≡◌, refl, ap}
use sorosense.Int.{ℤ, pos}
use sorosense.Seam.{Currency, Address, PoolId, ExitProposal}
use sorosense.Vault.Submit.{propose_call, approve_call}
use sorosense.Real.{
  PoolEnv, BindingsCurrency, usd_tag, eur_tag, mxn_tag, to_bindings_currency,
  from_bindings_currency, build_pool_registry, build_pool_id_resolver, pool_address, pool_id,
  propose_b, approve_b, keeper_tx, depositor_tx, real_write,
}
use sorosense.Real.Pools.{pool_id_resolves}
use sorosense.Real.Reads.{
  BindingsExitProposal, from_bindings_exit_proposal, BindingsReads, real_pending_exit,
}
use mathlib.Core.Option

to_bindings_currency-from_bindings_currency :
    (b : BindingsCurrency) → to_bindings_currency (from_bindings_currency b) ≡ b
to_bindings_currency-from_bindings_currency usd_tag = refl
to_bindings_currency-from_bindings_currency eur_tag = refl
to_bindings_currency-from_bindings_currency mxn_tag = refl

module _ (env : PoolEnv) (print : ℕ → String) (parse : String → Option ℤ) where
  -- When the contract has a pending exit whose two pools are ones that the registry resolves, and the
  -- text of its id parses back to the id, `pendingExit` of the real client gives a proposal that,
  -- proposed again, names the same currency and the same two addresses to the contract and, approved,
  -- the same id.
  pub pending_exit_round_trip :
      (reads : BindingsReads) (c : Currency) (b : BindingsExitProposal) (from to : PoolId)
      (d : Address)
      → parse (print b.id) ≡ some (pos b.id)
      → reads.pending_exit (to_bindings_currency c) ≡ some (some b)
      → pool_address (build_pool_registry env) from ≡ some b.from_pool
      → pool_address (build_pool_registry env) to ≡ some b.to_pool
      → (e : ExitProposal) × (real_pending_exit
            (build_pool_registry env)
            (build_pool_id_resolver env)
            print
            reads
            c
          ≡ some (some e))
        × (real_write
              (build_pool_registry env)
              parse
              (propose_call e.currency e.from_pool e.to_pool)
            ≡ some (keeper_tx (propose_b b.currency b.from_pool b.to_pool)))
        × (real_write (build_pool_registry env) parse (approve_call d e.id)
            ≡ depositor_tx (approve_b d (pos b.id)))
  unfolding real_pending_exit from_bindings_exit_proposal real_write
  pending_exit_round_trip reads c b from to d parses pending at_from at_to = (
    from_bindings_exit_proposal print (pool_id (build_pool_id_resolver env)) b,
    ap
        (Option.map
          (Option.map (from_bindings_exit_proposal print (pool_id (build_pool_id_resolver env)))))
        pending,
    rw (pool_id_resolves env from b.from_pool at_from) (
        rw (pool_id_resolves env to b.to_pool at_to)
          (rw (to_bindings_currency-from_bindings_currency b.currency))),
    rw parses,
  )
