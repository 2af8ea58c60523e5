-- ===== src/Real/Pools.antt =====
-- Pools through the real client (packages/vault-client/src/real.ts) over the registry and its inverse
-- (backend/src/tools/vault.ts).
use sorosense.Base.{
  false, Option, none, some, List, [], ◌∷◌, ◌++◌, ◌≡◌, refl, arith, ◌==◌, string_key, get_or,
  same_refl,
}
use sorosense.Dict.{get, put}
use sorosense.Seam.{Address, PoolId}
use sorosense.Real.{
  PoolEnv, or_else, truthy, entry, pool_registry_entries, from_entries, inverted, registry_of,
  resolver_of, build_pool_registry, build_pool_id_resolver, pool_address, pool_id,
}

-- What a list of entries resolves a pool to, and decodes an address to.
abbrev resolved_by : List (PoolId × Address) → PoolId → Option Address
resolved_by es pool = truthy (truthy (get pool (from_entries es [])))

abbrev decoded_by : List (PoolId × Address) → Address → PoolId
decoded_by es a = get_or (truthy (some (get_or (get a (from_entries (inverted es) [])) a))) a

one_entry :
    (p : PoolId) (u : Address) (pool : PoolId) (a : Address)
    → (p == "") ≡ false
    → resolved_by ((p, u) ∷ []) pool ≡ some a
    → resolved_by ((p, u) ∷ []) (decoded_by ((p, u) ∷ []) a) ≡ some a
unfolding get put from_entries inverted
one_entry p u pool a named h =
    ground (arith, string_key.same_iff u a, string_key.same_iff p pool, same_refl p)

two_entries :
    (p q : PoolId) (u e : Address) (pool : PoolId) (a : Address)
    → (p == "") ≡ false
    → (q == "") ≡ false
    → (p == q) ≡ false
    → (q == p) ≡ false
    → resolved_by ((p, u) ∷ (q, e) ∷ []) pool ≡ some a
    → resolved_by ((p, u) ∷ (q, e) ∷ []) (decoded_by ((p, u) ∷ (q, e) ∷ []) a) ≡ some a
unfolding get put from_entries inverted
two_entries p q u e pool a named_p named_q ne ne' h = ground (
  arith,
  string_key.same_iff u a,
  string_key.same_iff e a,
  string_key.same_iff u e,
  string_key.same_iff p pool,
  string_key.same_iff q pool,
  same_refl p,
  same_refl q,
)

shape :
    (usd_pool eur_pool : Option Address)
    → let es = entry "sorosense-usd" usd_pool ++ entry "sorosense-eur" eur_pool in
      (pool : PoolId) (a : Address)
      → pool_address (registry_of es) pool ≡ some a
      → pool_address (registry_of es) (pool_id (resolver_of es) a) ≡ some a
unfolding pool_address pool_id
shape none none pool a h = refl
shape (some u) none pool a h = one_entry "sorosense-usd" u pool a refl h
shape none (some e) pool a h = one_entry "sorosense-eur" e pool a refl h
shape (some u) (some e) pool a h =
    two_entries "sorosense-usd" "sorosense-eur" u e pool a refl refl refl refl h

-- An address that a pool of the seam resolves to, as the contract gives it back for the active pool,
-- decodes to a pool that resolves to it again: whichever pools the environment names, even if two
-- share their address.
pub pool_id_resolves :
    (env : PoolEnv) (pool : PoolId) (a : Address)
    → pool_address (build_pool_registry env) pool ≡ some a
    → pool_address (build_pool_registry env) (pool_id (build_pool_id_resolver env) a) ≡ some a
unfolding build_pool_registry build_pool_id_resolver pool_registry_entries
pool_id_resolves env pool a h =
    shape (truthy (or_else env.yield_usd env.blend_usd))
      (truthy (or_else env.yield_eur env.blend_eur)) pool a h
