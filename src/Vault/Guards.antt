-- ===== src/Vault/Guards.antt =====
-- The freeze and what it blocks (packages/vault-client/src/mock.ts).
use sorosense.Base.{◌≡◌, refl, ◌↔◌, ◌≢◌, same_refl, same_ne, arith, string_key}
use sorosense.Int.{pos, ◌+ℤ◌, ◌≤ℤ◌, leb_ℤ→lt}
use sorosense.Dict.{add, remove, put, has-add, has-remove}
use sorosense.Seam.{Currency, PoolId, Amount, active, frozen, currency_key}
use sorosense.Vault.State.{Vault, pool_status, holdings_of}
use sorosense.Vault.Operations.{ok, err, pool_is_frozen, allocate, freeze, unfreeze}

-- A freeze goes through, touches nothing but the set of frozen pools, marks that pool and no other,
-- and every later allocation to it fails whatever the amount.
pub freeze_blocks :
    (pool : PoolId) (s : Vault)
    → let t = record s { frozen_pools = add pool s.frozen_pools } in
      (freeze pool s ≡ ok t)
      × (pool_status t pool ≡ frozen)
      × ((other : PoolId) → pool ≢ other → pool_status t other ≡ pool_status s other)
      × ((c : Currency) (amount : Amount) → allocate pool c amount t ≡ err (pool_is_frozen pool))
unfolding freeze pool_status allocate
freeze_blocks pool s = (
  refl,
  rw (has-add pool pool s.frozen_pools, same_refl pool),
  λ other ne. rw (has-add pool other s.frozen_pools, same_ne pool other ne),
  λ c amount. rw (has-add pool pool s.frozen_pools, same_refl pool),
)

-- Lifting a freeze goes through, touches nothing but the set of frozen pools, makes that pool
-- active and leaves the status of the others as it was.
pub unfreeze_lifts :
    (pool : PoolId) (s : Vault)
    → let t = record s { frozen_pools = remove pool s.frozen_pools } in
      (unfreeze pool s ≡ ok t)
      × (pool_status t pool ≡ active)
      × ((other : PoolId) → pool ≢ other → pool_status t other ≡ pool_status s other)
unfolding unfreeze pool_status
unfreeze_lifts pool s = (
  refl,
  rw (has-remove pool pool s.frozen_pools, same_refl pool),
  λ other ne. rw (has-remove pool other s.frozen_pools, same_ne pool other ne),
)

-- An allocation goes through exactly when its pool is not frozen and its amount is positive, and
-- then the pool is the bucket's active one and the holdings have grown by the amount.
pub allocate_ok :
    (pool : PoolId) (c : Currency) (amount : Amount) (s t : Vault)
    → (allocate pool c amount s ≡ ok t) ↔ (
        (pool_status s pool ≡ active)
        × (pos 1 ≤ℤ amount)
        × (t ≡ record s {
          active_pools = put c pool s.active_pools;
          holdings = put c (holdings_of s c +ℤ amount) s.holdings;
        }))
unfolding allocate pool_status
allocate_ok pool c amount s t = (
  λ done. ground (arith, leb_ℤ→lt amount (pos 0)),
  λ guard. ground (arith, leb_ℤ→lt amount (pos 0)),
)
