-- ===== src/Vault/Tests.antt =====
-- Runs of the in-memory vault (packages/vault-client/src/mock.ts) and the theorems at concrete states.
use sorosense.Base.{◌≡◌, refl, none, some, arith, string_key, ◌⊎◌, ◌≢◌, ◌↔◌, suc, [], ◌∷◌}
use sorosense.Int.{pos, ◌+ℤ◌, ◌*ℤ◌, ◌/ℤ◌, ◌≤ℤ◌}
use sorosense.Dict.{get, put, delete, add, remove}
use sorosense.Seam.{
  Currency, usd, SignerRole, depositor, Signer, bucket_key, currency_key, Address, PoolId, Amount,
  exit, frozen, active,
}
use sorosense.Vault.State.{
  Vault, fresh, balance_of, total_assets_of, holdings_of, mint_shares, redeem_assets, share_price,
  active_pool, pending_exit, pool_status,
}
use sorosense.Vault.Operations.{
  ok, err, pool_is_frozen, deposit_not_positive, mints_no_shares, deposit, withdraw, credited,
  debited, unfreeze, allocate, freeze, propose_exit, proposal, approve_exit, simulate_yield,
}
use sorosense.Vault.Submit.{
  deposit_call, freeze_call, prepared, sign_and_submit, effect_of, role_of,
}
use sorosense.Vault.Solvency.{IsSolvent}
use sorosense.Vault.Reachable.{
  Reach, start, next, submitted, yielded, Reach-IsSolvent, withdraw_all,
}
use sorosense.Vault.Imperative.{write, throw, run_program}
use sorosense.Vault.Imperative.Atomic.{IsCommitted, IsUndone, run_submit_atomic}
use sorosense.Vault.Commit.{Committed, Rejected, submit_atomic}
use sorosense.Vault.Price.{PriceLe, deposit_price, withdraw_price}
use sorosense.Vault.RoundTrip.{withdraw-deposit}
use sorosense.Vault.Guards.{freeze_blocks, unfreeze_lifts, allocate_ok}
use sorosense.Vault.Exits.{propose_approve}

-- `mockSigner`
abbrev mock_signer : SignerRole → Address → Signer
mock_signer role address = record { role = role; address = address; sign = λ xdr. some address }

abbrev alice : Signer
alice = mock_signer depositor "alice"

-- Alice deposits 100 base units of USD, and 10 units of yield accrue.
abbrev funded : Vault
funded = (sign_and_submit (prepared (deposit_call "alice" usd (pos 100)) 1) alice fresh).1

abbrev grown : Vault
grown = record funded { total_assets = put usd (pos 110) funded.total_assets }

funded_books :
    (balance_of funded "alice" usd ≡ pos 100) × (share_price funded usd ≡ pos 1_000_000_000)
unfolding sign_and_submit effect_of deposit mint_shares get put bucket_key ◌+ℤ◌ ◌*ℤ◌ ◌/ℤ◌
    share_price role_of
funded_books = (refl, refl)

grown_step : simulate_yield usd (pos 10) funded ≡ ok grown
unfolding simulate_yield sign_and_submit effect_of deposit mint_shares get put bucket_key ◌+ℤ◌ ◌*ℤ◌
    ◌/ℤ◌ role_of
grown_step = refl

grown_reached : Reach grown
grown_reached =
    next (next start (submitted (deposit_call "alice" usd (pos 100)) 1 alice))
      (yielded usd (pos 10) grown_step)

grown_balance : balance_of grown "alice" usd ≡ pos 100
unfolding sign_and_submit effect_of deposit mint_shares get put bucket_key ◌+ℤ◌ ◌*ℤ◌ ◌/ℤ◌ role_of
grown_balance = refl

-- One unit buys less than one share of the grown bucket.
dust_is_rejected : deposit "bob" usd (pos 1) grown ≡ err mints_no_shares
unfolding sign_and_submit effect_of deposit mint_shares get put bucket_key ◌+ℤ◌ ◌*ℤ◌ ◌/ℤ◌ role_of
dust_is_rejected = refl

Reach-IsSolvent_example : IsSolvent grown
Reach-IsSolvent_example = Reach-IsSolvent grown_reached

withdraw_all_case :
    let all = balance_of grown "alice" usd in
    let paid = redeem_assets grown usd all in
    (withdraw "alice" usd all grown ≡ ok (debited "alice" usd all paid grown))
    × (balance_of (debited "alice" usd all paid grown) "alice" usd ≡ pos 0)
    × (pos 0 ≤ℤ paid)
    × (paid ≤ℤ total_assets_of grown usd)
withdraw_all_case = withdraw_all "alice" usd grown_reached (rw grown_balance (omega arith))

-- Bob's deposit of 50 into the grown bucket mints 45 shares.
abbrev joined : Vault
joined = credited "bob" usd (pos 50) (pos 45) grown

joins : deposit "bob" usd (pos 50) grown ≡ ok joined
unfolding sign_and_submit effect_of deposit mint_shares get put bucket_key ◌+ℤ◌ ◌*ℤ◌ ◌/ℤ◌ role_of
joins = refl

abbrev left : Vault
left = debited "alice" usd (pos 40) (redeem_assets grown usd (pos 40)) grown

leaves : withdraw "alice" usd (pos 40) grown ≡ ok left
unfolding sign_and_submit effect_of deposit withdraw mint_shares get put bucket_key ◌+ℤ◌ ◌*ℤ◌ ◌/ℤ◌
    role_of
leaves = refl

deposit_price_example : PriceLe usd grown joined × (share_price grown usd ≤ℤ share_price joined usd)
deposit_price_example = deposit_price "bob" usd usd (pos 50) (Reach-IsSolvent grown_reached) joins

withdraw_price_example : PriceLe usd grown left × (share_price grown usd ≤ℤ share_price left usd)
withdraw_price_example =
    withdraw_price "alice" usd usd (pos 40) (Reach-IsSolvent grown_reached) leaves

withdraw-deposit_example :
    let minted = mint_shares grown usd (pos 50) in
    let paid = redeem_assets joined usd minted in
    (withdraw "bob" usd minted joined ≡ ok (debited "bob" usd minted paid joined))
    × (paid ≤ℤ pos 50)
withdraw-deposit_example = withdraw-deposit "bob" usd (pos 50) (Reach-IsSolvent grown_reached) joins

submit_atomic_case :
    ((t : Vault) × Committed (prepared (freeze_call "blend") 7) alice grown t)
    ⊎ Rejected (prepared (freeze_call "blend") 7) alice grown
submit_atomic_case = submit_atomic (prepared (freeze_call "blend") 7) alice grown

run_submit_atomic_example :
    ((t : Vault) × IsCommitted (deposit_call "alice" usd (pos 50)) 7 alice grown t)
    ⊎ IsUndone (deposit_call "alice" usd (pos 50)) 7 alice grown
run_submit_atomic_example = run_submit_atomic (deposit_call "alice" usd (pos 50)) 7 alice grown

-- A body that wrote before it threw would leave the write.
write_stays :
    run_program
      (write (λ s. record s { consent = "bob" ∷ s.consent }) (throw deposit_not_positive))
      fresh
    ≡ (some deposit_not_positive, record fresh { consent = "bob" ∷ [] })
unfolding run_program
write_stays = refl

blend_blocked :
    let t = record grown { frozen_pools = add "blend" grown.frozen_pools } in
    (freeze "blend" grown ≡ ok t)
    × (pool_status t "blend" ≡ frozen)
    × ((other : PoolId) → "blend" ≢ other → pool_status t other ≡ pool_status grown other)
    × ((c : Currency) (amount : Amount)
        → allocate "blend" c amount t ≡ err (pool_is_frozen "blend"))
blend_blocked = freeze_blocks "blend" grown

blend_unfrozen :
    let t = record grown { frozen_pools = remove "blend" grown.frozen_pools } in
    (unfreeze "blend" grown ≡ ok t)
    × (pool_status t "blend" ≡ active)
    × ((other : PoolId) → "blend" ≢ other → pool_status t other ≡ pool_status grown other)
blend_unfrozen = unfreeze_lifts "blend" grown

abbrev placed : Vault
placed = record grown {
  active_pools = put usd "blend" grown.active_pools;
  holdings = put usd (holdings_of grown usd +ℤ pos 60) grown.holdings;
}

blend_funded :
    (allocate "blend" usd (pos 60) grown ≡ ok placed)
    ↔ ((pool_status grown "blend" ≡ active) × (pos 1 ≤ℤ pos 60) × (placed ≡ placed))
blend_funded = allocate_ok "blend" usd (pos 60) grown placed

abbrev proposed : Vault
proposed = record grown {
  seq = suc grown.seq;
  pending = put usd (proposal (suc grown.seq) usd "blend" "defindex") grown.pending;
}

abbrev exited : Vault
exited = record proposed {
  active_pools = put usd "defindex" proposed.active_pools;
  pending = delete usd proposed.pending;
}

propose_approve_case :
    (propose_exit usd "blend" "defindex" grown ≡ ok proposed)
    × (pending_exit proposed usd ≡ some (proposal (suc grown.seq) usd "blend" "defindex"))
    × (approve_exit "alice" (exit (suc grown.seq)) proposed ≡ ok exited)
    × (active_pool exited usd ≡ some "defindex")
    × (pending_exit exited usd ≡ none)
propose_approve_case =
    propose_approve usd "blend" "defindex" "alice" grown proposed exited grown_reached refl refl
