-- ===== src/Keeper/Moves.antt =====
-- What a keeper's tick does to the vault (backend/src/keeper/runner.ts, backend/src/keeper/cron.ts).
use sorosense.Base.{
  Bool, false, ◌⊎◌, Option, none, some, List, [], ◌∷◌, ◌≡◌, refl, ◌∙◌, ap, if◌then◌else◌,
  Option-cases, inl, inr, string_key,
}
use sorosense.Double.{Doubles}
use sorosense.Seam.{Currency, currency_key, PoolId, Amount, TxResult}
use sorosense.Vault.Submit.{Write, allocate_call, deallocate_call}
use sorosense.Allocator.{Decision, rebalance, Candidate, named}
use sorosense.Allocator.Tick.{EffectCall, compound_call, rebalance_call, freeze_exit_call}
use sorosense.Keeper.{
  KeeperRunnerOptions, guarded, amount_to_move, submit_only, submit_both, freeze_exit_writes,
  effect, run_calls, RunTickInput, store_for, run_tick,
}
use sorosense.Keeper.Cron.{cron_input, run_keeper_cron_once}

module _ {W : Type 0} (options : KeeperRunnerOptions W)
    (mock_mode : options.integration ≡ false) where
  guarded_mock : (write : Write) (w : W) → guarded options write w ≡ (none, w)
  unfolding guarded
  guarded_mock write w = rw mock_mode refl

  only_mock : (write : Write) (w : W) → (submit_only options write w).1 ≡ w
  only_mock write w = rw (guarded_mock write w) refl

  both_mock : (first second : Write) (w : W) → (submit_both options first second w).1 ≡ w
  both_mock first second w = rw (guarded_mock first w) refl

  exit_mock :
      (c : Currency) (pool : PoolId) (to : Option PoolId) (w : W)
      → (freeze_exit_writes options c pool to w).1 ≡ w
  exit_mock c pool none w = only_mock _ w
  exit_mock c pool (some to) w = both_mock _ _ w

  effect_mock : (call : EffectCall) (w : W) → (effect options call w).1 ≡ w
  unfolding effect
  effect_mock (compound_call c pool depositor) w =
      elim (Option-cases (amount_to_move options c pool)) [
        | inl unknown ↦ rw (effect, unknown) refl
        | inr (amount, known) ↦ rw (effect, known) (only_mock _ w)
      ]
  effect_mock (rebalance_call c from to) w = elim (Option-cases (amount_to_move options c from)) [
    | inl unknown ↦ rw (effect, unknown) refl
    | inr (amount, known) ↦ rw (effect, known) (both_mock _ _ w)
  ]
  effect_mock (freeze_exit_call c pool to) w = exit_mock c pool (named to) w

  calls_mock : (calls : List EffectCall) (w : W) → run_calls options calls w ≡ w
  unfolding run_calls
  calls_mock [] w = refl
  calls_mock (call ∷ calls) w =
      ap (run_calls options calls) (effect_mock call w) ∙ calls_mock calls w

  module _ {d : Doubles} where
    pub tick_mock :
        (c : Currency) (input : RunTickInput d) (w : W) → (run_tick d options c input w).1 ≡ w
    unfolding run_tick
    tick_mock c input w = elim (Option-cases (store_for d options c input w)) [
      | inl unread ↦ rw (run_tick, unread) refl
      | inr (s, found) ↦ rw (run_tick, found) (calls_mock _ w)
    ]

    -- Without the integration environment a pass of the keeper over any buckets leaves the vault as it
    -- was, whatever the candidates.
    pub run_keeper_cron_once_mock :
        (candidates_for : Currency → List (Candidate d)) (cs : List Currency) (w : W)
        → (run_keeper_cron_once d options candidates_for cs w).1 ≡ w
    unfolding run_keeper_cron_once
    run_keeper_cron_once_mock candidates_for [] w = refl
    run_keeper_cron_once_mock candidates_for (c ∷ cs) w =
        ap (λ u. (run_keeper_cron_once d options candidates_for cs u).1)
          (tick_mock c (cron_input d options candidates_for c) w)
        ∙ run_keeper_cron_once_mock candidates_for cs w

module _ {d : Doubles} {W : Type 0} (options : KeeperRunnerOptions W)
    (candidates_for : Currency → List (Candidate d)) where
  -- A run that takes the amount out of one pool and puts it into the other, or ends where a write
  -- throws, with the vault so far.
  abbrev pub IsMoved : Currency → PoolId → PoolId → Amount → W → Option Decision × W → Type 0
  IsMoved c from to amount w run =
      let taken = options.client.submit (deallocate_call from c amount) w in
      let placed = options.client.submit (allocate_call to c amount) taken.1 in
      ((taken.0 ≡ none) × (run.0 ≡ none) × (run.1 ≡ taken.1))
      ⊎ (((receipt : TxResult) × (taken.0 ≡ some receipt))
          × (((placed.0 ≡ none) × (run.0 ≡ none) × (run.1 ≡ placed.1))
              ⊎ (((receipt : TxResult) × (placed.0 ≡ some receipt))
                  × (run.0 ≡ some (rebalance c from to))
                  × (run.1 ≡ placed.1))))

  -- What a run makes of the effect of a move.
  abbrev told : Currency → PoolId → PoolId → Bool × W → Option Decision × W
  told c from to r = ((if r.0 then some (rebalance c from to) else none), r.1)
