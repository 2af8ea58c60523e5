-- ===== src/Seed/Run.antt =====
-- What a run of the demo seed does (backend/src/scripts/demo-seed.ts).
use sorosense.Base.{
  Bool, true, false, Option, none, some, List, [], ◌∷◌, not, String, ◌≡◌, refl, sym, ◌∙◌,
}
use sorosense.Int.{ℤ, ◌-ℤ◌, ltb_ℤ}
use sorosense.Seed.{
  SeedCurrency, SeedState, SeedStep, generate_key, fund, trustline, mint, consent, deposit, step_if,
  plan_steps, DepositorKey, SeedChain, SeedVault, SeedHashes, no_hashes, SeedReport, await, submit,
  read_state, deposit_step, run_steps, run_seed,
}

await-await :
    {W A B C : Type 0} (x : Option A × W) (f : A → B) (k : B → W → Option C × W)
    → await (await x (λ a w. (some (f a), w))) k ≡ await x (λ a w. k (f a) w)
unfolding await
await-await (none, w) f k = refl
await-await (some a, w) f k = refl

await-ext :
    {W A B : Type 0} (x : Option A × W) {k l : A → W → Option B × W}
    → ((a : A) (w : W) → k a w ≡ l a w)
    → await x k ≡ await x l
unfolding await
await-ext (none, w) h = refl
await-ext (some a, w) h = h a w

module _ {W : Type 0} (chain : SeedChain W) (vault : SeedVault W) (key : DepositorKey)
    (currency : SeedCurrency) (amount : ℤ) where
  -- An effect that is skipped where it is not needed, with the hash of one that ran.
  abbrev pub needed : {A : Type 0} → Bool → (W → Option A × W) → W → Option (Option A) × W
  needed false act w = (some none, w)
  needed true act w = await (act w) (λ a w. (some (some a), w))

  -- The journey written straight, without a plan.
  pub journey : W → Option SeedReport × W
  journey w = await (read_state chain vault key currency amount w) (λ s w.
      await (needed (not s.funded) (chain.fund_account key.public_key) w) (λ _ w.
        await (needed (not s.has_trustline) chain.add_trustline w) (λ trustline_hash w.
          await
            (needed (ltb_ℤ s.asset_balance amount)
              (chain.mint_to key.public_key (amount -ℤ s.asset_balance)) w)
            (λ mint_hash w.
              await
                (needed (not s.has_consent)
                  (λ w. submit (vault.set_policy_consent key.public_key w)) w)
                (λ consent_hash w.
                  deposit_step chain vault key currency amount (plan_steps s amount)
                    (record {
                      trustline_hash = trustline_hash;
                      mint_hash = mint_hash;
                      consent_hash = consent_hash;
                      deposit_hash = none;
                    })
                    w)))))

  -- The run in a state that was read, whose plan is `steps`.
  abbrev ran : SeedState → List SeedStep → List SeedStep → SeedHashes → W → Option SeedReport × W
  ran = run_steps chain vault key currency amount

  module _ (s : SeedState) (steps : List SeedStep) where
    run_fund :
        (b : Bool) (rest : List SeedStep) (h : SeedHashes) (w : W)
        → ran s steps (step_if b fund rest) h w
          ≡ await (needed b (chain.fund_account key.public_key) w) (λ _ w. ran s steps rest h w)
    unfolding run_steps await
    run_fund false rest h w = refl
    run_fund true rest h w =
        sym (await-await (chain.fund_account key.public_key w) some (λ _. ran s steps rest h))

    run_trustline :
        (b : Bool) (rest : List SeedStep) (w : W)
        → ran s steps (step_if b trustline rest) no_hashes w
          ≡ await
              (needed b chain.add_trustline w)
              (λ t w. ran s steps rest (record no_hashes { trustline_hash = t }) w)
    unfolding run_steps await
    run_trustline false rest w = refl
    run_trustline true rest w = sym (
        await-await (chain.add_trustline w) some
          (λ t. ran s steps rest (record no_hashes { trustline_hash = t })))

    run_mint :
        (b : Bool) (rest : List SeedStep) (t : Option String) (w : W)
        → let h = record no_hashes { trustline_hash = t } in
          ran s steps (step_if b mint rest) h w
          ≡ await
              (needed b (chain.mint_to key.public_key (amount -ℤ s.asset_balance)) w)
              (λ m w. ran s steps rest (record h { mint_hash = m }) w)
    unfolding run_steps await
    run_mint false rest t w = refl
    run_mint true rest t w = sym (
        await-await (chain.mint_to key.public_key (amount -ℤ s.asset_balance) w) some
          (λ m. ran s steps rest (record no_hashes { trustline_hash = t; mint_hash = m })))

    run_consent :
        (b : Bool) (rest : List SeedStep) (t m : Option String) (w : W)
        → let h = record no_hashes { trustline_hash = t; mint_hash = m } in
          ran s steps (step_if b consent rest) h w
          ≡ await
              (needed b (λ w. submit (vault.set_policy_consent key.public_key w)) w)
              (λ c w. ran s steps rest (record h { consent_hash = c }) w)
    unfolding run_steps await
    run_consent false rest t m w = refl
    run_consent true rest t m w = sym (
        await-await (submit (vault.set_policy_consent key.public_key w)) some (λ c.
          ran s steps rest
            (record no_hashes { trustline_hash = t; mint_hash = m; consent_hash = c })))

    abbrev from_consent : List SeedStep
    from_consent = step_if (not s.has_consent) consent (deposit ∷ [])

    abbrev from_mint : List SeedStep
    from_mint = step_if (ltb_ℤ s.asset_balance amount) mint from_consent

    abbrev from_trustline : List SeedStep
    from_trustline = step_if (not s.has_trustline) trustline from_mint

    run_key :
        (b : Bool) (rest : List SeedStep) (h : SeedHashes) (w : W)
        → ran s steps (step_if b generate_key rest) h w ≡ ran s steps rest h w
    unfolding run_steps await
    run_key false rest h w = refl
    run_key true rest h w = refl

    planned :
        (w : W)
        → ran s steps (plan_steps s amount) no_hashes w
          ≡ await (needed (not s.funded) (chain.fund_account key.public_key) w) (λ _ w.
            await (needed (not s.has_trustline) chain.add_trustline w) (λ t w.
              await
                (needed
                  (ltb_ℤ s.asset_balance amount)
                  (chain.mint_to key.public_key (amount -ℤ s.asset_balance))
                  w)
                (λ m w.
                  await
                    (needed
                      (not s.has_consent)
                      (λ w. submit (vault.set_policy_consent key.public_key w))
                      w)
                    (λ c w.
                      deposit_step chain vault key currency amount steps
                        (record {
                          trustline_hash = t;
                          mint_hash = m;
                          consent_hash = c;
                          deposit_hash = none;
                        })
                        w))))
    unfolding plan_steps run_steps
    planned w =
        run_key (not s.has_secret) (step_if (not s.funded) fund from_trustline) no_hashes w
        ∙ run_fund (not s.funded) from_trustline no_hashes w
        ∙ await-ext _ λ _ w.
          run_trustline (not s.has_trustline) from_mint w
          ∙ await-ext _ λ t w.
            run_mint (ltb_ℤ s.asset_balance amount) from_consent t w
            ∙ await-ext _ (run_consent (not s.has_consent) (deposit ∷ []) t)

  -- The loop over the plan is the straight journey: each step runs just where the state that was read
  -- asks for it, in this order, a step that rejects ends the run, and the throw behind the loop is
  -- never reached.
  pub run_seed-journey : (w : W) → run_seed chain vault key currency amount w ≡ journey w
  unfolding run_seed plan_steps run_steps journey
  run_seed-journey w =
      await-ext (read_state chain vault key currency amount w)
        (λ s. planned s (plan_steps s amount))
