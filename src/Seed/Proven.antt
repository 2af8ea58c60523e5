-- ===== src/Seed/Proven.antt =====
-- What a report of the demo seed proves (backend/src/scripts/demo-seed.ts).
use sorosense.Base.{
  String, true, Bool-cases, Option, none, some, List, [], ◌∷◌, ◌≡◌, refl, sym, ap, ◌∙◌, inl, inr,
  arith,
}
use sorosense.Int.{ℤ, ◌+ℤ◌, ltb_ℤ, leb_ℤ, eq_of_parts}
use sorosense.Seed.{
  SeedCurrency, SeedState, SeedStep, generate_key, fund, trustline, mint, consent, deposit,
  plan_steps, DepositorKey, SeedChain, SeedVault, SeedTx, SeedHashes, SeedReport, await, submit,
  checked, read_state, deposit_step, run_steps, run_seed, seed_bucket, accepted,
}

-- What ran before an effect that resolved.
pub await-some :
    {W A B : Type 0} (x : Option A × W) (k : A → W → Option B × W) {b : B} {end : W}
    → await x k ≡ (some b, end)
    → (a : A) × ((w : W) × ((x ≡ (some a, w)) × (k a w ≡ (some b, end))))
unfolding await
await-some (none, w) k h = absurd (cc h)
await-some (some a, w) k h = (a, (w, (refl, h)))

module _ {W : Type 0} (chain : SeedChain W) (vault : SeedVault W) (key : DepositorKey)
    (currency : SeedCurrency) (amount : ℤ) where
  -- The depositor's reads right before the deposit and right behind it, and the deposit between them.
  pub record IsProven (r : SeedReport) (end : W) : Type 0 where
    pub start : W
    pub read : W
    pub ready : W
    pub landed : W
    pub back : W
    pub valued : W
    pub shares_before : ℤ
    pub value_before : ℤ
    pub tx : SeedTx
    pub shares_read :
        vault.shares_of key.public_key (seed_bucket currency) start ≡ (some shares_before, read)
    pub value_read :
        vault.value_in key.public_key (seed_bucket currency) read ≡ (some value_before, ready)
    pub deposited :
        vault.deposit_into key.public_key (seed_bucket currency) amount ready ≡ (some tx, landed)
    pub success : tx.success ≡ true
    pub evidence : r.hashes.deposit_hash ≡ some tx.hash
    pub shares_back :
        vault.shares_of key.public_key (seed_bucket currency) landed ≡ (some r.shares, back)
    pub value_back :
        vault.value_in key.public_key (seed_bucket currency) back ≡ (some r.value, valued)
    pub price_back : vault.price_of_share (seed_bucket currency) valued ≡ (some r.share_price, end)
    pub grew : ltb_ℤ shares_before r.shares ≡ true
    pub exact : r.value ≡ value_before +ℤ amount

  checked-some :
      (shares_before value_before : ℤ) (r r' : SeedReport)
      → checked chain vault key currency amount shares_before value_before r ≡ some r'
      → (r ≡ r') × (ltb_ℤ shares_before r.shares ≡ true) × (r.value ≡ value_before +ℤ amount)
  checked-some shares_before value_before r r' h =
      let p : leb_ℤ r.value (value_before +ℤ amount) ≡ true = ground (arith, h) in
      let q : leb_ℤ (value_before +ℤ amount) r.value ≡ true = ground (arith, h) in
      (
        ground (arith, h),
        ground (arith, h),
        eq_of_parts r.value (value_before +ℤ amount) (ground (arith, p, q)),
      )

  accepted-some :
      (tx : SeedTx) {hash : String}
      → accepted tx ≡ some hash
      → (tx.success ≡ true) × (hash ≡ tx.hash)
  accepted-some tx {hash} h = elim (Bool-cases tx.success) [
    | inl went_through ↦ ground arith
    | inr refused ↦ ground arith
  ]

  submit-some :
      (x : Option SeedTx × W) {hash : String} {w : W}
      → submit x ≡ (some hash, w)
      → (tx : SeedTx) × ((x ≡ (some tx, w)) × (tx.success ≡ true) × (hash ≡ tx.hash))
  unfolding await
  submit-some (none, w) h = absurd (cc h)
  submit-some (some tx, w) {hash} h =
      let (success, same) = accepted-some tx (ap (λ u. u.0) h) in
      (tx, (ap (λ u. (some tx, u.1)) h, success, same))

  deposit_step-IsProven :
      (steps : List SeedStep) (hashes : SeedHashes) (w : W) {r : SeedReport} {end : W}
      → deposit_step chain vault key currency amount steps hashes w ≡ (some r, end)
      → IsProven r end × (r.steps ≡ steps) × (r.amount ≡ amount)
  unfolding deposit_step
  deposit_step-IsProven steps hashes w {r} {end} h =
      let (before, (w1, (shares_read, h))) = await-some _ _ h in
      let (value_before, (w2, (value_read, h))) = await-some _ _ h in
      let (hash, (w3, (sent, h))) = await-some _ _ h in
      let (shares, (w4, (shares_back, h))) = await-some _ _ h in
      let (value, (w5, (value_back, h))) = await-some _ _ h in
      let (price, (w6, (price_back, h))) = await-some _ _ h in
      let (tx, (deposited, success, evidence)) = submit-some _ sent in
      let (same, grew, exact) = checked-some before value_before _ r (ap (λ u. u.0) h) in
      let ends = ap (λ u. u.1) h in
      (
        record {
          start = w;
          read = w1;
          ready = w2;
          landed = w3;
          back = w4;
          valued = w5;
          shares_before = before;
          value_before = value_before;
          tx = tx;
          shares_read = shares_read;
          value_read = value_read;
          deposited = deposited;
          success = success;
          evidence = sym (ap (λ q. q.hashes.deposit_hash) same) ∙ ap some evidence;
          shares_back = shares_back ∙ ap (λ q. (some q.shares, w4)) same;
          value_back = value_back ∙ ap (λ q. (some q.value, w5)) same;
          price_back = price_back ∙ (λ i. (some (same i).share_price, ends i));
          grew = sym (ap (λ q. ltb_ℤ before q.shares) same) ∙ grew;
          exact = sym (ap (λ q. q.value) same) ∙ exact;
        },
        sym (ap (λ q. q.steps) same),
        sym (ap (λ q. q.amount) same),
      )

  run_steps-IsProven :
      (s : SeedState) (steps rest : List SeedStep) (hashes : SeedHashes) (w : W) {r : SeedReport}
      {end : W}
      → run_steps chain vault key currency amount s steps rest hashes w ≡ (some r, end)
      → IsProven r end × (r.steps ≡ steps) × (r.amount ≡ amount)
  unfolding run_steps
  run_steps-IsProven s steps [] hashes w h = absurd (cc h)
  run_steps-IsProven s steps (generate_key ∷ rest) hashes w h =
      run_steps-IsProven s steps rest hashes w h
  run_steps-IsProven s steps (fund ∷ rest) hashes w h =
      let (_, (w', (_, h))) = await-some _ _ h in run_steps-IsProven s steps rest _ w' h
  run_steps-IsProven s steps (trustline ∷ rest) hashes w h =
      let (_, (w', (_, h))) = await-some _ _ h in run_steps-IsProven s steps rest _ w' h
  run_steps-IsProven s steps (mint ∷ rest) hashes w h =
      let (_, (w', (_, h))) = await-some _ _ h in run_steps-IsProven s steps rest _ w' h
  run_steps-IsProven s steps (consent ∷ rest) hashes w h =
      let (_, (w', (_, h))) = await-some _ _ h in run_steps-IsProven s steps rest _ w' h
  run_steps-IsProven s steps (deposit ∷ rest) hashes w h = deposit_step-IsProven steps hashes w h

  -- A run that reports says what happened: it took the steps planned for the state it had read, it
  -- deposited the amount asked for in a transaction that the chain accepted, whose hash it gives, and
  -- the shares, the value and the share price are reads from behind that deposit, with more shares than
  -- were read right before it and a value higher by the amount to the unit.
  pub run_seed-IsProven :
      (w : W) (r : SeedReport) (end : W)
      → run_seed chain vault key currency amount w ≡ (some r, end)
      → (s : SeedState) × ((w' : W) × ((read_state chain vault key currency amount w ≡ (some s, w'))
            × (r.steps ≡ plan_steps s amount)
            × (r.amount ≡ amount)
            × IsProven r end))
  unfolding run_seed
  run_seed-IsProven w r end h =
      let (s, (w', (found, h))) = await-some _ _ h in
      let (proven, steps, exact) = run_steps-IsProven s (plan_steps s amount) _ _ w' h in
      (s, (w', (found, steps, exact, proven)))
