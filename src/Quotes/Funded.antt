-- ===== src/Quotes/Funded.antt =====
-- What a list of holdings of backend/src/api/holdings.ts says, against the vault, the exchange rates and
-- the rates of backend/src/api/rates.ts.
use sorosense.Base.{
  ◌≡◌, refl, sym, ap, ◌∙◌, false, Option, none, some, List, [], ◌∷◌, All, All-weaken, Bool-cases,
  Option-cases, inl, inr, arith, true, Bool, ◌⊎◌, ◌↔◌,
}
use mathlib.Core.Option
use mathlib.Core.Path.{subst}
use sorosense.Int.{pos, leb_ℤ}
use sorosense.Double.{Doubles}
use sorosense.Results.{Result, ok, err, Result-cases}
use sorosense.Real.{truthy}
use sorosense.Seam.{PoolStatus, active, frozen, Currency, Address, PoolId, Shares, Amount}
use sorosense.Catalog.{VenueMeta, best_safe_venue}
use sorosense.Quotes.{
  is_frozen, all_of, collect, quoted_rate, rate_for, get_rates, to_usd, Holding, HoldingsDeps,
  pool_frozen, venue_of, quote_bucket, funded_bucket, bucket_holding, bucket_holdings, get_holdings,
}

module _ {d : Doubles} (deps : HoldingsDeps d) (depositor : Address) where
  -- A bucket in no pool is not frozen, and one in a pool is just if the vault's status of that pool is.
  abbrev pub IsFlagged : Option PoolId → Bool → Type 0
  IsFlagged pool flag =
      ((truthy pool ≡ none) × (flag ≡ false))
      ⊎ ((p : PoolId) × ((truthy pool ≡ some p)
            × ((status : PoolStatus) × ((deps.vault.pool_status p ≡ some status)
                  × ((flag ≡ true) ↔ (status ≡ frozen))))))

  -- The holding of a bucket says what the vault, the exchange and the venue say.
  pub record IsFunded (h : Holding d) : Type 0 where
    pub pool : Option PoolId
    pub meta : VenueMeta d
    pub rate : d.Number
    pub held : deps.vault.balance_of depositor h.quoted.currency ≡ some h.shares
    pub positive : leb_ℤ h.shares (pos 0) ≡ false
    pub valued : deps.vault.asset_value_of depositor h.quoted.currency ≡ some h.value
    pub exchanged : deps.fx h.quoted.currency ≡ ok rate
    pub converted : h.value_usd ≡ to_usd d h.value rate
    pub placed : deps.vault.active_pool h.quoted.currency ≡ some pool
    pub vetted : venue_of d deps h.quoted.currency pool ≡ some meta
    pub paid : deps.apy meta.id ≡ ok h.quoted.apy
    pub flagged : IsFlagged pool h.frozen
    pub shown : h.quoted ≡ quoted_rate d h.quoted.currency meta h.quoted.apy deps.fee_bps

  is_frozen_iff : (status : PoolStatus) → (is_frozen status ≡ true) ↔ (status ≡ frozen)
  is_frozen_iff frozen = (λ h. refl, λ h. refl)
  is_frozen_iff active = (λ h. absurd (cc h), λ h. absurd (cc h))

  pool_frozen-IsFlagged :
      (pool : Option PoolId) {flag : Bool}
      → pool_frozen d deps pool ≡ some flag
      → IsFlagged pool flag
  pool_frozen-IsFlagged pool {flag} h = elim (Option-cases (truthy pool)) [
    | inl unnamed ↦ inl (unnamed, ground (arith, h, unnamed))
    | inr (p, name) ↦ elim (Option-cases (deps.vault.pool_status p)) [
      | inl unread ↦ absurd (ground (arith, h, name, unread))
      | inr (status, read) ↦
          let same : is_frozen status ≡ flag = ground (arith, h, name, read) in
          inr (
            p,
            (
              name,
              (
                status,
                (read, subst (λ b. (b ≡ true) ↔ (status ≡ frozen)) same (is_frozen_iff status)),
              ),
            ),
          )
    ]
  ]

  quoted :
      (c : Currency) (shares : Shares) (value : Amount) (pool : Option PoolId) (rate : d.Number)
      (meta : VenueMeta d) {h : Holding d}
      → deps.vault.balance_of depositor c ≡ some shares
      → leb_ℤ shares (pos 0) ≡ false
      → deps.vault.asset_value_of depositor c ≡ some value
      → deps.fx c ≡ ok rate
      → deps.vault.active_pool c ≡ some pool
      → venue_of d deps c pool ≡ some meta
      → quote_bucket d deps c shares value pool rate meta ≡ some (ok (some h))
      → IsFunded h
  unfolding quote_bucket
  quoted c shares value pool rate meta {h} held positive valued exchanged placed vetted e =
      elim (Option-cases (pool_frozen d deps pool)) [
        | inl p ↦ absurd (ground (arith, e, p))
        | inr (paused, p) ↦ elim (Result-cases (deps.apy meta.id)) [
          | inl (code, (why, q)) ↦ absurd (ground (arith, e, p, q))
          | inr (apy, q) ↦
              let built : Holding d = record {
                quoted = quoted_rate d c meta apy deps.fee_bps;
                shares = shares;
                value = value;
                value_usd = to_usd d value rate;
                frozen = paused;
              } in
              let same : built ≡ h = ground (arith, e, p, q) in
              subst IsFunded same (record {
                pool = pool;
                meta = meta;
                rate = rate;
                held = held;
                positive = positive;
                valued = valued;
                exchanged = exchanged;
                converted = refl;
                placed = placed;
                vetted = vetted;
                paid = q;
                flagged = pool_frozen-IsFlagged pool p;
                shown = refl;
              })
        ]
      ]

  funded :
      (c : Currency) (shares : Shares) {h : Holding d}
      → deps.vault.balance_of depositor c ≡ some shares
      → leb_ℤ shares (pos 0) ≡ false
      → funded_bucket d deps depositor c shares ≡ some (ok (some h))
      → IsFunded h
  unfolding funded_bucket quote_bucket
  funded c shares {h} held positive e =
      elim (Option-cases (deps.vault.asset_value_of depositor c)) [
        | inl a ↦ absurd (ground (arith, e, a))
        | inr (value, a) ↦ elim (Option-cases (deps.vault.active_pool c)) [
          | inl b ↦ absurd (ground (arith, e, a, b))
          | inr (pool, b) ↦ elim (Result-cases (deps.fx c)) [
            | inl (code, (why, f)) ↦ absurd (ground (arith, e, a, b, f))
            | inr (rate, f) ↦ elim (Option-cases (venue_of d deps c pool)) [
              | inl m ↦ absurd (ground (arith, e, a, b, f, m))
              | inr (meta, m) ↦
                  quoted c shares value pool rate meta held positive a f b m
                    (rw (funded_bucket, a, b, f, m) at e)
            ]
          ]
        ]
      ]

  bucket_holding-some :
      (c : Currency) {h : Holding d}
      → bucket_holding d deps depositor c ≡ some (ok (some h))
      → IsFunded h
  unfolding bucket_holding
  bucket_holding-some c {h} e = elim (Option-cases (deps.vault.balance_of depositor c)) [
    | inl b ↦ absurd (ground (arith, e, b))
    | inr (shares, b) ↦ elim (Bool-cases (leb_ℤ shares (pos 0))) [
      | inl empty ↦ absurd (ground (arith, e, b, empty))
      | inr positive ↦ funded c shares b positive (rw (bucket_holding, b, positive) at e)
    ]
  ]

  -- A bucket with shares needs a rate.
  abbrev pub IsPriced : Currency → Type 0
  IsPriced c =
      (shares : Shares)
      → deps.vault.balance_of depositor c ≡ some shares
      → leb_ℤ shares (pos 0) ≡ false
      → (rate : d.Number) × (deps.fx c ≡ ok rate)

  funded_bucket-IsPriced :
      (c : Currency) (shares : Shares) {r : Option (Holding d)}
      → funded_bucket d deps depositor c shares ≡ some (ok r)
      → (rate : d.Number) × (deps.fx c ≡ ok rate)
  unfolding funded_bucket
  funded_bucket-IsPriced c shares e = elim (Option-cases (deps.vault.asset_value_of depositor c)) [
    | inl a ↦ absurd (ground (arith, e, a))
    | inr (value, a) ↦ elim (Option-cases (deps.vault.active_pool c)) [
      | inl b ↦ absurd (ground (arith, e, a, b))
      | inr (pool, b) ↦ elim (Result-cases (deps.fx c)) [
        | inl (code, (why, f)) ↦ absurd (ground (arith, e, a, b, f))
        | inr (rate, f) ↦ (rate, f)
      ]
    ]
  ]

  bucket_holding-IsPriced :
      (c : Currency) {r : Option (Holding d)}
      → bucket_holding d deps depositor c ≡ some (ok r)
      → IsPriced c
  unfolding bucket_holding
  bucket_holding-IsPriced c e shares held positive =
      funded_bucket-IsPriced c shares (rw (bucket_holding, held, positive) at e)

  abbrev with_held : Option (Holding d) → List (Holding d) → List (Holding d)
  with_held none rest = rest
  with_held (some h) rest = h ∷ rest

  collect-cons :
      (r : Result (Option (Holding d))) (rs : List (Result (Option (Holding d))))
      {hs : List (Holding d)}
      → collect (r ∷ rs) ≡ ok hs
      → (o : Option (Holding d)) × ((r ≡ ok o)
          × ((rest : List (Holding d)) × ((collect rs ≡ ok rest) × (hs ≡ with_held o rest))))
  unfolding collect
  collect-cons (err code why) rs e = cc
  collect-cons (ok o) rs e = elim (Result-cases (collect rs)) [
    | inl (code, (why, f)) ↦ absurd (ground (arith, e, f))
    | inr (rest, f) ↦ (o, (refl, (rest, (f, ground (arith, e, f)))))
  ]

  get_holdings-cons :
      (c : Currency) (cs : List Currency) {hs : List (Holding d)}
      → get_holdings d deps depositor (c ∷ cs) ≡ some (ok hs)
      → (o : Option (Holding d)) × ((bucket_holding d deps depositor c ≡ some (ok o))
          × ((rest : List (Holding d)) × ((get_holdings d deps depositor cs ≡ some (ok rest))
                × (hs ≡ with_held o rest))))
  unfolding get_holdings bucket_holdings all_of
  get_holdings-cons c cs e = elim (Option-cases (bucket_holding d deps depositor c)) [
    | inl b ↦ absurd (ground (arith, e, b))
    | inr (r, b) ↦ elim (Option-cases (all_of (bucket_holdings d deps depositor cs))) [
      | inl a ↦ absurd (ground (arith, e, a, b))
      | inr (rs, a) ↦
          let (o, (q, (rest, (p, s)))) = collect-cons r rs (ground (arith, e, a, b)) in
          (o, (b ∙ ap some q, (rest, (ap (Option.map collect) a ∙ ap some p, s))))
    ]
  ]

  -- Where the holdings are listed, each says what the vault, the exchange and a vetted venue say of a
  -- bucket with shares, the frozen flag of its pool too, and every asked bucket with shares has an exchange rate: a missing rate fails
  -- the list, and no bucket is valued without one.
  pub get_holdings_funded :
      (currencies : List Currency) {holdings : List (Holding d)}
      → get_holdings d deps depositor currencies ≡ some (ok holdings)
      → All IsFunded holdings × All IsPriced currencies
  unfolding get_holdings bucket_holdings all_of collect
  get_holdings_funded [] {holdings} e =
      let none_held : [] ≡ holdings = ground (arith, e) in (subst (All IsFunded) none_held tt, tt)
  get_holdings_funded (c ∷ cs) {holdings} e =
      let (o, (b, (rest, (r, s)))) = get_holdings-cons c cs e in
      let (each, priced) = get_holdings_funded cs r in
      (
        subst (All IsFunded) (sym s) (elim (Option-cases o) [
          | inl n ↦ rw n each
          | inr (h, k) ↦ rw k (bucket_holding-some c (b ∙ ap (λ x. some (ok x)) k), each)
        ]),
        (bucket_holding-IsPriced c b, priced),
      )

  quoted_alike :
      (h : Holding d)
      → IsFunded h
      → deps.vault.active_pool h.quoted.currency ≡ some none
      → get_rates d deps.apy deps.fee_bps (h.quoted.currency ∷ []) ≡ ok (h.quoted ∷ [])
  unfolding get_rates rate_for
  quoted_alike h f idle =
      let none_placed : f.pool ≡ none = ground (arith, f.placed, idle) in
      let best : best_safe_venue d h.quoted.currency ≡ some f.meta =
        subst (λ p. venue_of d deps h.quoted.currency p ≡ some f.meta) none_placed f.vetted in
      rw (get_rates, rate_for, best, f.paid) (ap (λ r. ok (r ∷ [])) (sym f.shown))

  -- For every listed holding of a bucket that is in no pool, the rates of that currency are the same
  -- venue, rate, tags and fee: what a depositor was quoted is what is shown.
  pub holdings_match_rates :
      (currencies : List Currency) {holdings : List (Holding d)}
      → get_holdings d deps depositor currencies ≡ some (ok holdings)
      → All
          (λ h.
            deps.vault.active_pool h.quoted.currency ≡ some none
            → get_rates d deps.apy deps.fee_bps (h.quoted.currency ∷ []) ≡ ok (h.quoted ∷ []))
          holdings
  holdings_match_rates currencies e = All-weaken quoted_alike _ (get_holdings_funded currencies e).0
