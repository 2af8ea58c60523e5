-- ===== src/Keeper/Cron.antt =====
-- backend/src/keeper/cron.ts: one pass of the keeper over the buckets, its defaults and its start.
use sorosense.Base.{ℕ, ◌*◌, Option, none, some, List, [], ◌∷◌, map, get_or}
use sorosense.Double.{Doubles}
use sorosense.Seam.{Currency, usd, eur}
use sorosense.Catalog.{CatalogEntry, get_catalog}
use sorosense.Allocator.{Candidate, Decision}
use sorosense.Keeper.{KeeperRunnerOptions, RunTickInput, run_tick}

-- What a pass reports of a bucket: the decision, or the noop that stands for a tick that threw.
pub data CronDecision : Type 0 where
  ran : Decision → CronDecision
  cron_error : Currency → CronDecision

abbrev pub default_currencies : List Currency
default_currencies = usd ∷ eur ∷ []

abbrev pub default_cron_interval_ms : ℕ
default_cron_interval_ms = 24 * 60 * 60 * 1_000

-- `candidatesFor`
unfoldable pub candidates_for : (d : Doubles) → Currency → List (Candidate d)
candidates_for d c =
    map (λ (v : CatalogEntry d). record { pool_id = v.id; ray = v.apy }) (get_catalog d (some c))

module _ (d : Doubles) {W : Type 0} (options : KeeperRunnerOptions W)
    (offered : Currency → List (Candidate d)) where
  -- A tick of the cron says nothing but the candidates.
  abbrev pub cron_input : Currency → RunTickInput d
  cron_input c = record {
    candidates = offered c;
    active_anomaly = none;
    active_ray = none;
    yield_accrued = none;
    threshold_pct = none;
    min_dwell_ms = none;
    position_value_usd = none;
    switch_cost_usd = none;
    dwell_horizon_days = none;
    store = none;
  }

  abbrev pub reported : Currency → Option Decision → CronDecision
  reported c none = cron_error c
  reported c (some decision) = ran decision

  unfoldable pub run_keeper_cron_once : List Currency → W → List CronDecision × W
  run_keeper_cron_once [] w = ([], w)
  run_keeper_cron_once (c ∷ cs) w =
      let (decision, w') = run_tick d options c (cron_input c) w in
      let (rest, end) = run_keeper_cron_once cs w' in (reported c decision ∷ rest, end)

-- The options of the cron without its runner; `none` is an option left out.
pub record KeeperCronOptions : Type 0 where
  pub currencies : Option (List Currency)
  pub interval_ms : Option ℕ

module _ (d : Doubles) {W : Type 0} (runner : KeeperRunnerOptions W)
    (options : KeeperCronOptions) where
  -- `runKeeperCronOnce` with its defaults
  unfoldable pub keeper_pass : W → List CronDecision × W
  keeper_pass w =
      run_keeper_cron_once d runner (candidates_for d)
        (get_or options.currencies default_currencies) w

  -- `startKeeperCron`; `schedule` takes the interval and the handler.
  unfoldable pub start_keeper_cron : {R : Type 0} → (ℕ → (W → W) → R) → R
  start_keeper_cron schedule =
      schedule (get_or options.interval_ms default_cron_interval_ms) (λ w. (keeper_pass w).1)
