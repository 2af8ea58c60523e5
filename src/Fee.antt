-- ===== src/Fee.antt =====
-- backend/src/tools/fee.ts: the performance fee on yield.
use sorosense.Base.{ℕ, ◌≤◌, String, Option, none, some, ◌==◌, leb, arith, string_key, if◌then◌else◌}
use sorosense.Int.{ℤ, pos, negsuc}
use sorosense.Double.{Doubles}
use sorosense.Text.{parse_int}

abbrev pub default_performance_fee_bps : ℕ
default_performance_fee_bps = 100

abbrev pub bps : ℕ
bps = 10_000

abbrev pub checked_fee : Option ℤ → ℕ
checked_fee none = default_performance_fee_bps
checked_fee (some (pos n)) = if leb n bps then n else default_performance_fee_bps
checked_fee (some (negsuc n)) = default_performance_fee_bps

-- The text is `PERFORMANCE_FEE_BPS` of the environment.
unfoldable pub performance_fee_bps : Option String → ℕ
performance_fee_bps none = default_performance_fee_bps
performance_fee_bps (some raw) =
    if raw == "" then default_performance_fee_bps else checked_fee (parse_int raw)

-- Whatever the environment says, the fee is at most the whole yield.
pub performance_fee_bps_le : (env : Option String) → performance_fee_bps env ≤ bps
unfolding performance_fee_bps
performance_fee_bps_le none = omega arith
performance_fee_bps_le (some raw) = ground arith

module _ (d : Doubles) where
  abbrev whole : ℕ → d.Number
  whole n = d.decimal n 0

  unfoldable pub net_apy : d.Number → ℕ → d.Number
  net_apy gross fee =
      let net = d.times gross (d.minus (whole 1) (d.over (whole fee) (whole bps))) in
      d.over (d.round (d.times net (whole 100))) (whole 100)

  unfoldable pub fee_on_yield : d.Number → ℕ → d.Number
  fee_on_yield yield_amount fee = d.over (d.times yield_amount (whole fee)) (whole bps)

  unfoldable pub net_yield : d.Number → ℕ → d.Number
  net_yield yield_amount fee = d.minus yield_amount (fee_on_yield yield_amount fee)
