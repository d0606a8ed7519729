-- ===== src/Positions/Trailing.antt =====
-- execution/trailing_adjuster.py, with MarketContext.validate of execution/market_features.py.
-- Volatilities, volumes, multipliers and thresholds count ten-thousandths, and the profit
-- hundredths of a percent; a distance counts billionths of a basis point before it is rounded.
use engine_bot.Shared.{
  ℕ, Bool, true, false, not, ◌&&◌, ◌+◌, ◌*◌, ◌/◌, ◌%◌, ltb, ◌==◌, min, if◌then◌else◌,
}
use engine_bot.Shared.Int.{ℤ, pos, ◌-ℤ◌, ltb_ℤ, leb_ℤ, pos_part, neg_part}

pub record MarketContext : Type 0 where
  pub rv_5m : ℤ
  pub volume_delta_1m : ℤ
  pub volume_profile_score : ℤ

-- `low <= x <= high`
abbrev pub lies_in : ℤ → ℤ → ℤ → Bool
lies_in low high x = leb_ℤ low x && leb_ℤ x high

unfoldable pub validate : MarketContext → Bool
validate c =
    lies_in (pos 0) (pos 5000) c.rv_5m
    && (lies_in (pos 0 -ℤ pos 10000) (pos 10000) c.volume_delta_1m
        && lies_in (pos 0) (pos 10000) c.volume_profile_score)

-- The fields of `RuntimeConfig` that the adjuster reads.
pub record TrailingConfig : Type 0 where
  pub volatility_multiplier : ℕ
  pub volume_multiplier : ℕ
  pub max_distance_bps : ℕ
  pub rv_threshold_high : ℤ
  pub rv_threshold_low : ℤ
  pub volume_confirm_threshold : ℕ

pub data PositionSide : Type 0 where
  long : PositionSide
  short : PositionSide

unfoldable pub is_long : PositionSide → Bool
is_long long = true
is_long short = false

-- `max(a, b)`
abbrev pub max : ℕ → ℕ → ℕ
max a b = if ltb a b then b else a

-- The factor of the volatility, in hundred-thousandths.
unfoldable pub volatility_factor : TrailingConfig → ℤ → ℕ
volatility_factor config rv_5m =
    if ltb_ℤ config.rv_threshold_high rv_5m
    then 10 * config.volatility_multiplier
    else if ltb_ℤ rv_5m config.rv_threshold_low
    then max 70000 (8 * config.volatility_multiplier)
    else 100000

-- `abs(x)`
abbrev pub abs : ℤ → ℕ
abs x = pos_part x + neg_part x

-- The factor of the volume, in ten-thousandths.
unfoldable pub volume_factor : TrailingConfig → PositionSide → ℤ → ℤ → ℕ
volume_factor config side pnl_pct volume_delta =
    if not (ltb_ℤ (pos 50) pnl_pct)
    then 10000
    else if is_long side && ltb_ℤ (pos config.volume_confirm_threshold) volume_delta
    then config.volume_multiplier
    else if not (is_long side) && ltb_ℤ volume_delta (pos 0 -ℤ pos config.volume_confirm_threshold)
    then config.volume_multiplier
    else if ltb (3 * config.volume_confirm_threshold) (2 * abs volume_delta)
    then 12000
    else 10000

-- `int(round(x))` of a number in billionths: a half goes to the even neighbour.
unfoldable pub rounded : ℕ → ℕ
rounded n =
    let q = n / 1000000000 in
    let r = n % 1000000000 in
    if ltb (2 * r) 1000000000
    then q
    else if ltb 1000000000 (2 * r)
    then q + 1
    else if q % 2 == 0
    then q
    else q + 1

-- The clamps: the cap first, and then the floor at half of the base.
unfoldable pub clamped : TrailingConfig → ℕ → ℕ → ℕ
clamped config base distance =
    max (min distance (config.max_distance_bps * 1000000000)) (base * 500000000)

unfoldable pub compute_distance_bps : TrailingConfig → ℕ → MarketContext → PositionSide → ℤ → ℕ
compute_distance_bps config base c side pnl_pct =
    if not (validate c)
    then base
    else rounded (
        clamped config base (
          base
          * volatility_factor config c.rv_5m
          * volume_factor config side pnl_pct c.volume_delta_1m))
