-- ===== src/Positions/Volume.antt =====
-- execution/trailing_adjuster.py: the bounds of the distance, and the volume that never counts.
use engine_bot.Shared.{ℕ, ◌+◌, ◌*◌, ◌≤◌, ◌≡◌, refl, true, arith}
use engine_bot.Shared.Int.{ℤ, ◌-ℤ◌}
use engine_bot.Positions.Trailing.{
  MarketContext, validate, TrailingConfig, PositionSide, volatility_factor, volume_factor, rounded,
  clamped, compute_distance_bps,
}

rounded-bounds :
    (n low high : ℕ)
    → low * 500000000 ≤ n
    → n ≤ high * 1000000000
    → (low ≤ 2 * rounded n + 1) × (rounded n ≤ high)
unfolding rounded
rounded-bounds n low high h k = (ground arith, ground arith)

-- For a valid context, and a base whose half is within the cap, the distance is at least half of the
-- base, up to the rounding, and at most the cap, whatever the volatility, the volume, the side and
-- the profit.
pub compute_distance_bps-within :
    (config : TrailingConfig) (base : ℕ) (c : MarketContext) (side : PositionSide) (pnl_pct : ℤ)
    → validate c ≡ true
    → base ≤ 2 * config.max_distance_bps
    → (base ≤ 2 * compute_distance_bps config base c side pnl_pct + 1)
      × (compute_distance_bps config base c side pnl_pct ≤ config.max_distance_bps)
unfolding compute_distance_bps clamped
compute_distance_bps-within config base c side pnl_pct valid half =
    let distance =
      base
      * volatility_factor config c.rv_5m
      * volume_factor config side pnl_pct c.volume_delta_1m in
    let bounds =
      rounded-bounds (clamped config base distance) base config.max_distance_bps (ground arith)
        (ground (arith, half)) in
    rw (valid, compute_distance_bps) bounds

volume_factor-neutral :
    (config : TrailingConfig) (c : MarketContext) (side : PositionSide) (pnl_pct : ℤ)
    → 10000 ≤ config.volume_confirm_threshold
    → validate c ≡ true
    → volume_factor config side pnl_pct c.volume_delta_1m ≡ 10000
unfolding volume_factor validate ◌-ℤ◌
volume_factor-neutral config c side pnl_pct high valid = ground (arith, high, valid)

-- The volume never moves a trailing stop: with a confirmation threshold of at least 1, two valid
-- contexts of equal volatility give equal distances, whatever their volumes, the side of the
-- position and its profit.
pub volume_never_adapts :
    (config : TrailingConfig) (base : ℕ) (c d : MarketContext) (side other : PositionSide)
    (pnl_pct other_pnl : ℤ)
    → 10000 ≤ config.volume_confirm_threshold
    → validate c ≡ true
    → validate d ≡ true
    → c.rv_5m ≡ d.rv_5m
    → compute_distance_bps config base c side pnl_pct
      ≡ compute_distance_bps config base d other other_pnl
unfolding compute_distance_bps
volume_never_adapts config base c d side other pnl_pct other_pnl high valid also same =
    let a = volume_factor-neutral config c side pnl_pct high valid in
    let b = volume_factor-neutral config d other other_pnl high also in
    rw (valid, compute_distance_bps, also, a, b, same) refl
