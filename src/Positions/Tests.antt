-- ===== src/Positions/Tests.antt =====
-- Positions and trailing distances at concrete inputs.
use engine_bot.Shared.{◌+◌, ◌*◌, ◌≤◌, ◌≡◌, refl, true, arith}
use engine_bot.Shared.Int.{ℤ, pos, ◌+ℤ◌, ◌-ℤ◌, ◌*ℤ◌}
use engine_bot.Shared.Text.{upper}
use engine_bot.Positions.State.{
  Position, create_position_from_signal, is_tp_hit, is_sl_hit, is_expired, remaining_ttl_sec,
}
use engine_bot.Positions.Trailing.{
  MarketContext, TrailingConfig, long, is_long, validate, volatility_factor, volume_factor, rounded,
  clamped, compute_distance_bps,
}
use engine_bot.Positions.Volume.{compute_distance_bps-within}

abbrev position : Position
position =
    create_position_from_signal "one" "sol" (pos 200) (pos 50) (pos 60) (pos 1000) (pos 500) "U" "w"
      (pos 7)

profit_reached : is_tp_hit position (pos 220) "buy" ≡ true
unfolding is_tp_hit create_position_from_signal upper ◌*ℤ◌ ◌+ℤ◌
profit_reached = refl

loss_reached : is_sl_hit position (pos 190) "BUY" ≡ true
unfolding is_sl_hit create_position_from_signal upper ◌*ℤ◌ ◌-ℤ◌
loss_reached = refl

expires_after_a_minute : is_expired position (pos 67) ≡ true
unfolding is_expired create_position_from_signal ◌+ℤ◌
expires_after_a_minute = refl

ten_seconds_left : remaining_ttl_sec position (pos 57) ≡ pos 10
unfolding remaining_ttl_sec create_position_from_signal ◌+ℤ◌ ◌-ℤ◌
ten_seconds_left = refl

-- The defaults of the configuration.
abbrev config : TrailingConfig
config = record {
  volatility_multiplier = 18000;
  volume_multiplier = 9000;
  max_distance_bps = 500;
  rv_threshold_high = pos 800;
  rv_threshold_low = pos 300;
  volume_confirm_threshold = 15000;
}

abbrev market : ℤ → MarketContext
market rv = record { rv_5m = rv; volume_delta_1m = pos 10000; volume_profile_score = pos 5000 }

high_volatility : compute_distance_bps config 150 (market (pos 1200)) long (pos 200) ≡ 270
unfolding compute_distance_bps validate volatility_factor volume_factor is_long clamped rounded ◌-ℤ◌
high_volatility = refl

capped : compute_distance_bps config 400 (market (pos 1200)) long (pos 200) ≡ 500
unfolding compute_distance_bps validate volatility_factor volume_factor is_long clamped rounded ◌-ℤ◌
capped = refl

outlier_ignored : compute_distance_bps config 150 (market (pos 6000)) long (pos 200) ≡ 150
unfolding compute_distance_bps validate ◌-ℤ◌
outlier_ignored = refl

compute_distance_bps-within_example :
    (150 ≤ 2 * compute_distance_bps config 150 (market (pos 1200)) long (pos 200) + 1)
    × (compute_distance_bps config 150 (market (pos 1200)) long (pos 200) ≤ 500)
unfolding validate ◌-ℤ◌
compute_distance_bps-within_example =
    compute_distance_bps-within config 150 (market (pos 1200)) long (pos 200) refl (omega arith)
