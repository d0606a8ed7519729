-- ===== src/Risk/Tests.antt =====
-- The risk checks at concrete inputs.
use engine_bot.Shared.{◌≡◌, ◌↔◌, refl, true, false, none, some, [], ◌∷◌, arith}
use engine_bot.Shared.Int.{pos, negsuc, ◌+ℤ◌, ◌-ℤ◌, ◌*ℤ◌, ◌≤ℤ◌, ◌<ℤ◌}
use engine_bot.Shared.Dict.{lookup}
use engine_bot.Risk.Limits
use engine_bot.Risk.Limits.{
  PortfolioStub, Trade, ModeLimits, Limits, Reason, apply_risk_limits, should_kill_switch,
}
use engine_bot.Risk.Checks.{
  IsBelow, HasTierRoom, HasModeRoom, HasTokenRoom, HasDayRoom, apply_risk_limits-leaves_room,
}
use engine_bot.Risk.Aggressive.{
  AggressiveSafetyContext, SafetyConfig, IsSafe, unknown_reason, allow_aggressive_trade,
  allow_aggressive_trade-IsSafe, allow_aggressive_trade-unknown,
}

abbrev stub : PortfolioStub
stub = record {
  equity_usd = pos 1000;
  peak_equity_usd = pos 1200;
  open_positions = pos 1;
  day_pnl_usd = negsuc 899;
  consecutive_losses = pos 0;
  cooldown_until = pos 50;
  active_counts_by_tier = ("T1", pos 1) ∷ [];
  active_counts_by_mode = ("U", pos 1) ∷ [];
  exposure_by_mode = ("U", pos 100) ∷ [];
  exposure_by_token = ("sol", pos 30) ∷ [];
}

abbrev trade : Trade
trade = record {
  ts = pos 60;
  mint = "sol";
  size_usd = pos 20;
  wallet_tier = some "T1";
  mode = none;
}

-- The daily loss limit is the configured 7.0.
abbrev base : Limits
base = record {
  is_cooldown_enabled = true;
  is_fallback_skipped = false;
  fallback_max_positions = none;
  tier_max_open = ("T1", some (pos 2)) ∷ [];
  modes = ("U", record { max_open = some (pos 3); max_exposure_usd = some (pos 200) }) ∷ [];
  max_exposure_per_token = some (pos 500);
  max_daily_loss = some (pos 70000);
  max_open_positions = some (pos 5);
  kill_switch_on_drawdown = true;
  max_drawdown_total = some (pos 1500);
}

trade_allowed : apply_risk_limits trade stub base ≡ none
unfolding apply_risk_limits Limits.or_else Limits.refuse_if Limits.check_tier_limits lookup
    Limits.reaches Limits.get_or_zero Limits.check_mode_limits Limits.mode_of ◌+ℤ◌
    Limits.check_exposure_limits ◌*ℤ◌ Limits.is_daily_loss_hit ◌-ℤ◌
trade_allowed = refl

apply_risk_limits-leaves_room_example :
    (base.is_cooldown_enabled ≡ true → stub.cooldown_until ≤ℤ trade.ts)
    × IsBelow stub.open_positions base.max_open_positions
    × HasTierRoom trade stub base
    × HasModeRoom trade stub base
    × HasTokenRoom trade stub base
    × HasDayRoom stub base
apply_risk_limits-leaves_room_example = apply_risk_limits-leaves_room trade stub base trade_allowed

-- A day's loss of 900 out of 1200 is not refused.
loss_is_small : pos 0 <ℤ stub.peak_equity_usd +ℤ stub.day_pnl_usd
unfolding ◌+ℤ◌
loss_is_small = omega arith

-- As a fraction, 7 percent would be refused.
fraction_refuses :
    apply_risk_limits trade stub (record base { max_daily_loss = some (pos 700) })
    ≡ some Reason.kill_switch
unfolding apply_risk_limits Limits.or_else Limits.refuse_if Limits.check_tier_limits lookup
    Limits.reaches Limits.get_or_zero Limits.check_mode_limits Limits.mode_of ◌+ℤ◌
    Limits.check_exposure_limits ◌*ℤ◌ Limits.is_daily_loss_hit ◌-ℤ◌
fraction_refuses = refl

early_refused : apply_risk_limits (record trade { ts = pos 49 }) stub base ≡ some Reason.cooldown
unfolding apply_risk_limits Limits.or_else Limits.refuse_if
early_refused = refl

-- A drawdown of 16.66 percent is above the limit of 15.
drawdown_kills : should_kill_switch stub base ≡ true
unfolding should_kill_switch ◌*ℤ◌ ◌-ℤ◌
drawdown_kills = refl

abbrev gates : SafetyConfig
gates = record {
  is_enabled = true;
  max_daily_loss = pos 500;
  max_aggr_trades = pos 10;
  max_aggr_open = pos 3;
  min_winrate = pos 6000;
  min_roi = pos 2500;
  min_liquidity = pos 20000;
  max_top10_holders = pos 8500;
}

abbrev good : AggressiveSafetyContext
good = record {
  wallet_winrate_30d = some (pos 7000);
  wallet_roi_30d_pct = some (pos 2500);
  token_liquidity_usd = some (pos 30000);
  token_top10_holders_pct = none;
  daily_loss_pct = negsuc 99;
  aggr_trades_today = pos 0;
  aggr_open_positions = pos 0;
}

good_unknown : (allow_aggressive_trade good gates).1 ≡ unknown_reason
unfolding allow_aggressive_trade engine_bot.Risk.Aggressive.passes_safety_filters
    engine_bot.Risk.Aggressive.is_loss_hit ◌-ℤ◌ engine_bot.Risk.Aggressive.passes_wallet
    engine_bot.Risk.Aggressive.passes_token engine_bot.Risk.Aggressive.failed_check
good_unknown = refl

good_allowed :
    (allow_aggressive_trade (record good { token_top10_holders_pct = some (pos 8500) }) gates).0
    ≡ true
unfolding allow_aggressive_trade engine_bot.Risk.Aggressive.passes_safety_filters
    engine_bot.Risk.Aggressive.is_loss_hit ◌-ℤ◌ engine_bot.Risk.Aggressive.passes_wallet
    engine_bot.Risk.Aggressive.passes_token
good_allowed = refl

allow_aggressive_trade-IsSafe_example :
    ((allow_aggressive_trade good gates).0 ≡ true) ↔ IsSafe good gates
allow_aggressive_trade-IsSafe_example = allow_aggressive_trade-IsSafe good gates
