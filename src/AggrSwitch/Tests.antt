-- ===== src/AggrSwitch/Tests.antt =====
-- The switch at concrete inputs, those of the code's own self-test among them.
use engine_bot.Shared.{◌≡◌, ◌↔◌, refl, true, none, some, arith}
use engine_bot.Shared.Int.{ℤ, pos, ◌*ℤ◌}
use engine_bot.Shared.Dict.{lookup}
use engine_bot.Shared.Text.{upper}
use engine_bot.Shared.Results.{ok, err}
use engine_bot.AggrSwitch.Logic.{
  PositionSnapshot, WalletProfile, TokenSnapshot, PortfolioState, aggr_wallet_roi_low,
  aggr_time_expired, aggr_triggered, zero_division, default_params, default_triggers, reaches_share,
  within_day, passes_aggressive_safety, new_mode, check_impulse, check_speed, check_trigger,
  after_safety, maybe_switch_to_aggressive, should_switch,
}
use engine_bot.AggrSwitch.Decisions.{IsSafe, IsTriggered, maybe_switch_to_aggressive-IsTriggered}

abbrev position : ℤ → PositionSnapshot
position seconds = record {
  position_id = "pos_001";
  base_mode = "u";
  entry_time_sec = seconds;
  current_roi = pos 400;
}

abbrev wallet : ℤ → WalletProfile
wallet roi = record { winrate = pos 7000; roi_mean = roi }

abbrev token : TokenSnapshot
token = record { liquidity_usd = pos 100000; spread_bps = pos 50 }

abbrev portfolio : ℤ → PortfolioState
portfolio value = record {
  total_value_usd = value;
  aggr_exposure_usd = pos 0;
  daily_aggr_count = pos 0;
}

quick_move :
    maybe_switch_to_aggressive
      (position (pos 10))
      (wallet (pos 5000))
      token
      (portfolio (pos 10000))
      default_params
    ≡ ok (some "U_aggr", some aggr_triggered)
unfolding maybe_switch_to_aggressive passes_aggressive_safety reaches_share within_day after_safety
    check_trigger check_speed check_impulse new_mode default_params default_triggers lookup upper
    ◌*ℤ◌
quick_move = refl

default_switch :
    should_switch (position (pos 10)) (wallet (pos 5000)) token (portfolio (pos 10000)) none
    ≡ ok (true, some "U_aggr", some aggr_triggered)
unfolding should_switch maybe_switch_to_aggressive passes_aggressive_safety reaches_share within_day
    after_safety check_trigger check_speed check_impulse new_mode default_params default_triggers
    lookup upper ◌*ℤ◌
default_switch = refl

slow_move :
    maybe_switch_to_aggressive
      (position (pos 20))
      (wallet (pos 5000))
      token
      (portfolio (pos 10000))
      default_params
    ≡ ok (none, some aggr_time_expired)
unfolding maybe_switch_to_aggressive passes_aggressive_safety reaches_share within_day after_safety
    check_trigger check_speed default_params default_triggers lookup upper ◌*ℤ◌
slow_move = refl

poor_wallet :
    maybe_switch_to_aggressive
      (position (pos 5))
      (wallet (pos 1000))
      token
      (portfolio (pos 10000))
      default_params
    ≡ ok (none, some aggr_wallet_roi_low)
unfolding maybe_switch_to_aggressive passes_aggressive_safety after_safety default_params
poor_wallet = refl

empty_portfolio :
    maybe_switch_to_aggressive
      (position (pos 5))
      (wallet (pos 5000))
      token
      (portfolio (pos 0))
      default_params
    ≡ err zero_division
unfolding maybe_switch_to_aggressive passes_aggressive_safety default_params
empty_portfolio = refl

maybe_switch_to_aggressive-IsTriggered_example :
    (maybe_switch_to_aggressive
        (position (pos 10))
        (wallet (pos 5000))
        token
        (portfolio (pos 10000))
        default_params
      ≡ ok (some "U_aggr", some aggr_triggered))
    ↔ (IsSafe (wallet (pos 5000)) token (portfolio (pos 10000)) default_params
        × IsTriggered (position (pos 10)) default_params "U_aggr")
maybe_switch_to_aggressive-IsTriggered_example =
    maybe_switch_to_aggressive-IsTriggered (position (pos 10)) (wallet (pos 5000)) token
      (portfolio (pos 10000)) default_params "U_aggr" (omega arith)
