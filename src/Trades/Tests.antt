-- ===== src/Trades/Tests.antt =====
-- The amounts of swaps and exits at concrete inputs.
use engine_bot.Shared.{◌≡◌, refl, true, false, none, some, List, [], ◌∷◌, arith}
use engine_bot.Shared.Int.{pos, negsuc, ◌+ℤ◌, ◌-ℤ◌, ◌*ℤ◌}
use engine_bot.Shared.Results.{ok, err}
use engine_bot.Trades.Amounts.{
  bad_size_pct, negative_balance, share_of, calculate_swap_amount, truncated, calculate_min_output,
  build_swap_instruction,
}
use engine_bot.Trades.Exits
use engine_bot.Trades.Exits.{
  market_close, partial, trailing_stop_update, is_update, is_partial, ExitSignal, post_init,
  new_stop, new_activation, SimulatedTrade, amount_to_sell, process_exit_signal, Priced,
  process_all,
}
use engine_bot.Trades.Balance.{last_trade, total_sold, total_pnl, IsKept, process_all-keeps}

half_of_odd : calculate_swap_amount (pos 1001) (pos 5000) ≡ ok 500
unfolding calculate_swap_amount share_of
half_of_odd = refl

third_of_thousand : calculate_swap_amount (pos 1000) (pos 3300) ≡ ok 330
unfolding calculate_swap_amount share_of
third_of_thousand = refl

too_much : calculate_swap_amount (pos 1000) (pos 10001) ≡ err bad_size_pct
unfolding calculate_swap_amount share_of
too_much = refl

below_zero : calculate_swap_amount (negsuc 0) (pos 10000) ≡ err negative_balance
unfolding calculate_swap_amount share_of
below_zero = refl

one_percent_off : calculate_min_output 500 3 (pos 100) ≡ pos 1485
unfolding calculate_min_output truncated ◌*ℤ◌ ◌-ℤ◌
one_percent_off = refl

half_swap :
    build_swap_instruction (pos 1001) (pos 5000) "sol" 3 (pos 100)
    ≡ ok (record { amount_in_u64 = 500; min_amount_out_u64 = pos 1485; mint = "sol" })
unfolding build_swap_instruction calculate_swap_amount share_of calculate_min_output truncated ◌*ℤ◌
    ◌-ℤ◌
half_swap = refl

abbrev half_exit : ExitSignal
half_exit = record {
  exit_type = partial;
  size_pct = 5000;
  trail_stop_pct = none;
  trail_activation_pct = none;
}

abbrev full_exit : ExitSignal
full_exit = record {
  exit_type = market_close;
  size_pct = 10000;
  trail_stop_pct = none;
  trail_activation_pct = none;
}

update_needs_stop :
    post_init (record {
      exit_type = trailing_stop_update;
      size_pct = 10000;
      trail_stop_pct = none;
      trail_activation_pct = none;
    })
    ≡ none
unfolding post_init is_update is_partial
update_needs_stop = refl

-- The size counts half tokens.
abbrev trade : SimulatedTrade
trade = record {
  wallet = "w";
  mint = "sol";
  entry_price = 10;
  size_remaining = 2003;
  size_initial = 2003;
  realized_pnl = pos 0;
  is_open = true;
  trail_stop_price = none;
  trail_activation_price = none;
}

-- An update of the trailing stop, with the default size, sells the whole trade.
update_sells_all :
    (process_exit_signal 2 trade
      (record {
        exit_type = trailing_stop_update;
        size_pct = 10000;
        trail_stop_pct = some (pos 500);
        trail_activation_pct = some (pos 300);
      })
      12).trade
    ≡ record trade {
      size_remaining = 0;
      realized_pnl = pos 2002;
      is_open = false;
      trail_stop_price = some (pos 114000);
      trail_activation_price = some (pos 123600);
    }
unfolding process_exit_signal amount_to_sell Exits.is_dust_remaining is_update new_stop
    new_activation ◌+ℤ◌ ◌-ℤ◌ ◌*ℤ◌
update_sells_all = refl

abbrev signals : List Priced
signals = record { signal = half_exit; price = 12 } ∷ record { signal = full_exit; price = 9 } ∷ []

gain_and_loss : total_pnl (process_all 2 trade signals) ≡ pos 499
unfolding process_all process_exit_signal amount_to_sell Exits.is_dust_remaining ◌-ℤ◌ ◌*ℤ◌ ◌+ℤ◌
gain_and_loss = refl

process_all-keeps_example :
    IsKept 2
      (total_sold (process_all 2 trade signals))
      (last_trade trade (process_all 2 trade signals)).size_remaining
      2003
    × ((last_trade trade (process_all 2 trade signals)).realized_pnl
        ≡ pos 0 +ℤ total_pnl (process_all 2 trade signals))
process_all-keeps_example = process_all-keeps 2 trade signals (omega arith)

-- Of 1001 tokens and a half the half token is dropped by the close.
half_is_dropped : total_sold (process_all 2 trade signals) ≡ 1001
unfolding process_all process_exit_signal amount_to_sell Exits.is_dust_remaining
half_is_dropped = refl
