-- ===== src/Exits/Tests.antt =====
-- Exits at concrete inputs.
use engine_bot.Shared.{ℕ, ◌≡◌, ◌≢◌, refl, true, false, none, some, [], ◌∷◌, arith}
use engine_bot.Shared.Int.{pos, negsuc, ◌≤ℤ◌, ◌+ℤ◌, ◌-ℤ◌, ◌*ℤ◌}
use engine_bot.Shared.Dict.{lookup}
use engine_bot.Shared.Results.{Result, ok, err}
use engine_bot.Exits.Config.{
  ExitSignal, hold, partial_tp, close_full, partial_target, final_close, PositionState, Exits,
  Config, no_exit_signal, exits_of, triggers_of, sl_of, tp_of, max_hold_of, activation_of, delta_of,
  min_chg_of, is_aggr, mode_to_aggr, parse_exits_config,
}
use engine_bot.Exits.Evaluate.{
  ExitError, zero_division, calculate_trailing_stop, is_stopped, trail_signal, evaluate_exit,
  signal, aggressive_rule, rules, first_of, gains, loses, trail_rule, chain_rule, target_rule,
  first_target, sl_rule, tp_rule, trailing_rule, time_rule, when, check_aggressive_trigger,
  check_found, find_trigger, named, partial_signal,
}
use engine_bot.Exits.Decisions.{evaluate_exit-stops_loss}
use engine_bot.Exits.Kept.{IsKept, evaluate_exit-IsKept}
use engine_bot.Exits.Simulate.{
  MultiExitResult, simulate_multi_exit, simulate_loop, tick, raised, shown, after_signal,
  after_partial, sold, lowered, finish, total_of,
}
use engine_bot.Exits.Quantities.{total_sold, simulate_multi_exit-SellsAtMostAll}

-- Two targets of a half each, and one aggressive mode.
abbrev exits : Exits
exits = record {
  chain_reaction = none;
  hard_sl_pct = none;
  hard_tp_pct = none;
  partial_tp = some (
      record { trigger_pct = some (pos 1000); exit_pct = some (pos 5000) }
      ∷ record { trigger_pct = some (pos 2000); exit_pct = some (pos 5000) }
      ∷ []);
  trailing = none;
  max_hold_sec = none;
}

abbrev cfg : Config
cfg = record {
  aggressive = some (record {
    is_enabled = some true;
    triggers = some (
        (
          "U_aggr",
          record { dt_max = none; min_chg = none; partial = some (pos 4000); trail = none },
        )
        ∷ []);
  });
  modes = some (("A", some exits) ∷ []);
}

abbrev state : ℕ → PositionState
state price = record {
  entry_price = 100;
  current_price = price;
  peak_price = 100;
  elapsed_sec = pos 20;
  remaining_pct = pos 10000;
  chain_reaction_score = pos 0;
  mode = "U";
  is_partial_taken = false;
}

all_defaults : parse_exits_config (record { aggressive = none; modes = none }) ≡ record {
  hard_sl_pct = negsuc 1999;
  hard_tp_pct = pos 5000;
  partial_tp = [];
  activation_pct = pos 1500;
  delta_pct = pos 500;
  max_hold_sec = pos 300;
}
unfolding parse_exits_config lookup
all_defaults = refl

-- A decision with all that it computes with.
evaluated : PositionState → Config → Result ExitError ExitSignal
unfolding evaluate_exit aggressive_rule is_aggr check_aggressive_trigger check_found find_trigger
    mode_to_aggr named lookup triggers_of signal first_of partial_signal rules trail_rule chain_rule
    exits_of sl_rule when activation_of delta_of max_hold_of sl_of tp_of calculate_trailing_stop
    first_target gains is_stopped loses target_rule time_rule tp_rule trail_signal trailing_rule
    min_chg_of ◌*ℤ◌ ◌-ℤ◌
evaluated s cfg = evaluate_exit s cfg

target_reached : evaluate_exit (state 110) cfg ≡ ok (signal partial_tp (pos 5000) partial_target)
unfolding evaluated
target_reached = refl

no_entry_price : evaluate_exit (record (state 110) { entry_price = 0 }) cfg ≡ err zero_division
unfolding evaluated
no_entry_price = refl

no_move : evaluate_exit (state 105) cfg ≡ ok (signal hold (pos 0) no_exit_signal)
unfolding evaluated
no_move = refl

evaluate_exit-IsKept_example : IsKept (state 105) (exits_of cfg)
unfolding signal
evaluate_exit-IsKept_example =
    evaluate_exit-IsKept (state 105) cfg (signal hold (pos 0) no_exit_signal) no_move refl

evaluate_exit-stops_loss_example :
    (x : ExitSignal) × (evaluate_exit (state 75) cfg ≡ ok x)
    × (x.qty_pct ≡ pos 10000)
    × (x.action ≢ hold)
unfolding triggers_of min_chg_of sl_of exits_of lookup ◌*ℤ◌ ◌-ℤ◌
evaluate_exit-stops_loss_example =
    evaluate_exit-stops_loss (state 75) cfg (omega arith) (omega arith) (omega arith)

-- Two sales of a half each end the simulation, though a quarter of the position is left.
quarter_left :
    simulate_multi_exit 100 (110 ∷ 112 ∷ []) (record cfg { aggressive = none })
    ≡ ok (record {
      final_action = close_full;
      total_pnl = pos 800000000;
      realized_parts =
          record { action = partial_tp; gain = pos 10; qty = pos 50000000 }
          ∷ record { action = partial_tp; gain = pos 12; qty = pos 25000000 }
          ∷ [];
      peak_price = 112;
      exit_reason = final_close partial_target;
    })
unfolding simulate_multi_exit simulate_loop tick raised shown after_signal after_partial sold
    lowered finish total_of evaluated ◌+ℤ◌
quarter_left = refl

simulate_multi_exit-SellsAtMostAll_example :
    (r : MultiExitResult) × (simulate_multi_exit 100 (110 ∷ 125 ∷ 160 ∷ []) cfg ≡ ok r)
    × (total_sold r.realized_parts ≤ℤ pos 100000000)
unfolding triggers_of exits_of lookup
simulate_multi_exit-SellsAtMostAll_example =
    simulate_multi_exit-SellsAtMostAll 100 (110 ∷ 125 ∷ 160 ∷ []) cfg (omega arith) (omega arith)
