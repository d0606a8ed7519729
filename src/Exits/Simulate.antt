-- ===== src/Exits/Simulate.antt =====
-- strategy/exits.py: the simulation of exits along a path of prices, one price a second. A
-- quantity that is sold counts hundred-millionths of the position; a gain stands for the rate
-- that is the gain over the entry price.
use engine_bot.Shared.{ℕ, suc, false, List, [], ◌∷◌, ◌++◌, ltb, if◌then◌else◌}
use engine_bot.Shared.Int.{ℤ, pos, ◌+ℤ◌, ◌-ℤ◌, ◌*ℤ◌, leb_ℤ}
use engine_bot.Shared.Results.{Result, ok, err}
use engine_bot.Exits.Config.{
  ExitAction, hold, partial_tp, partial_exit, trail_stop, close_full, time_exit, mode_switch,
  Reason, no_exit_triggered, final_close, ExitSignal, PositionState, Config,
}
use engine_bot.Exits.Evaluate.{ExitError, evaluate_exit}

pub record Part : Type 0 where
  pub action : ExitAction
  pub gain : ℤ
  pub qty : ℤ

pub record MultiExitResult : Type 0 where
  pub final_action : ExitAction
  pub total_pnl : ℤ
  pub realized_parts : List Part
  pub peak_price : ℕ
  pub exit_reason : Reason

-- The variables of the loop.
pub record Loop : Type 0 where
  pub remaining_pct : ℤ
  pub realized_pnl_parts : List Part
  pub peak_price : ℕ

unfoldable pub total_of : List Part → ℤ
total_of [] = pos 0
total_of (p ∷ ps) = p.gain *ℤ p.qty +ℤ total_of ps

unfoldable pub finish : ExitAction → Reason → Loop → MultiExitResult
finish action reason l = record {
  final_action = action;
  total_pnl = total_of l.realized_pnl_parts;
  realized_parts = l.realized_pnl_parts;
  peak_price = l.peak_price;
  exit_reason = reason;
}

unfoldable pub raised : ℕ → Loop → Loop
raised price l = record {
  remaining_pct = l.remaining_pct;
  realized_pnl_parts = l.realized_pnl_parts;
  peak_price = if ltb l.peak_price price then price else l.peak_price;
}

-- The position as the simulation shows it to `evaluate_exit`: always in mode U.
unfoldable pub shown : ℕ → ℕ → ℕ → Loop → PositionState
shown entry price i l = record {
  entry_price = entry;
  current_price = price;
  peak_price = l.peak_price;
  elapsed_sec = pos i;
  remaining_pct = l.remaining_pct;
  chain_reaction_score = pos 0;
  mode = "U";
  is_partial_taken = false;
}

-- The sale of a signal, and after a partial one the smaller remainder.
unfoldable pub sold : ℕ → ℕ → ExitSignal → Loop → Loop
sold entry price s l = record {
  remaining_pct = l.remaining_pct;
  realized_pnl_parts =
      l.realized_pnl_parts
      ++ (record {
        action = s.action;
        gain = pos price -ℤ pos entry;
        qty = s.qty_pct *ℤ l.remaining_pct;
      }
          ∷ []);
  peak_price = l.peak_price;
}

unfoldable pub lowered : ExitSignal → Loop → Loop
lowered s l = record {
  remaining_pct = l.remaining_pct -ℤ s.qty_pct;
  realized_pnl_parts = l.realized_pnl_parts;
  peak_price = l.peak_price;
}

-- What a signal does to the loop: it goes on, or ends with a result.
pub data Next : Type 0 where
  go_on : Loop → Next
  stop : MultiExitResult → Next

unfoldable pub after_partial : ExitSignal → Loop → Next
after_partial s l =
    if leb_ℤ l.remaining_pct (pos 100)
    then stop (finish close_full (final_close s.reason) l)
    else go_on l

unfoldable pub after_signal : ℕ → ℕ → ExitAction → ExitSignal → Loop → Next
after_signal entry price ExitAction.hold s l = go_on l
after_signal entry price partial_tp s l = after_partial s (lowered s (sold entry price s l))
after_signal entry price partial_exit s l = after_partial s (lowered s (sold entry price s l))
after_signal entry price trail_stop s l = stop (finish s.action s.reason (sold entry price s l))
after_signal entry price close_full s l = stop (finish s.action s.reason (sold entry price s l))
after_signal entry price time_exit s l = stop (finish s.action s.reason (sold entry price s l))
after_signal entry price mode_switch s l = stop (finish s.action s.reason (sold entry price s l))

unfoldable pub tick : ℕ → Config → ℕ → ℕ → Loop → Result ExitError Next
tick entry cfg i price l0 =
    let l = raised price l0 in
    elim (evaluate_exit (shown entry price i l) cfg) [
      | err e ↦ err e
      | ok s ↦ ok (after_signal entry price s.action s l)
    ]

unfoldable pub simulate_loop : ℕ → Config → ℕ → List ℕ → Loop → Result ExitError MultiExitResult
simulate_loop entry cfg i [] l = ok (finish hold no_exit_triggered l)
simulate_loop entry cfg i (price ∷ path) l = elim (tick entry cfg i price l) [
  | err e ↦ err e
  | ok (stop result) ↦ ok result
  | ok (go_on next) ↦ simulate_loop entry cfg (suc i) path next
]

unfoldable pub simulate_multi_exit : ℕ → List ℕ → Config → Result ExitError MultiExitResult
simulate_multi_exit entry price_path cfg =
    simulate_loop entry cfg 0 price_path
      (record { remaining_pct = pos 10000; realized_pnl_parts = []; peak_price = entry })
