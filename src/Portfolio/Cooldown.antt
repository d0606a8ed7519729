-- ===== src/Portfolio/Cooldown.antt =====
-- The cooldown of the portfolio, and the recovery from a checkpoint.
use engine_bot.Shared.{
  ◌≡◌, refl, inl, inr, str_eq, true, false, none, some, List, [], ◌∷◌, arith, Bool-cases,
  Option-cases,
}
use engine_bot.Shared.Int.{ℤ}
use engine_bot.Shared.Dict.{lookup}
use engine_bot.Portfolio.State.{
  PortfolioState, StateUpdateParams, FillError, cooldown_is_active, position_not_found,
  unknown_side, to_dict, from_dict, can_open_position,
}
use engine_bot.Portfolio.Update.{
  FillEvent, transition_on_entry, transition_on_exit, reset_daily_pnl, apply_fill_event,
}
use engine_bot.Portfolio.Manager.{
  PortfolioManager, new_manager, save_checkpoint, on_fill, reset_day,
}

-- The calls of a manager that change it.
pub data Call : Type 0 where
  fill : FillEvent → Call
  new_day : ℤ → Call

unfoldable pub called : Call → PortfolioManager → PortfolioManager
called (fill e) m = (on_fill e m).1
called (new_day ts) m = reset_day ts m

abbrev pub run : List Call → PortfolioManager → PortfolioManager
run [] m = m
run (c ∷ cs) m = run cs (called c m)

-- A cooldown with nothing open.
pub record IsStuck (s : PortfolioState) : Type 0 where
  pub cooling : s.cooldown_active ≡ true
  pub nothing_open : s.open_positions ≡ []

pub fill-IsStuck :
    (e : FillEvent) (params : StateUpdateParams) (s : PortfolioState)
    → IsStuck s
    → (reason : FillError) × (apply_fill_event e params s ≡ (s, some reason))
unfolding apply_fill_event transition_on_entry transition_on_exit can_open_position lookup
fill-IsStuck e params s stuck = elim (Bool-cases (str_eq e.side "BUY")) [
  | inl buy ↦ (cooldown_is_active, ground (arith, buy, stuck.cooling))
  | inr other ↦ elim (Bool-cases (str_eq e.side "SELL")) [
    | inl sell ↦ (position_not_found e.signal_id, ground (arith, other, sell, stuck.nothing_open))
    | inr neither ↦ (unknown_side e.side, ground (arith, other, neither))
  ]
]

refused :
    (e : FillEvent) (m : PortfolioManager)
    → IsStuck m.state
    → (reason : FillError) × (on_fill e m ≡ (some reason, m))
unfolding on_fill
refused e m stuck =
    let (reason, same) = fill-IsStuck e m.params m.state stuck in (reason, rw (same, on_fill) refl)

save_checkpoint-state : (m : PortfolioManager) → (save_checkpoint m).state ≡ m.state
unfolding save_checkpoint
save_checkpoint-state m = ground arith

called-IsStuck : (c : Call) (m : PortfolioManager) → IsStuck m.state → IsStuck (called c m).state
unfolding called reset_day reset_daily_pnl
called-IsStuck (fill e) m stuck = rw (called, (refused e m stuck).1) stuck
called-IsStuck (new_day ts) m stuck =
    rw (save_checkpoint-state (record m { state = reset_daily_pnl ts m.state }))
      (record { cooling = stuck.cooling; nothing_open = stuck.nothing_open })

-- A cooldown that is active while no position is open is never lifted: whatever fills and new
-- days come after it, at whatever times, every fill is refused and nothing is opened.
pub cooldown_never_ends :
    (cs : List Call) (m : PortfolioManager)
    → IsStuck m.state
    → IsStuck (run cs m).state
      × ((e : FillEvent) → (reason : FillError) × (on_fill e (run cs m) ≡ (some reason, run cs m)))
cooldown_never_ends [] m stuck = (stuck, λ e. refused e m stuck)
cooldown_never_ends (c ∷ cs) m stuck =
    cooldown_never_ends cs (called c m) (called-IsStuck c m stuck)

-- After a fill that is accepted and a checkpoint that is written, a manager that is started
-- again on the checkpoint has the same state.
on_fill-new_manager :
    (e : FillEvent) (m : PortfolioManager) (bankroll now : ℤ)
    → m.has_checkpoint_path ≡ true
    → m.write_fails ≡ false
    → (on_fill e m).0 ≡ none
    → let m' = (on_fill e m).1 in
      new_manager m.params bankroll now true m'.checkpoint false ≡ some m'
unfolding on_fill new_manager save_checkpoint to_dict from_dict
on_fill-new_manager e m bankroll now path writes accepted =
    elim (Option-cases (apply_fill_event e m.params m.state).1) [
      | inl done ↦ ground (arith, done, path, writes)
      | inr (reason, failed) ↦ ground (arith, failed, accepted)
    ]
