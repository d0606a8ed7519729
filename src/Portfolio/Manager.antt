-- ===== src/Portfolio/Manager.antt =====
-- integration/portfolio_manager.py: `PortfolioManager` over the transitions of the portfolio. The
-- checkpoint file is the dictionary that it holds, if it exists; writing it may fail.
use engine_bot.Shared.{ℕ, String, Bool, not, ◌&&◌, Option, none, some, if◌then◌else◌}
use engine_bot.Shared.Int.{ℤ, pos}
use engine_bot.Portfolio.State.{
  PortfolioState, StateDict, StateUpdateParams, FillError, initial, to_dict, from_dict,
  can_open_position, get_total_exposure,
}
use engine_bot.Portfolio.Update.{FillEvent, apply_fill_event, update_cooldown, reset_daily_pnl}

pub record PortfolioManager : Type 0 where
  pub params : StateUpdateParams
  pub has_checkpoint_path : Bool
  pub checkpoint : Option StateDict
  pub write_fails : Bool
  pub state : PortfolioState

-- `__init__`, with the checkpoint file as it is found; `none` is the exception of a bad file.
unfoldable pub new_manager :
    StateUpdateParams → ℤ → ℤ → Bool → Option StateDict → Bool → Option PortfolioManager
new_manager params bankroll now_ts has_path file write_fails =
    let with_state : PortfolioState → PortfolioManager = λ s. record {
      params = params;
      has_checkpoint_path = has_path;
      checkpoint = file;
      write_fails = write_fails;
      state = s;
    } in
    if not has_path then some (with_state (initial bankroll now_ts)) else elim file [
      | none ↦ some (with_state (initial bankroll now_ts))
      | some d ↦ elim (from_dict d) [ none ↦ none | some s ↦ some (with_state s) ]
    ]

unfoldable pub save_checkpoint : PortfolioManager → PortfolioManager
save_checkpoint m =
    if m.has_checkpoint_path && not m.write_fails
    then record m { checkpoint = some (to_dict m.state) }
    else m

-- The error is that of the result, `none` for a success.
unfoldable pub on_fill : FillEvent → PortfolioManager → Option FillError × PortfolioManager
on_fill e m =
    let (s, error) = apply_fill_event e m.params m.state in
    elim error [
      | some reason ↦ (some reason, m)
      | none ↦ (none, save_checkpoint (record m { state = update_cooldown m.params e.ts s }))
    ]

unfoldable pub on_entry :
    String → String → String → ℤ → ℤ → ℤ → PortfolioManager → Option FillError × PortfolioManager
on_entry signal_id token_mint wallet size price ts m =
    on_fill
      (record {
        signal_id = signal_id;
        side = "BUY";
        token_mint = token_mint;
        wallet_address = wallet;
        size_usd = size;
        price = price;
        pnl_usd = pos 0;
        ts = ts;
      })
      m

unfoldable pub on_exit :
    String → String → String → ℤ → ℤ → ℤ → PortfolioManager → Option FillError × PortfolioManager
on_exit signal_id token_mint wallet price pnl ts m =
    on_fill
      (record {
        signal_id = signal_id;
        side = "SELL";
        token_mint = token_mint;
        wallet_address = wallet;
        size_usd = pos 0;
        price = price;
        pnl_usd = pnl;
        ts = ts;
      })
      m

unfoldable pub reset_day : ℤ → PortfolioManager → PortfolioManager
reset_day ts m = save_checkpoint (record m { state = reset_daily_pnl ts m.state })

unfoldable pub is_cooldown_active : PortfolioManager → Bool
is_cooldown_active m = m.state.cooldown_active

unfoldable pub may_open_position : PortfolioManager → Option FillError
may_open_position m = can_open_position m.state m.params

pub record Summary : Type 0 where
  pub bankroll_usd : ℤ
  pub daily_pnl_usd : ℤ
  pub open_position_count : ℕ
  pub cooldown_active : Bool
  pub total_exposure : ℤ

unfoldable pub get_state_summary : PortfolioManager → Summary
get_state_summary m = record {
  bankroll_usd = m.state.bankroll_usd;
  daily_pnl_usd = m.state.daily_pnl_usd;
  open_position_count = m.state.open_position_count;
  cooldown_active = m.state.cooldown_active;
  total_exposure = get_total_exposure m.state;
}
