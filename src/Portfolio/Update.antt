-- ===== src/Portfolio/Update.antt =====
-- strategy/state_update.py: the transitions of the portfolio. Each gives the new state, which is
-- the old one if there is an error.
use engine_bot.Shared.{
  String, str_eq, Bool, true, false, not, ◌&&◌, Option, none, some, length, if◌then◌else◌,
}
use engine_bot.Shared.Int.{ℤ, pos, ◌+ℤ◌, ◌-ℤ◌, ltb_ℤ, leb_ℤ, is_zero, max_ℤ}
use engine_bot.Shared.Dict.{Dict, lookup, insert, erase}
use engine_bot.Shared.Options.{get_or}
use engine_bot.Portfolio.State.{
  Position, Ratio, PortfolioState, StateUpdateParams, FillError, position_not_found, unknown_side,
  check_daily_loss_limit, can_open_position, can_increase_exposure,
}

-- The entries of a fill event, with their defaults put in.
pub record FillEvent : Type 0 where
  pub signal_id : String
  pub side : String
  pub token_mint : String
  pub wallet_address : String
  pub size_usd : ℤ
  pub price : ℤ
  pub pnl_usd : ℤ
  pub ts : ℤ

-- `exposures[key] = exposures.get(key, 0.0) + amount`
unfoldable pub raised : String → ℤ → Dict ℤ → Dict ℤ
raised key amount exposures = insert key (get_or (lookup key exposures) (pos 0) +ℤ amount) exposures

-- The exposure of a key is lowered, not below zero, and a key with none is deleted.
unfoldable pub lowered : String → ℤ → Dict ℤ → Dict ℤ
lowered key amount exposures =
    let left = max_ℤ (pos 0) (get_or (lookup key exposures) (pos 0) -ℤ amount) in
    if is_zero left then erase key (insert key left exposures) else insert key left exposures

unfoldable pub new_position : FillEvent → Position
new_position e = record {
  token_mint = e.token_mint;
  entry_price = e.price;
  size_usd = e.size_usd;
  wallet_address = e.wallet_address;
  opened_at = e.ts;
}

-- The state after an entry that is allowed.
unfoldable pub entered : FillEvent → PortfolioState → PortfolioState
entered e s =
    let positions = insert e.signal_id (new_position e) s.open_positions in
    record s {
      bankroll_usd = s.bankroll_usd -ℤ e.size_usd;
      open_positions = positions;
      open_position_count = length positions;
      exposure_by_token = raised e.token_mint e.size_usd s.exposure_by_token;
      exposure_by_source_wallet = raised e.wallet_address e.size_usd s.exposure_by_source_wallet;
      last_updated_ts = e.ts;
    }

unfoldable pub transition_on_entry :
    FillEvent → StateUpdateParams → PortfolioState → PortfolioState × Option FillError
transition_on_entry e params s = elim (can_open_position s params) [
  | some reason ↦ (s, some reason)
  | none ↦ elim (can_increase_exposure s e.token_mint e.wallet_address e.size_usd params) [
    | some reason ↦ (s, some reason)
    | none ↦ (entered e s, none)
  ]
]

unfoldable pub drawdown : ℤ → ℤ → Ratio
drawdown peak bankroll =
    if ltb_ℤ (pos 0) peak
    then record { over = peak -ℤ bankroll; under = peak }
    else record { over = pos 1; under = pos 1 }

-- The state after an exit from an open position.
unfoldable pub exited : FillEvent → Position → PortfolioState → PortfolioState
exited e p s =
    let bankroll = s.bankroll_usd +ℤ p.size_usd +ℤ e.pnl_usd in
    let peak = if ltb_ℤ s.peak_bankroll_usd bankroll then bankroll else s.peak_bankroll_usd in
    let positions = erase e.signal_id s.open_positions in
    record s {
      bankroll_usd = bankroll;
      daily_pnl_usd = s.daily_pnl_usd +ℤ e.pnl_usd;
      total_drawdown = drawdown peak bankroll;
      peak_bankroll_usd = peak;
      open_positions = positions;
      open_position_count = length positions;
      exposure_by_token = lowered e.token_mint p.size_usd s.exposure_by_token;
      exposure_by_source_wallet = lowered e.wallet_address p.size_usd s.exposure_by_source_wallet;
      last_updated_ts = e.ts;
    }

unfoldable pub transition_on_exit : FillEvent → PortfolioState → PortfolioState × Option FillError
transition_on_exit e s = elim (lookup e.signal_id s.open_positions) [
  | none ↦ (s, some (position_not_found e.signal_id))
  | some p ↦ (exited e p s, none)
]

-- `state.cooldown_until_ts and now_ts >= state.cooldown_until_ts`: a time of zero counts as none.
unfoldable pub cooldown_is_over : Option ℤ → ℤ → Bool
cooldown_is_over none now_ts = false
cooldown_is_over (some until) now_ts = if is_zero until then false else leb_ℤ until now_ts

unfoldable pub update_cooldown : StateUpdateParams → ℤ → PortfolioState → PortfolioState
update_cooldown params now_ts s =
    let should_cooldown = check_daily_loss_limit params s.daily_pnl_usd in
    if should_cooldown && not s.cooldown_active
    then record s {
      cooldown_active = true;
      cooldown_until_ts = some (now_ts +ℤ params.cooldown_duration_sec);
      last_updated_ts = now_ts;
    }
    else if not should_cooldown && s.cooldown_active && cooldown_is_over s.cooldown_until_ts now_ts
    then record s { cooldown_active = false; cooldown_until_ts = none; last_updated_ts = now_ts }
    else s

unfoldable pub reset_daily_pnl : ℤ → PortfolioState → PortfolioState
reset_daily_pnl now_ts s = record s { daily_pnl_usd = pos 0; last_updated_ts = now_ts }

unfoldable pub apply_fill_event :
    FillEvent → StateUpdateParams → PortfolioState → PortfolioState × Option FillError
apply_fill_event e params s =
    if str_eq e.side "BUY"
    then transition_on_entry e params s
    else if str_eq e.side "SELL"
    then transition_on_exit e s
    else (s, some (unknown_side e.side))
