-- ===== src/AggrSwitch/Logic.antt =====
-- strategy/aggr_logic.py: the switch of an open position to its aggressive mode. Rates count
-- ten-thousandths, amounts and times a smallest unit; the fields that no test reads are left out
-- of the snapshots.
use engine_bot.Shared.{
  String, Bool, true, false, ◌&&◌, Option, none, some, [], ◌∷◌, if◌then◌else◌, str_eq,
}
use engine_bot.Shared.Int.{ℤ, pos, ◌*ℤ◌, ltb_ℤ, leb_ℤ, is_zero}
use engine_bot.Shared.Dict.{Dict, lookup}
use engine_bot.Shared.Text.{upper}
use engine_bot.Shared.Results.{Result, ok, err}

pub record PositionSnapshot : Type 0 where
  pub position_id : String
  pub base_mode : String
  pub entry_time_sec : ℤ
  pub current_roi : ℤ

pub record WalletProfile : Type 0 where
  pub winrate : ℤ
  pub roi_mean : ℤ

pub record TokenSnapshot : Type 0 where
  pub liquidity_usd : ℤ
  pub spread_bps : ℤ

pub record PortfolioState : Type 0 where
  pub total_value_usd : ℤ
  pub aggr_exposure_usd : ℤ
  pub daily_aggr_count : ℤ

-- A trigger with an entry missing raises when the entry is read.
pub record Trigger : Type 0 where
  pub dt_sec_max : Option ℤ
  pub min_chg_pct : Option ℤ

pub record AggressiveSwitchParams : Type 0 where
  pub min_wallet_roi_for_aggr : ℤ
  pub min_wallet_winrate_for_aggr : ℤ
  pub min_token_liquidity_usd : ℤ
  pub max_spread_bps : ℤ
  pub max_aggr_exposure_pct : ℤ
  pub max_daily_aggr_trades : ℤ
  pub triggers : Dict Trigger

-- `__post_init__`: the triggers where none are given.
unfoldable pub default_triggers : Dict Trigger
default_triggers =
    ("U", record { dt_sec_max = some (pos 12); min_chg_pct = some (pos 300) })
    ∷ ("S", record { dt_sec_max = some (pos 20); min_chg_pct = some (pos 200) })
    ∷ ("M", record { dt_sec_max = some (pos 30); min_chg_pct = some (pos 150) })
    ∷ ("L", record { dt_sec_max = some (pos 60); min_chg_pct = some (pos 100) })
    ∷ []

unfoldable pub post_init : Option (Dict Trigger) → Dict Trigger
post_init none = default_triggers
post_init (some triggers) = triggers

-- Liquidity in whole dollars.
unfoldable pub default_params : AggressiveSwitchParams
unfolding post_init
default_params = record {
  min_wallet_roi_for_aggr = pos 2500;
  min_wallet_winrate_for_aggr = pos 5000;
  min_token_liquidity_usd = pos 50000;
  max_spread_bps = pos 100;
  max_aggr_exposure_pct = pos 3000;
  max_daily_aggr_trades = pos 10;
  triggers = post_init none;
}

pub data Reason : Type 0 where
  aggr_wallet_roi_low : Reason
  aggr_wallet_winrate_low : Reason
  aggr_liquidity_low : Reason
  aggr_spread_high : Reason
  aggr_exposure_limit : Reason
  aggr_daily_trade_limit : Reason
  aggr_no_trigger : Reason
  aggr_time_expired : Reason
  aggr_insufficient_impulse : Reason
  aggr_triggered : Reason
  aggr_unknown_mode : Reason

pub data SwitchError : Type 0 where
  zero_division : SwitchError
  key_error : SwitchError

-- `exposure / total >= limit`, by the sign of a total that is not 0.
unfoldable pub reaches_share : ℤ → ℤ → ℤ → Bool
reaches_share exposure total limit =
    if ltb_ℤ (pos 0) total
    then leb_ℤ (limit *ℤ total) (exposure *ℤ pos 10000)
    else leb_ℤ (exposure *ℤ pos 10000) (limit *ℤ total)

-- The last test, of the trades of the day.
unfoldable pub within_day : PortfolioState → AggressiveSwitchParams → Bool × Option Reason
within_day portfolio params =
    if leb_ℤ params.max_daily_aggr_trades portfolio.daily_aggr_count
    then (false, some aggr_daily_trade_limit)
    else (true, none)

unfoldable pub passes_aggressive_safety :
    WalletProfile
    → TokenSnapshot
    → PortfolioState
    → AggressiveSwitchParams
    → Result SwitchError (Bool × Option Reason)
passes_aggressive_safety wallet token portfolio params =
    if ltb_ℤ wallet.roi_mean params.min_wallet_roi_for_aggr
    then ok (false, some aggr_wallet_roi_low)
    else if ltb_ℤ wallet.winrate params.min_wallet_winrate_for_aggr
    then ok (false, some aggr_wallet_winrate_low)
    else if ltb_ℤ token.liquidity_usd params.min_token_liquidity_usd
    then ok (false, some aggr_liquidity_low)
    else if ltb_ℤ params.max_spread_bps token.spread_bps
    then ok (false, some aggr_spread_high)
    else if ltb_ℤ (pos 0) params.max_aggr_exposure_pct && is_zero portfolio.total_value_usd
    then err zero_division
    else if ltb_ℤ (pos 0) params.max_aggr_exposure_pct
        && reaches_share portfolio.aggr_exposure_usd portfolio.total_value_usd
            params.max_aggr_exposure_pct
    then ok (false, some aggr_exposure_limit)
    else ok (within_day portfolio params)

-- `new_mode_map.get(base_mode)`, with the reason.
unfoldable pub new_mode : String → Option String × Option Reason
new_mode base_mode =
    if str_eq base_mode "U"
    then (some "U_aggr", some aggr_triggered)
    else if str_eq base_mode "S"
    then (some "S_aggr", some aggr_triggered)
    else if str_eq base_mode "M"
    then (some "M_aggr", some aggr_triggered)
    else if str_eq base_mode "L"
    then (some "L_aggr", some aggr_triggered)
    else (none, some aggr_unknown_mode)

unfoldable pub check_impulse :
    PositionSnapshot → Option ℤ → Result SwitchError (Option String × Option Reason)
check_impulse position none = err key_error
check_impulse position (some min_chg_pct) =
    if ltb_ℤ position.current_roi min_chg_pct
    then ok (none, some aggr_insufficient_impulse)
    else ok (new_mode (upper position.base_mode))

unfoldable pub check_speed :
    PositionSnapshot → Option ℤ → Option ℤ → Result SwitchError (Option String × Option Reason)
check_speed position none min_chg_pct = err key_error
check_speed position (some dt_sec_max) min_chg_pct =
    if ltb_ℤ dt_sec_max position.entry_time_sec
    then ok (none, some aggr_time_expired)
    else check_impulse position min_chg_pct

unfoldable pub check_trigger :
    PositionSnapshot → Option Trigger → Result SwitchError (Option String × Option Reason)
check_trigger position none = ok (none, some aggr_no_trigger)
check_trigger position (some t) = check_speed position t.dt_sec_max t.min_chg_pct

unfoldable pub after_safety :
    PositionSnapshot
    → AggressiveSwitchParams
    → Bool × Option Reason
    → Result SwitchError (Option String × Option Reason)
after_safety position params (false, reason) = ok (none, reason)
after_safety position params (true, reason) =
    check_trigger position (lookup (upper position.base_mode) params.triggers)

unfoldable pub maybe_switch_to_aggressive :
    PositionSnapshot
    → WalletProfile
    → TokenSnapshot
    → PortfolioState
    → AggressiveSwitchParams
    → Result SwitchError (Option String × Option Reason)
maybe_switch_to_aggressive position wallet token portfolio params =
    elim (passes_aggressive_safety wallet token portfolio params) [
      | err e ↦ err e
      | ok passed ↦ after_safety position params passed
    ]

abbrev pub is_some {ℓ} : {A : Type ℓ} → Option A → Bool
is_some none = false
is_some (some a) = true

abbrev pub or_params : Option AggressiveSwitchParams → AggressiveSwitchParams
or_params none = default_params
or_params (some params) = params

unfoldable pub should_switch :
    PositionSnapshot
    → WalletProfile
    → TokenSnapshot
    → PortfolioState
    → Option AggressiveSwitchParams
    → Result SwitchError (Bool × Option String × Option Reason)
should_switch position wallet token portfolio params =
    elim (maybe_switch_to_aggressive position wallet token portfolio (or_params params)) [
      | err e ↦ err e
      | ok (mode, reason) ↦ ok (is_some mode, mode, reason)
    ]
