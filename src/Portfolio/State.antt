-- ===== src/Portfolio/State.antt =====
-- strategy/state.py: the portfolio, its checkpoint form, and the tests before an entry. Money is
-- in whole numbers of a smallest unit, times are whole seconds, a concentration limit is a
-- fraction with its denominator, and the drawdown is the fraction that the code divides out.
use engine_bot.Shared.{
  ℕ, String, Bool, false, ◌&&◌, Option, none, some, List, [], ◌∷◌, length, leb, if◌then◌else◌,
}
use engine_bot.Shared.Int.{ℤ, pos, ◌+ℤ◌, ◌-ℤ◌, ◌*ℤ◌, ltb_ℤ}
use engine_bot.Shared.Dict.{Dict, lookup, values}
use engine_bot.Shared.Options.{get_or}

pub record Position : Type 0 where
  pub token_mint : String
  pub entry_price : ℤ
  pub size_usd : ℤ
  pub wallet_address : String
  pub opened_at : ℤ

pub record Ratio : Type 0 where
  pub over : ℤ
  pub under : ℤ

pub record PortfolioState : Type 0 where
  pub bankroll_usd : ℤ
  pub daily_pnl_usd : ℤ
  pub total_drawdown : Ratio
  pub peak_bankroll_usd : ℤ
  pub open_positions : Dict Position
  pub open_position_count : ℕ
  pub exposure_by_token : Dict ℤ
  pub exposure_by_source_wallet : Dict ℤ
  pub cooldown_active : Bool
  pub cooldown_until_ts : Option ℤ
  pub last_updated_ts : ℤ

abbrev pub no_drawdown : Ratio
no_drawdown = record { over = pos 0; under = pos 1 }

-- `PortfolioState.initial`
unfoldable pub initial : ℤ → ℤ → PortfolioState
initial bankroll now_ts = record {
  bankroll_usd = bankroll;
  daily_pnl_usd = pos 0;
  total_drawdown = no_drawdown;
  peak_bankroll_usd = bankroll;
  open_positions = [];
  open_position_count = 0;
  exposure_by_token = [];
  exposure_by_source_wallet = [];
  cooldown_active = false;
  cooldown_until_ts = none;
  last_updated_ts = now_ts;
}

-- The dictionary that `to_dict` makes; `from_dict` takes one with entries missing.
pub record StateDict : Type 0 where
  pub bankroll_usd : Option ℤ
  pub daily_pnl_usd : Option ℤ
  pub total_drawdown : Option Ratio
  pub peak_bankroll_usd : Option ℤ
  pub open_positions : Option (Dict Position)
  pub open_position_count : Option ℕ
  pub exposure_by_token : Option (Dict ℤ)
  pub exposure_by_source_wallet : Option (Dict ℤ)
  pub cooldown_active : Option Bool
  pub cooldown_until_ts : Option ℤ
  pub last_updated_ts : Option ℤ

unfoldable pub to_dict : PortfolioState → StateDict
to_dict s = record {
  bankroll_usd = some s.bankroll_usd;
  daily_pnl_usd = some s.daily_pnl_usd;
  total_drawdown = some s.total_drawdown;
  peak_bankroll_usd = some s.peak_bankroll_usd;
  open_positions = some s.open_positions;
  open_position_count = some s.open_position_count;
  exposure_by_token = some s.exposure_by_token;
  exposure_by_source_wallet = some s.exposure_by_source_wallet;
  cooldown_active = some s.cooldown_active;
  cooldown_until_ts = s.cooldown_until_ts;
  last_updated_ts = some s.last_updated_ts;
}

-- `none` is the `KeyError` of a missing bankroll.
unfoldable pub from_dict : StateDict → Option PortfolioState
from_dict d = elim d.bankroll_usd [
  | none ↦ none
  | some bankroll ↦ some (record {
    bankroll_usd = bankroll;
    daily_pnl_usd = get_or d.daily_pnl_usd (pos 0);
    total_drawdown = get_or d.total_drawdown no_drawdown;
    peak_bankroll_usd = get_or d.peak_bankroll_usd bankroll;
    open_positions = get_or d.open_positions [];
    open_position_count = get_or d.open_position_count (length (get_or d.open_positions []));
    exposure_by_token = get_or d.exposure_by_token [];
    exposure_by_source_wallet = get_or d.exposure_by_source_wallet [];
    cooldown_active = get_or d.cooldown_active false;
    cooldown_until_ts = d.cooldown_until_ts;
    last_updated_ts = get_or d.last_updated_ts (pos 0);
  })
]

-- `sum(amounts)`
abbrev pub sum : List ℤ → ℤ
sum [] = pos 0
sum (x ∷ xs) = x +ℤ sum xs

unfoldable pub get_total_exposure : PortfolioState → ℤ
get_total_exposure s = sum (values s.exposure_by_token)

unfoldable pub get_token_exposure : String → PortfolioState → ℤ
get_token_exposure token_mint s = get_or (lookup token_mint s.exposure_by_token) (pos 0)

unfoldable pub get_wallet_exposure : String → PortfolioState → ℤ
get_wallet_exposure wallet s = get_or (lookup wallet s.exposure_by_source_wallet) (pos 0)

-- A positive denominator is meant.
pub record Limit : Type 0 where
  pub numerator : ℕ
  pub denominator : ℕ

pub record StateUpdateParams : Type 0 where
  pub max_daily_loss_usd : ℤ
  pub cooldown_duration_sec : ℤ
  pub max_positions : ℕ
  pub max_token_concentration : Limit
  pub max_wallet_concentration : Limit

unfoldable pub check_daily_loss_limit : StateUpdateParams → ℤ → Bool
check_daily_loss_limit params daily_pnl = ltb_ℤ daily_pnl (pos 0 -ℤ params.max_daily_loss_usd)

pub data FillError : Type 0 where
  cooldown_is_active : FillError
  max_positions_reached : FillError
  token_concentration_exceeded : FillError
  wallet_concentration_exceeded : FillError
  position_not_found : String → FillError
  unknown_side : String → FillError

-- The reason against it, if there is one.
unfoldable pub can_open_position : PortfolioState → StateUpdateParams → Option FillError
can_open_position s params =
    if s.cooldown_active
    then some cooldown_is_active
    else if leb params.max_positions s.open_position_count
    then some max_positions_reached
    else none

-- `part / whole > limit`, for a positive whole.
unfoldable pub exceeds : ℤ → ℤ → Limit → Bool
exceeds part whole limit = ltb_ℤ (pos limit.numerator *ℤ whole) (part *ℤ pos limit.denominator)

unfoldable pub can_increase_exposure :
    PortfolioState → String → String → ℤ → StateUpdateParams → Option FillError
can_increase_exposure s token_mint wallet additional params =
    let new_token = get_token_exposure token_mint s +ℤ additional in
    let new_wallet = get_wallet_exposure wallet s +ℤ additional in
    let total = s.bankroll_usd +ℤ (get_total_exposure s +ℤ additional) in
    if ltb_ℤ (pos 0) total && exceeds new_token total params.max_token_concentration
    then some token_concentration_exceeded
    else if ltb_ℤ (pos 0) total && exceeds new_wallet total params.max_wallet_concentration
    then some wallet_concentration_exceeded
    else none
