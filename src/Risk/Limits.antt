-- ===== src/Risk/Limits.antt =====
-- strategy/risk_engine.py, the limits, and integration/portfolio_stub.py. Amounts are whole
-- numbers of a smallest unit; a percentage is counted in hundredths of a percent, and so is the
-- daily loss limit, which the code multiplies by the bankroll as it is, so that its 1.0 is
-- 10000. The time of a trade is parsed already. A trade is refused for a reason, or for none.
use engine_bot.Shared.{String, str_eq, Bool, true, false, ◌&&◌, Option, none, some, if◌then◌else◌}
use engine_bot.Shared.Int.{ℤ, pos, ◌+ℤ◌, ◌-ℤ◌, ◌*ℤ◌, ltb_ℤ, leb_ℤ, max_ℤ}
use engine_bot.Shared.Dict.{Dict, lookup}

pub record PortfolioStub : Type 0 where
  pub equity_usd : ℤ
  pub peak_equity_usd : ℤ
  pub open_positions : ℤ
  pub day_pnl_usd : ℤ
  pub consecutive_losses : ℤ
  pub cooldown_until : ℤ
  pub active_counts_by_tier : Dict ℤ
  pub active_counts_by_mode : Dict ℤ
  pub exposure_by_mode : Dict ℤ
  pub exposure_by_token : Dict ℤ

-- What the checks read of a trade. A missing mode is "U".
pub record Trade : Type 0 where
  pub ts : ℤ
  pub mint : String
  pub size_usd : ℤ
  pub wallet_tier : Option String
  pub mode : Option String

pub record ModeLimits : Type 0 where
  pub max_open : Option ℤ
  pub max_exposure_usd : Option ℤ

-- The `risk.limits` of the configuration.
pub record Limits : Type 0 where
  pub is_cooldown_enabled : Bool
  pub is_fallback_skipped : Bool
  pub fallback_max_positions : Option ℤ
  pub tier_max_open : Dict (Option ℤ)
  pub modes : Dict ModeLimits
  pub max_exposure_per_token : Option ℤ
  pub max_daily_loss : Option ℤ
  pub max_open_positions : Option ℤ
  pub kill_switch_on_drawdown : Bool
  pub max_drawdown_total : Option ℤ

pub data Reason : Type 0 where
  cooldown : Reason
  wallet_tier_limit : Reason
  mode_limit : Reason
  max_exposure : Reason
  kill_switch : Reason
  max_positions : Reason

-- `d.get(k, 0)`
unfoldable pub get_or_zero : String → Dict ℤ → ℤ
get_or_zero k d = elim (lookup k d) [ none ↦ pos 0 | some v ↦ v ]

-- `limit is not None and value >= limit`
unfoldable pub reaches : ℤ → Option ℤ → Bool
reaches value none = false
reaches value (some limit) = leb_ℤ limit value

unfoldable pub refuse_if : Bool → Reason → Option Reason
refuse_if hit reason = if hit then some reason else none

unfoldable pub check_tier_limits : Trade → PortfolioStub → Limits → Option Reason
check_tier_limits t p l = elim t.wallet_tier [
  | none ↦
      if l.is_fallback_skipped
      then none
      else refuse_if (reaches p.open_positions l.fallback_max_positions) wallet_tier_limit
  | some tier ↦ elim (lookup tier l.tier_max_open) [
    | none ↦ none
    | some limit ↦
        refuse_if (reaches (get_or_zero tier p.active_counts_by_tier) limit) wallet_tier_limit
  ]
]

unfoldable pub mode_of : Trade → String
mode_of t = elim t.mode [ none ↦ "U" | some mode ↦ mode ]

unfoldable pub check_mode_limits : Trade → PortfolioStub → Limits → Option Reason
check_mode_limits t p l = elim (lookup (mode_of t) l.modes) [
  | none ↦ none
  | some config ↦
      if reaches (get_or_zero (mode_of t) p.active_counts_by_mode) config.max_open
      then some mode_limit
      else refuse_if
          (reaches (get_or_zero (mode_of t) p.exposure_by_mode +ℤ t.size_usd)
            config.max_exposure_usd)
          mode_limit
]

-- Both sides of the comparison are multiplied by 10000.
unfoldable pub check_exposure_limits : Trade → PortfolioStub → Limits → Option Reason
check_exposure_limits t p l = elim l.max_exposure_per_token [
  | none ↦ none
  | some pct ↦
      if str_eq t.mint ""
      then none
      else refuse_if
          (leb_ℤ (max_ℤ p.equity_usd (pos 0) *ℤ pct)
            (get_or_zero t.mint p.exposure_by_token *ℤ pos 10000))
          max_exposure
]

-- `day_pnl_usd <= -(max_daily_loss_pct * initial_bankroll)`, multiplied by 10000; the stub has
-- no initial bankroll, so that its peak equity stands for it.
unfoldable pub is_daily_loss_hit : PortfolioStub → Limits → Bool
is_daily_loss_hit p l = elim l.max_daily_loss [
  | none ↦ false
  | some limit ↦ leb_ℤ (p.day_pnl_usd *ℤ pos 10000) (pos 0 -ℤ limit *ℤ p.peak_equity_usd)
]

-- The drawdown is at least the limit: the code's percentages, multiplied by the peak and by 100.
unfoldable pub should_kill_switch : PortfolioStub → Limits → Bool
should_kill_switch p l =
    if l.kill_switch_on_drawdown
    then elim l.max_drawdown_total [
      | none ↦ false
      | some limit ↦
          if leb_ℤ p.peak_equity_usd (pos 0)
          then leb_ℤ limit (pos 0)
          else if leb_ℤ limit (pos 0)
          then true
          else leb_ℤ (limit *ℤ p.peak_equity_usd) ((p.peak_equity_usd -ℤ p.equity_usd) *ℤ pos 10000)
    ]
    else false

-- The next check, if this one does not refuse.
unfoldable pub or_else : Option Reason → Option Reason → Option Reason
or_else none next = next
or_else (some reason) next = some reason

unfoldable pub apply_risk_limits : Trade → PortfolioStub → Limits → Option Reason
apply_risk_limits t p l =
    or_else (refuse_if (l.is_cooldown_enabled && ltb_ℤ t.ts p.cooldown_until) cooldown) (
      or_else (check_tier_limits t p l) (
        or_else (check_mode_limits t p l) (
          or_else (check_exposure_limits t p l) (
            or_else (refuse_if (is_daily_loss_hit p l) kill_switch)
              (refuse_if (reaches p.open_positions l.max_open_positions) max_positions)))))
