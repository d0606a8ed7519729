-- ===== src/Gates/Data.antt =====
-- integration/gates.py and strategy/honeypot_filter.py: what the gates read. Amounts are whole
-- numbers of a smallest unit, and percentages count hundredths of a percent; a flag that is
-- missing or null is none, and a percentage that is no number counts as missing.
use engine_bot.Shared.{Bool, Option}
use engine_bot.Shared.Int.{ℤ}

-- `extra["security"]`
pub record Security : Type 0 where
  pub is_honeypot : Option Bool
  pub freeze_authority : Option Bool
  pub mint_authority : Option Bool
  pub top_holders_pct : Option ℤ
  pub honeypot : Option Bool
  pub honeypot_detected : Option Bool
  pub scam : Option Bool

-- `extra["simulation"]`, in which a missing success counts as one.
pub record Simulation : Type 0 where
  pub is_success : Bool
  pub buy_tax_bps : Option ℤ
  pub sell_tax_bps : Option ℤ

pub record Extra : Type 0 where
  pub security : Option Security
  pub simulation : Option Simulation
  pub honeypot : Option Bool
  pub honeypot_detected : Option Bool
  pub is_honeypot : Option Bool

pub record TokenSnapshot : Type 0 where
  pub liquidity_usd : Option ℤ
  pub volume_24h_usd : Option ℤ
  pub spread_bps : Option ℤ
  pub top10_holders_pct : Option ℤ
  pub single_holder_pct : Option ℤ
  pub extra : Option Extra

-- What the gates read of a trade.
pub record TradeFields : Type 0 where
  pub liquidity_usd : Option ℤ
  pub volume_24h_usd : Option ℤ
  pub spread_bps : Option ℤ
  pub wallet_winrate_30d : Option ℤ
  pub wallet_roi_30d_pct : Option ℤ
  pub wallet_trades_30d : Option ℤ

-- The thresholds of the configuration.
pub record GateConfig : Type 0 where
  pub min_liquidity_usd : Option ℤ
  pub min_volume_24h_usd : Option ℤ
  pub max_spread_bps : Option ℤ
  pub max_top10_holders_pct : Option ℤ
  pub max_single_holder_pct : Option ℤ
  pub is_security_enabled : Bool
  pub max_tax_bps : ℤ
  pub require_honeypot_safe : Bool
  pub min_wallet_winrate_30d : Option ℤ
  pub min_wallet_roi_30d_pct : Option ℤ
  pub min_wallet_trades_30d : Option ℤ

pub data Reason : Type 0 where
  missing_snapshot : Reason
  min_liquidity_fail : Reason
  min_volume_24h_fail : Reason
  max_spread_fail : Reason
  top10_holders_fail : Reason
  single_holder_fail : Reason
  honeypot_fail : Reason
  freeze_authority_fail : Reason
  mint_authority_fail : Reason
  security_top_holders_fail : Reason
  simulation_failed : Reason
  high_buy_tax : Reason
  high_sell_tax : Reason
  honeypot_detected : Reason
  wallet_min_winrate_fail : Reason
  wallet_min_roi_fail : Reason
  wallet_min_trades_fail : Reason
