-- ===== src/Reload/Schema.antt =====
-- config/runtime_schema.py, and the reading of a file by config/hot_reload.py. Rates count
-- ten-thousandths, and times are whole seconds. A section of the file that is there is a mapping,
-- and an entry that is there is a number.
use engine_bot.Shared.{Bool, false, ◌&&◌, not, ◌||◌, Option, none, some, if◌then◌else◌}
use engine_bot.Shared.Int.{ℤ, pos, leb_ℤ}
use engine_bot.Shared.Options.{get_or}

pub record RuntimeConfig : Type 0 where
  pub edge_threshold_base : ℤ
  pub edge_threshold_riskon : ℤ
  pub edge_threshold_riskoff : ℤ
  pub position_pct : ℤ
  pub max_open_positions : ℤ
  pub max_token_exposure : ℤ
  pub max_daily_loss : ℤ
  pub kelly_fraction : ℤ
  pub cooldown_after_losses_sec : ℤ
  pub partial_retry_enabled : Bool
  pub partial_retry_max_attempts : ℤ
  pub partial_retry_size_decay : ℤ
  pub partial_retry_fee_multiplier : ℤ
  pub partial_retry_ttl_sec : ℤ
  pub dynamic_trailing_enabled : Bool
  pub trailing_base_distance_bps : ℤ
  pub trailing_volatility_multiplier : ℤ
  pub trailing_volume_multiplier : ℤ
  pub trailing_max_distance_bps : ℤ
  pub trailing_rv_threshold_high : ℤ
  pub trailing_rv_threshold_low : ℤ
  pub trailing_volume_confirm_threshold : ℤ
  pub coordination_threshold : ℤ
  pub hazard_threshold : ℤ

unfoldable pub in_range : ℤ → ℤ → ℤ → Bool
in_range low high value = leb_ℤ low value && leb_ℤ value high

-- The ranges that `__post_init__` checks.
unfoldable pub has_signal_ranges : RuntimeConfig → Bool
has_signal_ranges c =
    in_range (pos 0) (pos 10000) c.edge_threshold_base
    && (in_range (pos 0) (pos 10000) c.edge_threshold_riskon
        && in_range (pos 0) (pos 10000) c.edge_threshold_riskoff)

unfoldable pub has_risk_ranges : RuntimeConfig → Bool
has_risk_ranges c =
    in_range (pos 50) (pos 500) c.position_pct
    && (in_range (pos 1) (pos 10) c.max_open_positions
        && (in_range (pos 100) (pos 5000) c.max_token_exposure
            && (in_range (pos 100) (pos 2000) c.max_daily_loss
                && (in_range (pos 1000) (pos 10000) c.kelly_fraction
                    && leb_ℤ (pos 0) c.cooldown_after_losses_sec))))

unfoldable pub has_retry_ranges : RuntimeConfig → Bool
has_retry_ranges c =
    not c.partial_retry_enabled
    || (in_range (pos 1) (pos 5) c.partial_retry_max_attempts
        && (in_range (pos 5000) (pos 9000) c.partial_retry_size_decay
            && (in_range (pos 12000) (pos 30000) c.partial_retry_fee_multiplier
                && in_range (pos 30) (pos 300) c.partial_retry_ttl_sec)))

unfoldable pub has_trailing_ranges : RuntimeConfig → Bool
has_trailing_ranges c =
    not c.dynamic_trailing_enabled
    || (in_range (pos 50) (pos 500) c.trailing_base_distance_bps
        && (in_range (pos 5000) (pos 30000) c.trailing_volatility_multiplier
            && (in_range (pos 5000) (pos 10000) c.trailing_volume_multiplier
                && (in_range (pos 300) (pos 1000) c.trailing_max_distance_bps
                    && (in_range (pos 500) (pos 1500) c.trailing_rv_threshold_high
                        && (in_range (pos 100) (pos 500) c.trailing_rv_threshold_low
                            && in_range (pos 12000) (pos 30000)
                                c.trailing_volume_confirm_threshold))))))

unfoldable pub is_valid : RuntimeConfig → Bool
is_valid c =
    has_signal_ranges c
    && (has_risk_ranges c
        && (has_retry_ranges c
            && (has_trailing_ranges c
                && (in_range (pos 5000) (pos 9500) c.coordination_threshold
                    && in_range (pos 1000) (pos 7000) c.hazard_threshold))))

-- The parts of the file that are read.
pub record Signals : Type 0 where
  pub edge_threshold_base : Option ℤ
  pub edge_threshold_riskon : Option ℤ
  pub edge_threshold_riskoff : Option ℤ

pub record Sizing : Type 0 where
  pub fixed_pct_of_bankroll : Option ℤ
  pub kelly_fraction : Option ℤ

pub record RiskLimits : Type 0 where
  pub max_open_positions : Option ℤ
  pub max_exposure_per_token_pct : Option ℤ
  pub max_daily_loss_pct : Option ℤ
  pub cooldown_duration_sec : Option ℤ

pub record Risk : Type 0 where
  pub position_pct : Option ℤ
  pub sizing : Option Sizing
  pub limits : Option RiskLimits

pub record RawConfig : Type 0 where
  pub signals : Option Signals
  pub risk : Option Risk

abbrev pub no_signals : Signals
no_signals = record {
  edge_threshold_base = none;
  edge_threshold_riskon = none;
  edge_threshold_riskoff = none;
}

abbrev pub no_sizing : Sizing
no_sizing = record { fixed_pct_of_bankroll = none; kelly_fraction = none }

abbrev pub no_limits : RiskLimits
no_limits = record {
  max_open_positions = none;
  max_exposure_per_token_pct = none;
  max_daily_loss_pct = none;
  cooldown_duration_sec = none;
}

abbrev pub no_risk : Risk
no_risk = record { position_pct = none; sizing = none; limits = none }

-- `risk.position_pct`, or else the size of `risk.sizing`.
abbrev pub or_else : Option ℤ → Option ℤ → Option ℤ
or_else none o = o
or_else (some v) o = some v

-- `RuntimeConfig(**flat_data)` before its checks: what the file does not say, and all fields that
-- the reader does not know, have the defaults of the class.
unfoldable pub flatten : RawConfig → RuntimeConfig
flatten raw =
    let signals = get_or raw.signals no_signals in
    let risk = get_or raw.risk no_risk in
    let sizing = get_or risk.sizing no_sizing in
    let limits = get_or risk.limits no_limits in
    record {
      edge_threshold_base = get_or signals.edge_threshold_base (pos 500);
      edge_threshold_riskon = get_or signals.edge_threshold_riskon (pos 400);
      edge_threshold_riskoff = get_or signals.edge_threshold_riskoff (pos 600);
      position_pct = get_or (or_else risk.position_pct sizing.fixed_pct_of_bankroll) (pos 200);
      max_open_positions = get_or limits.max_open_positions (pos 3);
      max_token_exposure = get_or limits.max_exposure_per_token_pct (pos 1000);
      max_daily_loss = get_or limits.max_daily_loss_pct (pos 500);
      kelly_fraction = get_or sizing.kelly_fraction (pos 5000);
      cooldown_after_losses_sec = get_or limits.cooldown_duration_sec (pos 300);
      partial_retry_enabled = false;
      partial_retry_max_attempts = pos 3;
      partial_retry_size_decay = pos 7000;
      partial_retry_fee_multiplier = pos 15000;
      partial_retry_ttl_sec = pos 120;
      dynamic_trailing_enabled = false;
      trailing_base_distance_bps = pos 150;
      trailing_volatility_multiplier = pos 18000;
      trailing_volume_multiplier = pos 9000;
      trailing_max_distance_bps = pos 500;
      trailing_rv_threshold_high = pos 800;
      trailing_rv_threshold_low = pos 300;
      trailing_volume_confirm_threshold = pos 15000;
      coordination_threshold = pos 7000;
      hazard_threshold = pos 3500;
    }

unfoldable pub checked : RuntimeConfig → Option RuntimeConfig
checked c = if is_valid c then some c else none

-- `_read_and_validate`: none where the file cannot be read or parsed, or a value is out of range.
unfoldable pub read_and_validate : Option RawConfig → Option RuntimeConfig
read_and_validate none = none
read_and_validate (some raw) = checked (flatten raw)
