-- ===== src/Gates/Tests.antt =====
-- The gates at concrete inputs.
use engine_bot.Shared.{◌≡◌, refl, true, false, none, some, [], ◌∷◌}
use engine_bot.Shared.Int.{pos}
use engine_bot.Gates.Data.{
  Security, Simulation, Extra, TokenSnapshot, TradeFields, GateConfig, Reason,
}
use engine_bot.Gates.Checks
use engine_bot.Gates.Checks.{
  HoneypotConfig, HoneypotData, apply_gates, primary_reason, passes_honeypot_gate, is_flagged,
  is_honeypot_safe,
}
use engine_bot.Gates.Thresholds.{IsTradable, IsSafe, IsTrusted}
use engine_bot.Gates.Decisions.{apply_gates-IsTradable}

abbrev config : GateConfig
config = record {
  min_liquidity_usd = some (pos 15000);
  min_volume_24h_usd = some (pos 25000);
  max_spread_bps = some (pos 400);
  max_top10_holders_pct = some (pos 8000);
  max_single_holder_pct = none;
  is_security_enabled = true;
  max_tax_bps = pos 1000;
  require_honeypot_safe = true;
  min_wallet_winrate_30d = some (pos 6000);
  min_wallet_roi_30d_pct = none;
  min_wallet_trades_30d = some (pos 50);
}

abbrev clean : Security
clean = record {
  is_honeypot = some false;
  freeze_authority = none;
  mint_authority = some false;
  top_holders_pct = some (pos 4000);
  honeypot = none;
  honeypot_detected = none;
  scam = none;
}

abbrev good_run : Simulation
good_run = record { is_success = true; buy_tax_bps = some (pos 100); sell_tax_bps = none }

abbrev extra : Extra
extra = record {
  security = some clean;
  simulation = some good_run;
  honeypot = none;
  honeypot_detected = none;
  is_honeypot = none;
}

abbrev token : TokenSnapshot
token = record {
  liquidity_usd = some (pos 20000);
  volume_24h_usd = none;
  spread_bps = some (pos 100);
  top10_holders_pct = none;
  single_holder_pct = some (pos 9000);
  extra = some extra;
}

abbrev fields : TradeFields
fields = record {
  liquidity_usd = none;
  volume_24h_usd = some (pos 30000);
  spread_bps = none;
  wallet_winrate_30d = some (pos 7000);
  wallet_roi_30d_pct = none;
  wallet_trades_30d = some (pos 50);
}

passes : (apply_gates config fields (some token)).is_passed ≡ true
unfolding apply_gates Checks.token_gates Checks.security_gate Checks.extract_security_data
    Checks.security_of Checks.extra_of Checks.simulation_gate Checks.check_simulation_security
    Checks.simulation_of Checks.honeypot_gate passes_honeypot_gate is_flagged Checks.has_flag
    is_honeypot_safe Checks.wallet_hard_filters
passes = refl

apply_gates-IsTradable_example :
    ((s : TokenSnapshot) × (some token ≡ some s)
      × IsTradable config fields s
      × ((x : Extra) → s.extra ≡ some x → IsSafe config x))
    × IsTrusted config fields
apply_gates-IsTradable_example = apply_gates-IsTradable config fields (some token) passes

-- No snapshot gives the reason of the token gates before that of the honeypot gate.
no_snapshot :
    (apply_gates config fields none).reasons
    ≡ Reason.missing_snapshot ∷ Reason.honeypot_detected ∷ []
unfolding apply_gates Checks.token_gates Checks.security_gate Checks.extract_security_data
    Checks.security_of Checks.extra_of Checks.simulation_gate Checks.check_simulation_security
    Checks.simulation_of Checks.honeypot_gate passes_honeypot_gate Checks.wallet_hard_filters
no_snapshot = refl

-- A freeze authority, a failed simulation and a tax of 90 percent pass the honeypot gate.
abbrev trap : TokenSnapshot
trap = record token {
  extra = some (record extra {
    security = some (record clean { freeze_authority = some true });
    simulation =
        some (record { is_success = false; buy_tax_bps = some (pos 9000); sell_tax_bps = none });
  });
}

trap_passes : passes_honeypot_gate config (some trap) ≡ true
unfolding passes_honeypot_gate is_flagged Checks.has_flag is_honeypot_safe
trap_passes = refl

-- The function itself refuses such a tax, where it is given the data.
tax_refused :
    is_honeypot_safe
      (some (record {
        is_enabled = true;
        allow_unknown = true;
        reject_if_freeze_authority_present = false;
        reject_if_mint_authority_present = false;
        max_tax_pct = pos 10;
      }))
      (some (record {
        allow_unknown = none;
        is_honeypot = none;
        freeze_authority = none;
        mint_authority = none;
        buy_tax_pct = Checks.known (pos 90);
        sell_tax_pct = Checks.known (pos 0);
      }))
    ≡ false
unfolding is_honeypot_safe Checks.is_data_safe
tax_refused = refl
