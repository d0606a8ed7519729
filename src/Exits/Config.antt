-- ===== src/Exits/Config.antt =====
-- strategy/exits.py: the configuration, the state of a position and the signals. Prices are whole
-- numbers of a smallest unit, and rates and quantities count ten-thousandths. Every entry of the
-- configuration may be missing, as in its dictionaries.
use text.Mathlib.Text.{starts_with}
use engine_bot.Shared.{
  ℕ, String, Bool, true, false, Option, none, some, List, [], str_eq, if◌then◌else◌,
}
use engine_bot.Shared.Int.{ℤ, pos, negsuc}
use engine_bot.Shared.Dict.{Dict, lookup}
use engine_bot.Shared.Options.{get_or}

pub data ExitAction : Type 0 where
  hold : ExitAction
  partial_tp : ExitAction
  partial_exit : ExitAction
  trail_stop : ExitAction
  close_full : ExitAction
  time_exit : ExitAction
  mode_switch : ExitAction

-- What the message of a signal says.
pub data Reason : Type 0 where
  no_exit_signal : Reason
  aggressive_trigger : Reason
  aggressive_trail : Reason
  leaders_panic : Reason
  tight_sl : Reason
  hard_sl : Reason
  hard_tp : Reason
  partial_target : Reason
  trailing_stop : Reason
  max_hold_time : Reason
  no_exit_triggered : Reason
  final_close : Reason → Reason

pub record ExitSignal : Type 0 where
  pub action : ExitAction
  pub qty_pct : ℤ
  pub reason : Reason
  pub new_mode : Option String

pub record PositionState : Type 0 where
  pub entry_price : ℕ
  pub current_price : ℕ
  pub peak_price : ℕ
  pub elapsed_sec : ℤ
  pub remaining_pct : ℤ
  pub chain_reaction_score : ℤ
  pub mode : String
  pub is_partial_taken : Bool

pub record Trigger : Type 0 where
  pub dt_max : Option ℤ
  pub min_chg : Option ℤ
  pub partial : Option ℤ
  pub trail : Option ℤ

pub record Aggressive : Type 0 where
  pub is_enabled : Option Bool
  pub triggers : Option (Dict Trigger)

pub record ChainReaction : Type 0 where
  pub is_enabled : Option Bool
  pub threshold : Option ℤ
  pub action : Option String
  pub panic_sl_pct : Option ℤ

pub record PartialTarget : Type 0 where
  pub trigger_pct : Option ℤ
  pub exit_pct : Option ℤ

pub record Trailing : Type 0 where
  pub activation_pct : Option ℤ
  pub delta_pct : Option ℤ

pub record Exits : Type 0 where
  pub chain_reaction : Option ChainReaction
  pub hard_sl_pct : Option ℤ
  pub hard_tp_pct : Option ℤ
  pub partial_tp : Option (List PartialTarget)
  pub trailing : Option Trailing
  pub max_hold_sec : Option ℤ

-- `modes` has the exits of each mode.
pub record Config : Type 0 where
  pub aggressive : Option Aggressive
  pub modes : Option (Dict (Option Exits))

abbrev pub no_aggressive : Aggressive
no_aggressive = record { is_enabled = none; triggers = none }

abbrev pub no_chain_reaction : ChainReaction
no_chain_reaction = record {
  is_enabled = none;
  threshold = none;
  action = none;
  panic_sl_pct = none;
}

abbrev pub no_trailing : Trailing
no_trailing = record { activation_pct = none; delta_pct = none }

abbrev pub no_exits : Exits
no_exits = record {
  chain_reaction = none;
  hard_sl_pct = none;
  hard_tp_pct = none;
  partial_tp = none;
  trailing = none;
  max_hold_sec = none;
}

-- `cfg.get("modes", {}).get("A", {}).get("exits", {})`
unfoldable pub exits_of : Config → Exits
exits_of cfg = get_or (get_or (lookup "A" (get_or cfg.modes [])) none) no_exits

unfoldable pub triggers_of : Config → Dict Trigger
triggers_of cfg = get_or (get_or cfg.aggressive no_aggressive).triggers []

-- The entries with their defaults.
unfoldable pub sl_of : Exits → ℤ
sl_of e = get_or e.hard_sl_pct (negsuc 1999)

unfoldable pub tp_of : Exits → ℤ
tp_of e = get_or e.hard_tp_pct (pos 5000)

unfoldable pub max_hold_of : Exits → ℤ
max_hold_of e = get_or e.max_hold_sec (pos 300)

unfoldable pub activation_of : Exits → ℤ
activation_of e = get_or (get_or e.trailing no_trailing).activation_pct (pos 1500)

unfoldable pub delta_of : Exits → ℤ
delta_of e = get_or (get_or e.trailing no_trailing).delta_pct (pos 500)

unfoldable pub min_chg_of : Trigger → ℤ
min_chg_of t = get_or t.min_chg (pos 300)

-- `"_aggr" in mode`
unfoldable pub is_aggr : String → Bool
is_aggr String.[] = false
is_aggr (String.◌∷◌ c s) =
    let rest = is_aggr s in if starts_with (String.◌∷◌ c s) "_aggr" then true else rest

-- `mode_to_aggr.get(mode)`
unfoldable pub mode_to_aggr : String → Option String
mode_to_aggr mode =
    if str_eq mode "U"
    then some "U_aggr"
    else if str_eq mode "S"
    then some "S_aggr"
    else if str_eq mode "M"
    then some "M_aggr"
    else if str_eq mode "L"
    then some "L_aggr"
    else none

-- `parse_exits_config`, whose result has every entry but that of the chain reaction.
pub record ParsedExits : Type 0 where
  pub hard_sl_pct : ℤ
  pub hard_tp_pct : ℤ
  pub partial_tp : List PartialTarget
  pub activation_pct : ℤ
  pub delta_pct : ℤ
  pub max_hold_sec : ℤ

unfoldable pub parse_exits_config : Config → ParsedExits
unfolding exits_of
parse_exits_config cfg =
    let e = exits_of cfg in
    record {
      hard_sl_pct = get_or e.hard_sl_pct (negsuc 1999);
      hard_tp_pct = get_or e.hard_tp_pct (pos 5000);
      partial_tp = get_or e.partial_tp [];
      activation_pct = get_or (get_or e.trailing no_trailing).activation_pct (pos 1500);
      delta_pct = get_or (get_or e.trailing no_trailing).delta_pct (pos 500);
      max_hold_sec = get_or e.max_hold_sec (pos 300);
    }
