-- ===== src/Exits/Evaluate.antt =====
-- strategy/exits.py: the decision on an exit. Each rule gives a signal or none, and the first
-- signal counts; a comparison with a quotient by the entry price is multiplied out.
use engine_bot.Shared.{
  ℕ, String, Bool, true, false, not, ◌&&◌, Option, none, some, List, [], ◌∷◌, str_eq, leb,
  if◌then◌else◌,
}
use engine_bot.Shared.Int.{ℤ, pos, negsuc, ◌-ℤ◌, ◌*ℤ◌, ltb_ℤ, leb_ℤ}
use engine_bot.Shared.Dict.{lookup}
use engine_bot.Shared.Options.{get_or}
use engine_bot.Shared.Results.{Result, ok, err, ◌>>=◌}
use engine_bot.Exits.Config.{
  ExitAction, hold, partial_tp, partial_exit, trail_stop, close_full, time_exit, Reason,
  no_exit_signal, aggressive_trigger, aggressive_trail, leaders_panic, tight_sl, hard_sl, hard_tp,
  partial_target, trailing_stop, max_hold_time, ExitSignal, PositionState, Trigger, ChainReaction,
  PartialTarget, Exits, Config, no_aggressive, no_chain_reaction, exits_of, triggers_of, sl_of,
  tp_of, max_hold_of, activation_of, delta_of, min_chg_of, is_aggr, mode_to_aggr,
}

-- The division by an entry price of 0.
pub data ExitError : Type 0 where
  zero_division : ExitError

-- `(price - entry) / entry >= rate` and `<= rate`, for an entry price above 0.
unfoldable pub gains : ℕ → ℕ → ℤ → Bool
gains price entry rate = leb_ℤ (rate *ℤ pos entry) ((pos price -ℤ pos entry) *ℤ pos 10000)

unfoldable pub loses : ℕ → ℕ → ℤ → Bool
loses price entry rate = leb_ℤ ((pos price -ℤ pos entry) *ℤ pos 10000) (rate *ℤ pos entry)

pub record AggressiveTrigger : Type 0 where
  pub new_mode : String
  pub partial_pct : ℤ
  pub trail_pct : ℤ

pub record NamedTrigger : Type 0 where
  pub name : String
  pub trigger : Trigger

unfoldable pub named : String → Option Trigger → Option NamedTrigger
named name none = none
named name (some trigger) = some (record { name = name; trigger = trigger })

-- The trigger that is configured for a base mode.
unfoldable pub find_trigger : String → Config → Option NamedTrigger
find_trigger current_mode cfg =
    if not (get_or (get_or cfg.aggressive no_aggressive).is_enabled false)
    then none
    else if is_aggr current_mode
    then none
    else elim (mode_to_aggr current_mode) [
      | none ↦ none
      | some aggr_mode ↦ named aggr_mode (lookup aggr_mode (triggers_of cfg))
    ]

unfoldable pub check_found :
    ℕ → ℕ → ℤ → Option NamedTrigger → Result ExitError (Option AggressiveTrigger)
check_found current entry elapsed none = ok none
check_found current entry elapsed (some found) =
    if ltb_ℤ (get_or found.trigger.dt_max (pos 15)) elapsed
    then ok none
    else if leb entry 0
    then err zero_division
    else if not (gains current entry (min_chg_of found.trigger))
    then ok none
    else ok (
        some (record {
          new_mode = found.name;
          partial_pct = get_or found.trigger.partial (pos 4000);
          trail_pct = get_or found.trigger.trail (pos 1200);
        }))

unfoldable pub check_aggressive_trigger :
    ℕ → ℕ → ℤ → String → Config → Result ExitError (Option AggressiveTrigger)
check_aggressive_trigger current entry elapsed current_mode cfg =
    check_found current entry elapsed (find_trigger current_mode cfg)

-- The stop price, in ten-thousandths of the unit of prices.
unfoldable pub calculate_trailing_stop : ℕ → ℤ → ℤ
calculate_trailing_stop peak_price trail_pct = pos peak_price *ℤ (pos 10000 -ℤ trail_pct)

unfoldable pub is_stopped : ℕ → ℕ → ℤ → Bool
is_stopped current peak trail_pct =
    leb_ℤ (pos current *ℤ pos 10000) (calculate_trailing_stop peak trail_pct)

unfoldable pub signal : ExitAction → ℤ → Reason → ExitSignal
signal action qty_pct reason = record {
  action = action;
  qty_pct = qty_pct;
  reason = reason;
  new_mode = none;
}

unfoldable pub when : Bool → ExitSignal → Option ExitSignal
when false s = none
when true s = some s

-- The rule of the aggressive trigger.
unfoldable pub partial_signal : Option AggressiveTrigger → Option ExitSignal
partial_signal none = none
partial_signal (some t) = some (record {
  action = partial_exit;
  qty_pct = t.partial_pct;
  reason = aggressive_trigger;
  new_mode = some t.new_mode;
})

unfoldable pub aggressive_rule : PositionState → Config → Result ExitError (Option ExitSignal)
aggressive_rule s cfg =
    if not (is_aggr s.mode) && not s.is_partial_taken
    then check_aggressive_trigger s.current_price s.entry_price s.elapsed_sec s.mode cfg
      >>= (λ t. ok (partial_signal t))
    else ok none

-- The rule of the trailing stop of an aggressive mode.
unfoldable pub trail_signal : ℕ → ℕ → Option Trigger → Option ExitSignal
trail_signal current peak none = none
trail_signal current peak (some t) =
    when (is_stopped current peak (get_or t.trail (pos 1200)))
      (signal trail_stop (pos 10000) aggressive_trail)

unfoldable pub trail_rule : PositionState → Config → Option ExitSignal
trail_rule s cfg =
    if is_aggr s.mode && s.is_partial_taken
    then trail_signal s.current_price s.peak_price (lookup s.mode (triggers_of cfg))
    else none

-- The rule of the chain reaction.
unfoldable pub chain_rule : PositionState → ChainReaction → Option ExitSignal
chain_rule s c =
    if not (get_or c.is_enabled false)
    then none
    else if ltb_ℤ s.chain_reaction_score (get_or c.threshold (pos 5000))
    then none
    else if str_eq (get_or c.action "immediate_exit") "immediate_exit"
    then some (signal close_full (pos 10000) leaders_panic)
    else if str_eq (get_or c.action "immediate_exit") "tighten_sl"
    then when (loses s.current_price s.entry_price (get_or c.panic_sl_pct (negsuc 199)))
        (signal close_full (pos 10000) tight_sl)
    else none

-- The first partial target that is reached.
unfoldable pub first_target : ℕ → ℕ → List PartialTarget → Option ExitSignal
first_target current entry [] = none
first_target current entry (p ∷ ps) =
    let rest = first_target current entry ps in
    if gains current entry (get_or p.trigger_pct (pos 0))
    then some (signal partial_tp (get_or p.exit_pct (pos 0)) partial_target)
    else rest

unfoldable pub target_rule : PositionState → Exits → Option ExitSignal
target_rule s e =
    if ltb_ℤ (pos 1000) s.remaining_pct
    then first_target s.current_price s.entry_price (get_or e.partial_tp [])
    else none

unfoldable pub sl_rule : PositionState → Exits → Option ExitSignal
sl_rule s e =
    when (loses s.current_price s.entry_price (sl_of e)) (signal close_full (pos 10000) hard_sl)

unfoldable pub tp_rule : PositionState → Exits → Option ExitSignal
tp_rule s e =
    when (gains s.current_price s.entry_price (tp_of e)) (signal close_full (pos 10000) hard_tp)

unfoldable pub trailing_rule : PositionState → Exits → Option ExitSignal
trailing_rule s e =
    when
      (gains s.peak_price s.entry_price (activation_of e)
        && is_stopped s.current_price s.peak_price (delta_of e))
      (signal close_full (pos 10000) trailing_stop)

unfoldable pub time_rule : PositionState → Exits → Option ExitSignal
time_rule s e =
    when (leb_ℤ (max_hold_of e) s.elapsed_sec) (signal time_exit (pos 10000) max_hold_time)

-- An early return.
unfoldable pub first_of : Option ExitSignal → ExitSignal → ExitSignal
first_of (some s) rest = s
first_of none rest = rest

-- The rules after the check of the aggressive trigger, in the order of the code.
unfoldable pub rules : PositionState → Config → ExitSignal
rules s cfg =
    let e = exits_of cfg in
    first_of (trail_rule s cfg) (
      first_of (chain_rule s (get_or e.chain_reaction no_chain_reaction)) (
        first_of (sl_rule s e) (
          first_of (tp_rule s e) (
            first_of (target_rule s e) (
              first_of (trailing_rule s e)
                (first_of (time_rule s e) (signal hold (pos 0) no_exit_signal)))))))

unfoldable pub evaluate_exit : PositionState → Config → Result ExitError ExitSignal
evaluate_exit s cfg =
    if leb s.entry_price 0
    then err zero_division
    else aggressive_rule s cfg >>= (λ first. ok (first_of first (rules s cfg)))
