-- ===== src/Exits/Decisions.antt =====
-- strategy/exits.py: what a decision promises.
use engine_bot.Shared.{
  ℕ, suc, ◌*◌, ◌≤◌, ◌<◌, ◌≡◌, ◌≢◌, refl, String, Bool, true, false, Option, none, some, All, arith,
}
use engine_bot.Shared.Int.{ℤ, pos, negsuc, ◌-ℤ◌, ◌*ℤ◌, ◌≤ℤ◌, ◌<ℤ◌}
use engine_bot.Shared.Dict.{Dict, lookup, All-lookup}
use engine_bot.Shared.Options.{get_or}
use engine_bot.Shared.Results.{ok}
use mathlib.Core.Option.{some-injective}
use native.Mathlib.Nat.{mul-lt-mul_of_pos_right, mul-le-mul_right}
use engine_bot.Exits.Config.{
  ExitAction, hold, Reason, ExitSignal, PositionState, Trigger, ChainReaction, Config,
  no_chain_reaction, exits_of, triggers_of, sl_of, min_chg_of, mode_to_aggr,
}
use engine_bot.Exits.Evaluate.{
  gains, loses, NamedTrigger, named, find_trigger, check_found, check_aggressive_trigger, signal,
  when, partial_signal, aggressive_rule, trail_signal, trail_rule, chain_rule, sl_rule, first_of,
  rules, evaluate_exit,
}

-- The return since the entry, below, at most or at least a rate; the entry price is above 0.
abbrev pub IsUnderRate : ℕ → ℕ → ℤ → Type 0
IsUnderRate price entry rate = (pos price -ℤ pos entry) *ℤ pos 10000 <ℤ rate *ℤ pos entry

abbrev pub IsOverRate : ℕ → ℕ → ℤ → Type 0
IsOverRate price entry rate = rate *ℤ pos entry <ℤ (pos price -ℤ pos entry) *ℤ pos 10000

abbrev pub IsAtMostRate : ℕ → ℕ → ℤ → Type 0
IsAtMostRate price entry rate = (pos price -ℤ pos entry) *ℤ pos 10000 ≤ℤ rate *ℤ pos entry

-- A signal that sells all that is left.
abbrev pub IsFullExit : ExitSignal → Type 0
IsFullExit s = (s.qty_pct ≡ pos 10000) × (s.action ≢ hold)

mul_less : (a b : ℤ) (n : ℕ) → a <ℤ b → 1 ≤ n → a *ℤ pos n <ℤ b *ℤ pos n
unfolding ◌*ℤ◌
mul_less (pos a) (pos b) n h k =
    let less : a * n < b * n = mul-lt-mul_of_pos_right (omega arith) k in ground (arith, less)
mul_less (pos a) (negsuc b) n h k = omega arith
mul_less (negsuc a) (pos b) n h k =
    let more : 1 * n ≤ suc a * n = mul-le-mul_right n (omega arith) in ground (arith, more)
mul_less (negsuc a) (negsuc b) n h k =
    let less : suc b * n < suc a * n = mul-lt-mul_of_pos_right (omega arith) k in
    ground (arith, less)

-- A loss is no gain.
loss_not_gain :
    (price entry : ℕ) (low high : ℤ)
    → 1 ≤ entry
    → low <ℤ high
    → IsAtMostRate price entry low
    → gains price entry high ≡ false
unfolding gains
loss_not_gain price entry low high positive less loss =
    ground (arith, mul_less low high entry less positive)

module _ (P : ExitSignal → Type 0) where
  abbrev pub OnSome : Option ExitSignal → Type 0
  OnSome none = Unit
  OnSome (some s) = P s

  pub on_first :
      (o : Option ExitSignal) (rest : ExitSignal) → OnSome o → P rest → P (first_of o rest)
  unfolding first_of
  on_first none rest h k = k
  on_first (some s) rest h k = h

  pub found_first :
      (o : Option ExitSignal) (s rest : ExitSignal) → o ≡ some s → P s → P (first_of o rest)
  unfolding first_of
  found_first none s rest h k = cc
  found_first (some x) s rest h k = let e : x ≡ s = some-injective _ _ h in rw e k

  pub on_when : (b : Bool) (s : ExitSignal) → P s → OnSome (when b s)
  unfolding when
  on_when false s p = tt
  on_when true s p = p

full_signal :
    (action : ExitAction) → action ≢ hold → (r : _) → IsFullExit (signal action (pos 10000) r)
unfolding signal
full_signal action differs r = (refl, differs)

-- What holds of every configured trigger holds of the one that is found.
module _ (P : Trigger → Type 0) where
  abbrev pub OnFound : Option NamedTrigger → Type 0
  OnFound none = Unit
  OnFound (some found) = P found.trigger

  on_named :
      (name : String) (d : Dict Trigger) (o : Option Trigger)
      → lookup name d ≡ o
      → All (λ t. P t.1) d
      → OnFound (named name o)
  unfolding named
  on_named name d none h holds = tt
  on_named name d (some t) h holds = All-lookup (λ e. P e.1) name t d holds h

  on_aggr_mode :
      (d : Dict Trigger) (o : Option String)
      → All (λ t. P t.1) d
      → OnFound (elim o [ none ↦ none | some aggr_mode ↦ named aggr_mode (lookup aggr_mode d) ])
  on_aggr_mode d none holds = tt
  on_aggr_mode d (some name) holds = on_named name d (lookup name d) refl holds

  pub on_find_trigger :
      (mode : String) (cfg : Config)
      → All (λ t. P t.1) (triggers_of cfg)
      → OnFound (find_trigger mode cfg)
  unfolding find_trigger
  on_find_trigger mode cfg holds =
      let found = on_aggr_mode (triggers_of cfg) (mode_to_aggr mode) holds in ground arith

-- No trigger is reached by a price at a loss.
check_found-none :
    (current entry : ℕ) (elapsed low : ℤ) (o : Option NamedTrigger)
    → OnFound (λ t. low <ℤ min_chg_of t) o
    → 1 ≤ entry
    → IsAtMostRate current entry low
    → check_found current entry elapsed o ≡ ok none
unfolding check_found
check_found-none current entry elapsed low none above positive loss = refl
check_found-none current entry elapsed low (some found) above positive loss =
    ground (arith, loss_not_gain current entry low (min_chg_of found.trigger) positive above loss)

aggressive_rule-none :
    (s : PositionState) (cfg : Config) (low : ℤ)
    → All (λ t. low <ℤ min_chg_of t.1) (triggers_of cfg)
    → 1 ≤ s.entry_price
    → IsAtMostRate s.current_price s.entry_price low
    → aggressive_rule s cfg ≡ ok none
unfolding aggressive_rule check_aggressive_trigger partial_signal
aggressive_rule-none s cfg low above positive loss =
    let shut =
      check_found-none s.current_price s.entry_price s.elapsed_sec low (find_trigger s.mode cfg)
        (on_find_trigger (λ t. low <ℤ min_chg_of t) s.mode cfg above) positive loss in
    ground (arith, shut)

full_trail :
    (current peak : ℕ) (o : Option Trigger) → OnSome IsFullExit (trail_signal current peak o)
unfolding trail_signal
full_trail current peak none = tt
full_trail current peak (some t) =
    on_when IsFullExit _ _ (full_signal ExitAction.trail_stop (λ e. cc) _)

pub full_trail_rule : (s : PositionState) (cfg : Config) → OnSome IsFullExit (trail_rule s cfg)
unfolding trail_rule
full_trail_rule s cfg =
    let full = full_trail s.current_price s.peak_price (lookup s.mode (triggers_of cfg)) in
    ground arith

pub full_chain_rule : (s : PositionState) (c : ChainReaction) → OnSome IsFullExit (chain_rule s c)
unfolding chain_rule
full_chain_rule s c =
    let panic = full_signal ExitAction.close_full (λ e. cc) Reason.leaders_panic in
    let tight =
      on_when IsFullExit (loses s.current_price s.entry_price (get_or c.panic_sl_pct (negsuc 199)))
        (signal ExitAction.close_full (pos 10000) Reason.tight_sl)
        (full_signal ExitAction.close_full (λ e. cc) Reason.tight_sl) in
    ground arith

-- Once the price has lost the hard stop loss, the rules sell everything.
rules-IsFullExit :
    (s : PositionState) (cfg : Config)
    → IsAtMostRate s.current_price s.entry_price (sl_of (exits_of cfg))
    → IsFullExit (rules s cfg)
unfolding rules sl_rule loses when
rules-IsFullExit s cfg loss = on_first IsFullExit _ _ (full_trail_rule s cfg) (
    on_first IsFullExit _ _
      (full_chain_rule s (get_or (exits_of cfg).chain_reaction no_chain_reaction))
      (found_first IsFullExit _ (signal ExitAction.close_full (pos 10000) Reason.hard_sl) _
        (ground (arith, loss)) (full_signal ExitAction.close_full (λ e. cc) Reason.hard_sl)))

-- The hard stop loss comes first: where the entry price is above 0, the price has lost at least the
-- configured rate, and every configured trigger of an aggressive mode asks for a higher return than
-- that, a decision is made and sells the whole remainder, in every mode and whatever else is
-- configured.
pub evaluate_exit-stops_loss :
    (s : PositionState) (cfg : Config)
    → All (λ t. sl_of (exits_of cfg) <ℤ min_chg_of t.1) (triggers_of cfg)
    → 1 ≤ s.entry_price
    → IsAtMostRate s.current_price s.entry_price (sl_of (exits_of cfg))
    → (x : ExitSignal) × (evaluate_exit s cfg ≡ ok x) × (x.qty_pct ≡ pos 10000) × (x.action ≢ hold)
unfolding evaluate_exit first_of aggressive_rule
evaluate_exit-stops_loss s cfg above positive loss =
    let shut = aggressive_rule-none s cfg (sl_of (exits_of cfg)) above positive loss in
    let full = rules-IsFullExit s cfg loss in (rules s cfg, ground (arith, shut), full.0, full.1)
