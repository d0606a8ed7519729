-- ===== src/Exits/Kept.antt =====
-- strategy/exits.py: when a position is held.
use engine_bot.Shared.{
  ℕ, ◌≡◌, ◌≢◌, refl, Bool, true, false, ◌&&◌, Option, none, some, List, [], ◌∷◌, All, arith, ap,
  ◌∙◌,
}
use engine_bot.Shared.Int.{ℤ, pos, ◌*ℤ◌, ◌<ℤ◌, leb_ℤ_false}
use engine_bot.Shared.Options.{get_or}
use engine_bot.Shared.Results.{Result, ok, err, ◌>>=◌}
use engine_bot.Exits.Config.{
  ExitAction, hold, ExitSignal, PositionState, PartialTarget, Exits, no_chain_reaction, Config,
  exits_of, sl_of, tp_of, max_hold_of, activation_of, delta_of,
}
use engine_bot.Exits.Evaluate.{
  gains, loses, calculate_trailing_stop, is_stopped, signal, when, partial_signal, aggressive_rule,
  first_target, target_rule, sl_rule, tp_rule, trailing_rule, time_rule, first_of, rules,
  evaluate_exit, ExitError, AggressiveTrigger, check_aggressive_trigger,
}
use engine_bot.Exits.Decisions.{
  IsUnderRate, IsOverRate, OnSome, IsFullExit, full_trail_rule, full_chain_rule,
}

-- A rule never says to hold.
abbrev IsExit : Option ExitSignal → Type 0
IsExit none = Unit
IsExit (some s) = s.action ≢ hold

-- The rules that would end a position all stay silent.
abbrev pub IsKept : PositionState → Exits → Type 0
IsKept s e =
    IsOverRate s.current_price s.entry_price (sl_of e)
    × IsUnderRate s.current_price s.entry_price (tp_of e)
    × (pos 1000 <ℤ s.remaining_pct
        → All (λ p. IsUnderRate s.current_price s.entry_price (get_or p.trigger_pct (pos 0)))
            (get_or e.partial_tp []))
    × (gains s.peak_price s.entry_price (activation_of e) ≡ true
        → calculate_trailing_stop s.peak_price (delta_of e) <ℤ pos s.current_price *ℤ pos 10000)
    × (s.elapsed_sec <ℤ max_hold_of e)

-- Either the rule is silent, or its signal, which is no hold, is the outcome.
silent :
    (o : Option ExitSignal) (rest : ExitSignal)
    → IsExit o
    → (first_of o rest).action ≡ hold
    → (o ≡ none) × (rest.action ≡ hold)
unfolding first_of
silent none rest h k = (refl, k)
silent (some s) rest h k = elim (h k) [ ]

when-IsExit :
    (b : Bool) (a : ExitAction) (q : ℤ) (r : _) → a ≢ hold → IsExit (when b (signal a q r))
unfolding when signal
when-IsExit false a q r h = tt
when-IsExit true a q r h = h

when-silent : (b : Bool) (s : ExitSignal) → when b s ≡ none → b ≡ false
unfolding when
when-silent false s h = refl
when-silent true s h = cc

no_target :
    (current entry : ℕ) (ps : List PartialTarget)
    → first_target current entry ps ≡ none
    → All (λ p. IsUnderRate current entry (get_or p.trigger_pct (pos 0))) ps
unfolding first_target gains
no_target current entry [] h = tt
no_target current entry (p ∷ ps) h = (ground arith, no_target current entry ps (ground arith))

over_rate :
    (price entry : ℕ) (rate : ℤ) → loses price entry rate ≡ false → IsOverRate price entry rate
unfolding loses
over_rate price entry rate h = ground (arith, h)

under_rate :
    (price entry : ℕ) (rate : ℤ) → gains price entry rate ≡ false → IsUnderRate price entry rate
unfolding gains
under_rate price entry rate h = ground (arith, h)

above_stop :
    (current peak : ℕ) (trail : ℤ) (is_active : Bool)
    → is_active ≡ true
    → is_active && is_stopped current peak trail ≡ false
    → calculate_trailing_stop peak trail <ℤ pos current *ℤ pos 10000
unfolding is_stopped
above_stop current peak trail is_active active h = ground (arith, active, h)

target-IsExit :
    (current entry : ℕ) (ps : List PartialTarget) → IsExit (first_target current entry ps)
unfolding first_target signal
target-IsExit current entry [] = tt
target-IsExit current entry (p ∷ ps) =
    let rest = target-IsExit current entry ps in
    let differs : ExitAction.partial_tp ≢ hold = λ e. cc in ground arith

target_rule-IsExit : (s : PositionState) (e : Exits) → IsExit (target_rule s e)
unfolding target_rule
target_rule-IsExit s e =
    let rest = target-IsExit s.current_price s.entry_price (get_or e.partial_tp []) in ground arith

full-IsExit : (o : Option ExitSignal) → OnSome IsFullExit o → IsExit o
full-IsExit none h = tt
full-IsExit (some s) h = h.1

closes : ExitAction.close_full ≢ hold
closes e = cc

rules-IsKept :
    (s : PositionState) (cfg : Config) → (rules s cfg).action ≡ hold → IsKept s (exits_of cfg)
unfolding rules sl_rule tp_rule trailing_rule time_rule target_rule
rules-IsKept s cfg h =
    let e = exits_of cfg in
    let (_, h1) = silent _ _ (full-IsExit _ (full_trail_rule s cfg)) h in
    let (_, h2) =
      silent _ _ (full-IsExit _ (full_chain_rule s (get_or e.chain_reaction no_chain_reaction)))
        h1 in
    let (sl, h3) = silent _ _ (when-IsExit _ _ _ _ closes) h2 in
    let (tp, h4) = silent _ _ (when-IsExit _ _ _ _ closes) h3 in
    let (target, h5) = silent _ _ (target_rule-IsExit s e) h4 in
    let (trail, h6) = silent _ _ (when-IsExit _ _ _ _ closes) h5 in
    let (time, _) = silent _ _ (when-IsExit _ _ _ _ (λ e. cc)) h6 in
    (
      over_rate s.current_price s.entry_price (sl_of e) (when-silent _ _ sl),
      under_rate s.current_price s.entry_price (tp_of e) (when-silent _ _ tp),
      λ left.
          no_target s.current_price s.entry_price (get_or e.partial_tp [])
            (ground (arith, left, target)),
      λ active.
          above_stop s.current_price s.peak_price (delta_of e) _ active (when-silent _ _ trail),
      leb_ℤ_false (max_hold_of e) s.elapsed_sec (when-silent _ _ time),
    )

-- The signal of the aggressive trigger is no hold either.
abbrev IsOkExit : Result ExitError (Option ExitSignal) → Type 0
IsOkExit (err e) = Unit
IsOkExit (ok o) = IsExit o

trigger-IsExit :
    (r : Result ExitError (Option AggressiveTrigger))
    → IsOkExit (r >>= (λ t. ok (partial_signal t)))
unfolding partial_signal
trigger-IsExit (err e) = tt
trigger-IsExit (ok none) = tt
trigger-IsExit (ok (some t)) = λ e. cc

aggressive-IsExit : (s : PositionState) (cfg : Config) → IsOkExit (aggressive_rule s cfg)
unfolding aggressive_rule
aggressive-IsExit s cfg =
    let exits =
      trigger-IsExit
        (check_aggressive_trigger s.current_price s.entry_price s.elapsed_sec s.mode cfg) in
    ground arith

bound_hold :
    (r : Result ExitError (Option ExitSignal)) (rest x : ExitSignal)
    → IsOkExit r
    → (r >>= (λ first. ok (first_of first rest))) ≡ ok x
    → x.action ≡ hold
    → rest.action ≡ hold
bound_hold (err e) rest x exits h k = cc
bound_hold (ok o) rest x exits h k =
    let same : first_of o rest ≡ x = cc in (silent o rest exits (ap (λ s. s.action) same ∙ k)).1

-- A position that is held, in every mode: its return is strictly between the hard stop loss and
-- the hard take profit; none of the partial targets is reached, unless at most a tenth is left;
-- its price is above the trailing stop once its peak has activated it; and it is younger than
-- the longest holding time.
pub evaluate_exit-IsKept :
    (s : PositionState) (cfg : Config) (x : ExitSignal)
    → evaluate_exit s cfg ≡ ok x
    → x.action ≡ hold
    → IsKept s (exits_of cfg)
unfolding evaluate_exit
evaluate_exit-IsKept s cfg x h k =
    rules-IsKept s cfg (
      bound_hold (aggressive_rule s cfg) (rules s cfg) x (aggressive-IsExit s cfg) (ground arith) k)
