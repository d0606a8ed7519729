-- ===== src/Exits/Shares.antt =====
-- strategy/exits.py: every signal sells a share of the remainder.
use engine_bot.Shared.{
  not, ◌&&◌, ℕ, ◌≤◌, ◌≡◌, refl, inl, inr, Bool, Option, none, some, List, [], ◌∷◌, All, arith,
  Bool-cases,
}
use engine_bot.Shared.Int.{ltb_ℤ, ℤ, pos, ◌≤ℤ◌, of_eq}
use engine_bot.Shared.Options.{get_or}
use engine_bot.Shared.Results.{ok}
use engine_bot.Exits.Config.{
  ExitAction, ExitSignal, PositionState, PartialTarget, Exits, no_chain_reaction, Config, exits_of,
  triggers_of, min_chg_of, is_aggr,
}
use engine_bot.Exits.Evaluate.{
  gains, signal, when, partial_signal, aggressive_rule, NamedTrigger, AggressiveTrigger,
  check_found, check_aggressive_trigger, find_trigger, first_target, target_rule, sl_rule, tp_rule,
  trailing_rule, time_rule, first_of, rules, evaluate_exit,
}
use engine_bot.Exits.Decisions.{
  OnSome, IsFullExit, full_trail_rule, full_chain_rule, on_first, on_when, OnFound, on_find_trigger,
}

abbrev pub IsShare : ℤ → Type 0
IsShare q = (pos 0 ≤ℤ q) × (q ≤ℤ pos 10000)

-- The configured parts are shares of the remainder.
abbrev pub HasShares : Config → Type 0
HasShares cfg =
    All (λ t. IsShare (get_or t.1.partial (pos 4000))) (triggers_of cfg)
    × All (λ p. IsShare (get_or p.exit_pct (pos 0))) (get_or (exits_of cfg).partial_tp [])

abbrev pub SellsShare : ExitSignal → Type 0
SellsShare s = IsShare s.qty_pct

full-SellsShare : (o : Option ExitSignal) → OnSome IsFullExit o → OnSome SellsShare o
full-SellsShare none h = tt
full-SellsShare (some s) h = let e = h.0 in ground (arith, of_eq e)

whole-SellsShare :
    (b : Bool) (a : ExitAction) (r : _) → OnSome SellsShare (when b (signal a (pos 10000) r))
unfolding signal
whole-SellsShare b a r = on_when SellsShare b (signal a (pos 10000) r) (omega arith, omega arith)

target-SellsShare :
    (current entry : ℕ) (ps : List PartialTarget)
    → All (λ p. IsShare (get_or p.exit_pct (pos 0))) ps
    → OnSome SellsShare (first_target current entry ps)
unfolding first_target signal
target-SellsShare current entry [] h = tt
target-SellsShare current entry (p ∷ ps) h =
    let rest = target-SellsShare current entry ps h.1 in ground arith

target_rule-SellsShare :
    (s : PositionState) (e : Exits)
    → All (λ p. IsShare (get_or p.exit_pct (pos 0))) (get_or e.partial_tp [])
    → OnSome SellsShare (target_rule s e)
unfolding target_rule
target_rule-SellsShare s e h =
    let rest = target-SellsShare s.current_price s.entry_price (get_or e.partial_tp []) h in
    ground arith

rules-SellsShare : (s : PositionState) (cfg : Config) → HasShares cfg → SellsShare (rules s cfg)
unfolding rules sl_rule tp_rule trailing_rule time_rule signal
rules-SellsShare s cfg h =
    let e = exits_of cfg in
    let P = SellsShare in
    on_first P _ _ (full-SellsShare _ (full_trail_rule s cfg)) (
      on_first P _ _
        (full-SellsShare _ (full_chain_rule s (get_or e.chain_reaction no_chain_reaction)))
        (on_first P _ _ (whole-SellsShare _ _ _) (
          on_first P _ _ (whole-SellsShare _ _ _) (
            on_first P _ _ (target_rule-SellsShare s e h.1) (
              on_first P _ _ (whole-SellsShare _ _ _)
                (on_first P _ _ (whole-SellsShare _ _ _) (omega arith, omega arith)))))))

-- A trigger that is found gives a share, and raises nothing where the entry price is above 0.
found-SellsShare :
    (current entry : ℕ) (elapsed : ℤ) (o : Option NamedTrigger)
    → 1 ≤ entry
    → OnFound (λ t. IsShare (get_or t.partial (pos 4000))) o
    → (t : Option AggressiveTrigger) × (check_found current entry elapsed o ≡ ok t)
      × OnSome SellsShare (partial_signal t)
unfolding check_found partial_signal
found-SellsShare current entry elapsed none positive h = (none, refl, tt)
found-SellsShare current entry elapsed (some found) positive h =
    let whole : AggressiveTrigger = record {
      new_mode = found.name;
      partial_pct = get_or found.trigger.partial (pos 4000);
      trail_pct = get_or found.trigger.trail (pos 1200);
    } in
    elim (Bool-cases (ltb_ℤ (get_or found.trigger.dt_max (pos 15)) elapsed)) [
      | inl late ↦ (none, rw late, tt)
      | inr soon ↦ elim (Bool-cases (gains current entry (min_chg_of found.trigger))) [
        | inl high ↦ (some whole, ground (arith, soon, high, positive), h)
        | inr low ↦ (none, ground (arith, soon, low, positive), tt)
      ]
    ]

aggressive-SellsShare :
    (s : PositionState) (cfg : Config)
    → 1 ≤ s.entry_price
    → HasShares cfg
    → (o : Option ExitSignal) × (aggressive_rule s cfg ≡ ok o) × OnSome SellsShare o
unfolding aggressive_rule check_aggressive_trigger
aggressive-SellsShare s cfg positive h =
    let (t, found, share) =
      found-SellsShare s.current_price s.entry_price s.elapsed_sec (find_trigger s.mode cfg)
        positive (on_find_trigger (λ t. IsShare (get_or t.partial (pos 4000))) s.mode cfg h.0) in
    elim (Bool-cases (not (is_aggr s.mode) && not s.is_partial_taken)) [
      | inl base ↦ (partial_signal t, ground (arith, base, found), share)
      | inr other ↦ (none, rw other, tt)
    ]

-- An exit is decided, for a share of what remains.
pub evaluate_exit-SellsShare :
    (s : PositionState) (cfg : Config)
    → 1 ≤ s.entry_price
    → HasShares cfg
    → (x : ExitSignal) × (evaluate_exit s cfg ≡ ok x) × SellsShare x
unfolding evaluate_exit
evaluate_exit-SellsShare s cfg positive h =
    let (o, decided, share) = aggressive-SellsShare s cfg positive h in
    (
      first_of o (rules s cfg),
      ground (arith, decided),
      on_first SellsShare o (rules s cfg) share (rules-SellsShare s cfg h),
    )
