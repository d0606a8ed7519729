-- ===== src/AggrSwitch/Decisions.antt =====
-- strategy/aggr_logic.py: when a position is switched.
use engine_bot.Shared.{
  ◌≡◌, ◌↔◌, refl, inl, inr, String, Bool, true, false, Option, none, some, arith, Bool-cases,
}
use mathlib.Core.Option.{some-injective}
use engine_bot.Shared.Int.{ℤ, pos, negsuc, ◌*ℤ◌, ◌≤ℤ◌, ◌<ℤ◌, ltb_ℤ, is_zero}
use engine_bot.Shared.Dict.{lookup}
use engine_bot.Shared.Text.{upper}
use engine_bot.Shared.Results.{Result, ok, err}
use engine_bot.AggrSwitch.Logic.{
  PositionSnapshot, WalletProfile, TokenSnapshot, PortfolioState, Trigger, AggressiveSwitchParams,
  Reason, aggr_triggered, SwitchError, reaches_share, within_day, passes_aggressive_safety,
  new_mode, check_impulse, check_speed, check_trigger, after_safety, maybe_switch_to_aggressive,
}

-- The safety of the wallet, the token and the portfolio.
abbrev pub IsSafe : WalletProfile → TokenSnapshot → PortfolioState → AggressiveSwitchParams → Type 0
IsSafe wallet token portfolio params =
    (params.min_wallet_roi_for_aggr ≤ℤ wallet.roi_mean)
    × (params.min_wallet_winrate_for_aggr ≤ℤ wallet.winrate)
    × (params.min_token_liquidity_usd ≤ℤ token.liquidity_usd)
    × (token.spread_bps ≤ℤ params.max_spread_bps)
    × (pos 0 <ℤ params.max_aggr_exposure_pct
        → portfolio.aggr_exposure_usd *ℤ pos 10000
          <ℤ params.max_aggr_exposure_pct *ℤ portfolio.total_value_usd)
    × (portfolio.daily_aggr_count <ℤ params.max_daily_aggr_trades)

-- The move since the entry is quick and large enough for the trigger of the position's mode.
abbrev pub IsImpulse : PositionSnapshot → Trigger → Type 0
IsImpulse position t =
    ((dt : ℤ) × (t.dt_sec_max ≡ some dt) × (position.entry_time_sec ≤ℤ dt))
    × ((chg : ℤ) × (t.min_chg_pct ≡ some chg) × (chg ≤ℤ position.current_roi))

nonzero : (x : ℤ) → pos 0 <ℤ x → is_zero x ≡ false
nonzero (pos n) h = ground arith
nonzero (negsuc n) h = refl

IsSafe-iff :
    (wallet : WalletProfile) (token : TokenSnapshot) (portfolio : PortfolioState)
    (params : AggressiveSwitchParams)
    → pos 0 <ℤ portfolio.total_value_usd
    → (passes_aggressive_safety wallet token portfolio params ≡ ok (true, none))
      ↔ IsSafe wallet token portfolio params
unfolding passes_aggressive_safety reaches_share within_day
IsSafe-iff wallet token portfolio params worth =
    let some_value : is_zero portfolio.total_value_usd ≡ false = nonzero _ worth in
    (λ e. ground arith, λ h. ground arith)

-- The mode that the base mode of a position switches to.
abbrev pub SwitchesTo : PositionSnapshot → String → Type 0
SwitchesTo position mode = new_mode (upper position.base_mode) ≡ (some mode, some aggr_triggered)

ok-injective : {E A : Type 0} {a b : A} → ◌≡◌ {A = Result E A} (ok a) (ok b) → a ≡ b
ok-injective h = cc

impulse_iff :
    (position : PositionSnapshot) (o : Option ℤ) (mode : String)
    → (check_impulse position o ≡ ok (some mode, some aggr_triggered))
      ↔ (((chg : ℤ) × (o ≡ some chg) × (chg ≤ℤ position.current_roi)) × SwitchesTo position mode)
unfolding check_impulse
impulse_iff position none mode = (λ h. cc, λ h. let e = h.0.1 in cc)
impulse_iff position (some chg) mode = (
  λ h. elim (Bool-cases (ltb_ℤ position.current_roi chg)) [
    | inl low ↦ cc (rw low at h)
    | inr high ↦ ((chg, refl, ground (arith, high)), ok-injective (rw high at h))
  ],
  λ h.
      let e : chg ≡ h.0.0 = some-injective _ _ h.0.1 in
      let enough : chg ≤ℤ position.current_roi = rw e h.0.2 in
      let to = h.1 in ground (arith, enough, to),
)

speed_iff :
    (position : PositionSnapshot) (a b : Option ℤ) (mode : String)
    → (check_speed position a b ≡ ok (some mode, some aggr_triggered)) ↔ (
        ((dt : ℤ) × (a ≡ some dt) × (position.entry_time_sec ≤ℤ dt))
        × ((chg : ℤ) × (b ≡ some chg) × (chg ≤ℤ position.current_roi))
        × SwitchesTo position mode)
unfolding check_speed
speed_iff position none b mode = (λ h. cc, λ h. let e = h.0.1 in cc)
speed_iff position (some dt) b mode = (
  λ h. elim (Bool-cases (ltb_ℤ dt position.entry_time_sec)) [
    | inl late ↦ cc (rw late at h)
    | inr soon ↦
        let rest = (impulse_iff position b mode).0 (rw soon at h) in
        ((dt, refl, ground (arith, soon)), rest.0, rest.1)
  ],
  λ h.
      let e : dt ≡ h.0.0 = some-injective _ _ h.0.1 in
      let soon : position.entry_time_sec ≤ℤ dt = rw e h.0.2 in
      let rest = (impulse_iff position b mode).1 (h.1, h.2) in ground (arith, soon, rest),
)

-- A trigger is found, and the move is an impulse for it.
abbrev pub IsTriggered : PositionSnapshot → AggressiveSwitchParams → String → Type 0
IsTriggered position params mode =
    (t : Trigger) × (lookup (upper position.base_mode) params.triggers ≡ some t)
    × IsImpulse position t
    × SwitchesTo position mode

trigger_iff :
    (position : PositionSnapshot) (o : Option Trigger) (mode : String)
    → (check_trigger position o ≡ ok (some mode, some aggr_triggered))
      ↔ ((t : Trigger) × (o ≡ some t) × IsImpulse position t × SwitchesTo position mode)
unfolding check_trigger
trigger_iff position none mode = (λ h. cc, λ h. let e = h.1 in cc)
trigger_iff position (some t) mode = (
  λ h.
      let r = (speed_iff position t.dt_sec_max t.min_chg_pct mode).0 h in
      (t, refl, (r.0, r.1), r.2),
  λ h.
      let e : t ≡ h.0 = some-injective _ _ h.1 in
      (speed_iff position t.dt_sec_max t.min_chg_pct mode).1 (rw e (h.2.0, h.2.1, h.3)),
)

-- A switch needs that the safety test passes.
passes_of_switch :
    (position : PositionSnapshot) (params : AggressiveSwitchParams) (mode : String)
    (r : Result SwitchError (Bool × Option Reason))
    → elim r [ err e ↦ err e | ok passed ↦ after_safety position params passed ]
      ≡ ok (some mode, some aggr_triggered)
    → ((reason : Option Reason) × (r ≡ ok (true, reason)))
      × (check_trigger position (lookup (upper position.base_mode) params.triggers)
          ≡ ok (some mode, some aggr_triggered))
unfolding after_safety
passes_of_switch position params mode (err e) h = cc
passes_of_switch position params mode (ok (false, reason)) h = cc
passes_of_switch position params mode (ok (true, reason)) h = ((reason, refl), h)

passes_without_reason :
    (wallet : WalletProfile) (token : TokenSnapshot) (portfolio : PortfolioState)
    (params : AggressiveSwitchParams) (reason : Option Reason)
    → passes_aggressive_safety wallet token portfolio params ≡ ok (true, reason)
    → passes_aggressive_safety wallet token portfolio params ≡ ok (true, none)
unfolding passes_aggressive_safety within_day
passes_without_reason wallet token portfolio params reason h = ground arith

-- A position is switched to a mode exactly if the switch is safe and the move is an impulse: where
-- the portfolio is worth something, `maybe_switch_to_aggressive` gives a mode as triggered if and
-- only if the wallet, the token, the exposure and the trades of the day are within their limits,
-- a trigger is configured for the position's base mode, the position is no older and its return
-- no lower than the trigger says, and the mode is the one that the base mode switches to.
pub maybe_switch_to_aggressive-IsTriggered :
    (position : PositionSnapshot) (wallet : WalletProfile) (token : TokenSnapshot)
    (portfolio : PortfolioState) (params : AggressiveSwitchParams) (mode : String)
    → pos 0 <ℤ portfolio.total_value_usd
    → (maybe_switch_to_aggressive position wallet token portfolio params
        ≡ ok (some mode, some aggr_triggered))
      ↔ (IsSafe wallet token portfolio params × IsTriggered position params mode)
unfolding maybe_switch_to_aggressive after_safety
maybe_switch_to_aggressive-IsTriggered position wallet token portfolio params mode worth =
    let safe = IsSafe-iff wallet token portfolio params worth in
    let o = lookup (upper position.base_mode) params.triggers in
    (
      λ h.
          let (passed, triggered) = passes_of_switch position params mode _ h in
          (
            safe.0 (passes_without_reason wallet token portfolio params passed.0 passed.1),
            (trigger_iff position o mode).0 triggered,
          ),
      λ h.
          let passed = safe.1 h.0 in
          let triggered = (trigger_iff position o mode).1 h.1 in ground (arith, passed, triggered),
    )
