-- ===== src/Risk/Checks.antt =====
-- strategy/risk_engine.py: what the limits promise.
use engine_bot.Shared.{
  ◌*◌, ◌≤◌, ◌≡◌, ◌≢◌, refl, inl, inr, String, Bool, true, false, ◌&&◌, Option, none, some, arith,
  Bool-cases, String-cases,
}
use engine_bot.Shared.Int.{ℤ, pos, negsuc, ◌+ℤ◌, ◌-ℤ◌, ◌*ℤ◌, ◌≤ℤ◌, ◌<ℤ◌, ltb_ℤ, max_ℤ}
use engine_bot.Shared.Dict.{lookup}
use native.Mathlib.Nat.{mul-le-mul_right}
use engine_bot.Risk.Limits.{
  PortfolioStub, Trade, ModeLimits, Limits, Reason, get_or_zero, reaches, refuse_if,
  check_tier_limits, mode_of, check_mode_limits, check_exposure_limits, is_daily_loss_hit, or_else,
  apply_risk_limits,
}

-- What a limit leaves room for.
abbrev pub IsBelow : ℤ → Option ℤ → Type 0
IsBelow value none = Unit
IsBelow value (some limit) = value <ℤ limit

-- Room for one more position in the tier of the trade, or in the fallback limit.
abbrev pub HasTierRoom : Trade → PortfolioStub → Limits → Type 0
HasTierRoom t p l =
    ((t.wallet_tier ≡ none) × (l.is_fallback_skipped ≡ false)
      → IsBelow p.open_positions l.fallback_max_positions)
    × ((tier : String) (limit : Option ℤ)
        → t.wallet_tier ≡ some tier
        → lookup tier l.tier_max_open ≡ some limit
        → IsBelow (get_or_zero tier p.active_counts_by_tier) limit)

abbrev pub HasModeRoom : Trade → PortfolioStub → Limits → Type 0
HasModeRoom t p l =
    (config : ModeLimits)
    → lookup (mode_of t) l.modes ≡ some config
    → IsBelow (get_or_zero (mode_of t) p.active_counts_by_mode) config.max_open
      × IsBelow (get_or_zero (mode_of t) p.exposure_by_mode +ℤ t.size_usd) config.max_exposure_usd

unreached_limit : (value : ℤ) (limit : Option ℤ) → reaches value limit ≡ false → IsBelow value limit
unfolding reaches
unreached_limit value none h = tt
unreached_limit value (some limit) h = ground arith

refuse_none : (hit : Bool) (reason : Reason) → refuse_if hit reason ≡ none → hit ≡ false
unfolding refuse_if
refuse_none hit reason h = ground arith

or_else-none : (a b : Option Reason) → or_else a b ≡ none → (a ≡ none) × (b ≡ none)
unfolding or_else
or_else-none none b h = (refl, h)
or_else-none (some r) b h = cc

-- The six checks of an allowed trade.
all_pass :
    (t : Trade) (p : PortfolioStub) (l : Limits)
    → apply_risk_limits t p l ≡ none
    → (l.is_cooldown_enabled && ltb_ℤ t.ts p.cooldown_until ≡ false)
      × (check_tier_limits t p l ≡ none)
      × (check_mode_limits t p l ≡ none)
      × (check_exposure_limits t p l ≡ none)
      × (is_daily_loss_hit p l ≡ false)
      × (reaches p.open_positions l.max_open_positions ≡ false)
unfolding apply_risk_limits
all_pass t p l h =
    let (a, h1) = or_else-none _ _ h in
    let (b, h2) = or_else-none _ _ h1 in
    let (c, h3) = or_else-none _ _ h2 in
    let (d, h4) = or_else-none _ _ h3 in
    let (e, f) = or_else-none _ _ h4 in
    (refuse_none _ _ a, b, c, d, refuse_none _ _ e, refuse_none _ _ f)

tier_room :
    (t : Trade) (p : PortfolioStub) (l : Limits)
    → check_tier_limits t p l ≡ none
    → HasTierRoom t p l
unfolding check_tier_limits
tier_room t p l h = (
  λ untiered.
      unreached_limit _ _ (refuse_none _ _ (rw (untiered.0, untiered.1, check_tier_limits) at h)),
  λ tier limit is found.
      unreached_limit _ _ (refuse_none _ _ (rw (found) at (rw (is, check_tier_limits) at h))),
)

exfalso_some : {A : Type 0} (r : Reason) → some r ≡ none → A
exfalso_some r h = cc

mode_room :
    (t : Trade) (p : PortfolioStub) (l : Limits)
    → check_mode_limits t p l ≡ none
    → HasModeRoom t p l
unfolding check_mode_limits
mode_room t p l h config found =
    let opened = rw (found, check_mode_limits) at h in
    elim (Bool-cases (reaches (get_or_zero (mode_of t) p.active_counts_by_mode) config.max_open)) [
      | inl full ↦ exfalso_some _ (rw full at opened)
      | inr room ↦
          (unreached_limit _ _ room, unreached_limit _ _ (refuse_none _ _ (rw room at opened)))
    ]

-- Below the exposure limit of the token, a percentage of the equity, if the trade names a token.
abbrev pub HasTokenRoom : Trade → PortfolioStub → Limits → Type 0
HasTokenRoom t p l =
    (pct : ℤ)
    → l.max_exposure_per_token ≡ some pct
    → t.mint ≢ ""
    → get_or_zero t.mint p.exposure_by_token *ℤ pos 10000 <ℤ max_ℤ p.equity_usd (pos 0) *ℤ pct

-- The loss of the day is less than the limit, a fraction of the peak equity.
abbrev pub HasDayRoom : PortfolioStub → Limits → Type 0
HasDayRoom p l =
    (limit : ℤ)
    → l.max_daily_loss ≡ some limit
    → pos 0 -ℤ limit *ℤ p.peak_equity_usd <ℤ p.day_pnl_usd *ℤ pos 10000

token_room :
    (t : Trade) (p : PortfolioStub) (l : Limits)
    → check_exposure_limits t p l ≡ none
    → HasTokenRoom t p l
unfolding check_exposure_limits
token_room t p l h pct is named = elim (String-cases t.mint "") [
  | inl unnamed ↦ absurd (named unnamed)
  | inr other ↦
      let room = refuse_none _ _ (rw other.1 at (rw (is, check_exposure_limits) at h)) in
      ground (arith, room)
]

day_room : (p : PortfolioStub) (l : Limits) → is_daily_loss_hit p l ≡ false → HasDayRoom p l
unfolding is_daily_loss_hit
day_room p l h limit is = let room = rw (is, is_daily_loss_hit) at h in ground (arith, room)

-- A trade that is allowed: its time is not within an enabled cooldown; the open positions are
-- below their limit; its tier, or the fallback, has room for one more position; the positions of
-- its mode, and the exposure of the mode with its size, are below the limits of the mode; the
-- exposure to its token, if it names one, is below the limit on a token; and the loss of the day
-- is less than the daily limit. A limit that is not configured asks for nothing.
pub apply_risk_limits-leaves_room :
    (t : Trade) (p : PortfolioStub) (l : Limits)
    → apply_risk_limits t p l ≡ none
    → (l.is_cooldown_enabled ≡ true → p.cooldown_until ≤ℤ t.ts)
      × IsBelow p.open_positions l.max_open_positions
      × HasTierRoom t p l
      × HasModeRoom t p l
      × HasTokenRoom t p l
      × HasDayRoom p l
apply_risk_limits-leaves_room t p l h =
    let (a, b, c, d, e, f) = all_pass t p l h in
    (
      λ enabled. ground (arith, a, enabled),
      unreached_limit _ _ f,
      tier_room t p l b,
      mode_room t p l c,
      token_room t p l d,
      day_room p l e,
    )

or_else_other : (a b : Option Reason) (r : Reason) → a ≢ some r → b ≢ some r → or_else a b ≢ some r
unfolding or_else
or_else_other none b r h k e = k e
or_else_other (some a) b r h k e = h e

refuse_other : (hit : Bool) (a b : Reason) → a ≢ b → refuse_if hit a ≢ some b
unfolding refuse_if
refuse_other hit a b differ h = ground arith

refuse_unhit : (hit : Bool) (a b : Reason) → hit ≡ false → refuse_if hit a ≢ some b
unfolding refuse_if
refuse_unhit hit a b miss h = ground arith

cooldown_differs : Reason.cooldown ≢ Reason.kill_switch
cooldown_differs e = cc

positions_differs : Reason.max_positions ≢ Reason.kill_switch
positions_differs e = cc

tier_reason :
    (t : Trade) (p : PortfolioStub) (l : Limits) → check_tier_limits t p l ≢ some Reason.kill_switch
unfolding check_tier_limits refuse_if
tier_reason t p l h = ground arith

mode_reason :
    (t : Trade) (p : PortfolioStub) (l : Limits) → check_mode_limits t p l ≢ some Reason.kill_switch
unfolding check_mode_limits refuse_if
mode_reason t p l h = ground arith

exposure_reason :
    (t : Trade) (p : PortfolioStub) (l : Limits)
    → check_exposure_limits t p l ≢ some Reason.kill_switch
unfolding check_exposure_limits refuse_if
exposure_reason t p l h = ground arith

mul_high : (a b : ℤ) → pos 10000 ≤ℤ a → pos 0 <ℤ b → pos 10000 *ℤ b ≤ℤ a *ℤ b
unfolding ◌*ℤ◌
mul_high (pos n) (pos k) h i =
    let more : 10000 * k ≤ n * k = mul-le-mul_right k (omega arith) in ground (arith, more)
mul_high (pos n) (negsuc k) h i = omega arith
mul_high (negsuc n) b h i = omega arith

not_hit :
    (p : PortfolioStub) (l : Limits) (limit : ℤ)
    → l.max_daily_loss ≡ some limit
    → pos 10000 ≤ℤ limit
    → pos 0 <ℤ p.peak_equity_usd
    → pos 0 <ℤ p.peak_equity_usd +ℤ p.day_pnl_usd
    → is_daily_loss_hit p l ≡ false
unfolding is_daily_loss_hit ◌*ℤ◌ ◌-ℤ◌ ◌+ℤ◌
not_hit p l limit is high positive small =
    let much = mul_high limit p.peak_equity_usd high positive in
    rw (is, is_daily_loss_hit) (ground (arith, much))

-- Where the daily loss limit is the fraction 1.0 or more, and the loss of the day is less than a
-- positive peak equity, no trade is refused for the daily loss.
daily_loss_never_refuses :
    (t : Trade) (p : PortfolioStub) (l : Limits) (limit : ℤ)
    → l.max_daily_loss ≡ some limit
    → pos 10000 ≤ℤ limit
    → pos 0 <ℤ p.peak_equity_usd
    → pos 0 <ℤ p.peak_equity_usd +ℤ p.day_pnl_usd
    → apply_risk_limits t p l ≢ some Reason.kill_switch
unfolding apply_risk_limits
daily_loss_never_refuses t p l limit is high positive small =
    or_else_other _ _ _ (refuse_other _ _ _ cooldown_differs) (
      or_else_other _ _ _ (tier_reason t p l) (
        or_else_other _ _ _ (mode_reason t p l) (
          or_else_other _ _ _ (exposure_reason t p l) (
            or_else_other _ _ _ (refuse_unhit _ _ _ (not_hit p l limit is high positive small))
              (refuse_other _ _ _ positions_differs)))))
