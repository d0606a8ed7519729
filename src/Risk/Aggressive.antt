-- ===== src/Risk/Aggressive.antt =====
-- strategy/risk_engine.py, the safety gates of the aggressive mode. Rates are counted in ten-
-- thousandths and amounts in a smallest unit; the thresholds are the configured ones or their
-- defaults, and the smallest ROI is divided by 100 already. A message stands as the check that
-- it names.
use engine_bot.Shared.{
  ◌≡◌, ◌↔◌, ◌⊎◌, refl, inl, inr, Bool, true, false, not, Option, none, some, arith, Bool-cases,
  if◌then◌else◌,
}
use engine_bot.Shared.Int.{ℤ, pos, ◌+ℤ◌, ◌-ℤ◌, ◌<ℤ◌, ltb_ℤ, leb_ℤ}
use engine_bot.Shared.Bounds.{IsAtLeast, IsAtMost, least_some, most_some, least_none, most_none}

pub record AggressiveSafetyContext : Type 0 where
  pub wallet_winrate_30d : Option ℤ
  pub wallet_roi_30d_pct : Option ℤ
  pub token_liquidity_usd : Option ℤ
  pub token_top10_holders_pct : Option ℤ
  pub daily_loss_pct : ℤ
  pub aggr_trades_today : ℤ
  pub aggr_open_positions : ℤ

pub record SafetyConfig : Type 0 where
  pub is_enabled : Bool
  pub max_daily_loss : ℤ
  pub max_aggr_trades : ℤ
  pub max_aggr_open : ℤ
  pub min_winrate : ℤ
  pub min_roi : ℤ
  pub min_liquidity : ℤ
  pub max_top10_holders : ℤ

unfoldable pub is_loss_hit : AggressiveSafetyContext → SafetyConfig → Bool
is_loss_hit ctx cfg = leb_ℤ ctx.daily_loss_pct (pos 0 -ℤ cfg.max_daily_loss)

-- The checks of the wallet and of the token: what is missing fails.
unfoldable pub passes_wallet : Option ℤ → Option ℤ → ℤ → ℤ → Bool
passes_wallet (some winrate) (some roi) min_winrate min_roi =
    if ltb_ℤ winrate min_winrate then false else if ltb_ℤ roi min_roi then false else true
passes_wallet (some winrate) none min_winrate min_roi = false
passes_wallet none roi min_winrate min_roi = false

unfoldable pub passes_token : Option ℤ → Option ℤ → ℤ → ℤ → Bool
passes_token (some liquidity) (some holders) min_liquidity max_holders =
    if ltb_ℤ liquidity min_liquidity
    then false
    else if ltb_ℤ max_holders holders
    then false
    else true
passes_token (some liquidity) none min_liquidity max_holders = false
passes_token none holders min_liquidity max_holders = false

unfoldable pub passes_safety_filters : AggressiveSafetyContext → SafetyConfig → Bool
passes_safety_filters ctx cfg =
    if is_loss_hit ctx cfg
    then false
    else if leb_ℤ cfg.max_aggr_trades ctx.aggr_trades_today
    then false
    else if leb_ℤ cfg.max_aggr_open ctx.aggr_open_positions
    then false
    else if passes_wallet ctx.wallet_winrate_30d ctx.wallet_roi_30d_pct cfg.min_winrate cfg.min_roi
    then passes_token ctx.token_liquidity_usd ctx.token_top10_holders_pct cfg.min_liquidity
        cfg.max_top10_holders
    else false

pub data Verdict : Type 0 where
  allowed : Verdict
  disabled : Verdict
  daily_loss : Verdict
  trades_today : Verdict
  open_positions : Verdict
  low_winrate : Verdict
  low_roi : Verdict
  low_liquidity : Verdict
  many_holders : Verdict
  unknown_reason : Verdict

-- `value is not None and value < least`, and `value is not None and value > most`
abbrev pub is_under : Option ℤ → ℤ → Bool
is_under none least = false
is_under (some value) least = ltb_ℤ value least

abbrev pub is_over : Option ℤ → ℤ → Bool
is_over none most = false
is_over (some value) most = ltb_ℤ most value

-- The checks that name the reason.
unfoldable pub failed_check : AggressiveSafetyContext → SafetyConfig → Verdict
failed_check ctx cfg =
    if is_loss_hit ctx cfg
    then daily_loss
    else if leb_ℤ cfg.max_aggr_trades ctx.aggr_trades_today
    then trades_today
    else if leb_ℤ cfg.max_aggr_open ctx.aggr_open_positions
    then open_positions
    else if is_under ctx.wallet_winrate_30d cfg.min_winrate
    then low_winrate
    else if is_under ctx.wallet_roi_30d_pct cfg.min_roi
    then low_roi
    else if is_under ctx.token_liquidity_usd cfg.min_liquidity
    then low_liquidity
    else if is_over ctx.token_top10_holders_pct cfg.max_top10_holders
    then many_holders
    else unknown_reason

unfoldable pub allow_aggressive_trade : AggressiveSafetyContext → SafetyConfig → Bool × Verdict
allow_aggressive_trade ctx cfg =
    if not cfg.is_enabled
    then (false, disabled)
    else if not (passes_safety_filters ctx cfg)
    then (false, failed_check ctx cfg)
    else (true, allowed)

-- What an aggressive trade needs.
abbrev pub IsSafe : AggressiveSafetyContext → SafetyConfig → Type 0
IsSafe ctx cfg =
    (cfg.is_enabled ≡ true)
    × (pos 0 <ℤ ctx.daily_loss_pct +ℤ cfg.max_daily_loss)
    × (ctx.aggr_trades_today <ℤ cfg.max_aggr_trades)
    × (ctx.aggr_open_positions <ℤ cfg.max_aggr_open)
    × IsAtLeast ctx.wallet_winrate_30d cfg.min_winrate
    × IsAtLeast ctx.wallet_roi_30d_pct cfg.min_roi
    × IsAtLeast ctx.token_liquidity_usd cfg.min_liquidity
    × IsAtMost ctx.token_top10_holders_pct cfg.max_top10_holders

wallet_safe :
    (winrate roi : Option ℤ) (min_winrate min_roi : ℤ)
    → (passes_wallet winrate roi min_winrate min_roi ≡ true)
      ↔ (IsAtLeast winrate min_winrate × IsAtLeast roi min_roi)
unfolding passes_wallet
wallet_safe none roi mw mr = (λ h. cc, λ h. least_none mw h.0)
wallet_safe (some w) none mw mr = (λ h. cc, λ h. least_none mr h.1)
wallet_safe (some w) (some r) mw mr = (
  λ h. ((w, refl, ground arith), (r, refl, ground arith)),
  λ h. ground (arith, least_some w mw h.0, least_some r mr h.1),
)

token_safe :
    (liquidity holders : Option ℤ) (min_liquidity max_holders : ℤ)
    → (passes_token liquidity holders min_liquidity max_holders ≡ true)
      ↔ (IsAtLeast liquidity min_liquidity × IsAtMost holders max_holders)
unfolding passes_token
token_safe none holders ml mh = (λ h. cc, λ h. least_none ml h.0)
token_safe (some l) none ml mh = (λ h. cc, λ h. most_none mh h.1)
token_safe (some l) (some t) ml mh = (
  λ h. ((l, refl, ground arith), (t, refl, ground arith)),
  λ h. ground (arith, least_some l ml h.0, most_some t mh h.1),
)

-- An aggressive trade is allowed exactly if the mode is enabled, the loss of the day is below
-- the limit, there is room for one more aggressive trade and one more aggressive position, and
-- the wallet's and the token's data are all known and on the right side of their thresholds.
pub allow_aggressive_trade-IsSafe :
    (ctx : AggressiveSafetyContext) (cfg : SafetyConfig)
    → ((allow_aggressive_trade ctx cfg).0 ≡ true) ↔ IsSafe ctx cfg
unfolding allow_aggressive_trade passes_safety_filters is_loss_hit ◌-ℤ◌ ◌+ℤ◌
allow_aggressive_trade-IsSafe ctx cfg =
    let wallet =
      wallet_safe ctx.wallet_winrate_30d ctx.wallet_roi_30d_pct cfg.min_winrate cfg.min_roi in
    let token =
      token_safe ctx.token_liquidity_usd ctx.token_top10_holders_pct cfg.min_liquidity
        cfg.max_top10_holders in
    (
      λ h.
          let w = wallet.0 (ground arith) in
          let t = token.0 (ground arith) in
          (ground arith, ground arith, ground arith, ground arith, w.0, w.1, t.0, t.1),
      λ h.
          let w = wallet.1 (h.4, h.5) in
          let t = token.1 (h.6, h.7) in ground (arith, w, t, h.0, h.1, h.2, h.3),
    )

wallet_incomplete :
    (winrate roi : Option ℤ) (min_winrate min_roi : ℤ)
    → passes_wallet winrate roi min_winrate min_roi ≡ false
    → is_under winrate min_winrate ≡ false
    → is_under roi min_roi ≡ false
    → (winrate ≡ none) ⊎ (roi ≡ none)
unfolding passes_wallet
wallet_incomplete none roi mw mr h a b = inl refl
wallet_incomplete (some w) none mw mr h a b = inr refl
wallet_incomplete (some w) (some r) mw mr h a b = ground arith

token_incomplete :
    (liquidity holders : Option ℤ) (min_liquidity max_holders : ℤ)
    → passes_token liquidity holders min_liquidity max_holders ≡ false
    → is_under liquidity min_liquidity ≡ false
    → is_over holders max_holders ≡ false
    → (liquidity ≡ none) ⊎ (holders ≡ none)
unfolding passes_token
token_incomplete none holders ml mh h a b = inl refl
token_incomplete (some l) none ml mh h a b = inr refl
token_incomplete (some l) (some t) ml mh h a b = ground arith

-- A trade is refused for an unknown reason only if the wallet's or the token's data are
-- incomplete.
pub allow_aggressive_trade-unknown :
    (ctx : AggressiveSafetyContext) (cfg : SafetyConfig)
    → (allow_aggressive_trade ctx cfg).1 ≡ unknown_reason
    → ((ctx.wallet_winrate_30d ≡ none) ⊎ (ctx.wallet_roi_30d_pct ≡ none))
      ⊎ ((ctx.token_liquidity_usd ≡ none) ⊎ (ctx.token_top10_holders_pct ≡ none))
unfolding allow_aggressive_trade passes_safety_filters failed_check
allow_aggressive_trade-unknown ctx cfg h =
    let wallet =
      wallet_incomplete ctx.wallet_winrate_30d ctx.wallet_roi_30d_pct cfg.min_winrate cfg.min_roi in
    let token =
      token_incomplete ctx.token_liquidity_usd ctx.token_top10_holders_pct cfg.min_liquidity
        cfg.max_top10_holders in
    elim (Bool-cases
      (passes_wallet ctx.wallet_winrate_30d ctx.wallet_roi_30d_pct cfg.min_winrate cfg.min_roi)) [
        | inl good ↦ inr (token (ground arith) (ground arith) (ground arith))
        | inr bad ↦ inl (wallet bad (ground arith) (ground arith))
      ]
