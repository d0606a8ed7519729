-- ===== src/Reload/Ranges.antt =====
-- config/hot_reload.py: what a file that is read promises.
use engine_bot.Shared.{
  ◌≡◌, refl, Bool, true, false, ◌&&◌, Option, none, some, arith, Bool-cases, inl, inr,
}
use engine_bot.Shared.Int.{ℤ, pos, ◌≤ℤ◌, ◌<ℤ◌, leb_ℤ→le}
use mathlib.Core.Bool.{and-eq-true_iff}
use engine_bot.Reload.Schema.{
  RuntimeConfig, RawConfig, is_valid, flatten, checked, read_and_validate, Risk, Sizing,
  has_signal_ranges, has_risk_ranges, in_range,
}

-- `low <= v <= high`
abbrev pub IsBetween : ℤ → ℤ → ℤ → Type 0
IsBetween low high v = (low ≤ℤ v) × (v ≤ℤ high)

-- A configuration that a file gives: the thresholds, sizes and limits are within their ranges, and
-- neither the retries of partial fills nor dynamic trailing are enabled.
abbrev pub IsLoaded : RuntimeConfig → Type 0
IsLoaded c =
    IsBetween (pos 0) (pos 10000) c.edge_threshold_base
    × IsBetween (pos 0) (pos 10000) c.edge_threshold_riskon
    × IsBetween (pos 0) (pos 10000) c.edge_threshold_riskoff
    × IsBetween (pos 50) (pos 500) c.position_pct
    × IsBetween (pos 1) (pos 10) c.max_open_positions
    × IsBetween (pos 100) (pos 5000) c.max_token_exposure
    × IsBetween (pos 100) (pos 2000) c.max_daily_loss
    × IsBetween (pos 1000) (pos 10000) c.kelly_fraction
    × (pos 0 ≤ℤ c.cooldown_after_losses_sec)
    × IsBetween (pos 5000) (pos 9500) c.coordination_threshold
    × IsBetween (pos 1000) (pos 7000) c.hazard_threshold
    × (c.partial_retry_enabled ≡ false)
    × (c.dynamic_trailing_enabled ≡ false)

abbrev pub OnLoaded : Option RuntimeConfig → Type 0
OnLoaded none = Unit
OnLoaded (some c) = IsLoaded c

in_range-IsBetween : (low high v : ℤ) → in_range low high v ≡ true → IsBetween low high v
unfolding in_range
in_range-IsBetween low high v h = (ground (arith, h), ground (arith, h))

-- A conjunction of ranges, taken apart.
both : {a b : Bool} → a && b ≡ true → (a ≡ true) × (b ≡ true)
both h = (and-eq-true_iff _ _).0 h

signals-IsBetween :
    (c : RuntimeConfig)
    → has_signal_ranges c ≡ true
    → IsBetween (pos 0) (pos 10000) c.edge_threshold_base
      × IsBetween (pos 0) (pos 10000) c.edge_threshold_riskon
      × IsBetween (pos 0) (pos 10000) c.edge_threshold_riskoff
unfolding has_signal_ranges
signals-IsBetween c h =
    let (base, h1) = both h in
    let (riskon, riskoff) = both h1 in
    (
      in_range-IsBetween _ _ _ base,
      in_range-IsBetween _ _ _ riskon,
      in_range-IsBetween _ _ _ riskoff,
    )

risks-IsBetween :
    (c : RuntimeConfig)
    → has_risk_ranges c ≡ true
    → IsBetween (pos 50) (pos 500) c.position_pct
      × IsBetween (pos 1) (pos 10) c.max_open_positions
      × IsBetween (pos 100) (pos 5000) c.max_token_exposure
      × IsBetween (pos 100) (pos 2000) c.max_daily_loss
      × IsBetween (pos 1000) (pos 10000) c.kelly_fraction
      × (pos 0 ≤ℤ c.cooldown_after_losses_sec)
unfolding has_risk_ranges
risks-IsBetween c h =
    let (size, h1) = both h in
    let (room, h2) = both h1 in
    let (token, h3) = both h2 in
    let (loss, h4) = both h3 in
    let (kelly, cooldown) = both h4 in
    (
      in_range-IsBetween _ _ _ size,
      in_range-IsBetween _ _ _ room,
      in_range-IsBetween _ _ _ token,
      in_range-IsBetween _ _ _ loss,
      in_range-IsBetween _ _ _ kelly,
      leb_ℤ→le (pos 0) c.cooldown_after_losses_sec cooldown,
    )

flatten-IsLoaded : (raw : RawConfig) → is_valid (flatten raw) ≡ true → IsLoaded (flatten raw)
unfolding is_valid flatten
flatten-IsLoaded raw h =
    let (signals, h1) = both h in
    let (risks, h2) = both h1 in
    let (_, h3) = both h2 in
    let (_, h4) = both h3 in
    let (coordination, hazard) = both h4 in
    let (base, riskon, riskoff) = signals-IsBetween (flatten raw) signals in
    let (size, room, token, loss, kelly, cooldown) = risks-IsBetween (flatten raw) risks in
    (
      base,
      riskon,
      riskoff,
      size,
      room,
      token,
      loss,
      kelly,
      cooldown,
      in_range-IsBetween _ _ _ coordination,
      in_range-IsBetween _ _ _ hazard,
      refl,
      refl,
    )

pub read-OnLoaded : (o : Option RawConfig) → OnLoaded (read_and_validate o)
unfolding read_and_validate checked
read-OnLoaded none = tt
read-OnLoaded (some raw) = elim (Bool-cases (is_valid (flatten raw))) [
  | inl good ↦ rw good (flatten-IsLoaded raw good)
  | inr bad ↦ rw bad tt
]

-- A size in percent never loads: a file that gives the size of a position as more than 0.05 of the
-- bankroll in `risk.sizing`, and not in `risk`, is refused, whatever else it says.
pub percent_sizes_never_load :
    (raw : RawConfig) (risk : Risk) (sizing : Sizing) (size : ℤ)
    → raw.risk ≡ some risk
    → risk.position_pct ≡ none
    → risk.sizing ≡ some sizing
    → sizing.fixed_pct_of_bankroll ≡ some size
    → pos 500 <ℤ size
    → read_and_validate (some raw) ≡ none
unfolding read_and_validate checked is_valid has_risk_ranges in_range flatten
percent_sizes_never_load raw risk sizing size has_risk no_position has_sizing has_size big =
    ground (arith, has_risk, no_position, has_sizing, has_size, big)
