-- ===== src/Gates/Thresholds.antt =====
-- integration/gates.py: what a single gate that gives no reason has seen.
use engine_bot.Shared.{
  ◌≡◌, ◌≢◌, ◌⊎◌, refl, inl, inr, Bool, true, false, Option, none, some, List, [], ◌∷◌, ◌++◌, arith,
}
use engine_bot.Shared.Int.{ℤ, pos, ◌≤ℤ◌}
use engine_bot.Gates.Data.{
  Security, Simulation, Extra, TokenSnapshot, TradeFields, GateConfig, Reason,
}
use engine_bot.Gates.Checks.{
  at_least, at_most, at_most_if_known, is_over, first_known, is_set, as_list, is_empty,
}

-- The value that counts: the first one, or the second where there is no first one.
abbrev pub IsValue : Option ℤ → Option ℤ → ℤ → Type 0
IsValue value fallback v = (value ≡ some v) ⊎ ((value ≡ none) × (fallback ≡ some v))

-- The value is known and on the right side of the threshold, if one is configured.
abbrev pub Reaches : Option ℤ → Option ℤ → Option ℤ → Type 0
Reaches none value fallback = Unit
Reaches (some least) value fallback = (v : ℤ) × IsValue value fallback v × (least ≤ℤ v)

abbrev pub StaysBelow : Option ℤ → Option ℤ → Option ℤ → Type 0
StaysBelow none value fallback = Unit
StaysBelow (some most) value fallback = (v : ℤ) × IsValue value fallback v × (v ≤ℤ most)

-- The value, if it is known, is at most the limit, if one is configured.
abbrev pub IsAtMostIfKnown : Option ℤ → Option ℤ → Type 0
IsAtMostIfKnown most value = (m v : ℤ) → most ≡ some m → value ≡ some v → v ≤ℤ m

-- What the security data of a token show, if they are looked at.
abbrev pub IsClear : GateConfig → Security → Type 0
IsClear cfg sec =
    cfg.is_security_enabled ≡ true
    → (sec.is_honeypot ≢ some true)
      × (sec.freeze_authority ≢ some true)
      × (sec.mint_authority ≢ some true)
      × ((v : ℤ) → sec.top_holders_pct ≡ some v → v ≤ℤ pos 5000)

-- The simulation succeeded, with taxes that are at most the limit where they are known.
abbrev pub IsSimulated : GateConfig → Simulation → Type 0
IsSimulated cfg sim =
    (sim.is_success ≡ true)
    × ((v : ℤ) → sim.buy_tax_bps ≡ some v → v ≤ℤ cfg.max_tax_bps)
    × ((v : ℤ) → sim.sell_tax_bps ≡ some v → v ≤ℤ cfg.max_tax_bps)

-- No flag for a honeypot is set, where safety from honeypots is required.
abbrev pub IsUnflagged : GateConfig → Extra → Security → Type 0
IsUnflagged cfg x sec =
    cfg.require_honeypot_safe ≡ true
    → (x.honeypot ≢ some true)
      × (x.honeypot_detected ≢ some true)
      × (x.is_honeypot ≢ some true)
      × (sec.honeypot ≢ some true)
      × (sec.honeypot_detected ≢ some true)
      × (sec.is_honeypot ≢ some true)
      × (sec.scam ≢ some true)

-- What the gates have seen of a snapshot and a trade.
abbrev pub IsTradable : GateConfig → TradeFields → TokenSnapshot → Type 0
IsTradable cfg t s =
    Reaches cfg.min_liquidity_usd s.liquidity_usd t.liquidity_usd
    × Reaches cfg.min_volume_24h_usd s.volume_24h_usd t.volume_24h_usd
    × StaysBelow cfg.max_spread_bps s.spread_bps t.spread_bps
    × IsAtMostIfKnown cfg.max_top10_holders_pct s.top10_holders_pct
    × IsAtMostIfKnown cfg.max_single_holder_pct s.single_holder_pct

-- What they have seen of the data behind the snapshot, as far as these are there.
abbrev pub IsSafe : GateConfig → Extra → Type 0
IsSafe cfg x =
    ((sec : Security) → x.security ≡ some sec → IsClear cfg sec × IsUnflagged cfg x sec)
    × ((sim : Simulation) → x.simulation ≡ some sim → IsSimulated cfg sim)

abbrev pub IsTrusted : GateConfig → TradeFields → Type 0
IsTrusted cfg t =
    Reaches cfg.min_wallet_winrate_30d t.wallet_winrate_30d none
    × Reaches cfg.min_wallet_roi_30d_pct t.wallet_roi_30d_pct none
    × Reaches cfg.min_wallet_trades_30d t.wallet_trades_30d none

pub empty-append :
    (rs ss : List Reason) → is_empty (rs ++ ss) ≡ true → (rs ≡ []) × (is_empty ss ≡ true)
empty-append [] ss h = (refl, h)
empty-append (r ∷ rs) ss h = cc

pub is_empty_nil : (rs : List Reason) → is_empty rs ≡ true → rs ≡ []
is_empty_nil [] h = refl
is_empty_nil (r ∷ rs) h = cc

IsValue-first :
    (value fallback : Option ℤ) (v : ℤ)
    → first_known value fallback ≡ some v
    → IsValue value fallback v
IsValue-first none fallback v h = inr (refl, h)
IsValue-first (some w) fallback v h = inl h

pub at_least-nil :
    (least value fallback : Option ℤ) (missing low : Reason)
    → at_least least (first_known value fallback) missing low ≡ []
    → Reaches least value fallback
at_least-nil none value fallback missing low h = tt
at_least-nil (some least) none none missing low h = cc
at_least-nil (some least) none (some v) missing low h = (v, inr (refl, refl), ground arith)
at_least-nil (some least) (some v) fallback missing low h = (v, inl refl, ground arith)

pub wallet-nil :
    (least value : Option ℤ) (low : Reason)
    → at_least least value low low ≡ []
    → Reaches least value none
wallet-nil none value low h = tt
wallet-nil (some least) none low h = cc
wallet-nil (some least) (some v) low h = (v, inl refl, ground arith)

pub at_most-nil :
    (most value fallback : Option ℤ) (missing high : Reason)
    → at_most most (first_known value fallback) missing high ≡ []
    → StaysBelow most value fallback
at_most-nil none value fallback missing high h = tt
at_most-nil (some most) none none missing high h = cc
at_most-nil (some most) none (some v) missing high h = (v, inr (refl, refl), ground arith)
at_most-nil (some most) (some v) fallback missing high h = (v, inl refl, ground arith)

pub if_known-nil :
    (most value : Option ℤ) (high : Reason)
    → at_most_if_known most value high ≡ []
    → IsAtMostIfKnown most value
if_known-nil most value high h m v is known = ground (arith, h, is, known)

pub as_list-nil : (o : Option Reason) → as_list o ≡ [] → o ≡ none
as_list-nil none h = refl
as_list-nil (some r) h = cc

pub unset : (flag : Option Bool) → is_set flag ≡ false → flag ≢ some true
unset flag h is = ground (arith, h, is)

pub not_over : (o : Option ℤ) (most : ℤ) → is_over o most ≡ false → (v : ℤ) → o ≡ some v → v ≤ℤ most
not_over o most h v is = ground (arith, h, is)
