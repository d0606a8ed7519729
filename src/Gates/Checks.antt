-- ===== src/Gates/Checks.antt =====
-- integration/gates.py: the gates, and the checks of strategy/honeypot_filter.py that they call.
use engine_bot.Shared.{
  Bool, true, false, not, ◌&&◌, ◌||◌, Option, none, some, List, [], ◌∷◌, ◌++◌, if◌then◌else◌,
}
use engine_bot.Shared.Int.{ℤ, pos, ltb_ℤ}
use engine_bot.Gates.Data.{
  Security, Simulation, Extra, TokenSnapshot, TradeFields, GateConfig, Reason,
}

-- The reasons that one threshold adds: of a value that must be known and at least, or at most,
-- the threshold, and of one that is passed over if it is missing.
abbrev pub at_least : Option ℤ → Option ℤ → Reason → Reason → List Reason
at_least none value missing low = []
at_least (some least) none missing low = missing ∷ []
at_least (some least) (some v) missing low = if ltb_ℤ v least then low ∷ [] else []

abbrev pub at_most : Option ℤ → Option ℤ → Reason → Reason → List Reason
at_most none value missing high = []
at_most (some most) none missing high = missing ∷ []
at_most (some most) (some v) missing high = if ltb_ℤ most v then high ∷ [] else []

abbrev pub at_most_if_known : Option ℤ → Option ℤ → Reason → List Reason
at_most_if_known none value high = []
at_most_if_known (some most) none high = []
at_most_if_known (some most) (some v) high = if ltb_ℤ most v then high ∷ [] else []

-- The snapshot's value is preferred to the trade's.
abbrev pub first_known : Option ℤ → Option ℤ → Option ℤ
first_known none fallback = fallback
first_known (some v) fallback = some v

unfoldable pub token_gates : GateConfig → TradeFields → Option TokenSnapshot → List Reason
token_gates cfg t none = Reason.missing_snapshot ∷ []
token_gates cfg t (some s) =
    at_least cfg.min_liquidity_usd (first_known s.liquidity_usd t.liquidity_usd)
      Reason.missing_snapshot Reason.min_liquidity_fail
    ++ (at_least cfg.min_volume_24h_usd (first_known s.volume_24h_usd t.volume_24h_usd)
          Reason.missing_snapshot Reason.min_volume_24h_fail
        ++ (at_most cfg.max_spread_bps (first_known s.spread_bps t.spread_bps)
              Reason.missing_snapshot Reason.max_spread_fail
            ++ (at_most_if_known cfg.max_top10_holders_pct s.top10_holders_pct
                  Reason.top10_holders_fail
                ++ at_most_if_known cfg.max_single_holder_pct s.single_holder_pct
                    Reason.single_holder_fail)))

-- `flag is True`
abbrev pub is_set : Option Bool → Bool
is_set none = false
is_set (some b) = b

abbrev pub is_over : Option ℤ → ℤ → Bool
is_over none most = false
is_over (some v) most = ltb_ℤ most v

-- The data behind a snapshot, if all of it is there.
unfoldable pub extra_of : Option TokenSnapshot → Option Extra
extra_of none = none
extra_of (some s) = s.extra

unfoldable pub security_of : Option TokenSnapshot → Option Security
security_of snapshot = elim (extra_of snapshot) [ none ↦ none | some x ↦ x.security ]

unfoldable pub simulation_of : Option TokenSnapshot → Option Simulation
simulation_of snapshot = elim (extra_of snapshot) [ none ↦ none | some x ↦ x.simulation ]

-- `_extract_security_data`: the reason against the token, if any.
unfoldable pub extract_security_data : Option TokenSnapshot → Option Reason
extract_security_data snapshot = elim (security_of snapshot) [
  | none ↦ none
  | some sec ↦
      if is_set sec.is_honeypot
      then some Reason.honeypot_fail
      else if is_set sec.freeze_authority
      then some Reason.freeze_authority_fail
      else if is_set sec.mint_authority
      then some Reason.mint_authority_fail
      else if is_over sec.top_holders_pct (pos 5000)
      then some Reason.security_top_holders_fail
      else none
]

abbrev pub as_list : Option Reason → List Reason
as_list none = []
as_list (some r) = r ∷ []

unfoldable pub security_gate : GateConfig → Option TokenSnapshot → List Reason
security_gate cfg snapshot =
    if cfg.is_security_enabled then as_list (extract_security_data snapshot) else []

unfoldable pub check_simulation_security : GateConfig → Option TokenSnapshot → Option Reason
check_simulation_security cfg snapshot = elim (simulation_of snapshot) [
  | none ↦ none
  | some sim ↦
      if not sim.is_success
      then some Reason.simulation_failed
      else if is_over sim.buy_tax_bps cfg.max_tax_bps
      then some Reason.high_buy_tax
      else if is_over sim.sell_tax_bps cfg.max_tax_bps
      then some Reason.high_sell_tax
      else none
]

unfoldable pub simulation_gate : GateConfig → Option TokenSnapshot → List Reason
simulation_gate cfg snapshot = as_list (check_simulation_security cfg snapshot)

-- `token_profile.honeypot` of the configuration that `is_honeypot_safe` is given.
pub record HoneypotConfig : Type 0 where
  pub is_enabled : Bool
  pub allow_unknown : Bool
  pub reject_if_freeze_authority_present : Bool
  pub reject_if_mint_authority_present : Bool
  pub max_tax_pct : ℤ

-- A tax of the security data: no such key, a null, a number, or something else.
pub data Tax : Type 0 where
  absent : Tax
  null : Tax
  known : ℤ → Tax
  invalid : Tax

-- The security data that `is_honeypot_safe` finds.
pub record HoneypotData : Type 0 where
  pub allow_unknown : Option Bool
  pub is_honeypot : Option Bool
  pub freeze_authority : Option Bool
  pub mint_authority : Option Bool
  pub buy_tax_pct : Tax
  pub sell_tax_pct : Tax

abbrev pub is_known_flag : Option Bool → Bool
is_known_flag none = false
is_known_flag (some b) = true

-- `"..._tax_pct" in sec`, `..._tax is None`, and the test against the largest tax.
abbrev pub has_key : Tax → Bool
has_key absent = false
has_key null = true
has_key (known v) = true
has_key invalid = true

abbrev pub is_null : Tax → Bool
is_null absent = true
is_null null = true
is_null (known v) = false
is_null invalid = false

abbrev pub is_high : Tax → ℤ → Bool
is_high absent most = false
is_high null most = false
is_high (known v) most = ltb_ℤ most v
is_high invalid most = false

-- The checks on data that are there.
unfoldable pub is_data_safe : HoneypotConfig → HoneypotData → Bool
is_data_safe hp sec =
    let allow_unknown = hp.allow_unknown || is_set sec.allow_unknown in
    let all_known =
      is_known_flag sec.is_honeypot
      && is_known_flag sec.freeze_authority
      && is_known_flag sec.mint_authority in
    let tax_unknown =
      (has_key sec.buy_tax_pct || has_key sec.sell_tax_pct)
      && (is_null sec.buy_tax_pct || is_null sec.sell_tax_pct) in
    if not all_known && not allow_unknown
    then false
    else if is_set sec.is_honeypot
    then false
    else if hp.reject_if_freeze_authority_present && is_set sec.freeze_authority
    then false
    else if hp.reject_if_mint_authority_present && is_set sec.mint_authority
    then false
    else if tax_unknown && not allow_unknown
    then false
    else if is_high sec.buy_tax_pct hp.max_tax_pct
    then false
    else not (is_high sec.sell_tax_pct hp.max_tax_pct)

-- `is_honeypot_safe`: without a configuration the module counts as disabled.
unfoldable pub is_honeypot_safe : Option HoneypotConfig → Option HoneypotData → Bool
is_honeypot_safe none sec = true
is_honeypot_safe (some hp) none = true
is_honeypot_safe (some hp) (some sec) = if hp.is_enabled then is_data_safe hp sec else true

-- The explicit flags, which are looked at only where there are security data.
unfoldable pub has_flag : Extra → Security → Bool
has_flag x sec =
    is_set x.honeypot
    || is_set x.honeypot_detected
    || is_set x.is_honeypot
    || is_set sec.honeypot
    || is_set sec.honeypot_detected
    || is_set sec.is_honeypot
    || is_set sec.scam

unfoldable pub is_flagged : TokenSnapshot → Bool
is_flagged s = elim s.extra [
  | none ↦ false
  | some x ↦ elim x.security [ none ↦ false | some sec ↦ has_flag x sec ]
]

-- The call of `is_honeypot_safe` gives it neither a snapshot nor a configuration.
unfoldable pub passes_honeypot_gate : GateConfig → Option TokenSnapshot → Bool
passes_honeypot_gate cfg snapshot = if not cfg.require_honeypot_safe then true else elim snapshot [
  | none ↦ false
  | some s ↦ if is_flagged s then false else is_honeypot_safe none none
]

unfoldable pub honeypot_gate : GateConfig → Option TokenSnapshot → List Reason
honeypot_gate cfg snapshot =
    if passes_honeypot_gate cfg snapshot then [] else Reason.honeypot_detected ∷ []

unfoldable pub wallet_hard_filters : GateConfig → TradeFields → List Reason
wallet_hard_filters cfg t =
    at_least cfg.min_wallet_winrate_30d t.wallet_winrate_30d Reason.wallet_min_winrate_fail
      Reason.wallet_min_winrate_fail
    ++ (at_least cfg.min_wallet_roi_30d_pct t.wallet_roi_30d_pct Reason.wallet_min_roi_fail
          Reason.wallet_min_roi_fail
        ++ at_least cfg.min_wallet_trades_30d t.wallet_trades_30d Reason.wallet_min_trades_fail
            Reason.wallet_min_trades_fail)

pub record GateDecision : Type 0 where
  pub is_passed : Bool
  pub reasons : List Reason

abbrev pub is_empty : List Reason → Bool
is_empty [] = true
is_empty (r ∷ rs) = false

unfoldable pub apply_gates : GateConfig → TradeFields → Option TokenSnapshot → GateDecision
apply_gates cfg t snapshot =
    let reasons : List Reason =
      token_gates cfg t snapshot
      ++ (security_gate cfg snapshot
          ++ (simulation_gate cfg snapshot
              ++ (honeypot_gate cfg snapshot ++ wallet_hard_filters cfg t))) in
    record { is_passed = is_empty reasons; reasons = reasons }

unfoldable pub primary_reason : GateDecision → Option Reason
primary_reason d = elim d.reasons [ [] ↦ none | r ∷ rs ↦ some r ]
