-- ===== src/Gates/Decisions.antt =====
-- integration/gates.py: what a token and a wallet that pass have shown.
use engine_bot.Shared.{◌≡◌, ◌≢◌, ap, refl, true, false, Option, none, some, [], arith}
use engine_bot.Shared.Int.{pos}
use engine_bot.Gates.Data.{Security, Simulation, Extra, TokenSnapshot, TradeFields, GateConfig}
use engine_bot.Gates.Checks.{
  token_gates, extra_of, security_of, simulation_of, extract_security_data, security_gate,
  check_simulation_security, simulation_gate, has_flag, is_flagged, passes_honeypot_gate,
  honeypot_gate, wallet_hard_filters, is_empty, apply_gates,
}
use engine_bot.Gates.Thresholds.{
  IsClear, IsSimulated, IsUnflagged, IsTradable, IsSafe, IsTrusted, empty-append, is_empty_nil,
  at_least-nil, wallet-nil, at_most-nil, if_known-nil, as_list-nil, unset, not_over,
}

security_gate-IsClear :
    (cfg : GateConfig) (s : TokenSnapshot) (x : Extra) (sec : Security)
    → s.extra ≡ some x
    → x.security ≡ some sec
    → security_gate cfg (some s) ≡ []
    → IsClear cfg sec
unfolding security_gate extract_security_data security_of extra_of
security_gate-IsClear cfg s x sec there found h enabled =
    let nothing = as_list-nil (extract_security_data (some s)) (rw (enabled, security_gate) at h) in
    let opened = rw (there, found, extract_security_data) at nothing in
    (
      unset _ (ground (arith, opened)),
      unset _ (ground (arith, opened)),
      unset _ (ground (arith, opened)),
      not_over _ (pos 5000) (ground (arith, opened)),
    )

simulation_gate-IsSimulated :
    (cfg : GateConfig) (s : TokenSnapshot) (x : Extra) (sim : Simulation)
    → s.extra ≡ some x
    → x.simulation ≡ some sim
    → simulation_gate cfg (some s) ≡ []
    → IsSimulated cfg sim
unfolding simulation_gate check_simulation_security simulation_of extra_of
simulation_gate-IsSimulated cfg s x sim there found h =
    let nothing = as_list-nil (check_simulation_security cfg (some s)) h in
    let opened = rw (there, found, check_simulation_security) at nothing in
    (
      ground (arith, opened),
      not_over _ _ (ground (arith, opened)),
      not_over _ _ (ground (arith, opened)),
    )

unflagged :
    (x : Extra) (sec : Security)
    → has_flag x sec ≡ false
    → (x.honeypot ≢ some true)
      × (x.honeypot_detected ≢ some true)
      × (x.is_honeypot ≢ some true)
      × (sec.honeypot ≢ some true)
      × (sec.honeypot_detected ≢ some true)
      × (sec.is_honeypot ≢ some true)
      × (sec.scam ≢ some true)
unfolding has_flag
unflagged x sec h = (
  unset _ (ground (arith, h)),
  unset _ (ground (arith, h)),
  unset _ (ground (arith, h)),
  unset _ (ground (arith, h)),
  unset _ (ground (arith, h)),
  unset _ (ground (arith, h)),
  unset _ (ground (arith, h)),
)

honeypot_gate-IsUnflagged :
    (cfg : GateConfig) (s : TokenSnapshot) (x : Extra) (sec : Security)
    → s.extra ≡ some x
    → x.security ≡ some sec
    → honeypot_gate cfg (some s) ≡ []
    → IsUnflagged cfg x sec
unfolding honeypot_gate passes_honeypot_gate is_flagged
honeypot_gate-IsUnflagged cfg s x sec there found h required =
    let opened = rw (required, there, found, honeypot_gate, passes_honeypot_gate) at h in
    let none_set : has_flag x sec ≡ false = ground (arith, opened) in unflagged x sec none_set

tradable :
    (cfg : GateConfig) (t : TradeFields) (snapshot : Option TokenSnapshot)
    → token_gates cfg t snapshot ≡ []
    → (s : TokenSnapshot) × (snapshot ≡ some s) × IsTradable cfg t s
unfolding token_gates
tradable cfg t none h = cc
tradable cfg t (some s) h =
    let (a, h1) = empty-append _ _ (ap is_empty h) in
    let (b, h2) = empty-append _ _ h1 in
    let (c, h3) = empty-append _ _ h2 in
    let (d, h4) = empty-append _ _ h3 in
    (
      s,
      refl,
      (
        at_least-nil _ _ _ _ _ a,
        at_least-nil _ _ _ _ _ b,
        at_most-nil _ _ _ _ _ c,
        if_known-nil _ _ _ d,
        if_known-nil _ _ _ (is_empty_nil _ h4),
      ),
    )

trusted :
    (cfg : GateConfig) (t : TradeFields)
    → is_empty (wallet_hard_filters cfg t) ≡ true
    → IsTrusted cfg t
unfolding wallet_hard_filters
trusted cfg t h =
    let (a, h1) = empty-append _ _ h in
    let (b, h2) = empty-append _ _ h1 in
    (wallet-nil _ _ _ a, wallet-nil _ _ _ b, wallet-nil _ _ _ (is_empty_nil _ h2))

safe :
    (cfg : GateConfig) (s : TokenSnapshot) (x : Extra)
    → s.extra ≡ some x
    → security_gate cfg (some s) ≡ []
    → simulation_gate cfg (some s) ≡ []
    → honeypot_gate cfg (some s) ≡ []
    → IsSafe cfg x
safe cfg s x there b c d = (
  λ sec found. (
    security_gate-IsClear cfg s x sec there found b,
    honeypot_gate-IsUnflagged cfg s x sec there found d,
  ),
  λ sim found. simulation_gate-IsSimulated cfg s x sim there found c,
)

-- A decision that passes: there is a snapshot; its liquidity, volume and spread, or the trade's
-- where it has none, are known and on the right side of every configured threshold; the shares of
-- the ten largest holders and of the largest one, where they are known, are at most the configured
-- limits; the security data, if there are any and the check is enabled, show no honeypot, freeze
-- or mint authority, and no more than 50 percent with the top holders; the simulation, if there
-- is one, succeeded with no known tax above the limit; where there are security data and safety
-- from honeypots is required, none of the seven flags for one is set; and the wallet's metrics are
-- known and reach every configured threshold.
pub apply_gates-IsTradable :
    (cfg : GateConfig) (t : TradeFields) (snapshot : Option TokenSnapshot)
    → (apply_gates cfg t snapshot).is_passed ≡ true
    → ((s : TokenSnapshot) × (snapshot ≡ some s)
        × IsTradable cfg t s
        × ((x : Extra) → s.extra ≡ some x → IsSafe cfg x))
      × IsTrusted cfg t
unfolding apply_gates
apply_gates-IsTradable cfg t snapshot h =
    let (a, h1) = empty-append (token_gates cfg t snapshot) _ h in
    let (b, h2) = empty-append (security_gate cfg snapshot) _ h1 in
    let (c, h3) = empty-append (simulation_gate cfg snapshot) _ h2 in
    let (d, h4) = empty-append (honeypot_gate cfg snapshot) _ h3 in
    let (s, is, seen) = tradable cfg t snapshot a in
    (
      (s, is, seen, λ x there. safe cfg s x there (rw is at b) (rw is at c) (rw is at d)),
      trusted cfg t h4,
    )
