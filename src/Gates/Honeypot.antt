-- ===== src/Gates/Honeypot.antt =====
-- integration/gates.py: what the honeypot gate comes to.
use engine_bot.Shared.{◌≡◌, not, ◌&&◌, some, arith}
use engine_bot.Gates.Data.{TokenSnapshot, GateConfig}
use engine_bot.Gates.Checks.{is_flagged, is_honeypot_safe, passes_honeypot_gate}

-- The honeypot gate, for a snapshot that is there, looks at the explicit flags alone: taxes, the
-- freeze authority and the simulation make no difference to it.
passes_honeypot_gate-flags :
    (cfg : GateConfig) (s : TokenSnapshot)
    → passes_honeypot_gate cfg (some s) ≡ not (cfg.require_honeypot_safe && is_flagged s)
unfolding passes_honeypot_gate is_honeypot_safe
passes_honeypot_gate-flags cfg s = ground arith
