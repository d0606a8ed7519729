-- ===== src/KillSwitch/NoClose.antt =====
-- The emergency close over the statuses that the order manager uses.
use engine_bot.Shared.{◌≡◌, refl, String, str_eq, false, some, [], ◌∷◌, keep, arith}
use engine_bot.Shared.Int.{ℤ}
use engine_bot.Shared.Dict.{Dict}
use engine_bot.Orders.Position.{PositionStatus, PositionState, status_value}
use engine_bot.Orders.Manager.{OrderManager}
use engine_bot.KillSwitch.Panic.{World}
use engine_bot.KillSwitch.Shutdown.{
  KillSwitchConfig, counts_as_open, close_each, force_close_all_positions, emergency_shutdown,
}

status_value-ne-open : (s : PositionStatus) → str_eq (status_value s) "open" ≡ false
unfolding status_value
status_value-ne-open PositionStatus.pending = refl
status_value-ne-open PositionStatus.active = refl
status_value-ne-open PositionStatus.partial = refl
status_value-ne-open PositionStatus.closed = refl
status_value-ne-open PositionStatus.expired = refl

counts_as_open-false : (e : String × PositionState) → counts_as_open e ≡ false
unfolding counts_as_open
counts_as_open-false e = status_value-ne-open e.1.status

none_open : (d : Dict PositionState) → keep counts_as_open d ≡ []
none_open [] = refl
none_open (e ∷ d) = rw (counts_as_open-false e) (none_open d)

-- The emergency shutdown of any manager closes nothing: it reports no closed position and no
-- error, and leaves the manager as it was.
pub emergency_shutdown_closes_nothing :
    (c : KillSwitchConfig) (now : ℤ) (m : OrderManager) (w : World)
    → ((emergency_shutdown c now (some m) w).1 ≡ some m)
      × ((emergency_shutdown c now (some m) w).0.positions_closed ≡ 0)
      × ((emergency_shutdown c now (some m) w).0.errors ≡ [])
unfolding emergency_shutdown force_close_all_positions close_each
emergency_shutdown_closes_nothing c now m w = ground (arith, none_open m.positions)
