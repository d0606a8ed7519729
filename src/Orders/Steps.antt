-- ===== src/Orders/Steps.antt =====
-- The manager as a transition system: fills, ticks and forced closes in any order.
use engine_bot.Shared.{String, Bool, Option}
use engine_bot.Shared.Int.{ℤ}
use engine_bot.Orders.Position.{OrderManagerConfig}
use engine_bot.Orders.Manager.{OrderManager, new_manager, Fill, on_fill, Tick, on_tick, force_close}
use engine_bot.Orders.Invariant.{
  IsValid, new_manager-IsValid, on_fill-IsValid, on_tick-IsValid, force_close-IsValid,
}

-- One call of a method that changes the manager, with its outcome ignored.
pub data Step (m : OrderManager) : OrderManager → Type 0 where
  fill : (f : Fill) → Step m (on_fill f m).1
  tick : (t : Tick) (now : ℤ) → Step m (on_tick t now m).1
  forced :
      (k reason : String) (price size : Option ℤ) (now : ℤ)
      → Step m (force_close k reason price size now m).1

-- What a new manager can become.
pub data Reach (c : OrderManagerConfig) (dry : Bool) : OrderManager → Type 0 where
  start : Reach c dry (new_manager c dry)
  next : {m n : OrderManager} → Reach c dry m → Step m n → Reach c dry n

Step-IsValid : {m n : OrderManager} → Step m n → IsValid m → IsValid n
Step-IsValid {m} (fill f) v = on_fill-IsValid f m v
Step-IsValid {m} (tick t now) v = on_tick-IsValid t now m v
Step-IsValid {m} (forced k reason price size now) v =
    force_close-IsValid k reason price size now m v

-- After any sequence of fills, ticks and forced closes, failed calls included, on a new manager:
-- no signal stands twice, every position stands under its own signal and is active or partial,
-- and there are at most `max_positions` of them.
pub Reach-IsValid :
    {c : OrderManagerConfig} {dry : Bool} {m : OrderManager} → Reach c dry m → IsValid m
Reach-IsValid {c} {dry} start = new_manager-IsValid c dry
Reach-IsValid (next r s) = Step-IsValid s (Reach-IsValid r)
