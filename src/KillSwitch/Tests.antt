-- ===== src/KillSwitch/Tests.antt =====
-- The kill switch at concrete inputs.
use engine_bot.Shared.{◌≡◌, true, false, none, some, [], ◌∷◌, arith}
use engine_bot.Shared.Int.{pos, ◌-ℤ◌, ◌<ℤ◌}
use engine_bot.Orders.Manager.{OrderManager, new_manager, on_fill}
use engine_bot.KillSwitch.Panic.{World}
use engine_bot.KillSwitch.Shutdown.{default_config, emergency_shutdown}
use engine_bot.KillSwitch.NoClose.{emergency_shutdown_closes_nothing}

abbrev calm : World
calm = record {
  files = ("/tmp/other.flag", "stop") ∷ [];
  exists_fails = false;
  read_fails = false;
  remove_fails = false;
  panic_cache = none;
  panic_cache_time = pos 0;
}

abbrev manager : OrderManager
manager =
    (on_fill
      (record {
        signal_id = "one";
        mint = "sol";
        entry_price = pos 100;
        size_usd = pos 50;
        entry_ts = pos 0;
        ttl_seconds = pos 60;
        tp_price = none;
        sl_price = none;
      })
      (new_manager
        (record {
          check_interval_seconds = 1;
          default_ttl_seconds = 60;
          enable_partial_closes = true;
          max_positions = 2;
        })
        false)).1

emergency_shutdown_closes_nothing_example :
    ((emergency_shutdown default_config (pos 9) (some manager) calm).1 ≡ some manager)
    × ((emergency_shutdown default_config (pos 9) (some manager) calm).0.positions_closed ≡ 0)
    × ((emergency_shutdown default_config (pos 9) (some manager) calm).0.errors ≡ [])
emergency_shutdown_closes_nothing_example =
    emergency_shutdown_closes_nothing default_config (pos 9) manager calm

two_is_soon : pos 12 -ℤ pos 10 <ℤ pos 5
unfolding ◌-ℤ◌
two_is_soon = omega arith
