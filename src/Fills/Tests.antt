-- ===== src/Fills/Tests.antt =====
-- The partial fill handler at concrete inputs.
use engine_bot.Shared.{◌≡◌, refl, Bool, true, none, some, arith}
use engine_bot.Shared.Int.{pos, ◌-ℤ◌, ◌<ℤ◌}
use engine_bot.Shared.Dict.{lookup, insert, modify}
use engine_bot.Fills.Handler.{
  FillStatus, Handler, Fill, PartialFill, FillAdjustment, new_handler, new_partial, on_partial_fill,
  is_pending, remaining, force_close_remaining, cancel_remaining, close_adjustment, check_timeouts,
}
use engine_bot.Fills.Lookups.{IsKeyed, on_partial_fill-IsKeyed}
use engine_bot.Fills.Timeouts.{IsQuiet, IsOk}
use engine_bot.Fills.Expired.{IsResolved, check_timeouts-resolves}

abbrev accepts : FillAdjustment → Bool
accepts a = true

abbrev half : Fill
half = record {
  signal_id = "one";
  mint = "sol";
  expected_amount = pos 10;
  filled_amount = pos 4;
  entry_price = pos 100;
  tx_sig = "tx";
  trace_id = "trace";
}

abbrev fresh : Handler
fresh = new_handler (pos 30) (some accepts)

abbrev waiting : Handler
waiting = (on_partial_fill half (pos 5) fresh).1

fresh-IsKeyed : IsKeyed fresh
unfolding new_handler
fresh-IsKeyed = tt

waiting-IsKeyed : IsKeyed waiting
waiting-IsKeyed = on_partial_fill-IsKeyed half (pos 5) fresh fresh-IsKeyed

half_found : lookup "one" waiting.partials ≡ some (new_partial half (pos 5))
unfolding on_partial_fill lookup insert new_handler engine_bot.Fills.Handler.log_adjustment
half_found = refl

half_pending : is_pending (new_partial half (pos 5)) ≡ true
unfolding is_pending new_partial
half_pending = refl

six_left : remaining (new_partial half (pos 5)) ≡ pos 6
unfolding remaining new_partial ◌-ℤ◌
six_left = refl

some_left : pos 0 <ℤ remaining (new_partial half (pos 5))
some_left = rw six_left (omega arith)

callback_set : waiting.on_adjustment ≡ some accepts
unfolding on_partial_fill new_handler lookup engine_bot.Fills.Handler.log_adjustment
callback_set = refl

waiting-IsQuiet : IsQuiet waiting.on_adjustment
waiting-IsQuiet = rw callback_set (λ a. refl)

check_timeouts-resolves_example :
    IsOk (check_timeouts (pos 50) waiting).0
    × (lookup "one" waiting.partials ≡ none
        → lookup "one" (check_timeouts (pos 50) waiting).1.partials ≡ none)
    × ((p : PartialFill)
        → lookup "one" waiting.partials ≡ some p
        → (p' : PartialFill) × (lookup "one" (check_timeouts (pos 50) waiting).1.partials ≡ some p')
          × IsResolved waiting.timeout_sec (pos 50) p p')
check_timeouts-resolves_example =
    check_timeouts-resolves "one" (pos 50) waiting waiting-IsKeyed waiting-IsQuiet

-- At time 50 the half filled record, created at 5, is older than 30 and is closed.
half_closes :
    lookup "one" (check_timeouts (pos 50) waiting).1.partials
    ≡ some (record (new_partial half (pos 5)) { status = FillStatus.closed })
unfolding check_timeouts on_partial_fill new_handler lookup engine_bot.Fills.Handler.log_adjustment
    insert engine_bot.Fills.Handler.get_pending_partials is_pending
    engine_bot.Fills.Handler.timeout_loop engine_bot.Fills.Handler.is_expired
    engine_bot.Fills.Handler.has_expired force_close_remaining
    engine_bot.Fills.Handler.get_remaining_amount remaining ◌-ℤ◌ engine_bot.Fills.Handler.close_with
    close_adjustment engine_bot.Fills.Handler.notify_again modify new_partial
half_closes = refl
