-- ===== src/Fills/Closes.antt =====
-- Forced closes and cancels: their results, their repetition and their notifications.
use engine_bot.Shared.{
  ◌≡◌, inl, inr, String, str_eq_self, Bool, true, false, Option, none, some, [], ◌∷◌, ◌++◌, arith,
  Option-cases,
}
use mathlib.Core.List.{append_assoc}
use engine_bot.Shared.Int.{ℤ, pos, ◌<ℤ◌}
use engine_bot.Shared.Dict.{lookup, map_some}
use engine_bot.Shared.Results.{ok}
use engine_bot.Fills.Handler.{
  PartialFill, FillAdjustment, Handler, called, log_adjustment, is_pending, remaining, notify_again,
  close_with, close_adjustment, force_close_remaining, cancel_remaining,
}
use engine_bot.Fills.Lookups.{settled, lookup-force_close, remaining_found}

-- With a callback that answers, a forced close of a pending record with an amount remaining
-- gives one adjustment, which is appended to the history once, and the callback is called with
-- it twice.
pub force_close_notifies_twice :
    (k : String) (price : ℤ) (reason : String) (now : ℤ) (h : Handler) (p : PartialFill)
    (f : FillAdjustment → Bool)
    → lookup k h.partials ≡ some p
    → is_pending p ≡ true
    → pos 0 <ℤ remaining p
    → h.on_adjustment ≡ some f
    → f (close_adjustment k price reason now p) ≡ true
    → let a = close_adjustment k price reason now p in
      let (r, h') = force_close_remaining k price reason now h in
      (r ≡ ok (some a))
      × (h'.adjustments ≡ h.adjustments ++ a ∷ [])
      × (h'.calls ≡ h.calls ++ a ∷ a ∷ [])
unfolding force_close_remaining close_with notify_again log_adjustment called
force_close_notifies_twice k price reason now h p f found live more cb answers = ground (
  arith,
  found,
  live,
  more,
  cb,
  answers,
  remaining_found k h p found,
  append_assoc h.calls (close_adjustment k price reason now p ∷ [])
      (close_adjustment k price reason now p ∷ []),
)

-- No record, or one that is no longer pending.
abbrev IsSettled : Option PartialFill → Type 0
IsSettled none = Unit
IsSettled (some p) = is_pending p ≡ false

settled-IsSettled : (p : PartialFill) → is_pending (settled p) ≡ false
unfolding is_pending
settled-IsSettled p = ground arith

map_some-IsSettled : (o : Option PartialFill) → IsSettled (map_some settled o)
map_some-IsSettled none = tt
map_some-IsSettled (some p) = settled-IsSettled p

force_close-settles :
    (k : String) (price : ℤ) (reason : String) (now : ℤ) (h : Handler)
    → IsSettled (lookup k (force_close_remaining k price reason now h).1.partials)
force_close-settles k price reason now h =
    rw (lookup-force_close k k price reason now h)
      (rw (str_eq_self k) (map_some-IsSettled (lookup k h.partials)))

close_of_settled :
    (k : String) (price : ℤ) (reason : String) (now : ℤ) (h : Handler)
    → IsSettled (lookup k h.partials)
    → force_close_remaining k price reason now h ≡ (ok none, h)
unfolding force_close_remaining
close_of_settled k price reason now h s = elim (Option-cases (lookup k h.partials)) [
  | inl gone ↦ ground (arith, gone)
  | inr (p, found) ↦ ground (arith, found, rw found at s)
]

cancel_of_settled :
    (k : String) (reason : String) (now : ℤ) (h : Handler)
    → IsSettled (lookup k h.partials)
    → cancel_remaining k reason now h ≡ (ok none, h)
unfolding cancel_remaining
cancel_of_settled k reason now h s = elim (Option-cases (lookup k h.partials)) [
  | inl gone ↦ ground (arith, gone)
  | inr (p, found) ↦ ground (arith, found, rw found at s)
]

-- A forced close or a cancel of a signal after a forced close of it does nothing, whatever the
-- first one gave or raised.
pub force_close_again :
    (k : String) (price price' : ℤ) (reason reason' : String) (now later : ℤ) (h : Handler)
    → let h' = (force_close_remaining k price reason now h).1 in
      (force_close_remaining k price' reason' later h' ≡ (ok none, h'))
      × (cancel_remaining k reason' later h' ≡ (ok none, h'))
force_close_again k price price' reason reason' now later h =
    let h' = (force_close_remaining k price reason now h).1 in
    (
      close_of_settled k price' reason' later h' (force_close-settles k price reason now h),
      cancel_of_settled k reason' later h' (force_close-settles k price reason now h),
    )
