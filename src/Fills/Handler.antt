-- ===== src/Fills/Handler.antt =====
-- execution/partial_fill_handler.py: `PartialFillHandler`. Amounts, prices and times are whole
-- numbers of a smallest unit; `now` is the time of the call; the callback is a parameter, kept in
-- the handler, and answers (`true`) or raises (`false`).
use engine_bot.Shared.{
  String, Bool, true, false, not, Option, none, some, List, [], ◌∷◌, ◌++◌, keep, if◌then◌else◌,
}
use engine_bot.Shared.Int.{ℤ, pos, ◌+ℤ◌, ◌-ℤ◌, ltb_ℤ, leb_ℤ, max_ℤ}
use engine_bot.Shared.Dict.{Dict, lookup, insert, modify, values}
use engine_bot.Shared.Results.{Result, ok, err}
use Prim.Native.String.{◌++◌ as ◌+s◌}

pub data FillStatus : Type 0 where
  pending completed expired closed : FillStatus

pub data AdjustmentType : Type 0 where
  partial_fill force_close timeout_close cancel : AdjustmentType

pub record PartialFill : Type 0 where
  pub signal_id : String
  pub mint : String
  pub expected_amount : ℤ
  pub filled_amount : ℤ
  pub entry_price : ℤ
  pub tx_sig : String
  pub trace_id : String
  pub created_at : ℤ
  pub last_update : ℤ
  pub status : FillStatus

pub record FillAdjustment : Type 0 where
  pub signal_id : String
  pub mint : String
  pub adjustment_type : AdjustmentType
  pub tx_sig : String
  pub trace_id : String
  pub filled_amount : ℤ
  pub remaining_amount : ℤ
  pub price : ℤ
  pub reason : String
  pub timestamp : ℤ

-- `calls` lists the adjustments that the callback was called with.
pub record Handler : Type 0 where
  pub timeout_sec : ℤ
  pub partials : Dict PartialFill
  pub adjustments : List FillAdjustment
  pub on_adjustment : Option (FillAdjustment → Bool)
  pub calls : List FillAdjustment

unfoldable pub new_handler : ℤ → Option (FillAdjustment → Bool) → Handler
new_handler timeout callback = record {
  timeout_sec = timeout;
  partials = [];
  adjustments = [];
  on_adjustment = callback;
  calls = [];
}

-- The calls after the callback has been called, if there is one.
unfoldable pub called :
    Option (FillAdjustment → Bool) → FillAdjustment → List FillAdjustment → List FillAdjustment
called none a calls = calls
called (some f) a calls = calls ++ a ∷ []

-- `_log_adjustment`: what the callback raises is caught.
unfoldable pub log_adjustment : FillAdjustment → Handler → Handler
log_adjustment a h = record h {
  adjustments = h.adjustments ++ a ∷ [];
  calls = called h.on_adjustment a h.calls;
}

-- The arguments of `on_partial_fill`; `trace_id` is the given one, or a fresh one if none is
-- given.
pub record Fill : Type 0 where
  pub signal_id : String
  pub mint : String
  pub expected_amount : ℤ
  pub filled_amount : ℤ
  pub entry_price : ℤ
  pub tx_sig : String
  pub trace_id : String

unfoldable pub new_partial : Fill → ℤ → PartialFill
new_partial f now = record {
  signal_id = f.signal_id;
  mint = f.mint;
  expected_amount = f.expected_amount;
  filled_amount = f.filled_amount;
  entry_price = f.entry_price;
  tx_sig = f.tx_sig;
  trace_id = f.trace_id;
  created_at = now;
  last_update = now;
  status = pending;
}

-- What a further fill writes to the record of its signal.
unfoldable pub filled_more : Fill → ℤ → PartialFill → PartialFill
filled_more f now p = record p {
  filled_amount = p.filled_amount +ℤ f.filled_amount;
  last_update = now;
  status =
      if leb_ℤ f.expected_amount (p.filled_amount +ℤ f.filled_amount) then completed else p.status;
}

unfoldable pub on_partial_fill : Fill → ℤ → Handler → PartialFill × Handler
on_partial_fill f now h = elim (lookup f.signal_id h.partials) [
  | some existing ↦ (
    filled_more f now existing,
    record h { partials = modify f.signal_id (filled_more f now) h.partials },
  )
  | none ↦ (
    new_partial f now,
    log_adjustment
        (record {
          signal_id = f.signal_id;
          mint = f.mint;
          adjustment_type = partial_fill;
          tx_sig = f.tx_sig;
          trace_id = f.trace_id;
          filled_amount = f.filled_amount;
          remaining_amount = f.expected_amount -ℤ f.filled_amount;
          price = f.entry_price;
          reason = "Partial fill received";
          timestamp = now;
        })
        (record h { partials = insert f.signal_id (new_partial f now) h.partials }),
  )
]

unfoldable pub is_pending : PartialFill → Bool
is_pending p = elim p.status [ pending ↦ true | _ ↦ false ]

-- `is_expired` on the record that is found.
unfoldable pub has_expired : ℤ → ℤ → PartialFill → Bool
has_expired timeout now p = if is_pending p then ltb_ℤ timeout (now -ℤ p.created_at) else false

unfoldable pub is_expired : String → ℤ → Handler → Bool
is_expired k now h = elim (lookup k h.partials) [
  | none ↦ false
  | some p ↦ has_expired h.timeout_sec now p
]

unfoldable pub remaining : PartialFill → ℤ
remaining p = max_ℤ (pos 0) (p.expected_amount -ℤ p.filled_amount)

unfoldable pub get_remaining_amount : String → Handler → ℤ
get_remaining_amount k h = elim (lookup k h.partials) [ none ↦ pos 0 | some p ↦ remaining p ]

abbrev pub set_status : FillStatus → PartialFill → PartialFill
set_status s p = record p { status = s }

pub data CallbackError : Type 0 where
  callback_raised : CallbackError

-- The second notification of a close: it is not guarded, so that the exception comes out.
unfoldable pub notify_again :
    FillAdjustment → Handler → Result CallbackError (Option FillAdjustment) × Handler
notify_again a h = elim h.on_adjustment [
  | none ↦ (ok (some a), h)
  | some f ↦
      (if f a then ok (some a) else err callback_raised, record h { calls = h.calls ++ a ∷ [] })
]

-- What `force_close_remaining` and `cancel_remaining` do with the adjustment that they have made.
unfoldable pub close_with :
    FillAdjustment → Handler → Result CallbackError (Option FillAdjustment) × Handler
close_with a h =
    notify_again a
      (log_adjustment a (record h { partials = modify a.signal_id (set_status closed) h.partials }))

unfoldable pub close_adjustment : String → ℤ → String → ℤ → PartialFill → FillAdjustment
close_adjustment k close_price reason now p = record {
  signal_id = k;
  mint = p.mint;
  adjustment_type = force_close;
  tx_sig = "close_" +s p.tx_sig;
  trace_id = p.trace_id;
  filled_amount = p.filled_amount;
  remaining_amount = pos 0;
  price = close_price;
  reason = reason;
  timestamp = now;
}

unfoldable pub force_close_remaining :
    String → ℤ → String → ℤ → Handler → Result CallbackError (Option FillAdjustment) × Handler
force_close_remaining k close_price reason now h = elim (lookup k h.partials) [
  | none ↦ (ok none, h)
  | some p ↦
      if not (is_pending p)
      then (ok none, h)
      else if leb_ℤ (get_remaining_amount k h) (pos 0)
      then (ok none, record h { partials = modify k (set_status completed) h.partials })
      else close_with (close_adjustment k close_price reason now p) h
]

unfoldable pub cancel_adjustment : String → String → ℤ → PartialFill → FillAdjustment
cancel_adjustment k reason now p = record {
  signal_id = k;
  mint = p.mint;
  adjustment_type = cancel;
  tx_sig = "cancel_" +s p.tx_sig;
  trace_id = p.trace_id;
  filled_amount = p.filled_amount;
  remaining_amount = remaining p;
  price = p.entry_price;
  reason = reason;
  timestamp = now;
}

unfoldable pub cancel_remaining :
    String → String → ℤ → Handler → Result CallbackError (Option FillAdjustment) × Handler
cancel_remaining k reason now h = elim (lookup k h.partials) [
  | none ↦ (ok none, h)
  | some p ↦
      if not (is_pending p) then (ok none, h) else close_with (cancel_adjustment k reason now p) h
]

unfoldable pub get_pending_partials : Handler → List PartialFill
get_pending_partials h = keep is_pending (values h.partials)

abbrev pub add_found :
    Option FillAdjustment
    → Result CallbackError (List FillAdjustment)
    → Result CallbackError (List FillAdjustment)
add_found none rest = rest
add_found (some a) (ok rest) = ok (a ∷ rest)
add_found (some a) (err e) = err e

-- The rest of the loop goes on from the handler that a close leaves; an exception ends it.
abbrev pub after_close :
    (Handler → Result CallbackError (List FillAdjustment) × Handler)
    → Result CallbackError (Option FillAdjustment) × Handler
    → Result CallbackError (List FillAdjustment) × Handler
after_close rest (err e, h) = (err e, h)
after_close rest (ok found, h) = let (rs, h') = rest h in (add_found found rs, h')

-- The loop of `check_timeouts` over the pending records.
unfoldable pub timeout_loop :
    ℤ → List PartialFill → Handler → Result CallbackError (List FillAdjustment) × Handler
timeout_loop now [] h = (ok [], h)
timeout_loop now (p ∷ ps) h =
    let rest = timeout_loop now ps in
    if is_expired p.signal_id now h
    then after_close rest (force_close_remaining p.signal_id p.entry_price "partial_timeout" now h)
    else rest h

unfoldable pub check_timeouts : ℤ → Handler → Result CallbackError (List FillAdjustment) × Handler
check_timeouts now h = timeout_loop now (get_pending_partials h) h
