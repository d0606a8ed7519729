-- ===== src/Fills/Expired.antt =====
-- `check_timeouts` settles exactly the records that have expired.
use engine_bot.Shared.{◌≡◌, refl, inl, inr, String, true, none, some, arith, Bool-cases}
use engine_bot.Shared.Int.{ℤ, ◌-ℤ◌, ◌<ℤ◌, ◌≤ℤ◌}
use engine_bot.Shared.Dict.{lookup}
use engine_bot.Fills.Handler.{
  FillStatus, PartialFill, Handler, is_pending, has_expired, remaining, check_timeouts,
}
use engine_bot.Fills.Lookups.{IsKeyed}
use engine_bot.Fills.Timeouts.{IsQuiet, IsOk, resolved, lookup-check_timeouts}

-- A pending record that was created longer ago than the timeout.
abbrev pub IsExpired : ℤ → ℤ → PartialFill → Type 0
IsExpired timeout now p = (p.status ≡ FillStatus.pending) × (timeout <ℤ now -ℤ p.created_at)

-- What becomes of a record.
abbrev pub IsResolved : ℤ → ℤ → PartialFill → PartialFill → Type 0
IsResolved timeout now p p' =
    (IsExpired timeout now p
      → p.expected_amount ≤ℤ p.filled_amount
      → p' ≡ record p { status = FillStatus.completed })
    × (IsExpired timeout now p
        → p.filled_amount <ℤ p.expected_amount
        → p' ≡ record p { status = FillStatus.closed })
    × (¬ IsExpired timeout now p → p' ≡ p)

pending_of : (p : PartialFill) → is_pending p ≡ true → p.status ≡ FillStatus.pending
unfolding is_pending
pending_of p h = ground (arith, h)

IsExpired-of :
    (timeout now : ℤ) (p : PartialFill) → has_expired timeout now p ≡ true → IsExpired timeout now p
unfolding has_expired is_pending
IsExpired-of timeout now p h = (ground (arith, h), ground (arith, h))

has_expired_of :
    (timeout now : ℤ) (p : PartialFill) → IsExpired timeout now p → has_expired timeout now p ≡ true
unfolding has_expired is_pending
has_expired_of timeout now p (live, old) = ground (arith, live, old)

resolved-IsResolved :
    (timeout now : ℤ) (p : PartialFill) → IsResolved timeout now p (resolved timeout now p)
unfolding is_pending remaining ◌-ℤ◌
resolved-IsResolved timeout now p = (
  λ old full. rw (has_expired_of timeout now p old, old.0) (ground (arith, full)),
  λ old left. rw (has_expired_of timeout now p old, old.0) (ground (arith, left)),
  λ fresh. elim (Bool-cases (has_expired timeout now p)) [
    | inl old ↦ absurd (fresh (IsExpired-of timeout now p old))
    | inr idle ↦ rw idle refl
  ],
)

-- Where every record stands under its signal and the callback, if any, does not raise, the check
-- of the timeouts raises nothing, a signal without a record gets none, and of a signal's record
-- it makes this: where the record is pending and older than the timeout, it becomes completed if
-- at least the expected amount is filled, and closed if less is, with its other fields kept;
-- every other record stays as it was.
pub check_timeouts-resolves :
    (k : String) (now : ℤ) (h : Handler)
    → IsKeyed h
    → IsQuiet h.on_adjustment
    → IsOk (check_timeouts now h).0
      × (lookup k h.partials ≡ none → lookup k (check_timeouts now h).1.partials ≡ none)
      × ((p : PartialFill)
          → lookup k h.partials ≡ some p
          → (p' : PartialFill) × (lookup k (check_timeouts now h).1.partials ≡ some p')
            × IsResolved h.timeout_sec now p p')
check_timeouts-resolves k now h v q =
    let (done, after) = lookup-check_timeouts k now h v q in
    (
      done,
      λ gone. rw gone at after,
      λ p found. (
        resolved h.timeout_sec now p,
        rw found at after,
        resolved-IsResolved h.timeout_sec now p,
      ),
    )
