-- ===== src/Queues/Combined.antt =====
-- execution/queues.py, `RateLimitedSignalQueue`.
use engine_bot.Shared.{String, Bool, false, Option, if◌then◌else◌}
use engine_bot.Shared.Int.{ℤ}
use engine_bot.Queues.Limiter.{Rate, RateLimiter, can_proceed}
use engine_bot.Queues.Signals
use engine_bot.Queues.Signals.{SignalQueue}

pub record RateLimitedSignalQueue {ℓ} (S : Type ℓ) : Type ℓ where
  pub queue : SignalQueue S
  pub limiter : RateLimiter

module _ {ℓ} {S : Type ℓ} where
  -- A refused request still counts its refill.
  unfoldable pub push :
      Rate → S → ℤ → String → ℤ → RateLimitedSignalQueue S → Bool × RateLimitedSignalQueue S
  push r s priority key now q =
      let (allowed, l) = can_proceed r key now q.limiter in
      if allowed
      then (let (done, inner) = Signals.push s priority q.queue in
          (done, record { queue = inner; limiter = l }))
      else (false, record { queue = q.queue; limiter = l })

  unfoldable pub push_bypass : S → ℤ → RateLimitedSignalQueue S → Bool × RateLimitedSignalQueue S
  push_bypass s priority q =
      let (done, inner) = Signals.push s priority q.queue in
      (done, record { queue = inner; limiter = q.limiter })

  unfoldable pub pop : RateLimitedSignalQueue S → Option S × RateLimitedSignalQueue S
  pop q = let (s, inner) = Signals.pop q.queue in (s, record { queue = inner; limiter = q.limiter })
