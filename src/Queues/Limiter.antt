-- ===== src/Queues/Limiter.antt =====
-- execution/queues.py, `RateLimiter`. A time is a whole number of a smallest unit, and the
-- tokens of a key are counted in parts of one token, `window` parts to a token, so that the
-- refill of `elapsed * (limit / window)` tokens is the whole number `elapsed * limit`. The
-- window is not zero.
use engine_bot.Shared.{ℕ, ◌*◌, String, Bool, true, false, Option, none, some, if◌then◌else◌}
use engine_bot.Shared.Int.{ℤ, pos, pos_part, neg_part, ◌+ℤ◌, ◌-ℤ◌, leb_ℤ, min_ℤ, sub_ℕ}
use engine_bot.Shared.Dict.{Dict, lookup, insert, erase}

-- What does not change: at most `limit` requests in a window.
pub record Rate : Type 0 where
  pub limit : ℕ
  pub window : ℕ

pub record RateLimiter : Type 0 where
  pub tokens : Dict ℤ
  pub last_refill : Dict ℤ

-- An integer times a natural number.
unfoldable pub scale : ℕ → ℤ → ℤ
scale k a = sub_ℕ (k * pos_part a) (k * neg_part a)

abbrev pub or_int : Option ℤ → ℤ → ℤ
or_int none d = d
or_int (some a) d = a

-- All tokens that a key can have.
abbrev pub cap : Rate → ℤ
cap r = pos (r.limit * r.window)

-- The tokens of a key after the refill.
unfoldable pub refilled : Rate → String → ℤ → RateLimiter → ℤ
refilled r key now l =
    let tokens = or_int (lookup key l.tokens) (cap r) in
    let last_refill = or_int (lookup key l.last_refill) now in
    min_ℤ (cap r) (tokens +ℤ scale r.limit (now -ℤ last_refill))

unfoldable pub can_proceed : Rate → String → ℤ → RateLimiter → Bool × RateLimiter
can_proceed r key now l =
    if leb_ℤ (pos r.window) (refilled r key now l)
    then (
      true,
      record {
        tokens = insert key (refilled r key now l -ℤ pos r.window) l.tokens;
        last_refill = insert key now l.last_refill;
      },
    )
    else (
      false,
      record {
        tokens = insert key (refilled r key now l) l.tokens;
        last_refill = insert key now l.last_refill;
      },
    )

unfoldable pub reset : String → RateLimiter → RateLimiter
reset key l = record { tokens = erase key l.tokens; last_refill = erase key l.last_refill }
