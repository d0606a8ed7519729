-- ===== src/Queues/Tokens.antt =====
-- The tokens of one key, over a request.
use engine_bot.Shared.{
  ℕ, ◌+◌, ◌*◌, ◌≡◌, ◌∙◌, ap, String, str_eq, eq_iff, some, arith, if◌then◌else◌,
}
use engine_bot.Shared.Int.{
  ℤ, pos, pos_part, neg_part, ◌+ℤ◌, ◌-ℤ◌, ◌≤ℤ◌, leb_ℤ, min_ℤ, int_laws, +ℤ_parts,
}
use engine_bot.Shared.Dict.{lookup, lookup-insert}
use engine_bot.Queues.Limiter.{Rate, RateLimiter, scale, cap, refilled, can_proceed}

pub scale_parts :
    (k : ℕ) (a : ℤ) → pos_part (scale k a) + k * neg_part a ≡ neg_part (scale k a) + k * pos_part a
unfolding scale
scale_parts k a = ground arith

pub scale-add : (k : ℕ) (a b : ℤ) → scale k (a +ℤ b) ≡ scale k a +ℤ scale k b
scale-add k a b = omega (
  int_laws,
  scale_parts k a,
  scale_parts k b,
  scale_parts k (a +ℤ b),
  ap (λ n. k * n) (+ℤ_parts a b),
)

pub scale_nonneg : (k : ℕ) (a : ℤ) → pos 0 ≤ℤ a → pos 0 ≤ℤ scale k a
unfolding scale
scale_nonneg k a h = ground arith

pub scale_between : (k : ℕ) (a b c : ℤ) → scale k (c -ℤ a) ≡ scale k (b -ℤ a) +ℤ scale k (c -ℤ b)
scale_between k a b c =
    let split : c -ℤ a ≡ (b -ℤ a) +ℤ (c -ℤ b) = omega int_laws in
    ap (scale k) split ∙ scale-add k (b -ℤ a) (c -ℤ b)

-- The tokens that a request leaves.
abbrev pub spent : Rate → String → ℤ → RateLimiter → ℤ
spent r key now l =
    if leb_ℤ (pos r.window) (refilled r key now l)
    then refilled r key now l -ℤ pos r.window
    else refilled r key now l

pub tokens-can_proceed :
    (r : Rate) (j k : String) (now : ℤ) (l : RateLimiter)
    → lookup k (can_proceed r j now l).1.tokens
      ≡ (if str_eq j k then some (spent r j now l) else lookup k l.tokens)
unfolding can_proceed
tokens-can_proceed r j k now l = ground (
  arith,
  lookup-insert j k (refilled r j now l -ℤ pos r.window) l.tokens,
  lookup-insert j k (refilled r j now l) l.tokens,
)

pub last-can_proceed :
    (r : Rate) (j k : String) (now : ℤ) (l : RateLimiter)
    → lookup k (can_proceed r j now l).1.last_refill
      ≡ (if str_eq j k then some now else lookup k l.last_refill)
unfolding can_proceed
last-can_proceed r j k now l = ground (arith, lookup-insert j k now l.last_refill)

-- The bookkeeping of one key.
pub record Has (l : RateLimiter) (k : String) (tokens last : ℤ) : Type 0 where
  pub stored : lookup k l.tokens ≡ some tokens
  pub seen : lookup k l.last_refill ≡ some last

pub Has-can_proceed :
    (r : Rate) (j k : String) (now t u : ℤ) (l : RateLimiter)
    → Has l k t u
    → Has
        (can_proceed r j now l).1
        k
        (if str_eq j k then spent r j now l else t)
        (if str_eq j k then now else u)
Has-can_proceed r j k now t u l h = record {
  stored = ground (arith, h.stored, tokens-can_proceed r j k now l);
  seen = ground (arith, h.seen, last-can_proceed r j k now l);
}

pub Has-first :
    (r : Rate) (k : String) (now : ℤ) (l : RateLimiter)
    → Has (can_proceed r k now l).1 k (spent r k now l) now
Has-first r k now l = record {
  stored = ground (arith, eq_iff k k, tokens-can_proceed r k k now l);
  seen = ground (arith, eq_iff k k, last-can_proceed r k k now l);
}

pub refilled_found :
    (r : Rate) (k : String) (now t u : ℤ) (l : RateLimiter)
    → Has l k t u
    → refilled r k now l ≡ min_ℤ (cap r) (t +ℤ scale r.limit (now -ℤ u))
unfolding refilled
refilled_found r k now t u l h = ground (arith, h.stored, h.seen)

pub min_ℤ-le_right : (a b : ℤ) → min_ℤ a b ≤ℤ b
min_ℤ-le_right a b = ground arith

pub min_ℤ_nonneg : (a b : ℤ) → pos 0 ≤ℤ a → pos 0 ≤ℤ b → pos 0 ≤ℤ min_ℤ a b
min_ℤ_nonneg a b h k = ground arith

-- The tokens that remain are never negative.
pub refilled_nonneg :
    (r : Rate) (k : String) (now t u : ℤ) (l : RateLimiter)
    → Has l k t u
    → pos 0 ≤ℤ t
    → u ≤ℤ now
    → pos 0 ≤ℤ refilled r k now l
refilled_nonneg r k now t u l h n m =
    let elapsed : pos 0 ≤ℤ now -ℤ u = omega int_laws in
    let gained = scale_nonneg r.limit (now -ℤ u) elapsed in
    rw (refilled_found r k now t u l h) (
      min_ℤ_nonneg (cap r) (t +ℤ scale r.limit (now -ℤ u)) (omega arith) (omega (int_laws, gained)))

pub refilled-le :
    (r : Rate) (k : String) (now t u : ℤ) (l : RateLimiter)
    → Has l k t u
    → refilled r k now l ≤ℤ t +ℤ scale r.limit (now -ℤ u)
refilled-le r k now t u l h =
    rw (refilled_found r k now t u l h) (min_ℤ-le_right (cap r) (t +ℤ scale r.limit (now -ℤ u)))

pub done-can_proceed :
    (r : Rate) (k : String) (now : ℤ) (l : RateLimiter)
    → (can_proceed r k now l).0 ≡ leb_ℤ (pos r.window) (refilled r k now l)
unfolding can_proceed
done-can_proceed r k now l = ground arith
