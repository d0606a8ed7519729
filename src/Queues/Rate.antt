-- ===== src/Queues/Rate.antt =====
-- How many requests the limiter lets through.
use engine_bot.Shared.{
  ℕ, ◌+◌, ◌*◌, ◌≡◌, inl, inr, String, str_eq, str_eq_self, true, none, List, [], ◌∷◌, arith,
  Bool-cases, String-cases, if◌then◌else◌,
}
use engine_bot.Shared.Int.{ℤ, pos, ◌+ℤ◌, ◌-ℤ◌, ◌≤ℤ◌, leb_ℤ, int_laws}
use engine_bot.Shared.Dict.{lookup}
use engine_bot.Queues.Limiter.{Rate, RateLimiter, scale, cap, refilled, can_proceed}
use engine_bot.Queues.Tokens.{
  scale_nonneg, scale_between, Has-can_proceed, Has-first, refilled_nonneg, refilled-le,
  done-can_proceed, spent, Has,
}

-- A run of requests, each with its key and its time: how many of one key are let through.
abbrev pub grants : Rate → String → List (String × ℤ) → RateLimiter → ℕ
grants r k [] l = 0
grants r k ((j, t) ∷ ts) l =
    let (granted, l') = can_proceed r j t l in
    (if str_eq j k then (if granted then 1 else 0) else 0) + grants r k ts l'

-- The time of the last request of a key.
abbrev pub last_time : String → ℤ → List (String × ℤ) → ℤ
last_time k t [] = t
last_time k t ((j, t') ∷ ts) = last_time k (if str_eq j k then t' else t) ts

-- The times of the requests of a key do not go back.
abbrev pub IsMonotone : String → ℤ → List (String × ℤ) → Type 0
IsMonotone k t [] = Unit
IsMonotone k t ((j, t') ∷ ts) =
    (str_eq j k ≡ true → t ≤ℤ t') × IsMonotone k (if str_eq j k then t' else t) ts

-- One request of the key, and what the later ones `g` may use.
one_request :
    (r : Rate) (k : String) (now last : ℤ) (g : ℕ) (bound : ℤ) (l : RateLimiter)
    → refilled r k now l ≤ℤ bound
    → pos (g * r.window) ≤ℤ spent r k now l +ℤ scale r.limit (last -ℤ now)
    → pos (((if (can_proceed r k now l).0 then 1 else 0) + g) * r.window)
      ≤ℤ bound +ℤ scale r.limit (last -ℤ now)
one_request r k now last g bound l below rest =
    rw (done-can_proceed r k now l) (elim (Bool-cases (leb_ℤ (pos r.window) (refilled r k now l))) [
      | inl granted ↦ rw granted (spend (rw granted at rest))
      | inr refused ↦ rw refused (wait (rw refused at rest))
    ])
  where
    spend :
        pos (g * r.window) ≤ℤ (refilled r k now l -ℤ pos r.window) +ℤ scale r.limit (last -ℤ now)
        → pos ((1 + g) * r.window) ≤ℤ bound +ℤ scale r.limit (last -ℤ now)
    spend q = omega (int_laws, below, q)

    wait :
        pos (g * r.window) ≤ℤ refilled r k now l +ℤ scale r.limit (last -ℤ now)
        → pos ((0 + g) * r.window) ≤ℤ bound +ℤ scale r.limit (last -ℤ now)
    wait q = omega (int_laws, below, q)

spent_nonneg :
    (r : Rate) (k : String) (now : ℤ) (l : RateLimiter)
    → pos 0 ≤ℤ refilled r k now l
    → pos 0 ≤ℤ spent r k now l
unfolding ◌-ℤ◌
spent_nonneg r k now l h = ground arith

grants_bound :
    (r : Rate) (k : String) (ts : List (String × ℤ)) (t u : ℤ) (l : RateLimiter)
    → Has l k t u
    → pos 0 ≤ℤ t
    → IsMonotone k u ts
    → pos (grants r k ts l * r.window) ≤ℤ t +ℤ scale r.limit (last_time k u ts -ℤ u)
grants_bound r k [] t u l h n m =
    let still : pos 0 ≤ℤ u -ℤ u = omega int_laws in
    omega (int_laws, scale_nonneg r.limit (u -ℤ u) still)
grants_bound r k ((j, now) ∷ ts) t u l h n m = elim (String-cases j k) [
  | inr other ↦
      let kept = Has-can_proceed r j k now t u l h in
      let ih =
        grants_bound r k ts t u (can_proceed r j now l).1 (rw other.1 at kept) n
          (rw other.1 at m.1) in
      rw other.1 (omega (arith, ih))
  | inl same ↦
      let later : u ≤ℤ now = m.0 (rw same (str_eq_self k)) in
      let ih =
        grants_bound r k ts (spent r k now l) now (can_proceed r k now l).1 (Has-first r k now l)
          (spent_nonneg r k now l (refilled_nonneg r k now t u l h n later))
          (rw (same, str_eq_self k) at m.1) in
      rw (same, str_eq_self k, scale_between r.limit u now (last_time k now ts))
        (omega (
          int_laws,
          one_request r k now (last_time k now ts) (grants r k ts (can_proceed r k now l).1)
              (t +ℤ scale r.limit (now -ℤ u)) l (refilled-le r k now t u l h) ih,
        ))
]

-- A key that the limiter has not seen.
pub record IsFresh (l : RateLimiter) (k : String) : Type 0 where
  pub no_tokens : lookup k l.tokens ≡ none
  pub no_refill : lookup k l.last_refill ≡ none

refilled_fresh :
    (r : Rate) (k : String) (now : ℤ) (l : RateLimiter) → IsFresh l k → refilled r k now l ≡ cap r
unfolding refilled scale ◌+ℤ◌ ◌-ℤ◌
refilled_fresh r k now l f = ground (arith, f.no_tokens, f.no_refill)

-- The rate limit holds over every run: from the first request of a key, at time `start`, to its
-- last, among requests of any other keys, the limiter lets through at most `limit` requests of
-- the key plus `limit / window` for each unit of the time between. The times of the key do not
-- go back.
pub grants_within_limit :
    (r : Rate) (k : String) (start : ℤ) (ts : List (String × ℤ)) (l : RateLimiter)
    → IsFresh l k
    → IsMonotone k start ts
    → pos (grants r k ((k, start) ∷ ts) l * r.window)
      ≤ℤ pos (r.limit * r.window) +ℤ scale r.limit (last_time k start ts -ℤ start)
grants_within_limit r k start ts l f m =
    let full = refilled_fresh r k start l f in
    let left : pos 0 ≤ℤ spent r k start l = spent_nonneg r k start l (rw full (omega arith)) in
    rw (str_eq_self k) (
      one_request r k start (last_time k start ts) (grants r k ts (can_proceed r k start l).1)
        (cap r) l (rw full (omega arith))
        (grants_bound r k ts (spent r k start l) start (can_proceed r k start l).1
          (Has-first r k start l) left m))
