-- ===== src/Queues/Tests.antt =====
-- The queues at concrete inputs.
use engine_bot.Shared.{ℕ, ◌*◌, ◌≡◌, refl, arith, String, none, some, List, [], ◌∷◌, map}
use engine_bot.Shared.Int.{ℤ, pos, ◌+ℤ◌, ◌-ℤ◌, ◌≤ℤ◌}
use engine_bot.Shared.Dict.{lookup}
use engine_bot.Queues.Limiter.{Rate, RateLimiter, scale}
use engine_bot.Queues.Signals.{SignalQueue, new_queue, get_all, clear}
use engine_bot.Queues.Rate.{IsFresh, IsMonotone, grants, last_time, grants_within_limit}
use engine_bot.Queues.Order.{IsOrdered, Op, pushed, popped, run, of_priority}
use engine_bot.Queues.Drain.{push_all, requests_of, get_all_is_stable_sort, get_all_entries}

abbrev two_per_ten : Rate
two_per_ten = record { limit = 2; window = 10 }

abbrev unused : RateLimiter
unused = record { tokens = []; last_refill = [] }

abbrev requests : List (String × ℤ)
requests = ("api", pos 1) ∷ ("other", pos 1) ∷ ("api", pos 2) ∷ ("api", pos 9) ∷ []

abbrev spent : RateLimiter
spent = record { tokens = ("api", pos 4) ∷ []; last_refill = ("api", pos 7) ∷ [] }

abbrev ops : List (Op ℕ)
ops = pushed 1 (pos 50) ∷ pushed 2 (pos 0) ∷ pushed 3 (pos 50) ∷ popped ∷ []

abbrev signals : List (ℕ × ℤ)
signals = (1, pos 50) ∷ (2, pos 0) ∷ (3, pos 50) ∷ []

abbrev queue : SignalQueue ℕ
queue = run ops (new_queue (some 3))

requests-IsMonotone : IsMonotone "api" (pos 0) requests
requests-IsMonotone =
    (λ e. omega arith, (λ e. omega arith, (λ e. omega arith, (λ e. omega arith, tt))))

unused-IsFresh : IsFresh unused "api"
unfolding lookup
unused-IsFresh = record { no_tokens = refl; no_refill = refl }

grants_within_limit_example :
    pos (grants two_per_ten "api" (("api", pos 0) ∷ requests) unused * 10)
    ≤ℤ pos (2 * 10) +ℤ scale 2 (last_time "api" (pos 0) requests -ℤ pos 0)
grants_within_limit_example =
    grants_within_limit two_per_ten "api" (pos 0) requests unused unused-IsFresh requests-IsMonotone

get_all_is_stable_sort_example :
    ((get_all (push_all signals (new_queue none))).0
      ≡ map (λ e. e.signal) (push_all signals (new_queue none)).entries)
    × IsOrdered (push_all signals (new_queue none)).entries
    × ((k : ℤ) → of_priority k (push_all signals (new_queue none)).entries ≡ requests_of k signals)
get_all_is_stable_sort_example = get_all_is_stable_sort signals

get_all_entries_example :
    (get_all queue ≡ (map (λ e. e.signal) queue.entries, record queue { entries = [] }))
    × (clear queue ≡ record queue { entries = [] })
get_all_entries_example = get_all_entries queue
