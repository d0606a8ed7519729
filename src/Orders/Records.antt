-- ===== src/Orders/Records.antt =====
-- The dictionary form of a position, and the statistics of the manager.
use engine_bot.Shared.{
  ℕ, suc, ◌+◌, ◌≡◌, refl, inl, inr, String, str_eq, eq_iff, Bool, false, some, List, [], ◌∷◌,
  length, keep, arith, Option-cases, if◌then◌else◌,
}
use engine_bot.Shared.Int.{ℤ, is_zero}
use engine_bot.Shared.Dict.{Dict, lookup, insert, lookup-insert}
use engine_bot.Orders.Position.{
  PositionStatus, PositionState, status_value, status_of, post_init, IsoFormat, IsPrintable,
  to_dict, read_close_ts, from_dict,
}
use engine_bot.Orders.Manager.{OrderManager, HistoryEntry}
use engine_bot.Orders.Reports.{is_close, or_zero, count_reasons, get_stats}

status_of-status_value : (s : PositionStatus) → status_of (status_value s) ≡ some s
unfolding status_of status_value
status_of-status_value PositionStatus.pending = refl
status_of-status_value PositionStatus.active = refl
status_of-status_value PositionStatus.partial = refl
status_of-status_value PositionStatus.closed = refl
status_of-status_value PositionStatus.expired = refl

-- A position that is written to a dictionary and read back is the one that was written, but for
-- a remaining size of zero, which comes back as the full size. The times must read back as they
-- were printed.
pub from_dict-to_dict :
    (iso : IsoFormat) (p : PositionState)
    → IsPrintable iso p.entry_ts
    → IsPrintable iso p.ttl_expires_at
    → ((t : ℤ) → p.close_ts ≡ some t → IsPrintable iso t)
    → from_dict iso (to_dict iso p)
      ≡ some (record p {
        remaining_size_usd =
            if is_zero p.remaining_size_usd then p.size_usd else p.remaining_size_usd;
      })
unfolding from_dict to_dict read_close_ts post_init
from_dict-to_dict iso p entered expires closes = elim (Option-cases p.close_ts) [
  | inl unset ↦
      ground (arith, unset, entered.reads_back, expires.reads_back, status_of-status_value p.status)
  | inr (t, e) ↦ ground (
    arith,
    e,
    entered.reads_back,
    expires.reads_back,
    (closes t e).reads_back,
    (closes t e).not_empty,
    status_of-status_value p.status,
  )
]

abbrev pub sum_counts : Dict ℕ → ℕ
sum_counts [] = 0
sum_counts (e ∷ d) = e.1 + sum_counts d

sum_counts-insert :
    (k : String) (d : Dict ℕ)
    → sum_counts (insert k (suc (or_zero (lookup k d))) d) ≡ suc (sum_counts d)
unfolding insert lookup
sum_counts-insert k [] = refl
sum_counts-insert k (e ∷ d) = ground (arith, sum_counts-insert k d)

sum_counts-count_reasons :
    (hs : List HistoryEntry) (d : Dict ℕ)
    → sum_counts (count_reasons hs d) ≡ sum_counts d + length hs
unfolding count_reasons
sum_counts-count_reasons [] d = omega arith
sum_counts-count_reasons (h ∷ hs) d = omega (
  arith,
  sum_counts-insert h.reason d,
  sum_counts-count_reasons hs (insert h.reason (suc (or_zero (lookup h.reason d))) d),
)

-- The history entries that are full closes for one reason.
abbrev pub is_close_for : String → HistoryEntry → Bool
is_close_for reason h = if is_close h then str_eq h.reason reason else false

count_reasons-lookup :
    (reason : String) (hs : List HistoryEntry) (d : Dict ℕ)
    → or_zero (lookup reason (count_reasons hs d))
      ≡ or_zero (lookup reason d) + length (keep (λ h. str_eq h.reason reason) hs)
unfolding count_reasons
count_reasons-lookup reason [] d = omega arith
count_reasons-lookup reason (h ∷ hs) d = ground (
  arith,
  eq_iff h.reason reason,
  lookup-insert h.reason reason (suc (or_zero (lookup h.reason d))) d,
  count_reasons-lookup reason hs (insert h.reason (suc (or_zero (lookup h.reason d))) d),
)

keep-keep :
    (reason : String) (hs : List HistoryEntry)
    → keep (λ h. str_eq h.reason reason) (keep is_close hs) ≡ keep (is_close_for reason) hs
keep-keep reason [] = refl
keep-keep reason (h ∷ hs) = ground (arith, keep-keep reason hs)

-- The statistics agree with the history: the counts by reason add up to the number of full
-- closes, and each reason is counted as often as a full close in the history names it.
pub get_stats_counts :
    (m : OrderManager)
    → (sum_counts (get_stats m).close_reasons ≡ (get_stats m).total_closed)
      × ((reason : String)
          → or_zero (lookup reason (get_stats m).close_reasons)
            ≡ length (keep (is_close_for reason) m.history))
unfolding get_stats lookup
get_stats_counts m = (
  omega (arith, sum_counts-count_reasons (keep is_close m.history) []),
  λ reason.
      ground (
        arith,
        keep-keep reason m.history,
        count_reasons-lookup reason (keep is_close m.history) [],
      ),
)
