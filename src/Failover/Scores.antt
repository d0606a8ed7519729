-- ===== src/Failover/Scores.antt =====
-- ingestion/rpc/monitor.py: the bounds of the scores, recovery, and the best endpoint.
use engine_bot.Shared.{
  ℕ, ◌-◌, ◌*◌, ◌≤◌, ◌≡◌, refl, inl, inr, String, List, [], ◌∷◌, All, arith, Bool-cases,
  Option-cases,
}
use engine_bot.Shared.Int.{ℤ}
use engine_bot.Shared.Dict.{
  lookup, contains, insert, keys, IsUnique, insert-IsUnique, erase-IsUnique, All-insert, All-erase,
  All-lookup,
}
use engine_bot.Failover.Health.{
  HealthScore, HealthMonitor, CheckResult, full_score, half_penalty, new_score, score_or_new,
  add_endpoint, remove_endpoint, score_of, checked, check_failed, check_endpoint, succeeded, failed,
  report_success, report_failure, start_background_monitoring, stop_background_monitoring,
  check_urls, background_round,
}

-- An entry stands under its URL, and its errors keep its score down.
abbrev pub IsFair : String × HealthScore → Type 0
IsFair e = (e.1.url ≡ e.0) × (e.1.score ≤ full_score - e.1.half_errors * half_penalty)

abbrev pub IsSound : HealthMonitor → Type 0
IsSound m = IsUnique m.scores × All IsFair m.scores

-- What changes a monitor.
pub data MonitorStep : Type 0 where
  add : String → ℕ → MonitorStep
  remove : String → MonitorStep
  check : (String → CheckResult) → ℤ → String → MonitorStep
  check_round : (String → CheckResult) → ℤ → MonitorStep
  success : String → ℤ → MonitorStep
  failure : String → ℤ → MonitorStep
  start : MonitorStep
  stop : MonitorStep

unfoldable pub monitor_step : MonitorStep → HealthMonitor → HealthMonitor
monitor_step (add url initial) m = (add_endpoint url initial m).1
monitor_step (remove url) m = (remove_endpoint url m).1
monitor_step (check callable now url) m = (check_endpoint callable now url m).1
monitor_step (check_round callable now) m = background_round callable now m
monitor_step (success url now) m = report_success url now m
monitor_step (failure url now) m = report_failure url now m
monitor_step start m = start_background_monitoring m
monitor_step stop m = stop_background_monitoring m

unfoldable pub monitor_run : List MonitorStep → HealthMonitor → HealthMonitor
monitor_run [] m = m
monitor_run (s ∷ ss) m = monitor_run ss (monitor_step s m)

-- An endpoint starts with at most the full score.
abbrev pub StartsFairly : MonitorStep → Type 0
StartsFairly (add url initial) = initial ≤ full_score
StartsFairly (remove url) = Unit
StartsFairly (check callable now url) = Unit
StartsFairly (check_round callable now) = Unit
StartsFairly (success url now) = Unit
StartsFairly (failure url now) = Unit
StartsFairly start = Unit
StartsFairly stop = Unit

put-IsSound :
    (url : String) (s : HealthScore) (m : HealthMonitor)
    → IsSound m
    → IsFair (url, s)
    → IsSound (record m { scores = insert url s m.scores })
put-IsSound url s m h fair =
    (insert-IsUnique url s m.scores h.0, All-insert IsFair url s m.scores h.1 fair)

score_or_new-IsFair :
    (url : String) (initial : ℕ) (m : HealthMonitor)
    → IsSound m
    → initial ≤ full_score
    → IsFair (url, score_or_new url initial m)
unfolding score_or_new new_score
score_or_new-IsFair url initial m h low = elim (Option-cases (lookup url m.scores)) [
  | inl absent ↦ rw (absent, score_or_new) (refl, omega arith)
  | inr (s, found) ↦ rw (found, score_or_new) (All-lookup IsFair url s m.scores h.1 found)
]

check_endpoint-IsSound :
    (callable : String → CheckResult) (now : ℤ) (url : String) (m : HealthMonitor)
    → IsSound m
    → IsSound (check_endpoint callable now url m).1
unfolding check_endpoint checked check_failed score_of
check_endpoint-IsSound callable now url m h =
    let fair = score_or_new-IsFair url full_score m h (omega arith) in
    put-IsSound url _ m h (ground arith)

check_urls-IsSound :
    (callable : String → CheckResult) (now : ℤ) (urls : List String) (m : HealthMonitor)
    → IsSound m
    → IsSound (check_urls callable now urls m)
unfolding check_urls
check_urls-IsSound callable now [] m h = h
check_urls-IsSound callable now (url ∷ urls) m h =
    check_urls-IsSound callable now urls _ (check_endpoint-IsSound callable now url m h)

report_success-IsSound :
    (url : String) (now : ℤ) (m : HealthMonitor) → IsSound m → IsSound (report_success url now m)
unfolding report_success succeeded score_of
report_success-IsSound url now m h = elim (Option-cases (lookup url m.scores)) [
  | inl absent ↦ rw (absent, report_success) h
  | inr (s, found) ↦
      let fair = All-lookup IsFair url s m.scores h.1 found in
      rw (found, report_success) (put-IsSound url (succeeded now s) m h (fair.0, omega arith))
]

report_failure-IsSound :
    (url : String) (now : ℤ) (m : HealthMonitor) → IsSound m → IsSound (report_failure url now m)
unfolding report_failure failed score_of
report_failure-IsSound url now m h =
    let fair = score_or_new-IsFair url full_score m h (omega arith) in
    put-IsSound url _ m h (fair.0, omega arith)

monitor_step-IsSound :
    (s : MonitorStep) (m : HealthMonitor) → StartsFairly s → IsSound m → IsSound (monitor_step s m)
unfolding monitor_step add_endpoint remove_endpoint background_round start_background_monitoring
    stop_background_monitoring new_score
monitor_step-IsSound (add url initial) m low h = elim (Bool-cases (contains url m.scores)) [
  | inl known ↦ rw known h
  | inr new ↦ rw new (put-IsSound url (new_score url initial) m h (refl, omega arith))
]
monitor_step-IsSound (remove url) m low h =
    ground (arith, erase-IsUnique url m.scores h.0, All-erase IsFair url m.scores h.1)
monitor_step-IsSound (check callable now url) m low h = check_endpoint-IsSound callable now url m h
monitor_step-IsSound (check_round callable now) m low h =
    ground (arith, check_urls-IsSound callable now (keys m.scores) m h)
monitor_step-IsSound (success url now) m low h = report_success-IsSound url now m h
monitor_step-IsSound (failure url now) m low h = report_failure-IsSound url now m h
monitor_step-IsSound start m low h = ground arith
monitor_step-IsSound stop m low h = h

-- Along every sequence of steps of a monitor, in which no endpoint is added with more than the
-- full score: each URL has one entry, the entry bears the URL, and its score is at most 100 less
-- 20 for each error counted against it, or 0 where that is negative.
pub monitor_run-IsSound :
    (ss : List MonitorStep) (m : HealthMonitor)
    → All StartsFairly ss
    → IsSound m
    → IsSound (monitor_run ss m)
unfolding monitor_run
monitor_run-IsSound [] m low h = h
monitor_run-IsSound (s ∷ ss) m low h =
    monitor_run-IsSound ss (monitor_step s m) low.1 (monitor_step-IsSound s m low.0 h)
