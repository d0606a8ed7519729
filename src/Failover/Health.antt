-- ===== src/Failover/Health.antt =====
-- ingestion/rpc/monitor.py, `HealthMonitor`. A score is counted in units of 1/10000, so that
-- 100.0 is 1000000, one error costs 200000, and one microsecond of latency costs 1; errors are
-- counted in halves, since a success takes away half an error. The health check is a parameter:
-- it answers or it raises, after some microseconds.
use engine_bot.Shared.{
  ℕ, ◌+◌, ◌-◌, ◌*◌, String, Bool, true, false, Option, none, some, List, [], ◌∷◌, length, ltb, min,
  if◌then◌else◌,
}
use engine_bot.Shared.Int.{ℤ}
use engine_bot.Shared.Dict.{Dict, lookup, contains, insert, erase, keys, values}

pub record HealthScore : Type 0 where
  pub url : String
  pub score : ℕ
  pub latency : ℕ
  pub half_errors : ℕ
  pub successes : ℕ
  pub last_check : Option ℤ
  pub last_success : Option ℤ
  pub last_error : Option ℤ

pub record HealthMonitor : Type 0 where
  pub scores : Dict HealthScore
  pub is_running : Bool

abbrev pub full_score : ℕ
full_score = 1000000

abbrev pub half_penalty : ℕ
half_penalty = 100000

-- `HealthScore(url=url, score=initial_score)`
unfoldable pub new_score : String → ℕ → HealthScore
new_score url initial = record {
  url = url;
  score = initial;
  latency = 0;
  half_errors = 0;
  successes = 0;
  last_check = none;
  last_success = none;
  last_error = none;
}

unfoldable pub new_monitor : HealthMonitor
new_monitor = record { scores = []; is_running = false }

-- The entry of the URL, or a new one.
unfoldable pub score_or_new : String → ℕ → HealthMonitor → HealthScore
score_or_new url initial m = elim (lookup url m.scores) [
  | none ↦ new_score url initial
  | some s ↦ s
]

unfoldable pub add_endpoint : String → ℕ → HealthMonitor → HealthScore × HealthMonitor
add_endpoint url initial m = (
  score_or_new url initial m,
  (if contains url m.scores
      then m
      else record m { scores = insert url (new_score url initial) m.scores }),
)

unfoldable pub remove_endpoint : String → HealthMonitor → Bool × HealthMonitor
remove_endpoint url m =
    if contains url m.scores then (true, record m { scores = erase url m.scores }) else (false, m)

-- `max(0, 100.0 - errors * 20 - latency_ms * 0.1)`
unfoldable pub score_of : ℕ → ℕ → ℕ
score_of half_errors latency = full_score - half_errors * half_penalty - latency

-- What `check_endpoint` writes after an answer, and what it writes after an exception, whose
-- latency is capped at ten seconds.
unfoldable pub checked : ℕ → ℤ → HealthScore → HealthScore
checked latency now s = record s {
  latency = latency;
  last_check = some now;
  successes = s.successes + 1;
  last_success = some now;
  score = score_of s.half_errors latency;
}

unfoldable pub check_failed : ℕ → ℤ → HealthScore → HealthScore
check_failed latency now s = record s {
  latency = min latency 10000000;
  last_check = some now;
  half_errors = s.half_errors + 2;
  last_error = some now;
  score = score_of (s.half_errors + 2) 0;
}

-- What the health check of a URL did, and the microseconds it took.
pub data CheckResult : Type 0 where
  answered : ℕ → CheckResult
  raised : ℕ → CheckResult

unfoldable pub check_endpoint :
    (String → CheckResult) → ℤ → String → HealthMonitor → HealthScore × HealthMonitor
check_endpoint check now url m =
    let old : HealthScore = score_or_new url full_score m in
    let new : HealthScore = elim (check url) [
      | answered latency ↦ checked latency now old
      | raised latency ↦ check_failed latency now old
    ] in
    (new, record m { scores = insert url new m.scores })

unfoldable pub succeeded : ℤ → HealthScore → HealthScore
succeeded now s = record s {
  successes = s.successes + 1;
  last_success = some now;
  half_errors = s.half_errors - 1;
  score = score_of (s.half_errors - 1) s.latency;
}

unfoldable pub failed : ℤ → HealthScore → HealthScore
failed now s = record s {
  half_errors = s.half_errors + 2;
  last_error = some now;
  score = score_of (s.half_errors + 2) 0;
}

unfoldable pub report_success : String → ℤ → HealthMonitor → HealthMonitor
report_success url now m = elim (lookup url m.scores) [
  | none ↦ m
  | some s ↦ record m { scores = insert url (succeeded now s) m.scores }
]

unfoldable pub report_failure : String → ℤ → HealthMonitor → HealthMonitor
report_failure url now m = record m {
  scores = insert url (failed now (score_or_new url full_score m)) m.scores;
}

unfoldable pub start_background_monitoring : HealthMonitor → HealthMonitor
start_background_monitoring m = if m.is_running then m else record m { is_running = true }

unfoldable pub stop_background_monitoring : HealthMonitor → HealthMonitor
stop_background_monitoring m = record m { is_running = false }

-- The loop over the URLs of one round of the background thread, which nothing stops midway.
unfoldable pub check_urls : (String → CheckResult) → ℤ → List String → HealthMonitor → HealthMonitor
check_urls check now [] m = m
check_urls check now (url ∷ urls) m = check_urls check now urls (check_endpoint check now url m).1

unfoldable pub background_round : (String → CheckResult) → ℤ → HealthMonitor → HealthMonitor
background_round check now m = if m.is_running then check_urls check now (keys m.scores) m else m

unfoldable pub get_score : String → HealthMonitor → Option HealthScore
get_score url m = lookup url m.scores

-- `max` by the score: the first of the largest.
unfoldable pub best_of : HealthScore → List HealthScore → HealthScore
best_of best [] = best
best_of best (s ∷ ss) = best_of (if ltb best.score s.score then s else best) ss

unfoldable pub get_best_endpoint : HealthMonitor → Option String
get_best_endpoint m = elim (values m.scores) [
  | [] ↦ none
  | s ∷ ss ↦ let best = best_of s ss in if ltb 0 best.score then some best.url else none
]

-- The sums of `get_metrics`, of which the average is the quotient.
pub record Metrics : Type 0 where
  pub endpoints : ℕ
  pub total_half_errors : ℕ
  pub total_successes : ℕ
  pub total_score : ℕ
  pub is_running : Bool

abbrev pub total : (HealthScore → ℕ) → List HealthScore → ℕ
total f [] = 0
total f (s ∷ ss) = f s + total f ss

unfoldable pub get_metrics : HealthMonitor → Metrics
get_metrics m = record {
  endpoints = length m.scores;
  total_half_errors = total (λ s. s.half_errors) (values m.scores);
  total_successes = total (λ s. s.successes) (values m.scores);
  total_score = total (λ s. s.score) (values m.scores);
  is_running = m.is_running;
}
