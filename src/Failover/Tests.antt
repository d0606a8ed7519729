-- ===== src/Failover/Tests.antt =====
-- The monitor and the choice of the endpoint at concrete inputs.
use engine_bot.Shared.{
  ◌≡◌, refl, String, str_eq, true, false, none, some, List, [], ◌∷◌, arith, if◌then◌else◌,
}
use engine_bot.Shared.Int.{pos, ◌-ℤ◌, ◌*ℤ◌}
use engine_bot.Shared.Dict.{lookup, contains, insert, erase, map_some, IsUnique}
use engine_bot.Failover.Health
use engine_bot.Failover.Health.{
  HealthScore, HealthMonitor, CheckResult, answered, raised, full_score, new_monitor,
  background_round, get_best_endpoint, get_metrics,
}
use engine_bot.Failover.Scores.{MonitorStep, IsSound, monitor_run, monitor_run-IsSound}
use engine_bot.Failover.Scores
use engine_bot.Failover.Manager
use engine_bot.Failover.Manager.{FailoverManager, new_manager, add_endpoint, get_active_endpoint}
use engine_bot.Failover.Active.{FailoverStep, IsInPool, failover_run, failover_run-IsInPool}
use engine_bot.Failover.Active

abbrev checks : String → CheckResult
checks url = if str_eq url "b" then raised 20000000 else answered 150000

-- Two endpoints, one round that fails for the second, and a failure of the first.
abbrev history : List MonitorStep
history =
    Scores.add "a" 1000000
    ∷ Scores.add "b" 1000000
    ∷ Scores.start
    ∷ Scores.check_round checks (pos 1)
    ∷ Scores.failure "a" (pos 2)
    ∷ []

monitor_run-IsSound_example : IsSound (monitor_run history new_monitor)
unfolding new_monitor
monitor_run-IsSound_example =
    monitor_run-IsSound history new_monitor (omega arith, (omega arith, (tt, (tt, (tt, tt)))))
      (tt, tt)

abbrev watched : HealthMonitor
watched = monitor_run history new_monitor

a_score :
    map_some (λ s. s) (lookup "a" watched.scores)
    ≡ some (record {
      url = "a";
      score = 800000;
      latency = 150000;
      half_errors = 2;
      successes = 1;
      last_check = some (pos 1);
      last_success = some (pos 1);
      last_error = some (pos 2);
    })
unfolding lookup monitor_run Scores.monitor_step Health.report_failure insert background_round
    Health.start_background_monitoring Health.add_endpoint contains new_monitor Health.check_urls
    Health.check_endpoint Health.failed Health.score_or_new Health.score_of Health.checked
    Health.new_score
a_score = refl

-- An exception costs 20 points, and its latency is capped.
b_score :
    map_some (λ s. s) (lookup "b" watched.scores)
    ≡ some (record {
      url = "b";
      score = 800000;
      latency = 10000000;
      half_errors = 2;
      successes = 0;
      last_check = some (pos 1);
      last_success = none;
      last_error = some (pos 1);
    })
unfolding lookup monitor_run Scores.monitor_step Health.report_failure insert background_round
    Health.start_background_monitoring Health.add_endpoint contains new_monitor Health.check_urls
    Health.check_endpoint Health.check_failed Health.score_or_new Health.score_of Health.new_score
b_score = refl

watched-IsUnique : IsUnique watched.scores
watched-IsUnique = monitor_run-IsSound_example.0

watched_runs : watched.is_running ≡ true
unfolding monitor_run Scores.monitor_step Health.report_failure background_round
    Health.start_background_monitoring Health.add_endpoint contains new_monitor insert
    Health.check_urls Health.check_endpoint
watched_runs = refl

abbrev a_entry : HealthScore
a_entry = record {
  url = "a";
  score = 800000;
  latency = 150000;
  half_errors = 2;
  successes = 1;
  last_check = some (pos 1);
  last_success = some (pos 1);
  last_error = some (pos 2);
}

a_found : lookup "a" watched.scores ≡ some a_entry
unfolding lookup monitor_run Scores.monitor_step Health.report_failure insert background_round
    Health.start_background_monitoring Health.add_endpoint contains new_monitor Health.check_urls
    Health.check_endpoint Health.failed Health.score_or_new Health.score_of Health.checked
    Health.new_score
a_found = refl

-- The first of equal scores.
best_is_a : get_best_endpoint watched ≡ some "a"
unfolding get_best_endpoint monitor_run Scores.monitor_step Health.report_failure insert
    background_round Health.start_background_monitoring Health.add_endpoint contains new_monitor
    Health.check_urls Health.check_endpoint Health.best_of Health.failed Health.score_of
    Health.score_or_new lookup Health.check_failed Health.checked Health.new_score
    Health.remove_endpoint Health.report_success Health.stop_background_monitoring Health.succeeded
    erase
best_is_a = refl

abbrev pool : FailoverManager
pool =
    add_endpoint "b" (pos 1) false (add_endpoint "a" (pos 2) true (new_manager (some new_monitor)))

-- The smaller priority number is preferred.
b_is_chosen : (get_active_endpoint (pos 3) pool).0 ≡ some "b"
unfolding get_active_endpoint add_endpoint insert new_manager Manager.keep_or_choose
    Manager.healthy_active Manager.select_best Manager.is_before Manager.candidate Manager.score_for
    Health.get_score lookup Manager.register Health.add_endpoint contains new_monitor ◌-ℤ◌
    Health.new_score Health.score_or_new Manager.switch_endpoint ◌*ℤ◌
b_is_chosen = refl

empty-IsInPool : IsInPool (new_manager none)
unfolding new_manager
empty-IsInPool = (tt, tt)

abbrev changes : List FailoverStep
changes =
    Active.add "a" (pos 0) true
    ∷ Active.get_active (pos 1)
    ∷ Active.remove "a"
    ∷ Active.add "b" (pos 1) false
    ∷ Active.get_active (pos 2)
    ∷ []

failover_run-IsInPool_example : IsInPool (failover_run changes (new_manager none))
failover_run-IsInPool_example = failover_run-IsInPool changes (new_manager none) empty-IsInPool
