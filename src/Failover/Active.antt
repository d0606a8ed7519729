-- ===== src/Failover/Active.antt =====
-- ingestion/rpc/failover.py: the active endpoint over a run of the manager.
use engine_bot.Shared.{
  ◌≡◌, inl, inr, String, str_eq, eq_iff, Bool, true, false, Option, none, some, List, [], ◌∷◌,
  arith, if◌then◌else◌,
}
use engine_bot.Shared.Int.{ℤ}
use engine_bot.Shared.Dict.{
  Dict, contains, insert, erase, map_some, IsUnique, contains-insert, contains-erase,
  contains_of_lookup, insert-IsUnique, erase-IsUnique,
}
use engine_bot.Failover.Health
use engine_bot.Failover.Health.{HealthMonitor}
use engine_bot.Failover.Manager.{
  EndpointConfig, FailoverManager, add_endpoint, is_active, remove_endpoint, set_health_monitor,
  select_best, switch_endpoint, keep_or_choose, get_active_endpoint, leave_dead, report_failure,
  report_success,
}
use engine_bot.Failover.Ranking.{select_best-IsBest}

-- The active endpoint, if there is one, is registered.
abbrev pub IsRegistered : Option String → Dict EndpointConfig → Type 0
IsRegistered none d = Unit
IsRegistered (some url) d = contains url d ≡ true

abbrev pub IsInPool : FailoverManager → Type 0
IsInPool m = IsUnique m.endpoints × IsRegistered m.active_endpoint m.endpoints

-- What happens to a manager. The monitor may change between two calls in any way, since its
-- background thread and others write to it.
pub data FailoverStep : Type 0 where
  add : String → ℤ → Bool → FailoverStep
  remove : String → FailoverStep
  set_monitor : HealthMonitor → FailoverStep
  monitor_changes : (HealthMonitor → HealthMonitor) → FailoverStep
  get_active : ℤ → FailoverStep
  failure : String → ℤ → FailoverStep
  success : String → ℤ → FailoverStep

unfoldable pub failover_step : FailoverStep → FailoverManager → FailoverManager
failover_step (add url priority is_primary) m = add_endpoint url priority is_primary m
failover_step (remove url) m = (remove_endpoint url m).1
failover_step (set_monitor monitor) m = set_health_monitor monitor m
failover_step (monitor_changes f) m = record m { health_monitor = map_some f m.health_monitor }
failover_step (get_active now) m = (get_active_endpoint now m).1
failover_step (failure url now) m = report_failure url now m
failover_step (success url now) m = report_success url now m

unfoldable pub failover_run : List FailoverStep → FailoverManager → FailoverManager
failover_run [] m = m
failover_run (s ∷ ss) m = failover_run ss (failover_step s m)

IsRegistered-insert :
    (active : Option String) (url : String) (c : EndpointConfig) (d : Dict EndpointConfig)
    → IsRegistered active d
    → IsRegistered active (insert url c d)
IsRegistered-insert none url c d h = tt
IsRegistered-insert (some active) url c d h = ground (arith, contains-insert url active c d)

IsRegistered-erase :
    (active : Option String) (url : String) (d : Dict EndpointConfig)
    → IsRegistered active d
    → IsRegistered
        (if (elim active as (λ x. Bool) [ none ↦ false | some a ↦ str_eq a url ])
          then none
          else active)
        (erase url d)
IsRegistered-erase none url d h = tt
IsRegistered-erase (some active) url d h =
    ground (arith, contains-erase url active d, eq_iff active url, eq_iff url active)

remove_endpoint-IsInPool :
    (url : String) (m : FailoverManager) → IsInPool m → IsInPool (remove_endpoint url m).1
unfolding remove_endpoint is_active
remove_endpoint-IsInPool url m h = ground (
  arith,
  erase-IsUnique url m.endpoints h.0,
  IsRegistered-erase m.active_endpoint url m.endpoints h.1,
)

select_best-IsRegistered :
    (m : FailoverManager) → IsUnique m.endpoints → IsRegistered (select_best m) m.endpoints
select_best-IsRegistered m u = elim (select_best-IsBest m u) [
  | inl (empty, is) ↦ rw is tt
  | inr (url, is, (config, found, firsts)) ↦ rw is (contains_of_lookup url config m.endpoints found)
]

leave_dead-IsInPool :
    (url : String) (now : ℤ) (m : FailoverManager) → IsInPool m → IsInPool (leave_dead url now m)
unfolding leave_dead switch_endpoint
leave_dead-IsInPool url now m h = ground (arith, select_best-IsRegistered m h.0)

get_active_endpoint-IsInPool :
    (now : ℤ) (m : FailoverManager) → IsInPool m → IsInPool (get_active_endpoint now m).1
unfolding get_active_endpoint keep_or_choose switch_endpoint
get_active_endpoint-IsInPool now m h = ground (arith, select_best-IsRegistered m h.0)

failover_step-IsInPool :
    (s : FailoverStep) (m : FailoverManager) → IsInPool m → IsInPool (failover_step s m)
unfolding failover_step add_endpoint set_health_monitor report_failure report_success
failover_step-IsInPool (add url priority is_primary) m h = (
  insert-IsUnique url _ m.endpoints h.0,
  IsRegistered-insert m.active_endpoint url _ m.endpoints h.1,
)
failover_step-IsInPool (remove url) m h = remove_endpoint-IsInPool url m h
failover_step-IsInPool (set_monitor monitor) m h = h
failover_step-IsInPool (monitor_changes f) m h = h
failover_step-IsInPool (get_active now) m h = get_active_endpoint-IsInPool now m h
failover_step-IsInPool (failure url now) m h =
    let told : FailoverManager = record m {
      health_monitor = map_some (Health.report_failure url now) m.health_monitor;
    } in
    ground (arith, leave_dead-IsInPool url now told h)
failover_step-IsInPool (success url now) m h = h

-- Along every sequence of steps of a manager, whatever happens to its monitor in between, the
-- active endpoint is one of the registered endpoints, whose URLs are distinct.
pub failover_run-IsInPool :
    (ss : List FailoverStep) (m : FailoverManager) → IsInPool m → IsInPool (failover_run ss m)
unfolding failover_run
failover_run-IsInPool [] m h = h
failover_run-IsInPool (s ∷ ss) m h =
    failover_run-IsInPool ss (failover_step s m) (failover_step-IsInPool s m h)
