-- ===== src/Failover/Manager.antt =====
-- ingestion/rpc/failover.py, `FailoverManager`. Scores are those of Health, so that a priority
-- counts 100000 in the effective score. The health monitor that the manager holds is a part of
-- its state.
use engine_bot.Shared.{
  String, str_eq, Bool, true, false, Option, none, some, List, [], ◌∷◌, map, keep, ltb, leb,
  if◌then◌else◌,
}
use engine_bot.Shared.Int.{ℤ, pos, ◌-ℤ◌, ◌*ℤ◌, ltb_ℤ}
use engine_bot.Shared.Dict.{Dict, contains, insert, erase, keys, map_some}
use engine_bot.Failover.Health
use engine_bot.Failover.Health.{HealthScore, HealthMonitor, full_score}

pub record EndpointConfig : Type 0 where
  pub url : String
  pub priority : ℤ
  pub is_primary : Bool

pub record FailoverManager : Type 0 where
  pub endpoints : Dict EndpointConfig
  pub health_monitor : Option HealthMonitor
  pub active_endpoint : Option String
  pub last_switch_time : Option ℤ

unfoldable pub new_manager : Option HealthMonitor → FailoverManager
new_manager monitor = record {
  endpoints = [];
  health_monitor = monitor;
  active_endpoint = none;
  last_switch_time = none;
}

-- `monitor.add_endpoint(url)`
unfoldable pub register : String → HealthMonitor → HealthMonitor
register url monitor = (Health.add_endpoint url full_score monitor).1

unfoldable pub add_endpoint : String → ℤ → Bool → FailoverManager → FailoverManager
add_endpoint url priority is_primary m = record m {
  endpoints =
      insert url (record { url = url; priority = priority; is_primary = is_primary }) m.endpoints;
  health_monitor = map_some (register url) m.health_monitor;
}

-- `self._active_endpoint == url`
unfoldable pub is_active : String → FailoverManager → Bool
is_active url m = elim m.active_endpoint [ none ↦ false | some active ↦ str_eq active url ]

unfoldable pub remove_endpoint : String → FailoverManager → Bool × FailoverManager
remove_endpoint url m =
    if contains url m.endpoints
    then (
      true,
      record m {
        endpoints = erase url m.endpoints;
        active_endpoint = if is_active url m then none else m.active_endpoint;
      },
    )
    else (false, m)

abbrev pub register_all : List String → HealthMonitor → HealthMonitor
register_all [] monitor = monitor
register_all (url ∷ urls) monitor = register_all urls (register url monitor)

unfoldable pub set_health_monitor : HealthMonitor → FailoverManager → FailoverManager
set_health_monitor monitor m = record m {
  health_monitor = some (register_all (keys m.endpoints) monitor);
}

-- `_get_score(url)`
unfoldable pub score_for : String → FailoverManager → Option HealthScore
score_for url m = elim m.health_monitor [
  | none ↦ none
  | some monitor ↦ Health.get_score url monitor
]

pub record Candidate : Type 0 where
  pub effective_score : ℤ
  pub priority : ℤ
  pub url : String

-- The candidate that the loop makes of an item of the endpoints.
unfoldable pub candidate : FailoverManager → String × EndpointConfig → Candidate
candidate m e = record {
  effective_score = elim (score_for e.0 m) [
    | some s ↦ pos s.score -ℤ e.1.priority *ℤ pos 100000
    | none ↦ pos 0 -ℤ e.1.priority *ℤ pos 100000
  ];
  priority = e.1.priority;
  url = e.0;
}

-- The order of the sort: `(-x[0], x[1])` of the first is less than that of the second.
unfoldable pub is_before : Candidate → Candidate → Bool
is_before a b =
    if ltb_ℤ b.effective_score a.effective_score
    then true
    else if ltb_ℤ a.effective_score b.effective_score
    then false
    else ltb_ℤ a.priority b.priority

-- The stable sort: a candidate goes in front of those that are not before it.
abbrev pub place : Candidate → List Candidate → List Candidate
place c [] = c ∷ []
place c (x ∷ xs) = let rest = place c xs in if is_before x c then x ∷ rest else c ∷ x ∷ xs

abbrev pub sort : List Candidate → List Candidate
sort [] = []
sort (c ∷ cs) = place c (sort cs)

-- `candidates[0][2]` after the sort; there are no candidates only where there are no endpoints.
unfoldable pub select_best : FailoverManager → Option String
select_best m = elim (sort (map (candidate m) m.endpoints)) [ [] ↦ none | c ∷ cs ↦ some c.url ]

unfoldable pub switch_endpoint : Option String → ℤ → FailoverManager → FailoverManager
switch_endpoint url now m = record m { active_endpoint = url; last_switch_time = some now }

abbrev pub is_same : Option String → Option String → Bool
is_same none none = true
is_same none (some b) = false
is_same (some a) none = false
is_same (some a) (some b) = str_eq a b

-- The active endpoint if there is one and its score is above 50.
unfoldable pub healthy_active : FailoverManager → Option String
healthy_active m = elim m.active_endpoint [
  | none ↦ none
  | some active ↦ elim (score_for active m) [
    | none ↦ none
    | some s ↦ if ltb 500000 s.score then some active else none
  ]
]

-- `get_active_endpoint` where there is an endpoint.
unfoldable pub keep_or_choose : ℤ → FailoverManager → Option String × FailoverManager
keep_or_choose now m = elim (healthy_active m) [
  | some active ↦ (some active, m)
  | none ↦ (
    select_best m,
    (if is_same (select_best m) m.active_endpoint
        then m
        else switch_endpoint (select_best m) now m),
  )
]

unfoldable pub get_active_endpoint : ℤ → FailoverManager → Option String × FailoverManager
get_active_endpoint now m = elim m.endpoints [ [] ↦ (none, m) | e ∷ es ↦ keep_or_choose now m ]

-- The check of `report_failure`, after the monitor has been told.
unfoldable pub leave_dead : String → ℤ → FailoverManager → FailoverManager
leave_dead url now m = elim (score_for url m) [
  | none ↦ m
  | some s ↦
      if leb s.score 0
      then if is_same (select_best m) (some url) then m else switch_endpoint (select_best m) now m
      else m
]

unfoldable pub report_failure : String → ℤ → FailoverManager → FailoverManager
report_failure url now m =
    let told : FailoverManager = record m {
      health_monitor = map_some (Health.report_failure url now) m.health_monitor;
    } in
    if is_active url told then leave_dead url now told else told

unfoldable pub report_success : String → ℤ → FailoverManager → FailoverManager
report_success url now m = record m {
  health_monitor = map_some (Health.report_success url now) m.health_monitor;
}

unfoldable pub get_endpoints : FailoverManager → List String
get_endpoints m = keys m.endpoints

-- `score is not None and score.score > 0`
unfoldable pub is_healthy : FailoverManager → String → Bool
is_healthy m url = elim (score_for url m) [ none ↦ false | some s ↦ ltb 0 s.score ]

unfoldable pub get_healthy_endpoints : FailoverManager → List String
get_healthy_endpoints m = keep (is_healthy m) (keys m.endpoints)
