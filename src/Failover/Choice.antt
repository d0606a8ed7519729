-- ===== src/Failover/Choice.antt =====
-- ingestion/rpc/failover.py: which endpoint is in use.
use engine_bot.Shared.{◌<◌, ◌≡◌, ◌⊎◌, String, some}
use engine_bot.Shared.Int.{ℤ}
use engine_bot.Shared.Dict.{Dict}
use engine_bot.Failover.Health
use engine_bot.Failover.Health.{HealthScore}
use engine_bot.Failover.Manager.{FailoverManager, get_active_endpoint}
use engine_bot.Failover.Ranking.{known_score, IsBest}

-- The active endpoint is healthy: there is a score for it, and it is above 50.
abbrev pub IsHealthyActive : FailoverManager → String → Type 0
IsHealthyActive m url =
    (m.active_endpoint ≡ some url)
    × ((s : HealthScore) × (known_score m url ≡ some s) × (500000 < s.score))

-- No endpoint is active and healthy.
abbrev pub IsIdle : FailoverManager → Type 0
IsIdle m = (url : String) → ¬ IsHealthyActive m url

-- What `get_active_endpoint` promises of the endpoint that it answers.
abbrev pub IsChoice : ℤ → FailoverManager → String → Type 0
IsChoice now m url =
    ((get_active_endpoint now m).0 ≡ some url)
    × ((get_active_endpoint now m).1.active_endpoint ≡ some url)
    × ((get_active_endpoint now m).1.endpoints ≡ m.endpoints)
    × (IsHealthyActive m url ⊎ (IsIdle m × IsBest m url))
