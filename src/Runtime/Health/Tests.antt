-- ===== src/Runtime/Health/Tests.antt =====
-- The readiness with two checks.
use agent_os.Runtime.Health.{HealthStatus, ok, Call, result, threw, HealthManager, readiness}
use agent_os.Runtime.Health.Readiness.{AreResults, AreUp, readiness_report}
use agent_os.Base.{String, string_eq, true, [], ◌∷◌, none, ◌≡◌, ◌↔◌, ◌==◌, if◌then◌else◌}

-- A check is here the status that it answers.
abbrev call_of : String → HealthStatus → Call
call_of name status = record {
  began = 2;
  ended = 5;
  answer =
      if name == "cache"
      then threw "offline"
      else result (record { name = ""; status = status; message = none; latency_ms = none });
}

abbrev manager : HealthManager HealthStatus
manager = record { checks = ("database", ok) ∷ ("cache", ok) ∷ []; last_ready = true }

readiness_report_example :
    let (m', logged, ready, results) = readiness call_of manager in
    AreResults call_of manager.checks results
    × ((ready ≡ true) ↔ AreUp call_of manager.checks)
    × (m'.last_ready ≡ ready)
    × (m'.checks ≡ manager.checks)
    × ((logged ≡ none) ↔ (ready ≡ manager.last_ready))
readiness_report_example = readiness_report call_of manager
