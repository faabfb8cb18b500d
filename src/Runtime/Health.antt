-- ===== src/Runtime/Health.antt =====
-- packages/runtime/src/HealthManager.ts. What a check comes to, by its name, is a parameter of the
-- call, and so are the clock's readings before and after it. While `readiness` awaits its checks
-- nothing else uses the manager here: that a check is registered or removed meanwhile, which the
-- loop over the map would see, and that two calls of `readiness` overlap, are left out. `uptimeMs` and the timestamps, which
-- the process and the clock give, are left out.
mod Tests
pub mod Readiness
use agent_os.Base.{
  ℕ, ◌-◌, String, string_eq, Bool, true, false, not, List, [], ◌∷◌, ◌++◌, Option, none, some, ◌==◌,
  if◌then◌else◌, Eq, eq_of_discrete,
}
use agent_os.Base.Map.{Map, put, remove}

pub data HealthStatus : Type 0 where
  ok degraded down : HealthStatus

unfoldable pub HealthStatus-discrete : Discrete HealthStatus
HealthStatus-discrete = hlevel

instance abbrev pub status_eq : Eq HealthStatus
status_eq = eq_of_discrete HealthStatus-discrete

pub record HealthCheckResult : Type 0 where
  pub name : String
  pub status : HealthStatus
  pub message : Option String
  pub latency_ms : Option ℕ

-- What a check comes to: a result, or a throw with its message.
pub data Checked : Type 0 where
  result : HealthCheckResult → Checked
  threw : (message : String) → Checked

-- A call of a check between two readings of the clock.
pub record Call : Type 0 where
  pub began : ℕ
  pub ended : ℕ
  pub answer : Checked

any_status : HealthStatus → List HealthCheckResult → Bool
unfolding HealthStatus-discrete
any_status status [] = false
any_status status (c ∷ checks) = if c.status == status then true else any_status status checks

unfoldable pub aggregate_status : List HealthCheckResult → HealthStatus
unfolding any_status HealthStatus-discrete
aggregate_status checks =
    if any_status down checks then down else if any_status degraded checks then degraded else ok

-- The check functions, here of a type `C`, by their names, and the last readiness.
pub record HealthManager (C : Type 0) : Type 0 where
  pub checks : Map String C
  pub last_ready : Bool

-- The result of a check of a name, with the time that it took.
unfoldable pub check_result : String → ℕ → Checked → HealthCheckResult
check_result name latency (result r) = record r { name = name; latency_ms = some latency }
check_result name latency (threw message) = record {
  name = name;
  status = down;
  message = some message;
  latency_ms = some latency;
}

-- A transition that the logger is told of: from and to.
pub record Transition : Type 0 where
  pub was_ready : Bool
  pub is_ready : Bool

-- `ready !== lastReady`
abbrev pub differs : Bool → Bool → Bool
differs true b = not b
differs false b = b

module _ {C : Type 0} where
  abbrev from_config : Map String C → Map String C → Map String C
  from_config m [] = m
  from_config m ((name, check) ∷ checks) = from_config (put m name check) checks

  unfoldable pub create_health_manager : List (String × C) → HealthManager C
  create_health_manager checks = record { checks = from_config [] checks; last_ready = false }

  unfoldable pub register : String → C → HealthManager C → HealthManager C
  register name check m = record m { checks = put m.checks name check }

  unfoldable pub unregister : String → HealthManager C → HealthManager C
  unregister name m = record m { checks = remove m.checks name }

  -- `runChecks`: one call of each check, in the order of the map.
  unfoldable pub run_checks : (String → C → Call) → Map String C → List HealthCheckResult
  unfolding check_result
  run_checks call [] = []
  run_checks call ((name, check) ∷ checks) =
      let c = call name check in
      check_result name (c.ended - c.began) c.answer ∷ run_checks call checks

  unfoldable pub liveness : HealthManager C → HealthStatus × List HealthCheckResult
  liveness m = (ok, [])

  -- The manager after the checks, what the logger is told, and the report: whether it is ready,
  -- with the results.
  abbrev pub report :
      HealthManager C
      → Bool
      → List HealthCheckResult
      → HealthManager C × Option Transition × Bool × List HealthCheckResult
  report m ready results =
      if differs ready m.last_ready
      then (
        record m { last_ready = ready },
        some (record { was_ready = m.last_ready; is_ready = ready }),
        ready,
        results,
      )
      else (m, none, ready, results)

  unfoldable pub readiness :
      (String → C → Call)
      → HealthManager C
      → HealthManager C × Option Transition × Bool × List HealthCheckResult
  unfolding HealthStatus-discrete run_checks aggregate_status
  readiness call m =
      let results = run_checks call m.checks in report m (aggregate_status results == ok) results

  unfoldable pub is_ready : HealthManager C → Bool
  is_ready m = m.last_ready
