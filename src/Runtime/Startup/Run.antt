-- ===== src/Runtime/Startup/Run.antt =====
-- packages/runtime/src/StartupManager.ts: `createStartupManager`. Between two `await`s the manager
-- runs on its own; what settles an `await`, and the timer, are events. The clock's readings come
-- with the events. A second call of `start` before the first has ended is not modelled.
pub mod Ready
pub mod Rollback
pub mod Success
mod Tests
use agent_os.Runtime.Startup.{StartupStep, topological_sort}
use agent_os.Base.{
  ℕ, ◌+◌, ◌-◌, String, string_eq, Bool, true, false, not, List, [], ◌∷◌, ◌++◌, reverse, Option,
  none, some, ◌==◌, if◌then◌else◌, includes, keep,
}

pub data Phase : Type 0 where
  idle starting running failed rolled_back : Phase

pub record StartupStatus : Type 0 where
  pub phase : Phase
  pub started_steps : List String
  pub failed_step : Option String
  pub duration_ms : Option ℕ

-- What the run waits for: the `startup` of a step, with the steps after it, or the `rollback` of a
-- step, with the names after it, or nothing, when `runSteps` has ended or has not begun.
pub data Waiting : Type 0 where
  nothing : Waiting
  startup : StartupStep → List StartupStep → Waiting
  rollback : (failed : String) → List String → Waiting

-- `started` is the array of the run, which `updateStatus` hands out and the run goes on to extend:
-- `shares_started` is that the status shows it, in place of an empty one. `calls` and `rollbacks`
-- are the names whose functions were called; `resolved` is what the promise of `start` came to.
pub record Manager : Type 0 where
  pub steps : List StartupStep
  pub phase : Phase
  pub shares_started : Bool
  pub failed_step : Option String
  pub duration_ms : Option ℕ
  pub began : ℕ
  pub sorted : List StartupStep
  pub started : List String
  pub waiting : Waiting
  pub calls : List String
  pub rollbacks : List String
  pub resolved : Option StartupStatus

unfoldable pub create_startup_manager : List StartupStep → Manager
create_startup_manager steps = record {
  steps = steps;
  phase = idle;
  shares_started = false;
  failed_step = none;
  duration_ms = none;
  began = 0;
  sorted = [];
  started = [];
  waiting = nothing;
  calls = [];
  rollbacks = [];
  resolved = none;
}

unfoldable pub add_step : StartupStep → Manager → Manager
add_step step s = record s { steps = s.steps ++ step ∷ [] }

-- `splice` at the first step of the name
without_first : String → List StartupStep → List StartupStep
without_first name [] = []
without_first name (s ∷ steps) =
    let rest = without_first name steps in if s.name == name then steps else s ∷ rest

unfoldable pub remove_step : String → Manager → Manager
unfolding without_first
remove_step name s = record s { steps = without_first name s.steps }

-- `updateStatus` with the array of the run.
abbrev pub update_status : Phase → Option String → ℕ → Manager → Manager
update_status phase failed_step now s = record s {
  phase = phase;
  shares_started = true;
  failed_step = failed_step;
  duration_ms = some (now - s.began);
}

unfoldable pub status : Manager → StartupStatus
status s = record {
  phase = s.phase;
  started_steps = if s.shares_started then s.started else [];
  failed_step = s.failed_step;
  duration_ms = s.duration_ms;
}

abbrev or_else : Option StartupStatus → StartupStatus → StartupStatus
or_else none d = d
or_else (some r) d = r

-- `start` returns with the status of the moment, unless it has returned before.
abbrev pub resolve : ℕ → Manager → Manager
resolve now s = record s {
  resolved = some (
      or_else s.resolved (record {
        phase = s.phase;
        started_steps = s.started;
        failed_step = s.failed_step;
        duration_ms = some (now - s.began);
      }));
}

-- `runSteps` has ended.
abbrev pub end_run : ℕ → Manager → Manager
end_run now s = resolve now (record s { waiting = nothing })

abbrev pub unmet : List String → StartupStep → List String
unmet started step = keep (λ d. not (includes started d)) step.dependencies

-- The head of the loop over the sorted steps.
unfoldable pub run_from : ℕ → List StartupStep → Manager → Manager
run_from now [] s = end_run now (update_status running none now s)
run_from now (step ∷ rest) s = elim (unmet s.started step) [
  | [] ↦ record s { waiting = startup step rest; calls = s.calls ++ step.name ∷ [] }
  | _ ∷ _ ↦ end_run now (update_status failed (some step.name) now s)
]

abbrev find_step : String → List StartupStep → Option StartupStep
find_step name [] = none
find_step name (s ∷ steps) = if s.name == name then some s else find_step name steps

abbrev can_roll_back : Option StartupStep → Bool
can_roll_back none = false
can_roll_back (some step) = step.has_rollback

-- Whether `sorted.find((s) => s.name === name)` is a step with a rollback.
abbrev pub has_rollback : List StartupStep → String → Bool
has_rollback sorted name = can_roll_back (find_step name sorted)

-- The head of the loop over the steps to roll back.
unfoldable pub roll_back_from : ℕ → String → List String → Manager → Manager
roll_back_from now failed_name [] s =
    end_run now (update_status rolled_back (some failed_name) now s)
roll_back_from now failed_name (name ∷ names) s =
    let rest = roll_back_from now failed_name names s in
    if has_rollback s.sorted name
    then record s { waiting = rollback failed_name names; rollbacks = s.rollbacks ++ name ∷ [] }
    else rest

-- The call of `start`, up to its first `await`; `none` is that the sort does not end.
abbrev begin : ℕ → Manager → Option (List StartupStep) → Option Manager
begin now s none = none
begin now s (some sorted) = some (
    run_from now sorted (record s {
      phase = starting;
      shares_started = false;
      failed_step = none;
      duration_ms = none;
      began = now;
      sorted = sorted;
      started = [];
      waiting = nothing;
      resolved = none;
    }))

unfoldable pub start : ℕ → Manager → Option Manager
unfolding run_from
start now s = begin now s (topological_sort s.steps)

pub data Event : Type 0 where
  fulfilled rejected timed_out : (now : ℕ) → Event

-- The `await` of a startup, or of a rollback, ends; a rollback that throws is only logged.
abbrev settle_fulfilled : ℕ → Waiting → Manager → Manager
settle_fulfilled now nothing s = s
settle_fulfilled now (startup step rest) s =
    run_from now rest (record s { started = s.started ++ step.name ∷ [] })
settle_fulfilled now (rollback failed_name names) s = roll_back_from now failed_name names s

abbrev settle_rejected : ℕ → Waiting → Manager → Manager
settle_rejected now nothing s = s
settle_rejected now (startup step rest) s =
    roll_back_from now step.name (reverse s.started) (update_status failed (some step.name) now s)
settle_rejected now (rollback failed_name names) s = roll_back_from now failed_name names s

abbrev or_timeout : Option String → String
or_timeout none = "timeout"
or_timeout (some name) = name

-- The timer ends `start`, but not `runSteps`; once `start` has ended it does nothing.
abbrev time_out : ℕ → Option StartupStatus → Manager → Manager
time_out now none s = resolve now (update_status failed (some (or_timeout s.failed_step)) now s)
time_out now (some r) s = s

unfoldable pub settle : Event → Manager → Manager
unfolding run_from roll_back_from
settle (fulfilled now) s = settle_fulfilled now s.waiting s
settle (rejected now) s = settle_rejected now s.waiting s
settle (timed_out now) s = time_out now s.resolved s

unfoldable pub settle_all : List Event → Manager → Manager
settle_all [] s = s
settle_all (e ∷ es) s = settle_all es (settle e s)
