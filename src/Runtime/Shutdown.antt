-- ===== src/Runtime/Shutdown.antt =====
-- packages/runtime/src/ShutdownManager.ts. Between two `await`s the manager runs on its own; calls
-- of its methods, what settles an `await`, and the timer, are inputs, which come with a reading of
-- the clock. A signal is a call of `shutdown`. The logger only observes.
pub mod Once
mod Tests
use agent_os.Base.{
  ℕ, ◌-◌, String, string_eq, Bool, true, false, List, [], ◌∷◌, ◌++◌, reverse, Option, none, some,
  ◌==◌, if◌then◌else◌,
}

pub data ShutdownPhase : Type 0 where
  idle shutting_down stopped timed_out : ShutdownPhase

-- A step is its name; what its `shutdown` comes to is an input.
pub record ShutdownStatus : Type 0 where
  pub phase : ShutdownPhase
  pub started_at : Option ℕ
  pub completed_at : Option ℕ
  pub duration_ms : Option ℕ
  pub failed_step : Option String

-- `waiting`: the step that `runSteps` waits for, and the steps after it. `calls` are the steps whose `shutdown` was called. `resolved`: the promise of
-- the first call of `shutdown`.
pub record Manager : Type 0 where
  pub steps : List String
  pub phase : ShutdownPhase
  pub started_at : Option ℕ
  pub completed_at : Option ℕ
  pub failed_step : Option String
  pub has_begun : Bool
  pub began : ℕ
  pub waiting : Option (String × List String)
  pub calls : List String
  pub resolved : Option ShutdownStatus

unfoldable pub create_shutdown_manager : List String → Manager
create_shutdown_manager steps = record {
  steps = steps;
  phase = idle;
  started_at = none;
  completed_at = none;
  failed_step = none;
  has_begun = false;
  began = 0;
  waiting = none;
  calls = [];
  resolved = none;
}

unfoldable pub add_step : String → Manager → Manager
add_step name s = record s { steps = s.steps ++ name ∷ [] }

without_first : String → List String → List String
without_first name [] = []
without_first name (x ∷ xs) = let rest = without_first name xs in if x == name then xs else x ∷ rest

unfoldable pub remove_step : String → Manager → Manager
unfolding without_first
remove_step name s = record s { steps = without_first name s.steps }

abbrev duration_of : Option ℕ → Option ℕ → Option ℕ
duration_of (some start) (some end) = some (end - start)
duration_of _ _ = none

unfoldable pub status : Manager → ShutdownStatus
status s = record {
  phase = s.phase;
  started_at = s.started_at;
  completed_at = s.completed_at;
  duration_ms = duration_of s.started_at s.completed_at;
  failed_step = s.failed_step;
}

abbrev pub update_status : ShutdownPhase → ℕ → Option ℕ → Option String → Manager → Manager
update_status phase start end failed s = record s {
  phase = phase;
  started_at = some start;
  completed_at = end;
  failed_step = failed;
}

abbrev or_else : Option ShutdownStatus → ShutdownStatus → ShutdownStatus
or_else none d = d
or_else (some r) d = r

-- The first call of `shutdown` returns with the status of the moment, unless it has returned.
abbrev resolve : Manager → Manager
unfolding status
resolve s = record s { resolved = some (or_else s.resolved (status s)) }

-- The head of the loop over the reversed steps.
unfoldable pub run_from : ℕ → List String → Manager → Manager
unfolding status resolve
run_from now [] s =
    resolve (record (update_status stopped s.began (some now) none s) { waiting = none })
run_from now (name ∷ rest) s = record s {
  waiting = some (name, rest);
  calls = s.calls ++ name ∷ [];
}

-- `shutdown`, up to its first `await`: a call after the first only returns the status.
unfoldable pub shutdown : ℕ → Manager → Manager
unfolding run_from
shutdown now s =
    if s.has_begun
    then s
    else run_from now (reverse s.steps)
        (record (update_status shutting_down now none none s) { has_begun = true; began = now })

abbrev settle_fulfilled : ℕ → Option (String × List String) → Manager → Manager
settle_fulfilled now none s = s
settle_fulfilled now (some (name, rest)) s = run_from now rest s

-- A step that throws ends the loop.
settle_rejected : ℕ → Option (String × List String) → Manager → Manager
unfolding resolve
settle_rejected now none s = s
settle_rejected now (some (name, rest)) s =
    resolve (record (update_status timed_out s.began (some now) (some name) s) { waiting = none })

or_unknown : Option String → String
or_unknown none = "unknown"
or_unknown (some name) = name

-- The timer ends the call of `shutdown`, but not the loop.
time_out : ℕ → Option ShutdownStatus → Manager → Manager
unfolding resolve or_unknown
time_out now none s =
    resolve (update_status timed_out s.began (some now) (some (or_unknown s.failed_step)) s)
time_out now (some r) s = s

pub data Input : Type 0 where
  add remove : String → Input
  shut fulfilled rejected expired : (now : ℕ) → Input

-- The timer is set by the first call of `shutdown`.
unfoldable pub step : Input → Manager → Manager
unfolding settle_rejected time_out
step (add name) s = add_step name s
step (remove name) s = remove_step name s
step (shut now) s = shutdown now s
step (fulfilled now) s = settle_fulfilled now s.waiting s
step (rejected now) s = settle_rejected now s.waiting s
step (expired now) s = if s.has_begun then time_out now s.resolved s else s

unfoldable pub steps_all : List Input → Manager → Manager
steps_all [] s = s
steps_all (i ∷ is) s = steps_all is (step i s)
