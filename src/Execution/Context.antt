-- ===== src/Execution/Context.antt =====
-- packages/hermes/src/execution/ExecutionContext.ts. The context is one object that the loop and the
-- callers share; the counter of checkpoint ids, a variable of ExecutionCheckpoint.ts, is kept with
-- it, and so are the clock's reading, and whether the abort signal was raised (`false` also where
-- there is no signal).
use agent_os.Base.{
  ℕ, ◌+◌, ◌-◌, String, nat_eq, Bool, false, List, [], ◌∷◌, ◌++◌, Option, none, some, ltb, ◌==◌,
  if◌then◌else◌, length, keep, get_elem?, map,
}
use agent_os.Planning.Types.{PlanStep, PlanResult}
use agent_os.Execution.Types.{
  ExecutionIds, ExecutionPolicy, RetryPolicy, ExecutionStepResult, ExecutionCheckpoint,
}
use agent_os.Execution.State.{StateMachine, initial_machine}
use agent_os.Execution.Retry.{RetryManager, new_manager, get_total_attempts}
use agent_os.Execution.History.{History, empty_history, start_history}
use agent_os.Execution.Checkpoint.{create_initial_checkpoint}

pub record Context : Type 0 where
  pub ids : ExecutionIds
  pub goal : String
  pub policy : ExecutionPolicy
  pub aborted : Bool
  pub machine : StateMachine
  pub history : History
  pub retry_manager : RetryManager
  pub plan : Option PlanResult
  pub current_step_index : ℕ
  pub step_results : List ExecutionStepResult
  pub checkpoints : List ExecutionCheckpoint
  pub start_time : ℕ
  pub checkpoint_counter : ℕ
  pub now : ℕ

-- The constructor, on policies that are already merged with the defaults.
unfoldable pub new_context : ExecutionIds → String → ExecutionPolicy → RetryPolicy → ℕ → ℕ → Context
unfolding initial_machine empty_history new_manager
new_context ids goal policy retry_policy counter now = record {
  ids = ids;
  goal = goal;
  policy = policy;
  aborted = false;
  machine = initial_machine;
  history = empty_history;
  retry_manager = new_manager retry_policy;
  plan = none;
  current_step_index = 0;
  step_results = [];
  checkpoints = [];
  start_time = 0;
  checkpoint_counter = counter;
  now = now;
}

abbrev step_ids : PlanResult → List String
step_ids plan = map (λ (s : PlanStep). s.id) plan.steps

unfoldable pub set_plan : PlanResult → Context → Context
set_plan plan c =
    let c' = record c { plan = some plan } in
    let (initial, counter) =
      create_initial_checkpoint c.now c.checkpoint_counter c.ids (step_ids plan) in
    if ltb 0 (length (step_ids plan))
    then record c' { checkpoints = c.checkpoints ++ initial ∷ []; checkpoint_counter = counter }
    else c'

step_at : Option PlanResult → ℕ → Option PlanStep
step_at none index = none
step_at (some plan) index = get_elem? plan.steps index

unfoldable pub get_current_step : Context → Option PlanStep
unfolding step_at
get_current_step c = step_at c.plan c.current_step_index

unfoldable pub steps_of : Option PlanResult → List PlanStep
steps_of none = []
steps_of (some plan) = plan.steps

unfoldable pub get_total_steps : Context → ℕ
unfolding steps_of
get_total_steps c = length (steps_of c.plan)

next_step_in : Option PlanResult → Context → Context × Bool
next_step_in none c = (c, false)
next_step_in (some plan) c =
    let index = c.current_step_index + 1 in
    (record c { current_step_index = index }, ltb index (length plan.steps))

unfoldable pub next_step : Context → Context × Bool
unfolding next_step_in
next_step c = next_step_in c.plan c

unfoldable pub add_step_result : ExecutionStepResult → Context → Context
add_step_result r c = record c { step_results = c.step_results ++ r ∷ [] }

unfoldable pub add_checkpoint : ExecutionCheckpoint → Context → Context
add_checkpoint p c = record c { checkpoints = c.checkpoints ++ p ∷ [] }

unfoldable pub start : Context → Context
unfolding start_history
start c = record c { start_time = c.now; history = start_history c.now c.history }

unfoldable pub get_duration_ms : Context → ℕ
get_duration_ms c = if c.start_time == 0 then 0 else c.now - c.start_time

unfoldable pub get_total_retries : Context → ℕ
get_total_retries c = get_total_attempts c.retry_manager

unfoldable pub get_steps_completed : Context → ℕ
get_steps_completed c = length (keep (λ (r : ExecutionStepResult). r.success) c.step_results)
