-- ===== src/Execution/Loop/Success/Tests.antt =====
-- A run of two steps that succeeds.
use agent_os.Base.{String, true, List, [], ◌∷◌, none, some}
use agent_os.Planning.Types.{PlanStep, PlanResult, PlanStatus}
use agent_os.Execution.Types.{
  ExecutionIds, ExecutionPolicy, cooperative, ExecutionStatus as Status,
  ExecutionStepState as StepState, ExecutionStepResult,
}
use agent_os.Execution.Context.{new_context}
use agent_os.Execution.Policy.{no_retry_policy}
use agent_os.Execution.Loop.Monad.{result, Env, World}

abbrev ids : ExecutionIds
ids = record {
  execution_id = "e1";
  goal_id = "g1";
  plan_id = "p1";
  session_id = "s1";
  parent_execution_id = some "e0";
  correlation_id = "c1";
}

abbrev policy : ExecutionPolicy
policy = record {
  max_duration_ms = 1000;
  max_retries = 0;
  max_steps = 5;
  default_step_timeout_ms = 100;
  cancellation = cooperative;
  enable_checkpoints = true;
}

abbrev step_named : String → List String → PlanStep
step_named id depends_on = record {
  id = id;
  title = "fetch";
  description = "fetch a page";
  tool = none;
  depends_on = depends_on;
  expected_result = "a page";
  status = PlanStatus.ready;
}

-- The second step depends on the first.
abbrev pages : PlanResult
pages = record {
  id = "p1";
  steps = step_named "index" [] ∷ step_named "leaf" ("index" ∷ []) ∷ [];
  dependencies = [];
  required_tools = [];
  status = PlanStatus.ready;
}

abbrev answer : PlanStep → ExecutionStepResult
answer step = record {
  step_id = step.id;
  success = true;
  error = none;
  error_code = none;
  duration_ms = 3;
  retry_attempts = 0;
  completed_at = 9;
}

abbrev obliging : Env
obliging = record {
  executor = λ n step. record { controls = []; clock = 9; answer = result (answer step) };
  replan_callback = none;
  sleeping = λ n ms. record { controls = []; clock = 9; answer = tt };
  resuming = λ n. record { controls = []; clock = 9; answer = tt };
}

-- The executor was called for another plan before.
abbrev used_world : World
used_world = record {
  context = record (new_context ids "read" policy no_retry_policy 0 1) { plan = some pages };
  events = [];
  calls = "earlier" ∷ [];
  replans = 0;
  sleeps = 0;
  waits = 0;
}
