-- ===== src/Execution/Events.antt =====
-- packages/hermes/src/execution/ExecutionEvents.ts: the events that the loop emits. The ids of the
-- execution and the timestamp, which every event carries, are left out.
use agent_os.Base.{ℕ, String, Bool, Option}
use agent_os.Execution.Types.{CheckpointId, Message}

pub data ExecutionEvent : Type 0 where
  execution_started : (goal : String) (step_count : ℕ) → ExecutionEvent
  execution_progress : (current_step : String) (completed_steps total_steps : ℕ) → ExecutionEvent
  execution_paused : ExecutionEvent
  execution_resumed : ExecutionEvent
  execution_completed : (duration_ms steps_completed total_steps total_retries : ℕ) → ExecutionEvent
  execution_failed : (error : Message) (duration_ms : ℕ) (failed_step : String) → ExecutionEvent
  execution_cancelled : (reason : Message) (steps_completed : ℕ) → ExecutionEvent
  step_started : (step_id step_title : String) (step_index : ℕ) → ExecutionEvent
  step_completed : (step_id : String) (duration_ms : ℕ) (success : Bool) → ExecutionEvent
  step_failed :
      (step_id error : String) (duration_ms : ℕ) (error_code : Option String) → ExecutionEvent
  retry_started : (step_id : String) (attempt max_attempts delay_ms : ℕ) → ExecutionEvent
  checkpoint_created : (checkpoint_id : CheckpointId) (completed_steps : ℕ) → ExecutionEvent
