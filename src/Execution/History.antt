-- ===== src/Execution/History.antt =====
-- packages/hermes/src/execution/ExecutionHistory.ts. A method that reads the clock takes the
-- reading as its argument `now`, in milliseconds; one reading serves one call. The clock is taken
-- not to go back, so that the truncated `-` is the source's.
pub mod Statistics
use agent_os.Base.{
  ℕ, ◌+◌, ◌-◌, String, string_eq, Bool, true, false, not, List, [], ◌∷◌, ◌++◌, Option, none, some,
  ltb, ◌==◌, if◌then◌else◌, length, keep,
}
use agent_os.Base.Map.{Map, get, put, values}
use agent_os.Execution.Types.{ExecutionStatus, ExecutionStepResult, ExecutionStatistics, Message}

-- The `data` of an entry, a case for each method that writes one. The reason of a replan is the text
-- `Step "<id>" failed: <error>`, kept as its two parts.
pub data EntryData : Type 0 where
  started : EntryData
  step_begun : (step_id : String) (step_index : ℕ) → EntryData
  step_done : (step_id : String) (success : Bool) (duration_ms : ℕ) → EntryData
  retried : (step_id : String) (attempt delay_ms : ℕ) → EntryData
  finished : ExecutionStatus → Option Message → EntryData
  replan : (step_id : String) (error : Option String) → EntryData

-- `data['stepId']`
unfoldable pub data_step_id : EntryData → Option String
data_step_id (step_begun id i) = some id
data_step_id (step_done id s d) = some id
data_step_id (retried id a d) = some id
data_step_id _ = none

unfoldable pub event_type : EntryData → String
event_type started = "execution.started"
event_type (step_begun id i) = "step.started"
event_type (step_done id s d) = "step.completed"
event_type (retried id a d) = "retry.attempt"
event_type (finished s e) = "execution.completed"
event_type (replan id e) = "execution.replan"

pub record HistoryEntry : Type 0 where
  pub timestamp : ℕ
  pub kind : String
  pub step_id : Option String
  pub payload : EntryData

pub record History : Type 0 where
  pub entries : List HistoryEntry
  pub results : Map String ExecutionStepResult
  pub start_time : ℕ
  pub end_time : ℕ

unfoldable pub empty_history : History
empty_history = record { entries = []; results = []; start_time = 0; end_time = 0 }

unfoldable pub add_entry : ℕ → EntryData → History → History
unfolding event_type data_step_id
add_entry now d h = record h {
  entries =
      h.entries
      ++ record { timestamp = now; kind = event_type d; step_id = data_step_id d; payload = d }
        ∷ [];
}

unfoldable pub start_history : ℕ → History → History
unfolding add_entry
start_history now h = add_entry now started (record h { start_time = now })

unfoldable pub history_step_started : ℕ → String → ℕ → History → History
unfolding add_entry
history_step_started now id index h = add_entry now (step_begun id index) h

unfoldable pub history_step_completed : ℕ → ExecutionStepResult → History → History
unfolding add_entry
history_step_completed now r h =
    add_entry now (step_done r.step_id r.success r.duration_ms)
      (record h { results = put h.results r.step_id r })

unfoldable pub history_retry_attempt : ℕ → String → ℕ → ℕ → History → History
unfolding add_entry
history_retry_attempt now id attempt delay h = add_entry now (retried id attempt delay) h

unfoldable pub complete_history : ℕ → ExecutionStatus → Option Message → History → History
unfolding add_entry
complete_history now status error h =
    add_entry now (finished status error) (record h { end_time = now })

unfoldable pub replan_requested : ℕ → String → Option String → History → History
unfolding add_entry
replan_requested now id error h = add_entry now (replan id error) h

abbrev is_of : String → Option String → Bool
is_of id none = false
is_of id (some j) = j == id

unfoldable pub get_step_entries : String → History → List HistoryEntry
unfolding data_step_id
get_step_entries id h = keep (λ e. is_of id (data_step_id e.payload)) h.entries

unfoldable pub get_step_result : String → History → Option ExecutionStepResult
get_step_result id h = get h.results id

-- The loop that fills `stepDurations`.
durations_from : Map String ℕ → List ExecutionStepResult → Map String ℕ
durations_from acc [] = acc
durations_from acc (r ∷ rs) = durations_from (put acc r.step_id r.duration_ms) rs

abbrev pub sum_retries : List ExecutionStepResult → ℕ
sum_retries [] = 0
sum_retries (r ∷ rs) = r.retry_attempts + sum_retries rs

unfoldable pub history_duration_ms : ℕ → History → ℕ
history_duration_ms now h =
    if ltb 0 h.end_time then h.end_time - h.start_time else now - h.start_time

unfoldable pub get_statistics : ℕ → History → ExecutionStatistics
unfolding durations_from
get_statistics now h =
    let results = values h.results in
    record {
      steps_completed = length (keep (λ (r : ExecutionStepResult). r.success) results);
      steps_failed = length (keep (λ (r : ExecutionStepResult). not r.success) results);
      steps_skipped = 0;
      retry_attempts = sum_retries results;
      duration_ms = if ltb 0 h.end_time then h.end_time - h.start_time else now - h.start_time;
      step_durations = durations_from [] results;
    }

unfoldable pub clear_history : History → History
clear_history h = record { entries = []; results = []; start_time = 0; end_time = 0 }
