-- ===== src/Execution/Retry/Budget.antt =====
-- The retry budget of a step.
use agent_os.Base.{
  ◌+◌, ◌≤◌, ◌<◌, String, string_eq, true, [], ◌∷◌, Option, ◌≡◌, ◌==◌, refl, if◌then◌else◌, arith,
  leb,
}
use agent_os.Base.Map.{Map, get, put, values, get-put}
use agent_os.Execution.Retry.{
  RetryState, RetryManager, attempt_or_zero, attempts_of, should_retry, next_state, record_attempt,
  get_total_attempts, sum_attempts,
}

attempts_of-put :
    (t : Map String RetryState) (id : String) (s : RetryState) (j : String)
    → attempt_or_zero (get (put t id s) j)
      ≡ (if id == j then s.attempt else attempt_or_zero (get t j))
unfolding attempt_or_zero
attempts_of-put t id s j = rw get-put (ground arith)

-- Recording an attempt counts one more for its step and leaves the counts of the other steps; it
-- reports the new count, and exhaustion exactly when the count has reached the policy's maximum.
pub record_attempt_counts :
    (m : RetryManager) (id : String)
    → ((j : String)
        → attempts_of (record_attempt m id).0 j
          ≡ (if id == j then attempts_of m j + 1 else attempts_of m j))
      × ((record_attempt m id).1.attempt ≡ attempts_of m id + 1)
      × ((record_attempt m id).1.exhausted ≡ leb m.retry_policy.max_attempts (attempts_of m id + 1))
      × ((record_attempt m id).0.retry_policy ≡ m.retry_policy)
unfolding record_attempt attempts_of
record_attempt_counts m id = (
  λ j.
      ground (arith, attempts_of-put m.retry_states id (next_state m id) j, string_eq.beq_iff id j),
  refl,
  refl,
  refl,
)

sum_attempts-put :
    (t : Map String RetryState) (id : String) (s : RetryState)
    → sum_attempts (values (put t id s)) + attempt_or_zero (get t id)
      ≡ sum_attempts (values t) + s.attempt
unfolding put get attempt_or_zero
sum_attempts-put [] id s = omega arith
sum_attempts-put ((j, r) ∷ t) id s = ground (arith, sum_attempts-put t id s)

-- Each recorded attempt adds one to the total that the execution reports.
pub get_total_attempts-record_attempt :
    (m : RetryManager) (id : String)
    → get_total_attempts (record_attempt m id).0 ≡ get_total_attempts m + 1
unfolding get_total_attempts record_attempt attempts_of
get_total_attempts-record_attempt m id =
    omega (arith, sum_attempts-put m.retry_states id (next_state m id))

-- No step has used more attempts than the policy grants.
abbrev pub Within : RetryManager → Type 0
Within m = (j : String) → attempts_of m j ≤ m.retry_policy.max_attempts

should_retry-lt :
    (m : RetryManager) (id : String) (code : Option String)
    → should_retry m id code ≡ true
    → attempts_of m id < m.retry_policy.max_attempts
unfolding should_retry
should_retry-lt m id code h = ground arith

-- An attempt that is recorded only when `shouldRetry` allows it keeps every step within the
-- policy's maximum, whatever the error code.
pub record_attempt-Within :
    (m : RetryManager) (id : String) (code : Option String)
    → Within m
    → should_retry m id code ≡ true
    → Within (record_attempt m id).0
record_attempt-Within m id code w h j =
    let counts = record_attempt_counts m id in
    let e = counts.0 j in
    ground (arith, e, counts.3, w j, should_retry-lt m id code h, string_eq.beq_iff id j)
