-- ===== src/Execution/History/Statistics.antt =====
-- What the statistics count.
use agent_os.Base.{
  ℕ, ◌+◌, String, string_eq, not, List, [], ◌∷◌, some, ◌≡◌, refl, if◌then◌else◌, length, keep,
  arith,
}
use agent_os.Base.Map.{Map, has, put, values, size, get-put, size-put}
use agent_os.Execution.Types.{ExecutionStepResult}
use agent_os.Execution.History.{History, history_step_completed, get_step_result, get_statistics}

split_by_success :
    (rs : List ExecutionStepResult)
    → length (keep (λ (r : ExecutionStepResult). r.success) rs)
        + length (keep (λ (r : ExecutionStepResult). not r.success) rs)
      ≡ length rs
split_by_success [] = omega arith
split_by_success (r ∷ rs) = ground (arith, split_by_success rs)

length-values : (t : Map String ExecutionStepResult) → length (values t) ≡ size t
length-values [] = refl
length-values ((k, r) ∷ t) = omega (arith, length-values t)

-- Every step that has a result counts exactly once, as completed or as failed; and recording a
-- result raises the sum of the two by one just when its step had none, so that the result of a
-- retried step replaces the earlier one.
pub get_statistics-history_step_completed :
    (now later : ℕ) (r : ExecutionStepResult) (h : History)
    → let before = get_statistics now h in
      let after = get_statistics later (history_step_completed now r h) in
      (after.steps_completed + after.steps_failed ≡ (
        if has h.results r.step_id
        then before.steps_completed + before.steps_failed
        else before.steps_completed + before.steps_failed + 1))
      × (get_step_result r.step_id (history_step_completed now r h) ≡ some r)
unfolding get_statistics history_step_completed get_step_result
get_statistics-history_step_completed now later r h = (
  ground (
    arith,
    split_by_success (values h.results),
    split_by_success (values (put h.results r.step_id r)),
    length-values h.results,
    length-values (put h.results r.step_id r),
    size-put h.results r.step_id r,
  ),
  ground (arith, get-put h.results r.step_id r r.step_id, string_eq.beq_iff r.step_id r.step_id),
)
