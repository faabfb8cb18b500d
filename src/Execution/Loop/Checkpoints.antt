-- ===== src/Execution/Loop/Checkpoints.antt =====
-- The checkpoints that the loop makes after a step.
use agent_os.Base.{
  ◌++◌, String, string_eq, Bool, true, not, ◌&&◌, List, [], ◌∷◌, ◌≡◌, ◌≢◌, refl, subst, ◌==◌, arith,
  includes, keep, map, beq_refl, nat_eq,
}
use agent_os.Planning.Types.{PlanStep}
use agent_os.Execution.Types.{ExecutionStepResult, ExecutionCheckpoint}
use agent_os.Execution.Context.{Context, add_step_result, steps_of}
use agent_os.Execution.Checkpoint.{validate_checkpoint, create_checkpoint}
use agent_os.Execution.Loop.{create_step_checkpoint}

includes-keep :
    (p : String → Bool) (xs : List String) (a : String)
    → includes (keep p xs) a ≡ (includes xs a && p a)
includes-keep p [] a = refl
includes-keep p (x ∷ xs) a = ground (arith, includes-keep p xs a, string_eq.beq_iff x a)

-- The ids that a checkpoint lists as remaining are exactly the ids of the plan's steps that have no
-- successful result and are not the step just run; and it lists as completed exactly the ids of the
-- successful results.
pub create_step_checkpoint_ids :
    (c : Context) (current id : String)
    → let p = (create_step_checkpoint c current).0 in
      (includes p.remaining_step_ids id ≡ (
        includes (map (λ (s : PlanStep). s.id) (steps_of c.plan)) id
        && (not (includes p.completed_step_ids id) && not (id == current))))
      × (p.completed_step_ids
          ≡ map
              (λ (r : ExecutionStepResult). r.step_id)
              (keep (λ (r : ExecutionStepResult). r.success) c.step_results))
      × (p.current_step_id ≡ current)
unfolding create_step_checkpoint create_checkpoint
create_step_checkpoint_ids c current id = (includes-keep _ _ id, refl, refl)

abbrev completed_ids : List ExecutionStepResult → List String
completed_ids rs =
    map (λ (r : ExecutionStepResult). r.step_id) (keep (λ (r : ExecutionStepResult). r.success) rs)

includes-completed_ids :
    (rs : List ExecutionStepResult) (r : ExecutionStepResult)
    → r.success ≡ true
    → includes (completed_ids (rs ++ r ∷ [])) r.step_id ≡ true
includes-completed_ids [] r s = rw s (rw (beq_refl r.step_id))
includes-completed_ids (q ∷ rs) r s = ground (arith, includes-completed_ids rs r s)

validate_current :
    (p : ExecutionCheckpoint)
    → includes p.completed_step_ids p.current_step_id ≡ true
    → validate_checkpoint p ≢ []
unfolding validate_checkpoint
validate_current p h = ground arith

-- When the executor answers a success with the id of the step that it ran, the checkpoint that the
-- loop makes after the step does not pass `validateCheckpoint`, since it lists its current step as completed.
pub validate_checkpoint-create_step_checkpoint :
    (c : Context) (r : ExecutionStepResult) (completed_step_id : String)
    → r.success ≡ true
    → r.step_id ≡ completed_step_id
    → validate_checkpoint (create_step_checkpoint (add_step_result r c) completed_step_id).0 ≢ []
unfolding create_step_checkpoint create_checkpoint add_step_result
validate_checkpoint-create_step_checkpoint c r completed_step_id s same =
    validate_current (create_step_checkpoint (add_step_result r c) completed_step_id).0 (
      subst (λ id. includes (completed_ids (c.step_results ++ r ∷ [])) id ≡ true) same
        (includes-completed_ids c.step_results r s))
