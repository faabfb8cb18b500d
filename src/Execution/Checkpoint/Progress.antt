-- ===== src/Execution/Checkpoint/Progress.antt =====
-- What the checkpoint functions promise.
use agent_os.Base.{
  ℕ, ◌+◌, ◌*◌, ◌/◌, ◌≤◌, ◌<◌, String, string_eq, List, [], ◌∷◌, ◌≡◌, ◌≢◌, ◌↔◌, refl, ap, length,
  arith, nat_eq,
}
use agent_os.Execution.Types.{ExecutionIds, ExecutionCheckpoint}
use agent_os.Execution.Checkpoint.{
  validate_checkpoint, get_checkpoint_progress, round_div, create_initial_checkpoint,
}
use native.Mathlib.Nat.{div-lt_iff_lt-mul}

round_div-le : (a b k : ℕ) → 0 < b → a ≤ k * b → round_div a b ≤ k
unfolding round_div
round_div-le a b k h le =
    let below : (2 * a + b) / (2 * b) < k + 1 =
      (div-lt_iff_lt-mul {k = 2 * b} (omega arith)).1 (grind arith) in
    omega arith

percent_part : (a b : ℕ) → a * 100 ≤ 100 * (a + b + 1)
percent_part a b = omega arith

-- The progress of a checkpoint counts its completed, its remaining and the current step, its
-- percentage is at most 100, and it is 0 where no step is completed.
pub get_checkpoint_progress_bounds :
    (c : ExecutionCheckpoint)
    → let p = get_checkpoint_progress c in
      (p.total ≡ length c.completed_step_ids + length c.remaining_step_ids + 1)
      × (p.completed < p.total)
      × (p.percentage ≤ 100)
      × (c.completed_step_ids ≡ [] → p.percentage ≡ 0)
unfolding get_checkpoint_progress
get_checkpoint_progress_bounds c = (
  refl,
  omega arith,
  ground (
    arith,
    round_div-le (length c.completed_step_ids * 100)
        (length c.completed_step_ids + length c.remaining_step_ids + 1) 100,
  ),
  λ e. ground (
    arith,
    ap length e,
    round_div-le (length c.completed_step_ids * 100)
        (length c.completed_step_ids + length c.remaining_step_ids + 1) 0,
  ),
)

-- The first checkpoint of a plan with steps passes its own validation exactly when its first step
-- has an id, and it counts every step of the plan, none completed.
pub validate_checkpoint-create_initial_checkpoint :
    (now counter : ℕ) (ids : ExecutionIds) (first : String) (rest : List String)
    → let c = (create_initial_checkpoint now counter ids (first ∷ rest)).0 in
      ((validate_checkpoint c ≡ []) ↔ (first ≢ ""))
      × ((get_checkpoint_progress c).total ≡ length (first ∷ rest))
      × ((get_checkpoint_progress c).completed ≡ 0)
unfolding validate_checkpoint create_initial_checkpoint get_checkpoint_progress
validate_checkpoint-create_initial_checkpoint now counter ids first rest = (
  (
    λ v e. ground (arith, string_eq.beq_iff first ""),
    λ n. ground (arith, string_eq.beq_iff first ""),
  ),
  omega arith,
  refl,
)
