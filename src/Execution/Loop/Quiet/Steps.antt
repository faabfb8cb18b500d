-- ===== src/Execution/Loop/Quiet/Steps.antt =====
-- The steps of a run that nobody interferes with.
use agent_os.Base.{
  ℕ, ◌+◌, ◌-◌, ◌<◌, String, string_eq, Bool, true, false, Option, none, some, ◌≡◌, refl, ◌∙◌, sym,
  ap, subst, if◌then◌else◌, length, get_elem?, ltb, arith, beq_refl,
}
use agent_os.Planning.Types.{PlanStep, PlanResult}
use agent_os.Execution.Types.{
  ExecutionStatus as Status, ExecutionStepState as StepState, ExecutionStatus-discrete, status_eq,
  ExecutionStepResult, RetryPolicy, retry_exhausted,
}
use agent_os.Execution.Retry.{RetryManager, attempts_of, record_attempt, Attempt}
use agent_os.Execution.Events.{retry_started}
use agent_os.Execution.Retry.Budget.{record_attempt_counts}
use agent_os.Execution.Context.{Context, get_current_step, next_step}
use agent_os.Execution.Loop.Monad.{
  Env, World, return, Exec, ◌>>=◌, ◌>>◌, pure, raise, gets, modify, emit, set_step,
}
use agent_os.Execution.Loop.{
  sleep, step_succeeded, retry_step, replan_with, step_failed, run_step, check_pause, run_current,
  iterate,
}
use agent_os.Execution.Loop.Quiet.Rules.{
  Course, course, pure-Calm, gets-Calm, if-Calm, modify_history-Calm, emit-Calm, set_step-Calm,
}
use agent_os.Execution.Loop.Quiet.{
  IsQuiet, execute_step-Calm, sleep-Calm, take_checkpoint-Calm, add_step_result-Calm,
}
use agent_os.Execution.Loop.Quiet.Rounds.{
  need, most, at_index, budget_step, Steady, Round, From, >>=-From, >>-From, if-From, raise-From,
  pure-From, guard-From, budget,
}

left_lt :
    (k m m' a a' : ℕ)
    → m' ≡ m
    → a' ≡ a + 1
    → a + 1 < m
    → budget k m' + (m' - a') < budget k m + (m - a)
left_lt k m m' a a' e f lt = rw (e, f) (omega arith)

not_last :
    (m : RetryManager) (id : String)
    → (record_attempt m id).1.exhausted ≡ false
    → attempts_of m id + 1 < m.retry_policy.max_attempts
not_last m id h = ground (arith, (record_attempt_counts m id).2)

-- A round of an execution that runs begins with its step.
pub iterate-run_current :
    (env : Env) (w : World)
    → w.context.aborted ≡ false
    → w.context.machine.current_status ≡ Status.running
    → iterate env w ≡ run_current env (get_current_step w.context) w
unfolding iterate check_pause ◌>>=◌ ◌>>◌ gets pure ExecutionStatus-discrete
iterate-run_current env w a r = rw (a, r)

module _ (plan : PlanResult) where
  pub next_step-some :
      (c : Context)
      → c.plan ≡ some plan
      → next_step c ≡ (
        record c { current_step_index = c.current_step_index + 1 },
        ltb (c.current_step_index + 1) (length plan.steps),
      )
  unfolding next_step
  next_step-some c h = rw h

  returned-Round :
      (n : ℕ) (b : Bool) (c : Course) → Steady plan c → need plan c < n → Round plan n (return b) c
  unfolding Round
  returned-Round n true c s h = (s, h)
  returned-Round n false c s h = s.running

  -- The end of a step that succeeded.
  advance : Exec Bool
  advance =
      gets (λ w. (next_step w.context).1) >>= λ more. modify (λ c. (next_step c).0) >> pure more

  advance_world :
      (w : World) (step : PlanStep)
      → Steady plan (course w)
      → get_elem? plan.steps w.context.current_step_index ≡ some step
      → Round plan (need plan (course w)) (advance w).0 (course (advance w).1)
  unfolding advance ◌>>=◌ ◌>>◌ gets modify pure
  advance_world w step s h = rw (next_step-some w.context s.planned) (
      returned-Round (need plan (course w)) _ _
        (record { running = s.running; unaborted = s.unaborted; planned = s.planned })
        (omega (
          arith,
          budget_step plan.steps w.context.current_step_index
              w.context.retry_manager.retry_policy.max_attempts step h,
        )))

  -- What is left after an attempt at the current step that is not the last.
  abbrev attempted : String → Course → Course
  attempted id c = record c { retries = (record_attempt c.retries id).0 }

  need-attempted :
      (c : Course) (step : PlanStep)
      → at_index plan c.index ≡ some step
      → attempts_of c.retries step.id + 1 < most c
      → need plan (attempted step.id c) < need plan c
  need-attempted c step h lt =
      let counts = record_attempt_counts c.retries step.id in
      rw h (
        left_lt (length plan.steps - c.index) _ _ _ _
          (ap (λ (p : RetryPolicy). p.max_attempts) counts.3)
          (counts.0 step.id ∙ rw (beq_refl step.id)) lt)

  -- What `retry_step` does once the attempt is counted.
  try_again : Env → PlanStep → Attempt → Exec Bool
  try_again env step a =
      (if a.exhausted then raise (retry_exhausted step.id a.attempt) else pure tt)
      >> (emit (λ w.
            retry_started step.id a.attempt w.retry_manager.retry_policy.max_attempts a.delay_ms)
          >> (set_step step.id StepState.retrying
              >> (sleep env a.delay_ms >> (set_step step.id StepState.running >> pure true))))

  retry_step-try_again :
      (env : Env) (step : PlanStep) (w : World)
      → retry_step env step w
        ≡ try_again env step (record_attempt w.context.retry_manager step.id).1 (record w {
          context = record w.context {
            retry_manager = (record_attempt w.context.retry_manager step.id).0;
          };
        })
  unfolding retry_step try_again ◌>>=◌ ◌>>◌ gets modify
  retry_step-try_again env step w = refl

  module _ (env : Env) (quiet : IsQuiet env) (c : Course) (s : Steady plan c) (step : PlanStep)
      (current : at_index plan c.index ≡ some step) where
    advance-From : From plan (need plan c) c advance
    advance-From = record {
      at = λ w e.
          subst (λ d. Round plan (need plan d) (advance w).0 (course (advance w).1)) e
            (advance_world w step (subst (Steady plan) (sym e) s)
              (ap (λ (d : Course). at_index plan d.index) e ∙ current));
    }

    step_succeeded-From :
        (r : ExecutionStepResult) → From plan (need plan c) c (step_succeeded step r)
    unfolding step_succeeded advance
    step_succeeded-From r = >>-From plan _ c s.running (set_step-Calm _ _) (
        >>-From plan _ c s.running (emit-Calm _)
          (>>-From plan _ c s.running (emit-Calm _) advance-From))

    try_again-From :
        (a : Attempt)
        → (a.exhausted ≡ false → need plan (attempted step.id c) < need plan c)
        → From plan (need plan c) (attempted step.id c) (try_again env step a)
    unfolding try_again ◌>>◌
    try_again-From a h = guard-From plan _ (attempted step.id c) s.running a.exhausted _ refl λ on.
        >>-From plan _ _ s.running (emit-Calm _) (
          >>-From plan _ _ s.running (set_step-Calm _ _) (
            >>-From plan _ _ s.running (sleep-Calm env quiet _) (
              >>-From plan _ _ s.running (set_step-Calm _ _) (
                pure-From plan _ _ s.running true
                  (record { running = s.running; unaborted = s.unaborted; planned = s.planned })
                  (h on)))))

    retry_step-From : From plan (need plan c) c (retry_step env step)
    retry_step-From = record {
      at = λ w e.
          let same : w.context.retry_manager ≡ c.retries = ap (λ (d : Course). d.retries) e in
          rw (retry_step-try_again env step w) (
            (try_again-From (record_attempt w.context.retry_manager step.id).1 (λ on.
                need-attempted c step current (
                  subst
                    (λ (m : RetryManager). attempts_of m step.id + 1 < m.retry_policy.max_attempts)
                    same (not_last w.context.retry_manager step.id on)))).at
              _ (ap (attempted step.id) e));
    }

    replan_with-From :
        (r : ExecutionStepResult)
        → From plan (need plan c) c (replan_with env.replan_callback step r)
    unfolding replan_with
    replan_with-From r = rw (quiet.no_replan, replan_with) (raise-From plan _ c s.running _ refl)

    step_failed-From :
        (r : ExecutionStepResult) → From plan (need plan c) c (step_failed env step r)
    unfolding step_failed
    step_failed-From r = >>-From plan _ c s.running (set_step-Calm _ _) (
        >>-From plan _ c s.running (emit-Calm _) (
          >>=-From plan _ c s.running (gets-Calm _)
            (λ retry. if-From plan _ c s.running retry retry_step-From (replan_with-From r))))

    run_step-From : From plan (need plan c) c (run_step env step)
    unfolding run_step
    run_step-From = >>=-From plan _ c s.running (execute_step-Calm env quiet step) λ r.
        >>-From plan _ c s.running (add_step_result-Calm r) (
          >>-From plan _ c s.running (modify_history-Calm _) (
            >>=-From plan _ c s.running (gets-Calm _) λ checkpoints.
              >>-From plan _ c s.running
                (if-Calm checkpoints (take_checkpoint-Calm step.id) (pure-Calm tt))
                (if-From plan _ c s.running r.success (step_succeeded-From r)
                  (step_failed-From r))))

  module _ (env : Env) (quiet : IsQuiet env) (c : Course) (s : Steady plan c) where
    run_current-From :
        (o : Option PlanStep)
        → at_index plan c.index ≡ o
        → From plan (need plan c) c (run_current env o)
    unfolding run_current pure Round
    run_current-From none h = record { at = λ w e. ap (λ (d : Course). d.status) e ∙ s.running }
    run_current-From (some step) h = run_step-From env quiet c s step h

    get_current_step-steady :
        (w : World) → course w ≡ c → at_index plan c.index ≡ get_current_step w.context
    unfolding get_current_step
    get_current_step-steady w e =
        let planned = ap (λ (d : Course). d.plan) e ∙ s.planned in
        rw planned (sym (ap (λ (d : Course). at_index plan d.index) e))

    pub iterate-From : From plan (need plan c) c (iterate env)
    iterate-From = record {
      at = λ w e.
          rw
            (iterate-run_current env w (ap (λ (d : Course). d.aborted) e ∙ s.unaborted)
              (ap (λ (d : Course). d.status) e ∙ s.running))
            ((run_current-From (get_current_step w.context) (get_current_step-steady w e)).at w e);
    }
