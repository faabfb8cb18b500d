-- ===== src/Execution/Loop/Success/Rounds.antt =====
-- All the rounds of a run whose executor succeeds at every step.
use agent_os.Execution.Loop.Success.{
  Succeeds, stepped, with_step, iterate-Runs, iterate_current, get_step_state-put,
}
use agent_os.Execution.Loop.Success.Rules.{Seen, seen, Runs, >>=-Runs, then-Runs, pure-Runs}
use agent_os.Base.{
  Distinct, ℕ, zero, suc, ◌+◌, ◌<◌, String, string_eq, false, List, [], ◌∷◌, ◌++◌, none, some, ◌≡◌,
  refl, ◌∙◌, sym, subst, if◌then◌else◌, ◌==◌, length, get_elem?, ltb, includes, All, arith,
  length-append,
}
use mathlib.Core.List.{append_assoc}
use agent_os.Planning.Types.{PlanStep, PlanResult}
use agent_os.Planning.Validator.{ids_of}
use agent_os.Execution.Types.{ExecutionStatus as Status, ExecutionStepState as StepState}
use agent_os.Execution.State.{get_step_state}
use agent_os.Execution.Loop.Monad.{Env, World, pure}
use agent_os.Execution.Loop.{run_current, iterate, run_rounds}

-- What is left when each of the steps has run, in the order of the list.
abbrev pub complete_all : List PlanStep → Seen → Seen
complete_all [] s = s
complete_all (step ∷ rest) s = complete_all rest (stepped step.id s)

abbrev pub IsPending : Seen → PlanStep → Type 0
IsPending s step = get_step_state s.machine step.id ≡ StepState.pending

get_elem?-length :
    (pre rest : List PlanStep) (step : PlanStep)
    → get_elem? (pre ++ step ∷ rest) (length pre) ≡ some step
get_elem?-length [] rest step = refl
get_elem?-length (p ∷ pre) rest step = get_elem?-length pre rest step

-- The steps `pre` have run, and `rest` are to run.
pub record Ready (plan : PlanResult) (pre rest : List PlanStep) (s : Seen) : Type 0 where
  pub planned : s.plan ≡ some plan
  pub unaborted : s.aborted ≡ false
  pub running : s.machine.current_status ≡ Status.running
  pub place : s.index ≡ length pre
  pub whole : plan.steps ≡ pre ++ rest
  pub pending : All (IsPending s) rest
  pub distinct : Distinct (ids_of rest)

pub stepped-get_step_state :
    (s : Seen) (id other : String)
    → get_step_state (stepped id s).machine other
      ≡ (if id == other then StepState.completed else get_step_state s.machine other)
stepped-get_step_state s id other =
    let running = with_step id StepState.running s in
    ground (
      arith,
      get_step_state-put running id StepState.completed other,
      get_step_state-put s id StepState.running other,
    )

stepped-IsPending :
    (s : Seen) (id : String) (rest : List PlanStep)
    → includes (ids_of rest) id ≡ false
    → All (IsPending s) rest
    → All (IsPending (stepped id s)) rest
stepped-IsPending s id [] h p = tt
stepped-IsPending s id (step ∷ rest) h p = (
  ground (
    arith,
    p.0,
    stepped-get_step_state s id step.id,
    string_eq.beq_iff id step.id,
    string_eq.beq_iff step.id id,
  ),
  stepped-IsPending s id rest (ground (arith, h)) p.1,
)

more_left :
    (plan : PlanResult) (pre rest : List PlanStep) (step : PlanStep) (s : Seen)
    → Ready plan pre (step ∷ rest) s
    → ltb (s.index + 1) (length plan.steps) ≡ ltb 0 (length rest)
more_left plan pre rest step s r =
    rw r.whole (ground (arith, r.place, length-append pre (step ∷ rest)))

module _ (env : Env) (ok : Succeeds env) (plan : PlanResult) where
  next-Ready :
      (pre rest : List PlanStep) (step : PlanStep) (s : Seen)
      → Ready plan pre (step ∷ rest) s
      → Ready plan (pre ++ step ∷ []) rest (stepped step.id s)
  next-Ready pre rest step s r = record {
    planned = r.planned;
    unaborted = r.unaborted;
    running = r.running;
    place = omega (arith, r.place, length-append pre (step ∷ []));
    whole = r.whole ∙ sym (append_assoc pre (step ∷ []) rest);
    pending = stepped-IsPending s step.id rest r.distinct.0 r.pending.1;
    distinct = r.distinct.1;
  }

  round-Runs :
      (pre rest : List PlanStep) (step : PlanStep) (s : Seen)
      → Ready plan pre (step ∷ rest) s
      → Runs s (iterate env) (ltb 0 (length rest)) (stepped step.id s)
  round-Runs pre rest step s r =
      subst (λ b. Runs s (iterate env) b (stepped step.id s)) (more_left plan pre rest step s r)
        (iterate-Runs env ok plan s r.planned step r.pending.0 r.unaborted r.running
          (rw (r.whole, r.place) (get_elem?-length pre rest step)))

  pub run_rounds-Runs :
      (rest pre : List PlanStep) (step : PlanStep) (s : Seen) (fuel : ℕ)
      → Ready plan pre (step ∷ rest) s
      → length rest < fuel
      → Runs s (run_rounds env fuel) tt (complete_all (step ∷ rest) s)
  unfolding run_rounds
  run_rounds-Runs rest pre step s zero r lt = absurd (omega arith)
  run_rounds-Runs [] pre step s (suc fuel) r lt =
      >>=-Runs _ (round-Runs pre [] step s r) (pure-Runs tt)
  run_rounds-Runs (next ∷ rest) pre step s (suc fuel) r lt =
      >>=-Runs _ (round-Runs pre (next ∷ rest) step s r) (
        then-Runs {b = ltb 0 (length (next ∷ rest))} _ (ground arith) (
          run_rounds-Runs rest (pre ++ step ∷ []) next (stepped step.id s) fuel
            (next-Ready pre (next ∷ rest) step s r) (omega arith)))

  idle-Runs : (s : Seen) → Ready plan [] [] s → Runs s (iterate env) false s
  unfolding run_current pure
  idle-Runs s r = record { value = λ w e. rw (same w e) refl; after = λ w e. rw (same w e) e }
    where
      same : (w : World) → seen w ≡ s → iterate env w ≡ run_current env none w
      same w e =
          iterate_current env plan s none w e r.planned r.unaborted r.running (rw r.whole refl)

  pub run_rounds_empty :
      (s : Seen) (fuel : ℕ) → Ready plan [] [] s → 0 < fuel → Runs s (run_rounds env fuel) tt s
  unfolding run_rounds
  run_rounds_empty s zero r lt = absurd (omega arith)
  run_rounds_empty s (suc fuel) r lt = >>=-Runs _ (idle-Runs s r) (pure-Runs tt)
