-- ===== src/Execution/Loop/Quiet/Rounds.antt =====
-- One round of a run that nobody interferes with: it ends the run, or spends of a budget.
use agent_os.Base.{
  ℕ, zero, suc, ◌+◌, ◌-◌, ◌*◌, ◌≤◌, ◌<◌, String, string_eq, Bool, true, false, List, [], ◌∷◌,
  Option, none, some, ◌≡◌, refl, ◌∙◌, sym, ap, subst, if◌then◌else◌, length, get_elem?, arith,
}
use agent_os.Planning.Types.{PlanStep, PlanResult}
use agent_os.Execution.Types.{ExecutionStatus as Status, status_eq, ExecutionError}
use agent_os.Execution.Retry.{attempts_of}
use agent_os.Execution.Loop.Monad.{
  World, Outcome, return, throw, blocked, out_of_fuel, Exec, and_then, ◌>>=◌, ◌>>◌, pure, raise,
}
use agent_os.Execution.Loop.{is_cancelled_error}
use agent_os.Execution.Loop.Quiet.Rules.{Course, course, Settled, Calm, pure-Calm}

-- Each step that is left has one round more than its retries.
abbrev pub budget : (steps retries : ℕ) → ℕ
budget zero n = 0
budget (suc k) n = n + 1 + budget k n

get_elem-lt :
    (steps : List PlanStep) (i : ℕ) (step : PlanStep)
    → get_elem? steps i ≡ some step
    → i < length steps
get_elem-lt [] i step h = cc
get_elem-lt (s ∷ steps) zero step h = omega arith
get_elem-lt (s ∷ steps) (suc i) step h = omega (arith, get_elem-lt steps i step h)

pub budget-suc : (k j m : ℕ) → k ≡ suc j → budget k m ≡ m + 1 + budget j m
budget-suc k j m e = rw e

pub budget_step :
    (steps : List PlanStep) (i m : ℕ) (step : PlanStep)
    → get_elem? steps i ≡ some step
    → budget (length steps - i) m ≡ m + 1 + budget (length steps - (i + 1)) m
budget_step steps i m step h =
    budget-suc (length steps - i) (length steps - (i + 1)) m
      (omega (arith, get_elem-lt steps i step h))

pub budget_mul : (k m : ℕ) → budget k m ≡ k * (m + 1)
budget_mul zero m = omega arith
budget_mul (suc k) m = grind (arith, budget_mul k m)

pub budget_mono : (k j m : ℕ) → k ≤ j → budget k m ≤ budget j m
budget_mono zero j m h = omega arith
budget_mono (suc k) zero m h = omega arith
budget_mono (suc k) (suc j) m h = omega (arith, budget_mono k j m (omega arith))

abbrev pub or_empty : Option PlanStep → String
or_empty none = ""
or_empty (some step) = step.id

abbrev pub most : Course → ℕ
most c = c.retries.retry_policy.max_attempts

module _ (plan : PlanResult) where
  abbrev pub at_index : ℕ → Option PlanStep
  at_index i = get_elem? plan.steps i

  -- What is left of the budget.
  abbrev pub need : Course → ℕ
  need c =
      budget (length plan.steps - c.index) (most c)
      + (most c - attempts_of c.retries (or_empty (at_index c.index)))

  pub record Steady (c : Course) : Type 0 where
    pub running : c.status ≡ Status.running
    pub unaborted : c.aborted ≡ false
    pub planned : c.plan ≡ some plan

  -- How a round ends: the course after it, where `n` was left before it.
  unfoldable pub Round : ℕ → Outcome Bool → Course → Type 0
  Round n (return true) c = Steady c × (need c < n)
  Round n (return false) c = c.status ≡ Status.running
  Round n (throw e) c = (c.status ≡ Status.running) × (is_cancelled_error e ≡ false)
  Round n blocked c = ⊥
  Round n out_of_fuel c = ⊥

-- From a world of course `c`, the action ends a round where `n` was left before it.
pub record From (plan : PlanResult) (n : ℕ) (c : Course) (m : Exec Bool) : Type 0 where
  pub at : (w : World) → course w ≡ c → Round plan n (m w).0 (course (m w).1)

module _ (plan : PlanResult) (n : ℕ) (c : Course) (running : c.status ≡ Status.running) where
  and_then-Round :
      {A : Type 0} (f : A → Exec Bool) (o : Outcome A) (w : World)
      → course w ≡ c
      → Settled o
      → ((a : A) → From plan n c (f a))
      → Round plan n (and_then o f w).0 (course (and_then o f w).1)
  unfolding Round
  and_then-Round f (return a) w e s h = (h a).at w e
  and_then-Round f (throw x) w e s h = (ap (λ (c : Course). c.status) e ∙ running, s)
  and_then-Round f blocked w e s h = s
  and_then-Round f out_of_fuel w e s h = s

  pub >>=-From :
      {A : Type 0} {m : Exec A} {f : A → Exec Bool}
      → Calm m
      → ((a : A) → From plan n c (f a))
      → From plan n c (m >>= f)
  unfolding ◌>>=◌
  >>=-From {m = m} {f} hm hf = record {
    at = λ w e. and_then-Round f (m w).0 (m w).1 (hm.same w ∙ e) (hm.settled w) hf;
  }

  pub >>-From :
      {m : Exec (Unit {0})} {k : Exec Bool} → Calm m → From plan n c k → From plan n c (m >> k)
  unfolding ◌>>◌
  >>-From hm hk = >>=-From hm (λ _. hk)

  pub if-From :
      (b : Bool) {m k : Exec Bool}
      → From plan n c m
      → From plan n c k
      → From plan n c (if b then m else k)
  if-From true hm hk = hm
  if-From false hm hk = hk

  pub raise-From : (e : ExecutionError) → is_cancelled_error e ≡ false → From plan n c (raise e)
  unfolding raise Round
  raise-From e h = record { at = λ w same. (ap (λ (c : Course). c.status) same ∙ running, h) }

  pub pure-From : (b : Bool) → Steady plan c → need plan c < n → From plan n c (pure b)
  unfolding pure Round
  pure-From true s h = record {
    at = λ w e. subst (λ d. Steady plan d × (need plan d < n)) (sym e) (s, h);
  }
  pure-From false s h = record { at = λ w e. ap (λ (d : Course). d.status) e ∙ running }

  -- A check that throws before the rest of the round.
  pub guard-From :
      (b : Bool) (e : ExecutionError) {k : Exec Bool}
      → is_cancelled_error e ≡ false
      → (b ≡ false → From plan n c k)
      → From plan n c ((if b then raise e else pure tt) >> k)
  unfolding Round raise ◌>>◌ ◌>>=◌
  guard-From true e h hk = record {
    at = λ w same. (ap (λ (d : Course). d.status) same ∙ running, h);
  }
  guard-From false e h hk = >>-From (pure-Calm tt) (hk refl)
