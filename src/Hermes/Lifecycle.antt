-- ===== src/Hermes/Lifecycle.antt =====
-- packages/hermes/src/HermesLifecycle.ts: the phases of the kernel and their single writer.
-- A handler is told of each transition and may ask for others. `react` gives the requests that all
-- handlers make when told of one, in order. A request during a transition is queued, or, if the
-- phase is terminal, thrown back to its handler, where `fire` swallows it; so all or none of one
-- round's requests are queued. `fired` is what the handlers were told, in order.
pub mod Trace
pub mod Draining
mod Tests
use agent_os.Base.{
  ℕ, zero, suc, Bool, not, List, [], ◌∷◌, ◌++◌, Option, none, some, Eq, ◌==◌, eq_of_discrete,
  includes, if◌then◌else◌, Result, ok, err,
}

pub data Phase : Type 0 where
  initializing starting running stopping stopped failed : Phase

unfoldable pub Phase-discrete : Discrete Phase
Phase-discrete = hlevel

instance abbrev pub phase_eq : Eq Phase
phase_eq = eq_of_discrete Phase-discrete

unfoldable pub terminal_phases : List Phase
terminal_phases = stopped ∷ failed ∷ []

unfoldable pub legal_transitions : Phase → List Phase
legal_transitions initializing = starting ∷ failed ∷ []
legal_transitions starting = running ∷ failed ∷ []
legal_transitions running = stopping ∷ failed ∷ []
legal_transitions stopping = stopped ∷ failed ∷ []
legal_transitions stopped = []
legal_transitions failed = []

abbrev pub Reaction : Type 0
Reaction = (from to : Phase) → List Phase

pub record Lifecycle : Type 0 where
  pub phase : Phase
  pub transitioning : Bool
  pub pending_queue : List Phase
  pub fired : List (Phase × Phase)

pub data LifecycleError : Type 0 where
  terminal_phase : Phase → LifecycleError
  illegal_transition : (from to : Phase) → LifecycleError

unfoldable pub create_lifecycle : Phase → Lifecycle
create_lifecycle initial = record {
  phase = initial;
  transitioning = Bool.false;
  pending_queue = [];
  fired = [];
}

unfoldable pub is_terminal_phase : Phase → Bool
unfolding terminal_phases Phase-discrete
is_terminal_phase p = includes terminal_phases p

unfoldable pub is_legal : Phase → Phase → Bool
unfolding legal_transitions Phase-discrete
is_legal from to = includes (legal_transitions from) to

-- The requests that are queued when the handlers are told of a transition to `to`.
queued : Reaction → Phase → Phase → List Phase
queued react from to = if is_terminal_phase to then [] else react from to

-- `applyTransition`, past its checks, with the calls of `transition` that the handlers make.
commit : Reaction → Phase → Lifecycle → Lifecycle
unfolding queued
commit react to l = record l {
  phase = to;
  pending_queue = l.pending_queue ++ queued react l.phase to;
  fired = l.fired ++ (l.phase, to) ∷ [];
}

unfoldable pub apply_transition : Reaction → Phase → Lifecycle → Result LifecycleError Lifecycle
unfolding commit
apply_transition react to l =
    if is_terminal_phase l.phase
    then err (terminal_phase l.phase)
    else if not (is_legal l.phase to)
    then err (illegal_transition l.phase to)
    else ok (commit react to l)

-- The loop over the queue, which is its second argument. A request that is illegal is dropped. The
-- fuel is spent on transitions only; `none` is that it ran out.
drain : Reaction → ℕ → List Phase → Lifecycle → Option Lifecycle
drain react n [] l = some (record l { pending_queue = [] })
drain react zero (next ∷ queue) l = elim (is_terminal_phase l.phase) [
  | Bool.true ↦ some (record l { pending_queue = next ∷ queue })
  | Bool.false ↦ elim (is_legal l.phase next) [
    | Bool.false ↦ drain react zero queue l
    | Bool.true ↦ none
  ]
]
drain react (suc n) (next ∷ queue) l = elim (is_terminal_phase l.phase) [
  | Bool.true ↦ some (record l { pending_queue = next ∷ queue })
  | Bool.false ↦ elim (is_legal l.phase next) [
    | Bool.false ↦ drain react (suc n) queue l
    | Bool.true ↦
        let l' = commit react next (record l { pending_queue = queue }) in
        drain react n l'.pending_queue l'
  ]
]

-- No phase is left more than once, so no run makes more than four transitions after its first.
abbrev pub drain_fuel : ℕ
drain_fuel = 4

unfoldable pub release : Option Lifecycle → Option (Result LifecycleError Lifecycle)
release none = none
release (some l) = some (ok (record l { transitioning = Bool.false }))

-- `none` would be a run that does not end.
unfoldable pub transition : Reaction → Phase → Lifecycle → Option (Result LifecycleError Lifecycle)
unfolding commit drain release
transition react to l =
    if is_terminal_phase l.phase
    then some (err (terminal_phase l.phase))
    else if l.transitioning
    then some (ok (record l { pending_queue = l.pending_queue ++ to ∷ [] }))
    else if not (is_legal l.phase to)
    then some (err (illegal_transition l.phase to))
    else let l' = commit react to (record l { transitioning = Bool.true }) in
      release (drain react drain_fuel l'.pending_queue l')

unfoldable pub is_terminal : Lifecycle → Bool
is_terminal l = is_terminal_phase l.phase
