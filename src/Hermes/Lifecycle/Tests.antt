-- ===== src/Hermes/Lifecycle/Tests.antt =====
-- The theorems about the lifecycle at a concrete reaction.
use agent_os.Base.{List, [], ◌∷◌, ◌++◌, true, false, some, ◌≡◌, ◌⊎◌, refl, ok}
use agent_os.Hermes.Lifecycle.{
  Phase, starting, running, initializing, Reaction, Lifecycle, Phase-discrete, create_lifecycle,
  is_terminal_phase, is_legal, transition, terminal_phases, legal_transitions,
}
use agent_os.Hermes.Lifecycle.Trace.{Chain}
use agent_os.Hermes.Lifecycle.Draining.{transition_follows}

-- A handler that asks for `running` whenever it is told of anything.
abbrev eager : Reaction
eager from to = running ∷ []

fresh-alive : is_terminal_phase (create_lifecycle initializing).phase ≡ false
unfolding create_lifecycle is_terminal_phase terminal_phases Phase-discrete
fresh-alive = refl

fresh-free : (create_lifecycle initializing).transitioning ≡ false
unfolding create_lifecycle
fresh-free = refl

fresh-legal : is_legal (create_lifecycle initializing).phase starting ≡ true
unfolding create_lifecycle is_legal legal_transitions Phase-discrete
fresh-legal = refl

transition_follows_example :
    let l = create_lifecycle initializing in
    (l' : Lifecycle) × (transition eager starting l ≡ some (ok l'))
    × (l'.transitioning ≡ false)
    × (rest : List (Phase × Phase)) × Chain l.phase ((l.phase, starting) ∷ rest) l'.phase
    × (l'.fired ≡ l.fired ++ (l.phase, starting) ∷ rest)
    × ((l'.pending_queue ≡ []) ⊎ (is_terminal_phase l'.phase ≡ true))
transition_follows_example =
    transition_follows eager starting (create_lifecycle initializing) fresh-free fresh-alive
      fresh-legal
