-- ===== src/Hermes/Lifecycle/Draining.antt =====
-- One call of `transition` ends, and leaves a legal record of itself.
use agent_os.Base.{
  ℕ, zero, suc, ◌≤◌, ◌<◌, true, false, List, [], ◌∷◌, ◌++◌, some, ◌≡◌, ◌⊎◌, inl, inr, refl, ◌∙◌,
  sym, ok, arith, Bool-cases,
}
use mathlib.Core.List.{append-nil, append_assoc}
use agent_os.Hermes.Lifecycle.{
  Phase, initializing, starting, running, stopping, stopped, failed, Reaction, Lifecycle, phase_eq,
  legal_transitions, is_legal, is_terminal_phase, commit, drain, drain_fuel, release, transition,
}
use agent_os.Hermes.Lifecycle.Trace.{Chain, here, step}

-- How many transitions may follow a phase.
rank : Phase → ℕ
rank initializing = 4
rank starting = 3
rank running = 2
rank stopping = 1
rank stopped = 0
rank failed = 0

legal-rank : (p q : Phase) → is_legal p q ≡ true → rank q < rank p
unfolding is_legal legal_transitions rank
legal-rank initializing q h = ground arith
legal-rank starting q h = ground arith
legal-rank running q h = ground arith
legal-rank stopping q h = ground arith
legal-rank stopped q h = cc
legal-rank failed q h = cc

rank-le : (p : Phase) → rank p ≤ drain_fuel
unfolding rank
rank-le initializing = omega arith
rank-le _ = omega arith

-- `l'` comes from `l` by legal transitions, of which the handlers were told in order; its queue is
-- empty or its phase terminal.
pub record Follows (l l' : Lifecycle) : Type 0 where
  pub told : List (Phase × Phase)
  pub chain : Chain l.phase told l'.phase
  pub record_kept : l'.fired ≡ l.fired ++ told
  pub drained : (l'.pending_queue ≡ []) ⊎ (is_terminal_phase l'.phase ≡ true)

Follows-step :
    (l m l' : Lifecycle) (q : Phase)
    → is_legal l.phase q ≡ true
    → m.phase ≡ q
    → m.fired ≡ l.fired ++ (l.phase, q) ∷ []
    → Follows m l'
    → Follows l l'
Follows-step l m l' q legal e f h = record {
  told = (l.phase, q) ∷ h.told;
  chain = step q legal (rw e at h.chain);
  record_kept = h.record_kept ∙ rw f (append_assoc l.fired ((l.phase, q) ∷ []) h.told);
  drained = h.drained;
}

Follows-here :
    (l : Lifecycle) (queue : List Phase)
    → (queue ≡ []) ⊎ (is_terminal_phase l.phase ≡ true)
    → Follows l (record l { pending_queue = queue })
Follows-here l queue d = record {
  told = [];
  chain = here;
  record_kept = sym (append-nil l.fired);
  drained = d;
}

module _ (react : Reaction) where
  drain_total :
      (n : ℕ) (queue : List Phase) (l : Lifecycle)
      → rank l.phase ≤ n
      → (l' : Lifecycle) × (drain react n queue l ≡ some l') × Follows l l'
  unfolding drain
  drain_total n [] l h = (record l { pending_queue = [] }, refl, Follows-here l [] (inl refl))
  drain_total zero (next ∷ queue) l h = elim (Bool-cases (is_terminal_phase l.phase)) [
    | inl t ↦ (
      record l { pending_queue = next ∷ queue },
      rw (t, drain),
      Follows-here l (next ∷ queue) (inr t),
    )
    | inr nt ↦ elim (Bool-cases (is_legal l.phase next)) [
      | inr illegal ↦ rw (nt, illegal, drain) (drain_total zero queue l h)
      | inl legal ↦ absurd (omega (arith, legal-rank l.phase next legal))
    ]
  ]
  drain_total (suc n) (next ∷ queue) l h = elim (Bool-cases (is_terminal_phase l.phase)) [
    | inl t ↦ (
      record l { pending_queue = next ∷ queue },
      rw (t, drain),
      Follows-here l (next ∷ queue) (inr t),
    )
    | inr nt ↦ elim (Bool-cases (is_legal l.phase next)) [
      | inr illegal ↦ rw (nt, illegal, drain) (drain_total (suc n) queue l h)
      | inl legal ↦
          let m = commit react next (record l { pending_queue = queue }) in
          let (l', ends, follows) =
            drain_total n m.pending_queue m
              (unfold commit in omega (arith, legal-rank l.phase next legal)) in
          (
            l',
            rw (nt, legal, drain) ends,
            Follows-step l m l' next legal (unfold commit in refl) (unfold commit in refl) follows,
          )
    ]
  ]

-- A call of `transition` always ends. Where it does not throw and none is under way, the handlers
-- were told of a chain of legal transitions that begins with the requested one and leads from the
-- old phase to the new, nothing else was told, no request is left in the queue unless the phase is
-- terminal, and the lifecycle takes requests again.
pub transition_follows :
    (react : Reaction) (to : Phase) (l : Lifecycle)
    → l.transitioning ≡ false
    → is_terminal_phase l.phase ≡ false
    → is_legal l.phase to ≡ true
    → (l' : Lifecycle) × (transition react to l ≡ some (ok l'))
      × (l'.transitioning ≡ false)
      × (rest : List (Phase × Phase)) × Chain l.phase ((l.phase, to) ∷ rest) l'.phase
      × (l'.fired ≡ l.fired ++ (l.phase, to) ∷ rest)
      × ((l'.pending_queue ≡ []) ⊎ (is_terminal_phase l'.phase ≡ true))
unfolding transition commit release
transition_follows react to l free alive legal =
    let m = commit react to (record l { transitioning = true }) in
    let (l', ends, f) = drain_total react drain_fuel m.pending_queue m (rank-le to) in
    (
      record l' { transitioning = false },
      rw (alive, free, legal) (rw ends),
      refl,
      f.told,
      step to legal f.chain,
      f.record_kept ∙ append_assoc l.fired ((l.phase, to) ∷ []) f.told,
      f.drained,
    )
