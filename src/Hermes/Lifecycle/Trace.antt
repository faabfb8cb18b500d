-- ===== src/Hermes/Lifecycle/Trace.antt =====
-- What the handlers are told.
use agent_os.Base.{true, List, [], ◌∷◌, ◌≡◌}
use agent_os.Hermes.Lifecycle.{Phase, phase_eq, is_legal}

-- Legal transitions, each from where the one before it went, from one phase to another.
pub data Chain : Phase → List (Phase × Phase) → Phase → Type 0 where
  here : {p : Phase} → Chain p [] p
  step :
      {p r : Phase} (q : Phase) {t : List (Phase × Phase)}
      → is_legal p q ≡ true
      → Chain q t r
      → Chain p ((p, q) ∷ t) r
