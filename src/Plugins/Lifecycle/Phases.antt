-- ===== src/Plugins/Lifecycle/Phases.antt =====
-- What an action does to the phases.
use agent_os.Base.{
  ℕ, String, string_eq, true, false, List, [], ◌∷◌, ◌++◌, Option, none, some, ◌==◌, ◌≡◌, ◌≢◌, refl,
  ◌∙◌, if◌then◌else◌, beq_refl, Result, arith, All, All-append, Bool-cases, inl, inr,
}
use agent_os.Plugins.Types.{PluginPhase, PluginRecord, plugin_phase_eq, stopped, failed}
use agent_os.Plugins.Registry.{in_phase, with_error, get_plugin}
use agent_os.Plugins.Registry.Lookups.{get-update_phase, get-update_error}
use agent_os.Plugins.Lifecycle.{
  Action, initialize, startup, shutdown, dispose, Ending, threw, returned, call, PhasePlan, Manager,
  Move, phase_for_action, can_move, move_to, fail_from, settle_action, run_found,
  execute_transition,
}

abbrev pub phase_of : Option PluginRecord → Option PluginPhase
phase_of none = none
phase_of (some r) = some r.phase

-- The phase in which an action that is under way ends.
unfoldable pub end_phase : Action → Ending → PluginPhase
end_phase action (threw message) = failed
end_phase action (returned result) = (phase_for_action action).target_phase

phase_of-move_to :
    (id : String) (p q : PluginPhase) (now : ℕ) (m : Manager) (r : PluginRecord) (j : String)
    → get_plugin m.registry id ≡ some r
    → get_plugin (move_to id p q now m).registry j
      ≡ (if id == j then some (in_phase q now r) else get_plugin m.registry j)
unfolding move_to
phase_of-move_to id p q now m r j h = get-update_phase m.registry id r q now j h

phase_of-settle_action :
    (id : String) (action : Action) (now : ℕ) (e : Ending) (m : Manager) (r : PluginRecord)
    (j : String)
    → get_plugin m.registry id ≡ some r
    → phase_of (get_plugin (settle_action id (phase_for_action action) now e m).0.registry j)
      ≡ (if id == j then some (end_phase action e) else phase_of (get_plugin m.registry j))
unfolding settle_action end_phase
phase_of-settle_action id action now (threw message) m r j h =
    unfold fail_from with_error in rw (get-update_error m.registry id r message j h) (ground arith)
phase_of-settle_action id action now (returned result) m r j h =
    unfold in_phase in
    rw
      (phase_of-move_to id (phase_for_action action).intermediate_phase
        (phase_for_action action).target_phase now m r j h)
      (ground arith)

starts :
    (action : Action)
    → can_move
        (phase_for_action action).expected_current
        (phase_for_action action).intermediate_phase
      ≡ true
unfolding can_move phase_for_action
starts initialize = refl
starts startup = refl
starts shutdown = refl
starts dispose = refl

phase_beq_refl : (p : PluginPhase) → (p == p) ≡ true
phase_beq_refl p = beq_refl p

-- An action on a plugin that is in the phase which the action expects leaves it in the action's
-- target phase, or in the failed phase if the plugin's method threw, and no other plugin's phase
-- changes.
pub execute_transition-phase :
    (id : String) (action : Action) (now : ℕ) (e : Ending) (m : Manager) (r : PluginRecord)
    (j : String)
    → get_plugin m.registry id ≡ some r
    → r.phase ≡ (phase_for_action action).expected_current
    → phase_of (get_plugin (execute_transition id action now e m).0.registry j) ≡ (
        if id == j
        then some (end_phase action (call action e))
        else phase_of (get_plugin m.registry j))
unfolding execute_transition run_found
execute_transition-phase id action now e m r j h p =
    let plan = phase_for_action action in
    let m1 = move_to id plan.expected_current plan.intermediate_phase now m in
    let r1 = in_phase plan.intermediate_phase now r in
    let moved = phase_of-move_to id plan.expected_current plan.intermediate_phase now m r in
    rw (h, p, run_found, phase_beq_refl plan.expected_current, starts action)
      (phase_of-settle_action id action now (call action e) m1 r1 j (moved id h ∙ rw (beq_refl id))
        ∙ rw (moved j h) (ground arith))

-- The moves that handlers are told of are allowed by the table of transitions.
abbrev pub AllLegal : List Move → Type 0
AllLegal = All (λ (v : Move). can_move v.from v.to ≡ true)

AllLegal-snoc :
    (vs : List Move) (v : Move)
    → AllLegal vs
    → can_move v.from v.to ≡ true
    → AllLegal (vs ++ v ∷ [])
AllLegal-snoc vs v a h =
    All-append (λ (v : Move). can_move v.from v.to ≡ true) vs (v ∷ []) a (h, tt)

settle_action-moves :
    (id : String) (p : PhasePlan) (now : ℕ) (e : Ending) (m : Manager)
    → can_move p.intermediate_phase p.target_phase ≡ true
    → can_move p.intermediate_phase failed ≡ true
    → AllLegal m.moves
    → AllLegal (settle_action id p now e m).0.moves
unfolding settle_action move_to fail_from
settle_action-moves id p now (threw message) m t f a = AllLegal-snoc m.moves _ a f
settle_action-moves id p now (returned result) m t f a = AllLegal-snoc m.moves _ a t

run_found-moves :
    (o : Option PluginRecord) (id : String) (p : PhasePlan) (now : ℕ) (e : Ending) (m : Manager)
    → can_move p.intermediate_phase p.target_phase ≡ true
    → can_move p.intermediate_phase failed ≡ true
    → AllLegal m.moves
    → AllLegal (run_found o id p now e m).0.moves
unfolding run_found
run_found-moves none id p now e m t f a = a
run_found-moves (some r) id p now e m t f a = elim (Bool-cases (r.phase == p.expected_current)) [
  | inr other ↦ rw (other, run_found) a
  | inl as_expected ↦ elim (Bool-cases (can_move r.phase p.intermediate_phase)) [
    | inr stuck ↦ rw (as_expected, stuck, run_found) a
    | inl free ↦
        rw (as_expected, free, run_found)
          (settle_action-moves id p now e (move_to id r.phase p.intermediate_phase now m) t f
            (unfold move_to in AllLegal-snoc m.moves _ a free))
  ]
]

goes_on :
    (action : Action)
    → action ≢ dispose
    → let p = phase_for_action action in
      (can_move p.intermediate_phase p.target_phase ≡ true)
      × (can_move p.intermediate_phase failed ≡ true)
unfolding can_move phase_for_action
goes_on initialize h = (refl, refl)
goes_on startup h = (refl, refl)
goes_on shutdown h = (refl, refl)
goes_on dispose h = absurd (h refl)

-- An action other than `dispose` tells the handlers only of moves that the table allows, however
-- the plugin's method ends, and also where the action is refused.
pub execute_transition-moves :
    (id : String) (action : Action) (now : ℕ) (e : Ending) (m : Manager)
    → action ≢ dispose
    → AllLegal m.moves
    → AllLegal (execute_transition id action now e m).0.moves
unfolding execute_transition
execute_transition-moves id action now e m h a =
    let (t, f) = goes_on action h in
    run_found-moves (get_plugin m.registry id) id (phase_for_action action) now (call action e) m t
      f a

not-AllLegal-snoc :
    (vs : List Move) (v : Move) → can_move v.from v.to ≡ false → ¬ AllLegal (vs ++ v ∷ [])
not-AllLegal-snoc [] v h a = cc (a.0)
not-AllLegal-snoc (u ∷ vs) v h a = not-AllLegal-snoc vs v h a.1

settle_action-dispose :
    (id : String) (now : ℕ) (e : Ending) (m : Manager)
    → ¬ AllLegal (settle_action id (phase_for_action dispose) now e m).0.moves
unfolding settle_action move_to fail_from can_move phase_for_action
settle_action-dispose id now (threw message) m = not-AllLegal-snoc m.moves _ refl
settle_action-dispose id now (returned result) m = not-AllLegal-snoc m.moves _ refl

-- Disposing of a stopped plugin, however its method ends, tells the handlers of a move that the
-- table does not allow.
pub execute_transition-dispose_illegal :
    (id : String) (now : ℕ) (e : Ending) (m : Manager) (r : PluginRecord)
    → get_plugin m.registry id ≡ some r
    → r.phase ≡ stopped
    → ¬ AllLegal (execute_transition id dispose now e m).0.moves
unfolding execute_transition
execute_transition-dispose_illegal id now e m r h p =
    rw (h, p, run_found, starts dispose)
      (settle_action-dispose id now e
        (move_to id stopped (phase_for_action dispose).intermediate_phase now m))

run_found-returned :
    (o : Option PluginRecord) (id : String) (p : PhasePlan) (now : ℕ)
    (x y : Result String (Unit {0})) (m : Manager)
    → run_found o id p now (returned x) m ≡ run_found o id p now (returned y) m
unfolding run_found settle_action
run_found-returned none id p now x y m = refl
run_found-returned (some r) id p now x y m = refl

-- The `Result` that a plugin's method returns makes no difference: an action on a plugin whose
-- method returns an error does all that it does where the method returns success.
pub execute_transition-returned :
    (id : String) (action : Action) (now : ℕ) (x y : Result String (Unit {0})) (m : Manager)
    → execute_transition id action now (returned x) m
      ≡ execute_transition id action now (returned y) m
unfolding execute_transition
execute_transition-returned id initialize now x y m = refl
execute_transition-returned id action now x y m =
    run_found-returned (get_plugin m.registry id) id (phase_for_action action) now x y m
