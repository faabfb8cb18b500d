-- ===== src/Runtime/Shutdown/Tests.antt =====
-- The shutdown of three steps.
use agent_os.Runtime.Shutdown.{
  Manager, stopped, timed_out, create_shutdown_manager, run_from, shutdown, shut, fulfilled,
  expired, add, step, steps_all, status,
}
use agent_os.Runtime.Shutdown.Once.{calls-steps_all}
use agent_os.Base.{String, false, List, [], ◌∷◌, ◌++◌, reverse, ◌≡◌, refl}

abbrev services : Manager
services = create_shutdown_manager ("cache" ∷ "database" ∷ "server" ∷ [])

unbegun : services.has_begun ≡ false
unfolding create_shutdown_manager
unbegun = refl

uncalled : services.calls ≡ []
unfolding create_shutdown_manager
uncalled = refl

calls-steps_all_example :
    (left : List String) × (reverse services.steps
      ≡ (steps_all
          (fulfilled 4 ∷ shut 5 ∷ expired 6 ∷ add "late" ∷ fulfilled 7 ∷ [])
          (shutdown 3 services)).calls
        ++ left)
calls-steps_all_example =
    calls-steps_all 3 (fulfilled 4 ∷ shut 5 ∷ expired 6 ∷ add "late" ∷ fulfilled 7 ∷ []) services
      unbegun uncalled

three_steps : services.steps ≡ "cache" ∷ "database" ∷ "server" ∷ []
unfolding create_shutdown_manager
three_steps = refl

-- When the time is over the loop goes on: it shuts down the steps that are left, and the phase goes
-- from `timed-out` to `stopped`.
goes_on :
    let t = steps_all (expired 4 ∷ []) (shutdown 3 services) in
    let u = steps_all (fulfilled 5 ∷ fulfilled 6 ∷ fulfilled 7 ∷ []) t in
    (t.phase ≡ timed_out) × (u.phase ≡ stopped) × (u.calls ≡ "server" ∷ "database" ∷ "cache" ∷ [])
unfolding create_shutdown_manager run_from shutdown step steps_all status
goes_on = (refl, refl, refl)
