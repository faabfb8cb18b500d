-- ===== src/Runtime/Startup/Run/Tests.antt =====
-- The startup of three steps.
use agent_os.Runtime.Startup.{StartupStep, names_of, by_name_from, visit, topological_sort}
use agent_os.Runtime.Startup.Sorting.Order.{Ordered}
use agent_os.Runtime.Startup.Sorting.Whole.{IsRanked, topological_sort_ordered}
use agent_os.Runtime.Startup.Run.{
  Manager, create_startup_manager, start, run_from, roll_back_from, startup, fulfilled, rejected,
  timed_out, settle, settle_all, Phase, running, failed,
}
use agent_os.Runtime.Startup.Run.Ready.{InOrder, calls-settle_all}
use agent_os.Runtime.Startup.Run.Rollback.{RolledBack, rollbacks-settle_all}
use agent_os.Runtime.Startup.Run.Success.{IsRunning, AreRegistered, start_succeeds}
use mathlib.Core.List.{Memᴰ}
use agent_os.Base.{
  Distinct, ℕ, String, string_eq, true, false, List, [], ◌∷◌, map, reverse, some, ◌≡◌, refl, ◌==◌,
  includes, All, arith, if◌then◌else◌,
}
use agent_os.Base.Map.{get, put}

abbrev step_of : String → List String → StartupStep
step_of name dependencies = record { name = name; dependencies = dependencies; has_rollback = true }

-- Registered the other way round.
abbrev services : List StartupStep
services =
    step_of "server" ("database" ∷ [])
    ∷ step_of "database" ("config" ∷ [])
    ∷ record { name = "config"; dependencies = []; has_rollback = false }
    ∷ []

abbrev in_order : List StartupStep
in_order =
    record { name = "config"; dependencies = []; has_rollback = false }
    ∷ step_of "database" ("config" ∷ [])
    ∷ step_of "server" ("database" ∷ [])
    ∷ []

abbrev height : String → ℕ
height name = if name == "config" then 0 else if name == "database" then 1 else 2

services-Distinct : Distinct (names_of services)
services-Distinct = (refl, (refl, (refl, tt)))

services-IsRanked : IsRanked height services
services-IsRanked = ((omega arith, tt), ((omega arith, tt), (tt, tt)))

services-AreRegistered : AreRegistered (names_of services) services
services-AreRegistered = ((refl, tt), ((refl, tt), (tt, tt)))

-- What the runs below compute with.
program : Unit {0}
unfolding topological_sort visit get put create_startup_manager start run_from roll_back_from settle
    settle_all
program = tt

services_sort : topological_sort services ≡ some in_order
unfolding program
services_sort = refl

topological_sort_ordered_example :
    (sorted : List StartupStep) × (topological_sort services ≡ some sorted)
    × Ordered (by_name_from [] services) [] sorted
    × All (λ (s : StartupStep). get (by_name_from [] services) s.name ≡ some s) sorted
    × All (λ (s : StartupStep). includes (names_of sorted) s.name ≡ true) services
topological_sort_ordered_example = topological_sort_ordered services height services-IsRanked

start_succeeds_example :
    (s : Manager) × (start 5 (create_startup_manager services) ≡ some s)
    × IsRunning (names_of in_order) (settle_all (map fulfilled (6 ∷ 7 ∷ 8 ∷ [])) s)
    × All (λ s. Memᴰ s in_order) services
start_succeeds_example =
    start_succeeds 5 services in_order height (6 ∷ 7 ∷ 8 ∷ []) services-Distinct services-IsRanked
      services-AreRegistered services_sort (omega arith)

-- The run waits for the first step.
abbrev waiting_first : Manager
waiting_first = record (create_startup_manager services) {
  phase = Phase.starting;
  began = 5;
  sorted = in_order;
  waiting =
      startup (record { name = "config"; dependencies = []; has_rollback = false })
        (step_of "database" ("config" ∷ []) ∷ step_of "server" ("database" ∷ []) ∷ []);
  calls = "config" ∷ [];
}

services-start : start 5 (create_startup_manager services) ≡ some waiting_first
unfolding program
services-start = refl

calls-settle_all_example :
    InOrder
      (settle_all (fulfilled 6 ∷ timed_out 7 ∷ fulfilled 8 ∷ []) waiting_first).sorted
      (settle_all (fulfilled 6 ∷ timed_out 7 ∷ fulfilled 8 ∷ []) waiting_first).calls
calls-settle_all_example =
    calls-settle_all 5 services (fulfilled 6 ∷ timed_out 7 ∷ fulfilled 8 ∷ []) waiting_first
      services-start

-- The run waits for the last step.
abbrev waiting_last : Manager
waiting_last = settle_all (fulfilled 6 ∷ fulfilled 7 ∷ []) waiting_first

waiting_last_waits : waiting_last.waiting ≡ startup (step_of "server" ("database" ∷ [])) []
unfolding program
waiting_last_waits = refl

waiting_last_started : waiting_last.started ≡ "config" ∷ "database" ∷ []
unfolding program
waiting_last_started = refl

rollbacks-settle_all_example :
    RolledBack waiting_last.sorted waiting_last.rollbacks
      (reverse waiting_last.started)
      "server"
      (settle_all (rejected 8 ∷ rejected 9 ∷ fulfilled 10 ∷ []) waiting_last)
rollbacks-settle_all_example =
    rollbacks-settle_all 8 (step_of "server" ("database" ∷ [])) [] (rejected 9 ∷ fulfilled 10 ∷ [])
      waiting_last waiting_last_waits (rw waiting_last_started (omega arith))

-- The timer ends `start`, but the steps go on to start, and the phase goes on to `running`.
late_running :
    (settle_all (timed_out 6 ∷ []) waiting_first).phase ≡ failed
    × ((settle_all (timed_out 6 ∷ fulfilled 7 ∷ fulfilled 8 ∷ fulfilled 9 ∷ []) waiting_first).phase
        ≡ running)
unfolding program
late_running = (refl, refl)

-- A dependency that is not registered ends the run with the steps before it started, and none of
-- them is rolled back.
abbrev unmet_services : List StartupStep
unmet_services = step_of "cache" [] ∷ step_of "server" ("database" ∷ []) ∷ []

abbrev waiting_cache : Manager
waiting_cache = record (create_startup_manager unmet_services) {
  phase = Phase.starting;
  began = 5;
  sorted = unmet_services;
  waiting = startup (step_of "cache" []) (step_of "server" ("database" ∷ []) ∷ []);
  calls = "cache" ∷ [];
}

unmet_not_rolled_back :
    let t = settle_all (fulfilled 6 ∷ []) waiting_cache in
    (start 5 (create_startup_manager unmet_services) ≡ some waiting_cache)
    × (t.phase ≡ failed)
    × (t.started ≡ "cache" ∷ [])
    × (t.rollbacks ≡ [])
unfolding program
unmet_not_rolled_back = (refl, refl, refl, refl)
