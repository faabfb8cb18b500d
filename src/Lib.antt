-- ===== src/Lib.antt =====
-- The agent platform: its execution engine, its kernel, its plugin platform, its process management
-- and its memory.
--
-- The program runs plans. A plan is a list of steps (packages/llm/src/planning/types.ts). The
-- execution loop (packages/hermes/src/execution) takes one step after the other, calls an executor
-- for it, and records the result in the execution's context; a failed step is retried under a
-- policy, or the rest of the run is planned anew; callers can pause, resume, cancel or abort the
-- run while the loop waits. The kernel (packages/hermes/src) has a lifecycle, whose handlers may
-- ask for further transitions, and a registry of modules with dependencies between them. The plugin
-- platform (packages/plugins/src) has a registry of plugins, moves each through its phases, and
-- checks dependencies and their versions. The process (packages/runtime/src) starts its services in
-- the order of their dependencies, rolls them back when one fails, watches their health and shuts
-- them down. The memory (packages/memory/src) keeps records behind a registry of providers, with
-- filters, policies and an index of their content. The graph (packages/graphiti/src) keeps nodes
-- and edges.
--
-- Base holds what the parts share: Boolean tests, equality as an interface (Eq), lists as arrays
-- and sets, results, and the source's Map as a list of entries in the order of insertion
-- (Base/Map).
--
-- Execution models packages/hermes/src/execution. Types is ExecutionTypes.ts with the errors of
-- ExecutionErrors.ts, State is ExecutionState.ts, Policy ExecutionPolicy.ts, Retry
-- ExecutionRetry.ts, History ExecutionHistory.ts, Checkpoint ExecutionCheckpoint.ts, Context
-- ExecutionContext.ts, Events the event data of ExecutionEvents.ts. Loop is in three files:
-- Controls has what callers do and the waits, Loop the rounds and `execute`, Closing the end of
-- `execute`. A method that changes an object is a function that returns the changed object; a throw
-- is `err`. Loop is ExecutionLoop.ts, in the monad of Loop/Monad: state passing over the one shared
-- context and what an observer can see (the events, the ids that the executor was called for), with
-- exceptions. Each `await` takes its reply from an environment, a parameter: the answer, the
-- clock's reading, and what callers did to the execution meanwhile (`Control`). Between awaits the
-- source runs to completion, so no other interleaving exists. The `while` loop takes fuel, one unit
-- for each round, and running out of it is an outcome of its own, as is a wait that never ends.
-- Loop/Quiet is about runs that nobody interferes with, and Loop/Success about those of them whose
-- executor succeeds, for plans that the planner's validator accepts.
--
-- Hermes models HermesLifecycle.ts (Lifecycle) and HermesModuleRegistry.ts (Modules) of
-- packages/hermes/src. The handlers of the lifecycle together are a function from the transition
-- they are told of to the requests they make. The drain of the queue spends fuel on transitions
-- only; four are enough, as every legal transition goes up in a fixed order of five places.
--
-- Plugins models packages/plugins/src: Types is types.ts, Registry PluginRegistry.ts, Lifecycle
-- PluginLifecycleManager.ts, Dependencies PluginDependencyValidator.ts. How a plugin's method ends
-- is an argument. The regular expression that reads a version is a parameter.
--
-- Planning models packages/llm/src/planning: Types the parts of a plan in types.ts that are read,
-- and Validator PlanningValidator.ts, the checks of a plan. The depth-first search for cycles
-- spends fuel on the depth of its recursion; one more than there are ids is enough, as each level
-- visits a new id.
--
-- Runtime models packages/runtime/src: Startup the sort of StartupManager.ts and Startup/Run its
-- `start`, Shutdown ShutdownManager.ts, Health HealthManager.ts. Between two `await`s a manager
-- runs on its own; what settles an `await`, and the timer of `Promise.race`, are events, in any
-- order. The sort spends fuel on the depth of its recursion, as the search for cycles does.
--
-- Memory models packages/memory/src: Types the records of MemoryTypes.ts, Indexer MemoryIndexer.ts,
-- Registry MemoryRegistry.ts, Policies MemoryPolicies.ts, Filters MemoryFilters.ts. The loop that
-- cuts a content into chunks takes fuel, a round for each unit of the content and one more: enough
-- where the starts of the chunks go up. A start is an integer (Base/Int), as it goes below 0 when
-- the overlap is more than the size.
--
-- Graph models packages/graphiti/src/InMemoryGraphiti.ts: Graph the store and its methods,
-- Graph/Paths `findPath`. The search takes fuel, one unit for each item of its queue; as many items
-- as there are listed edges, with the first, are all that it can hold.
--
-- Numbers of the source that are modelled are counts, indices and milliseconds: natural numbers,
-- well below the limit up to which the source's numbers are exact. The subtractions of clock
-- readings take the clock not to go back. The multiplier of a retry policy is a natural number too:
-- policies with a fraction are left out.
--
-- Not modelled: what is registered, removed or asked at the health manager while it awaits its
-- checks; the lists of event handlers, which only observe; the engine that builds contexts and
-- results around the loop; the free-form data of results and plans; planning by a language model
-- and its providers; the ranking of memories, which is arithmetic on floating-point numbers, and
-- the manager that combines the parts of the memory; the search of the graph by text;
-- configuration, authentication, logging, adapters, the web applications and the scripts, which are
-- input and output or calls of outside services.
pub mod Base
pub mod Planning
pub mod Execution
pub mod Hermes
pub mod Plugins
pub mod Runtime
pub mod Memory
pub mod Graph
