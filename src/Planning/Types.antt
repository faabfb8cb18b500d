-- ===== src/Planning/Types.antt =====
-- packages/llm/src/planning/types.ts: the parts of a plan that the modelled code reads. The
-- free-form `arguments`, `metadata`, goal and constraints of a plan are read by none of it.
use agent_os.Base.{String, List, Option}

pub data PlanStatus : Type 0 where
  draft validated ready executing completed failed cancelled : PlanStatus

pub record PlanStep : Type 0 where
  pub id : String
  pub title : String
  pub description : String
  pub tool : Option String
  pub depends_on : List String
  pub expected_result : String
  pub status : PlanStatus

pub record PlanDependency : Type 0 where
  pub from : String
  pub to : String

pub record PlanResult : Type 0 where
  pub id : String
  pub steps : List PlanStep
  pub dependencies : List PlanDependency
  pub required_tools : List String
  pub status : PlanStatus
