-- ===== src/Schema.antt =====
-- schema/common.py and schema/steps.py: statuses, joins and the fields of a step that the engine
-- reads.
pub mod Identifiers
use rayspec_py.Prelude.{String, Bool, true, false, Option, List}

-- StepStatus
pub data StepStatus : Type 0 where
  pending running succeeded failed skipped interrupted paused rejected : StepStatus

-- StepStatus.is_terminal, with _TERMINAL_STEP_STATUSES
abbrev pub is_terminal : StepStatus → Bool
is_terminal StepStatus.pending = false
is_terminal StepStatus.running = false
is_terminal StepStatus.paused = false
is_terminal _ = true

-- JoinPolicy
pub data JoinPolicy : Type 0 where
  all any always : JoinPolicy

-- The values that `skip_reason` takes in the engine.
pub data SkipReason : Type 0 where
  upstream_skipped upstream_failed run_failed : SkipReason
  when_false budget_exceeded cancelled : SkipReason
  stopped paused failed interrupted : SkipReason

-- The `kind` of a step
pub data Kind : Type 0 where
  prompt shell python loop each include approve stop : Kind

-- StepModel: the fields that the scheduler reads
pub record StepModel : Type 0 where
  pub id : String
  pub kind : Kind
  pub needs : List String
  pub join : JoinPolicy
  pub when : Option String
  pub allow_failure : Bool
  pub always_run : Bool

-- RunStatus
pub data RunStatus : Type 0 where
  running succeeded failed cancelled paused interrupted : RunStatus
