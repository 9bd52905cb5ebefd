-- ===== src/Engine/Settle.antt =====
-- engine/scheduler.py: the outcomes of steps and what a sibling list takes from each (`settle` in
-- `run_graph`). The state is the outcomes so far with `draining`, `paused` and `control`; the
-- templates' views and the times are not part of it.
pub mod Control
use rayspec_py.Prelude.{
  ℕ, String, Bool, true, false, not, ◌&&◌, ◌||◌, Option, none, some, List, [], ◌∷◌, ◌++◌, all,
  if◌then◌else◌, is_some, or_else,
}
use rayspec_py.Prelude.Dict.{Dict, get, put}
use rayspec_py.Schema.{StepStatus, SkipReason, is_terminal, StepModel}
use rayspec_py.Engine.Graph.Join.{failed_like}

-- RunControl: RunPaused, or RunStopped with the path of the step that raised it
pub data RunControl : Type 0 where
  run_paused : String → RunControl
  run_stopped : String → RunControl

-- The type of an ErrorInfo.
pub data ErrorType : Type 0 where
  rejected interrupted failed other : ErrorType

pub record StepRecord : Type 0 where
  pub id : String
  pub status : StepStatus
  pub ok_flag : Option Bool
  pub tolerated : Bool
  pub skip_reason : Option SkipReason
  pub error : Option ErrorType

pub record StepOutcome : Type 0 where
  pub step_record : StepRecord
  pub reused : Bool
  pub control : Option RunControl

abbrev pub is_pause : RunControl → Bool
is_pause (run_paused path) = true
is_pause (run_stopped path) = false

unfoldable pub cancel_reason_for : RunControl → SkipReason
cancel_reason_for c = if is_pause c then SkipReason.paused else SkipReason.stopped

-- `_skipped`
unfoldable pub skipped : StepRecord → SkipReason → StepOutcome
skipped r reason = record {
  step_record = record r { status = StepStatus.skipped; skip_reason = some reason; ok_flag = none };
  reused = false;
  control = none;
}

-- `_interrupted`
unfoldable pub interrupted_outcome : StepRecord → SkipReason → StepOutcome
interrupted_outcome r reason = record {
  step_record = record r {
    status = StepStatus.interrupted;
    skip_reason = some reason;
    ok_flag = some false;
    error = some interrupted;
  };
  reused = false;
  control = none;
}

abbrev controlled_record : StepRecord → RunControl → StepRecord
controlled_record r (run_paused path) = record r {
  status = StepStatus.paused;
  skip_reason = some SkipReason.paused;
}
controlled_record r (run_stopped path) = record r {
  status = StepStatus.interrupted;
  skip_reason = some SkipReason.stopped;
  ok_flag = some false;
}

-- `_controlled`
unfoldable pub controlled : StepRecord → RunControl → StepOutcome
controlled r c = record { step_record = controlled_record r c; reused = false; control = some c }

-- `finalize`: the derived fields, without the times
abbrev pub finalized : StepRecord → StepStatus → Bool → StepRecord
finalized r StepStatus.failed allow_failure = record r {
  ok_flag = some false;
  tolerated = r.tolerated || allow_failure;
  error = or_else r.error (some failed);
}
finalized r StepStatus.succeeded allow_failure = record r {
  ok_flag = or_else r.ok_flag (some true);
  error = none;
}
finalized r status allow_failure = r

unfoldable pub finalize : StepOutcome → StepModel → StepOutcome
finalize o step = record o {
  step_record = finalized o.step_record o.step_record.status step.allow_failure;
}

-- The state of a sibling list.
pub record Siblings : Type 0 where
  pub outcomes : Dict StepOutcome
  pub draining : Bool
  pub paused : Bool
  pub control : Option RunControl

abbrev pub no_outcome : Siblings
no_outcome = record { outcomes = []; draining = false; paused = false; control = none }

abbrev pub is_paused : StepStatus → Bool
is_paused StepStatus.paused = true
is_paused _ = false

abbrev is_rejected : Option ErrorType → Bool
is_rejected (some rejected) = true
is_rejected _ = false

-- Whether a failure closes the ready-set: under `continue` only a human's rejection does.
abbrev pub drains : Bool → StepRecord → Bool
drains keep_going r =
    failed_like r.status && (not r.tolerated && (is_rejected r.error || not keep_going))

-- The first signal wins, except that a pause beats a stop.
abbrev pub merge_control : Option RunControl → Option RunControl → Option RunControl
merge_control held none = held
merge_control none (some c) = some c
merge_control (some held) (some c) = if is_pause c && not (is_pause held) then some c else some held

unfoldable pub settle : Bool → StepOutcome → Siblings → Siblings
settle keep_going o s = record {
  outcomes = put s.outcomes o.step_record.id o;
  draining = s.draining || (drains keep_going o.step_record || is_paused o.step_record.status);
  paused = s.paused || is_paused o.step_record.status;
  control = merge_control s.control o.control;
}

-- Outcomes in the order in which they are settled.
abbrev pub settle_all : Bool → List StepOutcome → Siblings → Siblings
settle_all keep_going [] s = s
settle_all keep_going (o ∷ os) s = settle_all keep_going os (settle keep_going o s)

abbrev terminal_outcome : Option StepOutcome → Bool
terminal_outcome none = false
terminal_outcome (some o) = is_terminal o.step_record.status

unfoldable pub decidable : Dict StepOutcome → List String → Bool
decidable outcomes needs = all (λ n. terminal_outcome (get outcomes n)) needs
