-- ===== src/Engine/Verdict.antt =====
-- engine/runner.py: what a finished run is reported as. A step path is the list of its segments,
-- as `StepPath.parse` reads it.
pub mod Laundering
pub mod Ladder
pub mod Finish
use rayspec_py.Prelude.{
  ℕ, String, Bool, true, false, not, ◌&&◌, ◌||◌, Option, none, some, List, [], ◌∷◌, ◌++◌, any,
  select, is_some, ◌==◌, if◌then◌else◌, str_eq, length,
}
use rayspec_py.Schema.{StepStatus, RunStatus, SkipReason}
use rayspec_py.Engine.Graph.Join.{failed_like}
use rayspec_py.Limits.Envelope.{PauseKind, Reason}

abbrev pub Segment : Type 0
Segment = String × Option ℕ

abbrev pub StepPath : Type 0
StepPath = List Segment

abbrev index_eq : Option ℕ → Option ℕ → Bool
index_eq none none = true
index_eq (some i) (some j) = i == j
index_eq none (some j) = false
index_eq (some i) none = false

abbrev pub path_eq : StepPath → StepPath → Bool
path_eq [] [] = true
path_eq ((a, i) ∷ p) ((b, j) ∷ q) = str_eq a b && (index_eq i j && path_eq p q)
path_eq [] (_ ∷ q) = false
path_eq (_ ∷ p) [] = false

-- StepRecord: the fields that decide about the run
pub record StepRecord : Type 0 where
  pub path : StepPath
  pub status : StepStatus
  pub tolerated : Bool
  pub skip_reason : Option SkipReason
  pub error : Option String

abbrev is_interrupted : StepStatus → Bool
is_interrupted StepStatus.interrupted = true
is_interrupted _ = false

abbrev is_skipped : StepStatus → Bool
is_skipped StepStatus.skipped = true
is_skipped _ = false

abbrev is_stopped_reason : Option SkipReason → Bool
is_stopped_reason (some SkipReason.stopped) = true
is_stopped_reason _ = false

abbrev is_cancel_reason : Option SkipReason → Bool
is_cancel_reason (some SkipReason.cancelled) = true
is_cancel_reason _ = false

unfoldable pub failed_steps : List StepRecord → List StepRecord
failed_steps steps = select (λ r. failed_like r.status && not r.tolerated) steps

unfoldable pub stop_collateral : StepRecord → Bool
stop_collateral r = is_interrupted r.status && is_stopped_reason r.skip_reason

unfoldable pub cancel_collateral : StepRecord → Bool
cancel_collateral r =
    is_cancel_reason r.skip_reason && (is_interrupted r.status || is_skipped r.status)

-- run.steps.get(path)
abbrev pub find : List StepRecord → StepPath → Option StepRecord
find [] p = none
find (r ∷ steps) p = if path_eq r.path p then some r else find steps p

-- The record paths of the enclosing composites, outermost first; they carry no index of their own.
abbrev pub containers : StepPath → StepPath → List StepPath
containers front [] = []
containers front (s ∷ []) = []
containers front ((name, index) ∷ s ∷ rest) =
    (front ++ (name, none) ∷ []) ∷ containers (front ++ (name, index) ∷ []) (s ∷ rest)

abbrev pub has_settled : Option StepRecord → Bool
has_settled none = false
has_settled (some container) = not (stop_collateral container)

unfoldable pub answered_by_a_composite : List StepRecord → StepRecord → Bool
answered_by_a_composite steps r = any (λ p. has_settled (find steps p)) (containers [] r.path)

unfoldable pub run_failures : List StepRecord → List StepRecord
run_failures steps =
    select
      (λ r.
        not (stop_collateral r)
        && (not (cancel_collateral r) && not (answered_by_a_composite steps r)))
      (failed_steps steps)

-- RunStopped: the signal of a `stop:` step or of a cancelling gate
pub record Stop : Type 0 where
  pub step_path : StepPath
  pub status : RunStatus
  pub reason : Option String

-- The control signals of the context.
pub record Signals : Type 0 where
  pub engine_error : Option String
  pub interrupted : Bool
  pub paused : Option StepPath
  pub envelope_pause : Option Reason
  pub envelope_pause_kind : PauseKind
  pub budget_exceeded : Option String
  pub cancel_requested : Option String
  pub stopped : Option Stop

-- The reasons of a run, by what their text says.
pub data RunReason : Type 0 where
  engine_error : String → RunReason
  interrupted : RunReason
  awaiting : StepPath → Option StepRecord → RunReason
  ceiling : Reason → Option StepRecord → RunReason
  cap cancel outputs : String → RunReason
  step_failed : StepRecord → RunReason
  stop_reason : String → RunReason
  stopped_by : StepPath → RunReason

abbrev pub not_raised_by : Option Stop → StepRecord → Bool
not_raised_by none r = true
not_raised_by (some stop) r = not (path_eq r.path stop.step_path)

-- The failures that count against the run: the step that raised the stop does not outrank it.
unfoldable pub counted_failures : Signals → List StepRecord → List StepRecord
counted_failures s steps = select (not_raised_by s.stopped) (run_failures steps)

abbrev pub first_of : List StepRecord → Option StepRecord
first_of [] = none
first_of (r ∷ rs) = some r

abbrev pub reason_of_stop : Stop → RunReason
reason_of_stop stop = elim stop.reason [
  | none ↦ stopped_by stop.step_path
  | some t ↦ if str_eq t "" then stopped_by stop.step_path else stop_reason t
]

abbrev pub by_failures :
    List StepRecord → RunStatus × Option RunReason → RunStatus × Option RunReason
by_failures [] otherwise = otherwise
by_failures (first ∷ failed) otherwise = (RunStatus.failed, some (step_failed first))

abbrev pub by_stop : Option Stop → RunStatus × Option RunReason
by_stop none = (RunStatus.succeeded, none)
by_stop (some stop) = (stop.status, some (reason_of_stop stop))

abbrev pub by_cancel : Option String → Option Stop → List StepRecord → RunStatus × Option RunReason
by_cancel (some reason) stopped failed =
    by_failures failed (RunStatus.cancelled, some (cancel reason))
by_cancel none stopped failed = by_failures failed (by_stop stopped)

abbrev pub by_cap : Option String → RunStatus × Option RunReason → RunStatus × Option RunReason
by_cap (some reason) otherwise = (RunStatus.failed, some (cap reason))
by_cap none otherwise = otherwise

abbrev pub by_ceiling :
    Option Reason → List StepRecord → RunStatus × Option RunReason → RunStatus × Option RunReason
by_ceiling (some reason) failed otherwise =
    (RunStatus.paused, some (ceiling reason (first_of failed)))
by_ceiling none failed otherwise = otherwise

abbrev pub by_gate :
    Option StepPath
    → Bool
    → List StepRecord
    → RunStatus × Option RunReason
    → RunStatus × Option RunReason
by_gate (some path) torn failed otherwise =
    (RunStatus.paused, some (awaiting path (first_of failed)))
by_gate none true failed otherwise = (RunStatus.interrupted, some RunReason.interrupted)
by_gate none false failed otherwise = otherwise

abbrev pub by_engine : Option String → RunStatus × Option RunReason → RunStatus × Option RunReason
by_engine (some e) otherwise = (RunStatus.failed, some (RunReason.engine_error e))
by_engine none otherwise = otherwise

-- The control-signal ladder of `_finalize`.
unfoldable pub ladder : Signals → List StepRecord → RunStatus × Option RunReason
ladder s steps =
    let failed = counted_failures s steps in
    by_engine s.engine_error (
      by_gate s.paused s.interrupted failed (
        by_ceiling s.envelope_pause failed
          (by_cap s.budget_exceeded (by_cancel s.cancel_requested s.stopped failed))))
