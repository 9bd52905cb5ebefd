-- ===== src/Engine/Scheduler.antt =====
-- engine/scheduler.py: `run_graph`, from the decision about one pending step to the rounds of the
-- wind-down. A step leaves `pending` when it is decided; it is then settled at once or handed to
-- the task group (`running`). What a visit reads besides the list's state is its `Moment`.
pub mod WindDown
pub mod Decided
pub mod Pending
pub mod Progress
pub mod Kept
pub mod Rounds
mod Unwind
pub mod Draining
mod Leftovers
pub mod Reach
pub mod Complete
use rayspec_py.Prelude.{
  ℕ, zero, suc, String, Bool, true, false, not, ◌&&◌, ◌||◌, Option, none, some, List, [], ◌∷◌, ◌++◌,
  select, str_eq, if◌then◌else◌, is_some,
}
use rayspec_py.Prelude.Dict.{Dict, get}
use rayspec_py.Schema.{StepStatus, JoinPolicy, SkipReason, Kind, StepModel}
use rayspec_py.Engine.Graph.Join.{Outcome, JoinDecision, join_decision}
use rayspec_py.Engine.Graph.Build.{StepGraph}
use rayspec_py.Engine.Settle.{
  StepRecord, StepOutcome, ErrorType, Siblings, skipped, finalize, settle, decidable, no_outcome,
}

-- What `_evaluate_when` answers.
pub data Verdict : Type 0 where
  holds fails template_error : Verdict

-- What a decision reads of the run at the moment it is taken: the caps, the records of the
-- previous run by the step's id, whether `try_reuse` takes such a record (the rerun globs, the
-- item's hash, the output file, the fingerprint) and the value of a condition.
pub record Moment : Type 0 where
  pub keep_going : Bool
  pub budget_exceeded : Option String
  pub cancel_requested : Option String
  pub cache : Dict StepRecord
  pub replays : StepModel → StepRecord → Bool
  pub eval_when : StepModel → String → Verdict

-- The state of a sibling list that runs.
pub record GraphState : Type 0 where
  pub pending : List StepModel
  pub running : List StepModel
  pub siblings : Siblings

-- graph.needs[sid]
abbrev pub needs_named : StepGraph → String → List String
needs_named g sid = elim (get g.needs sid) [ none ↦ [] | some needs ↦ needs ]

abbrev pub needs_of : StepGraph → StepModel → List String
needs_of g step = needs_named g step.id

abbrev pub outcome_of : StepRecord → Outcome
outcome_of r = record { status = r.status; tolerated = r.tolerated }

-- [outcomes[n].record for n in needs]
unfoldable pub need_outcomes : Dict StepOutcome → List String → List Outcome
need_outcomes outcomes [] = []
need_outcomes outcomes (n ∷ needs) =
    let rest = need_outcomes outcomes needs in
    elim (get outcomes n) [ none ↦ rest | some o ↦ outcome_of o.step_record ∷ rest ]

-- ctx.new_record
abbrev pub new_record : StepModel → StepRecord
new_record step = record {
  id = step.id;
  status = StepStatus.running;
  ok_flag = none;
  tolerated = false;
  skip_reason = none;
  error = none;
}

abbrev pub failed_outcome : StepRecord → StepOutcome
failed_outcome r = record {
  step_record = record r {
    status = StepStatus.failed;
    ok_flag = some false;
    error = some ErrorType.other;
  };
  reused = false;
  control = none;
}

-- REUSABLE_KINDS
abbrev pub reusable_kind : Kind → Bool
reusable_kind Kind.prompt = true
reusable_kind Kind.shell = true
reusable_kind Kind.python = true
reusable_kind Kind.approve = true
reusable_kind _ = false

-- StepRecord.reusable; that the record names an output is in `replays`
abbrev pub is_reusable : StepStatus → Bool → Bool
is_reusable StepStatus.succeeded tolerated = true
is_reusable StepStatus.failed tolerated = tolerated
is_reusable _ tolerated = false

-- `try_reuse`, with the texts of its warnings left out
unfoldable pub try_reuse : Moment → StepModel → Option StepOutcome
try_reuse m step =
    if not (reusable_kind step.kind) || step.always_run then none else elim (get m.cache step.id) [
      | none ↦ none
      | some prev ↦
          if is_reusable prev.status prev.tolerated && m.replays step prev
          then some (record { step_record = prev; reused = true; control = none })
          else none
    ]

-- A text that Python takes for true.
abbrev pub truthy : Option String → Bool
truthy none = false
truthy (some t) = not (str_eq t "")

abbrev pub is_always : JoinPolicy → Bool
is_always JoinPolicy.always = true
is_always _ = false

-- ctx.budget_exceeded or ctx.cancel_requested
abbrev pub drain_reason : Moment → Option String
drain_reason m = if truthy m.budget_exceeded then m.budget_exceeded else m.cancel_requested

-- What becomes of a pending step: it stays, it is settled, it is launched; `raises` is the
-- ValueError of the join.
pub data Decision : Type 0 where
  stays : Decision
  ends : StepOutcome → Decision
  launches : Decision
  raises : Decision

-- The outcome under a tripped cap or a cancel.
abbrev pub drained : Moment → StepModel → StepOutcome
drained m step = elim (try_reuse m step) [
  | some o ↦ o
  | none ↦
      skipped (new_record step)
        (if is_some m.budget_exceeded then SkipReason.budget_exceeded else SkipReason.cancelled)
]

abbrev pub on_verdict : StepModel → Verdict → Decision
on_verdict step holds = launches
on_verdict step fails = ends (skipped (new_record step) SkipReason.when_false)
on_verdict step template_error = ends (failed_outcome (new_record step))

abbrev pub by_when : Moment → StepModel → Decision
by_when m step = elim step.when [
  | none ↦ launches
  | some condition ↦ on_verdict step (m.eval_when step condition)
]

-- `_skipped(record, decision.skip_reason or "")`
abbrev pub skipped_as : StepModel → Option SkipReason → StepOutcome
skipped_as step (some reason) = skipped (new_record step) reason
skipped_as step none = record {
  step_record = record (new_record step) { status = StepStatus.skipped };
  reused = false;
  control = none;
}

abbrev pub by_join : Moment → StepModel → Option JoinDecision → Decision
by_join m step none = raises
by_join m step (some d) = if d.run then by_when m step else ends (skipped_as step d.skip_reason)

-- One turn of the inner loop of `decide_and_launch`.
unfoldable pub decide : Moment → StepGraph → Siblings → StepModel → Decision
decide m g s step =
    if not (decidable s.outcomes (needs_of g step))
    then stays
    else if is_some (drain_reason m) && not (is_always step.join)
    then ends (drained m step)
    else by_join m step (
        join_decision step.join (need_outcomes s.outcomes (needs_of g step))
          (s.draining || is_some s.control))

-- del pending[sid]
abbrev pub without : String → List StepModel → List StepModel
without sid steps = select (λ s. not (str_eq s.id sid)) steps

-- the part of `finish` that changes the record: a replayed one stays as it is
unfoldable pub finished : StepOutcome → StepModel → StepOutcome
finished o step = let new = finalize o step in if o.reused then o else new

-- finish, settle
unfoldable pub end_step : Bool → StepOutcome → StepModel → GraphState → GraphState
end_step keep_going o step st = record st {
  pending = without step.id st.pending;
  siblings = settle keep_going (finished o step) st.siblings;
}

abbrev pub launch : StepModel → GraphState → GraphState
launch step st = record st { pending = without step.id st.pending; running = step ∷ st.running }

unfoldable pub apply : Bool → StepModel → GraphState → Decision → GraphState
apply keep_going step st stays = st
apply keep_going step st (ends o) = end_step keep_going o step st
apply keep_going step st launches = launch step st
apply keep_going step st raises = st

abbrev pub progresses : Decision → Bool
progresses (ends o) = true
progresses _ = false

-- pending[sid]
unfoldable pub find : String → List StepModel → Option StepModel
find sid [] = none
find sid (step ∷ steps) = if str_eq step.id sid then some step else find sid steps

abbrev pub ids : List StepModel → List String
ids [] = []
ids (step ∷ steps) = step.id ∷ ids steps

-- `none` is the KeyError of `pending[sid]`, which does not happen.
unfoldable pub visit : Moment → StepGraph → Option StepModel → GraphState → Bool × GraphState
visit m g none st = (false, st)
visit m g (some step) st = (
  progresses (decide m g st.siblings step),
  apply m.keep_going step st (decide m g st.siblings step),
)

-- for sid in list(pending): with the flag `progressed`; each step has its own moment
unfoldable pub pass : (String → Moment) → StepGraph → List String → GraphState → Bool × GraphState
pass m g [] st = (false, st)
pass m g (sid ∷ sids) st =
    let turn = visit (m sid) g (find sid st.pending) st in
    let rest = pass m g sids turn.1 in (turn.0 || rest.0, rest.1)

-- while progressed: on fuel, of which one more than the pending steps is enough; the moments are
-- given by the fuel that is left and the step
unfoldable pub decide_all : (ℕ → String → Moment) → StepGraph → ℕ → GraphState → GraphState
decide_all m g zero st = st
decide_all m g (suc fuel) st =
    let turn = pass (m fuel) g (ids st.pending) st in
    let rest = decide_all m g fuel turn.1 in if turn.0 then rest else turn.1

-- running.discard(outcome.record.id), settle(outcome)
unfoldable pub receive : Bool → StepOutcome → GraphState → GraphState
receive keep_going o st = record st {
  running = without o.step_record.id st.running;
  siblings = settle keep_going o st.siblings;
}

abbrev pub begin : StepGraph → GraphState
begin g = record { pending = g.steps; running = []; siblings = no_outcome }
