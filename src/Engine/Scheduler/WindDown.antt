-- ===== src/Engine/Scheduler/WindDown.antt =====
-- engine/scheduler.py: `wind_down`, one round of it. Between two rounds the task group of the round
-- runs the steps that it launched, and their outcomes are received.
use rayspec_py.Prelude.{
  String, Bool, true, Option, none, some, List, [], ◌∷◌, ◌++◌, select, if◌then◌else◌,
}
use rayspec_py.Schema.{SkipReason, StepModel}
use rayspec_py.Engine.Graph.Join.{join_decision}
use rayspec_py.Engine.Graph.Build.{StepGraph}
use rayspec_py.Engine.Settle.{Siblings, skipped, decidable}
use rayspec_py.Engine.Scheduler.{
  Moment, GraphState, needs_of, need_outcomes, new_record, Decision, ends, launches, raises,
  by_when, end_step, apply, find, ids,
}

-- The skip reason of a leftover.
unfoldable pub leftover_reason : Bool → SkipReason → Option SkipReason → SkipReason
leftover_reason cancelled reason none = reason
leftover_reason cancelled reason (some SkipReason.run_failed) = reason
leftover_reason cancelled reason (some own) = if cancelled then reason else own

-- The decision about one ready step of the wind-down; the condition is read at the launch.
unfoldable pub decide_leftover : StepGraph → Bool → SkipReason → Siblings → StepModel → Decision
decide_leftover g cancelled reason s step =
    elim (join_decision step.join (need_outcomes s.outcomes (needs_of g step)) true) [
      | none ↦ raises
      | some d ↦
          if d.run
          then launches
          else ends (skipped (new_record step) (leftover_reason cancelled reason d.skip_reason))
    ]

-- The first loop of a round: the skips, and the list `launch`.
unfoldable pub skip_leftover :
    Bool → StepModel → List StepModel × GraphState → Decision → List StepModel × GraphState
skip_leftover keep_going step (started, st) (ends o) = (started, end_step keep_going o step st)
skip_leftover keep_going step (started, st) launches = (started ++ step ∷ [], st)
skip_leftover keep_going step (started, st) _ = (started, st)

unfoldable pub skip_found :
    Bool
    → StepGraph
    → Bool
    → SkipReason
    → Option StepModel
    → List StepModel × GraphState
    → List StepModel × GraphState
skip_found keep_going g cancelled reason none at = at
skip_found keep_going g cancelled reason (some step) at =
    skip_leftover keep_going step at (decide_leftover g cancelled reason at.1.siblings step)

unfoldable pub skip_leftovers :
    Bool
    → StepGraph
    → Bool
    → SkipReason
    → List String
    → List StepModel × GraphState
    → List StepModel × GraphState
skip_leftovers keep_going g cancelled reason [] at = at
skip_leftovers keep_going g cancelled reason (sid ∷ sids) at =
    skip_leftovers keep_going g cancelled reason sids
      (skip_found keep_going g cancelled reason (find sid at.1.pending) at)

-- The second loop: pending.pop(sid), the condition, the launch.
unfoldable pub start_leftovers : Moment → List StepModel → GraphState → GraphState
start_leftovers m [] st = st
start_leftovers m (step ∷ steps) st =
    let next : GraphState = elim (find step.id st.pending) [
      | none ↦ st
      | some popped ↦ apply m.keep_going popped st (by_when m popped)
    ] in
    start_leftovers m steps next

-- One round of `wind_down`.
unfoldable pub wind_round : Moment → StepGraph → Bool → SkipReason → GraphState → GraphState
wind_round m g cancelled reason st =
    let ready = select (λ s. decidable st.siblings.outcomes (needs_of g s)) st.pending in
    let first = skip_leftovers m.keep_going g cancelled reason (ids ready) ([], st) in
    let next = start_leftovers m first.0 first.1 in if st.siblings.paused then st else next
