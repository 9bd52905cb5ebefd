-- ===== src/Engine/Scheduler/Leftovers.antt =====
-- engine/scheduler.py: what a round of the wind-down launches.
use rayspec_py.Prelude.{
  String, ◌≡◌, refl, sym, false, subst, Bool, true, Option, none, some, List, [], ◌∷◌, ◌++◌, select,
  All, All-map, inl, inr, arith, Option-cases, if◌then◌else◌,
}
use rayspec_py.Schema.{JoinPolicy, SkipReason, StepModel}
use rayspec_py.Engine.Graph.Join.{join_decision}
use rayspec_py.Engine.Graph.Join.Table.{join_decision_table}
use rayspec_py.Engine.Graph.Build.{StepGraph}
use rayspec_py.Engine.Settle.{Siblings, decidable}
use rayspec_py.Engine.Scheduler.{
  Moment, GraphState, needs_of, need_outcomes, Decision, stays, ends, launches, raises, by_when,
  without, end_step, finished, apply, find, ids,
}
use rayspec_py.Engine.Scheduler.WindDown.{
  decide_leftover, skip_leftover, skip_found, skip_leftovers, start_leftovers, wind_round,
}
use rayspec_py.Engine.Scheduler.Pending.{find-id, find-without}
use rayspec_py.Engine.Scheduler.Draining.{Drains, settle-draining, MayRun-always, apply-Drains}

-- A step that a round of the wind-down is to launch: it always runs, and is the pending step of its
-- id, if there is one.
abbrev Chosen : List StepModel → StepModel → Type 0
Chosen pending s =
    (s.join ≡ JoinPolicy.always) × ((x : StepModel) → find s.id pending ≡ some x → x ≡ s)

Chosen-without :
    (pending : List StepModel) (sid : String) (s : StepModel)
    → Chosen pending s
    → Chosen (without sid pending) s
Chosen-without pending sid s h = (h.0, λ x e. h.1 x (ground (arith, find-without s.id sid pending)))

leftover-always :
    (g : StepGraph) (cancelled : Bool) (reason : SkipReason) (s : Siblings) (step : StepModel)
    → decide_leftover g cancelled reason s step ≡ launches
    → step.join ≡ JoinPolicy.always
unfolding decide_leftover
leftover-always g cancelled reason s step e =
    elim (Option-cases
      (join_decision step.join (need_outcomes s.outcomes (needs_of g step)) true)) [
        | inl n ↦ ground arith
        | inr (r, found) ↦
            MayRun-always step.join _
              ((join_decision_table step.join _ true found).0 (ground arith))
      ]

All-append :
    {A : Type 0} (P : A → Type 0) (xs : List A) (x : A) → All P xs → P x → All P (xs ++ x ∷ [])
All-append P [] x h p = (p, tt)
All-append P (y ∷ xs) x h p = (h.0, All-append P xs x h.1 p)

abbrev Winding : List StepModel → List StepModel × GraphState → Type 0
Winding before at = All (Chosen at.1.pending) at.0 × Drains before at.1

skip_leftover-Winding :
    (kg : Bool) (before : List StepModel) (step : StepModel) (at : List StepModel × GraphState)
    (d : Decision)
    → find step.id at.1.pending ≡ some step
    → (d ≡ launches → step.join ≡ JoinPolicy.always)
    → Winding before at
    → Winding before (skip_leftover kg step at d)
unfolding skip_leftover end_step
skip_leftover-Winding kg before step (started, st) stays f e h = h
skip_leftover-Winding kg before step (started, st) (ends o) f e h = (
  All-map (Chosen-without st.pending step.id) started h.0,
  (settle-draining kg (finished o step) st.siblings h.1.0, h.1.1),
)
skip_leftover-Winding kg before step (started, st) launches f e h =
    (All-append (Chosen st.pending) started step h.0 (e refl, λ x e'. ground arith), h.1)
skip_leftover-Winding kg before step (started, st) raises f e h = h

skip_found-Winding :
    (kg : Bool) (g : StepGraph) (cancelled : Bool) (reason : SkipReason) (before : List StepModel)
    (sid : String) (o : Option StepModel) (at : List StepModel × GraphState)
    → find sid at.1.pending ≡ o
    → Winding before at
    → Winding before (skip_found kg g cancelled reason o at)
unfolding skip_found
skip_found-Winding kg g cancelled reason before sid none at f h = h
skip_found-Winding kg g cancelled reason before sid (some step) at f h =
    skip_leftover-Winding kg before step at _
      (subst (λ k. find k at.1.pending ≡ some step) (sym (find-id sid at.1.pending step f)) f)
      (leftover-always g cancelled reason at.1.siblings step) h

skip_leftovers-Winding :
    (kg : Bool) (g : StepGraph) (cancelled : Bool) (reason : SkipReason) (before : List StepModel)
    (sids : List String) (at : List StepModel × GraphState)
    → Winding before at
    → Winding before (skip_leftovers kg g cancelled reason sids at)
unfolding skip_leftovers
skip_leftovers-Winding kg g cancelled reason before [] at h = h
skip_leftovers-Winding kg g cancelled reason before (sid ∷ sids) at h =
    skip_leftovers-Winding kg g cancelled reason before sids _
      (skip_found-Winding kg g cancelled reason before sid (find sid at.1.pending) at refl h)

apply-Chosen :
    (kg : Bool) (st : GraphState) (step : StepModel) (steps : List StepModel) (d : Decision)
    → All (Chosen st.pending) steps
    → All (Chosen (apply kg step st d).pending) steps
unfolding apply end_step
apply-Chosen kg st step steps stays h = h
apply-Chosen kg st step steps (ends o) h = All-map (Chosen-without st.pending step.id) steps h
apply-Chosen kg st step steps launches h = All-map (Chosen-without st.pending step.id) steps h
apply-Chosen kg st step steps raises h = h

start_leftovers-Drains :
    (m : Moment) (before steps : List StepModel) (st : GraphState)
    → Winding before (steps, st)
    → Drains before (start_leftovers m steps st)
unfolding start_leftovers
start_leftovers-Drains m before [] st h = h.1
start_leftovers-Drains m before (step ∷ steps) st h =
    elim (Option-cases (find step.id st.pending)) [
      | inl n ↦ rw (n, start_leftovers) (start_leftovers-Drains m before steps st (h.0.1, h.1))
      | inr (popped, f) ↦
          let always = subst (λ x. x.join ≡ JoinPolicy.always) (sym (h.0.0.1 popped f)) h.0.0.0 in
          rw (f, start_leftovers)
            (start_leftovers-Drains m before steps _ (
              apply-Chosen m.keep_going st popped steps (by_when m popped) h.0.1,
              apply-Drains m before st popped (by_when m popped) (λ e. always) h.1,
            ))
    ]

either : {A : Type 0} (P : A → Type 0) (b : Bool) {x y : A} → P x → P y → P (if b then x else y)
either P true hx hy = hx
either P false hx hy = hy

pub wind_round-Drains :
    (m : Moment) (g : StepGraph) (cancelled : Bool) (reason : SkipReason) (before : List StepModel)
    (st : GraphState)
    → Drains before st
    → Drains before (wind_round m g cancelled reason st)
unfolding wind_round
wind_round-Drains m g cancelled reason before st h =
    let ready = ids (select (λ s. decidable st.siblings.outcomes (needs_of g s)) st.pending) in
    let first = skip_leftovers m.keep_going g cancelled reason ready ([], st) in
    either (Drains before) st.siblings.paused h (
      start_leftovers-Drains m before first.0 first.1
        (skip_leftovers-Winding m.keep_going g cancelled reason before ready ([], st) (tt, h)))
