-- ===== src/Engine/Scheduler/Rounds.antt =====
-- A round of decisions keeps a sibling list in order
-- (engine/scheduler.py).
use rayspec_py.Prelude.{
  ℕ, zero, suc, String, ◌≡◌, refl, sym, subst, ◌||◌, Option, none, some, List, [], ◌∷◌, arith,
  is_some, inl, inr, Option-cases, Bool-cases,
}
use rayspec_py.Prelude.Dict.{get}
use rayspec_py.Schema.{StepModel}
use rayspec_py.Engine.Graph.Join.{JoinDecision, join_decision}
use rayspec_py.Engine.Graph.Build.{StepGraph}
use rayspec_py.Engine.Settle.{StepOutcome, StepRecord, skipped, Siblings}
use rayspec_py.Engine.Scheduler.{
  Moment, GraphState, needs_of, need_outcomes, Decision, stays, ends, launches, raises, try_reuse,
  drained, by_when, by_join, decide, apply, visit, pass, decide_all, find, ids,
}
use rayspec_py.Engine.Scheduler.Decided.{decide-launches, decide-ends}
use rayspec_py.Engine.Scheduler.Pending.{find-id}
use rayspec_py.Engine.Scheduler.Kept.{Kept, Once, launch-Kept, end_step-Kept}

-- The records of the previous run stand under their own ids.
abbrev pub OwnIds : Moment → Type 0
OwnIds m = (k : String) (r : StepRecord) → get m.cache k ≡ some r → r.id ≡ k

try_reuse-id :
    (m : Moment) (step : StepModel) (o : StepOutcome)
    → OwnIds m
    → try_reuse m step ≡ some o
    → o.step_record.id ≡ step.id
unfolding try_reuse
try_reuse-id m step o own e = elim (Option-cases (get m.cache step.id)) [
  | inl missing ↦ ground arith
  | inr (r, found) ↦ let same = own step.id r found in ground arith
]

drained-id : (m : Moment) (step : StepModel) → OwnIds m → (drained m step).step_record.id ≡ step.id
unfolding skipped
drained-id m step own = elim (Option-cases (try_reuse m step)) [
  | inl missing ↦ ground arith
  | inr (o, found) ↦ let same = try_reuse-id m step o own found in ground arith
]

pub by_when-id :
    (m : Moment) (step : StepModel) (o : StepOutcome)
    → by_when m step ≡ ends o
    → o.step_record.id ≡ step.id
unfolding skipped
by_when-id m step o e = ground arith

by_join-id :
    (m : Moment) (step : StepModel) (d : Option JoinDecision) (o : StepOutcome)
    → by_join m step d ≡ ends o
    → o.step_record.id ≡ step.id
unfolding skipped
by_join-id m step none o e = ground arith
by_join-id m step (some d) o e = ground (arith, by_when-id m step o)

decide-id :
    (m : Moment) (g : StepGraph) (s : Siblings) (step : StepModel) (o : StepOutcome)
    → OwnIds m
    → decide m g s step ≡ ends o
    → o.step_record.id ≡ step.id
unfolding decide
decide-id m g s step o own e =
    let a : drained m step ≡ o → o.step_record.id ≡ step.id =
      λ h. subst (λ x. x.step_record.id ≡ step.id) h (drained-id m step own) in
    let b =
      by_join-id m step
        (join_decision step.join (need_outcomes s.outcomes (needs_of g step))
          (s.draining || is_some s.control))
        o in
    ground (arith, a, b)

apply-Kept :
    (m : Moment) (g : StepGraph) (st : GraphState) (step : StepModel) (d : Decision)
    → Once g
    → OwnIds m
    → find step.id st.pending ≡ some step
    → decide m g st.siblings step ≡ d
    → Kept g st
    → Kept g (apply m.keep_going step st d)
unfolding apply
apply-Kept m g st step stays once own f e h = h
apply-Kept m g st step (ends o) once own f e h =
    end_step-Kept m.keep_going g st o step once f (decide-id m g st.siblings step o own e)
      (decide-ends m g st.siblings step o e) h
apply-Kept m g st step launches once own f e h =
    launch-Kept g st step once f (decide-launches m g st.siblings step e) h
apply-Kept m g st step raises once own f e h = h

visit-Kept :
    (m : Moment) (g : StepGraph) (st : GraphState) (sid : String) (o : Option StepModel)
    → Once g
    → OwnIds m
    → find sid st.pending ≡ o
    → Kept g st
    → Kept g (visit m g o st).1
unfolding visit
visit-Kept m g st sid none once own f h = h
visit-Kept m g st sid (some step) once own f h =
    let e = find-id sid st.pending step f in
    apply-Kept m g st step (decide m g st.siblings step) once own
      (subst (λ k. find k st.pending ≡ some step) (sym e) f) refl h

pass-Kept :
    (m : String → Moment) (g : StepGraph) (sids : List String) (st : GraphState)
    → Once g
    → ((sid : String) → OwnIds (m sid))
    → Kept g st
    → Kept g (pass m g sids st).1
unfolding pass
pass-Kept m g [] st once own h = h
pass-Kept m g (sid ∷ sids) st once own h =
    pass-Kept m g sids _ once own
      (visit-Kept (m sid) g st sid (find sid st.pending) once (own sid) refl h)

pub decide_all-Kept :
    (m : ℕ → String → Moment) (g : StepGraph) (fuel : ℕ) (st : GraphState)
    → Once g
    → ((n : ℕ) (sid : String) → OwnIds (m n sid))
    → Kept g st
    → Kept g (decide_all m g fuel st)
unfolding decide_all
decide_all-Kept m g zero st once own h = h
decide_all-Kept m g (suc fuel) st once own h =
    let h' = pass-Kept (m fuel) g (ids st.pending) st once (own fuel) h in
    elim (Bool-cases (pass (m fuel) g (ids st.pending) st).0) [
      | inl p ↦ rw p (decide_all-Kept m g fuel _ once own h')
      | inr p ↦ rw p h'
    ]
