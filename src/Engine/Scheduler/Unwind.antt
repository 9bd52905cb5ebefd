-- ===== src/Engine/Scheduler/Unwind.antt =====
-- A round of the wind-down keeps a sibling list in order (engine/scheduler.py).
use rayspec_py.Prelude.{
  String, ◌≡◌, refl, sym, subst, ◌∙◌, Bool, true, false, Option, none, some, List, [], ◌∷◌, ◌++◌,
  select, All, All-map, arith, if◌then◌else◌, inl, inr, Option-cases,
}
use rayspec_py.Prelude.Dict.{get}
use rayspec_py.Schema.{SkipReason, StepModel}
use rayspec_py.Engine.Graph.Join.{join_decision}
use rayspec_py.Engine.Graph.Build.{StepGraph}
use rayspec_py.Engine.Settle.{StepOutcome, skipped, settle, decidable, Siblings}
use rayspec_py.Engine.Scheduler.{
  Moment, GraphState, needs_named, needs_of, need_outcomes, Decision, stays, ends, launches, raises,
  by_when, end_step, finished, launch, apply, find, ids,
}
use rayspec_py.Engine.Scheduler.WindDown.{
  decide_leftover, skip_leftover, skip_found, skip_leftovers, start_leftovers, wind_round,
}
use rayspec_py.Engine.Scheduler.Decided.{Startable, join-Startable}
use rayspec_py.Engine.Scheduler.Pending.{find-id, find-without, count-find}
use rayspec_py.Engine.Scheduler.Kept.{
  Kept, Once, decidable-put, launch-Kept, end_step-Kept, Startable-put, fresh, finished-id,
}
use rayspec_py.Engine.Scheduler.Rounds.{by_when-id}

-- The steps that a round of the wind-down is to launch: each may start, and is the pending step
-- of its id, if there is one.
abbrev Launchable : StepGraph → GraphState → StepModel → Type 0
Launchable g st s =
    Startable g st.siblings.outcomes s × ((x : StepModel) → find s.id st.pending ≡ some x → x ≡ s)

Launchable-end_step :
    (kg : Bool) (g : StepGraph) (st : GraphState) (o : StepOutcome) (step s : StepModel)
    → get st.siblings.outcomes (finished o step).step_record.id ≡ none
    → Launchable g st s
    → Launchable g (end_step kg o step st) s
unfolding end_step settle
Launchable-end_step kg g st o step s n h = (
  Startable-put g st.siblings.outcomes _ (finished o step) s n h.0,
  λ x e. h.1 x (ground (arith, find-without s.id step.id st.pending)),
)

Launchable-launch :
    (g : StepGraph) (st : GraphState) (step s : StepModel)
    → Launchable g st s
    → Launchable g (launch step st) s
Launchable-launch g st step s h =
    (h.0, λ x e. h.1 x (ground (arith, find-without s.id step.id st.pending)))

-- What a pending step with an outcome of its own says of the outcomes.
unsettled :
    (g : StepGraph) (st : GraphState) (o : StepOutcome) (step : StepModel)
    → Once g
    → find step.id st.pending ≡ some step
    → o.step_record.id ≡ step.id
    → Kept g st
    → get st.siblings.outcomes (finished o step).step_record.id ≡ none
unsettled g st o step once f e h =
    let c = count-find step.id st.pending step f in
    let n = fresh g st step.id once h (omega arith) in
    subst (λ k. get st.siblings.outcomes k ≡ none) (sym (finished-id o step ∙ e)) n

All-append :
    {A : Type 0} (P : A → Type 0) (xs : List A) (x : A) → All P xs → P x → All P (xs ++ x ∷ [])
All-append P [] x h p = (p, tt)
All-append P (y ∷ xs) x h p = (h.0, All-append P xs x h.1 p)

leftover-launches :
    (g : StepGraph) (cancelled : Bool) (reason : SkipReason) (s : Siblings) (step : StepModel)
    → decidable s.outcomes (needs_of g step) ≡ true
    → decide_leftover g cancelled reason s step ≡ launches
    → Startable g s.outcomes step
unfolding decide_leftover
leftover-launches g cancelled reason s step h e =
    elim (Option-cases
      (join_decision step.join (need_outcomes s.outcomes (needs_of g step)) true)) [
        | inl n ↦ ground arith
        | inr (r, found) ↦ join-Startable g s.outcomes step true r h found (ground arith)
      ]

leftover-ends :
    (g : StepGraph) (cancelled : Bool) (reason : SkipReason) (s : Siblings) (step : StepModel)
    (o : StepOutcome)
    → decide_leftover g cancelled reason s step ≡ ends o
    → o.step_record.id ≡ step.id
unfolding decide_leftover skipped
leftover-ends g cancelled reason s step o e = ground arith

abbrev Ready : StepGraph → GraphState → String → Type 0
Ready g st sid = decidable st.siblings.outcomes (needs_named g sid) ≡ true

Ready-end_step :
    (kg : Bool) (g : StepGraph) (st : GraphState) (o : StepOutcome) (step : StepModel)
    (sid : String)
    → get st.siblings.outcomes (finished o step).step_record.id ≡ none
    → Ready g st sid
    → Ready g (end_step kg o step st) sid
unfolding end_step settle
Ready-end_step kg g st o step sid n h =
    (decidable-put st.siblings.outcomes _ (finished o step) (needs_named g sid) n h).0

-- The state of the wind-down, with the ids that are still to be visited.
abbrev Winding : StepGraph → List String → List StepModel × GraphState → Type 0
Winding g sids at = All (Launchable g at.1) at.0 × Kept g at.1 × All (Ready g at.1) sids

skip_leftover-Winding :
    (kg : Bool) (g : StepGraph) (cancelled : Bool) (reason : SkipReason) (sids : List String)
    (step : StepModel) (at : List StepModel × GraphState) (d : Decision)
    → Once g
    → find step.id at.1.pending ≡ some step
    → decide_leftover g cancelled reason at.1.siblings step ≡ d
    → Winding g (step.id ∷ sids) at
    → Winding g sids (skip_leftover kg step at d)
unfolding skip_leftover
skip_leftover-Winding kg g cancelled reason sids step (started, st) stays once f e h =
    (h.0, h.1, h.2.1)
skip_leftover-Winding kg g cancelled reason sids step (started, st) (ends o) once f e h =
    let i = leftover-ends g cancelled reason st.siblings step o e in
    let n = unsettled g st o step once f i h.1 in
    (
      All-map (λ x. Launchable-end_step kg g st o step x n) started h.0,
      end_step-Kept kg g st o step once f i h.2.0 h.1,
      All-map (λ sid. Ready-end_step kg g st o step sid n) sids h.2.1,
    )
skip_leftover-Winding kg g cancelled reason sids step (started, st) launches once f e h = (
  All-append (Launchable g st) started step h.0
      (leftover-launches g cancelled reason st.siblings step h.2.0 e, λ x e'. ground arith),
  h.1,
  h.2.1,
)
skip_leftover-Winding kg g cancelled reason sids step (started, st) raises once f e h =
    (h.0, h.1, h.2.1)

skip_found-Winding :
    (kg : Bool) (g : StepGraph) (cancelled : Bool) (reason : SkipReason) (sid : String)
    (sids : List String) (o : Option StepModel) (at : List StepModel × GraphState)
    → Once g
    → find sid at.1.pending ≡ o
    → Winding g (sid ∷ sids) at
    → Winding g sids (skip_found kg g cancelled reason o at)
unfolding skip_found
skip_found-Winding kg g cancelled reason sid sids none at once f h = (h.0, h.1, h.2.1)
skip_found-Winding kg g cancelled reason sid sids (some step) at once f h =
    let e = find-id sid at.1.pending step f in
    skip_leftover-Winding kg g cancelled reason sids step at _ once
      (subst (λ k. find k at.1.pending ≡ some step) (sym e) f) refl
      (subst (λ k. Winding g (k ∷ sids) at) (sym e) h)

skip_leftovers-Winding :
    (kg : Bool) (g : StepGraph) (cancelled : Bool) (reason : SkipReason) (sids : List String)
    (at : List StepModel × GraphState)
    → Once g
    → Winding g sids at
    → Winding g [] (skip_leftovers kg g cancelled reason sids at)
unfolding skip_leftovers
skip_leftovers-Winding kg g cancelled reason [] at once h = h
skip_leftovers-Winding kg g cancelled reason (sid ∷ sids) at once h =
    skip_leftovers-Winding kg g cancelled reason sids _ once
      (skip_found-Winding kg g cancelled reason sid sids (find sid at.1.pending) at once refl h)

-- Launching one popped step keeps the rest of the round launchable.
start-Winding :
    (m : Moment) (g : StepGraph) (st : GraphState) (step : StepModel) (steps : List StepModel)
    (d : Decision)
    → Once g
    → find step.id st.pending ≡ some step
    → by_when m step ≡ d
    → Startable g st.siblings.outcomes step
    → All (Launchable g st) steps
    → Kept g st
    → All (Launchable g (apply m.keep_going step st d)) steps
      × Kept g (apply m.keep_going step st d)
unfolding apply
start-Winding m g st step steps stays once f e s hs h = (hs, h)
start-Winding m g st step steps (ends o) once f e s hs h =
    let i = by_when-id m step o e in
    let n = unsettled g st o step once f i h in
    (
      All-map (λ x. Launchable-end_step m.keep_going g st o step x n) steps hs,
      end_step-Kept m.keep_going g st o step once f i s.0 h,
    )
start-Winding m g st step steps launches once f e s hs h =
    (All-map (λ x. Launchable-launch g st step x) steps hs, launch-Kept g st step once f s h)
start-Winding m g st step steps raises once f e s hs h = (hs, h)

start_leftovers-Kept :
    (m : Moment) (g : StepGraph) (steps : List StepModel) (st : GraphState)
    → Once g
    → All (Launchable g st) steps
    → Kept g st
    → Kept g (start_leftovers m steps st)
unfolding start_leftovers
start_leftovers-Kept m g [] st once hs h = h
start_leftovers-Kept m g (step ∷ steps) st once hs h =
    elim (Option-cases (find step.id st.pending)) [
      | inl n ↦ rw n (start_leftovers-Kept m g steps st once hs.1 h)
      | inr (popped, f) ↦
          let same = hs.0.1 popped f in
          let own = find-id step.id st.pending popped f in
          let (hs', h') =
            start-Winding m g st popped steps (by_when m popped) once
              (subst (λ k. find k st.pending ≡ some popped) (sym own) f) refl
              (subst (Startable g st.siblings.outcomes) (sym same) hs.0.0) hs.1 h in
          rw f (start_leftovers-Kept m g steps _ once hs' h')
    ]

select-Ready :
    (g : StepGraph) (st : GraphState) (steps : List StepModel)
    → All (Ready g st) (ids (select (λ s. decidable st.siblings.outcomes (needs_of g s)) steps))
select-Ready g st [] = tt
select-Ready g st (s ∷ steps) = ground (arith, select-Ready g st steps)

either : {A : Type 0} (P : A → Type 0) (b : Bool) {x y : A} → P x → P y → P (if b then x else y)
either P true hx hy = hx
either P false hx hy = hy

pub wind_round-Kept :
    (m : Moment) (g : StepGraph) (cancelled : Bool) (reason : SkipReason) (st : GraphState)
    → Once g
    → Kept g st
    → Kept g (wind_round m g cancelled reason st)
unfolding wind_round
wind_round-Kept m g cancelled reason st once h =
    let ready = ids (select (λ s. decidable st.siblings.outcomes (needs_of g s)) st.pending) in
    let first = skip_leftovers m.keep_going g cancelled reason ready ([], st) in
    let a : Winding g [] first =
      skip_leftovers-Winding m.keep_going g cancelled reason ready ([], st) once
        (tt, h, select-Ready g st st.pending) in
    let b = start_leftovers-Kept m g first.0 first.1 once a.0 a.1 in
    either (Kept g) st.siblings.paused h b
