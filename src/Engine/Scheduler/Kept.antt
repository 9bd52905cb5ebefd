-- ===== src/Engine/Scheduler/Kept.antt =====
-- What every change of a sibling list keeps: each step is in one place, and none is settled or
-- launched before its needs (engine/scheduler.py).
use rayspec_py.Prelude.{
  ℕ, ◌+◌, ◌≤◌, ◌<◌, String, ◌≡◌, refl, subst, ◌∙◌, Bool, true, none, some, List, [], ◌∷◌, All,
  All-map, In, inl, inr, arith, str_eq, eq_iff, if◌then◌else◌, is_some,
}
use rayspec_py.Prelude.Dict.{Dict, get, put, get-put}
use rayspec_py.Schema.{StepStatus, StepModel}
use rayspec_py.Engine.Graph.Build.{StepGraph}
use rayspec_py.Engine.Settle.{StepOutcome, StepRecord, finalized, finalize, settle, decidable}
use rayspec_py.Engine.Scheduler.{
  GraphState, needs_named, needs_of, need_outcomes, end_step, finished, launch, receive, without,
  find, ids,
}
use rayspec_py.Engine.Scheduler.Decided.{Startable}
use rayspec_py.Engine.Scheduler.Pending.{count, count-without, count-find, count-In}

abbrev pub held : Dict StepOutcome → String → ℕ
held outcomes k = if is_some (get outcomes k) then 1 else 0

-- No id stands twice in the list of steps.
abbrev pub Once : StepGraph → Type 0
Once g = (k : String) → count k g.steps ≤ 1

-- Every step is pending, running or settled, and in one of these places; what is settled had its
-- needs settled, and so has what runs, under a join that has it run.
pub record Kept (g : StepGraph) (st : GraphState) : Type 0 where
  pub placed :
      (k : String)
      → count k st.pending + count k st.running + held st.siblings.outcomes k ≡ count k g.steps
  pub ordered :
      (k : String)
      → is_some (get st.siblings.outcomes k) ≡ true
      → decidable st.siblings.outcomes (needs_named g k) ≡ true
  pub started : All (Startable g st.siblings.outcomes) st.running

-- A new outcome changes nothing for the steps that could be decided without it.
pub decidable-put :
    (outcomes : Dict StepOutcome) (k : String) (o : StepOutcome) (needs : List String)
    → get outcomes k ≡ none
    → decidable outcomes needs ≡ true
    → (decidable (put outcomes k o) needs ≡ true)
      × (need_outcomes (put outcomes k o) needs ≡ need_outcomes outcomes needs)
unfolding decidable need_outcomes
decidable-put outcomes k o [] n h = (refl, refl)
decidable-put outcomes k o (m ∷ needs) n h =
    ground (arith, get-put outcomes k m o, eq_iff k m, decidable-put outcomes k o needs)

pub Startable-put :
    (g : StepGraph) (outcomes : Dict StepOutcome) (k : String) (o : StepOutcome) (step : StepModel)
    → get outcomes k ≡ none
    → Startable g outcomes step
    → Startable g (put outcomes k o) step
Startable-put g outcomes k o step n h =
    let (d, e) = decidable-put outcomes k o (needs_of g step) n h.0 in (d, rw e h.1)

pub Startable-without :
    (g : StepGraph) (outcomes : Dict StepOutcome) (sid : String) (steps : List StepModel)
    → All (Startable g outcomes) steps
    → All (Startable g outcomes) (without sid steps)
Startable-without g outcomes sid [] h = tt
Startable-without g outcomes sid (x ∷ steps) h =
    ground (arith, Startable-without g outcomes sid steps)

Startable-In :
    (g : StepGraph) (outcomes : Dict StepOutcome) (steps : List StepModel) (k : String)
    → All (Startable g outcomes) steps
    → In k (ids steps)
    → decidable outcomes (needs_named g k) ≡ true
Startable-In g outcomes [] k h i = elim i [ ]
Startable-In g outcomes (x ∷ steps) k h (inl e) =
    subst (λ j. decidable outcomes (needs_named g j) ≡ true) e h.0.0
Startable-In g outcomes (x ∷ steps) k h (inr i) = Startable-In g outcomes steps k h.1 i

-- An id that is pending or running has no outcome.
pub fresh :
    (g : StepGraph) (st : GraphState) (k : String)
    → Once g
    → Kept g st
    → 0 < count k st.pending + count k st.running
    → get st.siblings.outcomes k ≡ none
fresh g st k once h c = ground (arith, once k, h.placed k)

-- The outcomes stay ordered when one more is settled, whose needs are.
ordered-put :
    (g : StepGraph) (outcomes : Dict StepOutcome) (k : String) (o : StepOutcome)
    → get outcomes k ≡ none
    → decidable outcomes (needs_named g k) ≡ true
    → ((j : String) → is_some (get outcomes j) ≡ true → decidable outcomes (needs_named g j) ≡ true)
    → (j : String) → is_some (get (put outcomes k o) j) ≡ true
    → decidable (put outcomes k o) (needs_named g j) ≡ true
ordered-put g outcomes k o n d f j i =
    ground (
      arith,
      get-put outcomes k j o,
      eq_iff k j,
      f j,
      decidable-put outcomes k o (needs_named g j) n,
    )

finalized-id :
    (r : StepRecord) (status : StepStatus) (allow : Bool) → (finalized r status allow).id ≡ r.id
finalized-id r status allow = ground arith

finalize-id :
    (o : StepOutcome) (step : StepModel) → (finalize o step).step_record.id ≡ o.step_record.id
unfolding finalize
finalize-id o step = finalized-id o.step_record o.step_record.status step.allow_failure

pub launch-Kept :
    (g : StepGraph) (st : GraphState) (step : StepModel)
    → Once g
    → find step.id st.pending ≡ some step
    → Startable g st.siblings.outcomes step
    → Kept g st
    → Kept g (launch step st)
launch-Kept g st step once f s h = record {
  placed = λ k. ground (
    arith,
    count-without k step.id st.pending,
    eq_iff step.id k,
    count-find step.id st.pending step f,
    once k,
    h.placed k,
  );
  ordered = h.ordered;
  started = (s, h.started);
}

pub finished-id :
    (o : StepOutcome) (step : StepModel) → (finished o step).step_record.id ≡ o.step_record.id
unfolding finished
finished-id o step = ground (arith, finalize-id o step)

-- Settling an outcome for an id that is pending or running, and taking the id off both lists.
abbrev settled : Bool → StepOutcome → List StepModel → List StepModel → GraphState → GraphState
settled keep_going o pending running st = record {
  pending = pending;
  running = running;
  siblings = settle keep_going o st.siblings;
}

settle-Kept :
    (kg : Bool) (g : StepGraph) (st : GraphState) (o : StepOutcome)
    (pending running : List StepModel)
    → Once g
    → 0 < count o.step_record.id st.pending + count o.step_record.id st.running
    → ((k : String)
        → count k pending + count k running
          ≡ (if str_eq o.step_record.id k then 0 else count k st.pending + count k st.running))
    → All (Startable g st.siblings.outcomes) running
    → decidable st.siblings.outcomes (needs_named g o.step_record.id) ≡ true
    → Kept g st
    → Kept g (settled kg o pending running st)
unfolding settle
settle-Kept kg g st o pending running once c split s d h =
    let n = fresh g st o.step_record.id once h c in
    record {
      placed = λ k. ground (
        arith,
        split k,
        eq_iff o.step_record.id k,
        once k,
        h.placed k,
        get-put st.siblings.outcomes o.step_record.id k o,
      );
      ordered = ordered-put g st.siblings.outcomes o.step_record.id o n d h.ordered;
      started =
          All-map (λ x. Startable-put g st.siblings.outcomes o.step_record.id o x n) running s;
    }

pub end_step-Kept :
    (kg : Bool) (g : StepGraph) (st : GraphState) (o : StepOutcome) (step : StepModel)
    → Once g
    → find step.id st.pending ≡ some step
    → o.step_record.id ≡ step.id
    → decidable st.siblings.outcomes (needs_of g step) ≡ true
    → Kept g st
    → Kept g (end_step kg o step st)
unfolding end_step
end_step-Kept kg g st o step once f e d h =
    let e' = finished-id o step ∙ e in
    let c = count-find step.id st.pending step f in
    settle-Kept kg g st (finished o step) (without step.id st.pending) st.running once
      (rw e' (ground arith))
      (λ k. rw e' (
        ground
          (arith, count-without k step.id st.pending, eq_iff step.id k, once k, h.placed k, c)))
      h.started (rw e' d) h

pub receive-Kept :
    (kg : Bool) (g : StepGraph) (st : GraphState) (o : StepOutcome)
    → Once g
    → In o.step_record.id (ids st.running)
    → Kept g st
    → Kept g (receive kg o st)
unfolding receive
receive-Kept kg g st o once i h =
    let c = count-In o.step_record.id st.running i in
    settle-Kept kg g st o st.pending (without o.step_record.id st.running) once (omega arith)
      (λ k. ground (
        arith,
        count-without k o.step_record.id st.running,
        eq_iff o.step_record.id k,
        once k,
        h.placed k,
        c,
      ))
      (Startable-without g st.siblings.outcomes o.step_record.id st.running h.started)
      (Startable-In g st.siblings.outcomes st.running o.step_record.id h.started i) h
