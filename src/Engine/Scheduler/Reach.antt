-- ===== src/Engine/Scheduler/Reach.antt =====
-- The ways of a sibling list: rounds of decisions, outcomes in whatever order they arrive, rounds
-- of the wind-down (engine/scheduler.py, `run_graph`).
use rayspec_py.Prelude.{
  ℕ, ◌+◌, ◌≤◌, String, ◌≡◌, ◌≢◌, sym, ap, ◌∙◌, subst, inl, inr, Bool-cases, Bool, true, List, [],
  ◌∷◌, All, In, is_some, arith, str_eq, eq_iff, refl,
}
use rayspec_py.Prelude.Result.{ok}
use rayspec_py.Prelude.Dict.{get}
use rayspec_py.Schema.{SkipReason, StepModel}
use rayspec_py.Engine.Graph.Build.{StepGraph, from_steps}
use rayspec_py.Engine.Graph.Build.Checked.{Unique}
use rayspec_py.Engine.Graph.Build.Accepts.{from_steps-IsGraphOf}
use rayspec_py.Engine.Settle.{StepOutcome, decidable}
use rayspec_py.Engine.Scheduler.{Moment, GraphState, begin, needs_named, decide_all, receive, ids}
use rayspec_py.Engine.Scheduler.WindDown.{wind_round}
use rayspec_py.Engine.Scheduler.Decided.{Startable}
use rayspec_py.Engine.Scheduler.Pending.{count}
use rayspec_py.Engine.Scheduler.Kept.{Kept, Once, held, receive-Kept}
use rayspec_py.Engine.Scheduler.Rounds.{OwnIds, decide_all-Kept}
use rayspec_py.Engine.Scheduler.Draining.{Timely, changed-Timely, decide_all-Drains, receive-Drains}
use rayspec_py.Engine.Scheduler.Leftovers.{wind_round-Drains}
use rayspec_py.Engine.Scheduler.Unwind.{wind_round-Kept}

-- One step of the list. Caps, cancels and conditions may be others at every decision; an outcome is
-- received of any step that runs, which covers the steps that a torn-down task group interrupts.
pub data Event (g : StepGraph) : GraphState → GraphState → Type 0 where
  decides :
      {st : GraphState} (m : ℕ → String → Moment) (fuel : ℕ)
      → ((n : ℕ) (sid : String) → OwnIds (m n sid))
      → Event g st (decide_all m g fuel st)
  receives :
      {st : GraphState} (keep_going : Bool) (o : StepOutcome)
      → In o.step_record.id (ids st.running)
      → Event g st (receive keep_going o st)
  winds :
      {st : GraphState} (m : Moment) (cancelled : Bool) (reason : SkipReason)
      → Event g st (wind_round m g cancelled reason st)

pub data Reach (g : StepGraph) : GraphState → Type 0 where
  starts : Reach g (begin g)
  then : {st next : GraphState} → Reach g st → Event g st next → Reach g next

begin-Kept : (g : StepGraph) → Kept g (begin g)
unfolding get
begin-Kept g = record { placed = λ k. omega arith; ordered = λ k i. ground arith; started = tt }

event-Kept :
    (g : StepGraph) {st next : GraphState} → Once g → Event g st next → Kept g st → Kept g next
event-Kept g once (decides m fuel own) h = decide_all-Kept m g fuel _ once own h
event-Kept g once (receives kg o i) h = receive-Kept kg g _ o once i h
event-Kept g once (winds m cancelled reason) h = wind_round-Kept m g cancelled reason _ once h

Reach-Kept : (g : StepGraph) {st : GraphState} → Once g → Reach g st → Kept g st
Reach-Kept g once starts = begin-Kept g
Reach-Kept g once (then r e) = event-Kept g once e (Reach-Kept g once r)

-- A graph that was built has each id once.
count-absent : (k : String) (steps : List StepModel) → All (λ t. k ≢ t.id) steps → count k steps ≡ 0
count-absent k [] h = refl
count-absent k (s ∷ steps) h = ground (arith, eq_iff s.id k, count-absent k steps)

Unique-count : (k : String) (steps : List StepModel) → Unique steps → count k steps ≤ 1
Unique-count k [] u = omega arith
Unique-count k (s ∷ steps) u = elim (Bool-cases (str_eq s.id k)) [
  | inl e ↦
      let (to, from) = eq_iff s.id k in
      let absent = count-absent k steps (subst (λ j. All (λ t. j ≢ t.id) steps) (to e) u.0) in
      ground arith
  | inr n ↦ ground (arith, Unique-count k steps u.1)
]

pub built-Once : (steps : List StepModel) (g : StepGraph) → from_steps steps ≡ ok g → Once g
built-Once steps g b k =
    let h = from_steps-IsGraphOf steps g b in
    subst (λ l. count k l ≤ 1) (sym h.same) (Unique-count k steps h.unique)

-- On a graph that was built, at every point that a run of its list reaches, an id is pending,
-- running or settled as often as it stands in the steps, which is at most once: no step is lost,
-- none is in two places and none is decided twice.
pub Reach-places :
    (steps : List StepModel) (g : StepGraph) (st : GraphState) (k : String)
    → from_steps steps ≡ ok g
    → Reach g st
    → (count k st.pending + count k st.running + held st.siblings.outcomes k ≡ count k steps)
      × (count k steps ≤ 1)
Reach-places steps g st k b r =
    let once = built-Once steps g b in
    let same = (from_steps-IsGraphOf steps g b).same in
    let placed = (Reach-Kept g once r).placed k in
    (placed ∙ ap (count k) same, subst (λ l. count k l ≤ 1) same (once k))

event-Timely :
    (g : StepGraph) {st next : GraphState} → Event g st next → All (Timely st) next.running
event-Timely g {st = st} (decides m fuel own) =
    changed-Timely st (decide_all m g fuel st) (decide_all-Drains m g st.running fuel st)
event-Timely g {st = st} (receives kg o i) =
    changed-Timely st (receive kg o st) (receive-Drains kg st.running o st)
event-Timely g {st = st} (winds m cancelled reason) =
    changed-Timely st (wind_round m g cancelled reason st)
      (wind_round-Drains m g cancelled reason st.running st)

-- On a graph that was built, at every point that a run of its list reaches and at which an event
-- can follow, each step that runs has terminal outcomes for all its needs and a join that has it
-- run when the list does not drain, and the needs of each step that is settled have terminal
-- outcomes. Each step that runs after the event was running before it, has `join: always`, or met
-- a list that did not drain when the event began.
pub Reach-Ordered :
    (steps : List StepModel) (g : StepGraph) (st next : GraphState)
    → from_steps steps ≡ ok g
    → Reach g st
    → Event g st next
    → All (Startable g st.siblings.outcomes) st.running
      × ((k : String)
          → is_some (get st.siblings.outcomes k) ≡ true
          → decidable st.siblings.outcomes (needs_named g k) ≡ true)
      × All (Timely st) next.running
Reach-Ordered steps g st next b r e =
    let kept = Reach-Kept g (built-Once steps g b) r in
    (kept.started, kept.ordered, event-Timely g e)
