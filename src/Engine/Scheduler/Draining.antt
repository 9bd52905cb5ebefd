-- ===== src/Engine/Scheduler/Draining.antt =====
-- engine/scheduler.py: what a list that drains still launches.
use rayspec_py.Prelude.{
  ℕ, zero, suc, String, ◌≡◌, refl, false, subst, Bool, true, ◌||◌, Option, none, some, List, [],
  ◌∷◌, All, All-map, In, inl, inr, ◌⊎◌, arith, is_some, Bool-cases,
}
use rayspec_py.Schema.{JoinPolicy, StepModel}
use rayspec_py.Engine.Graph.Join.{Outcome}
use rayspec_py.Engine.Graph.Join.Table.{MayRun, join_decision_table}
use rayspec_py.Engine.Graph.Build.{StepGraph}
use rayspec_py.Engine.Settle.{StepOutcome, Siblings, settle}
use rayspec_py.Engine.Scheduler.{
  Moment, GraphState, Decision, stays, ends, launches, raises, decide, without, end_step, finished,
  apply, visit, pass, decide_all, find, ids, receive,
}
use rayspec_py.Engine.Scheduler.Decided.{joined_launch, by_join-launches}

-- The list drains: a step failed in a way that drains, a step paused, or a signal was raised.
abbrev pub is_draining : Siblings → Bool
is_draining s = s.draining || is_some s.control

pub settle-draining :
    (kg : Bool) (o : StepOutcome) (s : Siblings)
    → is_draining s ≡ true
    → is_draining (settle kg o s) ≡ true
unfolding settle
settle-draining kg o s h = ground arith

-- A step that ran before, or that always runs.
abbrev Allowed : List StepModel → StepModel → Type 0
Allowed before x = In x.id (ids before) ⊎ (x.join ≡ JoinPolicy.always)

-- A list that drains, in which only such steps run.
abbrev pub Drains : List StepModel → GraphState → Type 0
Drains before st = (is_draining st.siblings ≡ true) × All (Allowed before) st.running

pub MayRun-always :
    (join : JoinPolicy) (os : List Outcome) → MayRun join os true → join ≡ JoinPolicy.always
MayRun-always JoinPolicy.always os h = refl
MayRun-always JoinPolicy.all os h = ground arith
MayRun-always JoinPolicy.any os h = ground arith

decide-always :
    (m : Moment) (g : StepGraph) (s : Siblings) (step : StepModel)
    → is_draining s ≡ true
    → decide m g s step ≡ launches
    → step.join ≡ JoinPolicy.always
decide-always m g s step d e =
    let (h, j) = joined_launch m g s step e in
    let (r, e', run, w) = by_join-launches m step _ j in
    let may = (join_decision_table step.join _ (is_draining s) e').0 run in
    MayRun-always step.join _ (subst (MayRun step.join _) d may)

end_step-Drains :
    (kg : Bool) (before : List StepModel) (o : StepOutcome) (step : StepModel) (st : GraphState)
    → Drains before st
    → Drains before (end_step kg o step st)
unfolding end_step
end_step-Drains kg before o step st h = (settle-draining kg (finished o step) st.siblings h.0, h.1)

pub apply-Drains :
    (m : Moment) (before : List StepModel) (st : GraphState) (step : StepModel) (d : Decision)
    → (d ≡ launches → step.join ≡ JoinPolicy.always)
    → Drains before st
    → Drains before (apply m.keep_going step st d)
unfolding apply
apply-Drains m before st step stays e h = h
apply-Drains m before st step (ends o) e h = end_step-Drains m.keep_going before o step st h
apply-Drains m before st step launches e h = (h.0, (inr (e refl), h.1))
apply-Drains m before st step raises e h = h

visit-Drains :
    (m : Moment) (g : StepGraph) (before : List StepModel) (st : GraphState) (o : Option StepModel)
    → Drains before st
    → Drains before (visit m g o st).1
unfolding visit
visit-Drains m g before st none h = h
visit-Drains m g before st (some step) h =
    apply-Drains m before st step _ (decide-always m g st.siblings step h.0) h

pass-Drains :
    (m : String → Moment) (g : StepGraph) (before : List StepModel) (sids : List String)
    (st : GraphState)
    → Drains before st
    → Drains before (pass m g sids st).1
unfolding pass
pass-Drains m g before [] st h = h
pass-Drains m g before (sid ∷ sids) st h =
    pass-Drains m g before sids _ (visit-Drains (m sid) g before st (find sid st.pending) h)

pub decide_all-Drains :
    (m : ℕ → String → Moment) (g : StepGraph) (before : List StepModel) (fuel : ℕ) (st : GraphState)
    → Drains before st
    → Drains before (decide_all m g fuel st)
unfolding decide_all
decide_all-Drains m g before zero st h = h
decide_all-Drains m g before (suc fuel) st h =
    let h' = pass-Drains (m fuel) g before (ids st.pending) st h in
    elim (Bool-cases (pass (m fuel) g (ids st.pending) st).0) [
      | inl p ↦ rw p (decide_all-Drains m g before fuel _ h')
      | inr p ↦ rw p h'
    ]

All-without :
    (P : StepModel → Type 0) (sid : String) (steps : List StepModel)
    → All P steps
    → All P (without sid steps)
All-without P sid [] h = tt
All-without P sid (x ∷ steps) h = ground (arith, All-without P sid steps)

pub receive-Drains :
    (kg : Bool) (before : List StepModel) (o : StepOutcome) (st : GraphState)
    → Drains before st
    → Drains before (receive kg o st)
unfolding receive
receive-Drains kg before o st h = (
  settle-draining kg o st.siblings h.0,
  All-without (Allowed before) o.step_record.id st.running h.1,
)

ids_self : (steps : List StepModel) → All (λ x. In x.id (ids steps)) steps
ids_self [] = tt
ids_self (x ∷ steps) = (inl refl, All-map (λ y i. inr i) steps (ids_self steps))

-- What runs after an event was running before it, always runs, or met a list that did not drain.
abbrev pub Timely : GraphState → StepModel → Type 0
Timely st x =
    In x.id (ids st.running) ⊎ (x.join ≡ JoinPolicy.always) ⊎ (is_draining st.siblings ≡ false)

-- `next` follows on `st` by a change that keeps a draining list to its steps.
pub changed-Timely :
    (st next : GraphState)
    → (Drains st.running st → Drains st.running next)
    → All (Timely st) next.running
changed-Timely st next f = elim (Bool-cases (is_draining st.siblings)) [
  | inl d ↦
      All-map (λ x a. elim a [ inl i ↦ inl i | inr always ↦ inr (inl always) ]) next.running
        (f (d, All-map (λ x i. inl i) st.running (ids_self st.running))).1
  | inr d ↦ every next.running (λ x. inr (inr d))
]
  where
    every : (steps : List StepModel) → ((x : StepModel) → Timely st x) → All (Timely st) steps
    every [] h = tt
    every (x ∷ steps) h = (h x, every steps h)
