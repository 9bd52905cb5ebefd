-- ===== src/Engine/Scheduler/Decided.antt =====
-- What a visit decides about a pending step (engine/scheduler.py, `decide_and_launch`).
use rayspec_py.Prelude.{
  String, ◌≡◌, ◌≢◌, refl, Bool, true, false, ◌||◌, Option, none, some, List, [], ◌∷◌, All, arith,
  is_some, Option-cases,
}
use rayspec_py.Prelude.Dict.{Dict, get}
use rayspec_py.Schema.{JoinPolicy, StepModel}
use rayspec_py.Engine.Graph.Join.{Outcome, JoinDecision, join_decision}
use rayspec_py.Engine.Graph.Join.Table.{
  IsTerminal, MayRun, join_decision_iff_IsTerminal, join_decision_table,
}
use rayspec_py.Engine.Graph.Build.{StepGraph}
use rayspec_py.Engine.Settle.{StepOutcome, Siblings, decidable}
use rayspec_py.Engine.Scheduler.{
  Moment, needs_of, need_outcomes, stays, ends, launches, raises, Verdict, on_verdict, by_when,
  by_join, decide,
}

-- The outcomes of the needs are terminal once the step can be decided.
pub decidable-IsTerminal :
    (outcomes : Dict StepOutcome) (needs : List String)
    → decidable outcomes needs ≡ true
    → All IsTerminal (need_outcomes outcomes needs)
unfolding decidable need_outcomes
decidable-IsTerminal outcomes [] h = tt
decidable-IsTerminal outcomes (n ∷ needs) h =
    ground (arith, decidable-IsTerminal outcomes needs, Option-cases (get outcomes n))

-- A join that is asked about a step that can be decided answers.
pub joined :
    (join : JoinPolicy) (outcomes : Dict StepOutcome) (needs : List String) (draining : Bool)
    → decidable outcomes needs ≡ true
    → join_decision join (need_outcomes outcomes needs) draining ≢ none
joined join outcomes needs draining h e =
    let (to, from) = join_decision_iff_IsTerminal join (need_outcomes outcomes needs) draining in
    let t = from (decidable-IsTerminal outcomes needs h) in cc

by_when-raises : (m : Moment) (step : StepModel) → by_when m step ≢ raises
by_when-raises m step e = ground arith

by_join-raises :
    (m : Moment) (step : StepModel) (d : Option JoinDecision) → by_join m step d ≡ raises → d ≡ none
by_join-raises m step none e = refl
by_join-raises m step (some d) e = ground (arith, by_when-raises m step)

-- Whatever the moment, the graph, the state and the step are, deciding the step never raises the
-- ValueError that the join has for an outcome that is not terminal.
pub decide_never_raises :
    (m : Moment) (g : StepGraph) (s : Siblings) (step : StepModel) → decide m g s step ≢ raises
unfolding decide
decide_never_raises m g s step e = ground (
  arith,
  by_join-raises m step,
  joined step.join s.outcomes (needs_of g step) (s.draining || is_some s.control),
)

pub by_join-launches :
    (m : Moment) (step : StepModel) (d : Option JoinDecision)
    → by_join m step d ≡ launches
    → (r : JoinDecision) × (d ≡ some r) × (r.run ≡ true) × (by_when m step ≡ launches)
by_join-launches m step none e = ground arith
by_join-launches m step (some d) e = (d, refl, ground arith, ground arith)

-- A row under which a step runs while the list drains is one under which it runs otherwise.
pub MayRun-calm :
    (join : JoinPolicy) (os : List Outcome) (draining : Bool)
    → MayRun join os draining
    → MayRun join os false
MayRun-calm JoinPolicy.always os draining h = tt
MayRun-calm JoinPolicy.all os draining h = (h.0, refl)
MayRun-calm JoinPolicy.any os draining h = (h.0, h.1, refl)

-- A step whose needs are settled and whose join has it run.
abbrev pub Startable : StepGraph → Dict StepOutcome → StepModel → Type 0
Startable g outcomes step =
    (decidable outcomes (needs_of g step) ≡ true)
    × MayRun step.join (need_outcomes outcomes (needs_of g step)) false

pub join-Startable :
    (g : StepGraph) (outcomes : Dict StepOutcome) (step : StepModel) (draining : Bool)
    (r : JoinDecision)
    → decidable outcomes (needs_of g step) ≡ true
    → join_decision step.join (need_outcomes outcomes (needs_of g step)) draining ≡ some r
    → r.run ≡ true
    → Startable g outcomes step
join-Startable g outcomes step draining r h e run =
    let (to, from) = join_decision_table step.join _ draining e in
    (h, MayRun-calm step.join _ draining (to run))

pub joined_launch :
    (m : Moment) (g : StepGraph) (s : Siblings) (step : StepModel)
    → decide m g s step ≡ launches
    → (decidable s.outcomes (needs_of g step) ≡ true)
      × (by_join m step (
            join_decision step.join
              (need_outcomes s.outcomes (needs_of g step))
              (s.draining || is_some s.control))
          ≡ launches)
unfolding decide
joined_launch m g s step e = ground arith

-- What each decision says of the step's needs.
pub decide-launches :
    (m : Moment) (g : StepGraph) (s : Siblings) (step : StepModel)
    → decide m g s step ≡ launches
    → Startable g s.outcomes step
decide-launches m g s step e =
    let (h, j) = joined_launch m g s step e in
    let (r, e', run, w) = by_join-launches m step _ j in
    join-Startable g s.outcomes step (s.draining || is_some s.control) r h e' run

pub decide-ends :
    (m : Moment) (g : StepGraph) (s : Siblings) (step : StepModel) (o : StepOutcome)
    → decide m g s step ≡ ends o
    → decidable s.outcomes (needs_of g step) ≡ true
unfolding decide
decide-ends m g s step o e = ground arith

on_verdict-stays : (step : StepModel) (v : Verdict) → on_verdict step v ≢ stays
on_verdict-stays step v e = ground arith

by_join-stays : (m : Moment) (step : StepModel) (d : Option JoinDecision) → by_join m step d ≢ stays
by_join-stays m step none e = ground arith
by_join-stays m step (some d) e = ground (arith, on_verdict-stays step)

pub decide-stays :
    (m : Moment) (g : StepGraph) (s : Siblings) (step : StepModel)
    → decide m g s step ≡ stays
    → decidable s.outcomes (needs_of g step) ≡ false
unfolding decide
decide-stays m g s step e = ground (
  arith,
  by_join-stays m step (
      join_decision step.join (need_outcomes s.outcomes (needs_of g step))
        (s.draining || is_some s.control)),
)
