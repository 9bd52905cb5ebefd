-- ===== src/Tests/Schedules.antt =====
-- A diamond of steps that is run, and one that a spent budget drains.
use rayspec_py.Prelude.{
  ℕ, ◌+◌, ◌≤◌, String, ◌≡◌, refl, inl, true, false, none, some, [], ◌∷◌, All, is_some, arith,
}
use rayspec_py.Prelude.Dict.{Dict, get, put, values}
use rayspec_py.Schema.{StepStatus, SkipReason, is_terminal}
use rayspec_py.Engine.Graph.Join.{join_decision, classify_all, classify}
use rayspec_py.Engine.Graph.Join
use rayspec_py.Engine.Settle.{StepOutcome, settle, finalize, skipped, decidable}
use rayspec_py.Engine.Scheduler
use rayspec_py.Engine.Scheduler.{
  finished, Moment, holds, GraphState, begin, decide_all, pass, visit, receive, apply, end_step,
  find, raises, need_outcomes, try_reuse, needs_named, new_record,
}
use rayspec_py.Engine.Scheduler.WindDown.{
  wind_round, skip_leftovers, skip_found, skip_leftover, start_leftovers, decide_leftover,
  leftover_reason,
}
use rayspec_py.Engine.Scheduler.Decided.{Startable}
use rayspec_py.Engine.Scheduler.Progress.{Waits, decide_all-Waits}
use rayspec_py.Engine.Scheduler.Pending.{count}
use rayspec_py.Engine.Scheduler.Kept.{held}
use rayspec_py.Engine.Scheduler.Rounds.{OwnIds}
use rayspec_py.Engine.Scheduler.Draining.{Timely}
use rayspec_py.Engine.Scheduler.Reach.{
  Reach, starts, then, decides, receives, Reach-places, Reach-Ordered,
}
use rayspec_py.Engine.Scheduler.Complete.{AllTerminal, Reach-no_deadlock}
use rayspec_py.Tests.Graphs.{step, steps, graph, diamond}

abbrev calm : Moment
calm = record {
  keep_going = false;
  budget_exceeded = none;
  cancel_requested = none;
  cache = [];
  replays = λ s r. true;
  eval_when = λ s condition. holds;
}

abbrev spent : Moment
spent = record calm { budget_exceeded = some "max_cost_usd reached" }

abbrev at_calm : ℕ → String → Moment
at_calm n sid = calm

abbrev at_spent : ℕ → String → Moment
at_spent n sid = spent

abbrev done : StepOutcome
done = record {
  step_record = record (new_record (step "a" [])) {
    status = StepStatus.succeeded;
    ok_flag = some true;
  };
  reused = false;
  control = none;
}

calm_own : OwnIds calm
unfolding get
calm_own k r e = ground arith

spent_own : OwnIds spent
unfolding get
spent_own k r e = ground arith

-- The first round launches the root alone.
first_round : (decide_all at_calm graph 5 (begin graph)).running ≡ step "a" [] ∷ []
unfolding decide_all pass visit Scheduler.decide decidable find apply end_step settle need_outcomes
    join_decision classify_all classify Join.decide get put
first_round = refl

abbrev second : GraphState
second = receive false done (decide_all at_calm graph 5 (begin graph))

second_reached : Reach graph second
unfolding decide_all pass visit Scheduler.decide decidable find apply end_step settle need_outcomes
    join_decision classify_all classify Join.decide get put
second_reached =
    then (then starts (decides at_calm 5 (λ n sid. calm_own))) (receives false done (inl refl))

Reach-places_example :
    (count "a" second.pending + count "a" second.running + held second.siblings.outcomes "a"
      ≡ count "a" steps)
    × (count "a" steps ≤ 1)
Reach-places_example = Reach-places steps graph second "a" diamond second_reached

abbrev third : GraphState
third = decide_all at_calm graph 5 second

Reach-Ordered_example :
    All (Startable graph second.siblings.outcomes) second.running
    × ((k : String)
        → is_some (get second.siblings.outcomes k) ≡ true
        → decidable second.siblings.outcomes (needs_named graph k) ≡ true)
    × All (Timely second) third.running
Reach-Ordered_example =
    Reach-Ordered steps graph second third diamond second_reached
      (decides at_calm 5 (λ n sid. calm_own))

decide_all-Waits_example :
    All
      (Waits graph (decide_all at_calm graph 5 (begin graph)).siblings)
      (decide_all at_calm graph 5 (begin graph)).pending
decide_all-Waits_example = decide_all-Waits at_calm graph 5 (begin graph) (omega arith)

terminal_values :
    (d : Dict StepOutcome)
    → All (λ o. is_terminal o.step_record.status ≡ true) (values d)
    → (k : String) (o : StepOutcome) → get d k ≡ some o
    → is_terminal o.step_record.status ≡ true
unfolding get
terminal_values [] t k o e = ground arith
terminal_values ((j, v) ∷ d) t k o e = ground (arith, terminal_values d t.1 k o)

-- A spent budget settles the whole diamond.
drained_idle : (decide_all at_spent graph 5 (begin graph)).running ≡ []
unfolding decide_all pass visit Scheduler.decide decidable find apply end_step settle need_outcomes
    join_decision classify_all classify Join.decide get put try_reuse skipped finalize finished
drained_idle = refl

drained_terminal : AllTerminal (decide_all at_spent graph 5 (begin graph))
unfolding decide_all pass visit Scheduler.decide decidable find apply end_step settle need_outcomes
    join_decision classify_all classify Join.decide get put try_reuse skipped finalize finished
drained_terminal =
    terminal_values (decide_all at_spent graph 5 (begin graph)).siblings.outcomes
      (refl, (refl, (refl, (refl, tt))))

Reach-no_deadlock_example : (decide_all at_spent graph 5 (begin graph)).pending ≡ []
Reach-no_deadlock_example =
    Reach-no_deadlock steps graph (begin graph) at_spent diamond starts (λ n sid. spent_own)
      drained_idle drained_terminal

-- The wind-down after a failure tells the dependents why they were skipped.
abbrev failed_a : StepOutcome
failed_a = record {
  step_record = record (new_record (step "a" [])) {
    status = StepStatus.failed;
    ok_flag = some false;
  };
  reused = false;
  control = none;
}

wound_down :
    get
      (wind_round calm graph false SkipReason.run_failed
        (receive false failed_a (decide_all at_calm graph 5 (begin graph)))).siblings.outcomes
      "b"
    ≡ some (skipped (new_record (step "b" ("a" ∷ []))) SkipReason.upstream_failed)
unfolding decide_all pass visit Scheduler.decide decidable find apply end_step settle need_outcomes
    join_decision classify_all classify Join.decide get put receive wind_round skip_leftovers
    skip_found skip_leftover start_leftovers decide_leftover leftover_reason skipped finalize
    finished
wound_down = refl
