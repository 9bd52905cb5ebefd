-- ===== src/Tests/Composites.antt =====
-- A loop that converges in its second iteration, and an `each:` step whose items end in reverse.
use rayspec_py.Prelude.{
  ℕ, zero, suc, ◌≤◌, ◌<◌, ◌≡◌, ◌↔◌, refl, true, false, none, some, [], ◌∷◌, arith, ltb,
  if◌then◌else◌,
}
use rayspec_py.Prelude.Dict.{Dict, get}
use rayspec_py.Prelude.Result.{ok, err}
use rayspec_py.Schema.{StepStatus}
use rayspec_py.Engine.Settle.{run_paused, run_stopped, StepOutcome}
use rayspec_py.Engine.Body.{fails_composite, body_outputs}
use rayspec_py.Engine.Loop
use rayspec_py.Engine.Loop.{
  LoopSpec, LoopEnd, OnExhausted, iterate, iteration, run_loop, close, loop_end,
}
use rayspec_py.Engine.Loop.Course.{Clean, UntilOpen}
use rayspec_py.Engine.Loop.Ends.{run_loop-Bounded}
use rayspec_py.Engine.Loop.Success.{Succeeds, EndedWell, run_loop_iff}
use rayspec_py.Engine.Each
use rayspec_py.Engine.Each.{
  EachSpec, OnFailure, EachEnd, sequence, run_each, end_items, end_item, set_at, conclude,
}
use rayspec_py.Engine.Each.Ends.{Sequential, ends_in, run_each-Sequential}
use rayspec_py.Engine.Each.Signals.{run_each-signal}

abbrev outcome : StepStatus → StepOutcome
outcome status = record {
  step_record = record {
    id = "work";
    status = status;
    ok_flag = none;
    tolerated = false;
    skip_reason = none;
    error = none;
  };
  reused = false;
  control = none;
}

abbrev worked : Dict StepOutcome
worked = ("work", outcome StepStatus.succeeded) ∷ []

abbrev broke : Dict StepOutcome
broke = ("work", outcome StepStatus.failed) ∷ []

abbrev polling : LoopSpec
polling = record {
  step_ids = "work" ∷ [];
  max_iterations = 5;
  until = some "done";
  on_exhausted = OnExhausted.fail;
}

abbrev second_time : Loop.World
second_time = record {
  budget_exceeded = λ n. false;
  check_cancelled = λ n. false;
  run_body = λ n. ok worked;
  eval_until = λ n condition. some (ltb 1 n);
}

abbrev polled : LoopEnd
polled = record {
  status = StepStatus.succeeded;
  ok_flag = true;
  skip_reason = none;
  error = none;
  iterations = 2;
  converged = some true;
  output = some (("work", some (outcome StepStatus.succeeded)) ∷ []);
}

polled_twice : run_loop polling second_time ≡ ok polled
unfolding run_loop iterate iteration close loop_end fails_composite body_outputs get
polled_twice = refl

run_loop-Bounded_example :
    (2 ≤ 5) × ((k : ℕ) → 1 ≤ k → k < 2 → Clean second_time k × UntilOpen polling second_time k)
run_loop-Bounded_example = run_loop-Bounded polling second_time polled polled_twice

run_loop_iff_example : EndedWell (run_loop polling second_time) ↔ Succeeds polling second_time 5 1
run_loop_iff_example = run_loop_iff polling second_time

abbrev fanned : EachSpec
fanned = record { step_ids = "work" ∷ []; on_failure = OnFailure.fail }

abbrev bodies : ℕ → Dict StepOutcome
bodies (suc zero) = broke
bodies n = worked

abbrev backwards : Each.World
backwards = record {
  eval_items = sequence 3;
  run_body = λ i. ok (bodies i);
  order = 2 ∷ 1 ∷ 0 ∷ [];
}

all_end : (i : ℕ) → i < 3 → ends_in i backwards.order ≡ true
all_end i h = ground arith

run_each-Sequential_example :
    (r : EachEnd) × (run_each fanned backwards ≡ ok r) × Sequential fanned 3 bodies r
run_each-Sequential_example =
    run_each-Sequential fanned backwards 3 bodies refl all_end (refl, (refl, (refl, tt)))

abbrev gate_and_stop : Each.World
gate_and_stop = record {
  eval_items = sequence 3;
  run_body = λ i.
      if ltb i 1
      then ok worked
      else if ltb i 2
      then err (run_paused "fan[1]/gate")
      else err (run_stopped "fan[2]/stop");
  order = 2 ∷ 0 ∷ 1 ∷ [];
}

run_each-signal_example : run_each fanned gate_and_stop ≡ err (run_paused "fan[1]/gate")
run_each-signal_example =
    run_each-signal fanned gate_and_stop 2 (run_paused "fan[1]/gate") refl refl
