-- ===== src/Engine/Loop.antt =====
-- engine/executors/loop.py: `run_loop`. The world gives, by the number of the iteration, the caps
-- that are read before it, the outcomes of its body or the signal that the body raised, and the
-- value of `until` after it.
pub mod Course
pub mod Ends
pub mod Success
use rayspec_py.Prelude.{
  ℕ, zero, suc, String, Bool, true, false, Option, none, some, List, [], is_some, if◌then◌else◌,
}
use rayspec_py.Prelude.Dict.{Dict}
use rayspec_py.Prelude.Result.{Result, ok, err}
use rayspec_py.Schema.{StepStatus, SkipReason}
use rayspec_py.Engine.Settle.{RunControl, StepOutcome}
use rayspec_py.Engine.Body.{failed_body_step, body_outputs}

-- LoopSpec
pub data OnExhausted : Type 0 where
  fail continue : OnExhausted

pub record LoopSpec : Type 0 where
  pub step_ids : List String
  pub max_iterations : ℕ
  pub until : Option String
  pub on_exhausted : OnExhausted

pub record World : Type 0 where
  pub budget_exceeded : ℕ → Bool
  pub check_cancelled : ℕ → Bool
  pub run_body : ℕ → Result RunControl (Dict StepOutcome)
  -- `none` is a TemplateRenderError
  pub eval_until : ℕ → String → Option Bool

-- The types of the errors of a loop.
pub data LoopError : Type 0 where
  budget cancelled until exhausted : LoopError
  body : StepOutcome → LoopError

-- The local variables of `run_loop`.
pub record LoopState : Type 0 where
  pub last : Dict StepOutcome
  pub iterations : ℕ
  pub converged : Option Bool
  pub error : Option LoopError

abbrev pub no_iteration : LoopState
no_iteration = record { last = []; iterations = 0; converged = none; error = none }

-- One pass of the for loop: it goes on, or breaks, or a signal passes through.
pub data Turn : Type 0 where
  goes_on breaks : LoopState → Turn
  signals : RunControl → Turn

abbrev pub on_until : LoopState → Option Bool → Turn
on_until s none = breaks (record s { error = some until })
on_until s (some true) = breaks (record s { converged = some true })
on_until s (some false) = goes_on s

abbrev pub check_until : World → ℕ → Option String → LoopState → Turn
check_until w n none s = goes_on s
check_until w n (some condition) s = on_until s (w.eval_until n condition)

abbrev pub unless_failed : LoopSpec → World → ℕ → LoopState → Option StepOutcome → Turn
unless_failed spec w n s (some o) = breaks (record s { error = some (body o) })
unless_failed spec w n s none = check_until w n spec.until s

abbrev pub after_body :
    LoopSpec → World → ℕ → LoopState → Result RunControl (Dict StepOutcome) → Turn
after_body spec w n s (err control) = signals control
after_body spec w n s (ok outcomes) =
    unless_failed spec w n (record s { iterations = n; last = outcomes })
      (failed_body_step outcomes)

unfoldable pub iteration : LoopSpec → World → ℕ → LoopState → Turn
iteration spec w n s =
    if w.budget_exceeded n
    then breaks (record s { error = some budget })
    else if w.check_cancelled n
    then breaks (record s { error = some cancelled })
    else after_body spec w n s (w.run_body n)

abbrev pub follow : (LoopState → Result RunControl LoopState) → Turn → Result RunControl LoopState
follow rest (goes_on s) = rest s
follow rest (breaks s) = ok s
follow rest (signals control) = err control

-- for n in range(n, n + left)
unfoldable pub iterate : LoopSpec → World → ℕ → ℕ → LoopState → Result RunControl LoopState
iterate spec w zero n s = ok s
iterate spec w (suc left) n s = follow (iterate spec w left (suc n)) (iteration spec w n s)

abbrev pub is_converged : Option Bool → Bool
is_converged (some true) = true
is_converged _ = false

abbrev pub exhausted_by : OnExhausted → Option LoopError
exhausted_by fail = some exhausted
exhausted_by continue = none

-- The two tests after the loop.
abbrev pub close_until : LoopSpec → LoopState → LoopState
close_until spec s =
    if is_converged s.converged
    then s
    else record s { converged = some false; error = exhausted_by spec.on_exhausted }

unfoldable pub close : LoopSpec → LoopState → LoopState
close spec s = elim s.error [
  | some e ↦ s
  | none ↦ elim spec.until [
    | none ↦ record s { converged = some true }
    | some condition ↦ close_until spec s
  ]
]

-- What the record and the outcome of the loop step say; the output is missing when a loop that
-- failed has no iteration.
pub record LoopEnd : Type 0 where
  pub status : StepStatus
  pub ok_flag : Bool
  pub skip_reason : Option SkipReason
  pub error : Option LoopError
  pub iterations : ℕ
  pub converged : Option Bool
  pub output : Option (List (String × Option StepOutcome))

abbrev is_empty : Dict StepOutcome → Bool
is_empty [] = true
is_empty _ = false

abbrev kept_output : LoopSpec → LoopState → Option (List (String × Option StepOutcome))
kept_output spec s = if is_empty s.last then none else some (body_outputs s.last spec.step_ids)

abbrev failed_loop : LoopSpec → LoopState → LoopError → LoopEnd
failed_loop spec s cancelled = record {
  status = StepStatus.interrupted;
  ok_flag = false;
  skip_reason = some SkipReason.cancelled;
  error = none;
  iterations = s.iterations;
  converged = s.converged;
  output = kept_output spec s;
}
failed_loop spec s e = record {
  status = StepStatus.failed;
  ok_flag = false;
  skip_reason = none;
  error = some e;
  iterations = s.iterations;
  converged = s.converged;
  output = kept_output spec s;
}

unfoldable pub loop_end : LoopSpec → LoopState → LoopEnd
loop_end spec s = elim s.error [
  | some e ↦ failed_loop spec s e
  | none ↦ record {
    status = StepStatus.succeeded;
    ok_flag = true;
    skip_reason = none;
    error = none;
    iterations = s.iterations;
    converged = s.converged;
    output = some (body_outputs s.last spec.step_ids);
  }
]

abbrev pub ended : LoopSpec → Result RunControl LoopState → Result RunControl LoopEnd
ended spec (ok s) = ok (loop_end spec (close spec s))
ended spec (err control) = err control

unfoldable pub run_loop : LoopSpec → World → Result RunControl LoopEnd
run_loop spec w = ended spec (iterate spec w spec.max_iterations 1 no_iteration)
