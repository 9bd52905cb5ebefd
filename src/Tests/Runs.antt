-- ===== src/Tests/Runs.antt =====
-- A run whose `each:` body fails while another branch declares success.
use rayspec_py.Prelude.{
  ◌≡◌, ◌≢◌, ◌↔◌, ◌⊎◌, inl, inr, refl, String, true, false, none, some, List, [], ◌∷◌,
}
use rayspec_py.Prelude.Result.{ok}
use rayspec_py.Prelude.Int.{pos}
use rayspec_py.Schema.{StepStatus, RunStatus, SkipReason}
use rayspec_py.Limits.Envelope.{PauseKind}
use rayspec_py.Engine.Verdict.{
  StepRecord, Signals, Stop, ladder, counted_failures, run_failures, failed_steps, stop_collateral,
  cancel_collateral, answered_by_a_composite,
}
use rayspec_py.Engine.Verdict.Ladder.{Clean, ladder-Clean}
use rayspec_py.Engine.Verdict.Laundering.{Genuine, ladder-Genuine}
use rayspec_py.Engine.Verdict.Finish.{
  unset, empty, Closing, RunEnd, finalize, refresh_envelope_pause, settle_envelope,
}
use rayspec_py.Engine.Verdict.Finish.Published.{finalize-Clean}
use rayspec_py.Engine.Settle
use rayspec_py.Engine.Settle.{
  StepOutcome, RunControl, run_paused, run_stopped, settle_all, settle, no_outcome, drains,
  controlled, skipped, interrupted_outcome, cancel_reason_for, decidable,
}
use rayspec_py.Engine.Settle.Control.{settle_all-control}

abbrev fan : StepRecord
fan = record {
  path = ("fan", none) ∷ [];
  status = StepStatus.interrupted;
  tolerated = false;
  skip_reason = some SkipReason.stopped;
  error = none;
}

abbrev patch : StepRecord
patch = record {
  path = ("fan", some 0) ∷ ("patch", none) ∷ [];
  status = StepStatus.failed;
  tolerated = false;
  skip_reason = none;
  error = some "exit 1";
}

abbrev build : StepRecord
build = record {
  path = ("build", none) ∷ [];
  status = StepStatus.succeeded;
  tolerated = false;
  skip_reason = none;
  error = none;
}

abbrev done_early : Stop
done_early = record { step_path = ("done", none) ∷ []; status = RunStatus.succeeded; reason = none }

abbrev quiet : Signals
quiet = record {
  engine_error = none;
  interrupted = false;
  paused = none;
  envelope_pause = none;
  envelope_pause_kind = PauseKind.budget;
  budget_exceeded = none;
  cancel_requested = none;
  stopped = none;
}

abbrev stopping : Signals
stopping = record quiet { stopped = some done_early }

patch-Genuine : Genuine (fan ∷ patch ∷ []) patch
unfolding stop_collateral cancel_collateral answered_by_a_composite
patch-Genuine = record {
  recorded = inr (inl refl);
  fails = refl;
  untolerated = refl;
  no_stop = refl;
  no_cancel = refl;
  unanswered = refl;
}

ladder-Genuine_example :
    ((ladder stopping (fan ∷ patch ∷ [])).0 ≡ RunStatus.failed)
    ⊎ ((ladder stopping (fan ∷ patch ∷ [])).0 ≡ RunStatus.paused)
    ⊎ ((ladder stopping (fan ∷ patch ∷ [])).0 ≡ RunStatus.interrupted)
ladder-Genuine_example = ladder-Genuine stopping (fan ∷ patch ∷ []) patch patch-Genuine refl

ladder-Clean_example :
    ((ladder stopping (build ∷ [])).0 ≡ RunStatus.succeeded) ↔ Clean stopping (build ∷ [])
ladder-Clean_example = ladder-Clean stopping (build ∷ [])

-- The buried failure decides the run.
buried : (ladder stopping (fan ∷ patch ∷ [])).0 ≡ RunStatus.failed
unfolding ladder counted_failures run_failures failed_steps stop_collateral cancel_collateral
    answered_by_a_composite
buried = refl

abbrev closing : Closing String
closing = record {
  envelope = none;
  dry_run = false;
  cost = some (pos 12);
  moment = record { day = "2026-07-01"; month = "2026-07"; cutoff = "2026-05-01" };
  has_outputs = false;
  render_outputs = ok "";
  run_pause = none;
  resume_count = 0;
  last_finished_path = none;
}

abbrev finished : RunEnd String
finished = record {
  status = RunStatus.succeeded;
  reason = none;
  outputs = empty;
  pause = none;
  paused_event = none;
  keeps_pid = false;
  keeps_cancel_flag = false;
  envelope = none;
}

closed_well : finalize quiet (build ∷ []) closing ≡ some finished
unfolding finalize refresh_envelope_pause settle_envelope ladder counted_failures run_failures
    failed_steps
closed_well = refl

finalize-Clean_example : (finished.outputs ≢ unset) × Clean quiet (build ∷ [])
finalize-Clean_example = finalize-Clean quiet (build ∷ []) closing finished closed_well refl

abbrev settled : Settle.StepRecord
settled = record {
  id = "lint";
  status = StepStatus.running;
  ok_flag = none;
  tolerated = false;
  skip_reason = none;
  error = none;
}

abbrev outcomes : List StepOutcome
outcomes =
    record {
      step_record = record settled { status = StepStatus.interrupted };
      reused = false;
      control = some (run_stopped "stop");
    }
    ∷ record {
      step_record = record settled { id = "gate"; status = StepStatus.paused };
      reused = false;
      control = some (run_paused "gate");
    }
    ∷ []

settle_all-control_example :
    ((settle_all true outcomes no_outcome).control ≡ some (run_paused "gate"))
    × ((settle_all true outcomes no_outcome).draining ≡ true)
settle_all-control_example = settle_all-control true outcomes

-- What the constructors of outcomes leave.
skipped_status : (skipped settled SkipReason.when_false).step_record.status ≡ StepStatus.skipped
unfolding skipped
skipped_status = refl
