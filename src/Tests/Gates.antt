-- ===== src/Tests/Gates.antt =====
-- A gate of a held class that a terminal approves, and one with a stored rejection.
use rayspec_py.Prelude.{◌≡◌, ◌⊎◌, refl, true, false, none, some, [], ◌∷◌}
use rayspec_py.Prelude.Dict.{get}
use rayspec_py.Schema.{StepStatus}
use rayspec_py.Engine.Approval.Classes.{rules_for, unheld, may_approve_automatically, may_prompt}
use rayspec_py.Engine.Approval.Gate.{
  ApproveSpec, OnReject, Decision, GateState, GateEnv, answered, gate_token, stored_decision,
  settle, ask, warn_refused, try_auto_if, undecided, usable, rendered, run_approve,
}
use rayspec_py.Engine.Approval.Gate.Authority.{
  ByPrompt, Automatically, OutOfBand, run_approve-authorised,
}
use rayspec_py.Engine.Approval.Gate.Outcome.{
  Fits, IsRejected, run_approve-Fits, run_approve_rejection,
}

abbrev release : ApproveSpec
release = record { class = some "release"; auto_if = none; on_reject = OnReject.cancel }

abbrev env : GateEnv
env = record {
  classes = record {
    rules = ("release", record { allow_yes = false; require_tty = true }) ∷ [];
    pre_approved = [];
    terminal_prompt = true;
    policy_loaded = true;
  };
  message_renders = true;
  auto_if_value = none;
  flag_yes = true;
  dry_run = false;
  interactive = true;
  prompt = some (answered (record { approved = true; comment = "" }));
  at_a_terminal = true;
  actor = "ada";
  clean_identity = λ x. some x;
}

abbrev waiting : GateState
waiting = record {
  path = "ship";
  attempts = 0;
  status = StepStatus.running;
  ok_flag = none;
  approved = none;
  error = none;
  run_pause = none;
  paused = none;
  events = [];
}

approved_at_terminal : (run_approve env release waiting).1.approved ≡ some true
unfolding run_approve rendered usable undecided try_auto_if warn_refused ask settle stored_decision
    gate_token unheld rules_for may_prompt may_approve_automatically get
approved_at_terminal = refl

run_approve-authorised_example :
    ByPrompt env release ⊎ Automatically env release ⊎ OutOfBand env release waiting
run_approve-authorised_example =
    run_approve-authorised env release waiting refl approved_at_terminal

run_approve-Fits_example : Fits release (run_approve env release waiting)
run_approve-Fits_example = run_approve-Fits env release waiting

abbrev no : Decision
no = record { approved = false; comment = "not yet"; by = "cli"; actor = some "bob" }

abbrev refused : GateState
refused = record waiting {
  attempts = 1;
  run_pause =
      some (record {
        token = record { path = "ship"; attempt = 1 };
        step = "ship";
        decision = some no;
      });
}

refusal_stored : stored_decision refused ≡ some no
unfolding stored_decision gate_token
refusal_stored = refl

run_approve_rejection_example : IsRejected env release refused (run_approve env release refused)
run_approve_rejection_example =
    run_approve_rejection env release refused no refl refusal_stored refl
