-- ===== src/Engine/Approval/Gate.antt =====
-- engine/executors/approve.py: `run_approve`, one gate. The lock on the prompt, the launch gate of
-- the runtime and the writes to the store are not modelled.
pub mod Authority
pub mod Outcome
use rayspec_py.Prelude.{
  ℕ, ◌+◌, String, Bool, true, false, not, ◌&&◌, Option, none, some, List, [], ◌∷◌, ◌++◌, str_eq,
  ◌==◌, is_some, if◌then◌else◌, or_else,
}
use rayspec_py.Prelude.Result.{Result, ok, err}
use rayspec_py.Schema.{StepStatus}
use rayspec_py.Engine.Approval.Classes.{
  ApprovalClasses, By, by_auto_if, by_tty, by_stored, unheld, may_approve_automatically,
  may_decide_out_of_band, may_prompt, automatic_by,
}

pub data OnReject : Type 0 where
  fail continue cancel : OnReject

-- ApproveSpec, without the message
pub record ApproveSpec : Type 0 where
  pub class : Option String
  pub auto_if : Option String
  pub on_reject : OnReject

-- `<path>#<attempt>`
pub record Token : Type 0 where
  pub path : String
  pub attempt : ℕ

pub record Decision : Type 0 where
  pub approved : Bool
  pub comment : String
  pub by : String
  pub actor : Option String

pub record PauseInfo : Type 0 where
  pub token : Token
  pub step : String
  pub decision : Option Decision

-- ApprovalAnswer
pub record Answer : Type 0 where
  pub approved : Bool
  pub comment : String

-- The warnings and events of a gate, in the order in which they are emitted.
pub data Event : Type 0 where
  class_not_held out_of_band_refused gate_held : Event
  prompt_not_a_terminal no_terminal : Event
  waiver_refused : By → Event
  reattributed : String → String → Event
  decided : Answer → By → String → Event
  run_paused : Token → Event

pub data ErrorType : Type 0 where
  render rejected : ErrorType

-- The record of the step, with `ctx.run.pause`, `ctx.paused` and what was emitted.
pub record GateState : Type 0 where
  pub path : String
  pub attempts : ℕ
  pub status : StepStatus
  pub ok_flag : Option Bool
  pub approved : Option Bool
  pub error : Option ErrorType
  pub run_pause : Option PauseInfo
  pub paused : Option Token
  pub events : List Event

-- What the prompt comes back with: an answer, None, or Ctrl-C.
pub data Prompted : Type 0 where
  answered : Answer → Prompted
  declined interrupted : Prompted

-- What the process gives to a gate: the templates, the options, the terminal and its user.
pub record GateEnv : Type 0 where
  pub classes : ApprovalClasses
  pub message_renders : Bool
  pub auto_if_value : Option Bool
  pub flag_yes : Bool
  pub dry_run : Bool
  pub interactive : Bool
  pub prompt : Option Prompted
  pub at_a_terminal : Bool
  pub actor : String
  pub clean_identity : String → Option String

pub data Control : Type 0 where
  run_stopped : Control
  run_paused_at : Token → Control

-- How the executor ends: an outcome with its control signal, or the cancellation passed on.
pub data GateEnd : Type 0 where
  outcome : Option Control → GateEnd
  unwound : GateEnd

abbrev emit : Event → GateState → GateState
emit e g = record g { events = g.events ++ e ∷ [] }

abbrev emit_if : Bool → Event → GateState → GateState
emit_if b e g = if b then emit e g else g

unfoldable pub gate_token : GateState → Token
gate_token g = record { path = g.path; attempt = g.attempts }

abbrev same_token : Token → Token → Bool
same_token s t = str_eq s.path t.path && (s.attempt == t.attempt)

abbrev decision_of : String → Token → Option PauseInfo → Option Decision
decision_of path token none = none
decision_of path token (some p) =
    if str_eq p.step path && same_token p.token token then p.decision else none

unfoldable pub stored_decision : GateState → Option Decision
stored_decision g = decision_of g.path (gate_token g) g.run_pause

-- `_pause`: the first pause of a run owns `run.pause`
unfoldable pub pause : GateState → GateEnd × GateState
unfolding gate_token
pause g = elim g.paused [
  | some t ↦
      (outcome (some (run_paused_at t)), record g { status = StepStatus.paused; ok_flag = none })
  | none ↦
      let t = gate_token g in
      (
        outcome (some (run_paused_at t)),
        emit (run_paused t) (record g {
          status = StepStatus.paused;
          ok_flag = none;
          paused = some t;
          run_pause = some (record { token = t; step = g.path; decision = none });
        }),
      )
]

abbrev render_failure : GateState → GateEnd × GateState
render_failure g = (
  outcome none,
  record g { status = StepStatus.failed; ok_flag = some false; error = some render },
)

-- if ctx.run.pause is not None and ctx.run.pause.step == path: ctx.run.pause = None
abbrev clear_pause : String → Option PauseInfo → Option PauseInfo
clear_pause path none = none
clear_pause path (some p) = if str_eq p.step path then none else some p

-- the outcome of a rejection
abbrev reject : OnReject → GateState → GateEnd × GateState
reject OnReject.continue g =
    (outcome none, record g { status = StepStatus.succeeded; ok_flag = some true })
reject OnReject.fail g = (
  outcome none,
  record g { status = StepStatus.failed; ok_flag = some false; error = some rejected },
)
reject OnReject.cancel g =
    (outcome (some run_stopped), record g { status = StepStatus.rejected; ok_flag = some false })

module _ (env : GateEnv) (spec : ApproveSpec) where
  -- from `if ctx.run.pause …` to the end: an answer becomes the outcome
  unfoldable pub settle : Answer → By → GateState → GateEnd × GateState
  settle a by g =
      let g' =
        emit (decided a by env.actor)
          (record g { run_pause = clear_pause g.path g.run_pause; approved = some a.approved }) in
      if a.approved
      then (outcome none, record g' { status = StepStatus.succeeded; ok_flag = some true })
      else reject spec.on_reject g'

  -- the answer of the prompt
  abbrev prompted : Prompted → GateState → GateEnd × GateState
  prompted (answered a) g = settle a by_tty g
  prompted declined g = pause g
  prompted interrupted g = (unwound, (pause g).1)

  abbrev asked : Option Prompted → GateState → GateEnd × GateState
  asked none g = pause g
  asked (some p) g =
      if not env.interactive
      then pause g
      else if not (may_prompt env.classes spec.class env.at_a_terminal)
      then pause
          (emit (if not env.classes.terminal_prompt then prompt_not_a_terminal else no_terminal) g)
      else prompted p g

  -- `_ask`, and what `run_approve` does with its answer
  unfoldable pub ask : GateState → GateEnd × GateState
  ask g = asked env.prompt g

  abbrev auto_waiver : Option By
  auto_waiver = if is_some spec.auto_if then some by_auto_if else none

  abbrev waiver_event : Option By → Event
  waiver_event none = gate_held
  waiver_event (some by) = waiver_refused by

  -- `_warn_refused`
  unfoldable pub warn_refused : GateState → GateState
  warn_refused g =
      emit
        (waiver_event
          (or_else (automatic_by env.classes spec.class env.flag_yes env.dry_run) auto_waiver))
        g

  abbrev approve : By → GateState → GateEnd × GateState
  approve by g = settle (record { approved = true; comment = "" }) by g

  abbrev auto_if_branch : Option String → Option Bool → GateState → GateEnd × GateState
  auto_if_branch none value g = ask g
  auto_if_branch (some e) none g = render_failure g
  auto_if_branch (some e) (some true) g = approve by_auto_if g
  auto_if_branch (some e) (some false) g = ask g

  -- `auto_if`, once no flag approved the gate; `auto_if_value` is none where it does not evaluate
  unfoldable pub try_auto_if : GateState → GateEnd × GateState
  try_auto_if g = auto_if_branch spec.auto_if env.auto_if_value g

  abbrev automatic_branch : Option By → GateState → GateEnd × GateState
  automatic_branch (some by) g = approve by g
  automatic_branch none g = try_auto_if g

  -- the branch without a stored decision
  unfoldable pub undecided : GateState → GateEnd × GateState
  undecided g =
      let g' = record g { attempts = g.attempts + 1 } in
      if may_approve_automatically env.classes spec.class
      then automatic_branch (automatic_by env.classes spec.class env.flag_yes env.dry_run) g'
      else ask (warn_refused g')

  abbrev claimed : Option Decision → Option String
  claimed none = none
  claimed (some d) = elim d.actor [ none ↦ none | some a ↦ env.clean_identity a ]

  abbrev note_claim : Option String → GateState → GateState
  note_claim none g = g
  note_claim (some name) g = emit_if (not (str_eq name env.actor)) (reattributed name env.actor) g

  -- a stored approval that the class does not accept is dropped
  unfoldable pub usable : Option Decision → Option Decision
  usable none = none
  usable (some d) =
      if d.approved && not (may_decide_out_of_band env.classes spec.class) then none else some d

  abbrev dropped : Option Decision → Bool
  dropped none = false
  dropped (some d) = d.approved && not (may_decide_out_of_band env.classes spec.class)

  abbrev decide : Option Decision → GateState → GateEnd × GateState
  decide none g = undecided g
  decide (some d) g =
      settle (record { approved = d.approved; comment = d.comment }) (by_stored d.by) g

  -- behind the rendering of the message
  unfoldable pub rendered : GateState → GateEnd × GateState
  rendered g =
      let g1 = emit_if (unheld env.classes spec.class) class_not_held g in
      let g2 = emit_if (dropped (stored_decision g1)) out_of_band_refused g1 in
      let d = usable (stored_decision g2) in decide d (note_claim (claimed d) g2)

  unfoldable pub run_approve : GateState → GateEnd × GateState
  run_approve g =
      if not env.message_renders
      then render_failure (record g { attempts = g.attempts + 1 })
      else rendered g
