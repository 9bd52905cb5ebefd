-- ===== src/Engine/Settle/Control.antt =====
-- What a sibling list makes of its outcomes, whatever their order (engine/scheduler.py).
use rayspec_py.Prelude.{
  ◌≡◌, Bool, false, ◌||◌, Option, none, some, List, [], ◌∷◌, any, arith, if◌then◌else◌, or_else,
}
use rayspec_py.Engine.Settle.{
  StepOutcome, Siblings, no_outcome, RunControl, is_pause, is_paused, drains, settle, settle_all,
}

-- The control of an outcome is a pause.
abbrev pub pauses : Option RunControl → Bool
pauses none = false
pauses (some c) = is_pause c

abbrev first_control : List StepOutcome → Option RunControl
first_control [] = none
first_control (o ∷ os) = elim o.control [ some c ↦ some c | none ↦ first_control os ]

abbrev first_pause : List StepOutcome → Option RunControl
first_pause [] = none
first_pause (o ∷ os) = let rest = first_pause os in if pauses o.control then o.control else rest

draining-settle_all :
    (keep_going : Bool) (os : List StepOutcome) (s : Siblings)
    → (settle_all keep_going os s).draining ≡ (
        s.draining
        || any (λ o. drains keep_going o.step_record || is_paused o.step_record.status) os)
unfolding settle
draining-settle_all keep_going [] s = ground arith
draining-settle_all keep_going (o ∷ os) s =
    ground (arith, draining-settle_all keep_going os (settle keep_going o s))

control-settle_all :
    (keep_going : Bool) (os : List StepOutcome) (s : Siblings)
    → (settle_all keep_going os s).control ≡ (
        if pauses s.control
        then s.control
        else or_else (first_pause os) (or_else s.control (first_control os)))
unfolding settle
control-settle_all keep_going [] s = ground arith
control-settle_all keep_going (o ∷ os) s =
    ground (arith, control-settle_all keep_going os (settle keep_going o s))

-- A sibling list that has settled the outcomes `os`, in this order, is left with the first pause
-- among their signals, wherever it came; with no pause among them it is left with the first
-- signal, or none; and it drains exactly when one of them paused or failed in a way that drains.
pub settle_all-control :
    (keep_going : Bool) (os : List StepOutcome)
    → ((settle_all keep_going os no_outcome).control ≡ or_else (first_pause os) (first_control os))
      × ((settle_all keep_going os no_outcome).draining
          ≡ any (λ o. drains keep_going o.step_record || is_paused o.step_record.status) os)
settle_all-control keep_going os =
    (control-settle_all keep_going os no_outcome, draining-settle_all keep_going os no_outcome)
