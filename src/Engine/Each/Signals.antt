-- ===== src/Engine/Each/Signals.antt =====
-- Which signal an `each:` step raises (engine/executors/each.py).
use rayspec_py.Prelude.{
  ℕ, suc, ◌≡◌, refl, ◌∙◌, Option, none, some, List, [], ◌∷◌, arith, if◌then◌else◌, or_else, String,
}
use rayspec_py.Prelude.Dict.{Dict}
use rayspec_py.Prelude.Result.{Result, ok, err}
use rayspec_py.Engine.Settle.{RunControl, merge_control, StepOutcome}
use rayspec_py.Engine.Settle.Control.{pauses}
use rayspec_py.Engine.Each.{
  EachSpec, World, sequence, begin, EachState, end_item, end_items, raise_or, run_each,
}

abbrev signal_of : Result RunControl (Dict StepOutcome) → Option RunControl
signal_of (err control) = some control
signal_of (ok outcomes) = none

-- The first signal, and the first pause, in the order in which the items end.
abbrev pub first_signal : World → List ℕ → Option RunControl
first_signal w [] = none
first_signal w (i ∷ order) =
    let rest = first_signal w order in or_else (signal_of (w.run_body i)) rest

abbrev pub first_pause : World → List ℕ → Option RunControl
first_pause w [] = none
first_pause w (i ∷ order) =
    let rest = first_pause w order in
    if pauses (signal_of (w.run_body i)) then signal_of (w.run_body i) else rest

end_item-control :
    (ids : List String) (i : ℕ) (b : Result RunControl (Dict StepOutcome)) (s : EachState)
    → (end_item ids i b s).control ≡ merge_control s.control (signal_of b)
unfolding end_item
end_item-control ids i (err c) s = refl
end_item-control ids i (ok outcomes) s = ground arith

end_items-control :
    (ids : List String) (w : World) (order : List ℕ) (s : EachState)
    → (end_items ids w order s).control ≡ (
        if pauses s.control
        then s.control
        else or_else (first_pause w order) (or_else s.control (first_signal w order)))
unfolding end_items
end_items-control ids w [] s = ground arith
end_items-control ids w (i ∷ order) s = ground (
  arith,
  end_item-control ids i (w.run_body i) s,
  end_items-control ids w order (end_item ids i (w.run_body i) s),
)

raise_or-err :
    (spec : EachSpec) (total : ℕ) (s : EachState) (c : RunControl)
    → s.control ≡ some c
    → raise_or spec total s ≡ err c
raise_or-err spec total s c h = ground arith

-- An `each:` step with items, of which some raise a signal, raises one signal: the first pause
-- among them in the order in which they end, or the first signal when none is a pause.
pub run_each-signal :
    (spec : EachSpec) (w : World) (n : ℕ) (c : RunControl)
    → w.eval_items ≡ sequence (suc n)
    → or_else (first_pause w w.order) (first_signal w w.order) ≡ some c
    → run_each spec w ≡ err c
unfolding run_each
run_each-signal spec w n c e h =
    let t = end_items-control spec.step_ids w w.order (begin (suc n)) ∙ h in
    let r = raise_or-err spec (suc n) (end_items spec.step_ids w w.order (begin (suc n))) c t in
    ground arith
