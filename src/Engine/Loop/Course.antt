-- ===== src/Engine/Loop/Course.antt =====
-- What one pass of a loop does, and what it says of the iteration (engine/executors/loop.py).
use rayspec_py.Prelude.{
  ℕ, ◌≡◌, ◌⊎◌, inl, inr, refl, String, Bool, true, false, Option, none, some, arith, if◌then◌else◌,
}
use rayspec_py.Prelude.Dict.{Dict}
use rayspec_py.Prelude.Result.{Result, ok, err}
use rayspec_py.Engine.Settle.{RunControl, StepOutcome}
use rayspec_py.Engine.Body.{failed_body_step}
use rayspec_py.Engine.Loop.{
  LoopSpec, World, LoopError, budget, cancelled, until, body, LoopState, Turn, goes_on, breaks,
  signals, on_until, unless_failed, check_until, after_body, iteration,
}

-- Nothing is in the way of iteration `n`: no cap, no cancel, a body that ends, with no step that
-- fails the composite.
pub record Clean (w : World) (n : ℕ) : Type 0 where
  pub uncapped : w.budget_exceeded n ≡ false
  pub uncancelled : w.check_cancelled n ≡ false
  pub outcomes : Dict StepOutcome
  pub ran : w.run_body n ≡ ok outcomes
  pub unfailed : failed_body_step outcomes ≡ none

-- `until` is there and holds after iteration `n`; it is not there, or does not hold.
pub record UntilHolds (spec : LoopSpec) (w : World) (n : ℕ) : Type 0 where
  pub condition : String
  pub stated : spec.until ≡ some condition
  pub holds : w.eval_until n condition ≡ some true

pub data UntilOpen (spec : LoopSpec) (w : World) (n : ℕ) : Type 0 where
  unstated : spec.until ≡ none → UntilOpen spec w n
  unmet :
      (condition : String)
      → spec.until ≡ some condition
      → w.eval_until n condition ≡ some false
      → UntilOpen spec w n

-- An iteration that a loop gets through.
abbrev pub Fine : LoopSpec → World → ℕ → Type 0
Fine spec w n = Clean w n × (UntilOpen spec w n ⊎ UntilHolds spec w n)

pub data View (spec : LoopSpec) (w : World) (n : ℕ) (s : LoopState) : Turn → Type 0 where
  on :
      (last : Dict StepOutcome)
      → Clean w n
      → UntilOpen spec w n
      → View spec w n s (goes_on (record s { iterations = n; last = last }))
  met :
      (last : Dict StepOutcome)
      → Clean w n
      → UntilHolds spec w n
      → View spec w n s (breaks (record s { iterations = n; last = last; converged = some true }))
  cut :
      (at : ℕ) (last : Dict StepOutcome) (e : LoopError)
      → (at ≡ s.iterations) ⊎ (at ≡ n)
      → (¬ Fine spec w n)
      → View spec w n s (breaks (record s { iterations = at; last = last; error = some e }))
  signalled : (c : RunControl) → (¬ Fine spec w n) → View spec w n s (signals c)

value-View :
    (spec : LoopSpec) (w : World) (n : ℕ) (s : LoopState) (last : Dict StepOutcome) (t : String)
    (v : Option Bool)
    → spec.until ≡ some t
    → w.eval_until n t ≡ v
    → Clean w n
    → View spec w n s (on_until (record s { iterations = n; last = last }) v)
value-View spec w n s last t none e ev c = cut n last until (inr refl) (λ f. elim f.1 [
  | inl (unstated u) ↦ ground arith
  | inl (unmet t' u v) ↦ ground arith
  | inr h ↦ let u = h.stated in let v = h.holds in ground arith
])
value-View spec w n s last t (some true) e ev c =
    met last c (record { condition = t; stated = e; holds = ev })
value-View spec w n s last t (some false) e ev c = on last c (unmet t e ev)

until-View :
    (spec : LoopSpec) (w : World) (n : ℕ) (s : LoopState) (last : Dict StepOutcome)
    (u : Option String)
    → spec.until ≡ u
    → Clean w n
    → View spec w n s (check_until w n u (record s { iterations = n; last = last }))
until-View spec w n s last none e c = on last c (unstated e)
until-View spec w n s last (some t) e c = value-View spec w n s last t _ e refl c

outcomes-View :
    (spec : LoopSpec) (w : World) (n : ℕ) (s : LoopState) (outcomes : Dict StepOutcome)
    (o : Option StepOutcome)
    → w.budget_exceeded n ≡ false
    → w.check_cancelled n ≡ false
    → w.run_body n ≡ ok outcomes
    → failed_body_step outcomes ≡ o
    → View spec w n s (unless_failed spec w n (record s { iterations = n; last = outcomes }) o)
outcomes-View spec w n s outcomes (some o) b k r e =
    cut n outcomes (body o) (inr refl)
      (λ f. let r' = f.0.ran in let u = f.0.unfailed in ground arith)
outcomes-View spec w n s outcomes none b k r e =
    until-View spec w n s outcomes spec.until refl
      (record { uncapped = b; uncancelled = k; outcomes = outcomes; ran = r; unfailed = e })

body-View :
    (spec : LoopSpec) (w : World) (n : ℕ) (s : LoopState) (r : Result RunControl (Dict StepOutcome))
    → w.budget_exceeded n ≡ false
    → w.check_cancelled n ≡ false
    → w.run_body n ≡ r
    → View spec w n s (after_body spec w n s r)
body-View spec w n s (err c) b k e = signalled c (λ f. let r = f.0.ran in ground arith)
body-View spec w n s (ok outcomes) b k e = outcomes-View spec w n s outcomes _ b k e refl

tests-View :
    (spec : LoopSpec) (w : World) (n : ℕ) (s : LoopState) (b k : Bool)
    → w.budget_exceeded n ≡ b
    → w.check_cancelled n ≡ k
    → View spec w n s (
        if b
        then breaks (record s { error = some budget })
        else if k
        then breaks (record s { error = some cancelled })
        else after_body spec w n s (w.run_body n))
tests-View spec w n s true k eb ek =
    cut s.iterations s.last budget (inl refl) (λ f. let u = f.0.uncapped in ground arith)
tests-View spec w n s false true eb ek =
    cut s.iterations s.last cancelled (inl refl) (λ f. let u = f.0.uncancelled in ground arith)
tests-View spec w n s false false eb ek = body-View spec w n s _ eb ek refl

pub iteration-View :
    (spec : LoopSpec) (w : World) (n : ℕ) (s : LoopState) → View spec w n s (iteration spec w n s)
unfolding iteration
iteration-View spec w n s = tests-View spec w n s _ _ refl refl
