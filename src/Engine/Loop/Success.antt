-- ===== src/Engine/Loop/Success.antt =====
-- When a loop succeeds (engine/executors/loop.py).
use rayspec_py.Prelude.{ℕ, zero, suc, ◌≡◌, ◌↔◌, ◌⊎◌, inl, inr, refl, true, none, some, arith}
use rayspec_py.Prelude.Result.{Result, ok, err}
use rayspec_py.Schema.{StepStatus}
use rayspec_py.Engine.Settle.{RunControl}
use rayspec_py.Engine.Loop.{
  LoopSpec, continue, World, LoopState, no_iteration, Turn, follow, iteration, iterate, close,
  loop_end, LoopEnd, ended, run_loop,
}
use rayspec_py.Engine.Loop.Course.{
  Clean, UntilHolds, UntilOpen, unstated, unmet, View, on, met, cut, signalled, iteration-View,
}

-- When `left` iterations from `n` on end in a success: the condition is met after a clean
-- iteration, or they run out where that is no failure.
pub data Succeeds (spec : LoopSpec) (w : World) : ℕ → ℕ → Type 0 where
  runs_out : (n : ℕ) → (spec.until ≡ none) ⊎ (spec.on_exhausted ≡ continue) → Succeeds spec w zero n
  converges : (left n : ℕ) → Clean w n → UntilHolds spec w n → Succeeds spec w (suc left) n
  continues :
      (left n : ℕ)
      → Clean w n
      → UntilOpen spec w n
      → Succeeds spec w left (suc n)
      → Succeeds spec w (suc left) n

-- What the tests after the loop make of its state.
record EndsWell (spec : LoopSpec) (s : LoopState) : Type 0 where
  unbroken : s.error ≡ none
  accepted : (spec.until ≡ none) ⊎ (s.converged ≡ some true) ⊎ (spec.on_exhausted ≡ continue)

status-EndsWell :
    (spec : LoopSpec) (s : LoopState)
    → (loop_end spec (close spec s)).status ≡ StepStatus.succeeded
    → EndsWell spec s
unfolding loop_end close
status-EndsWell spec s h = record { unbroken = ground arith; accepted = ground arith }

EndsWell-status :
    (spec : LoopSpec) (s : LoopState)
    → EndsWell spec s
    → (loop_end spec (close spec s)).status ≡ StepStatus.succeeded
unfolding loop_end close
EndsWell-status spec s h = ground arith

abbrev Well : LoopSpec → Result RunControl LoopState → Type 0
Well spec (ok s) = EndsWell spec s
Well spec (err c) = ⊥

open_not_met : (spec : LoopSpec) (w : World) (n : ℕ) → UntilOpen spec w n → ¬ UntilHolds spec w n
open_not_met spec w n (unstated u) h = let e = h.stated in ground arith
open_not_met spec w n (unmet t u v) h = let e = h.stated in let f = h.holds in ground arith

follow-Succeeds :
    (spec : LoopSpec) (w : World) (left n : ℕ) (s : LoopState) (t : Turn)
    (rest : LoopState → Result RunControl LoopState)
    → View spec w n s t
    → (s.error ≡ none) × (s.converged ≡ none)
    → ((s' : LoopState)
        → (s'.error ≡ none) × (s'.converged ≡ none)
        → Well spec (rest s')
        → Succeeds spec w left (suc n))
    → Well spec (follow rest t)
    → Succeeds spec w (suc left) n
follow-Succeeds spec w left n s _ rest (on last c u) f ih h =
    continues left n c u (ih (record s { iterations = n; last = last }) f h)
follow-Succeeds spec w left n s _ rest (met last c u) f ih h = converges left n c u
follow-Succeeds spec w left n s _ rest (cut at last e i k) f ih h =
    let b = h.unbroken in ground arith
follow-Succeeds spec w left n s _ rest (signalled c k) f ih h = elim h [ ]

iterate-Succeeds :
    (spec : LoopSpec) (w : World) (left n : ℕ) (s : LoopState)
    → (s.error ≡ none) × (s.converged ≡ none)
    → Well spec (iterate spec w left n s)
    → Succeeds spec w left n
unfolding iterate
iterate-Succeeds spec w zero n s f h =
    runs_out n
      (elim h.accepted [ inl u ↦ inl u | inr (inl c) ↦ ground arith | inr (inr x) ↦ inr x ])
iterate-Succeeds spec w (suc left) n s f h =
    follow-Succeeds spec w left n s (iteration spec w n s) (iterate spec w left (suc n))
      (iteration-View spec w n s) f (iterate-Succeeds spec w left (suc n)) h

met_follow :
    (spec : LoopSpec) (w : World) (n : ℕ) (s : LoopState) (t : Turn)
    (rest : LoopState → Result RunControl LoopState)
    → View spec w n s t
    → s.error ≡ none
    → Clean w n
    → UntilHolds spec w n
    → Well spec (follow rest t)
met_follow spec w n s _ rest (on last c u) e c' h = absurd (open_not_met spec w n u h)
met_follow spec w n s _ rest (met last c u) e c' h = record {
  unbroken = e;
  accepted = inr (inl refl);
}
met_follow spec w n s _ rest (cut at last x i k) e c' h = absurd (k (c', inr h))
met_follow spec w n s _ rest (signalled c k) e c' h = absurd (k (c', inr h))

open_follow :
    (spec : LoopSpec) (w : World) (n : ℕ) (s : LoopState) (t : Turn)
    (rest : LoopState → Result RunControl LoopState)
    → View spec w n s t
    → (s.error ≡ none) × (s.converged ≡ none)
    → Clean w n
    → UntilOpen spec w n
    → ((s' : LoopState) → (s'.error ≡ none) × (s'.converged ≡ none) → Well spec (rest s'))
    → Well spec (follow rest t)
open_follow spec w n s _ rest (on last c u) f c' o ih =
    ih (record s { iterations = n; last = last }) f
open_follow spec w n s _ rest (met last c u) f c' o ih = absurd (open_not_met spec w n o u)
open_follow spec w n s _ rest (cut at last x i k) f c' o ih = absurd (k (c', inl o))
open_follow spec w n s _ rest (signalled c k) f c' o ih = absurd (k (c', inl o))

Succeeds-iterate :
    (spec : LoopSpec) (w : World) (left n : ℕ) (s : LoopState)
    → (s.error ≡ none) × (s.converged ≡ none)
    → Succeeds spec w left n
    → Well spec (iterate spec w left n s)
unfolding iterate
Succeeds-iterate spec w _ _ s f (runs_out n a) = record {
  unbroken = f.0;
  accepted = elim a [ inl u ↦ inl u | inr x ↦ inr (inr x) ];
}
Succeeds-iterate spec w _ _ s f (converges left n c h) =
    met_follow spec w n s (iteration spec w n s) (iterate spec w left (suc n))
      (iteration-View spec w n s) f.0 c h
Succeeds-iterate spec w _ _ s f (continues left n c u rest) =
    open_follow spec w n s (iteration spec w n s) (iterate spec w left (suc n))
      (iteration-View spec w n s) f c u (λ s' f'. Succeeds-iterate spec w left (suc n) s' f' rest)

abbrev pub EndedWell : Result RunControl LoopEnd → Type 0
EndedWell (ok r) = r.status ≡ StepStatus.succeeded
EndedWell (err c) = ⊥

ended_iff :
    (spec : LoopSpec) (r : Result RunControl LoopState) → EndedWell (ended spec r) ↔ Well spec r
ended_iff spec (ok s) = (status-EndsWell spec s, EndsWell-status spec s)
ended_iff spec (err c) = (λ h. h, λ h. h)

-- A loop returns, and returns a success, exactly when one of its iterations up to the last that
-- is allowed meets `until` and all before it were clean with `until` open, or when all of them
-- were so and the loop has no `until` or tolerates that it is not met.
pub run_loop_iff :
    (spec : LoopSpec) (w : World)
    → EndedWell (run_loop spec w) ↔ Succeeds spec w spec.max_iterations 1
unfolding run_loop
run_loop_iff spec w =
    let (to, from) = ended_iff spec (iterate spec w spec.max_iterations 1 no_iteration) in
    (
      λ h. iterate-Succeeds spec w spec.max_iterations 1 no_iteration (refl, refl) (to h),
      λ h. from (Succeeds-iterate spec w spec.max_iterations 1 no_iteration (refl, refl) h),
    )
