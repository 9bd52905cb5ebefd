-- ===== src/Engine/Loop/Ends.antt =====
-- How often a loop runs its body (engine/executors/loop.py).
use rayspec_py.Prelude.{
  ℕ, zero, suc, ◌+◌, ◌≤◌, ◌<◌, ◌≡◌, inl, inr, sym, ◌∙◌, subst, ap, arith, le-cases,
}
use rayspec_py.Prelude.Result.{Result, ok, err}
use rayspec_py.Engine.Settle.{RunControl}
use rayspec_py.Engine.Loop.{
  LoopSpec, World, LoopState, no_iteration, Turn, follow, iteration, iterate, close, loop_end,
  LoopEnd, ended, run_loop,
}
use rayspec_py.Engine.Loop.Course.{Clean, UntilOpen, View, on, met, cut, signalled, iteration-View}

-- The iterations that a loop has left behind when it ends after `s`.
record Behind (spec : LoopSpec) (w : World) (n bound : ℕ) (s : LoopState) : Type 0 where
  within : s.iterations < bound
  passed : (k : ℕ) → n ≤ k → k < s.iterations → Clean w k × UntilOpen spec w k

step_Behind :
    (spec : LoopSpec) (w : World) (n bound : ℕ) (s : LoopState)
    → Clean w n
    → UntilOpen spec w n
    → Behind spec w (suc n) bound s
    → Behind spec w n bound s
step_Behind spec w n bound s c u b = record {
  within = b.within;
  passed = λ k lo hi. elim (le-cases n k lo) [
    | inl e ↦ subst (λ j. Clean w j × UntilOpen spec w j) e (c, u)
    | inr l ↦ b.passed k l hi
  ];
}

abbrev Bounded : LoopSpec → World → ℕ → ℕ → Result RunControl LoopState → Type 0
Bounded spec w n bound (ok s) = Behind spec w n bound s
Bounded spec w n bound (err c) = Unit

Bounded-back :
    (spec : LoopSpec) (w : World) (n bound : ℕ) (r : Result RunControl LoopState)
    → Clean w n
    → UntilOpen spec w n
    → Bounded spec w (suc n) bound r
    → Bounded spec w n bound r
Bounded-back spec w n bound (ok s) c u b = step_Behind spec w n bound s c u b
Bounded-back spec w n bound (err e) c u b = tt

follow-Bounded :
    (spec : LoopSpec) (w : World) (n bound : ℕ) (s : LoopState) (t : Turn)
    (rest : LoopState → Result RunControl LoopState)
    → View spec w n s t
    → s.iterations < n
    → n < bound
    → ((s' : LoopState) → s'.iterations < suc n → Bounded spec w (suc n) bound (rest s'))
    → Bounded spec w n bound (follow rest t)
follow-Bounded spec w n bound s _ rest (on last c u) lo hi ih =
    Bounded-back spec w n bound (rest (record s { iterations = n; last = last })) c u
      (ih (record s { iterations = n; last = last }) (omega arith))
follow-Bounded spec w n bound s _ rest (met last c u) lo hi ih = record {
  within = hi;
  passed = λ k a b. ground arith;
}
follow-Bounded spec w n bound s _ rest (cut at last e i f) lo hi ih = record {
  within = ground arith;
  passed = λ k a b. ground arith;
}
follow-Bounded spec w n bound s _ rest (signalled c f) lo hi ih = tt

iterate-Bounded :
    (spec : LoopSpec) (w : World) (left n : ℕ) (s : LoopState)
    → s.iterations < n
    → Bounded spec w n (n + left) (iterate spec w left n s)
unfolding iterate
iterate-Bounded spec w zero n s lo = record { within = omega arith; passed = λ k a b. ground arith }
iterate-Bounded spec w (suc left) n s lo =
    follow-Bounded spec w n (n + suc left) s (iteration spec w n s) (iterate spec w left (suc n))
      (iteration-View spec w n s) lo (omega arith)
      (λ s' lo'.
        subst (λ b. Bounded spec w (suc n) b (iterate spec w left (suc n) s')) (omega arith)
          (iterate-Bounded spec w left (suc n) s' lo'))

loop_end-iterations :
    (spec : LoopSpec) (s : LoopState) → (loop_end spec (close spec s)).iterations ≡ s.iterations
unfolding loop_end close
loop_end-iterations spec s = ground arith

ended-Bounded :
    (spec : LoopSpec) (w : World) (s : Result RunControl LoopState) (r : LoopEnd)
    → ended spec s ≡ ok r
    → Bounded spec w 1 (1 + spec.max_iterations) s
    → (r.iterations ≤ spec.max_iterations)
      × ((k : ℕ) → 1 ≤ k → k < r.iterations → Clean w k × UntilOpen spec w k)
ended-Bounded spec w (err c) r h b = ground arith
ended-Bounded spec w (ok s) r h b =
    let e : loop_end spec (close spec s) ≡ r = ground arith in
    let i : s.iterations ≡ r.iterations =
      sym (loop_end-iterations spec s) ∙ ap (λ x. x.iterations) e in
    let within = b.within in (omega arith, λ k lo hi. b.passed k lo (omega arith))

-- What a loop that ends says of its iterations: there are at most as many as the step allows, and
-- after each but the last the body had ended without a failing step, no cap and no cancel was in
-- the way of it, and `until`, if there is one, did not hold.
pub run_loop-Bounded :
    (spec : LoopSpec) (w : World) (r : LoopEnd)
    → run_loop spec w ≡ ok r
    → (r.iterations ≤ spec.max_iterations)
      × ((k : ℕ) → 1 ≤ k → k < r.iterations → Clean w k × UntilOpen spec w k)
unfolding run_loop
run_loop-Bounded spec w r h =
    ended-Bounded spec w (iterate spec w spec.max_iterations 1 no_iteration) r h
      (iterate-Bounded spec w spec.max_iterations 1 no_iteration (omega arith))
