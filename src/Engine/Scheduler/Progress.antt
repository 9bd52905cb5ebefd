-- ===== src/Engine/Scheduler/Progress.antt =====
-- The loop of `decide_and_launch` ends, and leaves only steps that wait for a need
-- (engine/scheduler.py).
use rayspec_py.Prelude.{
  ℕ, zero, suc, ◌≤◌, ◌<◌, String, ◌≡◌, ◌⊎◌, inl, inr, refl, sym, subst, ◌∙◌, All-map, Bool, true,
  false, Option, none, some, List, [], ◌∷◌, length, All, In, arith, eq_iff, Bool-cases,
}
use rayspec_py.Schema.{StepModel}
use rayspec_py.Engine.Graph.Build.{StepGraph}
use rayspec_py.Engine.Settle.{decidable, Siblings}
use rayspec_py.Engine.Scheduler.{
  Moment, GraphState, needs_of, Decision, stays, ends, launches, raises, decide, apply, end_step,
  visit, pass, decide_all, find, ids, without, progresses,
}
use rayspec_py.Engine.Scheduler.Decided.{decide_never_raises, decide-stays}
use rayspec_py.Engine.Scheduler.Pending.{find-id, find-none, without-length, without-shorter}

-- A pass never lets the pending steps grow, and a pass that progressed has decided one of them.
apply-length :
    (kg : Bool) (step : StepModel) (st : GraphState) (d : Decision)
    → length (apply kg step st d).pending ≤ length st.pending
unfolding apply end_step
apply-length kg step st stays = omega arith
apply-length kg step st (ends o) = without-length step.id st.pending
apply-length kg step st launches = without-length step.id st.pending
apply-length kg step st raises = omega arith

visit-length :
    (m : Moment) (g : StepGraph) (o : Option StepModel) (st : GraphState)
    → length (visit m g o st).1.pending ≤ length st.pending
unfolding visit
visit-length m g none st = omega arith
visit-length m g (some step) st = apply-length m.keep_going step st (decide m g st.siblings step)

pass-length :
    (m : String → Moment) (g : StepGraph) (sids : List String) (st : GraphState)
    → length (pass m g sids st).1.pending ≤ length st.pending
unfolding pass
pass-length m g [] st = omega arith
pass-length m g (sid ∷ sids) st =
    let a = visit-length (m sid) g (find sid st.pending) st in
    let b = pass-length m g sids (visit (m sid) g (find sid st.pending) st).1 in omega arith

apply-shorter :
    (kg : Bool) (step : StepModel) (st : GraphState) (d : Decision)
    → find step.id st.pending ≡ some step
    → progresses d ≡ true
    → length (apply kg step st d).pending < length st.pending
unfolding apply end_step
apply-shorter kg step st stays f p = ground arith
apply-shorter kg step st (ends o) f p = without-shorter step.id st.pending step f
apply-shorter kg step st launches f p = ground arith
apply-shorter kg step st raises f p = ground arith

visit-shorter :
    (m : Moment) (g : StepGraph) (sid : String) (o : Option StepModel) (st : GraphState)
    → find sid st.pending ≡ o
    → (visit m g o st).0 ≡ true
    → length (visit m g o st).1.pending < length st.pending
unfolding visit
visit-shorter m g sid none st f p = ground arith
visit-shorter m g sid (some step) st f p =
    let e = find-id sid st.pending step f in
    let f' = subst (λ k. find k st.pending ≡ some step) (sym e) f in
    apply-shorter m.keep_going step st (decide m g st.siblings step) f' p

pass-shorter :
    (m : String → Moment) (g : StepGraph) (sids : List String) (st : GraphState)
    → (pass m g sids st).0 ≡ true
    → length (pass m g sids st).1.pending < length st.pending
unfolding pass
pass-shorter m g [] st p = ground arith
pass-shorter m g (sid ∷ sids) st p =
    let a = visit-length (m sid) g (find sid st.pending) st in
    let b = visit-shorter (m sid) g sid (find sid st.pending) st refl in
    let c = pass-length m g sids (visit (m sid) g (find sid st.pending) st).1 in
    let d = pass-shorter m g sids (visit (m sid) g (find sid st.pending) st).1 in ground arith

-- A step of the list that cannot be decided under the outcomes so far.
abbrev pub Waits : StepGraph → Siblings → StepModel → Type 0
Waits g s step = decidable s.outcomes (needs_of g step) ≡ false

-- A step that waits, or that a pass has yet to visit.
abbrev WaitsOr : StepGraph → Siblings → List String → StepModel → Type 0
WaitsOr g s sids step = In step.id sids ⊎ Waits g s step

drop_missing :
    (g : StepGraph) (s : Siblings) (sid : String) (sids : List String) (steps : List StepModel)
    → (¬ In sid (ids steps))
    → All (WaitsOr g s (sid ∷ sids)) steps
    → All (WaitsOr g s sids) steps
drop_missing g s sid sids [] n h = tt
drop_missing g s sid sids (x ∷ steps) n h = ground (arith, drop_missing g s sid sids steps)

same_needs :
    (g : StepGraph) (s : Siblings) (step x : StepModel)
    → step.id ≡ x.id
    → Waits g s step
    → Waits g s x
same_needs g s step x e h = ground arith

drop_waiting :
    (g : StepGraph) (s : Siblings) (step : StepModel) (sids : List String) (steps : List StepModel)
    → Waits g s step
    → All (WaitsOr g s (step.id ∷ sids)) steps
    → All (WaitsOr g s sids) steps
drop_waiting g s step sids [] w h = tt
drop_waiting g s step sids (x ∷ steps) w h = (
  elim h.0 [
    | inl (inl e) ↦ inr (same_needs g s step x e w)
    | inl (inr m) ↦ inl m
    | inr w' ↦ inr w'
  ],
  drop_waiting g s step sids steps w h.1,
)

drop_without :
    (g : StepGraph) (s : Siblings) (sid : String) (sids : List String) (steps : List StepModel)
    → All (WaitsOr g s (sid ∷ sids)) steps
    → All (WaitsOr g s sids) (without sid steps)
drop_without g s sid sids [] h = tt
drop_without g s sid sids (x ∷ steps) h =
    ground (arith, eq_iff x.id sid, drop_without g s sid sids steps)

-- What a visit that makes no progress does: the outcomes are as before, and the pending steps that
-- are left either wait or are still to be visited.
abbrev Quiet : StepGraph → List String → GraphState → GraphState → Type 0
Quiet g sids st next = (next.siblings ≡ st.siblings) × All (WaitsOr g st.siblings sids) next.pending

apply-Quiet :
    (m : Moment) (g : StepGraph) (sids : List String) (step : StepModel) (st : GraphState)
    (d : Decision)
    → decide m g st.siblings step ≡ d
    → progresses d ≡ false
    → All (WaitsOr g st.siblings (step.id ∷ sids)) st.pending
    → Quiet g sids st (apply m.keep_going step st d)
unfolding apply
apply-Quiet m g sids step st stays e p h =
    (refl, drop_waiting g st.siblings step sids st.pending (decide-stays m g st.siblings step e) h)
apply-Quiet m g sids step st (ends o) e p h = ground arith
apply-Quiet m g sids step st launches e p h =
    (refl, drop_without g st.siblings step.id sids st.pending h)
apply-Quiet m g sids step st raises e p h = absurd (decide_never_raises m g st.siblings step e)

visit-Quiet :
    (m : Moment) (g : StepGraph) (sid : String) (sids : List String) (o : Option StepModel)
    (st : GraphState)
    → find sid st.pending ≡ o
    → (visit m g o st).0 ≡ false
    → All (WaitsOr g st.siblings (sid ∷ sids)) st.pending
    → Quiet g sids st (visit m g o st).1
unfolding visit
visit-Quiet m g sid sids none st f p h =
    (refl, drop_missing g st.siblings sid sids st.pending (find-none sid st.pending f) h)
visit-Quiet m g sid sids (some step) st f p h =
    let e = find-id sid st.pending step f in
    let h' = subst (λ k. All (WaitsOr g st.siblings (k ∷ sids)) st.pending) (sym e) h in
    apply-Quiet m g sids step st (decide m g st.siblings step) refl p h'

pass-Quiet :
    (m : String → Moment) (g : StepGraph) (sids : List String) (st : GraphState)
    → (pass m g sids st).0 ≡ false
    → All (WaitsOr g st.siblings sids) st.pending
    → Quiet g [] st (pass m g sids st).1
unfolding pass
pass-Quiet m g [] st p h = (refl, h)
pass-Quiet m g (sid ∷ sids) st p h =
    let next = (visit (m sid) g (find sid st.pending) st).1 in
    let a = visit-Quiet (m sid) g sid sids (find sid st.pending) st refl (ground arith) h in
    let h' = subst (λ s. All (WaitsOr g s sids) next.pending) (sym a.0) a.1 in
    let b = pass-Quiet m g sids next (ground arith) h' in
    (b.0 ∙ a.0, subst (λ s. All (WaitsOr g s []) (pass m g sids next).1.pending) a.0 b.1)

snapshot :
    (g : StepGraph) (s : Siblings) (steps more : List StepModel)
    → ((k : String) → In k (ids steps) → In k (ids more))
    → All (WaitsOr g s (ids more)) steps
snapshot g s [] more f = tt
snapshot g s (x ∷ steps) more f =
    (inl (f x.id (inl refl)), snapshot g s steps more (λ k i. f k (inr i)))

settled_pass :
    (m : String → Moment) (g : StepGraph) (st : GraphState)
    → (pass m g (ids st.pending) st).0 ≡ false
    → All
        (Waits g (pass m g (ids st.pending) st).1.siblings)
        (pass m g (ids st.pending) st).1.pending
settled_pass m g st p =
    let (e, h) =
      pass-Quiet m g (ids st.pending) st p
        (snapshot g st.siblings st.pending st.pending (λ k i. i)) in
    subst (λ s. All (Waits g s) (pass m g (ids st.pending) st).1.pending) (sym e)
      (All-map (λ x w. elim w [ inl none_left ↦ elim none_left [ ] | inr w' ↦ w' ]) _ h)

-- With more fuel than there are pending steps, deciding a list ends with every step that is still
-- pending waiting for a need: none of those that are left could be decided under the outcomes
-- that the list then has.
pub decide_all-Waits :
    (m : ℕ → String → Moment) (g : StepGraph) (fuel : ℕ) (st : GraphState)
    → length st.pending < fuel
    → All (Waits g (decide_all m g fuel st).siblings) (decide_all m g fuel st).pending
unfolding decide_all
decide_all-Waits m g zero st h = ground arith
decide_all-Waits m g (suc fuel) st h = elim (Bool-cases (pass (m fuel) g (ids st.pending) st).0) [
  | inl p ↦ rw p (
      decide_all-Waits m g fuel (pass (m fuel) g (ids st.pending) st).1
        (let a = pass-shorter (m fuel) g (ids st.pending) st p in omega arith))
  | inr p ↦ rw p (settled_pass (m fuel) g st p)
]
