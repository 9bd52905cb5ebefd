-- ===== src/Engine/Scheduler/Complete.antt =====
-- A sibling list is never stuck: what it leaves pending waits for a step that runs or has paused
-- (engine/scheduler.py).
use rayspec_py.Prelude.{
  ℕ, String, ◌≡◌, ap, subst, inl, inr, Bool-cases, Option-cases, some, ◌<◌, length, suc, true,
  false, none, List, [], ◌∷◌, All, In, arith, str_eq, eq_iff, refl,
}
use rayspec_py.Prelude.Result.{ok}
use rayspec_py.Prelude.Dict.{Dict, get}
use rayspec_py.Schema.{is_terminal, StepModel}
use rayspec_py.Engine.Graph.Build.{StepGraph, from_steps}
use rayspec_py.Engine.Graph.Acyclic.Sound.{Grounded, ground_all}
use rayspec_py.Engine.Graph.Build.Checked.{Ids}
use rayspec_py.Engine.Graph.Build.Accepts.{from_steps-IsGraphOf}
use rayspec_py.Engine.Settle.{StepOutcome, decidable}
use rayspec_py.Engine.Scheduler.{Moment, GraphState, needs_named, decide_all}
use rayspec_py.Engine.Scheduler.Pending.{count}
use rayspec_py.Engine.Scheduler.Progress.{Waits, decide_all-Waits}
use rayspec_py.Engine.Scheduler.Rounds.{OwnIds}
use rayspec_py.Engine.Scheduler.Reach.{Reach, then, decides, Reach-places}

Ids-count : (k : String) (steps : List StepModel) → Ids steps k → 0 < count k steps
Ids-count k [] i = elim i [ ]
Ids-count k (s ∷ steps) i = ground (arith, eq_iff s.id k, Ids-count k steps)

-- Every outcome of the list is terminal: none of them paused.
abbrev pub AllTerminal : GraphState → Type 0
AllTerminal st =
    (k : String) (o : StepOutcome)
    → get st.siblings.outcomes k ≡ some o
    → is_terminal o.step_record.status ≡ true

-- A need that keeps a step waiting has no outcome yet.
missing_need :
    (outcomes : Dict StepOutcome) (needs : List String)
    → ((k : String) (o : StepOutcome)
        → get outcomes k ≡ some o
        → is_terminal o.step_record.status ≡ true)
    → decidable outcomes needs ≡ false
    → (n : String) × In n needs × (get outcomes n ≡ none)
unfolding decidable
missing_need outcomes [] t h = ground arith
missing_need outcomes (n ∷ needs) t h = elim (Option-cases (get outcomes n)) [
  | inl absent ↦ (n, inl refl, absent)
  | inr (o, found) ↦
      let terminal = t n o found in
      let (m, i, e) = missing_need outcomes needs t (ground arith) in (m, inr i, e)
]

Waits-count :
    (g : StepGraph) (st : GraphState) (k : String) (steps : List StepModel)
    → All (Waits g st.siblings) steps
    → 0 < count k steps
    → decidable st.siblings.outcomes (needs_named g k) ≡ false
Waits-count g st k [] w c = ground arith
Waits-count g st k (s ∷ steps) w c = elim (Bool-cases (str_eq s.id k)) [
  | inl e ↦
      let (to, from) = eq_iff s.id k in
      subst (λ j. decidable st.siblings.outcomes (needs_named g j) ≡ false) (to e) w.0
  | inr n ↦ Waits-count g st k steps w.1 (ground arith)
]

-- Following the needs of a step that waits for ever.
endless :
    (steps : List StepModel) (g : StepGraph) (st : GraphState) (k : String)
    → from_steps steps ≡ ok g
    → Reach g st
    → st.running ≡ []
    → AllTerminal st
    → All (Waits g st.siblings) st.pending
    → Grounded g.needs k
    → ¬ (0 < count k st.pending)
endless steps g st k b r idle t w (ground_all sid ns e below) c =
    let h = from_steps-IsGraphOf steps g b in
    let waits = Waits-count g st k st.pending w c in
    let waits' : decidable st.siblings.outcomes ns ≡ false = ground arith in
    let (n, i, absent) = missing_need st.siblings.outcomes ns t waits' in
    let step = Ids-count n steps (h.known k ns e n i) in
    let placed = (Reach-places steps g st n b r).0 in
    endless steps g st n b r idle t w (below n i) (ground (arith, ap (count n) idle))

nothing_pending :
    (pending : List StepModel) → ((k : String) → ¬ (0 < count k pending)) → pending ≡ []
nothing_pending [] f = refl
nothing_pending (s ∷ pending) f =
    absurd (f s.id (let (to, from) = eq_iff s.id s.id in let same = from refl in ground arith))

count-Grounded :
    (needs : Dict (List String)) (k : String) (steps : List StepModel)
    → All (λ s. Grounded needs s.id) steps
    → 0 < count k steps
    → Grounded needs k
count-Grounded needs k [] a c = ground arith
count-Grounded needs k (s ∷ steps) a c = elim (Bool-cases (str_eq s.id k)) [
  | inl e ↦ let (to, from) = eq_iff s.id k in subst (Grounded needs) (to e) a.0
  | inr n ↦ count-Grounded needs k steps a.1 (ground arith)
]

-- On a graph that was built, at every point that a run of its list reaches, and whatever the
-- moments of the decisions are, if their records of the previous run stand under their own ids: when a round of decisions leaves
-- nothing running and no outcome that is not terminal, then it leaves no step pending.
pub Reach-no_deadlock :
    (steps : List StepModel) (g : StepGraph) (st : GraphState) (m : ℕ → String → Moment)
    → from_steps steps ≡ ok g
    → Reach g st
    → ((n : ℕ) (sid : String) → OwnIds (m n sid))
    → (decide_all m g (suc (length st.pending)) st).running ≡ []
    → AllTerminal (decide_all m g (suc (length st.pending)) st)
    → (decide_all m g (suc (length st.pending)) st).pending ≡ []
Reach-no_deadlock steps g st m b r own idle t =
    let next = decide_all m g (suc (length st.pending)) st in
    let r' = then r (decides m (suc (length st.pending)) own) in
    let w = decide_all-Waits m g (suc (length st.pending)) st (omega arith) in
    nothing_pending next.pending (λ k c.
      let placed = (Reach-places steps g next k b r').0 in
      let h = from_steps-IsGraphOf steps g b in
      endless steps g next k b r' idle t w (count-Grounded g.needs k steps h.grounded (omega arith))
        c)
