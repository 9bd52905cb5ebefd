-- ===== src/Engine/Graph/Build/Accepts.antt =====
-- What `from_steps` accepts, and what its errors say.
use rayspec_py.Prelude.{
  String, ◌≡◌, refl, subst, inl, inr, true, some, List, [], In, All, All-map, Any, is_some, arith,
}
use rayspec_py.Prelude.Dict.{Dict, get, keys, get-In-keys}
use rayspec_py.Prelude.Result.{ok, Raises, Raises-bind, Returns, Returns-bind}
use rayspec_py.Schema.{StepModel}
use rayspec_py.Engine.Graph.Acyclic.{
  Mark, Visit, done, cycle, key_error, out_of_fuel, check_acyclic,
}
use rayspec_py.Engine.Graph.Acyclic.Sound.{Grounded, check_acyclic-Grounded}
use rayspec_py.Engine.Graph.Build.{StepGraph, index, dedupe, link, check, from_steps}
use rayspec_py.Engine.Graph.Build.Linked.{
  users, free, index-by_id, link-dependents, no_dependents-nil, roots_of-free,
}
use rayspec_py.Engine.Graph.Build.Checked.{Ids, Unique, index-Ids, start, built}
use rayspec_py.Engine.Graph.Build.Errors.{
  Justified, IndexError, Raises-map, index-Raises, LinkError, link-Raises, Justified-index,
  Justified-link, check-Justified, link-FromSteps,
}

-- Every error that `from_steps` raises is right: two steps share the id that it reports, the step
-- that it names needs itself or what it names and no step of the list has the id of, or each step
-- of the chain that it reports needs the next one and the chain ends where it starts. It raises
-- no KeyError, and its search always ends.
pub from_steps-Justified : (steps : List StepModel) → Raises (Justified steps) (from_steps steps)
unfolding from_steps
from_steps-Justified steps =
    Raises-bind (Justified steps) (index steps []) _
      (Raises-map (IndexError [] steps) (Justified steps) _ (Justified-index steps)
        (index-Raises steps []))
      (λ by_id hi.
        Raises-bind (Justified steps) (link by_id steps (start by_id)) _
          (Raises-map (LinkError by_id steps) (Justified steps) _ (Justified-link steps by_id hi)
            (link-Raises by_id steps (start by_id)))
          (λ l hl.
            Raises-bind (Justified steps) (check (check_acyclic l.needs)) _
              (check-Justified steps l (built steps by_id l hi hl)
                (link-FromSteps steps by_id l hl))
              (λ _ _. tt)))

-- A graph that `from_steps` returns.
pub record IsGraphOf (steps : List StepModel) (g : StepGraph) : Type 0 where
  pub same : g.steps ≡ steps
  pub unique : Unique steps
  pub recorded : All (λ s. get g.needs s.id ≡ some (dedupe [] s.needs)) steps
  pub known :
      (a : String) (ns : List String)
      → get g.needs a ≡ some ns
      → (n : String) → In n ns
      → Ids steps n
  pub grounded : All (λ s. Grounded g.needs s.id) steps
  pub only :
      (a : String) (ns : List String)
      → get g.needs a ≡ some ns
      → Any (λ s. (s.id ≡ a) × (dedupe [] s.needs ≡ ns)) steps
  pub indexed : All (λ s. get g.by_id s.id ≡ some s) steps
  pub indexed_only : (a : String) → is_some (get g.by_id a) ≡ true → Ids steps a
  pub dependents : All (λ s. get g.dependents s.id ≡ some (users s.id steps)) steps
  pub roots : g.roots ≡ free steps

check-ok : (r : Visit) {u : Unit {0}} → check r ≡ ok u → (st : Dict Mark) × (r ≡ done st)
unfolding check
check-ok (done st) h = (st, refl)
check-ok (cycle c) h = cc
check-ok (key_error k) h = cc
check-ok out_of_fuel h = cc

index-Only :
    (steps : List StepModel) (by_id : Dict StepModel)
    → index steps [] ≡ ok by_id
    → (a : String) → is_some (get by_id a) ≡ true
    → Ids steps a
index-Only steps by_id hi a h = elim (index-Ids steps [] by_id hi a h) [
  | inl old ↦ unfold get in ground arith
  | inr new ↦ new
]

from_steps-Returns : (steps : List StepModel) → Returns (IsGraphOf steps) (from_steps steps)
unfolding from_steps
from_steps-Returns steps = Returns-bind (IsGraphOf steps) (index steps []) _ λ by_id hi.
    Returns-bind (IsGraphOf steps) (link by_id steps (start by_id)) _ λ l hl.
      Returns-bind (IsGraphOf steps) (check (check_acyclic l.needs)) _ λ u hc.
        let (st, hd) = check-ok (check_acyclic l.needs) hc in
        let b = built steps by_id l hi hl in
        record {
          same = refl;
          unique = b.unique;
          recorded = b.recorded;
          known = b.known;
          grounded =
              All-map
                (λ s e. check_acyclic-Grounded l.needs st hd s.id (get-In-keys l.needs s.id _ e))
                steps b.recorded;
          only = link-FromSteps steps by_id l hl;
          indexed = index-by_id steps [] by_id hi b.unique;
          indexed_only = index-Only steps by_id hi;
          dependents =
              All-map
                (λ s e.
                  link-dependents by_id steps (start by_id) l s.id [] hl
                    (no_dependents-nil s.id (keys by_id) (get-In-keys by_id s.id s e)))
                steps (index-by_id steps [] by_id hi b.unique);
          roots = roots_of-free l.needs steps b.recorded;
        }

-- A graph that `from_steps` returns has the given steps, whose ids are unique. Under the id of each
-- step stand the step, its needs, each once, and the ids of the steps that need it, in the order of
-- the list; no other id has a step or needs. The needs are all steps of the list, every chain of
-- them ends, and the roots are the ids of the steps without needs, in the order of the list.
pub from_steps-IsGraphOf :
    (steps : List StepModel) (g : StepGraph) → from_steps steps ≡ ok g → IsGraphOf steps g
from_steps-IsGraphOf steps g h = subst (Returns (IsGraphOf steps)) h (from_steps-Returns steps)
