-- ===== src/Engine/Graph/Build.antt =====
-- engine/graph.py: `StepGraph.from_steps`
pub mod Checked
pub mod Linked
pub mod Errors
pub mod Accepts
use rayspec_py.Prelude.{
  String, not, Option, none, some, List, [], ◌∷◌, ◌++◌, str_eq, elem, if◌then◌else◌, is_some,
}
use rayspec_py.Prelude.Dict.{Dict, get, put, keys}
use rayspec_py.Prelude.Result.{Result, ok, err, require, ◌>>=◌, ◌>>◌}
use rayspec_py.Schema.{StepModel}
use rayspec_py.Engine.Graph.Acyclic.{Visit, done, cycle, key_error, out_of_fuel, check_acyclic}

-- GraphError, by its message; `key` is a KeyError and `fuel` the model's own end, and neither
-- happens.
pub data GraphError : Type 0 where
  duplicate_id : String → GraphError
  unknown_need self_need : String → String → GraphError
  needs_cycle : List String → GraphError
  key : String → GraphError
  fuel : GraphError

pub record StepGraph : Type 0 where
  pub steps : List StepModel
  pub by_id : Dict StepModel
  pub needs : Dict (List String)
  pub dependents : Dict (List String)
  pub roots : List String

-- the first loop
unfoldable pub index : List StepModel → Dict StepModel → Result GraphError (Dict StepModel)
index [] by_id = ok by_id
index (step ∷ steps) by_id =
    let rest = index steps (put by_id step.id step) in
    if is_some (get by_id step.id) then err (duplicate_id step.id) else rest

-- tuple(dict.fromkeys(needs))
unfoldable pub dedupe : List String → List String → List String
dedupe seen [] = []
dedupe seen (x ∷ xs) =
    let old = dedupe seen xs in
    let new = x ∷ dedupe (x ∷ seen) xs in if elem x seen then old else new

-- the inner loop over `step.needs`
unfoldable pub check_needs : Dict StepModel → String → List String → Result GraphError (Unit {0})
check_needs by_id sid [] = ok tt
check_needs by_id sid (need ∷ needs) = do
  require (is_some (get by_id need)) (unknown_need sid need)
  require (not (str_eq need sid)) (self_need sid need)
  check_needs by_id sid needs

abbrev pub or_empty : Option (List String) → List String
or_empty none = []
or_empty (some l) = l

-- for need in needs[step.id]: dependents[need].append(step.id)
unfoldable pub add_dependent : String → List String → Dict (List String) → Dict (List String)
add_dependent sid [] dependents = dependents
add_dependent sid (need ∷ needs) dependents =
    add_dependent sid needs (put dependents need (or_empty (get dependents need) ++ sid ∷ []))

pub record Links : Type 0 where
  pub needs : Dict (List String)
  pub dependents : Dict (List String)

-- the second loop
unfoldable pub link : Dict StepModel → List StepModel → Links → Result GraphError Links
link by_id [] l = ok l
link by_id (step ∷ steps) l = do
  check_needs by_id step.id step.needs
  link by_id steps (record {
    needs = put l.needs step.id (dedupe [] step.needs);
    dependents = add_dependent step.id (dedupe [] step.needs) l.dependents;
  })

-- {sid: [] for sid in by_id}
abbrev no_dependents : List String → Dict (List String)
no_dependents [] = []
no_dependents (k ∷ ks) = (k, []) ∷ no_dependents ks

unfoldable pub check : Visit → Result GraphError (Unit {0})
check (done st) = ok tt
check (cycle c) = err (needs_cycle c)
check (key_error k) = err (key k)
check out_of_fuel = err fuel

-- tuple(s.id for s in steps if not needs[s.id])
unfoldable pub roots_of : Dict (List String) → List StepModel → List String
roots_of needs [] = []
roots_of needs (step ∷ steps) =
    let rest = roots_of needs steps in
    elim (or_empty (get needs step.id)) [ [] ↦ step.id ∷ rest | _ ∷ _ ↦ rest ]

unfoldable pub from_steps : List StepModel → Result GraphError StepGraph
from_steps steps = do
  by_id ← index steps []
  l ← link by_id steps (record { needs = []; dependents = no_dependents (keys by_id) })
  check (check_acyclic l.needs)
  ok (record {
    steps = steps;
    by_id = by_id;
    needs = l.needs;
    dependents = l.dependents;
    roots = roots_of l.needs steps;
  })
