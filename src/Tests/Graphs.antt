-- ===== src/Tests/Graphs.antt =====
-- A diamond of steps, a graph with a cycle, and joins over outcomes.
use rayspec_py.Prelude.{
  ◌≡◌, ◌≢◌, ◌↔◌, ◌⊎◌, inl, inr, refl, String, true, false, none, some, List, [], ◌∷◌, arith,
}
use rayspec_py.Prelude.Result.{ok, Raises}
use rayspec_py.Prelude.Dict.{Dict, get, put}
use rayspec_py.Schema.{StepModel, Kind, JoinPolicy, StepStatus, SkipReason}
use rayspec_py.Engine.Graph.Join.{Outcome, join_decision, classify, classify_all, decide}
use rayspec_py.Engine.Graph.Join.Table.{
  join_decision_table, join_decision_reasons, MayRun, NoFailure,
}
use rayspec_py.Engine.Graph.Acyclic.{
  Mark, black, done, cycle, check_acyclic, visit, visit_needs, from_first,
}
use rayspec_py.Engine.Graph.Acyclic.Sound.{Grounded, check_acyclic-Grounded}
use rayspec_py.Engine.Graph.Acyclic.Cycles.{IsCycle, check_acyclic-IsCycle}
use rayspec_py.Engine.Graph.Acyclic.Fuel.{IsClosed, check_acyclic_total}
use rayspec_py.Engine.Graph.Build.{
  StepGraph, from_steps, index, dedupe, check_needs, add_dependent, link, check, roots_of,
}
use rayspec_py.Engine.Graph.Build.Accepts.{IsGraphOf, from_steps-Justified, from_steps-IsGraphOf}
use rayspec_py.Engine.Graph.Build.Errors.{Justified}

abbrev pub step : String → List String → StepModel
step id needs = record {
  id = id;
  kind = Kind.shell;
  needs = needs;
  join = JoinPolicy.all;
  when = none;
  allow_failure = false;
  always_run = false;
}

abbrev pub steps : List StepModel
steps =
    step "a" [] ∷ step "b" ("a" ∷ []) ∷ step "c" ("a" ∷ "a" ∷ []) ∷ step "d" ("b" ∷ "c" ∷ []) ∷ []

abbrev pub needs : Dict (List String)
needs = ("a", []) ∷ ("b", "a" ∷ []) ∷ ("c", "a" ∷ []) ∷ ("d", "b" ∷ "c" ∷ []) ∷ []

abbrev pub graph : StepGraph
graph = record {
  steps = steps;
  by_id =
      ("a", step "a" [])
      ∷ ("b", step "b" ("a" ∷ []))
      ∷ ("c", step "c" ("a" ∷ "a" ∷ []))
      ∷ ("d", step "d" ("b" ∷ "c" ∷ []))
      ∷ [];
  needs = needs;
  dependents = ("a", "b" ∷ "c" ∷ []) ∷ ("b", "d" ∷ []) ∷ ("c", "d" ∷ []) ∷ ("d", []) ∷ [];
  roots = "a" ∷ [];
}

pub diamond : from_steps steps ≡ ok graph
unfolding from_steps index dedupe check_needs add_dependent link check roots_of check_acyclic visit
    visit_needs get put
diamond = refl

from_steps-IsGraphOf_example : IsGraphOf steps graph
from_steps-IsGraphOf_example = from_steps-IsGraphOf steps graph diamond

abbrev looped : List StepModel
looped = step "a" ("b" ∷ []) ∷ step "b" ("a" ∷ []) ∷ []

from_steps-Justified_example : Raises (Justified looped) (from_steps looped)
from_steps-Justified_example = from_steps-Justified looped

abbrev circle : Dict (List String)
circle = ("a", "b" ∷ []) ∷ ("b", "a" ∷ []) ∷ []

circle_found : check_acyclic circle ≡ cycle ("a" ∷ "b" ∷ "a" ∷ [])
unfolding check_acyclic visit visit_needs from_first get put
circle_found = refl

check_acyclic-IsCycle_example : IsCycle circle ("a" ∷ "b" ∷ "a" ∷ [])
check_acyclic-IsCycle_example = check_acyclic-IsCycle circle ("a" ∷ "b" ∷ "a" ∷ []) circle_found

diamond_marked :
    check_acyclic needs ≡ done (("a", black) ∷ ("b", black) ∷ ("c", black) ∷ ("d", black) ∷ [])
unfolding check_acyclic visit visit_needs get put
diamond_marked = refl

check_acyclic-Grounded_example : Grounded needs "d"
check_acyclic-Grounded_example =
    check_acyclic-Grounded needs (("a", black) ∷ ("b", black) ∷ ("c", black) ∷ ("d", black) ∷ [])
      diamond_marked "d" (inr (inr (inr (inl refl))))

circle-IsClosed : IsClosed circle
unfolding get
circle-IsClosed a ns h n m = ground arith

check_acyclic_total_example :
    ((st : Dict Mark) × (check_acyclic circle ≡ done st))
    ⊎ ((c : List String) × (check_acyclic circle ≡ cycle c))
check_acyclic_total_example = check_acyclic_total circle circle-IsClosed

abbrev outcomes : List Outcome
outcomes =
    record { status = StepStatus.succeeded; tolerated = false }
    ∷ record { status = StepStatus.failed; tolerated = false }
    ∷ []

blocked :
    join_decision JoinPolicy.all outcomes false
    ≡ some (record { run = false; skip_reason = some SkipReason.upstream_failed })
unfolding join_decision classify_all classify decide
blocked = refl

join_decision_table_example : (false ≡ true) ↔ MayRun JoinPolicy.all outcomes false
join_decision_table_example = join_decision_table JoinPolicy.all outcomes false blocked

all_not_always : JoinPolicy.all ≢ JoinPolicy.always
all_not_always h = cc

join_decision_reasons_example :
    ((some SkipReason.upstream_failed ≡ some SkipReason.upstream_failed) ↔ (¬ NoFailure outcomes))
    × ((some SkipReason.upstream_failed ≡ some SkipReason.run_failed)
        ↔ ((false ≡ true) × MayRun JoinPolicy.all outcomes false))
    × ((some SkipReason.upstream_failed ≡ none) ↔ (false ≡ true))
join_decision_reasons_example =
    join_decision_reasons JoinPolicy.all outcomes false all_not_always blocked
