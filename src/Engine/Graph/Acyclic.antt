-- ===== src/Engine/Graph/Acyclic.antt =====
-- engine/graph.py: `_check_acyclic`, the depth-first search for a cycle of `needs`
pub mod Sound
pub mod Cycles
pub mod Fuel
use rayspec_py.Prelude.{
  ℕ, zero, suc, String, Option, none, some, List, [], ◌∷◌, ◌++◌, str_eq, if◌then◌else◌, length,
}
use rayspec_py.Prelude.Dict.{Dict, get, put, keys}

-- The values of `state`: a step without an entry is 0, `grey` is 1 and `black` is 2.
pub data Mark : Type 0 where
  grey black : Mark

-- How a visit ends: with the new `state`, with the GraphError of a cycle, with the KeyError of
-- `needs[sid]`, or out of the model's fuel.
pub data Visit : Type 0 where
  done : Dict Mark → Visit
  cycle : List String → Visit
  key_error : String → Visit
  out_of_fuel : Visit

abbrev pub and_then : Visit → (Dict Mark → Visit) → Visit
and_then (done st) f = f st
and_then (cycle c) f = cycle c
and_then (key_error k) f = key_error k
and_then out_of_fuel f = out_of_fuel

-- stack[stack.index(sid):]
unfoldable pub from_first : String → List String → List String
from_first x [] = []
from_first x (y ∷ ys) = let rest = from_first x ys in if str_eq y x then y ∷ ys else rest

-- for need in needs[sid]: visit(need, stack)
unfoldable pub visit_needs : (String → Dict Mark → Visit) → List String → Dict Mark → Visit
visit_needs v [] st = done st
visit_needs v (n ∷ ns) st = and_then (v n st) (visit_needs v ns)

abbrev pub finish : String → Dict Mark → Visit
finish sid st = done (put st sid black)

-- the part of `visit` behind its two early exits
abbrev pub enter : (String → Dict Mark → Visit) → Option (List String) → String → Dict Mark → Visit
enter v none sid st = key_error sid
enter v (some ns) sid st = and_then (visit_needs v ns (put st sid grey)) (finish sid)

-- the body of `visit`, over the mark of the step and the visit of its needs
abbrev pub body :
    (String → Dict Mark → Visit)
    → Option (List String)
    → List String
    → String
    → Dict Mark
    → Option Mark
    → Visit
body v ns stack sid st (some grey) = cycle (from_first sid stack ++ sid ∷ [])
body v ns stack sid st (some black) = done st
body v ns stack sid st none = enter v ns sid st

module _ (needs : Dict (List String)) where
  unfoldable pub visit : ℕ → List String → String → Dict Mark → Visit
  visit zero stack sid st = out_of_fuel
  visit (suc f) stack sid st =
      body (visit f (stack ++ sid ∷ [])) (get needs sid) stack sid st (get st sid)

  -- Each visit that goes deeper has marked one more step, so this fuel is enough.
  unfoldable pub check_acyclic : Visit
  check_acyclic = visit_needs (visit (suc (length needs)) []) (keys needs) []
