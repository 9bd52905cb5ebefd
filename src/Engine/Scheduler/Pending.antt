-- ===== src/Engine/Scheduler/Pending.antt =====
-- Lookup and removal in the lists `pending` and `running` (engine/scheduler.py).
use rayspec_py.Prelude.{
  ℕ, suc, ◌≤◌, ◌<◌, String, ◌≡◌, none, some, List, [], ◌∷◌, length, arith, str_eq, eq_iff,
  if◌then◌else◌, In,
}
use rayspec_py.Schema.{StepModel}
use rayspec_py.Engine.Scheduler.{find, ids, without}

-- How often an id stands in a list.
abbrev pub count : String → List StepModel → ℕ
count k [] = 0
count k (step ∷ steps) = let rest = count k steps in if str_eq step.id k then suc rest else rest

pub find-id :
    (sid : String) (steps : List StepModel) (x : StepModel) → find sid steps ≡ some x → x.id ≡ sid
unfolding find
find-id sid [] x e = ground arith
find-id sid (step ∷ steps) x e = ground (arith, eq_iff step.id sid, find-id sid steps x)

pub find-none :
    (sid : String) (steps : List StepModel) → find sid steps ≡ none → ¬ In sid (ids steps)
unfolding find
find-none sid [] e h = elim h [ ]
find-none sid (step ∷ steps) e h = ground (arith, eq_iff step.id sid, find-none sid steps)

pub find-without :
    (k sid : String) (steps : List StepModel)
    → find k (without sid steps) ≡ (if str_eq sid k then none else find k steps)
unfolding find
find-without k sid [] = ground arith
find-without k sid (step ∷ steps) =
    ground (arith, eq_iff step.id sid, eq_iff step.id k, eq_iff sid k, find-without k sid steps)

pub count-without :
    (k sid : String) (steps : List StepModel)
    → count k (without sid steps) ≡ (if str_eq sid k then 0 else count k steps)
count-without k sid [] = ground arith
count-without k sid (step ∷ steps) =
    ground (arith, eq_iff step.id sid, eq_iff step.id k, eq_iff sid k, count-without k sid steps)

pub count-find :
    (k : String) (steps : List StepModel) (x : StepModel)
    → find k steps ≡ some x
    → 0 < count k steps
unfolding find
count-find k [] x e = ground arith
count-find k (step ∷ steps) x e = ground (arith, count-find k steps x)

pub count-In : (k : String) (steps : List StepModel) → In k (ids steps) → 0 < count k steps
count-In k [] h = elim h [ ]
count-In k (step ∷ steps) h = ground (arith, eq_iff step.id k, count-In k steps)

pub without-length :
    (sid : String) (steps : List StepModel) → length (without sid steps) ≤ length steps
without-length sid [] = ground arith
without-length sid (step ∷ steps) = ground (arith, without-length sid steps)

pub without-shorter :
    (sid : String) (steps : List StepModel) (x : StepModel)
    → find sid steps ≡ some x
    → length (without sid steps) < length steps
unfolding find
without-shorter sid [] x e = ground arith
without-shorter sid (step ∷ steps) x e =
    ground (arith, without-length sid steps, without-shorter sid steps x)
