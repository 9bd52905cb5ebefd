-- ===== src/Engine/FailurePolicy/Strictest.antt =====
-- Nested scopes and the failure policy that is in force (engine/context.py).
use rayspec_py.Prelude.{
  ◌≡◌, ◌↔◌, ◌⊎◌, refl, sym, subst, Bool, true, false, Option, none, some, List, [], ◌∷◌, arith, leb,
  if◌then◌else◌,
}
use rayspec_py.Engine.FailurePolicy.{
  OnStepFailure, continue, fail_fast, rank, strictest, Defaults, ExecScope, stated, floor_of,
  effective, scope, nest, keep_going_for, fail_fast_for,
}

-- The strictest of what a list of scopes wrote, if one of them wrote anything.
abbrev pub join_stated : Option OnStepFailure → Option OnStepFailure → Option OnStepFailure
join_stated none b = b
join_stated (some a) none = some a
join_stated (some a) (some b) = some (if leb (rank a) (rank b) then b else a)

abbrev pub strictest_stated : List Defaults → Option OnStepFailure
strictest_stated [] = none
strictest_stated (d ∷ ds) = let rest = strictest_stated ds in join_stated (stated d) rest

abbrev pub or_default : Option OnStepFailure → OnStepFailure → OnStepFailure
or_default none default = default
or_default (some p) default = p

-- A scope that stands for what was written around it, over the root's own value.
record Stands (seen : Option OnStepFailure) (default : OnStepFailure) (s : ExecScope) : Type 0 where
  floor : s.on_step_failure_floor ≡ or_default seen continue
  force : s.on_step_failure ≡ or_default seen default

root-Stands : (d : Defaults) → Stands (stated d) d.on_step_failure (scope d none)
unfolding floor_of effective strictest
root-Stands d = record { floor = ground arith; force = ground arith }

child-Stands :
    (seen : Option OnStepFailure) (default : OnStepFailure) (s : ExecScope) (d : Defaults)
    → Stands seen default s
    → Stands (join_stated seen (stated d)) default (scope d (some s))
unfolding floor_of effective strictest
child-Stands seen default s d h =
    let f = h.floor in let g = h.force in record { floor = ground arith; force = ground arith }

join_assoc :
    (a b c : Option OnStepFailure)
    → join_stated (join_stated a b) c ≡ join_stated a (join_stated b c)
join_assoc a b c = ground arith

join_none : (a : Option OnStepFailure) → join_stated a none ≡ a
join_none a = ground arith

nest-Stands :
    (inner : List Defaults) (seen : Option OnStepFailure) (default : OnStepFailure) (s : ExecScope)
    → Stands seen default s
    → Stands (join_stated seen (strictest_stated inner)) default (nest s inner)
unfolding nest
nest-Stands [] seen default s h = subst (λ o. Stands o default s) (sym (join_none seen)) h
nest-Stands (d ∷ inner) seen default s h =
    subst (λ o. Stands o default (nest (scope d (some s)) inner))
      (join_assoc seen (stated d) (strictest_stated inner))
      (nest-Stands inner (join_stated seen (stated d)) default (scope d (some s))
        (child-Stands seen default s d h))

-- What a chain of scopes, from the root on, comes to.
abbrev pub in_force : Defaults → List Defaults → OnStepFailure
in_force root inner = or_default (strictest_stated (root ∷ inner)) root.on_step_failure

-- In a scope at any depth the policy in force is the strictest that the scopes from the root to
-- it state, or the root's own value when none states any: a failure cancels the running siblings
-- of the scope exactly when the flag is given or that policy is `fail_fast`, and keeps the list
-- going exactly when the flag is not given and that policy is `continue`.
pub nest-in_force :
    (root : Defaults) (inner : List Defaults) (flagged : Bool)
    → ((nest (scope root none) inner).on_step_failure ≡ in_force root inner)
      × ((fail_fast_for flagged (nest (scope root none) inner) ≡ true)
          ↔ ((flagged ≡ true) ⊎ (in_force root inner ≡ fail_fast)))
      × ((keep_going_for flagged (nest (scope root none) inner) ≡ true)
          ↔ ((flagged ≡ false) × (in_force root inner ≡ continue)))
unfolding fail_fast_for keep_going_for
nest-in_force root inner flagged =
    let e : (nest (scope root none) inner).on_step_failure ≡ in_force root inner =
      (nest-Stands inner (stated root) root.on_step_failure (scope root none)
        (root-Stands root)).force in
    rw e (refl, (ground arith, ground arith), (ground arith, ground arith))
