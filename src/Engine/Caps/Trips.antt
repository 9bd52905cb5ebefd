-- ===== src/Engine/Caps/Trips.antt =====
-- When the breaker of a run trips, and on what (engine/context.py).
use rayspec_py.Prelude.{
  ℕ, ◌≡◌, refl, String, Bool, true, false, Option, none, some, List, [], ◌∷◌, ◌++◌, select, arith,
  if◌then◌else◌, inl, inr, sym, ◌∙◌, Bool-cases,
}
use rayspec_py.Engine.Caps.{
  Defaults, Totals, Knob, budget_usd, max_tokens, timeout_total, total_tokens, over_cost,
  over_tokens, over_time, budget_parts, CapBreach, breach_of, cap_reasons, caps_set, Reason,
  envelope, caps, Breaker, trip, own_caps, check_budget,
}

-- Whether the totals or the clock are beyond the cap of a knob.
abbrev pub over : Totals → Option ℕ → Defaults → Knob → Bool
over t elapsed d budget_usd = over_cost d.budget_usd t.cost_usd
over t elapsed d max_tokens = over_tokens d.max_tokens (total_tokens t.usage)
over t elapsed d timeout_total = over_time d.timeout_total elapsed

abbrev pub cap_knobs : List Knob
cap_knobs = budget_usd ∷ max_tokens ∷ timeout_total ∷ []

abbrev breach_knobs : List CapBreach → List Knob
breach_knobs [] = []
breach_knobs (b ∷ bs) = b.knobs ++ breach_knobs bs

-- The knobs that a reason names.
abbrev pub named : Option Reason → List Knob
named none = []
named (some (envelope reason)) = []
named (some (caps bs)) = breach_knobs bs

caps_set-over :
    (t : Totals) (elapsed : Option ℕ) (d : Defaults)
    → caps_set d ≡ false
    → select (over t elapsed d) cap_knobs ≡ []
caps_set-over t elapsed d h = ground arith

three :
    (cost tokens time : Bool)
    → breach_knobs (
        breach_of
          ((if cost then budget_usd ∷ [] else []) ++ (if tokens then max_tokens ∷ [] else []))
        ++ breach_of (if time then timeout_total ∷ [] else []))
      ≡ (let clock = if time then timeout_total ∷ [] else [] in
          let money = if tokens then max_tokens ∷ clock else clock in
          if cost then budget_usd ∷ money else money)
three false false false = refl
three false false true = refl
three false true false = refl
three false true true = refl
three true false false = refl
three true false true = refl
three true true false = refl
three true true true = refl

breaches-over :
    (t : Totals) (elapsed : Option ℕ) (d : Defaults)
    → breach_knobs (cap_reasons t elapsed d) ≡ select (over t elapsed d) cap_knobs
unfolding cap_reasons budget_parts
breaches-over t elapsed d = three _ _ _

trip-named : (b : Breaker) (cs : List CapBreach) → named (trip b cs).0 ≡ breach_knobs cs
trip-named b [] = refl
trip-named b (c ∷ cs) = refl

trip-kept :
    (b : Breaker) (cs : List CapBreach)
    → b.budget_exceeded ≡ none
    → (trip b cs).1.budget_exceeded ≡ (trip b cs).0
trip-kept b [] h = h
trip-kept b (c ∷ cs) h = refl

own_caps-over :
    (t : Totals) (elapsed : Option ℕ) (d : Defaults) (b : Breaker)
    → b.budget_exceeded ≡ none
    → (named (own_caps t elapsed d b).0 ≡ select (over t elapsed d) cap_knobs)
      × ((own_caps t elapsed d b).1.budget_exceeded ≡ (own_caps t elapsed d b).0)
own_caps-over t elapsed d b h = elim (Bool-cases (caps_set d)) [
  | inl capped ↦ rw capped (
    trip-named b (cap_reasons t elapsed d) ∙ breaches-over t elapsed d,
    trip-kept b (cap_reasons t elapsed d) h,
  )
  | inr free ↦ rw free (sym (caps_set-over t elapsed d free), h)
]

check_budget-first :
    (t : Totals) (elapsed : Option ℕ) (d : Defaults) (b : Breaker)
    → b.budget_exceeded ≡ none
    → check_budget none t elapsed d b ≡ own_caps t elapsed d b
unfolding check_budget
check_budget-first t elapsed d b h = ground arith

-- While the breaker has not tripped and the operator's ceilings are silent, a check names, in the
-- documented order, exactly the caps that the totals and the clock are strictly beyond, none when
-- there is none, and what it answers is what the breaker keeps.
pub check_budget_names :
    (t : Totals) (elapsed : Option ℕ) (d : Defaults) (b : Breaker)
    → b.budget_exceeded ≡ none
    → (named (check_budget none t elapsed d b).0 ≡ select (over t elapsed d) cap_knobs)
      × ((check_budget none t elapsed d b).1.budget_exceeded ≡ (check_budget none t elapsed d b).0)
check_budget_names t elapsed d b h =
    rw (check_budget-first t elapsed d b h) (own_caps-over t elapsed d b h)

-- A breaker that has tripped keeps its reason and says nothing new.
pub check_budget_again :
    (ceiling : Option String) (t : Totals) (elapsed : Option ℕ) (d : Defaults) (b : Breaker)
    (reason : Reason)
    → b.budget_exceeded ≡ some reason
    → check_budget ceiling t elapsed d b ≡ (some reason, b)
unfolding check_budget
check_budget_again ceiling t elapsed d b reason h = ground arith
