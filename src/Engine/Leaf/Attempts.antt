-- ===== src/Engine/Leaf/Attempts.antt =====
-- The attempts of a leaf end (engine/scheduler.py, `run_leaf`; engine/retry.py).
use rayspec_py.Prelude.{ℕ, zero, suc, ◌+◌, ◌≤◌, ◌≡◌, refl, true, Option, none, some, List, arith}
use rayspec_py.Schema.{SkipReason}
use rayspec_py.Engine.Leaf.{
  Leaf, LeafRecord, LeafEnd, outcome, drained, raised_cancelled, raised_control, Turn, Spend,
  ErrorInfo, RetryPolicy, attempt_loop, attempt_record, conclude, unless_blocked, block_of, goes_on,
  should_retry, run_leaf, attempts_allowed, opening,
}

abbrev pub record_of : LeafEnd → LeafRecord
record_of (outcome r) = r
record_of (drained reason r) = r
record_of (raised_cancelled r) = r
record_of (raised_control r) = r

-- The loop came to an end, with at most `n` attempts more than the record had.
abbrev pub EndsWithin : ℕ → LeafRecord → Option (LeafEnd × List ℕ) → Type 0
EndsWithin n r none = ⊥
EndsWithin n r (some (e, delays)) = (record_of e).attempts ≤ r.attempts + n

attempt_record-attempts :
    (r : LeafRecord) (total : Spend) (t : Turn)
    → (attempt_record r total t).attempts ≡ suc r.attempts
attempt_record-attempts r total t = ground arith

should_retry-more :
    (o : Option RetryPolicy) (done : ℕ) (e : Option ErrorInfo)
    → should_retry o done e ≡ true
    → suc done ≤ attempts_allowed o
unfolding should_retry
should_retry-more o done e h = ground arith

too_many : {done n : ℕ} → n ≤ done + 1 → suc (suc done) ≤ n → ⊥
too_many a b = omega arith

allows_one : (o : Option RetryPolicy) → 1 ≤ attempts_allowed o
allows_one none = omega arith
allows_one (some p) = ground arith

conclude-EndsWithin :
    (leaf : Leaf) (t : Turn) (done n : ℕ) (r tried : LeafRecord) (rest : Option (LeafEnd × List ℕ))
    → tried.attempts ≡ suc r.attempts
    → (goes_on leaf t done tried ≡ true → EndsWithin n tried rest)
    → EndsWithin (suc n) r (conclude leaf t done tried rest)
conclude-EndsWithin leaf t done n r tried rest a h = ground (arith, h)

unless_blocked-EndsWithin :
    (o : Option SkipReason) (done n : ℕ) (r : LeafRecord) (attempted : Option (LeafEnd × List ℕ))
    → EndsWithin n r attempted
    → EndsWithin n r (unless_blocked o done r attempted)
unless_blocked-EndsWithin none done n r attempted h = h
unless_blocked-EndsWithin (some reason) zero n r attempted h = ground arith
unless_blocked-EndsWithin (some reason) (suc done) n r attempted h = ground arith

goes_on-more :
    (leaf : Leaf) (t : Turn) (done : ℕ) (r : LeafRecord)
    → goes_on leaf t done r ≡ true
    → suc done ≤ attempts_allowed leaf.policy
goes_on-more leaf t done r h = should_retry-more leaf.policy done r.error (ground arith)

pub attempt_loop-EndsWithin :
    (world : ℕ → Turn) (leaf : Leaf) (fuel done : ℕ) (r : LeafRecord) (total : Spend)
    → attempts_allowed leaf.policy ≤ done + suc fuel
    → EndsWithin (suc fuel) r (attempt_loop world leaf (suc fuel) done r total)
unfolding attempt_loop
attempt_loop-EndsWithin world leaf zero done r total enough =
    let t = world done in
    let tried = attempt_record r total t in
    unless_blocked-EndsWithin (block_of leaf t) done 1 r _ (
      conclude-EndsWithin leaf t (suc done) 0 r tried none (attempt_record-attempts r total t)
        (λ again.
          let more = goes_on-more leaf t (suc done) tried again in elim (too_many enough more) [ ]))
attempt_loop-EndsWithin world leaf (suc fuel) done r total enough =
    let t = world done in
    let tried = attempt_record r total t in
    unless_blocked-EndsWithin (block_of leaf t) done (suc (suc fuel)) r _ (
      conclude-EndsWithin leaf t (suc done) (suc fuel) r tried _ (attempt_record-attempts r total t)
        (λ again.
          attempt_loop-EndsWithin world leaf fuel (suc done) tried tried.spend (omega arith)))

-- A leaf always comes to an end: in a run it makes at most as many attempts as its retry policy
-- allows in total, and one where it has no policy.
pub run_leaf-EndsWithin :
    (world : ℕ → Turn) (leaf : Leaf) (r : LeafRecord)
    → EndsWithin (attempts_allowed leaf.policy) r (run_leaf world leaf r)
unfolding run_leaf
run_leaf-EndsWithin world leaf r =
    within (attempts_allowed leaf.policy) (allows_one leaf.policy) refl
  where
    within :
        (n : ℕ)
        → 1 ≤ n
        → attempts_allowed leaf.policy ≡ n
        → EndsWithin n r (attempt_loop world leaf n 0 r (opening r.spend))
    within zero h e = ground arith
    within (suc n) h e = attempt_loop-EndsWithin world leaf n 0 r (opening r.spend) (omega arith)
