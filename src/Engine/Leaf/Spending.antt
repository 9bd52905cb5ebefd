-- ===== src/Engine/Leaf/Spending.antt =====
-- What a leaf has spent when it ends (engine/scheduler.py, `run_leaf`).
use rayspec_py.Prelude.{ℕ, zero, suc, ◌+◌, ◌≡◌, refl, ◌∙◌, ap, ◌⊎◌, Option, none, some, List, arith}
use rayspec_py.Schema.{SkipReason}
use rayspec_py.Engine.Leaf.{
  Leaf, LeafRecord, LeafEnd, outcome, drained, raised_cancelled, raised_control, Turn, controlled,
  Spend, accumulate, attempt_loop, attempt_record, conclude, unless_blocked, block_of, slept,
  delay_of, run_leaf, attempts_allowed, opening,
}

-- The totals behind `count` attempts, from the attempt `done` on.
abbrev pub spent_over : (ℕ → Turn) → Spend → ℕ → ℕ → Spend
spent_over world total done zero = total
spent_over world total done (suc count) =
    spent_over world (accumulate total (world done).spent) (suc done) count

-- The record has the totals of the attempts that it counts since `start`.
pub record Counted (world : ℕ → Turn) (total : Spend) (done start : ℕ) (r : LeafRecord)
    : Type 0 where
  pub count : ℕ
  pub counted : r.attempts ≡ count + start
  pub spent : r.spend ≡ spent_over world total done count

-- The record is as it was, and no attempt of this run was made.
abbrev pub Untouched : ℕ → LeafRecord → LeafRecord → Type 0
Untouched zero r r' = r' ≡ r
Untouched (suc done) r r' = ⊥

-- Each way to end: a step that was drained before its first attempt keeps its record; a control
-- signal leaves the loop before the totals are folded in, and nothing is said of it.
abbrev pub Accounted : (ℕ → Turn) → Spend → ℕ → LeafRecord → Option (LeafEnd × List ℕ) → Type 0
Accounted world total done r none = Unit
Accounted world total done r (some (outcome r', delays)) = Counted world total done r.attempts r'
Accounted world total done r (some (raised_cancelled r', delays)) =
    Counted world total done r.attempts r'
Accounted world total done r (some (drained reason r', delays)) = Untouched done r r'
Accounted world total done r (some (raised_control r', delays)) = Unit

Counted-step :
    (world : ℕ → Turn) (total : Spend) (done start : ℕ) (tried r : LeafRecord)
    → tried.attempts ≡ suc start
    → tried.spend ≡ accumulate total (world done).spent
    → Counted world tried.spend (suc done) tried.attempts r
    → Counted world total done start r
Counted-step world total done start tried r a s c = record {
  count = suc c.count;
  counted = omega (arith, c.counted, a);
  spent = c.spent ∙ ap (λ x. spent_over world x (suc done) c.count) s;
}

Counted-one :
    (world : ℕ → Turn) (total : Spend) (done start : ℕ) (tried : LeafRecord)
    → tried.attempts ≡ suc start
    → tried.spend ≡ accumulate total (world done).spent
    → Counted world total done start tried
Counted-one world total done start tried a s = record {
  count = 1;
  counted = omega (arith, a);
  spent = s;
}

Counted-none :
    (world : ℕ → Turn) (total : Spend) (done : ℕ) (r : LeafRecord)
    → r.spend ≡ total
    → Counted world total done r.attempts r
Counted-none world total done r s = record { count = 0; counted = omega arith; spent = s }

Accounted-step :
    (world : ℕ → Turn) (total : Spend) (done : ℕ) (r tried : LeafRecord) (ds : List ℕ)
    (rest : Option (LeafEnd × List ℕ))
    → tried.attempts ≡ suc r.attempts
    → tried.spend ≡ accumulate total (world done).spent
    → Accounted world tried.spend (suc done) tried rest
    → Accounted world total done r (slept ds rest)
Accounted-step world total done r tried ds none a s h = tt
Accounted-step world total done r tried ds (some (outcome r', delays)) a s h =
    Counted-step world total done r.attempts tried r' a s h
Accounted-step world total done r tried ds (some (raised_cancelled r', delays)) a s h =
    Counted-step world total done r.attempts tried r' a s h
Accounted-step world total done r tried ds (some (drained reason r', delays)) a s h = elim h [ ]
Accounted-step world total done r tried ds (some (raised_control r', delays)) a s h = tt

-- Behind an attempt the record has the totals, unless a control signal left the executor.
attempt_record-cases :
    (r : LeafRecord) (total : Spend) (t : Turn)
    → ((attempt_record r total t).attempts ≡ suc r.attempts)
      × ((t.ended ≡ controlled) ⊎ ((attempt_record r total t).spend ≡ accumulate total t.spent))
attempt_record-cases r total t = (ground arith, ground arith)

conclude-Accounted :
    (world : ℕ → Turn) (leaf : Leaf) (total : Spend) (done : ℕ) (r tried : LeafRecord)
    (rest : Option (LeafEnd × List ℕ))
    → tried.attempts ≡ suc r.attempts
    → ((world done).ended ≡ controlled) ⊎ (tried.spend ≡ accumulate total (world done).spent)
    → Accounted world tried.spend (suc done) tried rest
    → Accounted world total done r (conclude leaf (world done) (suc done) tried rest)
conclude-Accounted world leaf total done r tried rest a s h =
    let step : tried.spend ≡ accumulate total (world done).spent
        → Accounted world total done r (slept (delay_of leaf.policy (suc done)) rest) =
      λ e. Accounted-step world total done r tried (delay_of leaf.policy (suc done)) rest a e h in
    ground (arith, Counted-one world total done r.attempts tried a, step)

-- Later turns start from a record that has the totals.
abbrev Ready : ℕ → LeafRecord → Spend → Type 0
Ready zero r total = Unit
Ready (suc done) r total = r.spend ≡ total

unless_blocked-Accounted :
    (world : ℕ → Turn) (total : Spend) (done : ℕ) (r : LeafRecord) (o : Option SkipReason)
    (attempted : Option (LeafEnd × List ℕ))
    → Ready done r total
    → Accounted world total done r attempted
    → Accounted world total done r (unless_blocked o done r attempted)
unless_blocked-Accounted world total done r none attempted ready h = h
unless_blocked-Accounted world total zero r (some reason) attempted ready h = refl
unless_blocked-Accounted world total (suc done) r (some reason) attempted ready h =
    Counted-none world total (suc done) r ready

attempt_loop-Accounted :
    (world : ℕ → Turn) (leaf : Leaf) (fuel done : ℕ) (r : LeafRecord) (total : Spend)
    → Ready done r total
    → Accounted world total done r (attempt_loop world leaf fuel done r total)
unfolding attempt_loop
attempt_loop-Accounted world leaf zero done r total ready = tt
attempt_loop-Accounted world leaf (suc fuel) done r total ready =
    let t = world done in
    let tried = attempt_record r total t in
    let (a, s) = attempt_record-cases r total t in
    unless_blocked-Accounted world total done r (block_of leaf t) _ ready (
      conclude-Accounted world leaf total done r tried _ a s
        (attempt_loop-Accounted world leaf fuel (suc done) tried tried.spend refl))

-- The record that a leaf ends with counts every attempt that was made in this run and has their
-- usage and cost added to what it carried from earlier runs, also when the last attempt is
-- cancelled; a step that a drain keeps from its first attempt has the record it came with.
pub run_leaf-Accounted :
    (world : ℕ → Turn) (leaf : Leaf) (r : LeafRecord)
    → Accounted world (opening r.spend) 0 r (run_leaf world leaf r)
unfolding run_leaf
run_leaf-Accounted world leaf r =
    attempt_loop-Accounted world leaf (attempts_allowed leaf.policy) 0 r (opening r.spend) tt
