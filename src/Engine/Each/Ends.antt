-- ===== src/Engine/Each/Ends.antt =====
-- What an `each:` step ends with, whatever the order of its items (engine/executors/each.py).
use rayspec_py.Prelude.{
  ℕ, zero, suc, ◌+◌, ◌-◌, ◌≤◌, ◌<◌, ◌≡◌, ◌↔◌, refl, ◌∙◌, ap, inl, inr, Bool, true, false, ◌||◌,
  Option, none, some, List, [], ◌∷◌, All, length, select, arith, ◌==◌, if◌then◌else◌, Bool-cases,
  String, is_some,
}
use rayspec_py.Prelude.Dict.{Dict}
use rayspec_py.Prelude.Result.{Result, ok, err}
use rayspec_py.Schema.{StepStatus}
use rayspec_py.Engine.Settle.{RunControl, StepOutcome}
use rayspec_py.Engine.Body.{failed_body_step}
use rayspec_py.Engine.Each.{
  EachSpec, fail, Outputs, sequence, World, Detail, pending_detail, EachState, tabulate, begin,
  detail_of, result_of, end_item, end_items, EachInfo, EachEnd, no_items, is_failed, conclude,
  raise_or, run_each,
}
use rayspec_py.Engine.Each.Slots.{tabulate_ext, set_at-all}

-- Some entry of the order is `i`.
abbrev pub ends_in : ℕ → List ℕ → Bool
ends_in i [] = false
ends_in i (j ∷ order) = i == j || ends_in i order

-- How many bodies, from `start` on, have a step that fails the composite.
abbrev pub failing : (ℕ → Dict StepOutcome) → ℕ → ℕ → ℕ
failing bodies start zero = 0
failing bodies start (suc n) =
    let rest = failing bodies (suc start) n in
    if is_some (failed_body_step (bodies start)) then suc rest else rest

-- The entry after the items of an order: that of the item if it has ended, else as before.
abbrev after : {A : Type 0} → List ℕ → (ℕ → A) → (ℕ → A) → ℕ → A
after order new old j = if ends_in j order then new j else old j

after-cons :
    {A : Type 0} (i j : ℕ) (order : List ℕ) (new old : ℕ → A)
    → after order new (λ k. if k == i then new i else old k) j ≡ after (i ∷ order) new old j
after-cons i j order new old = elim (Bool-cases (j == i)) [
  | inl e ↦ let same : j ≡ i = ground arith in ground (arith, ap new same)
  | inr n ↦ ground arith
]

module _ (ids : List String) (w : World) (bodies : ℕ → Dict StepOutcome) (total : ℕ) where
  abbrev at : (ℕ → Option Outputs) → (ℕ → Detail) → EachState
  at results details = record {
    results = tabulate 0 total results;
    details = tabulate 0 total details;
    control = none;
  }

  at_eq :
      (r r' : ℕ → Option Outputs) (d d' : ℕ → Detail)
      → ((j : ℕ) → j < total → r j ≡ r' j)
      → ((j : ℕ) → j < total → d j ≡ d' j)
      → at r d ≡ at r' d'
  at_eq r r' d d' hr hd =
      let a = tabulate_ext 0 total r r' (λ j lo hi. hr j (omega arith)) in
      let b = tabulate_ext 0 total d d' (λ j lo hi. hd j (omega arith)) in rw (a, b) refl

  end_item-at :
      (i : ℕ) (b : Result RunControl (Dict StepOutcome)) (r : ℕ → Option Outputs) (d : ℕ → Detail)
      → b ≡ ok (bodies i)
      → end_item ids i b (at r d)
        ≡ at
            (λ j. if j == i then result_of ids (bodies i) else r j)
            (λ j. if j == i then detail_of ids (bodies i) else d j)
  unfolding end_item
  end_item-at i (err c) r d h = ground arith
  end_item-at i (ok outcomes) r d h =
      let e : outcomes ≡ bodies i = ground arith in
      let a = set_at-all i total (result_of ids (bodies i)) r in
      let b = set_at-all i total (detail_of ids (bodies i)) d in rw (e, a, b) refl

  end_items-at :
      (order : List ℕ) (r : ℕ → Option Outputs) (d : ℕ → Detail)
      → All (λ i. w.run_body i ≡ ok (bodies i)) order
      → end_items ids w order (at r d)
        ≡ at
            (after order (λ j. result_of ids (bodies j)) r)
            (after order (λ j. detail_of ids (bodies j)) d)
  unfolding end_items
  end_items-at [] r d h = refl
  end_items-at (i ∷ order) r d h =
      let r' : ℕ → Option Outputs = λ j. if j == i then result_of ids (bodies i) else r j in
      let d' : ℕ → Detail = λ j. if j == i then detail_of ids (bodies i) else d j in
      ap (end_items ids w order) (end_item-at i (w.run_body i) r d h.0)
      ∙ end_items-at order r' d' h.1
      ∙ at_eq _ _ _ _ (λ j lo. after-cons i j order (λ k. result_of ids (bodies k)) r)
          (λ j lo. after-cons i j order (λ k. detail_of ids (bodies k)) d)

  -- Once every item has ended, each slot is its own item's.
  every_item :
      ((i : ℕ) → i < total → ends_in i w.order ≡ true)
      → All (λ i. w.run_body i ≡ ok (bodies i)) w.order
      → end_items ids w w.order (begin total)
        ≡ at (λ j. result_of ids (bodies j)) (λ j. detail_of ids (bodies j))
  every_item full h =
      end_items-at w.order (λ i. none) (λ i. pending_detail) h
      ∙ at_eq _ _ _ _ (λ j lo. let e = full j lo in ground arith)
          (λ j lo. let e = full j lo in ground arith)

failing-count :
    (ids : List String) (bodies : ℕ → Dict StepOutcome) (start n : ℕ)
    → length (select is_failed (tabulate start n (λ j. detail_of ids (bodies j))))
      ≡ failing bodies start n
failing-count ids bodies start zero = refl
failing-count ids bodies start (suc n) = ground (arith, failing-count ids bodies (suc start) n)

failing-bound : (bodies : ℕ → Dict StepOutcome) (start n : ℕ) → failing bodies start n ≤ n
failing-bound bodies start zero = omega arith
failing-bound bodies start (suc n) = ground (arith, failing-bound bodies (suc start) n)

-- What the step ends with when the items' bodies ended with `bodies`.
pub record Sequential (spec : EachSpec) (total : ℕ) (bodies : ℕ → Dict StepOutcome) (r : EachEnd)
    : Type 0 where
  pub output : r.output ≡ some (tabulate 0 total (λ i. result_of spec.step_ids (bodies i)))
  pub details : r.details ≡ tabulate 0 total (λ i. detail_of spec.step_ids (bodies i))
  pub counts :
      (info : EachInfo) × (r.each ≡ some info)
      × (info.total ≡ total)
      × (info.failed ≡ failing bodies 0 total)
      × (info.succeeded + info.failed ≡ total)
  pub status :
      (r.status ≡ StepStatus.failed) ↔ (0 < failing bodies 0 total) × (spec.on_failure ≡ fail)

conclude-Sequential :
    (spec : EachSpec) (total : ℕ) (bodies : ℕ → Dict StepOutcome)
    → Sequential spec total bodies (
        conclude spec total (record {
          results = tabulate 0 total (λ j. result_of spec.step_ids (bodies j));
          details = tabulate 0 total (λ j. detail_of spec.step_ids (bodies j));
          control = none;
        }))
unfolding conclude
conclude-Sequential spec total bodies =
    let n =
      length (select is_failed (tabulate 0 total (λ j. detail_of spec.step_ids (bodies j)))) in
    let c : n ≡ failing bodies 0 total = failing-count spec.step_ids bodies 0 total in
    let b = failing-bound bodies 0 total in
    record {
      output = refl;
      details = refl;
      counts =
          (record { total = total; succeeded = total - n; failed = n }, refl, refl, c, omega arith);
      status = (ground arith, ground arith);
    }

-- An `each:` step over `total` items, each of which ends, in whatever order, with the outcomes
-- `bodies` and no signal, returns what the items give one after another: slot `i` of the output is
-- that of item `i`, or nothing where a step of it failed; the failed items are counted, and with
-- the others they make up the total; and the step fails exactly when an item failed and
-- `on_failure` is `fail`.
pub run_each-Sequential :
    (spec : EachSpec) (w : World) (total : ℕ) (bodies : ℕ → Dict StepOutcome)
    → w.eval_items ≡ sequence total
    → ((i : ℕ) → i < total → ends_in i w.order ≡ true)
    → All (λ i. w.run_body i ≡ ok (bodies i)) w.order
    → (r : EachEnd) × (run_each spec w ≡ ok r) × Sequential spec total bodies r
unfolding run_each end_items
run_each-Sequential spec w zero bodies e full h = (
  no_items,
  ground arith,
  record {
    output = refl;
    details = refl;
    counts = (record { total = 0; succeeded = 0; failed = 0 }, refl, refl, refl, refl);
    status = (ground arith, ground arith);
  },
)
run_each-Sequential spec w (suc n) bodies e full h = (
  conclude spec (suc n) (at_end (suc n)),
  rw e (ap (raise_or spec (suc n)) (every_item spec.step_ids w bodies (suc n) full h)),
  conclude-Sequential spec (suc n) bodies,
)
  where
    at_end : ℕ → EachState
    at_end total = record {
      results = tabulate 0 total (λ j. result_of spec.step_ids (bodies j));
      details = tabulate 0 total (λ j. detail_of spec.step_ids (bodies j));
      control = none;
    }
