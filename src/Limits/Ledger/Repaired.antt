-- ===== src/Limits/Ledger/Repaired.antt =====
-- `_repair`: what it drops was not read, and what it leaves it would leave again.
use rayspec_py.Prelude.{
  String, ◌≡◌, refl, sym, subst, false, Option, none, some, [], ◌∷◌, inl, inr, In, arith, str_eq,
  eq_iff, Bool-cases,
}
use rayspec_py.Prelude.Dict.{Dict, get, put, keys, get-put}
use rayspec_py.Prelude.Int.{pos, negsuc}
use rayspec_py.Limits.Ledger.{
  Json, null, int, real, Field, value, object, Entry, Doc, Moment, amount, Broken, repair_bucket,
  repair_field, repair_failures, bad_cost, repair_runs, repair_runs_field, repair, entries, counter,
  state_of,
}

module _ (name : String → Broken) where
  repair_bucket_idem :
      (d : Dict Json) → repair_bucket name (repair_bucket name d).0 ≡ ((repair_bucket name d).0, [])
  unfolding repair_bucket
  repair_bucket_idem [] = refl
  repair_bucket_idem ((stamp, v) ∷ rest) = ground (arith, repair_bucket_idem rest)

  repair_field_idem :
      (whole : Broken) (f : Option (Field Json))
      → repair_field whole name (repair_field whole name f).0 ≡ ((repair_field whole name f).0, [])
  unfolding repair_field
  repair_field_idem whole none = refl
  repair_field_idem whole (some (value null)) = refl
  repair_field_idem whole (some (value v)) = unfold repair_bucket in refl
  repair_field_idem whole (some (object d)) = rw repair_bucket_idem

repair_failures_idem :
    (f : Option Json) → repair_failures (repair_failures f).0 ≡ ((repair_failures f).0, [])
unfolding repair_failures
repair_failures_idem none = refl
repair_failures_idem (some null) = refl
repair_failures_idem (some (int (pos n))) = refl
repair_failures_idem (some (int (negsuc n))) = refl
repair_failures_idem (some v) = refl

cost_repaired :
    (e : Dict Json) → bad_cost (get (put e "cost_usd" (real (pos 0))) "cost_usd") ≡ false
unfolding amount
cost_repaired e =
    ground (arith, get-put e "cost_usd" "cost_usd" (real (pos 0)), eq_iff "cost_usd" "cost_usd")

repair_runs_idem : (d : Dict Entry) → repair_runs (repair_runs d).0 ≡ ((repair_runs d).0, [])
unfolding repair_runs
repair_runs_idem [] = refl
repair_runs_idem ((id, value v) ∷ rest) = repair_runs_idem rest
repair_runs_idem ((id, object e) ∷ rest) = ground (arith, repair_runs_idem rest, cost_repaired e)

repair_runs_field_idem :
    (f : Option (Field Entry))
    → repair_runs_field (repair_runs_field f).0 ≡ ((repair_runs_field f).0, [])
unfolding repair_runs_field
repair_runs_field_idem none = refl
repair_runs_field_idem (some (value null)) = refl
repair_runs_field_idem (some (value v)) = unfold repair_runs in refl
repair_runs_field_idem (some (object d)) = rw repair_runs_idem

-- A repaired document has nothing left to repair: a second `_repair` changes nothing and names
-- nothing.
pub repair_idem : (d : Doc) → repair (repair d).0 ≡ ((repair d).0, [])
unfolding repair
repair_idem d =
    rw (repair_field_idem, repair_field_idem, repair_failures_idem, repair_runs_field_idem)

-- No key stands twice in a Python dict.
abbrev pub Distinct : Dict Json → Type 0
Distinct [] = Unit
Distinct ((k, v) ∷ d) = (¬ In k (keys d)) × Distinct d

amount-none : amount none ≡ none
unfolding amount
amount-none = refl

module _ (name : String → Broken) where
  get-repair_absent :
      (d : Dict Json) (k : String) → (¬ In k (keys d)) → get (repair_bucket name d).0 k ≡ none
  unfolding repair_bucket get
  get-repair_absent [] k n = refl
  get-repair_absent ((j, v) ∷ d) k n =
      let other : str_eq j k ≡ false = ground (arith, eq_iff j k) in
      ground (arith, other, get-repair_absent d k (λ i. n (inr i)))

  amount-repair_bucket :
      (d : Dict Json) (k : String)
      → Distinct d
      → amount (get (repair_bucket name d).0 k) ≡ amount (get d k)
  unfolding repair_bucket get
  amount-repair_bucket [] k h = refl
  amount-repair_bucket ((j, v) ∷ d) k h = elim (Bool-cases (str_eq j k)) [
    | inl same ↦
        let absent : get (repair_bucket name d).0 k ≡ none =
          get-repair_absent d k
            (λ i. h.0 (subst (λ x. In x (keys d)) (sym ((eq_iff j k).0 same)) i)) in
        ground (arith, same, absent, amount-none)
    | inr other ↦ ground (arith, other, amount-repair_bucket d k h.1)
  ]

  entries-repair_field :
      (whole : Broken) (f : Option (Field Json)) (k : String)
      → Distinct (entries f)
      → amount (get (entries (repair_field whole name f).0) k) ≡ amount (get (entries f) k)
  unfolding repair_field
  entries-repair_field whole none k h = refl
  entries-repair_field whole (some (value null)) k h = refl
  entries-repair_field whole (some (value v)) k h = refl
  entries-repair_field whole (some (object d)) k h = amount-repair_bucket d k h

counter-repair : (f : Option Json) → counter (repair_failures f).0 ≡ counter f
unfolding repair_failures
counter-repair none = refl
counter-repair (some null) = refl
counter-repair (some (int (pos n))) = refl
counter-repair (some (int (negsuc n))) = refl
counter-repair (some v) = refl

-- Repairing a document changes no total that is read from it, at any moment: what is dropped was
-- worth nothing.
pub state_of-repair :
    (d : Doc) (when : Moment)
    → Distinct (entries d.days)
    → Distinct (entries d.months)
    → state_of (repair d).0 when ≡ state_of d when
unfolding repair state_of
state_of-repair d when hd hm = rw (entries-repair_field, entries-repair_field, counter-repair) refl
