-- ===== src/Limits/Ledger/Books.antt =====
-- limits/ledger.py: what a commit and an outcome write into the document, with the pruning.
use Prim.Native.String.{compare}
use Prim.Native.Nat.{Ordering}
use mathlib.Core.Option
use rayspec_py.Prelude.{
  ℕ, zero, suc, ◌+◌, ◌-◌, String, Bool, true, false, Option, none, some, [], ◌∷◌, length, ltb,
  if◌then◌else◌,
}
use rayspec_py.Prelude.Dict.{Dict, get, put}
use rayspec_py.Prelude.Int.{ℤ, pos, ◌+ℤ◌, ◌-ℤ◌, is_zero}
use rayspec_py.Limits.Ledger.{
  Json, Field, Entry, Doc, Moment, amount, or_zero, entries, counter, int, real, str, value, object,
}

-- _add
unfoldable pub add : Dict Json → String → ℤ → Dict Json
add bucket key delta = put bucket key (real (or_zero (amount (get bucket key)) +ℤ delta))

abbrev pub str_leb : String → String → Bool
str_leb a b = elim (compare a b) [ Ordering.gt ↦ false | _ ↦ true ]

-- {k: v for k, v in days.items() if k >= cutoff_day}
unfoldable pub prune_days : String → Dict Json → Dict Json
prune_days cutoff [] = []
prune_days cutoff ((k, v) ∷ rest) =
    let kept = prune_days cutoff rest in if str_leb cutoff k then (k, v) ∷ kept else kept

-- str(v.get("day") or "")
abbrev pub day_of : Option Json → String
day_of (some (str s)) = s
day_of _ = ""

unfoldable pub prune_runs : String → Dict Entry → Dict Entry
prune_runs cutoff [] = []
prune_runs cutoff ((k, value v) ∷ rest) = prune_runs cutoff rest
prune_runs cutoff ((k, object e) ∷ rest) =
    let kept = prune_runs cutoff rest in
    if str_leb cutoff (day_of (get e "day")) then (k, object e) ∷ kept else kept

-- sorted(months)
unfoldable pub insert_month : String × Json → Dict Json → Dict Json
insert_month m [] = m ∷ []
insert_month m (n ∷ rest) =
    let later = insert_month m rest in if str_leb m.0 n.0 then m ∷ n ∷ rest else n ∷ later

unfoldable pub sort_months : Dict Json → Dict Json
sort_months [] = []
sort_months (m ∷ rest) = insert_month m (sort_months rest)

unfoldable pub drop : ℕ → Dict Json → Dict Json
drop zero d = d
drop (suc n) [] = []
drop (suc n) (m ∷ d) = drop n d

abbrev pub retain_months : ℕ
retain_months = 24

unfoldable pub prune_months : Dict Json → Dict Json
prune_months d =
    if ltb retain_months (length d) then drop (length d - retain_months) (sort_months d) else d

abbrev pub on_object {ℓ} : {A : Type ℓ} → (Dict A → Dict A) → Option (Field A) → Option (Field A)
on_object f (some (object d)) = some (object (f d))
on_object f o = o

-- _prune
unfoldable pub prune : Doc → Moment → Doc
prune d now = record d {
  days = on_object (prune_days now.cutoff) d.days;
  months = on_object prune_months d.months;
  runs = on_object (prune_runs now.cutoff) d.runs;
}

-- What a run has committed so far.
abbrev pub entry_of : Option Entry → Dict Json
entry_of (some (object e)) = e
entry_of _ = []

unfoldable pub committed : Doc → String → ℤ
committed d run_id = or_zero (amount (get (entry_of (get (entries d.runs) run_id)) "cost_usd"))

-- entry.update({"cost_usd": …, "day": …, "month": …})
unfoldable pub stamp_entry : Dict Json → ℤ → Moment → Dict Json
stamp_entry e cost when =
    put (put (put e "cost_usd" (real cost)) "day" (str when.day)) "month" (str when.month)

-- data.setdefault(key, {}), for a method call on it: none is the AttributeError of a `null`
abbrev pub opened {ℓ} : {A : Type ℓ} → Option (Field A) → Option (Dict A)
opened none = some []
opened (some (object d)) = some d
opened (some (value v)) = none

abbrev pub add_to : Option (Field Json) → String → ℤ → Option (Option (Field Json))
add_to f key delta =
    if is_zero delta then some f else Option.map (λ b. some (object (add b key delta))) (opened f)

abbrev pub book :
    Doc → Dict Entry → Option (Option (Field Json)) → Option (Option (Field Json)) → Option Doc
book d runs (some days) (some months) =
    some (record d { runs = some (object runs); days = days; months = months })
book d runs (some days) none = none
book d runs none months = none

abbrev pub commit_runs : Doc → String → Option ℤ → Moment → Option (Dict Entry) → Option Doc
commit_runs d run_id cost when none = none
commit_runs d run_id cost when (some runs) =
    let delta = or_zero cost -ℤ committed d run_id in
    let e = stamp_entry (entry_of (get runs run_id)) (or_zero cost) when in
    Option.map (λ d'. prune d' when)
      (book d (put runs run_id (object e)) (add_to d.days when.day delta)
        (add_to d.months when.month delta))

-- `commit`, on the document: the entry of the run, the difference to its day and month, the
-- pruning. A field that is `null` is no object to write to: none is the AttributeError.
unfoldable pub commit_doc : Doc → String → Option ℤ → Moment → Option Doc
commit_doc d run_id cost when = commit_runs d run_id cost when (opened d.runs)

-- `record_outcome` and `reset_failures`, on the document
unfoldable pub outcome_doc : Doc → Bool → Doc
outcome_doc d failed = record d {
  failures = some (int (pos (if failed then counter d.failures + 1 else 0)));
}
