-- ===== src/Limits/Ledger/Commits.antt =====
-- `commit`: what it books, and where it raises.
use mathlib.Core.Option
use rayspec_py.Prelude.{
  String, ◌≡◌, refl, sym, true, Option, none, some, List, [], ◌∷◌, ap, inl, inr, arith, str_eq,
  eq_iff, Bool-cases, Option-cases,
}
use rayspec_py.Prelude.Dict.{Dict, get, put, get-put}
use rayspec_py.Prelude.Int.{ℤ, ◌+ℤ◌, ◌-ℤ◌, is_zero, +ℤ_zero, +ℤ_self, +ℤ_telescope}
use rayspec_py.Limits.Ledger.{
  Json, real, str, null, Field, value, object, Entry, Doc, Moment, amount, or_zero, entries,
  state_of, repair, repair_runs_field, Broken,
}
use rayspec_py.Limits.Ledger.Books.{
  add, str_leb, prune_days, prune_runs, day_of, on_object, prune, entry_of, committed, stamp_entry,
  opened, add_to, book, commit_runs, commit_doc,
}
use rayspec_py.Limits.Ledger.File.{holds, Ledger, version_problem, read_file, commit, note_broken}

get-prune_days :
    (cutoff k : String) (d : Dict Json)
    → str_leb cutoff k ≡ true
    → get (prune_days cutoff d) k ≡ get d k
unfolding get prune_days
get-prune_days cutoff k [] h = refl
get-prune_days cutoff k ((j, v) ∷ d) h = ground (arith, eq_iff j k, get-prune_days cutoff k d h)

get-prune_runs :
    (cutoff k : String) (d : Dict Entry) (e : Dict Json)
    → str_leb cutoff (day_of (get e "day")) ≡ true
    → get d k ≡ some (object e)
    → get (prune_runs cutoff d) k ≡ some (object e)
unfolding prune_runs get
get-prune_runs cutoff k [] e h g = cc
get-prune_runs cutoff k ((j, value v) ∷ d) e h g =
    ground (arith, eq_iff j k, get-prune_runs cutoff k d e h)
get-prune_runs cutoff k ((j, object f) ∷ d) e h g = elim (Bool-cases (str_eq j k)) [
  | inl same ↦
      let e' : f ≡ e = ground (arith, same) in
      let kept : str_leb cutoff (day_of (get f "day")) ≡ true = rw e' h in
      ground (arith, same, kept)
  | inr other ↦ ground (arith, other, get-prune_runs cutoff k d e h)
]

-- The entry that `commit` writes holds the total and the day.
stamp-cost :
    (e : Dict Json) (c : ℤ) (m : Moment) → get (stamp_entry e c m) "cost_usd" ≡ some (real c)
unfolding stamp_entry
stamp-cost e c m = simp get-put

amount-stamp :
    (e : Dict Json) (c : ℤ) (m : Moment) → amount (get (stamp_entry e c m) "cost_usd") ≡ some c
unfolding amount
amount-stamp e c m = rw stamp-cost

stamp-day : (e : Dict Json) (c : ℤ) (m : Moment) → get (stamp_entry e c m) "day" ≡ some (str m.day)
unfolding stamp_entry
stamp-day e c m = simp get-put

opened-entries {ℓ} :
    {A : Type ℓ} (f : Option (Field A)) {b : Dict A} → opened f ≡ some b → entries f ≡ b
opened-entries none h = ground arith
opened-entries (some (object d)) h = ground arith
opened-entries (some (value v)) h = ground arith

amount-add :
    (b : Dict Json) (key : String) (delta : ℤ)
    → amount (get (add b key delta) key) ≡ some (or_zero (amount (get b key)) +ℤ delta)
unfolding add amount
amount-add b key delta =
    ground (arith, get-put b key key (real (or_zero (amount (get b key)) +ℤ delta)), eq_iff key key)

get-add_to :
    (f f' : Option (Field Json)) (key : String) (delta : ℤ)
    → add_to f key delta ≡ some f'
    → or_zero (amount (get (entries f') key)) ≡ or_zero (amount (get (entries f) key)) +ℤ delta
get-add_to f f' key delta h = elim (Bool-cases (is_zero delta)) [
  | inl z ↦
      let e : f ≡ f' = ground (arith, z) in
      rw (← e) (sym (+ℤ_zero (or_zero (amount (get (entries f) key))) delta z))
  | inr nz ↦ elim (Option-cases (opened f)) [
    | inl shut ↦ ground (arith, nz, shut)
    | inr (b, e) ↦
        let e' : some (object (add b key delta)) ≡ f' = ground (arith, nz, e) in
        rw (← e', opened-entries f e, amount-add b key delta)
  ]
]

-- The parts of a commit that succeeds.
record Booked (d : Doc) (run_id : String) (cost : Option ℤ) (when : Moment) (d' : Doc)
    : Type 0 where
  runs : Dict Entry
  days : Option (Field Json)
  months : Option (Field Json)
  has_runs : opened d.runs ≡ some runs
  has_days : add_to d.days when.day (or_zero cost -ℤ committed d run_id) ≡ some days
  has_months : add_to d.months when.month (or_zero cost -ℤ committed d run_id) ≡ some months
  result :
      d'
      ≡ prune
          (record d {
            runs = some (
                object (
                  put runs run_id
                    (object (stamp_entry (entry_of (get runs run_id)) (or_zero cost) when))));
            days = days;
            months = months;
          })
          when

Booked-of-book :
    (d d' : Doc) (run_id : String) (cost : Option ℤ) (when : Moment) (runs : Dict Entry)
    → opened d.runs ≡ some runs
    → (days months : Option (Option (Field Json)))
    → add_to d.days when.day (or_zero cost -ℤ committed d run_id) ≡ days
    → add_to d.months when.month (or_zero cost -ℤ committed d run_id) ≡ months
    → Option.map
        (λ x. prune x when)
        (book d
          (put runs run_id (object (stamp_entry (entry_of (get runs run_id)) (or_zero cost) when)))
          days
          months)
      ≡ some d'
    → Booked d run_id cost when d'
Booked-of-book d d' run_id cost when runs hr none months hd hm h = ground arith
Booked-of-book d d' run_id cost when runs hr (some days) none hd hm h = ground arith
Booked-of-book d d' run_id cost when runs hr (some days) (some months) hd hm h = record {
  runs = runs;
  days = days;
  months = months;
  has_runs = hr;
  has_days = hd;
  has_months = hm;
  result = ground arith;
}

Booked-of-runs :
    (d d' : Doc) (run_id : String) (cost : Option ℤ) (when : Moment) (o : Option (Dict Entry))
    → opened d.runs ≡ o
    → commit_runs d run_id cost when o ≡ some d'
    → Booked d run_id cost when d'
Booked-of-runs d d' run_id cost when none hr h = ground arith
Booked-of-runs d d' run_id cost when (some runs) hr h =
    Booked-of-book d d' run_id cost when runs hr _ _ refl refl h

commit_doc-Booked :
    (d d' : Doc) (run_id : String) (cost : Option ℤ) (when : Moment)
    → commit_doc d run_id cost when ≡ some d'
    → Booked d run_id cost when d'
unfolding commit_doc
commit_doc-Booked d d' run_id cost when h =
    Booked-of-runs d d' run_id cost when (opened d.runs) refl h

-- A moment whose day is kept by the pruning, as the day of every real moment is.
abbrev pub IsKept : Moment → Type 0
IsKept when = str_leb when.cutoff when.day ≡ true

entries-on_object-days :
    (cutoff k : String) (f : Option (Field Json))
    → str_leb cutoff k ≡ true
    → get (entries (on_object (prune_days cutoff) f)) k ≡ get (entries f) k
entries-on_object-days cutoff k none h = refl
entries-on_object-days cutoff k (some (value v)) h = refl
entries-on_object-days cutoff k (some (object d)) h = get-prune_days cutoff k d h

-- A commit books exactly the difference to what the run had committed before into the day of the
-- commit, and the run's total is then what was committed.
pub commit_doc_books :
    (d d' : Doc) (run_id : String) (cost : Option ℤ) (when : Moment)
    → IsKept when
    → commit_doc d run_id cost when ≡ some d'
    → ((state_of d' when).day_usd
        ≡ (state_of d when).day_usd +ℤ (or_zero cost -ℤ committed d run_id))
      × (committed d' run_id ≡ or_zero cost)
unfolding state_of committed prune
commit_doc_books d d' run_id cost when kept h =
    let b = commit_doc-Booked d d' run_id cost when h in
    (
      rw b.result (
          rw (entries-on_object-days when.cutoff when.day b.days kept)
            (get-add_to d.days b.days when.day _ b.has_days)),
      rw b.result (
          rw
            (get-prune_runs when.cutoff run_id (put b.runs run_id (object (stamp b))) (stamp b)
              (stamp_kept b) (stamp_in b))
            (rw amount-stamp)),
    )
  where
    stamp : Booked d run_id cost when d' → Dict Json
    stamp b = stamp_entry (entry_of (get b.runs run_id)) (or_zero cost) when

    stamp_kept :
        (b : Booked d run_id cost when d')
        → str_leb when.cutoff (day_of (get (stamp b) "day")) ≡ true
    stamp_kept b = rw stamp-day kept

    stamp_in :
        (b : Booked d run_id cost when d')
        → get (put b.runs run_id (object (stamp b))) run_id ≡ some (object (stamp b))
    stamp_in b =
        ground (arith, get-put b.runs run_id run_id (object (stamp b)), eq_iff run_id run_id)

abbrev and_then : Option Doc → (Doc → Option Doc) → Option Doc
and_then none f = none
and_then (some d) f = f d

-- The totals that one run commits one after the other, at one moment.
unfoldable pub commit_all : Doc → String → List (Option ℤ) → Moment → Option Doc
commit_all d run_id [] when = some d
commit_all d run_id (c ∷ cs) when =
    and_then (commit_doc d run_id c when) (λ d'. commit_all d' run_id cs when)

abbrev last_or : ℤ → List (Option ℤ) → ℤ
last_or x [] = x
last_or x (c ∷ cs) = last_or (or_zero c) cs

-- However often a run commits, with repeats and corrections, its day is charged exactly the last
-- total less what it had committed before the first: nothing is counted twice.
pub commit_all_books :
    (d d' : Doc) (run_id : String) (costs : List (Option ℤ)) (when : Moment)
    → IsKept when
    → commit_all d run_id costs when ≡ some d'
    → (state_of d' when).day_usd
      ≡ (state_of d when).day_usd +ℤ (last_or (committed d run_id) costs -ℤ committed d run_id)
unfolding commit_all
commit_all_books d d' run_id [] when kept h =
    let e : d ≡ d' = ground arith in rw (← e) (sym (+ℤ_self _ _))
commit_all_books d d' run_id (c ∷ cs) when kept h =
    elim (Option-cases (commit_doc d run_id c when)) [
      | inl raised ↦ let k = rw raised at h in cc
      | inr (mid, e) ↦
          let (booked, now) = commit_doc_books d mid run_id c when kept e in
          let later = commit_all_books mid d' run_id cs when kept (rw e at h) in
          rw (later, now, booked)
            (+ℤ_telescope (state_of d when).day_usd (committed d run_id) (or_zero c)
              (last_or (or_zero c) cs))
    ]

null_runs_doc : (d : Doc) → d.runs ≡ some (value null) → (repair d).0.runs ≡ some (value null)
unfolding repair repair_runs_field
null_runs_doc d hr = rw hr

null_runs_raise :
    (d : Doc) (run_id : String) (cost : Option ℤ) (when : Moment)
    → d.runs ≡ some (value null)
    → commit_doc d run_id cost when ≡ none
unfolding commit_doc
null_runs_raise d run_id cost when hr = ap (λ o. commit_runs d run_id cost when (opened o)) hr

file-note_broken : (l : Ledger) (b : List Broken) → (note_broken l b).file ≡ l.file
file-note_broken l [] = refl
file-note_broken l (x ∷ b) = refl

-- Every commit to a ledger whose file holds a document with a version that is understood and
-- `runs: null` raises, and leaves the file as it is: the next one meets the same document.
pub commit_null_runs :
    (l : Ledger) (d : Doc) (run_id : String) (cost : Option ℤ) (when : Moment)
    → l.file ≡ holds d
    → version_problem d.version ≡ none
    → d.runs ≡ some (value null)
    → ((commit l run_id cost when).0 ≡ none) × ((commit l run_id cost when).1.file ≡ l.file)
unfolding commit read_file
commit_null_runs l d run_id cost when hl hv hr =
    let k = null_runs_raise (repair d).0 run_id cost when (null_runs_doc d hr) in
    ground (arith, k, file-note_broken l (repair d).1)
