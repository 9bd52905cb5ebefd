-- ===== src/Limits/Lockfile/Relocked.antt =====
-- limits/lockfile.py: what `rayspec lock` of one workflow does to the pins.
use rayspec_py.Prelude.{
  String, some, [], ◌∷◌, or_else, str_eq, eq_iff, if◌then◌else◌, ◌≡◌, ◌≢◌, refl, ap, sym, ◌∙◌,
  subst, true, inl, inr, arith, Bool-cases, Option-cases,
}
use rayspec_py.Prelude.Dict.{Distinct, Dict, get, put, get-put, get-In-keys}
use rayspec_py.Limits.Lockfile.{
  LockEntry, Lockfile, ResolvedWorkflow, lock_entries_for, check_pinned, check_locked, merge,
  merged_workflows,
}
use rayspec_py.Limits.Lockfile.Wanted.{get-lock_entries_for}
use rayspec_py.Limits.Lockfile.Sync.{check_pinned-synced}

get-merge :
    (merged updates : Dict (Dict LockEntry))
    → Distinct updates
    → (name : String)
    → get (merge merged updates) name ≡ or_else (get updates name) (get merged name)
unfolding get
get-merge merged [] d name = refl
get-merge merged ((n, entries) ∷ rest) d name = elim (Option-cases (get rest name)) [
  | inl e ↦ ground (
    arith,
    eq_iff n name,
    e,
    get-put merged n name entries,
    get-merge (put merged n entries) rest d.1 name,
  )
  | inr (found, e) ↦ ground (
    arith,
    eq_iff n name,
    e,
    d.0,
    get-In-keys rest name found e,
    get-merge (put merged n entries) rest d.1 name,
  )
]

-- The lockfile that `rayspec lock` writes for one workflow.
abbrev pub relock : ResolvedWorkflow → Lockfile → Lockfile
relock r f = record f { workflows = merged_workflows (some f) ((r.name, lock_entries_for r) ∷ []) }

get-relock :
    (r : ResolvedWorkflow) (f : Lockfile) (name : String)
    → Distinct f.workflows
    → get (relock r f).workflows name
      ≡ (if str_eq r.name name then some (lock_entries_for r) else get f.workflows name)
unfolding merged_workflows get
get-relock r f name d = elim (Option-cases (get f.workflows name)) [
  | inl e ↦ ground (
    arith,
    e,
    eq_iff r.name name,
    get-put (merge [] f.workflows) r.name name (lock_entries_for r),
    get-merge [] f.workflows d name,
  )
  | inr (found, e) ↦ ground (
    arith,
    e,
    eq_iff r.name name,
    get-put (merge [] f.workflows) r.name name (lock_entries_for r),
    get-merge [] f.workflows d name,
  )
]

-- After a workflow is locked anew it has no drift, and each workflow of another name has the drift
-- that it had. The names in the lockfile are distinct.
pub relock_in_sync :
    (r s : ResolvedWorkflow) (f : Lockfile)
    → Distinct f.workflows
    → s.name ≢ r.name
    → (check_locked r (some (relock r f)) ≡ [])
      × (check_locked s (some (relock r f)) ≡ check_locked s (some f))
unfolding check_locked
relock_in_sync r s f d other = (
  subst (λ o. check_pinned r o ≡ []) (sym (here r.name (ground (arith, eq_iff r.name r.name))))
      (check_pinned-synced r (lock_entries_for r) (get-lock_entries_for r)),
  ap (check_pinned s) (there s.name other),
)
  where
    here :
        (name : String)
        → str_eq r.name name ≡ true
        → get (relock r f).workflows name ≡ some (lock_entries_for r)
    here name e = ground (arith, get-relock r f name d)

    there : (name : String) → name ≢ r.name → get (relock r f).workflows name ≡ get f.workflows name
    there name other = elim (Bool-cases (str_eq r.name name)) [
      | inl e ↦ ground (arith, eq_iff r.name name)
      | inr e ↦
          get-relock r f name d
          ∙ ap (λ b. if b then some (lock_entries_for r) else get f.workflows name) e
    ]
