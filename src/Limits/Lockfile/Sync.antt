-- ===== src/Limits/Lockfile/Sync.antt =====
-- limits/lockfile.py: `check_locked` finds no drift exactly when the pins are those of the
-- workflow's agents.
use rayspec_py.Prelude.{
  String, Bool, not, Option, none, some, List, [], ◌∷◌, map, select, elem, In, elem→In, In→elem,
  ◌≡◌, ◌≢◌, ◌↔◌, inl, inr, refl, ◌∙◌, ap, sym, subst, arith, Bool-cases, Option-cases,
}
use rayspec_py.Prelude.Dict.{Dict, get, keys, get-In-keys, In-keys-get}
use rayspec_py.Limits.Slots.{insert_sorted}
use rayspec_py.Limits.Lockfile.{
  LockEntry, Lockfile, ResolvedWorkflow, sorted_names, lock_entries_for, pin_drifts, stale_drift,
  stale_keys, check_pinned, check_locked,
}
use rayspec_py.Limits.Lockfile.Wanted.{wanted, get-lock_entries_for, lock_entries_for-Distinct}
use rayspec_py.Limits.Lockfile.Drifts.{append_nil, append_nils, pin_drifts-nil, pin_drifts-pinned}

insert_sorted-some : (k : String) (ks : List String) → insert_sorted k ks ≢ []
insert_sorted-some k [] h = ground arith
insert_sorted-some k (q ∷ qs) h = ground arith

sorted_names-nil : (ks : List String) → sorted_names ks ≡ [] → ks ≡ []
sorted_names-nil [] h = refl
sorted_names-nil (k ∷ ks) h = absurd (insert_sorted-some k (sorted_names ks) h)

module _ {A B : Type 0} (f : A → B) where
  map-nil : (xs : List A) → map f xs ≡ [] → xs ≡ []
  map-nil [] h = refl
  map-nil (x ∷ xs) h = ground arith

module _ (entries : Dict LockEntry) where
  abbrev unpinned : String → Bool
  unpinned key = not (elem key (keys entries))

  select-nil :
      (ks : List String)
      → select unpinned ks ≡ []
      → (key : String) → In key ks
      → In key (keys entries)
  select-nil [] h key m = elim m [ ]
  select-nil (k ∷ ks) h key (inl e) = elim (Bool-cases (elem k (keys entries))) [
    | inl t ↦ subst (λ x. In x (keys entries)) e (elem→In k (keys entries) t)
    | inr t ↦ ground arith
  ]
  select-nil (k ∷ ks) h key (inr m) = elim (Bool-cases (elem k (keys entries))) [
    | inl t ↦ select-nil ks (ground arith) key m
    | inr t ↦ ground arith
  ]

  select-none :
      (ks : List String)
      → ((key : String) → In key ks → In key (keys entries))
      → select unpinned ks ≡ []
  select-none [] h = refl
  select-none (k ∷ ks) h =
      ground
        (arith, In→elem k (keys entries) (h k (inl refl)), select-none ks (λ key m. h key (inr m)))

-- The pins of the workflow are those that its steps' agents want, key by key.
abbrev pub InSync : ResolvedWorkflow → Lockfile → Type 0
InSync r f =
    (pinned : Dict LockEntry) × (get f.workflows r.name ≡ some pinned)
    × ((key : String) → get pinned key ≡ wanted r key)

same_pins :
    (pinned entries : Dict LockEntry)
    → ((key : String) (entry : LockEntry)
        → get entries key ≡ some entry
        → get pinned key ≡ some entry)
    → ((key : String) → In key (keys pinned) → In key (keys entries))
    → (key : String) → get pinned key ≡ get entries key
same_pins pinned entries kept known key = elim (Option-cases (get entries key)) [
  | inr (entry, e) ↦ kept key entry e ∙ sym e
  | inl e ↦ elim (Option-cases (get pinned key)) [
    | inl e' ↦ e' ∙ sym e
    | inr (entry, e') ↦
        absurd (In-keys-get entries key (known key (get-In-keys pinned key entry e')) e)
  ]
]

check_pinned-nil :
    (r : ResolvedWorkflow) (pinned : Dict LockEntry)
    → check_pinned r (some pinned) ≡ []
    → (key : String) → get pinned key ≡ wanted r key
check_pinned-nil r pinned h key =
    let entries = lock_entries_for r in
    let parts = append_nil (pin_drifts pinned entries) _ h in
    let stale : select (unpinned entries) (keys pinned) ≡ [] =
      sorted_names-nil _ (map-nil (stale_drift pinned) (stale_keys entries pinned) parts.1) in
    same_pins pinned entries (pin_drifts-nil pinned entries parts.0)
      (select-nil entries (keys pinned) stale) key
    ∙ get-lock_entries_for r key

pub check_pinned-synced :
    (r : ResolvedWorkflow) (pinned : Dict LockEntry)
    → ((key : String) → get pinned key ≡ wanted r key)
    → check_pinned r (some pinned) ≡ []
check_pinned-synced r pinned h =
    let entries = lock_entries_for r in
    let same : (key : String) → get pinned key ≡ get entries key =
      λ key. h key ∙ sym (get-lock_entries_for r key) in
    let drifts =
      pin_drifts-pinned pinned entries (lock_entries_for-Distinct r)
        (λ key entry e. same key ∙ e) in
    let stale = select-none entries (keys pinned) (λ key m. elim (Option-cases (get entries key)) [
      | inl e ↦ absurd (In-keys-get pinned key m (same key ∙ e))
      | inr (entry, e) ↦ get-In-keys entries key entry e
    ]) in
    append_nils _ _ drifts (ap (λ ks. map (stale_drift pinned) (sorted_names ks)) stale)

pinned_for :
    (r : ResolvedWorkflow) (o : Option (Dict LockEntry))
    → check_pinned r o ≡ []
    → (pinned : Dict LockEntry) × (o ≡ some pinned)
      × ((key : String) → get pinned key ≡ wanted r key)
pinned_for r none h = ground arith
pinned_for r (some pinned) h = (pinned, refl, check_pinned-nil r pinned h)

check_pinned_iff :
    (r : ResolvedWorkflow) (o : Option (Dict LockEntry))
    → check_pinned r o ≡ [] ↔ (
        (pinned : Dict LockEntry) × (o ≡ some pinned)
        × ((key : String) → get pinned key ≡ wanted r key))
check_pinned_iff r o = (
  pinned_for r o,
  λ h. subst (λ x. check_pinned r x ≡ []) (sym h.1) (check_pinned-synced r h.0 h.2),
)

-- A workflow has no drift exactly when the lockfile has an entry for it that pins each agent a
-- step resolves to, to its provider, model and effort, and pins no other agent.
pub check_locked_iff :
    (r : ResolvedWorkflow) (f : Lockfile) → check_locked r (some f) ≡ [] ↔ InSync r f
unfolding check_locked
check_locked_iff r f = check_pinned_iff r (get f.workflows r.name)
