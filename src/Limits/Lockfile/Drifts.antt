-- ===== src/Limits/Lockfile/Drifts.antt =====
-- limits/lockfile.py: when the loop of `check_locked` over the agents of a workflow finds no drift.
use rayspec_py.Prelude.{
  String, true, Option, none, some, List, [], ◌∷◌, ◌++◌, eq_iff, ◌≡◌, inl, inr, refl, ap, sym,
  arith, Bool-cases,
}
use rayspec_py.Prelude.Dict.{Distinct, Dict, get, get-In-keys}
use rayspec_py.Limits.Lockfile.{
  LockEntry, LockDrift, option_eq, field_drift, entry_drifts, pin_drifts,
}

option_eq_refl : (a : Option String) → option_eq a a ≡ true
option_eq_refl none = refl
option_eq_refl (some a) = ground (arith, eq_iff a a)

option_eq-eq : (a b : Option String) → option_eq a b ≡ true → a ≡ b
option_eq-eq none none h = refl
option_eq-eq none (some b) h = ground arith
option_eq-eq (some a) none h = ground arith
option_eq-eq (some a) (some b) h = ground (arith, eq_iff a b)

module _ {ℓ} {A : Type ℓ} where
  pub append_nil : (xs ys : List A) → xs ++ ys ≡ [] → (xs ≡ []) × (ys ≡ [])
  append_nil [] ys h = (refl, h)
  append_nil (x ∷ xs) ys h = ground arith

  pub append_nils : (xs ys : List A) → xs ≡ [] → ys ≡ [] → xs ++ ys ≡ []
  append_nils xs ys h k = rw (h, k) refl

field_drift-nil :
    (key name : String) (have expected : Option String)
    → field_drift key name have expected ≡ []
    → have ≡ expected
field_drift-nil key name have expected h = elim (Bool-cases (option_eq have expected)) [
  | inl e ↦ option_eq-eq have expected e
  | inr e ↦ ground arith
]

field_drift_refl : (key name : String) (a : Option String) → field_drift key name a a ≡ []
field_drift_refl key name a = ground (arith, option_eq_refl a)

same_entry :
    (a b : LockEntry)
    → some a.provider ≡ some b.provider
    → a.model ≡ b.model
    → a.effort ≡ b.effort
    → a ≡ b
same_entry a b p m e = cc

entry_drifts-nil :
    (key : String) (entry : LockEntry) (want : Option LockEntry)
    → entry_drifts key entry want ≡ []
    → want ≡ some entry
entry_drifts-nil key entry none h = ground arith
entry_drifts-nil key entry (some want) h =
    let outer = append_nil (provider ++ model) effort h in
    let inner = append_nil provider model outer.0 in
    ap some (
      same_entry want entry
        (sym (field_drift-nil key "provider" (some entry.provider) (some want.provider) inner.0))
        (sym (field_drift-nil key "model" entry.model want.model inner.1))
        (sym (field_drift-nil key "effort" entry.effort want.effort outer.1)))
  where
    provider : List LockDrift
    provider = field_drift key "provider" (some entry.provider) (some want.provider)

    model : List LockDrift
    model = field_drift key "model" entry.model want.model

    effort : List LockDrift
    effort = field_drift key "effort" entry.effort want.effort

entry_drifts_refl : (key : String) (entry : LockEntry) → entry_drifts key entry (some entry) ≡ []
entry_drifts_refl key entry =
    rw
      (
        field_drift_refl key "provider" (some entry.provider),
        field_drift_refl key "model" entry.model,
        field_drift_refl key "effort" entry.effort,
      )
      refl

-- No drift: whatever is to be pinned is.
pub pin_drifts-nil :
    (pinned entries : Dict LockEntry)
    → pin_drifts pinned entries ≡ []
    → (key : String) (entry : LockEntry) → get entries key ≡ some entry
    → get pinned key ≡ some entry
unfolding pin_drifts get
pin_drifts-nil pinned [] h key entry e = ground arith
pin_drifts-nil pinned ((j, w) ∷ rest) h key entry e =
    let parts = append_nil (entry_drifts j w (get pinned j)) _ h in
    let here = entry_drifts-nil j w (get pinned j) parts.0 in
    let there = pin_drifts-nil pinned rest parts.1 key entry in
    ground (arith, eq_iff j key, here, there)

pub pin_drifts-pinned :
    (pinned entries : Dict LockEntry)
    → Distinct entries
    → ((key : String) (entry : LockEntry)
        → get entries key ≡ some entry
        → get pinned key ≡ some entry)
    → pin_drifts pinned entries ≡ []
unfolding pin_drifts get
pin_drifts-pinned pinned [] d h = refl
pin_drifts-pinned pinned ((j, w) ∷ rest) d h =
    let here : get pinned j ≡ some w = h j w (ground (arith, eq_iff j j)) in
    let there : pin_drifts pinned rest ≡ [] = pin_drifts-pinned pinned rest d.1 (λ key entry e.
      h key entry (ground (arith, eq_iff j key, get-In-keys rest key entry e, d.0))) in
    rw (here, entry_drifts_refl j w) there
