-- ===== src/Engine/Graph/Build/Linked.antt =====
-- engine/graph.py: what the loops of `from_steps` leave in `by_id`, `needs`, `dependents` and
-- `roots`.
use rayspec_py.Prelude.{
  String, ◌≡◌, ◌≢◌, refl, sym, ap, ◌∙◌, subst, inl, inr, ◌⊎◌, false, not, ◌&&◌, Option, some, List,
  [], ◌∷◌, ◌++◌, arith, eq_iff, In, All, Any, elem, Bool-cases, if◌then◌else◌,
}
use rayspec_py.Prelude.Dict.{Dict, get, put, get-put}
use rayspec_py.Prelude.Result.{ok}
use rayspec_py.Schema.{StepModel}
use rayspec_py.Engine.Graph.Build.{
  index, dedupe, Links, link, add_dependent, or_empty, no_dependents, roots_of,
}
use rayspec_py.Engine.Graph.Build.Checked.{Unique, index-cons, link-cons, record_needs}

-- The ids of the steps that need `n`, in the order of the list.
abbrev pub users : String → List StepModel → List String
users n [] = []
users n (s ∷ steps) = let rest = users n steps in if elem n s.needs then s.id ∷ rest else rest

-- The ids of the steps without needs, in the order of the list.
abbrev pub free : List StepModel → List String
free [] = []
free (s ∷ steps) = let rest = free steps in elim s.needs [ [] ↦ s.id ∷ rest | _ ∷ _ ↦ rest ]

index-Keeps :
    (steps : List StepModel) (d d' : Dict StepModel)
    → index steps d ≡ ok d'
    → (k : String) → All (λ t. k ≢ t.id) steps
    → get d' k ≡ get d k
index-Keeps [] d d' h k a = unfold index in ground arith
index-Keeps (s ∷ steps) d d' h k a =
    let (fresh, h') = index-cons s steps d d' h in
    index-Keeps steps (put d s.id s) d' h' k a.1
    ∙ ground (arith, a.0, get-put d s.id k s, eq_iff s.id k)

-- `by_id` has every step under its id.
pub index-by_id :
    (steps : List StepModel) (d d' : Dict StepModel)
    → index steps d ≡ ok d'
    → Unique steps
    → All (λ s. get d' s.id ≡ some s) steps
index-by_id [] d d' h u = tt
index-by_id (s ∷ steps) d d' h u =
    let (fresh, h') = index-cons s steps d d' h in
    (
      index-Keeps steps (put d s.id s) d' h' s.id u.0
          ∙ ground (arith, get-put d s.id s.id s, eq_iff s.id s.id),
      index-by_id steps (put d s.id s) d' h' u.1,
    )

-- No text stands twice.
abbrev NoneTwice : List String → Type 0
NoneTwice [] = Unit
NoneTwice (x ∷ xs) = (elem x xs ≡ false) × NoneTwice xs

elem-dedupe :
    (k : String) (seen xs : List String)
    → elem k (dedupe seen xs) ≡ (elem k xs && not (elem k seen))
unfolding dedupe
elem-dedupe k seen [] = refl
elem-dedupe k seen (x ∷ xs) =
    ground (arith, eq_iff x k, elem-dedupe k seen xs, elem-dedupe k (x ∷ seen) xs)

dedupe-NoneTwice : (seen xs : List String) → NoneTwice (dedupe seen xs)
unfolding dedupe
dedupe-NoneTwice seen [] = tt
dedupe-NoneTwice seen (x ∷ xs) = elim (Bool-cases (elem x seen)) [
  | inl old ↦ rw old (dedupe-NoneTwice seen xs)
  | inr new ↦
      rw new
        (ground (arith, eq_iff x x, elem-dedupe x (x ∷ seen) xs), dedupe-NoneTwice (x ∷ seen) xs)
]

elem-needs : (k : String) (xs : List String) → elem k (dedupe [] xs) ≡ elem k xs
elem-needs k xs = ground (arith, elem-dedupe k [] xs)

get-add_dependent :
    (sid k : String) (ns : List String) (d : Dict (List String))
    → NoneTwice ns
    → get (add_dependent sid ns d) k
      ≡ (if elem k ns then some (or_empty (get d k) ++ sid ∷ []) else get d k)
unfolding add_dependent
get-add_dependent sid k [] d h = refl
get-add_dependent sid k (n ∷ ns) d h = ground (
  arith,
  eq_iff n k,
  h.0,
  get-put d n k (or_empty (get d n) ++ sid ∷ []),
  get-add_dependent sid k ns (put d n (or_empty (get d n) ++ sid ∷ [])) h.1,
)

append_nil_right : {A : Type 0} (xs : List A) → xs ++ [] ≡ xs
append_nil_right [] = refl
append_nil_right (x ∷ xs) = ap (λ zs. x ∷ zs) (append_nil_right xs)

append_cons : {A : Type 0} (xs : List A) (v : A) (vs : List A) → (xs ++ v ∷ []) ++ vs ≡ xs ++ v ∷ vs
append_cons [] v vs = refl
append_cons (x ∷ xs) v vs = ap (λ zs. x ∷ zs) (append_cons xs v vs)

-- The entry of `k` after the step `s` is recorded.
record_needs-dependents :
    (by_id : Dict StepModel) (s : StepModel) (l : Links) (k : String) (ds : List String)
    → get l.dependents k ≡ some ds
    → get (record_needs by_id s l).dependents k
      ≡ (if elem k s.needs then some (ds ++ s.id ∷ []) else some ds)
record_needs-dependents by_id s l k ds h = ground (
  arith,
  elem-needs k s.needs,
  get-add_dependent s.id k (dedupe [] s.needs) l.dependents (dedupe-NoneTwice [] s.needs),
)

-- `dependents` is the inverse of the needs.
pub link-dependents :
    (by_id : Dict StepModel) (steps : List StepModel) (l l' : Links) (k : String) (ds : List String)
    → link by_id steps l ≡ ok l'
    → get l.dependents k ≡ some ds
    → get l'.dependents k ≡ some (ds ++ users k steps)
link-dependents by_id [] l l' k ds h e =
    let same : l ≡ l' = unfold link in ground arith in
    subst (λ (x : Links). get x.dependents k ≡ some (ds ++ [])) same
      (e ∙ ap some (sym (append_nil_right ds)))
link-dependents by_id (s ∷ steps) l l' k ds h e =
    let (checked, h') = link-cons by_id s steps l l' h in
    let here = record_needs-dependents by_id s l k ds e in
    elim (Bool-cases (elem k s.needs)) [
      | inl uses ↦ rw uses (
          link-dependents by_id steps (record_needs by_id s l) l' k (ds ++ s.id ∷ []) h'
            (rw uses at here)
          ∙ ap some (append_cons ds s.id (users k steps)))
      | inr other ↦
          rw other
            (link-dependents by_id steps (record_needs by_id s l) l' k ds h' (rw other at here))
    ]

pub no_dependents-nil :
    (k : String) (ks : List String) → In k ks → get (no_dependents ks) k ≡ some []
unfolding get
no_dependents-nil k [] m = elim m [ ]
no_dependents-nil k (j ∷ ks) m = ground (arith, eq_iff j k, no_dependents-nil k ks)

-- An entry of `needs` is that of a step.
pub link-Origin :
    (by_id : Dict StepModel) (steps : List StepModel) (l l' : Links) (a : String) (ns : List String)
    → link by_id steps l ≡ ok l'
    → get l'.needs a ≡ some ns
    → Any (λ s. (s.id ≡ a) × (dedupe [] s.needs ≡ ns)) steps ⊎ (get l.needs a ≡ some ns)
link-Origin by_id [] l l' a ns h e = unfold link in inr (ground arith)
link-Origin by_id (s ∷ steps) l l' a ns h e =
    let (checked, h') = link-cons by_id s steps l l' h in
    elim (link-Origin by_id steps (record_needs by_id s l) l' a ns h' e) [
      | inl later ↦ inl (inr later)
      | inr now ↦ ground (arith, get-put l.needs s.id a (dedupe [] s.needs), eq_iff s.id a)
    ]

dedupe-nil :
    (x : String) (xs : List String)
    → (y : String) × (ys : List String) × (dedupe [] (x ∷ xs) ≡ y ∷ ys)
unfolding dedupe
dedupe-nil x xs = (x, dedupe (x ∷ []) xs, refl)

root_here :
    (s : StepModel) (o : Option (List String)) (rest : List String) (ns : List String)
    → s.needs ≡ ns
    → o ≡ some (dedupe [] ns)
    → elim (or_empty o) [ [] ↦ s.id ∷ rest | _ ∷ _ ↦ rest ]
      ≡ elim s.needs [ [] ↦ s.id ∷ rest | _ ∷ _ ↦ rest ]
unfolding dedupe
root_here s o rest [] e h = rw (e, h) refl
root_here s o rest (x ∷ xs) e h = rw (e, h) refl

-- `roots` are the steps without needs.
pub roots_of-free :
    (needs : Dict (List String)) (steps : List StepModel)
    → All (λ s. get needs s.id ≡ some (dedupe [] s.needs)) steps
    → roots_of needs steps ≡ free steps
unfolding roots_of
roots_of-free needs [] h = refl
roots_of-free needs (s ∷ steps) h =
    root_here s (get needs s.id) (roots_of needs steps) s.needs refl h.0
    ∙ ap (λ r. elim s.needs [ [] ↦ s.id ∷ r | _ ∷ _ ↦ r ]) (roots_of-free needs steps h.1)
