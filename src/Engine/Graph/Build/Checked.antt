-- ===== src/Engine/Graph/Build/Checked.antt =====
-- What a graph that `from_steps` returns, and an error that it raises, say of the steps.
use rayspec_py.Prelude.{
  String, ◌≡◌, ◌≢◌, sym, ◌∙◌, subst, inl, inr, ◌⊎◌, true, none, some, List, [], ◌∷◌, arith, str_eq,
  eq_iff, is_some, In, All, All-map, Any, elem, Bool-cases,
}
use rayspec_py.Prelude.Dict.{Dict, get, put, keys, get-put, get-In-keys}
use rayspec_py.Prelude.Result.{ok, >>=-eq-ok}
use rayspec_py.Schema.{StepModel}
use rayspec_py.Engine.Graph.Acyclic.Fuel.{IsClosed}
use rayspec_py.Engine.Graph.Build.{
  index, dedupe, check_needs, Links, link, add_dependent, no_dependents,
}

abbrev pub Ids : List StepModel → String → Type 0
Ids steps n = Any (λ s. s.id ≡ n) steps

-- No two steps share an id.
abbrev pub Unique : List StepModel → Type 0
Unique [] = Unit
Unique (s ∷ steps) = All (λ t. s.id ≢ t.id) steps × Unique steps

pub index-cons :
    (s : StepModel) (steps : List StepModel) (d d' : Dict StepModel)
    → index (s ∷ steps) d ≡ ok d'
    → (get d s.id ≡ none) × (index steps (put d s.id s) ≡ ok d')
unfolding index
index-cons s steps d d' h = ground arith

-- `index` finds the ids of the steps, and adds no other.
pub index-Ids :
    (steps : List StepModel) (d d' : Dict StepModel)
    → index steps d ≡ ok d'
    → (n : String) → is_some (get d' n) ≡ true
    → (is_some (get d n) ≡ true) ⊎ Ids steps n
index-Ids [] d d' h n i = unfold index in ground arith
index-Ids (s ∷ steps) d d' h n i =
    let (fresh, h') = index-cons s steps d d' h in
    elim (index-Ids steps (put d s.id s) d' h' n i) [
      | inl old ↦ ground (arith, get-put d s.id n s, eq_iff s.id n)
      | inr new ↦ inr (inr new)
    ]

-- `index` refuses an id that it has already.
index-Fresh :
    (steps : List StepModel) (d d' : Dict StepModel)
    → index steps d ≡ ok d'
    → Unique steps × All (λ s. get d s.id ≡ none) steps
index-Fresh [] d d' h = (tt, tt)
index-Fresh (s ∷ steps) d d' h =
    let (fresh, h') = index-cons s steps d d' h in
    let (u, a) = index-Fresh steps (put d s.id s) d' h' in
    (
      (All-map (λ t e. ground (arith, get-put d s.id t.id s, eq_iff s.id t.id)) steps a, u),
      (fresh, All-map (λ t e. ground (arith, get-put d s.id t.id s, eq_iff s.id t.id)) steps a),
    )

pub dedupe-In : (n : String) (seen xs : List String) → In n (dedupe seen xs) → In n xs
unfolding dedupe
dedupe-In n seen [] m = m
dedupe-In n seen (x ∷ xs) m = elim (Bool-cases (elem x seen)) [
  | inl old ↦ inr (dedupe-In n seen xs (rw old at m))
  | inr new ↦ elim (rw new at m) [ inl e ↦ inl e | inr i ↦ inr (dedupe-In n (x ∷ seen) xs i) ]
]

module _ (by_id : Dict StepModel) where
  check_needs-cons :
      (sid need : String) (needs : List String)
      → check_needs by_id sid (need ∷ needs) ≡ ok tt
      → (is_some (get by_id need) ≡ true) × (need ≢ sid) × (check_needs by_id sid needs ≡ ok tt)
  unfolding check_needs
  check_needs-cons sid need needs h = ground (arith, eq_iff need sid)

  -- Needs that pass are steps of the list, and not the step itself.
  check_needs-known :
      (sid : String) (needs : List String)
      → check_needs by_id sid needs ≡ ok tt
      → (n : String) → In n needs
      → is_some (get by_id n) ≡ true
  check_needs-known sid [] h n m = elim m [ ]
  check_needs-known sid (need ∷ needs) h n m =
      let (known, other, h') = check_needs-cons sid need needs h in
      elim m [
        | inl e ↦ subst (λ x. is_some (get by_id x) ≡ true) e known
        | inr i ↦ check_needs-known sid needs h' n i
      ]

  abbrev pub record_needs : StepModel → Links → Links
  record_needs s l = record {
    needs = put l.needs s.id (dedupe [] s.needs);
    dependents = add_dependent s.id (dedupe [] s.needs) l.dependents;
  }

  pub link-cons :
      (s : StepModel) (steps : List StepModel) (l l' : Links)
      → link by_id (s ∷ steps) l ≡ ok l'
      → (check_needs by_id s.id s.needs ≡ ok tt) × (link by_id steps (record_needs s l) ≡ ok l')
  unfolding link
  link-cons s steps l l' h =
      let (u, e, h') = >>=-eq-ok (check_needs by_id s.id s.needs) _ h in (e, h')

  link-Keeps :
      (steps : List StepModel) (l l' : Links)
      → link by_id steps l ≡ ok l'
      → (k : String) → All (λ t. k ≢ t.id) steps
      → get l'.needs k ≡ get l.needs k
  link-Keeps [] l l' h k a = unfold link in ground arith
  link-Keeps (s ∷ steps) l l' h k a =
      let (checked, h') = link-cons s steps l l' h in
      link-Keeps steps (record_needs s l) l' h' k a.1
      ∙ ground (arith, a.0, get-put l.needs s.id k (dedupe [] s.needs), eq_iff s.id k)

  abbrev Recorded : Dict (List String) → List StepModel → Type 0
  Recorded needs = All (λ s. get needs s.id ≡ some (dedupe [] s.needs))

  link-Recorded :
      (steps : List StepModel) (l l' : Links)
      → link by_id steps l ≡ ok l'
      → Unique steps
      → Recorded l'.needs steps
  link-Recorded [] l l' h u = tt
  link-Recorded (s ∷ steps) l l' h u =
      let (checked, h') = link-cons s steps l l' h in
      (
        link-Keeps steps (record_needs s l) l' h' s.id u.0
            ∙ ground (arith, get-put l.needs s.id s.id (dedupe [] s.needs), eq_iff s.id s.id),
        link-Recorded steps (record_needs s l) l' h' u.1,
      )

  abbrev Known : Dict (List String) → Type 0
  Known needs =
      (a : String) (ns : List String)
      → get needs a ≡ some ns
      → (n : String) → In n ns
      → is_some (get by_id n) ≡ true

  record_needs-Known :
      (s : StepModel) (l : Links)
      → check_needs by_id s.id s.needs ≡ ok tt
      → Known l.needs
      → Known (record_needs s l).needs
  record_needs-Known s l checked known a ns e n m = elim (Bool-cases (str_eq s.id a)) [
    | inl same ↦
        let e' : dedupe [] s.needs ≡ ns =
          ground (arith, get-put l.needs s.id a (dedupe [] s.needs)) in
        check_needs-known s.id s.needs checked n (dedupe-In n [] s.needs (subst (In n) (sym e') m))
    | inr other ↦ known a ns (ground (arith, get-put l.needs s.id a (dedupe [] s.needs))) n m
  ]

  link-Known :
      (steps : List StepModel) (l l' : Links)
      → link by_id steps l ≡ ok l'
      → Known l.needs
      → Known l'.needs
  link-Known [] l l' h known =
      let e : l ≡ l' = unfold link in ground arith in subst (λ (x : Links). Known x.needs) e known
  link-Known (s ∷ steps) l l' h known =
      let (checked, h') = link-cons s steps l l' h in
      link-Known steps (record_needs s l) l' h' (record_needs-Known s l checked known)

Ids-In-keys :
    (needs : Dict (List String)) (steps : List StepModel)
    → All (λ s. get needs s.id ≡ some (dedupe [] s.needs)) steps
    → (n : String) → Ids steps n
    → In n (keys needs)
Ids-In-keys needs [] a n i = elim i [ ]
Ids-In-keys needs (s ∷ steps) a n i = elim i [
  | inl e ↦ subst (λ x. In x (keys needs)) e (get-In-keys needs s.id (dedupe [] s.needs) a.0)
  | inr j ↦ Ids-In-keys needs steps a.1 n j
]

abbrev pub start : Dict StepModel → Links
start by_id = record { needs = []; dependents = no_dependents (keys by_id) }

-- What the two loops of `from_steps` have built when they end.
pub record Built (steps : List StepModel) (l : Links) : Type 0 where
  pub unique : Unique steps
  pub recorded : All (λ s. get l.needs s.id ≡ some (dedupe [] s.needs)) steps
  pub known :
      (a : String) (ns : List String)
      → get l.needs a ≡ some ns
      → (n : String) → In n ns
      → Ids steps n
  pub closed : IsClosed l.needs

pub built :
    (steps : List StepModel) (by_id : Dict StepModel) (l : Links)
    → index steps [] ≡ ok by_id
    → link by_id steps (start by_id) ≡ ok l
    → Built steps l
built steps by_id l hi hl = record {
  unique = unique;
  recorded = recorded;
  known = known;
  closed = λ a ns e n m. Ids-In-keys l.needs steps recorded n (known a ns e n m);
}
  where
    unique : Unique steps
    unique = (index-Fresh steps [] by_id hi).0

    recorded : All (λ s. get l.needs s.id ≡ some (dedupe [] s.needs)) steps
    recorded = link-Recorded by_id steps (start by_id) l hl unique

    known :
        (a : String) (ns : List String)
        → get l.needs a ≡ some ns
        → (n : String) → In n ns
        → Ids steps n
    known a ns e n m =
        elim (index-Ids steps [] by_id hi n
          (link-Known by_id steps (start by_id) l hl (λ b ms k. unfold get in cc k) a ns e n m)) [
            | inl old ↦ unfold get in cc old
            | inr new ↦ new
          ]
