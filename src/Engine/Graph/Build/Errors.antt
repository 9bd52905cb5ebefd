-- ===== src/Engine/Graph/Build/Errors.antt =====
-- engine/graph.py: what makes the errors of `from_steps` right, loop by loop.
use rayspec_py.Prelude.{
  String, ◌≡◌, refl, sym, ◌∙◌, ◌++◌, subst, ◌⊎◌, inl, inr, true, false, not, some, List, [], ◌∷◌,
  In, Any, is_some, str_eq, eq_iff, arith, Bool-cases,
}
use rayspec_py.Prelude.Dict.{Dict, get, put, get-put}
use rayspec_py.Prelude.Result.{Result, ok, err, require, Raises, Raises-bind, Raises-require}
use rayspec_py.Schema.{StepModel}
use rayspec_py.Engine.Graph.Acyclic.{check_acyclic}
use rayspec_py.Engine.Graph.Acyclic.Cycles.{Chain, check_acyclic-IsCycle}
use rayspec_py.Engine.Graph.Acyclic.Fuel.{check_acyclic_total}
use rayspec_py.Engine.Graph.Build.{
  GraphError, duplicate_id, unknown_need, self_need, needs_cycle, key, fuel, index, dedupe,
  check_needs, Links, link, check,
}
use rayspec_py.Engine.Graph.Build.Linked.{link-Origin}
use rayspec_py.Engine.Graph.Build.Checked.{Ids, index-cons, start, Built, record_needs, dedupe-In}

-- Two steps of the list have the id `n`.
abbrev pub Shared : String → List StepModel → Type 0
Shared n [] = ⊥
Shared n (s ∷ steps) = ((s.id ≡ n) × Ids steps n) ⊎ Shared n steps

-- A step `a` of the list needs `b`.
abbrev pub Needs : List StepModel → String → String → Type 0
Needs steps a b = Any (λ s. (s.id ≡ a) × In b s.needs) steps

-- Each name of the chain needs the next one.
abbrev pub NeedsChain : List StepModel → List String → Type 0
NeedsChain steps [] = Unit
NeedsChain steps (a ∷ []) = Unit
NeedsChain steps (a ∷ b ∷ l) = Needs steps a b × NeedsChain steps (b ∷ l)

-- What makes each error right: the id that two steps share, a need that is no step of the list, a
-- step that needs itself, a chain of steps, each of which needs the next, that ends where it
-- starts.
abbrev pub Justified : List StepModel → GraphError → Type 0
Justified steps (duplicate_id n) = Shared n steps
Justified steps (unknown_need sid need) = Needs steps sid need × (¬ Any (λ s. s.id ≡ need) steps)
Justified steps (self_need sid need) = (need ≡ sid) × Needs steps sid sid
Justified steps (needs_cycle c) =
    (sid : String) × (rest : List String) × (c ≡ sid ∷ rest ++ sid ∷ []) × NeedsChain steps c
Justified steps (key k) = ⊥
Justified steps fuel = ⊥

abbrev pub IndexError : Dict StepModel → List StepModel → GraphError → Type 0
IndexError d steps (duplicate_id n) = ((is_some (get d n) ≡ true) × Ids steps n) ⊎ Shared n steps
IndexError d steps _ = ⊥

IndexError-cons :
    (s : StepModel) (steps : List StepModel) (d : Dict StepModel) (e : GraphError)
    → IndexError (put d s.id s) steps e
    → IndexError d (s ∷ steps) e
IndexError-cons s steps d (duplicate_id n) (inr twice) = inr (inr twice)
IndexError-cons s steps d (duplicate_id n) (inl (old, later)) = elim (Bool-cases (str_eq s.id n)) [
  | inl same ↦ inr (inl ((eq_iff s.id n).0 same, later))
  | inr other ↦ inl (ground (arith, get-put d s.id n s), inr later)
]
IndexError-cons s steps d (unknown_need a b) h = elim h [ ]
IndexError-cons s steps d (self_need a b) h = elim h [ ]
IndexError-cons s steps d (needs_cycle c) h = elim h [ ]
IndexError-cons s steps d (key k) h = elim h [ ]
IndexError-cons s steps d fuel h = elim h [ ]

pub Raises-map :
    {E A : Type 0} (P Q : E → Type 0) (r : Result E A)
    → ((e : E) → P e → Q e)
    → Raises P r
    → Raises Q r
Raises-map P Q (ok a) f h = tt
Raises-map P Q (err e) f h = f e h

pub index-Raises :
    (steps : List StepModel) (d : Dict StepModel) → Raises (IndexError d steps) (index steps d)
unfolding index
index-Raises [] d = tt
index-Raises (s ∷ steps) d = elim (Bool-cases (is_some (get d s.id))) [
  | inl old ↦ rw old (inl (old, inl refl))
  | inr new ↦ rw new (
      Raises-map (IndexError (put d s.id s) steps) (IndexError d (s ∷ steps)) _
        (IndexError-cons s steps d) (index-Raises steps (put d s.id s)))
]

-- `index` knows every step of the list.
index-Has :
    (steps : List StepModel) (d d' : Dict StepModel)
    → index steps d ≡ ok d'
    → (n : String) → (is_some (get d n) ≡ true) ⊎ Ids steps n
    → is_some (get d' n) ≡ true
index-Has [] d d' h n i = unfold index in ground arith
index-Has (s ∷ steps) d d' h n i =
    let (fresh, h') = index-cons s steps d d' h in
    index-Has steps (put d s.id s) d' h' n (elim i [
      | inl old ↦ inl (ground (arith, get-put d s.id n s))
      | inr (inl e) ↦ inl (ground (arith, get-put d s.id n s, eq_iff s.id n))
      | inr (inr j) ↦ inr j
    ])

abbrev NeedError : Dict StepModel → String → List String → GraphError → Type 0
NeedError by_id sid needs (unknown_need a b) =
    (a ≡ sid) × In b needs × (is_some (get by_id b) ≡ false)
NeedError by_id sid needs (self_need a b) = (a ≡ sid) × (b ≡ sid) × In sid needs
NeedError by_id sid needs _ = ⊥

NeedError-cons :
    (by_id : Dict StepModel) (sid n : String) (ns : List String) (e : GraphError)
    → NeedError by_id sid ns e
    → NeedError by_id sid (n ∷ ns) e
NeedError-cons by_id sid n ns (unknown_need a b) h = (h.0, inr h.1, h.2)
NeedError-cons by_id sid n ns (self_need a b) h = (h.0, h.1, inr h.2)
NeedError-cons by_id sid n ns (duplicate_id m) h = elim h [ ]
NeedError-cons by_id sid n ns (needs_cycle c) h = elim h [ ]
NeedError-cons by_id sid n ns (key k) h = elim h [ ]
NeedError-cons by_id sid n ns fuel h = elim h [ ]

check_needs-Raises :
    (by_id : Dict StepModel) (sid : String) (ns : List String)
    → Raises (NeedError by_id sid ns) (check_needs by_id sid ns)
unfolding check_needs
check_needs-Raises by_id sid [] = tt
check_needs-Raises by_id sid (n ∷ ns) =
    let P = NeedError by_id sid (n ∷ ns) in
    Raises-bind P (require (is_some (get by_id n)) (unknown_need sid n)) _
      (Raises-require P _ _ (λ absent. (refl, inl refl, absent)))
      (λ _ _.
        Raises-bind P (require (not (str_eq n sid)) (self_need sid n)) _
          (Raises-require P _ _
            (λ same. (refl, ground (arith, eq_iff n sid), inl (ground (arith, eq_iff n sid)))))
          (λ _ _.
            Raises-map (NeedError by_id sid ns) P (check_needs by_id sid ns)
              (NeedError-cons by_id sid n ns) (check_needs-Raises by_id sid ns)))

abbrev pub LinkError : Dict StepModel → List StepModel → GraphError → Type 0
LinkError by_id steps (unknown_need a b) =
    Any (λ s. (s.id ≡ a) × In b s.needs) steps × (is_some (get by_id b) ≡ false)
LinkError by_id steps (self_need a b) = (b ≡ a) × Needs steps a a
LinkError by_id steps _ = ⊥

LinkError-here :
    (by_id : Dict StepModel) (s : StepModel) (steps : List StepModel) (e : GraphError)
    → NeedError by_id s.id s.needs e
    → LinkError by_id (s ∷ steps) e
LinkError-here by_id s steps (unknown_need a b) h = (inl (sym h.0, h.1), h.2)
LinkError-here by_id s steps (self_need a b) h =
    (h.1 ∙ sym h.0, inl (sym h.0, subst (λ x. In x s.needs) (sym h.0) h.2))
LinkError-here by_id s steps (duplicate_id m) h = elim h [ ]
LinkError-here by_id s steps (needs_cycle c) h = elim h [ ]
LinkError-here by_id s steps (key k) h = elim h [ ]
LinkError-here by_id s steps fuel h = elim h [ ]

LinkError-later :
    (by_id : Dict StepModel) (s : StepModel) (steps : List StepModel) (e : GraphError)
    → LinkError by_id steps e
    → LinkError by_id (s ∷ steps) e
LinkError-later by_id s steps (unknown_need a b) h = (inr h.0, h.1)
LinkError-later by_id s steps (self_need a b) h = (h.0, inr h.1)
LinkError-later by_id s steps (duplicate_id m) h = elim h [ ]
LinkError-later by_id s steps (needs_cycle c) h = elim h [ ]
LinkError-later by_id s steps (key k) h = elim h [ ]
LinkError-later by_id s steps fuel h = elim h [ ]

pub link-Raises :
    (by_id : Dict StepModel) (steps : List StepModel) (l : Links)
    → Raises (LinkError by_id steps) (link by_id steps l)
unfolding link
link-Raises by_id [] l = tt
link-Raises by_id (s ∷ steps) l =
    let P = LinkError by_id (s ∷ steps) in
    Raises-bind P (check_needs by_id s.id s.needs) _
      (Raises-map (NeedError by_id s.id s.needs) P _ (LinkError-here by_id s steps)
        (check_needs-Raises by_id s.id s.needs))
      (λ _ _.
        Raises-map (LinkError by_id steps) P _ (LinkError-later by_id s steps)
          (link-Raises by_id steps (record_needs by_id s l)))

pub Justified-index :
    (steps : List StepModel) (e : GraphError) → IndexError [] steps e → Justified steps e
Justified-index steps (duplicate_id n) (inl (old, known)) = unfold get in ground arith
Justified-index steps (duplicate_id n) (inr twice) = twice
Justified-index steps (unknown_need a b) h = elim h [ ]
Justified-index steps (self_need a b) h = elim h [ ]
Justified-index steps (needs_cycle c) h = elim h [ ]
Justified-index steps (key k) h = elim h [ ]
Justified-index steps fuel h = elim h [ ]

pub Justified-link :
    (steps : List StepModel) (by_id : Dict StepModel)
    → index steps [] ≡ ok by_id
    → (e : GraphError) → LinkError by_id steps e
    → Justified steps e
Justified-link steps by_id hi (unknown_need a b) h =
    (h.0, λ i. let known = index-Has steps [] by_id hi b (inr i) in cc (known, h.1))
Justified-link steps by_id hi (self_need a b) h = h
Justified-link steps by_id hi (duplicate_id m) h = elim h [ ]
Justified-link steps by_id hi (needs_cycle c) h = elim h [ ]
Justified-link steps by_id hi (key k) h = elim h [ ]
Justified-link steps by_id hi fuel h = elim h [ ]

-- The `needs` that the second loop fills are those of the steps.
abbrev pub FromSteps : List StepModel → Dict (List String) → Type 0
FromSteps steps needs =
    (a : String) (ns : List String)
    → get needs a ≡ some ns
    → Any (λ s. (s.id ≡ a) × (dedupe [] s.needs ≡ ns)) steps

deduped-Needs :
    (steps : List StepModel) (a b : String) (ns : List String)
    → In b ns
    → Any (λ s. (s.id ≡ a) × (dedupe [] s.needs ≡ ns)) steps
    → Needs steps a b
deduped-Needs [] a b ns m i = i
deduped-Needs (s ∷ steps) a b ns m (inl h) =
    inl (h.0, dedupe-In b [] s.needs (subst (In b) (sym h.1) m))
deduped-Needs (s ∷ steps) a b ns m (inr i) = inr (deduped-Needs steps a b ns m i)

Chain-NeedsChain :
    (steps : List StepModel) (needs : Dict (List String)) (c : List String)
    → FromSteps steps needs
    → Chain needs c
    → NeedsChain steps c
Chain-NeedsChain steps needs [] o h = tt
Chain-NeedsChain steps needs (a ∷ []) o h = tt
Chain-NeedsChain steps needs (a ∷ b ∷ l) o h =
    let (ns, e, m) = h.0 in
    (deduped-Needs steps a b ns m (o a ns e), Chain-NeedsChain steps needs (b ∷ l) o h.1)

pub check-Justified :
    (steps : List StepModel) (l : Links)
    → Built steps l
    → FromSteps steps l.needs
    → Raises (Justified steps) (check (check_acyclic l.needs))
unfolding check
check-Justified steps l b o = elim (check_acyclic_total l.needs b.closed) [
  | inl (st, e) ↦ rw e tt
  | inr (c, e) ↦
      let (sid, rest, same, chain) = check_acyclic-IsCycle l.needs c e in
      rw e (sid, rest, same, Chain-NeedsChain steps l.needs c o chain)
]

pub link-FromSteps :
    (steps : List StepModel) (by_id : Dict StepModel) (l : Links)
    → link by_id steps (start by_id) ≡ ok l
    → FromSteps steps l.needs
link-FromSteps steps by_id l h a ns e = elim (link-Origin by_id steps (start by_id) l a ns h e) [
  | inl from ↦ from
  | inr old ↦ unfold get in ground arith
]
