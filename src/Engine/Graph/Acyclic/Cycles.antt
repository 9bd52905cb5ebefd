-- ===== src/Engine/Graph/Acyclic/Cycles.antt =====
-- The cycle that the search reports is one.
use rayspec_py.Prelude.{
  ℕ, zero, suc, String, ◌≡◌, ◌≢◌, refl, subst, inl, inr, Option, none, some, List, [], ◌∷◌, ◌++◌,
  arith, In, str_eq, eq_iff, Bool-cases,
}
use rayspec_py.Prelude.Dict.{Dict, get, put, keys, get-put}
use rayspec_py.Engine.Graph.Acyclic.{
  Mark, grey, black, Visit, done, cycle, key_error, out_of_fuel, and_then, from_first, visit_needs,
  finish, body, visit, check_acyclic,
}

module _ (needs : Dict (List String)) where
  -- `b` is one of the `needs` of `a`.
  abbrev pub Edge : String → String → Type 0
  Edge a b = (ns : List String) × (get needs a ≡ some ns) × In b ns

  abbrev pub Chain : List String → Type 0
  Chain [] = Unit
  Chain (a ∷ []) = Unit
  Chain (a ∷ b ∷ l) = Edge a b × Chain (b ∷ l)

  -- A chain of `needs` that ends where it starts.
  abbrev pub IsCycle : List String → Type 0
  IsCycle c = (sid : String) × (rest : List String) × (c ≡ sid ∷ rest ++ sid ∷ []) × Chain c

  Chain-tail : (a : String) (l : List String) → Chain (a ∷ l) → Chain l
  Chain-tail a [] h = tt
  Chain-tail a (b ∷ l) h = h.1

  Chain-snoc :
      (l : List String) (a b : String)
      → Chain (l ++ a ∷ [])
      → Edge a b
      → Chain ((l ++ a ∷ []) ++ b ∷ [])
  Chain-snoc [] a b h e = (e, tt)
  Chain-snoc (x ∷ []) a b h e = (h.0, (e, tt))
  Chain-snoc (x ∷ y ∷ l) a b h e = (h.0, Chain-snoc (y ∷ l) a b h.1 e)

  Chain-from_first :
      (x : String) (l t : List String) → Chain (l ++ t) → In x l → Chain (from_first x l ++ t)
  unfolding from_first
  Chain-from_first x [] t h m = elim m [ ]
  Chain-from_first x (y ∷ l) t h m = elim (Bool-cases (str_eq y x)) [
    | inl same ↦ rw same h
    | inr other ↦
        rw other (Chain-from_first x l t (Chain-tail y (l ++ t) h) (ground (arith, eq_iff y x)))
  ]

  from_first-head :
      (x : String) (l : List String) → In x l → (rest : List String) × (from_first x l ≡ x ∷ rest)
  unfolding from_first
  from_first-head x [] m = elim m [ ]
  from_first-head x (y ∷ l) m = elim (Bool-cases (str_eq y x)) [
    | inl same ↦ (l, ground (arith, eq_iff y x))
    | inr other ↦ rw other (from_first-head x l (ground (arith, eq_iff y x)))
  ]

  -- What is grey is on the stack.
  abbrev GreyIn : List String → Dict Mark → Type 0
  GreyIn stack st = (x : String) → get st x ≡ some grey → In x stack

  abbrev Ends : List String → Visit → Type 0
  Ends stack (done st) = GreyIn stack st
  Ends stack (cycle c) = IsCycle c
  Ends stack (key_error k) = Unit
  Ends stack out_of_fuel = Unit

  Ends-and_then :
      (stack out : List String) (r : Visit) (f : Dict Mark → Visit)
      → Ends stack r
      → ((st : Dict Mark) → GreyIn stack st → Ends out (f st))
      → Ends out (and_then r f)
  Ends-and_then stack out (done st) f h k = k st h
  Ends-and_then stack out (cycle c) f h k = h
  Ends-and_then stack out (key_error e) f h k = tt
  Ends-and_then stack out out_of_fuel f h k = tt

  visit_needs-Ends :
      (stack : List String) (v : String → Dict Mark → Visit) (ns : List String) (st : Dict Mark)
      → ((n : String) → In n ns → (mid : Dict Mark) → GreyIn stack mid → Ends stack (v n mid))
      → GreyIn stack st
      → Ends stack (visit_needs v ns st)
  unfolding visit_needs
  visit_needs-Ends stack v [] st hv g = g
  visit_needs-Ends stack v (n ∷ ns) st hv g =
      Ends-and_then stack stack (v n st) (visit_needs v ns) (hv n (inl refl) st g)
        (λ mid. visit_needs-Ends stack v ns mid (λ m i. hv m (inr i)))

  In-snoc : (x y : String) (l : List String) → In x l → In x (l ++ y ∷ [])
  In-snoc x y [] m = elim m [ ]
  In-snoc x y (z ∷ l) m = ground (arith, In-snoc x y l)

  In-last : (x : String) (l : List String) → In x (l ++ x ∷ [])
  In-last x [] = inl refl
  In-last x (z ∷ l) = inr (In-last x l)

  In-unsnoc : (x y : String) (l : List String) → In x (l ++ y ∷ []) → y ≢ x → In x l
  In-unsnoc x y [] m n = ground arith
  In-unsnoc x y (z ∷ l) m n = ground (arith, In-unsnoc x y l)

  GreyIn-push :
      (stack : List String) (sid : String) (st : Dict Mark)
      → GreyIn stack st
      → GreyIn (stack ++ sid ∷ []) (put st sid grey)
  GreyIn-push stack sid st g x h = elim (Bool-cases (str_eq sid x)) [
    | inl same ↦ subst (λ y. In y (stack ++ sid ∷ [])) ((eq_iff sid x).0 same) (In-last sid stack)
    | inr other ↦ In-snoc x sid stack (g x (ground (arith, get-put st sid x grey)))
  ]

  GreyIn-pop :
      (stack : List String) (sid : String) (mid : Dict Mark)
      → GreyIn (stack ++ sid ∷ []) mid
      → GreyIn stack (put mid sid black)
  GreyIn-pop stack sid mid g x h =
      In-unsnoc x sid stack (g x (ground (arith, get-put mid sid x black)))
        (ground (arith, get-put mid sid x black, eq_iff sid x))

  body-Ends :
      (v : String → Dict Mark → Visit) (stack : List String) (sid : String) (st : Dict Mark)
      → ((n : String)
          → Chain ((stack ++ sid ∷ []) ++ n ∷ [])
          → (mid : Dict Mark) → GreyIn (stack ++ sid ∷ []) mid
          → Ends (stack ++ sid ∷ []) (v n mid))
      → Chain (stack ++ sid ∷ [])
      → GreyIn stack st
      → (o : Option (List String)) → get needs sid ≡ o
      → (mark : Option Mark) → get st sid ≡ mark
      → Ends stack (body v o stack sid st mark)
  body-Ends v stack sid st hv c g o ho (some grey) hm =
      let (rest, e) = from_first-head sid stack (g sid hm) in
      (sid, rest, rw e, Chain-from_first sid stack (sid ∷ []) c (g sid hm))
  body-Ends v stack sid st hv c g o ho (some black) hm = g
  body-Ends v stack sid st hv c g none ho none hm = tt
  body-Ends v stack sid st hv c g (some ns) ho none hm =
      Ends-and_then (stack ++ sid ∷ []) stack (visit_needs v ns (put st sid grey)) (finish sid)
        (visit_needs-Ends (stack ++ sid ∷ []) v ns (put st sid grey)
          (λ n m. hv n (Chain-snoc stack sid n c (ns, ho, m))) (GreyIn-push stack sid st g))
        (GreyIn-pop stack sid)

  visit-Ends :
      (f : ℕ) (stack : List String) (sid : String)
      → Chain (stack ++ sid ∷ [])
      → (st : Dict Mark) → GreyIn stack st
      → Ends stack (visit needs f stack sid st)
  unfolding visit
  visit-Ends zero stack sid c st g = tt
  visit-Ends (suc f) stack sid c st g =
      body-Ends (visit needs f (stack ++ sid ∷ [])) stack sid st (visit-Ends f (stack ++ sid ∷ []))
        c g _ refl _ refl

  -- A graph is refused for a cycle only with a chain of `needs` that ends where it starts.
  pub check_acyclic-IsCycle : (c : List String) → check_acyclic needs ≡ cycle c → IsCycle c
  unfolding check_acyclic
  check_acyclic-IsCycle c h = subst (Ends []) h (
      visit_needs-Ends [] (visit needs _ []) (keys needs) [] (λ n _. visit-Ends _ [] n tt)
        (λ x k. unfold get in cc k))
