-- ===== src/Engine/Graph/Acyclic/Fuel.antt =====
-- The search ends, whatever the graph: the fuel is enough.
use rayspec_py.Prelude.{
  ℕ, zero, suc, ◌+◌, ◌≤◌, ◌<◌, String, ◌≡◌, refl, inl, inr, ◌⊎◌, Option, none, some, List, [], ◌∷◌,
  ◌++◌, arith, In, length, eq_iff,
}
use rayspec_py.Prelude.Dict.{Dict, get, put, keys, get-put, In-keys-get, length-keys}
use rayspec_py.Engine.Graph.Acyclic.{
  Mark, grey, black, Visit, done, cycle, key_error, out_of_fuel, and_then, visit_needs, finish,
  body, visit, check_acyclic,
}

abbrev one_if_white : Option Mark → ℕ
one_if_white none = 1
one_if_white (some _) = 0

-- How many of the steps have no mark yet.
abbrev white : Dict Mark → List String → ℕ
white st [] = 0
white st (k ∷ ks) = one_if_white (get st k) + white st ks

white-put-le :
    (st : Dict Mark) (sid : String) (m : Mark) (ks : List String)
    → white (put st sid m) ks ≤ white st ks
white-put-le st sid m [] = omega arith
white-put-le st sid m (k ∷ ks) = ground (arith, get-put st sid k m, white-put-le st sid m ks)

white-put-lt :
    (st : Dict Mark) (sid : String) (m : Mark) (ks : List String)
    → get st sid ≡ none
    → In sid ks
    → white (put st sid m) ks < white st ks
white-put-lt st sid m [] h i = elim i [ ]
white-put-lt st sid m (k ∷ ks) h i =
    ground
      (arith, get-put st sid k m, eq_iff sid k, white-put-le st sid m ks, white-put-lt st sid m ks)

white-le-length : (st : Dict Mark) (ks : List String) → white st ks ≤ length ks
white-le-length st [] = omega arith
white-le-length st (k ∷ ks) = ground (arith, white-le-length st ks)

-- Every need is a step of the graph.
abbrev pub IsClosed : Dict (List String) → Type 0
IsClosed needs =
    (a : String) (ns : List String)
    → get needs a ≡ some ns
    → (n : String) → In n ns
    → In n (keys needs)

module _ (needs : Dict (List String)) (closed : IsClosed needs) where
  -- The visit ends in one of the two ways of the program, and no mark is lost.
  abbrev Within : ℕ → Visit → Type 0
  Within bound (done st) = white st (keys needs) ≤ bound
  Within bound (cycle c) = Unit
  Within bound (key_error k) = ⊥
  Within bound out_of_fuel = ⊥

  Within-and_then :
      (mid bound : ℕ) (r : Visit) (f : Dict Mark → Visit)
      → Within mid r
      → ((st : Dict Mark) → white st (keys needs) ≤ mid → Within bound (f st))
      → Within bound (and_then r f)
  Within-and_then mid bound (done st) f h k = k st h
  Within-and_then mid bound (cycle c) f h k = tt
  Within-and_then mid bound (key_error e) f h k = elim h [ ]
  Within-and_then mid bound out_of_fuel f h k = elim h [ ]

  visit_needs-Within :
      (v : String → Dict Mark → Visit) (ns : List String) (bound : ℕ) (st : Dict Mark)
      → ((n : String)
          → In n ns
          → (mid : Dict Mark) → white mid (keys needs) ≤ bound
          → Within bound (v n mid))
      → white st (keys needs) ≤ bound
      → Within bound (visit_needs v ns st)
  unfolding visit_needs
  visit_needs-Within v [] bound st hv h = h
  visit_needs-Within v (n ∷ ns) bound st hv h =
      Within-and_then bound bound (v n st) (visit_needs v ns) (hv n (inl refl) st h)
        (λ mid. visit_needs-Within v ns bound mid (λ m i. hv m (inr i)))

  body-Within :
      (f : ℕ) (v : String → Dict Mark → Visit) (stack : List String) (sid : String) (st : Dict Mark)
      (bound : ℕ)
      → ((n : String)
          → In n (keys needs)
          → (mid : Dict Mark) (b : ℕ) → white mid (keys needs) ≤ b
          → b < f
          → Within b (v n mid))
      → In sid (keys needs)
      → white st (keys needs) ≤ bound
      → bound < suc f
      → (o : Option (List String)) → get needs sid ≡ o
      → (mark : Option Mark) → get st sid ≡ mark
      → Within bound (body v o stack sid st mark)
  body-Within f v stack sid st bound hv i w b o ho (some grey) hm = tt
  body-Within f v stack sid st bound hv i w b o ho (some black) hm = w
  body-Within f v stack sid st bound hv i w b none ho none hm = In-keys-get needs sid i ho
  body-Within f v stack sid st bound hv i w b (some ns) ho none hm =
      Within-and_then marked bound (visit_needs v ns (put st sid grey)) (finish sid)
        (visit_needs-Within v ns marked (put st sid grey)
          (λ n m mid hm'. hv n (closed sid ns ho n m) mid marked hm' (omega (arith, fewer)))
          (omega arith))
        (λ mid hm'. omega (arith, white-put-le mid sid black (keys needs), fewer))
    where
      marked : ℕ
      marked = white (put st sid grey) (keys needs)

      fewer : white (put st sid grey) (keys needs) < white st (keys needs)
      fewer = white-put-lt st sid grey (keys needs) hm i

  visit-Within :
      (f : ℕ) (stack : List String) (sid : String)
      → In sid (keys needs)
      → (st : Dict Mark) (bound : ℕ) → white st (keys needs) ≤ bound
      → bound < f
      → Within bound (visit needs f stack sid st)
  unfolding visit
  visit-Within zero stack sid i st bound w b = absurd (omega arith)
  visit-Within (suc f) stack sid i st bound w b =
      body-Within f (visit needs f (stack ++ sid ∷ [])) stack sid st bound
        (visit-Within f (stack ++ sid ∷ [])) i w b _ refl _ refl

  ends :
      (bound : ℕ) (r : Visit)
      → Within bound r
      → ((st : Dict Mark) × (r ≡ done st)) ⊎ ((c : List String) × (r ≡ cycle c))
  ends b (done st) h = inl (st, refl)
  ends b (cycle c) h = inr (c, refl)
  ends b (key_error k) h = elim h [ ]
  ends b out_of_fuel h = elim h [ ]

  -- On a graph whose needs are all steps of it the search ends, by accepting the graph or with a
  -- cycle: it raises no KeyError and the depth of its recursion is bounded by the number of steps.
  pub check_acyclic_total :
      ((st : Dict Mark) × (check_acyclic needs ≡ done st))
      ⊎ ((c : List String) × (check_acyclic needs ≡ cycle c))
  unfolding check_acyclic
  check_acyclic_total = ends (length needs) _ (
      visit_needs-Within (visit needs (suc (length needs)) []) (keys needs) (length needs) []
        (λ n i mid w. visit-Within (suc (length needs)) [] n i mid (length needs) w (omega arith))
        (omega (arith, white-le-length [] (keys needs), length-keys needs)))
