-- ===== src/Engine/Graph/Acyclic/Sound.antt =====
-- The search accepts only graphs in which no chain of `needs` goes on for ever.
use rayspec_py.Prelude.{
  ℕ, zero, suc, String, ◌≡◌, refl, subst, inl, inr, Option, none, some, List, [], ◌∷◌, ◌++◌, arith,
  In, str_eq, eq_iff, Bool-cases,
}
use rayspec_py.Prelude.Dict.{Dict, get, put, keys, get-put}
use rayspec_py.Engine.Graph.Acyclic.{
  Mark, grey, black, Visit, done, and_then, cycle, key_error, out_of_fuel, visit_needs, finish,
  enter, body, visit, check_acyclic,
}

-- Every chain of `needs` from this step ends.
pub data Grounded (needs : Dict (List String)) : String → Type 0 where
  ground_all :
      (sid : String) (ns : List String)
      → get needs sid ≡ some ns
      → ((n : String) → In n ns → Grounded needs n)
      → Grounded needs sid

pub and_then-eq-done :
    (r : Visit) (f : Dict Mark → Visit) {st' : Dict Mark}
    → and_then r f ≡ done st'
    → (mid : Dict Mark) × (r ≡ done mid) × (f mid ≡ done st')
and_then-eq-done (done mid) f h = (mid, refl, h)
and_then-eq-done (cycle c) f h = cc
and_then-eq-done (key_error k) f h = cc
and_then-eq-done out_of_fuel f h = cc

module _ (needs : Dict (List String)) where
  -- What is black is grounded.
  abbrev BlackGrounded : Dict Mark → Type 0
  BlackGrounded st = (x : String) → get st x ≡ some black → Grounded needs x

  -- What is black stays black.
  abbrev Grows : Dict Mark → Dict Mark → Type 0
  Grows st st' = (x : String) → get st x ≡ some black → get st' x ≡ some black

  record Blackens (st : Dict Mark) (targets : List String) (st' : Dict Mark) : Type 0 where
    sound : BlackGrounded st'
    grows : Grows st st'
    reached : (n : String) → In n targets → get st' n ≡ some black

  abbrev IsSound : (String → Dict Mark → Visit) → Type 0
  IsSound v =
      (n : String) (st st' : Dict Mark)
      → BlackGrounded st
      → v n st ≡ done st'
      → Blackens st (n ∷ []) st'

  Blackens-nil : (st : Dict Mark) → BlackGrounded st → Blackens st [] st
  Blackens-nil st b = record { sound = b; grows = λ x h. h; reached = λ n m. elim m [ ] }

  Blackens-cons :
      (n : String) (ns : List String) (st mid st' : Dict Mark)
      → Blackens st (n ∷ []) mid
      → Blackens mid ns st'
      → Blackens st (n ∷ ns) st'
  Blackens-cons n ns st mid st' a b = record {
    sound = b.sound;
    grows = λ x h. b.grows x (a.grows x h);
    reached = λ m. elim [ inl e ↦ b.grows m (a.reached m (inl e)) | inr i ↦ b.reached m i ];
  }

  visit_needs_sound :
      (v : String → Dict Mark → Visit)
      → IsSound v
      → (ns : List String) (st st' : Dict Mark) → BlackGrounded st
      → visit_needs v ns st ≡ done st'
      → Blackens st ns st'
  unfolding visit_needs
  visit_needs_sound v hv [] st st' b h =
      let e : st ≡ st' = ground arith in subst (Blackens st []) e (Blackens-nil st b)
  visit_needs_sound v hv (n ∷ ns) st st' b h =
      let (mid, e, h') = and_then-eq-done (v n st) (visit_needs v ns) h in
      let first = hv n st mid b e in
      Blackens-cons n ns st mid st' first (visit_needs_sound v hv ns mid st' first.sound h')

  BlackGrounded-grey :
      (sid : String) (st : Dict Mark) → BlackGrounded st → BlackGrounded (put st sid grey)
  BlackGrounded-grey sid st b x h = b x (ground (arith, get-put st sid x grey))

  -- A step whose needs are all black turns black, and is grounded.
  finish_sound :
      (sid : String) (ns : List String) (st mid : Dict Mark)
      → get needs sid ≡ some ns
      → get st sid ≡ none
      → Blackens (put st sid grey) ns mid
      → Blackens st (sid ∷ []) (put mid sid black)
  finish_sound sid ns st mid hn unmarked b = record {
    sound = λ x h. elim (Bool-cases (str_eq sid x)) [
      | inl same ↦ subst (Grounded needs) ((eq_iff sid x).0 same) here
      | inr other ↦ b.sound x (ground (arith, get-put mid sid x black))
    ];
    grows = λ x h. ground (arith, get-put mid sid x black, get-put st sid x grey, b.grows x);
    reached = λ n m. ground (arith, get-put mid sid n black, eq_iff sid n);
  }
    where
      here : Grounded needs sid
      here = ground_all sid ns hn (λ n m. b.sound n (b.reached n m))

  enter_sound :
      (v : String → Dict Mark → Visit)
      → IsSound v
      → (sid : String) (st st' : Dict Mark) → BlackGrounded st
      → get st sid ≡ none
      → (o : Option (List String)) → get needs sid ≡ o
      → enter v o sid st ≡ done st'
      → Blackens st (sid ∷ []) st'
  enter_sound v hv sid st st' b unmarked none hn h = cc
  enter_sound v hv sid st st' b unmarked (some ns) hn h =
      let (mid, e, h') = and_then-eq-done (visit_needs v ns (put st sid grey)) (finish sid) h in
      let e' : put mid sid black ≡ st' = ground arith in
      subst (Blackens st (sid ∷ [])) e' (
        finish_sound sid ns st mid hn unmarked
          (visit_needs_sound v hv ns (put st sid grey) mid (BlackGrounded-grey sid st b) e))

  body_sound :
      (v : String → Dict Mark → Visit)
      → IsSound v
      → (stack : List String) (sid : String) (st st' : Dict Mark) → BlackGrounded st
      → (mark : Option Mark) → get st sid ≡ mark
      → body v (get needs sid) stack sid st mark ≡ done st'
      → Blackens st (sid ∷ []) st'
  body_sound v hv stack sid st st' b (some grey) hm h = cc
  body_sound v hv stack sid st st' b (some black) hm h =
      let e : st ≡ st' = ground arith in
      subst (Blackens st (sid ∷ [])) e (record {
        sound = b;
        grows = λ x k. k;
        reached =
            λ n. elim [ inl e ↦ subst (λ y. get st y ≡ some black) e hm | inr i ↦ elim i [ ] ];
      })
  body_sound v hv stack sid st st' b none hm h = enter_sound v hv sid st st' b hm _ refl h

  visit-IsSound : (f : ℕ) (stack : List String) → IsSound (visit needs f stack)
  unfolding visit
  visit-IsSound zero stack n st st' b h = cc
  visit-IsSound (suc f) stack n st st' b h =
      body_sound (visit needs f (stack ++ n ∷ [])) (visit-IsSound f (stack ++ n ∷ [])) stack n st
        st' b (get st n) refl h

  -- When the search accepts a graph, every chain of `needs` that starts at one of its steps ends:
  -- no step can need itself, not through others either.
  pub check_acyclic-Grounded :
      (st : Dict Mark)
      → check_acyclic needs ≡ done st
      → (sid : String) → In sid (keys needs)
      → Grounded needs sid
  unfolding check_acyclic
  check_acyclic-Grounded st h sid m =
      let b =
        visit_needs_sound (visit needs _ []) (visit-IsSound _ []) (keys needs) [] st
          (λ x k. unfold get in cc k) h in
      b.sound sid (b.reached sid m)
