-- ===== src/Engine/Each/Slots.antt =====
-- The slots of an `each:` step after any order of its items (engine/executors/each.py).
use rayspec_py.Prelude.{
  ℕ, zero, suc, ◌+◌, ◌≤◌, ◌<◌, ◌≡◌, refl, sym, subst, ◌⊎◌, inl, inr, List, ◌∷◌, arith, ◌==◌,
  if◌then◌else◌,
}
use rayspec_py.Engine.Each.{tabulate, set_at}

module _ {A : Type 0} where
  pub tabulate_ext :
      (start n : ℕ) (f g : ℕ → A)
      → ((i : ℕ) → start ≤ i → i < start + n → f i ≡ g i)
      → tabulate start n f ≡ tabulate start n g
  tabulate_ext start zero f g h = refl
  tabulate_ext start (suc n) f g h =
      let a = h start (omega arith) (omega arith) in
      let b = tabulate_ext (suc start) n f g (λ i lo hi. h i (omega arith) (omega arith)) in
      rw (a, b) refl

  if_same : (a b : ℕ) (x y : A) → a ≡ b → (if a == b then x else y) ≡ x
  if_same a b x y h = ground arith

  if_other : (a b : ℕ) (x y : A) → (a < b) ⊎ (b < a) → (if a == b then x else y) ≡ y
  if_other a b x y h = ground arith

  cons_eq : {x y : A} {xs ys : List A} → x ≡ y → xs ≡ ys → (x ∷ xs) ≡ (y ∷ ys)
  cons_eq h t = ground (arith, h, t)

  set_at-tabulate :
      (i start n : ℕ) (x : A) (f : ℕ → A)
      → set_at i x (tabulate start n f) ≡ tabulate start n (λ j. if j == start + i then x else f j)
  unfolding set_at
  set_at-tabulate i start zero x f = refl
  set_at-tabulate zero start (suc n) x f =
      cons_eq (sym (if_same start (start + 0) x (f start) (omega arith))) (
        tabulate_ext (suc start) n f (λ j. if j == start + 0 then x else f j)
          (λ j lo hi. sym (if_other j (start + 0) x (f j) (inr (omega arith)))))
  set_at-tabulate (suc i) start (suc n) x f =
      cons_eq (sym (if_other start (start + suc i) x (f start) (inl (omega arith)))) (
        subst
          (λ k.
            set_at i x (tabulate (suc start) n f)
            ≡ tabulate (suc start) n (λ j. if j == k then x else f j))
          (omega arith) (set_at-tabulate i (suc start) n x f))

  pub set_at-all :
      (i n : ℕ) (x : A) (f : ℕ → A)
      → set_at i x (tabulate 0 n f) ≡ tabulate 0 n (λ j. if j == i then x else f j)
  set_at-all i n x f =
      subst (λ k. set_at i x (tabulate 0 n f) ≡ tabulate 0 n (λ j. if j == k then x else f j))
        (omega arith) (set_at-tabulate i 0 n x f)
