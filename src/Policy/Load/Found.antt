-- ===== src/Policy/Load/Found.antt =====
-- No policy file that exists is dropped by `load_policy` of policy/layers.py.
use rayspec_py.Prelude.{
  ◌≡◌, ◌≢◌, ◌⊎◌, inl, inr, refl, sym, ◌∙◌, String, Bool, true, false, Option, none, some, List, [],
  ◌∷◌, All, All-map, In, elem, elem→In, if◌then◌else◌, str_eq, eq_iff, arith, map, ap, subst,
}
use rayspec_py.Prelude.Result.{Result, ok, err, ◌>>=◌, >>=-eq-ok}
use rayspec_py.Prelude.Dict.{Dict}
use rayspec_py.Policy.Layers.{PolicyLayer}
use rayspec_py.Policy.Load.{
  PolicyPath, PolicyError, Files, Trouble, missing, unusable, file_key, load_each, load_one,
  load_policy, policy_paths, policy_env, read_layer, add_layer, short_path,
}

module _ {Tree : Type 0} (fs : Files Tree) where
  -- The candidate is an absent layer that the environment does not name, or its file is usable and
  -- has been seen or is loaded.
  pub data Accounted (seen : List String) (ls : List PolicyLayer) (c : PolicyPath) : Type 0 where
    absent : unusable fs c.path ≡ some missing → c.name ≢ policy_env → Accounted seen ls c
    present :
        unusable fs c.path ≡ none
        → In (file_key fs c.path) seen ⊎ In (file_key fs c.path) (map (λ l. file_key fs l.path) ls)
        → Accounted seen ls c

  Accounted-load :
      (k : String) (seen : List String) (l : PolicyLayer) (ls : List PolicyLayer)
      → file_key fs l.path ≡ k
      → (c : PolicyPath) → Accounted (k ∷ seen) ls c
      → Accounted seen (l ∷ ls) c
  Accounted-load k seen l ls e c (absent a b) = absent a b
  Accounted-load k seen l ls e c (present a (inl (inl h))) = present a (inr (inl (e ∙ h)))
  Accounted-load k seen l ls e c (present a (inl (inr h))) = present a (inl h)
  Accounted-load k seen l ls e c (present a (inr h)) = present a (inr (inr h))

  ok_inj : {A : Type 0} {a b : A} → ◌≡◌ {A = Result PolicyError A} (ok a) (ok b) → a ≡ b
  ok_inj h = cc

  read_layer_path :
      (c : PolicyPath) (label : String) (l : PolicyLayer)
      → read_layer fs c label ≡ ok l
      → l.path ≡ c.path
  read_layer_path c label l h = ground arith

  -- What a successful step did: the candidate was passed over, or its file was loaded.
  data Step (seen : List String) (c : PolicyPath)
      (skipped loaded : Result PolicyError (List PolicyLayer)) (ls : List PolicyLayer)
      : Type 0 where
    passed : skipped ≡ ok ls → Accounted seen ls c → Step seen c skipped loaded ls
    read :
        (l : PolicyLayer) (rest : List PolicyLayer)
        → loaded ≡ ok rest
        → ls ≡ l ∷ rest
        → l.path ≡ c.path
        → unusable fs c.path ≡ none
        → Step seen c skipped loaded ls

  module _ (c : PolicyPath) (label : String) (seen : List String)
      (skipped loaded : Result PolicyError (List PolicyLayer)) (ls : List PolicyLayer) where
    add_layer-ok :
        (l : PolicyLayer) (r : Result PolicyError (List PolicyLayer))
        → add_layer fs l r ≡ ok ls
        → (rest : List PolicyLayer) × (r ≡ ok rest) × (ls ≡ l ∷ rest)
    add_layer-ok l (ok rest) h = (rest, refl, sym (ok_inj h))
    add_layer-ok l (err e) h = cc

    read-Step :
        unusable fs c.path ≡ none
        → (read_layer fs c label >>= λ l. add_layer fs l loaded) ≡ ok ls
        → Step seen c skipped loaded ls
    read-Step u h =
        let (l, e, k) = >>=-eq-ok (read_layer fs c label) (λ l. add_layer fs l loaded) h in
        let (rest, a, b) = add_layer-ok l loaded k in
        read l rest a b (read_layer_path c label l e) u

    usable-Step :
        (b : Bool)
        → elem (file_key fs c.path) seen ≡ b
        → unusable fs c.path ≡ none
        → (if b then skipped else read_layer fs c label >>= λ l. add_layer fs l loaded) ≡ ok ls
        → Step seen c skipped loaded ls
    usable-Step true e u h = passed h (present u (inl (elem→In (file_key fs c.path) seen e)))
    usable-Step false e u h = read-Step u h

    absent-Step :
        (b : Bool)
        → str_eq c.name policy_env ≡ b
        → unusable fs c.path ≡ some missing
        → (if b then err (PolicyError.named_missing label) else skipped) ≡ ok ls
        → Step seen c skipped loaded ls
    absent-Step true e u h = cc
    absent-Step false e u h =
        passed h (absent u (λ same. ground (arith, eq_iff c.name policy_env, same, e)))

    load_one-Step :
        (t : Option Trouble)
        → unusable fs c.path ≡ t
        → load_one fs c label t seen skipped loaded ≡ ok ls
        → Step seen c skipped loaded ls
    load_one-Step none u h = usable-Step (elem (file_key fs c.path) seen) refl u h
    load_one-Step (some missing) u h = absent-Step (str_eq c.name policy_env) refl u h
    load_one-Step (some Trouble.unreadable) u h = cc
    load_one-Step (some Trouble.link_loop) u h = cc
    load_one-Step (some Trouble.dangling) u h = cc
    load_one-Step (some Trouble.unresolved) u h = cc
    load_one-Step (some Trouble.is_directory) u h = cc
    load_one-Step (some Trouble.not_regular) u h = cc

  module _ (label_of : String → String) where
    load_each-Accounted :
        (seen : List String) (cs : List PolicyPath) (ls : List PolicyLayer)
        → load_each fs label_of seen cs ≡ ok ls
        → All (Accounted seen ls) cs
    unfolding load_each
    load_each-Accounted seen [] ls h = tt
    load_each-Accounted seen (c ∷ cs) ls h =
        let skipped = load_each fs label_of seen cs in
        let loaded = load_each fs label_of (file_key fs c.path ∷ seen) cs in
        elim (load_one-Step c (label_of c.path) seen skipped loaded ls (unusable fs c.path) refl
          h) [
            | passed e a ↦ (a, load_each-Accounted seen cs ls e)
            | read l rest e a p u ↦
                let k = ap (file_key fs) p in
                subst (λ zs. All (Accounted seen zs) (c ∷ cs)) (sym a)
                  (
                    present u (inr (inl k)),
                    All-map (Accounted-load (file_key fs c.path) seen l rest k) cs
                        (load_each-Accounted (file_key fs c.path ∷ seen) cs rest e),
                  )
          ]

  -- When `load_policy` returns, every candidate either is absent and not the file that the
  -- environment names, or its file is usable and the file it resolves to is one of the loaded ones:
  -- no policy file that exists is dropped.
  pub load_policy-Accounted :
      (root : Option String) (home : String) (env : Dict String) (ls : List PolicyLayer)
      → load_policy fs root home env ≡ ok ls
      → All (Accounted [] ls) (policy_paths fs root home env)
  unfolding load_policy
  load_policy-Accounted root home env ls h =
      load_each-Accounted (λ path. short_path fs path root home) [] (policy_paths fs root home env)
        ls h
