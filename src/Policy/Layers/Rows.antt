-- ===== src/Policy/Layers/Rows.antt =====
-- Rows of a name and a value, merged into a dict name by name: the loops of `denied_tools`,
-- `control_sources`, `approvals` and `max_concurrent_runs` (policy/layers.py).
use rayspec_py.Prelude.{
  ◌≡◌, refl, String, Option, some, List, [], ◌∷◌, if◌then◌else◌, str_eq, eq_iff, arith,
}
use rayspec_py.Prelude.Dict.{Dict, get, put, get-put}

module _ {A B : Type 0} where
  -- merged[name] = step(merged.get(name), value) for every row
  unfoldable pub absorb : (Option B → A → B) → Dict B → List (String × A) → Dict B
  absorb step d [] = d
  absorb step d ((k, v) ∷ rows) = absorb step (put d k (step (get d k) v)) rows

  abbrev pub follow : (Option B → A → B) → Option B → List A → Option B
  follow step o [] = o
  follow step o (v ∷ vs) = follow step (some (step o v)) vs

abbrev pub named : {A : Type 0} → String → List (String × A) → List A
named k [] = []
named k ((j, v) ∷ rows) = let rest = named k rows in if str_eq j k then v ∷ rest else rest

module _ {A B : Type 0} (step : Option B → A → B) where
  -- What a name has in the end depends on its own rows alone.
  pub get-absorb :
      (d : Dict B) (k : String) (rows : List (String × A))
      → get (absorb step d rows) k ≡ follow step (get d k) (named k rows)
  unfolding absorb
  get-absorb d k [] = refl
  get-absorb d k ((j, v) ∷ rows) =
      let d' = put d j (step (get d j) v) in
      ground (arith, eq_iff j k, get-put d j k (step (get d j) v), get-absorb d' k rows)
