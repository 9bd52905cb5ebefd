-- ===== src/Prelude/Dict.antt =====
-- Python's `dict` with string keys, in insertion order.
use Prim.Native.String.{String}
use Prim.Native.Nat.{suc}
use mathlib.Core.Path.{◌≡◌, refl, ap}
use mathlib.Core.Logic.{◌≢◌}
use mathlib.Core.Option.{Option, none, some}
use mathlib.Core.List.{List, [], ◌∷◌}
use native.Mathlib.Omega.{arith}
use rayspec_py.Prelude.Lists.{In, length}
use rayspec_py.Prelude.Tests.{str_eq, eq_iff, if◌then◌else◌}

abbrev pub Dict {ℓ} : Type ℓ → Type ℓ
Dict V = List (String × V)

module _ {ℓ} {V : Type ℓ} where
  -- d.get(k)
  unfoldable pub get : Dict V → String → Option V
  get [] k = none
  get ((j, v) ∷ d) k = if str_eq j k then some v else get d k

  -- d[k] = v: an old key keeps its place, a new one goes to the end
  unfoldable pub put : Dict V → String → V → Dict V
  put [] k v = (k, v) ∷ []
  put ((j, w) ∷ d) k v = let rest = put d k v in if str_eq j k then (j, v) ∷ d else (j, w) ∷ rest

  -- del d[k], d.pop(k, None)
  unfoldable pub remove : Dict V → String → Dict V
  remove [] k = []
  remove ((j, w) ∷ d) k = let rest = remove d k in if str_eq j k then rest else (j, w) ∷ rest

  abbrev pub keys : Dict V → List String
  keys [] = []
  keys ((j, v) ∷ d) = j ∷ keys d

  abbrev pub values : Dict V → List V
  values [] = []
  values ((j, v) ∷ d) = v ∷ values d

  pub get-put :
      (d : Dict V) (k j : String) (v : V)
      → get (put d k v) j ≡ (if str_eq k j then some v else get d j)
  unfolding get put
  get-put [] k j v = refl
  get-put ((i, w) ∷ d) k j v = ground (arith, eq_iff k j, eq_iff i k, eq_iff i j, get-put d k j v)

  pub get-remove :
      (d : Dict V) (k j : String) → get (remove d k) j ≡ (if str_eq k j then none else get d j)
  unfolding get remove
  get-remove [] k j = ground arith
  get-remove ((i, w) ∷ d) k j = ground (arith, eq_iff k j, eq_iff i k, eq_iff i j, get-remove d k j)

  pub get-In-keys : (d : Dict V) (k : String) (v : V) → get d k ≡ some v → In k (keys d)
  unfolding get
  get-In-keys [] k v h = cc
  get-In-keys ((j, w) ∷ d) k v h = ground (arith, eq_iff j k, get-In-keys d k v)

  pub In-keys-get : (d : Dict V) (k : String) → In k (keys d) → get d k ≢ none
  unfolding get
  In-keys-get [] k m = elim m [ ]
  In-keys-get ((j, w) ∷ d) k m = ground (arith, eq_iff j k, In-keys-get d k)

  pub length-keys : (d : Dict V) → length (keys d) ≡ length d
  length-keys [] = refl
  length-keys ((j, w) ∷ d) = ap suc (length-keys d)

-- No two pairs have one key.
abbrev pub Distinct {ℓ} : {V : Type ℓ} → Dict V → Type 0
Distinct [] = Unit
Distinct ((k, v) ∷ d) = (In k (keys d) → ⊥) × Distinct d

pub ruleset dict_laws = (get-put, get-remove)
