-- ===== src/Engine/Paths/Split.antt =====
-- A printed path splits into its printed segments (engine/paths.py).
use rayspec_py.Prelude.{ℕ, ◌≡◌, refl, Bool, true, not, List, [], ◌∷◌, ◌++◌, all, arith, ◌==◌}
use rayspec_py.Engine.Paths.{split_slash}

abbrev pub no_slash : List ℕ → Bool
no_slash cs = all (λ c. not (c == b'/')) cs

pub split_slash-one : (part : List ℕ) → no_slash part ≡ true → split_slash part ≡ part ∷ []
unfolding split_slash
split_slash-one [] h = refl
split_slash-one (c ∷ cs) h = ground (arith, split_slash-one cs)

pub split_slash-append :
    (part rest : List ℕ)
    → no_slash part ≡ true
    → split_slash (part ++ b'/' ∷ rest) ≡ part ∷ split_slash rest
unfolding split_slash
split_slash-append [] rest h = refl
split_slash-append (c ∷ cs) rest h = ground (arith, split_slash-append cs rest)

pub no_slash-append :
    (xs ys : List ℕ) → no_slash xs ≡ true → no_slash ys ≡ true → no_slash (xs ++ ys) ≡ true
no_slash-append [] ys h k = k
no_slash-append (c ∷ xs) ys h k = ground (arith, no_slash-append xs ys)
