-- ===== src/Policy/Merged/Answers.antt =====
-- What the merged accessors of policy/layers.py answer, layer by layer.
use rayspec_py.Prelude.{
  ℕ, ◌≤◌, ◌≡◌, ◌↔◌, sym, ap, ◌∙◌, subst, refl, String, Bool, true, false, Option, none, some, List,
  [], ◌∷◌, ◌++◌, All, if◌then◌else◌, arith, is_some, or_else, inl, inr, ◌⊎◌, eq_iff,
}
use rayspec_py.Prelude.Dict.{Dict, get, put}
use rayspec_py.Limits.Policy.{limits_for, put_limit}
use rayspec_py.Policy.Model.{RunLimits}
use rayspec_py.Policy.Layers.{PolicyLayer, PolicySource, gather}
use rayspec_py.Policy.Layers.Rows.{absorb, follow, named, get-absorb}
use rayspec_py.Policy.Layers.Smallest.{AtMost}
use rayspec_py.Policy.Merged.{
  append_to, tool_rows, tool_denied, denied_tools, or_empty, approvals, class_rows, join_class,
  kept_allow_yes, kept_require_tty, lower, run_rows, limits_runs, any_layer, max_concurrent_runs,
  limits_of,
}

module _ {A B : Type 0} (step : Option B → A → B) (P : Option B → Type 0) (Q : A → Type 0) where
  follow_iff :
      ((o : Option B) (v : A) → P (some (step o v)) ↔ (P o × Q v))
      → (o : Option B) (vs : List A) → P (follow step o vs) ↔ (P o × All Q vs)
  follow_iff law o [] = (λ h. (h, tt), λ h. h.0)
  follow_iff law o (v ∷ vs) =
      let (split, join) = law o v in
      let (to, from) = follow_iff law (some (step o v)) vs in
      (
        λ h. let (first, rest) = to h in let (a, b) = split first in (a, (b, rest)),
        λ h. let (a, both) = h in from (join (a, both.0), both.1),
      )

named-append :
    {A : Type 0} (k : String) (xs ys : List (String × A))
    → named k (xs ++ ys) ≡ named k xs ++ named k ys
named-append k [] ys = refl
named-append k ((j, v) ∷ xs) ys = ground (arith, named-append k xs ys)

All-append :
    {A : Type 0} (P : A → Type 0) (xs ys : List A) → All P (xs ++ ys) ↔ (All P xs × All P ys)
All-append P [] ys = (λ h. (tt, h), λ h. h.1)
All-append P (x ∷ xs) ys =
    let (to, from) = All-append P xs ys in
    (λ h. let (a, b) = to h.1 in ((h.0, a), b), λ h. let (a, b) = h in (a.0, from (a.1, b)))

-- The rows that the layers give for a name, layer by layer.
All-named :
    {A : Type 0} (Q : A → Type 0) (k : String) (f : PolicyLayer → List (String × A))
    (ls : List PolicyLayer)
    → All Q (named k (gather f ls)) ↔ All (λ l. All Q (named k (f l))) ls
All-named Q k f [] = (λ h. h, λ h. h)
All-named Q k f (l ∷ ls) =
    let e = named-append k (f l) (gather f ls) in
    let (split, join) = All-append Q (named k (f l)) (named k (gather f ls)) in
    let (to, from) = All-named Q k f ls in
    (
      λ h. let (a, b) = split (subst (All Q) e h) in (a, to b),
      λ h. subst (All Q) (sym e) (join (h.0, from h.1)),
    )

module _ {A B : Type 0} (step : Option B → A → B) (P : Option B → Type 0) (Q : A → Type 0) where
  -- A merged entry satisfies `P` exactly when every row for its name satisfies `Q`.
  pub absorb_iff :
      ((o : Option B) (v : A) → P (some (step o v)) ↔ (P o × Q v))
      → P none
      → (f : PolicyLayer → List (String × A)) (k : String) (ls : List PolicyLayer)
      → P (get (absorb step [] (gather f ls)) k) ↔ All (λ l. All Q (named k (f l))) ls
  unfolding get
  absorb_iff law start f k ls =
      let e = get-absorb step [] k (gather f ls) in
      let (to, from) = follow_iff step P Q law none (named k (gather f ls)) in
      let (tos, froms) = All-named Q k f ls in
      (λ h. tos (to (subst P e h)).1, λ h. subst P (sym e) (from (start, froms h)))

append_cons : {A : Type 0} (xs : List A) (v : A) (vs : List A) → (xs ++ v ∷ []) ++ vs ≡ xs ++ v ∷ vs
append_cons [] v vs = refl
append_cons (x ∷ xs) v vs = ap (λ zs. x ∷ zs) (append_cons xs v vs)

append_nil_right : {A : Type 0} (xs : List A) → xs ++ [] ≡ xs
append_nil_right [] = refl
append_nil_right (x ∷ xs) = ap (λ zs. x ∷ zs) (append_nil_right xs)

append_to_some :
    (o : Option (List PolicySource)) (v : PolicySource) → append_to o v ≡ or_empty o ++ v ∷ []
append_to_some none v = refl
append_to_some (some ss) v = refl

follow-append_to :
    (o : Option (List PolicySource)) (vs : List PolicySource)
    → or_empty (follow append_to o vs) ≡ or_empty o ++ vs
follow-append_to none [] = refl
follow-append_to (some ss) [] = sym (append_nil_right ss)
follow-append_to o (v ∷ vs) =
    follow-append_to (some (append_to o v)) vs
    ∙ ap (λ zs. zs ++ vs) (append_to_some o v)
    ∙ append_cons (or_empty o) v vs

-- The lines that deny a tool entry: every layer's lines for it, in the order of the layers.
pub tool_denied-eq :
    (ls : List PolicyLayer) (entry : String)
    → tool_denied ls entry ≡ named entry (gather tool_rows ls)
unfolding tool_denied denied_tools get
tool_denied-eq ls entry =
    ap or_empty (get-absorb append_to [] entry (gather tool_rows ls))
    ∙ follow-append_to none (named entry (gather tool_rows ls))

-- The merged class lets `--yes` approve exactly when every layer that defines it does.
pub approvals-allow_yes :
    (ls : List PolicyLayer) (name : String)
    → (kept_allow_yes (get (approvals ls) name) ≡ true)
      ↔ All (λ l. All (λ c. c.allow_yes ≡ true) (named name (class_rows l))) ls
unfolding approvals
approvals-allow_yes ls name =
    absorb_iff join_class (λ o. kept_allow_yes o ≡ true) (λ c. c.allow_yes ≡ true)
      (λ o c. (ground arith, ground arith)) refl class_rows name ls

pub approvals-require_tty :
    (ls : List PolicyLayer) (name : String)
    → (kept_require_tty (get (approvals ls) name) ≡ false)
      ↔ All (λ l. All (λ c. c.require_tty ≡ false) (named name (class_rows l))) ls
unfolding approvals
approvals-require_tty ls name =
    absorb_iff join_class (λ o. kept_require_tty o ≡ false) (λ c. c.require_tty ≡ false)
      (λ o c. (ground arith, ground arith)) refl class_rows name ls

AtMost-lower :
    (n : ℕ) (o : Option ℕ) (limit : ℕ)
    → AtMost n (some (lower o limit)) ↔ (AtMost n o × (n ≤ limit))
AtMost-lower n none limit = (λ h. (tt, h), λ h. h.1)
AtMost-lower n (some c) limit = (ground arith, ground arith)

get-no_rows :
    (name : String) (rows : List (String × ℕ)) → rows ≡ [] → get (absorb lower [] rows) name ≡ none
unfolding get absorb
get-no_rows name [] h = refl
get-no_rows name (r ∷ rows) h = cc

-- The limit that the merged document sets for a name.
abbrev lookup : Option (Dict ℕ) → String → Option ℕ
lookup none name = none
lookup (some d) name = get d name

abbrev pub limit_for : List PolicyLayer → String → Option ℕ
limit_for ls name = lookup (max_concurrent_runs ls) name

limits_of-nil : (o : Option RunLimits) → is_some o ≡ false → limits_of o ≡ []
limits_of-nil none h = refl
limits_of-nil (some r) h = cc

lookup_if :
    (b : Bool) (d : Dict ℕ) (name : String)
    → (b ≡ false → get d name ≡ none)
    → get d name ≡ lookup (if b then some d else none) name
lookup_if true d name h = refl
lookup_if false d name h = h refl

no_limits-nil : (ls : List PolicyLayer) → any_layer limits_runs ls ≡ false → gather run_rows ls ≡ []
no_limits-nil [] h = refl
no_limits-nil (l ∷ ls) h =
    ground (arith, no_limits-nil ls, limits_of-nil l.policy.max_concurrent_runs)

pub limit_for-AtMost :
    (ls : List PolicyLayer) (name : String) (n : ℕ)
    → AtMost n (limit_for ls name)
      ↔ All (λ l. All (λ limit. n ≤ limit) (named name (run_rows l))) ls
unfolding max_concurrent_runs
limit_for-AtMost ls name n =
    let (to, from) =
      absorb_iff lower (AtMost n) (λ limit. n ≤ limit) (λ o limit. AtMost-lower n o limit) tt
        run_rows name ls in
    let e =
      lookup_if (any_layer limits_runs ls) (absorb lower [] (gather run_rows ls)) name
        (λ none_set. get-no_rows name (gather run_rows ls) (no_limits-nil ls none_set)) in
    (λ h. to (subst (AtMost n) (sym e) h), λ h. subst (AtMost n) e (from h))

-- No layer sets a limit for the name.
abbrev pub Unlimited : List PolicyLayer → String → Type 0
Unlimited ls name = All (λ l. All (λ limit. ⊥) (named name (run_rows l))) ls

limit_for-Unlimited :
    (ls : List PolicyLayer) (name : String) → (limit_for ls name ≡ none) ↔ Unlimited ls name
unfolding max_concurrent_runs
limit_for-Unlimited ls name =
    let (to, from) =
      absorb_iff lower (λ o. o ≡ none) (λ limit. ⊥)
        (λ o limit. (λ h. ground arith, λ h. absurd h.1)) refl run_rows name ls in
    let e =
      lookup_if (any_layer limits_runs ls) (absorb lower [] (gather run_rows ls)) name
        (λ none_set. get-no_rows name (gather run_rows ls) (no_limits-nil ls none_set)) in
    (λ h. to (e ∙ h), λ h. sym e ∙ from h)

-- The merged limits, where a policy sets none there is no document.
abbrev pub in_force : Option (Dict ℕ) → Dict ℕ
in_force none = []
in_force (some d) = d

-- What `limits_for` gives a run's provider.
abbrev pub effective : List PolicyLayer → String → Option ℕ
effective ls provider =
    get (limits_for (in_force (max_concurrent_runs ls)) (provider ∷ []) []) provider

get-put_limit : (p : String) (o : Option ℕ) → get (put_limit [] p o) p ≡ o
unfolding get put
get-put_limit p none = refl
get-put_limit p (some n) = ground (arith, eq_iff p p)

get-limits_for :
    (o : Option (Dict ℕ)) (p : String)
    → get (limits_for (in_force o) (p ∷ []) []) p ≡ or_else (lookup o p) (lookup o "*")
unfolding limits_for get put
get-limits_for none p = refl
get-limits_for (some d) p = get-put_limit p (or_else (get d p) (get d "*"))

-- A predicate of a limit with a default, told from what the two say.
or_else_iff :
    (P : Option ℕ → Type 0) (a b : Option ℕ) (U A B : Type 0)
    → (a ≡ none) ↔ U
    → P a ↔ A
    → P b ↔ B
    → P (or_else a b) ↔ ((U × B) ⊎ ((¬ U) × A))
or_else_iff P none b U A B u f g = (
  λ h. inl (u.0 refl, g.0 h),
  λ h. elim h [ inl both ↦ g.1 both.1 | inr both ↦ absurd (both.0 (u.0 refl)) ],
)
or_else_iff P (some m) b U A B u f g = (
  λ h. inr ((λ x. let e = u.1 x in ground arith), f.0 h),
  λ h. elim h [ inl both ↦ let e = u.1 both.0 in ground arith | inr both ↦ f.1 both.1 ],
)

-- What a provider is limited to: a number of runs is within its limit exactly when it is within
-- every limit that a layer sets for the provider by name, where a layer does; where none does, the
-- limits that count are those for `*`, which a bare number sets. A layer that names the provider
-- puts the bare numbers of the others out of force for it.
pub max_concurrent_runs-AtMost :
    (ls : List PolicyLayer) (provider : String) (n : ℕ)
    → AtMost n (effective ls provider) ↔ (
        (Unlimited ls provider × All (λ l. All (λ limit. n ≤ limit) (named "*" (run_rows l))) ls)
        ⊎ ((¬ Unlimited ls provider)
            × All (λ l. All (λ limit. n ≤ limit) (named provider (run_rows l))) ls))
max_concurrent_runs-AtMost ls provider n =
    let e : effective ls provider ≡ or_else (limit_for ls provider) (limit_for ls "*") =
      get-limits_for (max_concurrent_runs ls) provider in
    let (to, from) =
      or_else_iff (AtMost n) (limit_for ls provider) (limit_for ls "*") _ _ _
        (limit_for-Unlimited ls provider) (limit_for-AtMost ls provider n)
        (limit_for-AtMost ls "*" n) in
    (λ h. to (subst (AtMost n) e h), λ h. subst (AtMost n) (sym e) (from h))
