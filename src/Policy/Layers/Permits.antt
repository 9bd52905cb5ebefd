-- ===== src/Policy/Layers/Permits.antt =====
-- What the layers permit: the restrictions of policy/layers.py, one by one.
use rayspec_py.Prelude.{
  ℕ, ◌≤◌, ◌≡◌, ◌↔◌, refl, String, Bool, true, false, Option, none, some, List, [], ◌∷◌, ◌++◌, All,
  In, elem, In→elem, elem→In, select, ◌==◌, if◌then◌else◌, eq_iff, arith,
}
use rayspec_py.Policy.Model.{access_rank}
use rayspec_py.Policy.Layers.{
  PolicyLayer, PolicySource, Key, key, source, text, gather, left_out, provider_denied, mcp_denied,
  allowed_providers, allowed_mcp_servers, intersect_from, narrow, max_access, access_exceeded,
  max_rank, min_of, present, min_present, level_at, first_level, above, ranked, one,
}
use rayspec_py.Policy.Layers.Smallest.{AtMost, AtMost-min_of, InN, least-InN}

pub append-nil : {A : Type 0} (xs ys : List A) → (xs ++ ys ≡ []) ↔ ((xs ≡ []) × (ys ≡ []))
append-nil [] ys = (ground arith, ground arith)
append-nil (x ∷ xs) ys = (ground arith, ground arith)

pub gather-nil :
    {A : Type 0} (f : PolicyLayer → List A) (ls : List PolicyLayer)
    → (gather f ls ≡ []) ↔ All (λ l. f l ≡ []) ls
gather-nil f [] = (λ h. tt, λ h. refl)
gather-nil f (l ∷ ls) = (
  ground (arith, append-nil (f l) (gather f ls), gather-nil f ls),
  ground (arith, append-nil (f l) (gather f ls), gather-nil f ls),
)

pub All-iff :
    {A : Type 0} {P Q : A → Type 0} → ((x : A) → P x ↔ Q x) → (xs : List A) → All P xs ↔ All Q xs
All-iff f [] = (λ h. h, λ h. h)
All-iff f (x ∷ xs) =
    let (to, from) = f x in
    let (tos, froms) = All-iff f xs in (λ h. (to h.0, tos h.1), λ h. (from h.0, froms h.1))

-- An allow-list that is not set allows every name.
abbrev pub Allows : Option (List String) → String → Type 0
Allows none x = Unit
Allows (some allow) x = In x allow

left_out-nil :
    (l : PolicyLayer) (x : String) (keys : List Key) (o : Option (List String))
    → (left_out l x keys o ≡ []) ↔ Allows o x
left_out-nil l x keys none = (λ h. tt, λ h. refl)
left_out-nil l x keys (some allow) =
    (ground (arith, elem→In x allow), ground (arith, In→elem x allow))

select-In :
    (x : String) (ys xs : List String) → In x (select (λ y. elem y ys) xs) ↔ (In x xs × In x ys)
select-In x ys [] = (λ h. elim h [ ], λ h. h.0)
select-In x ys (y ∷ xs) = (
  ground (arith, eq_iff y x, select-In x ys xs, elem→In x ys, elem→In y ys),
  ground (arith, eq_iff y x, select-In x ys xs, In→elem x ys, In→elem y ys),
)

narrow-Allows :
    (x : String) (o p : Option (List String)) → Allows (narrow o p) x ↔ (Allows o x × Allows p x)
narrow-Allows x o none = (λ h. (h, tt), λ h. h.0)
narrow-Allows x none (some ys) = (λ h. (tt, h), λ h. h.1)
narrow-Allows x (some xs) (some ys) = select-In x ys xs

intersect_from-Allows :
    (pick : PolicyLayer → Option (List String)) (x : String) (o : Option (List String))
    (ls : List PolicyLayer)
    → Allows (intersect_from pick o ls) x ↔ (Allows o x × All (λ l. Allows (pick l) x) ls)
intersect_from-Allows pick x o [] = (λ h. (h, tt), λ h. h.0)
intersect_from-Allows pick x o (l ∷ ls) =
    let (to, from) = intersect_from-Allows pick x (narrow o (pick l)) ls in
    let (split, join) = narrow-Allows x o (pick l) in
    (
      λ h. let (here, rest) = to h in let (a, b) = split here in (a, (b, rest)),
      λ h. let (a, both) = h in from (join (a, both.0), both.1),
    )

-- A provider is refused by no layer exactly when every layer's allow-list has it, which is to be
-- in the intersection that `allowed_providers` computes.
pub provider_denied-Allows :
    (ls : List PolicyLayer) (x : String)
    → ((provider_denied ls x ≡ []) ↔ All (λ l. Allows l.policy.providers_allow x) ls)
      × ((provider_denied ls x ≡ []) ↔ Allows (allowed_providers ls) x)
unfolding provider_denied allowed_providers
provider_denied-Allows ls x =
    let pick : PolicyLayer → Option (List String) = λ l. l.policy.providers_allow in
    let keys = key "providers" ∷ key "allow" ∷ [] in
    let (to, from) = gather-nil (λ l. left_out l x keys (pick l)) ls in
    let (tos, froms) = All-iff (λ l. left_out-nil l x keys (pick l)) ls in
    let (apart, meet) = intersect_from-Allows pick x none ls in
    (
      (λ h. tos (to h), λ h. from (froms h)),
      (λ h. meet (tt, tos (to h)), λ h. from (froms (apart h).1)),
    )

-- The same for MCP servers.
pub mcp_denied-Allows :
    (ls : List PolicyLayer) (x : String)
    → ((mcp_denied ls x ≡ []) ↔ All (λ l. Allows l.policy.mcp_allow_servers x) ls)
      × ((mcp_denied ls x ≡ []) ↔ Allows (allowed_mcp_servers ls) x)
unfolding mcp_denied allowed_mcp_servers
mcp_denied-Allows ls x =
    let pick : PolicyLayer → Option (List String) = λ l. l.policy.mcp_allow_servers in
    let keys = key "mcp" ∷ key "allow_servers" ∷ [] in
    let (to, from) = gather-nil (λ l. left_out l x keys (pick l)) ls in
    let (tos, froms) = All-iff (λ l. left_out-nil l x keys (pick l)) ls in
    let (apart, meet) = intersect_from-Allows pick x none ls in
    (
      (λ h. tos (to h), λ h. from (froms h)),
      (λ h. meet (tt, tos (to h)), λ h. from (froms (apart h).1)),
    )

-- The level of the first source has the least rank that a layer set.
abbrev HasRank : ℕ → List (String × PolicySource) → Type 0
HasRank m rows =
    (level : String) × (s : PolicySource) × (rest : List (String × PolicySource)) × (rows
      ≡ (level, s) ∷ rest)
    × (access_rank level ≡ m)

HasRank-if :
    (b : Bool) (m : ℕ) (level : String) (s : PolicySource) (rows : List (String × PolicySource))
    → (b ≡ true → access_rank level ≡ m)
    → (b ≡ false → HasRank m rows)
    → HasRank m ((if b then (level, s) ∷ [] else []) ++ rows)
HasRank-if true m level s rows h k = (level, s, rows, refl, h refl)
HasRank-if false m level s rows h k = k refl

HasRank-level_at :
    (m : ℕ) (l : PolicyLayer) (o : Option String) (xs : List ℕ)
    (rows : List (String × PolicySource))
    → (InN m xs → HasRank m rows)
    → InN m (one (ranked o) ++ xs)
    → HasRank m (level_at m l o ++ rows)
HasRank-level_at m l none xs rows k h = k h
HasRank-level_at m l (some level) xs rows k h =
    HasRank-if (access_rank level == m) m level
      (source l (text level) (key "access" ∷ key "max" ∷ [])) rows (λ e. ground arith)
      (λ e. k (ground arith))

HasRank-gather :
    (m : ℕ) (ls : List PolicyLayer)
    → InN m (present max_rank ls)
    → HasRank m (gather (λ l. level_at m l l.policy.access_max) ls)
HasRank-gather m [] h = elim h [ ]
HasRank-gather m (l ∷ ls) h =
    HasRank-level_at m l l.policy.access_max (present max_rank ls)
      (gather (λ l. level_at m l l.policy.access_max) ls) (HasRank-gather m ls) h

above-first_level :
    (access : String) (m : ℕ) (rows : List (String × PolicySource))
    → HasRank m rows
    → (above access (first_level rows) ≡ []) ↔ (access_rank access ≤ m)
above-first_level access m rows (level, s, rest, e, r) = rw e (ground arith, ground arith)

min_of_InN : (xs : List ℕ) (m : ℕ) → min_present xs ≡ some m → InN m xs
min_of_InN [] m e = cc
min_of_InN (x ∷ xs) m e = ground (arith, least-InN x xs)

above-AtMost :
    (access : String) (o : Option ℕ) (rows : ℕ → List (String × PolicySource))
    → ((m : ℕ) → o ≡ some m → HasRank m (rows m))
    → (above access (elim o [ none ↦ none | some lowest ↦ first_level (rows lowest) ]) ≡ [])
      ↔ AtMost (access_rank access) o
above-AtMost access none rows h = (λ e. tt, λ e. refl)
above-AtMost access (some m) rows h = above-first_level access m (rows m) (h m refl)

-- An access level is within policy exactly when no layer's `access.max` is below it.
pub access_exceeded-AtMost :
    (ls : List PolicyLayer) (access : String)
    → (access_exceeded ls access ≡ []) ↔ All (λ l. AtMost (access_rank access) (max_rank l)) ls
unfolding access_exceeded max_access
access_exceeded-AtMost ls access =
    let (to, from) =
      above-AtMost access (min_of max_rank ls)
        (λ m. gather (λ l. level_at m l l.policy.access_max) ls)
        (λ m e. HasRank-gather m ls (min_of_InN (present max_rank ls) m e)) in
    let (tos, froms) = AtMost-min_of (access_rank access) max_rank ls in
    (λ h. tos (to h), λ h. from (froms h))
