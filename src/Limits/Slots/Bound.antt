-- ===== src/Limits/Slots/Bound.antt =====
-- How many runs of a provider hold a slot (limits/slots.py).
use rayspec_py.Prelude.{
  ℕ, zero, suc, ◌+◌, ◌≤◌, ◌<◌, String, ◌≡◌, refl, subst, inl, inr, true, false, ◌&&◌, Option, none,
  some, [], ◌∷◌, All, arith, str_eq, eq_iff, leb, if◌then◌else◌, Bool-cases, Option-cases,
}
use rayspec_py.Limits.Slots.{
  Lock, Host, RunSlot, got, is_lock, locked, try_from, try_all, unlock, release_at, release,
}

-- How many locks there are of one slot, of the slots up to one, and of a provider.
abbrev count_at : String → ℕ → Host → ℕ
count_at p i [] = 0
count_at p i (l ∷ host) = let rest = count_at p i host in if is_lock p i l then suc rest else rest

abbrev count_to : String → ℕ → Host → ℕ
count_to p i [] = 0
count_to p i (l ∷ host) =
    let rest = count_to p i host in if str_eq l.provider p && leb l.index i then suc rest else rest

abbrev pub holders : String → Host → ℕ
holders p [] = 0
holders p (l ∷ host) = let rest = holders p host in if str_eq l.provider p then suc rest else rest

-- One change of the host, where the limit of a provider is at most `limit`: a run takes a slot, or
-- gives its own back, or a process that held one ends.
pub data Change (limit : String → ℕ) : Host → Host → Type 0 where
  takes :
      {host next : Host} (slot taken : RunSlot)
      → slot.limit ≤ limit slot.provider
      → try_all slot host ≡ got taken next
      → Change limit host next
  gives : {host : Host} (slot : RunSlot) → Change limit host ((release slot host).1)
  dies : {host : Host} (p : String) (i : ℕ) → Change limit host (unlock p i host)

pub data Reach (limit : String → ℕ) : Host → Type 0 where
  empty : Reach limit []
  changes : {host next : Host} → Reach limit host → Change limit host next → Reach limit next

abbrev InRange : (String → ℕ) → Lock → Type 0
InRange limit l = (0 < l.index) × (l.index ≤ limit l.provider)

record Sound (limit : String → ℕ) (host : Host) : Type 0 where
  ranged : All (InRange limit) host
  single : (p : String) (i : ℕ) → count_at p i host ≤ 1

unlocked-count :
    (p : String) (i : ℕ) (host : Host) → locked host p i ≡ false → count_at p i host ≡ 0
unlocked-count p i [] h = refl
unlocked-count p i (l ∷ host) h = ground (arith, unlocked-count p i host)

pub try_from-free :
    (host : Host) (p : String) (i left : ℕ) (j : ℕ)
    → try_from host p i left ≡ some j
    → (i ≤ j) × (j < i + left) × (locked host p j ≡ false)
unfolding try_from
try_from-free host p i zero j h = ground arith
try_from-free host p i (suc left) j h = elim (Bool-cases (locked host p i)) [
  | inl held ↦
      let (a, b, c) = try_from-free host p (suc i) left j (ground arith) in
      (omega arith, omega arith, c)
  | inr free ↦
      let e : i ≡ j = ground arith in
      (omega arith, omega arith, subst (λ k. locked host p k ≡ false) e free)
]

same_lock :
    (p q : String) (i j : ℕ)
    → is_lock q j (record { provider = p; index = i }) ≡ true
    → (p ≡ q) × (i ≡ j)
same_lock p q i j h = ground (arith, eq_iff p q)

count-new :
    (p q : String) (i j : ℕ) (host : Host)
    → locked host p i ≡ false
    → count_at q j host ≤ 1
    → count_at q j (record { provider = p; index = i } ∷ host) ≤ 1
count-new p q i j host free h =
    elim (Bool-cases (is_lock q j (record { provider = p; index = i }))) [
      | inl same ↦
          let (e, k) = same_lock p q i j same in
          let z =
            subst (λ r. count_at r j host ≡ 0) e
              (subst (λ n. count_at p n host ≡ 0) k (unlocked-count p i host free)) in
          ground arith
      | inr other ↦ ground arith
    ]

take-Sound :
    (limit : String → ℕ) (host next : Host) (slot taken : RunSlot)
    → slot.limit ≤ limit slot.provider
    → try_all slot host ≡ got taken next
    → Sound limit host
    → Sound limit next
unfolding try_all
take-Sound limit host next slot taken l e s =
    elim (Option-cases (try_from host slot.provider 1 slot.limit)) [
      | inl n ↦ ground arith
      | inr (i, found) ↦
          let (a, b, free) = try_from-free host slot.provider 1 slot.limit i found in
          let e' : record { provider = slot.provider; index = i } ∷ host ≡ next = ground arith in
          subst (Sound limit) e' (record {
            ranged = ((omega arith, omega arith), s.ranged);
            single = λ q j. count-new slot.provider q i j host free (s.single q j);
          })
    ]

unlock-ranged :
    (limit : String → ℕ) (p : String) (i : ℕ) (host : Host)
    → All (InRange limit) host
    → All (InRange limit) (unlock p i host)
unlock-ranged limit p i [] h = tt
unlock-ranged limit p i (l ∷ host) h = ground (arith, unlock-ranged limit p i host)

unlock-count :
    (p q : String) (i j : ℕ) (host : Host) → count_at q j (unlock p i host) ≤ count_at q j host
unlock-count p q i j [] = omega arith
unlock-count p q i j (l ∷ host) = ground (arith, unlock-count p q i j host)

unlock-Sound :
    (limit : String → ℕ) (p : String) (i : ℕ) (host : Host)
    → Sound limit host
    → Sound limit (unlock p i host)
unlock-Sound limit p i host s = record {
  ranged = unlock-ranged limit p i host s.ranged;
  single = λ q j. let a = unlock-count p q i j host in let b = s.single q j in omega arith;
}

release_at-Sound :
    (limit : String → ℕ) (slot : RunSlot) (host : Host) (o : Option ℕ)
    → Sound limit host
    → Sound limit ((release_at slot host o).1)
release_at-Sound limit slot host none s = s
release_at-Sound limit slot host (some i) s = unlock-Sound limit slot.provider i host s

release-Sound :
    (limit : String → ℕ) (slot : RunSlot) (host : Host)
    → Sound limit host
    → Sound limit ((release slot host).1)
unfolding release
release-Sound limit slot host s = release_at-Sound limit slot host slot.index s

Reach-Sound : (limit : String → ℕ) (host : Host) → Reach limit host → Sound limit host
Reach-Sound limit _ empty = record { ranged = tt; single = λ p i. omega arith }
Reach-Sound limit _ (changes {host} {next} r (takes slot taken l e)) =
    take-Sound limit host next slot taken l e (Reach-Sound limit host r)
Reach-Sound limit _ (changes {host} r (gives slot)) =
    release-Sound limit slot host (Reach-Sound limit host r)
Reach-Sound limit _ (changes {host} r (dies p i)) =
    unlock-Sound limit p i host (Reach-Sound limit host r)

count_to-suc :
    (p : String) (i : ℕ) (host : Host)
    → count_to p (suc i) host ≤ count_to p i host + count_at p (suc i) host
count_to-suc p i [] = omega arith
count_to-suc p i (l ∷ host) = ground (arith, count_to-suc p i host)

count_to-zero :
    (limit : String → ℕ) (p : String) (host : Host)
    → All (InRange limit) host
    → count_to p 0 host ≡ 0
count_to-zero limit p [] h = refl
count_to-zero limit p (l ∷ host) h = ground (arith, count_to-zero limit p host)

count_to-bound :
    (limit : String → ℕ) (p : String) (i : ℕ) (host : Host)
    → Sound limit host
    → count_to p i host ≤ i
count_to-bound limit p zero host s = let e = count_to-zero limit p host s.ranged in omega arith
count_to-bound limit p (suc i) host s =
    let a = count_to-suc p i host in
    let b = count_to-bound limit p i host s in let c = s.single p (suc i) in omega arith

holders-count_to :
    (limit : String → ℕ) (p : String) (host : Host)
    → All (InRange limit) host
    → holders p host ≤ count_to p (limit p) host
holders-count_to limit p [] h = omega arith
holders-count_to limit p (l ∷ host) h = elim (Bool-cases (str_eq l.provider p)) [
  | inl same ↦
      let (to, from) = eq_iff l.provider p in
      let l' : l.index ≤ limit p = subst (λ q. l.index ≤ limit q) (to same) h.0.1 in
      ground (arith, holders-count_to limit p host)
  | inr other ↦ ground (arith, holders-count_to limit p host)
]

-- At every point that a host reaches from no lock at all, through runs that take and give back
-- slots and processes that end, at most `limit p` slots of the provider `p` are held, where no run
-- uses a greater limit for it.
pub holders-bound :
    (limit : String → ℕ) (host : Host) (p : String) → Reach limit host → holders p host ≤ limit p
holders-bound limit host p r =
    let s = Reach-Sound limit host r in
    let a = holders-count_to limit p host s.ranged in
    let b = count_to-bound limit p (limit p) host s in omega arith
