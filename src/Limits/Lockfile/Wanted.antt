-- ===== src/Limits/Lockfile/Wanted.antt =====
-- limits/lockfile.py: what `lock_entries_for` pins, key by key.
use rayspec_py.Prelude.{
  String, Option, none, some, List, [], ◌∷◌, elem, In, str_eq, eq_iff, if◌then◌else◌, ◌≡◌, ◌⊎◌,
  refl, arith,
}
use rayspec_py.Prelude.Dict.{Distinct, Dict, get, put, keys, values, get-put}
use rayspec_py.Limits.Slots.{insert_sorted}
use rayspec_py.Limits.Lockfile.{
  LockEntry, ResolvedAgent, ResolvedWorkflow, sorted_names, lock_entry, pin, pin_all,
  lock_entries_for,
}

elem-insert_sorted :
    (x k : String) (ks : List String) → elem x (insert_sorted k ks) ≡ elem x (k ∷ ks)
elem-insert_sorted x k [] = refl
elem-insert_sorted x k (q ∷ qs) =
    ground (arith, eq_iff k q, eq_iff k x, eq_iff q x, elem-insert_sorted x k qs)

elem-sorted_names : (x : String) (ks : List String) → elem x (sorted_names ks) ≡ elem x ks
elem-sorted_names x [] = refl
elem-sorted_names x (k ∷ ks) =
    ground (arith, elem-insert_sorted x k (sorted_names ks), elem-sorted_names x ks)

-- The entry that a step's agent is to be pinned to.
abbrev entry_or : Option ResolvedAgent → Option LockEntry → Option LockEntry
entry_or none other = other
entry_or (some agent) other = some (lock_entry agent)

get-pin :
    (key : String) (agent : Option ResolvedAgent) (entries : Dict LockEntry) (x : String)
    → get (pin key agent entries) x
      ≡ (if str_eq key x then entry_or agent (get entries x) else get entries x)
get-pin key none entries x = ground arith
get-pin key (some agent) entries x = get-put entries key x (lock_entry agent)

get-pin_all :
    (agents : Dict ResolvedAgent) (ks : List String) (entries : Dict LockEntry) (x : String)
    → get (pin_all agents ks entries) x
      ≡ (if elem x ks then entry_or (get agents x) (get entries x) else get entries x)
unfolding pin_all
get-pin_all agents [] entries x = refl
get-pin_all agents (k ∷ ks) entries x = ground (
  arith,
  eq_iff k x,
  get-pin k (get agents k) entries x,
  get-pin_all agents ks (pin k (get agents k) entries) x,
)

-- What `key` is to be pinned to: its agent, where a step resolves to it.
abbrev pub wanted : ResolvedWorkflow → String → Option LockEntry
wanted r key = if elem key (values r.step_agents) then entry_or (get r.agents key) none else none

pub get-lock_entries_for :
    (r : ResolvedWorkflow) (key : String) → get (lock_entries_for r) key ≡ wanted r key
unfolding lock_entries_for get
get-lock_entries_for r key = ground (
  arith,
  get-pin_all r.agents (sorted_names (values r.step_agents)) [] key,
  elem-sorted_names key (values r.step_agents),
)

In-keys-put :
    {V : Type 0} (d : Dict V) (k : String) (v : V) (x : String)
    → In x (keys (put d k v))
    → (k ≡ x) ⊎ In x (keys d)
unfolding put
In-keys-put [] k v x m = m
In-keys-put ((j, w) ∷ d) k v x m = ground (arith, eq_iff j k, In-keys-put d k v x)

put-Distinct : {V : Type 0} (d : Dict V) (k : String) (v : V) → Distinct d → Distinct (put d k v)
unfolding put
put-Distinct [] k v h = ((λ m. m), tt)
put-Distinct ((j, w) ∷ d) k v h =
    ground (arith, eq_iff j k, In-keys-put d k v j, put-Distinct d k v h.1)

pin-Distinct :
    (key : String) (agent : Option ResolvedAgent) (entries : Dict LockEntry)
    → Distinct entries
    → Distinct (pin key agent entries)
pin-Distinct key none entries h = h
pin-Distinct key (some agent) entries h = put-Distinct entries key (lock_entry agent) h

pin_all-Distinct :
    (agents : Dict ResolvedAgent) (ks : List String) (entries : Dict LockEntry)
    → Distinct entries
    → Distinct (pin_all agents ks entries)
unfolding pin_all
pin_all-Distinct agents [] entries h = h
pin_all-Distinct agents (k ∷ ks) entries h =
    pin_all-Distinct agents ks (pin k (get agents k) entries)
      (pin-Distinct k (get agents k) entries h)

pub lock_entries_for-Distinct : (r : ResolvedWorkflow) → Distinct (lock_entries_for r)
unfolding lock_entries_for
lock_entries_for-Distinct r = pin_all-Distinct r.agents (sorted_names (values r.step_agents)) [] tt
