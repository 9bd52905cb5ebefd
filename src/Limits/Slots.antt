-- ===== src/Limits/Slots.antt =====
-- limits/slots.py: `RunSlot` and `acquire_slots`. The host is the table of the `flock`s that are
-- held; a lock is taken where none is, and closing its descriptor, or the end of the process,
-- gives it back. Slot files are named by the provider, whose directory `slot_dir` tells apart.
pub mod Bound
pub mod Restored
use rayspec_py.Prelude.{
  ℕ, zero, suc, String, Bool, true, false, not, ◌&&◌, ◌||◌, Option, none, some, List, [], ◌∷◌, ◌++◌,
  any, select, str_eq, ◌==◌, if◌then◌else◌,
}
use rayspec_py.Prelude.Dict.{Dict, get}
use rayspec_py.Limits.Ledger.Books.{str_leb}

pub record Lock : Type 0 where
  pub provider : String
  pub index : ℕ

abbrev pub Host : Type 0
Host = List Lock

pub record RunSlot : Type 0 where
  pub provider : String
  pub limit : ℕ
  pub index : Option ℕ

-- SlotBusyError: the provider is switched off, or every slot is taken
pub data SlotError : Type 0 where
  disabled busy : String → SlotError

-- What an acquiring call leaves.
pub data Attempt (A : Type 0) : Type 0 where
  got : A → Host → Attempt A
  refused : SlotError → Host → Attempt A

abbrev pub is_lock : String → ℕ → Lock → Bool
is_lock provider index l = str_eq l.provider provider && l.index == index

-- `_try_one`: whether the file can be locked
abbrev pub locked : Host → String → ℕ → Bool
locked host provider index = any (is_lock provider index) host

-- `_try_all`, over `left` slots from `index` on: the slot that is taken
unfoldable pub try_from : Host → String → ℕ → ℕ → Option ℕ
try_from host provider index zero = none
try_from host provider index (suc left) =
    let rest = try_from host provider (suc index) left in
    if locked host provider index then rest else some index

abbrev pub taken_at : RunSlot → Host → Option ℕ → Attempt RunSlot
taken_at slot host none = refused (busy slot.provider) host
taken_at slot host (some index) =
    got (record slot { index = some index })
      (record { provider = slot.provider; index = index } ∷ host)

-- One pass of `_try_all`, with its effect.
unfoldable pub try_all : RunSlot → Host → Attempt RunSlot
try_all slot host = taken_at slot host (try_from host slot.provider 1 slot.limit)

-- The loop of `acquire`: `later` are the hosts that the polls find, as many as the wait allows and
-- none where the caller does not wait.
unfoldable pub poll : RunSlot → Host → List Host → Attempt RunSlot
poll slot host [] = try_all slot host
poll slot host (next ∷ later) =
    let rest = poll slot next later in
    elim (try_all slot host) [ got s h ↦ got s h | refused e h ↦ rest ]

abbrev pub acquire_new : RunSlot → Host → List Host → ℕ → Attempt RunSlot
acquire_new slot host later zero = refused (disabled slot.provider) host
acquire_new slot host later (suc n) = poll slot host later

abbrev pub acquire_at : RunSlot → Host → List Host → Option ℕ → Attempt RunSlot
acquire_at slot host later (some index) = got slot host
acquire_at slot host later none = acquire_new slot host later slot.limit

unfoldable pub acquire : RunSlot → Host → List Host → Attempt RunSlot
acquire slot host later = acquire_at slot host later slot.index

abbrev pub unlock : String → ℕ → Host → Host
unlock provider index host = select (λ l. not (is_lock provider index l)) host

abbrev pub release_at : RunSlot → Host → Option ℕ → RunSlot × Host
release_at slot host none = (slot, host)
release_at slot host (some index) = (record slot { index = none }, unlock slot.provider index host)

-- `release`
unfoldable pub release : RunSlot → Host → RunSlot × Host
release slot host = release_at slot host slot.index

-- for slot in reversed(held): slot.release()
unfoldable pub release_all : List RunSlot → Host → Host
release_all [] host = host
release_all (slot ∷ held) host = (release slot (release_all held host)).1

-- sorted(set(providers)), of those with a limit
abbrev pub insert_sorted : String → List String → List String
insert_sorted p [] = p ∷ []
insert_sorted p (q ∷ qs) =
    let rest = insert_sorted p qs in
    if str_eq p q then q ∷ qs else if str_leb p q then p ∷ q ∷ qs else q ∷ rest

abbrev pub new_slots : Dict ℕ → List String → List RunSlot
new_slots limits [] = []
new_slots limits (p ∷ ps) =
    let rest = new_slots limits ps in
    elim (get limits p) [
      | none ↦ rest
      | some limit ↦ record { provider = p; limit = limit; index = none } ∷ rest
    ]

abbrev pub sorted_set : Dict ℕ → List String → List String
sorted_set limits [] = []
sorted_set limits (p ∷ ps) =
    let rest = sorted_set limits ps in
    elim (get limits p) [ none ↦ rest | some limit ↦ insert_sorted p rest ]

-- What follows the attempt for one slot: the next, or what `finally` does.
abbrev pub next_slot :
    (Host → List RunSlot → Attempt (List RunSlot))
    → List RunSlot
    → Attempt RunSlot
    → Attempt (List RunSlot)
next_slot rest held (got s h) = rest h (held ++ s ∷ [])
next_slot rest held (refused e h) = refused e (release_all held h)

-- What the polls for the first of the slots find, and for those after it.
abbrev pub polls_of : List (List Host) → List Host
polls_of [] = []
polls_of (later ∷ waits) = later

abbrev pub later_polls : List (List Host) → List (List Host)
later_polls [] = []
later_polls (later ∷ waits) = waits

-- The loop of `acquire_slots`.
unfoldable pub acquire_each :
    List RunSlot → List (List Host) → Host → List RunSlot → Attempt (List RunSlot)
acquire_each [] waits host held = got held host
acquire_each (slot ∷ slots) waits host held =
    next_slot (acquire_each slots (later_polls waits)) held (acquire slot host (polls_of waits))

-- `acquire_slots`; `waits` are the hosts that the polls for each slot find, none for a caller that
-- does not wait
unfoldable pub acquire_slots :
    Dict ℕ → List String → List (List Host) → Host → Attempt (List RunSlot)
acquire_slots limits providers waits host =
    acquire_each (new_slots limits (sorted_set limits providers)) waits host []
