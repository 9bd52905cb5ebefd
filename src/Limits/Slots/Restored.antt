-- ===== src/Limits/Slots/Restored.antt =====
-- What `acquire_slots` leaves on the host (limits/slots.py).
use rayspec_py.Prelude.{
  ℕ, zero, suc, String, ◌≡◌, refl, ◌∙◌, ap, false, Option, none, some, List, [], ◌∷◌, ◌++◌, All,
  arith, eq_iff,
}
use rayspec_py.Prelude.Dict.{Dict}
use rayspec_py.Limits.Slots.{
  Host, RunSlot, Attempt, got, refused, locked, try_from, try_all, taken_at, poll, acquire_new,
  acquire_at, acquire, unlock, release, release_all, new_slots, sorted_set, next_slot, acquire_each,
  acquire_slots,
}
use rayspec_py.Limits.Slots.Bound.{try_from-free}

-- The host once the block of `acquire_slots` is left: what was got is released.
abbrev pub after_block : Attempt (List RunSlot) → Host
after_block (got held host) = release_all held host
after_block (refused e host) = host

unlock-unlocked :
    (p : String) (i : ℕ) (host : Host) → locked host p i ≡ false → unlock p i host ≡ host
unlock-unlocked p i [] h = refl
unlock-unlocked p i (l ∷ host) h = ground (arith, unlock-unlocked p i host)

unlock-new :
    (p : String) (i : ℕ) (host : Host)
    → locked host p i ≡ false
    → unlock p i (record { provider = p; index = i } ∷ host) ≡ host
unlock-new p i host h = ground (arith, eq_iff p p, unlock-unlocked p i host)

-- What an attempt leaves, when its slot is given back.
abbrev undone : Attempt RunSlot → Host
undone (got s host) = (release s host).1
undone (refused e host) = host

taken_at-undone :
    (slot : RunSlot) (host : Host) (o : Option ℕ)
    → try_from host slot.provider 1 slot.limit ≡ o
    → undone (taken_at slot host o) ≡ host
unfolding release
taken_at-undone slot host none e = refl
taken_at-undone slot host (some i) e =
    let (a, b, free) = try_from-free host slot.provider 1 slot.limit i e in
    unlock-new slot.provider i host free

acquire_new-undone :
    (slot : RunSlot) (host : Host) (limit : ℕ) → undone (acquire_new slot host [] limit) ≡ host
unfolding poll try_all
acquire_new-undone slot host zero = refl
acquire_new-undone slot host (suc n) = taken_at-undone slot host _ refl

acquire-undone :
    (slot : RunSlot) (host : Host) → slot.index ≡ none → undone (acquire slot host []) ≡ host
unfolding acquire
acquire-undone slot host e =
    ap (λ o. undone (acquire_at slot host [] o)) e ∙ acquire_new-undone slot host slot.limit

release_all-append :
    (held : List RunSlot) (s : RunSlot) (host : Host)
    → release_all (held ++ s ∷ []) host ≡ release_all held ((release s host).1)
unfolding release_all
release_all-append [] s host = refl
release_all-append (t ∷ held) s host = ap (λ h. (release t h).1) (release_all-append held s host)

next-restored :
    (rest : Host → List RunSlot → Attempt (List RunSlot)) (held : List RunSlot)
    (a : Attempt RunSlot)
    → ((h : Host) (now : List RunSlot) → after_block (rest h now) ≡ release_all now h)
    → after_block (next_slot rest held a) ≡ release_all held (undone a)
next-restored rest held (got s h) k = k h (held ++ s ∷ []) ∙ release_all-append held s h
next-restored rest held (refused e h) k = refl

each-restored :
    (slots : List RunSlot) (host : Host) (held : List RunSlot)
    → All (λ s. s.index ≡ none) slots
    → after_block (acquire_each slots [] host held) ≡ release_all held host
unfolding acquire_each
each-restored [] host held h = refl
each-restored (slot ∷ slots) host held h =
    next-restored (acquire_each slots []) held (acquire slot host [])
      (λ next now. each-restored slots next now h.1)
    ∙ ap (release_all held) (acquire-undone slot host h.0)

new_slots-free :
    (limits : Dict ℕ) (ps : List String) → All (λ s. s.index ≡ none) (new_slots limits ps)
new_slots-free limits [] = tt
new_slots-free limits (p ∷ ps) = ground (arith, new_slots-free limits ps)

-- A caller of `acquire_slots` that does not wait, and beside which no other run changes the locks of
-- the host: whether it gets the slots or is refused, the locks are those from before once its block
-- is left.
pub acquire_slots_restored :
    (limits : Dict ℕ) (providers : List String) (host : Host)
    → after_block (acquire_slots limits providers [] host) ≡ host
unfolding acquire_slots release_all
acquire_slots_restored limits providers host =
    each-restored (new_slots limits (sorted_set limits providers)) host []
      (new_slots-free limits (sorted_set limits providers))
