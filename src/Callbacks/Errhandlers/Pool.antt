-- ===== src/Callbacks/Errhandlers/Pool.antt =====
-- What a reservation of an error handler's slot does, and what undoes it.
use mpif.Prelude.{
  ℕ, ◌<◌, ◌≡◌, ◌≢◌, inl, inr, refl, ap, ◌∙◌, Option, none, some, List, arith, length, get_elem?,
  map, count_up, get_elem?-map, get_elem?-count_up,
}
use mpif.Prelude.Int.{pos, negsuc}
use mpif.Callbacks.Predefined.{Procedure}
use mpif.Callbacks.Slots.{Slot, claim, release}
use mpif.Callbacks.Slots.Laws.{Claimed, IsFull, Outcome, claim-Outcome, IsClean, release-claim}
use mpif.Callbacks.Errhandlers.{
  mpif_errhandler_slots, Kind, comm, win, file, session, out_of_range, Trampoline,
  comm_errhandler_trampoline, win_errhandler_trampoline, file_errhandler_trampoline,
  session_errhandler_trampoline, Reserved, pick, mpif_errhandler_reserve, mpif_errhandler_cancel,
}

abbrev pub IsPool : List Slot → Type 0
IsPool slots = length slots ≡ mpif_errhandler_slots

-- The trampoline of a slot for a kind of object; there is none for an unknown kind.
abbrev pub trampoline_of : Kind → ℕ → Option Trampoline
trampoline_of comm i = some (comm_errhandler_trampoline i)
trampoline_of win i = some (win_errhandler_trampoline i)
trampoline_of file i = some (file_errhandler_trampoline i)
trampoline_of session i = some (session_errhandler_trampoline i)
trampoline_of out_of_range i = none

entry :
    (f : ℕ → Trampoline) (i : ℕ)
    → i < mpif_errhandler_slots
    → get_elem? (map f (count_up 0 mpif_errhandler_slots)) i ≡ some (f i)
entry f i h =
    get_elem?-map f (count_up 0 mpif_errhandler_slots) i i
      (get_elem?-count_up mpif_errhandler_slots 0 i h ∙ ap some (omega arith))

pick-function :
    (kind : Kind) (slots : List Slot) (i : ℕ)
    → i < mpif_errhandler_slots
    → (pick kind slots i).function ≡ trampoline_of kind i
unfolding pick
pick-function comm slots i h = entry comm_errhandler_trampoline i h
pick-function win slots i h = entry win_errhandler_trampoline i h
pick-function file slots i h = entry file_errhandler_trampoline i h
pick-function session slots i h = entry session_errhandler_trampoline i h
pick-function out_of_range slots i h = refl

pick-slots :
    (kind : Kind) (slots : List Slot) (i : ℕ)
    → kind ≢ out_of_range
    → pick kind slots i ≡ record (pick kind slots i) { slots = slots; slot = pos i }
unfolding pick
pick-slots comm slots i h = refl
pick-slots win slots i h = refl
pick-slots file slots i h = refl
pick-slots session slots i h = refl
pick-slots out_of_range slots i h = absurd (h refl)

-- What a reservation does for a known kind: with a free slot, the procedure gets the first one and
-- the pointer of that slot in the kind's table; with none, NULL and the slot -1, and nothing changes.
pub data ReserveOutcome (slots : List Slot) (callback : Procedure) (kind : Kind) (r : Reserved)
    : Type 0 where
  reserved :
      (i : ℕ)
      → r.slot ≡ pos i
      → r.function ≡ trampoline_of kind i
      → Claimed slots callback i r.slots
      → ReserveOutcome slots callback kind r
  no_room :
      IsFull slots
      → r ≡ record { slots = slots; slot = negsuc 0; function = none }
      → ReserveOutcome slots callback kind r

-- A reservation for a known kind in a pool of 64 slots has one of two outcomes: the procedure gets
-- the first free slot and that slot's pointer of the kind's table, or, if all are in use, the answer is
-- NULL with the slot -1 and nothing changes.
pub errhandler_reserve-ReserveOutcome :
    (slots : List Slot) (callback : Procedure) (kind : Kind)
    → IsPool slots
    → kind ≢ out_of_range
    → ReserveOutcome slots callback kind (mpif_errhandler_reserve slots callback kind)
unfolding mpif_errhandler_reserve
errhandler_reserve-ReserveOutcome slots callback kind pool known = go (claim-Outcome slots callback)
  where
    go :
        Outcome slots callback (claim slots callback)
        → ReserveOutcome slots callback kind (mpif_errhandler_reserve slots callback kind)
    go (inl (e, full)) = no_room full (rw (e, mpif_errhandler_reserve))
    go (inr (i, after, e, c)) =
        let same = pick-slots kind after i known in
        reserved i (rw (e, mpif_errhandler_reserve) (ap (λ (r : Reserved). r.slot) same))
          (rw (e, mpif_errhandler_reserve) (pick-function kind after i (omega (arith, c.within))))
          (rw (e, mpif_errhandler_reserve) (rw same c))

-- An unknown kind changes nothing in the end: the slot that was claimed is given back.
pub errhandler_reserve_unknown :
    (slots : List Slot) (callback : Procedure)
    → IsClean slots
    → let r = mpif_errhandler_reserve slots callback out_of_range in
      (r.slots ≡ slots) × (r.function ≡ none)
unfolding mpif_errhandler_reserve
errhandler_reserve_unknown slots callback clean = go (claim-Outcome slots callback)
  where
    go :
        Outcome slots callback (claim slots callback)
        → let r = mpif_errhandler_reserve slots callback out_of_range in
          (r.slots ≡ slots) × (r.function ≡ none)
    go (inl (e, full)) = rw (e, mpif_errhandler_reserve) (refl, refl)
    go (inr (i, after, e, c)) =
        rw (e, mpif_errhandler_reserve)
          (
            release-claim slots callback i after clean e (omega (arith, c.within, c.same_length)),
            refl,
          )

-- Cancelling undoes a reservation for a known kind, and does nothing after one that failed.
pub errhandler_cancel-reserve :
    (slots : List Slot) (callback : Procedure) (kind : Kind)
    → IsClean slots
    → kind ≢ out_of_range
    → let r = mpif_errhandler_reserve slots callback kind in
      mpif_errhandler_cancel r.slots r.slot ≡ slots
unfolding mpif_errhandler_reserve mpif_errhandler_cancel release
errhandler_cancel-reserve slots callback kind clean known = go (claim-Outcome slots callback)
  where
    go :
        Outcome slots callback (claim slots callback)
        → let r = mpif_errhandler_reserve slots callback kind in
          mpif_errhandler_cancel r.slots r.slot ≡ slots
    go (inl (e, full)) = rw (e, mpif_errhandler_reserve)
    go (inr (i, after, e, c)) =
        rw (e, mpif_errhandler_reserve)
          (ap (λ (r : Reserved). mpif_errhandler_cancel r.slots r.slot)
              (pick-slots kind after i known)
            ∙ release-claim slots callback i after clean e (omega (arith, c.within, c.same_length)))
