-- ===== src/Callbacks/Ops/Pool.antt =====
-- Which procedure a trampoline reaches, over any history of the pool.
use mpif.Prelude.{
  ℕ, ◌<◌, ◌≡◌, ◌≢◌, inl, inr, refl, ap, ◌∙◌, Bool, true, false, none, some, List, arith,
  if◌then◌else◌, length, get_elem?, count_up, get_elem?-map, get_elem?-count_up, All,
}
use mpif.Prelude.Int.{ℤ, pos, negsuc}
use mpif.Machine.{u32}
use mpif.Callbacks.Predefined.{Procedure, null}
use mpif.Callbacks.Slots.{Slot, taken, claim, release, fn_of}
use mpif.Callbacks.Slots.Laws.{
  Claimed, IsFull, Outcome, claim-Outcome, fn_of-get_elem?, length-release, release_others, IsClean,
  release-claim,
}
use mpif.Callbacks.Slots.History.{Claimed-keeps, run, run-Keeps}
use mpif.Callbacks.Ops
use mpif.Callbacks.Ops.{
  mpif_op_slots, Trampoline, op_trampoline, op_trampoline_c, op_trampolines, op_trampolines_c,
  Reserved, mpif_op_reserve, mpif_op_cancel, UserCall, invoke, initial,
}

-- The pointer of slot `i` in either table.
abbrev pub trampoline_of : Bool → ℕ → Trampoline
trampoline_of true i = op_trampoline_c i
trampoline_of false i = op_trampoline i

op_trampolines-get :
    (large : Bool) (i : ℕ)
    → i < mpif_op_slots
    → (if large then get_elem? op_trampolines_c i else get_elem? op_trampolines i)
      ≡ some (trampoline_of large i)
op_trampolines-get true i h =
    get_elem?-map op_trampoline_c (count_up 0 mpif_op_slots) i i
      (get_elem?-count_up mpif_op_slots 0 i h ∙ ap some (omega arith))
op_trampolines-get false i h =
    get_elem?-map op_trampoline (count_up 0 mpif_op_slots) i i
      (get_elem?-count_up mpif_op_slots 0 i h ∙ ap some (omega arith))

-- A pool of the right size, as it is from the start on.
abbrev pub IsPool : List Slot → Type 0
IsPool slots = length slots ≡ mpif_op_slots

-- What a reservation does: with a free slot, the procedure gets the first one and the pointer of
-- that slot in the table asked for; with none, NULL and the slot -1, and nothing changes.
pub data ReserveOutcome (slots : List Slot) (callback : Procedure) (large : Bool) (r : Reserved)
    : Type 0 where
  reserved :
      (i : ℕ)
      → r.slot ≡ pos i
      → r.function ≡ some (trampoline_of large i)
      → Claimed slots callback i r.slots
      → ReserveOutcome slots callback large r
  no_room :
      IsFull slots
      → r ≡ record { slots = slots; slot = negsuc 0; function = none }
      → ReserveOutcome slots callback large r

-- A reservation in a pool of 128 slots has one of two outcomes: the procedure gets the first free
-- slot and that slot's pointer of the table asked for, or, if all are in use, the answer is NULL with
-- the slot -1 and nothing changes.
pub op_reserve-ReserveOutcome :
    (slots : List Slot) (callback : Procedure) (large : Bool)
    → IsPool slots
    → ReserveOutcome slots callback large (mpif_op_reserve slots callback large)
unfolding mpif_op_reserve
op_reserve-ReserveOutcome slots callback large pool = go (claim-Outcome slots callback)
  where
    go :
        Outcome slots callback (claim slots callback)
        → ReserveOutcome slots callback large (mpif_op_reserve slots callback large)
    go (inl (e, full)) = no_room full (rw (e, mpif_op_reserve))
    go (inr (i, after, e, c)) =
        reserved i (rw (e, mpif_op_reserve))
          (rw (e, mpif_op_reserve) (op_trampolines-get large i (omega (arith, c.within))))
          (rw (e, mpif_op_reserve) c)

-- Cancelling undoes a reservation, and does nothing after one that failed.
pub op_cancel-reserve :
    (slots : List Slot) (callback : Procedure) (large : Bool)
    → IsClean slots
    → let r = mpif_op_reserve slots callback large in mpif_op_cancel r.slots r.slot ≡ slots
unfolding mpif_op_reserve mpif_op_cancel release
op_cancel-reserve slots callback large clean = go (claim-Outcome slots callback)
  where
    go :
        Outcome slots callback (claim slots callback)
        → let r = mpif_op_reserve slots callback large in mpif_op_cancel r.slots r.slot ≡ slots
    go (inl (e, full)) = rw (e, mpif_op_reserve)
    go (inr (i, after, e, c)) =
        rw (e, mpif_op_reserve)
          (release-claim slots callback i after clean e (omega (arith, c.within, c.same_length)))

-- The call that an operator is meant to make.
abbrev pub user_call : (ℕ → ℕ) → Bool → Procedure → ℕ → ℕ → ℕ → ℕ → UserCall
user_call type_toint large callback invec inoutvec len datatype = record {
  fn = callback;
  invec = invec;
  inoutvec = inoutvec;
  len = if large then len else u32 len;
  datatype = type_toint datatype;
}

module _ (type_toint : ℕ → ℕ) (slots : List Slot) where
  invoke-fn_of :
      (large : Bool) (i : ℕ) (callback : Procedure) (invec inoutvec len datatype : ℕ)
      → fn_of slots i ≡ callback
      → callback ≢ null
      → invoke type_toint slots (trampoline_of large i) invec inoutvec len datatype
        ≡ some (user_call type_toint large callback invec inoutvec len datatype)
  unfolding invoke
  invoke-fn_of large i null a b c d e h = absurd (h refl)
  invoke-fn_of true i (Procedure.symbol s) a b c d e h = rw (e, Ops.call_user_fn_c)
  invoke-fn_of true i (Procedure.user n) a b c d e h = rw (e, Ops.call_user_fn_c)
  invoke-fn_of false i (Procedure.symbol s) a b c d e h = rw (e, Ops.call_user_fn)
  invoke-fn_of false i (Procedure.user n) a b c d e h = rw (e, Ops.call_user_fn)

-- What a program does with the pool.
pub data Event : Type 0 where
  reserve : Procedure → Bool → Event
  cancel : ℤ → Event

pub step : List Slot → Event → List Slot
step slots (reserve callback large) = (mpif_op_reserve slots callback large).slots
step slots (cancel slot) = mpif_op_cancel slots slot

-- The slot `i` is not given back by the event.
abbrev pub Keeps : ℕ → Event → Type 0
Keeps i (reserve callback large) = Unit
Keeps i (cancel slot) = slot ≢ pos i

step-IsPool : (slots : List Slot) (e : Event) → IsPool slots → IsPool (step slots e)
unfolding step mpif_op_cancel
step-IsPool slots (cancel slot) pool = length-release slots slot ∙ pool
step-IsPool slots (reserve callback large) pool =
    go (op_reserve-ReserveOutcome slots callback large pool)
  where
    go :
        ReserveOutcome slots callback large (mpif_op_reserve slots callback large)
        → IsPool (mpif_op_reserve slots callback large).slots
    go (reserved i at f c) = c.same_length ∙ pool
    go (no_room full e) = ap (λ (r : Reserved). length r.slots) e ∙ pool

-- A slot in use is never given to another procedure.
step-Keeps :
    (slots : List Slot) (e : Event) (i : ℕ) (callback : Procedure)
    → IsPool slots
    → Keeps i e
    → get_elem? slots i ≡ some (taken callback)
    → get_elem? (step slots e) i ≡ some (taken callback)
unfolding step mpif_op_cancel
step-Keeps slots (cancel slot) i callback pool k h = release_others slots slot i k ∙ h
step-Keeps slots (reserve other large) i callback pool k h =
    go (op_reserve-ReserveOutcome slots other large pool)
  where
    go :
        ReserveOutcome slots other large (mpif_op_reserve slots other large)
        → get_elem? (mpif_op_reserve slots other large).slots i ≡ some (taken callback)
    go (no_room full e) = ap (λ (r : Reserved). get_elem? r.slots i) e ∙ h
    go (reserved j at f c) = Claimed-keeps c i callback h

-- An operator calls its own procedure, with the arguments that MPI gives, after any number of
-- other operators have been made and cancelled, as long as its own slot is not cancelled.
pub reserved_op_reaches_its_procedure :
    (type_toint : ℕ → ℕ) (slots : List Slot) (callback : Procedure) (large : Bool) (i : ℕ)
    (es : List Event) (invec inoutvec len datatype : ℕ)
    → IsPool slots
    → callback ≢ null
    → (mpif_op_reserve slots callback large).slot ≡ pos i
    → All (Keeps i) es
    → ((mpif_op_reserve slots callback large).function ≡ some (trampoline_of large i))
      × (invoke type_toint
            (run step (mpif_op_reserve slots callback large).slots es)
            (trampoline_of large i)
            invec
            inoutvec
            len
            datatype
          ≡ some (user_call type_toint large callback invec inoutvec len datatype))
unfolding step
reserved_op_reaches_its_procedure type_toint slots callback large i es a b c d pool ne at keep =
    go (op_reserve-ReserveOutcome slots callback large pool)
  where
    r : Reserved
    r = mpif_op_reserve slots callback large

    after-IsPool : IsPool r.slots
    after-IsPool = step-IsPool slots (reserve callback large) pool

    calls :
        get_elem? r.slots i ≡ some (taken callback)
        → invoke type_toint (run step r.slots es) (trampoline_of large i) a b c d
          ≡ some (user_call type_toint large callback a b c d)
    calls h =
        invoke-fn_of type_toint (run step r.slots es) large i callback a b c d
          (fn_of-get_elem? (run step r.slots es) i (
            run-Keeps step Keeps mpif_op_slots step-IsPool step-Keeps r.slots es i callback
              after-IsPool keep h))
          ne

    go :
        ReserveOutcome slots callback large r
        → (r.function ≡ some (trampoline_of large i))
          × (invoke type_toint (run step r.slots es) (trampoline_of large i) a b c d
              ≡ some (user_call type_toint large callback a b c d))
    go (no_room full e) = absurd (ground arith)
    go (reserved j at' f claimed) =
        let same : j ≡ i = ground arith in (rw (← same) f, calls (rw (← same) claimed.is_taken))
