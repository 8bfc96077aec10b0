-- ===== src/Callbacks/Errhandlers/Reach.antt =====
-- Which procedure an error handler's trampoline reaches, over any history of the pool.
use mpif.Prelude.{
  ℕ, ◌≡◌, ◌≢◌, refl, ap, ◌∙◌, Option, none, some, List, All, arith, length, get_elem?,
}
use mpif.Prelude.Int.{ℤ, pos}
use mpif.Callbacks.Predefined.{Procedure, null}
use mpif.Callbacks.Slots.{Slot, taken, fn_of}
use mpif.Callbacks.Slots.Laws.{fn_of-get_elem?, length-release, release_others}
use mpif.Callbacks.Slots.History.{Claimed-keeps, run, run-Keeps}
use mpif.Callbacks.Errhandlers.{
  mpif_errhandler_slots, Kind, comm, win, file, session, out_of_range, Trampoline, Reserved,
  mpif_errhandler_reserve, mpif_errhandler_cancel, HandlerCall, invoke, call_handler,
}
use mpif.Callbacks.Errhandlers.Pool.{
  IsPool, trampoline_of, ReserveOutcome, reserved, no_room, errhandler_reserve-ReserveOutcome,
}

-- The call that a handler is meant to make.
abbrev pub handler_call : (Kind → ℕ → ℕ) → Kind → Procedure → ℕ → ℕ → HandlerCall
handler_call toint kind callback handle error_code = record {
  fn = callback;
  handle = toint kind handle;
  error_code = error_code;
}

module _ (toint : Kind → ℕ → ℕ) (run_handler : HandlerCall → ℕ) (slots : List Slot) where
  -- The call is made, and the error code becomes what the Fortran procedure left there.
  abbrev pub Calls : Option Trampoline → Kind → Procedure → ℕ → ℕ → Type 0
  Calls none kind callback handle error_code = kind ≡ out_of_range
  Calls (some t) kind callback handle error_code =
      let call = handler_call toint kind callback handle error_code in
      invoke toint run_handler slots t handle error_code ≡ (some call, run_handler call)

  call_handler-fn_of :
      (kind : Kind) (i : ℕ) (callback : Procedure) (handle error_code : ℕ)
      → fn_of slots i ≡ callback
      → callback ≢ null
      → let call = handler_call toint kind callback handle error_code in
        call_handler toint run_handler slots kind i handle error_code
        ≡ (some call, run_handler call)
  unfolding call_handler
  call_handler-fn_of kind i null handle code e h = absurd (h refl)
  call_handler-fn_of kind i (Procedure.symbol s) handle code e h = rw (e, call_handler)
  call_handler-fn_of kind i (Procedure.user n) handle code e h = rw (e, call_handler)

  invoke-Calls :
      (kind : Kind) (i : ℕ) (callback : Procedure) (handle error_code : ℕ)
      → fn_of slots i ≡ callback
      → callback ≢ null
      → Calls (trampoline_of kind i) kind callback handle error_code
  unfolding invoke
  invoke-Calls comm i f handle code e h = call_handler-fn_of comm i f handle code e h
  invoke-Calls win i f handle code e h = call_handler-fn_of win i f handle code e h
  invoke-Calls file i f handle code e h = call_handler-fn_of file i f handle code e h
  invoke-Calls session i f handle code e h = call_handler-fn_of session i f handle code e h
  invoke-Calls out_of_range i f handle code e h = refl

-- What a program does with the pool, through any of the kinds.
pub data Event : Type 0 where
  reserve : (kind : Kind) → kind ≢ out_of_range → Procedure → Event
  cancel : ℤ → Event

pub step : List Slot → Event → List Slot
step slots (reserve kind known callback) = (mpif_errhandler_reserve slots callback kind).slots
step slots (cancel slot) = mpif_errhandler_cancel slots slot

abbrev pub Keeps : ℕ → Event → Type 0
Keeps i (reserve kind known callback) = Unit
Keeps i (cancel slot) = slot ≢ pos i

step-IsPool : (slots : List Slot) (e : Event) → IsPool slots → IsPool (step slots e)
unfolding step mpif_errhandler_cancel
step-IsPool slots (cancel slot) pool = length-release slots slot ∙ pool
step-IsPool slots (reserve kind known callback) pool =
    go (errhandler_reserve-ReserveOutcome slots callback kind pool known)
  where
    go :
        ReserveOutcome slots callback kind (mpif_errhandler_reserve slots callback kind)
        → IsPool (mpif_errhandler_reserve slots callback kind).slots
    go (reserved i at f c) = c.same_length ∙ pool
    go (no_room full e) = ap (λ (r : Reserved). length r.slots) e ∙ pool

step-Keeps :
    (slots : List Slot) (e : Event) (i : ℕ) (callback : Procedure)
    → IsPool slots
    → Keeps i e
    → get_elem? slots i ≡ some (taken callback)
    → get_elem? (step slots e) i ≡ some (taken callback)
unfolding step mpif_errhandler_cancel
step-Keeps slots (cancel slot) i callback pool k h = release_others slots slot i k ∙ h
step-Keeps slots (reserve kind known other) i callback pool k h =
    go (errhandler_reserve-ReserveOutcome slots other kind pool known)
  where
    go :
        ReserveOutcome slots other kind (mpif_errhandler_reserve slots other kind)
        → get_elem? (mpif_errhandler_reserve slots other kind).slots i ≡ some (taken callback)
    go (no_room full e) = ap (λ (r : Reserved). get_elem? r.slots i) e ∙ h
    go (reserved j at f c) = Claimed-keeps c i callback h

-- An error handler calls its own procedure with the handle of the right kind and the error code,
-- and hands back the code that the procedure leaves, after any number of other handlers have been
-- made and cancelled, as long as its own slot is not cancelled.
pub reserved_handler_reaches_its_procedure :
    (toint : Kind → ℕ → ℕ) (run_handler : HandlerCall → ℕ) (slots : List Slot)
    (callback : Procedure) (kind : Kind) (i : ℕ) (es : List Event) (handle error_code : ℕ)
    → IsPool slots
    → callback ≢ null
    → kind ≢ out_of_range
    → (mpif_errhandler_reserve slots callback kind).slot ≡ pos i
    → All (Keeps i) es
    → ((mpif_errhandler_reserve slots callback kind).function ≡ trampoline_of kind i)
      × Calls toint run_handler
          (run step (mpif_errhandler_reserve slots callback kind).slots es)
          (trampoline_of kind i)
          kind
          callback
          handle
          error_code
unfolding step
reserved_handler_reaches_its_procedure toint run_handler slots callback kind i es handle code pool
      ne known at keep =
    go (errhandler_reserve-ReserveOutcome slots callback kind pool known)
  where
    r : Reserved
    r = mpif_errhandler_reserve slots callback kind

    after-IsPool : IsPool r.slots
    after-IsPool = step-IsPool slots (reserve kind known callback) pool

    calls :
        get_elem? r.slots i ≡ some (taken callback)
        → Calls toint run_handler
            (run step r.slots es)
            (trampoline_of kind i)
            kind
            callback
            handle
            code
    calls h =
        invoke-Calls toint run_handler (run step r.slots es) kind i callback handle code
          (fn_of-get_elem? (run step r.slots es) i (
            run-Keeps step Keeps mpif_errhandler_slots step-IsPool step-Keeps r.slots es i callback
              after-IsPool keep h))
          ne

    go :
        ReserveOutcome slots callback kind r
        → (r.function ≡ trampoline_of kind i)
          × Calls toint run_handler
              (run step r.slots es)
              (trampoline_of kind i)
              kind
              callback
              handle
              code
    go (no_room full e) = absurd (ground arith)
    go (reserved j at' f claimed) =
        let same : j ≡ i = ground arith in (rw (← same) f, calls (rw (← same) claimed.is_taken))
