-- ===== src/Callbacks/Tests.antt =====
-- mpif_callbacks.c and the wrappers around it, at small inputs: the pools and the table as they are
-- at the start of the program, and two procedures of the user.
use mpif.Prelude.{◌+◌, ◌*◌, ◌≡◌, ◌≢◌, refl, true, false, none, some, List, [], ◌∷◌, All}
use mpif.Prelude.Int.{pos, negsuc}
use mpif.Abi.{mpi_op_null}
use mpif.Callbacks.Predefined.{
  Procedure, null, user, mpif_predefined_callback, predefined_callback-sentinel_of,
}
use mpif.Callbacks.Slots
use mpif.Callbacks.Slots.{Slot, free_slot}
use mpif.Callbacks.Slots.History.{run}
use mpif.Callbacks.Slots.Laws.{IsClean, IsClean-replicate}
use mpif.Callbacks.Ops
use mpif.Callbacks.Ops.{mpif_op_reserve, mpif_op_cancel, UserCall}
use mpif.Callbacks.Ops.Pool
use mpif.Callbacks.Ops.Pool.{
  IsPool, ReserveOutcome, op_reserve-ReserveOutcome, op_cancel-reserve,
  reserved_op_reaches_its_procedure,
}
use mpif.Callbacks.Ops.Create.{op_create-Atomic}
use mpif.Callbacks.Errhandlers
use mpif.Callbacks.Errhandlers.{mpif_errhandler_reserve}
use mpif.Callbacks.Errhandlers.Reach.{reserved_handler_reaches_its_procedure}
use mpif.Callbacks.Errhandlers.Pool.{
  errhandler_reserve-ReserveOutcome, errhandler_reserve_unknown, errhandler_cancel-reserve,
}
use mpif.Callbacks.Errhandlers.Create.{create_errhandler-Atomic, errhandler_create-Atomic}

abbrev sum_fn : Procedure
sum_fn = user 7

abbrev max_fn : Procedure
max_fn = user 8

sum_fn_ne_null : sum_fn ≢ null
sum_fn_ne_null e = cc

max_fn_ne_null : max_fn ≢ null
max_fn_ne_null e = cc

sum_fn-IsUser : mpif_predefined_callback sum_fn ≡ none
unfolding mpif_predefined_callback
sum_fn-IsUser = refl

max_fn-IsUser : mpif_predefined_callback max_fn ≡ none
unfolding mpif_predefined_callback
max_fn-IsUser = refl

predefined_callback-sentinel_of_test : mpif_predefined_callback sum_fn ≡ none
predefined_callback-sentinel_of_test = predefined_callback-sentinel_of sum_fn

-- the operators

ops-IsClean : IsClean Ops.initial
ops-IsClean = IsClean-replicate 128

op_reserve-ReserveOutcome_test :
    ReserveOutcome Ops.initial sum_fn false (mpif_op_reserve Ops.initial sum_fn false)
op_reserve-ReserveOutcome_test = op_reserve-ReserveOutcome Ops.initial sum_fn false refl

op_cancel-reserve_test :
    mpif_op_cancel
      (mpif_op_reserve Ops.initial sum_fn true).slots
      (mpif_op_reserve Ops.initial sum_fn true).slot
    ≡ Ops.initial
op_cancel-reserve_test = op_cancel-reserve Ops.initial sum_fn true ops-IsClean

first_slot : (mpif_op_reserve Ops.initial sum_fn false).slot ≡ pos 0
unfolding mpif_op_reserve Slots.claim
first_slot = refl

abbrev op_events : List Pool.Event
op_events =
    Pool.Event.reserve max_fn true ∷ Pool.Event.cancel (pos 1) ∷ Pool.Event.cancel (negsuc 0) ∷ []

op_events_keep : All (Pool.Keeps 0) op_events
op_events_keep = (tt, ((λ e. cc), ((λ e. cc), tt)))

reserved_op_reaches_its_procedure_example :
    ((mpif_op_reserve Ops.initial sum_fn false).function ≡ some (Pool.trampoline_of false 0))
    × (Ops.invoke
          (λ d. d + 1)
          (run Pool.step (mpif_op_reserve Ops.initial sum_fn false).slots op_events)
          (Pool.trampoline_of false 0)
          1000
          2000
          3
          4
        ≡ some (record { fn = sum_fn; invec = 1000; inoutvec = 2000; len = 3; datatype = 5 }))
reserved_op_reaches_its_procedure_example =
    reserved_op_reaches_its_procedure (λ d. d + 1) Ops.initial sum_fn false 0 op_events 1000 2000 3
      4 refl sum_fn_ne_null first_slot op_events_keep

op_create-Atomic_example : Ops.Create.Atomic Ops.initial sum_fn (
    Ops.Create.mpi_op_create 1 0
      (λ op. op)
      mpi_op_null
      (λ t c. (0, some 100))
      true
      Ops.initial
      sum_fn
      1)
op_create-Atomic_example =
    op_create-Atomic 1 0 (λ op. op) mpi_op_null (λ t c. (0, some 100)) true Ops.initial sum_fn 1
      refl ops-IsClean

-- the error handlers

handlers-IsClean : IsClean Errhandlers.initial
handlers-IsClean = IsClean-replicate 64

file_known : Errhandlers.Kind.file ≢ Errhandlers.Kind.out_of_range
file_known e = cc

errhandler_reserve-ReserveOutcome_test :
    Errhandlers.Pool.ReserveOutcome Errhandlers.initial sum_fn Errhandlers.Kind.file
      (mpif_errhandler_reserve Errhandlers.initial sum_fn Errhandlers.Kind.file)
errhandler_reserve-ReserveOutcome_test =
    errhandler_reserve-ReserveOutcome Errhandlers.initial sum_fn Errhandlers.Kind.file refl
      file_known

errhandler_reserve_unknown_test :
    ((mpif_errhandler_reserve Errhandlers.initial sum_fn Errhandlers.Kind.out_of_range).slots
      ≡ Errhandlers.initial)
    × ((mpif_errhandler_reserve Errhandlers.initial sum_fn Errhandlers.Kind.out_of_range).function
        ≡ none)
errhandler_reserve_unknown_test =
    errhandler_reserve_unknown Errhandlers.initial sum_fn handlers-IsClean

errhandler_cancel-reserve_example :
    Errhandlers.mpif_errhandler_cancel
      (mpif_errhandler_reserve Errhandlers.initial sum_fn Errhandlers.Kind.file).slots
      (mpif_errhandler_reserve Errhandlers.initial sum_fn Errhandlers.Kind.file).slot
    ≡ Errhandlers.initial
errhandler_cancel-reserve_example =
    errhandler_cancel-reserve Errhandlers.initial sum_fn Errhandlers.Kind.file handlers-IsClean
      file_known

first_handler_slot :
    (mpif_errhandler_reserve Errhandlers.initial sum_fn Errhandlers.Kind.file).slot ≡ pos 0
unfolding mpif_errhandler_reserve Slots.claim Errhandlers.pick
first_handler_slot = refl

abbrev handler_events : List Errhandlers.Reach.Event
handler_events =
    Errhandlers.Reach.Event.reserve Errhandlers.Kind.file file_known max_fn
    ∷ Errhandlers.Reach.Event.cancel (pos 1)
    ∷ []

handler_events_keep : All (Errhandlers.Reach.Keeps 0) handler_events
handler_events_keep = (tt, ((λ e. cc), tt))

reserved_handler_reaches_its_procedure_example :
    ((mpif_errhandler_reserve Errhandlers.initial sum_fn Errhandlers.Kind.file).function
      ≡ some (Errhandlers.Trampoline.file_errhandler_trampoline 0))
    × (Errhandlers.invoke
          (λ kind h. h + 1)
          (λ call. call.error_code * 2)
          (run Errhandlers.Reach.step
            (mpif_errhandler_reserve Errhandlers.initial sum_fn Errhandlers.Kind.file).slots
            handler_events)
          (Errhandlers.Trampoline.file_errhandler_trampoline 0)
          5
          6
        ≡ (some (record { fn = sum_fn; handle = 6; error_code = 6 }), 12))
reserved_handler_reaches_its_procedure_example =
    reserved_handler_reaches_its_procedure (λ kind h. h + 1) (λ call. call.error_code * 2)
      Errhandlers.initial sum_fn Errhandlers.Kind.file 0 handler_events 5 6 refl sum_fn_ne_null
      file_known first_handler_slot handler_events_keep

create_errhandler-Atomic_example : Errhandlers.Create.Atomic Errhandlers.initial sum_fn (
    Errhandlers.Create.mpi_create_errhandler
      (λ h. h)
      320
      (λ kind t. (16, none))
      Errhandlers.Kind.file
      Errhandlers.initial
      sum_fn
      99)
create_errhandler-Atomic_example =
    create_errhandler-Atomic (λ h. h) 320 (λ kind t. (16, none)) Errhandlers.Kind.file
      Errhandlers.initial sum_fn 99 refl handlers-IsClean file_known

errhandler_create-Atomic_test :
    Errhandlers.Create.Atomic Errhandlers.initial sum_fn (
      Errhandlers.Create.mpi_errhandler_create
        (λ h. h)
        320
        (λ kind t. (16, none))
        Errhandlers.initial
        sum_fn
        99)
    × Errhandlers.Create.Keeps 99 (
        Errhandlers.Create.mpi_errhandler_create
          (λ h. h)
          320
          (λ kind t. (16, none))
          Errhandlers.initial
          sum_fn
          99)
errhandler_create-Atomic_test =
    errhandler_create-Atomic (λ h. h) 320 (λ kind t. (16, none)) Errhandlers.initial sum_fn 99 refl
      handlers-IsClean
