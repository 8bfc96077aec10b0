-- ===== src/Callbacks/Errhandlers.antt =====
-- src/mpif_callbacks.c, the error handlers: a pool of 64 slots with four trampolines each, one for
-- each kind of object. The `MPI_*_toint` of mpi.h are the parameter `toint`, by kind.
pub mod Pool
pub mod Reach
pub mod Create
use mpif.Prelude.{ℕ, ◌≡◌, Option, none, some, List, map, get_elem?, replicate, count_up}
use mpif.Prelude.Int.{ℤ, pos, negsuc}
use mpif.Callbacks.Predefined.{Procedure, null}
use mpif.Callbacks.Slots.{Slot, free_slot, claim, release, fn_of}

abbrev pub mpif_errhandler_slots : ℕ
mpif_errhandler_slots = 64

abbrev pub initial : List Slot
initial = replicate mpif_errhandler_slots free_slot

-- `enum mpif_errhandler_kind`; `out_of_range` is any other number.
pub data Kind : Type 0 where
  comm win file session out_of_range : Kind

pub data Trampoline : Type 0 where
  comm_errhandler_trampoline win_errhandler_trampoline : ℕ → Trampoline
  file_errhandler_trampoline session_errhandler_trampoline : ℕ → Trampoline

abbrev pub comm_errhandler_trampolines : List Trampoline
comm_errhandler_trampolines = map comm_errhandler_trampoline (count_up 0 mpif_errhandler_slots)

abbrev pub win_errhandler_trampolines : List Trampoline
win_errhandler_trampolines = map win_errhandler_trampoline (count_up 0 mpif_errhandler_slots)

abbrev pub file_errhandler_trampolines : List Trampoline
file_errhandler_trampolines = map file_errhandler_trampoline (count_up 0 mpif_errhandler_slots)

abbrev pub session_errhandler_trampolines : List Trampoline
session_errhandler_trampolines =
    map session_errhandler_trampoline (count_up 0 mpif_errhandler_slots)

pub record Reserved : Type 0 where
  pub slots : List Slot
  pub slot : ℤ
  pub function : Option Trampoline

unfoldable pub mpif_errhandler_cancel : List Slot → ℤ → List Slot
mpif_errhandler_cancel errhandler_slots slot = release errhandler_slots slot

abbrev pub at_slot : List Slot → ℕ → Option Trampoline → Reserved
at_slot slots i f = record { slots = slots; slot = pos i; function = f }

-- The `switch`, with the slot claimed; an unknown kind gives the slot back.
unfoldable pub pick : Kind → List Slot → ℕ → Reserved
unfolding mpif_errhandler_cancel
pick comm slots i = at_slot slots i (get_elem? comm_errhandler_trampolines i)
pick win slots i = at_slot slots i (get_elem? win_errhandler_trampolines i)
pick file slots i = at_slot slots i (get_elem? file_errhandler_trampolines i)
pick session slots i = at_slot slots i (get_elem? session_errhandler_trampolines i)
pick out_of_range slots i = at_slot (mpif_errhandler_cancel slots (pos i)) i none

unfoldable pub mpif_errhandler_reserve : List Slot → Procedure → Kind → Reserved
unfolding pick
mpif_errhandler_reserve errhandler_slots callback kind = elim (claim errhandler_slots callback) [
  | none ↦ record { slots = errhandler_slots; slot = negsuc 0; function = none }
  | some (i, after) ↦ pick kind after i
]

-- A Fortran handler takes the handle and the error code, and may change the code.
pub record HandlerCall : Type 0 where
  pub fn : Procedure
  pub handle : ℕ
  pub error_code : ℕ

-- The call that is made, and the error code afterwards: `run_handler` is what the Fortran procedure
-- leaves in its second argument.
module _ (toint : Kind → ℕ → ℕ) (run_handler : HandlerCall → ℕ) (errhandler_slots : List Slot) where
  pub call_handler : Kind → ℕ → ℕ → ℕ → Option HandlerCall × ℕ
  call_handler kind slot handle error_code = elim (fn_of errhandler_slots slot) [
    | null ↦ (none, error_code)
    | fn ↦
        let call : HandlerCall = record {
          fn = fn;
          handle = toint kind handle;
          error_code = error_code;
        } in
        (some call, run_handler call)
  ]

  unfoldable pub call_comm_errhandler : ℕ → ℕ → ℕ → Option HandlerCall × ℕ
  unfolding call_handler
  call_comm_errhandler slot handle error_code = call_handler comm slot handle error_code

  unfoldable pub call_win_errhandler : ℕ → ℕ → ℕ → Option HandlerCall × ℕ
  unfolding call_handler
  call_win_errhandler slot handle error_code = call_handler win slot handle error_code

  unfoldable pub call_file_errhandler : ℕ → ℕ → ℕ → Option HandlerCall × ℕ
  unfolding call_handler
  call_file_errhandler slot handle error_code = call_handler file slot handle error_code

  unfoldable pub call_session_errhandler : ℕ → ℕ → ℕ → Option HandlerCall × ℕ
  unfolding call_handler
  call_session_errhandler slot handle error_code = call_handler session slot handle error_code

  unfoldable pub invoke : Trampoline → ℕ → ℕ → Option HandlerCall × ℕ
  unfolding call_comm_errhandler call_win_errhandler call_file_errhandler call_session_errhandler
  invoke (comm_errhandler_trampoline slot) = call_comm_errhandler slot
  invoke (win_errhandler_trampoline slot) = call_win_errhandler slot
  invoke (file_errhandler_trampoline slot) = call_file_errhandler slot
  invoke (session_errhandler_trampoline slot) = call_session_errhandler slot
