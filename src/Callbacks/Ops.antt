-- ===== src/Callbacks/Ops.antt =====
-- src/mpif_callbacks.c, the reduction operators: a pool of 128 slots with a trampoline each. MPI
-- calls a trampoline with nothing that names the operator, so the trampoline knows its slot.
-- `MPI_Type_toint` of mpi.h is the parameter `type_toint`.
pub mod Pool
pub mod Create
use mpif.Prelude.{
  ℕ, ◌≡◌, Bool, true, false, Option, none, some, List, map, if◌then◌else◌, get_elem?, replicate,
  count_up,
}
use mpif.Prelude.Int.{ℤ, pos, negsuc}
use mpif.Machine.{u32}
use mpif.Callbacks.Predefined.{Procedure, null}
use mpif.Callbacks.Slots.{Slot, free_slot, claim, release, fn_of}

abbrev pub mpif_op_slots : ℕ
mpif_op_slots = 128

-- static storage starts as zero
abbrev pub initial : List Slot
initial = replicate mpif_op_slots free_slot

-- `op_trampoline_<slot>` and `op_trampoline_c_<slot>`
pub data Trampoline : Type 0 where
  op_trampoline op_trampoline_c : ℕ → Trampoline

abbrev pub op_trampolines : List Trampoline
op_trampolines = map op_trampoline (count_up 0 mpif_op_slots)

abbrev pub op_trampolines_c : List Trampoline
op_trampolines_c = map op_trampoline_c (count_up 0 mpif_op_slots)

-- The slots after the call, `*slot`, and the function pointer that is returned, or NULL.
pub record Reserved : Type 0 where
  pub slots : List Slot
  pub slot : ℤ
  pub function : Option Trampoline

unfoldable pub mpif_op_reserve : List Slot → Procedure → Bool → Reserved
mpif_op_reserve op_slots callback large = elim (claim op_slots callback) [
  | none ↦ record { slots = op_slots; slot = negsuc 0; function = none }
  | some (i, after) ↦ record {
    slots = after;
    slot = pos i;
    function = if large then get_elem? op_trampolines_c i else get_elem? op_trampolines i;
  }
]

unfoldable pub mpif_op_cancel : List Slot → ℤ → List Slot
mpif_op_cancel op_slots slot = release op_slots slot

-- A call that a trampoline makes of a Fortran procedure: the buffers are passed on, the length
-- and the handle by reference.
pub record UserCall : Type 0 where
  pub fn : Procedure
  pub invec : ℕ
  pub inoutvec : ℕ
  pub len : ℕ
  pub datatype : ℕ

module _ (type_toint : ℕ → ℕ) (op_slots : List Slot) where
  -- The length is an `int`, of the size of a Fortran integer.
  unfoldable pub call_user_fn : ℕ → ℕ → ℕ → ℕ → ℕ → Option UserCall
  call_user_fn slot invec inoutvec len datatype = elim (fn_of op_slots slot) [
    | null ↦ none
    | fn ↦ some (record {
      fn = fn;
      invec = invec;
      inoutvec = inoutvec;
      len = u32 len;
      datatype = type_toint datatype;
    })
  ]

  -- The length is an `MPI_Count`.
  unfoldable pub call_user_fn_c : ℕ → ℕ → ℕ → ℕ → ℕ → Option UserCall
  call_user_fn_c slot invec inoutvec len datatype = elim (fn_of op_slots slot) [
    | null ↦ none
    | fn ↦ some (record {
      fn = fn;
      invec = invec;
      inoutvec = inoutvec;
      len = len;
      datatype = type_toint datatype;
    })
  ]

  -- MPI calls the function that it was given.
  unfoldable pub invoke : Trampoline → ℕ → ℕ → ℕ → ℕ → Option UserCall
  unfolding call_user_fn call_user_fn_c
  invoke (op_trampoline slot) = call_user_fn slot
  invoke (op_trampoline_c slot) = call_user_fn_c slot
