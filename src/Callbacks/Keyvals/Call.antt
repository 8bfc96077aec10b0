-- ===== src/Callbacks/Keyvals/Call.antt =====
-- The trampolines that MPI calls for an attribute: they look the keyval up and call the Fortran
-- procedure, with the arguments by reference. What a procedure does is the parameter `run_copy` or
-- `run_delete`; in the MPI-1 forms the values are default integers.
pub mod Answers
use mpif.Prelude.{ℕ, ◌≡◌, ◌≢◌, refl, ◌∙◌, Option, none, some, List, [], ◌∷◌, arith, get_elem?}
use mpif.Machine.{u32, sign_extend}
use mpif.Abi.{mpi_success, mpi_err_other}
use mpif.Logical.{mpif_logical2bool}
use mpif.Callbacks.Predefined.{Procedure, null}
use mpif.Callbacks.Keyvals.Lookup.{lookup}
use mpif.Callbacks.Keyvals.{
  Entry, Kind, comm_copy, comm_delete, type_copy, type_delete, win_copy, win_delete, comm_copy_10,
  comm_delete_10, unknown, find_attr_entry,
}

pub data Trampoline : Type 0 where
  comm_copy_attr comm_delete_attr type_copy_attr type_delete_attr : Trampoline
  win_copy_attr win_delete_attr comm_copy_attr_10 comm_delete_attr_10 : Trampoline

unfoldable pub mpif_attr_trampoline : Kind → Option Trampoline
mpif_attr_trampoline comm_copy = some comm_copy_attr
mpif_attr_trampoline comm_delete = some comm_delete_attr
mpif_attr_trampoline type_copy = some type_copy_attr
mpif_attr_trampoline type_delete = some type_delete_attr
mpif_attr_trampoline win_copy = some win_copy_attr
mpif_attr_trampoline win_delete = some win_delete_attr
mpif_attr_trampoline comm_copy_10 = some comm_copy_attr_10
mpif_attr_trampoline comm_delete_10 = some comm_delete_attr_10
mpif_attr_trampoline unknown = none

-- The arguments of a Fortran copy procedure, and what it leaves in those that it may change.
pub record CopyArgs : Type 0 where
  pub handle : ℕ
  pub keyval : ℕ
  pub extra_state : ℕ
  pub attribute_val_in : ℕ
  pub attribute_val_out : ℕ
  pub flag : ℕ
  pub ierror : ℕ

pub record DeleteArgs : Type 0 where
  pub handle : ℕ
  pub keyval : ℕ
  pub attribute_val : ℕ
  pub extra_state : ℕ
  pub ierror : ℕ

-- What a copy trampoline returns, and `*attribute_val_out` and `*flag` if it writes them.
pub record Copied : Type 0 where
  pub ierror : ℕ
  pub written : Option (ℕ × ℕ)

-- What MPI gives to a copy and to a delete trampoline.
pub record Given : Type 0 where
  pub handle : ℕ
  pub keyval : ℕ
  pub extra_state : ℕ
  pub value : ℕ

-- `MPI_*_toint` and the Fortran side: the procedures, and the value of .FALSE.
pub record World : Type 0 where
  pub comm_toint : ℕ → ℕ
  pub type_toint : ℕ → ℕ
  pub win_toint : ℕ → ℕ
  pub run_copy : Procedure → CopyArgs → CopyArgs
  pub run_delete : Procedure → DeleteArgs → DeleteArgs
  pub logical_true : ℕ
  pub logical_false : ℕ

-- What MPI gets back from a trampoline, which is of one of the two types.
pub data Answer : Type 0 where
  copied : Copied → Answer
  deleted : ℕ → Answer

-- The entry of the keyval, by a pointer to it.
abbrev pub entry_at : List Entry → ℕ → Option Entry
entry_at entries keyval = elim (find_attr_entry entries keyval) [
  | none ↦ none
  | some i ↦ get_elem? entries i
]

abbrev pub copy_fn_of : Option Entry → Procedure
copy_fn_of none = null
copy_fn_of (some e) = e.copy_fn

abbrev pub delete_fn_of : Option Entry → Procedure
delete_fn_of none = null
delete_fn_of (some e) = e.delete_fn

abbrev pub copy_args : ℕ → ℕ → ℕ → ℕ → CopyArgs
copy_args handle keyval extra_state value = record {
  handle = handle;
  keyval = keyval;
  extra_state = extra_state;
  attribute_val_in = value;
  attribute_val_out = 0;
  flag = 0;
  ierror = mpi_success;
}

module _ (w : World) (attr_entries : List Entry) where
  -- `f_handle` is the handle as an integer.
  pub call_copy_attr : ℕ → Given → Copied
  call_copy_attr f_handle g = elim (copy_fn_of (entry_at attr_entries g.keyval)) [
    | null ↦ record { ierror = mpi_err_other; written = none }
    | fn ↦
        let after = w.run_copy fn (copy_args f_handle g.keyval g.extra_state g.value) in
        record {
          ierror = after.ierror;
          written = some (
            after.attribute_val_out,
            mpif_logical2bool w.logical_true w.logical_false after.flag,
          );
        }
  ]

  pub call_delete_attr : ℕ → Given → ℕ
  call_delete_attr f_handle g = elim (delete_fn_of (entry_at attr_entries g.keyval)) [
    | null ↦ mpi_err_other
    | fn ↦
        (w.run_delete fn (record {
          handle = f_handle;
          keyval = g.keyval;
          attribute_val = g.value;
          extra_state = g.extra_state;
          ierror = mpi_success;
        })).ierror
  ]

  -- The MPI-1 forms: the values are cut to 32 bits on the way in and extended on the way out.
  pub copy_attr_10 : Given → Copied
  copy_attr_10 g = elim (copy_fn_of (entry_at attr_entries g.keyval)) [
    | null ↦ record { ierror = mpi_err_other; written = none }
    | fn ↦
        let after =
          w.run_copy fn
            (copy_args (w.comm_toint g.handle) g.keyval (u32 g.extra_state) (u32 g.value)) in
        record {
          ierror = after.ierror;
          written = some (
            sign_extend after.attribute_val_out,
            mpif_logical2bool w.logical_true w.logical_false after.flag,
          );
        }
  ]

  pub delete_attr_10 : Given → ℕ
  delete_attr_10 g = elim (delete_fn_of (entry_at attr_entries g.keyval)) [
    | null ↦ mpi_err_other
    | fn ↦
        (w.run_delete fn (record {
          handle = w.comm_toint g.handle;
          keyval = g.keyval;
          attribute_val = u32 g.value;
          extra_state = u32 g.extra_state;
          ierror = mpi_success;
        })).ierror
  ]

  unfoldable pub invoke : Trampoline → Given → Answer
  unfolding call_copy_attr call_delete_attr copy_attr_10 delete_attr_10
  invoke comm_copy_attr g = copied (call_copy_attr (w.comm_toint g.handle) g)
  invoke comm_delete_attr g = deleted (call_delete_attr (w.comm_toint g.handle) g)
  invoke type_copy_attr g = copied (call_copy_attr (w.type_toint g.handle) g)
  invoke type_delete_attr g = deleted (call_delete_attr (w.type_toint g.handle) g)
  invoke win_copy_attr g = copied (call_copy_attr (w.win_toint g.handle) g)
  invoke win_delete_attr g = deleted (call_delete_attr (w.win_toint g.handle) g)
  invoke comm_copy_attr_10 g = copied (copy_attr_10 g)
  invoke comm_delete_attr_10 g = deleted (delete_attr_10 g)
