-- ===== src/Removed.antt =====
-- src/mpif_removed.c: the MPI-1 routines for datatypes and addresses, over the routines that
-- replaced them. Default integers are 32-bit patterns and MPI_Aint values 64-bit ones; MPI's
-- routines and its handle conversions are parameters. The P forms differ in MPI's routine alone.
pub mod Laws
mod Tests
use mpif.Prelude.{ℕ, zero, suc, ◌+◌, ◌^◌, Option, none, some, List, [], ◌∷◌, ◌==◌, if◌then◌else◌}
use mpif.Prelude.Int.{ℤ, pos, negsuc, pos_part}
use mpif.Machine.{Run, ok, fault, ◌>>=◌, u32, u64, sign_extend, load}
use mpif.Abi.{mpi_success, mpi_datatype_null}
use mpif.Sentinels.{Cells, mpif_c_cbuffer}

-- `newtype` and `ierror`
pub record Made : Type 0 where
  pub newtype : ℕ
  pub ierror : ℕ

-- An array of default integers, read from its start.
abbrev pub Integers : Type 0
Integers = List ℕ

-- The loop that converts `n` elements from the index `i` on.
unfoldable pub convert : (ℕ → ℕ) → Integers → ℕ → ℕ → Run Integers
convert f array i zero = ok []
convert f array i (suc n) =
    let rest = convert f array (i + 1) n in load array i >>= λ x. rest >>= λ xs. ok (f x ∷ xs)

module _ (type_toint type_fromint : ℕ → ℕ) where
  -- MPIF_NEWTYPE_ON_SUCCESS, with the error code and what MPI left in `c_newtype`
  abbrev pub newtype_on_success : ℕ × ℕ → Made
  newtype_on_success (ierror, c_newtype) = record {
    newtype = if ierror == mpi_success then type_toint c_newtype else mpi_datatype_null;
    ierror = ierror;
  }

  unfoldable pub mpi_type_hvector : (ℕ → ℕ → ℕ → ℕ → ℕ × ℕ) → ℕ → ℕ → ℕ → ℕ → Made
  mpi_type_hvector type_create_hvector count blocklength stride oldtype =
      newtype_on_success
        (type_create_hvector count blocklength (sign_extend stride) (type_fromint oldtype))

  -- `count` may be negative: then nothing is converted, and MPI is to refuse it.
  unfoldable pub mpi_type_hindexed :
      (ℤ → Integers → Integers → ℕ → ℕ × ℕ) → ℤ → Integers → Integers → ℕ → Run Made
  mpi_type_hindexed type_create_hindexed count blocklengths displacements oldtype = do
    c_displacements ← convert sign_extend displacements 0 (pos_part count)
    ok (
        newtype_on_success
          (type_create_hindexed count blocklengths c_displacements (type_fromint oldtype)))

  unfoldable pub mpi_type_struct :
      (ℤ → Integers → Integers → Integers → ℕ × ℕ) → ℤ → Integers → Integers → Integers → Run Made
  mpi_type_struct type_create_struct count blocklengths displacements types = do
    c_displacements ← convert sign_extend displacements 0 (pos_part count)
    c_types ← convert type_fromint types 0 (pos_part count)
    ok (newtype_on_success (type_create_struct count blocklengths c_displacements c_types))

-- A local that a failing routine may leave as it was initialised.
abbrev pub written : ℕ → Option ℕ → ℕ
written x none = x
written x (some y) = y

-- The value, and `ierror`.
unfoldable pub mpi_address : Cells → (ℕ → ℕ × Option ℕ) → ℕ → ℕ × ℕ
mpi_address cells get_address location =
    let (ierror, c_address) = get_address (mpif_c_cbuffer cells location) in
    (u32 (written 0 c_address), ierror)

module _ (type_fromint : ℕ → ℕ) (type_get_extent : ℕ → ℕ × Option (ℕ × ℕ)) where
  unfoldable pub mpi_type_extent : ℕ → ℕ × ℕ
  mpi_type_extent datatype =
      let (ierror, result) = type_get_extent (type_fromint datatype) in
      (elim result [ none ↦ u32 0 | some (lb, extent) ↦ u32 extent ], ierror)

  unfoldable pub mpi_type_lb : ℕ → ℕ × ℕ
  mpi_type_lb datatype =
      let (ierror, result) = type_get_extent (type_fromint datatype) in
      (elim result [ none ↦ u32 0 | some (lb, extent) ↦ u32 lb ], ierror)

  unfoldable pub mpi_type_ub : ℕ → ℕ × ℕ
  mpi_type_ub datatype =
      let (ierror, result) = type_get_extent (type_fromint datatype) in
      (elim result [ none ↦ u32 0 | some (lb, extent) ↦ u32 (u64 (lb + extent)) ], ierror)

-- The error handler of a communicator, which MPI keeps in its state, of type S.
module _ {S : Type 0} (comm_fromint errhandler_fromint errhandler_toint : ℕ → ℕ)
    (errhandler_null : ℕ) where
  unfoldable pub mpi_errhandler_set : (S → ℕ → ℕ → ℕ × S) → S → ℕ → ℕ → ℕ × S
  mpi_errhandler_set comm_set_errhandler s comm errhandler =
      comm_set_errhandler s (comm_fromint comm) (errhandler_fromint errhandler)

  -- The error and the handle, which is converted even if MPI left it as it was.
  unfoldable pub mpi_errhandler_get : (S → ℕ → ℕ × Option ℕ) → S → ℕ → ℕ × ℕ
  mpi_errhandler_get comm_get_errhandler s comm =
      let (ierror, c_errhandler) = comm_get_errhandler s (comm_fromint comm) in
      (ierror, errhandler_toint (written errhandler_null c_errhandler))
