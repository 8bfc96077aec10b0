-- ===== src/Topology.antt =====
-- gen/mpif_functions.c: the routines for Cartesian topologies, whose arrays of logical values are
-- converted. MPI's routine is a function from what it is given to its error code and what it writes.
pub mod Periods
pub mod Created
mod Tests
use mpif.Prelude.{
  ℕ, zero, suc, Bool, true, false, not, List, [], ◌∷◌, ◌==◌, if◌then◌else◌, replicate,
}
use mpif.Prelude.Int.{ℤ, pos, negsuc, ltb_ℤ}
use mpif.Machine.{Run, ok, fault, ◌>>=◌}
use mpif.Abi.{mpi_success}
use mpif.Logical.{mpif_bool2logical, mpif_logical2bool}
use mpif.Requests.{rounds, convert_array, write_array}

-- What MPI_Cart_get writes, and PMPI_Cartdim_get.
pub record CartGet : Type 0 where
  pub ierror : ℕ
  pub dims : List ℕ
  pub periods : List ℕ
  pub coords : List ℕ

-- The conversion of a communicator's handle to and from an integer, and MPI_COMM_NULL.
pub record Handles : Type 0 where
  pub comm_fromint : ℕ → ℕ
  pub comm_toint : ℕ → ℕ
  pub comm_null : ℕ

module _ (handles : Handles) (mpif_logical_true mpif_logical_false : ℕ) where
  open handles use {comm_fromint, comm_toint, comm_null}

  abbrev pub to_logical : ℕ → ℕ
  to_logical = mpif_bool2logical mpif_logical_true mpif_logical_false

  abbrev pub to_bool : ℕ → ℕ
  to_bool = mpif_logical2bool mpif_logical_true mpif_logical_false

  -- MPI_Cart_create gives its error and the new communicator, MPI_COMM_NULL before.
  unfoldable pub mpi_cart_create :
      (ℕ → ℤ → List ℕ → List ℕ → ℕ → ℕ → ℕ × ℕ) → ℕ → ℤ → List ℕ → List ℕ → ℕ → Run (ℕ × ℕ)
  mpi_cart_create cart_create comm_old ndims dims periods reorder = do
    c_periods ← convert_array to_bool periods (rounds ndims)
    let (ierror, c_comm_cart) =
        cart_create (comm_fromint comm_old) ndims dims c_periods (to_bool reorder) comm_null
    ok (ierror, comm_toint c_comm_cart)

  unfoldable pub mpi_cart_map :
      (ℕ → ℤ → List ℕ → List ℕ → ℕ → ℕ × ℕ) → ℕ → ℤ → List ℕ → List ℕ → ℕ → Run (ℕ × ℕ)
  mpi_cart_map cart_map comm ndims dims periods newrank = do
    c_periods ← convert_array to_bool periods (rounds ndims)
    ok (cart_map (comm_fromint comm) ndims dims c_periods newrank)

  -- `ndims_periods`, of which only so many elements are written back.
  unfoldable pub ndims_periods : ℕ → ℕ × ℤ → ℤ → ℤ
  ndims_periods ierror (dim_ierror, ndims) maxdims =
      let n =
        if ierror == mpi_success
        then (if dim_ierror == mpi_success then ndims else pos 0)
        else pos 0 in
      if ltb_ℤ maxdims n then maxdims else n

  unfoldable pub mpi_cart_get :
      (ℕ → ℤ → List ℕ → List ℕ → List ℕ → CartGet)
      → (ℕ → ℕ × ℤ)
      → ℕ
      → ℤ
      → List ℕ
      → List ℕ
      → List ℕ
      → Run CartGet
  mpi_cart_get cart_get cartdim_get comm maxdims dims periods coords = do
    let done = cart_get (comm_fromint comm) maxdims dims (replicate (rounds maxdims) 0) coords
    let n = ndims_periods done.ierror (cartdim_get (comm_fromint comm)) maxdims
    periods ← write_array to_logical periods done.periods (rounds n)
    ok record { ierror = done.ierror; dims = done.dims; periods = periods; coords = done.coords }

  -- The new communicator is none where the number of dimensions cannot be had.
  pub data CartSub : Type 0 where
    not_called : ℕ → CartSub
    called : ℕ → ℕ → CartSub

  unfoldable pub mpi_cart_sub : (ℕ → List ℕ → ℕ → ℕ × ℕ) → (ℕ → ℕ × ℤ) → ℕ → List ℕ → Run CartSub
  mpi_cart_sub cart_sub cartdim_get comm remain_dims =
      let (q_ierror, ndims) = cartdim_get (comm_fromint comm) in
      if q_ierror == mpi_success
      then (do
        c_remain_dims ← convert_array to_bool remain_dims (rounds ndims)
        let (ierror, c_newcomm) = cart_sub (comm_fromint comm) c_remain_dims comm_null
        ok (called ierror (comm_toint c_newcomm)))
      else ok (not_called q_ierror)
