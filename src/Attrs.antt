-- ===== src/Attrs.antt =====
-- src/mpif_attrs.c: the value of an attribute as Fortran wants it. What is read through a pointer
-- comes from the parameters `load_int` and `load_aint`, the memory of MPI; an int is a 32-bit
-- pattern, and an MPI_Aint a 64-bit one. The keyvals are those of include/mpif_constants.h.
pub mod Access
mod Tests
use mpif.Prelude.{ℕ, ◌≡◌, ◌≢◌, Bool, true, false, ◌||◌, ◌==◌, if◌then◌else◌, arith}
use mpif.Machine.{sign_extend}

-- The keyvals whose value C gives as a pointer to an int: MPI_TAG_UB to MPI_UNIVERSE_SIZE, and
-- MPI_WIN_DISP_UNIT, MPI_WIN_CREATE_FLAVOR and MPI_WIN_MODEL.
abbrev pub points_to_int : ℕ → Bool
points_to_int keyval =
    keyval == 501
    || keyval == 502
    || keyval == 503
    || keyval == 504
    || keyval == 505
    || keyval == 506
    || keyval == 507
    || keyval == 602
    || keyval == 604
    || keyval == 605

abbrev pub mpi_win_base : ℕ
mpi_win_base = 601

abbrev pub mpi_win_size : ℕ
mpi_win_size = 603

module _ (load_int load_aint : ℕ → ℕ) where
  unfoldable pub mpif_attr_value : ℕ → ℕ → ℕ
  mpif_attr_value keyval value =
      if value == 0
      then 0
      else (if points_to_int keyval
          then sign_extend (load_int value)
          else (if keyval == mpi_win_size
              then load_aint value
              else (if keyval == mpi_win_base then value else value)))

  -- The values of a user's keyval and of MPI_WIN_BASE, which are not among the others, come back as
  -- they were stored, NULL included.
  pub attr_value-stored :
      (keyval value : ℕ)
      → points_to_int keyval ≡ false
      → keyval ≢ mpi_win_size
      → mpif_attr_value keyval value ≡ value
  unfolding mpif_attr_value
  attr_value-stored keyval value user ne = ground arith
