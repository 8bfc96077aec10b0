-- ===== src/Attrs/Access.antt =====
-- gen/mpif_functions.c: the routines that store and read an attribute. The attributes are kept by MPI,
-- whose state is S; it stores a pointer, of 64 bits. The deprecated pair has a value of 32 bits.
use mpif.Prelude.{ℕ, ◌^◌, ◌<◌, ◌≡◌, ◌≢◌, refl, false, not, ◌||◌, ◌==◌, if◌then◌else◌, arith}
use mpif.Machine.{sign_extend, u32}
use mpif.Abi.{mpi_success}
use mpif.Logical.{mpif_bool2logical}
use mpif.Attrs.{points_to_int, mpi_win_size, mpif_attr_value, attr_value-stored}

-- What MPI_Comm_get_attr writes: nothing to the value if the flag is 0.
pub record Found : Type 0 where
  pub ierror : ℕ
  pub flag : ℕ
  pub value : ℕ

-- MPI_Comm_set_attr and MPI_Comm_get_attr, or those of datatypes and windows, with the conversion of
-- the handle.
pub record Attributes (S : Type 0) : Type 0 where
  pub fromint : ℕ → ℕ
  pub set_attr : S → ℕ → ℕ → ℕ → ℕ × S
  pub get_attr : S → ℕ → ℕ → Found

-- What a Fortran caller gets.
pub record Got : Type 0 where
  pub ierror : ℕ
  pub flag : ℕ
  pub attribute_val : ℕ

module _ {S : Type 0} (mpi : Attributes S) (load_int load_aint : ℕ → ℕ)
    (mpif_logical_true mpif_logical_false : ℕ) where
  abbrev logical : ℕ → ℕ
  logical = mpif_bool2logical mpif_logical_true mpif_logical_false

  unfoldable pub mpi_comm_set_attr : S → ℕ → ℕ → ℕ → ℕ × S
  mpi_comm_set_attr s comm comm_keyval attribute_val =
      mpi.set_attr s (mpi.fromint comm) comm_keyval attribute_val

  unfoldable pub mpi_comm_get_attr : S → ℕ → ℕ → Got
  mpi_comm_get_attr s comm comm_keyval =
      let found = mpi.get_attr s (mpi.fromint comm) comm_keyval in
      record {
        ierror = found.ierror;
        flag = logical found.flag;
        attribute_val =
            if not (found.ierror == mpi_success) || found.flag == 0
            then 0
            else mpif_attr_value load_int load_aint comm_keyval found.value;
      }

  -- `(void *)(intptr_t)*attribute_val`
  unfoldable pub mpi_attr_put : S → ℕ → ℕ → ℕ → ℕ × S
  mpi_attr_put s comm keyval attribute_val =
      mpi.set_attr s (mpi.fromint comm) keyval (sign_extend attribute_val)

  unfoldable pub mpi_attr_get : S → ℕ → ℕ → Got
  mpi_attr_get s comm keyval =
      let found = mpi.get_attr s (mpi.fromint comm) keyval in
      record {
        ierror = found.ierror;
        flag = logical found.flag;
        attribute_val =
            if not (found.ierror == mpi_success) || found.flag == 0
            then 0
            else u32 (mpif_attr_value load_int load_aint keyval found.value);
      }

  -- A value that was stored is found.
  abbrev pub Keeps : Type 0
  Keeps =
      (s : S) (object keyval value : ℕ)
      → (mpi.set_attr s object keyval value).0 ≡ mpi_success
      → let found = mpi.get_attr (mpi.set_attr s object keyval value).1 object keyval in
        (found.ierror ≡ mpi_success) × (found.flag ≡ 1) × (found.value ≡ value)

  module _ (keeps : Keeps) (s : S) (comm keyval : ℕ) (user : points_to_int keyval ≡ false)
      (no_size : keyval ≢ mpi_win_size) where
    -- For a user's keyval, where MPI keeps what it stored: a value that the routine of MPI-2 stores
    -- comes back with a true flag, whole by the routine of MPI-2, and as its lower 32 bits by that of
    -- MPI-1.
    pub get_attr-set_attr :
        (value : ℕ)
        → (mpi_comm_set_attr s comm keyval value).0 ≡ mpi_success
        → let after = (mpi_comm_set_attr s comm keyval value).1 in
          (mpi_comm_get_attr after comm keyval
            ≡ record { ierror = mpi_success; flag = mpif_logical_true; attribute_val = value })
          × (mpi_attr_get after comm keyval ≡ record {
            ierror = mpi_success;
            flag = mpif_logical_true;
            attribute_val = u32 value;
          })
    unfolding mpi_comm_set_attr mpi_comm_get_attr mpi_attr_get mpif_bool2logical
    get_attr-set_attr value stored =
        let (success, flag, same) = keeps s (mpi.fromint comm) keyval value stored in
        let back = attr_value-stored load_int load_aint keyval value user no_size in
        (rw (success, flag, same, back) refl, rw (success, flag, same, back) refl)

    -- A value of 32 bits that the routine of MPI-1 stores comes back with a true flag, as it was by the
    -- routine of MPI-1, and with its sign bit repeated by that of MPI-2.
    pub attr_get-put :
        (value : ℕ)
        → value < 2 ^ 32
        → (mpi_attr_put s comm keyval value).0 ≡ mpi_success
        → let after = (mpi_attr_put s comm keyval value).1 in
          (mpi_attr_get after comm keyval
            ≡ record { ierror = mpi_success; flag = mpif_logical_true; attribute_val = value })
          × (mpi_comm_get_attr after comm keyval ≡ record {
            ierror = mpi_success;
            flag = mpif_logical_true;
            attribute_val = sign_extend value;
          })
    unfolding mpi_attr_put mpi_comm_get_attr mpi_attr_get mpif_bool2logical
    attr_get-put value small stored =
        let (success, flag, same) = keeps s (mpi.fromint comm) keyval (sign_extend value) stored in
        let back = attr_value-stored load_int load_aint keyval (sign_extend value) user no_size in
        let cut : u32 (sign_extend value) ≡ value = ground arith in
        (rw (success, flag, same, back, cut) refl, rw (success, flag, same, back) refl)
