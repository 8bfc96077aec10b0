-- ===== src/Callbacks/Datarep.antt =====
-- src/mpif_callbacks.c, the conversions of a data representation: a box for each representation,
-- which is given to MPI in the place of `extra_state`, and five trampolines. Buffers are addresses
-- that are passed on. What a Fortran procedure leaves in extra_state, in the extent and in its
-- error code is given by the parameters `conversion`, `conversion_c` and `extent`.
pub mod Calls
pub mod Register
mod Tests
use mpif.Prelude.{ℕ, ◌≡◌, Bool, Option, none, some, List, ◌==◌, if◌then◌else◌}
use mpif.Machine.{Run, ok, ◌>>=◌}
use mpif.Abi.{mpi_success}
use mpif.Heap.{Heap, allocate, read, write, free}
use mpif.Callbacks.Predefined.{Procedure}

-- `struct datarep_box`
pub record Box : Type 0 where
  pub read_fn : Procedure
  pub write_fn : Procedure
  pub extent_fn : Procedure
  pub extra_state : ℕ

-- The arguments of a conversion; for a trampoline, `datatype` is the handle of C.
pub record Conversion : Type 0 where
  pub userbuf : ℕ
  pub datatype : ℕ
  pub count : ℕ
  pub filebuf : ℕ
  pub position : ℕ

pub record Left : Type 0 where
  pub extra_state : ℕ
  pub ierror : ℕ

pub record ExtentLeft : Type 0 where
  pub extent : ℕ
  pub extra_state : ℕ
  pub ierror : ℕ

-- The Fortran side, with `MPI_Type_toint`.
pub record Fortran : Type 0 where
  pub type_toint : ℕ → ℕ
  pub conversion : Procedure → Conversion → ℕ → ℕ → Left
  pub conversion_c : Procedure → Conversion → ℕ → ℕ → Left
  pub extent : Procedure → ℕ → ℕ → ℕ → ℕ → ExtentLeft

unfoldable pub mpif_datarep_reserve :
    (Heap Box → Bool) → Heap Box → Procedure → Procedure → Procedure → ℕ → Option ℕ × Heap Box
mpif_datarep_reserve room h read_fn write_fn extent_fn extra_state = allocate room h (record {
  read_fn = read_fn;
  write_fn = write_fn;
  extent_fn = extent_fn;
  extra_state = extra_state;
})

unfoldable pub mpif_datarep_cancel : Heap Box → ℕ → Run (Heap Box)
mpif_datarep_cancel h box = free h box

module _ (f : Fortran) (h : Heap Box) where
  abbrev store_back : ℕ → Box → Left → Run (Heap Box × ℕ)
  store_back p box left = write h p (record box { extra_state = left.extra_state }) >>= λ stored.
      ok (stored, left.ierror)

  unfoldable pub call_datarep_conversion : Procedure → ℕ → Conversion → Run (Heap Box × ℕ)
  call_datarep_conversion fn p c = read h p >>= λ box. store_back p box (
      f.conversion fn (record c { datatype = f.type_toint c.datatype }) box.extra_state mpi_success)

  unfoldable pub call_datarep_conversion_c : Procedure → ℕ → Conversion → Run (Heap Box × ℕ)
  call_datarep_conversion_c fn p c = read h p >>= λ box. store_back p box (
      f.conversion_c fn (record c { datatype = f.type_toint c.datatype }) box.extra_state
        mpi_success)

  module _ (extra_state : ℕ) where
    unfoldable pub mpif_datarep_read_trampoline : Conversion → Run (Heap Box × ℕ)
    unfolding call_datarep_conversion
    mpif_datarep_read_trampoline c =
        read h extra_state >>= λ box. call_datarep_conversion box.read_fn extra_state c

    unfoldable pub mpif_datarep_write_trampoline : Conversion → Run (Heap Box × ℕ)
    unfolding call_datarep_conversion
    mpif_datarep_write_trampoline c =
        read h extra_state >>= λ box. call_datarep_conversion box.write_fn extra_state c

    unfoldable pub mpif_datarep_read_trampoline_c : Conversion → Run (Heap Box × ℕ)
    unfolding call_datarep_conversion_c
    mpif_datarep_read_trampoline_c c =
        read h extra_state >>= λ box. call_datarep_conversion_c box.read_fn extra_state c

    unfoldable pub mpif_datarep_write_trampoline_c : Conversion → Run (Heap Box × ℕ)
    unfolding call_datarep_conversion_c
    mpif_datarep_write_trampoline_c c =
        read h extra_state >>= λ box. call_datarep_conversion_c box.write_fn extra_state c

    -- `extent` is the value of `*extent` before the call, and the result has that after it.
    unfoldable pub mpif_datarep_extent_trampoline : ℕ → ℕ → Run (Heap Box × ℕ × ℕ)
    mpif_datarep_extent_trampoline datatype extent = read h extra_state >>= λ box.
        let left = f.extent box.extent_fn (f.type_toint datatype) 0 box.extra_state mpi_success in
        write h extra_state (record box { extra_state = left.extra_state }) >>= λ stored.
        ok (stored, (if left.ierror == mpi_success then left.extent else extent), left.ierror)
