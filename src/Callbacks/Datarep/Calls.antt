-- ===== src/Callbacks/Datarep/Calls.antt =====
-- What each trampoline of a data representation does to the box that it is given.
use mpif.Prelude.{ℕ, ◌≡◌, refl, some, set, ◌==◌, if◌then◌else◌, Option}
use mpif.Machine.{Run, ok}
use mpif.Abi.{mpi_success}
use mpif.Heap.{Heap, object_at}
use mpif.Heap.Laws.{read-object_at, write-object_at}
use mpif.Callbacks.Datarep.{
  Box, Conversion, Left, Fortran, mpif_datarep_read_trampoline, mpif_datarep_write_trampoline,
  mpif_datarep_read_trampoline_c, mpif_datarep_write_trampoline_c, mpif_datarep_extent_trampoline,
  call_datarep_conversion, call_datarep_conversion_c,
}

pub data Trampoline : Type 0 where
  read_trampoline write_trampoline read_trampoline_c write_trampoline_c extent_trampoline :
      Trampoline

-- The trampolines of the four conversions.
abbrev pub convert : Fortran → Heap Box → ℕ → Conversion → Trampoline → Option (Run (Heap Box × ℕ))
convert f h p c read_trampoline = some (mpif_datarep_read_trampoline f h p c)
convert f h p c write_trampoline = some (mpif_datarep_write_trampoline f h p c)
convert f h p c read_trampoline_c = some (mpif_datarep_read_trampoline_c f h p c)
convert f h p c write_trampoline_c = some (mpif_datarep_write_trampoline_c f h p c)
convert f h p c extent_trampoline = Option.none

-- What the Fortran procedure leaves that belongs to the trampoline.
abbrev pub conversion_left : Fortran → Box → Conversion → Trampoline → Option Left
conversion_left f box c read_trampoline =
    some (f.conversion box.read_fn c box.extra_state mpi_success)
conversion_left f box c write_trampoline =
    some (f.conversion box.write_fn c box.extra_state mpi_success)
conversion_left f box c read_trampoline_c =
    some (f.conversion_c box.read_fn c box.extra_state mpi_success)
conversion_left f box c write_trampoline_c =
    some (f.conversion_c box.write_fn c box.extra_state mpi_success)
conversion_left f box c extent_trampoline = Option.none

module _ (f : Fortran) (h : Heap Box) (p : ℕ) (box : Box) where
  abbrev pub stored : Option Left → Option (Run (Heap Box × ℕ))
  stored Option.none = Option.none
  stored (some left) =
      some (ok (set h p (some (record box { extra_state = left.extra_state })), left.ierror))

  -- With a live box, a conversion calls the box's own procedure for its direction and size of
  -- count, with the datatype as an integer and all else unchanged, and returns its error code;
  -- of the heap, only the box's extra_state changes, to what the procedure left there.
  pub convert-live :
      (c : Conversion) (tr : Trampoline)
      → object_at h p ≡ some box
      → convert f h p c tr
        ≡ stored (conversion_left f box (record c { datatype = f.type_toint c.datatype }) tr)
  unfolding mpif_datarep_read_trampoline mpif_datarep_write_trampoline
      mpif_datarep_read_trampoline_c mpif_datarep_write_trampoline_c call_datarep_conversion
      call_datarep_conversion_c
  convert-live c read_trampoline live =
      rw (read-object_at h p live) rw (write-object_at h p _ live) refl
  convert-live c write_trampoline live =
      rw (read-object_at h p live) rw (write-object_at h p _ live) refl
  convert-live c read_trampoline_c live =
      rw (read-object_at h p live) rw (write-object_at h p _ live) refl
  convert-live c write_trampoline_c live =
      rw (read-object_at h p live) rw (write-object_at h p _ live) refl
  convert-live c extent_trampoline live = refl

  -- With a live box, the extent trampoline calls the box's own extent procedure on an extent of 0
  -- and returns its error code, and MPI's extent is written only if that is MPI_SUCCESS.
  pub extent_trampoline-live :
      (datatype extent : ℕ)
      → object_at h p ≡ some box
      → mpif_datarep_extent_trampoline f h p datatype extent ≡ (
          let left = f.extent box.extent_fn (f.type_toint datatype) 0 box.extra_state mpi_success in
          ok (
            set h p (some (record box { extra_state = left.extra_state })),
            (if left.ierror == mpi_success then left.extent else extent),
            left.ierror,
          ))
  unfolding mpif_datarep_extent_trampoline
  extent_trampoline-live datatype extent live =
      rw (read-object_at h p live) rw (write-object_at h p _ live) refl
