-- ===== src/Callbacks/Datarep/Tests.antt =====
-- A data representation at small inputs: one box, and a name of one letter.
use mpif.Fixtures.{roomy}
use mpif.Prelude.{◌+◌, ◌≡◌, refl, true, some, [], ◌∷◌}
use mpif.Machine.{ok}
use mpif.Strings.{mpif_strdup_f2c, mpif_fstrlen}
use mpif.Heap.{Heap}
use mpif.Callbacks.Predefined.{user}
use mpif.Callbacks.Datarep.{Box, Conversion, Fortran, mpif_datarep_extent_trampoline}
use mpif.Callbacks.Datarep.Calls.{Trampoline, convert, convert-live, extent_trampoline-live}
use mpif.Callbacks.Datarep.Register.{
  State, Procedures, RegisterOutcome, mpi_register_datarep, register_datarep-RegisterOutcome,
}

abbrev fortran : Fortran
fortran = record {
  type_toint = λ d. d + 1;
  conversion = λ fn c x e. record { extra_state = x + c.count; ierror = c.datatype };
  conversion_c = λ fn c x e. record { extra_state = x; ierror = e };
  extent = λ fn d extent x e. record { extent = 24; extra_state = x; ierror = 5 };
}

abbrev box : Box
box = record { read_fn = user 1; write_fn = user 2; extent_fn = user 3; extra_state = 40 }

abbrev heap : Heap Box
heap = some box ∷ []

abbrev conversion : Conversion
conversion = record { userbuf = 1000; datatype = 7; count = 2; filebuf = 2000; position = 0 }

convert-live_test :
    convert fortran heap 0 conversion Trampoline.read_trampoline
    ≡ some (ok (some (record box { extra_state = 42 }) ∷ [], 8))
convert-live_test = convert-live fortran heap 0 box conversion Trampoline.read_trampoline refl

-- The procedure fails, so that MPI's 99 stays.
extent_trampoline-live_test : mpif_datarep_extent_trampoline fortran heap 0 7 99 ≡ ok (heap, 99, 5)
extent_trampoline-live_test = extent_trampoline-live fortran heap 0 box 7 99 refl

abbrev procedures : Procedures
procedures = record { read_fn = user 1; write_fn = user 2; extent_fn = user 3 }

copied : mpif_strdup_f2c roomy (b'x' ∷ []) 1 ≡ ok (b'x' ∷ 0 ∷ [])
unfolding mpif_strdup_f2c mpif_fstrlen
copied = refl

abbrev nothing : State
nothing = record { boxes = []; strings = [] }

register_datarep-RegisterOutcome_example :
    RegisterOutcome
      (λ h. true)
      roomy
      (λ large name r w e b. 0)
      true
      nothing
      (b'x' ∷ 0 ∷ [])
      procedures
      40
      (mpi_register_datarep
        (λ h. true)
        roomy
        (λ large name r w e b. 0)
        true
        nothing
        (b'x' ∷ [])
        procedures
        40
        1)
register_datarep-RegisterOutcome_example =
    register_datarep-RegisterOutcome (λ h. true) roomy (λ large name r w e b. 0) true nothing
      (b'x' ∷ []) (b'x' ∷ 0 ∷ []) procedures 40 1 copied
