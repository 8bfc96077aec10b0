-- ===== src/Types.antt =====
-- gen/mpif_functions.c, mpi_type_create_struct_ and mpi_type_get_contents_: the datatypes that another
-- one is made of are an array of handles, which is converted on the way to MPI and back.
pub mod Contents
use mpif.Prelude.{ℕ, List, replicate}
use mpif.Prelude.Int.{ℤ}
use mpif.Machine.{Run, ok, ◌>>=◌}
use mpif.Requests.{rounds, convert_array, write_array}

-- What MPI writes, and what the caller has afterwards: the error and the three arrays.
pub record Described : Type 0 where
  pub ierror : ℕ
  pub integers : List ℕ
  pub addresses : List ℕ
  pub datatypes : List ℕ

module _ (type_fromint type_toint : ℕ → ℕ) (datatype_null : ℕ) where
  unfoldable pub mpi_type_create_struct :
      (ℤ → List ℕ → List ℕ → List ℕ → ℕ → ℕ × ℕ) → ℤ → List ℕ → List ℕ → List ℕ → Run (ℕ × ℕ)
  mpi_type_create_struct type_create_struct count blocklengths displacements types = do
    c_types ← convert_array type_fromint types (rounds count)
    let (ierror, c_newtype) =
        type_create_struct count blocklengths displacements c_types datatype_null
    ok (ierror, type_toint c_newtype)

  unfoldable pub mpi_type_get_contents :
      (ℕ → ℤ → ℤ → ℤ → List ℕ → List ℕ → List ℕ → Described)
      → ℕ
      → ℤ
      → ℤ
      → ℤ
      → List ℕ
      → List ℕ
      → List ℕ
      → Run Described
  mpi_type_get_contents get_contents datatype max_integers max_addresses max_datatypes integers
        addresses datatypes =
      do
        let done =
            get_contents (type_fromint datatype) max_integers max_addresses max_datatypes integers
              addresses (replicate (rounds max_datatypes) datatype_null)
        datatypes ← write_array type_toint datatypes done.datatypes (rounds max_datatypes)
        ok (record done { datatypes = datatypes })
