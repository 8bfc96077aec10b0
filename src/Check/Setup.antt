-- ===== src/Check/Setup.antt =====
-- src/mpif_check.c, mpif_check_environment: what a process checks by itself, before anything that the
-- processes do together, and the function as a whole. The versions that the library was built against
-- are parameters, as are MPI's answers, each with its error code, and the environment.
pub mod Launcher
pub mod Whole
mod Tests
use mpif.Prelude.{
  ℕ, zero, suc, Bool, true, false, not, ◌&&◌, ◌||◌, ◌==◌, Option, none, some, List, [], ◌∷◌,
  if◌then◌else◌,
}
use mpif.Prelude.Int.{ℤ, pos, negsuc, ltb_ℤ, eqb_ℤ}
use mpif.Machine.{Run, ok, aborted, ◌>>=◌, ◌>>◌, Bytes}
use mpif.Logical.{mpif_bool2logical}
use mpif.Check.{fail_if, Version, Cell, Report, check_sentinels, mpif_check_contains}
use mpif.Check.Environment.{mpif_check_getenv_long}
use mpif.Check.Together.{Calls, Fields, int_of, mpif_check_mpi, check_together}

unfoldable pub check_header : Version → Version → Run (Unit {0})
check_header library header = fail_if (
    not (eqb_ℤ header.major library.major)
    || not (eqb_ℤ header.minor library.minor)
    || not (eqb_ℤ header.patch library.patch))

-- A version of MPI or of its ABI: major, then minor.
unfoldable pub check_abi : ℤ × ℤ → ℤ × ℤ → Run (Unit {0})
check_abi (mpi_abi_version, mpi_abi_subversion) (abi_major, abi_minor) =
    fail_if (eqb_ℤ abi_major (negsuc 0))
    >> fail_if (
        not (eqb_ℤ abi_major mpi_abi_version)
        || (eqb_ℤ abi_major mpi_abi_version && ltb_ℤ abi_minor mpi_abi_subversion))

unfoldable pub check_mpi_version : ℤ × ℤ → ℤ × ℤ → Run (Unit {0})
check_mpi_version (mpi_version, mpi_subversion) (version, subversion) =
    fail_if
      (ltb_ℤ version mpi_version || (eqb_ℤ version mpi_version && ltb_ℤ subversion mpi_subversion))

-- MPIF_MPI_LIBRARY
unfoldable pub check_library : Option Bytes → Bytes → Run (Unit {0})
check_library none libver = ok tt
check_library (some []) libver = ok tt
check_library (some (c ∷ s)) libver = fail_if (not (mpif_check_contains libver (c ∷ s)))

-- What MPI holds as Fortran's logical values, and whether it holds any.
pub record Booleans : Type 0 where
  pub lib_true : ℕ
  pub lib_false : ℕ
  pub booleans_set : Bool

unfoldable pub check_booleans : ℕ → ℕ → Booleans → Run (Unit {0})
check_booleans mpif_logical_true mpif_logical_false b =
    let logical = mpif_bool2logical mpif_logical_true mpif_logical_false in
    fail_if (b.booleans_set && (not (b.lib_true == logical 1) || not (b.lib_false == logical 0)))

-- `launched > 1`, of a variable that is set
abbrev pub is_above_one : Option ℤ → Bool
is_above_one none = false
is_above_one (some launched) = ltb_ℤ (pos 1) launched

-- The loop over the launchers' variables.
unfoldable pub check_launched : List (Option Bytes) → Run (Unit {0})
check_launched [] = ok tt
check_launched (var ∷ vars) = mpif_check_getenv_long var >>= λ launched.
    fail_if (is_above_one launched) >>= λ fine. check_launched vars

-- PMI_SIZE, OMPI_COMM_WORLD_SIZE, SLURM_NTASKS and SLURM_NPROCS, of a process that is alone.
unfoldable pub check_launcher : List (Option Bytes) → ℕ → Run (Unit {0})
check_launcher launcher_vars size =
    let checked = check_launched launcher_vars in if size == 1 then checked else ok tt

-- `size != expected_size`, of a variable that is set
abbrev pub is_other_size : ℕ → Option ℤ → Bool
is_other_size size none = false
is_other_size size (some expected_size) = not (eqb_ℤ (pos size) expected_size)

-- MPIF_SIZE
unfoldable pub check_size : Option Bytes → ℕ → Run (Unit {0})
check_size var size =
    mpif_check_getenv_long var >>= λ expected_size. fail_if (is_other_size size expected_size)

abbrev pub get_or_zero : Option ℤ → ℤ
get_or_zero none = pos 0
get_or_zero (some value) = value

-- `local`
abbrev pub fields_of : Version → ℤ × ℤ → ℤ × ℤ → ℤ → ℤ → Fields
fields_of library (version, subversion) (abi_major, abi_minor) nodes node_size i =
    if i == 0
    then library.major
    else if i == 1
    then library.minor
    else if i == 2
    then library.patch
    else if i == 3
    then version
    else if i == 4
    then subversion
    else if i == 5
    then abi_major
    else if i == 6
    then abi_minor
    else if i == 7
    then int_of nodes
    else int_of node_size

-- All that the function asks of the two sides of the library, of MPI and of the environment.
pub record Setup : Type 0 where
  pub library : Version
  pub header : Version
  pub cells : List Cell
  pub reports : List Report
  pub built_abi : ℤ × ℤ
  pub built_mpi : ℤ × ℤ
  pub logical_true : ℕ
  pub logical_false : ℕ
  pub abi_get_version : ℕ × (ℤ × ℤ)
  pub get_version : ℕ × (ℤ × ℤ)
  pub get_library_version : ℕ × Bytes
  pub initialized : ℕ × Bool
  pub finalized : ℕ × Bool
  pub abi_get_fortran_booleans : ℕ × Booleans
  pub comm_size : ℕ × ℕ
  pub comm_rank : ℕ × ℕ
  pub comm_dup : ℕ × ℕ
  pub calls : ℕ → Calls
  pub mpif_mpi_library : Option Bytes
  pub launcher_vars : List (Option Bytes)
  pub mpif_size : Option Bytes
  pub mpif_num_nodes : Option Bytes
  pub mpif_node_size : Option Bytes

-- The checks that need no more than a library that is loaded: the versions and the string.
unfoldable pub check_loaded : Setup → Run ((ℤ × ℤ) × (ℤ × ℤ) × Bytes)
check_loaded s = do
  header ← check_header s.library s.header
  sentinels ← check_sentinels s.cells s.reports
  abi ← mpif_check_mpi s.abi_get_version
  same_abi ← check_abi s.built_abi abi
  version ← mpif_check_mpi s.get_version
  new_enough ← check_mpi_version s.built_mpi version
  libver ← mpif_check_mpi s.get_library_version
  expected ← check_library s.mpif_mpi_library libver
  ok (abi, version, libver)

-- The fields of the process, with the expectations on the nodes.
unfoldable pub read_fields : Setup → ℤ × ℤ → ℤ × ℤ → Run Fields
read_fields s version abi = do
  expected_nodes ← mpif_check_getenv_long s.mpif_num_nodes
  expected_node_size ← mpif_check_getenv_long s.mpif_node_size
  ok (fields_of s.library version abi (get_or_zero expected_nodes) (get_or_zero expected_node_size))

-- The checks between MPI_Init and MPI_Finalize.
unfoldable pub check_running : Setup → ℤ × ℤ → ℤ × ℤ → Bytes → Run (Unit {0})
check_running s abi version libver = do
  booleans ← mpif_check_mpi s.abi_get_fortran_booleans
  same_values ← check_booleans s.logical_true s.logical_false booleans
  size ← mpif_check_mpi s.comm_size
  rank ← mpif_check_mpi s.comm_rank
  launcher ← check_launcher s.launcher_vars size
  expected ← check_size s.mpif_size size
  check_together s.comm_dup s.calls size rank (read_fields s version abi) libver

unfoldable pub mpif_check_environment : Setup → Run (Unit {0})
mpif_check_environment s = do
  (abi, version, libver) ← check_loaded s
  initialized ← mpif_check_mpi s.initialized
  finalized ← mpif_check_mpi s.finalized
  (if not initialized || finalized then ok tt else check_running s abi version libver)
