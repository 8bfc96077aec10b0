-- ===== src/Spawn.antt =====
-- gen/mpif_functions.c, mpi_comm_spawn_ (and pmpi_comm_spawn_, which differs in the names only): the
-- command and the arguments are read at the root alone, copied to C strings, and freed after the
-- call of MPI. The pointer of a Fortran array of strings is its address, which tells the sentinel
-- apart, with its bytes. Strings are objects of the heap.
pub mod CString
pub mod Arguments
pub mod Multiple
mod Tests
use mpif.Prelude.{
  ℕ, zero, suc, ◌+◌, ◌*◌, Bool, true, false, not, ◌&&◌, Option, none, some, List, [], ◌∷◌, ◌++◌,
  ◌==◌, if◌then◌else◌, length, drop,
}
use mpif.Machine.{Run, ok, fault, ◌>>=◌, Bytes, Allocator}
use mpif.Heap.{Heap, read, free}
use mpif.Strings.{mpif_strdup_f2c_trim, mpif_fcount}
use mpif.Root.{Comms, Root, error, at_root, root_of}
use mpif.Sentinels.{Cells, mpif_is_argv_null, mpif_c_errcodes}

-- What MPI_Comm_spawn reads: none is NULL for the command, and MPI_ARGV_NULL for the arguments.
pub record Request : Type 0 where
  pub command : Option Bytes
  pub argv : Option (List Bytes)
  pub maxprocs : ℕ
  pub info : ℕ
  pub root : ℕ
  pub comm : ℕ
  pub array_of_errcodes : ℕ

-- The handle conversions, the constants and the routines of MPI. MPI_Comm_spawn gives the error and what `intercomm` holds then, MPI_COMM_NULL before the call.
pub record Mpi : Type 0 where
  pub comm_fromint : ℕ → ℕ
  pub comm_toint : ℕ → ℕ
  pub info_fromint : ℕ → ℕ
  pub comm_null : ℕ
  pub info_null : ℕ
  pub comms : Comms
  pub comm_spawn : Request → ℕ → ℕ × ℕ

-- `intercomm` is none where the wrapper returns before it is written.
pub record Spawned : Type 0 where
  pub ierror : ℕ
  pub intercomm : Option ℕ
  pub strings : Heap Bytes

-- A C string of its own for `str`.
unfoldable pub new_string : Allocator → Heap Bytes → Bytes → ℕ → Run (ℕ × Heap Bytes)
new_string a strings str len = do
  s ← mpif_strdup_f2c_trim a str len
  ok (length strings, strings ++ (some s ∷ []))

-- `c_command`: a string at the root, and NULL elsewhere.
unfoldable pub command_string :
    Allocator → Bool → Heap Bytes → Bytes → ℕ → Run (List ℕ × Heap Bytes)
command_string a false strings command length_command = ok ([], strings)
command_string a true strings command length_command = do
  r ← new_string a strings command length_command
  ok (r.0 ∷ [], r.1)

-- An array of pointers, where none is NULL.
abbrev pub Pointers : Type 0
Pointers = List (Option ℕ)

-- The loop that fills `argv_argv`, at `n` with the rounds that are left, and the NULL that is stored
-- behind the last pointer.
unfoldable pub copy_strings :
    Allocator → Heap Bytes → Bytes → ℕ → ℕ → ℕ → Run (Pointers × Heap Bytes)
copy_strings a strings argv len n zero = ok (none ∷ [], strings)
copy_strings a strings argv len n (suc rounds) = do
  first ← new_string a strings (drop (n * len) argv) len
  others ← copy_strings a first.1 argv len (suc n) rounds
  ok (some first.0 ∷ others.0, others.1)

-- What MPI reads through an array of pointers that has no count: the strings before the first NULL.
-- Without one it reads past the end of the array.
unfoldable pub read_to_null : Heap Bytes → Pointers → Run (List Bytes)
read_to_null strings [] = fault
read_to_null strings (none ∷ pointers) = ok []
read_to_null strings (some p ∷ pointers) = do
  s ← read strings p
  others ← read_to_null strings pointers
  ok (s ∷ others)

-- What MPI reads through an array of which it knows the count.
unfoldable pub read_counted : Heap Bytes → Pointers → ℕ → Run (List Bytes)
read_counted strings pointers zero = ok []
read_counted strings [] (suc n) = fault
read_counted strings (none ∷ pointers) (suc n) = fault
read_counted strings (some p ∷ pointers) (suc n) = do
  s ← read strings p
  others ← read_counted strings pointers n
  ok (s ∷ others)

-- The loop that frees the first `n` pointers; `free(NULL)` does nothing.
unfoldable pub free_counted : Heap Bytes → Pointers → ℕ → Run (Heap Bytes)
free_counted strings pointers zero = ok strings
free_counted strings [] (suc n) = fault
free_counted strings (none ∷ pointers) (suc n) = free_counted strings pointers n
free_counted strings (some p ∷ pointers) (suc n) = do
  strings ← free strings p
  free_counted strings pointers n

-- What MPI reads through pointers of their own.
unfoldable pub read_strings : Heap Bytes → List ℕ → Run (List Bytes)
read_strings strings [] = ok []
read_strings strings (p ∷ pointers) = do
  s ← read strings p
  others ← read_strings strings pointers
  ok (s ∷ others)

unfoldable pub free_strings : Heap Bytes → List ℕ → Run (Heap Bytes)
free_strings strings [] = ok strings
free_strings strings (p ∷ pointers) = do strings ← free strings p; free_strings strings pointers

-- `c_command`, which is NULL or one string.
abbrev pub first_of : List Bytes → Option Bytes
first_of [] = none
first_of (s ∷ others) = some s

-- The arguments of mpi_comm_spawn_ that are not strings.
pub record Call : Type 0 where
  pub maxprocs : ℕ
  pub info : ℕ
  pub root : ℕ
  pub comm : ℕ
  pub array_of_errcodes : ℕ

module _ (cells : Cells) (mpi : Mpi) (a : Allocator) (call : Call) where
  -- The call of MPI with what the conversion gave, and the frees after it.
  unfoldable pub call_spawn : Bool → Bool → List ℕ → ℕ → Pointers → Heap Bytes → Run Spawned
  call_spawn q_at_root null_argv c_command count_argv argv_argv strings = do
    command ← read_strings strings c_command
    argv ←
        (if null_argv then ok none else read_to_null strings argv_argv >>= (λ argv. ok (some argv)))
    let (ierror, c_intercomm) =
        mpi.comm_spawn
          record {
            command = first_of command;
            argv = argv;
            maxprocs = call.maxprocs;
            info = if q_at_root then mpi.info_fromint call.info else mpi.info_null;
            root = call.root;
            comm = mpi.comm_fromint call.comm;
            array_of_errcodes = mpif_c_errcodes cells call.array_of_errcodes;
          }
          mpi.comm_null
    strings ← free_strings strings c_command
    strings ← free_counted strings argv_argv count_argv
    ok record { ierror = ierror; intercomm = some (mpi.comm_toint c_intercomm); strings = strings }

  unfoldable pub pass_strings : Bool → Bytes → ℕ → ℕ → Bytes → ℕ → Heap Bytes → Run Spawned
  pass_strings q_at_root command length_command argv_address argv length_argv strings =
      let null_argv = mpif_is_argv_null cells argv_address in
      do
        c_command ← command_string a q_at_root strings command length_command
        count_argv ← (if q_at_root && not null_argv then mpif_fcount argv length_argv else ok 0)
        argv_argv ← copy_strings a c_command.1 argv length_argv 0 count_argv
        call_spawn q_at_root null_argv c_command.0 count_argv argv_argv.0 argv_argv.1

  unfoldable pub mpi_comm_spawn : Bytes → ℕ → ℕ → Bytes → ℕ → Heap Bytes → Run Spawned
  mpi_comm_spawn command length_command argv_address argv length_argv strings =
      elim (root_of mpi.comms (mpi.comm_fromint call.comm) call.root) [
        | error q_ierror ↦ ok record { ierror = q_ierror; intercomm = none; strings = strings }
        | at_root q_at_root ↦
            pass_strings q_at_root command length_command argv_address argv length_argv strings
      ]
