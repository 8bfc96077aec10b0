-- ===== src/Spawn/Multiple.antt =====
-- gen/mpif_functions.c, mpi_comm_spawn_multiple_: at the root the commands and the arguments of each
-- are copied, the arguments from the rows of a Fortran array with one row for each command. The
-- arrays of pointers that `malloc` gives are objects of a heap of their own. The count is that of an
-- array, and not negative.
pub mod Rows
pub mod Copies
pub mod Passed
mod Tests
use mpif.Prelude.{
  ℕ, zero, suc, ◌+◌, ◌*◌, Bool, true, false, not, Option, none, some, List, [], ◌∷◌, ◌++◌, ◌==◌,
  if◌then◌else◌, length, drop,
}
use mpif.Prelude.Int.{pos}
use mpif.Machine.{Run, ok, fault, ◌>>=◌, Bytes, Allocator, or_abort}
use mpif.Heap.{Heap, read, free}
use mpif.Strings.{mpif_fcount2d}
use mpif.Root.{Comms, error, at_root, root_of}
use mpif.Sentinels.{Cells, mpif_is_argvs_null, mpif_c_errcodes}
use mpif.Requests.{convert_array}
use mpif.Spawn.{new_string, Pointers, copy_strings, read_to_null, read_counted, free_counted}

-- What MPI_Comm_spawn_multiple reads; no arguments are MPI_ARGVS_NULL.
pub record Requests : Type 0 where
  pub count : ℕ
  pub commands : List Bytes
  pub argvs : Option (List (List Bytes))
  pub maxprocs : ℕ
  pub infos : List ℕ
  pub root : ℕ
  pub comm : ℕ
  pub array_of_errcodes : ℕ

-- MPI, with the error and what `intercomm` holds after the call, MPI_COMM_NULL before it.
pub record Mpi : Type 0 where
  pub comm_fromint : ℕ → ℕ
  pub comm_toint : ℕ → ℕ
  pub info_fromint : ℕ → ℕ
  pub comm_null : ℕ
  pub info_null : ℕ
  pub comms : Comms
  pub comm_spawn_multiple : Requests → ℕ → ℕ × ℕ

pub record Spawned : Type 0 where
  pub ierror : ℕ
  pub intercomm : Option ℕ
  pub strings : Heap Bytes
  pub arrays : Heap Pointers

-- The copies of row `i` of an array of `q_count` rows, at `n` with the rounds that are left, and the
-- NULL that is stored behind the last pointer.
unfoldable pub copy_row :
    Allocator → Heap Bytes → Bytes → ℕ → ℕ → ℕ → ℕ → ℕ → Run (Pointers × Heap Bytes)
copy_row a strings argv len q_count i n zero = ok (none ∷ [], strings)
copy_row a strings argv len q_count i n (suc rounds) = do
  first ← new_string a strings (drop (i * len + n * q_count * len) argv) len
  others ← copy_row a first.1 argv len q_count i (suc n) rounds
  ok (some first.0 ∷ others.0, others.1)

-- `argv_array_of_argv` and `count_array_of_argv`, and both heaps.
pub record CopiedRows : Type 0 where
  pub argvs : List ℕ
  pub counts : List ℕ
  pub strings : Heap Bytes
  pub arrays : Heap Pointers

-- The loop over the rows, at `i` with the rounds that are left. A pointer has 8 bytes.
unfoldable pub copy_rows :
    Allocator → Heap Bytes → Heap Pointers → Bytes → ℕ → ℕ → ℕ → ℕ → Run CopiedRows
copy_rows a strings arrays argv len q_count i zero =
    ok record { argvs = []; counts = []; strings = strings; arrays = arrays }
copy_rows a strings arrays argv len q_count i (suc rounds) = do
  count ← mpif_fcount2d argv q_count i len
  room ← or_abort (a.malloc ((count + 1) * 8))
  row ← copy_row a strings argv len q_count i 0 count
  others ← copy_rows a row.1 (arrays ++ (some row.0 ∷ [])) argv len q_count (suc i) rounds
  ok record others { argvs = length arrays ∷ others.argvs; counts = count ∷ others.counts }

-- What MPI reads through the arrays, each up to its NULL.
unfoldable pub read_rows : Heap Bytes → Heap Pointers → List ℕ → Run (List (List Bytes))
read_rows strings arrays [] = ok []
read_rows strings arrays (p ∷ rows) = do
  pointers ← read arrays p
  row ← read_to_null strings pointers
  others ← read_rows strings arrays rows
  ok (row ∷ others)

-- The loop that frees the strings of every row, by the row's count, and then its array.
unfoldable pub free_rows :
    Heap Bytes → Heap Pointers → List ℕ → List ℕ → Run (Heap Bytes × Heap Pointers)
free_rows strings arrays [] counts = ok (strings, arrays)
free_rows strings arrays (p ∷ rows) [] = fault
free_rows strings arrays (p ∷ rows) (n ∷ counts) = do
  pointers ← read arrays p
  strings ← free_counted strings pointers n
  arrays ← free arrays p
  free_rows strings arrays rows counts

-- The arguments that are not strings.
pub record Call : Type 0 where
  pub count : ℕ
  pub maxprocs : ℕ
  pub array_of_info : List ℕ
  pub root : ℕ
  pub comm : ℕ
  pub array_of_errcodes : ℕ

module _ (cells : Cells) (mpi : Mpi) (a : Allocator) (call : Call) where
  -- `c_array_of_info`, of one element where there is no command.
  unfoldable pub infos_of : ℕ → Run (List ℕ)
  infos_of q_count =
      if q_count == 0
      then ok (mpi.info_null ∷ [])
      else convert_array mpi.info_fromint call.array_of_info q_count

  -- The call of MPI with what was copied, and the frees after it.
  unfoldable pub call_spawn_multiple : ℕ → Bool → Pointers → CopiedRows → List ℕ → Run Spawned
  call_spawn_multiple q_count null_argv argv_commands rows infos = do
    commands ← read_counted rows.strings argv_commands q_count
    argvs ←
        (if null_argv
          then ok none
          else read_rows rows.strings rows.arrays rows.argvs >>= (λ argvs. ok (some argvs)))
    let (ierror, c_intercomm) =
        mpi.comm_spawn_multiple
          record {
            count = call.count;
            commands = commands;
            argvs = argvs;
            maxprocs = call.maxprocs;
            infos = infos;
            root = call.root;
            comm = mpi.comm_fromint call.comm;
            array_of_errcodes = mpif_c_errcodes cells call.array_of_errcodes;
          }
          mpi.comm_null
    strings ← free_counted rows.strings argv_commands q_count
    heaps ← free_rows strings rows.arrays rows.argvs rows.counts
    ok record {
      ierror = ierror;
      intercomm = some (mpi.comm_toint c_intercomm);
      strings = heaps.0;
      arrays = heaps.1;
    }

  unfoldable pub pass_rows :
      ℕ → Bytes → ℕ → ℕ → Bytes → ℕ → Heap Bytes → Heap Pointers → Run Spawned
  pass_rows q_count commands length_commands argv_address argv length_argv strings arrays =
      let null_argv = mpif_is_argvs_null cells argv_address in
      do
        copied ← copy_strings a strings commands length_commands 0 q_count
        rows ←
            copy_rows a copied.1 arrays argv length_argv q_count 0
              (if null_argv then 0 else q_count)
        infos ← infos_of q_count
        call_spawn_multiple q_count null_argv copied.0 rows infos

  unfoldable pub mpi_comm_spawn_multiple :
      Bytes → ℕ → ℕ → Bytes → ℕ → Heap Bytes → Heap Pointers → Run Spawned
  mpi_comm_spawn_multiple commands length_commands argv_address argv length_argv strings arrays =
      elim (root_of mpi.comms (mpi.comm_fromint call.comm) call.root) [
        | error q_ierror ↦
            ok record { ierror = q_ierror; intercomm = none; strings = strings; arrays = arrays }
        | at_root q_at_root ↦
            pass_rows (if q_at_root then call.count else 0) commands length_commands argv_address
              argv length_argv strings arrays
      ]
