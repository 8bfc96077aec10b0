-- ===== src/Check/Together.antt =====
-- src/mpif_check.c, mpif_check_environment: the checks that all processes take part in. What a
-- collective call gives a process is an argument.
pub mod Fields
pub mod Ring
pub mod World
pub mod Names
pub mod Layout
use mpif.Prelude.{
  ℕ, zero, suc, ◌+◌, ◌-◌, ◌%◌, ◌^◌, Bool, not, ◌&&◌, ◌||◌, ◌==◌, ltb, leb, if◌then◌else◌, true,
  false, List, [], ◌∷◌,
}
use mpif.Prelude.Int.{ℤ, pos, negsuc, pos_part, ltb_ℤ, eqb_ℤ}
use mpif.Machine.{Run, ok, fault, aborted, ◌>>=◌, ◌>>◌, Bytes}
use mpif.Abi.{mpi_success}
use mpif.Check.{fail_if, same_name, check_nodes}

-- The nine fields that the processes compare: seven versions, then MPIF_NUM_NODES and MPIF_NODE_SIZE.
abbrev pub nfields : ℕ
nfields = 9

abbrev pub Fields : Type 0
Fields = ℕ → ℤ

-- `(int)value` of a `long`
unfoldable pub int_of : ℤ → ℤ
int_of (pos n) =
    let cut = n % 2 ^ 32 in if ltb cut (2 ^ 31) then pos cut else negsuc (2 ^ 32 - 1 - cut)
int_of (negsuc n) =
    let cut = n % 2 ^ 32 in if ltb cut (2 ^ 31) then negsuc cut else pos (2 ^ 32 - 1 - cut)

-- `consistent` in round `i`; an expectation of 0 is a variable that is not set.
unfoldable pub consistent : Fields → Fields → Fields → ℕ → Bool
consistent local vmin vmax i =
    if leb (nfields - 2) i
    then eqb_ℤ (local i) (pos 0) || eqb_ℤ (local i) (vmax i)
    else eqb_ℤ (vmin i) (vmax i)

-- The first `k` rounds of the loop over the fields.
unfoldable pub check_fields : Fields → Fields → Fields → ℕ → Run (Unit {0})
check_fields local vmin vmax zero = ok tt
check_fields local vmin vmax (suc i) =
    check_fields local vmin vmax i >> fail_if (not (consistent local vmin vmax i))

-- Whether the processes gather their names.
unfoldable pub gathers : Fields → Bool
gathers vmax = ltb_ℤ (pos 0) (vmax (nfields - 2)) || ltb_ℤ (pos 0) (vmax (nfields - 1))

-- `mpif_check_mpi`: an error ends the process.
abbrev pub mpif_check_mpi : {A : Type 0} → ℕ × A → Run A
mpif_check_mpi (err, answer) = if err == mpi_success then ok answer else aborted

-- The neighbours in the ring; a size of 0 divides by zero.
unfoldable pub right_of : ℕ → ℕ → Run ℕ
right_of size rank = if size == 0 then fault else ok ((rank + 1) % size)

unfoldable pub left_of : ℕ → ℕ → Run ℕ
left_of size rank = if size == 0 then fault else ok ((rank + size - 1) % size)

-- `sendrecv` is from the token, the rank that it is sent to and the one that is heard, to what is
-- received.
unfoldable pub check_ring : (ℕ → ℕ → ℕ → Run ℕ) → ℕ → ℕ → Run (Unit {0})
check_ring sendrecv size rank = do
  right ← right_of size rank
  left ← left_of size rank
  received ← sendrecv rank right left
  fail_if (not (received == left))

-- The root compares the sum with the number of processes.
unfoldable pub check_count : (ℕ → Run ℕ) → ℕ → ℕ → Run (Unit {0})
check_count reduce_sum size rank = do
  count ← reduce_sum 1
  fail_if (rank == 0 && not (count == size))

-- `memcmp(x, y, n) <= 0`, of records that are filled up with zeros
abbrev pub name_leb : Bytes → Bytes → Bool
name_leb [] ys = true
name_leb (x ∷ xs) [] = false
name_leb (x ∷ xs) (y ∷ ys) = ltb x y || (x == y && name_leb xs ys)

-- `qsort` by `mpif_check_name_cmp`
abbrev pub insert_name : Bytes → List Bytes → List Bytes
insert_name x [] = x ∷ []
insert_name x (y ∷ names) =
    let rest = insert_name x names in if name_leb x y then x ∷ y ∷ names else y ∷ rest

abbrev pub sort_names : List Bytes → List Bytes
sort_names [] = []
sort_names (x ∷ names) = insert_name x (sort_names names)

-- What MPI answers to a process on the communicator that it has made, each with its error code, and
-- whether the root has memory for the names.
pub record Calls : Type 0 where
  pub comm_set_errhandler : ℕ
  pub allreduce_min : Fields → ℕ × Fields
  pub allreduce_max : Fields → ℕ × Fields
  pub bcast : Bytes → ℕ × Bytes
  pub sendrecv : ℕ → ℕ → ℕ → ℕ × ℕ
  pub reduce_sum : ℕ → ℕ × ℕ
  pub get_processor_name : ℕ × Bytes
  pub has_memory : Bool
  pub gather : Bytes → ℕ × List Bytes
  pub comm_free : ℕ

-- The node layout, which the root judges.
unfoldable pub check_layout : Calls → Fields → ℕ → Run (Unit {0})
check_layout on vmax rank =
    if gathers vmax
    then (do
      name ← mpif_check_mpi on.get_processor_name
      room ← fail_if (rank == 0 && not on.has_memory)
      names ← mpif_check_mpi (on.gather name)
      (if rank == 0
          then check_nodes (pos_part (vmax (nfields - 2))) (pos_part (vmax (nfields - 1)))
              (sort_names names)
          else ok tt))
    else ok tt

-- From the duplicate of MPI_COMM_WORLD on, which `comm_dup` gives. `read_fields` reads the two
-- expectations on the nodes.
unfoldable pub check_together : ℕ × ℕ → (ℕ → Calls) → ℕ → ℕ → Run Fields → Bytes → Run (Unit {0})
check_together comm_dup calls size rank read_fields libver = do
  comm ← mpif_check_mpi comm_dup
  let on = calls comm
  handler ← mpif_check_mpi (on.comm_set_errhandler, tt)
  local ← read_fields
  vmin ← mpif_check_mpi (on.allreduce_min local)
  vmax ← mpif_check_mpi (on.allreduce_max local)
  fields ← check_fields local vmin vmax nfields
  rootver ← mpif_check_mpi (on.bcast libver)
  library ← fail_if (not (same_name libver rootver))
  ring ← check_ring (λ token right left. mpif_check_mpi (on.sendrecv token right left)) size rank
  count ← check_count (λ one. mpif_check_mpi (on.reduce_sum one)) size rank
  layout ← check_layout on vmax rank
  mpif_check_mpi (on.comm_free, tt)
