-- ===== src/Root.antt =====
-- gen/mpif_functions.c and gen/mpif_f08_cdesc.c: the block of a wrapper whose arguments count at the
-- root alone, which asks MPI whether this process is the root. The routines asked are parameters.
use mpif.Prelude.{ℕ, Bool, not, ◌==◌, if◌then◌else◌}
use mpif.Abi.{mpi_success, mpi_root}

-- PMPI_Comm_test_inter and PMPI_Comm_rank: an error code and the answer.
pub record Comms : Type 0 where
  pub comm_test_inter : ℕ → ℕ × Bool
  pub comm_rank : ℕ → ℕ × ℕ

-- `q_at_root`, or the error of the routine that was asked.
pub data Root : Type 0 where
  error : ℕ → Root
  at_root : Bool → Root

unfoldable pub root_of : Comms → ℕ → ℕ → Root
root_of mpi q_comm root =
    let (q_ierror, q_inter) = mpi.comm_test_inter q_comm in
    let (r_ierror, q_comm_rank) = mpi.comm_rank q_comm in
    if not (q_ierror == mpi_success)
    then error q_ierror
    else (if q_inter
        then at_root (root == mpi_root)
        else (if not (r_ierror == mpi_success)
            then error r_ierror
            else at_root (q_comm_rank == root)))
