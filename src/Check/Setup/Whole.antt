-- ===== src/Check/Setup/Whole.antt =====
-- mpif_check_environment in all processes.
use mpif.Prelude.{map, count_up, ℕ, ◌≤◌, ◌<◌, ◌≡◌, ◌↔◌, refl, ◌∙◌, sym, true, false, List}
use mpif.Prelude.Int.{ℤ, pos, ◌≤ℤ◌}
use mpif.Machine.{ok, Bytes}
use mpif.Abi.{mpi_success}
use mpif.Check.Nodes.{IsHistogram}
use mpif.Check.Together.{nfields, Fields, sort_names, check_together}
use mpif.Check.Together.Fields.{IsMin, IsMax}
use mpif.Check.Together.Ring.{Delivers}
use mpif.Check.Together.World.{Answers, Agreement, sendrecv, check_together-Agree}
use mpif.Check.Setup.{
  Setup, Booleans, check_loaded, read_fields, check_booleans, check_launcher, check_size,
  check_running, mpif_check_environment,
}

-- `n` processes with their setups, and what they read: fields, version strings and communicators.
module _ (n : ℕ) (setups : ℕ → Setup) (local : ℕ → Fields) (libver : ℕ → Bytes) (comm : ℕ → ℕ) where
  -- Process `p` is between MPI_Init and MPI_Finalize, and passes the checks that it makes by itself.
  pub record IsReady (p : ℕ) : Type 0 where
    pub abi : ℤ × ℤ
    pub version : ℤ × ℤ
    pub booleans : Booleans
    pub loaded : check_loaded (setups p) ≡ ok (abi, version, libver p)
    pub initialized : (setups p).initialized ≡ (mpi_success, true)
    pub finalized : (setups p).finalized ≡ (mpi_success, false)
    pub has_booleans : (setups p).abi_get_fortran_booleans ≡ (mpi_success, booleans)
    pub same_values :
        check_booleans (setups p).logical_true (setups p).logical_false booleans ≡ ok tt
    pub size : (setups p).comm_size ≡ (mpi_success, n)
    pub rank : (setups p).comm_rank ≡ (mpi_success, p)
    pub launcher : check_launcher (setups p).launcher_vars n ≡ ok tt
    pub expected : check_size (setups p).mpif_size n ≡ ok tt
    pub fields : read_fields (setups p) version abi ≡ ok (local p)
    pub duplicate : (setups p).comm_dup ≡ (mpi_success, comm p)

  IsReady-together :
      (p : ℕ)
      → IsReady p
      → mpif_check_environment (setups p)
        ≡ check_together (mpi_success, comm p) (setups p).calls n p (ok (local p)) (libver p)
  unfolding mpif_check_environment check_running
  IsReady-together p ready =
      rw
        (
          ready.loaded, ready.fields, ready.initialized, ready.finalized, ready.has_booleans,
          ready.same_values, ready.size, ready.rank, ready.launcher, ready.expected,
          ready.duplicate, mpif_check_environment, check_running,
        )
        refl

  module _ (ready : (p : ℕ) → p < n → IsReady p) (vmin vmax : Fields) (name : ℕ → Bytes)
      (ring : Delivers n (sendrecv n local libver comm (λ p. (setups p).calls) vmin vmax name))
      (smallest : (i : ℕ) → i < nfields → IsMin n (λ p. local p i) (vmin i))
      (largest : (i : ℕ) → i < nfields → IsMax n (λ p. local p i) (vmax i))
      (stated : (p i : ℕ) → p < n → 7 ≤ i → i < nfields → pos 0 ≤ℤ local p i)
      (answers : (p : ℕ)
        → p < n
        → Answers n local libver comm (λ p. (setups p).calls) vmin vmax name p)
      (some_ : 0 < n) where
    -- Where every process passes the checks that it makes by itself, MPI answers as documented and
    -- delivers every message, and no expectation is negative: mpif_check_environment returns in all
    -- processes just if the processes agree. That is, their versions are the same; those that state
    -- an expectation on the nodes state the same one; the version strings are that of process 0; and
    -- the nodes, which are the histogram of all names, are as many and as large as is expected.
    pub check_environment-Agreement :
        (nodes : List (Bytes × ℕ)) × IsHistogram (sort_names (map name (count_up 0 n))) nodes
        × (((p : ℕ) → p < n → mpif_check_environment (setups p) ≡ ok tt)
            ↔ Agreement n local libver comm (λ p. (setups p).calls) vmin vmax name nodes)
    check_environment-Agreement =
        let (nodes, histogram, (to, from)) =
          check_together-Agree n local libver comm (λ p. (setups p).calls) vmin vmax name ring
            smallest largest stated answers some_ in
        (
          nodes,
          histogram,
          (
            λ all. to (λ p lt. sym (IsReady-together p (ready p lt)) ∙ all p lt),
            λ agreement p lt. IsReady-together p (ready p lt) ∙ from agreement p lt,
          ),
        )
