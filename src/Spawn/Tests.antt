-- ===== src/Spawn/Tests.antt =====
-- mpi_comm_spawn_ on a command with two arguments.
use mpif.Fixtures.{cells, roomy}
use mpif.Prelude.{
  ℕ, zero, suc, ◌+◌, ◌*◌, ◌<◌, ◌≡◌, ◌≢◌, refl, true, false, Option, none, some, List, [], ◌∷◌,
  arith, replicate,
}
use mpif.Machine.{ok, Bytes}
use mpif.Strings.{blank}
use mpif.Strings.Length.{trim_end}
use mpif.Strings.Count.{IsFirstBlank, entry}
use mpif.Sentinels.{mpif_is_argv_null}
use mpif.Abi.{mpi_success}
use mpif.Root.{root_of, at_root}
use mpif.Spawn.{Mpi, Call, mpi_comm_spawn}
use mpif.Spawn.Arguments.{comm_spawn-answer, comm_spawn_elsewhere}

-- The intercommunicator is 41 if two arguments arrive, and 40 otherwise.
abbrev answered : Option (List Bytes) → ℕ
answered (some (x ∷ y ∷ [])) = 41
answered _ = 40

-- This process is of rank 0.
abbrev mpi : Mpi
mpi = record {
  comm_fromint = λ c. c + 1000;
  comm_toint = λ c. c + 1;
  info_fromint = λ i. i;
  comm_null = 0;
  info_null = 1;
  comms = record { comm_test_inter = λ c. (mpi_success, false); comm_rank = λ c. (mpi_success, 0) };
  comm_spawn = λ asked c. (mpi_success, answered asked.argv);
}

abbrev call : ℕ → Call
call root = record { maxprocs = 4; info = 9; root = root; comm = 1; array_of_errcodes = 105 }

-- " ls "
abbrev command : Bytes
command = blank ∷ b'l' ∷ b's' ∷ blank ∷ []

-- two strings of two characters, then a blank one
abbrev args : Bytes
args = b'-' ∷ b'v' ∷ b'x' ∷ blank ∷ blank ∷ blank ∷ []

args-IsFirstBlank : IsFirstBlank (λ n. n * 2) args 2 2
unfolding trim_end
args-IsFirstBlank = record { within = λ j h. omega arith; is_blank = refl; others = others }
  where
    others : (j : ℕ) → j < 2 → entry args (j * 2) 2 ≢ []
    others zero h e = cc
    others (suc zero) h e = cc
    others (suc (suc j)) h e = omega arith

is_root : root_of mpi.comms 1001 0 ≡ at_root true
unfolding root_of
is_root = refl

is_not_root : root_of mpi.comms 1001 2 ≡ at_root false
unfolding root_of
is_not_root = refl

not_null : mpif_is_argv_null cells 500 ≡ false
unfolding mpif_is_argv_null
not_null = refl

-- One string was there before; the three copies are freed.
comm_spawn-answer_example :
    mpi_comm_spawn cells mpi roomy (call 0) command 4 500 args 2 (some [] ∷ [])
    ≡ ok record { ierror = 0; intercomm = some 42; strings = some [] ∷ none ∷ none ∷ none ∷ [] }
comm_spawn-answer_example =
    comm_spawn-answer cells mpi roomy (call 0) (λ n. (replicate n 7, refl)) command 4 500 args 2 2
      (some [] ∷ []) is_root not_null (omega arith) args-IsFirstBlank

comm_spawn_elsewhere_test :
    mpi_comm_spawn cells mpi roomy (call 2) command 4 500 args 2 (some [] ∷ [])
    ≡ ok record { ierror = 0; intercomm = some 41; strings = some [] ∷ [] }
unfolding mpif_is_argv_null
comm_spawn_elsewhere_test =
    comm_spawn_elsewhere cells mpi roomy (call 2) command 4 500 args 2 (some [] ∷ []) is_not_root
