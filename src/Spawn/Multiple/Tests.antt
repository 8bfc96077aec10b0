-- ===== src/Spawn/Multiple/Tests.antt =====
-- tests
-- Two commands, with one argument and with none.
use mpif.Fixtures.{cells, roomy}
use mpif.Prelude.{
  ℕ, zero, suc, ◌+◌, ◌*◌, ◌<◌, ◌≡◌, ◌≢◌, refl, true, false, Option, none, some, List, [], ◌∷◌,
  arith, replicate,
}
use mpif.Machine.{ok, Bytes}
use mpif.Strings.{blank}
use mpif.Strings.Length.{trim_end}
use mpif.Strings.Count.{IsFirstBlank, entry}
use mpif.Sentinels.{mpif_is_argvs_null}
use mpif.Abi.{mpi_success}
use mpif.Root.{root_of, at_root}
use mpif.Spawn.Multiple.{Mpi, Call, mpi_comm_spawn_multiple}
use mpif.Spawn.Multiple.Passed.{comm_spawn_multiple-answer}

-- The intercommunicator is 51 if one argument arrives for the first command and none for the second.
abbrev answered : Option (List (List Bytes)) → ℕ
answered (some ((x ∷ []) ∷ [] ∷ [])) = 51
answered _ = 50

abbrev mpi : Mpi
mpi = record {
  comm_fromint = λ c. c + 1000;
  comm_toint = λ c. c + 1;
  info_fromint = λ i. i;
  comm_null = 0;
  info_null = 1;
  comms = record { comm_test_inter = λ c. (mpi_success, false); comm_rank = λ c. (mpi_success, 0) };
  comm_spawn_multiple = λ asked c. (mpi_success, answered asked.argvs);
}

abbrev call : Call
call = record {
  count = 2;
  maxprocs = 4;
  array_of_info = 9 ∷ 9 ∷ [];
  root = 0;
  comm = 1;
  array_of_errcodes = 105;
}

-- "ls" and "a "
abbrev commands : Bytes
commands = b'l' ∷ b's' ∷ b'a' ∷ blank ∷ []

-- Two rows of strings of one character, column by column: "x" and " ", then two blanks.
abbrev args : Bytes
args = b'x' ∷ blank ∷ blank ∷ blank ∷ []

abbrev counts : ℕ → ℕ
counts zero = 1
counts (suc j) = 0

args-IsFirstBlank : (j : ℕ) → j < 2 → IsFirstBlank (λ n. j * 1 + n * 1 * 2) args 1 (counts j)
unfolding trim_end
args-IsFirstBlank zero lt = record { within = λ j h. omega arith; is_blank = refl; others = others }
  where
    others : (j : ℕ) → j < 1 → entry args (0 * 1 + j * 1 * 2) 1 ≢ []
    others zero h e = cc
    others (suc j) h e = omega arith
args-IsFirstBlank (suc zero) lt = record {
  within = λ j h. omega arith;
  is_blank = refl;
  others = λ j h e. omega arith;
}
args-IsFirstBlank (suc (suc j)) lt = absurd (omega arith)

is_root : root_of mpi.comms 1001 0 ≡ at_root true
unfolding root_of
is_root = refl

not_null : mpif_is_argvs_null cells 500 ≡ false
unfolding mpif_is_argvs_null
not_null = refl

-- One string was there before; the copies are freed.
comm_spawn_multiple-answer_example :
    mpi_comm_spawn_multiple cells mpi roomy call commands 2 500 args 1 (some [] ∷ []) []
    ≡ ok record {
      ierror = 0;
      intercomm = some 52;
      strings = some [] ∷ none ∷ none ∷ none ∷ [];
      arrays = none ∷ none ∷ [];
    }
comm_spawn_multiple-answer_example =
    comm_spawn_multiple-answer cells mpi call roomy (λ n. (replicate n 7, refl)) commands 2 500 args
      1 counts (some [] ∷ []) [] is_root not_null (omega arith) args-IsFirstBlank (omega arith)
