-- ===== src/Check/Setup/Tests.antt =====
-- tests
-- Two processes on one node, of which the first expects one node.
use mpif.Prelude.{
  ℕ, zero, suc, ◌≤◌, ◌<◌, ◌≡◌, ◌≢◌, ◌↔◌, ◌⊎◌, refl, true, false, Option, none, some, List, [], ◌∷◌,
  arith, All,
}
use mpif.Prelude.Int.{ℤ, pos, ◌≤ℤ◌}
use mpif.Machine.{ok, aborted, Bytes}
use mpif.Check.{Version, check_sentinels, report_all}
use mpif.Check.Nodes.{IsHistogram}
use mpif.Check.Environment.{mpif_check_getenv_long, strtol}
use mpif.Check.Together.{nfields, Fields, Calls, int_of, sort_names}
use mpif.Check.Together.Fields.{IsMin, IsMax}
use mpif.Check.Together.World.{Answers, Agreement}
use mpif.Check.Setup.{
  Setup, check_header, check_abi, check_mpi_version, check_library, check_loaded, read_fields,
  check_booleans, check_launched, check_launcher, check_size, fields_of, mpif_check_environment,
}
use mpif.Check.Setup.Launcher.{IsHarmless, check_launcher_iff}
use mpif.Check.Setup.Whole.{IsReady, check_environment-Agreement}

abbrev version : Version
version = record { major = pos 1; minor = pos 2; patch = pos 3 }

abbrev node : Bytes
node = b'a' ∷ []

-- What the first process expects, and the others.
abbrev nodes_expected : ℕ → ℤ
nodes_expected zero = pos 1
nodes_expected (suc p) = pos 0

abbrev nodes_var : ℕ → Option Bytes
nodes_var zero = some (b'1' ∷ [])
nodes_var (suc p) = none

abbrev with_nodes : ℤ → Fields
with_nodes n = fields_of version (pos 5, pos 0) (pos 1, pos 0) n (pos 0)

abbrev local : ℕ → Fields
local p = with_nodes (nodes_expected p)

abbrev both : List Bytes
both = node ∷ node ∷ []

abbrev calls : ℕ → Calls
calls comm = record {
  comm_set_errhandler = 0;
  allreduce_min = λ mine. (0, with_nodes (pos 0));
  allreduce_max = λ mine. (0, with_nodes (pos 1));
  bcast = λ mine. (0, b'V' ∷ []);
  sendrecv = λ token right left. (0, left);
  reduce_sum = λ one. (0, 2);
  get_processor_name = (0, node);
  has_memory = true;
  gather = λ mine. (0, both);
  comm_free = 0;
}

abbrev setups : ℕ → Setup
setups p = record {
  library = version;
  header = version;
  cells = [];
  reports = [];
  built_abi = (pos 1, pos 0);
  built_mpi = (pos 5, pos 0);
  logical_true = 1;
  logical_false = 0;
  abi_get_version = (0, (pos 1, pos 0));
  get_version = (0, (pos 5, pos 0));
  get_library_version = (0, b'V' ∷ []);
  initialized = (0, true);
  finalized = (0, false);
  abi_get_fortran_booleans = (0, record { lib_true = 0; lib_false = 0; booleans_set = false });
  comm_size = (0, 2);
  comm_rank = (0, p);
  comm_dup = (0, 77);
  calls = calls;
  mpif_mpi_library = none;
  launcher_vars = none ∷ [];
  mpif_size = none;
  mpif_num_nodes = nodes_var p;
  mpif_node_size = none;
}

abbrev libver : ℕ → Bytes
libver p = b'V' ∷ []

abbrev comm : ℕ → ℕ
comm p = 77

ready : (p : ℕ) → p < 2 → IsReady 2 setups local libver comm p
unfolding check_header check_abi check_mpi_version check_library check_loaded check_sentinels
    report_all read_fields mpif_check_getenv_long strtol check_booleans check_launched
    check_launcher check_size
ready zero lt = record {
  abi = (pos 1, pos 0);
  version = (pos 5, pos 0);
  booleans = record { lib_true = 0; lib_false = 0; booleans_set = false };
  loaded = refl;
  initialized = refl;
  finalized = refl;
  has_booleans = refl;
  same_values = refl;
  size = refl;
  rank = refl;
  launcher = refl;
  expected = refl;
  fields = refl;
  duplicate = refl;
}
ready (suc p) lt = record {
  abi = (pos 1, pos 0);
  version = (pos 5, pos 0);
  booleans = record { lib_true = 0; lib_false = 0; booleans_set = false };
  loaded = refl;
  initialized = refl;
  finalized = refl;
  has_booleans = refl;
  same_values = refl;
  size = refl;
  rank = refl;
  launcher = refl;
  expected = refl;
  fields = refl;
  duplicate = refl;
}

≤ℤ_refl : (a : ℤ) → a ≤ℤ a
≤ℤ_refl a = omega arith

fewer : (i : ℕ) → with_nodes (pos 0) i ≤ℤ with_nodes (pos 1) i
unfolding int_of
fewer i = ground arith

smallest : (i : ℕ) → i < nfields → IsMin 2 (λ p. local p i) (with_nodes (pos 0) i)
smallest i lt = record {
  bound = λ p p_lt. elim p as (λ k. with_nodes (pos 0) i ≤ℤ local k i) [
    | zero ↦ fewer i
    | suc q ↦ ≤ℤ_refl (with_nodes (pos 0) i)
  ];
  attained = (1, omega arith, refl);
}

largest : (i : ℕ) → i < nfields → IsMax 2 (λ p. local p i) (with_nodes (pos 1) i)
largest i lt = record {
  bound = λ p p_lt. elim p as (λ k. local k i ≤ℤ with_nodes (pos 1) i) [
    | zero ↦ ≤ℤ_refl (with_nodes (pos 1) i)
    | suc q ↦ fewer i
  ];
  attained = (0, omega arith, refl);
}

answers :
    (p : ℕ)
    → p < 2
    → Answers 2 local libver comm
        (λ p. calls)
        (with_nodes (pos 0))
        (with_nodes (pos 1))
        (λ q. node)
        p
answers p lt = record {
  handler = refl;
  smallest = refl;
  largest = refl;
  root_string = refl;
  sum = (2, refl, λ root. refl);
  named = refl;
  memory = refl;
  gathered = (both, refl, λ root. refl);
  freed = refl;
}

stated : (p i : ℕ) → p < 2 → 7 ≤ i → i < nfields → pos 0 ≤ℤ local p i
unfolding int_of
stated zero i p_lt ge lt = ground arith
stated (suc p) i p_lt ge lt = ground arith

check_environment-Agreement_example :
    (nodes : List (Bytes × ℕ)) × IsHistogram (sort_names (node ∷ node ∷ [])) nodes
    × (((p : ℕ) → p < 2 → mpif_check_environment (setups p) ≡ ok tt)
        ↔ Agreement 2 local libver comm
            (λ p. calls)
            (with_nodes (pos 0))
            (with_nodes (pos 1))
            (λ q. node)
            nodes)
check_environment-Agreement_example =
    check_environment-Agreement 2 setups local libver comm ready (with_nodes (pos 0))
      (with_nodes (pos 1)) (λ q. node) (λ p q to p_lt q_lt sent. refl) smallest largest stated
      answers (omega arith)

-- A process alone whose launcher started four.
alone_of_four : check_launcher (none ∷ some (b'4' ∷ []) ∷ []) 1 ≡ aborted
unfolding check_launcher check_launched mpif_check_getenv_long strtol
alone_of_four = refl

abbrev alone : ℕ
alone = 1

abbrev vars : List (Option Bytes)
vars = none ∷ some (b'1' ∷ []) ∷ none ∷ some [] ∷ []

check_launcher_iff_example :
    (check_launcher vars alone ≡ ok tt) ↔ ((alone ≢ 1) ⊎ All IsHarmless vars)
check_launcher_iff_example = check_launcher_iff vars alone
