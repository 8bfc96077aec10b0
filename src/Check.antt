-- ===== src/Check.antt =====
-- src/mpif_check.c: the checks of the running setup. A check that fails ends the process, which is
-- `aborted`; the messages are not modelled. Here stand the checks on values; what a process reads from
-- MPI and the environment is in Setup, and what the processes do together in Together. Strings are
-- bytes without their terminator.
pub mod Compatible
pub mod Sentinel
pub mod Contains
pub mod Nodes
pub mod Environment
pub mod Together
pub mod Setup
mod Tests
use mpif.Prelude.{
  ℕ, zero, suc, ◌+◌, ◌≡◌, Bool, true, false, not, ◌&&◌, ◌||◌, List, [], ◌∷◌, ltb, leb, ◌==◌,
  if◌then◌else◌, length, drop, Option, none, some, get_elem?, take,
}
use mpif.Prelude.Int.{ℤ, pos, negsuc, ltb_ℤ, eqb_ℤ}
use mpif.Machine.{Run, ok, fault, aborted, out_of_fuel, ◌>>=◌, ◌>>◌, Bytes}

-- `if (condition) mpif_check_fail(…);`
abbrev pub fail_if : Bool → Run (Unit {0})
fail_if condition = if condition then aborted else ok tt

pub record Version : Type 0 where
  pub major : ℤ
  pub minor : ℤ
  pub patch : ℤ

-- `library` is the version that the library was built as.
unfoldable pub mpif_check_version : Version → Version → Run (Unit {0})
mpif_check_version library caller =
    fail_if (not (eqb_ℤ caller.major library.major))
    >> fail_if (
        ltb_ℤ library.minor caller.minor
        || (eqb_ℤ library.minor caller.minor && ltb_ℤ library.patch caller.patch))

-- An entry of `mpif_sentinel_cells`, without its name, and what Fortran reports of a sentinel.
pub record Cell : Type 0 where
  pub cell : ℕ
  pub bytes : ℕ

pub record Report : Type 0 where
  pub index : ℕ
  pub address : ℕ
  pub bytes : ℕ

-- `reported` is the count so far, and the result the next.
unfoldable pub mpif_check_sentinel : List Cell → ℕ → Report → Run ℕ
mpif_check_sentinel cells reported r =
    fail_if (ltb r.index 1 || ltb (length cells) r.index) >> elim (get_elem? cells (pred r.index)) [
      | none ↦ fault
      | some c ↦
          fail_if (not (r.address == c.cell))
          >> fail_if (not (r.bytes == c.bytes))
          >> ok (suc reported)
    ]
  where
    pred : ℕ → ℕ
    pred zero = 0
    pred (suc n) = n

-- The calls of the two Fortran reporters, in order.
unfoldable pub report_all : List Cell → ℕ → List Report → Run ℕ
unfolding mpif_check_sentinel
report_all cells reported [] = ok reported
report_all cells reported (r ∷ reports) =
    mpif_check_sentinel cells reported r >>= λ n. report_all cells n reports

-- The count is reset, the sentinels are reported, and the count is tested.
unfoldable pub check_sentinels : List Cell → List Report → Run (Unit {0})
unfolding report_all
check_sentinels cells reports =
    report_all cells 0 reports >>= λ n. fail_if (not (n == length cells))

-- `tolower` in the C locale
abbrev pub tolower : ℕ → ℕ
tolower c = if leb b'A' c && leb c b'Z' then c + 32 else c

-- The inner loop: the needle's bytes against those of the haystack from an index on.
unfoldable pub matches_here : Bytes → Bytes → Bool
matches_here haystack [] = true
matches_here [] (n ∷ needle) = false
matches_here (h ∷ haystack) (n ∷ needle) = tolower h == tolower n && matches_here haystack needle

-- The outer loop, over the haystack from `i` on; the test `i + nlen <= hlen` is made on what is left.
unfoldable pub contains_from : Bytes → Bytes → Bool
unfolding matches_here
contains_from [] needle = leb (length needle) 0 && matches_here [] needle
contains_from (h ∷ haystack) needle =
    let rest = contains_from haystack needle in
    if leb (length needle) (length (h ∷ haystack))
    then (if matches_here (h ∷ haystack) needle then true else rest)
    else false

unfoldable pub mpif_check_contains : Bytes → Bytes → Bool
unfolding contains_from
mpif_check_contains haystack needle = contains_from haystack needle

-- `strcmp(a, b) == 0`
unfoldable pub same_name : Bytes → Bytes → Bool
same_name [] [] = true
same_name (x ∷ xs) (y ∷ ys) = x == y && same_name xs ys
same_name [] (y ∷ ys) = false
same_name (x ∷ xs) [] = false

-- The inner loop of the walk over the sorted names: how many in a row are `node`.
unfoldable pub node_size : Bytes → List Bytes → ℕ
unfolding same_name
node_size node [] = 0
node_size node (x ∷ names) = if same_name x node then suc (node_size node names) else 0

-- The outer loop, with fuel; each node has its name and its size. An expected size of 0 is none.
unfoldable pub walk_nodes : ℕ → ℕ → List Bytes → Run (List (Bytes × ℕ))
unfolding node_size
walk_nodes fuel expected_size [] = ok []
walk_nodes zero expected_size (node ∷ names) = out_of_fuel
walk_nodes (suc fuel) expected_size (node ∷ names) =
    let n = node_size node (node ∷ names) in
    let rest = walk_nodes fuel expected_size (drop n (node ∷ names)) in
    fail_if (ltb 0 expected_size && not (n == expected_size)) >>= λ _.
    rest >>= λ nodes. ok ((node, n) ∷ nodes)

-- The checks of the root, on the sorted names of all processes.
unfoldable pub check_nodes : ℕ → ℕ → List Bytes → Run (Unit {0})
unfolding walk_nodes
check_nodes num_nodes expected_size names =
    walk_nodes (length names) expected_size names >>= λ nodes.
    fail_if (ltb 0 num_nodes && not (length nodes == num_nodes))
