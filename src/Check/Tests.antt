-- ===== src/Check/Tests.antt =====
-- The checks at small inputs.
use mpif.Prelude.{
  some, none, ◌≢◌, ℕ, ◌≤◌, ◌≡◌, ◌↔◌, ◌⊎◌, refl, true, List, [], ◌∷◌, All, arith, length, ◌&&◌, ◌||◌,
  ◌==◌, if◌then◌else◌,
}
use mpif.Prelude.Int.{pos}
use mpif.Machine.{ok, aborted, Bytes}
use mpif.Check.Environment
use mpif.Check.{
  Version, Cell, Report, mpif_check_version, check_sentinels, mpif_check_contains, check_nodes,
}
use mpif.Check.Compatible.{IsCompatible, check_version_iff}
use mpif.Check.Sentinel.{Agrees, check_sentinels_iff}
use mpif.Check.Contains.{IsFound, check_contains_iff}
use mpif.Check.Environment.{
  mpif_check_getenv_long, expectation, IsNumber, check_getenv_long_iff, expectation-pos,
}
use mpif.Check.Nodes.{IsHistogram, sizes_ok, check_nodes-IsHistogram}

abbrev library : Version
library = record { major = pos 1; minor = pos 2; patch = pos 0 }

abbrev newer : Version
newer = record { major = pos 1; minor = pos 3; patch = pos 0 }

newer_refused : mpif_check_version library newer ≡ aborted
unfolding mpif_check_version
newer_refused = refl

check_version_iff_test :
    ((mpif_check_version library newer ≡ ok tt) ↔ IsCompatible library newer)
    × ((mpif_check_version library newer ≡ ok tt) ⊎ (mpif_check_version library newer ≡ aborted))
check_version_iff_test = check_version_iff library newer

abbrev cells : List Cell
cells = record { cell = 100; bytes = 4 } ∷ record { cell = 200; bytes = 32 } ∷ []

-- The first sentinel twice, and the second never.
abbrev reports : List Report
reports =
    record { index = 1; address = 100; bytes = 4 }
    ∷ record { index = 1; address = 100; bytes = 4 }
    ∷ []

check_sentinels_iff_example :
    (check_sentinels cells reports ≡ ok tt)
    ↔ (All (Agrees cells) reports × (length reports ≡ length cells))
check_sentinels_iff_example = check_sentinels_iff cells reports

check_contains_iff_example :
    (mpif_check_contains (b'M' ∷ b'P' ∷ b'I' ∷ b'C' ∷ b'H' ∷ []) (b'p' ∷ b'i' ∷ []) ≡ true)
    ↔ IsFound (b'M' ∷ b'P' ∷ b'I' ∷ b'C' ∷ b'H' ∷ []) (b'p' ∷ b'i' ∷ [])
check_contains_iff_example =
    check_contains_iff (b'M' ∷ b'P' ∷ b'I' ∷ b'C' ∷ b'H' ∷ []) (b'p' ∷ b'i' ∷ [])

-- The order of names of one letter, and equality otherwise.
abbrev Before : Bytes → Bytes → Type 0
Before (x ∷ []) (y ∷ []) = x ≤ y
Before xs ys = xs ≡ ys

Before-antisymmetric : (x y : Bytes) → Before x y → Before y x → x ≡ y
Before-antisymmetric (x ∷ []) (y ∷ []) le ge = (λ i. e i ∷ [])
  where
    e : x ≡ y
    e = omega arith
Before-antisymmetric [] y le ge = le
Before-antisymmetric (x ∷ z ∷ xs) y le ge = le
Before-antisymmetric (x ∷ []) [] le ge = le
Before-antisymmetric (x ∷ []) (y ∷ z ∷ ys) le ge = le

-- two processes on one node and one on another
abbrev names : List Bytes
names = (b'a' ∷ []) ∷ (b'a' ∷ []) ∷ (b'b' ∷ []) ∷ []

check_nodes-IsHistogram_example :
    (nodes : List (Bytes × ℕ)) × IsHistogram names nodes
    × (check_nodes 2 0 names
        ≡ (if sizes_ok 0 nodes && (2 == 0 || length nodes == 2) then ok tt else aborted))
check_nodes-IsHistogram_example =
    check_nodes-IsHistogram Before Before-antisymmetric 2 0 names
      ((omega arith, (omega arith, tt)), ((omega arith, tt), (tt, tt)))

-- "12a" ends the process.
malformed : mpif_check_getenv_long (some (b'1' ∷ b'2' ∷ b'a' ∷ [])) ≡ aborted
unfolding mpif_check_getenv_long Environment.strtol Environment.digits_value
malformed = refl

check_getenv_long_iff_example :
    ((mpif_check_getenv_long (some (b' ' ∷ b'4' ∷ [])) ≡ ok (some (pos 4)))
      ↔ IsNumber (b' ' ∷ b'4' ∷ []) (pos 4))
    × (mpif_check_getenv_long (some (b' ' ∷ b'4' ∷ [])) ≢ ok none)
check_getenv_long_iff_example = check_getenv_long_iff b' ' (b'4' ∷ []) (pos 4)

expectation-pos_test : (expectation (pos 4) ≡ 4) × (expectation (pos 0x1_0000_0000) ≡ 0)
expectation-pos_test = expectation-pos 4 1 (omega arith)
