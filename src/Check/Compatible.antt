-- ===== src/Check/Compatible.antt =====
-- mpif_check_version: which callers a library accepts.
use mpif.Prelude.{◌≡◌, ◌⊎◌, inl, inr, ◌↔◌, refl, Bool, true, false, not, arith}
use mpif.Prelude.Int.{eqb_ℤ, ◌<ℤ◌, ◌≤ℤ◌}
use mpif.Machine.{ok, aborted, ◌>>◌}
use mpif.Check.{Version, fail_if, mpif_check_version}

-- The library has the caller's major version, and is not older in (minor, patch).
abbrev pub IsCompatible : Version → Version → Type 0
IsCompatible library caller =
    (caller.major ≡ library.major)
    × ((caller.minor <ℤ library.minor)
        ⊎ ((caller.minor ≡ library.minor) × (caller.patch ≤ℤ library.patch)))

two_checks :
    (a b : Bool) → ((fail_if a >> fail_if b) ≡ ok tt) ⊎ ((fail_if a >> fail_if b) ≡ aborted)
two_checks true b = inr refl
two_checks false true = inr refl
two_checks false false = inl refl

-- A caller is accepted just if the library is compatible with it: the majors are equal, and the
-- library's (minor, patch) is not before the caller's. Every other caller ends the process.
pub check_version_iff :
    (library caller : Version)
    → ((mpif_check_version library caller ≡ ok tt) ↔ IsCompatible library caller)
      × ((mpif_check_version library caller ≡ ok tt)
          ⊎ (mpif_check_version library caller ≡ aborted))
unfolding mpif_check_version
check_version_iff library caller =
    ((λ h. ground arith, λ h. ground arith), two_checks (not (eqb_ℤ caller.major library.major)) _)
