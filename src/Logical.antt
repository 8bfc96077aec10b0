-- ===== src/Logical.antt =====
-- src/mpif_logical.c: Fortran's logical values. The bit patterns come from common blocks that
-- src/mpif_logical.F90 fills, so they are the parameters of this module.
mod Tests
use mpif.Prelude.{ℕ, ◌≡◌, ◌≢◌, Bool, true, false, not, arith, ◌==◌, if◌then◌else◌, ==_refl}

module _ (mpif_logical_true mpif_logical_false : ℕ) where
  -- `value` is an `int` that is tested for being zero.
  unfoldable pub mpif_bool2logical : ℕ → ℕ
  mpif_bool2logical value = if value == 0 then mpif_logical_false else mpif_logical_true

  unfoldable pub mpif_logical2bool : ℕ → ℕ
  mpif_logical2bool value = if value == mpif_logical_false then 0 else 1

  -- If .TRUE. and .FALSE. differ, a C truth value goes to Fortran and back as 0 or 1, and any Fortran
  -- value but .FALSE. counts as true.
  pub logical2bool-bool2logical :
      (value : ℕ)
      → mpif_logical_true ≢ mpif_logical_false
      → (mpif_logical2bool (mpif_bool2logical value) ≡ (if value == 0 then 0 else 1))
        × (mpif_bool2logical (mpif_logical2bool value)
            ≡ (if value == mpif_logical_false then mpif_logical_false else mpif_logical_true))
  unfolding mpif_bool2logical mpif_logical2bool
  logical2bool-bool2logical value distinct = (ground arith, ground arith)
