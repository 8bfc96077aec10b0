-- ===== src/Logical/Tests.antt =====
-- The logical values of a compiler whose .TRUE. is 1.
use mpif.Prelude.{ℕ, ◌≡◌, ◌≢◌}
use mpif.Logical.{mpif_bool2logical, mpif_logical2bool, logical2bool-bool2logical}

abbrev true_bits : ℕ
true_bits = 1

abbrev value : ℕ
value = 5

true_bits_ne_zero : true_bits ≢ 0
true_bits_ne_zero e = cc

logical2bool-bool2logical_example :
    (mpif_logical2bool true_bits 0 (mpif_bool2logical true_bits 0 value) ≡ 1)
    × (mpif_bool2logical true_bits 0 (mpif_logical2bool true_bits 0 value) ≡ true_bits)
logical2bool-bool2logical_example = logical2bool-bool2logical true_bits 0 value true_bits_ne_zero
