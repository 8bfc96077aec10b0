-- ===== src/Strings/Tests.antt =====
-- mpif_strings.c at small inputs.
use mpif.Fixtures.{roomy}
use mpif.Prelude.{ℕ, zero, suc, ◌+◌, ◌*◌, ◌<◌, ◌≡◌, ◌≢◌, refl, [], ◌∷◌, arith, replicate}
use mpif.Machine.{ok, fault, out_of_fuel, ◌>>=◌, Bytes}
use mpif.Strings
use mpif.Strings.{
  blank, mpif_fstrlen, mpif_strdup_f2c, mpif_strdup_f2c_trim, mpif_strcpy_c2f, mpif_fcount,
  mpif_fcount2d,
}
use mpif.Strings.Length.{trim_end, fstrlen-trim_end}
use mpif.Strings.Duplicate.{strdup_f2c-trim_end, strdup_f2c_trim-trim}
use mpif.Strings.Copy.{
  strlen, strcpy_c2f-fortran_string, strcpy_c2f-strdup_f2c, strdup_f2c-strcpy_c2f,
}
use mpif.Strings.Count.{
  IsFirstBlank, fcount-first, fcount2d-first, fcount-ne-out_of_fuel, fcount2d-ne-out_of_fuel,
}

-- " ab  " and what follows it in memory
abbrev text : Bytes
text = blank ∷ b'a' ∷ b'b' ∷ blank ∷ blank ∷ b'x' ∷ []

fstrlen_test : mpif_fstrlen text 5 ≡ ok 3
unfolding mpif_fstrlen
fstrlen_test = refl

trim_test : mpif_strdup_f2c_trim roomy text 5 ≡ ok (b'a' ∷ b'b' ∷ 0 ∷ [])
unfolding mpif_strdup_f2c_trim mpif_fstrlen Strings.skip_blanks
trim_test = refl

fcount_outside : mpif_fcount (b'a' ∷ b'b' ∷ []) 1 ≡ fault
unfolding mpif_fcount mpif_fstrlen
fcount_outside = refl

fstrlen-trim_end_test : mpif_fstrlen text 5 ≡ ok 3
unfolding trim_end
fstrlen-trim_end_test = fstrlen-trim_end text 5 (omega arith)

strdup_f2c-trim_end_example : mpif_strdup_f2c roomy text 5 ≡ ok (blank ∷ b'a' ∷ b'b' ∷ 0 ∷ [])
unfolding trim_end Strings.Duplicate.new_c_string
strdup_f2c-trim_end_example = strdup_f2c-trim_end roomy text 5 (omega arith)

strdup_f2c_trim-trim_example : mpif_strdup_f2c_trim roomy text 5 ≡ ok (b'a' ∷ b'b' ∷ 0 ∷ [])
unfolding trim_end Strings.Length.trim_start Strings.Duplicate.new_c_string
strdup_f2c_trim-trim_example = strdup_f2c_trim-trim roomy text 5 (omega arith)

strcpy_c2f-fortran_string_test :
    mpif_strcpy_c2f (1 ∷ 2 ∷ 3 ∷ 4 ∷ []) (b'a' ∷ 0 ∷ []) 3 1 ≡ ok (b'a' ∷ blank ∷ blank ∷ 4 ∷ [])
unfolding Strings.Copy.fortran_string
strcpy_c2f-fortran_string_test =
    strcpy_c2f-fortran_string (1 ∷ 2 ∷ 3 ∷ 4 ∷ []) (b'a' ∷ 0 ∷ []) 3 1 (omega arith) (omega arith)

strcpy_c2f-strdup_f2c_test :
    (do c ← mpif_strdup_f2c roomy text 5; len ← strlen c; mpif_strcpy_c2f (replicate 6 9) c 5 len)
    ≡ ok (blank ∷ b'a' ∷ b'b' ∷ blank ∷ blank ∷ 9 ∷ [])
strcpy_c2f-strdup_f2c_test =
    strcpy_c2f-strdup_f2c roomy text (replicate 6 9) _ 5 (omega arith) (omega arith) (omega arith)
      refl

strdup_f2c-strcpy_c2f_test :
    (do f ← mpif_strcpy_c2f (replicate 4 9) (b'a' ∷ b'b' ∷ 0 ∷ []) 4 2; mpif_strdup_f2c roomy f 4)
    ≡ ok (b'a' ∷ b'b' ∷ 0 ∷ [])
unfolding trim_end
strdup_f2c-strcpy_c2f_test =
    strdup_f2c-strcpy_c2f roomy (b'a' ∷ b'b' ∷ []) (0 ∷ []) (replicate 4 9) _ 4 (omega arith)
      (omega arith) refl refl

-- two strings of two characters, then a blank one
abbrev args : Bytes
args = b'-' ∷ b'v' ∷ b'x' ∷ blank ∷ blank ∷ blank ∷ []

args-IsFirstBlank : IsFirstBlank (λ n. n * 2) args 2 2
unfolding trim_end
args-IsFirstBlank = record { within = λ j h. omega arith; is_blank = refl; others = others }
  where
    others : (j : ℕ) → j < 2 → Strings.Count.entry args (j * 2) 2 ≢ []
    others zero h e = cc
    others (suc zero) h e = cc
    others (suc (suc j)) h e = omega arith

fcount-first_example : mpif_fcount args 2 ≡ ok 2
fcount-first_example = fcount-first args 2 2 args-IsFirstBlank

-- one row of two, index 1: the second of each pair
args-IsFirstBlank_2d : IsFirstBlank (λ n. 1 * 1 + n * 1 * 2) args 1 1
unfolding trim_end
args-IsFirstBlank_2d = record { within = λ j h. omega arith; is_blank = refl; others = others }
  where
    others : (j : ℕ) → j < 1 → Strings.Count.entry args (1 * 1 + j * 1 * 2) 1 ≢ []
    others zero h e = cc
    others (suc j) h e = omega arith

fcount2d-first_test : mpif_fcount2d args 2 1 1 ≡ ok 1
fcount2d-first_test = fcount2d-first args 2 1 1 1 (omega arith) args-IsFirstBlank_2d

fcount-ne-out_of_fuel_example : mpif_fcount text 1 ≢ out_of_fuel
fcount-ne-out_of_fuel_example = fcount-ne-out_of_fuel text 1

fcount2d-ne-out_of_fuel_test : mpif_fcount2d text 2 0 1 ≢ out_of_fuel
fcount2d-ne-out_of_fuel_test = fcount2d-ne-out_of_fuel text 2 0 1 (omega arith)
