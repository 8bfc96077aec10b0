-- ===== src/Info/Tests.antt =====
-- A value that MPI cuts to one character.
use mpif.Fixtures.{roomy, roomy_lengths}
use mpif.Prelude.{
  zero, suc, ◌≡◌, ◌∙◌, refl, not, ◌&&◌, none, some, [], ◌∷◌, ◌++◌, ◌==◌, if◌then◌else◌, arith,
  replicate, ◌-◌, ◌^◌, set, get_elem?-set_ne, drop,
}
use mpif.Prelude.Int.{ℤ, pos, negsuc}
use mpif.Machine.{Returns, Bytes, ok, fault}
use mpif.Strings.{blank}
use mpif.Strings.Copy.{fortran_string}
use mpif.Spawn.CString.{c_string}
use mpif.Info.{Stack, Written, logical, c_buflen_of, without_nul, is_positive, mpi_info_get_string}
use mpif.Info.Copied.{room_told, before_nul, WritesWithin, info_get_string-fortran_string}

abbrev stack : Stack
stack = record { array = λ n. some (replicate n 7); length-array = roomy_lengths }

-- MPI's value is "ok", of which it writes as much as there is room for.
abbrev write_value : ℤ → Bytes → Bytes
write_value (negsuc n) b = b
write_value (pos zero) b = b
write_value (pos (suc zero)) b = set b 0 0
write_value (pos (suc (suc n))) b = set (set b 0 b'o') 1 0

abbrev info_get_string : Bytes → ℤ → Bytes → Written
info_get_string key c b = record { ierror = 0; buflen = pos 3; value = write_value c b; flag = 1 }

get_string-WritesWithin : WritesWithin info_get_string
get_string-WritesWithin k zero b i le = refl
get_string-WritesWithin k (suc zero) b i le = get_elem?-set_ne b 0 i 0 (λ e. omega arith)
get_string-WritesWithin k (suc (suc n)) b i le =
    get_elem?-set_ne (set b 0 b'o') 1 i 0 (λ e. omega arith)
    ∙ get_elem?-set_ne b 0 i b'o' (λ e. omega arith)

-- The variable has four characters, of which the caller gives one, and is followed by a byte.
abbrev value : Bytes
value = b'w' ∷ b'x' ∷ b'y' ∷ b'z' ∷ 9 ∷ []

abbrev key : Bytes
key = b'k' ∷ blank ∷ []

info_get_string-fortran_string_example :
    Returns
      (λ r.
        (c_value : Bytes) × (let done =
            info_get_string (c_string key 2) (room_told (pos 1) 4) c_value in
          (r.strings ≡ none ∷ [])
          × (r.ierror ≡ done.ierror)
          × (r.flag ≡ logical roomy stack 1 0 done.flag)
          × (r.buflen ≡ (if not (done.flag == 0) then without_nul done.buflen else pos 1))
          × (r.value ≡ (
              if not (done.flag == 0) && is_positive (pos 1)
              then fortran_string 4 (before_nul done.value) ++ drop 4 value
              else value))))
      (mpi_info_get_string roomy stack 1 0 info_get_string [] key 2 (pos 1) value 4)
info_get_string-fortran_string_example =
    info_get_string-fortran_string roomy (λ n. (replicate n 7, refl)) stack 1 0 info_get_string
      get_string-WritesWithin [] key 2 (pos 1) value 4 (replicate 6 7) (omega arith) (omega arith)
      (omega arith) (omega arith) refl

-- A caller with the largest `int` of a variable that is as long: the sum with the NUL overflows.
c_buflen_of_test : c_buflen_of (pos (2 ^ 31 - 1)) (2 ^ 31 - 1) ≡ fault
unfolding c_buflen_of
c_buflen_of_test = refl

-- One character less is not too long, and neither is a variable that is shorter.
c_buflen_of_fits_test : c_buflen_of (pos (2 ^ 31 - 2)) (2 ^ 31 - 1) ≡ ok (pos (2 ^ 31 - 1))
unfolding c_buflen_of
c_buflen_of_fits_test = refl

c_buflen_of_cut_test : c_buflen_of (pos (2 ^ 31 - 1)) 20 ≡ ok (pos 21)
unfolding c_buflen_of
c_buflen_of_cut_test = refl
