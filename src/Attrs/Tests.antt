-- ===== src/Attrs/Tests.antt =====
-- An attribute of MPI, MPI_APPNUM with the value -1, and one of a user.
use mpif.Prelude.{ℕ, ◌≡◌, ◌≢◌, refl, arith}
use mpif.Abi.{mpi_success}
use mpif.Attrs.{mpif_attr_value, mpi_win_size, attr_value-stored}
use mpif.Attrs.Access.{
  Attributes, mpi_comm_set_attr, mpi_comm_get_attr, mpi_attr_put, mpi_attr_get, Keeps,
  get_attr-set_attr, attr_get-put,
}

abbrev mpi_appnum : ℕ
mpi_appnum = 505

abbrev user_keyval : ℕ
user_keyval = 1000

appnum_test : mpif_attr_value (λ p. 0xffff_ffff) (λ p. 0) mpi_appnum 8 ≡ 0xffff_ffff_ffff_ffff
unfolding mpif_attr_value
appnum_test = refl

user_keyval_ne_win_size : user_keyval ≢ mpi_win_size
user_keyval_ne_win_size e = omega (arith, e)

attr_value-stored_example : mpif_attr_value (λ p. 0xffff_ffff) (λ p. 0) user_keyval 8 ≡ 8
attr_value-stored_example =
    attr_value-stored (λ p. 0xffff_ffff) (λ p. 0) user_keyval 8 refl user_keyval_ne_win_size

-- MPI keeps the last value stored.
abbrev mpi : Attributes ℕ
mpi = record {
  fromint = λ c. c;
  set_attr = λ s object keyval value. (mpi_success, value);
  get_attr = λ s object keyval. record { ierror = mpi_success; flag = 1; value = s };
}

last_kept : Keeps mpi (λ p. 0) (λ p. 0) 1 0
last_kept s object keyval value stored = (refl, refl, refl)

get_attr-set_attr_example :
    (mpi_comm_get_attr mpi (λ p. 0) (λ p. 0) 1 0 0x1_0000_0005 7 user_keyval
      ≡ record { ierror = 0; flag = 1; attribute_val = 0x1_0000_0005 })
    × (mpi_attr_get mpi (λ p. 0) (λ p. 0) 1 0 0x1_0000_0005 7 user_keyval
        ≡ record { ierror = 0; flag = 1; attribute_val = 5 })
unfolding mpi_comm_set_attr
get_attr-set_attr_example =
    get_attr-set_attr mpi (λ p. 0) (λ p. 0) 1 0 last_kept 3 7 user_keyval refl
      user_keyval_ne_win_size 0x1_0000_0005 refl

attr_get-put_test :
    (mpi_attr_get mpi (λ p. 0) (λ p. 0) 1 0 0xffff_ffff_ffff_fffe 7 user_keyval
      ≡ record { ierror = 0; flag = 1; attribute_val = 0xffff_fffe })
    × (mpi_comm_get_attr mpi (λ p. 0) (λ p. 0) 1 0 0xffff_ffff_ffff_fffe 7 user_keyval
        ≡ record { ierror = 0; flag = 1; attribute_val = 0xffff_ffff_ffff_fffe })
unfolding mpi_attr_put
attr_get-put_test =
    attr_get-put mpi (λ p. 0) (λ p. 0) 1 0 last_kept 3 7 user_keyval refl user_keyval_ne_win_size
      0xffff_fffe (omega arith) refl
