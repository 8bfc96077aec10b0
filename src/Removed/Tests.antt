-- ===== src/Removed/Tests.antt =====
-- The removed routines at small inputs.
use mpif.Prelude.{ℕ, ◌+◌, ◌-◌, ◌^◌, ◌≡◌, refl, Option, some, [], ◌∷◌, arith}
use mpif.Prelude.Int.{pos}
use mpif.Machine.{ok, u32}
use mpif.Abi.{mpi_datatype_null}
use mpif.Sentinels.{Cells, mpif_c_cbuffer}
use mpif.Removed.{
  mpi_type_hindexed, mpi_type_struct, mpi_address, mpi_type_extent, mpi_type_lb, mpi_type_ub,
}
use mpif.Removed.Laws.{hindexed_struct-map, address-difference, ub-lb_extent}

hindexed_struct-map_example :
    (mpi_type_hindexed
        (λ t. t + 1)
        (λ t. t)
        (λ n b d t. (0, 600))
        (pos 2)
        (1 ∷ 1 ∷ [])
        (8 ∷ 0xffff_fff8 ∷ [])
        5
      ≡ ok (record { newtype = 601; ierror = 0 }))
    × (mpi_type_struct
          (λ t. t + 1)
          (λ t. t)
          (λ n b d t. (13, 600))
          (pos 2)
          (1 ∷ 1 ∷ [])
          (8 ∷ 0xffff_fff8 ∷ [])
          (5 ∷ 6 ∷ [])
        ≡ ok (record { newtype = mpi_datatype_null; ierror = 13 }))
hindexed_struct-map_example =
    hindexed_struct-map (λ t. t + 1) (λ t. t) (λ n b d t. (0, 600)) (λ n b d t. (13, 600)) (pos 2)
      (1 ∷ 1 ∷ []) (8 ∷ 0xffff_fff8 ∷ []) (5 ∷ 6 ∷ []) 5 (omega arith) (omega arith)

abbrev cells : Cells
cells = record {
  bottom = 1000;
  in_place = 1004;
  buffer_automatic = 1008;
  argv_null = 1012;
  argvs_null = 1016;
  errcodes_ignore = 1020;
  unweighted = 1024;
  weights_empty = 1028;
  status_ignore = 1032;
  statuses_ignore = 1064;
  f08_status_ignore = 1096;
  f08_statuses_ignore = 1128;
}

-- MPI_Get_address of an object is its address; the two are on different sides of 2 ^ 32.
here :
    (let get_address : ℕ → ℕ × Option ℕ = λ p. (0, some p) in
      (get_address (mpif_c_cbuffer cells 0x1_0000_0010)).1)
    ≡ some 0x1_0000_0010
unfolding mpif_c_cbuffer
here = refl

there :
    (let get_address : ℕ → ℕ × Option ℕ = λ p. (0, some p) in
      (get_address (mpif_c_cbuffer cells 0xffff_fff0)).1)
    ≡ some 0xffff_fff0
unfolding mpif_c_cbuffer
there = refl

address-difference_test :
    u32 (
      (mpi_address cells (λ p. (0, some p)) 0x1_0000_0010).0
      + 2 ^ 32
      - (mpi_address cells (λ p. (0, some p)) 0xffff_fff0).0)
    ≡ 0x20
address-difference_test =
    address-difference cells (λ p. (0, some p)) 0x1_0000_0010 0xffff_fff0 0x1_0000_0010 0xffff_fff0
      here there (omega arith) (omega arith)

ub-lb_extent_example :
    ((mpi_type_ub (λ t. t) (λ t. (0, some (4, 8))) 5).0
      ≡ u32 (
          (mpi_type_lb (λ t. t) (λ t. (0, some (4, 8))) 5).0
          + (mpi_type_extent (λ t. t) (λ t. (0, some (4, 8))) 5).0))
    × ((mpi_type_ub (λ t. t) (λ t. (0, some (4, 8))) 5).1
        ≡ (mpi_type_lb (λ t. t) (λ t. (0, some (4, 8))) 5).1)
ub-lb_extent_example = ub-lb_extent (λ t. t) (λ t. (0, some (4, 8))) 5
