-- ===== src/Removed/Laws.antt =====
-- What survives the cut of MPI-1's addresses to default integers.
use mpif.Prelude.{
  ℕ, zero, suc, ◌+◌, ◌-◌, ◌^◌, ◌≤◌, ◌<◌, ◌≡◌, refl, ap, Option, none, some, ◌∷◌, map, ltb,
  if◌then◌else◌, arith, length, take, drop, get_elem?-some, take-drop-cons,
}
use mpif.Prelude.Int.{ℤ, pos, sub_ℕ, pos_part}
use mpif.Machine.{ok, ◌>>=◌, u32, u64, sign_extend}
use mpif.Sentinels.{Cells, mpif_c_cbuffer}
use mpif.Removed.{
  Integers, convert, newtype_on_success, mpi_type_hindexed, mpi_type_struct, mpi_address,
  mpi_type_extent, mpi_type_lb, mpi_type_ub, mpi_errhandler_set, mpi_errhandler_get,
}
use mpif.Abi.{mpi_success}

-- The integers that bit patterns stand for, in two's complement.
abbrev pub int32 : ℕ → ℤ
int32 x = if ltb x (2 ^ 31) then pos x else sub_ℕ x (2 ^ 32)

abbrev pub int64 : ℕ → ℤ
int64 x = if ltb x (2 ^ 63) then pos x else sub_ℕ x (2 ^ 64)

-- Widening a default integer keeps the integer that it stands for, and cutting it again gives the
-- same pattern.
pub int64-sign_extend :
    (x : ℕ) → x < 2 ^ 32 → (int64 (sign_extend x) ≡ int32 x) × (u32 (sign_extend x) ≡ x)
int64-sign_extend x h = (ground arith, ground arith)

-- The loop is a map, as long as the array has so many elements.
convert-map :
    (f : ℕ → ℕ) (array : Integers) (i n : ℕ)
    → i + n ≤ length array
    → convert f array i n ≡ ok (map f (take n (drop i array)))
unfolding convert
convert-map f array i zero h = refl
convert-map f array i (suc n) h =
    let (x, e) = get_elem?-some array i (omega arith) in
    rw (e, take-drop-cons i n array e)
      (ap (λ m. m >>= λ xs. ok (f x ∷ xs)) (convert-map f array (i + 1) n (omega arith)))

module _ (type_toint type_fromint : ℕ → ℕ) where
  -- The displacements of MPI_TYPE_HINDEXED and MPI_TYPE_STRUCT reach MPI as the same integers, in
  -- order, and the types as handles, where the arrays have `count` elements; the new datatype is
  -- converted only if MPI succeeds, and is MPI_DATATYPE_NULL otherwise.
  pub hindexed_struct-map :
      (hindexed : ℤ → Integers → Integers → ℕ → ℕ × ℕ)
      (create_struct : ℤ → Integers → Integers → Integers → ℕ × ℕ) (count : ℤ)
      (blocklengths displacements types : Integers) (oldtype : ℕ)
      → pos_part count ≤ length displacements
      → pos_part count ≤ length types
      → (mpi_type_hindexed type_toint type_fromint hindexed count blocklengths displacements oldtype
          ≡ ok (
              newtype_on_success type_toint type_fromint (
                hindexed count blocklengths
                  (map sign_extend (take (pos_part count) displacements))
                  (type_fromint oldtype))))
        × (mpi_type_struct type_toint type_fromint create_struct count blocklengths displacements
              types
            ≡ ok (
                newtype_on_success type_toint type_fromint (
                  create_struct count blocklengths
                    (map sign_extend (take (pos_part count) displacements))
                    (map type_fromint (take (pos_part count) types)))))
  unfolding mpi_type_hindexed mpi_type_struct
  hindexed_struct-map hindexed create_struct count blocklengths displacements types oldtype d t = (
    rw (convert-map sign_extend displacements 0 (pos_part count) (omega arith)) refl,
    rw
        (
          convert-map sign_extend displacements 0 (pos_part count) (omega arith),
          convert-map type_fromint types 0 (pos_part count) (omega arith),
        )
        refl,
  )

-- Two objects that are less than 4 GiB apart have addresses whose difference, as MPI_ADDRESS gives
-- them and modulo 2^32, is the distance of the objects, although each address is cut to 32 bits.
pub address-difference :
    (cells : Cells) (get_address : ℕ → ℕ × Option ℕ) (p q a b : ℕ)
    → (get_address (mpif_c_cbuffer cells p)).1 ≡ some a
    → (get_address (mpif_c_cbuffer cells q)).1 ≡ some b
    → b ≤ a
    → a - b < 2 ^ 32
    → u32 ((mpi_address cells get_address p).0 + 2 ^ 32 - (mpi_address cells get_address q).0)
      ≡ a - b
unfolding mpi_address
address-difference cells get_address p q a b at_p at_q le near = rw (at_p, at_q) (omega arith)

-- MPI_TYPE_UB gives the sum of what MPI_TYPE_LB and MPI_TYPE_EXTENT give, modulo 2^32, also when
-- MPI writes neither; all three give MPI's error code.
pub ub-lb_extent :
    (type_fromint : ℕ → ℕ) (type_get_extent : ℕ → ℕ × Option (ℕ × ℕ)) (datatype : ℕ)
    → ((mpi_type_ub type_fromint type_get_extent datatype).0
        ≡ u32 (
            (mpi_type_lb type_fromint type_get_extent datatype).0
            + (mpi_type_extent type_fromint type_get_extent datatype).0))
      × ((mpi_type_ub type_fromint type_get_extent datatype).1
          ≡ (mpi_type_lb type_fromint type_get_extent datatype).1)
unfolding mpi_type_ub mpi_type_lb mpi_type_extent
ub-lb_extent type_fromint type_get_extent datatype =
    (go (type_get_extent (type_fromint datatype)).1, refl)
  where
    go :
        (result : Option (ℕ × ℕ))
        → elim result [ none ↦ u32 0 | some (lb, extent) ↦ u32 (u64 (lb + extent)) ]
          ≡ u32 (
              (elim result [ none ↦ u32 0 | some (lb, extent) ↦ u32 lb ])
              + (elim result [ none ↦ u32 0 | some (lb, extent) ↦ u32 extent ]))
    go none = refl
    go (some (lb, extent)) = omega arith

-- An error handler that is set is the one that is got, where handles survive their conversion and MPI
-- keeps what it was given.
pub errhandler_get-set :
    {S : Type 0} (comm_fromint errhandler_fromint errhandler_toint : ℕ → ℕ) (errhandler_null : ℕ)
    (comm_set_errhandler : S → ℕ → ℕ → ℕ × S) (comm_get_errhandler : S → ℕ → ℕ × Option ℕ)
    → ((h : ℕ) → errhandler_toint (errhandler_fromint h) ≡ h)
    → ((s : S) (c h : ℕ)
        → (comm_set_errhandler s c h).0 ≡ mpi_success
        → comm_get_errhandler (comm_set_errhandler s c h).1 c ≡ (mpi_success, some h))
    → (s : S) (comm errhandler : ℕ)
    → let set =
        mpi_errhandler_set comm_fromint errhandler_fromint errhandler_toint errhandler_null
          comm_set_errhandler s comm errhandler in
      set.0 ≡ mpi_success
      → mpi_errhandler_get comm_fromint errhandler_fromint errhandler_toint errhandler_null
          comm_get_errhandler set.1 comm
        ≡ (mpi_success, errhandler)
unfolding mpi_errhandler_set mpi_errhandler_get
errhandler_get-set from_c from_e to_e null set get back keeps s comm errhandler done =
    rw (keeps s (from_c comm) (from_e errhandler) done, mpi_errhandler_get)
      (ap (λ h. (mpi_success, h)) (back errhandler))
