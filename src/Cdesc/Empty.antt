-- ===== src/Cdesc/Empty.antt =====
-- What the walker does with an empty dimension that is not the last.
use native.Mathlib.Nat.{mod_self, div_self}
use mpif.Prelude.{
  ℕ, suc, ◌/◌, ◌%◌, ◌≤◌, ◌≡◌, refl, Bool, true, false, ◌&&◌, List, [], ◌∷◌, ltb, ◌==◌, inl, inr,
  Bool-cases, arith, ==_iff,
}
use mpif.Prelude.Int.{ℤ, pos, eqb_ℤ}
use mpif.Machine.{fault}
use mpif.Abi.{mpi_success}
use mpif.Cdesc
use mpif.Cdesc.{
  Dim, Descriptor, Datatypes, Current, Returned, fail, replace, level, walk,
  mpif_cdesc_create_datatype,
}

module _ {H : Type 0} (mpi : Datatypes H) where
  walk_empty :
      (count : ℕ) (sm : ℤ) (e : Dim) (ds : List Dim) (bytes : ℤ) (dense : Bool) (w : Current H)
      → (level mpi dense bytes w.cur (record { extent = 0; sm = sm }) 0).0 ≡ mpi_success
      → 1 ≤ count
      → walk mpi count (record { extent = 0; sm = sm } ∷ e ∷ ds) 1 bytes dense w ≡ fault
  unfolding walk
  walk_empty count sm e ds bytes dense w made some_ =
      let whole : (count % 1 == 0) ≡ true = (==_iff (count % 1) 0).1 (omega arith) in
      let more : ltb 0 (count / 1) ≡ true = ground arith in
      let success =
        (==_iff (level mpi dense bytes w.cur (record { extent = 0; sm = sm }) 0).0 mpi_success).1
          made in
      rw (whole, more, success) refl

  level-success :
      ((k : ℕ) (t : H) → (mpi.type_contiguous_c k t).0 ≡ mpi_success)
      → ((k b : ℕ) (s : ℤ) (t : H) → (mpi.type_create_hvector_c k b s t).0 ≡ mpi_success)
      → (dense : Bool) (bytes : ℤ) (t : H) (d : Dim) (k : ℕ)
      → (level mpi dense bytes t d k).0 ≡ mpi_success
  unfolding level
  level-success contiguous hvector dense bytes t d k =
      elim (Bool-cases (dense && eqb_ℤ d.sm bytes)) [
        | inl same ↦ rw (same, level) (contiguous k t)
        | inr other ↦ rw (other, level) (hvector k 1 d.sm t)
      ]

  -- If all of MPI's routines succeed, the length of an element is the size of the old datatype,
  -- and the first of two or more dimensions is empty, then a positive count does not end in an
  -- error code: the walker divides by zero.
  pub empty_dimension-fault :
      (n oldcount : ℕ) (sm : ℤ) (e : Dim) (ds : List Dim) (oldtype : H)
      → mpi.type_size_c oldtype ≡ (mpi_success, pos (suc n))
      → ((t : H) → (mpi.type_get_extent_c t).0 ≡ mpi_success)
      → ((k : ℕ) (t : H) → (mpi.type_contiguous_c k t).0 ≡ mpi_success)
      → ((k b : ℕ) (s : ℤ) (t : H) → (mpi.type_create_hvector_c k b s t).0 ≡ mpi_success)
      → 1 ≤ oldcount
      → mpif_cdesc_create_datatype mpi
          (record { elem_len = suc n; dim = record { extent = 0; sm = sm } ∷ e ∷ ds })
          oldcount
          oldtype
        ≡ fault
  unfolding mpif_cdesc_create_datatype Cdesc.with_size Cdesc.with_factor Cdesc.walk_from
  empty_dimension-fault n oldcount sm e ds oldtype size get contiguous hvector some_ =
      let whole : (suc n % suc n == 0) ≡ true = (==_iff (suc n % suc n) 0).1 no_rest in
      let one : ltb 1 (suc n / suc n) ≡ false = ground (arith, once) in
      let got = (==_iff (mpi.type_get_extent_c oldtype).0 mpi_success).1 (get oldtype) in
      rw (size, mpif_cdesc_create_datatype)
        (rw (whole, one, got, Cdesc.with_factor, Cdesc.walk_from)
          (walk_empty oldcount sm e ds (pos (suc n)) dense w
            (level-success contiguous hvector dense (pos (suc n)) oldtype
              (record { extent = 0; sm = sm }) 0)
            some_))
    where
      w : Current H
      w = record { cur = oldtype; owned = false; created = []; freed = [] }

      dense : Bool
      dense =
          eqb_ℤ (mpi.type_get_extent_c oldtype).1 (pos 0)
          && eqb_ℤ (mpi.type_get_extent_c oldtype).2 (pos (suc n))

      no_rest : suc n % suc n ≡ 0
      no_rest = mod_self (suc n)

      once : suc n / suc n ≡ 1
      once = div_self (omega arith)
