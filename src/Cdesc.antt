-- ===== src/Cdesc.antt =====
-- src/mpif_cdesc.c: the datatype for an array section that a descriptor holds. MPI's datatype
-- routines are parameters; each gives its error code and, where it makes a datatype, the handle.
-- Counts, extents and products are not bounded to 64 bits: those of an object in memory fit.
-- Extents are those of arrays of a known size, so that they are not -1.
pub mod Section
pub mod Owned
pub mod Walk
pub mod Layout
pub mod Empty
pub mod Entry
mod Tests
use mpif.Prelude.{
  ℕ, zero, suc, ◌*◌, ◌/◌, ◌%◌, Bool, true, false, not, ◌&&◌, ◌||◌, Option, none, some, List, [],
  ◌∷◌, ◌++◌, ltb, ◌==◌, if◌then◌else◌,
}
use mpif.Prelude.Int.{ℤ, pos, negsuc, ◌*ℤ◌, eqb_ℤ}
use mpif.Machine.{Run, ok, fault}
use mpif.Abi.{mpi_success, mpi_err_arg}

-- `CFI_dim_t`, without its lower bound, and `CFI_cdesc_t`; the rank is the length of `dim`.
pub record Dim : Type 0 where
  pub extent : ℕ
  pub sm : ℤ

pub record Descriptor : Type 0 where
  pub elem_len : ℕ
  pub dim : List Dim

-- The PMPI routines for datatypes with handles in H.
pub record Datatypes (H : Type 0) : Type 0 where
  pub type_size_c : H → ℕ × ℤ
  pub type_get_extent_c : H → ℕ × ℤ × ℤ
  pub type_contiguous_c : ℕ → H → ℕ × H
  pub type_create_hvector_c : ℕ → ℕ → ℤ → H → ℕ × H
  pub type_commit : H → ℕ

-- The datatype under construction, and those that have been made and freed so far, in order.
pub record Current (H : Type 0) : Type 0 where
  pub cur : H
  pub owned : Bool
  pub created : List H
  pub freed : List H

-- What a call returns, with `*newtype` if it is written.
pub record Returned (H : Type 0) : Type 0 where
  pub err : ℕ
  pub newtype : Option H
  pub created : List H
  pub freed : List H

module _ {H : Type 0} (mpi : Datatypes H) where
  -- `if (owned) PMPI_Type_free(&cur);`
  abbrev pub freed_now : Current H → List H
  freed_now w = w.freed ++ (if w.owned then w.cur ∷ [] else [])

  abbrev pub fail : ℕ → Current H → Returned H
  fail err w = record { err = err; newtype = none; created = w.created; freed = freed_now w }

  -- `cur = next; owned = 1;`
  abbrev pub replace : Current H → H → Current H
  replace w next = record {
    cur = next;
    owned = true;
    created = w.created ++ (next ∷ []);
    freed = freed_now w;
  }

  pub commit : Current H → Returned H
  commit w =
      if mpi.type_commit w.cur == mpi_success
      then record { err = mpi_success; newtype = some w.cur; created = w.created; freed = w.freed }
      else fail (mpi.type_commit w.cur) w

  -- One more dimension, of which `extent` elements are taken.
  pub level : Bool → ℤ → H → Dim → ℕ → ℕ × H
  level dense bytes_per_cur cur d extent =
      if dense && eqb_ℤ d.sm bytes_per_cur
      then mpi.type_contiguous_c extent cur
      else mpi.type_create_hvector_c extent 1 d.sm cur

  -- `dense` after that.
  abbrev pub still_dense : Bool → ℤ → Dim → Bool
  still_dense dense bytes_per_cur d = dense && eqb_ℤ d.sm bytes_per_cur

  -- The loop over the dimensions, and what follows it; the loop goes on only while not `done`.
  unfoldable pub walk : ℕ → List Dim → ℕ → ℤ → Bool → Current H → Run (Returned H)
  unfolding level commit ◌*ℤ◌
  walk count [] elems_per_cur bytes_per_cur dense w = ok (fail mpi_err_arg w)
  walk count (d ∷ ds) elems_per_cur bytes_per_cur dense w =
      let extent = count / elems_per_cur in
      let full = level dense bytes_per_cur w.cur d d.extent in
      let last = level dense bytes_per_cur w.cur d extent in
      let rest =
        walk count ds (elems_per_cur * d.extent) (d.sm *ℤ pos d.extent)
          (still_dense dense bytes_per_cur d) (replace w full.1) in
      if elems_per_cur == 0
      then fault
      else (if count % elems_per_cur == 0
          then (if ltb d.extent extent
              then (if full.0 == mpi_success then rest else ok (fail full.0 w))
              else (if last.0 == mpi_success
                  then ok (commit (replace w last.1))
                  else ok (fail last.0 w)))
          else ok (fail mpi_err_arg w))

  -- From the check of the extent on.
  pub walk_from : Descriptor → ℕ → Current H → Run (Returned H)
  unfolding walk
  walk_from cdesc count w =
      let (err, cur_lb, cur_extent) = mpi.type_get_extent_c w.cur in
      if err == mpi_success
      then walk count cdesc.dim 1 (pos cdesc.elem_len)
          (eqb_ℤ cur_lb (pos 0) && eqb_ℤ cur_extent (pos cdesc.elem_len)) w
      else ok (fail err w)

  abbrev pub refuse : ℕ → Returned H
  refuse err = record { err = err; newtype = none; created = []; freed = [] }

  -- With the factor of descriptor elements to units of the old datatype.
  pub with_factor : Descriptor → ℕ → H → ℕ → Run (Returned H)
  unfolding walk_from
  with_factor cdesc oldcount oldtype factor =
      let (err, cur) = mpi.type_contiguous_c factor oldtype in
      if ltb 1 factor
      then (if oldcount % factor == 0
          then (if err == mpi_success
              then walk_from cdesc (oldcount / factor)
                  (record { cur = cur; owned = true; created = cur ∷ []; freed = [] })
              else ok (refuse err))
          else ok (refuse mpi_err_arg))
      else walk_from cdesc oldcount
          (record { cur = oldtype; owned = false; created = []; freed = [] })

  -- The size, if it is positive.
  pub with_size : Descriptor → ℕ → H → ℤ → Run (Returned H)
  unfolding with_factor
  with_size cdesc oldcount oldtype (negsuc n) = ok (refuse mpi_err_arg)
  with_size cdesc oldcount oldtype (pos zero) = ok (refuse mpi_err_arg)
  with_size cdesc oldcount oldtype (pos (suc n)) =
      if cdesc.elem_len % suc n == 0
      then with_factor cdesc oldcount oldtype (cdesc.elem_len / suc n)
      else ok (refuse mpi_err_arg)

  unfoldable pub mpif_cdesc_create_datatype : Descriptor → ℕ → H → Run (Returned H)
  unfolding with_size
  mpif_cdesc_create_datatype cdesc oldcount oldtype =
      let (err, size) = mpi.type_size_c oldtype in
      if err == mpi_success then with_size cdesc oldcount oldtype size else ok (refuse err)
