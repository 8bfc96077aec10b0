-- ===== src/Topology/Periods.antt =====
-- Which elements of `periods` mpi_cart_get_ writes.
use mpif.Prelude.{
  ℕ, ◌≤◌, ◌≡◌, refl, ap, ◌∙◌, ◌⊎◌, inl, inr, true, false, Bool-cases, List, ◌++◌, map, ◌==◌,
  if◌then◌else◌, arith, length, take, drop, replicate,
}
use mpif.Prelude.Int.{ℤ, pos, negsuc, ltb_ℤ}
use mpif.Machine.{Returns}
use mpif.Abi.{mpi_success}
use mpif.Requests.{rounds}
use mpif.Requests.Arrays.{write_array-take}
use mpif.Topology.{CartGet, Handles, to_logical, ndims_periods, mpi_cart_get}

-- How many elements are written: none after an error, and else as many as there are dimensions and
-- room for them.
pub data IsWritten (ierror : ℕ) (dim : ℕ × ℤ) (maxdims : ℤ) (k : ℕ) : Type 0 where
  after_error : (ierror == mpi_success) ≡ false → k ≡ 0 → IsWritten ierror dim maxdims k
  unknown : (dim.0 == mpi_success) ≡ false → k ≡ 0 → IsWritten ierror dim maxdims k
  all_dimensions :
      (ierror == mpi_success) ≡ true
      → (dim.0 == mpi_success) ≡ true
      → k ≡ rounds dim.1
      → IsWritten ierror dim maxdims k
  all_room :
      (ierror == mpi_success) ≡ true
      → (dim.0 == mpi_success) ≡ true
      → k ≡ rounds maxdims
      → k ≤ rounds dim.1
      → IsWritten ierror dim maxdims k

pub written_all :
    (ierror : ℕ) (dim : ℕ × ℤ) (n k : ℕ)
    → IsWritten ierror dim (pos n) k
    → ierror ≡ mpi_success
    → dim ≡ (mpi_success, pos n)
    → k ≡ n
written_all ierror dim n k (after_error failure is) success known = absurd (ground arith)
written_all ierror dim n k (unknown failure is) success known = absurd (ground arith)
written_all ierror dim n k (all_dimensions e d is) success known =
    is ∙ ap (λ (q : ℕ × ℤ). rounds q.1) known
written_all ierror dim n k (all_room e d is le) success known = is

smaller :
    (n maxdims : ℤ)
    → (rounds (if ltb_ℤ maxdims n then maxdims else n) ≤ rounds maxdims)
      × ((rounds (if ltb_ℤ maxdims n then maxdims else n) ≡ rounds n)
          ⊎ ((rounds (if ltb_ℤ maxdims n then maxdims else n) ≡ rounds maxdims)
              × (rounds maxdims ≤ rounds n)))
smaller (pos n) (pos m) = ground arith
smaller (pos n) (negsuc m) = ground arith
smaller (negsuc n) (pos m) = ground arith
smaller (negsuc n) (negsuc m) = ground arith

module _ (handles : Handles) (logical_true logical_false : ℕ) where
  ndims_periods-IsWritten :
      (ierror : ℕ) (dim : ℕ × ℤ) (maxdims : ℤ)
      → let k = rounds (ndims_periods handles logical_true logical_false ierror dim maxdims) in
        (k ≤ rounds maxdims) × IsWritten ierror dim maxdims k
  unfolding ndims_periods
  ndims_periods-IsWritten ierror dim maxdims =
      let none_ = smaller (pos 0) maxdims in
      elim (Bool-cases (ierror == mpi_success)) [
        | inr failure ↦ rw failure (none_.0, after_error failure (ground arith))
        | inl success ↦ elim (Bool-cases (dim.0 == mpi_success)) [
          | inr missing ↦ rw (success, missing) (none_.0, unknown missing (ground arith))
          | inl known ↦ elim (smaller dim.1 maxdims).1 [
            | inl all ↦
                rw (success, known) ((smaller dim.1 maxdims).0, all_dimensions success known all)
            | inr (room, more) ↦
                rw (success, known)
                  (
                    (smaller dim.1 maxdims).0,
                    all_room success known room (omega (arith, room, more)),
                  )
          ]
        ]
      ]

  -- With room for `maxdims` elements on both sides, mpi_cart_get_ returns. The first elements of
  -- `periods` become the logical values of MPI's, as many as there are dimensions and room, and none
  -- after an error; those behind stay, so that a longer array is not overwritten.
  pub cart_get-IsWritten :
      (cart_get : ℕ → ℤ → List ℕ → List ℕ → List ℕ → CartGet) (cartdim_get : ℕ → ℕ × ℤ) (comm : ℕ)
      (maxdims : ℤ) (dims periods coords : List ℕ)
      → rounds maxdims ≤ length periods
      → let done =
          cart_get (handles.comm_fromint comm) maxdims dims (replicate (rounds maxdims) 0) coords in
        rounds maxdims ≤ length done.periods
        → Returns
            (λ r.
              (r.ierror ≡ done.ierror)
              × ((k : ℕ) × IsWritten done.ierror (cartdim_get (handles.comm_fromint comm)) maxdims k
                  × (r.periods
                      ≡ map (to_logical handles logical_true logical_false) (take k done.periods)
                        ++ drop k periods)))
            (mpi_cart_get handles logical_true logical_false cart_get cartdim_get comm maxdims dims
              periods coords)
  unfolding mpi_cart_get
  cart_get-IsWritten cart_get cartdim_get comm maxdims dims periods coords within enough =
      let done =
        cart_get (handles.comm_fromint comm) maxdims dims (replicate (rounds maxdims) 0) coords in
      let dim = cartdim_get (handles.comm_fromint comm) in
      let k = rounds (ndims_periods handles logical_true logical_false done.ierror dim maxdims) in
      let (le, written) = ndims_periods-IsWritten done.ierror dim maxdims in
      let put =
        write_array-take (to_logical handles logical_true logical_false) periods done.periods k
          (omega (arith, le, within)) (omega (arith, le, enough)) in
      (
        record {
          ierror = done.ierror;
          dims = done.dims;
          periods =
              map (to_logical handles logical_true logical_false) (take k done.periods)
              ++ drop k periods;
          coords = done.coords;
        },
        rw (put, mpi_cart_get) refl,
        (refl, (k, written, refl)),
      )
