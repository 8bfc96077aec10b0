-- ===== src/Topology/Created.antt =====
-- The periods of a communicator that mpi_cart_create_ made, as mpi_cart_get_ gives them.
use mpif.Prelude.{
  ℕ, ◌≤◌, ◌≡◌, ◌≢◌, refl, sym, ap, ◌∙◌, List, [], ◌∷◌, ◌++◌, map, ◌==◌, if◌then◌else◌, arith,
  length, take, drop, replicate, take-all, length-take, length-map,
}
use mpif.Prelude.Int.{ℤ, pos}
use mpif.Machine.{ok, Returns}
use mpif.Abi.{mpi_success}
use mpif.Logical.{logical2bool-bool2logical}
use mpif.Requests.Arrays.{convert_array-map}
use mpif.Topology.{CartGet, Handles, to_logical, to_bool, mpi_cart_create, mpi_cart_get}
use mpif.Topology.Periods.{written_all, cart_get-IsWritten}

module _ (handles : Handles) (logical_true logical_false : ℕ) where
  -- A logical value of Fortran that goes to C and back.
  abbrev pub normal : ℕ → ℕ
  normal v = if v == logical_false then logical_false else logical_true

  normal-map :
      (periods : List ℕ)
      → logical_true ≢ logical_false
      → map
          (to_logical handles logical_true logical_false)
          (map (to_bool handles logical_true logical_false) periods)
        ≡ map normal periods
  normal-map [] distinct = refl
  normal-map (v ∷ periods) distinct =
      rw ((logical2bool-bool2logical logical_true logical_false v distinct).1)
        (ap (◌∷◌ (normal v)) (normal-map periods distinct))

  module _ (cart_create : ℕ → ℤ → List ℕ → List ℕ → ℕ → ℕ → ℕ × ℕ)
      (cart_get : ℕ → ℤ → List ℕ → List ℕ → List ℕ → CartGet) (cartdim_get : ℕ → ℕ × ℤ) where
    -- The handle of a communicator survives its conversion, and the communicator keeps its periods.
    pub record Keeps (c n : ℕ) (c_periods : List ℕ) : Type 0 where
      pub handle : handles.comm_fromint (handles.comm_toint c) ≡ c
      pub dimensions : cartdim_get c ≡ (mpi_success, pos n)
      pub periods :
          (dims_out periods_out coords : List ℕ)
          → let done = cart_get c (pos n) dims_out periods_out coords in
            (done.ierror ≡ mpi_success) × (done.periods ≡ c_periods)

    module _ (comm_old n : ℕ) (dims given : List ℕ) (reorder : ℕ) where
      abbrev pub c_given : List ℕ
      c_given = map (to_bool handles logical_true logical_false) (take n given)

      abbrev pub made : ℕ × ℕ
      made =
          cart_create (handles.comm_fromint comm_old) (pos n) dims c_given
            (to_bool handles logical_true logical_false reorder) handles.comm_null

      create-made :
          n ≤ length given
          → mpi_cart_create handles logical_true logical_false cart_create comm_old
              (pos n)
              dims
              given
              reorder
            ≡ ok (made.0, handles.comm_toint made.1)
      unfolding mpi_cart_create
      create-made fits =
          rw (convert_array-map (to_bool handles logical_true logical_false) given n fits) refl

      -- Where .TRUE. and .FALSE. differ, and MPI keeps what a communicator was created with: the periods
      -- that a successful mpi_cart_create_ was given come back from mpi_cart_get_ for the communicator
      -- that it made, every value but .FALSE. as .TRUE., and the elements behind them stay.
      pub cart_get-cart_create :
          (comm_cart : ℕ) (dims_out periods coords : List ℕ)
          → Keeps made.1 n c_given
          → logical_true ≢ logical_false
          → n ≤ length given
          → n ≤ length periods
          → mpi_cart_create handles logical_true logical_false cart_create comm_old
              (pos n)
              dims
              given
              reorder
            ≡ ok (mpi_success, comm_cart)
          → Returns
              (λ r. r.periods ≡ map normal (take n given) ++ drop n periods)
              (mpi_cart_get handles logical_true logical_false cart_get cartdim_get comm_cart
                (pos n)
                dims_out
                periods
                coords)
      cart_get-cart_create comm_cart dims_out periods coords keeps distinct given_fits fits
            created =
          let pair = sym (create-made given_fits) ∙ created in
          let cart : handles.comm_toint made.1 ≡ comm_cart = ground (arith, pair) in
          let handle : handles.comm_fromint comm_cart ≡ made.1 =
            ap handles.comm_fromint (sym cart) ∙ keeps.handle in
          let dim = ap cartdim_get handle ∙ keeps.dimensions in
          let (got, same) = keeps.periods dims_out (replicate n 0) coords in
          let asked = λ (c : ℕ). cart_get c (pos n) dims_out (replicate n 0) coords in
          let same_here = ap (λ c. (asked c).periods) handle ∙ same in
          let whole : length c_given ≡ n =
            length-map (to_bool handles logical_true logical_false) (take n given)
            ∙ length-take n given given_fits in
          let (r, e, (err, (k, written, is))) =
            cart_get-IsWritten handles logical_true logical_false cart_get cartdim_get comm_cart
              (pos n) dims_out periods coords fits (omega (arith, ap length same_here, whole)) in
          let all =
            written_all (asked (handles.comm_fromint comm_cart)).ierror
              (cartdim_get (handles.comm_fromint comm_cart)) n k written
              (ap (λ c. (asked c).ierror) handle ∙ got) dim in
          let logicals = map (to_logical handles logical_true logical_false) in
          (
            r,
            e,
            is
                ∙ ap
                    (λ j.
                      logicals (take j (asked (handles.comm_fromint comm_cart)).periods)
                      ++ drop j periods)
                    all
                ∙ ap (λ l. logicals (take n l) ++ drop n periods) same_here
                ∙ ap (λ l. logicals l ++ drop n periods) (take-all n c_given (omega (arith, whole)))
                ∙ ap (λ l. l ++ drop n periods) (normal-map (take n given) distinct),
          )
