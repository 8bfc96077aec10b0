-- ===== src/Callbacks/Grequest.antt =====
-- src/mpif_callbacks.c, the generalized requests: a box for each request, which is given to MPI in
-- the place of `extra_state`, and three trampolines. A Fortran callback may change the box's
-- extra_state and the status, which it has by reference; what it leaves there, and its error code,
-- are the parameters `query`, `free_request` and `cancel`.
pub mod Boxes
pub mod Start
pub mod History
pub mod Lifetime
pub mod Request
mod Tests
use mpif.Prelude.{ℕ, Bool, Option, none, some, List}
use mpif.Machine.{Run, ok, ◌>>=◌}
use mpif.Abi.{mpi_success}
use mpif.Logical.{mpif_bool2logical}
use mpif.Heap.{Heap, allocate, read, write, free}
use mpif.Callbacks.Predefined.{Procedure}

-- `struct grequest_box`
pub record Box : Type 0 where
  pub query_fn : Procedure
  pub free_fn : Procedure
  pub cancel_fn : Procedure
  pub extra_state : ℕ

-- What a Fortran callback leaves in its arguments; `f_ierror` is MPI_SUCCESS before the call.
pub record Left : Type 0 where
  pub extra_state : ℕ
  pub ierror : ℕ

unfoldable pub mpif_grequest_reserve :
    (Heap Box → Bool) → Heap Box → Procedure → Procedure → Procedure → ℕ → Option ℕ × Heap Box
mpif_grequest_reserve room h query_fn free_fn cancel_fn extra_state = allocate room h (record {
  query_fn = query_fn;
  free_fn = free_fn;
  cancel_fn = cancel_fn;
  extra_state = extra_state;
})

unfoldable pub mpif_grequest_cancel : Heap Box → ℕ → Run (Heap Box)
mpif_grequest_cancel h box = free h box

-- The Fortran side.
pub record Fortran (Status : Type 0) : Type 0 where
  pub query : Procedure → ℕ → Status → ℕ → Left × Status
  pub free_request : Procedure → ℕ → ℕ → Left
  pub cancel : Procedure → ℕ → ℕ → ℕ → Left
  pub logical_true : ℕ
  pub logical_false : ℕ

module _ {Status : Type 0} (f : Fortran Status) (h : Heap Box) (extra_state : ℕ) where
  -- The callback has been made with the box's extra_state; `Left` is what it left.
  abbrev store_back : Box → Left → Run (Heap Box)
  store_back box left = write h extra_state (record box { extra_state = left.extra_state })

  unfoldable pub mpif_grequest_query_trampoline : Status → Run (Heap Box × Status × ℕ)
  mpif_grequest_query_trampoline status = read h extra_state >>= λ box.
      let (left, after) = f.query box.query_fn box.extra_state status mpi_success in
      store_back box left >>= λ stored. ok (stored, after, left.ierror)

  unfoldable pub mpif_grequest_free_trampoline : Run (Heap Box × ℕ)
  mpif_grequest_free_trampoline = read h extra_state >>= λ box.
      let left = f.free_request box.free_fn box.extra_state mpi_success in
      store_back box left >>= λ stored. free stored extra_state >>= λ freed. ok (freed, left.ierror)

  unfoldable pub mpif_grequest_cancel_trampoline : ℕ → Run (Heap Box × ℕ)
  mpif_grequest_cancel_trampoline complete = read h extra_state >>= λ box.
      let f_complete = mpif_bool2logical f.logical_true f.logical_false complete in
      let left = f.cancel box.cancel_fn box.extra_state f_complete mpi_success in
      store_back box left >>= λ stored. ok (stored, left.ierror)
