-- ===== src/Callbacks/Grequest/Boxes.antt =====
-- What each trampoline of a generalized request does to the box that it is given.
use mpif.Prelude.{ℕ, ◌≡◌, refl, ap, List, [], ◌∷◌, none, some, zero, suc, set}
use mpif.Machine.{ok}
use mpif.Abi.{mpi_success}
use mpif.Logical.{mpif_bool2logical}
use mpif.Heap.{Heap, object_at}
use mpif.Heap.Laws.{
  read-object_at, write-object_at, free-object_at, object_at-set_self, object_at-lt,
}
use mpif.Callbacks.Grequest.{
  Box, Left, Fortran, mpif_grequest_query_trampoline, mpif_grequest_free_trampoline,
  mpif_grequest_cancel_trampoline,
}

-- The box after a callback that left `left`.
abbrev pub updated : Box → Left → Box
updated box left = record box { extra_state = left.extra_state }

set-set {ℓ} : {A : Type ℓ} (xs : List A) (i : ℕ) (v w : A) → set (set xs i v) i w ≡ set xs i w
set-set [] i v w = refl
set-set (x ∷ xs) zero v w = refl
set-set (x ∷ xs) (suc i) v w = ap (◌∷◌ x) (set-set xs i v w)

module _ {Status : Type 0} (f : Fortran Status) (h : Heap Box) (a : ℕ) (box : Box)
    (live : object_at h a ≡ some box) where
  pub query_trampoline-live :
      (status : Status)
      → mpif_grequest_query_trampoline f h a status ≡ (
          let r = f.query box.query_fn box.extra_state status mpi_success in
          ok (set h a (some (updated box r.0)), r.1, r.0.ierror))
  unfolding mpif_grequest_query_trampoline
  query_trampoline-live status = rw (read-object_at h a live) rw (write-object_at h a _ live) refl

  pub cancel_trampoline-live :
      (complete : ℕ)
      → mpif_grequest_cancel_trampoline f h a complete ≡ (
          let r =
            f.cancel box.cancel_fn box.extra_state
              (mpif_bool2logical f.logical_true f.logical_false complete)
              mpi_success in
          ok (set h a (some (updated box r)), r.ierror))
  unfolding mpif_grequest_cancel_trampoline
  cancel_trampoline-live complete =
      rw (read-object_at h a live) rw (write-object_at h a _ live) refl

  -- The last callback takes the box with it.
  pub free_trampoline-live :
      mpif_grequest_free_trampoline f h a
      ≡ ok (set h a none, (f.free_request box.free_fn box.extra_state mpi_success).ierror)
  unfolding mpif_grequest_free_trampoline
  free_trampoline-live =
      rw (read-object_at h a live) rw (write-object_at h a _ live) rw
        (free-object_at (set h a (some after)) a
          (object_at-set_self h a (some after) (object_at-lt h a live)))
        (ap (λ u. ok (u, left.ierror)) (set-set h a (some after) none))
    where
      left : Left
      left = f.free_request box.free_fn box.extra_state mpi_success

      after : Box
      after = updated box left
