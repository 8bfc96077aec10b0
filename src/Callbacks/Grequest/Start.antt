-- ===== src/Callbacks/Grequest/Start.antt =====
-- gen/mpif_functions.c, mpi_grequest_start_. MPI's own routine is the parameter `grequest_start`:
-- from the box, its error code, and what it writes to the new request, if anything.
use mpif.Prelude.{
  ℕ, ◌≡◌, ◌≢◌, refl, ap, Bool, false, Option, none, some, List, [], ◌∷◌, ◌++◌, ◌==◌, if◌then◌else◌,
  length, set, inl, inr, Bool-cases, ==_iff, true≢false,
}
use mpif.Machine.{Run, ok, ◌>>=◌}
use mpif.Abi.{mpi_success, mpi_err_other}
use mpif.Heap.{Heap, allocate}
use mpif.Heap.Laws.{free-object_at, object_at-append_self}
use mpif.Callbacks.Predefined.{Procedure}
use mpif.Callbacks.Grequest.{Box, mpif_grequest_reserve, mpif_grequest_cancel}

pub record Started : Type 0 where
  pub heap : Heap Box
  pub request : ℕ
  pub ierror : ℕ

abbrev written : ℕ → Option ℕ → ℕ
written x none = x
written x (some y) = y

module _ (room : Heap Box → Bool) (request_toint : ℕ → ℕ) (request_null : ℕ)
    (grequest_start : ℕ → ℕ × Option ℕ) where
  -- The body from MPI's routine on.
  start_with : Heap Box → ℕ → ℕ × Option ℕ → Run Started
  unfolding mpif_grequest_cancel
  start_with h box (ierror, c_request) =
      let request = request_toint (written request_null c_request) in
      if ierror == mpi_success
      then ok (record { heap = h; request = request; ierror = ierror })
      else (mpif_grequest_cancel h box >>= λ cancelled.
          ok (record { heap = cancelled; request = request; ierror = ierror }))

  -- `request` is the actual argument, which stays as it is without a box.
  start_from : Option ℕ × Heap Box → ℕ → Run Started
  unfolding start_with
  start_from (none, h) request = ok (record { heap = h; request = request; ierror = mpi_err_other })
  start_from (some box, h) request = start_with h box (grequest_start box)

  unfoldable pub mpi_grequest_start :
      Heap Box → Procedure → Procedure → Procedure → ℕ → ℕ → Run Started
  unfolding start_from
  mpi_grequest_start h query_fn free_fn cancel_fn extra_state request =
      start_from (mpif_grequest_reserve room h query_fn free_fn cancel_fn extra_state) request

  -- The three ends of a start. A failure leaves no box behind: what was allocated is freed.
  pub data StartOutcome (h : Heap Box) (box : Box) (request : ℕ) (r : Run Started) : Type 0 where
    no_memory :
        room h ≡ false
        → r ≡ ok (record { heap = h; request = request; ierror = mpi_err_other })
        → StartOutcome h box request r
    refused :
        (grequest_start (length h)).0 ≢ mpi_success
        → r
          ≡ ok (record {
            heap = h ++ (none ∷ []);
            request = request_toint (written request_null (grequest_start (length h)).1);
            ierror = (grequest_start (length h)).0;
          })
        → StartOutcome h box request r
    started :
        (grequest_start (length h)).0 ≡ mpi_success
        → r
          ≡ ok (record {
            heap = h ++ (some box ∷ []);
            request = request_toint (written request_null (grequest_start (length h)).1);
            ierror = mpi_success;
          })
        → StartOutcome h box request r

  set_end {ℓ} :
      {A : Type ℓ} (xs : List A) (v w : A) → set (xs ++ (v ∷ [])) (length xs) w ≡ xs ++ (w ∷ [])
  set_end [] v w = refl
  set_end (x ∷ xs) v w = ap (◌∷◌ x) (set_end xs v w)

  start_with-StartOutcome :
      (h : Heap Box) (box : Box) (request : ℕ)
      → StartOutcome h box request
          (start_with (h ++ (some box ∷ [])) (length h) (grequest_start (length h)))
  unfolding start_with mpif_grequest_cancel
  start_with-StartOutcome h box request =
      elim (Bool-cases ((grequest_start (length h)).0 == mpi_success)) [
        | inl success ↦
            let e = (==_iff (grequest_start (length h)).0 mpi_success).0 success in
            started e (rw success rw e refl)
        | inr failure ↦
            refused
              (λ e. true≢false ((==_iff (grequest_start (length h)).0 mpi_success).1 e) failure)
              (rw failure rw
                (free-object_at (h ++ (some box ∷ [])) (length h)
                  (object_at-append_self h (some box)))
                rw (set_end h (some box) none) refl)
      ]

  -- A start always returns. Without memory nothing has changed, if MPI refuses then no box is
  -- left, and otherwise the one new box holds the callbacks and the value of extra_state.
  pub grequest_start-StartOutcome :
      (h : Heap Box) (query_fn free_fn cancel_fn : Procedure) (extra_state request : ℕ)
      → StartOutcome h
          (record {
            query_fn = query_fn;
            free_fn = free_fn;
            cancel_fn = cancel_fn;
            extra_state = extra_state;
          })
          request
          (mpi_grequest_start h query_fn free_fn cancel_fn extra_state request)
  unfolding mpi_grequest_start start_from mpif_grequest_reserve allocate
  grequest_start-StartOutcome h query_fn free_fn cancel_fn extra_state request =
      elim (Bool-cases (room h)) [
        | inl has ↦
            rw (has, mpi_grequest_start, mpif_grequest_reserve, allocate)
              (start_with-StartOutcome h _ request)
        | inr full ↦
            no_memory full (rw (full, mpi_grequest_start, mpif_grequest_reserve, allocate) refl)
      ]
