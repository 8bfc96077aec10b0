-- ===== src/Callbacks/Errhandlers/Create.antt =====
-- The routines that make an error handler: the four of gen/mpif_functions.c, and the removed
-- MPI_ERRHANDLER_CREATE of src/mpif_removed.c. MPI's own routine is the parameter `create`: its
-- error code, and what it writes to the new handle, if anything.
use mpif.Prelude.{
  ◌⊎◌, ℕ, ◌≡◌, ◌≢◌, inl, inr, refl, ap, ◌∙◌, Option, none, some, List, arith, ◌==◌, if◌then◌else◌,
  ==_iff, Bool-cases, true≢false,
}
use mpif.Prelude.Int.{ℤ}
use mpif.Abi.{mpi_success, mpi_err_other}
use mpif.Callbacks.Predefined.{Procedure}
use mpif.Callbacks.Slots.{Slot}
use mpif.Callbacks.Slots.Laws.{IsClean, Claimed}
use mpif.Callbacks.Errhandlers
use mpif.Callbacks.Errhandlers.{
  Kind, comm, out_of_range, Trampoline, Reserved, mpif_errhandler_reserve, mpif_errhandler_cancel,
}
use mpif.Callbacks.Errhandlers.Pool.{
  IsPool, trampoline_of, ReserveOutcome, reserved, no_room, errhandler_reserve-ReserveOutcome,
  errhandler_cancel-reserve,
}

-- `errhandler` is the caller's variable after the call.
pub record Created : Type 0 where
  pub slots : List Slot
  pub errhandler : ℕ
  pub ierror : ℕ

-- A call that succeeds has claimed a slot for the procedure, and one that fails has left the pool
-- as it was.
abbrev pub Atomic : List Slot → Procedure → Created → Type 0
Atomic slots callback r =
    ((r.ierror ≢ mpi_success) × (r.slots ≡ slots))
    ⊎ ((r.ierror ≡ mpi_success) × ((i : ℕ) × Claimed slots callback i r.slots))

-- And the caller's variable is as it was, if the call fails.
abbrev pub Keeps : ℕ → Created → Type 0
Keeps errhandler r = (r.errhandler ≡ errhandler) ⊎ (r.ierror ≡ mpi_success)

abbrev written : ℕ → Option ℕ → ℕ
written x none = x
written x (some y) = y

module _ (toint : ℕ → ℕ) (null_handle : ℕ) (create : Kind → Trampoline → ℕ × Option ℕ) where
  abbrev after : List Slot → ℤ → ℕ → List Slot
  after slots slot ierror =
      if ierror == mpi_success then slots else mpif_errhandler_cancel slots slot

  -- The variable is set after a failure too, from the null handle.
  create_with : List Slot → ℤ → ℕ × Option ℕ → Created
  create_with slots slot (ierror, handle) = record {
    slots = after slots slot ierror;
    errhandler = toint (written null_handle handle);
    ierror = ierror;
  }

  create_from : Kind → Reserved → ℕ → Created
  unfolding create_with
  create_from kind r errhandler = elim r.function [
    | none ↦ record { slots = r.slots; errhandler = errhandler; ierror = mpi_err_other }
    | some f ↦ create_with r.slots r.slot (create kind f)
  ]

  unfoldable pub mpi_create_errhandler : Kind → List Slot → Procedure → ℕ → Created
  unfolding create_from
  mpi_create_errhandler kind slots errhandler_fn errhandler =
      create_from kind (mpif_errhandler_reserve slots errhandler_fn kind) errhandler

  -- The four entry points.
  abbrev pub mpi_comm_create_errhandler : List Slot → Procedure → ℕ → Created
  mpi_comm_create_errhandler = mpi_create_errhandler comm

  abbrev pub mpi_win_create_errhandler : List Slot → Procedure → ℕ → Created
  mpi_win_create_errhandler = mpi_create_errhandler Kind.win

  abbrev pub mpi_file_create_errhandler : List Slot → Procedure → ℕ → Created
  mpi_file_create_errhandler = mpi_create_errhandler Kind.file

  abbrev pub mpi_session_create_errhandler : List Slot → Procedure → ℕ → Created
  mpi_session_create_errhandler = mpi_create_errhandler Kind.session

  -- The removed routine sets the variable only on success.
  old_create_with : List Slot → ℤ → ℕ → ℕ × Option ℕ → Created
  old_create_with slots slot errhandler (ierror, handle) = record {
    slots = after slots slot ierror;
    errhandler = if ierror == mpi_success then toint (written null_handle handle) else errhandler;
    ierror = ierror;
  }

  old_create_from : Reserved → ℕ → Created
  unfolding old_create_with
  old_create_from r errhandler = elim r.function [
    | none ↦ record { slots = r.slots; errhandler = errhandler; ierror = mpi_err_other }
    | some f ↦ old_create_with r.slots r.slot errhandler (create comm f)
  ]

  unfoldable pub mpi_errhandler_create : List Slot → Procedure → ℕ → Created
  unfolding old_create_from
  mpi_errhandler_create slots function errhandler =
      old_create_from (mpif_errhandler_reserve slots function comm) errhandler

  -- What the two bodies share: the pool after the call, from MPI's error code.
  after-Atomic :
      (slots : List Slot) (callback : Procedure) (r : Reserved) (ierror handle : ℕ)
      → mpif_errhandler_cancel r.slots r.slot ≡ slots
      → (i : ℕ) × Claimed slots callback i r.slots
      → Atomic slots callback
          (record { slots = after r.slots r.slot ierror; errhandler = handle; ierror = ierror })
  after-Atomic slots callback r ierror handle undone claimed =
      elim (Bool-cases (ierror == mpi_success)) [
        | inl success ↦ inr ((==_iff ierror mpi_success).0 success, rw success claimed)
        | inr failure ↦
            inl ((λ e. true≢false ((==_iff ierror mpi_success).1 e) failure), rw failure undone)
      ]

  module _ (slots : List Slot) (callback : Procedure) (errhandler : ℕ) (kind : Kind) where
    create_from-Atomic :
        (r : Reserved) (t : Trampoline) (i : ℕ)
        → trampoline_of kind i ≡ some t
        → r.function ≡ trampoline_of kind i
        → mpif_errhandler_cancel r.slots r.slot ≡ slots
        → Claimed slots callback i r.slots
        → Atomic slots callback (create_from kind r errhandler)
    unfolding create_from
    create_from-Atomic r t i e f undone c =
        rw (f ∙ e, create_from)
          (after-Atomic slots callback r (create kind t).0
            (toint (written null_handle (create kind t).1)) undone (i, c))

  trampoline_some :
      (kind : Kind) (i : ℕ)
      → kind ≢ out_of_range
      → (t : Trampoline) × (trampoline_of kind i ≡ some t)
  trampoline_some Kind.comm i h = (_, refl)
  trampoline_some Kind.win i h = (_, refl)
  trampoline_some Kind.file i h = (_, refl)
  trampoline_some Kind.session i h = (_, refl)
  trampoline_some Kind.out_of_range i h = absurd (h refl)

  -- In a pool of 64 slots whose free ones hold no procedure, making an error handler is all or
  -- nothing, for each of the four kinds of object: on success a slot that was free holds the
  -- procedure, and after an error, of MPI or of a full pool, every slot is as it was.
  pub create_errhandler-Atomic :
      (kind : Kind) (slots : List Slot) (callback : Procedure) (errhandler : ℕ)
      → IsPool slots
      → IsClean slots
      → kind ≢ out_of_range
      → Atomic slots callback (mpi_create_errhandler kind slots callback errhandler)
  unfolding mpi_create_errhandler
  create_errhandler-Atomic kind slots callback errhandler pool clean known =
      go (errhandler_reserve-ReserveOutcome slots callback kind pool known)
    where
      r : Reserved
      r = mpif_errhandler_reserve slots callback kind

      go :
          ReserveOutcome slots callback kind r
          → Atomic slots callback (create_from kind r errhandler)
      go (no_room full e) =
          rw (e, create_from) (inl ((λ q. omega (arith, q)), ap (λ (q : Reserved). q.slots) e))
      go (reserved i at f c) =
          let (t, e) = trampoline_some kind i known in
          create_from-Atomic slots callback errhandler kind r t i e f
            (errhandler_cancel-reserve slots callback kind clean known) c

  old_create_with-errhandler :
      (slots : List Slot) (slot : ℤ) (errhandler : ℕ) (result : ℕ × Option ℕ)
      → Keeps errhandler (old_create_with slots slot errhandler result)
  unfolding old_create_with
  old_create_with-errhandler slots slot errhandler (ierror, handle) =
      elim (Bool-cases (ierror == mpi_success)) [
        | inl success ↦ inr ((==_iff ierror mpi_success).0 success)
        | inr failure ↦ inl (rw failure)
      ]

  -- So it is for the removed routine, which also leaves the caller's variable alone on failure.
  pub errhandler_create-Atomic :
      (slots : List Slot) (callback : Procedure) (errhandler : ℕ)
      → IsPool slots
      → IsClean slots
      → Atomic slots callback (mpi_errhandler_create slots callback errhandler)
        × Keeps errhandler (mpi_errhandler_create slots callback errhandler)
  unfolding mpi_errhandler_create
  errhandler_create-Atomic slots callback errhandler pool clean =
      go (errhandler_reserve-ReserveOutcome slots callback comm pool (λ e. cc))
    where
      r : Reserved
      r = mpif_errhandler_reserve slots callback comm

      go :
          ReserveOutcome slots callback comm r
          → Atomic slots callback (old_create_from r errhandler)
            × Keeps errhandler (old_create_from r errhandler)
      go (no_room full e) =
          rw (e, old_create_from)
            ((inl ((λ q. omega (arith, q)), ap (λ (q : Reserved). q.slots) e)), inl refl)
      go (reserved i at f c) =
          rw (f, old_create_from)
            (
              after-Atomic slots callback r (create comm t).0 (handle_of (create comm t))
                  (errhandler_cancel-reserve slots callback comm clean (λ e. cc)) (i, c),
              old_create_with-errhandler r.slots r.slot errhandler (create comm t),
            )
        where
          t : Trampoline
          t = Errhandlers.comm_errhandler_trampoline i

          handle_of : ℕ × Option ℕ → ℕ
          handle_of (ierror, handle) =
              if ierror == mpi_success then toint (written null_handle handle) else errhandler
