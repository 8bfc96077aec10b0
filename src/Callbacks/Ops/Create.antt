-- ===== src/Callbacks/Ops/Create.antt =====
-- gen/mpif_functions.c, mpi_op_create_ and mpi_op_create_c_. MPI's own routine is the parameter
-- `op_create`: its error code, and what it writes to the new handle, if anything.
use mpif.Prelude.{
  ◌⊎◌, ℕ, ◌≡◌, ◌≢◌, inl, inr, ap, Bool, Option, none, some, List, arith, ◌==◌, if◌then◌else◌,
  ==_iff, Bool-cases, true≢false,
}
use mpif.Prelude.Int.{ℤ}
use mpif.Abi.{mpi_success, mpi_err_other}
use mpif.Logical.{mpif_logical2bool}
use mpif.Callbacks.Predefined.{Procedure}
use mpif.Callbacks.Slots.{Slot}
use mpif.Callbacks.Slots.Laws.{IsClean, Claimed}
use mpif.Callbacks.Ops.{Trampoline, Reserved, mpif_op_reserve, mpif_op_cancel}
use mpif.Callbacks.Ops.Pool.{
  IsPool, trampoline_of, ReserveOutcome, reserved, no_room, op_reserve-ReserveOutcome,
  op_cancel-reserve,
}

pub record Created : Type 0 where
  pub slots : List Slot
  pub op : ℕ
  pub ierror : ℕ

-- A call that succeeds has claimed a slot for the procedure, and one that fails has left the pool
-- as it was.
abbrev pub Atomic : List Slot → Procedure → Created → Type 0
Atomic slots user_fn r =
    ((r.ierror ≢ mpi_success) × (r.slots ≡ slots))
    ⊎ ((r.ierror ≡ mpi_success) × ((i : ℕ) × Claimed slots user_fn i r.slots))

-- `x = init;` and then a call that may write `x`
abbrev pub written {ℓ} : {A : Type ℓ} → A → Option A → A
written x none = x
written x (some y) = y

module _ (logical_true logical_false : ℕ) (op_toint : ℕ → ℕ) (op_null : ℕ)
    (op_create : Trampoline → ℕ → ℕ × Option ℕ) where
  create_with : List Slot → ℤ → ℕ × Option ℕ → Created
  create_with slots slot (ierror, c_op) = record {
    slots = if ierror == mpi_success then slots else mpif_op_cancel slots slot;
    op = op_toint (written op_null c_op);
    ierror = ierror;
  }

  create_from : Reserved → ℕ → Created
  unfolding create_with
  create_from r commute = elim r.function [
    | none ↦ record { slots = r.slots; op = op_toint op_null; ierror = mpi_err_other }
    | some f ↦
        create_with r.slots r.slot
          (op_create f (mpif_logical2bool logical_true logical_false commute))
  ]

  -- `large` tells the two entry points apart, which differ in the table and in MPI's routine.
  unfoldable pub mpi_op_create : Bool → List Slot → Procedure → ℕ → Created
  unfolding create_from
  mpi_op_create large op_slots user_fn commute =
      create_from (mpif_op_reserve op_slots user_fn large) commute

  create_with-Atomic :
      (slots : List Slot) (user_fn : Procedure) (r : Reserved) (result : ℕ × Option ℕ)
      → mpif_op_cancel r.slots r.slot ≡ slots
      → (i : ℕ) × Claimed slots user_fn i r.slots
      → Atomic slots user_fn (create_with r.slots r.slot result)
  unfolding create_with
  create_with-Atomic slots user_fn r (ierror, c_op) undone claimed =
      elim (Bool-cases (ierror == mpi_success)) [
        | inl success ↦ inr ((==_iff ierror mpi_success).0 success, rw success claimed)
        | inr failure ↦
            inl ((λ e. true≢false ((==_iff ierror mpi_success).1 e) failure), rw failure undone)
      ]

  create_from-Atomic :
      (slots : List Slot) (user_fn : Procedure) (large : Bool) (r : Reserved) (commute : ℕ)
      → ReserveOutcome slots user_fn large r
      → mpif_op_cancel r.slots r.slot ≡ slots
      → Atomic slots user_fn (create_from r commute)
  unfolding create_from
  create_from-Atomic slots user_fn large r commute (reserved i at f c) undone =
      rw (f, create_from)
        (create_with-Atomic slots user_fn r
          (op_create (trampoline_of large i) (mpif_logical2bool logical_true logical_false commute))
          undone (i, c))
  create_from-Atomic slots user_fn large r commute (no_room full e) undone =
      rw (e, create_from) (inl ((λ q. omega (arith, q)), ap (λ (q : Reserved). q.slots) e))

  -- In a pool of 128 slots whose free ones hold no procedure, making an operator is all or nothing,
  -- through either entry point: on success a slot that was free holds the procedure, and after an
  -- error, of MPI or of a full pool, every slot is as it was.
  pub op_create-Atomic :
      (large : Bool) (slots : List Slot) (user_fn : Procedure) (commute : ℕ)
      → IsPool slots
      → IsClean slots
      → Atomic slots user_fn (mpi_op_create large slots user_fn commute)
  unfolding mpi_op_create
  op_create-Atomic large slots user_fn commute pool clean =
      create_from-Atomic slots user_fn large (mpif_op_reserve slots user_fn large) commute
        (op_reserve-ReserveOutcome slots user_fn large pool)
        (op_cancel-reserve slots user_fn large clean)
