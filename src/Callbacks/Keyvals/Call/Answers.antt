-- ===== src/Callbacks/Keyvals/Call/Answers.antt =====
-- What each attribute trampoline answers, when its keyval's entry holds two procedures.
use mpif.Prelude.{ℕ, ◌≡◌, ◌≢◌, refl, ◌∙◌, some, List, [], ◌∷◌, arith}
use mpif.Machine.{u32, sign_extend}
use mpif.Abi.{mpi_success}
use mpif.Logical.{mpif_logical2bool}
use mpif.Callbacks.Predefined.{Procedure, null}
use mpif.Callbacks.Keyvals.Lookup.{lookup}
use mpif.Callbacks.Keyvals.{Entry, find_attr_entry}
use mpif.Callbacks.Keyvals.Call.{
  Trampoline, comm_copy_attr, comm_delete_attr, type_copy_attr, type_delete_attr, win_copy_attr,
  win_delete_attr, comm_copy_attr_10, comm_delete_attr_10, CopyArgs, DeleteArgs, Given, World,
  Answer, copied, deleted, entry_at, copy_args, call_copy_attr, call_delete_attr, copy_attr_10,
  delete_attr_10, invoke,
}

-- What the call of a copy procedure is meant to answer.
abbrev pub copy_answer : World → Procedure → (ℕ → ℕ) → CopyArgs → Answer
copy_answer w fn returned args =
    let after = w.run_copy fn args in
    copied (record {
      ierror = after.ierror;
      written = some (
        returned after.attribute_val_out,
        mpif_logical2bool w.logical_true w.logical_false after.flag,
      );
    })

abbrev pub delete_args : ℕ → ℕ → ℕ → ℕ → DeleteArgs
delete_args handle keyval extra_state value = record {
  handle = handle;
  keyval = keyval;
  attribute_val = value;
  extra_state = extra_state;
  ierror = mpi_success;
}

abbrev pub delete_answer : World → Procedure → DeleteArgs → Answer
delete_answer w fn args = deleted (w.run_delete fn args).ierror

-- The answer of each trampoline, when the keyval's procedures are `copy` and `delete`.
abbrev pub answer : World → Procedure → Procedure → Given → Trampoline → Answer
answer w copy delete g comm_copy_attr =
    copy_answer w copy (λ v. v) (copy_args (w.comm_toint g.handle) g.keyval g.extra_state g.value)
answer w copy delete g type_copy_attr =
    copy_answer w copy (λ v. v) (copy_args (w.type_toint g.handle) g.keyval g.extra_state g.value)
answer w copy delete g win_copy_attr =
    copy_answer w copy (λ v. v) (copy_args (w.win_toint g.handle) g.keyval g.extra_state g.value)
answer w copy delete g comm_copy_attr_10 =
    copy_answer w copy sign_extend
      (copy_args (w.comm_toint g.handle) g.keyval (u32 g.extra_state) (u32 g.value))
answer w copy delete g comm_delete_attr =
    delete_answer w delete (delete_args (w.comm_toint g.handle) g.keyval g.extra_state g.value)
answer w copy delete g type_delete_attr =
    delete_answer w delete (delete_args (w.type_toint g.handle) g.keyval g.extra_state g.value)
answer w copy delete g win_delete_attr =
    delete_answer w delete (delete_args (w.win_toint g.handle) g.keyval g.extra_state g.value)
answer w copy delete g comm_delete_attr_10 =
    delete_answer w delete
      (delete_args (w.comm_toint g.handle) g.keyval (u32 g.extra_state) (u32 g.value))

entry_at-lookup : (t : List Entry) (k : ℕ) → entry_at t k ≡ lookup t k
unfolding find_attr_entry lookup
entry_at-lookup [] k = refl
entry_at-lookup (e ∷ t) k = ground (arith, entry_at-lookup t k)

module _ (w : World) (t : List Entry) (g : Given) (e : Entry)
    (at : entry_at t g.keyval ≡ some e) where
  call_copy :
      (f : Procedure) (handle : ℕ)
      → e.copy_fn ≡ f
      → f ≢ null
      → copied (call_copy_attr w t handle g)
        ≡ copy_answer w f (λ v. v) (copy_args handle g.keyval g.extra_state g.value)
  unfolding call_copy_attr
  call_copy null handle is h = absurd (h refl)
  call_copy (Procedure.symbol s) handle is h = rw (at, is, call_copy_attr)
  call_copy (Procedure.user n) handle is h = rw (at, is, call_copy_attr)

  call_delete :
      (f : Procedure) (handle : ℕ)
      → e.delete_fn ≡ f
      → f ≢ null
      → deleted (call_delete_attr w t handle g)
        ≡ delete_answer w f (delete_args handle g.keyval g.extra_state g.value)
  unfolding call_delete_attr
  call_delete null handle is h = absurd (h refl)
  call_delete (Procedure.symbol s) handle is h = rw (at, is, call_delete_attr)
  call_delete (Procedure.user n) handle is h = rw (at, is, call_delete_attr)

  call_copy_10 :
      (f : Procedure)
      → e.copy_fn ≡ f
      → f ≢ null
      → copied (copy_attr_10 w t g)
        ≡ copy_answer w f sign_extend
            (copy_args (w.comm_toint g.handle) g.keyval (u32 g.extra_state) (u32 g.value))
  unfolding copy_attr_10
  call_copy_10 null is h = absurd (h refl)
  call_copy_10 (Procedure.symbol s) is h = rw (at, is, copy_attr_10)
  call_copy_10 (Procedure.user n) is h = rw (at, is, copy_attr_10)

  call_delete_10 :
      (f : Procedure)
      → e.delete_fn ≡ f
      → f ≢ null
      → deleted (delete_attr_10 w t g)
        ≡ delete_answer w f
            (delete_args (w.comm_toint g.handle) g.keyval (u32 g.extra_state) (u32 g.value))
  unfolding delete_attr_10
  call_delete_10 null is h = absurd (h refl)
  call_delete_10 (Procedure.symbol s) is h = rw (at, is, delete_attr_10)
  call_delete_10 (Procedure.user n) is h = rw (at, is, delete_attr_10)

-- With an entry for the keyval that holds both procedures, each trampoline gives its answer.
pub invoke-answer :
    (w : World) (t : List Entry) (g : Given) (e : Entry) (tr : Trampoline)
    → lookup t g.keyval ≡ some e
    → e.copy_fn ≢ null
    → e.delete_fn ≢ null
    → invoke w t tr g ≡ answer w e.copy_fn e.delete_fn g tr
unfolding invoke
invoke-answer w t g e tr at copy delete = go tr
  where
    is : entry_at t g.keyval ≡ some e
    is = entry_at-lookup t g.keyval ∙ at

    go : (tr : Trampoline) → invoke w t tr g ≡ answer w e.copy_fn e.delete_fn g tr
    go comm_copy_attr = call_copy w t g e is e.copy_fn (w.comm_toint g.handle) refl copy
    go type_copy_attr = call_copy w t g e is e.copy_fn (w.type_toint g.handle) refl copy
    go win_copy_attr = call_copy w t g e is e.copy_fn (w.win_toint g.handle) refl copy
    go comm_copy_attr_10 = call_copy_10 w t g e is e.copy_fn refl copy
    go comm_delete_attr = call_delete w t g e is e.delete_fn (w.comm_toint g.handle) refl delete
    go type_delete_attr = call_delete w t g e is e.delete_fn (w.type_toint g.handle) refl delete
    go win_delete_attr = call_delete w t g e is e.delete_fn (w.win_toint g.handle) refl delete
    go comm_delete_attr_10 = call_delete_10 w t g e is e.delete_fn refl delete
