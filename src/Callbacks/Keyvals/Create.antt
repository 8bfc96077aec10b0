-- ===== src/Callbacks/Keyvals/Create.antt =====
-- gen/mpif_functions.c: mpi_comm_create_keyval_, mpi_type_create_keyval_, mpi_win_create_keyval_ and
-- mpi_keyval_create_, which differ in the kinds of their callbacks and in MPI's routine. That is
-- the parameter `create`: from the two function pointers, its error code and the new keyval.
use mpif.Prelude.{
  ℕ, ◌≡◌, ◌≢◌, refl, sym, ap, ◌∙◌, Option, none, some, List, arith, ◌==◌, if◌then◌else◌, Bool-cases,
  inl, inr, ==_iff, ==_refl,
}
use mpif.Abi.{mpi_success, mpi_keyval_invalid}
use mpif.Callbacks.Predefined.{Procedure, Sentinel, null, mpif_predefined_callback}
use mpif.Callbacks.Keyvals.{
  Entry, Kind, comm_copy, comm_delete, type_copy, type_delete, win_copy, win_delete, comm_copy_10,
  comm_delete_10, mpif_register_attr_callback,
}
use mpif.Callbacks.Keyvals.Lookup.{lookup}
use mpif.Callbacks.Keyvals.Table.{
  Outcome, predefined, recorded, no_room, register-Outcome, entry_or_new, is_copy, IsRecorded,
}
use mpif.Callbacks.Keyvals.Call.{Trampoline, mpif_attr_trampoline, World, Given, invoke}
use mpif.Callbacks.Keyvals.Call.Answers.{answer, invoke-answer}

-- A function pointer that is handed to MPI.
pub data Function : Type 0 where
  sentinel : Sentinel → Function
  trampoline : Option Trampoline → Function

c_function : Procedure → Kind → Function
c_function callback kind = elim (mpif_predefined_callback callback) [
  | some s ↦ sentinel s
  | none ↦ trampoline (mpif_attr_trampoline kind)
]

pub record Created : Type 0 where
  pub entries : List Entry
  pub keyval : ℕ
  pub ierror : ℕ

-- The object that the keyval is for, or the MPI-1 routine.
pub data Object : Type 0 where
  comm type win mpi_1 : Object

abbrev pub copy_kind : Object → Kind
copy_kind comm = comm_copy
copy_kind type = type_copy
copy_kind win = win_copy
copy_kind mpi_1 = comm_copy_10

abbrev pub delete_kind : Object → Kind
delete_kind comm = comm_delete
delete_kind type = type_delete
delete_kind win = win_delete
delete_kind mpi_1 = comm_delete_10

-- The two registrations, each only if all went well before it.
register_both : List Entry → Object → Procedure → Procedure → ℕ × ℕ → Created
register_both entries object copy delete (ierror, keyval) =
    let first = mpif_register_attr_callback entries keyval (copy_kind object) copy in
    let second = mpif_register_attr_callback first.0 keyval (delete_kind object) delete in
    if ierror == mpi_success
    then (if first.1 == mpi_success
        then record { entries = second.0; keyval = keyval; ierror = second.1 }
        else record { entries = first.0; keyval = keyval; ierror = first.1 })
    else record { entries = entries; keyval = keyval; ierror = ierror }

unfoldable pub mpi_create_keyval :
    (Object → Function → Function → ℕ × ℕ) → List Entry → Object → Procedure → Procedure → Created
unfolding register_both c_function
mpi_create_keyval create entries object copy delete =
    register_both entries object copy delete
      (create object (c_function copy (copy_kind object)) (c_function delete (delete_kind object)))

-- The four entry points.
module _ (create : Object → Function → Function → ℕ × ℕ) where
  abbrev pub mpi_comm_create_keyval : List Entry → Procedure → Procedure → Created
  mpi_comm_create_keyval entries = mpi_create_keyval create entries comm

  abbrev pub mpi_type_create_keyval : List Entry → Procedure → Procedure → Created
  mpi_type_create_keyval entries = mpi_create_keyval create entries type

  abbrev pub mpi_win_create_keyval : List Entry → Procedure → Procedure → Created
  mpi_win_create_keyval entries = mpi_create_keyval create entries win

  abbrev pub mpi_keyval_create : List Entry → Procedure → Procedure → Created
  mpi_keyval_create entries = mpi_create_keyval create entries mpi_1

-- After a keyval has been made with two procedures of the user, its entry holds these two, and the
-- other keyvals have the procedures that they had.
pub record Stored (t : List Entry) (copy delete : Procedure) (r : Created) : Type 0 where
  pub entry : Entry
  pub at : lookup r.entries r.keyval ≡ some entry
  pub is_copy : entry.copy_fn ≡ copy
  pub is_delete : entry.delete_fn ≡ delete
  pub others : (j : ℕ) → j ≢ mpi_keyval_invalid → j ≢ r.keyval → lookup r.entries j ≡ lookup t j

abbrev IsUser : Procedure → Type 0
IsUser f = mpif_predefined_callback f ≡ none

if_copy : (object : Object) (f g : Procedure) → (if is_copy (copy_kind object) then f else g) ≡ f
if_copy comm f g = refl
if_copy type f g = refl
if_copy win f g = refl
if_copy mpi_1 f g = refl

if_delete :
    (object : Object) (f g : Procedure) → (if is_copy (delete_kind object) then f else g) ≡ g
if_delete comm f g = refl
if_delete type f g = refl
if_delete win f g = refl
if_delete mpi_1 f g = refl

-- What a registration that succeeds says of a user's procedure.
record Written (t : List Entry) (k : ℕ) (kind : Kind) (f : Procedure) (u : List Entry)
    : Type 0 where
  entry : Entry
  self : lookup u k ≡ some entry
  is_recorded : IsRecorded kind f (entry_or_new (lookup t k) k) entry
  others : (j : ℕ) → j ≢ mpi_keyval_invalid → j ≢ k → lookup u j ≡ lookup t j

register-Written :
    (t : List Entry) (k : ℕ) (kind : Kind) (f : Procedure)
    → k ≢ mpi_keyval_invalid
    → IsUser f
    → (mpif_register_attr_callback t k kind f).1 ≡ mpi_success
    → Written t k kind f (mpif_register_attr_callback t k kind f).0
register-Written t k kind f valid user success = go (register-Outcome t k kind f)
  where
    r : List Entry × ℕ
    r = mpif_register_attr_callback t k kind f

    go : Outcome t k kind f r → Written t k kind f r.0
    go (predefined s known e) = absurd (ground arith)
    go (no_room u fresh full e) = absurd (ground arith)
    go (recorded u e len after is at) = record {
      entry = after;
      self = at k valid ∙ rw (==_refl k);
      is_recorded = is;
      others = λ j v ne. at j v ∙ ground arith;
    }

register_both-Stored :
    (t : List Entry) (object : Object) (copy delete : Procedure) (result : ℕ × ℕ)
    → IsUser copy
    → IsUser delete
    → result.1 ≢ mpi_keyval_invalid
    → (register_both t object copy delete result).ierror ≡ mpi_success
    → Stored t copy delete (register_both t object copy delete result)
unfolding register_both
register_both-Stored t object copy delete (ierror, k) uc ud valid success =
    elim (Bool-cases (ierror == mpi_success)) [
      | inr failed ↦ absurd (ground arith)
      | inl made ↦ elim (Bool-cases (first.1 == mpi_success)) [
        | inr failed ↦ absurd (ground arith)
        | inl ok_copy ↦
            let w1 =
              register-Written t k (copy_kind object) copy valid uc
                ((==_iff first.1 mpi_success).0 ok_copy) in
            let w2 =
              register-Written first.0 k (delete_kind object) delete valid ud (ground arith) in
            rw (made, ok_copy)
              record {
                entry = w2.entry;
                at = w2.self;
                is_copy =
                    w2.is_recorded.copied
                    ∙ if_delete object delete _
                    ∙ ap (λ o. (entry_or_new o k).copy_fn) w1.self
                    ∙ w1.is_recorded.copied
                    ∙ if_copy object copy _;
                is_delete = w2.is_recorded.deleted ∙ if_delete object _ delete;
                others = λ j v ne. w2.others j v ne ∙ w1.others j v ne;
              }
      ]
    ]
  where
    first : List Entry × ℕ
    first = mpif_register_attr_callback t k (copy_kind object) copy

-- When a wrapper succeeds with two procedures of the user, and the keyval that MPI makes is never the
-- invalid one, the entry that is found for the keyval holds these two procedures, and for every
-- other valid keyval the entry is found that was found before.
pub create_keyval-Stored :
    (create : Object → Function → Function → ℕ × ℕ) (t : List Entry) (object : Object)
    (copy delete : Procedure)
    → IsUser copy
    → IsUser delete
    → ((f g : Function) → (create object f g).1 ≢ mpi_keyval_invalid)
    → (mpi_create_keyval create t object copy delete).ierror ≡ mpi_success
    → Stored t copy delete (mpi_create_keyval create t object copy delete)
unfolding mpi_create_keyval
create_keyval-Stored create t object copy delete uc ud valid =
    let f = c_function copy (copy_kind object) in
    let g = c_function delete (delete_kind object) in
    register_both-Stored t object copy delete (create object f g) uc ud (valid f g)

-- After a wrapper has succeeded with two procedures of the user, which are not NULL, every trampoline that is called
-- for the new keyval gives the answer of these two: it calls the copy or the delete procedure with
-- the arguments of its form, and returns what that left.
pub created_keyval_calls_its_procedures :
    (create : Object → Function → Function → ℕ × ℕ) (t : List Entry) (object : Object)
    (copy delete : Procedure) (w : World) (tr : Trampoline) (g : Given)
    → IsUser copy
    → IsUser delete
    → copy ≢ null
    → delete ≢ null
    → ((f g : Function) → (create object f g).1 ≢ mpi_keyval_invalid)
    → (mpi_create_keyval create t object copy delete).ierror ≡ mpi_success
    → g.keyval ≡ (mpi_create_keyval create t object copy delete).keyval
    → invoke w (mpi_create_keyval create t object copy delete).entries tr g
      ≡ answer w copy delete g tr
created_keyval_calls_its_procedures create t object copy delete w tr g uc ud nc nd valid success
      is =
    invoke-answer w r.entries g s.entry tr (ap (lookup r.entries) is ∙ s.at)
      (λ e. nc (sym s.is_copy ∙ e)) (λ e. nd (sym s.is_delete ∙ e))
    ∙ ap (λ f. answer w f s.entry.delete_fn g tr) s.is_copy
    ∙ ap (λ f. answer w copy f g tr) s.is_delete
  where
    r : Created
    r = mpi_create_keyval create t object copy delete

    s : Stored t copy delete r
    s = create_keyval-Stored create t object copy delete uc ud valid success
