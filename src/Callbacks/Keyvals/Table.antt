-- ===== src/Callbacks/Keyvals/Table.antt =====
-- The table as a map from keyvals to pairs of procedures.
use mpif.Prelude.{
  ℕ, ◌≡◌, ◌≢◌, inl, inr, refl, ap, ◌∙◌, Option, none, some, Bool, true, false, List, ◌==◌,
  if◌then◌else◌, length, Option-cases,
}
use mpif.Abi.{mpi_success, mpi_err_other, mpi_keyval_invalid}
use mpif.Callbacks.Predefined.{Procedure, null, Sentinel, mpif_predefined_callback}
use mpif.Callbacks.Keyvals
use mpif.Callbacks.Keyvals.{
  Entry, Kind, find_attr_entry, modify, claim, publish, record_callback, find_or_claim,
  mpif_register_attr_callback,
}
use mpif.Callbacks.Keyvals.Lookup.{
  lookup, find_none-lookup, find_some-lookup, lookup-modify_found, lookup-modify_free,
  modify-modify, length-modify,
}

abbrev pub new_entry : ℕ → Entry
new_entry k = record { keyval = k; copy_fn = null; delete_fn = null }

-- Claiming an entry and publishing it makes it a new entry for the keyval.
publish-claimed :
    (t : List Entry) (i k : ℕ)
    → publish (modify t i (λ e. record e { keyval = Keyvals.keyval_reserved })) i k
      ≡ modify t i (λ _. new_entry k)
unfolding publish
publish-claimed t i k = rw (modify-modify t i, modify-modify t i, modify-modify t i)

abbrev pub entry_or_new : Option Entry → ℕ → Entry
entry_or_new none k = new_entry k
entry_or_new (some e) k = e

-- Which of the two procedures of a keyval a callback of a kind is.
abbrev pub is_copy : Kind → Bool
is_copy Kind.comm_copy = true
is_copy Kind.comm_copy_10 = true
is_copy Kind.type_copy = true
is_copy Kind.win_copy = true
is_copy Kind.comm_delete = false
is_copy Kind.comm_delete_10 = false
is_copy Kind.type_delete = false
is_copy Kind.win_delete = false
is_copy Kind.unknown = false

-- The entry `after` has the callback in the place of its kind, and the rest of `before`.
pub record IsRecorded (kind : Kind) (callback : Procedure) (before after : Entry) : Type 0 where
  pub same_keyval : after.keyval ≡ before.keyval
  pub copied : after.copy_fn ≡ (if is_copy kind then callback else before.copy_fn)
  pub deleted : after.delete_fn ≡ (if is_copy kind then before.delete_fn else callback)

record_callback-IsRecorded :
    (kind : Kind) (callback : Procedure) (e : Entry)
    → IsRecorded kind callback e (record_callback kind callback e)
record_callback-IsRecorded Kind.comm_copy callback e = record {
  same_keyval = refl;
  copied = refl;
  deleted = refl;
}
record_callback-IsRecorded Kind.comm_copy_10 callback e = record {
  same_keyval = refl;
  copied = refl;
  deleted = refl;
}
record_callback-IsRecorded Kind.type_copy callback e = record {
  same_keyval = refl;
  copied = refl;
  deleted = refl;
}
record_callback-IsRecorded Kind.win_copy callback e = record {
  same_keyval = refl;
  copied = refl;
  deleted = refl;
}
record_callback-IsRecorded Kind.comm_delete callback e = record {
  same_keyval = refl;
  copied = refl;
  deleted = refl;
}
record_callback-IsRecorded Kind.comm_delete_10 callback e = record {
  same_keyval = refl;
  copied = refl;
  deleted = refl;
}
record_callback-IsRecorded Kind.type_delete callback e = record {
  same_keyval = refl;
  copied = refl;
  deleted = refl;
}
record_callback-IsRecorded Kind.win_delete callback e = record {
  same_keyval = refl;
  copied = refl;
  deleted = refl;
}
record_callback-IsRecorded Kind.unknown callback e = record {
  same_keyval = refl;
  copied = refl;
  deleted = refl;
}

-- The three outcomes of a registration. `recorded` says that the keyval's entry becomes one with the
-- procedure in the place of its kind, beside the other procedure that it had, if it had one,
-- and that nothing changes for any other keyval.
pub data Outcome (t : List Entry) (k : ℕ) (kind : Kind) (callback : Procedure) (r : List Entry × ℕ)
    : Type 0 where
  predefined :
      (s : Sentinel)
      → mpif_predefined_callback callback ≡ some s
      → r ≡ (t, mpi_success)
      → Outcome t k kind callback r
  recorded :
      mpif_predefined_callback callback ≡ none
      → r.1 ≡ mpi_success
      → length r.0 ≡ length t
      → (after : Entry) → IsRecorded kind callback (entry_or_new (lookup t k) k) after
      → ((j : ℕ)
          → j ≢ mpi_keyval_invalid
          → lookup r.0 j ≡ (if k == j then some after else lookup t j))
      → Outcome t k kind callback r
  no_room :
      mpif_predefined_callback callback ≡ none
      → lookup t k ≡ none
      → find_attr_entry t mpi_keyval_invalid ≡ none
      → r ≡ (t, mpi_err_other)
      → Outcome t k kind callback r

-- Which entry is written to: the one found, or a new one in the place of a free one.
data Target (t : List Entry) (k : ℕ) (r : Option (ℕ × List Entry)) : Type 0 where
  none_left :
      lookup t k ≡ none → find_attr_entry t mpi_keyval_invalid ≡ none → r ≡ none → Target t k r
  found : (i : ℕ) → find_attr_entry t k ≡ some i → r ≡ some (i, t) → Target t k r
  made :
      (i : ℕ)
      → lookup t k ≡ none
      → find_attr_entry t mpi_keyval_invalid ≡ some i
      → r ≡ some (i, modify t i (λ _. new_entry k))
      → Target t k r

find_or_claim-Target : (t : List Entry) (k : ℕ) → Target t k (find_or_claim t k)
unfolding find_or_claim claim
find_or_claim-Target t k = elim (Option-cases (find_attr_entry t k)) [
  | inr (i, hit) ↦ found i hit (rw (hit, find_or_claim))
  | inl miss ↦ elim (Option-cases (find_attr_entry t mpi_keyval_invalid)) [
    | inl full ↦ none_left (find_none-lookup t k miss) full (rw (miss, full, find_or_claim, claim))
    | inr (i, free) ↦ made i (find_none-lookup t k miss) free (
        rw (miss, free, find_or_claim, claim)
          (ap (λ (u : List Entry). some (i, u)) (publish-claimed t i k)))
  ]
]

module _ (t : List Entry) (k : ℕ) (kind : Kind) (callback : Procedure)
    (user : mpif_predefined_callback callback ≡ none) where
  Target-Outcome :
      Target t k (find_or_claim t k)
      → Outcome t k kind callback (mpif_register_attr_callback t k kind callback)
  unfolding mpif_register_attr_callback
  Target-Outcome (none_left fresh full e) =
      no_room user fresh full (rw (user, e, mpif_register_attr_callback))
  Target-Outcome (found i hit e) =
      let (x, at) = find_some-lookup t k i hit in
      rw (user, e, mpif_register_attr_callback)
        (recorded user refl (length-modify t i (record_callback kind callback))
          (record_callback kind callback x) (rw at (record_callback-IsRecorded kind callback x))
          (λ j valid.
            lookup-modify_found t k i (record_callback kind callback)
              (λ e. (record_callback-IsRecorded kind callback e).same_keyval) hit j
            ∙ rw at))
  Target-Outcome (made i fresh free e) =
      rw (user, e, mpif_register_attr_callback, modify-modify t i)
        (recorded user refl (length-modify t i _) (record_callback kind callback (new_entry k))
          (rw fresh (record_callback-IsRecorded kind callback (new_entry k)))
          (λ j valid.
            lookup-modify_free t k i (record_callback kind callback (new_entry k))
              (record_callback-IsRecorded kind callback (new_entry k)).same_keyval free fresh j
              valid))

-- Registering a callback for a keyval has one of three outcomes. A predefined procedure changes
-- nothing and succeeds. A procedure of the user is stored in the keyval's entry, as the copy
-- procedure for a kind of copy and as the delete procedure for another, the entry's other procedure
-- stays, or is NULL in a new entry, and the entries of the other valid keyvals stay. Without an entry for the keyval or a free one, the
-- table stays as it is and the error is MPI_ERR_OTHER.
pub register-Outcome :
    (t : List Entry) (k : ℕ) (kind : Kind) (callback : Procedure)
    → Outcome t k kind callback (mpif_register_attr_callback t k kind callback)
unfolding mpif_register_attr_callback
register-Outcome t k kind callback = elim (Option-cases (mpif_predefined_callback callback)) [
  | inl user ↦ Target-Outcome t k kind callback user (find_or_claim-Target t k)
  | inr (s, known) ↦ predefined s known (rw (known, mpif_register_attr_callback))
]
