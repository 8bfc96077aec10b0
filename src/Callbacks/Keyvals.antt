-- ===== src/Callbacks/Keyvals.antt =====
-- src/mpif_callbacks.c, the attribute callbacks: a table from keyvals to Fortran procedures, of 256
-- entries that are never removed, and the trampolines that MPI calls. The calls are taken one after
-- another. The `MPI_*_toint` of mpi.h are parameters.
pub mod Lookup
pub mod Table
pub mod Call
pub mod Create
mod Tests
use mpif.Prelude.{
  ℕ, zero, suc, ◌≡◌, Option, none, some, List, [], ◌∷◌, ◌==◌, if◌then◌else◌, replicate,
}
use mathlib.Core.Option
use mpif.Abi.{mpi_success, mpi_err_other, mpi_keyval_invalid}
use mpif.Callbacks.Predefined.{Procedure, null, mpif_predefined_callback}

abbrev pub mpif_max_keyvals : ℕ
mpif_max_keyvals = 256

-- -1 as a 32-bit pattern
abbrev pub keyval_reserved : ℕ
keyval_reserved = 0xffff_ffff

-- `struct attr_entry`
pub record Entry : Type 0 where
  pub keyval : ℕ
  pub copy_fn : Procedure
  pub delete_fn : Procedure

abbrev pub initial : List Entry
initial =
    replicate mpif_max_keyvals
      (record { keyval = mpi_keyval_invalid; copy_fn = null; delete_fn = null })

-- `enum mpif_attr_callback_kind`; `unknown` is any other number.
pub data Kind : Type 0 where
  comm_copy comm_delete type_copy type_delete win_copy win_delete : Kind
  comm_copy_10 comm_delete_10 unknown : Kind

-- The index of the first entry with the keyval; none is NULL.
unfoldable pub find_attr_entry : List Entry → ℕ → Option ℕ
find_attr_entry [] keyval = none
find_attr_entry (e ∷ entries) keyval =
    if e.keyval == keyval then some 0 else Option.map suc (find_attr_entry entries keyval)

-- An assignment to fields of entry `i`.
pub modify : List Entry → ℕ → (Entry → Entry) → List Entry
modify [] i f = []
modify (e ∷ entries) zero f = f e ∷ entries
modify (e ∷ entries) (suc i) f = e ∷ modify entries i f

-- The compare-exchange at each entry, until one succeeds.
pub claim : List Entry → Option (ℕ × List Entry)
unfolding find_attr_entry modify
claim entries = elim (find_attr_entry entries mpi_keyval_invalid) [
  | none ↦ none
  | some i ↦ some (i, modify entries i (λ e. record e { keyval = keyval_reserved }))
]

-- The procedures are cleared before the entry is published under its keyval.
publish : List Entry → ℕ → ℕ → List Entry
unfolding modify
publish entries i keyval =
    let entries = modify entries i (λ e. record e { copy_fn = null }) in
    let entries = modify entries i (λ e. record e { delete_fn = null }) in
    modify entries i (λ e. record e { keyval = keyval })

-- The `switch` on the kind, at one entry.
abbrev pub record_callback : Kind → Procedure → Entry → Entry
record_callback comm_copy callback e = record e { copy_fn = callback }
record_callback type_copy callback e = record e { copy_fn = callback }
record_callback win_copy callback e = record e { copy_fn = callback }
record_callback comm_copy_10 callback e = record e { copy_fn = callback }
record_callback _ callback e = record e { delete_fn = callback }

-- The entry to write to, found or claimed.
pub find_or_claim : List Entry → ℕ → Option (ℕ × List Entry)
unfolding find_attr_entry claim publish
find_or_claim entries keyval = elim (find_attr_entry entries keyval) [
  | some i ↦ some (i, entries)
  | none ↦ elim (claim entries) [
    | none ↦ none
    | some (i, claimed) ↦ some (i, publish claimed i keyval)
  ]
]

unfoldable pub mpif_register_attr_callback : List Entry → ℕ → Kind → Procedure → List Entry × ℕ
unfolding find_or_claim modify
mpif_register_attr_callback attr_entries keyval kind callback =
    elim (mpif_predefined_callback callback) [
      | some _ ↦ (attr_entries, mpi_success)
      | none ↦ elim (find_or_claim attr_entries keyval) [
        | none ↦ (attr_entries, mpi_err_other)
        | some (i, entries) ↦ (modify entries i (record_callback kind callback), mpi_success)
      ]
    ]
