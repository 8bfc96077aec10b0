-- ===== src/Callbacks/Datarep/Register.antt =====
-- gen/mpif_functions.c, mpi_register_datarep_ and mpi_register_datarep_c_, which differ in the
-- conversion trampolines and in MPI's routine. That is the parameter `register`: its error code,
-- from the name, the three function pointers and the box. The copies of the name are a heap.
use mpif.Prelude.{
  ℕ, ◌≡◌, ◌≢◌, refl, ap, ◌∙◌, Bool, true, false, Option, none, some, List, [], ◌∷◌, ◌++◌, ◌==◌,
  if◌then◌else◌, length, inl, inr, Bool-cases, ==_iff, true≢false, set,
}
use mpif.Machine.{Run, ok, ◌>>=◌, Bytes, Allocator}
use mpif.Abi.{mpi_success, mpi_err_other}
use mpif.Strings.{mpif_strdup_f2c}
use mpif.Heap.{Heap, allocate, free}
use mpif.Heap.Laws.{free-object_at, object_at-append_self}
use mpif.Callbacks.Predefined.{Procedure, Sentinel, mpif_predefined_callback}
use mpif.Callbacks.Datarep.{Box, mpif_datarep_reserve, mpif_datarep_cancel}
use mpif.Callbacks.Datarep.Calls.{
  Trampoline, read_trampoline, write_trampoline, read_trampoline_c, write_trampoline_c,
  extent_trampoline,
}

pub data Function : Type 0 where
  sentinel : Sentinel → Function
  trampoline : Trampoline → Function

pub c_function : Procedure → Trampoline → Function
c_function callback tr = elim (mpif_predefined_callback callback) [
  | some s ↦ sentinel s
  | none ↦ trampoline tr
]

-- `large` is the entry point with `_c`.
abbrev pub reader : Bool → Trampoline
reader true = read_trampoline_c
reader false = read_trampoline

abbrev pub writer : Bool → Trampoline
writer true = write_trampoline_c
writer false = write_trampoline

-- The boxes, and the C strings that stand in allocated memory.
pub record State : Type 0 where
  pub boxes : Heap Box
  pub strings : Heap Bytes

pub record Procedures : Type 0 where
  pub read_fn : Procedure
  pub write_fn : Procedure
  pub extent_fn : Procedure

module _ (room : Heap Box → Bool) (a : Allocator)
    (register : Bool → Bytes → Function → Function → Function → ℕ → ℕ) where
  -- From MPI's routine on, with the C string at `c_datarep` and its contents `name`.
  register_with : State → ℕ → ℕ → ℕ → Run (State × ℕ)
  unfolding mpif_datarep_cancel
  register_with s c_datarep box ierror = free s.strings c_datarep >>= λ strings.
      (if ierror == mpi_success
        then ok (record { boxes = s.boxes; strings = strings }, ierror)
        else (mpif_datarep_cancel s.boxes box >>= λ boxes.
            ok (record { boxes = boxes; strings = strings }, ierror)))

  register_from : Bool → State → Bytes → Procedures → ℕ → Option ℕ × Heap Box → Run (State × ℕ)
  unfolding register_with c_function
  register_from large s name p c_datarep (none, boxes) =
      ok (record { boxes = boxes; strings = s.strings }, mpi_err_other)
  register_from large s name p c_datarep (some box, boxes) =
      register_with (record { boxes = boxes; strings = s.strings }) c_datarep box
        (register large name (c_function p.read_fn (reader large))
          (c_function p.write_fn (writer large)) (c_function p.extent_fn extent_trampoline) box)

  unfoldable pub mpi_register_datarep : Bool → State → Bytes → Procedures → ℕ → ℕ → Run (State × ℕ)
  unfolding register_from
  mpi_register_datarep large s datarep p extra_state length_datarep =
      mpif_strdup_f2c a datarep length_datarep >>= λ name.
      let strings = s.strings ++ (some name ∷ []) in
      register_from large (record { boxes = s.boxes; strings = strings }) name p (length s.strings)
        (mpif_datarep_reserve room s.boxes p.read_fn p.write_fn p.extent_fn extra_state)

  abbrev pub box_of : Procedures → ℕ → Box
  box_of p extra_state = record {
    read_fn = p.read_fn;
    write_fn = p.write_fn;
    extent_fn = p.extent_fn;
    extra_state = extra_state;
  }

  abbrev pub registered : Bool → Bytes → Procedures → ℕ → ℕ
  registered large name p box =
      register large name (c_function p.read_fn (reader large))
        (c_function p.write_fn (writer large)) (c_function p.extent_fn extent_trampoline) box

  -- The three ends of a registration, with the copy of the name done.
  pub data RegisterOutcome (large : Bool) (s : State) (name : Bytes) (p : Procedures)
      (extra_state : ℕ) (r : Run (State × ℕ)) : Type 0 where
    no_memory :
        room s.boxes ≡ false
        → r
          ≡ ok (record { boxes = s.boxes; strings = s.strings ++ (some name ∷ []) }, mpi_err_other)
        → RegisterOutcome large s name p extra_state r
    refused :
        registered large name p (length s.boxes) ≢ mpi_success
        → r
          ≡ ok (
            record { boxes = s.boxes ++ (none ∷ []); strings = s.strings ++ (none ∷ []) },
            registered large name p (length s.boxes),
          )
        → RegisterOutcome large s name p extra_state r
    kept :
        registered large name p (length s.boxes) ≡ mpi_success
        → r
          ≡ ok (
            record {
              boxes = s.boxes ++ (some (box_of p extra_state) ∷ []);
              strings = s.strings ++ (none ∷ []);
            },
            mpi_success,
          )
        → RegisterOutcome large s name p extra_state r

  set_end {ℓ} :
      {A : Type ℓ} (xs : List A) (v w : A) → set (xs ++ (v ∷ [])) (length xs) w ≡ xs ++ (w ∷ [])
  set_end [] v w = refl
  set_end (x ∷ xs) v w = ap (◌∷◌ x) (set_end xs v w)

  free_end {ℓ} :
      {A : Type ℓ} (h : Heap A) (x : A)
      → free (h ++ (some x ∷ [])) (length h) ≡ ok (h ++ (none ∷ []))
  free_end h x =
      free-object_at (h ++ (some x ∷ [])) (length h) (object_at-append_self h (some x))
      ∙ ap ok (set_end h (some x) none)

  register_with-RegisterOutcome :
      (large : Bool) (s : State) (name : Bytes) (p : Procedures) (extra_state : ℕ)
      → RegisterOutcome large s name p extra_state (
          register_with
            (record {
              boxes = s.boxes ++ (some (box_of p extra_state) ∷ []);
              strings = s.strings ++ (some name ∷ []);
            })
            (length s.strings)
            (length s.boxes)
            (registered large name p (length s.boxes)))
  unfolding register_with mpif_datarep_cancel
  register_with-RegisterOutcome large s name p extra_state =
      elim (Bool-cases (registered large name p (length s.boxes) == mpi_success)) [
        | inl success ↦
            let e = (==_iff (registered large name p (length s.boxes)) mpi_success).0 success in
            kept e (rw (free_end s.strings name) rw success rw e refl)
        | inr failure ↦
            refused
              (λ e.
                true≢false ((==_iff (registered large name p (length s.boxes)) mpi_success).1 e)
                  failure)
              (rw (free_end s.strings name) rw failure rw (free_end s.boxes (box_of p extra_state))
                refl)
      ]

  -- Once the name is copied, a registration always returns. If MPI accepts it, the one new box
  -- holds the procedures and extra_state; if MPI refuses, no box is left; in both cases the copy of
  -- the name has been freed. Without memory for a box the copy stays allocated for good.
  pub register_datarep-RegisterOutcome :
      (large : Bool) (s : State) (datarep name : Bytes) (p : Procedures) (extra_state n : ℕ)
      → mpif_strdup_f2c a datarep n ≡ ok name
      → RegisterOutcome large s name p extra_state
          (mpi_register_datarep large s datarep p extra_state n)
  unfolding mpi_register_datarep register_from mpif_datarep_reserve allocate
  register_datarep-RegisterOutcome large s datarep name p extra_state n copied =
      elim (Bool-cases (room s.boxes)) [
        | inl has ↦
            rw (copied, has, mpi_register_datarep, mpif_datarep_reserve, allocate)
              (register_with-RegisterOutcome large s name p extra_state)
        | inr full ↦
            no_memory full
              (rw (copied, full, mpi_register_datarep, mpif_datarep_reserve, allocate) refl)
      ]
