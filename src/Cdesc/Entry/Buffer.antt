-- ===== src/Cdesc/Entry/Buffer.antt =====
-- What an entry point with one buffer gives to MPI.
use mathlib.Core.List.{append-nil}
use mpif.Prelude.{
  ℕ, ◌≤◌, ◌≡◌, refl, sym, ap, ◌∙◌, subst, Bool, true, false, ◌&&◌, List, [], ◌∷◌, ◌++◌, ◌==◌,
  if◌then◌else◌, inl, inr, Bool-cases, Option-cases, All, ==_iff,
}
use mpif.Prelude.Int.{ℤ}
use mpif.Machine.{Returns}
use mpif.Abi.{mpi_success}
use mpif.Sentinels.{Cells, mpif_c_buffer}
use mpif.Cdesc.{Descriptor, Datatypes, Returned}
use mpif.Cdesc.Owned.{OnOk, Balanced, is_some, newtypes, cdesc_create_datatype-Balanced}
use mpif.Cdesc.Walk.{OnSome, Documented}
use mpif.Cdesc.Layout.{IsSection, cdesc_create_datatype-IsSection}
use mpif.Cdesc.Entry.Plain.{IsPlain, IsGapped, plain_or_not_needed, needed-IsGapped}
use mpif.Cdesc.Entry.{
  get_or, Choice, Message, Prepared, refused, answered, Done, is_strided, walked, prepare,
  freed_if_owned, message, with_buffer,
}

-- An array with elements of a positive length.
pub record IsSolid (cdesc : Descriptor) : Type 0 where
  pub some_length : 1 ≤ cdesc.elem_len
  pub some_elements : All (λ d. 1 ≤ d.extent) cdesc.dim

module _ {H : Type 0} (cells : Cells) (mpi : Datatypes H) (is_contiguous : Descriptor → Bool)
    (offsets : H → List ℤ) (lb extent : H → ℤ) (law : Documented mpi offsets lb extent) where
  -- How a buffer is given to MPI: as the caller counts it, or, if it is strided, as one element of a
  -- datatype for just the units that the caller counts; or not at all. What was made and is not
  -- freed yet is the datatype in use.
  pub data Prepares (needed : Bool) (c : Choice) (count : ℕ) (type : H) (p : Prepared H)
      : Type 0 where
    as_counted :
        (needed && is_strided cells mpi is_contiguous c) ≡ false
        → p ≡ record {
          err = mpi_success;
          count = count;
          type = type;
          owned = false;
          created = [];
          freed = [];
        }
        → Prepares needed c count type p
    as_section :
        (needed && is_strided cells mpi is_contiguous c) ≡ true
        → IsSection mpi offsets lb extent law c.cdesc count type p.type
        → (p.err ≡ mpi_success) × (p.count ≡ 1) × (p.owned ≡ true)
        → p.created ≡ p.freed ++ (p.type ∷ [])
        → Prepares needed c count type p
    not_at_all :
        (needed && is_strided cells mpi is_contiguous c) ≡ true
        → ((p.err == mpi_success) ≡ false) × (p.owned ≡ false)
        → p.created ≡ p.freed
        → Prepares needed c count type p

  walked-Prepares :
      (needed : Bool) (c : Choice) (count : ℕ) (type : H) (r : Returned H)
      → (needed && is_strided cells mpi is_contiguous c) ≡ true
      → Balanced r
      → OnSome (IsSection mpi offsets lb extent law c.cdesc count type) r.newtype
      → Prepares needed c count type (walked cells mpi is_contiguous count type r)
  walked-Prepares needed c count type r strided balanced section = elim (Option-cases r.newtype) [
    | inl missing ↦
        let failure = balanced.reported ∙ ap is_some missing in
        not_at_all strided (failure, failure)
          (balanced.freed_all ∙ ap (λ o. r.freed ++ newtypes o) missing ∙ append-nil r.freed)
    | inr (t, made) ↦
        let success = balanced.reported ∙ ap is_some made in
        let is : get_or r.newtype type ≡ t = ap (λ o. get_or o type) made in
        as_section strided
          (subst (IsSection mpi offsets lb extent law c.cdesc count type) (sym is)
            (subst (OnSome (IsSection mpi offsets lb extent law c.cdesc count type)) made section))
          ((==_iff r.err mpi_success).0 success, rw success refl, success)
          (balanced.freed_all
            ∙ ap (λ o. r.freed ++ newtypes o) made
            ∙ ap (λ u. r.freed ++ (u ∷ [])) (sym is))
  ]

  pub prepare-Prepares :
      (needed : Bool) (c : Choice) (count : ℕ) (type : H)
      → IsSolid c.cdesc
      → Returns
          (Prepares needed c count type)
          (prepare cells mpi is_contiguous mpi_success needed c count type)
  unfolding prepare
  prepare-Prepares needed c count type solid =
      elim (Bool-cases (needed && is_strided cells mpi is_contiguous c)) [
        | inl strided ↦
            let (r, e, section) =
              cdesc_create_datatype-IsSection mpi offsets lb extent law c.cdesc count type
                solid.some_length solid.some_elements in
            let balanced : Balanced r =
              subst (OnOk Balanced) e (cdesc_create_datatype-Balanced mpi c.cdesc count type) in
            (
              walked cells mpi is_contiguous count type r,
              rw (strided, e, prepare) refl,
              walked-Prepares needed c count type r strided balanced section,
            )
        | inr plain ↦ (_, rw (plain, prepare) refl, as_counted plain refl)
      ]

  -- What the entry point does with the buffer that it has prepared.
  pub data Delivers {A : Type 0} (c : Choice) (count : ℕ) (type : H) (call : Message H → A)
      (d : Done H A) : Type 0 where
    counted :
        IsPlain cells is_contiguous c
        → d.reply
          ≡ answered
              (call (record { buf = mpif_c_buffer cells c.base_addr; count = count; type = type }))
        → d.created ≡ []
        → Delivers c count type call d
    section :
        (t : H)
        → IsGapped cells is_contiguous c
        → IsSection mpi offsets lb extent law c.cdesc count type t
        → d.reply
          ≡ answered (call (record { buf = mpif_c_buffer cells c.base_addr; count = 1; type = t }))
        → Delivers c count type call d
    unsent :
        (err : ℕ)
        → IsGapped cells is_contiguous c
        → (err == mpi_success) ≡ false
        → d.reply ≡ refused err
        → Delivers c count type call d

  is_plain :
      (c : Choice) → is_strided cells mpi is_contiguous c ≡ false → IsPlain cells is_contiguous c
  is_plain c test = elim (plain_or_not_needed cells mpi is_contiguous true c test) [
    | inl never ↦ absurd (cc)
    | inr plain ↦ plain
  ]

  is_gapped :
      (c : Choice) → is_strided cells mpi is_contiguous c ≡ true → IsGapped cells is_contiguous c
  is_gapped c test = (needed-IsGapped cells mpi is_contiguous true c test).1

  deliver :
      {A : Type 0} (c : Choice) (count : ℕ) (type : H) (call : Message H → A) (p : Prepared H)
      → Prepares true c count type p
      → let d : Done H A = record {
        reply =
            if p.err == mpi_success
            then answered (call (message cells mpi is_contiguous c p))
            else refused p.err;
        created = p.created;
        freed = p.freed ++ freed_if_owned cells mpi is_contiguous p;
      } in
        Delivers c count type call d × (d.freed ≡ d.created)
  deliver c count type call p (as_counted plain is) =
      rw is (counted (is_plain c plain) refl refl, refl)
  deliver c count type call p (as_section strided is (e, one, owned) created) =
      (section p.type (is_gapped c strided) is (rw (e, one) refl), rw owned (sym created))
  deliver c count type call p (not_at_all strided (failure, owned) created) = (
    unsent p.err (is_gapped c strided) failure (rw failure refl),
    rw owned (append-nil p.freed ∙ sym created),
  )

  -- For a buffer with elements, and MPI's constructors as documented, an entry point with one buffer
  -- always returns. A buffer that is a sentinel, a scalar or contiguous goes to MPI as the caller counts
  -- it, and no datatype is made. An array with gaps goes as one element of a datatype for just the units counted, or, if that
  -- cannot be made, MPI is not called and the reply is an error. Every datatype made is freed once.
  pub with_buffer-Delivers :
      {A : Type 0} (c : Choice) (count : ℕ) (type : H) (call : Message H → A)
      → IsSolid c.cdesc
      → Returns
          (λ d. Delivers c count type call d × (d.freed ≡ d.created))
          (with_buffer cells mpi is_contiguous c count type call)
  unfolding with_buffer
  with_buffer-Delivers c count type call solid =
      let (p, e, prepares) = prepare-Prepares true c count type solid in
      (_, rw (e, with_buffer) refl, deliver c count type call p prepares)
