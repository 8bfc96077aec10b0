-- ===== src/Cdesc/Layout.antt =====
-- What the datatype for a section describes.
use native.Mathlib.Nat.{div-add-mod'}
use mpif.Prelude.{
  Option, none, ℕ, zero, suc, ◌*◌, ◌/◌, ◌%◌, ◌≤◌, ◌≡◌, refl, sym, ap, ◌∙◌, true, false, ◌&&◌, some,
  List, [], ◌∷◌, ltb, ◌==◌, inl, inr, Bool-cases, arith, length, take, All, ==_iff,
}
use mpif.Prelude.Int.{ℤ, pos, negsuc, ◌*ℤ◌, eqb_ℤ, eqb_ℤ_iff}
use mpif.Machine.{Returns, Run, ok}
use mpif.Abi.{mpi_success, mpi_err_arg}
use mpif.Cdesc
use mpif.Cdesc.{
  Dim, Descriptor, Datatypes, Current, Returned, fail, replace, level, walk,
  mpif_cdesc_create_datatype,
}
use mpif.Cdesc.Section.{copies, section_of, place, place_one, copies_one}
use mpif.Cdesc.Walk.{OnSome, Documented, Describes, IsDense, walk-Describes}

module _ {H : Type 0} (mpi : Datatypes H) (offsets : H → List ℤ) (lb extent : H → ℤ)
    (law : Documented mpi offsets lb extent) where
  -- `oldcount` units of the old datatype fill `count` whole elements, of `factor` units each, and
  -- the datatype describes the first `count` elements of the section.
  pub record IsSection (cdesc : Descriptor) (oldcount : ℕ) (oldtype t : H) : Type 0 where
    pub factor : ℕ
    pub count : ℕ
    pub elem_len : pos cdesc.elem_len ≡ pos factor *ℤ (mpi.type_size_c oldtype).1
    pub oldcount_is : oldcount ≡ count * factor
    pub enough : count ≤ length (section_of (pos 0 ∷ []) cdesc.dim)
    pub layout :
        offsets t
        ≡ place
            (copies 0 factor (extent oldtype) (offsets oldtype))
            (take count (section_of (pos 0 ∷ []) cdesc.dim))

  abbrev Right : Descriptor → ℕ → H → Returned H → Type 0
  Right cdesc oldcount oldtype r = (t : H) → r.newtype ≡ some t → IsSection cdesc oldcount oldtype t

  refuse-Right :
      (cdesc : Descriptor) (oldcount : ℕ) (oldtype : H) (err : ℕ)
      → Returns (Right cdesc oldcount oldtype) (ok (Cdesc.refuse mpi err))
  refuse-Right cdesc oldcount oldtype err =
      (Cdesc.refuse mpi err, refl, λ t at. absurd (ground arith))

  initially :
      (cdesc : Descriptor) (w : Current H)
      → (mpi.type_get_extent_c w.cur).0 ≡ mpi_success
      → IsDense mpi offsets lb extent law
          (eqb_ℤ (mpi.type_get_extent_c w.cur).1 (pos 0)
            && eqb_ℤ (mpi.type_get_extent_c w.cur).2 (pos cdesc.elem_len))
          (pos cdesc.elem_len)
          w.cur
  initially cdesc w success is =
      let (l, x) = law.get_extent w.cur success in
      let left : eqb_ℤ (mpi.type_get_extent_c w.cur).1 (pos 0) ≡ true = ground arith in
      let right : eqb_ℤ (mpi.type_get_extent_c w.cur).2 (pos cdesc.elem_len) ≡ true =
        ground arith in
      (
        sym l ∙ (eqb_ℤ_iff (mpi.type_get_extent_c w.cur).1 (pos 0)).0 left,
        sym x ∙ (eqb_ℤ_iff (mpi.type_get_extent_c w.cur).2 (pos cdesc.elem_len)).0 right,
      )

  walk_from-Describes :
      (cdesc : Descriptor) (count : ℕ) (w : Current H)
      → All (λ d. 1 ≤ d.extent) cdesc.dim
      → Returns
          (Describes mpi offsets lb extent law (offsets w.cur) (pos 0 ∷ []) cdesc.dim count)
          (Cdesc.walk_from mpi cdesc count w)
  unfolding Cdesc.walk_from
  walk_from-Describes cdesc count w solid =
      elim (Bool-cases ((mpi.type_get_extent_c w.cur).0 == mpi_success)) [
        | inr failure ↦
            rw (failure, Cdesc.walk_from) ((fail mpi _ w, refl, λ t at. absurd (ground arith)))
        | inl success ↦
            rw (success, Cdesc.walk_from)
              (walk-Describes mpi offsets lb extent law (offsets w.cur) count cdesc.dim (pos 0 ∷ [])
                (pos cdesc.elem_len) _ w solid (omega arith) (sym (place_one (offsets w.cur)))
                (initially cdesc w
                  ((==_iff (mpi.type_get_extent_c w.cur).0 mpi_success).0 success)))
      ]

  module _ (cdesc : Descriptor) (oldcount : ℕ) (oldtype : H) (factor : ℕ)
      (elem_len : pos cdesc.elem_len ≡ pos factor *ℤ (mpi.type_size_c oldtype).1)
      (some_ : 1 ≤ factor) (solid : All (λ d. 1 ≤ d.extent) cdesc.dim) where
    from_walk :
        (count : ℕ) (w : Current H)
        → oldcount ≡ count * factor
        → offsets w.cur ≡ copies 0 factor (extent oldtype) (offsets oldtype)
        → Returns (Right cdesc oldcount oldtype) (Cdesc.walk_from mpi cdesc count w)
    from_walk count w whole unit =
        let (r, e, describes) = walk_from-Describes cdesc count w solid in
        (
          r,
          e,
          λ t at.
              let (enough, layout) = describes t at in
              record {
                factor = factor;
                count = count;
                elem_len = elem_len;
                oldcount_is = whole;
                enough = enough;
                layout =
                    layout
                    ∙ ap (λ u. place u (take count (section_of (pos 0 ∷ []) cdesc.dim))) unit;
              },
        )

    with_factor-Right :
        Returns (Right cdesc oldcount oldtype) (Cdesc.with_factor mpi cdesc oldcount oldtype factor)
    unfolding Cdesc.with_factor
    with_factor-Right = elim (Bool-cases (ltb 1 factor)) [
      | inr one ↦
          let is : factor ≡ 1 = ground arith in
          rw (one, Cdesc.with_factor)
            (from_walk oldcount (record { cur = oldtype; owned = false; created = []; freed = [] })
              (omega (arith, ap (λ k. oldcount * k) is))
              (sym (
                ap (λ k. copies 0 k (extent oldtype) (offsets oldtype)) is
                ∙ copies_one (extent oldtype) (offsets oldtype))))
      | inl many ↦ elim (Bool-cases (oldcount % factor == 0)) [
        | inr part ↦
            rw (many, part, Cdesc.with_factor) (refuse-Right cdesc oldcount oldtype mpi_err_arg)
        | inl whole ↦ elim (Bool-cases ((mpi.type_contiguous_c factor oldtype).0 == mpi_success)) [
          | inr failure ↦
              rw (many, whole, failure, Cdesc.with_factor) (refuse-Right cdesc oldcount oldtype _)
          | inl success ↦
              rw (many, whole, success, Cdesc.with_factor)
                (from_walk (oldcount / factor) base
                  (omega
                    (arith, div-add-mod' oldcount factor, (==_iff (oldcount % factor) 0).0 whole))
                  (law.contiguous_offsets factor oldtype
                    ((==_iff (mpi.type_contiguous_c factor oldtype).0 mpi_success).0 success)))
        ]
      ]
    ]
      where
        base : Current H
        base =
            let cur = (mpi.type_contiguous_c factor oldtype).1 in
            record { cur = cur; owned = true; created = cur ∷ []; freed = [] }

  with_size-Right :
      (cdesc : Descriptor) (oldcount : ℕ) (oldtype : H) (size : ℤ)
      → (mpi.type_size_c oldtype).1 ≡ size
      → 1 ≤ cdesc.elem_len
      → All (λ d. 1 ≤ d.extent) cdesc.dim
      → Returns (Right cdesc oldcount oldtype) (Cdesc.with_size mpi cdesc oldcount oldtype size)
  unfolding Cdesc.with_size ◌*ℤ◌
  with_size-Right cdesc oldcount oldtype (negsuc n) is some_ solid =
      refuse-Right cdesc oldcount oldtype mpi_err_arg
  with_size-Right cdesc oldcount oldtype (pos zero) is some_ solid =
      refuse-Right cdesc oldcount oldtype mpi_err_arg
  with_size-Right cdesc oldcount oldtype (pos (suc n)) is some_ solid =
      elim (Bool-cases (cdesc.elem_len % suc n == 0)) [
        | inr part ↦ rw (part, Cdesc.with_size) (refuse-Right cdesc oldcount oldtype mpi_err_arg)
        | inl whole ↦
            let split : cdesc.elem_len ≡ cdesc.elem_len / suc n * suc n = omega (
              arith,
              div-add-mod' cdesc.elem_len (suc n),
              (==_iff (cdesc.elem_len % suc n) 0).0 whole,
            ) in
            rw (whole, Cdesc.with_size)
              (with_factor-Right cdesc oldcount oldtype (cdesc.elem_len / suc n)
                (ap pos split
                  ∙ sym (times (cdesc.elem_len / suc n) (suc n))
                  ∙ ap (λ z. pos (cdesc.elem_len / suc n) *ℤ z) (sym is))
                (positive (cdesc.elem_len / suc n) (suc n) (omega (arith, split))) solid)
      ]
    where
      times : (a b : ℕ) → pos a *ℤ pos b ≡ pos (a * b)
      times a b = ground arith

      positive : (a b : ℕ) → 1 ≤ a * b → 1 ≤ a
      positive zero b h = absurd (omega arith)
      positive (suc a) b h = omega arith

  on_newtype :
      (cdesc : Descriptor) (oldcount : ℕ) (oldtype : H) (m : Run (Returned H))
      → Returns (Right cdesc oldcount oldtype) m
      → Returns (λ r. OnSome (IsSection cdesc oldcount oldtype) r.newtype) m
  on_newtype cdesc oldcount oldtype m (r, e, right) = (r, e, go r.newtype right)
    where
      go :
          (o : Option H)
          → ((t : H) → o ≡ some t → IsSection cdesc oldcount oldtype t)
          → OnSome (IsSection cdesc oldcount oldtype) o
      go none h = tt
      go (some t) h = h t refl

  -- For an array that has elements, of a positive length, and MPI's constructors as documented, the
  -- walker always returns, and a datatype that it returns describes exactly the units that the
  -- caller counts: the first ones of the section in array element order, each at its own offset.
  pub cdesc_create_datatype-IsSection :
      (cdesc : Descriptor) (oldcount : ℕ) (oldtype : H)
      → 1 ≤ cdesc.elem_len
      → All (λ d. 1 ≤ d.extent) cdesc.dim
      → Returns
          (λ r. OnSome (IsSection cdesc oldcount oldtype) r.newtype)
          (mpif_cdesc_create_datatype mpi cdesc oldcount oldtype)
  unfolding mpif_cdesc_create_datatype
  cdesc_create_datatype-IsSection cdesc oldcount oldtype some_ solid =
      on_newtype cdesc oldcount oldtype (mpif_cdesc_create_datatype mpi cdesc oldcount oldtype)
        (elim (Bool-cases ((mpi.type_size_c oldtype).0 == mpi_success)) [
          | inr failure ↦
              rw (failure, mpif_cdesc_create_datatype) (refuse-Right cdesc oldcount oldtype _)
          | inl success ↦
              rw (success, mpif_cdesc_create_datatype)
                (with_size-Right cdesc oldcount oldtype (mpi.type_size_c oldtype).1 refl some_
                  solid)
        ])
