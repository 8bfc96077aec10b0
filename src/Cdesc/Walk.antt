-- ===== src/Cdesc/Walk.antt =====
-- What the loop over the dimensions builds, when no dimension is empty. What the datatypes of MPI
-- describe is the parameter `offsets`, with `lb` and `extent`.
use native.Mathlib.Nat.{div-add-mod', mul-le-mul_right}
use mpif.Prelude.{
  Option, none, ℕ, ◌*◌, ◌/◌, ◌%◌, ◌≤◌, ◌≡◌, refl, sym, ap, ◌∙◌, Bool, true, false, some, List, [],
  ◌∷◌, ltb, ◌==◌, inl, inr, Bool-cases, arith, length, take, All, ==_iff,
}
use mpif.Prelude.Int.{ℤ, pos, ◌*ℤ◌, eqb_ℤ, eqb_ℤ_iff}
use mpif.Machine.{Returns, ok}
use mpif.Abi.{mpi_success, mpi_err_arg}
use mpif.Cdesc.{Dim, Datatypes, Current, Returned, fail, replace, commit, level, still_dense, walk}
use mpif.Cdesc.Section.{
  copies, section_of, place, copies-place, length-copies, take-copies, take-section_of, at_least,
}

-- What the standard says of the constructors and of the extent.
pub record Documented {H : Type 0} (mpi : Datatypes H) (offsets : H → List ℤ) (lb extent : H → ℤ)
    : Type 0 where
  pub get_extent :
      (t : H)
      → (mpi.type_get_extent_c t).0 ≡ mpi_success
      → ((mpi.type_get_extent_c t).1 ≡ lb t) × ((mpi.type_get_extent_c t).2 ≡ extent t)
  pub contiguous_offsets :
      (n : ℕ) (t : H)
      → (mpi.type_contiguous_c n t).0 ≡ mpi_success
      → offsets (mpi.type_contiguous_c n t).1 ≡ copies 0 n (extent t) (offsets t)
  pub contiguous_extent :
      (n : ℕ) (t : H)
      → (mpi.type_contiguous_c n t).0 ≡ mpi_success
      → lb t ≡ pos 0
      → (lb (mpi.type_contiguous_c n t).1 ≡ pos 0)
        × (extent (mpi.type_contiguous_c n t).1 ≡ extent t *ℤ pos n)
  pub hvector_offsets :
      (n : ℕ) (sm : ℤ) (t : H)
      → (mpi.type_create_hvector_c n 1 sm t).0 ≡ mpi_success
      → offsets (mpi.type_create_hvector_c n 1 sm t).1 ≡ copies 0 n sm (offsets t)

-- A property of a value, if there is one.
abbrev pub OnSome {ℓ κ} : {A : Type ℓ} → (A → Type κ) → Option A → Type κ
OnSome P none = Unit
OnSome P (some a) = P a

module _ {H : Type 0} (mpi : Datatypes H) (offsets : H → List ℤ) (lb extent : H → ℤ)
    (law : Documented mpi offsets lb extent) where
  -- `dense` is the invariant that makes a contiguous level legal.
  abbrev pub IsDense : Bool → ℤ → H → Type 0
  IsDense dense bytes t = dense ≡ true → (lb t ≡ pos 0) × (extent t ≡ bytes)

  level-offsets :
      (dense : Bool) (bytes : ℤ) (t : H) (d : Dim) (n : ℕ)
      → IsDense dense bytes t
      → (level mpi dense bytes t d n).0 ≡ mpi_success
      → offsets (level mpi dense bytes t d n).1 ≡ copies 0 n d.sm (offsets t)
  unfolding level
  level-offsets false bytes t d n is success = law.hvector_offsets n d.sm t success
  level-offsets true bytes t d n is success = elim (Bool-cases (eqb_ℤ d.sm bytes)) [
    | inl same ↦
        let e = (eqb_ℤ_iff d.sm bytes).0 same in
        let s : (mpi.type_contiguous_c n t).0 ≡ mpi_success = ground arith in
        rw (same, level)
          (law.contiguous_offsets n t s ∙ ap (λ z. copies 0 n z (offsets t)) ((is refl).1 ∙ sym e))
    | inr other ↦
        let s : (mpi.type_create_hvector_c n 1 d.sm t).0 ≡ mpi_success = ground arith in
        rw (other, level) (law.hvector_offsets n d.sm t s)
  ]

  level-IsDense :
      (dense : Bool) (bytes : ℤ) (t : H) (d : Dim) (n : ℕ)
      → IsDense dense bytes t
      → (level mpi dense bytes t d n).0 ≡ mpi_success
      → IsDense (still_dense mpi dense bytes d) (d.sm *ℤ pos n) (level mpi dense bytes t d n).1
  unfolding level
  level-IsDense false bytes t d n is success still = absurd (ground arith)
  level-IsDense true bytes t d n is success still =
      let e = (eqb_ℤ_iff d.sm bytes).0 still in
      let s : (mpi.type_contiguous_c n t).0 ≡ mpi_success = ground arith in
      let (l, x) = law.contiguous_extent n t s (is refl).0 in
      rw (still, level) (l, x ∙ ap (λ z. z *ℤ pos n) ((is refl).1 ∙ sym e))

  -- The first `count` units of the section, of which there are enough.
  abbrev pub Describes : List ℤ → List ℤ → List Dim → ℕ → Returned H → Type 0
  Describes unit start ds count r =
      (t : H)
      → r.newtype ≡ some t
      → (count ≤ length (section_of start ds))
        × (offsets t ≡ place unit (take count (section_of start ds)))

  commit-Describes :
      (unit start : List ℤ) (ds : List Dim) (count : ℕ) (w : Current H)
      → (count ≤ length (section_of start ds))
      → offsets w.cur ≡ place unit (take count (section_of start ds))
      → Describes unit start ds count (commit mpi w)
  unfolding commit
  commit-Describes unit start ds count w enough is t at =
      elim (Bool-cases (mpi.type_commit w.cur == mpi_success)) [
        | inl success ↦ let e : w.cur ≡ t = ground arith in (enough, ap offsets (sym e) ∙ is)
        | inr failure ↦ absurd (ground arith)
      ]

  -- A section is at least as long as what it starts with.
  length-section_of :
      (start : List ℤ) (ds : List Dim)
      → All (λ d. 1 ≤ d.extent) ds
      → length start ≤ length (section_of start ds)
  length-section_of start [] solid = omega arith
  length-section_of start (d ∷ ds) (here, solid) = omega (
    arith,
    length-section_of (copies 0 d.extent d.sm start) ds solid,
    length-copies 0 d.extent d.sm start,
    at_least d.extent (length start) here,
  )

  -- The last level covers its dimension as far as the count goes.
  last-Describes :
      (unit start : List ℤ) (d : Dim) (ds : List Dim) (count n : ℕ) (w : Current H)
      → All (λ d. 1 ≤ d.extent) ds
      → count ≡ n * length start
      → n ≤ d.extent
      → offsets w.cur ≡ copies 0 n d.sm (place unit start)
      → Describes unit start (d ∷ ds) count (commit mpi w)
  last-Describes unit start d ds count n w solid whole fits is =
      commit-Describes unit start (d ∷ ds) count w
        (omega (arith, inner, length-section_of (copies 0 d.extent d.sm start) ds solid))
        (is
          ∙ copies-place 0 n d.sm unit start
          ∙ ap (place unit) (
              sym (
                take-section_of count (copies 0 d.extent d.sm start) ds solid inner
                ∙ ap (λ k. take k (copies 0 d.extent d.sm start)) whole
                ∙ take-copies 0 n d.extent d.sm start fits)))
    where
      inner : count ≤ length (copies 0 d.extent d.sm start)
      inner =
          omega (
            arith,
            whole,
            length-copies 0 d.extent d.sm start,
            mul-le-mul_right (length start) fits,
          )

  fail-Describes :
      (unit start : List ℤ) (ds : List Dim) (count err : ℕ) (w : Current H)
      → Returns (Describes unit start ds count) (ok (fail mpi err w))
  fail-Describes unit start ds count err w = (fail mpi err w, refl, λ t at. absurd (ground arith))

  pub walk-Describes :
      (unit : List ℤ) (count : ℕ) (ds : List Dim) (start : List ℤ) (bytes : ℤ) (dense : Bool)
      (w : Current H)
      → All (λ d. 1 ≤ d.extent) ds
      → 1 ≤ length start
      → offsets w.cur ≡ place unit start
      → IsDense dense bytes w.cur
      → Returns (Describes unit start ds count) (walk mpi count ds (length start) bytes dense w)
  unfolding walk
  walk-Describes unit count [] start bytes dense w solid some_ is is_dense =
      fail-Describes unit start [] count mpi_err_arg w
  walk-Describes unit count (d ∷ ds) start bytes dense w (here, solid) some_ is is_dense =
      elim (Bool-cases (count % length start == 0)) [
        | inr part ↦ rw (nonzero, part) (fail-Describes unit start (d ∷ ds) count mpi_err_arg w)
        | inl whole ↦ elim (Bool-cases (ltb d.extent (count / length start))) [
          | inl more ↦ elim (Bool-cases (full.0 == mpi_success)) [
            | inr failure ↦
                rw (nonzero, whole, more, failure)
                  (fail-Describes unit start (d ∷ ds) count full.0 w)
            | inl success ↦
                let s = (==_iff full.0 mpi_success).0 success in
                rw (nonzero, whole, more, success, product)
                  (walk-Describes unit count ds next (d.sm *ℤ pos d.extent)
                    (still_dense mpi dense bytes d) (replace mpi w full.1) solid
                    (omega (
                      arith,
                      length-copies 0 d.extent d.sm start,
                      at_least d.extent (length start) here,
                    ))
                    (level-offsets dense bytes w.cur d d.extent is_dense s
                      ∙ ap (copies 0 d.extent d.sm) is
                      ∙ copies-place 0 d.extent d.sm unit start)
                    (level-IsDense dense bytes w.cur d d.extent is_dense s))
          ]
          | inr enough ↦ elim (Bool-cases (last.0 == mpi_success)) [
            | inr failure ↦
                rw (nonzero, whole, enough, failure)
                  (fail-Describes unit start (d ∷ ds) count last.0 w)
            | inl success ↦
                let s = (==_iff last.0 mpi_success).0 success in
                rw (nonzero, whole, enough, success)
                  ((
                    commit mpi (replace mpi w last.1),
                    refl,
                    last-Describes unit start d ds count n (replace mpi w last.1) solid
                        (omega (
                          arith,
                          div-add-mod' count (length start),
                          (==_iff (count % length start) 0).0 whole,
                        ))
                        (ground arith)
                        (level-offsets dense bytes w.cur d n is_dense s ∙ ap (copies 0 n d.sm) is),
                  ))
          ]
        ]
      ]
    where
      n : ℕ
      n = count / length start

      full : ℕ × H
      full = level mpi dense bytes w.cur d d.extent

      last : ℕ × H
      last = level mpi dense bytes w.cur d (count / length start)

      next : List ℤ
      next = copies 0 d.extent d.sm start

      nonzero : (length start == 0) ≡ false
      nonzero = ground arith

      product : length start * d.extent ≡ length next
      product = omega (arith, length-copies 0 d.extent d.sm start)
