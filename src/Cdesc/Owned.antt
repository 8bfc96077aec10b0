-- ===== src/Cdesc/Owned.antt =====
-- Which datatypes are left when the walker returns.
use mpif.Prelude.{
  ℕ, zero, suc, ◌*◌, ◌/◌, ◌%◌, ◌≡◌, refl, sym, ap, ◌∙◌, Bool, true, false, Option, none, some, List,
  [], ◌∷◌, ◌++◌, ltb, ◌==◌, if◌then◌else◌, inl, inr, Bool-cases,
}
use mpif.Prelude.Int.{ℤ, pos, negsuc, ◌*ℤ◌}
use mpif.Machine.{Run, ok, fault, aborted, out_of_fuel}
use mpif.Abi.{mpi_success, mpi_err_arg}
use mpif.Cdesc
use mpif.Cdesc.{
  Dim, Descriptor, Datatypes, Current, Returned, freed_now, fail, replace, commit, level,
  still_dense, walk, mpif_cdesc_create_datatype,
}

abbrev pub OnOk {ℓ κ} : {A : Type ℓ} → (A → Type κ) → Run A → Type κ
OnOk P (ok a) = P a
OnOk P fault = Unit
OnOk P aborted = Unit
OnOk P out_of_fuel = Unit

-- A property of both branches.
pub if_OnOk {ℓ κ} :
    {A : Type ℓ} (P : A → Type κ) (c : Bool) (m n : Run A)
    → OnOk P m
    → OnOk P n
    → OnOk P (if c then m else n)
if_OnOk P true m n hm hn = hm
if_OnOk P false m n hm hn = hn

module _ {H : Type 0} where
  abbrev pub newtypes : Option H → List H
  newtypes none = []
  newtypes (some t) = t ∷ []

  abbrev pub is_some : Option H → Bool
  is_some none = false
  is_some (some t) = true

  -- Of the datatypes that were made, all were freed once, in order, but the one that is returned;
  -- and one is returned just if the call succeeds.
  pub record Balanced (r : Returned H) : Type 0 where
    pub freed_all : r.created ≡ r.freed ++ newtypes r.newtype
    pub reported : (r.err == mpi_success) ≡ is_some r.newtype

  append-nil : (xs : List H) → xs ++ [] ≡ xs
  append-nil [] = refl
  append-nil (x ∷ xs) = ap (◌∷◌ x) (append-nil xs)

module _ {H : Type 0} (mpi : Datatypes H) where
  fail-Balanced :
      (err : ℕ) (w : Current H)
      → (err == mpi_success) ≡ false
      → w.created ≡ freed_now mpi w
      → Balanced (fail mpi err w)
  fail-Balanced err w failure all = record {
    freed_all = all ∙ sym (append-nil (freed_now mpi w));
    reported = failure;
  }

  replace-all :
      (w : Current H) (next : H)
      → w.created ≡ freed_now mpi w
      → (replace mpi w next).created ≡ freed_now mpi (replace mpi w next)
  replace-all w next all = ap (λ l. l ++ (next ∷ [])) all

  commit-Balanced :
      (w : Current H) (next : H)
      → w.created ≡ freed_now mpi w
      → Balanced (commit mpi (replace mpi w next))
  unfolding commit
  commit-Balanced w next all = elim (Bool-cases (mpi.type_commit next == mpi_success)) [
    | inl success ↦
        rw (success, commit) record { freed_all = replace-all w next all; reported = refl }
    | inr failure ↦
        rw (failure, commit)
          (fail-Balanced (mpi.type_commit next) (replace mpi w next) failure
            (replace-all w next all))
  ]

  walk-Balanced :
      (count : ℕ) (ds : List Dim) (elems : ℕ) (bytes : ℤ) (dense : Bool) (w : Current H)
      → w.created ≡ freed_now mpi w
      → OnOk Balanced (walk mpi count ds elems bytes dense w)
  unfolding walk
  walk-Balanced count [] elems bytes dense w all = fail-Balanced mpi_err_arg w refl all
  walk-Balanced count (d ∷ ds) elems bytes dense w all = if_OnOk Balanced (elems == 0) _ _ tt (
      if_OnOk Balanced (count % elems == 0) _ _
        (if_OnOk Balanced (ltb d.extent (count / elems)) _ _
          (elim (Bool-cases (full.0 == mpi_success)) [
            | inl success ↦ rw success (
                walk-Balanced count ds (elems * d.extent) (d.sm *ℤ pos d.extent)
                  (still_dense mpi dense bytes d) (replace mpi w full.1) (replace-all w full.1 all))
            | inr failure ↦ rw failure (fail-Balanced full.0 w failure all)
          ])
          (elim (Bool-cases (last.0 == mpi_success)) [
            | inl success ↦ rw success (commit-Balanced w last.1 all)
            | inr failure ↦ rw failure (fail-Balanced last.0 w failure all)
          ]))
        (fail-Balanced mpi_err_arg w refl all))
    where
      full : ℕ × H
      full = level mpi dense bytes w.cur d d.extent

      last : ℕ × H
      last = level mpi dense bytes w.cur d (count / elems)

  refuse-Balanced : (err : ℕ) → (err == mpi_success) ≡ false → Balanced (Cdesc.refuse mpi err)
  refuse-Balanced err failure = record { freed_all = refl; reported = failure }

  walk_from-Balanced :
      (cdesc : Descriptor) (count : ℕ) (w : Current H)
      → w.created ≡ freed_now mpi w
      → OnOk Balanced (Cdesc.walk_from mpi cdesc count w)
  unfolding Cdesc.walk_from
  walk_from-Balanced cdesc count w all =
      elim (Bool-cases ((mpi.type_get_extent_c w.cur).0 == mpi_success)) [
        | inl success ↦
            rw (success, Cdesc.walk_from)
              (walk-Balanced count cdesc.dim 1 (pos cdesc.elem_len) _ w all)
        | inr failure ↦ rw (failure, Cdesc.walk_from) (fail-Balanced _ w failure all)
      ]

  with_factor-Balanced :
      (cdesc : Descriptor) (oldcount : ℕ) (oldtype : H) (factor : ℕ)
      → OnOk Balanced (Cdesc.with_factor mpi cdesc oldcount oldtype factor)
  unfolding Cdesc.with_factor
  with_factor-Balanced cdesc oldcount oldtype factor =
      if_OnOk Balanced (ltb 1 factor) _ _
        (if_OnOk Balanced (oldcount % factor == 0) _ _
          (elim (Bool-cases ((mpi.type_contiguous_c factor oldtype).0 == mpi_success)) [
            | inl success ↦
                rw success (walk_from-Balanced cdesc (oldcount / factor) owned_base refl)
            | inr failure ↦ rw failure (refuse-Balanced _ failure)
          ])
          (refuse-Balanced mpi_err_arg refl))
        (walk_from-Balanced cdesc oldcount
          (record { cur = oldtype; owned = false; created = []; freed = [] }) refl)
    where
      owned_base : Current H
      owned_base =
          let base = (mpi.type_contiguous_c factor oldtype).1 in
          record { cur = base; owned = true; created = base ∷ []; freed = [] }

  with_size-Balanced :
      (cdesc : Descriptor) (oldcount : ℕ) (oldtype : H) (size : ℤ)
      → OnOk Balanced (Cdesc.with_size mpi cdesc oldcount oldtype size)
  unfolding Cdesc.with_size
  with_size-Balanced cdesc oldcount oldtype (negsuc n) = refuse-Balanced mpi_err_arg refl
  with_size-Balanced cdesc oldcount oldtype (pos zero) = refuse-Balanced mpi_err_arg refl
  with_size-Balanced cdesc oldcount oldtype (pos (suc n)) =
      if_OnOk Balanced (cdesc.elem_len % suc n == 0) _ _
        (with_factor-Balanced cdesc oldcount oldtype (cdesc.elem_len / suc n))
        (refuse-Balanced mpi_err_arg refl)

  -- Whenever the walker returns, it has freed every datatype that it made, once, but for the one
  -- that it returns; and it returns one just if its error code is MPI_SUCCESS.
  pub cdesc_create_datatype-Balanced :
      (cdesc : Descriptor) (oldcount : ℕ) (oldtype : H)
      → OnOk Balanced (mpif_cdesc_create_datatype mpi cdesc oldcount oldtype)
  unfolding mpif_cdesc_create_datatype
  cdesc_create_datatype-Balanced cdesc oldcount oldtype =
      elim (Bool-cases ((mpi.type_size_c oldtype).0 == mpi_success)) [
        | inl success ↦
            rw (success, mpif_cdesc_create_datatype)
              (with_size-Balanced cdesc oldcount oldtype (mpi.type_size_c oldtype).1)
        | inr failure ↦ rw (failure, mpif_cdesc_create_datatype) (refuse-Balanced _ failure)
      ]
