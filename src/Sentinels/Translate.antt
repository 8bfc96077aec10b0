-- ===== src/Sentinels/Translate.antt =====
-- The translation of sentinels, when the cells have addresses of their own.
use mpif.Prelude.{
  ℕ, ◌≡◌, ◌≢◌, refl, sym, ◌∙◌, false, ◌==◌, if◌then◌else◌, List, [], ◌∷◌, arith, All, inl, inr,
  Bool-cases, ==_refl, ==_iff,
}
use mpif.Sentinels.{
  Cells, mpi_bottom, mpi_in_place, mpi_buffer_automatic, mpi_unweighted, mpi_weights_empty,
  null_address, mpif_c_cbuffer, mpif_c_buffer, mpif_f_buffer_addr, mpif_c_status, mpif_c_weights,
  mpif_c_errcodes,
}

-- A lookup by address: the first pair with the address, or the address itself.
abbrev pub translate : List (ℕ × ℕ) → ℕ → ℕ
translate [] p = p
translate ((cell, constant) ∷ rest) p = if p == cell then constant else translate rest p

-- No cell stands twice in the table.
abbrev pub AreDistinct : List (ℕ × ℕ) → Type 0
AreDistinct [] = Unit
AreDistinct (x ∷ rest) = All (λ y. x.0 ≢ y.0) rest × AreDistinct rest

-- Each cell is translated to its own constant, and every other address stays.
pub data Translated (table : List (ℕ × ℕ)) (f : ℕ → ℕ) : Type 0 where
  translated :
      All (λ x. f x.0 ≡ x.1) table
      → ((p : ℕ) → All (λ x. p ≢ x.0) table → f p ≡ p)
      → Translated table f

==_ne : (m n : ℕ) → m ≢ n → (m == n) ≡ false
==_ne m n ne = elim (Bool-cases (m == n)) [
  | inl eq ↦ absurd (ne ((==_iff m n).0 eq))
  | inr other ↦ other
]

translate_other : (table : List (ℕ × ℕ)) (p : ℕ) → All (λ x. p ≢ x.0) table → translate table p ≡ p
translate_other [] p ne = refl
translate_other (x ∷ rest) p (ne, more) = rw (==_ne p x.0 ne) (translate_other rest p more)

skip_cell :
    (x : ℕ × ℕ) (rest done : List (ℕ × ℕ))
    → All (λ y. x.0 ≢ y.0) done
    → All (λ y. translate rest y.0 ≡ y.1) done
    → All (λ y. translate (x ∷ rest) y.0 ≡ y.1) done
skip_cell x rest [] ne is = tt
skip_cell x rest (y ∷ done) (ne, more) (here, there) =
    (rw (==_ne y.0 x.0 (λ e. ne (sym e))) here, skip_cell x rest done more there)

translate_cells :
    (table : List (ℕ × ℕ)) → AreDistinct table → All (λ x. translate table x.0 ≡ x.1) table
translate_cells [] distinct = tt
translate_cells (x ∷ rest) (ne, distinct) =
    (rw (==_refl x.0) refl, skip_cell x rest rest ne (translate_cells rest distinct))

translate-Translated :
    (table : List (ℕ × ℕ)) → AreDistinct table → Translated table (translate table)
translate-Translated table distinct =
    translated (translate_cells table distinct) (translate_other table)

module _ (cells : Cells) where
  abbrev pub buffers : List (ℕ × ℕ)
  buffers =
      (cells.bottom, mpi_bottom)
      ∷ (cells.in_place, mpi_in_place)
      ∷ (cells.buffer_automatic, mpi_buffer_automatic)
      ∷ []

  abbrev pub statuses : List (ℕ × ℕ)
  statuses =
      (cells.status_ignore, null_address)
      ∷ (cells.f08_status_ignore, null_address)
      ∷ (cells.statuses_ignore, null_address)
      ∷ (cells.f08_statuses_ignore, null_address)
      ∷ []

  abbrev pub weights : List (ℕ × ℕ)
  weights = (cells.unweighted, mpi_unweighted) ∷ (cells.weights_empty, mpi_weights_empty) ∷ []

  abbrev pub errcodes : List (ℕ × ℕ)
  errcodes = (cells.errcodes_ignore, null_address) ∷ []

  c_status-translate : (p : ℕ) → mpif_c_status cells p ≡ translate statuses p
  unfolding mpif_c_status
  c_status-translate p = ground arith

  -- With cells at addresses of their own, each translator maps the cells of its family to their
  -- constants in the ABI, and leaves every other address, which is that of an object, as it is.
  pub translators-Translated :
      AreDistinct buffers
      → AreDistinct statuses
      → AreDistinct weights
      → Translated buffers (mpif_c_cbuffer cells)
        × Translated buffers (mpif_c_buffer cells)
        × Translated statuses (mpif_c_status cells)
        × Translated weights (mpif_c_weights cells)
        × Translated errcodes (mpif_c_errcodes cells)
  unfolding mpif_c_cbuffer mpif_c_buffer mpif_c_weights mpif_c_errcodes
  translators-Translated b s w = (
    translate-Translated buffers b,
    translate-Translated buffers b,
    translated (statuses_cells (translate_cells statuses s))
        (λ p ne. c_status-translate p ∙ translate_other statuses p ne),
    translate-Translated weights w,
    translate-Translated errcodes (tt, tt),
  )
    where
      statuses_cells :
          All (λ x. translate statuses x.0 ≡ x.1) statuses
          → All (λ x. mpif_c_status cells x.0 ≡ x.1) statuses
      statuses_cells (p, (q, (r, (t, done)))) = (
        c_status-translate cells.status_ignore ∙ p,
        (
          c_status-translate cells.f08_status_ignore ∙ q,
          (
            c_status-translate cells.statuses_ignore ∙ r,
            (c_status-translate cells.f08_statuses_ignore ∙ t, done),
          ),
        ),
      )

  -- A buffer that was attached is detached as the same address: a Fortran object's, or that of
  -- MPI_BUFFER_AUTOMATIC, which MPI has had as its constant in between.
  pub f_buffer_addr-c_buffer :
      (p : ℕ)
      → p ≢ cells.bottom
      → p ≢ cells.in_place
      → p ≢ mpi_buffer_automatic
      → mpif_f_buffer_addr cells (mpif_c_buffer cells p) ≡ p
  unfolding mpif_f_buffer_addr mpif_c_buffer
  f_buffer_addr-c_buffer p b i a = ground arith
