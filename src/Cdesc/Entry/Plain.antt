-- ===== src/Cdesc/Entry/Plain.antt =====
-- gen/mpif_f08_cdesc.c: which buffers the entry points hand on without a look at their strides, said
-- without the code's test.
use mpif.Prelude.{
  ℕ, ◌<◌, ◌≤◌, ◌≡◌, ◌≢◌, ◌⊎◌, inl, inr, refl, Bool, true, false, List, [], ◌∷◌, ltb, ◌==◌, arith,
  ◌&&◌, length, Bool-cases, ==_iff,
}
use mpif.Sentinels.{Cells, mpif_c_buffer}
use mpif.Cdesc.{Descriptor, Datatypes}
use mpif.Cdesc.Entry.{Choice, mpif_cdesc_is_sentinel, is_strided}

-- The addresses of the sentinels, as Fortran and as C name them.
pub data IsSentinel (cells : Cells) (p : ℕ) : Type 0 where
  bottom : p ≡ cells.bottom → IsSentinel cells p
  in_place : p ≡ cells.in_place → IsSentinel cells p
  buffer_automatic : p ≡ cells.buffer_automatic → IsSentinel cells p
  of_c : p < 3 → IsSentinel cells p

-- A buffer whose address says all: a sentinel, a scalar, or an array without gaps.
pub data IsPlain (cells : Cells) (is_contiguous : Descriptor → Bool) (c : Choice) : Type 0 where
  sentinel : IsSentinel cells c.base_addr → IsPlain cells is_contiguous c
  scalar : c.cdesc.dim ≡ [] → IsPlain cells is_contiguous c
  contiguous : is_contiguous c.cdesc ≡ true → IsPlain cells is_contiguous c

-- An array with gaps at an address of its own.
pub record IsGapped (cells : Cells) (is_contiguous : Descriptor → Bool) (c : Choice) : Type 0 where
  pub not_bottom : c.base_addr ≢ cells.bottom
  pub not_in_place : c.base_addr ≢ cells.in_place
  pub not_automatic : c.base_addr ≢ cells.buffer_automatic
  pub not_of_c : 3 ≤ c.base_addr
  pub some_rank : c.cdesc.dim ≢ []
  pub gaps : is_contiguous c.cdesc ≡ false

-- The test for a sentinel after the translation of the address finds those of both languages.
IsSentinel-cases :
    (cells : Cells) (p : ℕ)
    → (IsSentinel cells p × (mpif_cdesc_is_sentinel (mpif_c_buffer cells p) ≡ true))
      ⊎ ((p ≢ cells.bottom)
          × (p ≢ cells.in_place)
          × (p ≢ cells.buffer_automatic)
          × (3 ≤ p)
          × (mpif_cdesc_is_sentinel (mpif_c_buffer cells p) ≡ false))
unfolding mpif_c_buffer
IsSentinel-cases cells p = elim (Bool-cases (p == cells.bottom)) [
  | inl b ↦ inl (bottom ((==_iff p cells.bottom).0 b), rw b refl)
  | inr nb ↦ elim (Bool-cases (p == cells.in_place)) [
    | inl i ↦ inl (in_place ((==_iff p cells.in_place).0 i), rw (nb, i) refl)
    | inr ni ↦ elim (Bool-cases (p == cells.buffer_automatic)) [
      | inl a ↦ inl (buffer_automatic ((==_iff p cells.buffer_automatic).0 a), rw (nb, ni, a) refl)
      | inr na ↦ elim (Bool-cases (ltb p 3)) [
        | inl low ↦ inl (of_c (ground arith), rw (nb, ni, na) (ground arith))
        | inr high ↦
            inr (
              ground arith,
              ground arith,
              ground arith,
              ground arith,
              rw (nb, ni, na) (ground arith),
            )
      ]
    ]
  ]
]

nil-cases {ℓ} : {A : Type ℓ} (xs : List A) → (xs ≡ []) ⊎ ((xs ≢ []) × ((length xs == 0) ≡ false))
nil-cases [] = inl refl
nil-cases (x ∷ xs) = inr (λ e. cc, ground arith)

-- The code's test tells the two apart.
pub is_strided-cases :
    {H : Type 0} (cells : Cells) (mpi : Datatypes H) (is_contiguous : Descriptor → Bool)
    (c : Choice)
    → (IsPlain cells is_contiguous c × (is_strided cells mpi is_contiguous c ≡ false))
      ⊎ (IsGapped cells is_contiguous c × (is_strided cells mpi is_contiguous c ≡ true))
unfolding is_strided
is_strided-cases cells mpi is_contiguous c = elim (IsSentinel-cases cells c.base_addr) [
  | inl (yes_, test) ↦ inl (sentinel yes_, rw test refl)
  | inr (nb, ni, na, high, test) ↦ elim (nil-cases c.cdesc.dim) [
    | inl flat ↦ inl (scalar flat, rw (test, flat) refl)
    | inr (some_, long) ↦ elim (Bool-cases (is_contiguous c.cdesc)) [
      | inl solid ↦ inl (contiguous solid, rw (test, long, solid) refl)
      | inr gaps ↦ inr (
        record {
          not_bottom = nb;
          not_in_place = ni;
          not_automatic = na;
          not_of_c = high;
          some_rank = some_;
          gaps = gaps;
        },
        rw (test, long, gaps) refl,
      )
    ]
  ]
]

-- The same of a buffer that may not count.
module _ {H : Type 0} (cells : Cells) (mpi : Datatypes H) (is_contiguous : Descriptor → Bool)
    (needed : Bool) (c : Choice) where
  pub plain_or_not_needed :
      (needed && is_strided cells mpi is_contiguous c) ≡ false
      → (needed ≡ false) ⊎ IsPlain cells is_contiguous c
  plain_or_not_needed test = elim (is_strided-cases cells mpi is_contiguous c) [
    | inl (plain, _) ↦ inr plain
    | inr (gapped, strided) ↦ inl (ground (arith, test, strided))
  ]

  pub needed-IsGapped :
      (needed && is_strided cells mpi is_contiguous c) ≡ true
      → (needed ≡ true) × IsGapped cells is_contiguous c
  needed-IsGapped test = elim (is_strided-cases cells mpi is_contiguous c) [
    | inl (plain, not_) ↦ absurd (ground (arith, test, not_))
    | inr (gapped, _) ↦ (ground (arith, test), gapped)
  ]
