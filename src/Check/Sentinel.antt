-- ===== src/Check/Sentinel.antt =====
-- The check of the sentinels: which reports are accepted.
use mpif.Prelude.{
  ℕ, zero, suc, ◌+◌, ◌≡◌, inl, inr, ◌↔◌, refl, sym, ap, ◌∙◌, false, not, ◌||◌, arith, ltb, ◌==◌,
  Bool-cases, List, [], ◌∷◌, All, length, get_elem?, some, get_elem?-lt, Option-cases, ==_iff,
  ==_refl,
}
use mpif.Machine.{ok, >>=-eq-ok}
use mpif.Check.{Cell, Report, fail_if, mpif_check_sentinel, report_all, check_sentinels}

-- The report is of a sentinel of the table, at the cell's address and of the cell's size.
abbrev pub Agrees : List Cell → Report → Type 0
Agrees cells r =
    (i : ℕ) × (r.index ≡ suc i)
    × (get_elem? cells i ≡ some (record { cell = r.address; bytes = r.bytes }))

abbrev report : ℕ → ℕ → ℕ → Report
report i a b = record { index = i; address = a; bytes = b }

check_sentinel-at :
    (cells : List Cell) (n i a b : ℕ)
    → get_elem? cells i ≡ some (record { cell = a; bytes = b })
    → mpif_check_sentinel cells n (report (suc i) a b) ≡ ok (suc n)
unfolding mpif_check_sentinel
check_sentinel-at cells n i a b is =
    let low : ltb (suc i) 1 ≡ false = ground arith in
    let high : ltb (length cells) (suc i) ≡ false = ground (arith, get_elem?-lt cells i is) in
    rw (low, high, is, ==_refl a, ==_refl b) refl

check_sentinel-Agrees :
    (cells : List Cell) (n : ℕ) (r : Report)
    → Agrees cells r
    → mpif_check_sentinel cells n r ≡ ok (suc n)
check_sentinel-Agrees cells n r (i, at, is) =
    ap (λ k. mpif_check_sentinel cells n (report k r.address r.bytes)) at
    ∙ check_sentinel-at cells n i r.address r.bytes is

check_sentinel-eq-ok :
    (cells : List Cell) (n m i a b : ℕ)
    → mpif_check_sentinel cells n (report i a b) ≡ ok m
    → Agrees cells (report i a b) × (m ≡ suc n)
unfolding mpif_check_sentinel
check_sentinel-eq-ok cells n m zero a b h = absurd (cc)
check_sentinel-eq-ok cells n m (suc i) a b h =
    elim (Bool-cases (ltb (suc i) 1 || ltb (length cells) (suc i))) [
      | inl out ↦ absurd (ground arith)
      | inr inside ↦ elim (Option-cases (get_elem? cells i)) [
        | inl missing ↦ absurd (ground arith)
        | inr (c, found) ↦ elim (Bool-cases (a == c.cell)) [
          | inr moved ↦ absurd (ground arith)
          | inl same ↦ elim (Bool-cases (b == c.bytes)) [
            | inr resized ↦ absurd (ground arith)
            | inl fits ↦ (
              (
                i,
                refl,
                found
                    ∙ ap some (λ k. record {
                      cell = sym ((==_iff a c.cell).0 same) k;
                      bytes = sym ((==_iff b c.bytes).0 fits) k;
                    }),
              ),
              ground arith,
            )
          ]
        ]
      ]
    ]

report_all-ok :
    (cells : List Cell) (reports : List Report) (n : ℕ)
    → All (Agrees cells) reports
    → report_all cells n reports ≡ ok (n + length reports)
unfolding report_all
report_all-ok cells [] n all = ap ok (omega arith)
report_all-ok cells (r ∷ reports) n (here, all) =
    rw (check_sentinel-Agrees cells n r here)
      (report_all-ok cells reports (suc n) all ∙ ap ok (omega arith))

report_all-eq-ok :
    (cells : List Cell) (reports : List Report) (n m : ℕ)
    → report_all cells n reports ≡ ok m
    → All (Agrees cells) reports × (m ≡ n + length reports)
unfolding report_all
report_all-eq-ok cells [] n m h = (tt, ground arith)
report_all-eq-ok cells (r ∷ reports) n m h =
    let (k, first, rest) =
      >>=-eq-ok (mpif_check_sentinel cells n r) (λ n. report_all cells n reports) h in
    let (agrees, next) = check_sentinel-eq-ok cells n k r.index r.address r.bytes first in
    let (all, total) = report_all-eq-ok cells reports k m rest in
    ((agrees, all), omega (arith, next, total))

-- The reports are accepted just if every one agrees with the cell of its index and there are as
-- many as there are cells. In particular a sentinel may be missing if another comes twice.
pub check_sentinels_iff :
    (cells : List Cell) (reports : List Report)
    → (check_sentinels cells reports ≡ ok tt)
      ↔ (All (Agrees cells) reports × (length reports ≡ length cells))
unfolding check_sentinels
check_sentinels_iff cells reports = (
  λ h.
      let (m, ran, tested) =
        >>=-eq-ok (report_all cells 0 reports) (λ n. fail_if (not (n == length cells))) h in
      let (all, total) = report_all-eq-ok cells reports 0 m ran in (all, ground arith),
  λ (all, len). rw (report_all-ok cells reports 0 all) (ground arith),
)
