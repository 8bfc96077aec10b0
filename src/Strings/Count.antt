-- ===== src/Strings/Count.antt =====
-- mpif_fcount and mpif_fcount2d: the index of the first blank string of an array.
use mpif.Prelude.{
  ℕ, zero, suc, ◌+◌, ◌*◌, ◌≤◌, ◌<◌, ◌≡◌, ◌≢◌, refl, ap, ◌∙◌, ◌⊎◌, inl, inr, true, false, [], ◌∷◌,
  arith, ◌==◌, if◌then◌else◌, length, get_elem?, get_elem?-lt, take, drop, length-drop, Bool-cases,
  Option-cases, lt_or_le, true≢false,
}
use mpif.Machine.{Run, ok, fault, out_of_fuel, ◌>>=◌, Bytes}
use mpif.Strings.{mpif_fstrlen, fcount_loop, mpif_fcount, fcount2d_loop, mpif_fcount2d}
use mpif.Strings.Length.{trim_end, fstrlen-trim_end}

-- Both loops, with the address of string `n` as a function.
count_loop : (ℕ → ℕ) → ℕ → ℕ → Bytes → ℕ → Run ℕ
count_loop at zero n strarr str_length = out_of_fuel
count_loop at (suc fuel) n strarr str_length =
    let rest = count_loop at fuel (n + 1) strarr str_length in
    do len ← mpif_fstrlen (drop (at n) strarr) str_length; if len == 0 then ok n else rest

abbrev round : (ℕ → ℕ) → ℕ → Bytes → ℕ → Run ℕ → Run ℕ
round at n strarr str_length rest = do
  len ← mpif_fstrlen (drop (at n) strarr) str_length
  if len == 0 then ok n else rest

fcount_loop-count_loop :
    (fuel n : ℕ) (strarr : Bytes) (str_length : ℕ)
    → fcount_loop fuel n strarr str_length
      ≡ count_loop (λ k. k * str_length) fuel n strarr str_length
unfolding fcount_loop count_loop
fcount_loop-count_loop zero n strarr l = refl
fcount_loop-count_loop (suc fuel) n strarr l =
    ap (round (λ k. k * l) n strarr l) (fcount_loop-count_loop fuel (n + 1) strarr l)

fcount2d_loop-count_loop :
    (fuel n : ℕ) (strarr : Bytes) (size index str_length : ℕ)
    → fcount2d_loop fuel n strarr size index str_length
      ≡ count_loop (λ k. index * str_length + k * str_length * size) fuel n strarr str_length
unfolding fcount2d_loop count_loop
fcount2d_loop-count_loop zero n strarr size index l = refl
fcount2d_loop-count_loop (suc fuel) n strarr size index l =
    ap (round (λ k. index * l + k * l * size) n strarr l)
      (fcount2d_loop-count_loop fuel (n + 1) strarr size index l)

-- The string at `at`, without the blanks at its end.
abbrev pub entry : Bytes → ℕ → ℕ → Bytes
entry strarr at str_length = trim_end (take str_length (drop at strarr))

-- `k` is the first index whose string is blank, and the array reaches that far.
pub record IsFirstBlank (at : ℕ → ℕ) (strarr : Bytes) (str_length k : ℕ) : Type 0 where
  pub within : (j : ℕ) → j ≤ k → at j + str_length ≤ length strarr
  pub is_blank : entry strarr (at k) str_length ≡ []
  pub others : (j : ℕ) → j < k → entry strarr (at j) str_length ≢ []

length-eq-zero : (s : Bytes) → (length s == 0) ≡ true → s ≡ []
length-eq-zero [] h = refl
length-eq-zero (x ∷ s) h = absurd (ground arith)

module _ (at : ℕ → ℕ) (strarr : Bytes) (l k : ℕ) (first : IsFirstBlank at strarr l k) where
  open first use {within, is_blank, others}

  fstrlen_at :
      (n : ℕ) → n ≤ k → mpif_fstrlen (drop (at n) strarr) l ≡ ok (length (entry strarr (at n) l))
  fstrlen_at n h =
      fstrlen-trim_end (drop (at n) strarr) l (omega (arith, within n h, length-drop (at n) strarr))

  blank_at : (n : ℕ) → n ≡ k → (length (entry strarr (at n) l) == 0) ≡ true
  blank_at n e = rw (e, is_blank)

  stops :
      (n : ℕ)
      → n ≤ k
      → (n < k) ⊎ (k ≤ n)
      → (length (entry strarr (at n) l) == 0) ≡ true
      → ok n ≡ ok k
  stops n h (inl lt) stop = absurd (others n lt (length-eq-zero (entry strarr (at n) l) stop))
  stops n h (inr le) stop = ap ok (omega arith)

  goes_on :
      (n : ℕ)
      → n ≤ k
      → (n < k) ⊎ (k ≤ n)
      → (length (entry strarr (at n) l) == 0) ≡ false
      → n + 1 ≤ k
  goes_on n h (inl lt) more = omega arith
  goes_on n h (inr le) more = absurd (true≢false (blank_at n (omega arith)) more)

  count_loop-first : (fuel n : ℕ) → n ≤ k → k < fuel + n → count_loop at fuel n strarr l ≡ ok k
  unfolding count_loop
  count_loop-first zero n h f = absurd (omega arith)
  count_loop-first (suc fuel) n h f =
      rw (fstrlen_at n h) (elim (Bool-cases (length (entry strarr (at n) l) == 0)) [
        | inl stop ↦ rw stop (stops n h (lt_or_le n k) stop)
        | inr more ↦
            rw more (count_loop-first fuel (n + 1) (goes_on n h (lt_or_le n k) more) (omega arith))
      ])

-- Strings before the first blank one take at least a byte each, so the fuel lasts.
fuel_enough :
    (at : ℕ → ℕ) (strarr : Bytes) (l k : ℕ)
    → (0 < l → (n : ℕ) → n ≤ at n)
    → IsFirstBlank at strarr l k
    → k < length strarr + 1
unfolding trim_end
fuel_enough at strarr zero zero grows first = omega arith
fuel_enough at strarr zero (suc k) grows first = absurd (first.others 0 (omega arith) refl)
fuel_enough at strarr (suc l) k grows first =
    omega (arith, grows (omega arith) k, first.within k (omega arith))

-- `mpif_fcount` returns the index of the first blank string, if the array has one.
pub fcount-first :
    (strarr : Bytes) (str_length k : ℕ)
    → IsFirstBlank (λ n. n * str_length) strarr str_length k
    → mpif_fcount strarr str_length ≡ ok k
unfolding mpif_fcount
fcount-first strarr l k first =
    fcount_loop-count_loop (length strarr + 1) 0 strarr l
    ∙ count_loop-first (λ n. n * l) strarr l k first (length strarr + 1) 0 (omega arith)
        (omega (arith, fuel_enough (λ n. n * l) strarr l k (λ pos_l n. grind arith) first))

le_mul : (x s : ℕ) → 0 < s → x ≤ x * s
le_mul x s h = grind arith

grows_2d : (index size l n : ℕ) → index < size → 0 < l → n ≤ index * l + n * l * size
grows_2d index size l n h pos_l = omega (arith, le_mul n l pos_l, le_mul (n * l) size (omega arith))

-- `mpif_fcount2d` returns the column of the first blank string in row `strarr_index`, if there
-- is one.
pub fcount2d-first :
    (strarr : Bytes) (strarr_size strarr_index str_length k : ℕ)
    → strarr_index < strarr_size
    → IsFirstBlank
        (λ n. strarr_index * str_length + n * str_length * strarr_size)
        strarr
        str_length
        k
    → mpif_fcount2d strarr strarr_size strarr_index str_length ≡ ok k
unfolding mpif_fcount2d
fcount2d-first strarr size index l k h first =
    fcount2d_loop-count_loop (length strarr + 1) 0 strarr size index l
    ∙ count_loop-first _ strarr l k first (length strarr + 1) 0 (omega arith)
        (omega (arith, fuel_enough _ strarr l k (λ pos_l n. grows_2d index size l n h pos_l) first))

-- A string that is read has its last character inside the array.
fstrlen-within : (str : Bytes) (n k : ℕ) → mpif_fstrlen str n ≡ ok (suc k) → 0 < length str
unfolding mpif_fstrlen
fstrlen-within str zero k h = absurd (ground arith)
fstrlen-within str (suc n) k h = elim (Option-cases (get_elem? str n)) [
  | inl outside ↦ absurd (ground arith)
  | inr (c, e) ↦ omega (arith, get_elem?-lt str n e)
]

-- The trimmed length is always found, or a character was outside.
fstrlen_outcome :
    (str : Bytes) (n : ℕ) → ((k : ℕ) × (mpif_fstrlen str n ≡ ok k)) ⊎ (mpif_fstrlen str n ≡ fault)
unfolding mpif_fstrlen
fstrlen_outcome str zero = inl (0, refl)
fstrlen_outcome str (suc n) = ground (arith, fstrlen_outcome str n)

fstrlen-pos : (str : Bytes) (n k : ℕ) → mpif_fstrlen str n ≡ ok (suc k) → 0 < n
unfolding mpif_fstrlen
fstrlen-pos str zero k h = absurd (ground arith)
fstrlen-pos str (suc n) k h = omega arith

module _ (at : ℕ → ℕ) (strarr : Bytes) (l : ℕ) (grows : 0 < l → (n : ℕ) → n ≤ at n) where
  -- One round either stops, or has read a character of string `n`.
  round_in_fuel :
      (n : ℕ) (rest : Run ℕ)
      → (n < length strarr → rest ≢ out_of_fuel)
      → ((k : ℕ) × (mpif_fstrlen (drop (at n) strarr) l ≡ ok k))
        ⊎ (mpif_fstrlen (drop (at n) strarr) l ≡ fault)
      → round at n strarr l rest ≢ out_of_fuel
  round_in_fuel n rest later (inr q) e = ground arith
  round_in_fuel n rest later (inl (zero, q)) e = ground arith
  round_in_fuel n rest later (inl (suc k, q)) e =
      later
        (omega (
          arith,
          length-drop (at n) strarr,
          fstrlen-within (drop (at n) strarr) l k q,
          grows (fstrlen-pos (drop (at n) strarr) l k q) n,
        ))
        (ground arith)

  count_loop_in_fuel :
      (fuel n : ℕ)
      → n ≤ length strarr
      → length strarr < fuel + n
      → count_loop at fuel n strarr l ≢ out_of_fuel
  unfolding count_loop
  count_loop_in_fuel zero n h f = absurd (omega arith)
  count_loop_in_fuel (suc fuel) n h f =
      round_in_fuel n (count_loop at fuel (n + 1) strarr l)
        (λ lt. count_loop_in_fuel fuel (n + 1) (omega arith) (omega arith))
        (fstrlen_outcome (drop (at n) strarr) l)

-- The count does not run for ever: it ends, at a blank string or with a read outside the array.
pub fcount-ne-out_of_fuel :
    (strarr : Bytes) (str_length : ℕ) → mpif_fcount strarr str_length ≢ out_of_fuel
unfolding mpif_fcount
fcount-ne-out_of_fuel strarr l = rw (fcount_loop-count_loop (length strarr + 1) 0 strarr l) (
    count_loop_in_fuel (λ n. n * l) strarr l (λ h n. le_mul n l h) (length strarr + 1) 0
      (omega arith) (omega arith))

-- Nor does the count along a row of the array, for a row within it.
pub fcount2d-ne-out_of_fuel :
    (strarr : Bytes) (strarr_size strarr_index str_length : ℕ)
    → strarr_index < strarr_size
    → mpif_fcount2d strarr strarr_size strarr_index str_length ≢ out_of_fuel
unfolding mpif_fcount2d
fcount2d-ne-out_of_fuel strarr size index l h =
    rw (fcount2d_loop-count_loop (length strarr + 1) 0 strarr size index l) (
      count_loop_in_fuel _ strarr l (λ pos_l n. grows_2d index size l n h pos_l) (length strarr + 1)
        0 (omega arith) (omega arith))
