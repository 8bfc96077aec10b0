-- ===== src/Strings/Copy.antt =====
-- mpif_strcpy_c2f, and the two round trips between a Fortran and a C string.
use mpif.Prelude.{
  ℕ, suc, ◌+◌, ◌-◌, ◌≤◌, ◌<◌, ◌≡◌, ◌≢◌, refl, sym, ap, ◌∙◌, inl, inr, [], ◌∷◌, ◌++◌, arith, ◌==◌,
  if◌then◌else◌, some, length, take, drop, take-take, take-append, take-all, length-take,
  length-append, length-drop, length-replicate, Bool-cases, replicate, leb, leb→le, All, drop-drop,
}
use mathlib.Core.List.{append_assoc, append-nil}
use mpif.Machine.{Run, ok, fault, ◌>>=◌, Bytes, Allocator}
use mpif.Machine.Memory.{memcpy_start, memset_tail}
use mpif.Strings.{blank, mpif_strdup_f2c, mpif_strcpy_c2f}
use mpif.Strings.Length.{
  trim_end, trim_end-append-replicate, trim_end-append-blanks, trim_end-All, length-trim_end-le,
}
use mpif.Strings.Duplicate.{new_c_string-ok, strdup_f2c-trim_end}

-- The characters `s` as a Fortran string of length `n`: cut off, or filled up with blanks.
unfoldable pub fortran_string : ℕ → Bytes → Bytes
fortran_string n s = take n s ++ replicate (n - length s) blank

-- `strlen`: the characters before the first NUL, which has to be there.
unfoldable pub strlen : Bytes → Run ℕ
strlen [] = fault
strlen (c ∷ s) = let rest = strlen s in if c == 0 then ok 0 else (rest >>= λ n. ok (suc n))

abbrev pub NoNul : Bytes → Type 0
NoNul = All (λ c. c ≢ 0)

pub strlen-append : (s rest : Bytes) → NoNul s → strlen (s ++ 0 ∷ rest) ≡ ok (length s)
unfolding strlen
strlen-append [] rest h = refl
strlen-append (c ∷ s) rest h = ground (arith, strlen-append s rest h.1)

-- The first `dest_length` bytes become the string, cut off or filled up; the bytes behind stay.
pub strcpy_c2f-fortran_string :
    (dest src : Bytes) (dest_length src_length : ℕ)
    → dest_length ≤ length dest
    → src_length ≤ length src
    → mpif_strcpy_c2f dest src dest_length src_length
      ≡ ok (fortran_string dest_length (take src_length src) ++ drop dest_length dest)
unfolding mpif_strcpy_c2f fortran_string
strcpy_c2f-fortran_string dest src n m h k = elim (Bool-cases (leb n m)) [
  | inl cut ↦
      let le = leb→le n m cut in
      let full : n - length (take m src) ≡ 0 = omega (arith, length-take m src k) in
      rw cut (
        memcpy_start dest src n h (omega arith)
        ∙ rw (take-take n m src le, full, append-nil (take n src)))
  | inr fill ↦
      let lt : m < n = ground arith in
      let len = length-take m src k in
      rw
        (
          fill,
          memcpy_start dest src m (omega arith) k,
          memset_tail (take m src) (drop m dest) m blank (n - m) len
              (omega (arith, length-drop m dest)),
          len,
          take-all n (take m src) (omega arith),
        )
        (ap ok (
          ap (λ t. take m src ++ (replicate (n - m) blank ++ t)) (rest lt)
          ∙ sym (append_assoc (take m src) (replicate (n - m) blank) (drop n dest))))
]
  where
    rest : m < n → drop (n - m) (drop m dest) ≡ drop n dest
    rest lt = drop-drop m (n - m) dest ∙ ap (λ i. drop i dest) (omega arith)

fortran_string-trim_end : (n : ℕ) (s : Bytes) → length s ≡ n → fortran_string n (trim_end s) ≡ s
unfolding fortran_string
fortran_string-trim_end n s e =
    rw (← e, take-all (length s) (trim_end s) (length-trim_end-le s)) (trim_end-append-replicate s)

-- To C and back: a Fortran string without a NUL comes back as it was, blanks at the end included.
pub strcpy_c2f-strdup_f2c :
    (a : Allocator) (str dest b : Bytes) (n : ℕ)
    → n ≤ length str
    → n ≤ length dest
    → NoNul (take n str)
    → a.malloc (length (trim_end (take n str)) + 1) ≡ some b
    → (do c ← mpif_strdup_f2c a str n; len ← strlen c; mpif_strcpy_c2f dest c n len)
      ≡ ok (take n str ++ drop n dest)
strcpy_c2f-strdup_f2c a str dest b n h k no_nul room =
    let s = trim_end (take n str) in
    rw
      (
        strdup_f2c-trim_end a str n h,
        new_c_string-ok a s b room,
        strlen-append s [] (trim_end-All (λ c. c ≢ 0) (take n str) no_nul),
        strcpy_c2f-fortran_string dest (s ++ 0 ∷ []) n (length s) k
            (omega (arith, length-append s (0 ∷ []))),
        take-append s (0 ∷ []),
      )
      (ap (λ t. ok (t ++ drop n dest))
        (fortran_string-trim_end n (take n str) (length-take n str h)))

-- To Fortran and back: a C string comes back as it was if it fits and has no blank at its end.
pub strdup_f2c-strcpy_c2f :
    (a : Allocator) (s rest dest b : Bytes) (n : ℕ)
    → length s ≤ n
    → n ≤ length dest
    → trim_end s ≡ s
    → a.malloc (length s + 1) ≡ some b
    → (do f ← mpif_strcpy_c2f dest (s ++ rest) n (length s); mpif_strdup_f2c a f n)
      ≡ ok (s ++ 0 ∷ [])
unfolding fortran_string
strdup_f2c-strcpy_c2f a s rest dest b n h k trimmed room =
    rw
      (
        strcpy_c2f-fortran_string dest (s ++ rest) n (length s) k
            (omega (arith, length-append s rest)),
        take-append s rest,
        strdup_f2c-trim_end a (f ++ drop n dest) n
            (omega (arith, length-append f (drop n dest), len)),
        first,
        unpadded,
      )
      (new_c_string-ok a s b room)
  where
    f : Bytes
    f = fortran_string n s

    is_padded : f ≡ s ++ replicate (n - length s) blank
    is_padded = ap (λ t. t ++ replicate (n - length s) blank) (take-all n s h)

    len : length f ≡ n
    len =
        ap length is_padded
        ∙ omega (
          arith,
          length-append s (replicate (n - length s) blank),
          length-replicate (n - length s) blank,
        )

    first : take n (f ++ drop n dest) ≡ f
    first = ap (λ i. take i (f ++ drop n dest)) (sym len) ∙ take-append f (drop n dest)

    unpadded : trim_end f ≡ s
    unpadded = ap trim_end is_padded ∙ trim_end-append-blanks (n - length s) s ∙ trimmed
