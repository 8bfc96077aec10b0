-- ===== src/Check/Environment.antt =====
-- src/mpif_check.c, the environment variables: mpif_check_getenv_long, with `strtol` in base 10 for a
-- `long` of 64 bits, and the cut of the two expectations on nodes to an `int`.
use mpif.Prelude.{
  ℕ, zero, suc, ◌+◌, ◌-◌, ◌*◌, ◌%◌, ◌^◌, ◌<◌, ◌≡◌, ◌≢◌, ◌↔◌, refl, sym, ap, ◌∙◌, subst, ==_iff,
  Option-cases, Bool, true, false, ◌&&◌, ◌||◌, Option, none, some, [], ◌∷◌, ltb, leb, ◌==◌,
  if◌then◌else◌, arith, Bool-cases, inl, inr, All,
}
use mpif.Prelude.Int.{ℤ, pos, negsuc}
use mpif.Machine.{Run, ok, aborted, Bytes}

abbrev pub is_space : ℕ → Bool
is_space c = c == b' ' || (leb 9 c && leb c 13)

abbrev pub is_digit : ℕ → Bool
is_digit c = leb b'0' c && leb c b'9'

-- The digits from the start of the string on, and what follows them.
unfoldable pub digits_value : ℕ → Bytes → ℕ × Bytes
digits_value value [] = (value, [])
digits_value value (c ∷ s) =
    let more = digits_value (value * 10 + (c - b'0')) s in
    if is_digit c then more else (value, c ∷ s)

-- A number that does not fit gives the last one that does.
abbrev pub positive_long : ℕ → ℤ
positive_long n = if ltb n (2 ^ 63) then pos n else pos (2 ^ 63 - 1)

abbrev pub negative_long : ℕ → ℤ
negative_long zero = pos 0
negative_long (suc n) = if ltb n (2 ^ 63) then negsuc n else negsuc (2 ^ 63 - 1)

-- After the blanks and the sign: none if there is no digit, so that `end` is `str`.
strtol_unsigned : (ℕ → ℤ) → Bytes → Option (ℤ × Bytes)
unfolding digits_value
strtol_unsigned sign [] = none
strtol_unsigned sign (c ∷ s) =
    let (value, rest) = digits_value 0 (c ∷ s) in
    if is_digit c then some (sign value, rest) else none

strtol_signed : Bytes → Option (ℤ × Bytes)
unfolding strtol_unsigned
strtol_signed [] = none
strtol_signed (c ∷ s) =
    if c == b'-'
    then strtol_unsigned negative_long s
    else (if c == b'+'
        then strtol_unsigned positive_long s
        else strtol_unsigned positive_long (c ∷ s))

unfoldable pub strtol : Bytes → Option (ℤ × Bytes)
unfolding strtol_signed
strtol [] = none
strtol (c ∷ s) = let rest = strtol s in if is_space c then rest else strtol_signed (c ∷ s)

-- `*end != '\0'`, or the value
abbrev at_end : ℤ × Bytes → Run (Option ℤ)
at_end (value, []) = ok (some value)
at_end (value, c ∷ rest) = aborted

-- From what `getenv` returns: none if the variable is not set or empty.
unfoldable pub mpif_check_getenv_long : Option Bytes → Run (Option ℤ)
unfolding strtol
mpif_check_getenv_long none = ok none
mpif_check_getenv_long (some []) = ok none
mpif_check_getenv_long (some (c ∷ s)) = elim (strtol (c ∷ s)) [ none ↦ aborted | some r ↦ at_end r ]

-- `(int)expected_nodes`, where only a positive number is an expectation.
unfoldable pub expectation : ℤ → ℕ
expectation (pos n) = let cut = n % 2 ^ 32 in if ltb cut (2 ^ 31) then cut else 0
expectation (negsuc n) = let cut = 2 ^ 32 - 1 - n % 2 ^ 32 in if ltb cut (2 ^ 31) then cut else 0

-- The value of a string of digits, and that it is one.
abbrev pub Digits : Bytes → Type 0
Digits s = All (λ c. is_digit c ≡ true) s

unfoldable pub decimal : ℕ → Bytes → ℕ
decimal value [] = value
decimal value (c ∷ s) = decimal (value * 10 + (c - b'0')) s

-- A number: blanks, a sign or none, and at least one digit.
pub data IsNumber : Bytes → ℤ → Type 0 where
  unsigned :
      (c : ℕ) (s : Bytes) → Digits (c ∷ s) → IsNumber (c ∷ s) (positive_long (decimal 0 (c ∷ s)))
  plus :
      (c : ℕ) (s : Bytes)
      → Digits (c ∷ s)
      → IsNumber (b'+' ∷ c ∷ s) (positive_long (decimal 0 (c ∷ s)))
  minus :
      (c : ℕ) (s : Bytes)
      → Digits (c ∷ s)
      → IsNumber (b'-' ∷ c ∷ s) (negative_long (decimal 0 (c ∷ s)))
  space : {s : Bytes} {v : ℤ} (c : ℕ) → is_space c ≡ true → IsNumber s v → IsNumber (c ∷ s) v

digits_value-Digits :
    (value : ℕ) (s : Bytes) → Digits s → digits_value value s ≡ (decimal value s, [])
unfolding digits_value decimal
digits_value-Digits value [] all = refl
digits_value-Digits value (c ∷ s) (here, all) =
    rw here (digits_value-Digits (value * 10 + (c - b'0')) s all)

strtol_unsigned-Digits :
    (sign : ℕ → ℤ) (c : ℕ) (s : Bytes)
    → Digits (c ∷ s)
    → strtol_unsigned sign (c ∷ s) ≡ some (sign (decimal 0 (c ∷ s)), [])
unfolding strtol_unsigned digits_value decimal
strtol_unsigned-Digits sign c s (here, all) =
    rw here (ap (λ r. some (sign r.0, r.1)) (digits_value-Digits (0 * 10 + (c - b'0')) s all))

strtol-IsNumber : (s : Bytes) (v : ℤ) → IsNumber s v → strtol s ≡ some (v, [])
unfolding strtol strtol_signed
strtol-IsNumber _ _ (unsigned c s (here, all)) =
    let solid : is_space c ≡ false = ground arith in
    let no_minus : (c == b'-') ≡ false = ground arith in
    let no_plus : (c == b'+') ≡ false = ground arith in
    rw (solid, no_minus, no_plus) (strtol_unsigned-Digits positive_long c s (here, all))
strtol-IsNumber _ _ (plus c s all) = strtol_unsigned-Digits positive_long c s all
strtol-IsNumber _ _ (minus c s all) = strtol_unsigned-Digits negative_long c s all
strtol-IsNumber _ v (space {s} c blank number) = rw blank (strtol-IsNumber s v number)

digits_value_nil : (value : ℕ) (s : Bytes) → (digits_value value s).1 ≡ [] → Digits s
unfolding digits_value
digits_value_nil value [] h = tt
digits_value_nil value (c ∷ s) h = elim (Bool-cases (is_digit c)) [
  | inl digit ↦ (digit, digits_value_nil (value * 10 + (c - b'0')) s (ground arith))
  | inr other ↦ absurd (ground arith)
]

same_value :
    {v w : ℤ} {rest : Bytes}
    → (let x : Option (ℤ × Bytes) = some (v, rest) in x) ≡ some (w, rest)
    → v ≡ w
same_value h = cc

-- What an unsigned conversion that reaches the end says.
data Unsigned (sign : ℕ → ℤ) (v : ℤ) : Bytes → Type 0 where
  digits :
      (c : ℕ) (s : Bytes) → Digits (c ∷ s) → v ≡ sign (decimal 0 (c ∷ s)) → Unsigned sign v (c ∷ s)

strtol_unsigned-Unsigned :
    (sign : ℕ → ℤ) (s : Bytes) (v : ℤ) → strtol_unsigned sign s ≡ some (v, []) → Unsigned sign v s
unfolding strtol_unsigned digits_value
strtol_unsigned-Unsigned sign [] v h = absurd (ground arith)
strtol_unsigned-Unsigned sign (c ∷ s) v h = elim (Bool-cases (is_digit c)) [
  | inr other ↦ absurd (ground arith)
  | inl digit ↦
      let all : Digits (c ∷ s) = (digit, digits_value_nil (0 * 10 + (c - b'0')) s (ground arith)) in
      digits c s all (same_value (sym h ∙ strtol_unsigned-Digits sign c s all))
]

IsNumber-from_digits : (s : Bytes) (v : ℤ) → Unsigned positive_long v s → IsNumber s v
IsNumber-from_digits _ v (digits c s all e) = subst (IsNumber (c ∷ s)) (sym e) (unsigned c s all)

IsNumber-from_plus : (s : Bytes) (v : ℤ) → Unsigned positive_long v s → IsNumber (b'+' ∷ s) v
IsNumber-from_plus _ v (digits c s all e) = subst (IsNumber (b'+' ∷ c ∷ s)) (sym e) (plus c s all)

IsNumber-from_minus : (s : Bytes) (v : ℤ) → Unsigned negative_long v s → IsNumber (b'-' ∷ s) v
IsNumber-from_minus _ v (digits c s all e) = subst (IsNumber (b'-' ∷ c ∷ s)) (sym e) (minus c s all)

strtol-eq-some : (s : Bytes) (v : ℤ) → strtol s ≡ some (v, []) → IsNumber s v
unfolding strtol strtol_signed
strtol-eq-some [] v h = absurd (ground arith)
strtol-eq-some (c ∷ s) v h = elim (Bool-cases (is_space c)) [
  | inl blank ↦ space c blank (strtol-eq-some s v (ground arith))
  | inr solid ↦ elim (Bool-cases (c == b'-')) [
    | inl is ↦
        subst (λ k. IsNumber (k ∷ s) v) (sym ((==_iff c b'-').0 is))
          (IsNumber-from_minus s v (strtol_unsigned-Unsigned negative_long s v (ground arith)))
    | inr no_minus ↦ elim (Bool-cases (c == b'+')) [
      | inl is ↦
          subst (λ k. IsNumber (k ∷ s) v) (sym ((==_iff c b'+').0 is))
            (IsNumber-from_plus s v (strtol_unsigned-Unsigned positive_long s v (ground arith)))
      | inr no_plus ↦
          IsNumber-from_digits (c ∷ s) v
            (strtol_unsigned-Unsigned positive_long (c ∷ s) v (ground arith))
    ]
  ]
]

at_end-ok : (r : ℤ × Bytes) (v : ℤ) → at_end r ≡ ok (some v) → r ≡ (v, [])
at_end-ok (value, []) v h = ground arith
at_end-ok (value, c ∷ rest) v h = absurd (ground arith)

at_end_set : (r : ℤ × Bytes) → at_end r ≢ ok none
at_end_set (value, []) h = ground arith
at_end_set (value, c ∷ rest) h = ground arith

-- A variable that is set and not empty gives a value just if all of it is a number, and that value,
-- held within the range of a long; it never counts as not set.
pub check_getenv_long_iff :
    (c : ℕ) (s : Bytes) (v : ℤ)
    → ((mpif_check_getenv_long (some (c ∷ s)) ≡ ok (some v)) ↔ IsNumber (c ∷ s) v)
      × (mpif_check_getenv_long (some (c ∷ s)) ≢ ok none)
unfolding mpif_check_getenv_long
check_getenv_long_iff c s v = (
  (
    λ h. elim (Option-cases (strtol (c ∷ s))) [
      | inl missing ↦ absurd (ground arith)
      | inr (r, found) ↦
          strtol-eq-some (c ∷ s) v (found ∙ ap some (at_end-ok r v (ground (arith, found))))
    ],
    λ number. rw (strtol-IsNumber (c ∷ s) v number, mpif_check_getenv_long) refl,
  ),
  λ h. elim (Option-cases (strtol (c ∷ s))) [
    | inl missing ↦ ground arith
    | inr (r, found) ↦ at_end_set r (ground (arith, found))
  ],
)

-- An expectation on nodes that an int holds is taken as it is. One that is 0, or that is a multiple of
-- 2 ^ 32, is none, so that the check it was meant for does not run.
pub expectation-pos :
    (n k : ℕ) → n < 2 ^ 31 → (expectation (pos n) ≡ n) × (expectation (pos (k * 2 ^ 32)) ≡ 0)
unfolding expectation
expectation-pos n k h = (ground arith, ground arith)
