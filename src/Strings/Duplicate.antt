-- ===== src/Strings/Duplicate.antt =====
-- mpif_strdup_f2c and mpif_strdup_f2c_trim: what the new C string holds.
use mpif.Prelude.{
  ℕ, zero, suc, ◌+◌, ◌-◌, ◌≤◌, ◌≡◌, refl, sym, ap, ◌∙◌, inl, inr, [], ◌∷◌, ◌++◌, arith, ◌==◌,
  if◌then◌else◌, some, none, length, get_elem?, take, drop, get_elem?-some, length-take,
  length-drop, length-append, Bool-cases, Option-cases, take-take, length-take-le, take-drop,
  take-drop-cons, set-append,
}
use mpif.Machine.{Run, ok, aborted, ◌>>=◌, Bytes, store, memcpy, Allocator, or_abort}
use mpif.Machine.Memory.{memcpy-ok, store-ok}
use mpif.Strings.{blank, skip_blanks, mpif_strdup_f2c, mpif_strdup_f2c_trim}
use mpif.Strings.Length.{trim_end, trim_start, fstrlen-trim_end, take-trim_end, length-trim_end-le}

-- A new C string with the characters `s`, or the end of the process where `malloc` has no room.
unfoldable pub new_c_string : Allocator → Bytes → Run Bytes
new_c_string a s = elim (a.malloc (length s + 1)) [ none ↦ aborted | some _ ↦ ok (s ++ 0 ∷ []) ]

pub new_c_string-ok :
    (a : Allocator) (s b : Bytes)
    → a.malloc (length s + 1) ≡ some b
    → new_c_string a s ≡ ok (s ++ 0 ∷ [])
unfolding new_c_string
new_c_string-ok a s b room = rw (room, new_c_string)

terminate :
    (s rest : Bytes) (n : ℕ)
    → length s ≡ n
    → length rest ≡ 1
    → store (s ++ rest) n 0 ≡ ok (s ++ 0 ∷ [])
terminate s [] n e h = absurd (omega arith)
terminate s (x ∷ y ∷ r) n e h = absurd (omega arith)
terminate s (x ∷ []) n e h = rw (← e) (
    store-ok (s ++ x ∷ []) (length s) 0 (omega (arith, length-append s (x ∷ [])))
    ∙ ap ok (set-append s [] x 0))

copy_out :
    (b str : Bytes) (from n : ℕ)
    → length b ≡ n + 1
    → from + n ≤ length str
    → (memcpy b 0 str from n >>= λ r. store r n 0) ≡ ok (take n (drop from str) ++ 0 ∷ [])
copy_out b str from n h k = rw (memcpy-ok b str 0 from n (omega arith) k) (
    terminate (take n (drop from str)) (drop (0 + n) b) n
      (length-take n (drop from str) (omega (arith, length-drop from str)))
      (omega (arith, length-drop (0 + n) b)))

-- Both functions end in this way.
duplicate :
    (a : Allocator) (str s : Bytes) (from : ℕ)
    → from + length s ≤ length str
    → take (length s) (drop from str) ≡ s
    → (do
      res ← or_abort (a.malloc (length s + 1))
      res ← memcpy res 0 str from (length s)
      store res (length s) 0)
      ≡ new_c_string a s
unfolding new_c_string
duplicate a str s from k e = elim (Option-cases (a.malloc (length s + 1))) [
  | inl no_room ↦ rw (no_room, new_c_string)
  | inr (b, room) ↦
      rw (room, new_c_string)
        (copy_out b str from (length s) (a.length-malloc _ b room) k ∙ ap (λ t. ok (t ++ 0 ∷ [])) e)
]

take-trim_end-take :
    (str : Bytes) (n : ℕ) → take (length (trim_end (take n str))) str ≡ trim_end (take n str)
take-trim_end-take str n =
    sym (take-take _ n str (omega (arith, length-trim_end-le (take n str), length-take-le n str)))
    ∙ take-trim_end (take n str)

-- The C string holds the Fortran string without the blanks at its end, whatever it holds else.
pub strdup_f2c-trim_end :
    (a : Allocator) (str : Bytes) (n : ℕ)
    → n ≤ length str
    → mpif_strdup_f2c a str n ≡ new_c_string a (trim_end (take n str))
unfolding mpif_strdup_f2c
strdup_f2c-trim_end a str n h = rw (fstrlen-trim_end str n h) (
    duplicate a str (trim_end (take n str)) 0
      (omega (arith, length-trim_end-le (take n str), length-take n str h))
      (take-trim_end-take str n))

skip_blanks-suc :
    (str : Bytes) (begin n c : ℕ)
    → get_elem? str begin ≡ some c
    → skip_blanks str begin (suc n)
      ≡ (if c == blank then skip_blanks str (begin + 1) n else ok begin)
unfolding skip_blanks
skip_blanks-suc str begin n c e = rw e

-- The loop stops at the first character that is no blank.
skip_blanks-trim_start :
    (str : Bytes) (n begin : ℕ)
    → begin + n ≤ length str
    → skip_blanks str begin n ≡ ok (begin + n - length (trim_start (take n (drop begin str))))
unfolding skip_blanks trim_start
skip_blanks-trim_start str zero begin h = ap ok (omega arith)
skip_blanks-trim_start str (suc n) begin h =
    let (c, e) = get_elem?-some str begin (omega arith) in
    skip_blanks-suc str begin n c e
    ∙ ground (
      arith,
      take-drop-cons begin n str e,
      skip_blanks-trim_start str n (begin + 1) (omega arith),
      length-take n (drop (begin + 1) str),
      length-drop (begin + 1) str,
    )

length-trim_start-le : (s : Bytes) → length (trim_start s) ≤ length s
unfolding trim_start
length-trim_start-le [] = omega arith
length-trim_start-le (c ∷ s) = ground (arith, length-trim_start-le s)

drop-trim_start : (s : Bytes) → drop (length s - length (trim_start s)) s ≡ trim_start s
unfolding trim_start
drop-trim_start [] = refl
drop-trim_start (c ∷ s) =
    let le = length-trim_start-le s in
    let more : suc (length s) - length (trim_start s) ≡ suc (length s - length (trim_start s)) =
      omega arith in
    let none_left : suc (length s) - suc (length s) ≡ 0 = omega arith in
    elim (Bool-cases (c == blank)) [
      | inl is_blank ↦ rw (is_blank, more) (drop-trim_start s)
      | inr solid ↦ rw (solid, none_left)
    ]

-- Both ends are stripped, and what stands between is kept.
pub strdup_f2c_trim-trim :
    (a : Allocator) (str : Bytes) (n : ℕ)
    → n ≤ length str
    → mpif_strdup_f2c_trim a str n ≡ new_c_string a (trim_start (trim_end (take n str)))
unfolding mpif_strdup_f2c_trim
strdup_f2c_trim-trim a str n h =
    let s = trim_end (take n str) in
    let fits : length s ≤ length str =
      omega (arith, length-trim_end-le (take n str), length-take n str h) in
    let le = length-trim_start-le s in
    let begin = 0 + length s - length (trim_start s) in
    let len : length s - begin ≡ length (trim_start s) = omega arith in
    let kept : take (length (trim_start s)) (drop begin str) ≡ trim_start s =
      take-drop begin (length (trim_start s)) str
      ∙ ap (λ k. drop begin (take k str)) (omega arith)
      ∙ ap (drop begin) (take-trim_end-take str n)
      ∙ ap (λ k. drop k s) (omega arith)
      ∙ drop-trim_start s in
    rw
      (
        fstrlen-trim_end str n h,
        skip_blanks-trim_start str (length s) 0 (omega arith),
        take-trim_end-take str n,
        len,
      )
      (duplicate a str (trim_start s) begin (omega arith) kept)
