-- ===== src/Spawn/CString.antt =====
-- gen/mpif_functions.c, mpi_comm_spawn_: the C strings that the wrapper makes, what is read through
-- their addresses, and the frees.
use mathlib.Core.List.{append_assoc, append-nil}
use mpif.Prelude.{
  ℕ, zero, suc, ◌+◌, ◌*◌, ◌≤◌, ◌≡◌, refl, sym, ap, ◌∙◌, Option, none, some, List, [], ◌∷◌, ◌++◌,
  arith, length, take, drop, map, replicate, count_up, length-drop, length-append, set-append,
}
use mpif.Machine.{ok, ◌>>=◌, Bytes, Allocator}
use mpif.Heap.{Heap, object_at, read, free}
use mpif.Heap.Laws.{read-object_at, free-object_at}
use mpif.Strings.Length.{trim_end, trim_start}
use mpif.Strings.Duplicate.{new_c_string-ok, strdup_f2c_trim-trim}
use mpif.Spawn.{
  new_string, Pointers, copy_strings, read_strings, free_strings, read_to_null, read_counted,
  free_counted,
}

-- The characters of a Fortran string without the blanks around them, as a C string.
abbrev pub c_string : Bytes → ℕ → Bytes
c_string str len = trim_start (trim_end (take len str)) ++ 0 ∷ []

-- The strings of a Fortran array from the index `n` on.
abbrev pub c_strings : Bytes → ℕ → ℕ → ℕ → List Bytes
c_strings argv len n zero = []
c_strings argv len n (suc rounds) =
    c_string (drop (n * len) argv) len ∷ c_strings argv len (suc n) rounds

pub length-c_strings :
    (argv : Bytes) (len n rounds : ℕ) → length (c_strings argv len n rounds) ≡ rounds
length-c_strings argv len n zero = refl
length-c_strings argv len n (suc rounds) = ap suc (length-c_strings argv len (suc n) rounds)

-- An allocator that has room for every size.
abbrev pub IsRoomy : Allocator → Type 0
IsRoomy a = (n : ℕ) → (b : Bytes) × (a.malloc n ≡ some b)

module _ {ℓ} {A : Type ℓ} where
  pub append_cons : (xs ys : List A) (x : A) → xs ++ (x ∷ ys) ≡ (xs ++ (x ∷ [])) ++ ys
  append_cons xs ys x = sym (append_assoc xs (x ∷ []) ys)

  pub length-append_one : (xs : List A) (x : A) → length (xs ++ (x ∷ [])) ≡ suc (length xs)
  length-append_one xs x = omega (arith, length-append xs (x ∷ []))

  pub object_at-append : (h t : Heap A) (o : Option A) → object_at (h ++ (o ∷ t)) (length h) ≡ o
  object_at-append [] t o = refl
  object_at-append (x ∷ h) t o = object_at-append h t o

pub read_strings-append :
    (h : Heap Bytes) (xs : List Bytes) (t : Heap Bytes)
    → read_strings (h ++ (map some xs ++ t)) (count_up (length h) (length xs)) ≡ ok xs
unfolding read_strings
read_strings-append h [] t = refl
read_strings-append h (x ∷ xs) t =
    let rest = map some xs ++ t in
    let first =
      read-object_at (h ++ (some x ∷ rest)) (length h) (object_at-append h rest (some x)) in
    let others : read_strings (h ++ (some x ∷ rest)) (count_up (suc (length h)) (length xs))
        ≡ ok xs =
      ap (λ g. read_strings g (count_up (suc (length h)) (length xs))) (append_cons h rest (some x))
      ∙ (ap (λ k. read_strings ((h ++ (some x ∷ [])) ++ rest) (count_up k (length xs)))
            (sym (length-append_one h (some x)))
          ∙ read_strings-append (h ++ (some x ∷ [])) xs t) in
    rw (first, others) refl

pub free_strings-append :
    (h : Heap Bytes) (xs : List Bytes) (t : Heap Bytes)
    → free_strings (h ++ (map some xs ++ t)) (count_up (length h) (length xs))
      ≡ ok (h ++ (replicate (length xs) none ++ t))
unfolding free_strings
free_strings-append h [] t = refl
free_strings-append h (x ∷ xs) t =
    let first =
      free-object_at (h ++ (some x ∷ map some xs ++ t)) (length h)
        (object_at-append h (map some xs ++ t) (some x)) in
    let others = free_strings-append (h ++ (none ∷ [])) xs t in
    rw
      (
        first,
        set-append h (map some xs ++ t) (some x) none,
        append_cons h (map some xs ++ t) none,
        append_cons h (replicate (length xs) none ++ t) none,
        sym (length-append_one h none),
        others,
      )
      refl

-- An array of pointers to strings, with the NULL behind them.
abbrev pub terminated : List ℕ → Pointers
terminated ps = map some ps ++ (none ∷ [])

pub read_to_null-terminated :
    (h : Heap Bytes) (ps : List ℕ) → read_to_null h (terminated ps) ≡ read_strings h ps
unfolding read_to_null read_strings
read_to_null-terminated h [] = refl
read_to_null-terminated h (p ∷ ps) =
    ap (λ r. read h p >>= (λ s. r >>= (λ others. ok (s ∷ others)))) (read_to_null-terminated h ps)

pub read_counted-terminated :
    (h : Heap Bytes) (ps : List ℕ) → read_counted h (terminated ps) (length ps) ≡ read_strings h ps
unfolding read_counted read_strings
read_counted-terminated h [] = refl
read_counted-terminated h (p ∷ ps) =
    ap (λ r. read h p >>= (λ s. r >>= (λ others. ok (s ∷ others)))) (read_counted-terminated h ps)

pub free_counted-terminated :
    (h : Heap Bytes) (ps : List ℕ) → free_counted h (terminated ps) (length ps) ≡ free_strings h ps
unfolding free_counted free_strings
free_counted-terminated h [] = refl
free_counted-terminated h (p ∷ ps) = λ i. free h p >>= (λ g. free_counted-terminated g ps i)

pub length-count_up : (p n : ℕ) → length (count_up p n) ≡ n
length-count_up p zero = refl
length-count_up p (suc n) = ap suc (length-count_up (suc p) n)

-- The same, where the pointers are addresses one after the other.
module _ (h : Heap Bytes) (p n : ℕ) where
  pub read_counted-count_up :
      read_counted h (terminated (count_up p n)) n ≡ read_strings h (count_up p n)
  read_counted-count_up =
      ap (read_counted h (terminated (count_up p n))) (sym (length-count_up p n))
      ∙ read_counted-terminated h (count_up p n)

  pub free_counted-count_up :
      free_counted h (terminated (count_up p n)) n ≡ free_strings h (count_up p n)
  free_counted-count_up =
      ap (free_counted h (terminated (count_up p n))) (sym (length-count_up p n))
      ∙ free_counted-terminated h (count_up p n)

within_mul : (n rounds len : ℕ) → n * len + len ≤ (n + suc rounds) * len
within_mul n rounds len = grind arith

within_next :
    (n rounds len total : ℕ) → (n + suc rounds) * len ≤ total → (suc n + rounds) * len ≤ total
within_next n rounds len total within = grind arith

module _ (a : Allocator) (roomy : IsRoomy a) where
  pub new_string-c_string :
      (strings : Heap Bytes) (str : Bytes) (len : ℕ)
      → len ≤ length str
      → new_string a strings str len
        ≡ ok (length strings, strings ++ (some (c_string str len) ∷ []))
  unfolding new_string
  new_string-c_string strings str len within =
      let (b, room) = roomy (length (trim_start (trim_end (take len str))) + 1) in
      rw
        (
          strdup_f2c_trim-trim a str len within,
          new_c_string-ok a (trim_start (trim_end (take len str))) b room,
        )
        refl

  pub copy_strings-c_strings :
      (strings : Heap Bytes) (argv : Bytes) (len n rounds : ℕ)
      → (n + rounds) * len ≤ length argv
      → copy_strings a strings argv len n rounds
        ≡ ok (
          terminated (count_up (length strings) rounds),
          strings ++ map some (c_strings argv len n rounds),
        )
  unfolding copy_strings
  copy_strings-c_strings strings argv len n zero within =
      ap (λ h. ok (none ∷ [], h)) (sym (append-nil strings))
  copy_strings-c_strings strings argv len n (suc rounds) within =
      let s = c_string (drop (n * len) argv) len in
      let first =
        new_string-c_string strings (drop (n * len) argv) len
          (omega (arith, length-drop (n * len) argv, within_mul n rounds len)) in
      let others =
        copy_strings-c_strings (strings ++ (some s ∷ [])) argv len (suc n) rounds
          (within_next n rounds len (length argv) within) in
      rw
        (
          first,
          others,
          length-append_one strings (some s),
          append_cons strings (map some (c_strings argv len (suc n) rounds)) (some s),
        )
        refl
