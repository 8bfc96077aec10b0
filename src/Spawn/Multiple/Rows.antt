-- ===== src/Spawn/Multiple/Rows.antt =====
-- Rows of strings on the heap: what is read through their arrays of pointers, and the frees.
use mathlib.Core.List.{append_assoc}
use mpif.Prelude.{
  ℕ, suc, ◌+◌, ◌≡◌, refl, sym, ap, ◌∙◌, Option, none, some, List, [], ◌∷◌, ◌++◌, arith, length, map,
  replicate, count_up, length-append, set-append,
}
use mpif.Machine.{ok, Bytes}
use mpif.Heap.{Heap}
use mpif.Heap.Laws.{read-object_at, free-object_at}
use mpif.Spawn.{Pointers, read_strings, free_strings}
use mpif.Spawn.CString.{
  terminated, read_to_null-terminated, free_counted-count_up, append_cons, length-append_one,
  object_at-append, read_strings-append, free_strings-append,
}
use mpif.Spawn.Multiple.{read_rows, free_rows}

-- All strings of the rows, in order, and the pointers of each row, from an address on.
abbrev pub concat : List (List Bytes) → List Bytes
concat [] = []
concat (row ∷ rows) = row ++ concat rows

abbrev pub pointers : ℕ → List (List Bytes) → List Pointers
pointers p [] = []
pointers p (row ∷ rows) = terminated (count_up p (length row)) ∷ pointers (p + length row) rows

pub map-append_some : (xs ys : List Bytes) → map some (xs ++ ys) ≡ map some xs ++ map some ys
map-append_some [] ys = refl
map-append_some (x ∷ xs) ys = ap (◌∷◌ (some x)) (map-append_some xs ys)

length-map-some : (xs : List Bytes) → length (map some xs) ≡ length xs
length-map-some [] = refl
length-map-some (x ∷ xs) = ap suc (length-map-some xs)

pub length-append_row :
    (h : Heap Bytes) (row : List Bytes) → length (h ++ map some row) ≡ length h + length row
length-append_row h row = omega (arith, length-append h (map some row), length-map-some row)

module _ (h : Heap Bytes) (row : List Bytes) (rows : List (List Bytes)) (t : Heap Bytes) where
  -- The heap with the first row apart, and moved in front.
  row_apart :
      h ++ (map some (row ++ concat rows) ++ t)
      ≡ h ++ (map some row ++ (map some (concat rows) ++ t))
  row_apart =
      ap (λ x. h ++ (x ++ t)) (map-append_some row (concat rows))
      ∙ ap (h ++◌) (append_assoc (map some row) (map some (concat rows)) t)

  row_first :
      h ++ (map some (row ++ concat rows) ++ t)
      ≡ (h ++ map some row) ++ (map some (concat rows) ++ t)
  row_first = row_apart ∙ sym (append_assoc h (map some row) (map some (concat rows) ++ t))

-- The pointers of the later rows, after an array in front, where `q` is the address after the row.
pub arrays_first :
    (g : Heap Pointers) (o : Option Pointers) (p q : ℕ) (rows : List (List Bytes))
    → q ≡ p
    → g ++ (o ∷ map some (pointers p rows)) ≡ (g ++ (o ∷ [])) ++ map some (pointers q rows)
arrays_first g o p q rows same =
    append_cons g (map some (pointers p rows)) o
    ∙ ap (λ k. (g ++ (o ∷ [])) ++ map some (pointers k rows)) (sym same)

pub read_rows-append :
    (h : Heap Bytes) (g : Heap Pointers) (rows : List (List Bytes)) (t : Heap Bytes)
    → read_rows
        (h ++ (map some (concat rows) ++ t))
        (g ++ map some (pointers (length h) rows))
        (count_up (length g) (length rows))
      ≡ ok rows
unfolding read_rows
read_rows-append h g [] t = refl
read_rows-append h g (row ∷ rows) t =
    let ps = count_up (length h) (length row) in
    let p = terminated ps in
    let later = map some (pointers (length h + length row) rows) in
    let found =
      read-object_at (g ++ (some p ∷ later)) (length g) (object_at-append g later (some p)) in
    let got =
      read_to_null-terminated (h ++ (map some (row ++ concat rows) ++ t)) ps
      ∙ ap (λ s. read_strings s ps) (row_apart h row rows t)
      ∙ read_strings-append h row (map some (concat rows) ++ t) in
    let heap = row_first h row rows t in
    let arrays =
      arrays_first g (some p) (length h + length row) (length (h ++ map some row)) rows
        (length-append_row h row) in
    let others =
      (λ i.
        read_rows (heap i) (arrays i)
          (count_up (sym (length-append_one g (some p)) i) (length rows)))
      ∙ read_rows-append (h ++ map some row) (g ++ (some p ∷ [])) rows t in
    rw (found, got, others) refl

-- The cells of strings that were freed.
abbrev pub freed : List Bytes → Heap Bytes
freed xs = replicate (length xs) none

freed-append : (xs ys : List Bytes) → freed (xs ++ ys) ≡ freed xs ++ freed ys
freed-append [] ys = refl
freed-append (x ∷ xs) ys = ap (◌∷◌ none) (freed-append xs ys)

pub length-freed : (xs : List Bytes) → length (freed xs) ≡ length xs
length-freed [] = refl
length-freed (x ∷ xs) = ap suc (length-freed xs)

pub free_rows-append :
    (h : Heap Bytes) (g : Heap Pointers) (rows : List (List Bytes)) (t : Heap Bytes)
    → free_rows
        (h ++ (map some (concat rows) ++ t))
        (g ++ map some (pointers (length h) rows))
        (count_up (length g) (length rows))
        (map length rows)
      ≡ ok (h ++ (freed (concat rows) ++ t), g ++ replicate (length rows) none)
unfolding free_rows
free_rows-append h g [] t = refl
free_rows-append h g (row ∷ rows) t =
    let ps = count_up (length h) (length row) in
    let p = terminated ps in
    let later = map some (pointers (length h + length row) rows) in
    let found =
      read-object_at (g ++ (some p ∷ later)) (length g) (object_at-append g later (some p)) in
    let strings =
      free_counted-count_up (h ++ (map some (row ++ concat rows) ++ t)) (length h) (length row)
      ∙ ap (λ s. free_strings s ps) (row_apart h row rows t)
      ∙ free_strings-append h row (map some (concat rows) ++ t) in
    let array =
      free-object_at (g ++ (some p ∷ later)) (length g) (object_at-append g later (some p))
      ∙ ap ok (set-append g later (some p) none) in
    let heap = sym (append_assoc h (freed row) (map some (concat rows) ++ t)) in
    let arrays =
      arrays_first g none (length h + length row) (length (h ++ freed row)) rows
        (omega (arith, length-append h (freed row), length-freed row)) in
    let others =
      (λ i.
        free_rows (heap i) (arrays i) (count_up (sym (length-append_one g none) i) (length rows))
          (map length rows))
      ∙ (free_rows-append (h ++ freed row) (g ++ (none ∷ [])) rows t
          ∙ ap ok (λ i. (
            (append_assoc h (freed row) (freed (concat rows) ++ t)
                  ∙ ap (h ++◌) (
                      sym (append_assoc (freed row) (freed (concat rows)) t)
                      ∙ ap (λ x. x ++ t) (sym (freed-append row (concat rows)))))
                i,
            sym (append_cons g (replicate (length rows) none) none) i,
          ))) in
    rw (found, strings, array, others) refl
