-- ===== src/Spawn/Multiple/Copies.antt =====
-- The copies that mpi_comm_spawn_multiple_ makes of the rows of arguments.
use mathlib.Core.List.{append_assoc, append-nil}
use mpif.Prelude.{
  ℕ, zero, suc, ◌+◌, ◌*◌, ◌≤◌, ◌<◌, ◌≡◌, refl, sym, ap, ◌∙◌, none, some, List, [], ◌∷◌, ◌++◌, arith,
  length, drop, map, count_up, length-drop,
}
use mpif.Machine.{ok, Bytes, Allocator}
use mpif.Heap.{Heap}
use mpif.Strings.Count.{IsFirstBlank, fcount2d-first}
use mpif.Spawn.{Pointers}
use mpif.Spawn.CString.{
  terminated, c_string, IsRoomy, append_cons, length-append_one, new_string-c_string,
}
use mpif.Spawn.Multiple.{copy_row, copy_rows}
use mpif.Spawn.Multiple.Rows.{concat, pointers, length-append_row, map-append_some, arrays_first}

-- The strings of row `i` of an array of `q_count` rows, from the index `n` on.
abbrev pub row_strings : Bytes → ℕ → ℕ → ℕ → ℕ → ℕ → List Bytes
row_strings argv len q_count i n zero = []
row_strings argv len q_count i n (suc rounds) =
    c_string (drop (i * len + n * q_count * len) argv) len
    ∷ row_strings argv len q_count i (suc n) rounds

pub length-row_strings :
    (argv : Bytes) (len q_count i n rounds : ℕ)
    → length (row_strings argv len q_count i n rounds) ≡ rounds
length-row_strings argv len q_count i n zero = refl
length-row_strings argv len q_count i n (suc rounds) =
    ap suc (length-row_strings argv len q_count i (suc n) rounds)

-- The rows from row `i` on, where row `j` has `k j` strings.
abbrev pub rows_of : Bytes → ℕ → ℕ → (ℕ → ℕ) → ℕ → ℕ → List (List Bytes)
rows_of argv len q_count k i zero = []
rows_of argv len q_count k i (suc rounds) =
    row_strings argv len q_count i 0 (k i) ∷ rows_of argv len q_count k (suc i) rounds

module _ (a : Allocator) (roomy : IsRoomy a) (argv : Bytes) (len q_count : ℕ) where
  copy_row-row_strings :
      (h : Heap Bytes) (i n rounds : ℕ)
      → ((j : ℕ) → n ≤ j → j < n + rounds → i * len + j * q_count * len + len ≤ length argv)
      → copy_row a h argv len q_count i n rounds
        ≡ ok (
          terminated (count_up (length h) rounds),
          h ++ map some (row_strings argv len q_count i n rounds),
        )
  unfolding copy_row
  copy_row-row_strings h i n zero within = ap (λ s. ok (none ∷ [], s)) (sym (append-nil h))
  copy_row-row_strings h i n (suc rounds) within =
      let at = i * len + n * q_count * len in
      let s = c_string (drop at argv) len in
      let first =
        new_string-c_string a roomy h (drop at argv) len
          (omega (arith, length-drop at argv, within n (omega arith) (omega arith))) in
      let others =
        copy_row-row_strings (h ++ (some s ∷ [])) i (suc n) rounds
          (λ j ge lt. within j (omega (arith, ge)) (omega (arith, lt))) in
      rw
        (
          first,
          others,
          length-append_one h (some s),
          append_cons h (map some (row_strings argv len q_count i (suc n) rounds)) (some s),
        )
        refl

  -- The order of the factors differs between the count and the copies.
  same_place : (n : ℕ) → n * q_count * len ≡ n * len * q_count
  same_place n = grind arith

  -- Both heaps after one row more.
  module _ (h : Heap Bytes) (g : Heap Pointers) (row : List Bytes) (rest : List (List Bytes))
      (n : ℕ) (is : length row ≡ n) where
    joined_strings :
        (h ++ map some row) ++ map some (concat rest) ≡ h ++ map some (concat (row ∷ rest))
    joined_strings =
        append_assoc h (map some row) (map some (concat rest))
        ∙ ap (h ++◌) (sym (map-append_some row (concat rest)))

    joined_arrays :
        (g ++ (some (terminated (count_up (length h) n)) ∷ []))
          ++ map some (pointers (length (h ++ map some row)) rest)
        ≡ g ++ map some (pointers (length h) (row ∷ rest))
    joined_arrays =
        sym (
          arrays_first g (some (terminated (count_up (length h) n))) (length h + length row)
            (length (h ++ map some row)) rest (length-append_row h row))
        ∙ ap
            (λ m.
              g
              ++ (some (terminated (count_up (length h) m))
                  ∷ map some (pointers (length h + length row) rest)))
            (sym is)

  pub copy_rows-rows_of :
      (h : Heap Bytes) (g : Heap Pointers) (k : ℕ → ℕ) (i rounds : ℕ)
      → i + rounds ≤ q_count
      → ((j : ℕ) → j < q_count → IsFirstBlank (λ n. j * len + n * len * q_count) argv len (k j))
      → copy_rows a h g argv len q_count i rounds
        ≡ ok record {
          argvs = count_up (length g) rounds;
          counts = map length (rows_of argv len q_count k i rounds);
          strings = h ++ map some (concat (rows_of argv len q_count k i rounds));
          arrays = g ++ map some (pointers (length h) (rows_of argv len q_count k i rounds));
        }
  unfolding copy_rows
  copy_rows-rows_of h g k i zero within first = ap ok (λ x. record {
    argvs = [];
    counts = [];
    strings = sym (append-nil h) x;
    arrays = sym (append-nil g) x;
  })
  copy_rows-rows_of h g k i (suc rounds) within first =
      let row = row_strings argv len q_count i 0 (k i) in
      let rest = rows_of argv len q_count k (suc i) rounds in
      let p = terminated (count_up (length h) (k i)) in
      let blank = first i (omega (arith, within)) in
      let count = fcount2d-first argv q_count i len (k i) (omega (arith, within)) blank in
      let (b, room) = roomy ((k i + 1) * 8) in
      let copied =
        copy_row-row_strings h i 0 (k i)
          (λ j ge lt. omega (arith, same_place j, blank.within j (omega (arith, lt)))) in
      let others =
        copy_rows-rows_of (h ++ map some row) (g ++ (some p ∷ [])) k (suc i) rounds
          (omega (arith, within)) first in
      let is = length-row_strings argv len q_count i 0 (k i) in
      rw (count, room, copied, others)
        (ap ok (λ x. record {
          argvs = length g ∷ count_up (length-append_one g (some p) x) rounds;
          counts = sym is x ∷ map length rest;
          strings = joined_strings h g row rest (k i) is x;
          arrays = joined_arrays h g row rest (k i) is x;
        }))
