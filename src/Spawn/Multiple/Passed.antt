-- ===== src/Spawn/Multiple/Passed.antt =====
-- What MPI_Comm_spawn_multiple is called with at the root, and what is left on the heaps.
use mathlib.Core.List.{append_assoc, append-nil}
use mpif.Prelude.{
  ℕ, zero, suc, ◌+◌, ◌*◌, ◌≤◌, ◌<◌, ◌≡◌, refl, sym, ap, ◌∙◌, subst, true, false, none, some, List,
  [], ◌∷◌, ◌++◌, ◌==◌, if◌then◌else◌, arith, length, take, map, replicate, count_up, length-append,
  Bool-cases, inl, inr,
}
use mpif.Machine.{ok, Bytes, Allocator}
use mpif.Heap.{Heap}
use mpif.Strings.Count.{IsFirstBlank}
use mpif.Root.{at_root, root_of}
use mpif.Sentinels.{Cells, mpif_is_argvs_null, mpif_c_errcodes}
use mpif.Requests.Arrays.{convert_array-map}
use mpif.Spawn.{Pointers, read_strings, free_strings}
use mpif.Spawn.CString.{
  terminated, read_counted-count_up, free_counted-count_up, c_strings, length-c_strings, IsRoomy,
  read_strings-append, free_strings-append, copy_strings-c_strings,
}
use mpif.Spawn.Multiple.{
  Requests, Mpi, Spawned, Call, CopiedRows, read_rows, free_rows, infos_of, call_spawn_multiple,
  pass_rows, mpi_comm_spawn_multiple,
}
use mpif.Spawn.Multiple.Rows.{
  concat, pointers, freed, length-append_row, length-freed, read_rows-append, free_rows-append,
}
use mpif.Spawn.Multiple.Copies.{rows_of, copy_rows-rows_of}

-- The heaps with the copies of the commands and of the rows.
module _ (h : Heap Bytes) (g : Heap Pointers) (cs : List Bytes) (rows : List (List Bytes)) where
  abbrev strings_with : Heap Bytes
  strings_with = (h ++ map some cs) ++ map some (concat rows)

  abbrev arrays_with : Heap Pointers
  arrays_with = g ++ map some (pointers (length (h ++ map some cs)) rows)

  read_commands : read_strings strings_with (count_up (length h) (length cs)) ≡ ok cs
  read_commands =
      ap (λ s. read_strings s (count_up (length h) (length cs)))
        (append_assoc h (map some cs) (map some (concat rows)))
      ∙ read_strings-append h cs (map some (concat rows))

  read_argvs : read_rows strings_with arrays_with (count_up (length g) (length rows)) ≡ ok rows
  read_argvs =
      ap (λ t. read_rows ((h ++ map some cs) ++ t) arrays_with (count_up (length g) (length rows)))
        (sym (append-nil (map some (concat rows))))
      ∙ read_rows-append (h ++ map some cs) g rows []

  free_commands :
      free_strings strings_with (count_up (length h) (length cs))
      ≡ ok ((h ++ freed cs) ++ map some (concat rows))
  free_commands =
      ap (λ s. free_strings s (count_up (length h) (length cs)))
        (append_assoc h (map some cs) (map some (concat rows)))
      ∙ (free_strings-append h cs (map some (concat rows))
          ∙ ap ok (sym (append_assoc h (freed cs) (map some (concat rows)))))

  -- What the loops over the rows leave.
  abbrev copied : CopiedRows
  copied = record {
    argvs = count_up (length g) (length rows);
    counts = map length rows;
    strings = strings_with;
    arrays = arrays_with;
  }

  same_base : length (h ++ map some cs) ≡ length (h ++ freed cs)
  same_base = omega (arith, length-append_row h cs, length-append h (freed cs), length-freed cs)

  free_argvs :
      free_rows
        ((h ++ freed cs) ++ map some (concat rows))
        arrays_with
        (count_up (length g) (length rows))
        (map length rows)
      ≡ ok ((h ++ freed cs) ++ freed (concat rows), g ++ replicate (length rows) none)
  free_argvs =
      (λ i.
        free_rows ((h ++ freed cs) ++ sym (append-nil (map some (concat rows))) i)
          (g ++ map some (pointers (same_base i) rows)) (count_up (length g) (length rows))
          (map length rows))
      ∙ (free_rows-append (h ++ freed cs) g rows []
          ∙ ap ok (λ i. (
            (h ++ freed cs) ++ append-nil (freed (concat rows)) i,
            g ++ replicate (length rows) none,
          )))

length-rows_of :
    (argv : Bytes) (len q_count : ℕ) (k : ℕ → ℕ) (i rounds : ℕ)
    → length (rows_of argv len q_count k i rounds) ≡ rounds
length-rows_of argv len q_count k i zero = refl
length-rows_of argv len q_count k i (suc rounds) =
    ap suc (length-rows_of argv len q_count k (suc i) rounds)

module _ (cells : Cells) (mpi : Mpi) (call : Call) where
  -- The infos of the commands, or the null info where there is none.
  abbrev pub converted_infos : List ℕ
  converted_infos =
      if call.count == 0
      then mpi.info_null ∷ []
      else map mpi.info_fromint (take call.count call.array_of_info)

  -- What MPI is asked for, and what the wrapper passes back for its answer.
  abbrev pub asked : List Bytes → List (List Bytes) → Requests
  asked commands argvs = record {
    count = call.count;
    commands = commands;
    argvs = some argvs;
    maxprocs = call.maxprocs;
    infos = converted_infos;
    root = call.root;
    comm = mpi.comm_fromint call.comm;
    array_of_errcodes = mpif_c_errcodes cells call.array_of_errcodes;
  }

  abbrev pub answer : Requests → Heap Bytes → Heap Pointers → Spawned
  answer request strings arrays =
      let (ierror, c_intercomm) = mpi.comm_spawn_multiple request mpi.comm_null in
      record {
        ierror = ierror;
        intercomm = some (mpi.comm_toint c_intercomm);
        strings = strings;
        arrays = arrays;
      }

  module _ (a : Allocator) where
    infos_of-converted :
        call.count ≤ length call.array_of_info
        → infos_of cells mpi a call call.count ≡ ok converted_infos
    unfolding infos_of
    infos_of-converted enough =
        let all = convert_array-map mpi.info_fromint call.array_of_info call.count enough in
        elim (Bool-cases (call.count == 0)) [
          | inl without ↦ rw (without, infos_of) refl
          | inr with_some ↦ rw (with_some, all, infos_of) refl
        ]

    call_spawn_multiple-answer :
        (h : Heap Bytes) (g : Heap Pointers) (cs : List Bytes) (rows : List (List Bytes))
        → call_spawn_multiple cells mpi a call
            (length cs)
            false
            (terminated (count_up (length h) (length cs)))
            (copied h g cs rows)
            converted_infos
          ≡ ok (
              answer
                (asked cs rows)
                ((h ++ freed cs) ++ freed (concat rows))
                (g ++ replicate (length rows) none))
    unfolding call_spawn_multiple
    call_spawn_multiple-answer h g cs rows =
        rw
          (
            read_counted-count_up (strings_with h g cs rows) (length h) (length cs),
            read_commands h g cs rows,
            read_argvs h g cs rows,
            free_counted-count_up (strings_with h g cs rows) (length h) (length cs),
            free_commands h g cs rows,
            free_argvs h g cs rows,
          )
          refl

    -- At the root, with argument arrays that are not MPI_ARGVS_NULL, where each command's arguments
    -- end at the first blank one of its row, and with room for the copies: MPI_Comm_spawn_multiple
    -- gets all commands, and reads through each command's array of pointers, up to the NULL that ends
    -- it, exactly the arguments before the blank one; all come without the blanks around them, and
    -- with the infos; its answer is passed back. All copies and the arrays of
    -- pointers are freed, each once, and no other object is touched.
    pub comm_spawn_multiple-answer :
        IsRoomy a
        → (commands : Bytes) (length_commands argv_address : ℕ) (argv : Bytes) (length_argv : ℕ)
          (k : ℕ → ℕ) (strings : Heap Bytes) (arrays : Heap Pointers)
        → root_of mpi.comms (mpi.comm_fromint call.comm) call.root ≡ at_root true
        → mpif_is_argvs_null cells argv_address ≡ false
        → call.count * length_commands ≤ length commands
        → ((j : ℕ)
            → j < call.count
            → IsFirstBlank
                (λ n. j * length_argv + n * length_argv * call.count)
                argv
                length_argv
                (k j))
        → call.count ≤ length call.array_of_info
        → let cs = c_strings commands length_commands 0 call.count in
          let rows = rows_of argv length_argv call.count k 0 call.count in
          mpi_comm_spawn_multiple cells mpi a call commands length_commands argv_address argv
            length_argv strings arrays
          ≡ ok (
              answer
                (asked cs rows)
                ((strings ++ freed cs) ++ freed (concat rows))
                (arrays ++ replicate (length rows) none))
    unfolding mpi_comm_spawn_multiple pass_rows
    comm_spawn_multiple-answer roomy commands lc address argv l k strings arrays root not_null
          within first enough =
        let n = call.count in
        let cs = c_strings commands lc 0 n in
        let rows = rows_of argv l n k 0 n in
        let copies =
          copy_strings-c_strings a roomy strings commands lc 0 n (omega (arith, within)) in
        let rows_copied =
          copy_rows-rows_of a roomy argv l n (strings ++ map some cs) arrays k 0 n (omega arith)
            first in
        let row_addresses =
          ap (λ m. record (copied strings arrays cs rows) { argvs = count_up (length arrays) m })
            (length-rows_of argv l n k 0 n) in
        let spawned =
          subst
            (λ r.
              call_spawn_multiple cells mpi a call n false
                (terminated (count_up (length strings) n)) r converted_infos
              ≡ ok (
                  answer (asked cs rows) ((strings ++ freed cs) ++ freed (concat rows))
                    (arrays ++ replicate (length rows) none)))
            row_addresses
            (subst
              (λ m.
                call_spawn_multiple cells mpi a call m false
                  (terminated (count_up (length strings) m)) (copied strings arrays cs rows)
                  converted_infos
                ≡ ok (
                    answer (asked cs rows) ((strings ++ freed cs) ++ freed (concat rows))
                      (arrays ++ replicate (length rows) none)))
              (length-c_strings commands lc 0 n)
              (call_spawn_multiple-answer strings arrays cs rows)) in
        rw (root, mpi_comm_spawn_multiple)
          (rw (not_null, copies, rows_copied, infos_of-converted enough, pass_rows) spawned)
