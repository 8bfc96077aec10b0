-- ===== src/Spawn/Arguments.antt =====
-- gen/mpif_functions.c, mpi_comm_spawn_: what MPI_Comm_spawn is called with, at the root and elsewhere.
use mathlib.Core.List.{append-nil}
use mpif.Prelude.{
  ℕ, suc, ◌*◌, ◌≤◌, ◌≡◌, refl, sym, ap, ◌∙◌, subst, true, false, Option, none, some, List, [], ◌∷◌,
  ◌++◌, arith, length, map, replicate, count_up, if◌then◌else◌, Bool-cases, inl, inr,
}
use mpif.Machine.{ok, Bytes, Allocator}
use mpif.Heap.{Heap}
use mpif.Strings.Count.{IsFirstBlank, fcount-first}
use mpif.Sentinels.{Cells, mpif_is_argv_null, mpif_c_errcodes}
use mpif.Root.{at_root, root_of}
use mpif.Spawn.{
  Request, Mpi, Spawned, Call, command_string, copy_strings, read_strings, free_strings,
  read_to_null, free_counted, call_spawn, pass_strings, mpi_comm_spawn,
}
use mpif.Spawn.CString.{
  c_string, c_strings, length-c_strings, IsRoomy, append_cons, length-append_one, terminated,
  read_to_null-terminated, free_counted-count_up, read_strings-append, free_strings-append,
  new_string-c_string, copy_strings-c_strings,
}

-- The strings of a call at the root: the heap, the command and the arguments.
abbrev with_strings : Heap Bytes → Bytes → List Bytes → Heap Bytes
with_strings h c xs = (h ++ (some c ∷ [])) ++ map some xs

module _ (h : Heap Bytes) (c : Bytes) (xs : List Bytes) where
  shape : with_strings h c xs ≡ h ++ (some c ∷ map some xs)
  shape = sym (append_cons h (map some xs) (some c))

  read_command : read_strings (with_strings h c xs) (length h ∷ []) ≡ ok (c ∷ [])
  read_command =
      ap (λ g. read_strings g (length h ∷ [])) shape ∙ read_strings-append h (c ∷ []) (map some xs)

  read_argv :
      read_strings (with_strings h c xs) (count_up (length (h ++ (some c ∷ []))) (length xs))
      ≡ ok xs
  read_argv =
      ap
        (λ t.
          read_strings ((h ++ (some c ∷ [])) ++ t)
            (count_up (length (h ++ (some c ∷ []))) (length xs)))
        (sym (append-nil (map some xs)))
      ∙ read_strings-append (h ++ (some c ∷ [])) xs []

  free_command :
      free_strings (with_strings h c xs) (length h ∷ []) ≡ ok ((h ++ (none ∷ [])) ++ map some xs)
  free_command =
      ap (λ g. free_strings g (length h ∷ [])) shape
      ∙ (free_strings-append h (c ∷ []) (map some xs) ∙ ap ok (append_cons h (map some xs) none))

  free_argv :
      free_strings
        ((h ++ (none ∷ [])) ++ map some xs)
        (count_up (length (h ++ (some c ∷ []))) (length xs))
      ≡ ok (h ++ replicate (suc (length xs)) none)
  free_argv =
      ap (λ k. free_strings ((h ++ (none ∷ [])) ++ map some xs) (count_up k (length xs)))
        (length-append_one h (some c) ∙ sym (length-append_one h none))
      ∙ (ap
            (λ t.
              free_strings ((h ++ (none ∷ [])) ++ t)
                (count_up (length (h ++ (none ∷ []))) (length xs)))
            (sym (append-nil (map some xs)))
          ∙ (free_strings-append (h ++ (none ∷ [])) xs []
              ∙ ap ok (
                  ap (λ t. (h ++ (none ∷ [])) ++ t) (append-nil (replicate (length xs) none))
                  ∙ sym (append_cons h (replicate (length xs) none) none))))

module _ (cells : Cells) (mpi : Mpi) (call : Call) where
  -- What MPI_Comm_spawn is asked for.
  abbrev pub request : Option Bytes → Option (List Bytes) → ℕ → Request
  request command argv info = record {
    command = command;
    argv = argv;
    maxprocs = call.maxprocs;
    info = info;
    root = call.root;
    comm = mpi.comm_fromint call.comm;
    array_of_errcodes = mpif_c_errcodes cells call.array_of_errcodes;
  }

-- What the wrapper passes back for MPI's answer.
abbrev pub answer : Mpi → Request → Heap Bytes → Spawned
answer mpi asked strings =
    let (ierror, c_intercomm) = mpi.comm_spawn asked mpi.comm_null in
    record { ierror = ierror; intercomm = some (mpi.comm_toint c_intercomm); strings = strings }

module _ (cells : Cells) (mpi : Mpi) (a : Allocator) (call : Call) where
  call_spawn-answer :
      (h : Heap Bytes) (c : Bytes) (xs : List Bytes)
      → call_spawn cells mpi a call true false
          (length h ∷ [])
          (length xs)
          (terminated (count_up (length (h ++ (some c ∷ []))) (length xs)))
          (with_strings h c xs)
        ≡ ok (
            answer mpi
              (request cells mpi call (some c) (some xs) (mpi.info_fromint call.info))
              (h ++ replicate (suc (length xs)) none))
  unfolding call_spawn
  call_spawn-answer h c xs =
      let p = length (h ++ (some c ∷ [])) in
      let freed = (h ++ (none ∷ [])) ++ map some xs in
      rw
        (
          read_command h c xs,
          read_to_null-terminated (with_strings h c xs) (count_up p (length xs)),
          read_argv h c xs,
          free_command h c xs,
          free_counted-count_up freed p (length xs),
          free_argv h c xs,
        )
        refl

  -- The same from the conversion on.
  pass_strings-answer :
      IsRoomy a
      → (command : Bytes) (length_command argv_address : ℕ) (argv : Bytes) (length_argv k : ℕ)
        (strings : Heap Bytes)
      → mpif_is_argv_null cells argv_address ≡ false
      → length_command ≤ length command
      → IsFirstBlank (λ n. n * length_argv) argv length_argv k
      → pass_strings cells mpi a call true command length_command argv_address argv length_argv
          strings
        ≡ ok (
            answer mpi
              (request cells mpi call
                (some (c_string command length_command))
                (some (c_strings argv length_argv 0 k))
                (mpi.info_fromint call.info))
              (strings ++ replicate (suc k) none))
  unfolding pass_strings command_string
  pass_strings-answer roomy command lc address argv l k strings not_null within first =
      let c = c_string command lc in
      let xs = c_strings argv l 0 k in
      let count = fcount-first argv l k first in
      let copies =
        copy_strings-c_strings a roomy (strings ++ (some c ∷ [])) argv l 0 k
          (omega (arith, first.within k (omega arith))) in
      let spawned =
        subst
          (λ n.
            call_spawn cells mpi a call true false (length strings ∷ []) n
              (terminated (count_up (length (strings ++ (some c ∷ []))) n))
              (with_strings strings c xs)
            ≡ ok (
                answer mpi (request cells mpi call (some c) (some xs) (mpi.info_fromint call.info))
                  (strings ++ replicate (suc n) none)))
          (length-c_strings argv l 0 k) (call_spawn-answer strings c xs) in
      rw (not_null, new_string-c_string a roomy strings command lc within, count, copies) spawned

  -- At the root, with arguments that are not MPI_ARGV_NULL and end at the first blank one, and with
  -- room for the copies: MPI_Comm_spawn gets the command, and reads through the array of pointers, up to
  -- the NULL that ends it, exactly the arguments before the blank one, each without the blanks around
  -- it; its answer is passed back. All copies are freed, each once,
  -- and no other string is touched.
  pub comm_spawn-answer :
      IsRoomy a
      → (command : Bytes) (length_command argv_address : ℕ) (argv : Bytes) (length_argv k : ℕ)
        (strings : Heap Bytes)
      → root_of mpi.comms (mpi.comm_fromint call.comm) call.root ≡ at_root true
      → mpif_is_argv_null cells argv_address ≡ false
      → length_command ≤ length command
      → IsFirstBlank (λ n. n * length_argv) argv length_argv k
      → mpi_comm_spawn cells mpi a call command length_command argv_address argv length_argv strings
        ≡ ok (
            answer mpi
              (request cells mpi call
                (some (c_string command length_command))
                (some (c_strings argv length_argv 0 k))
                (mpi.info_fromint call.info))
              (strings ++ replicate (suc k) none))
  unfolding mpi_comm_spawn
  comm_spawn-answer roomy command lc address argv l k strings root not_null within first =
      rw (root, mpi_comm_spawn)
        (pass_strings-answer roomy command lc address argv l k strings not_null within first)

  -- Elsewhere neither the command nor the arguments are read, nothing is allocated or freed, and
  -- MPI_Comm_spawn gets no command, no argument and the null info.
  pub comm_spawn_elsewhere :
      (command : Bytes) (length_command argv_address : ℕ) (argv : Bytes) (length_argv : ℕ)
      (strings : Heap Bytes)
      → root_of mpi.comms (mpi.comm_fromint call.comm) call.root ≡ at_root false
      → mpi_comm_spawn cells mpi a call command length_command argv_address argv length_argv strings
        ≡ ok (
            answer mpi
              (request cells mpi call none
                (if mpif_is_argv_null cells argv_address then none else some [])
                mpi.info_null)
              strings)
  unfolding mpi_comm_spawn pass_strings command_string call_spawn copy_strings read_strings
      free_strings read_to_null free_counted
  comm_spawn_elsewhere command lc address argv l strings root =
      elim (Bool-cases (mpif_is_argv_null cells address)) [
        | inl null ↦ rw (root, mpi_comm_spawn) (rw null refl)
        | inr given ↦ rw (root, mpi_comm_spawn) (rw given refl)
      ]
