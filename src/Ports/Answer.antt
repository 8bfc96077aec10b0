-- ===== src/Ports/Answer.antt =====
-- What MPI is called with, at the root and elsewhere, and that the copy of the name is freed.
use mathlib.Core.List.{append-nil}
use mpif.Prelude.{
  ℕ, ◌+◌, ◌≤◌, ◌≡◌, refl, sym, ap, ◌∙◌, Bool, true, false, Option, none, some, [], ◌∷◌, ◌++◌,
  if◌then◌else◌, length, take,
}
use mpif.Machine.{ok, Bytes, Allocator}
use mpif.Heap.{Heap}
use mpif.Strings.Length.{trim_end}
use mpif.Strings.Duplicate.{strdup_f2c-trim_end, new_c_string-ok}
use mpif.Root.{at_root, root_of}
use mpif.Spawn.{read_strings, free_strings}
use mpif.Spawn.CString.{IsRoomy, read_strings-append, free_strings-append}
use mpif.Ports.{Handles, Connected, port_string, call_with_port, mpi_comm_accept, mpi_comm_connect}

module _ (h : Handles) (a : Allocator) (call : Option Bytes → ℕ → ℕ → ℕ → ℕ → ℕ × ℕ)
    (strings : Heap Bytes) (port_name : Bytes) (length_port_name info root comm : ℕ) where
  -- The name without the blanks at its end, as a C string, or NULL away from the root.
  abbrev pub name_for : Bool → Option Bytes
  name_for q_at_root =
      if q_at_root then some (trim_end (take length_port_name port_name) ++ 0 ∷ []) else none

  abbrev pub answer : Bool → Connected
  answer q_at_root =
      let (ierror, c_newcomm) =
        call (name_for q_at_root) (if q_at_root then h.info_fromint info else h.info_null) root
          (h.comm_fromint comm) h.comm_null in
      record {
        ierror = ierror;
        newcomm = some (h.comm_toint c_newcomm);
        strings = strings ++ (if q_at_root then none ∷ [] else []);
      }

  call_with_port-answer :
      IsRoomy a
      → length_port_name ≤ length port_name
      → (q_at_root : Bool)
      → call_with_port h a call q_at_root strings port_name length_port_name info root comm
        ≡ ok (answer q_at_root)
  unfolding call_with_port port_string read_strings free_strings
  call_with_port-answer roomy within false =
      ap (λ s. ok (record (answer false) { strings = s })) (sym (append-nil strings))
  call_with_port-answer roomy within true =
      let s = trim_end (take length_port_name port_name) in
      let (b, room) = roomy (length s + 1) in
      let made =
        strdup_f2c-trim_end a port_name length_port_name within ∙ new_c_string-ok a s b room in
      rw
        (
          made,
          read_strings-append strings ((s ++ 0 ∷ []) ∷ []) [],
          free_strings-append strings ((s ++ 0 ∷ []) ∷ []) [],
        )
        refl

  -- Where it is known which process is the root, and with room for the copy: MPI's routine gets the
  -- name without the blanks at its end and the info at the root, and no name and the null info
  -- elsewhere; its answer is passed back; the copy is freed, and no other string is touched.
  pub comm_accept-answer :
      IsRoomy a
      → length_port_name ≤ length port_name
      → (q_at_root : Bool) → root_of h.comms (h.comm_fromint comm) root ≡ at_root q_at_root
      → (mpi_comm_accept h a call strings port_name length_port_name info root comm
          ≡ ok (answer q_at_root))
        × (mpi_comm_connect h a call strings port_name length_port_name info root comm
            ≡ ok (answer q_at_root))
  unfolding mpi_comm_accept mpi_comm_connect
  comm_accept-answer roomy within q_at_root known =
      let called = call_with_port-answer roomy within q_at_root in
      (rw (known, mpi_comm_accept) called, rw (known, mpi_comm_connect) called)
