-- ===== src/Ports.antt =====
-- gen/mpif_functions.c, mpi_comm_accept_ and mpi_comm_connect_, which differ in MPI's routine alone: the
-- name of the port is read at the root, copied to a C string on the heap, and freed after the call.
pub mod Answer
use mpif.Prelude.{
  ℕ, Bool, true, false, Option, none, some, List, [], ◌∷◌, ◌++◌, if◌then◌else◌, length,
}
use mpif.Machine.{Run, ok, ◌>>=◌, Bytes, Allocator}
use mpif.Heap.{Heap}
use mpif.Strings.{mpif_strdup_f2c}
use mpif.Root.{Comms, error, at_root, root_of}
use mpif.Spawn.{read_strings, free_strings, first_of}

pub record Handles : Type 0 where
  pub comms : Comms
  pub comm_fromint : ℕ → ℕ
  pub comm_toint : ℕ → ℕ
  pub info_fromint : ℕ → ℕ
  pub comm_null : ℕ
  pub info_null : ℕ

-- `newcomm` is none where the wrapper returns before it is written.
pub record Connected : Type 0 where
  pub ierror : ℕ
  pub newcomm : Option ℕ
  pub strings : Heap Bytes

-- `c_port_name`: a string at the root, and NULL elsewhere.
unfoldable pub port_string : Allocator → Bool → Heap Bytes → Bytes → ℕ → Run (List ℕ × Heap Bytes)
port_string a false strings port_name length_port_name = ok ([], strings)
port_string a true strings port_name length_port_name = do
  s ← mpif_strdup_f2c a port_name length_port_name
  ok (length strings ∷ [], strings ++ (some s ∷ []))

module _ (h : Handles) (a : Allocator) where
  -- MPI's routine is from the name, the info, the root, the communicator and MPI_COMM_NULL to the error
  -- and the new communicator.
  unfoldable pub call_with_port :
      (Option Bytes → ℕ → ℕ → ℕ → ℕ → ℕ × ℕ)
      → Bool
      → Heap Bytes
      → Bytes
      → ℕ
      → ℕ
      → ℕ
      → ℕ
      → Run Connected
  call_with_port call q_at_root strings port_name length_port_name info root comm = do
    copied ← port_string a q_at_root strings port_name length_port_name
    names ← read_strings copied.1 copied.0
    let (ierror, c_newcomm) =
        call (first_of names) (if q_at_root then h.info_fromint info else h.info_null) root
          (h.comm_fromint comm) h.comm_null
    strings ← free_strings copied.1 copied.0
    ok record { ierror = ierror; newcomm = some (h.comm_toint c_newcomm); strings = strings }

  unfoldable pub mpi_comm_accept :
      (Option Bytes → ℕ → ℕ → ℕ → ℕ → ℕ × ℕ) → Heap Bytes → Bytes → ℕ → ℕ → ℕ → ℕ → Run Connected
  mpi_comm_accept comm_accept strings port_name length_port_name info root comm =
      elim (root_of h.comms (h.comm_fromint comm) root) [
        | error q_ierror ↦ ok record { ierror = q_ierror; newcomm = none; strings = strings }
        | at_root q_at_root ↦
            call_with_port comm_accept q_at_root strings port_name length_port_name info root comm
      ]

  unfoldable pub mpi_comm_connect :
      (Option Bytes → ℕ → ℕ → ℕ → ℕ → ℕ × ℕ) → Heap Bytes → Bytes → ℕ → ℕ → ℕ → ℕ → Run Connected
  mpi_comm_connect comm_connect strings port_name length_port_name info root comm =
      elim (root_of h.comms (h.comm_fromint comm) root) [
        | error q_ierror ↦ ok record { ierror = q_ierror; newcomm = none; strings = strings }
        | at_root q_at_root ↦
            call_with_port comm_connect q_at_root strings port_name length_port_name info root comm
      ]
