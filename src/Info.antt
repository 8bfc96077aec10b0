-- ===== src/Info.antt =====
-- gen/mpif_functions.c: routines that give a string, by an array on the stack that MPI fills and that is
-- then copied to the Fortran variable. MPI's routine gives its error code and what it writes; the
-- stack's arrays have unspecified contents, and are missing where the stack has no room. Keys are
-- strings on the heap.
pub mod Copied
mod Tests
use mpif.Prelude.{
  ℕ, zero, suc, ◌+◌, ◌%◌, ◌^◌, ◌-◌, ◌≡◌, Bool, true, false, not, ◌&&◌, Option, none, some, List, [],
  ◌∷◌, ltb, leb, ◌==◌, if◌then◌else◌, length,
}
use mpif.Prelude.Int.{ℤ, pos, negsuc}
use mpif.Machine.{Run, ok, fault, ◌>>=◌, Bytes, Allocator, store, from_option}
use mpif.Heap.{Heap, read, free}
use mpif.Strings.{mpif_strcpy_c2f}
use mpif.Strings.Copy.{strlen}
use mpif.Spawn.{new_string}
use mpif.Logical.{mpif_bool2logical}

-- An array on the stack.
pub record Stack : Type 0 where
  pub array : ℕ → Option Bytes
  pub length-array : (n : ℕ) (b : Bytes) → array n ≡ some b → length b ≡ n

-- `char c_value[buflen + 2]; c_value[0] = '\0'; c_value[buflen + 1] = '\0';`, where the size is a
-- `size_t`, and one of 0 is undefined.
unfoldable pub new_buffer : Stack → ℕ → Run Bytes
new_buffer stack buflen =
    let size = (buflen + 2) % 2 ^ 64 in
    if size == 0
    then fault
    else do b ← from_option (stack.array size); b ← store b 0 0; store b ((buflen + 1) % 2 ^ 64) 0

-- `mpif_strcpy_c2f(value, c_value, length_value, strlen(c_value))`
unfoldable pub copy_out : Bytes → Bytes → ℕ → Run Bytes
copy_out value c_value length_value = do
  n ← strlen c_value
  mpif_strcpy_c2f value c_value length_value n

-- `(int)n + 1`, where the sum has to be an `int`.
abbrev pub int_suc : ℕ → Run ℤ
int_suc n = if ltb (n + 1) (2 ^ 31) then ok (pos (n + 1)) else fault

-- The room that MPI is told of: with the NUL, and none where the caller has none.
unfoldable pub c_buflen_of : ℤ → ℕ → Run ℤ
c_buflen_of (negsuc n) length_value = ok (pos 0)
c_buflen_of (pos zero) length_value = ok (pos 0)
c_buflen_of (pos (suc n)) length_value =
    if leb (suc n) length_value then int_suc (suc n) else int_suc length_value

-- `c_buflen > 0 ? c_buflen - 1 : 0`
abbrev pub without_nul : ℤ → ℤ
without_nul (negsuc n) = pos 0
without_nul (pos zero) = pos 0
without_nul (pos (suc n)) = pos n

abbrev pub is_positive : ℤ → Bool
is_positive (negsuc n) = false
is_positive (pos zero) = false
is_positive (pos (suc n)) = true

-- `(size_t)n`
abbrev pub size_t_of : ℤ → ℕ
size_t_of (pos n) = n
size_t_of (negsuc n) = 2 ^ 64 - suc n

-- What MPI writes: the length, the array, and the flag if there is one.
pub record Written : Type 0 where
  pub ierror : ℕ
  pub buflen : ℤ
  pub value : Bytes
  pub flag : ℕ

-- What the caller has afterwards.
pub record Given : Type 0 where
  pub ierror : ℕ
  pub buflen : ℤ
  pub value : Bytes
  pub flag : ℕ
  pub strings : Heap Bytes

module _ (a : Allocator) (stack : Stack) (mpif_logical_true mpif_logical_false : ℕ) where
  abbrev pub logical : ℕ → ℕ
  logical = mpif_bool2logical mpif_logical_true mpif_logical_false

  unfoldable pub mpi_info_get_string :
      (Bytes → ℤ → Bytes → Written) → Heap Bytes → Bytes → ℕ → ℤ → Bytes → ℕ → Run Given
  mpi_info_get_string info_get_string strings key length_key buflen value length_value = do
    c_key ← new_string a strings key length_key
    c_buflen ← c_buflen_of buflen length_value
    c_value ← new_buffer stack length_value
    k ← read c_key.1 c_key.0
    let done = info_get_string k c_buflen c_value
    strings ← free c_key.1 c_key.0
    value ←
        (if not (done.flag == 0) && is_positive buflen
          then copy_out value done.value length_value
          else ok value)
    ok record {
      ierror = done.ierror;
      buflen = if not (done.flag == 0) then without_nul done.buflen else buflen;
      value = value;
      flag = logical done.flag;
      strings = strings;
    }

  -- The value has no length of its own, and its room is `valuelen`, as a `size_t`.
  unfoldable pub mpi_info_get :
      (Bytes → ℤ → Bytes → Written) → Heap Bytes → Bytes → ℕ → ℤ → Bytes → Run Given
  mpi_info_get info_get strings key length_key valuelen value = do
    c_key ← new_string a strings key length_key
    c_value ← new_buffer stack (size_t_of valuelen)
    k ← read c_key.1 c_key.0
    let done = info_get k valuelen c_value
    strings ← free c_key.1 c_key.0
    value ←
        (if not (done.flag == 0) then copy_out value done.value (size_t_of valuelen) else ok value)
    ok record {
      ierror = done.ierror;
      buflen = done.buflen;
      value = value;
      flag = logical done.flag;
      strings = strings;
    }

  -- No flag: the string is copied whenever the caller has room.
  unfoldable pub mpi_session_get_nth_pset :
      (ℤ → Bytes → Written) → ℤ → Bytes → ℕ → Run (ℕ × ℤ × Bytes)
  mpi_session_get_nth_pset get_nth_pset pset_len pset_name length_pset_name = do
    c_pset_len ← c_buflen_of pset_len length_pset_name
    c_pset_name ← new_buffer stack length_pset_name
    let done = get_nth_pset c_pset_len c_pset_name
    name ←
        (if is_positive pset_len
          then copy_out pset_name done.value length_pset_name
          else ok pset_name)
    ok (done.ierror, without_nul done.buflen, name)

  -- MPI_MAX_OBJECT_NAME is 128; the Fortran variable has one character less.
  unfoldable pub mpi_comm_get_name : (Bytes → Written) → Bytes → Run (ℕ × Bytes)
  mpi_comm_get_name get_name comm_name = do
    c_comm_name ← new_buffer stack 128
    let done = get_name c_comm_name
    name ← copy_out comm_name done.value 127
    ok (done.ierror, name)

  unfoldable pub mpi_info_get_nthkey : (Bytes → Written) → Bytes → ℕ → Run (ℕ × Bytes)
  mpi_info_get_nthkey get_nthkey key length_key = do
    c_key ← new_buffer stack length_key
    let done = get_nthkey c_key
    name ← copy_out key done.value length_key
    ok (done.ierror, name)
