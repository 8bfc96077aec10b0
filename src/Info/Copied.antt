-- ===== src/Info/Copied.antt =====
-- What the caller gets of a string that MPI writes.
use mpif.Prelude.{
  ℕ, zero, suc, ◌+◌, ◌%◌, ◌^◌, ◌≤◌, ◌<◌, ◌≡◌, refl, ap, ◌∙◌, inl, inr, true, false, not, ◌&&◌, none,
  some, [], ◌∷◌, ◌++◌, leb, ◌==◌, if◌then◌else◌, arith, length, take, drop, set, get_elem?,
  get_elem?-set_self, set-append, length-set, Bool-cases,
}
use Prim.Native.Nat.{min}
use native.Mathlib.Nat.{min-le_right, min-eq_left, min-eq_right}
use mpif.Prelude.Int.{ℤ, pos, negsuc, pos_part}
use mpif.Machine.{ok, Returns, Bytes, Allocator}
use mpif.Machine.Memory.{store-ok}
use mpif.Heap.{Heap, read, free}
use mpif.Heap.Laws.{read-object_at, free-object_at, object_at-append_self}
use mpif.Strings.Copy.{strlen, fortran_string, strcpy_c2f-fortran_string}
use mpif.Spawn.CString.{c_string, IsRoomy, new_string-c_string}
use mpif.Info.{
  Stack, new_buffer, copy_out, c_buflen_of, without_nul, is_positive, Written, Given, logical,
  mpi_info_get_string,
}

-- The characters before the first NUL.
unfoldable pub before_nul : Bytes → Bytes
before_nul [] = []
before_nul (c ∷ s) = if c == 0 then [] else c ∷ before_nul s

-- With a NUL somewhere, `strlen` finds the first.
strlen-before_nul :
    (s : Bytes) (i : ℕ)
    → get_elem? s i ≡ some 0
    → (strlen s ≡ ok (length (before_nul s)))
      × (take (length (before_nul s)) s ≡ before_nul s)
      × (length (before_nul s) ≤ length s)
unfolding strlen before_nul
strlen-before_nul [] i at = absurd (cc)
strlen-before_nul (c ∷ s) zero at =
    let nul : (c == 0) ≡ true = ground arith in rw nul (refl, refl, omega arith)
strlen-before_nul (c ∷ s) (suc i) at =
    let (found, taken, short) = strlen-before_nul s i at in
    elim (Bool-cases (c == 0)) [
      | inl nul ↦ rw nul (refl, refl, omega arith)
      | inr other ↦ rw (other, found) (refl, ap (◌∷◌ c) taken, omega (arith, short))
    ]

copy_out-fortran_string :
    (value c_value : Bytes) (n i : ℕ)
    → n ≤ length value
    → get_elem? c_value i ≡ some 0
    → copy_out value c_value n ≡ ok (fortran_string n (before_nul c_value) ++ drop n value)
unfolding copy_out
copy_out-fortran_string value c_value n i within at =
    let (found, taken, short) = strlen-before_nul c_value i at in
    rw (found, copy_out)
      (strcpy_c2f-fortran_string value c_value n (length (before_nul c_value)) within short
        ∙ ap (λ s. ok (fortran_string n s ++ drop n value)) taken)

-- An array on the stack ends in a NUL behind the characters that it is for.
new_buffer-end :
    (stack : Stack) (n : ℕ) (b : Bytes)
    → n + 2 < 2 ^ 64
    → stack.array (n + 2) ≡ some b
    → Returns (λ c. (length c ≡ n + 2) × (get_elem? c (n + 1) ≡ some 0)) (new_buffer stack n)
unfolding new_buffer
new_buffer-end stack n b small room =
    let size : (n + 2) % 2 ^ 64 ≡ n + 2 = omega arith in
    let last : (n + 1) % 2 ^ 64 ≡ n + 1 = omega arith in
    let some_ : (n + 2 == 0) ≡ false = ground arith in
    let len = stack.length-array (n + 2) b room in
    let first = store-ok b 0 0 (omega (arith, len)) in
    let length_first = length-set b 0 0 in
    let second = store-ok (set b 0 0) (n + 1) 0 (omega (arith, len, length_first)) in
    (
      set (set b 0 0) (n + 1) 0,
      rw (size, last, some_, room, first, second, new_buffer) refl,
      (
        length-set (set b 0 0) (n + 1) 0 ∙ length_first ∙ len,
        get_elem?-set_self (set b 0 0) (n + 1) 0 (omega (arith, len, length_first)),
      ),
    )

-- One byte more than the caller has of the variable, and none if the caller has none.
abbrev pub room_told : ℤ → ℕ → ℤ
room_told (negsuc n) length_value = pos 0
room_told (pos zero) length_value = pos 0
room_told (pos (suc n)) length_value = pos (min (suc n) length_value + 1)

c_buflen_of-room_told :
    (buflen : ℤ) (length_value : ℕ)
    → min (pos_part buflen) length_value + 1 < 2 ^ 31
    → c_buflen_of buflen length_value ≡ ok (room_told buflen length_value)
unfolding c_buflen_of
c_buflen_of-room_told (negsuc n) length_value small = refl
c_buflen_of-room_told (pos zero) length_value small = refl
c_buflen_of-room_told (pos (suc n)) length_value small =
    elim (Bool-cases (leb (suc n) length_value)) [
      | inl fits ↦
          let is : min (suc n) length_value ≡ suc n = min-eq_left (ground arith) in
          rw (fits, is) (ground (arith, is, small))
      | inr cut ↦
          let is : min (suc n) length_value ≡ length_value = min-eq_right (ground arith) in
          rw (cut, is) (ground (arith, is, small))
    ]

-- MPI is told of no more than the array has before its last byte.
room_told-le :
    (buflen : ℤ) (length_value : ℕ)
    → (k : ℕ) × (room_told buflen length_value ≡ pos k) × (k ≤ length_value + 1)
room_told-le (negsuc n) length_value = (0, refl, omega arith)
room_told-le (pos zero) length_value = (0, refl, omega arith)
room_told-le (pos (suc n)) length_value =
    (min (suc n) length_value + 1, refl, omega (arith, min-le_right (suc n) length_value))

-- A routine of MPI that is told of room for `c` bytes writes no others.
abbrev pub WritesWithin : (Bytes → ℤ → Bytes → Written) → Type 0
WritesWithin f =
    (k : Bytes) (c : ℕ) (b : Bytes) (i : ℕ)
    → c ≤ i
    → get_elem? (f k (pos c) b).value i ≡ get_elem? b i

module _ (strings : Heap Bytes) (k : Bytes) where
  read_key : read (strings ++ (some k ∷ [])) (length strings) ≡ ok k
  read_key =
      read-object_at (strings ++ (some k ∷ [])) (length strings)
        (object_at-append_self strings (some k))

  free_key : free (strings ++ (some k ∷ [])) (length strings) ≡ ok (strings ++ (none ∷ []))
  free_key =
      free-object_at (strings ++ (some k ∷ [])) (length strings)
        (object_at-append_self strings (some k))
      ∙ ap ok (set-append strings [] (some k) none)

module _ (a : Allocator) (roomy : IsRoomy a) (stack : Stack) (logical_true logical_false : ℕ)
    (f : Bytes → ℤ → Bytes → Written) (within : WritesWithin f) where
  -- The NUL behind the array is left alone.
  end_kept :
      (k c_value : Bytes) (buflen : ℤ) (length_value : ℕ)
      → get_elem? c_value (length_value + 1) ≡ some 0
      → get_elem? (f k (room_told buflen length_value) c_value).value (length_value + 1) ≡ some 0
  end_kept k c_value buflen length_value at =
      let (c, is, le) = room_told-le buflen length_value in
      rw is (within k c c_value (length_value + 1) le ∙ at)

  -- Where MPI writes within the room that it is told of, memory and stack have room, and the smaller
  -- of the caller's length and that of the variable is below the largest `int`,
  -- mpi_info_get_string_ returns. MPI gets the key without the blanks around it, and is told of one
  -- byte more than that smaller length, or of none if the caller's is not positive. If it finds a value
  -- and the caller has room, the variable becomes the characters that MPI wrote up to the first NUL,
  -- cut off or filled with blanks, and what is behind the variable stays; otherwise all of it stays.
  -- The length is MPI's without the NUL, if a value is found. The copy of the key is freed.
  pub info_get_string-fortran_string :
      (strings : Heap Bytes) (key : Bytes) (length_key : ℕ) (buflen : ℤ) (value : Bytes)
      (length_value : ℕ) (b : Bytes)
      → length_key ≤ length key
      → length_value ≤ length value
      → min (pos_part buflen) length_value + 1 < 2 ^ 31
      → length_value + 2 < 2 ^ 64
      → stack.array (length_value + 2) ≡ some b
      → Returns
          (λ r.
            (c_value : Bytes) × (let done =
                f (c_string key length_key) (room_told buflen length_value) c_value in
              (r.strings ≡ strings ++ (none ∷ []))
              × (r.ierror ≡ done.ierror)
              × (r.flag ≡ logical a stack logical_true logical_false done.flag)
              × (r.buflen ≡ (if not (done.flag == 0) then without_nul done.buflen else buflen))
              × (r.value ≡ (
                  if not (done.flag == 0) && is_positive buflen
                  then fortran_string length_value (before_nul done.value)
                    ++ drop length_value value
                  else value))))
          (mpi_info_get_string a stack logical_true logical_false f strings key length_key buflen
            value length_value)
  unfolding mpi_info_get_string
  info_get_string-fortran_string strings key length_key buflen value length_value b key_fits
        value_fits in_range small room =
      let k = c_string key length_key in
      let (c_value, made, (len, at)) = new_buffer-end stack length_value b small room in
      let told = c_buflen_of-room_told buflen length_value in_range in
      let done = f k (room_told buflen length_value) c_value in
      let copied =
        copy_out-fortran_string value done.value length_value (length_value + 1) value_fits
          (end_kept k c_value buflen length_value at) in
      let allocated = new_string-c_string a roomy strings key length_key key_fits in
      let given : Bytes → Given = λ v. record {
        ierror = done.ierror;
        buflen = if not (done.flag == 0) then without_nul done.buflen else buflen;
        value = v;
        flag = logical a stack logical_true logical_false done.flag;
        strings = strings ++ (none ∷ []);
      } in
      elim (Bool-cases (not (done.flag == 0) && is_positive buflen)) [
        | inl found ↦ (
          given (fortran_string length_value (before_nul done.value) ++ drop length_value value),
          rw
              (
                allocated,
                told,
                made,
                read_key strings k,
                free_key strings k,
                found,
                copied,
                mpi_info_get_string,
              )
              refl,
          (c_value, (refl, refl, refl, refl, rw found refl)),
        )
        | inr missing ↦ (
          given value,
          rw
              (
                allocated,
                told,
                made,
                read_key strings k,
                free_key strings k,
                missing,
                mpi_info_get_string,
              )
              refl,
          (c_value, (refl, refl, refl, refl, rw missing refl)),
        )
      ]
