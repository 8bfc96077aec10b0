-- ===== src/Machine.antt =====
-- What the C sources use of their language and its library: outcomes of a call, byte buffers,
-- `malloc`, `memcpy`, `memset`, and the fixed-width integers as bit patterns.
pub mod Memory
use mpif.Prelude.{
  ℕ, zero, suc, ◌+◌, ◌-◌, ◌%◌, ◌^◌, ◌≤◌, ◌<◌, ◌≡◌, refl, Bool, true, false, ◌&&◌, Option, none,
  some, List, [], ◌∷◌, ◌++◌, arith, ltb, leb, ◌==◌, if◌then◌else◌, length, get_elem?, set, take,
  drop, replicate,
}

-- `fault` is undefined behaviour: an access outside an object, or a division by zero. `aborted` is
-- the end of the process by `abort` or `MPI_Abort`, after a message.
pub data Run {ℓ} (A : Type ℓ) : Type ℓ where
  ok : A → Run A
  fault : Run A
  aborted : Run A
  out_of_fuel : Run A

infixl 5 ◌>>=◌
infixl 5 ◌>>◌
-- What ends the call ends it, and otherwise the rest runs on the value.
abbrev pub ◌>>=◌ {ℓ κ} :
    {Value : Type ℓ} {Next : Type κ} (call : Run Value) (rest : Value → Run Next) → Run Next
fault >>= rest = fault
aborted >>= rest = aborted
out_of_fuel >>= rest = out_of_fuel
ok value >>= rest = rest value

abbrev pub ◌>>◌ {ℓ} : {Next : Type ℓ} (check : Run (Unit {0})) (rest : Run Next) → Run Next
check >> rest = check >>= λ done. rest

-- Inversion of a successful bind.
pub >>=-eq-ok {ℓ κ} :
    {Value : Type ℓ} {Next : Type κ} (call : Run Value) (rest : Value → Run Next) {result : Next}
    → (call >>= rest) ≡ ok result
    → (value : Value) × (call ≡ ok value) × (rest value ≡ ok result)
>>=-eq-ok fault rest ends = cc
>>=-eq-ok aborted rest ends = cc
>>=-eq-ok out_of_fuel rest ends = cc
>>=-eq-ok (ok value) rest ends = (value, refl, ends)

-- The call returns, and what it returns has the property.
abbrev pub Returns {ℓ} : {A : Type ℓ} → (A → Type ℓ) → Run A → Type ℓ
Returns {A = A} P m = (a : A) × (m ≡ ok a) × P a

-- The bytes of an object from an address to its end.
abbrev pub Bytes : Type 0
Bytes = List ℕ

abbrev pub from_option {ℓ} : {A : Type ℓ} → Option A → Run A
from_option none = fault
from_option (some a) = ok a

abbrev pub load : Bytes → ℕ → Run ℕ
load b i = from_option (get_elem? b i)

abbrev pub store : Bytes → ℕ → ℕ → Run Bytes
store b i v = if ltb i (length b) then ok (set b i v) else fault

-- `memcpy(dest + at, src + from, n)`, between distinct objects
abbrev pub memcpy : Bytes → ℕ → Bytes → ℕ → ℕ → Run Bytes
memcpy dest at src from n =
    if leb (at + n) (length dest) && leb (from + n) (length src)
    then ok (take at dest ++ (take n (drop from src) ++ drop (at + n) dest))
    else fault

-- `memset(dest + at, v, n)`
abbrev pub memset : Bytes → ℕ → ℕ → ℕ → Run Bytes
memset dest at v n =
    if leb (at + n) (length dest)
    then ok (take at dest ++ (replicate n v ++ drop (at + n) dest))
    else fault

-- `malloc`: none, or a buffer of the size asked for, its contents unspecified.
pub record Allocator : Type 0 where
  pub malloc : ℕ → Option Bytes
  pub length-malloc : (n : ℕ) (b : Bytes) → malloc n ≡ some b → length b ≡ n

-- `if (!res) abort();`
abbrev pub or_abort {ℓ} : {A : Type ℓ} → Option A → Run A
or_abort none = aborted
or_abort (some a) = ok a

-- A 32-bit or 64-bit signed integer is its bit pattern.
abbrev pub u32 : ℕ → ℕ
u32 n = n % 2 ^ 32

abbrev pub u64 : ℕ → ℕ
u64 n = n % 2 ^ 64

-- `(MPI_Aint)x` of a default integer: the sign bit is repeated.
abbrev pub sign_extend : ℕ → ℕ
sign_extend x = if ltb x (2 ^ 31) then x else x + (2 ^ 64 - 2 ^ 32)
