-- ===== src/Machine/Memory.antt =====
-- `memcpy`, `memset` and a store on buffers that are large enough.
use mpif.Prelude.{
  ℕ, ◌+◌, ◌≤◌, ◌<◌, ◌≡◌, ap, ◌∙◌, ◌++◌, arith, length, take, drop, set, replicate, take-append,
  drop-append, drop-drop, length-append,
}
use mpif.Machine.{ok, Bytes, store, memcpy, memset}

pub memcpy-ok :
    (dest src : Bytes) (at from n : ℕ)
    → at + n ≤ length dest
    → from + n ≤ length src
    → memcpy dest at src from n
      ≡ ok (take at dest ++ (take n (drop from src) ++ drop (at + n) dest))
memcpy-ok dest src at from n h k = ground arith

pub memcpy_start :
    (dest src : Bytes) (n : ℕ)
    → n ≤ length dest
    → n ≤ length src
    → memcpy dest 0 src 0 n ≡ ok (take n src ++ drop n dest)
memcpy_start dest src n h k =
    memcpy-ok dest src 0 0 n (omega arith) (omega arith)
    ∙ ap (λ i. ok (take n src ++ drop i dest)) (omega arith)

memset-ok :
    (b : Bytes) (at v n : ℕ)
    → at + n ≤ length b
    → memset b at v n ≡ ok (take at b ++ (replicate n v ++ drop (at + n) b))
memset-ok b at v n h = ground arith

pub memset_tail :
    (s d : Bytes) (at v n : ℕ)
    → length s ≡ at
    → n ≤ length d
    → memset (s ++ d) at v n ≡ ok (s ++ (replicate n v ++ drop n d))
memset_tail s d at v n e h = rw (← e) (
    memset-ok (s ++ d) (length s) v n (omega (arith, length-append s d))
    ∙ rw (take-append s d, ← drop-drop (length s) n (s ++ d), drop-append s d))

pub store-ok : (b : Bytes) (i v : ℕ) → i < length b → store b i v ≡ ok (set b i v)
store-ok b i v h = ground arith
