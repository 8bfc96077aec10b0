-- ===== src/Heap/Laws.antt =====
-- How the operations of the heap change what is at an address, and how many objects are live.
use mpif.Prelude.{
  ℕ, zero, suc, ◌+◌, ◌<◌, ◌≡◌, ◌≢◌, refl, ap, Option, none, some, [], ◌∷◌, ◌++◌, arith, length, set,
  get_elem?-set_self, get_elem?-set_ne,
}
use mpif.Machine.{ok}
use mpif.Heap.{Heap, object_at, read, write, free}

module _ {ℓ} {A : Type ℓ} where
  pub read-object_at : (h : Heap A) (p : ℕ) {a : A} → object_at h p ≡ some a → read h p ≡ ok a
  unfolding read
  read-object_at h p is = rw (is, read)

  pub write-object_at :
      (h : Heap A) (p : ℕ) {a : A} (b : A)
      → object_at h p ≡ some a
      → write h p b ≡ ok (set h p (some b))
  unfolding write
  write-object_at h p b is = rw (is, write)

  pub free-object_at :
      (h : Heap A) (p : ℕ) {a : A} → object_at h p ≡ some a → free h p ≡ ok (set h p none)
  unfolding free
  free-object_at h p is = rw (is, free)

  pub object_at-lt : (h : Heap A) (p : ℕ) {a : A} → object_at h p ≡ some a → p < length h
  object_at-lt [] p is = absurd (cc)
  object_at-lt (o ∷ h) zero is = omega arith
  object_at-lt (o ∷ h) (suc p) is = omega (arith, object_at-lt h p is)

  pub object_at-set_self :
      (h : Heap A) (p : ℕ) (o : Option A) → p < length h → object_at (set h p o) p ≡ o
  object_at-set_self h p o lt = rw (get_elem?-set_self h p o lt, object_at)

  pub object_at-set_ne :
      (h : Heap A) (p q : ℕ) (o : Option A) → p ≢ q → object_at (set h p o) q ≡ object_at h q
  object_at-set_ne h p q o ne = rw (get_elem?-set_ne h p q o ne, object_at)

  -- A new object is at its address, which had none, and the others stay.
  pub object_at-append_self : (h : Heap A) (o : Option A) → object_at (h ++ (o ∷ [])) (length h) ≡ o
  object_at-append_self [] o = refl
  object_at-append_self (x ∷ h) o = object_at-append_self h o

  pub object_at-append_ne :
      (h : Heap A) (o : Option A) (q : ℕ)
      → length h ≢ q
      → object_at (h ++ (o ∷ [])) q ≡ object_at h q
  object_at-append_ne [] o zero ne = absurd (ne refl)
  object_at-append_ne [] o (suc q) ne = refl
  object_at-append_ne (x ∷ h) o zero ne = refl
  object_at-append_ne (x ∷ h) o (suc q) ne = object_at-append_ne h o q (λ e. ne (ap suc e))

  pub object_at_end : (h : Heap A) → object_at h (length h) ≡ none
  object_at_end [] = refl
  object_at_end (x ∷ h) = object_at_end h

  abbrev pub count_of : Option A → ℕ
  count_of none = 0
  count_of (some a) = 1

  -- How many objects are live.
  abbrev pub live : Heap A → ℕ
  live [] = 0
  live (o ∷ h) = count_of o + live h

  pub live-append : (h : Heap A) (a : A) → live (h ++ (some a ∷ [])) ≡ suc (live h)
  live-append [] a = refl
  live-append (x ∷ h) a = omega (arith, live-append h a)

  pub live-set :
      (h : Heap A) (p : ℕ) {a : A} (o : Option A)
      → object_at h p ≡ some a
      → live (set h p o) + 1 ≡ live h + count_of o
  live-set [] p o is = absurd (cc)
  live-set (x ∷ h) zero o is = rw is omega arith
  live-set (x ∷ h) (suc p) o is = omega (arith, live-set h p o is)
