-- ===== src/Heap.antt =====
-- The allocation of single objects with `malloc` and `free`. An address is not given out twice, so
-- that a use of a freed object, or a second `free`, is a fault. Whether `malloc` finds room is
-- the parameter `room`.
pub mod Laws
use mpif.Prelude.{
  ℕ, Bool, Option, none, some, List, [], ◌∷◌, ◌++◌, if◌then◌else◌, length, get_elem?, set,
}
use mpif.Machine.{Run, ok, fault}

-- The objects, live or freed, in the order in which they were allocated.
abbrev pub Heap {ℓ} : Type ℓ → Type ℓ
Heap A = List (Option A)

-- The live object at an address.
abbrev pub object_at {ℓ} : {A : Type ℓ} → Heap A → ℕ → Option A
object_at h p = elim (get_elem? h p) [ none ↦ none | some o ↦ o ]

-- An object that is allocated and filled in; none is NULL.
unfoldable pub allocate {ℓ} : {A : Type ℓ} → (Heap A → Bool) → Heap A → A → Option ℕ × Heap A
allocate room h a = if room h then (some (length h), h ++ (some a ∷ [])) else (none, h)

unfoldable pub read {ℓ} : {A : Type ℓ} → Heap A → ℕ → Run A
read h p = elim (object_at h p) [ none ↦ fault | some a ↦ ok a ]

unfoldable pub write {ℓ} : {A : Type ℓ} → Heap A → ℕ → A → Run (Heap A)
write h p a = elim (object_at h p) [ none ↦ fault | some _ ↦ ok (set h p (some a)) ]

unfoldable pub free {ℓ} : {A : Type ℓ} → Heap A → ℕ → Run (Heap A)
free h p = elim (object_at h p) [ none ↦ fault | some _ ↦ ok (set h p none) ]
