-- ===== src/Callbacks/Keyvals/Lookup.antt =====
-- The entry that a search of the table ends at, and what the writes to an entry do to it.
use mpif.Prelude.{
  ℕ, zero, suc, ◌≡◌, ◌≢◌, inl, inr, refl, ap, Option, none, some, List, [], ◌∷◌, arith, ◌==◌,
  if◌then◌else◌, length, Bool-cases, Option-cases,
}
use mathlib.Core.Option
use mpif.Abi.{mpi_keyval_invalid}
use mpif.Callbacks.Keyvals.{Entry, find_attr_entry, modify}

-- The entry that a search for the keyval ends at.
unfoldable pub lookup : List Entry → ℕ → Option Entry
lookup [] k = none
lookup (e ∷ entries) k = if e.keyval == k then some e else lookup entries k

pub find_none-lookup : (t : List Entry) (k : ℕ) → find_attr_entry t k ≡ none → lookup t k ≡ none
unfolding find_attr_entry lookup
find_none-lookup [] k h = refl
find_none-lookup (e ∷ t) k h = ground (arith, find_none-lookup t k)

-- An assignment that keeps the keyval, at the entry found for `k`.
pub lookup-modify_found :
    (t : List Entry) (k i : ℕ) (f : Entry → Entry)
    → ((e : Entry) → (f e).keyval ≡ e.keyval)
    → find_attr_entry t k ≡ some i
    → (j : ℕ) → lookup (modify t i f) j ≡ (if k == j then Option.map f (lookup t k) else lookup t j)
unfolding find_attr_entry lookup modify
lookup-modify_found [] k i f keep h j = absurd (cc)
lookup-modify_found (e ∷ t) k zero f keep h j = ground (arith, keep e)
lookup-modify_found (e ∷ t) k (suc i) f keep h j =
    ground
      (arith, keep e, λ (q : find_attr_entry t k ≡ some i). lookup-modify_found t k i f keep q j)

-- An entry that was free becomes that of `k`, which had none.
pub lookup-modify_free :
    (t : List Entry) (k i : ℕ) (e : Entry)
    → e.keyval ≡ k
    → find_attr_entry t mpi_keyval_invalid ≡ some i
    → lookup t k ≡ none
    → (j : ℕ) → j ≢ mpi_keyval_invalid
    → lookup (modify t i (λ _. e)) j ≡ (if k == j then some e else lookup t j)
unfolding find_attr_entry lookup modify
lookup-modify_free [] k i e is h fresh j valid = absurd (cc)
lookup-modify_free (x ∷ t) k zero e is h fresh j valid = ground arith
lookup-modify_free (x ∷ t) k (suc i) e is h fresh j valid = ground (
  arith,
  λ (q : find_attr_entry t mpi_keyval_invalid ≡ some i) (r : lookup t k ≡ none).
      lookup-modify_free t k i e is q r j valid,
)

pub modify-modify :
    (t : List Entry) (i : ℕ) (f g : Entry → Entry)
    → modify (modify t i f) i g ≡ modify t i (λ e. g (f e))
unfolding modify
modify-modify [] i f g = refl
modify-modify (e ∷ t) zero f g = refl
modify-modify (e ∷ t) (suc i) f g = ap (◌∷◌ e) (modify-modify t i f g)

pub length-modify : (t : List Entry) (i : ℕ) (f : Entry → Entry) → length (modify t i f) ≡ length t
unfolding modify
length-modify [] i f = refl
length-modify (e ∷ t) zero f = refl
length-modify (e ∷ t) (suc i) f = ap suc (length-modify t i f)

pub find_some-lookup :
    (t : List Entry) (k i : ℕ) → find_attr_entry t k ≡ some i → (e : Entry) × (lookup t k ≡ some e)
unfolding find_attr_entry lookup
find_some-lookup [] k i h = absurd (cc)
find_some-lookup (e ∷ t) k i h = elim (Bool-cases (e.keyval == k)) [
  | inl here ↦ (e, rw here)
  | inr there ↦ elim (Option-cases (find_attr_entry t k)) [
    | inl missing ↦ absurd (ground arith)
    | inr (n, found) ↦ let (x, p) = find_some-lookup t k n found in (x, rw there p)
  ]
]
