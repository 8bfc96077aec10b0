-- ===== src/Strings/Length.antt =====
-- The trimmed length, against a reference that drops trailing blanks from the list of characters.
use mathlib.Core.List.{append_assoc, append-nil}
use mpif.Prelude.{
  All, ◌-◌, ==_iff, ℕ, zero, suc, ◌≤◌, ◌≡◌, refl, sym, ap, ◌∙◌, inl, inr, false, [], ◌∷◌, ◌++◌,
  arith, ◌==◌, if◌then◌else◌, some, length, get_elem?, take, get_elem?-some, length-take,
  length-append, Bool-cases, replicate,
}
use mpif.Machine.{ok, Bytes}
use mpif.Strings.{blank, mpif_fstrlen}

-- A blank goes if nothing but blanks follow.
abbrev cons_trimmed : ℕ → Bytes → Bytes
cons_trimmed c [] = if c == blank then [] else c ∷ []
cons_trimmed c (d ∷ r) = c ∷ d ∷ r

-- The characters without the blanks at the end.
unfoldable pub trim_end : Bytes → Bytes
trim_end [] = []
trim_end (c ∷ s) = cons_trimmed c (trim_end s)

-- The characters without the blanks at the front.
unfoldable pub trim_start : Bytes → Bytes
trim_start [] = []
trim_start (c ∷ s) = if c == blank then trim_start s else c ∷ s

take-suc :
    (str : Bytes) (n : ℕ) {c : ℕ}
    → get_elem? str n ≡ some c
    → take (suc n) str ≡ take n str ++ c ∷ []
take-suc [] n h = cc
take-suc (x ∷ str) zero h = ground arith
take-suc (x ∷ str) (suc n) h = ap (◌∷◌ x) (take-suc str n h)

trim_end-blank : (s : Bytes) → trim_end (s ++ blank ∷ []) ≡ trim_end s
unfolding trim_end
trim_end-blank [] = refl
trim_end-blank (c ∷ s) = ap (cons_trimmed c) (trim_end-blank s)

trim_end-solid : (s : Bytes) (c : ℕ) → (c == blank) ≡ false → trim_end (s ++ c ∷ []) ≡ s ++ c ∷ []
unfolding trim_end
trim_end-solid [] c h = rw h
trim_end-solid (x ∷ []) c h = rw h
trim_end-solid (x ∷ y ∷ s) c h = ap (cons_trimmed x) (trim_end-solid (y ∷ s) c h)

fstrlen-suc :
    (str : Bytes) (n c : ℕ)
    → get_elem? str n ≡ some c
    → mpif_fstrlen str (suc n) ≡ (if c == blank then mpif_fstrlen str n else ok (suc n))
unfolding mpif_fstrlen
fstrlen-suc str n c e = rw e

trim_end-take-suc :
    (str : Bytes) (n c : ℕ)
    → get_elem? str n ≡ some c
    → trim_end (take (suc n) str)
      ≡ (if c == blank then trim_end (take n str) else take n str ++ c ∷ [])
trim_end-take-suc str n c e = elim (Bool-cases (c == blank)) [
  | inl is_blank ↦ rw (take-suc str n e, (==_iff c blank).0 is_blank) (trim_end-blank (take n str))
  | inr solid ↦ rw (take-suc str n e, solid) (trim_end-solid (take n str) c solid)
]

length-take-snoc : (str : Bytes) (n c : ℕ) → n ≤ length str → length (take n str ++ c ∷ []) ≡ suc n
length-take-snoc str n c h = omega (arith, length-append (take n str) (c ∷ []), length-take n str h)

-- `mpif_fstrlen` reads only the `n` characters that it is given, and returns the length of what
-- is left of them without the blanks at the end.
pub fstrlen-trim_end :
    (str : Bytes) (n : ℕ)
    → n ≤ length str
    → mpif_fstrlen str n ≡ ok (length (trim_end (take n str)))
unfolding mpif_fstrlen trim_end
fstrlen-trim_end str zero h = refl
fstrlen-trim_end str (suc n) h =
    let (c, e) = get_elem?-some str n h in
    fstrlen-suc str n c e
    ∙ ground (
      arith,
      trim_end-take-suc str n c e,
      fstrlen-trim_end str n (omega arith),
      length-take-snoc str n c (omega arith),
    )

-- What is left is a prefix of the characters: as many as its length.
pub take-trim_end : (s : Bytes) → take (length (trim_end s)) s ≡ trim_end s
unfolding trim_end
take-trim_end [] = refl
take-trim_end (c ∷ s) = ground (arith, take-trim_end s)

-- The blanks that were dropped are all of the rest.
pub trim_end-append-replicate :
    (s : Bytes) → trim_end s ++ replicate (length s - length (trim_end s)) blank ≡ s
unfolding trim_end
trim_end-append-replicate [] = refl
trim_end-append-replicate (c ∷ s) = ground (arith, trim_end-append-replicate s)

pub length-trim_end-le : (s : Bytes) → length (trim_end s) ≤ length s
unfolding trim_end
length-trim_end-le [] = omega arith
length-trim_end-le (c ∷ s) = ground (arith, length-trim_end-le s)

pub trim_end_idem : (s : Bytes) → trim_end (trim_end s) ≡ trim_end s
unfolding trim_end
trim_end_idem [] = refl
trim_end_idem (c ∷ s) = ground (arith, trim_end_idem s)

pub trim_end-append-blanks : (k : ℕ) (s : Bytes) → trim_end (s ++ replicate k blank) ≡ trim_end s
trim_end-append-blanks zero s = rw (append-nil s)
trim_end-append-blanks (suc k) s =
    ap trim_end (sym (append_assoc s (blank ∷ []) (replicate k blank)))
    ∙ trim_end-append-blanks k (s ++ blank ∷ [])
    ∙ trim_end-blank s

cons_trimmed-All {ℓ} :
    (P : ℕ → Type ℓ) (c : ℕ) (s : Bytes) → P c → All P s → All P (cons_trimmed c s)
cons_trimmed-All P c [] h hs = elim (Bool-cases (c == blank)) [
  | inl is_blank ↦ rw is_blank tt
  | inr solid ↦ rw solid (h, tt)
]
cons_trimmed-All P c (d ∷ s) h hs = (h, hs)

pub trim_end-All {ℓ} : (P : ℕ → Type ℓ) (s : Bytes) → All P s → All P (trim_end s)
unfolding trim_end
trim_end-All P [] h = tt
trim_end-All P (c ∷ s) h = cons_trimmed-All P c (trim_end s) h.0 (trim_end-All P s h.1)
