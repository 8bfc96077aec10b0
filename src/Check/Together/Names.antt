-- ===== src/Check/Together/Names.antt =====
-- The order of the names at the root, which the layout is read from.
use mpif.Prelude.{◌≡◌, inl, inr, refl, true, false, arith, Bool-cases, List, [], ◌∷◌, All}
use mpif.Machine.{Bytes}
use mpif.Check.Nodes.{IsSorted}
use mpif.Check.Together.{name_leb, insert_name, sort_names}

abbrev pub Before : Bytes → Bytes → Type 0
Before x y = name_leb x y ≡ true

pub Before-antisym : (x y : Bytes) → Before x y → Before y x → x ≡ y
Before-antisym [] [] le ge = refl
Before-antisym [] (y ∷ ys) le ge = absurd (ground arith)
Before-antisym (x ∷ xs) [] le ge = absurd (ground arith)
Before-antisym (x ∷ xs) (y ∷ ys) le ge =
    let same : x ≡ y = ground arith in
    let rest : xs ≡ ys = Before-antisym xs ys (ground arith) (ground arith) in rw (same, rest) refl

Before-trans : (x y z : Bytes) → Before x y → Before y z → Before x z
Before-trans [] y z le more = refl
Before-trans (x ∷ xs) [] z le more = absurd (ground arith)
Before-trans (x ∷ xs) (y ∷ ys) [] le more = absurd (ground arith)
Before-trans (x ∷ xs) (y ∷ ys) (z ∷ zs) le more =
    let rest : Before xs ys → Before ys zs → Before xs zs = Before-trans xs ys zs in
    ground (arith, le, more, rest)

Before-total : (x y : Bytes) → name_leb x y ≡ false → Before y x
Before-total [] y gt = absurd (ground arith)
Before-total (x ∷ xs) [] gt = refl
Before-total (x ∷ xs) (y ∷ ys) gt =
    let rest : name_leb xs ys ≡ false → Before ys xs = Before-total xs ys in
    ground (arith, gt, rest)

insert_name-All :
    (P : Bytes → Type 0) (x : Bytes) (names : List Bytes)
    → P x
    → All P names
    → All P (insert_name x names)
insert_name-All P x [] here there = (here, tt)
insert_name-All P x (y ∷ names) here (next, there) = elim (Bool-cases (name_leb x y)) [
  | inl le ↦ rw le (here, (next, there))
  | inr gt ↦ rw gt (next, insert_name-All P x names here there)
]

above-All :
    (x y : Bytes) (names : List Bytes) → Before x y → All (Before y) names → All (Before x) names
above-All x y [] le above = tt
above-All x y (z ∷ names) le (here, above) =
    (Before-trans x y z le here, above-All x y names le above)

insert_name-IsSorted :
    (x : Bytes) (names : List Bytes) → IsSorted Before names → IsSorted Before (insert_name x names)
insert_name-IsSorted x [] sorted = (tt, tt)
insert_name-IsSorted x (y ∷ names) (above, sorted) = elim (Bool-cases (name_leb x y)) [
  | inl le ↦ rw le ((le, above-All x y names le above), (above, sorted))
  | inr gt ↦ rw gt (
    insert_name-All (Before y) x names (Before-total x y gt) above,
    insert_name-IsSorted x names sorted,
  )
]

pub sort_names-IsSorted : (names : List Bytes) → IsSorted Before (sort_names names)
sort_names-IsSorted [] = tt
sort_names-IsSorted (x ∷ names) =
    insert_name-IsSorted x (sort_names names) (sort_names-IsSorted names)
