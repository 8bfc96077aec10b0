-- ===== src/Cdesc/Section.antt =====
-- Where the elements of an array section are, as byte offsets from its first element.
use mpif.Prelude.{
  ℕ, zero, suc, ◌+◌, ◌*◌, ◌≤◌, ◌≡◌, refl, sym, ap, ◌∙◌, List, [], ◌∷◌, ◌++◌, map, arith, length,
  take, All, take-take, length-append,
}
use mpif.Prelude.Int.{ℤ, pos, negsuc, ◌+ℤ◌, ◌*ℤ◌, +ℤ_assoc, zero-+ℤ}
use mpif.Cdesc.{Dim}

-- Copies of the offsets, shifted by `i * sm`, `(i + 1) * sm` and so on.
abbrev pub copies : ℕ → ℕ → ℤ → List ℤ → List ℤ
copies i zero sm offsets = []
copies i (suc n) sm offsets = map (λ o. pos i *ℤ sm +ℤ o) offsets ++ copies (suc i) n sm offsets

-- The elements in array element order, the first dimension innermost.
abbrev pub section_of : List ℤ → List Dim → List ℤ
section_of offsets [] = offsets
section_of offsets (d ∷ ds) = section_of (copies 0 d.extent d.sm offsets) ds

-- A unit that takes up the bytes `unit`, at each of the offsets.
abbrev pub place : List ℤ → List ℤ → List ℤ
place unit [] = []
place unit (o ∷ offsets) = map (λ b. o +ℤ b) unit ++ place unit offsets

append_assoc {ℓ} : {A : Type ℓ} (xs ys zs : List A) → (xs ++ ys) ++ zs ≡ xs ++ (ys ++ zs)
append_assoc [] ys zs = refl
append_assoc (x ∷ xs) ys zs = ap (◌∷◌ x) (append_assoc xs ys zs)

map-append : (f : ℤ → ℤ) (xs ys : List ℤ) → map f (xs ++ ys) ≡ map f xs ++ map f ys
map-append f [] ys = refl
map-append f (x ∷ xs) ys = ap (◌∷◌ (f x)) (map-append f xs ys)

pub length-map : (f : ℤ → ℤ) (xs : List ℤ) → length (map f xs) ≡ length xs
length-map f [] = refl
length-map f (x ∷ xs) = ap suc (length-map f xs)

place-append : (unit xs ys : List ℤ) → place unit (xs ++ ys) ≡ place unit xs ++ place unit ys
place-append unit [] ys = refl
place-append unit (x ∷ xs) ys =
    ap (map (λ b. x +ℤ b) unit ++◌) (place-append unit xs ys)
    ∙ sym (append_assoc (map (λ b. x +ℤ b) unit) (place unit xs) (place unit ys))

map-map_shift :
    (a o : ℤ) (unit : List ℤ)
    → map (λ b. a +ℤ b) (map (λ b. o +ℤ b) unit) ≡ map (λ b. a +ℤ o +ℤ b) unit
map-map_shift a o [] = refl
map-map_shift a o (b ∷ unit) = rw (+ℤ_assoc a o b, map-map_shift a o unit) refl

map-place :
    (a : ℤ) (unit offsets : List ℤ)
    → map (λ b. a +ℤ b) (place unit offsets) ≡ place unit (map (λ o. a +ℤ o) offsets)
map-place a unit [] = refl
map-place a unit (o ∷ offsets) =
    map-append (λ b. a +ℤ b) (map (λ b. o +ℤ b) unit) (place unit offsets)
    ∙ rw (map-map_shift a o unit, map-place a unit offsets) refl

-- Copies of placed units are units placed at the copies.
pub copies-place :
    (i n : ℕ) (sm : ℤ) (unit offsets : List ℤ)
    → copies i n sm (place unit offsets) ≡ place unit (copies i n sm offsets)
copies-place i zero sm unit offsets = refl
copies-place i (suc n) sm unit offsets =
    rw (map-place (pos i *ℤ sm) unit offsets, copies-place (suc i) n sm unit offsets)
      (sym (place-append unit (map (λ o. pos i *ℤ sm +ℤ o) offsets) (copies (suc i) n sm offsets)))

-- One unit, at the offset 0.
map_zero : (xs : List ℤ) → map (λ b. pos 0 +ℤ b) xs ≡ xs
map_zero [] = refl
map_zero (x ∷ xs) = rw (zero-+ℤ x, map_zero xs) refl

append-nil {ℓ} : {A : Type ℓ} (xs : List A) → xs ++ [] ≡ xs
append-nil [] = refl
append-nil (x ∷ xs) = ap (◌∷◌ x) (append-nil xs)

pub place_one : (unit : List ℤ) → place unit (pos 0 ∷ []) ≡ unit
place_one unit = append-nil (map (λ b. pos 0 +ℤ b) unit) ∙ map_zero unit

suc_mul : (m n : ℕ) → suc m * n ≡ n + m * n
suc_mul m n = omega arith

pub length-copies :
    (i n : ℕ) (sm : ℤ) (offsets : List ℤ) → length (copies i n sm offsets) ≡ n * length offsets
length-copies i zero sm offsets = omega arith
length-copies i (suc n) sm offsets =
    length-append (map (λ o. pos i *ℤ sm +ℤ o) offsets) (copies (suc i) n sm offsets)
    ∙ rw
        (
          length-map (λ o. pos i *ℤ sm +ℤ o) offsets,
          length-copies (suc i) n sm offsets,
          suc_mul n (length offsets),
        )
        refl

take-append_more {ℓ} :
    {A : Type ℓ} (xs ys : List A) (k : ℕ) → take (length xs + k) (xs ++ ys) ≡ xs ++ take k ys
take-append_more [] ys k = ap (λ n. take n ys) (omega arith)
take-append_more (x ∷ xs) ys k =
    let e : suc (length xs) + k ≡ suc (length xs + k) = omega arith in
    rw e (ap (◌∷◌ x) (take-append_more xs ys k))

-- The first of the copies are copies.
pub take-copies :
    (i m n : ℕ) (sm : ℤ) (offsets : List ℤ)
    → m ≤ n
    → take (m * length offsets) (copies i n sm offsets) ≡ copies i m sm offsets
take-copies i zero n sm offsets h =
    let e : 0 * length offsets ≡ 0 = omega arith in ap (λ k. take k (copies i n sm offsets)) e
take-copies i (suc m) zero sm offsets h = absurd (omega arith)
take-copies i (suc m) (suc n) sm offsets h =
    let front = map (λ o. pos i *ℤ sm +ℤ o) offsets in
    let more : suc m * length offsets ≡ length front + m * length offsets =
      suc_mul m (length offsets)
      ∙ ap (λ k. k + m * length offsets) (sym (length-map (λ o. pos i *ℤ sm +ℤ o) offsets)) in
    ap (λ k. take k (front ++ copies (suc i) n sm offsets)) more
    ∙ take-append_more front (copies (suc i) n sm offsets) (m * length offsets)
    ∙ ap (front ++◌) (take-copies (suc i) m n sm offsets (omega arith))

one_mul : (n : ℕ) → 1 * n ≡ n
one_mul n = omega arith

pub at_least : (n k : ℕ) → 1 ≤ n → k ≤ n * k
at_least zero k h = absurd (omega arith)
at_least (suc n) k h = omega (arith, suc_mul n k)

pub zero_mul : (sm : ℤ) → pos 0 *ℤ sm ≡ pos 0
unfolding ◌*ℤ◌
zero_mul (pos n) = ground arith
zero_mul (negsuc n) = ground arith

-- A single copy.
pub copies_one : (sm : ℤ) (offsets : List ℤ) → copies 0 1 sm offsets ≡ offsets
copies_one sm offsets =
    append-nil (map (λ o. pos 0 *ℤ sm +ℤ o) offsets)
    ∙ ap (λ z. map (λ o. z +ℤ o) offsets) (zero_mul sm)
    ∙ map_zero offsets

-- The elements of the inner dimensions come first, when no outer dimension is empty.
pub take-section_of :
    (k : ℕ) (offsets : List ℤ) (ds : List Dim)
    → All (λ d. 1 ≤ d.extent) ds
    → k ≤ length offsets
    → take k (section_of offsets ds) ≡ take k offsets
take-section_of k offsets [] solid h = refl
take-section_of k offsets (d ∷ ds) (here, solid) h =
    take-section_of k (copies 0 d.extent d.sm offsets) ds solid longer
    ∙ sym (take-take k (length offsets) (copies 0 d.extent d.sm offsets) h)
    ∙ ap (take k) first
  where
    longer : k ≤ length (copies 0 d.extent d.sm offsets)
    longer =
        grind
          (arith, length-copies 0 d.extent d.sm offsets, at_least d.extent (length offsets) here)

    first : take (length offsets) (copies 0 d.extent d.sm offsets) ≡ offsets
    first =
        ap (λ n. take n (copies 0 d.extent d.sm offsets)) (sym (one_mul (length offsets)))
        ∙ take-copies 0 1 d.extent d.sm offsets here
        ∙ copies_one d.sm offsets
