-- ===== src/Check/Contains.antt =====
-- mpif_check_contains: the search finds the needle exactly where it is.
use mpif.Prelude.{
  ℕ, suc, ◌≤◌, ◌≡◌, inl, inr, ◌↔◌, refl, ap, Bool, true, false, ◌&&◌, arith, leb, ◌==◌,
  if◌then◌else◌, Bool-cases, List, [], ◌∷◌, ◌++◌, map, length, length-append, ==_iff,
}
use mpif.Machine.{Bytes}
use mpif.Check.{tolower, matches_here, contains_from, mpif_check_contains}

-- The needle stands in the haystack, without regard to case.
pub record IsFound (haystack needle : Bytes) : Type 0 where
  pub before : Bytes
  pub after : Bytes
  pub split : map tolower haystack ≡ before ++ (map tolower needle ++ after)

matches_here-split :
    (haystack needle : Bytes)
    → matches_here haystack needle ≡ true
    → (after : Bytes) × (map tolower haystack ≡ map tolower needle ++ after)
unfolding matches_here
matches_here-split haystack [] h = (map tolower haystack, refl)
matches_here-split [] (n ∷ needle) h = absurd (ground arith)
matches_here-split (x ∷ haystack) (n ∷ needle) h =
    let same : tolower x ≡ tolower n =
      (==_iff (tolower x) (tolower n)).0
        (and_left (tolower x == tolower n) (matches_here haystack needle) h) in
    let (after, e) =
      matches_here-split haystack needle
        (and_right (tolower x == tolower n) (matches_here haystack needle) h) in
    (after, λ i. same i ∷ e i)
  where
    and_left : (a b : Bool) → (a && b) ≡ true → a ≡ true
    and_left a b h = ground arith

    and_right : (a b : Bool) → (a && b) ≡ true → b ≡ true
    and_right a b h = ground arith

length-tolower : (s : Bytes) → length (map tolower s) ≡ length s
length-tolower [] = refl
length-tolower (c ∷ s) = ap suc (length-tolower s)

head_eq : {x y : ℕ} {xs ys : List ℕ} → x ∷ xs ≡ y ∷ ys → x ≡ y
head_eq h = cc

tail_eq : {x y : ℕ} {xs ys : List ℕ} → x ∷ xs ≡ y ∷ ys → xs ≡ ys
tail_eq h = cc

matches_here-true :
    (haystack needle after : Bytes)
    → map tolower haystack ≡ map tolower needle ++ after
    → matches_here haystack needle ≡ true
unfolding matches_here
matches_here-true haystack [] after e = refl
matches_here-true [] (n ∷ needle) after e = absurd (cc)
matches_here-true (x ∷ haystack) (n ∷ needle) after e =
    rw ((==_iff (tolower x) (tolower n)).1 (head_eq e))
      (matches_here-true haystack needle after (tail_eq e))

contains_from-IsFound :
    (haystack needle : Bytes) → contains_from haystack needle ≡ true → IsFound haystack needle
unfolding contains_from matches_here
contains_from-IsFound [] [] h = record { before = []; after = []; split = refl }
contains_from-IsFound [] (n ∷ needle) h = absurd (ground arith)
contains_from-IsFound (x ∷ haystack) needle h =
    elim (Bool-cases (leb (length needle) (length (x ∷ haystack)))) [
      | inr short ↦ absurd (ground arith)
      | inl room ↦ elim (Bool-cases (matches_here (x ∷ haystack) needle)) [
        | inl here ↦
            let (after, e) = matches_here-split (x ∷ haystack) needle here in
            record { before = []; after = after; split = e }
        | inr there ↦
            let found = contains_from-IsFound haystack needle (ground arith) in
            record {
              before = tolower x ∷ found.before;
              after = found.after;
              split = ap (◌∷◌ (tolower x)) found.split;
            }
      ]
    ]

either : (b : Bool) → (if b then true else true) ≡ true
either true = refl
either false = refl

-- The needle fits where it is found.
fits :
    (haystack needle before after : Bytes)
    → map tolower haystack ≡ before ++ (map tolower needle ++ after)
    → leb (length needle) (length haystack) ≡ true
fits haystack needle before after e = ground (arith, le)
  where
    le : length needle ≤ length haystack
    le = omega (
      arith,
      length-tolower haystack,
      length-tolower needle,
      ap length e,
      length-append before (map tolower needle ++ after),
      length-append (map tolower needle) after,
    )

contains_from-true :
    (haystack needle before after : Bytes)
    → map tolower haystack ≡ before ++ (map tolower needle ++ after)
    → contains_from haystack needle ≡ true
unfolding contains_from matches_here
contains_from-true [] [] before after e = refl
contains_from-true [] (n ∷ needle) [] after e = absurd (cc)
contains_from-true [] (n ∷ needle) (y ∷ before) after e = absurd (cc)
contains_from-true (x ∷ haystack) needle [] after e =
    let here = matches_here-true (x ∷ haystack) needle after e in
    let room : leb (length needle) (length (x ∷ haystack)) ≡ true =
      fits (x ∷ haystack) needle [] after e in
    rw (room, here) refl
contains_from-true (x ∷ haystack) needle (y ∷ before) after e =
    let later = contains_from-true haystack needle before after (tail_eq e) in
    let room : leb (length needle) (length (x ∷ haystack)) ≡ true =
      fits (x ∷ haystack) needle (y ∷ before) after e in
    rw (room, later) (either (matches_here (x ∷ haystack) needle))

-- The search answers 1 just if the needle, without regard to case, stands in the haystack.
pub check_contains_iff :
    (haystack needle : Bytes)
    → (mpif_check_contains haystack needle ≡ true) ↔ IsFound haystack needle
unfolding mpif_check_contains
check_contains_iff haystack needle = (
  contains_from-IsFound haystack needle,
  λ f. contains_from-true haystack needle f.before f.after f.split,
)
