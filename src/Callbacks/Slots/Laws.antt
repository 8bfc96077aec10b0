-- ===== src/Callbacks/Slots/Laws.antt =====
-- The pools: a claimed slot belongs to one procedure until it is released.
use mpif.Prelude.{
  ℕ, zero, suc, ◌<◌, ◌≡◌, ◌≢◌, ◌⊎◌, inl, inr, refl, ap, true, false, Option, none, some, List, [],
  ◌∷◌, arith, leb, length, get_elem?, set, replicate, Bool-cases, Option-cases, All, length-set,
  get_elem?-set_ne,
}
use mpif.Prelude.Int.{ℤ, pos, negsuc}
use mpif.Callbacks.Predefined.{Procedure, null}
use mpif.Callbacks.Slots.{Slot, free_slot, taken, claim, release, fn_of}

-- What a claim does: `i` is the first slot that was free, it is taken by the procedure now, and
-- every other slot is as it was.
pub record Claimed (slots : List Slot) (callback : Procedure) (i : ℕ) (after : List Slot)
    : Type 0 where
  pub within : i < length slots
  pub same_length : length after ≡ length slots
  pub was_free : (s : Slot) → get_elem? slots i ≡ some s → s.in_use ≡ false
  pub first : (j : ℕ) (s : Slot) → j < i → get_elem? slots j ≡ some s → s.in_use ≡ true
  pub is_taken : get_elem? after i ≡ some (taken callback)
  pub others : (j : ℕ) → j ≢ i → get_elem? after j ≡ get_elem? slots j

Claimed-here :
    (s : Slot) (slots : List Slot) (callback : Procedure)
    → s.in_use ≡ false
    → Claimed (s ∷ slots) callback 0 (taken callback ∷ slots)
Claimed-here s slots callback is_free = record {
  within = omega arith;
  same_length = refl;
  was_free = λ t e. ground arith;
  first = λ j t h. absurd (omega arith);
  is_taken = refl;
  others = others;
}
  where
    others : (j : ℕ) → j ≢ 0 → get_elem? (taken callback ∷ slots) j ≡ get_elem? (s ∷ slots) j
    others zero h = absurd (h refl)
    others (suc j) h = refl

Claimed-later :
    (s : Slot) {slots after : List Slot} {callback : Procedure} {i : ℕ}
    → s.in_use ≡ true
    → Claimed slots callback i after
    → Claimed (s ∷ slots) callback (suc i) (s ∷ after)
Claimed-later s {slots} {after} {i = i} used c = record {
  within = omega (arith, c.within);
  same_length = ap suc c.same_length;
  was_free = c.was_free;
  first = first;
  is_taken = c.is_taken;
  others = others;
}
  where
    first : (j : ℕ) (t : Slot) → j < suc i → get_elem? (s ∷ slots) j ≡ some t → t.in_use ≡ true
    first zero t h e = ground arith
    first (suc j) t h e = c.first j t (omega arith) e

    others : (j : ℕ) → j ≢ suc i → get_elem? (s ∷ after) j ≡ get_elem? (s ∷ slots) j
    others zero h = refl
    others (suc j) h = c.others j (λ e. h (ap suc e))

abbrev pub IsFull : List Slot → Type 0
IsFull slots = (j : ℕ) (s : Slot) → get_elem? slots j ≡ some s → s.in_use ≡ true

IsFull-cons : (s : Slot) (slots : List Slot) → s.in_use ≡ true → IsFull slots → IsFull (s ∷ slots)
IsFull-cons s slots used full zero t e = ground arith
IsFull-cons s slots used full (suc j) t e = full j t e

-- The two outcomes of the search.
abbrev pub Outcome : List Slot → Procedure → Option (ℕ × List Slot) → Type 0
Outcome slots callback r =
    ((r ≡ none) × IsFull slots)
    ⊎ ((i : ℕ) × (after : List Slot) × (r ≡ some (i, after)) × Claimed slots callback i after)

claim-cons_used :
    (s : Slot) (slots : List Slot) (callback : Procedure)
    → s.in_use ≡ true
    → Outcome slots callback (claim slots callback)
    → Outcome (s ∷ slots) callback (claim (s ∷ slots) callback)
unfolding claim
claim-cons_used s slots callback used (inl (none_free, full)) =
    inl (rw (used, none_free), IsFull-cons s slots used full)
claim-cons_used s slots callback used (inr (i, after, e, c)) =
    inr (suc i, s ∷ after, rw (used, e), Claimed-later s used c)

pub claim-Outcome :
    (slots : List Slot) (callback : Procedure) → Outcome slots callback (claim slots callback)
unfolding claim
claim-Outcome [] callback = inl (refl, λ j s e. absurd (cc))
claim-Outcome (s ∷ slots) callback =
    let rest = claim-Outcome slots callback in
    elim (Bool-cases s.in_use) [
      | inl used ↦ claim-cons_used s slots callback used rest
      | inr is_free ↦
          inr (0, taken callback ∷ slots, rw is_free, Claimed-here s slots callback is_free)
    ]

-- `fn_of` is the field of the slot.
pub fn_of-get_elem? :
    (slots : List Slot) (i : ℕ) {s : Slot} → get_elem? slots i ≡ some s → fn_of slots i ≡ s.fn
unfolding fn_of
fn_of-get_elem? [] i e = absurd (cc)
fn_of-get_elem? (x ∷ slots) zero e = ground arith
fn_of-get_elem? (x ∷ slots) (suc i) e = fn_of-get_elem? slots i e

pub length-release : (slots : List Slot) (i : ℤ) → length (release slots i) ≡ length slots
unfolding release
length-release slots (negsuc n) = refl
length-release slots (pos i) = ground (arith, length-set slots i free_slot)

-- Only the slot that is named is released.
pub release_others :
    (slots : List Slot) (i : ℤ) (j : ℕ)
    → i ≢ pos j
    → get_elem? (release slots i) j ≡ get_elem? slots j
unfolding release
release_others slots (negsuc n) j h = refl
release_others slots (pos i) j h = elim (Bool-cases (leb (length slots) i)) [
  | inl outside ↦ rw outside
  | inr inside ↦ rw inside (get_elem?-set_ne slots i j free_slot (λ e. h (ap pos e)))
]

-- A free slot holds no procedure: the state at the start, kept by both operations.
abbrev pub IsClean : List Slot → Type 0
IsClean = All (λ s. s.in_use ≡ false → s.fn ≡ null)

pub IsClean-replicate : (n : ℕ) → IsClean (replicate n free_slot)
IsClean-replicate zero = tt
IsClean-replicate (suc n) = (λ e. refl, IsClean-replicate n)

IsClean-set : (slots : List Slot) (i : ℕ) → IsClean slots → IsClean (set slots i free_slot)
IsClean-set [] i h = tt
IsClean-set (s ∷ slots) zero h = (λ e. refl, h.1)
IsClean-set (s ∷ slots) (suc i) h = (h.0, IsClean-set slots i h.1)

pub release-IsClean : (slots : List Slot) (i : ℤ) → IsClean slots → IsClean (release slots i)
unfolding release
release-IsClean slots (negsuc n) h = h
release-IsClean slots (pos i) h = elim (Bool-cases (leb (length slots) i)) [
  | inl outside ↦ rw outside h
  | inr inside ↦ rw inside (IsClean-set slots i h)
]

claim_nil :
    (callback : Procedure) (i : ℕ) (after : List Slot) → claim [] callback ≡ some (i, after) → ⊥
unfolding claim
claim_nil callback i after e = cc

-- The two ways in which a search of `s` and the slots behind it can end.
abbrev Cons : Slot → List Slot → Procedure → ℕ → List Slot → Type 0
Cons s slots callback i after =
    ((s.in_use ≡ false) × (i ≡ 0) × (after ≡ taken callback ∷ slots))
    ⊎ ((j : ℕ) × (rest : List Slot) × (claim slots callback ≡ some (j, rest))
        × (i ≡ suc j)
        × (after ≡ s ∷ rest))

claim-Cons :
    (s : Slot) (slots : List Slot) (callback : Procedure) (i : ℕ) (after : List Slot)
    → claim (s ∷ slots) callback ≡ some (i, after)
    → Cons s slots callback i after
unfolding claim
claim-Cons s slots callback i after e = elim (Bool-cases s.in_use) [
  | inr is_free ↦ inl (is_free, ground arith, ground arith)
  | inl used ↦ elim (Option-cases (claim slots callback)) [
    | inl full ↦ absurd (ground arith)
    | inr ((j, rest), found) ↦ inr (j, rest, found, ground arith, ground arith)
  ]
]

pub claim-IsClean :
    (slots : List Slot) (callback : Procedure) (i : ℕ) (after : List Slot)
    → claim slots callback ≡ some (i, after)
    → IsClean slots
    → IsClean after
claim-IsClean [] callback i after e h = absurd (claim_nil callback i after e)
claim-IsClean (s ∷ slots) callback i after e h =
    go (claim-Cons s slots callback i after e)
      (λ j rest q. claim-IsClean slots callback j rest q h.1)
  where
    go :
        Cons s slots callback i after
        → ((j : ℕ) (rest : List Slot) → claim slots callback ≡ some (j, rest) → IsClean rest)
        → IsClean after
    go (inl (is_free, at, new)) ih = rw new ((λ e. cc), h.1)
    go (inr (j, rest, found, at, new)) ih = rw new (h.0, ih j rest found)

-- Putting a free slot at the place of one that was claimed gives back the slots.
set-claim :
    (slots : List Slot) (callback : Procedure) (i : ℕ) (after : List Slot)
    → IsClean slots
    → claim slots callback ≡ some (i, after)
    → set after i free_slot ≡ slots
set-claim [] callback i after h e = absurd (claim_nil callback i after e)
set-claim (s ∷ slots) callback i after h e =
    go (claim-Cons s slots callback i after e) (λ j rest q. set-claim slots callback j rest h.1 q)
  where
    was_free : s.in_use ≡ false → free_slot ≡ s
    was_free is_free = ground (arith, h.0 is_free)

    go :
        Cons s slots callback i after
        → ((j : ℕ) (rest : List Slot)
            → claim slots callback ≡ some (j, rest)
            → set rest j free_slot ≡ slots)
        → set after i free_slot ≡ s ∷ slots
    go (inl (is_free, at, new)) ih = rw (at, new) (ap (λ x. x ∷ slots) (was_free is_free))
    go (inr (j, rest, found, at, new)) ih = rw (at, new) (ap (◌∷◌ s) (ih j rest found))

-- Releasing what has just been claimed puts the pool back as it was.
pub release-claim :
    (slots : List Slot) (callback : Procedure) (i : ℕ) (after : List Slot)
    → IsClean slots
    → claim slots callback ≡ some (i, after)
    → i < length after
    → release after (pos i) ≡ slots
unfolding release
release-claim slots callback i after h e lt =
    let inside : leb (length after) i ≡ false = ground arith in
    rw inside (set-claim slots callback i after h e)
