-- ===== src/Check/Together/Ring.antt =====
-- The token ring: whom a process sends to and hears, and what it concludes.
use mpif.Prelude.{
  ℕ, zero, suc, ◌+◌, ◌-◌, ◌%◌, ◌<◌, ◌≡◌, refl, sym, ap, ◌∙◌, false, ◌==◌, arith, lt_or_le, inl, inr,
  ==_refl,
}
use native.Mathlib.Nat.{mod-eq_of_lt, mod_self, add-mod_right}
use mpif.Machine.{Run, ok}
use mpif.Check.Together.{right_of, left_of, check_ring}

right_of_inner : (size rank : ℕ) → rank + 1 < size → right_of size rank ≡ ok (rank + 1)
unfolding right_of
right_of_inner size rank lt =
    let some_ : (size == 0) ≡ false = ground arith in rw (some_, right_of) (ap ok (mod-eq_of_lt lt))

right_of_last : (size rank : ℕ) → rank + 1 ≡ size → right_of size rank ≡ ok 0
unfolding right_of
right_of_last size rank is =
    let some_ : (size == 0) ≡ false = ground arith in
    rw (some_, right_of) (ap ok (ap (◌% size) is ∙ mod_self size))

left_of_inner : (size rank : ℕ) → rank + 1 < size → left_of size (rank + 1) ≡ ok rank
unfolding left_of
left_of_inner size rank lt =
    let some_ : (size == 0) ≡ false = ground arith in
    let same : rank + 1 + size - 1 ≡ rank + size = omega arith in
    rw (some_, left_of)
      (ap ok (ap (◌% size) same ∙ (add-mod_right rank size ∙ mod-eq_of_lt (omega (arith, lt)))))

left_of_first : (size rank : ℕ) → rank + 1 ≡ size → left_of size 0 ≡ ok rank
unfolding left_of
left_of_first size rank is =
    let some_ : (size == 0) ≡ false = ground arith in
    let same : 0 + size - 1 ≡ rank = omega (arith, is) in
    rw (some_, left_of) (ap ok (ap (◌% size) same ∙ mod-eq_of_lt (omega (arith, is))))

-- The neighbours of a process: each hears the one that sends to it.
pub record Neighbours (size rank : ℕ) : Type 0 where
  pub right : ℕ
  pub left : ℕ
  pub sends : right_of size rank ≡ ok right
  pub hears : left_of size rank ≡ ok left
  pub heard : left_of size right ≡ ok rank
  pub sent : right_of size left ≡ ok rank
  pub within : (right < size) × (left < size)

right_neighbour :
    (size rank : ℕ)
    → rank < size
    → (right : ℕ) × (right_of size rank ≡ ok right)
      × (left_of size right ≡ ok rank)
      × (right < size)
right_neighbour size rank lt = elim (lt_or_le (rank + 1) size) [
  | inl inner ↦ (
    rank + 1,
    right_of_inner size rank inner,
    left_of_inner size rank inner,
    omega (arith, inner),
  )
  | inr last ↦
      let is : rank + 1 ≡ size = omega (arith, lt, last) in
      (0, right_of_last size rank is, left_of_first size rank is, omega (arith, lt))
]

left_neighbour :
    (size rank : ℕ)
    → rank < size
    → (left : ℕ) × (left_of size rank ≡ ok left) × (right_of size left ≡ ok rank) × (left < size)
left_neighbour (suc n) zero lt =
    (n, left_of_first (suc n) n (omega arith), right_of_last (suc n) n (omega arith), omega arith)
left_neighbour size (suc rank) lt = elim (lt_or_le (rank + 1) size) [
  | inl inner ↦ (
    rank,
    ap (left_of size) same ∙ left_of_inner size rank inner,
    right_of_inner size rank inner ∙ ap ok (sym same),
    omega (arith, lt),
  )
  | inr last ↦ absurd (omega (arith, lt, last))
]
  where
    same : suc rank ≡ rank + 1
    same = omega arith
left_neighbour zero zero lt = absurd (omega (arith, lt))

pub rank-Neighbours : (size rank : ℕ) → rank < size → Neighbours size rank
rank-Neighbours size rank lt =
    let (right, sends, heard, right_lt) = right_neighbour size rank lt in
    let (left, hears, sent, left_lt) = left_neighbour size rank lt in
    record {
      right = right;
      left = left;
      sends = sends;
      hears = hears;
      heard = heard;
      sent = sent;
      within = (right_lt, left_lt);
    }

module _ (size : ℕ) (sendrecv : ℕ → ℕ → ℕ → ℕ → Run ℕ) where
  -- A message from `q` reaches `p` where `q` sends to `p` and `p` hears `q`, with the token of `q`.
  abbrev pub Delivers : Type 0
  Delivers = (p q to : ℕ) → p < size → q < size → right_of size q ≡ ok p → sendrecv p p to q ≡ ok q

  -- Where MPI delivers a message to the process that it was sent to, every process of the ring
  -- receives the token that it expects, and passes.
  pub check_ring-Delivers :
      Delivers → (rank : ℕ) → rank < size → check_ring (sendrecv rank) size rank ≡ ok tt
  unfolding check_ring
  check_ring-Delivers delivers rank lt =
      let near = rank-Neighbours size rank lt in
      let gets = delivers rank near.left near.right lt near.within.1 near.sent in
      rw (near.sends, near.hears, gets, ==_refl near.left, check_ring) refl
