-- ===== src/Callbacks/Threads/Register.antt =====
-- A register of owners: who has a slot of the pool, and what a state of the pool shows of it.
use mpif.Prelude.{
  ℕ, ◌<◌, ◌≡◌, ◌≢◌, refl, sym, ap, subst, Bool, true, false, Option, none, some, ◌==◌, inl, inr,
  Bool-cases, ==_iff, ==_refl, true≢false,
}
use mpif.Callbacks.Predefined.{Procedure}
use mpif.Callbacks.Threads.{
  update, Pool, Pc, idle, claiming, storing, holding, clearing, full, set_fn, System,
}

-- The abstract view: which call owns a slot. One that nobody owns may be taken by any call, and an
-- owned one given back by its owner.
abbrev pub Owners : Type 0
Owners = ℕ → Option ℕ

pub data Changes (n : ℕ) (o : Owners) : Owners → Type 0 where
  stay : Changes n o o
  take : (j c : ℕ) → j < n → o j ≡ none → Changes n o (update o j (some c))
  give : (j c : ℕ) → o j ≡ some c → Changes n o (update o j none)

abbrev pub is_owned : Option ℕ → Bool
is_owned none = false
is_owned (some c) = true

-- The slot of a call that has one.
abbrev pub slot_of : Pc → Option ℕ
slot_of idle = none
slot_of (claiming callback i) = none
slot_of (storing callback i) = some i
slot_of (holding callback i) = some i
slot_of (clearing i) = some i
slot_of full = none

-- What the slot holds for a call that has stored its procedure.
abbrev pub Stored : Pool → Pc → Type 0
Stored pool (holding callback i) = pool.fn i ≡ callback
Stored pool p = Unit

-- A state of the pool and of its calls shows a register of owners: a slot is in use just if it has an
-- owner, and a call owns a slot just if it is past the exchange and not through with the
-- cancel of that slot.
pub record Shows (s : System) (o : Owners) : Type 0 where
  pub used : (j : ℕ) → s.pool.in_use j ≡ is_owned (o j)
  pub owner : (c j : ℕ) → slot_of (s.pc c) ≡ some j → o j ≡ some c
  pub owned : (j c : ℕ) → o j ≡ some c → slot_of (s.pc c) ≡ some j
  pub stored : (c : ℕ) → Stored s.pool (s.pc c)

pub update_self {ℓ} : {A : Type ℓ} (f : ℕ → A) (i : ℕ) (v : A) → update f i v i ≡ v
update_self f i v = rw (==_refl i) refl

-- A property of all values of an updated function.
pub at_update {ℓ κ} :
    {A : Type ℓ} (P : ℕ → A → Type κ) (f : ℕ → A) (i : ℕ) (v : A)
    → P i v
    → ((j : ℕ) → j ≢ i → P j (f j))
    → (j : ℕ) → P j (update f i v j)
at_update P f i v here there j = elim (Bool-cases (j == i)) [
  | inl same ↦ rw same (subst (λ k. P k v) (sym ((==_iff j i).0 same)) here)
  | inr other ↦ rw other (there j (λ e. true≢false ((==_iff j i).1 e) other))
]

-- A store to a slot does not concern a call with another one.
pub Stored-set_fn :
    (pool : Pool) (p : Pc) (i : ℕ) (v : Procedure)
    → slot_of p ≢ some i
    → Stored pool p
    → Stored (set_fn pool i v) p
Stored-set_fn pool idle i v other h = tt
Stored-set_fn pool (claiming callback j) i v other h = tt
Stored-set_fn pool (storing callback j) i v other h = tt
Stored-set_fn pool (holding callback j) i v other h =
    let different : (j == i) ≡ false = elim (Bool-cases (j == i)) [
      | inl same ↦ absurd (other (ap some ((==_iff j i).0 same)))
      | inr no_ ↦ no_
    ] in
    rw different h
Stored-set_fn pool (clearing j) i v other h = tt
Stored-set_fn pool full i v other h = tt

pub ==-false : (i j : ℕ) → i ≢ j → (i == j) ≡ false
==-false i j ne = elim (Bool-cases (i == j)) [
  | inl same ↦ absurd (ne ((==_iff i j).0 same))
  | inr other ↦ other
]
