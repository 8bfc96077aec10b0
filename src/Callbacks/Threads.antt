-- ===== src/Callbacks/Threads.antt =====
-- src/mpif_callbacks.c, mpif_op_reserve and mpif_op_cancel with calls of several threads interleaved;
-- the accesses of mpif_errhandler_reserve, for a known kind, and mpif_errhandler_cancel are the same,
-- on 64 slots. A step is one access to `op_slots`: the compare-exchange of a slot, the store of its
-- procedure, and the two stores of a cancel. The accesses of a slot are ordered by its atomic
-- `in_use`, so that steps in some order stand for what the threads do. A call is a number, with the
-- reservation that it has made until that is cancelled.
pub mod Register
pub mod Refinement
pub mod Progress
mod Tests
use mpif.Prelude.{
  ℕ, zero, suc, ◌<◌, ◌≡◌, Bool, true, false, Option, none, some, ◌==◌, if◌then◌else◌,
}
use mpif.Callbacks.Predefined.{Procedure, null}

abbrev pub update {ℓ} : {A : Type ℓ} → (ℕ → A) → ℕ → A → ℕ → A
update f i v j = if j == i then v else f j

-- `op_slots`
pub record Pool : Type 0 where
  pub in_use : ℕ → Bool
  pub fn : ℕ → Procedure

-- Where a call stands: before slot `i` of the loop, before the store of the procedure, with a
-- reservation, between the two stores of the cancel, and without room.
pub data Pc : Type 0 where
  idle : Pc
  claiming : Procedure → ℕ → Pc
  storing : Procedure → ℕ → Pc
  holding : Procedure → ℕ → Pc
  clearing : ℕ → Pc
  full : Pc

abbrev pub set_in_use : Pool → ℕ → Bool → Pool
set_in_use pool i used = record pool { in_use = update pool.in_use i used }

abbrev pub set_fn : Pool → ℕ → Procedure → Pool
set_fn pool i callback = record pool { fn = update pool.fn i callback }

-- A step of one call, with `n` slots.
pub data Move (n : ℕ) (pool : Pool) : Pc → Pool → Pc → Type 0 where
  reserve : (callback : Procedure) → Move n pool idle pool (claiming callback zero)
  occupied :
      {callback : Procedure} {i : ℕ}
      → i < n
      → pool.in_use i ≡ true
      → Move n pool (claiming callback i) pool (claiming callback (suc i))
  exchange :
      {callback : Procedure} {i : ℕ}
      → i < n
      → pool.in_use i ≡ false
      → Move n pool (claiming callback i) (set_in_use pool i true) (storing callback i)
  give_up : {callback : Procedure} {i : ℕ} → i ≡ n → Move n pool (claiming callback i) pool full
  store :
      {callback : Procedure} {i : ℕ}
      → Move n pool (storing callback i) (set_fn pool i callback) (holding callback i)
  cancel :
      {callback : Procedure} {i : ℕ}
      → Move n pool (holding callback i) (set_fn pool i null) (clearing i)
  release : {i : ℕ} → Move n pool (clearing i) (set_in_use pool i false) idle

-- The pool and every call; any call may take the next step.
pub record System : Type 0 where
  pub pool : Pool
  pub pc : ℕ → Pc

pub data Step (n : ℕ) (s : System) : System → Type 0 where
  pick :
      (c : ℕ) {pool : Pool} {p : Pc}
      → Move n s.pool (s.pc c) pool p
      → Step n s (record { pool = pool; pc = update s.pc c p })

abbrev pub initial : System
initial = record { pool = record { in_use = λ i. false; fn = λ i. null }; pc = λ c. idle }

pub data Reach (n : ℕ) : System → Type 0 where
  start : Reach n initial
  later : {s t : System} → Reach n s → Step n s t → Reach n t
