-- ===== src/Callbacks/Threads/Tests.antt =====
-- Two calls over two slots, interleaved.
use mpif.Prelude.{ℕ, ◌≤◌, ◌≡◌, refl, ◌⊎◌, false, arith}
use mpif.Callbacks.Predefined.{Procedure, user}
use mpif.Callbacks.Threads.{
  Pool, Pc, Move, reserve, occupied, exchange, store, System, pick, Reach, start, later,
}
use mpif.Callbacks.Threads.Register.{Owners, Shows}
use mpif.Callbacks.Threads.Refinement.{Registers, Reach-Registers, Reach-apart}
use mpif.Callbacks.Threads.Progress.{is_reserving, Run, none_yet, own, other, reserve_returns}

abbrev sum_fn : Procedure
sum_fn = user 7

abbrev max_fn : Procedure
max_fn = user 8

-- Both calls enter; the first gets slot 0, the second finds it in use and gets slot 1, and stores first.
abbrev entered : (s : System) × Reach 2 s
entered = (_, later (later start (pick 0 (reserve sum_fn))) (pick 1 (reserve max_fn)))

abbrev both_hold : (s : System) × Reach 2 s
both_hold = (
  _,
  later
      (later
        (later
          (later (later entered.1 (pick 0 (exchange (omega arith) refl)))
            (pick 1 (occupied (omega arith) refl)))
          (pick 1 (exchange (omega arith) refl)))
        (pick 1 store))
      (pick 0 store),
)

both_hold_test : (both_hold.0.pool.fn 0 ≡ sum_fn) × (both_hold.0.pool.fn 1 ≡ max_fn)
both_hold_test = (refl, refl)

Reach-Registers_example : (o : Owners) × Registers 2 o × Shows both_hold.0 o
Reach-Registers_example = Reach-Registers both_hold.1

Reach-apart_example : (both_hold.0.pool.fn 1 ≡ max_fn) × (◌≡◌ {A = ℕ} 1 1)
Reach-apart_example = Reach-apart both_hold.1 1 1 1 max_fn refl refl

-- The second call's three steps inside, with one of the first in between.
abbrev second_call : (t : System) × Run 2 1 entered.0 t 3
second_call = (
  _,
  own
      (own
        (own (other 0 none_yet (λ e. cc) (exchange (omega arith) refl)) refl
          (occupied (omega arith) refl))
        refl (exchange (omega arith) refl))
      refl store,
)

reserve_returns_example :
    (3 ≤ 3)
    × ((is_reserving (second_call.0.pc 1) ≡ false)
        ⊎ ((after : Pool) × (q : Pc) × Move 2 second_call.0.pool (second_call.0.pc 1) after q))
reserve_returns_example = reserve_returns max_fn entered.1 refl second_call.1
