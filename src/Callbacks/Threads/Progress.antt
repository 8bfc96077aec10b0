-- ===== src/Callbacks/Threads/Progress.antt =====
-- mpif_op_reserve returns, whatever the other threads do.
use mpif.Prelude.{
  ℕ, zero, suc, ◌+◌, ◌-◌, ◌≤◌, ◌≡◌, ◌≢◌, refl, ap, ◌⊎◌, inl, inr, Bool, true, false, Bool-cases,
  lt_or_le, ◌==◌, arith, ==_iff,
}
use mpif.Callbacks.Predefined.{Procedure}
use mpif.Callbacks.Threads.{
  update, Pool, Pc, idle, claiming, storing, holding, clearing, full, Move, reserve, occupied,
  exchange, give_up, store, cancel, release, System, pick, Reach, start, later,
}
use mpif.Callbacks.Threads.Register.{at_update, update_self}

-- Inside mpif_op_reserve.
abbrev pub is_reserving : Pc → Bool
is_reserving idle = false
is_reserving (claiming callback i) = true
is_reserving (storing callback i) = true
is_reserving (holding callback i) = false
is_reserving (clearing i) = false
is_reserving full = false

-- Steps of its own that a call can still take inside.
abbrev remaining : ℕ → Pc → ℕ
remaining n idle = 0
remaining n (claiming callback i) = suc (n - i)
remaining n (storing callback i) = 1
remaining n (holding callback i) = 0
remaining n (clearing i) = 0
remaining n full = 0

-- Steps of the system, of which `k` are the call's own, taken inside.
pub data Run (n c : ℕ) (s : System) : System → ℕ → Type 0 where
  none_yet : Run n c s s zero
  own :
      {t : System} {k : ℕ} {pool : Pool} {p : Pc}
      → Run n c s t k
      → is_reserving (t.pc c) ≡ true
      → Move n t.pool (t.pc c) pool p
      → Run n c s (record { pool = pool; pc = update t.pc c p }) (suc k)
  other :
      {t : System} {k : ℕ} {pool : Pool} {p : Pc} (d : ℕ)
      → Run n c s t k
      → c ≢ d
      → Move n t.pool (t.pc d) pool p
      → Run n c s (record { pool = pool; pc = update t.pc d p }) k

update_ne : (f : ℕ → Pc) (i j : ℕ) (v : Pc) → j ≢ i → update f i v j ≡ f j
update_ne f i j v ne = elim (Bool-cases (j == i)) [
  | inl same ↦ absurd (ne ((==_iff j i).0 same))
  | inr different ↦ rw different refl
]

move_remaining :
    {n : ℕ} {pool after : Pool} {p q : Pc}
    → is_reserving p ≡ true
    → Move n pool p after q
    → suc (remaining n q) ≤ remaining n p
move_remaining inside (reserve callback) = absurd (cc)
move_remaining inside (occupied within used) = omega arith
move_remaining inside (exchange within unused) = omega arith
move_remaining inside (give_up end) = omega arith
move_remaining inside store = omega arith
move_remaining inside cancel = absurd (cc)
move_remaining inside release = absurd (cc)

Run-remaining :
    {n c : ℕ} {s t : System} {k : ℕ}
    → Run n c s t k
    → k + remaining n (t.pc c) ≤ remaining n (s.pc c)
Run-remaining none_yet = omega arith
Run-remaining {n} {c} (own {t} {k} {pool} {p} run inside move) =
    omega (
      arith,
      Run-remaining run,
      move_remaining inside move,
      ap (remaining n) (update_self t.pc c p),
    )
Run-remaining {n} {c} (other {t} {k} {pool} {p} d run ne move) =
    omega (arith, Run-remaining run, ap (remaining n) (update_ne t.pc d c p ne))

-- The loop stays within the slots.
abbrev Within : ℕ → Pc → Type 0
Within n (claiming callback i) = i ≤ n
Within n p = Unit

move_Within : {n : ℕ} {pool after : Pool} {p q : Pc} → Move n pool p after q → Within n q
move_Within (reserve callback) = omega arith
move_Within (occupied within used) = omega arith
move_Within (exchange within unused) = tt
move_Within (give_up end) = tt
move_Within store = tt
move_Within cancel = tt
move_Within release = tt

Reach-Within : {n : ℕ} {s : System} → Reach n s → (c : ℕ) → Within n (s.pc c)
Reach-Within start c = tt
Reach-Within {n} (later {s} reach (pick d {pool} {p} move)) c =
    at_update (λ e q. Within n q) s.pc d p (move_Within move) (λ e ne. Reach-Within reach e) c

Run-Reach : {n c : ℕ} {s t : System} {k : ℕ} → Reach n s → Run n c s t k → Reach n t
Run-Reach reach none_yet = reach
Run-Reach {c = c} reach (own run inside move) = later (Run-Reach reach run) (pick c move)
Run-Reach reach (other d run ne move) = later (Run-Reach reach run) (pick d move)

can_move :
    (n : ℕ) (pool : Pool) (p : Pc)
    → Within n p
    → (is_reserving p ≡ false) ⊎ ((after : Pool) × (q : Pc) × Move n pool p after q)
can_move n pool idle within = inl refl
can_move n pool (claiming callback i) within = elim (lt_or_le i n) [
  | inr end ↦ inr (_, _, give_up (omega arith))
  | inl more ↦ elim (Bool-cases (pool.in_use i)) [
    | inl used ↦ inr (_, _, occupied more used)
    | inr unused ↦ inr (_, _, exchange more unused)
  ]
]
can_move n pool (storing callback i) within = inr (_, _, store)
can_move n pool (holding callback i) within = inl refl
can_move n pool (clearing i) within = inl refl
can_move n pool full within = inl refl

-- A call that enters mpif_op_reserve takes at most one step more than there are slots before it has
-- returned, however many steps the other threads take in between; and until then it can always take
-- its next step. So it needs to wait for nobody.
pub reserve_returns :
    {n c k : ℕ} {s t : System} (callback : Procedure)
    → Reach n s
    → s.pc c ≡ claiming callback zero
    → Run n c s t k
    → (k ≤ suc n)
      × ((is_reserving (t.pc c) ≡ false)
          ⊎ ((after : Pool) × (q : Pc) × Move n t.pool (t.pc c) after q))
reserve_returns {n} {c} {t = t} callback reach entered run = (
  omega (arith, Run-remaining run, ap (remaining n) entered),
  can_move n t.pool (t.pc c) (Reach-Within (Run-Reach reach run) c),
)
