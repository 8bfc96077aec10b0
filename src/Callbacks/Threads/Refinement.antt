-- ===== src/Callbacks/Threads/Refinement.antt =====
-- The pool with threads does what a register of owners does.
use mpif.Prelude.{
  ℕ, zero, suc, ◌≡◌, ◌≢◌, refl, sym, ap, ◌∙◌, subst, true, false, none, some, ◌==◌, ◌⊎◌, arith, inl,
  inr, Bool-cases, ==_iff, true≢false,
}
use mpif.Callbacks.Predefined.{Procedure, null}
use mpif.Callbacks.Threads.{
  update, Pool, Pc, idle, claiming, storing, holding, clearing, full, set_in_use, set_fn, Move,
  reserve, occupied, exchange, give_up, store, cancel, release, System, Step, pick, initial, Reach,
  start, later,
}
use mpif.Callbacks.Threads.Register.{
  Owners, Changes, stay, take, give, is_owned, slot_of, Stored, Shows, update_self, at_update,
  Stored-set_fn, ==-false,
}

-- The slot of a call that holds one is not that of another call.
module _ {s : System} {o : Owners} (shows : Shows s o) (c : ℕ) where
  open shows use {used, owner, owned, stored}

  others_slot : (d i : ℕ) → d ≢ c → slot_of (s.pc c) ≡ some i → slot_of (s.pc d) ≢ some i
  others_slot d i ne own is = ne (ground (arith, owner d i is, owner c i own))

  -- The pool and the call after the step, if the other calls are not concerned.
  module _ (pool : Pool) (p : Pc) (after : Owners) where
    Shows-after :
        ((j : ℕ) → pool.in_use j ≡ is_owned (after j))
        → ((j : ℕ) → slot_of p ≡ some j → after j ≡ some c)
        → ((d j : ℕ) → d ≢ c → slot_of (s.pc d) ≡ some j → after j ≡ some d)
        → ((j d : ℕ)
            → after j ≡ some d
            → ((d ≡ c) × (slot_of p ≡ some j)) ⊎ ((d ≢ c) × (slot_of (s.pc d) ≡ some j)))
        → Stored pool p
        → ((d : ℕ) → d ≢ c → Stored pool (s.pc d))
        → Shows (record { pool = pool; pc = update s.pc c p }) after
    Shows-after uses own others has keeps keep = record {
      used = uses;
      owned = λ j d is. elim (has j d is) [
        | inl (same, at) ↦ rw ((==_iff d c).1 same) at
        | inr (other, at) ↦ rw (==-false d c other) at
      ];
      owner =
          at_update (λ d q. (j : ℕ) → slot_of q ≡ some j → after j ≡ some d) s.pc c p own
            (λ d ne j. others d j ne);
      stored = at_update (λ d q. Stored pool q) s.pc c p keeps keep;
    }

  -- The slot stays the call's.
  kept_slot :
      (pool : Pool) (p : Pc)
      → ((j : ℕ) → pool.in_use j ≡ s.pool.in_use j)
      → slot_of p ≡ slot_of (s.pc c)
      → Stored pool p
      → ((d : ℕ) → d ≢ c → Stored pool (s.pc d))
      → Shows (record { pool = pool; pc = update s.pc c p }) o
  kept_slot pool p same slot keeps keep =
      Shows-after pool p o (λ j. same j ∙ used j) (λ j is. owner c j (sym slot ∙ is))
        (λ d j ne. owner d j)
        (λ j d is. elim (Bool-cases (d == c)) [
          | inl same ↦
              let here = (==_iff d c).0 same in
              inl (here, slot ∙ subst (λ e. slot_of (s.pc e) ≡ some j) here (owned j d is))
          | inr other ↦ inr (λ e. true≢false ((==_iff d c).1 e) other, owned j d is)
        ])
        keeps keep

  -- A store to the call's own slot.
  stored_slot :
      (i : ℕ) (v : Procedure) (p : Pc)
      → slot_of (s.pc c) ≡ some i
      → slot_of p ≡ some i
      → Stored (set_fn s.pool i v) p
      → Shows (record { pool = set_fn s.pool i v; pc = update s.pc c p }) o
  stored_slot i v p own slot keeps =
      kept_slot (set_fn s.pool i v) p (λ j. refl) (slot ∙ sym own) keeps
        (λ d ne. Stored-set_fn s.pool (s.pc d) i v (others_slot d i ne own) (stored d))

  taken_slot :
      (i : ℕ) (callback : Procedure)
      → slot_of (s.pc c) ≡ none
      → s.pool.in_use i ≡ false
      → Shows
          (record { pool = set_in_use s.pool i true; pc = update s.pc c (storing callback i) })
          (update o i (some c))
  taken_slot i callback free unused =
      Shows-after (set_in_use s.pool i true) (storing callback i) (update o i (some c))
        (λ j. ground (arith, used j)) (λ j is. ground arith)
        (λ d j ne is. ground (arith, used i, used j, owner d j is))
        (λ j d is. elim (Bool-cases (j == i)) [
          | inl same ↦ inl (ground (arith, is, same), ground (arith, same))
          | inr other ↦
              let at = owned j d (ground (arith, is, other)) in
              inr (
                λ e.
                    let mine = subst (λ x. slot_of (s.pc x) ≡ some j) e at in
                    ground (arith, mine, free),
                at,
              )
        ])
        tt (λ d ne. stored d)

  given_slot :
      (i : ℕ)
      → slot_of (s.pc c) ≡ some i
      → Shows
          (record { pool = set_in_use s.pool i false; pc = update s.pc c idle })
          (update o i none)
  given_slot i own =
      Shows-after (set_in_use s.pool i false) idle (update o i none) (λ j. ground (arith, used j))
        (λ j is. absurd (cc)) (λ d j ne is. ground (arith, owner d j is, owner c i own))
        (λ j d is. elim (Bool-cases (j == i)) [
          | inl same ↦ absurd (ground (arith, is, same))
          | inr other ↦
              let at = owned j d (ground (arith, is, other)) in
              inr (
                λ e.
                    let mine = subst (λ x. slot_of (s.pc x) ≡ some j) e at in
                    ground (arith, mine, own, other),
                at,
              )
        ])
        tt (λ d ne. stored d)

  Move-Shows :
      {n : ℕ} {p0 p : Pc} {pool : Pool}
      → s.pc c ≡ p0
      → Move n s.pool p0 pool p
      → (after : Owners) × Changes n o after
        × Shows (record { pool = pool; pc = update s.pc c p }) after
  Move-Shows e (reserve callback) = (
    o,
    stay,
    kept_slot s.pool (claiming callback zero) (λ j. refl) (sym (ap slot_of e)) tt
        (λ d ne. stored d),
  )
  Move-Shows e (occupied {callback} {i} within used_) = (
    o,
    stay,
    kept_slot s.pool (claiming callback (suc i)) (λ j. refl) (sym (ap slot_of e)) tt
        (λ d ne. stored d),
  )
  Move-Shows e (exchange {callback} {i} within unused) = (
    update o i (some c),
    take i c within (ground (arith, used i)),
    taken_slot i callback (ap slot_of e) unused,
  )
  Move-Shows e (give_up end) =
      (o, stay, kept_slot s.pool full (λ j. refl) (sym (ap slot_of e)) tt (λ d ne. stored d))
  Move-Shows e (store {callback} {i}) = (
    o,
    stay,
    stored_slot i callback (holding callback i) (ap slot_of e) refl
        (update_self s.pool.fn i callback),
  )
  Move-Shows e (cancel {callback} {i}) =
      (o, stay, stored_slot i null (clearing i) (ap slot_of e) refl tt)
  Move-Shows e (release {i}) =
      (update o i none, give i c (owner c i (ap slot_of e)), given_slot i (ap slot_of e))

-- Every step of a call is a step of the register: it takes a free slot for the call, gives the call's
-- slot back, or leaves the register as it is.
pub Step-Shows :
    {n : ℕ} {s t : System} {o : Owners}
    → Shows s o
    → Step n s t
    → (after : Owners) × Changes n o after × Shows t after
Step-Shows shows (pick c move) = Move-Shows shows c refl move

pub data Registers (n : ℕ) : Owners → Type 0 where
  nobody : Registers n (λ j. none)
  changed : {o after : Owners} → Registers n o → Changes n o after → Registers n after

initial-Shows : Shows initial (λ j. none)
initial-Shows = record {
  used = λ j. refl;
  owner = λ c j is. absurd (cc);
  owned = λ j c is. absurd (cc);
  stored = λ c. tt;
}

-- However the threads interleave, the pool shows a register of owners that was reached by taking free
-- slots and giving owned ones back: a slot is in use just if a call owns it, a call owns a slot just
-- if it is past the exchange and not yet through with the cancel of that slot, and a call that has
-- its reservation finds its procedure in its slot.
pub Reach-Registers : {n : ℕ} {s : System} → Reach n s → (o : Owners) × Registers n o × Shows s o
Reach-Registers start = (λ j. none, nobody, initial-Shows)
Reach-Registers (later reach step) =
    let (o, registers, shows) = Reach-Registers reach in
    let (after, changes, showing) = Step-Shows shows step in
    (after, changed registers changes, showing)

-- In every reachable state, a slot that a call has got holds the procedure that the call was given,
-- and no other call has got that slot, or is about to store to it or to clear it.
pub Reach-apart :
    {n : ℕ} {s : System}
    → Reach n s
    → (c d i : ℕ) (callback : Procedure) → s.pc c ≡ holding callback i
    → slot_of (s.pc d) ≡ some i
    → (s.pool.fn i ≡ callback) × (d ≡ c)
Reach-apart {s} reach c d i callback here also =
    let (o, registers, shows) = Reach-Registers reach in
    (
      subst (Stored s.pool) here (shows.stored c),
      ground (arith, shows.owner d i also, shows.owner c i (ap slot_of here)),
    )
