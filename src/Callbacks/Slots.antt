-- ===== src/Callbacks/Slots.antt =====
-- src/mpif_callbacks.c: what the pools of reduction operators and of error handlers share. A slot is
-- claimed by a compare-exchange of `in_use`, which takes the first free one.
pub mod Laws
pub mod History
use mpif.Prelude.{
  ℕ, zero, suc, ◌+◌, ◌≡◌, Bool, true, false, Option, none, some, List, [], ◌∷◌, leb, if◌then◌else◌,
  length, get_elem?, set, replicate,
}
use mathlib.Core.Option
use mpif.Prelude.Int.{ℤ, pos, negsuc}
use mpif.Callbacks.Predefined.{Procedure, null}

-- `struct op_slot` and `struct errhandler_slot`
pub record Slot : Type 0 where
  pub in_use : Bool
  pub fn : Procedure

abbrev pub free_slot : Slot
free_slot = record { in_use = false; fn = null }

abbrev pub taken : Procedure → Slot
taken callback = record { in_use = true; fn = callback }

-- The index that the loop stops at, and the slots after it; none if every slot is in use.
unfoldable pub claim : List Slot → Procedure → Option (ℕ × List Slot)
claim [] callback = none
claim (s ∷ slots) callback =
    if s.in_use
    then Option.map (λ (i, rest). (suc i, s ∷ rest)) (claim slots callback)
    else some (0, taken callback ∷ slots)

-- `slot < 0 || slot >= n` is left alone.
unfoldable pub release : List Slot → ℤ → List Slot
release slots (negsuc n) = slots
release slots (pos i) = if leb (length slots) i then slots else set slots i free_slot

-- The procedure that the trampoline of slot `i` finds.
unfoldable pub fn_of : List Slot → ℕ → Procedure
fn_of [] i = null
fn_of (s ∷ slots) zero = s.fn
fn_of (s ∷ slots) (suc i) = fn_of slots i
