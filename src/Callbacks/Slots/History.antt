-- ===== src/Callbacks/Slots/History.antt =====
-- What holds of a pool over a list of events, for any kind of event that keeps the slots in use.
use mpif.Prelude.{ℕ, ◌≡◌, ◌≢◌, refl, ◌∙◌, true≢false, All, some, List, [], ◌∷◌, length, get_elem?}
use mpif.Callbacks.Predefined.{Procedure}
use mpif.Callbacks.Slots.{Slot, taken}
use mpif.Callbacks.Slots.Laws.{Claimed}

-- A claim does not touch a slot in use.
pub Claimed-keeps :
    {slots after : List Slot} {other : Procedure} {j : ℕ}
    → Claimed slots other j after
    → (i : ℕ) (callback : Procedure) → get_elem? slots i ≡ some (taken callback)
    → get_elem? after i ≡ some (taken callback)
Claimed-keeps {slots} {j = j} c i callback h = c.others i other_slot ∙ h
  where
    other_slot : i ≢ j
    other_slot q = true≢false refl (c.was_free (taken callback) (rw (← q) h))

module _ {E : Type 0} (step : List Slot → E → List Slot) where
  pub run : List Slot → List E → List Slot
  run slots [] = slots
  run slots (e ∷ es) = run (step slots e) es

  module _ (Keeps : ℕ → E → Type 0) (size : ℕ)
      (same_size : (slots : List Slot) (e : E) → length slots ≡ size → length (step slots e) ≡ size)
      (keeps : (slots : List Slot) (e : E) (i : ℕ) (callback : Procedure)
        → length slots ≡ size
        → Keeps i e
        → get_elem? slots i ≡ some (taken callback)
        → get_elem? (step slots e) i ≡ some (taken callback)) where
    pub run-Keeps :
        (slots : List Slot) (es : List E) (i : ℕ) (callback : Procedure)
        → length slots ≡ size
        → All (Keeps i) es
        → get_elem? slots i ≡ some (taken callback)
        → get_elem? (run slots es) i ≡ some (taken callback)
    unfolding run
    run-Keeps slots [] i callback len k h = h
    run-Keeps slots (e ∷ es) i callback len k h =
        run-Keeps (step slots e) es i callback (same_size slots e len) k.1
          (keeps slots e i callback len k.0 h)
