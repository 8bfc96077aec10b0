-- ===== src/Check/Setup/Launcher.antt =====
-- A process that is alone in MPI_COMM_WORLD, and what the launcher says in the environment.
use mpif.Prelude.{
  ℕ, ◌≡◌, ◌≢◌, ◌↔◌, ◌⊎◌, inl, inr, refl, false, ◌==◌, Option, none, some, List, [], ◌∷◌, arith, All,
  Bool-cases,
}
use mpif.Prelude.Int.{ℤ, pos, ltb_ℤ, ◌≤ℤ◌}
use mpif.Machine.{Run, ok, fault, aborted, out_of_fuel, ◌>>=◌, Bytes}
use mpif.Check.{fail_if}
use mpif.Check.Environment.{mpif_check_getenv_long, IsNumber, check_getenv_long_iff}
use mpif.Check.Setup.{is_above_one, check_launched, check_launcher}

-- A variable that does not speak against a process that is alone: it is not set, it is empty, or it
-- is a number of at most 1.
pub data IsHarmless : Option Bytes → Type 0 where
  unset : IsHarmless none
  empty : IsHarmless (some [])
  number : (c : ℕ) (s : Bytes) (v : ℤ) → IsNumber (c ∷ s) v → v ≤ℤ pos 1 → IsHarmless (some (c ∷ s))

abbrev then_check : Run (Option ℤ) → Run (Unit {0}) → Run (Unit {0})
then_check value rest = value >>= λ launched. fail_if (is_above_one launched) >>= λ fine. rest

-- Inversion of one round of the loop.
then_check-ok :
    (value : Run (Option ℤ)) (rest : Run (Unit {0}))
    → then_check value rest ≡ ok tt
    → (v : Option ℤ) × (value ≡ ok v) × (is_above_one v ≡ false) × (rest ≡ ok tt)
then_check-ok (ok v) rest e = elim (Bool-cases (is_above_one v)) [
  | inl above ↦ absurd (ground (arith, above, e))
  | inr fine ↦ (v, refl, fine, ground (arith, fine, e))
]
then_check-ok fault rest e = absurd (cc)
then_check-ok aborted rest e = absurd (cc)
then_check-ok out_of_fuel rest e = absurd (cc)

at_most_one_iff : (v : ℤ) → (ltb_ℤ (pos 1) v ≡ false) ↔ (v ≤ℤ pos 1)
at_most_one_iff v = ground arith

-- A round passes just if its variable is harmless.
round_iff :
    (var : Option Bytes) (rest : Run (Unit {0}))
    → (then_check (mpif_check_getenv_long var) rest ≡ ok tt) ↔ (IsHarmless var × (rest ≡ ok tt))
unfolding mpif_check_getenv_long
round_iff none rest = (λ e. (unset, e), λ (h, e). e)
round_iff (some []) rest = (λ e. (empty, e), λ (h, e). e)
round_iff (some (c ∷ s)) rest = (
  λ e. elim_value c s (then_check-ok (mpif_check_getenv_long (some (c ∷ s))) rest e),
  λ (h, e). passes c s e h,
)
  where
    elim_value :
        (c : ℕ) (s : Bytes)
        → (v : Option ℤ) × (mpif_check_getenv_long (some (c ∷ s)) ≡ ok v)
          × (is_above_one v ≡ false)
          × (rest ≡ ok tt)
        → IsHarmless (some (c ∷ s)) × (rest ≡ ok tt)
    elim_value c s (none, is, fine, e) = absurd ((check_getenv_long_iff c s (pos 0)).1 is)
    elim_value c s (some v, is, fine, e) =
        (number c s v ((check_getenv_long_iff c s v).0.0 is) ((at_most_one_iff v).0 fine), e)

    passes :
        (c : ℕ) (s : Bytes)
        → rest ≡ ok tt
        → IsHarmless (some (c ∷ s))
        → then_check (mpif_check_getenv_long (some (c ∷ s))) rest ≡ ok tt
    passes _ _ e (number c s v is small) =
        rw ((check_getenv_long_iff c s v).0.1 is, (at_most_one_iff v).1 small) e

check_launched_iff :
    (vars : List (Option Bytes)) → (check_launched vars ≡ ok tt) ↔ All IsHarmless vars
unfolding check_launched
check_launched_iff [] = (λ e. tt, λ h. refl)
check_launched_iff (var ∷ vars) =
    let (to, from) = check_launched_iff vars in
    let (split, join) = round_iff var (check_launched vars) in
    (λ e. ((split e).0, to ((split e).1)), λ (h, all). join (h, from all))

-- A process passes the check of the launcher just if it is not alone, or every variable of the
-- launchers is not set, empty, or a number of at most 1.
pub check_launcher_iff :
    (vars : List (Option Bytes)) (size : ℕ)
    → (check_launcher vars size ≡ ok tt) ↔ ((size ≢ 1) ⊎ All IsHarmless vars)
unfolding check_launcher
check_launcher_iff vars size =
    let (to, from) = check_launched_iff vars in
    elim (Bool-cases (size == 1)) [
      | inl alone ↦
          rw (alone, check_launcher)
            ((
              λ e. inr (to e),
              λ h. elim h [
                | inl other ↦ absurd (ground (arith, other, alone))
                | inr all ↦ from all
              ],
            ))
      | inr more ↦ rw (more, check_launcher) ((λ e. inl (ground (arith, more)), λ h. refl))
    ]
