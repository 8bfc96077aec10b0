-- ===== src/Check/Together/Fields.antt =====
-- What it means that every process finds the fields consistent.
use mpif.Prelude.{
  ℕ, zero, suc, ◌≤◌, ◌<◌, ◌≡◌, ◌≢◌, ◌↔◌, ◌⊎◌, inl, inr, refl, sym, ◌∙◌, Bool, true, false, not, leb,
  arith, Bool-cases, subst,
}
use native.Mathlib.Decide.{dec_lt}
use mpif.Prelude.Int.{ℤ, pos, negsuc, eqb_ℤ, ◌≤ℤ◌, eqb_ℤ_iff}
use mpif.Machine.{Run, ok, fault, aborted, out_of_fuel, ◌>>◌}
use mpif.Check.{fail_if}
use mpif.Check.Together.{nfields, Fields, consistent, check_fields}

-- `m` is the largest of the values of `n` processes, as MPI_MAX computes it, or the smallest.
pub record IsMax (n : ℕ) (value : ℕ → ℤ) (m : ℤ) : Type 0 where
  pub bound : (p : ℕ) → p < n → value p ≤ℤ m
  pub attained : (p : ℕ) × (p < n) × (value p ≡ m)

pub record IsMin (n : ℕ) (value : ℕ → ℤ) (m : ℤ) : Type 0 where
  pub bound : (p : ℕ) → p < n → m ≤ℤ value p
  pub attained : (p : ℕ) × (p < n) × (value p ≡ m)

≤ℤ_antisym : (a b : ℤ) → a ≤ℤ b → b ≤ℤ a → a ≡ b
≤ℤ_antisym a b le ge = ground arith

-- One more check passes just if those before it and it pass.
then_fail_if_iff :
    (before : Run (Unit {0})) (passes : Bool)
    → ((before >> fail_if (not passes)) ≡ ok tt) ↔ ((before ≡ ok tt) × (passes ≡ true))
then_fail_if_iff (ok tt) true = (λ e. (refl, refl), λ e. refl)
then_fail_if_iff (ok tt) false = (λ e. absurd (cc), λ e. absurd (cc))
then_fail_if_iff fault passes = (λ e. absurd (cc), λ e. absurd (cc))
then_fail_if_iff aborted passes = (λ e. absurd (cc), λ e. absurd (cc))
then_fail_if_iff out_of_fuel passes = (λ e. absurd (cc), λ e. absurd (cc))

check_fields_iff :
    (local vmin vmax : Fields) (k : ℕ)
    → (check_fields local vmin vmax k ≡ ok tt)
      ↔ ((i : ℕ) → i < k → consistent local vmin vmax i ≡ true)
unfolding check_fields
check_fields_iff local vmin vmax zero = (λ e i lt. absurd (omega arith), λ all. refl)
check_fields_iff local vmin vmax (suc k) =
    let (to, from) = check_fields_iff local vmin vmax k in
    let (split, join) =
      then_fail_if_iff (check_fields local vmin vmax k) (consistent local vmin vmax k) in
    (
      λ e i lt. elim (dec_lt i k) [
        | yes below ↦ to ((split e).0) i below
        | no last ↦
            let same : i ≡ k = omega (arith, lt, last) in
            subst (λ j. consistent local vmin vmax j ≡ true) (sym same) ((split e).1)
      ],
      λ all. join (from (λ i lt. all i (omega (arith, lt))), all k (omega arith)),
    )

consistent_version :
    (local vmin vmax : Fields) (i : ℕ)
    → i < 7
    → (consistent local vmin vmax i ≡ true) ↔ (vmin i ≡ vmax i)
unfolding consistent
consistent_version local vmin vmax i lt =
    let early : leb 7 i ≡ false = ground arith in rw early (eqb_ℤ_iff (vmin i) (vmax i))

consistent_expectation :
    (local vmin vmax : Fields) (i : ℕ)
    → 7 ≤ i
    → (consistent local vmin vmax i ≡ true) ↔ ((local i ≡ pos 0) ⊎ (local i ≡ vmax i))
unfolding consistent
consistent_expectation local vmin vmax i ge =
    let late : leb 7 i ≡ true = ground arith in
    let (is_zero, zero_is) = eqb_ℤ_iff (local i) (pos 0) in
    let (is_top, top_is) = eqb_ℤ_iff (local i) (vmax i) in
    rw late (
      (
        λ e. elim (Bool-cases (eqb_ℤ (local i) (pos 0))) [
          | inl unset ↦ inl (is_zero unset)
          | inr set ↦ inr (is_top (ground (arith, set, e)))
        ],
        λ e. elim e [
          | inl unset ↦ rw (zero_is unset) refl
          | inr top ↦ elim (Bool-cases (eqb_ℤ (local i) (pos 0))) [
            | inl unset ↦ rw unset refl
            | inr set ↦ rw set (top_is top)
          ]
        ],
      ))

zero_cases : (a : ℤ) → (a ≡ pos 0) ⊎ (a ≢ pos 0)
zero_cases (pos zero) = inl refl
zero_cases (pos (suc n)) = inr (λ e. ground arith)
zero_cases (negsuc n) = inr (λ e. cc)

module _ (n : ℕ) (local : ℕ → Fields) (vmin vmax : Fields)
    (smallest : (i : ℕ) → i < nfields → IsMin n (λ p. local p i) (vmin i))
    (largest : (i : ℕ) → i < nfields → IsMax n (λ p. local p i) (vmax i)) where
  -- A version is the same everywhere, as are the bounds.
  version_consistent :
      (i : ℕ) → i < 7 → (vmin i ≡ vmax i) ↔ ((p q : ℕ) → p < n → q < n → local p i ≡ local q i)
  version_consistent i lt =
      let (p, within, low) = (smallest i (omega (arith, lt))).attained in
      let (q, inside, high) = (largest i (omega (arith, lt))).attained in
      (
        λ e r s r_lt s_lt. at_bounds e r r_lt ∙ sym (at_bounds e s s_lt),
        λ all. sym low ∙ (all p q within inside ∙ high),
      )
    where
      at_bounds : vmin i ≡ vmax i → (r : ℕ) → r < n → local r i ≡ vmax i
      at_bounds e r r_lt =
          ≤ℤ_antisym (local r i) (vmax i) ((largest i (omega (arith, lt))).bound r r_lt)
            (subst (λ m. m ≤ℤ local r i) e ((smallest i (omega (arith, lt))).bound r r_lt))

  module _ (stated : (p i : ℕ) → p < n → 7 ≤ i → i < nfields → pos 0 ≤ℤ local p i) where
    -- An expectation is the largest one wherever it is stated.
    expectation_consistent :
        (i : ℕ)
        → 7 ≤ i
        → i < nfields
        → ((p : ℕ) → p < n → (local p i ≡ pos 0) ⊎ (local p i ≡ vmax i)) ↔ (
            (p q : ℕ)
            → p < n
            → q < n
            → local p i ≢ pos 0
            → local q i ≢ pos 0
            → local p i ≡ local q i)
    expectation_consistent i ge lt =
        let (top, within, high) = (largest i lt).attained in
        (
          λ all p q p_lt q_lt p_set q_set.
              at_top p p_set (all p p_lt) ∙ sym (at_top q q_set (all q q_lt)),
          λ same p p_lt. elim (zero_cases (local p i)) [
            | inl unset ↦ inl unset
            | inr set ↦ elim (zero_cases (local top i)) [
              | inl none_stated ↦ absurd (
                  set (
                    ≤ℤ_antisym (local p i) (pos 0)
                      (subst (λ m. local p i ≤ℤ m) (sym high ∙ none_stated)
                        ((largest i lt).bound p p_lt))
                      (stated p i p_lt ge lt)))
              | inr top_set ↦ inr (same p top p_lt within set top_set ∙ high)
            ]
          ],
        )
      where
        at_top :
            (p : ℕ)
            → local p i ≢ pos 0
            → (local p i ≡ pos 0) ⊎ (local p i ≡ vmax i)
            → local p i ≡ vmax i
        at_top p set (inl unset) = absurd (set unset)
        at_top p set (inr is) = is

    -- Where MPI's reductions are right, and no expectation is negative: every process finds the fields
    -- consistent just if all have the same versions, and all processes that state an expectation on
    -- the nodes state the same one.
    pub check_fields-Agree :
        ((p : ℕ) → p < n → check_fields (local p) vmin vmax nfields ≡ ok tt) ↔ (
          ((i p q : ℕ) → i < 7 → p < n → q < n → local p i ≡ local q i)
          × ((i p q : ℕ)
              → 7 ≤ i
              → i < nfields
              → p < n
              → q < n
              → local p i ≢ pos 0
              → local q i ≢ pos 0
              → local p i ≡ local q i))
    check_fields-Agree = (
      λ all. (
        λ i p q lt p_lt q_lt.
            (version_consistent i lt).0
              ((consistent_version (local p) vmin vmax i lt).0 (
                (check_fields_iff (local p) vmin vmax nfields).0 (all p p_lt) i
                  (omega (arith, lt))))
              p q p_lt q_lt,
        λ i p q ge lt p_lt q_lt.
            (expectation_consistent i ge lt).0
              (λ r r_lt.
                (consistent_expectation (local r) vmin vmax i ge).0
                  ((check_fields_iff (local r) vmin vmax nfields).0 (all r r_lt) i lt))
              p q p_lt q_lt,
      ),
      λ (versions, expectations) p p_lt. (check_fields_iff (local p) vmin vmax nfields).1 (λ i lt.
          elim (dec_lt i 7) [
            | yes early ↦
                (consistent_version (local p) vmin vmax i early).1
                  ((version_consistent i early).1 (λ r s. versions i r s early))
            | no late ↦
                let ge : 7 ≤ i = omega (arith, late) in
                (consistent_expectation (local p) vmin vmax i ge).1
                  ((expectation_consistent i ge lt).1 (λ r s. expectations i r s ge lt) p p_lt)
          ]),
    )
