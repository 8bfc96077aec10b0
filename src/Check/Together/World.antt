-- ===== src/Check/Together/World.antt =====
-- What it means that every process passes the checks that all take part in.
use mpif.Prelude.{
  ℕ, ◌≤◌, ◌<◌, ◌≡◌, ◌≢◌, ◌↔◌, inl, inr, refl, Bool, true, false, not, ◌==◌, if◌then◌else◌,
  Bool-cases, ==_iff, List, map, count_up,
}
use mpif.Prelude.Int.{pos, ◌≤ℤ◌}
use mpif.Machine.{Run, ok, fault, aborted, out_of_fuel, ◌>>=◌, Bytes}
use mpif.Abi.{mpi_success}
use mpif.Check.{fail_if, same_name}
use mpif.Check.Nodes.{same_name_iff, IsHistogram}
use mpif.Check.Together.{
  nfields, Fields, check_fields, gathers, mpif_check_mpi, check_count, sort_names, Calls,
  check_layout, check_together,
}
use mpif.Check.Together.Layout.{layout_of, layout_ok, layout_of_iff}
use mpif.Check.Together.Fields.{IsMin, IsMax, check_fields-Agree}
use mpif.Check.Together.Ring.{Delivers, check_ring-Delivers}

abbrev passed : Run (Unit {0})
passed = ok tt

if_same : (b : Bool) (r : Run (Unit {0})) → r ≡ (if b then r else r)
if_same true r = refl
if_same false r = refl

three_iff :
    (fields : Run (Unit {0})) (same : Bool) (layout : Run (Unit {0}))
    → ((fields >>= λ f. fail_if (not same) >>= λ s. layout >>= λ l. passed) ≡ passed)
      ↔ ((fields ≡ ok tt) × (same ≡ true) × (layout ≡ ok tt))
three_iff (ok f) true (ok l) = (λ e. (refl, refl, refl), λ e. refl)
three_iff (ok f) true fault = (λ e. absurd (cc), λ e. absurd (cc))
three_iff (ok f) true aborted = (λ e. absurd (cc), λ e. absurd (cc))
three_iff (ok f) true out_of_fuel = (λ e. absurd (cc), λ e. absurd (cc))
three_iff (ok f) false layout = (λ e. absurd (cc), λ e. absurd (cc))
three_iff fault same layout = (λ e. absurd (cc), λ e. absurd (cc))
three_iff aborted same layout = (λ e. absurd (cc), λ e. absurd (cc))
three_iff out_of_fuel same layout = (λ e. absurd (cc), λ e. absurd (cc))

-- `n` processes, with the fields, the version string, the communicator and the name of each, and MPI.
module _ (n : ℕ) (local : ℕ → Fields) (libver : ℕ → Bytes) (comm : ℕ → ℕ) (calls : ℕ → ℕ → Calls)
    (vmin vmax : Fields) (name : ℕ → Bytes) where
  -- The names of all processes, by rank.
  abbrev pub names : List Bytes
  names = map name (count_up 0 n)

  abbrev pub on : ℕ → Calls
  on p = calls p (comm p)

  -- MPI answers a process as it is documented: the reductions with `vmin` and `vmax`, the broadcast
  -- with the string of process 0, the sum with the number of processes and the gather with the names
  -- of all processes at process 0; and process 0 has memory for them.
  pub record Answers (p : ℕ) : Type 0 where
    pub handler : (on p).comm_set_errhandler ≡ mpi_success
    pub smallest : (on p).allreduce_min (local p) ≡ (mpi_success, vmin)
    pub largest : (on p).allreduce_max (local p) ≡ (mpi_success, vmax)
    pub root_string : (on p).bcast (libver p) ≡ (mpi_success, libver 0)
    pub sum : (c : ℕ) × ((on p).reduce_sum 1 ≡ (mpi_success, c)) × (p ≡ 0 → c ≡ n)
    pub named : (on p).get_processor_name ≡ (mpi_success, name p)
    pub memory : (on p).has_memory ≡ true
    pub gathered :
        (got : List Bytes) × ((on p).gather (name p) ≡ (mpi_success, got)) × (p ≡ 0 → got ≡ names)
    pub freed : (on p).comm_free ≡ mpi_success

  -- The versions agree; processes that state an expectation on the nodes state the same one; the
  -- version string of every process is that of process 0; the nodes are as many and as large as
  -- expected, where that is stated.
  pub record Agreement (nodes : List (Bytes × ℕ)) : Type 0 where
    pub versions : (i p q : ℕ) → i < 7 → p < n → q < n → local p i ≡ local q i
    pub expectations :
        (i p q : ℕ)
        → 7 ≤ i
        → i < nfields
        → p < n
        → q < n
        → local p i ≢ pos 0
        → local q i ≢ pos 0
        → local p i ≡ local q i
    pub libraries : (p : ℕ) → p < n → libver p ≡ libver 0
    pub layout : layout_ok vmax nodes ≡ true

  abbrev pub together : ℕ → Run (Unit {0})
  together p = check_together (mpi_success, comm p) (calls p) n p (ok (local p)) (libver p)

  count_passes :
      (p : ℕ) → Answers p → check_count (λ one. mpif_check_mpi ((on p).reduce_sum one)) n p ≡ ok tt
  unfolding check_count
  count_passes p answers =
      let (c, is, right) = answers.sum in
      elim (Bool-cases (p == 0)) [
        | inl root ↦
            let all : (c == n) ≡ true = (==_iff c n).1 (right ((==_iff p 0).0 root)) in
            rw (is, root, all, check_count) refl
        | inr other ↦ rw (is, other, check_count) refl
      ]

  layout_answer :
      (p : ℕ)
      → Answers p
      → check_layout (on p) vmax p ≡ (if p == 0 then layout_of vmax names else ok tt)
  unfolding check_layout
  layout_answer p answers =
      let (got, is, all) = answers.gathered in
      elim (Bool-cases (gathers vmax)) [
        | inr unstated ↦ rw (unstated, check_layout) (if_same (p == 0) passed)
        | inl stated ↦ elim (Bool-cases (p == 0)) [
          | inl root ↦
              rw
                (
                  stated,
                  answers.named,
                  answers.memory,
                  is,
                  root,
                  all ((==_iff p 0).0 root),
                  check_layout,
                )
                refl
          | inr other ↦ rw (stated, answers.named, is, other, check_layout) refl
        ]
      ]

  abbrev pub sendrecv : ℕ → ℕ → ℕ → ℕ → Run ℕ
  sendrecv p token right left = mpif_check_mpi ((on p).sendrecv token right left)

  module _ (ring : Delivers n sendrecv) where
    -- A process passes just if its fields are consistent, its library is that of process 0, and, if it
    -- is process 0, the layout is right.
    together_iff :
        (p : ℕ)
        → p < n
        → Answers p
        → (together p ≡ ok tt) ↔ (
            (check_fields (local p) vmin vmax nfields ≡ ok tt)
            × (libver p ≡ libver 0)
            × ((if p == 0 then layout_of vmax names else ok tt) ≡ ok tt))
    unfolding check_together
    together_iff p lt answers =
        let passes = check_ring-Delivers n sendrecv ring p lt in
        let counts = count_passes p answers in
        let layout = layout_answer p answers in
        let (to, from) =
          three_iff (check_fields (local p) vmin vmax nfields) (same_name (libver p) (libver 0))
            (if p == 0 then layout_of vmax names else ok tt) in
        let (equal, same) = same_name_iff (libver p) (libver 0) in
        rw
          (
            passes, counts, answers.smallest, answers.largest, answers.root_string, layout,
            answers.handler, answers.freed, check_together,
          )
          ((λ e. let (f, l, k) = to e in (f, equal l, k), λ (f, l, k). from (f, same l, k)))

    module _ (smallest : (i : ℕ) → i < nfields → IsMin n (λ p. local p i) (vmin i))
        (largest : (i : ℕ) → i < nfields → IsMax n (λ p. local p i) (vmax i))
        (stated : (p i : ℕ) → p < n → 7 ≤ i → i < nfields → pos 0 ≤ℤ local p i)
        (answers : (p : ℕ) → p < n → Answers p) (some_ : 0 < n) where
      -- Where MPI answers as documented and delivers every message, and no expectation is negative,
      -- all processes pass the checks together just if all of these hold: their versions agree;
      -- processes that state an expectation on the nodes state the same one; the version string of
      -- every process is that of process 0; and the nodes, which are the histogram of all names, are
      -- as many and as large as expected, where that is stated.
      pub check_together-Agree :
          (nodes : List (Bytes × ℕ)) × IsHistogram (sort_names names) nodes
          × (((p : ℕ) → p < n → together p ≡ ok tt) ↔ Agreement nodes)
      check_together-Agree =
          let (agreed, agree) = check_fields-Agree n local vmin vmax smallest largest stated in
          let (nodes, histogram, (fits, fit)) = layout_of_iff vmax names in
          (
            nodes,
            histogram,
            (
              λ all.
                  let (versions, expectations) =
                    agreed (λ p lt. (((together_iff p lt (answers p lt)).0 (all p lt)).0)) in
                  record {
                    versions = versions;
                    expectations = expectations;
                    libraries = λ p lt. ((together_iff p lt (answers p lt)).0 (all p lt)).1;
                    layout = fits (((together_iff 0 some_ (answers 0 some_)).0 (all 0 some_)).2);
                  },
              λ agreement p lt. (together_iff p lt (answers p lt)).1 (
                agree (agreement.versions, agreement.expectations) p lt,
                agreement.libraries p lt,
                elsewhere p (fit agreement.layout),
              ),
            ),
          )
        where
          elsewhere :
              (p : ℕ)
              → layout_of vmax names ≡ ok tt
              → (if p == 0 then layout_of vmax names else passed) ≡ passed
          elsewhere p layout = elim (Bool-cases (p == 0)) [
            | inl root ↦ rw root layout
            | inr other ↦ rw other refl
          ]
