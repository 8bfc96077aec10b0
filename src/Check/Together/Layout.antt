-- ===== src/Check/Together/Layout.antt =====
-- The node layout as process 0 judges it, and what its names have to be.
use mpif.Prelude.{
  ℕ, ◌≡◌, ◌↔◌, inl, inr, refl, Bool, true, false, ◌&&◌, ◌||◌, ◌==◌, if◌then◌else◌, arith,
  Bool-cases, List, [], ◌∷◌, length,
}
use mpif.Prelude.Int.{ℤ, pos, negsuc, pos_part, ltb_ℤ}
use mpif.Machine.{Run, ok, aborted, Bytes}
use mpif.Check.{check_nodes}
use mpif.Check.Nodes.{IsHistogram, sizes_ok, check_nodes-IsHistogram}
use mpif.Check.Together.Names.{Before, Before-antisym, sort_names-IsSorted}
use mpif.Check.Together.{Fields, gathers, sort_names}

abbrev passed : Run (Unit {0})
passed = ok tt

-- The checks of the root, on the names of all processes.
abbrev pub layout_of : Fields → List Bytes → Run (Unit {0})
layout_of vmax names =
    if gathers vmax
    then check_nodes (pos_part (vmax 7)) (pos_part (vmax 8)) (sort_names names)
    else ok tt

-- As many nodes as expected, and as many processes on each, where that is stated.
abbrev pub layout_ok : Fields → List (Bytes × ℕ) → Bool
layout_ok vmax nodes =
    sizes_ok (pos_part (vmax 8)) nodes
    && (pos_part (vmax 7) == 0 || length nodes == pos_part (vmax 7))

if_ok_iff : (b : Bool) → ((if b then passed else aborted) ≡ passed) ↔ (b ≡ true)
if_ok_iff true = (λ e. refl, λ e. refl)
if_ok_iff false = (λ e. absurd (cc), λ e. absurd (cc))

not_positive : (a : ℤ) → ltb_ℤ (pos 0) a ≡ false → pos_part a ≡ 0
not_positive (pos n) e = ground arith
not_positive (negsuc n) e = refl

sizes_ok_zero : (nodes : List (Bytes × ℕ)) → sizes_ok 0 nodes ≡ true
sizes_ok_zero [] = refl
sizes_ok_zero (x ∷ nodes) = sizes_ok_zero nodes

layout_ok_none :
    (vmax : Fields) (nodes : List (Bytes × ℕ))
    → pos_part (vmax 7) ≡ 0
    → pos_part (vmax 8) ≡ 0
    → layout_ok vmax nodes ≡ true
layout_ok_none vmax nodes nodes_none size_none =
    rw (nodes_none, size_none, sizes_ok_zero nodes) refl

-- The checks pass just if the histogram of the names is as expected.
pub layout_of_iff :
    (vmax : Fields) (names : List Bytes)
    → (nodes : List (Bytes × ℕ)) × IsHistogram (sort_names names) nodes
      × ((layout_of vmax names ≡ ok tt) ↔ (layout_ok vmax nodes ≡ true))
unfolding gathers
layout_of_iff vmax names =
    let (nodes, h, answer) =
      check_nodes-IsHistogram Before Before-antisym (pos_part (vmax 7)) (pos_part (vmax 8))
        (sort_names names) (sort_names-IsSorted names) in
    (
      nodes,
      h,
      elim (Bool-cases (gathers vmax)) [
        | inl stated ↦ rw (stated, answer) (if_ok_iff (layout_ok vmax nodes))
        | inr unstated ↦
            let nodes_none : pos_part (vmax 7) ≡ 0 = not_positive (vmax 7) (ground arith) in
            let size_none : pos_part (vmax 8) ≡ 0 = not_positive (vmax 8) (ground arith) in
            rw unstated ((λ e. layout_ok_none vmax nodes nodes_none size_none, λ e. refl))
      ],
    )
