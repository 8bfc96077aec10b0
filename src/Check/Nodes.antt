-- ===== src/Check/Nodes.antt =====
-- The node layout: the walk over the sorted names of the processes is a histogram of them. The
-- order of `qsort` is the parameter `before`, which is antisymmetric as `memcmp` is.
use mpif.Prelude.{
  ℕ, zero, suc, ◌≤◌, ◌≡◌, ◌≢◌, inl, inr, ◌↔◌, refl, sym, ap, ◌∙◌, subst, Bool, true, not, ◌&&◌,
  ◌||◌, arith, ltb, ◌==◌, if◌then◌else◌, Bool-cases, true≢false, List, [], ◌∷◌, ◌++◌, length, take,
  drop, replicate, ==_iff, ==_refl, All, take-append-drop, length-drop,
}
use mpif.Machine.{ok, aborted, ◌>>=◌, Bytes}
use mpif.Check.{fail_if, same_name, node_size, walk_nodes, check_nodes}

pub same_name_iff : (x y : Bytes) → (same_name x y ≡ true) ↔ (x ≡ y)
unfolding same_name
same_name_iff x y = (same_name-eq x y, λ e. subst (λ z. same_name x z ≡ true) e (same_name_refl x))
  where
    same_name_refl : (x : Bytes) → same_name x x ≡ true
    same_name_refl [] = refl
    same_name_refl (c ∷ x) = rw (==_refl c) (same_name_refl x)

    same_name-eq : (x y : Bytes) → same_name x y ≡ true → x ≡ y
    same_name-eq [] [] h = refl
    same_name-eq [] (d ∷ y) h = absurd (ground arith)
    same_name-eq (c ∷ x) [] h = absurd (ground arith)
    same_name-eq (c ∷ x) (d ∷ y) h = elim (Bool-cases (c == d)) [
      | inl same ↦
          let e = (==_iff c d).0 same in let r = same_name-eq x y (ground arith) in (λ i. e i ∷ r i)
      | inr other ↦ absurd (ground arith)
    ]

-- The names that a list of nodes with their sizes stands for.
abbrev pub processes : List (Bytes × ℕ) → List Bytes
processes [] = []
processes ((node, n) ∷ nodes) = replicate n node ++ processes nodes

-- The nodes have different names.
abbrev pub AreDifferent : List (Bytes × ℕ) → Type 0
AreDifferent [] = Unit
AreDifferent (x ∷ nodes) = All (λ y. y.0 ≢ x.0) nodes × AreDifferent nodes

-- A histogram of the names.
pub record IsHistogram (names : List Bytes) (nodes : List (Bytes × ℕ)) : Type 0 where
  pub counts : processes nodes ≡ names
  pub different : AreDifferent nodes
  pub positive : All (λ x. 1 ≤ x.1) nodes

module _ (before : Bytes → Bytes → Type 0) where
  abbrev pub IsSorted : List Bytes → Type 0
  IsSorted [] = Unit
  IsSorted (x ∷ names) = All (before x) names × IsSorted names

-- The first names in a row are those of the node.
take-node_size :
    (node : Bytes) (names : List Bytes)
    → take (node_size node names) names ≡ replicate (node_size node names) node
unfolding node_size
take-node_size node [] = refl
take-node_size node (x ∷ names) = elim (Bool-cases (same_name x node)) [
  | inl same ↦ rw same (λ i. (same_name_iff x node).0 same i ∷ take-node_size node names i)
  | inr other ↦ rw other refl
]

node_size_self :
    (node : Bytes) (names : List Bytes) → node_size node (node ∷ names) ≡ suc (node_size node names)
unfolding node_size
node_size_self node names = rw ((same_name_iff node node).1 refl) refl

-- Whether every node has the expected size, if there is one.
abbrev pub sizes_ok : ℕ → List (Bytes × ℕ) → Bool
sizes_ok expected [] = true
sizes_ok expected (x ∷ nodes) = (expected == 0 || x.1 == expected) && sizes_ok expected nodes

module _ (before : Bytes → Bytes → Type 0)
    (antisymmetric : (x y : Bytes) → before x y → before y x → x ≡ y) where
  above_differs :
      (node x : Bytes) (names : List Bytes)
      → before node x
      → x ≢ node
      → All (before x) names
      → All (λ y. y ≢ node) names
  above_differs node x [] le ne above = tt
  above_differs node x (y ∷ names) le ne (here, above) = (
    λ e. ne (antisymmetric x node (subst (before x) e here) le),
    above_differs node x names le ne above,
  )

  -- What comes after the node's own names has other names.
  rest_differs :
      (node : Bytes) (names : List Bytes)
      → All (before node) names
      → IsSorted before names
      → All (λ y. y ≢ node) (drop (node_size node names) names)
  unfolding node_size
  rest_differs node [] le sorted = tt
  rest_differs node (x ∷ names) (le, les) (above, sorted) = elim (Bool-cases (same_name x node)) [
    | inl same ↦ rw same (rest_differs node names les sorted)
    | inr other ↦
        let ne : x ≢ node = λ e. true≢false ((same_name_iff x node).1 e) other in
        rw other ((ne, above_differs node x names le ne above))
  ]

  drop-IsSorted :
      (n : ℕ) (names : List Bytes) → IsSorted before names → IsSorted before (drop n names)
  drop-IsSorted zero names sorted = sorted
  drop-IsSorted (suc n) [] sorted = tt
  drop-IsSorted (suc n) (x ∷ names) (above, sorted) = drop-IsSorted n names sorted

  nodes_differ :
      (node : Bytes) (nodes : List (Bytes × ℕ))
      → All (λ x. 1 ≤ x.1) nodes
      → All (λ y. y ≢ node) (processes nodes)
      → All (λ x. x.0 ≢ node) nodes
  nodes_differ node [] some_ ne = tt
  nodes_differ node ((x, zero) ∷ nodes) (some_, more) ne = absurd (omega arith)
  nodes_differ node ((x, suc n) ∷ nodes) (some_, more) (here, there) =
      (here, nodes_differ node nodes more (skip n there))
    where
      skip :
          (n : ℕ)
          → All (λ y. y ≢ node) (replicate n x ++ processes nodes)
          → All (λ y. y ≢ node) (processes nodes)
      skip zero all = all
      skip (suc n) (_, all) = skip n all

  cons-IsHistogram :
      (node : Bytes) (names : List Bytes) (nodes : List (Bytes × ℕ))
      → IsSorted before (node ∷ names)
      → IsHistogram (drop (node_size node names) names) nodes
      → IsHistogram (node ∷ names) ((node, suc (node_size node names)) ∷ nodes)
  cons-IsHistogram node names nodes (le, sorted) h = record {
    counts = ap (◌∷◌ node) (
        ap (replicate (node_size node names) node ++◌) h.counts
        ∙ ap (λ front. front ++ drop (node_size node names) names) (sym (take-node_size node names))
        ∙ take-append-drop (node_size node names) names);
    different = (
      nodes_differ node nodes h.positive
          (subst (All (λ y. y ≢ node)) (sym h.counts) (rest_differs node names le sorted)),
      h.different,
    );
    positive = (omega arith, h.positive);
  }

  -- The walk returns the histogram if the sizes are as expected, and ends the process otherwise.
  walk_nodes-IsHistogram :
      (fuel expected : ℕ) (names : List Bytes)
      → length names ≤ fuel
      → IsSorted before names
      → (nodes : List (Bytes × ℕ)) × IsHistogram names nodes
        × (walk_nodes fuel expected names ≡ (if sizes_ok expected nodes then ok nodes else aborted))
  unfolding walk_nodes
  walk_nodes-IsHistogram fuel expected [] enough sorted =
      ([], record { counts = refl; different = tt; positive = tt }, refl)
  walk_nodes-IsHistogram zero expected (node ∷ names) enough sorted = absurd (omega arith)
  walk_nodes-IsHistogram (suc fuel) expected (node ∷ names) enough (le, sorted) =
      let n = node_size node names in
      let (nodes, h, walked) =
        walk_nodes-IsHistogram fuel expected (drop n names) (omega (arith, length-drop n names))
          (drop-IsSorted n names sorted) in
      (
        (node, suc n) ∷ nodes,
        cons-IsHistogram node names nodes (le, sorted) h,
        rw (node_size_self node names, walked) (answer expected (suc n) node nodes),
      )
    where
      answer :
          (expected n : ℕ) (node : Bytes) (nodes : List (Bytes × ℕ))
          → (fail_if (ltb 0 expected && not (n == expected)) >>= λ _.
              (if sizes_ok expected nodes then ok nodes else aborted) >>= λ nodes.
              ok ((node, n) ∷ nodes))
            ≡ (if sizes_ok expected ((node, n) ∷ nodes) then ok ((node, n) ∷ nodes) else aborted)
      answer expected n node nodes = elim (Bool-cases (sizes_ok expected nodes)) [
        | inl fine ↦ rw fine (ground arith)
        | inr bad ↦ rw bad (ground arith)
      ]

  -- With the names of all processes in order, the root's checks pass just if every node has the
  -- expected number of processes, where one is stated, and there are as many nodes as expected,
  -- where that is stated; otherwise they end the process. The nodes are the histogram of the names.
  pub check_nodes-IsHistogram :
      (num_nodes expected : ℕ) (names : List Bytes)
      → IsSorted before names
      → (nodes : List (Bytes × ℕ)) × IsHistogram names nodes
        × (check_nodes num_nodes expected names ≡ (
            if sizes_ok expected nodes && (num_nodes == 0 || length nodes == num_nodes)
            then ok tt
            else aborted))
  unfolding check_nodes
  check_nodes-IsHistogram num_nodes expected names sorted =
      let (nodes, h, walked) =
        walk_nodes-IsHistogram (length names) expected names (omega arith) sorted in
      (nodes, h, rw (walked, check_nodes) (answer nodes))
    where
      answer :
          (nodes : List (Bytes × ℕ))
          → ((if sizes_ok expected nodes then ok nodes else aborted) >>= λ nodes.
              fail_if (ltb 0 num_nodes && not (length nodes == num_nodes)))
            ≡ (if sizes_ok expected nodes && (num_nodes == 0 || length nodes == num_nodes)
                then ok tt
                else aborted)
      answer nodes = elim (Bool-cases (sizes_ok expected nodes)) [
        | inl fine ↦ rw fine (ground arith)
        | inr bad ↦ rw bad (ground arith)
      ]
