-- ===== src/Process/Tree/Height.antt =====
-- The depth of a tree that `buildProcessTree` makes (src/process_tree.cpp).
use arch_task_manager.Base.{
  ℕ, zero, suc, ◌+◌, ◌≤◌, ◌≡◌, refl, max, Bool, true, false, List, [], ◌∷◌, if◌then◌else◌, eqb,
  arith, if_cases,
}
use arch_task_manager.Process.{Process}
use arch_task_manager.Process.Tree.{
  ProcessTreeNode, Nodes, node, nil, cons, make_nodes, make_node, tree_depth, nodes_depth,
  max_build_depth, sort_by_pid, process_at, enumerate, root_indices,
}
use arch_task_manager.Process.Tree.Building.{build_process_tree, make_roots, empty_tree, links_of}

-- The number of nodes on the longest path down, without any cap.
mutual
  pub height : {F : Type 0} → ProcessTreeNode F → ℕ
  height (node p children) = suc (nodes_height children)

  pub nodes_height : {F : Type 0} → Nodes F → ℕ
  nodes_height nil = 0
  nodes_height (cons n rest) = max (height n) (nodes_height rest)

module _ {F : Type 0} where
  make_nodes-height :
      (make : ℕ → (ℕ → Bool) → ProcessTreeNode F × (ℕ → Bool)) (is : List ℕ) (visited : ℕ → Bool)
      (h : ℕ)
      → ((i : ℕ) (v : ℕ → Bool) → height (make i v).0 ≤ h)
      → nodes_height (make_nodes make is visited).0 ≤ h
  unfolding make_nodes nodes_height
  make_nodes-height make [] visited h e = omega arith
  make_nodes-height make (i ∷ is) visited h e =
      omega (arith, e i visited, make_nodes-height make is (make i visited).1 h e)

  height-make_node :
      (at : ℕ → Process F) (children : ℕ → List ℕ) (room i : ℕ) (visited : ℕ → Bool)
      → height (make_node at children room i visited).0 ≤ suc room
  unfolding make_node height nodes_height
  height-make_node at children zero i visited = omega arith
  height-make_node at children (suc room) i visited =
      if_cases {A = ProcessTreeNode F × (ℕ → Bool)} (λ r. height r.0 ≤ suc (suc room)) (visited i) _
        _ (λ e. omega arith)
        (λ e. omega (
          arith,
          make_nodes-height (make_node at children room) (children i)
              (λ j. if eqb j i then true else visited j) (suc room)
              (height-make_node at children room),
        ))

height_positive : {F : Type 0} (n : ProcessTreeNode F) → 1 ≤ height n
unfolding height
height_positive (node p children) = omega arith

mutual
  unfolding tree_depth nodes_depth height nodes_height

  tree_depth-height :
      {F : Type 0} (n : ProcessTreeNode F) (depth : ℕ)
      → depth + height n ≤ suc max_build_depth
      → tree_depth n depth ≡ depth + height n
  tree_depth-height (node p children) depth h =
      ground (arith, nodes_depth-height children (depth + 1) (omega arith))

  nodes_depth-height :
      {F : Type 0} (ns : Nodes F) (depth : ℕ)
      → depth + nodes_height ns ≤ suc max_build_depth
      → nodes_depth ns depth ≡ (if eqb (nodes_height ns) 0 then 0 else depth + nodes_height ns)
  nodes_depth-height nil depth h = refl
  nodes_depth-height (cons n rest) depth h = ground (
    arith,
    tree_depth-height n depth (omega arith),
    nodes_depth-height rest depth (omega arith),
    height_positive n,
  )

-- The greatest depth that `buildProcessTree` reports is the number of processes on the longest path of the tree that it builds, and that is at most 257, whatever the PPIDs of the processes are.
pub max_depth-build_process_tree :
    {F : Type 0} (ps : List (Process F))
    → let tree = build_process_tree ps in
      (tree.stats.max_depth ≡ nodes_height tree.roots) × (tree.stats.max_depth ≤ 257)
unfolding build_process_tree empty_tree make_roots nodes_height
max_depth-build_process_tree [] = (refl, omega arith)
max_depth-build_process_tree (p ∷ rest) =
    let at = process_at p (p ∷ rest) in
    let links = links_of (p ∷ rest) in
    let children : ℕ → List ℕ = λ i. sort_by_pid at (links.children i) in
    let bound =
      make_nodes-height (make_node at children max_build_depth)
        (sort_by_pid at (root_indices links (enumerate 0 (p ∷ rest)))) (λ i. false) 257
        (height-make_node at children max_build_depth) in
    let same = nodes_depth-height (make_roots p (p ∷ rest)) 0 (omega (arith, bound)) in
    (ground (arith, same), ground (arith, same, bound))
