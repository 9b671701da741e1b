-- ===== src/Process/Tree/Building.antt =====
-- `buildProcessTree` (src/process_tree.cpp).
use arch_task_manager.Base.{ℕ, false, List, [], ◌∷◌, length, ◌+◌}
use arch_task_manager.Process.{Process}
use arch_task_manager.Process.Tree.{
  Nodes, nil, cons, ProcessTree, Links, no_links, max_build_depth, enumerate, process_at, add_index,
  link_all, sort_by_pid, root_indices, make_nodes, make_node, nodes_depth,
}

unfoldable pub count_nodes : {F : Type 0} → Nodes F → ℕ
count_nodes nil = 0
count_nodes (cons n rest) = count_nodes rest + 1

unfoldable pub empty_tree : {F : Type 0} → ProcessTree F
empty_tree = record { roots = nil; stats = record { total = 0; root_count = 0; max_depth = 0 } }

module _ {F : Type 0} where
  unfoldable pub links_of : List (Process F) → Links
  links_of ps = link_all (add_index [] (enumerate 0 ps)) no_links (enumerate 0 ps)

  -- The materialized roots.
  unfoldable pub make_roots : Process F → List (Process F) → Nodes F
  make_roots first ps =
      let links = links_of ps in
      let at = process_at first ps in
      (make_nodes (make_node at (λ i. sort_by_pid at (links.children i)) max_build_depth)
        (sort_by_pid at (root_indices links (enumerate 0 ps))) (λ i. false)).0

  -- `buildProcessTree`.
  unfoldable pub build_process_tree : List (Process F) → ProcessTree F
  build_process_tree [] = empty_tree
  build_process_tree (p ∷ rest) =
      let roots = make_roots p (p ∷ rest) in
      record {
        roots = roots;
        stats = record {
          total = length (p ∷ rest);
          root_count = count_nodes roots;
          max_depth = nodes_depth roots 0;
        };
      }
