-- ===== src/Process/Tree/Rendering.antt =====
-- `renderProcessTree` (src/process_tree.cpp). The connectors are their bytes in UTF-8.
use arch_task_manager.Base.{ℕ, ◌+◌, Text, codes, [], ◌∷◌, ◌++◌, if◌then◌else◌, leb}
use arch_task_manager.Base.Int.{int_text}
use arch_task_manager.Process.{Process}
use arch_task_manager.Process.Tree.{
  ProcessTreeNode, Nodes, node, nil, cons, ProcessTree, max_render_depth,
}

-- A branch to a sibling that is not the last one, to the last one, and the line past a branch.
abbrev branch : Text
branch = 226 ∷ 148 ∷ 156 ∷ 226 ∷ 148 ∷ 128 ∷ 226 ∷ 148 ∷ 128 ∷ 32 ∷ []

abbrev last_branch : Text
last_branch = 226 ∷ 148 ∷ 148 ∷ 226 ∷ 148 ∷ 128 ∷ 226 ∷ 148 ∷ 128 ∷ 32 ∷ []

abbrev past_branch : Text
past_branch = 226 ∷ 148 ∷ 130 ∷ 32 ∷ 32 ∷ 32 ∷ []

-- Where a node stands among its siblings.
pub data Position : Type 0 where
  root inner last : Position

pub connector : Position → Text → Text
connector root prefix = []
connector inner prefix = prefix ++ branch
connector last prefix = prefix ++ last_branch

pub child_prefix : Position → Text → Text
child_prefix root prefix = []
child_prefix inner prefix = prefix ++ past_branch
child_prefix last prefix = prefix ++ codes "    "

pub position : {F : Type 0} → Nodes F → Position
position nil = last
position (cons n rest) = inner

pub label : {F : Type 0} → Process F → Text
label p = p.name ++ (codes " (" ++ (int_text p.pid ++ (b')' ∷ 10 ∷ [])))

-- `renderNode`, and its loop over the children.
mutual
  unfolding connector child_prefix position label

  pub render_node : {F : Type 0} → ProcessTreeNode F → Text → Position → ℕ → Text
  render_node (node p children) prefix place depth =
      let below = render_nodes children (child_prefix place prefix) (depth + 1) in
      connector place prefix ++ (label p ++ (if leb max_render_depth depth then [] else below))

  pub render_nodes : {F : Type 0} → Nodes F → Text → ℕ → Text
  render_nodes nil prefix depth = []
  render_nodes (cons n rest) prefix depth =
      render_node n prefix (position rest) depth ++ render_nodes rest prefix depth

pub render_roots : {F : Type 0} → Nodes F → Text
render_roots nil = []
render_roots (cons n rest) = render_node n [] root 0 ++ render_roots rest

unfoldable pub render_or_none : {F : Type 0} → Nodes F → Text
render_or_none nil = codes "No processes found."
render_or_none (cons n rest) = render_roots (cons n rest)

-- `renderProcessTree`.
unfoldable pub render_process_tree : {F : Type 0} → ProcessTree F → Text
render_process_tree tree = render_or_none tree.roots
