-- ===== src/Process/Tree.antt =====
-- The process tree (src/process_tree.cpp): links between processes, the hierarchy and its text. A
-- vector that is indexed by processes is a function of the index.
use arch_task_manager.Base.{
  ℕ, zero, suc, ◌+◌, max, Bool, true, false, not, Option, none, some, Text, codes, List, [], ◌∷◌,
  ◌++◌, ◌==◌, if◌then◌else◌, eqb, leb, length, Map, find, insert, has,
}
use arch_task_manager.Base.Int.{ℤ, int_equality, int_ltb, int_text, is_positive}
use arch_task_manager.Process.{Process}
pub mod Building
pub mod Rendering
pub mod Height
pub mod Linked
pub mod Roots

mutual
  pub data ProcessTreeNode (F : Type 0) : Type 0 where
    node : Process F → Nodes F → ProcessTreeNode F

  -- The vector of children.
  pub data Nodes (F : Type 0) : Type 0 where
    nil : Nodes F
    cons : ProcessTreeNode F → Nodes F → Nodes F

pub record ProcessTreeStats : Type 0 where
  pub total : ℕ
  pub root_count : ℕ
  pub max_depth : ℕ

pub record ProcessTree (F : Type 0) : Type 0 where
  pub roots : Nodes F
  pub stats : ProcessTreeStats

-- `has_parent` and `children`.
pub record Links : Type 0 where
  pub has_parent : ℕ → Bool
  pub children : ℕ → List ℕ

abbrev pub max_build_depth : ℕ
max_build_depth = 256

abbrev pub max_render_depth : ℕ
max_render_depth = 128

pub no_links : Links
no_links = record { has_parent = λ i. false; children = λ i. [] }

-- The child `i` is put under `parent`.
pub link : Links → ℕ → ℕ → Links
link l i parent = record {
  has_parent = λ j. if eqb j i then true else l.has_parent j;
  children = λ j. if eqb j parent then l.children j ++ (i ∷ []) else l.children j;
}

-- The end of a round of the linking loop, with what the index has at the PPID.
pub link_found : Links → ℕ → Option ℕ → Links
link_found l i none = l
link_found l i (some parent) = if eqb parent i then l else link l i parent

module _ {F : Type 0} where
  -- The processes with their indices.
  unfoldable pub enumerate : ℕ → List (Process F) → List (ℕ × Process F)
  enumerate i [] = []
  enumerate i (p ∷ rest) = (i, p) ∷ enumerate (i + 1) rest

  -- `processes[i]`; `first` stands outside of the vector, where no index points.
  pub process_at : Process F → List (Process F) → ℕ → Process F
  process_at first [] i = first
  process_at first (p ∷ rest) zero = p
  process_at first (p ∷ rest) (suc i) = process_at first rest i

  -- The index of PIDs; the first entry wins.
  pub add_index : Map ℤ ℕ → List (ℕ × Process F) → Map ℤ ℕ
  add_index index [] = index
  add_index index ((i, p) ∷ rest) =
      add_index (if has p.pid index then index else insert p.pid i index) rest

  -- One round of the linking loop.
  pub link_process : Map ℤ ℕ → Links → ℕ → Process F → Links
  unfolding link_found
  link_process index l i p =
      if not (is_positive p.parent_pid) then l else link_found l i (find p.parent_pid index)

  pub link_all : Map ℤ ℕ → Links → List (ℕ × Process F) → Links
  link_all index l [] = l
  link_all index l ((i, p) ∷ rest) = link_all index (link_process index l i p) rest

  -- `std::sort` by PID; equal PIDs keep their order.
  pub insert_by_pid : (ℕ → Process F) → ℕ → List ℕ → List ℕ
  insert_by_pid at i [] = i ∷ []
  insert_by_pid at i (j ∷ rest) =
      let later = insert_by_pid at i rest in
      if int_ltb (at j).pid (at i).pid then j ∷ later else i ∷ (j ∷ rest)

  pub sort_by_pid : (ℕ → Process F) → List ℕ → List ℕ
  sort_by_pid at [] = []
  sort_by_pid at (i ∷ rest) = insert_by_pid at i (sort_by_pid at rest)

  pub root_indices : Links → List (ℕ × Process F) → List ℕ
  root_indices l [] = []
  root_indices l ((i, p) ∷ rest) =
      let more = root_indices l rest in if not (l.has_parent i) then i ∷ more else more

  -- The children of a node, one after the other; each may find more visited.
  pub make_nodes :
      (ℕ → (ℕ → Bool) → ProcessTreeNode F × (ℕ → Bool)) → List ℕ → (ℕ → Bool) → Nodes F × (ℕ → Bool)
  make_nodes make [] visited = (nil, visited)
  make_nodes make (i ∷ rest) visited =
      let first = make i visited in
      let others = make_nodes make rest first.1 in (cons first.0 others.0, others.1)

  -- `make_node`; `room` is `kMaxBuildDepth` less the depth.
  pub make_node :
      (ℕ → Process F) → (ℕ → List ℕ) → ℕ → ℕ → (ℕ → Bool) → ProcessTreeNode F × (ℕ → Bool)
  make_node at children zero i visited = (node (at i) nil, visited)
  make_node at children (suc room) i visited =
      let below =
        make_nodes (make_node at children room) (children i)
          (λ j. if eqb j i then true else visited j) in
      if visited i then (node (at i) nil, visited) else (node (at i) below.0, below.1)

-- `treeDepth`, and the greatest depth of some siblings.
mutual
  pub tree_depth : {F : Type 0} → ProcessTreeNode F → ℕ → ℕ
  tree_depth (node p children) depth =
      let below = nodes_depth children (depth + 1) in
      if leb max_build_depth depth then depth + 1 else max (depth + 1) below

  pub nodes_depth : {F : Type 0} → Nodes F → ℕ → ℕ
  nodes_depth nil depth = 0
  nodes_depth (cons n rest) depth = max (tree_depth n depth) (nodes_depth rest depth)
