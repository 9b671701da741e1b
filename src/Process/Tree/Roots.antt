-- ===== src/Process/Tree/Roots.antt =====
-- Which processes are roots of the tree that `buildProcessTree` builds (src/process_tree.cpp).
use arch_task_manager.Base.{
  ℕ, suc, ◌+◌, ◌≡◌, refl, ap, ap₂, ◌∙◌, sym, Bool, true, false, not, ◌&&◌, ◌||◌, Option, none, some,
  codes, List, [], ◌∷◌, if◌then◌else◌, eqb, eqb_refl, ◌==◌, length, any, All-map, All-both, arith,
  Bool-cases, inl, inr, Option-cases, Map, find, insert, has, find-insert, All, eqb_iff,
}
use arch_task_manager.Base.Int.{ℤ, int_equality, is_positive}
use arch_task_manager.Process.{Process}
use arch_task_manager.Process.Tree.{
  ProcessTreeNode, Nodes, nil, cons, Links, no_links, link, link_found, enumerate, process_at,
  add_index, link_process, link_all, insert_by_pid, sort_by_pid, root_indices, make_nodes,
}
use arch_task_manager.Process.Tree.Building.{
  build_process_tree, make_roots, empty_tree, links_of, count_nodes,
}
use arch_task_manager.Process.Tree.Linked.{enumerate-names}
use arch_task_manager.Process.Tree.Rendering.{render_process_tree, render_or_none}

or_else : Option ℕ → Option ℕ → Option ℕ
or_else none o = o
or_else (some i) o = some i

add_index_step :
    (k l : ℤ) (i : ℕ) (index : Map ℤ ℕ) (o : Option ℕ)
    → or_else (find k (if has l index then index else insert l i index)) o
      ≡ or_else (find k index) (if l == k then some i else o)
unfolding or_else
add_index_step k l i index o =
    ground (arith, find-insert l k i index, int_equality.beq_iff l k, Option-cases (find k index))

or_else-none : (o : Option ℕ) → or_else o none ≡ o
unfolding or_else
or_else-none none = refl
or_else-none (some i) = refl

module _ {F : Type 0} where
  -- The first process with a PID.
  unfoldable pub first_with_pid : ℤ → List (ℕ × Process F) → Option ℕ
  first_with_pid k [] = none
  first_with_pid k ((i, p) ∷ es) = if p.pid == k then some i else first_with_pid k es

  find-add_index :
      (k : ℤ) (index : Map ℤ ℕ) (es : List (ℕ × Process F))
      → find k (add_index index es) ≡ or_else (find k index) (first_with_pid k es)
  unfolding add_index first_with_pid
  find-add_index k index [] = sym (or_else-none (find k index))
  find-add_index k index ((i, p) ∷ es) =
      find-add_index k (if has p.pid index then index else insert p.pid i index) es
      ∙ add_index_step k p.pid i index (first_with_pid k es)

-- It is some other process than the one with this index.
unfoldable pub is_other : ℕ → Option ℕ → Bool
is_other i none = false
is_other i (some j) = not (eqb j i)

module _ {F : Type 0} where
  -- The process is linked: its PPID is positive and names a process, the first one with that PID, that is not itself.
  unfoldable pub has_link : (ℤ → Option ℕ) → ℕ → Process F → Bool
  has_link parent i p = is_positive p.parent_pid && is_other i (parent p.parent_pid)

  has_parent-link_process :
      (index : Map ℤ ℕ) (l : Links) (i j : ℕ) (p : Process F)
      → (link_process index l i p).has_parent j
        ≡ (l.has_parent j || (eqb i j && has_link (λ k. find k index) i p))
  unfolding link_process link_found link has_link is_other
  has_parent-link_process index l i j p = ground (arith, Option-cases (find p.parent_pid index))

  has_link_at :
      (at : ℕ → Process F) (parent : ℤ → Option ℕ) (i j : ℕ) (p : Process F)
      → at i ≡ p
      → (eqb i j && has_link parent i p) ≡ (eqb i j && has_link parent j (at j))
  has_link_at at parent i j p e = elim (Bool-cases (eqb i j)) [
    | inl q ↦
        ap₂ (λ k r. eqb i j && has_link parent k r) ((eqb_iff i j).0 q)
          (sym e ∙ ap at ((eqb_iff i j).0 q))
    | inr q ↦ rw q refl
  ]

  has_parent-link_all :
      (at : ℕ → Process F) (index : Map ℤ ℕ) (l : Links) (es : List (ℕ × Process F)) (j : ℕ)
      → All (λ e. at e.0 ≡ e.1) es
      → (link_all index l es).has_parent j
        ≡ (l.has_parent j || (any (λ e. eqb e.0 j) es && has_link (λ k. find k index) j (at j)))
  unfolding link_all
  has_parent-link_all at index l [] j h = ground arith
  has_parent-link_all at index l ((i, p) ∷ es) j h = ground (
    arith,
    has_parent-link_all at index (link_process index l i p) es j h.1,
    has_parent-link_process index l i j p,
    has_link_at at (λ k. find k index) i j p h.0,
  )

  All-any : (es : List (ℕ × Process F)) → All (λ e. any (λ x. eqb x.0 e.0) es ≡ true) es
  All-any [] = tt
  All-any ((i, p) ∷ es) = (
    ground (arith, eqb_refl i),
    All-map (λ e. any (λ x. eqb x.0 e.0) es ≡ true)
        (λ e. any (λ x. eqb x.0 e.0) ((i, p) ∷ es) ≡ true) es (λ e h. ground arith) (All-any es),
  )

  -- The number of processes without a link.
  unfoldable pub orphans : (ℤ → Option ℕ) → List (ℕ × Process F) → ℕ
  orphans parent [] = 0
  orphans parent ((i, p) ∷ es) = (if has_link parent i p then 0 else 1) + orphans parent es

  length-root_indices :
      (l : Links) (parent : ℤ → Option ℕ) (es : List (ℕ × Process F))
      → All (λ e. l.has_parent e.0 ≡ has_link parent e.0 e.1) es
      → length (root_indices l es) ≡ orphans parent es
  unfolding root_indices orphans
  length-root_indices l parent [] h = refl
  length-root_indices l parent ((i, p) ∷ es) h = ground (arith, length-root_indices l parent es h.1)

  length-insert_by_pid :
      (at : ℕ → Process F) (i : ℕ) (is : List ℕ) → length (insert_by_pid at i is) ≡ suc (length is)
  unfolding insert_by_pid
  length-insert_by_pid at i [] = refl
  length-insert_by_pid at i (j ∷ is) = ground (arith, length-insert_by_pid at i is)

  length-sort_by_pid : (at : ℕ → Process F) (is : List ℕ) → length (sort_by_pid at is) ≡ length is
  unfolding sort_by_pid
  length-sort_by_pid at [] = refl
  length-sort_by_pid at (i ∷ is) =
      omega (arith, length-insert_by_pid at i (sort_by_pid at is), length-sort_by_pid at is)

  count_nodes-make_nodes :
      (make : ℕ → (ℕ → Bool) → ProcessTreeNode F × (ℕ → Bool)) (is : List ℕ) (v : ℕ → Bool)
      → count_nodes (make_nodes make is v).0 ≡ length is
  unfolding count_nodes make_nodes
  count_nodes-make_nodes make [] v = refl
  count_nodes-make_nodes make (i ∷ is) v =
      omega (arith, count_nodes-make_nodes make is (make i v).1)

  has_parent-links_of :
      (first : Process F) (ps : List (Process F))
      → All
          (λ e.
            (links_of ps).has_parent e.0
            ≡ has_link (λ k. first_with_pid k (enumerate 0 ps)) e.0 e.1)
          (enumerate 0 ps)
  unfolding links_of no_links has_link or_else find
  has_parent-links_of first ps =
      let at = process_at first ps in
      let es = enumerate 0 ps in
      let index = add_index [] es in
      let named = enumerate-names at first 0 ps (λ i. ap at (omega arith)) in
      All-map (λ e. (at e.0 ≡ e.1) × (any (λ x. eqb x.0 e.0) es ≡ true))
        (λ e. (links_of ps).has_parent e.0 ≡ has_link (λ k. first_with_pid k es) e.0 e.1) es
        (λ e q.
          has_parent-link_all at index no_links es e.0 named
          ∙ ap (λ b. b && has_link (λ k. find k index) e.0 (at e.0)) q.1
          ∙ ap (has_link (λ k. find k index) e.0) q.0
          ∙ ap (λ o. is_positive e.1.parent_pid && is_other e.0 o)
              (find-add_index e.1.parent_pid [] es))
        (All-both (λ e. at e.0 ≡ e.1) (λ e. any (λ x. eqb x.0 e.0) es ≡ true) es named (All-any es))

-- The number of processes without a parent in the list: the PPID is not positive, or no process has it as its PID, or the first one that has is the process itself.
unfoldable pub orphans_of : {F : Type 0} → List (Process F) → ℕ
orphans_of ps = orphans (λ k. first_with_pid k (enumerate 0 ps)) (enumerate 0 ps)

-- The number of roots of the tree that `buildProcessTree` builds, and that it reports, is the number of processes whose PPID is not positive, is the PID of no process, or is the PID of the process itself and of none before it.
pub root_count-build_process_tree :
    {F : Type 0} (ps : List (Process F))
    → let tree = build_process_tree ps in
      (tree.stats.root_count ≡ orphans_of ps) × (count_nodes tree.roots ≡ orphans_of ps)
unfolding build_process_tree empty_tree make_roots count_nodes orphans_of orphans enumerate
root_count-build_process_tree [] = (refl, refl)
root_count-build_process_tree (p ∷ rest) =
    let at = process_at p (p ∷ rest) in
    let links = links_of (p ∷ rest) in
    let es = enumerate 0 (p ∷ rest) in
    let counted : count_nodes (make_roots p (p ∷ rest)) ≡ orphans_of (p ∷ rest) =
      count_nodes-make_nodes _ (sort_by_pid at (root_indices links es)) (λ i. false)
      ∙ length-sort_by_pid at (root_indices links es)
      ∙ length-root_indices links (λ k. first_with_pid k es) es
          (has_parent-links_of p (p ∷ rest)) in
    (counted, counted)

no_nodes :
    {F : Type 0} (ns : Nodes F)
    → count_nodes ns ≡ 0
    → render_or_none ns ≡ codes "No processes found."
unfolding count_nodes render_or_none
no_nodes nil e = refl
no_nodes (cons n rest) e = absurd (omega arith)

-- If every process has a parent in the list, as where the PPIDs form cycles only, then `renderProcessTree` shows the tree of `buildProcessTree` as "No processes found.".
pub render_process_tree_cycle :
    {F : Type 0} (ps : List (Process F))
    → orphans_of ps ≡ 0
    → render_process_tree (build_process_tree ps) ≡ codes "No processes found."
unfolding render_process_tree
render_process_tree_cycle ps e =
    no_nodes (build_process_tree ps).roots ((root_count-build_process_tree ps).1 ∙ e)
