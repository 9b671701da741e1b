-- ===== src/Process/Tree/Linked.antt =====
-- Children stand under the process that their PPID names (`buildProcessTree`,
-- src/process_tree.cpp).
use arch_task_manager.Base.{
  ℕ, zero, suc, ◌+◌, ◌≡◌, refl, ap, ◌∙◌, sym, Bool, not, Option, none, some, List, [], ◌∷◌,
  if◌then◌else◌, eqb, eqb_iff, ◌==◌, arith, Bool-cases, if_cases, inl, inr, Map, find, insert, has,
  All, All-append, All-insert,
}
use mathlib.Core.Option.{none-ne-some}
use arch_task_manager.Base.Int.{ℤ, int_equality, int_ltb, is_positive}
use arch_task_manager.Process.{Process}
use arch_task_manager.Process.Tree.{
  ProcessTreeNode, Nodes, node, nil, cons, Links, no_links, link, link_found, enumerate, process_at,
  add_index, link_process, link_all, insert_by_pid, sort_by_pid, make_nodes, make_node,
  max_build_depth,
}
use arch_task_manager.Process.Tree.Building.{build_process_tree, make_roots, empty_tree, links_of}

-- The process of a node.
pub process_of : {F : Type 0} → ProcessTreeNode F → Process F
process_of (node p children) = p

-- Every node below stands under the process that its PPID names.
mutual
  pub IsLinked : {F : Type 0} → ProcessTreeNode F → Type 0
  IsLinked (node p children) = AllLinked p children

  pub AllLinked : {F : Type 0} → Process F → Nodes F → Type 0
  AllLinked p nil = Unit
  AllLinked p (cons n rest) = ((process_of n).parent_pid ≡ p.pid) × IsLinked n × AllLinked p rest

pub AllRootsLinked : {F : Type 0} → Nodes F → Type 0
AllRootsLinked nil = Unit
AllRootsLinked (cons n rest) = IsLinked n × AllRootsLinked rest

module _ {F : Type 0} where
  -- The indices name the processes.
  pub enumerate-names :
      (at : ℕ → Process F) (first : Process F) (n : ℕ) (ps : List (Process F))
      → ((i : ℕ) → at (n + i) ≡ process_at first ps i)
      → All (λ e. at e.0 ≡ e.1) (enumerate n ps)
  unfolding process_at enumerate
  enumerate-names at first n [] h = tt
  enumerate-names at first n (p ∷ ps) h = (
    ap at (omega arith) ∙ h 0,
    enumerate-names at first (n + 1) ps (λ i. ap at (omega arith) ∙ h (suc i)),
  )

  -- Every entry of the index is the PID of the process that it names.
  IsIndex : (ℕ → Process F) → Map ℤ ℕ → Type 0
  IsIndex at index = All (λ e. (at e.1).pid ≡ e.0) index

  IsIndex-add_index :
      (at : ℕ → Process F) (index : Map ℤ ℕ) (es : List (ℕ × Process F))
      → All (λ e. at e.0 ≡ e.1) es
      → IsIndex at index
      → IsIndex at (add_index index es)
  unfolding add_index IsIndex
  IsIndex-add_index at index [] h k = k
  IsIndex-add_index at index ((i, p) ∷ es) h k =
      IsIndex-add_index at (if has p.pid index then index else insert p.pid i index) es h.1 (
        if_cases (IsIndex at) (has p.pid index) index (insert p.pid i index) (λ e. k)
          (λ e. All-insert (λ e. (at e.1).pid ≡ e.0) p.pid i index (ap (λ q. q.pid) h.0) k))

  find-IsIndex :
      (at : ℕ → Process F) (index : Map ℤ ℕ) (k : ℤ) (j : ℕ)
      → IsIndex at index
      → find k index ≡ some j
      → (at j).pid ≡ k
  unfolding find IsIndex
  find-IsIndex at [] k j h e = absurd (none-ne-some j e)
  find-IsIndex at ((l, i) ∷ index) k j h e = elim (Bool-cases (l == k)) [
    | inl q ↦ ground (arith, int_equality.beq_iff l k)
    | inr q ↦ find-IsIndex at index k j h.1 (ground arith)
  ]

  -- Every child has the PID of the process that it is linked to as its PPID.
  LinksHold : (ℕ → Process F) → Links → Type 0
  LinksHold at l = (j : ℕ) → All (λ i. (at i).parent_pid ≡ (at j).pid) (l.children j)

  LinksHold-link :
      (at : ℕ → Process F) (l : Links) (i parent : ℕ)
      → (at i).parent_pid ≡ (at parent).pid
      → LinksHold at l
      → LinksHold at (link l i parent)
  unfolding link LinksHold
  LinksHold-link at l i parent e h j = elim (Bool-cases (eqb j parent)) [
    | inl q ↦ rw q (
        All-append (λ k. (at k).parent_pid ≡ (at j).pid) (l.children j) (i ∷ []) (h j)
          (e ∙ ap (λ k. (at k).pid) (sym ((eqb_iff j parent).0 q)), tt))
    | inr q ↦ rw q (h j)
  ]

  LinksHold-link_found :
      (at : ℕ → Process F) (l : Links) (i : ℕ) (o : Option ℕ)
      → ((j : ℕ) → o ≡ some j → (at j).pid ≡ (at i).parent_pid)
      → LinksHold at l
      → LinksHold at (link_found l i o)
  unfolding link_found
  LinksHold-link_found at l i none e h = h
  LinksHold-link_found at l i (some j) e h =
      if_cases (LinksHold at) (eqb j i) l (link l i j) (λ q. h)
        (λ q. LinksHold-link at l i j (sym (e j refl)) h)

  LinksHold-link_all :
      (at : ℕ → Process F) (index : Map ℤ ℕ) (l : Links) (es : List (ℕ × Process F))
      → IsIndex at index
      → All (λ e. at e.0 ≡ e.1) es
      → LinksHold at l
      → LinksHold at (link_all index l es)
  unfolding link_all link_process
  LinksHold-link_all at index l [] x k h = h
  LinksHold-link_all at index l ((i, p) ∷ es) x k h =
      LinksHold-link_all at index (link_process index l i p) es x k.1 (
        if_cases (LinksHold at) (not (is_positive p.parent_pid)) l _ (λ q. h)
          (λ q.
            LinksHold-link_found at l i (find p.parent_pid index)
              (λ j e. find-IsIndex at index p.parent_pid j x e ∙ ap (λ r. r.parent_pid) (sym k.0))
              h))

  All-insert_by_pid :
      (P : ℕ → Type 0) (at : ℕ → Process F) (i : ℕ) (is : List ℕ)
      → P i
      → All P is
      → All P (insert_by_pid at i is)
  unfolding insert_by_pid
  All-insert_by_pid P at i [] p h = (p, tt)
  All-insert_by_pid P at i (j ∷ is) p h =
      if_cases (All P) (int_ltb (at j).pid (at i).pid) _ _
        (λ q. (h.0, All-insert_by_pid P at i is p h.1)) (λ q. (p, h))

  All-sort_by_pid :
      (P : ℕ → Type 0) (at : ℕ → Process F) (is : List ℕ) → All P is → All P (sort_by_pid at is)
  unfolding sort_by_pid
  All-sort_by_pid P at [] h = tt
  All-sort_by_pid P at (i ∷ is) h =
      All-insert_by_pid P at i (sort_by_pid at is) h.0 (All-sort_by_pid P at is h.1)

  -- What `make_node` returns is the node of its index, with linked nodes below.
  abbrev MakesLinked : (ℕ → Process F) → (ℕ → (ℕ → Bool) → ProcessTreeNode F × (ℕ → Bool)) → Type 0
  MakesLinked at make =
      (i : ℕ) (v : ℕ → Bool) → (process_of (make i v).0 ≡ at i) × IsLinked (make i v).0

  AllLinked-make_nodes :
      (at : ℕ → Process F) (make : ℕ → (ℕ → Bool) → ProcessTreeNode F × (ℕ → Bool)) (p : Process F)
      (is : List ℕ) (v : ℕ → Bool)
      → MakesLinked at make
      → All (λ i. (at i).parent_pid ≡ p.pid) is
      → AllLinked p (make_nodes make is v).0
  unfolding make_nodes AllLinked
  AllLinked-make_nodes at make p [] v m h = tt
  AllLinked-make_nodes at make p (i ∷ is) v m h = (
    ap (λ q. q.parent_pid) (m i v).0 ∙ h.0,
    (m i v).1,
    AllLinked-make_nodes at make p is (make i v).1 m h.1,
  )

  make_node-MakesLinked :
      (at : ℕ → Process F) (children : ℕ → List ℕ) (room : ℕ)
      → ((j : ℕ) → All (λ i. (at i).parent_pid ≡ (at j).pid) (children j))
      → MakesLinked at (make_node at children room)
  unfolding make_node process_of IsLinked AllLinked
  make_node-MakesLinked at children zero h i v = (refl, tt)
  make_node-MakesLinked at children (suc room) h i v =
      if_cases {A = ProcessTreeNode F × (ℕ → Bool)} (λ r. (process_of r.0 ≡ at i) × IsLinked r.0)
        (v i) _ _ (λ q. (refl, tt))
        (λ q. (
          refl,
          AllLinked-make_nodes at (make_node at children room) (at i) (children i) _
              (make_node-MakesLinked at children room h) (h i),
        ))

  AllRootsLinked-make_nodes :
      (at : ℕ → Process F) (make : ℕ → (ℕ → Bool) → ProcessTreeNode F × (ℕ → Bool)) (is : List ℕ)
      (v : ℕ → Bool)
      → MakesLinked at make
      → AllRootsLinked (make_nodes make is v).0
  unfolding make_nodes AllRootsLinked
  AllRootsLinked-make_nodes at make [] v m = tt
  AllRootsLinked-make_nodes at make (i ∷ is) v m =
      ((m i v).1, AllRootsLinked-make_nodes at make is (make i v).1 m)

-- In every tree that `buildProcessTree` builds, each node other than a root stands under the process that its PPID names.
pub build_process_tree-AllRootsLinked :
    {F : Type 0} (ps : List (Process F)) → AllRootsLinked (build_process_tree ps).roots
unfolding build_process_tree empty_tree make_roots AllRootsLinked links_of LinksHold no_links
    IsIndex
build_process_tree-AllRootsLinked [] = tt
build_process_tree-AllRootsLinked (p ∷ rest) =
    let at = process_at p (p ∷ rest) in
    let named = enumerate-names at p 0 (p ∷ rest) (λ i. ap at (omega arith)) in
    AllRootsLinked-make_nodes at _ _ _ (
      make_node-MakesLinked at _ max_build_depth (λ j.
        All-sort_by_pid (λ i. (at i).parent_pid ≡ (at j).pid) at ((links_of (p ∷ rest)).children j)
          (LinksHold-link_all at (add_index [] (enumerate 0 (p ∷ rest))) no_links
            (enumerate 0 (p ∷ rest)) (IsIndex-add_index at [] (enumerate 0 (p ∷ rest)) named tt)
            named (λ i. tt) j)))
