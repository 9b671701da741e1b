-- ===== src/Process/Activity.antt =====
-- The creations and exits that `ProcessStatisticsAggregator::update` reports
-- (src/process_statistics.cpp).
use arch_task_manager.Base.{
  ℕ, ◌+◌, ◌≡◌, refl, subst, bool_ext, sym, true, false, List, [], ◌∷◌, if◌then◌else◌, any, length,
  ◌==◌, arith, Bool-cases, if_cases, inl, inr,
}
use arch_task_manager.Base.Double.{Double}
use arch_task_manager.Process.{Process}
use arch_task_manager.Process.Statistics.{
  Identity, identity_equality, emplace, missing_from, identity_of, add_identities,
  SystemProcessStatistics, ProcessStatisticsAggregator, aggregate_system_process_statistics,
  with_activity, no_statistics, add_process, add_processes, update,
}

-- No identity stands twice.
unfoldable pub IsIdentitySet : List Identity → Type 0
IsIdentitySet [] = Unit
IsIdentitySet (i ∷ rest) = (any (λ j. j == i) rest ≡ false) × IsIdentitySet rest

-- How often `i` stands in a list, and how many pairs of equal members two lists have.
occurs : Identity → List Identity → ℕ
occurs i [] = 0
occurs i (j ∷ rest) = (if j == i then 1 else 0) + occurs i rest

pairs : List Identity → List Identity → ℕ
pairs [] ys = 0
pairs (x ∷ xs) ys = occurs x ys + pairs xs ys

beq_sym : (a b : Identity) → (a == b) ≡ (b == a)
beq_sym a b =
    bool_ext (a == b) (b == a)
      (λ e. (identity_equality.beq_iff b a).1 (sym ((identity_equality.beq_iff a b).0 e)))
      (λ e. (identity_equality.beq_iff a b).1 (sym ((identity_equality.beq_iff b a).0 e)))

pairs-nil : (xs : List Identity) → pairs xs [] ≡ 0
unfolding pairs occurs
pairs-nil [] = refl
pairs-nil (x ∷ xs) = omega (arith, pairs-nil xs)

pairs-cons :
    (xs : List Identity) (y : Identity) (ys : List Identity)
    → pairs xs (y ∷ ys) ≡ occurs y xs + pairs xs ys
unfolding pairs occurs
pairs-cons [] y ys = refl
pairs-cons (x ∷ xs) y ys = ground (arith, beq_sym x y, pairs-cons xs y ys)

pairs-swap : (xs ys : List Identity) → pairs xs ys ≡ pairs ys xs
unfolding pairs
pairs-swap [] ys = sym (pairs-nil ys)
pairs-swap (x ∷ xs) ys = omega (arith, pairs-cons ys x xs, pairs-swap xs ys)

occurs-set :
    (i : Identity) (ys : List Identity)
    → IsIdentitySet ys
    → occurs i ys ≡ (if any (λ j. j == i) ys then 1 else 0)
unfolding occurs IsIdentitySet
occurs-set i [] h = refl
occurs-set i (y ∷ ys) h = elim (Bool-cases (y == i)) [
  | inl q ↦ ground (
    arith,
    occurs-set i ys h.1,
    subst (λ k. any (λ j. j == k) ys ≡ false) ((identity_equality.beq_iff y i).0 q) h.0,
  )
  | inr q ↦ ground (arith, occurs-set i ys h.1)
]

-- The members of one list that the other lacks, and the pairs, are all members.
length-missing_from :
    (xs ys : List Identity)
    → IsIdentitySet ys
    → length (missing_from ys xs) + pairs xs ys ≡ length xs
unfolding missing_from pairs
length-missing_from [] ys h = refl
length-missing_from (x ∷ xs) ys h = ground (arith, occurs-set x ys h, length-missing_from xs ys h)

-- What is in one list and not in the other balances the lengths.
balance :
    (xs ys : List Identity)
    → IsIdentitySet xs
    → IsIdentitySet ys
    → length xs + length (missing_from xs ys) ≡ length ys + length (missing_from ys xs)
balance xs ys h k =
    omega (arith, length-missing_from xs ys k, length-missing_from ys xs h, pairs-swap xs ys)

emplace-IsIdentitySet :
    (i : Identity) (set : List Identity) → IsIdentitySet set → IsIdentitySet (emplace i set)
unfolding emplace IsIdentitySet
emplace-IsIdentitySet i set h =
    if_cases IsIdentitySet (any (λ j. j == i) set) set (i ∷ set) (λ e. h) (λ e. (e, h))

add_identities-IsIdentitySet :
    {F : Type 0} (set : List Identity) (ps : List (Process F))
    → IsIdentitySet set
    → IsIdentitySet (add_identities set ps)
unfolding add_identities
add_identities-IsIdentitySet set [] h = h
add_identities-IsIdentitySet set (p ∷ ps) h =
    add_identities-IsIdentitySet (emplace (identity_of p) set) ps
      (emplace-IsIdentitySet (identity_of p) set h)

module _ {F : Type 0} ⦃d : Double F⦄ where
  quiet-add_processes :
      (s : SystemProcessStatistics F) (ps : List (Process F))
      → ((add_processes s ps).process_creations ≡ s.process_creations)
        × ((add_processes s ps).process_exits ≡ s.process_exits)
  unfolding add_processes add_process
  quiet-add_processes s [] = (refl, refl)
  quiet-add_processes s (p ∷ ps) = quiet-add_processes (add_process s p) ps

  -- What one call of `update` reports and leaves.
  pub record IsBalanced (before after : ProcessStatisticsAggregator)
      (stats : SystemProcessStatistics F) : Type 0 where
    pub set : IsIdentitySet after.previous_identities
    pub baseline : after.has_previous ≡ true
    pub balanced :
        before.has_previous ≡ true
        → length after.previous_identities + stats.process_exits
          ≡ length before.previous_identities + stats.process_creations
    pub quiet :
        before.has_previous ≡ false → (stats.process_creations ≡ 0) × (stats.process_exits ≡ 0)

  -- If the identities that `update` kept of the previous snapshot are a set, then those that it keeps of this one are a set too, and there is a baseline afterwards; with a baseline before, the number of identities now and the exits that are reported sum to the number before and the creations that are reported; without one, no creation and no exit is reported.
  pub update-IsBalanced :
      (a : ProcessStatisticsAggregator) (now : ℕ) (ps : List (Process F))
      → IsIdentitySet a.previous_identities
      → IsBalanced a (update a now ps).0 (update a now ps).1
  unfolding update with_activity aggregate_system_process_statistics no_statistics IsIdentitySet
  update-IsBalanced a now ps h =
      let fresh = add_identities-IsIdentitySet [] ps tt in
      if_cases {A = ProcessStatisticsAggregator × SystemProcessStatistics F}
        (λ r. IsBalanced a r.0 r.1) a.has_previous _ _
        (λ e. record {
          set = fresh;
          baseline = refl;
          balanced = λ q. balance (add_identities [] ps) a.previous_identities fresh h;
          quiet = λ q. absurd (cc);
        })
        (λ e. record {
          set = fresh;
          baseline = refl;
          balanced = λ q. absurd (cc);
          quiet = λ q. quiet-add_processes (no_statistics (length ps)) ps;
        })
