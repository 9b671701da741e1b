-- ===== src/Base/Maps.antt =====
-- `std::unordered_map` as an association list. Its order stands for the map's iteration order,
-- of which nothing is assumed.
use Prim.Native.Nat.{◌+◌}
use mathlib.Core.Path.{◌≡◌, refl, subst}
use mathlib.Core.Logic.{inl, inr}
use mathlib.Core.Bool.{Bool, false}
use mathlib.Core.Option.{Option, none, some}
use mathlib.Core.List.{List, [], ◌∷◌}
use native.Mathlib.Omega.{arith}
use arch_task_manager.Base.Tests.{if◌then◌else◌, is_some, Bool-cases}
use arch_task_manager.Base.Lists.{length, All}
use arch_task_manager.Base.Eq.{Equality, ◌==◌, beq_refl}

abbrev pub Map {ℓ κ} : Type ℓ → Type κ → Type (ℓ ⊔ κ)
Map K V = List (K × V)

module _ {ℓ κ} {K : Type ℓ} {V : Type κ} ⦃e : Equality K⦄ where
  unfoldable pub find : K → Map K V → Option V
  find k [] = none
  find k ((j, v) ∷ m) = if j == k then some v else find k m

  -- `m[k] = v`.
  unfoldable pub insert : K → V → Map K V → Map K V
  insert k v [] = (k, v) ∷ []
  insert k v ((j, w) ∷ m) = if j == k then (k, v) ∷ m else (j, w) ∷ insert k v m

  -- `m.erase(k)`.
  unfoldable pub erase : K → Map K V → Map K V
  erase k [] = []
  erase k ((j, w) ∷ m) = let rest = erase k m in if j == k then rest else (j, w) ∷ rest

  -- A change of the value of one key through a reference.
  unfoldable pub modify : K → (V → V) → Map K V → Map K V
  modify k f [] = []
  modify k f ((j, v) ∷ m) =
      let rest = modify k f m in if j == k then (j, f v) ∷ rest else (j, v) ∷ rest

  abbrev pub has : K → Map K V → Bool
  has k m = is_some (find k m)

  pub find-insert :
      (k j : K) (v : V) (m : Map K V)
      → find j (insert k v m) ≡ (if k == j then some v else find j m)
  unfolding find insert
  find-insert k j v [] = refl
  find-insert k j v ((i, w) ∷ m) =
      ground (arith, e.beq_iff k j, e.beq_iff i k, e.beq_iff i j, find-insert k j v m)

  pub find-insert_self : (k : K) (v : V) (m : Map K V) → find k (insert k v m) ≡ some v
  find-insert_self k v m = simp (find-insert, beq_refl)

  pub find-erase :
      (k j : K) (m : Map K V) → find j (erase k m) ≡ (if k == j then none else find j m)
  unfolding find erase
  find-erase k j [] = ground arith
  find-erase k j ((i, w) ∷ m) =
      ground (arith, e.beq_iff k j, e.beq_iff i k, e.beq_iff i j, find-erase k j m)

  pub length-insert :
      (k : K) (v : V) (m : Map K V)
      → length (insert k v m) ≡ (if has k m then length m else length m + 1)
  unfolding find insert
  length-insert k v [] = refl
  length-insert k v ((i, w) ∷ m) = ground (arith, length-insert k v m)

  pub find-insert_other :
      (k j : K) (v : V) (m : Map K V) → (k == j) ≡ false → find j (insert k v m) ≡ find j m
  find-insert_other k j v m h = ground (arith, find-insert k j v m)

  pub find-erase_other : (k j : K) (m : Map K V) → (k == j) ≡ false → find j (erase k m) ≡ find j m
  find-erase_other k j m h = ground (arith, find-erase k j m)

  pub find-modify_other :
      (k j : K) (f : V → V) (m : Map K V) → (k == j) ≡ false → find j (modify k f m) ≡ find j m
  unfolding find modify
  find-modify_other k j f [] h = refl
  find-modify_other k j f ((i, w) ∷ m) h =
      ground (arith, e.beq_iff k j, e.beq_iff i k, e.beq_iff i j, find-modify_other k j f m h)

  pub has-modify : (k j : K) (f : V → V) (m : Map K V) → has j (modify k f m) ≡ has j m
  unfolding find modify
  has-modify k j f [] = refl
  has-modify k j f ((i, w) ∷ m) =
      ground (arith, e.beq_iff k j, e.beq_iff i k, e.beq_iff i j, has-modify k j f m)

  -- No key stands twice, as in every map.
  abbrev pub Distinct : Map K V → Type 0
  Distinct [] = Unit
  Distinct ((k, v) ∷ m) = (has k m ≡ false) × Distinct m

  pub insert-Distinct : (k : K) (v : V) (m : Map K V) → Distinct m → Distinct (insert k v m)
  unfolding insert find
  insert-Distinct k v [] h = (refl, tt)
  insert-Distinct k v ((j, w) ∷ m) h =
      ground (arith, e.beq_iff j k, e.beq_iff k j, find-insert k j v m, insert-Distinct k v m h.1)

  pub erase-Distinct : (k : K) (m : Map K V) → Distinct m → Distinct (erase k m)
  unfolding erase find
  erase-Distinct k [] h = tt
  erase-Distinct k ((j, w) ∷ m) h = ground (arith, find-erase k j m, erase-Distinct k m h.1)

  pub modify-Distinct : (k : K) (f : V → V) (m : Map K V) → Distinct m → Distinct (modify k f m)
  unfolding modify
  modify-Distinct k f [] h = tt
  modify-Distinct k f ((j, w) ∷ m) h = ground (arith, has-modify k j f m, modify-Distinct k f m h.1)

  pub All-modify {μ} :
      (P : K × V → Type μ) (k : K) (f : V → V) (m : Map K V)
      → ((j : K) (v : V) → P (j, v) → P (j, f v))
      → All P m
      → All P (modify k f m)
  unfolding modify
  All-modify P k f [] p h = tt
  All-modify P k f ((j, w) ∷ m) p h = elim (Bool-cases (j == k)) [
    | inl q ↦ rw q (p j w h.0, All-modify P k f m p h.1)
    | inr q ↦ rw q (h.0, All-modify P k f m p h.1)
  ]

  pub All-erase {μ} : (P : K × V → Type μ) (k : K) (m : Map K V) → All P m → All P (erase k m)
  unfolding erase
  All-erase P k [] h = tt
  All-erase P k ((j, w) ∷ m) h = elim (Bool-cases (j == k)) [
    | inl q ↦ rw q (All-erase P k m h.1)
    | inr q ↦ rw q (h.0, All-erase P k m h.1)
  ]

  pub All-insert {μ} :
      (P : K × V → Type μ) (k : K) (v : V) (m : Map K V) → P (k, v) → All P m → All P (insert k v m)
  unfolding insert
  All-insert P k v [] p h = (p, tt)
  All-insert P k v ((j, w) ∷ m) p h = elim (Bool-cases (j == k)) [
    | inl q ↦ rw q (p, h.1)
    | inr q ↦ rw q (h.0, All-insert P k v m p h.1)
  ]

  pub length-erase :
      (k : K) (m : Map K V)
      → Distinct m
      → length (erase k m) + (if has k m then 1 else 0) ≡ length m
  unfolding erase find
  length-erase k [] h = refl
  length-erase k ((j, w) ∷ m) h = elim (Bool-cases (j == k)) [
    | inl q ↦ rw q (
        ground
          (arith, length-erase k m h.1, subst (λ i. has i m ≡ false) ((e.beq_iff j k).0 q) h.0))
    | inr q ↦ rw q (ground (arith, length-erase k m h.1))
  ]
