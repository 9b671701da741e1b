-- ===== src/Network/LinkState/Eviction.antt =====
-- The bound on tracked identities in `NetworkLinkStateMonitor::update` (src/network_link_state.cpp).
use arch_task_manager.Base.{
  ℕ, zero, suc, ◌+◌, ◌-◌, ◌≤◌, ◌≡◌, refl, ◌∙◌, true, false, ◌||◌, some, Text, List, [], ◌∷◌, ◌==◌,
  if◌then◌else◌, text_equality, Map, find, erase, has, Distinct, find-erase, erase-Distinct,
  length-erase, length, ltb, min, max, map, All, arith, Bool-cases, inl, inr, beq_refl, subst,
  ltb→le, ltb→lt,
}
use arch_task_manager.Network.LinkState.Tracking.{TrackedInterface, max_tracked}
use arch_task_manager.Network.LinkState.Update.{
  insert_by_change, gone_by_change, erase_first, evict,
}

abbrev pub Tracked : Type 0
Tracked = Map Text TrackedInterface

abbrev keys : Tracked → List Text
keys = map (λ p. p.0)

-- How many interfaces are present.
unfoldable pub present_count : Tracked → ℕ
present_count [] = 0
present_count ((k, t) ∷ m) = if t.present then suc (present_count m) else present_count m

length-insert_by_change :
    (k : Text) (t : TrackedInterface) (m : Tracked)
    → length (insert_by_change (k, t) m) ≡ suc (length m)
unfolding insert_by_change
length-insert_by_change k t [] = refl
length-insert_by_change k t ((j, u) ∷ m) = ground (arith, length-insert_by_change k t m)

has-insert_by_change :
    (k j : Text) (t : TrackedInterface) (m : Tracked)
    → has j (insert_by_change (k, t) m) ≡ ((k == j) || has j m)
unfolding insert_by_change find
has-insert_by_change k j t [] = ground arith
has-insert_by_change k j t ((i, u) ∷ m) = ground (arith, has-insert_by_change k j t m)

insert_by_change-Distinct :
    (k : Text) (t : TrackedInterface) (m : Tracked)
    → has k m ≡ false
    → Distinct m
    → Distinct (insert_by_change (k, t) m)
unfolding insert_by_change find
insert_by_change-Distinct k t [] h d = (refl, tt)
insert_by_change-Distinct k t ((i, u) ∷ m) h d = ground (
  arith,
  has-insert_by_change k i t m,
  text_equality.beq_iff i k,
  text_equality.beq_iff k i,
  insert_by_change-Distinct k t m,
)

has-gone_by_change : (j : Text) (m : Tracked) → has j (gone_by_change m) ≡ true → has j m ≡ true
unfolding gone_by_change find
has-gone_by_change j [] h = h
has-gone_by_change j ((k, t) ∷ m) h =
    ground (arith, has-insert_by_change k j t (gone_by_change m), has-gone_by_change j m)

gone_by_change-Distinct : (m : Tracked) → Distinct m → Distinct (gone_by_change m)
unfolding gone_by_change
gone_by_change-Distinct [] d = tt
gone_by_change-Distinct ((k, t) ∷ m) d = elim (Bool-cases t.present) [
  | inl e ↦ simp e (gone_by_change-Distinct m d.1)
  | inr e ↦ simp e (
      insert_by_change-Distinct k t (gone_by_change m) (ground (arith, has-gone_by_change k m, d.0))
        (gone_by_change-Distinct m d.1))
]

-- An interface that is present is not among those that have gone.
pub has-gone_by_change_present :
    (j : Text) (m : Tracked) (t : TrackedInterface)
    → Distinct m
    → find j m ≡ some t
    → t.present ≡ true
    → has j (gone_by_change m) ≡ false
unfolding gone_by_change find
has-gone_by_change_present j [] t d e p = refl
has-gone_by_change_present j ((k, u) ∷ m) t d e p = elim (Bool-cases (k == j)) [
  | inl q ↦ ground (
    arith,
    subst (λ i. has i m ≡ false) ((text_equality.beq_iff k j).0 q) d.0,
    has-gone_by_change j m,
  )
  | inr q ↦
      ground
        (arith, has-gone_by_change_present j m t d.1, has-insert_by_change k j u (gone_by_change m))
]

length-gone_by_change : (m : Tracked) → length (gone_by_change m) + present_count m ≡ length m
unfolding gone_by_change present_count
length-gone_by_change [] = refl
length-gone_by_change ((k, t) ∷ m) =
    ground (arith, length-gone_by_change m, length-insert_by_change k t (gone_by_change m))

-- Erasing the first few of some keys keeps the entries of all other keys.
find-erase_first :
    (n : ℕ) (gone m : Tracked) (j : Text)
    → has j gone ≡ false
    → find j (erase_first n (keys gone) m) ≡ find j m
unfolding erase_first find
find-erase_first zero gone m j h = refl
find-erase_first (suc n) [] m j h = refl
find-erase_first (suc n) ((k, t) ∷ gone) m j h =
    find-erase_first n gone (erase k m) j (ground arith) ∙ find-erase k j m ∙ ground arith

abbrev IsIn : Tracked → Text × TrackedInterface → Type 0
IsIn m p = has p.0 m ≡ true

IsIn-erase :
    (k : Text) (gone m : Tracked)
    → has k gone ≡ false
    → All (IsIn m) gone
    → All (IsIn (erase k m)) gone
unfolding find
IsIn-erase k [] m h a = tt
IsIn-erase k ((j, t) ∷ gone) m h a = (
  ground (arith, find-erase k j m, text_equality.beq_iff k j, text_equality.beq_iff j k),
  IsIn-erase k gone m (ground arith) a.1,
)

length-erase_first :
    (n : ℕ) (gone m : Tracked)
    → Distinct gone
    → Distinct m
    → All (IsIn m) gone
    → length (erase_first n (keys gone) m) + min n (length gone) ≡ length m
unfolding erase_first
length-erase_first zero gone m g d a = omega arith
length-erase_first (suc n) [] m g d a = omega arith
length-erase_first (suc n) ((k, t) ∷ gone) m g d a = omega (
  arith,
  length-erase_first n gone (erase k m) g.1 (erase-Distinct k m d) (IsIn-erase k gone m g.0 a.1),
  rw a.0 at (length-erase k m d),
)

IsIn-of_has :
    (gone m : Tracked) → ((j : Text) → has j gone ≡ true → has j m ≡ true) → All (IsIn m) gone
unfolding find
IsIn-of_has [] m h = tt
IsIn-of_has ((k, t) ∷ gone) m h =
    (h k (rw (beq_refl k) refl), IsIn-of_has gone m (λ j e. h j (ground (arith, e))))

-- Eviction leaves at most 64 interfaces, or those that are present if these are more, and it
-- never drops or changes one that is present.
pub evict_lem :
    (m : Tracked)
    → Distinct m
    → (length (evict m) ≤ max max_tracked (present_count m))
      × ((j : Text) (t : TrackedInterface)
          → find j m ≡ some t
          → t.present ≡ true
          → find j (evict m) ≡ some t)
unfolding evict
evict_lem m d = elim (Bool-cases (ltb max_tracked (length m))) [
  | inl over ↦ rw over (
    omega (
      arith,
      ltb→lt _ _ over,
      length-gone_by_change m,
      length-erase_first (length m - max_tracked) (gone_by_change m) m (gone_by_change-Distinct m d)
          d (IsIn-of_has (gone_by_change m) m (λ j. has-gone_by_change j m)),
    ),
    λ j t e p.
        find-erase_first (length m - max_tracked) (gone_by_change m) m j
          (has-gone_by_change_present j m t d e p)
        ∙ e,
  )
  | inr fits ↦ rw fits (omega (arith, ltb→le _ _ fits), λ j t e p. e)
]
