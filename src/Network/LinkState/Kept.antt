-- ===== src/Network/LinkState/Kept.antt =====
-- Which interfaces `NetworkLinkStateMonitor::update` keeps track of (src/network_link_state.cpp).
use arch_task_manager.Base.{
  ℕ, zero, suc, ◌≤◌, ◌≡◌, refl, sym, subst, ◌∙◌, Bool, true, not, ◌||◌, Option, none, some, Text,
  List, [], ◌∷◌, ◌==◌, if◌then◌else◌, text_equality, Map, find, erase, has, Distinct, find-erase,
  erase-Distinct, insert-Distinct, length, max, map, any, All, All-map, All-both, arith, Bool-cases,
  inl, inr, beq_refl, ltb,
}
use arch_task_manager.Base.Double.{Double}
use arch_task_manager.Network.Interface.{NetworkInterfaceInfo, NetworkInterfaceSnapshot, identity}
use arch_task_manager.Network.LinkState.Tracking.{
  TrackedInterface, LinkStateMonitor, Clocks, max_tracked,
}
use arch_task_manager.Network.LinkState.Observe.{observe, observe_all}
use arch_task_manager.Network.LinkState.Observed.{observe_lem, observe-Stored}
use arch_task_manager.Network.LinkState.Update.{
  depart, depart_all, detect_departures, gone_by_change, erase_first, evict, recount, update,
}
use arch_task_manager.Network.LinkState.Eviction.{
  Tracked, present_count, has-gone_by_change_present, evict_lem,
}

-- The identity is tracked, as present.
abbrev pub IsPresent : Text → Map Text TrackedInterface → Type 0
IsPresent k m = (t : TrackedInterface) × (find k m ≡ some t) × (t.present ≡ true)

is_gone : Option TrackedInterface → Bool
is_gone none = true
is_gone (some t) = not t.present

present_count-erase :
    (k : Text) (m : Tracked)
    → Distinct m
    → is_gone (find k m) ≡ true
    → present_count (erase k m) ≡ present_count m
unfolding present_count erase find is_gone
present_count-erase k [] d g = refl
present_count-erase k ((j, t) ∷ m) d g =
    ground (arith, d.0, text_equality.beq_iff j k, present_count-erase k m d.1)

AreGone-erase :
    (k : Text) (gone m : Tracked)
    → All (λ p. is_gone (find p.0 m) ≡ true) gone
    → All (λ p. is_gone (find p.0 (erase k m)) ≡ true) gone
unfolding is_gone
AreGone-erase k [] m a = tt
AreGone-erase k ((j, t) ∷ gone) m a =
    (ground (arith, a.0, find-erase k j m), AreGone-erase k gone m a.1)

erase_first-present_count :
    (n : ℕ) (gone m : Tracked)
    → Distinct m
    → All (λ p. is_gone (find p.0 m) ≡ true) gone
    → Distinct (erase_first n (map (λ p. p.0) gone) m)
      × (present_count (erase_first n (map (λ p. p.0) gone) m) ≡ present_count m)
unfolding erase_first
erase_first-present_count zero gone m d a = (d, refl)
erase_first-present_count (suc n) [] m d a = (d, refl)
erase_first-present_count (suc n) ((k, t) ∷ gone) m d a =
    let (e, q) =
      erase_first-present_count n gone (erase k m) (erase-Distinct k m d)
        (AreGone-erase k gone m a.1) in
    (e, q ∙ present_count-erase k m d a.0)

-- Each entry of a list has a key that is in the map, so what holds of those keys holds of it.
AreGone-of_has :
    (gone m : Tracked)
    → ((j : Text) → has j gone ≡ true → is_gone (find j m) ≡ true)
    → All (λ p. is_gone (find p.0 m) ≡ true) gone
unfolding find
AreGone-of_has [] m h = tt
AreGone-of_has ((k, t) ∷ gone) m h =
    (h k (rw (beq_refl k) refl), AreGone-of_has gone m (λ j e. h j (ground (arith, e))))

gone_by_change-is_gone :
    (m : Tracked)
    → Distinct m
    → (j : Text) → has j (gone_by_change m) ≡ true
    → is_gone (find j m) ≡ true
unfolding is_gone
gone_by_change-is_gone m d j h = found (find j m) refl
  where
    found : (o : Option TrackedInterface) → find j m ≡ o → is_gone (find j m) ≡ true
    found none e = rw e refl
    found (some t) e = elim (Bool-cases t.present) [
      | inr p ↦ rw e (rw p refl)
      | inl p ↦ ground (arith, h, has-gone_by_change_present j m t d e p)
    ]

-- Eviction keeps the keys distinct and the number of present interfaces.
evict-present_count :
    (m : Tracked) → Distinct m → Distinct (evict m) × (present_count (evict m) ≡ present_count m)
unfolding evict
evict-present_count m d = elim (Bool-cases (ltb max_tracked (length m))) [
  | inl over ↦ rw over (
      erase_first-present_count _ (gone_by_change m) m d
        (AreGone-of_has (gone_by_change m) m (gone_by_change-is_gone m d)))
  | inr fits ↦ rw fits (d, refl)
]

-- The identities of the snapshot are in the list of the present ones.
All-identities :
    (infos : List NetworkInterfaceInfo)
    → All (λ info. any (λ k. k == identity info) (map identity infos) ≡ true) infos
All-identities [] = tt
All-identities (info ∷ rest) = (
  ground (arith, beq_refl (identity info)),
  All-map _ (λ x. any (λ k. k == identity x) (map identity (info ∷ rest)) ≡ true) rest
      (λ x h. ground arith) (All-identities rest),
)

module _ {F : Type 0} ⦃d : Double F⦄ where
  observe-IsPresent_self :
      (m : LinkStateMonitor F) (now : Clocks) (info : NetworkInterfaceInfo)
      → IsPresent (identity info) (observe m now info).tracked
  observe-IsPresent_self m now info =
      let ((t, q, c), f) = observe_lem m now info in (t, q, c.present)

  observe-IsPresent :
      (m : LinkStateMonitor F) (now : Clocks) (info : NetworkInterfaceInfo) (k : Text)
      → IsPresent k m.tracked
      → IsPresent k (observe m now info).tracked
  observe-IsPresent m now info k (t, q, p) = elim (Bool-cases (identity info == k)) [
    | inl e ↦
        subst (λ j. IsPresent j (observe m now info).tracked)
          ((text_equality.beq_iff (identity info) k).0 e) (observe-IsPresent_self m now info)
    | inr e ↦ (
      t,
      (observe_lem m now info).1 k
            (λ x. ground (arith, e, text_equality.beq_iff (identity info) k, sym x))
          ∙ q,
      p,
    )
  ]

  observe_all-IsPresent :
      (m : LinkStateMonitor F) (now : Clocks) (infos : List NetworkInterfaceInfo) (k : Text)
      → IsPresent k m.tracked
      → IsPresent k (observe_all m now infos).tracked
  unfolding observe_all
  observe_all-IsPresent m now [] k p = p
  observe_all-IsPresent m now (info ∷ rest) k p =
      observe_all-IsPresent (observe m now info) now rest k (observe-IsPresent m now info k p)

  observe_all-AllPresent :
      (m : LinkStateMonitor F) (now : Clocks) (infos : List NetworkInterfaceInfo)
      → All (λ info. IsPresent (identity info) (observe_all m now infos).tracked) infos
  unfolding observe_all
  observe_all-AllPresent m now [] = tt
  observe_all-AllPresent m now (info ∷ rest) = (
    observe_all-IsPresent (observe m now info) now rest (identity info)
        (observe-IsPresent_self m now info),
    observe_all-AllPresent (observe m now info) now rest,
  )

  observe_all-Distinct :
      (m : LinkStateMonitor F) (now : Clocks) (infos : List NetworkInterfaceInfo)
      → Distinct m.tracked
      → Distinct (observe_all m now infos).tracked
  unfolding observe_all
  observe_all-Distinct m now [] h = h
  observe_all-Distinct m now (info ∷ rest) h =
      let (t, c, e) = observe-Stored m now info in
      observe_all-Distinct (observe m now info) now rest
        (rw e (insert-Distinct (identity info) t m.tracked h))

  has-depart_all :
      (m : LinkStateMonitor F) (now : Clocks) (present : List Text) (tracked : Tracked) (j : Text)
      → has j (depart_all m now present tracked).1 ≡ has j tracked
  unfolding depart_all find
  has-depart_all m now present [] j = refl
  has-depart_all m now present ((k, t) ∷ rest) j =
      let stays = any (λ k'. k' == k) present || not t.present in
      ground
        (arith, has-depart_all (if stays then (m, t) else depart m now k t).0 now present rest j)

  depart_all-Distinct :
      (m : LinkStateMonitor F) (now : Clocks) (present : List Text) (tracked : Tracked)
      → Distinct tracked
      → Distinct (depart_all m now present tracked).1
  unfolding depart_all
  depart_all-Distinct m now present [] h = tt
  depart_all-Distinct m now present ((k, t) ∷ rest) h =
      let stays = any (λ k'. k' == k) present || not t.present in
      let m' = (if stays then (m, t) else depart m now k t).0 in
      (has-depart_all m' now present rest k ∙ h.0, depart_all-Distinct m' now present rest h.1)

  find-depart_all :
      (m : LinkStateMonitor F) (now : Clocks) (present : List Text) (tracked : Tracked) (j : Text)
      → any (λ k. k == j) present ≡ true
      → find j (depart_all m now present tracked).1 ≡ find j tracked
  unfolding depart_all find
  find-depart_all m now present [] j a = refl
  find-depart_all m now present ((k, t) ∷ rest) j a =
      let stays = any (λ k'. k' == k) present || not t.present in
      let m' = (if stays then (m, t) else depart m now k t).0 in
      elim (Bool-cases (k == j)) [
        | inr e ↦ rw e (find-depart_all m' now present rest j a)
        | inl e ↦
            let s : any (λ k'. k' == k) present ≡ true = rw ((text_equality.beq_iff k j).0 e) a in
            simp (e, s) refl
      ]

  detect_departures-Distinct :
      (m : LinkStateMonitor F) (now : Clocks) (present : List Text)
      → Distinct m.tracked
      → Distinct (detect_departures m now present).tracked
  unfolding detect_departures
  detect_departures-Distinct m now present h =
      elim (Bool-cases (ltb (length present) (length m.tracked))) [
        | inl e ↦ rw e (depart_all-Distinct m now present m.tracked h)
        | inr e ↦ rw e h
      ]

  find-detect_departures :
      (m : LinkStateMonitor F) (now : Clocks) (present : List Text) (j : Text)
      → any (λ k. k == j) present ≡ true
      → find j (detect_departures m now present).tracked ≡ find j m.tracked
  unfolding detect_departures
  find-detect_departures m now present j a =
      elim (Bool-cases (ltb (length present) (length m.tracked))) [
        | inl e ↦ rw e (find-depart_all m now present m.tracked j a)
        | inr e ↦ rw e refl
      ]

  -- What `update` leaves of the tracked interfaces, if no identity is tracked twice before: none is tracked twice, at most 64 are tracked, or those that are present if these are more, and every interface of the snapshot is tracked as present.
  pub tracked-update :
      (m : LinkStateMonitor F) (now : Clocks) (snapshot : NetworkInterfaceSnapshot)
      → Distinct m.tracked
      → let m' = update m now snapshot in
        Distinct m'.tracked
        × (length m'.tracked ≤ max max_tracked (present_count m'.tracked))
        × All (λ info. IsPresent (identity info) m'.tracked) snapshot.interfaces
  unfolding update recount
  tracked-update m now snapshot h =
      let infos = snapshot.interfaces in
      let m₁ = observe_all m now infos in
      let m₂ = detect_departures m₁ now (map identity infos) in
      let g : Distinct m₂.tracked =
        detect_departures-Distinct m₁ now (map identity infos)
          (observe_all-Distinct m now infos h) in
      let (dis, same) = evict-present_count m₂.tracked g in
      let (bound, keep) = evict_lem m₂.tracked g in
      (
        dis,
        omega (arith, bound, same),
        All-map
            (λ info.
              IsPresent (identity info) m₁.tracked
              × (any (λ k. k == identity info) (map identity infos) ≡ true))
            (λ info. IsPresent (identity info) (evict m₂.tracked)) infos
            (λ info p.
              let ((t, q, s), a) = p in
              (
                t,
                keep (identity info) t
                    (find-detect_departures m₁ now (map identity infos) (identity info) a ∙ q) s,
                s,
              ))
            (All-both (λ info. IsPresent (identity info) m₁.tracked)
              (λ info. any (λ k. k == identity info) (map identity infos) ≡ true) infos
              (observe_all-AllPresent m now infos) (All-identities infos)),
      )
