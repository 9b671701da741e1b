-- ===== src/Network/TrafficHistory/Valid.antt =====
-- A well-formedness invariant of the series of `NetworkTrafficHistory`, and the primitive changes
-- that keep it (src/network_traffic_history.cpp).
use arch_task_manager.Base.{
  ℕ, ◌+◌, ◌-◌, ◌≤◌, ◌<◌, ◌≡◌, refl, ◌∙◌, sym, Bool, false, not, ◌&&◌, Option, none, some, Text,
  List, [], ◌∷◌, ◌++◌, arith, Bool-cases, none_of_is_some, inl, inr, if◌then◌else◌, ◌==◌,
  text_equality, Map, find, insert, erase, modify, find-insert, find-erase, All, has, length,
  Distinct, insert-Distinct, erase-Distinct, modify-Distinct, All-insert, All-modify, All-erase,
  leb,
}
use arch_task_manager.History.{History, create}
use arch_task_manager.Network.TrafficHistory.Series.{
  Rings, NetworkTrafficSeries, NetworkTrafficHistory, empty_rings, count_interfaces,
  max_tracked_interface_series, new_series, create_series,
}
use arch_task_manager.Network.TrafficHistory.Pruning.{
  erase_first, prune_one, prune_all, reset_rings,
}

-- How often an identity stands in the selection order.
unfoldable pub count : Text → List Text → ℕ
count k [] = 0
count k (j ∷ rest) = (if j == k then 1 else 0) + count k rest

count-append :
    (k : Text) (order : List Text) (j : Text)
    → count k (order ++ (j ∷ [])) ≡ count k order + (if j == k then 1 else 0)
unfolding count
count-append k [] j = ground arith
count-append k (i ∷ order) j = omega (arith, count-append k order j)

count-erase_first :
    (k j : Text) (order : List Text)
    → count j (erase_first k order) ≡ (if k == j then count j order - 1 else count j order)
unfolding count erase_first
count-erase_first k j [] = ground arith
count-erase_first k j (i ∷ order) = ground (
  arith,
  text_equality.beq_iff i k,
  text_equality.beq_iff i j,
  text_equality.beq_iff k j,
  count-erase_first k j order,
)

-- A buffer with the bound `n`, and within it.
abbrev pub Fits : {A : Type 0} → ℕ → History A → Type 0
Fits n ring = (ring.max_samples ≡ n) × (length ring.buffer ≤ n)

Fits-create : (A : Type 0) (n : ℕ) → Fits n (create {A = A} n)
unfolding create
Fits-create A n = (refl, omega arith)

room_for_one :
    (aggregate : Bool) (n m : ℕ)
    → (not aggregate && leb max_tracked_interface_series n) ≡ false
    → n ≤ max_tracked_interface_series
    → m ≡ n + (if aggregate then 0 else 1)
    → m ≤ max_tracked_interface_series
room_for_one aggregate n m r b e = ground arith

module _ {F : Type 0} where
  -- Every buffer has the bound `n` and is within it.
  pub record RingsFit (n : ℕ) (r : Rings F) : Type 0 where
    pub rx_bytes_per_second : Fits n r.rx_bytes_per_second
    pub tx_bytes_per_second : Fits n r.tx_bytes_per_second
    pub rx_packets_per_second : Fits n r.rx_packets_per_second
    pub tx_packets_per_second : Fits n r.tx_packets_per_second
    pub rx_errors_per_second : Fits n r.rx_errors_per_second
    pub tx_errors_per_second : Fits n r.tx_errors_per_second
    pub rx_dropped_per_second : Fits n r.rx_dropped_per_second
    pub tx_dropped_per_second : Fits n r.tx_dropped_per_second
    pub rx_bytes_total : Fits n r.rx_bytes_total
    pub tx_bytes_total : Fits n r.tx_bytes_total

  -- 1 for the series of an interface, 0 for the aggregate and where there is no series.
  unfoldable pub tracked : Option (NetworkTrafficSeries F) → ℕ
  tracked none = 0
  tracked (some s) = if s.aggregate then 0 else 1

  -- The bound `n` of the buffers is positive and kept, no identity has two series, there are at
  -- most 8 series of interfaces, and the selection order has just their identities, each once.
  pub record IsValid (n : ℕ) (order : List Text) (m : Map Text (NetworkTrafficSeries F))
      : Type 0 where
    pub positive : 0 < n
    pub fit : All (λ p. RingsFit n p.1.rings) m
    pub distinct : Distinct m
    pub bounded : count_interfaces m ≤ max_tracked_interface_series
    pub listed : (k : Text) → count k order ≡ tracked (find k m)

  abbrev IsUpdate : (NetworkTrafficSeries F → NetworkTrafficSeries F) → Type 0
  IsUpdate f = (s : NetworkTrafficSeries F) → (f s).aggregate ≡ s.aggregate

  count-modify :
      (k : Text) (f : NetworkTrafficSeries F → NetworkTrafficSeries F)
      (m : Map Text (NetworkTrafficSeries F))
      → IsUpdate f
      → count_interfaces (modify k f m) ≡ count_interfaces m
  unfolding count_interfaces modify
  count-modify k f [] h = refl
  count-modify k f ((j, s) ∷ m) h = ground (arith, h s, count-modify k f m h)

  tracked-modify :
      (k j : Text) (f : NetworkTrafficSeries F → NetworkTrafficSeries F)
      (m : Map Text (NetworkTrafficSeries F))
      → IsUpdate f
      → tracked (find j (modify k f m)) ≡ tracked (find j m)
  unfolding tracked modify find
  tracked-modify k j f [] h = refl
  tracked-modify k j f ((i, s) ∷ m) h =
      ground
        (arith, h s, text_equality.beq_iff i k, text_equality.beq_iff i j, tracked-modify k j f m h)

  -- A change of one series that keeps its buffers within their bound.
  pub IsValid-modify :
      (n : ℕ) (order : List Text) (m : Map Text (NetworkTrafficSeries F)) (k : Text)
      (f : NetworkTrafficSeries F → NetworkTrafficSeries F)
      → ((s : NetworkTrafficSeries F) → (f s).aggregate ≡ s.aggregate)
      → ((s : NetworkTrafficSeries F) → RingsFit n s.rings → RingsFit n (f s).rings)
      → IsValid n order m
      → IsValid n order (modify k f m)
  IsValid-modify n order m k f same fits v = record {
    positive = v.positive;
    fit = All-modify (λ p. RingsFit n p.1.rings) k f m (λ j s q. fits s q) v.fit;
    distinct = modify-Distinct k f m v.distinct;
    bounded = omega (arith, count-modify k f m same, v.bounded);
    listed = λ j. v.listed j ∙ sym (tracked-modify k j f m same);
  }

  pub RingsFit-empty : (n : ℕ) → RingsFit n (empty_rings n)
  unfolding empty_rings
  RingsFit-empty n = record {
    rx_bytes_per_second = Fits-create _ n;
    tx_bytes_per_second = Fits-create _ n;
    rx_packets_per_second = Fits-create _ n;
    tx_packets_per_second = Fits-create _ n;
    rx_errors_per_second = Fits-create _ n;
    tx_errors_per_second = Fits-create _ n;
    rx_dropped_per_second = Fits-create _ n;
    tx_dropped_per_second = Fits-create _ n;
    rx_bytes_total = Fits-create _ n;
    tx_bytes_total = Fits-create _ n;
  }

  count-insert :
      (k : Text) (s : NetworkTrafficSeries F) (m : Map Text (NetworkTrafficSeries F))
      → has k m ≡ false
      → count_interfaces (insert k s m) ≡ count_interfaces m + tracked (some s)
  unfolding count_interfaces insert tracked find
  count-insert k s [] e = ground arith
  count-insert k s ((j, t) ∷ m) e = ground (arith, count-insert k s m)

  count-erase :
      (k : Text) (m : Map Text (NetworkTrafficSeries F))
      → count_interfaces (erase k m) ≤ count_interfaces m
  unfolding count_interfaces erase
  count-erase k [] = omega arith
  count-erase k ((j, s) ∷ m) = ground (arith, count-erase k m)

  listed-create :
      (h : NetworkTrafficHistory F) (k identity : Text) (s : NetworkTrafficSeries F)
      → has identity h.series ≡ false
      → count k h.selection_order ≡ tracked (find k h.series)
      → count k (if s.aggregate then h.selection_order else h.selection_order ++ (identity ∷ []))
        ≡ tracked (find k (insert identity s h.series))
  unfolding tracked
  listed-create h k identity s new e = ground (
    arith,
    find-insert identity k s h.series,
    count-append k h.selection_order identity,
    text_equality.beq_iff identity k,
    none_of_is_some (find identity h.series) new,
  )

  tracked-le : (o : Option (NetworkTrafficSeries F)) → tracked o ≤ 1
  unfolding tracked
  tracked-le none = omega arith
  tracked-le (some s) = ground arith

  listed-erase :
      (h : NetworkTrafficHistory F) (k j : Text)
      → count j h.selection_order ≡ tracked (find j h.series)
      → count j (erase_first k h.selection_order) ≡ tracked (find j (erase k h.series))
  unfolding tracked
  listed-erase h k j e = elim (Bool-cases (k == j)) [
    | inl q ↦ ground (
      arith,
      count-erase_first k j h.selection_order,
      find-erase k j h.series,
      tracked-le (find j h.series),
    )
    | inr q ↦ ground (arith, count-erase_first k j h.selection_order, find-erase k j h.series)
  ]

  -- A new series, where there is room for it.
  pub IsValid-create :
      (h : NetworkTrafficHistory F) (identity name : Text) (aggregate : Bool)
      → has identity h.series ≡ false
      → (not aggregate && leb max_tracked_interface_series (count_interfaces h.series)) ≡ false
      → IsValid h.max_samples h.selection_order h.series
      → let g = create_series h identity name aggregate in
        IsValid g.max_samples g.selection_order g.series
  unfolding create_series new_series tracked
  IsValid-create h identity name aggregate new room v = record {
    positive = v.positive;
    fit =
        All-insert (λ p. RingsFit h.max_samples p.1.rings) identity _ h.series
          (RingsFit-empty h.max_samples) v.fit;
    distinct = insert-Distinct identity _ h.series v.distinct;
    bounded =
        room_for_one aggregate (count_interfaces h.series) _ room v.bounded
          (count-insert identity _ h.series new);
    listed = λ k. listed-create h k identity _ new (v.listed k);
  }

  -- A series that is pruned.
  pub IsValid-prune_one :
      (h : NetworkTrafficHistory F) (k : Text)
      → IsValid h.max_samples h.selection_order h.series
      → let g = prune_one h k in IsValid g.max_samples g.selection_order g.series
  unfolding prune_one tracked
  IsValid-prune_one h k v = record {
    positive = v.positive;
    fit = All-erase (λ p. RingsFit h.max_samples p.1.rings) k h.series v.fit;
    distinct = erase-Distinct k h.series v.distinct;
    bounded = omega (arith, count-erase k h.series, v.bounded);
    listed = λ j. listed-erase h k j (v.listed j);
  }

  pub IsValid-prune_all :
      (h : NetworkTrafficHistory F) (keys : List Text)
      → IsValid h.max_samples h.selection_order h.series
      → let g = prune_all h keys in IsValid g.max_samples g.selection_order g.series
  unfolding prune_all
  IsValid-prune_all h [] v = v
  IsValid-prune_all h (k ∷ keys) v =
      IsValid-prune_all (prune_one h k) keys (IsValid-prune_one h k v)

  has-reset_rings :
      (n : ℕ) (k : Text) (m : Map Text (NetworkTrafficSeries F))
      → (has k (reset_rings n m) ≡ has k m)
        × (tracked (find k (reset_rings n m)) ≡ tracked (find k m))
  unfolding reset_rings find tracked
  has-reset_rings n k [] = (refl, refl)
  has-reset_rings n k ((j, s) ∷ m) = ground (arith, has-reset_rings n k m)

  Distinct-reset_rings :
      (n : ℕ) (m : Map Text (NetworkTrafficSeries F)) → Distinct m → Distinct (reset_rings n m)
  unfolding reset_rings
  Distinct-reset_rings n [] h = tt
  Distinct-reset_rings n ((j, s) ∷ m) h =
      ((has-reset_rings n j m).0 ∙ h.0, Distinct-reset_rings n m h.1)

  count-reset_rings :
      (n : ℕ) (m : Map Text (NetworkTrafficSeries F))
      → count_interfaces (reset_rings n m) ≡ count_interfaces m
  unfolding reset_rings count_interfaces
  count-reset_rings n [] = refl
  count-reset_rings n ((j, s) ∷ m) = omega (arith, count-reset_rings n m)

  fit-reset_rings :
      (n : ℕ) (m : Map Text (NetworkTrafficSeries F))
      → All (λ p. RingsFit n p.1.rings) (reset_rings n m)
  unfolding reset_rings
  fit-reset_rings n [] = tt
  fit-reset_rings n ((j, s) ∷ m) = (RingsFit-empty n, fit-reset_rings n m)

  -- New buffers for all series, with another bound.
  pub IsValid-reset_rings :
      (n l : ℕ) (order : List Text) (m : Map Text (NetworkTrafficSeries F))
      → 0 < l
      → IsValid n order m
      → IsValid l order (reset_rings l m)
  IsValid-reset_rings n l order m p v = record {
    positive = p;
    fit = fit-reset_rings l m;
    distinct = Distinct-reset_rings l m v.distinct;
    bounded = omega (arith, count-reset_rings l m, v.bounded);
    listed = λ k. v.listed k ∙ sym ((has-reset_rings l k m).1);
  }
