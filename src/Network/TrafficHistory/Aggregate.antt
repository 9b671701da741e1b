-- ===== src/Network/TrafficHistory/Aggregate.antt =====
-- The running totals of `record` against `synthesizeAggregateCounters`
-- (src/network_traffic_history.cpp).
use arch_task_manager.Base.{
  ℕ, ◌≡◌, refl, ap, ◌∙◌, Option, none, some, Text, List, [], ◌∷◌, arith, map,
}
use arch_task_manager.Base.Double.{Double}
use arch_task_manager.Network.TrafficAlert.Monitor.{NetworkTrafficRates}
use arch_task_manager.Network.TrafficHistory.{
  NetworkTrafficCounters, checked_add, add_members, sum, synthesize_aggregate_counters,
}
use arch_task_manager.Network.TrafficHistory.Totals.{
  ByteTotal, Totals, no_totals, add_bytes, byte_total, add_interface,
}

byte_total-add_bytes :
    (t : ByteTotal) (o : Option ℕ) → byte_total (add_bytes t o) ≡ checked_add (byte_total t) o
unfolding byte_total add_bytes checked_add
byte_total-add_bytes t none = ground arith
byte_total-add_bytes t (some v) = ground arith

module _ {F : Type 0} ⦃d : Double F⦄ where
  -- The members of one batch, in their order.
  pub add_interfaces : Totals F → List (NetworkTrafficCounters × NetworkTrafficRates F) → Totals F
  add_interfaces t [] = t
  add_interfaces t ((c, r) ∷ rest) = add_interfaces (add_interface t c r) rest

  rx-add_interfaces :
      (t : Totals F) (members : List (NetworkTrafficCounters × NetworkTrafficRates F))
      → byte_total (add_interfaces t members).rx
        ≡ add_members (λ c. c.rx_bytes) (byte_total t.rx) (map (λ p. p.0) members)
  unfolding add_interfaces add_members add_interface
  rx-add_interfaces t [] = refl
  rx-add_interfaces t ((c, r) ∷ rest) =
      rx-add_interfaces (add_interface t c r) rest
      ∙ ap (λ o. add_members (λ c. c.rx_bytes) o (map (λ p. p.0) rest))
          (byte_total-add_bytes t.rx c.rx_bytes)

  tx-add_interfaces :
      (t : Totals F) (members : List (NetworkTrafficCounters × NetworkTrafficRates F))
      → byte_total (add_interfaces t members).tx
        ≡ add_members (λ c. c.tx_bytes) (byte_total t.tx) (map (λ p. p.0) members)
  unfolding add_interfaces add_members add_interface
  tx-add_interfaces t [] = refl
  tx-add_interfaces t ((c, r) ∷ rest) =
      tx-add_interfaces (add_interface t c r) rest
      ∙ ap (λ o. add_members (λ c. c.tx_bytes) o (map (λ p. p.0) rest))
          (byte_total-add_bytes t.tx c.tx_bytes)

  -- The byte totals that `record` accumulates over one or more members are those of `synthesizeAggregateCounters`: the flags for missing counters and for overflow lose nothing against stopping at once.
  pub byte_total-add_interfaces :
      (member : NetworkTrafficCounters × NetworkTrafficRates F)
      (rest : List (NetworkTrafficCounters × NetworkTrafficRates F)) (name : Text)
      → let t = add_interfaces no_totals (member ∷ rest) in
        let aggregate = synthesize_aggregate_counters (map (λ p. p.0) (member ∷ rest)) name in
        (byte_total t.rx ≡ aggregate.rx_bytes) × (byte_total t.tx ≡ aggregate.tx_bytes)
  unfolding synthesize_aggregate_counters sum no_totals byte_total
  byte_total-add_interfaces member rest name =
      (rx-add_interfaces no_totals (member ∷ rest), tx-add_interfaces no_totals (member ∷ rest))
