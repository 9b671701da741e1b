-- ===== src/Network/TrafficHistory.antt =====
-- The counters and rates of include/network_traffic_history.hpp, and the two functions of
-- src/network_traffic_history.cpp on them: `deriveTrafficRates` and `synthesizeAggregateCounters`.
use arch_task_manager.Base.{
  ℕ, ◌-◌, ◌^◌, ◌+◌, Bool, true, false, not, ◌||◌, Option, none, some, Text, codes, List, [], ◌∷◌,
  if◌then◌else◌, ◌==◌, text_equality, ltb,
}
use arch_task_manager.Base.Double.{Double}
use arch_task_manager.Network.TrafficAlert.Monitor.{NetworkTrafficRates}
pub mod Rates
pub mod Sums
pub mod Series
pub mod Totals
pub mod Pruning
pub mod Recording
pub mod Selection
pub mod Stale
pub mod Repeated
pub mod Valid
pub mod Aggregate
pub mod Pruned
pub mod Bounded

pub record NetworkTrafficCounters : Type 0 where
  pub identity : Text
  pub name : Text
  pub rx_bytes : Option ℕ
  pub tx_bytes : Option ℕ
  pub rx_packets : Option ℕ
  pub tx_packets : Option ℕ
  pub rx_errors : Option ℕ
  pub tx_errors : Option ℕ
  pub rx_dropped : Option ℕ
  pub tx_dropped : Option ℕ

-- `kNetworkTrafficAllIdentity`.
abbrev pub all_identity : Text
all_identity = codes "all"

-- `std::numeric_limits<std::uint64_t>::max()`.
abbrev pub u64_max : ℕ
u64_max = 2 ^ 64 - 1

-- `decreased`.
pub decreased : Option ℕ → Option ℕ → Bool
decreased none b = false
decreased (some a) none = false
decreased (some a) (some b) = ltb b a

-- One of the counters that are compared went down.
pub any_decreased : NetworkTrafficCounters → NetworkTrafficCounters → Bool
any_decreased previous current =
    decreased previous.rx_bytes current.rx_bytes
    || (decreased previous.tx_bytes current.tx_bytes
        || (decreased previous.rx_packets current.rx_packets
            || (decreased previous.tx_packets current.tx_packets
                || (decreased previous.rx_errors current.rx_errors
                    || (decreased previous.tx_errors current.tx_errors
                        || (decreased previous.rx_dropped current.rx_dropped
                            || decreased previous.tx_dropped current.tx_dropped))))))

-- One round of the local `sum` of `synthesizeAggregateCounters`; `none` once it returned.
pub checked_add : Option ℕ → Option ℕ → Option ℕ
checked_add none value = none
checked_add (some total) none = none
checked_add (some total) (some value) =
    if ltb (u64_max - total) value then none else some (total + value)

pub add_members :
    (NetworkTrafficCounters → Option ℕ) → Option ℕ → List NetworkTrafficCounters → Option ℕ
add_members extract total [] = total
add_members extract total (member ∷ rest) =
    add_members extract (checked_add total (extract member)) rest

unfoldable pub sum : List NetworkTrafficCounters → (NetworkTrafficCounters → Option ℕ) → Option ℕ
sum [] extract = none
sum (member ∷ rest) extract = add_members extract (some 0) (member ∷ rest)

-- `synthesizeAggregateCounters`.
pub synthesize_aggregate_counters : List NetworkTrafficCounters → Text → NetworkTrafficCounters
synthesize_aggregate_counters members name = record {
  identity = all_identity;
  name = name;
  rx_bytes = sum members (λ c. c.rx_bytes);
  tx_bytes = sum members (λ c. c.tx_bytes);
  rx_packets = sum members (λ c. c.rx_packets);
  tx_packets = sum members (λ c. c.tx_packets);
  rx_errors = sum members (λ c. c.rx_errors);
  tx_errors = sum members (λ c. c.tx_errors);
  rx_dropped = sum members (λ c. c.rx_dropped);
  tx_dropped = sum members (λ c. c.tx_dropped);
}

pub no_rates : {F : Type 0} → NetworkTrafficRates F
no_rates = record {
  rx_bytes_per_second = none;
  tx_bytes_per_second = none;
  rx_packets_per_second = none;
  tx_packets_per_second = none;
  rx_errors_per_second = none;
  tx_errors_per_second = none;
  rx_dropped_per_second = none;
  tx_dropped_per_second = none;
}

module _ {F : Type 0} ⦃d : Double F⦄ where
  -- `rateFor`.
  pub rate_for : Option ℕ → Option ℕ → F → Option F
  rate_for none current seconds = none
  rate_for (some a) none seconds = none
  rate_for (some a) (some b) seconds =
      if not (d.lt (d.of_nat 0) seconds)
      then none
      else if ltb b a
      then none
      else some (d.div (d.of_nat (b - a)) seconds)

  -- There is no safe window between the two readouts.
  pub unusable : NetworkTrafficCounters → NetworkTrafficCounters → F → Bool
  unusable previous current seconds =
      not (d.is_finite seconds)
      || (not (d.lt (d.of_nat 0) seconds)
          || (previous.identity == [] || not (previous.identity == current.identity)))

  -- `deriveTrafficRates`.
  pub derive_traffic_rates :
      NetworkTrafficCounters → NetworkTrafficCounters → F → NetworkTrafficRates F
  derive_traffic_rates previous current seconds =
      if unusable previous current seconds
      then no_rates
      else if any_decreased previous current
      then no_rates
      else record {
        rx_bytes_per_second = rate_for previous.rx_bytes current.rx_bytes seconds;
        tx_bytes_per_second = rate_for previous.tx_bytes current.tx_bytes seconds;
        rx_packets_per_second = rate_for previous.rx_packets current.rx_packets seconds;
        tx_packets_per_second = rate_for previous.tx_packets current.tx_packets seconds;
        rx_errors_per_second = rate_for previous.rx_errors current.rx_errors seconds;
        tx_errors_per_second = rate_for previous.tx_errors current.tx_errors seconds;
        rx_dropped_per_second = rate_for previous.rx_dropped current.rx_dropped seconds;
        tx_dropped_per_second = rate_for previous.tx_dropped current.tx_dropped seconds;
      }
