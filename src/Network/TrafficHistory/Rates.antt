-- ===== src/Network/TrafficHistory/Rates.antt =====
-- When two counter readouts give a rate (`deriveTrafficRates`, src/network_traffic_history.cpp).
use arch_task_manager.Base.{
  ℕ, ◌-◌, ◌≤◌, ◌≡◌, ◌≢◌, ◌↔◌, refl, ap, ap₂, ◌∙◌, sym, true, false, Option, none, some, [],
  text_equality, arith, ltb→le,
}
use mathlib.Core.Option.{some-injective}
use arch_task_manager.Base.Double.{Double}
use arch_task_manager.Network.TrafficAlert.Monitor.{NetworkTrafficRates}
use arch_task_manager.Network.TrafficHistory.{
  NetworkTrafficCounters, decreased, any_decreased, rate_for, unusable, derive_traffic_rates,
  no_rates,
}

-- The eight counters that a rate is derived from.
pub data Metric : Type 0 where
  received_bytes sent_bytes received_packets sent_packets : Metric
  received_errors sent_errors received_drops sent_drops : Metric

unfoldable pub counter : NetworkTrafficCounters → Metric → Option ℕ
counter c received_bytes = c.rx_bytes
counter c sent_bytes = c.tx_bytes
counter c received_packets = c.rx_packets
counter c sent_packets = c.tx_packets
counter c received_errors = c.rx_errors
counter c sent_errors = c.tx_errors
counter c received_drops = c.rx_dropped
counter c sent_drops = c.tx_dropped

pub rate : {F : Type 0} → NetworkTrafficRates F → Metric → Option F
rate r received_bytes = r.rx_bytes_per_second
rate r sent_bytes = r.tx_bytes_per_second
rate r received_packets = r.rx_packets_per_second
rate r sent_packets = r.tx_packets_per_second
rate r received_errors = r.rx_errors_per_second
rate r sent_errors = r.tx_errors_per_second
rate r received_drops = r.rx_dropped_per_second
rate r sent_drops = r.tx_dropped_per_second

-- A counter that both readouts have did not go down.
pub IsMonotone : Option ℕ → Option ℕ → Type 0
IsMonotone none b = Unit
IsMonotone (some a) none = Unit
IsMonotone (some a) (some b) = a ≤ b

IsMonotone-decreased : (a b : Option ℕ) → (decreased a b ≡ false) ↔ IsMonotone a b
unfolding decreased IsMonotone
IsMonotone-decreased none b = (λ e. tt, λ h. refl)
IsMonotone-decreased (some a) none = (λ e. tt, λ h. refl)
IsMonotone-decreased (some a) (some b) = (λ e. ltb→le b a e, λ h. ground arith)

none_decreased :
    (p c : NetworkTrafficCounters)
    → any_decreased p c ≡ false
    → (k : Metric) → decreased (counter p k) (counter c k) ≡ false
unfolding any_decreased counter
none_decreased p c e received_bytes = ground arith
none_decreased p c e sent_bytes = ground arith
none_decreased p c e received_packets = ground arith
none_decreased p c e sent_packets = ground arith
none_decreased p c e received_errors = ground arith
none_decreased p c e sent_errors = ground arith
none_decreased p c e received_drops = ground arith
none_decreased p c e sent_drops = ground arith

none_decreased_converse :
    (p c : NetworkTrafficCounters)
    → ((k : Metric) → decreased (counter p k) (counter c k) ≡ false)
    → any_decreased p c ≡ false
unfolding any_decreased counter
none_decreased_converse p c h =
    rw
      (
        h received_bytes,
        h sent_bytes,
        h received_packets,
        h sent_packets,
        h received_errors,
        h sent_errors,
        h received_drops,
        h sent_drops,
      )
      refl

-- A window in which rates can be read: its length is a positive number of seconds, both readouts
-- are of the same named interface, and no counter went down.
pub record IsWindow {F : Type 0} ⦃d : Double F⦄ (p c : NetworkTrafficCounters) (s : F)
    : Type 0 where
  pub finite : d.is_finite s ≡ true
  pub positive : d.lt (d.of_nat 0) s ≡ true
  pub named : p.identity ≢ []
  pub same : p.identity ≡ c.identity
  pub monotone : (k : Metric) → IsMonotone (counter p k) (counter c k)

module _ {F : Type 0} ⦃d : Double F⦄ where
  unusable_lem :
      (p c : NetworkTrafficCounters) (s : F)
      → unusable p c s ≡ false
      → (d.is_finite s ≡ true)
        × (d.lt (d.of_nat 0) s ≡ true)
        × (p.identity ≢ [])
        × (p.identity ≡ c.identity)
  unfolding unusable
  unusable_lem p c s e = ground (
    arith,
    (text_equality.beq_iff p.identity []).1,
    (text_equality.beq_iff p.identity c.identity).0,
  )

  unusable-IsWindow :
      (p c : NetworkTrafficCounters) (s : F) → IsWindow p c s → unusable p c s ≡ false
  unfolding unusable
  unusable-IsWindow p c s w = ground (
    arith,
    w.finite,
    w.positive,
    w.named,
    w.same,
    (text_equality.beq_iff p.identity []).0,
    (text_equality.beq_iff p.identity c.identity).1,
  )

  -- What a rate is: the difference of the two readouts, over the seconds.
  pub IsQuotient : Option ℕ → Option ℕ → F → F → Type 0
  IsQuotient p c s r =
      (a : ℕ) × (b : ℕ) × (p ≡ some a) × (c ≡ some b) × (r ≡ d.div (d.of_nat (b - a)) s)

  rate_for-IsQuotient :
      (p c : Option ℕ) (s r : F)
      → d.lt (d.of_nat 0) s ≡ true
      → decreased p c ≡ false
      → (rate_for p c s ≡ some r) ↔ IsQuotient p c s r
  unfolding rate_for decreased IsQuotient
  rate_for-IsQuotient none c s r e h = (λ q. ground arith, λ q. ground arith)
  rate_for-IsQuotient (some a) none s r e h = (λ q. ground arith, λ q. ground arith)
  rate_for-IsQuotient (some a) (some b) s r e h =
      rw (e, h)
        ((
          λ q. (a, b, refl, refl, sym (some-injective _ _ q)),
          λ (x, y, ex, ey, er). ap some (
              ap₂ (λ n m. d.div (d.of_nat (n - m)) s) (some-injective _ _ ey)
                (some-injective _ _ ex)
              ∙ sym er),
        ))

  rate-window :
      (p c : NetworkTrafficCounters) (s : F) (m : Metric)
      → unusable p c s ≡ false
      → any_decreased p c ≡ false
      → rate (derive_traffic_rates p c s) m ≡ rate_for (counter p m) (counter c m) s
  unfolding derive_traffic_rates rate counter
  rate-window p c s received_bytes e h = rw (e, h) refl
  rate-window p c s sent_bytes e h = rw (e, h) refl
  rate-window p c s received_packets e h = rw (e, h) refl
  rate-window p c s sent_packets e h = rw (e, h) refl
  rate-window p c s received_errors e h = rw (e, h) refl
  rate-window p c s sent_errors e h = rw (e, h) refl
  rate-window p c s received_drops e h = rw (e, h) refl
  rate-window p c s sent_drops e h = rw (e, h) refl

  rate-no_rates : (m : Metric) → rate (no_rates {F = F}) m ≡ none
  unfolding rate no_rates
  rate-no_rates received_bytes = refl
  rate-no_rates sent_bytes = refl
  rate-no_rates received_packets = refl
  rate-no_rates sent_packets = refl
  rate-no_rates received_errors = refl
  rate-no_rates sent_errors = refl
  rate-no_rates received_drops = refl
  rate-no_rates sent_drops = refl

  -- Without a window there is no rate at all.
  window_of_rate :
      (p c : NetworkTrafficCounters) (s : F) (m : Metric) (r : F)
      → rate (derive_traffic_rates p c s) m ≡ some r
      → (unusable p c s ≡ false) × (any_decreased p c ≡ false)
  unfolding derive_traffic_rates
  window_of_rate p c s m r e = ground (arith, rate-no_rates m)

  IsWindow-unusable :
      (p c : NetworkTrafficCounters) (s : F)
      → unusable p c s ≡ false
      → any_decreased p c ≡ false
      → IsWindow p c s
  IsWindow-unusable p c s e h =
      let u = unusable_lem p c s e in
      record {
        finite = u.0;
        positive = u.1;
        named = u.2;
        same = u.3;
        monotone =
            λ k. (IsMonotone-decreased (counter p k) (counter c k)).0 (none_decreased p c h k);
      }

  kept :
      (p c : NetworkTrafficCounters) (s : F)
      → IsWindow p c s
      → (k : Metric) → decreased (counter p k) (counter c k) ≡ false
  kept p c s w k = (IsMonotone-decreased (counter p k) (counter c k)).1 (w.monotone k)

  rate-IsWindow :
      (p c : NetworkTrafficCounters) (s : F) (m : Metric)
      → IsWindow p c s
      → rate (derive_traffic_rates p c s) m ≡ rate_for (counter p m) (counter c m) s
  rate-IsWindow p c s m w =
      rate-window p c s m (unusable-IsWindow p c s w) (none_decreased_converse p c (kept p c s w))

  -- `deriveTrafficRates` gives a rate for a counter exactly when the window is usable (a positive, finite number of seconds, the same named interface, and no counter that both readouts have went down) and both readouts have the counter; the rate is then their difference over the seconds.
  pub rate-derive_traffic_rates :
      (p c : NetworkTrafficCounters) (s : F) (m : Metric) (r : F)
      → (rate (derive_traffic_rates p c s) m ≡ some r)
        ↔ (IsWindow p c s × IsQuotient (counter p m) (counter c m) s r)
  rate-derive_traffic_rates p c s m r = (
    λ e.
        let seen = window_of_rate p c s m r e in
        let w = IsWindow-unusable p c s seen.0 seen.1 in
        (
          w,
          (rate_for-IsQuotient (counter p m) (counter c m) s r w.positive (kept p c s w m)).0
              (sym (rate-IsWindow p c s m w) ∙ e),
        ),
    λ (w, q).
        rate-IsWindow p c s m w
        ∙ (rate_for-IsQuotient (counter p m) (counter c m) s r w.positive (kept p c s w m)).1 q,
  )
