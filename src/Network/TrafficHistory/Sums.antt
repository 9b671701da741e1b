-- ===== src/Network/TrafficHistory/Sums.antt =====
-- The aggregate of counters (`synthesizeAggregateCounters`, src/network_traffic_history.cpp).
use arch_task_manager.Base.{
  ℕ, ◌+◌, ◌-◌, ◌≤◌, ◌≡◌, ◌≢◌, ◌↔◌, refl, ap, ◌∙◌, sym, true, false, Option, none, some, Text, List,
  [], ◌∷◌, arith, Bool-cases, inl, inr, ltb, All, is_some,
}
use mathlib.Core.Option.{some-injective, none-ne-some}
use mathlib.Core.Bool.{false≢true}
use mathlib.Core.List.{cons-ne-nil}
use arch_task_manager.Network.TrafficHistory.{
  NetworkTrafficCounters, checked_add, add_members, sum, synthesize_aggregate_counters, u64_max,
}
use arch_task_manager.Network.TrafficHistory.Rates.{
  Metric, received_bytes, sent_bytes, received_packets, sent_packets, received_errors, sent_errors,
  received_drops, sent_drops, counter,
}

-- The sum without a bound; a counter that is missing adds nothing.
pub or_zero : Option ℕ → ℕ
or_zero none = 0
or_zero (some n) = n

pub exact_sum : (NetworkTrafficCounters → Option ℕ) → List NetworkTrafficCounters → ℕ
exact_sum extract [] = 0
exact_sum extract (member ∷ rest) = or_zero (extract member) + exact_sum extract rest

-- All members have the counter, and `n` and their counters sum to `t`, which 64 bits hold.
pub SumsTo : (NetworkTrafficCounters → Option ℕ) → ℕ → List NetworkTrafficCounters → ℕ → Type 0
SumsTo extract n members t =
    All (λ c. is_some (extract c) ≡ true) members
    × (n + exact_sum extract members ≡ t)
    × (t ≤ u64_max)

add_members-none :
    (extract : NetworkTrafficCounters → Option ℕ) (members : List NetworkTrafficCounters)
    → add_members extract none members ≡ none
unfolding add_members checked_add
add_members-none extract [] = refl
add_members-none extract (c ∷ rest) = add_members-none extract rest

fits : (m n v : ℕ) → n ≤ m → ltb (m - n) v ≡ false → n + v ≤ m
fits m n v h e = ground arith

fits_converse : (m n v : ℕ) → n + v ≤ m → ltb (m - n) v ≡ false
fits_converse m n v h = ground arith

SumsTo-cons :
    (extract : NetworkTrafficCounters → Option ℕ) (n : ℕ) (c : NetworkTrafficCounters)
    (rest : List NetworkTrafficCounters) (t : ℕ)
    → SumsTo extract n (c ∷ rest) t
      ↔ ((is_some (extract c) ≡ true) × SumsTo extract (n + or_zero (extract c)) rest t)
unfolding SumsTo exact_sum
SumsTo-cons extract n c rest t = (
  λ (has, e, b). (has.0, (has.1, omega arith, b)),
  λ (one, (has, e, b)). ((one, has), omega arith, b),
)

-- One member of the sum; `ih` is what holds of the rest.
add_step-SumsTo :
    (extract : NetworkTrafficCounters → Option ℕ) (n : ℕ) (o : Option ℕ)
    (rest : List NetworkTrafficCounters) (t : ℕ)
    → n ≤ u64_max
    → ((k : ℕ) → k ≤ u64_max → add_members extract (some k) rest ≡ some t → SumsTo extract k rest t)
    → add_members extract (checked_add (some n) o) rest ≡ some t
    → (is_some o ≡ true) × SumsTo extract (n + or_zero o) rest t
unfolding checked_add or_zero
add_step-SumsTo extract n none rest t h ih =
    λ e. absurd (none-ne-some t (sym (add_members-none extract rest) ∙ e))
add_step-SumsTo extract n (some v) rest t h ih = elim (Bool-cases (ltb (u64_max - n) v)) [
  | inl over ↦ rw over (λ e. absurd (none-ne-some t (sym (add_members-none extract rest) ∙ e)))
  | inr room ↦ rw room (λ e. (refl, ih (n + v) (fits u64_max n v h room) e))
]

add_members-SumsTo :
    (extract : NetworkTrafficCounters → Option ℕ) (n : ℕ) (members : List NetworkTrafficCounters)
    (t : ℕ)
    → n ≤ u64_max
    → add_members extract (some n) members ≡ some t
    → SumsTo extract n members t
unfolding add_members SumsTo exact_sum
add_members-SumsTo extract n [] t h e =
    (tt, omega (arith, some-injective _ _ e), omega (arith, some-injective _ _ e))
add_members-SumsTo extract n (c ∷ rest) t h e = (SumsTo-cons extract n c rest t).1 (
    add_step-SumsTo extract n (extract c) rest t h
      (λ k b e'. add_members-SumsTo extract k rest t b e') e)

-- The converse: the exact sum is found where 64 bits hold it.
checked_add_exact :
    (n : ℕ) (o : Option ℕ)
    → is_some o ≡ true
    → n + or_zero o ≤ u64_max
    → checked_add (some n) o ≡ some (n + or_zero o)
unfolding checked_add or_zero
checked_add_exact n none e h = absurd (false≢true e)
checked_add_exact n (some v) e h = rw (fits_converse u64_max n v h) refl

SumsTo-add_members :
    (extract : NetworkTrafficCounters → Option ℕ) (n : ℕ) (members : List NetworkTrafficCounters)
    (t : ℕ)
    → SumsTo extract n members t
    → add_members extract (some n) members ≡ some t
unfolding add_members exact_sum SumsTo
SumsTo-add_members extract n [] t h = ap some (omega (arith, h.1))
SumsTo-add_members extract n (c ∷ rest) t h =
    let s = (SumsTo-cons extract n c rest t).0 h in
    ap (λ o. add_members extract o rest)
      (checked_add_exact n (extract c) s.0 (omega (arith, h.1, h.2)))
    ∙ SumsTo-add_members extract (n + or_zero (extract c)) rest t s.1

pub sum-SumsTo :
    (extract : NetworkTrafficCounters → Option ℕ) (members : List NetworkTrafficCounters) (t : ℕ)
    → (sum members extract ≡ some t) ↔ ((members ≢ []) × SumsTo extract 0 members t)
unfolding sum
sum-SumsTo extract [] t = (λ e. absurd (none-ne-some t e), λ (h, s). absurd (h refl))
sum-SumsTo extract (c ∷ rest) t = (
  λ e. (
    λ q. absurd (cons-ne-nil c rest q),
    add_members-SumsTo extract 0 (c ∷ rest) t (omega arith) e,
  ),
  λ (h, s). SumsTo-add_members extract 0 (c ∷ rest) t s,
)

-- A counter of the aggregate is given by `synthesizeAggregateCounters` exactly when there is a member, every member has that counter, and their sum is at most the greatest 64-bit number; the counter is then that sum, so it never wraps around.
pub counter-synthesize_aggregate_counters :
    (members : List NetworkTrafficCounters) (name : Text) (m : Metric) (t : ℕ)
    → (counter (synthesize_aggregate_counters members name) m ≡ some t)
      ↔ ((members ≢ []) × SumsTo (λ c. counter c m) 0 members t)
unfolding synthesize_aggregate_counters counter
counter-synthesize_aggregate_counters members name received_bytes t = sum-SumsTo _ members t
counter-synthesize_aggregate_counters members name sent_bytes t = sum-SumsTo _ members t
counter-synthesize_aggregate_counters members name received_packets t = sum-SumsTo _ members t
counter-synthesize_aggregate_counters members name sent_packets t = sum-SumsTo _ members t
counter-synthesize_aggregate_counters members name received_errors t = sum-SumsTo _ members t
counter-synthesize_aggregate_counters members name sent_errors t = sum-SumsTo _ members t
counter-synthesize_aggregate_counters members name received_drops t = sum-SumsTo _ members t
counter-synthesize_aggregate_counters members name sent_drops t = sum-SumsTo _ members t
