-- ===== src/RateLimit/Concurrency/Slots.antt =====
-- What each method does to the in-flight count of every key.
use orbeat_community.Prelude.{
  ℕ, ◌+◌, ◌-◌, ◌<◌, String, ◌≡◌, refl, Bool, Option, none, some, [], ◌∷◌, ◌==◌, eq_iff, arith, ltb,
  eqb, Bool-cases, inl, inr, if◌then◌else◌,
}
use orbeat_community.Prelude.Assoc.{Assoc, lookup, lookup-insert, Distinct}
use orbeat_community.RateLimit.Concurrency.{
  Slot, ConcurrencyLimiter, slot_or_new, acquire_slot, acquire_at, release_slot, release_found,
  release, count_of, in_flight, sweep_slots, sweep,
}

-- One for the key itself, nothing for another.
abbrev pub one_if : String → String → ℕ
one_if key k = if key == k then 1 else 0

acquire_slot-count :
    (max : ℕ) (found : Option Slot) (now : ℕ) (sample : Bool)
    → let r = acquire_slot max (slot_or_new found) now sample in
      (r.0.ok ≡ ltb (count_of found) max) × (r.1.n ≡ count_of found + (if r.0.ok then 1 else 0))
unfolding acquire_slot
acquire_slot-count max none now sample = (ground arith, ground arith)
acquire_slot-count max (some s) now sample = (ground arith, ground arith)

-- With a cap set, an acquire succeeds exactly while the key's count is below it, and a successful
-- one adds one to the key's count; nothing else changes a count.
pub acquire_at_lem :
    (c : ConcurrencyLimiter) (key k : String) (now : ℕ) (sample : Bool)
    → 0 < c.max
    → let r = acquire_at c key now sample in
      (r.0.ok ≡ ltb (in_flight c key) c.max)
      × (in_flight r.1 k ≡ in_flight c k + (if r.0.ok then one_if key k else 0))
unfolding acquire_at
acquire_at_lem c key k now sample capped =
    let found = lookup key c.slots in
    let r = acquire_slot c.max (slot_or_new found) now sample in
    let (ok, count) = acquire_slot-count c.max found now sample in
    elim (Bool-cases (eqb c.max 0)) [
      | inl off ↦ absurd (ground arith)
      | inr on ↦ rw (on) (ok, rw (lookup-insert key k r.1 c.slots) (ground (arith, eq_iff key k)))
    ]

release_found-count :
    (c : ConcurrencyLimiter) (key k : String) (now : ℕ) (found : Option Slot)
    → lookup key c.slots ≡ found
    → in_flight (release_found c key now found) k ≡ in_flight c k - one_if key k
unfolding release_slot
release_found-count c key k now none e = ground (arith, eq_iff key k)
release_found-count c key k now (some s) e =
    ground (arith, eq_iff key k, lookup-insert key k (release_slot now s) c.slots)

-- A release takes one from the key's count, and never takes it below 0.
pub in_flight-release :
    (c : ConcurrencyLimiter) (key k : String) (now : ℕ)
    → in_flight (release c key now) k ≡ in_flight c k - one_if key k
unfolding release
in_flight-release c key k now = release_found-count c key k now (lookup key c.slots) refl

lookup-sweep_slots-none :
    (ttl now : ℕ) (k : String) (m : Assoc Slot)
    → lookup k m ≡ none
    → lookup k (sweep_slots ttl now m) ≡ none
unfolding lookup sweep_slots
lookup-sweep_slots-none ttl now k [] h = refl
lookup-sweep_slots-none ttl now k ((j, s) ∷ m) h =
    ground (arith, lookup-sweep_slots-none ttl now k m)

count_of-sweep_slots :
    (ttl now : ℕ) (k : String) (m : Assoc Slot)
    → Distinct m
    → count_of (lookup k (sweep_slots ttl now m)) ≡ count_of (lookup k m)
unfolding lookup sweep_slots
count_of-sweep_slots ttl now k [] d = refl
count_of-sweep_slots ttl now k ((j, s) ∷ m) (new, d) =
    ground
      (arith, eq_iff j k, count_of-sweep_slots ttl now k m d, lookup-sweep_slots-none ttl now k m)

-- A sweep changes no key's count: what it drops is idle.
pub in_flight-sweep :
    (c : ConcurrencyLimiter) (k : String) (now : ℕ)
    → Distinct c.slots
    → in_flight (sweep c now).1 k ≡ in_flight c k
unfolding sweep
in_flight-sweep c k now d = count_of-sweep_slots c.ttl now k c.slots d

pub Distinct-sweep_slots :
    (ttl now : ℕ) (m : Assoc Slot) → Distinct m → Distinct (sweep_slots ttl now m)
unfolding sweep_slots
Distinct-sweep_slots ttl now [] d = tt
Distinct-sweep_slots ttl now ((j, s) ∷ m) (new, d) =
    ground (arith, Distinct-sweep_slots ttl now m d, lookup-sweep_slots-none ttl now j m new)
