-- ===== src/RateLimit/Concurrency/Balance.antt =====
-- The in-flight counts against the release functions that the callers hold.
use orbeat_community.Prelude.{
  ℕ, zero, suc, ◌+◌, ◌-◌, ◌≤◌, ◌<◌, String, ◌≡◌, refl, ◌∙◌, Bool, true, Option, none, some, List,
  [], ◌∷◌, eq_iff, arith, ltb, eqb, Bool-cases, Option-cases, inl, inr, if◌then◌else◌,
}
use orbeat_community.Prelude.Assoc.{lookup, Distinct, Distinct-insert}
use orbeat_community.RateLimit.Concurrency.{
  ConcurrencyLimiter, new_concurrency, acquire_at, release, release_key, in_flight, sweep, Handle,
  System, once_do, take, Call, acquire, give_back, tick, call, run,
}
use orbeat_community.RateLimit.Concurrency.Slots.{
  one_if, acquire_at_lem, in_flight-release, in_flight-sweep, Distinct-sweep_slots,
}

-- The release functions for the key that have not run: the key's operations in flight.
pub live : String → List Handle → ℕ
live k [] = 0
live k (h ∷ hs) = (if h.fired then 0 else one_if h.key k) + live k hs

abbrev released : String → Option String → ℕ
released k none = 0
released k (some key) = one_if key k

live-once_do :
    (k : String) (hs : List Handle) (i : ℕ)
    → live k (once_do hs i).1 + released k (once_do hs i).0 ≡ live k hs
unfolding live once_do
live-once_do k [] i = refl
live-once_do k (h ∷ hs) zero = ground arith
live-once_do k (h ∷ hs) (suc i) = ground (arith, live-once_do k hs i)

-- A fired release function stays fired: to call it again does nothing.
pub once_do_twice : (hs : List Handle) (i : ℕ) → (once_do (once_do hs i).1 i).0 ≡ none
unfolding once_do
once_do_twice [] i = refl
once_do_twice (h ∷ hs) zero = ground arith
once_do_twice (h ∷ hs) (suc i) = once_do_twice hs i

-- Every key's count is the number of its operations in flight, and within the cap.
pub record IsBalanced (s : System) : Type 0 where
  pub capped : 0 < s.limiter.max
  pub distinct : Distinct s.limiter.slots
  pub balance : (k : String) → in_flight s.limiter k ≡ live k s.handles
  pub within : (k : String) → live k s.handles ≤ s.limiter.max

acquire_at_keeps :
    (c : ConcurrencyLimiter) (key : String) (now : ℕ) (sample : Bool)
    → Distinct c.slots
    → Distinct (acquire_at c key now sample).1.slots × ((acquire_at c key now sample).1.max ≡ c.max)
unfolding acquire_at
acquire_at_keeps c key now sample d = elim (Bool-cases (eqb c.max 0)) [
  | inl off ↦ rw off (d, refl)
  | inr on ↦ rw on (Distinct-insert key _ c.slots d, refl)
]

release_found_keeps :
    (c : ConcurrencyLimiter) (key : Option String) (now : ℕ)
    → Distinct c.slots
    → Distinct (release_key c key now).slots × ((release_key c key now).max ≡ c.max)
unfolding release
release_found_keeps c none now d = (d, refl)
release_found_keeps c (some key) now d = elim (Option-cases (lookup key c.slots)) [
  | inl e ↦ rw e (d, refl)
  | inr (s, e) ↦ elim (Bool-cases (eqb s.n 0)) [
    | inl at_zero ↦ rw (e, at_zero) (d, refl)
    | inr busy ↦ rw (e, busy) (Distinct-insert key _ c.slots d, refl)
  ]
]

in_flight-release_key :
    (c : ConcurrencyLimiter) (key : Option String) (k : String) (now : ℕ)
    → in_flight (release_key c key now) k ≡ in_flight c k - released k key
in_flight-release_key c none k now = omega arith
in_flight-release_key c (some key) k now = in_flight-release c key k now

-- A successful acquire leaves room for itself.
within-take :
    (s : System) (key k : String)
    → IsBalanced s
    → ltb (in_flight s.limiter key) s.limiter.max ≡ true
    → one_if key k + live k s.handles ≤ s.limiter.max
within-take s key k h room = ground (arith, eq_iff key k, h.balance key, h.within key, h.within k)

take-IsBalanced :
    (s : System) (key : String) (now : ℕ) (sample : Bool)
    → IsBalanced s
    → IsBalanced (take s key now sample).1
unfolding take live
take-IsBalanced s key now sample h =
    let (a, c) = acquire_at s.limiter key now sample in
    let (d, same) = acquire_at_keeps s.limiter key now sample h.distinct in
    let effect = λ (k : String). acquire_at_lem s.limiter key k now sample h.capped in
    let max_pos : ltb 0 c.max ≡ true = rw same (ground (arith, h.capped)) in
    elim (Bool-cases a.ok) [
      | inl ok ↦
          rw (ok, max_pos)
            (record {
              capped = rw same h.capped;
              distinct = d;
              balance = λ k. ground (arith, effect k, h.balance k);
              within = λ k. rw same (within-take s key k h (ground (arith, effect key)));
            })
      | inr denied ↦ rw denied (record {
        capped = rw same h.capped;
        distinct = d;
        balance = λ k. ground (arith, effect k, h.balance k);
        within = λ k. rw same (h.within k);
      })
    ]

give_back-IsBalanced :
    (s : System) (i now : ℕ) → IsBalanced s → IsBalanced (call s (give_back i now))
unfolding call
give_back-IsBalanced s i now h =
    let (key, hs) = once_do s.handles i in
    let (d, same) = release_found_keeps s.limiter key now h.distinct in
    record {
      capped = rw same h.capped;
      distinct = d;
      balance = λ k. omega (
        arith,
        in_flight-release_key s.limiter key k now,
        live-once_do k s.handles i,
        h.balance k,
      );
      within = λ k. rw same (omega (arith, live-once_do k s.handles i, h.within k));
    }

call-IsBalanced : (s : System) (c : Call) → IsBalanced s → IsBalanced (call s c)
call-IsBalanced s (acquire key now sample) h = unfold call in take-IsBalanced s key now sample h
call-IsBalanced s (give_back i now) h = give_back-IsBalanced s i now h
call-IsBalanced s (tick now) h =
    unfold call in
    record {
      capped = unfold sweep in h.capped;
      distinct = unfold sweep in Distinct-sweep_slots s.limiter.ttl now s.limiter.slots h.distinct;
      balance = λ k. in_flight-sweep s.limiter k now h.distinct ∙ h.balance k;
      within = λ k. unfold sweep in h.within k;
    }

max-release_key :
    (c : ConcurrencyLimiter) (key : Option String) (now : ℕ) → (release_key c key now).max ≡ c.max
unfolding release
max-release_key c none now = refl
max-release_key c (some key) now = ground arith

max-call : (s : System) (c : Call) → (call s c).limiter.max ≡ s.limiter.max
unfolding call take acquire_at sweep
max-call s (acquire key now sample) = ground arith
max-call s (give_back i now) = max-release_key s.limiter (once_do s.handles i).0 now
max-call s (tick now) = refl

max-run : (s : System) (cs : List Call) → (run s cs).limiter.max ≡ s.limiter.max
unfolding run
max-run s [] = refl
max-run s (c ∷ cs) = max-run (call s c) cs ∙ max-call s c

run-IsBalanced : (s : System) (cs : List Call) → IsBalanced s → IsBalanced (run s cs)
unfolding run
run-IsBalanced s [] h = h
run-IsBalanced s (c ∷ cs) h = run-IsBalanced (call s c) cs (call-IsBalanced s c h)

abbrev pub start : ℕ → ℕ → System
start max ttl = record { limiter = new_concurrency max ttl; handles = [] }

start-IsBalanced : (max ttl : ℕ) → 0 < max → IsBalanced (start max ttl)
unfolding live lookup
start-IsBalanced max ttl pos = record {
  capped = pos;
  distinct = tt;
  balance = λ k. refl;
  within = λ k. omega arith;
}

-- From a new limiter with a positive cap, whatever acquires, calls of release functions (also
-- repeated ones, and of functions that no caller holds) and sweeps happen in whatever order: the
-- count that InFlight reports for a key is the number of its operations in flight, it is within
-- the cap, and the next acquire for the key succeeds exactly while the number is below the cap.
pub in_flight-run :
    (max ttl : ℕ) (cs : List Call) (k : String)
    → 0 < max
    → let s = run (start max ttl) cs in
      (in_flight s.limiter k ≡ live k s.handles)
      × (live k s.handles ≤ max)
      × ((now : ℕ) (sample : Bool)
          → (acquire_at s.limiter k now sample).0.ok ≡ ltb (live k s.handles) max)
in_flight-run max ttl cs k pos =
    let s = run (start max ttl) cs in
    let h = run-IsBalanced (start max ttl) cs (start-IsBalanced max ttl pos) in
    let cap = max-run (start max ttl) cs in
    (
      h.balance k,
      omega (arith, h.within k, cap),
      λ now sample.
          ground (arith, acquire_at_lem s.limiter k k now sample h.capped, h.balance k, cap),
    )
