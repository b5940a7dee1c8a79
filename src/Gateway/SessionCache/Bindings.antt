-- ===== src/Gateway/SessionCache/Bindings.antt =====
-- What a transport is bound to after a reap.
use orbeat_community.Prelude.{
  some_inj, ℕ, ◌+◌, ◌*◌, String, ◌≡◌, refl, sym, ap, ◌∙◌, inl, inr, true, Option, none, some, List,
  [], ◌∷◌, ◌==◌, ltb, arith, Bool-cases,
}
use orbeat_community.Prelude.Assoc.{Assoc, lookup}
use orbeat_community.Gateway.SessionCache.{
  TransportBinding, SessionCache, points_to, is_current, sweep_binding, keep_swept, sweep_bindings,
  drop_where, reclaim_cause, reap, Step, collect, step, steps, new_session_cache,
}
use orbeat_community.Gateway.SessionCache.Accounts.{steps-IsAccounted, step-IsAccounted}

-- The session that the binding points to, if it points to one, is the one cached under its key.
abbrev IsLive : SessionCache → TransportBinding → Type 0
IsLive c b = (r : ℕ) → b.sess ≡ some r → lookup (c.heap r).cache_key c.m ≡ some r

abbrev OkLive : SessionCache → Option TransportBinding → Type 0
OkLive c none = Unit
OkLive c (some b) = IsLive c b

pub points_to_iff : (o : Option ℕ) (r : ℕ) → points_to o r ≡ true → o ≡ some r
points_to_iff none r h = cc
points_to_iff (some k) r h = ap some (ground arith)

nowhere : (id : String) (b : TransportBinding) → lookup id [] ≡ some b → ⊥
unfolding lookup
nowhere id b e = cc

sweep_binding-OkLive :
    (c : SessionCache) (now : ℕ) (b : TransportBinding) (o : Option ℕ)
    → b.sess ≡ o
    → OkLive c (sweep_binding c now b o)
unfolding sweep_binding
sweep_binding-OkLive c now b none e = elim (Bool-cases (ltb (b.stale_at + 2 * c.max_age) now)) [
  | inl old ↦ rw old tt
  | inr kept ↦ rw kept (λ r live. cc)
]
sweep_binding-OkLive c now b (some k) e = elim (Bool-cases (is_current c k)) [
  | inr gone ↦ rw gone (λ r live. cc)
  | inl current ↦ rw current (λ r live.
      let same : k ≡ r = some_inj (sym e ∙ live) in
      rw (← same) (points_to_iff (lookup (c.heap k).cache_key c.m) k current))
]

lookup-keep_swept :
    (c : SessionCache) (id id' : String) (o : Option TransportBinding)
    (rest : Assoc TransportBinding)
    → OkLive c o
    → ((b : TransportBinding) → lookup id rest ≡ some b → IsLive c b)
    → (b : TransportBinding) → lookup id (keep_swept id' o rest) ≡ some b
    → IsLive c b
unfolding lookup
lookup-keep_swept c id id' none rest ok_ later b there = later b there
lookup-keep_swept c id id' (some b') rest ok_ later b there = elim (Bool-cases (id' == id)) [
  | inr other ↦ later b (rw other at there)
  | inl same ↦ let e : b' ≡ b = some_inj (rw same at there) in rw (← e) ok_
]

sweep_bindings-IsLive :
    (c : SessionCache) (now : ℕ) (bound : Assoc TransportBinding) (id : String)
    (b : TransportBinding)
    → lookup id (sweep_bindings c now bound) ≡ some b
    → IsLive c b
unfolding sweep_bindings
sweep_bindings-IsLive c now [] id b there = absurd (nowhere id b there)
sweep_bindings-IsLive c now ((id', b') ∷ rest) id b there =
    lookup-keep_swept c id id' (sweep_binding c now b' b'.sess) (sweep_bindings c now rest)
      (sweep_binding-OkLive c now b' b'.sess refl)
      (λ found at_rest. sweep_bindings-IsLive c now rest id found at_rest) b there

-- After a reap, whatever happened before it, a transport that is bound to a session is bound to one
-- that is cached under its key and was never closed.
pub collect-IsLive :
    (ttl max_age : ℕ) (ss : List Step) (now : ℕ) (id : String) (b : TransportBinding) (r : ℕ)
    → let c = step (steps (new_session_cache ttl max_age) ss) (collect now) in
      lookup id c.bound ≡ some b
      → b.sess ≡ some r
      → (lookup (c.heap r).cache_key c.m ≡ some r) × ((c.heap r).closes ≡ 0)
unfolding step reap
collect-IsLive ttl max_age ss now id b r there live =
    let c = steps (new_session_cache ttl max_age) ss in
    let c' = drop_where (reclaim_cause c.ttl c.max_age now) now c.m c in
    let cached = sweep_bindings-IsLive c' now c'.bound id b there r live in
    let accounted = step-IsAccounted c (collect now) (steps-IsAccounted ttl max_age ss) in
    (cached, (accounted.cached (c'.heap r).cache_key r cached).1)
