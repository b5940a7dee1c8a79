-- ===== src/Gateway/SessionCache/Causes.antt =====
-- The causes that the bindings carry.
use orbeat_community.Prelude.{
  some_inj, ℕ, ◌+◌, ◌*◌, String, ◌≡◌, refl, inl, inr, true, ◌||◌, Option, none, some, List, [], ◌∷◌,
  ◌==◌, ltb, All, Among, arith, subst, Bool-cases, Option-cases,
}
use orbeat_community.Prelude.Assoc.{Assoc, lookup, All-insert}
use orbeat_community.Gateway.SessionCache.{
  CachedSession, TransportBinding, Owner, SessionCache, points_to, stale_binding, stale_bindings,
  stale_transports, close_session, drop, drop_entry, drop_where, reclaim_cause, get_checked,
  get_found, get, put, build, build_missing, or_build, get_or_build, bind_found, bind_transport,
  mark_dirty, of_tenant, invalidate_tenant, is_current, sweep_binding, keep_swept, sweep_bindings,
  reap, explicit, close_all, Step, fetch, bind, soil, invalidate, collect, shut, step, steps,
}

-- The causes of an eviction, and the one for a binding that no eviction marked.
abbrev pub causes : List String
causes =
    "dirty" ∷ "max_age" ∷ "idle_timeout" ∷ "explicit_close" ∷ "entitlement_change" ∷ "unknown" ∷ []

-- A binding with a session carries no cause, and a tombstone one of the causes.
abbrev pub Marked : Option ℕ → String → Type 0
Marked none cause = Among cause causes
Marked (some r) cause = cause ≡ ""

abbrev pub IsMarked : String × TransportBinding → Type 0
IsMarked (id, b) = Marked b.sess b.cause

abbrev pub AllMarked : SessionCache → Type 0
AllMarked c = All IsMarked c.bound

-- What a loop over the map gives as causes.
abbrev Names : (CachedSession → Option String) → Type 0
Names why = (s : CachedSession) (cause : String) → why s ≡ some cause → Among cause causes

explicit-cause : Among "explicit_close" causes
explicit-cause = inr (inr (inr (inl refl)))

of_tenant-Names : (tenant : String) → Names (of_tenant tenant)
of_tenant-Names tenant s cause e = ground arith

explicit-Names : Names explicit
explicit-Names s cause e = ground arith

reclaim_cause-Names : (ttl max_age now : ℕ) → Names (reclaim_cause ttl max_age now)
unfolding reclaim_cause
reclaim_cause-Names ttl max_age now s cause e = ground arith

module _ (r : ℕ) (cause : String) (now : ℕ) (named : Among cause causes) where
  stale_binding-IsMarked :
      (id : String) (bound : Assoc TransportBinding) (o : Option TransportBinding)
      → All IsMarked bound
      → All IsMarked (stale_binding r cause now id bound o)
  unfolding stale_binding
  stale_binding-IsMarked id bound none h = h
  stale_binding-IsMarked id bound (some b) h = elim (Bool-cases (points_to b.sess r)) [
    | inl mine ↦ rw mine (All-insert IsMarked id _ bound named h)
    | inr other ↦ rw other h
  ]

  stale_bindings-IsMarked :
      (ids : List String) (bound : Assoc TransportBinding)
      → All IsMarked bound
      → All IsMarked (stale_bindings r cause now ids bound)
  unfolding stale_bindings
  stale_bindings-IsMarked [] bound h = h
  stale_bindings-IsMarked (id ∷ ids) bound h =
      stale_bindings-IsMarked ids _ (stale_binding-IsMarked id bound (lookup id bound) h)

  drop-AllMarked :
      (key : String) (c : SessionCache) → AllMarked c → AllMarked (drop key r cause now c)
  unfolding drop stale_transports close_session
  drop-AllMarked key c h = stale_bindings-IsMarked (c.heap r).transport_ids c.bound h

get-AllMarked :
    (key : String) (now : ℕ) (c : SessionCache) → AllMarked c → AllMarked (get key now c).1
unfolding get get_found get_checked
get-AllMarked key now c h = elim (Option-cases (lookup key c.m)) [
  | inl missing ↦ rw missing h
  | inr (r, there) ↦ elim (Option-cases (reclaim_cause c.ttl c.max_age now (c.heap r))) [
    | inr (cause, expired) ↦
        let named = reclaim_cause-Names c.ttl c.max_age now (c.heap r) cause expired in
        rw (there, expired) (drop-AllMarked r cause now named key c h)
    | inl live ↦ rw (there, live) h
  ]
]

put-AllMarked :
    (key : String) (r now : ℕ) (c : SessionCache) → AllMarked c → AllMarked (put key r now c)
unfolding put stale_transports close_session
put-AllMarked key r now c h = elim (Bool-cases c.closed) [
  | inl closed ↦ rw closed (
      stale_bindings-IsMarked r "explicit_close" now explicit-cause (c.heap r).transport_ids c.bound
        h)
  | inr running ↦ rw running h
]

build_missing-AllMarked :
    (key : String) (later : ℕ) (owner : Option Owner) (o : Option ℕ) (c : SessionCache)
    → AllMarked c
    → AllMarked (build_missing key later owner (o, c)).1
unfolding build_missing
build_missing-AllMarked key later owner (some r) c h = h
build_missing-AllMarked key later none none c h = h
build_missing-AllMarked key later (some owner) none c h =
    put-AllMarked key c.next later (build owner c) h

or_build-AllMarked :
    (key : String) (later : ℕ) (owner : Option Owner) (o : Option ℕ) (c : SessionCache)
    → AllMarked c
    → AllMarked (or_build key later owner (o, c)).1
unfolding or_build
or_build-AllMarked key later owner (some r) c h = h
or_build-AllMarked key later owner none c h =
    build_missing-AllMarked key later owner (get key later c).0 (get key later c).1
      (get-AllMarked key later c h)

drop_entry-AllMarked :
    (why : CachedSession → Option String) (key : String) (r now : ℕ) (c : SessionCache)
    (o : Option String)
    → why (c.heap r) ≡ o
    → Names why
    → AllMarked c
    → AllMarked (drop_entry why key r now c o)
unfolding drop_entry
drop_entry-AllMarked why key r now c none e names h = h
drop_entry-AllMarked why key r now c (some cause) e names h =
    drop-AllMarked r cause now (names (c.heap r) cause e) key c h

drop_where-AllMarked :
    (why : CachedSession → Option String) (now : ℕ) (entries : Assoc ℕ) (c : SessionCache)
    → Names why
    → AllMarked c
    → AllMarked (drop_where why now entries c)
unfolding drop_where
drop_where-AllMarked why now [] c names h = h
drop_where-AllMarked why now ((key, r) ∷ rest) c names h =
    drop_where-AllMarked why now rest _ names
      (drop_entry-AllMarked why key r now c (why (c.heap r)) refl names h)

bind_found-AllMarked :
    (id : String) (r : ℕ) (c : SessionCache) (o : Option TransportBinding)
    → AllMarked c
    → AllMarked (bind_found id r c o)
unfolding bind_found
bind_found-AllMarked id r c (some b) h = h
bind_found-AllMarked id r c none h = All-insert IsMarked id _ c.bound refl h

keep_swept-IsMarked :
    (c : SessionCache) (now : ℕ) (id : String) (b : TransportBinding) (o : Option ℕ)
    (rest : Assoc TransportBinding)
    → IsMarked (id, b)
    → All IsMarked rest
    → All IsMarked (keep_swept id (sweep_binding c now b o) rest)
unfolding sweep_binding
keep_swept-IsMarked c now id b (some r) rest here h = elim (Bool-cases (is_current c r)) [
  | inl current ↦ rw current (here, h)
  | inr gone ↦ rw gone (inr (inr (inr (inr (inr (inl refl))))), h)
]
keep_swept-IsMarked c now id b none rest here h =
    elim (Bool-cases (ltb (b.stale_at + 2 * c.max_age) now)) [
      | inl old ↦ rw old h
      | inr recent ↦ rw recent (here, h)
    ]

sweep_bindings-IsMarked :
    (c : SessionCache) (now : ℕ) (bound : Assoc TransportBinding)
    → All IsMarked bound
    → All IsMarked (sweep_bindings c now bound)
unfolding sweep_bindings
sweep_bindings-IsMarked c now [] h = h
sweep_bindings-IsMarked c now ((id, b) ∷ rest) (here, h) =
    keep_swept-IsMarked c now id b b.sess (sweep_bindings c now rest) here
      (sweep_bindings-IsMarked c now rest h)

pub step-AllMarked : (c : SessionCache) (s : Step) → AllMarked c → AllMarked (step c s)
unfolding step get_or_build bind_transport mark_dirty invalidate_tenant reap close_all
step-AllMarked c (fetch key now later owner) h =
    or_build-AllMarked key later owner (get key now c).0 (get key now c).1
      (get-AllMarked key now c h)
step-AllMarked c (bind id r) h = elim (Bool-cases (id == "" || c.closed)) [
  | inl refused ↦ rw refused h
  | inr taken ↦ rw taken (bind_found-AllMarked id r c (lookup id c.bound) h)
]
step-AllMarked c (soil r) h = h
step-AllMarked c (invalidate tenant now) h = elim (Bool-cases c.closed) [
  | inl closed ↦ rw closed h
  | inr running ↦
      rw running (drop_where-AllMarked (of_tenant tenant) now c.m _ (of_tenant-Names tenant) h)
]
step-AllMarked c (collect now) h =
    let why = reclaim_cause c.ttl c.max_age now in
    let dropped = drop_where-AllMarked why now c.m c (reclaim_cause-Names c.ttl c.max_age now) h in
    sweep_bindings-IsMarked (drop_where why now c.m c) now _ dropped
step-AllMarked c (shut now) h =
    drop_where-AllMarked explicit now c.m (record c { closed = true }) explicit-Names h

-- Whatever is done to the cache, its bindings stay marked.
pub steps-AllMarked : (c : SessionCache) (ss : List Step) → AllMarked c → AllMarked (steps c ss)
unfolding steps
steps-AllMarked c [] h = h
steps-AllMarked c (s ∷ ss) h = steps-AllMarked (step c s) ss (step-AllMarked c s h)

pub lookup-IsMarked :
    (id : String) (bound : Assoc TransportBinding) (b : TransportBinding)
    → All IsMarked bound
    → lookup id bound ≡ some b
    → IsMarked (id, b)
unfolding lookup
lookup-IsMarked id [] b h there = cc
lookup-IsMarked id ((id', b') ∷ rest) b (here, h) there = elim (Bool-cases (id' == id)) [
  | inl same ↦ let e : b' ≡ b = some_inj (rw same at there) in subst (λ x. IsMarked (id, x)) e here
  | inr other ↦ lookup-IsMarked id rest b h (rw other at there)
]
