-- ===== src/Gateway/SessionCache/Accounts.antt =====
-- Every session that is built is closed once, or is cached and open.
use orbeat_community.Prelude.{
  some_inj, ℕ, String, ◌≡◌, refl, sym, ap, ◌∙◌, inl, inr, Bool, true, false, ◌||◌, Option, none,
  some, List, [], ◌∷◌, ◌++◌, ◌==◌, eqb, arith, eq_iff, eq_refl, Bool-cases, Option-cases,
  if◌then◌else◌,
}
use orbeat_community.Prelude.Assoc.{
  Assoc, lookup, insert, lookup-insert, lookup-erase, Distinct-insert,
}
use orbeat_community.Gateway.SessionCache.{
  CachedSession, Owner, TransportBinding, SessionCache, modify, stale_transports, close_session,
  drop_where, reclaim_cause, get_checked, get_found, get, put, build, build_missing, or_build,
  get_or_build, bind_found, bind_transport, mark_dirty, of_tenant, invalidate_tenant, reap,
  explicit, close_all, Step, fetch, bind, soil, invalidate, collect, shut, step, steps,
  new_session_cache,
}
use orbeat_community.Gateway.SessionCache.Drops.{
  IsAccounted, SameAccount, SameAccount-IsAccounted, drop-m, drop-IsAccounted,
  drop_where-IsAccounted,
}

-- A change of one session that the account does not look at.
touch_heap :
    (c : SessionCache) (r : ℕ) (f : CachedSession → CachedSession)
    → ((s : CachedSession) → (f s).closes ≡ s.closes)
    → ((s : CachedSession) → (f s).cache_key ≡ s.cache_key)
    → (bound : Assoc TransportBinding)
    → SameAccount c (record c { bound = bound; heap = modify r f c.heap })
touch_heap c r f closes key bound = record {
  same_m = refl;
  same_next = refl;
  same_closes = λ k. elim (Bool-cases (eqb k r)) [
    | inl same ↦ rw same (closes (c.heap k))
    | inr other ↦ rw other refl
  ];
  same_key = λ k. elim (Bool-cases (eqb k r)) [
    | inl same ↦ rw same (key (c.heap k))
    | inr other ↦ rw other refl
  ];
}

get-IsAccounted :
    (key : String) (now : ℕ) (c : SessionCache) → IsAccounted c → IsAccounted (get key now c).1
unfolding get get_found get_checked
get-IsAccounted key now c h = elim (Option-cases (lookup key c.m)) [
  | inl missing ↦ rw missing h
  | inr (r, there) ↦ elim (Option-cases (reclaim_cause c.ttl c.max_age now (c.heap r))) [
    | inr (cause, expired) ↦ rw (there, expired) (drop-IsAccounted c key r cause now there h)
    | inl live ↦
        rw (there, live)
          (SameAccount-IsAccounted c _
            (touch_heap c r (λ s. record s { last_seen = now }) (λ s. refl) (λ s. refl) c.bound) h)
  ]
]

-- After a miss the key is not in the map.
get-miss :
    (key : String) (now : ℕ) (c : SessionCache)
    → (get key now c).0 ≡ none
    → lookup key (get key now c).1.m ≡ none
unfolding get get_found get_checked
get-miss key now c miss = elim (Option-cases (lookup key c.m)) [
  | inl missing ↦ rw missing missing
  | inr (r, there) ↦ elim (Option-cases (reclaim_cause c.ttl c.max_age now (c.heap r))) [
    | inr (cause, expired) ↦
        rw (there, expired)
          (ap (lookup key) (drop-m c key r cause now)
            ∙ lookup-erase key key c.m
            ∙ rw (eq_refl key) refl)
    | inl live ↦ cc (rw (there, live) at miss)
  ]
]

build-put-IsAccounted :
    (key : String) (owner : Owner) (later : ℕ) (c : SessionCache)
    → lookup key c.m ≡ none
    → IsAccounted c
    → IsAccounted (put key c.next later (build owner c))
unfolding put close_session stale_transports
build-put-IsAccounted key owner later c missing h = elim (Bool-cases c.closed) [
  | inl closed ↦ rw closed (record {
    cached = λ key' r there.
        let (made, fresh, filed) = h.cached key' r there in
        let unhit : eqb r c.next ≡ false = ground arith in
        (omega arith, rw unhit fresh, rw unhit filed);
    settled = λ r made. elim (Bool-cases (eqb r c.next)) [
      | inl same ↦ rw same (inl refl)
      | inr other ↦ rw other (h.settled r (ground arith))
    ];
    distinct = h.distinct;
  })
  | inr running ↦ rw running (record {
    cached = λ key' r there.
        let found : (if key == key' then some c.next else lookup key' c.m) ≡ some r =
          sym (lookup-insert key key' c.next c.m) ∙ there in
        elim (Bool-cases (key == key')) [
          | inl same ↦
              let e : c.next ≡ r = some_inj (rw same at found) in
              let hit : eqb r c.next ≡ true = ground arith in
              rw hit (omega arith, refl, (eq_iff key key').0 same)
          | inr other ↦
              let (made, fresh, filed) = h.cached key' r (rw other at found) in
              let unhit : eqb r c.next ≡ false = ground arith in
              rw unhit (omega arith, fresh, filed)
        ];
    settled = λ r made. elim (Bool-cases (eqb r c.next)) [
      | inl same ↦
          let e : c.next ≡ r = ground arith in
          rw same (inr (lookup-insert key key c.next c.m ∙ rw (eq_refl key) (ap some e)))
      | inr other ↦ elim (h.settled r (ground arith)) [
        | inl closed_once ↦ rw other (inl closed_once)
        | inr cached ↦
            let apart : key == (c.heap r).cache_key ≡ false =
              ground (arith, eq_iff key (c.heap r).cache_key) in
            rw other (inr (lookup-insert key (c.heap r).cache_key c.next c.m ∙ rw apart cached))
      ]
    ];
    distinct = Distinct-insert key c.next c.m h.distinct;
  })
]

build_missing-IsAccounted :
    (key : String) (later : ℕ) (owner : Option Owner) (o : Option ℕ) (c : SessionCache)
    → (o ≡ none → lookup key c.m ≡ none)
    → IsAccounted c
    → IsAccounted (build_missing key later owner (o, c)).1
unfolding build_missing
build_missing-IsAccounted key later owner (some r) c miss h = h
build_missing-IsAccounted key later none none c miss h = h
build_missing-IsAccounted key later (some owner) none c miss h =
    build-put-IsAccounted key owner later c (miss refl) h

or_build-IsAccounted :
    (key : String) (later : ℕ) (owner : Option Owner) (o : Option ℕ) (c : SessionCache)
    → IsAccounted c
    → IsAccounted (or_build key later owner (o, c)).1
unfolding or_build
or_build-IsAccounted key later owner (some r) c h = h
or_build-IsAccounted key later owner none c h =
    build_missing-IsAccounted key later owner (get key later c).0 (get key later c).1
      (get-miss key later c) (get-IsAccounted key later c h)

drop_all-IsAccounted :
    (why : CachedSession → Option String) (now : ℕ) (c : SessionCache)
    → IsAccounted c
    → IsAccounted (drop_where why now c.m c)
drop_all-IsAccounted why now c h = drop_where-IsAccounted why now c.m c h.distinct (λ key r e. e) h

bind_found-IsAccounted :
    (id : String) (r : ℕ) (c : SessionCache) (o : Option TransportBinding)
    → IsAccounted c
    → IsAccounted (bind_found id r c o)
unfolding bind_found
bind_found-IsAccounted id r c (some b) h = h
bind_found-IsAccounted id r c none h =
    SameAccount-IsAccounted c _
      (touch_heap c r (λ s. record s { transport_ids = s.transport_ids ++ id ∷ [] }) (λ s. refl)
        (λ s. refl) (insert id (record { sess = some r; cause = ""; stale_at = 0 }) c.bound))
      h

with_flag :
    (flag : Bool) (c : SessionCache) → IsAccounted c → IsAccounted (record c { closed = flag })
with_flag flag c h = record { cached = h.cached; settled = h.settled; distinct = h.distinct }

pub step-IsAccounted : (c : SessionCache) (s : Step) → IsAccounted c → IsAccounted (step c s)
unfolding step get_or_build bind_transport mark_dirty invalidate_tenant reap close_all
step-IsAccounted c (fetch key now later owner) h =
    or_build-IsAccounted key later owner (get key now c).0 (get key now c).1
      (get-IsAccounted key now c h)
step-IsAccounted c (bind id r) h = elim (Bool-cases (id == "" || c.closed)) [
  | inl refused ↦ rw refused h
  | inr taken ↦ rw taken (bind_found-IsAccounted id r c (lookup id c.bound) h)
]
step-IsAccounted c (soil r) h =
    SameAccount-IsAccounted c _
      (touch_heap c r (λ s. record s { dirty = true }) (λ s. refl) (λ s. refl) c.bound) h
step-IsAccounted c (invalidate tenant now) h = elim (Bool-cases c.closed) [
  | inl closed ↦ rw closed (with_flag true c h)
  | inr running ↦ rw running (
      drop_all-IsAccounted (of_tenant tenant) now (record c { closed = false })
        (with_flag false c h))
]
step-IsAccounted c (collect now) h =
    let dropped = drop_all-IsAccounted (reclaim_cause c.ttl c.max_age now) now c h in
    record { cached = dropped.cached; settled = dropped.settled; distinct = dropped.distinct }
step-IsAccounted c (shut now) h =
    drop_all-IsAccounted explicit now (record c { closed = true }) (with_flag true c h)

nothing : (key : String) (r : ℕ) → lookup key [] ≡ some r → ⊥
unfolding lookup
nothing key r e = cc

steps_keep : (c : SessionCache) (ss : List Step) → IsAccounted c → IsAccounted (steps c ss)
unfolding steps
steps_keep c [] h = h
steps_keep c (s ∷ ss) h = steps_keep (step c s) ss (step-IsAccounted c s h)

-- From a new cache, whatever fetches, bindings, reaps, invalidations and shutdowns happen in
-- whatever order: a cached session is filed under its own key and was never closed, no key stands
-- twice, and a session that was built and is not cached was closed exactly once: none leaks and
-- none is closed twice.
pub steps-IsAccounted :
    (ttl max_age : ℕ) (ss : List Step) → IsAccounted (steps (new_session_cache ttl max_age) ss)
steps-IsAccounted ttl max_age ss = steps_keep (new_session_cache ttl max_age) ss (record {
  cached = λ key r e. absurd (nothing key r e);
  settled = λ r e. absurd (omega arith);
  distinct = tt;
})
