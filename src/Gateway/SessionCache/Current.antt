-- ===== src/Gateway/SessionCache/Current.antt =====
-- What getOrBuild returns is what the cache holds.
use orbeat_community.Prelude.{
  ℕ, String, ◌≡◌, refl, ◌∙◌, inl, inr, false, Option, none, some, eq_refl, Option-cases,
}
use orbeat_community.Prelude.Assoc.{lookup, lookup-insert}
use orbeat_community.Gateway.SessionCache.{
  Owner, SessionCache, stale_transports, close_session, drop, reclaim_cause, get_checked, get_found,
  get, put, build_missing, or_build, get_or_build,
}

-- What `get` returns is what the map holds, and the cache stays open.
get-current :
    (key : String) (now r : ℕ) (c : SessionCache)
    → (get key now c).0 ≡ some r
    → lookup key (get key now c).1.m ≡ some r
unfolding get get_found get_checked
get-current key now r c found = elim (Option-cases (lookup key c.m)) [
  | inl missing ↦ cc (rw missing at found)
  | inr (k, there) ↦ elim (Option-cases (reclaim_cause c.ttl c.max_age now (c.heap k))) [
    | inr (cause, expired) ↦ cc (rw (there, expired) at found)
    | inl live ↦ rw (there, live) (there ∙ (rw (there, live) at found))
  ]
]

get-open : (key : String) (now : ℕ) (c : SessionCache) → (get key now c).1.closed ≡ c.closed
unfolding get get_found get_checked drop stale_transports close_session
get-open key now c = elim (Option-cases (lookup key c.m)) [
  | inl missing ↦ rw missing refl
  | inr (k, there) ↦ elim (Option-cases (reclaim_cause c.ttl c.max_age now (c.heap k))) [
    | inr (cause, expired) ↦ rw (there, expired) refl
    | inl live ↦ rw (there, live) refl
  ]
]

build_missing-current :
    (key : String) (later r : ℕ) (owner : Option Owner) (o : Option ℕ) (c : SessionCache)
    → c.closed ≡ false
    → ((k : ℕ) → o ≡ some k → lookup key c.m ≡ some k)
    → (build_missing key later owner (o, c)).0 ≡ some r
    → lookup key (build_missing key later owner (o, c)).1.m ≡ some r
unfolding build_missing put
build_missing-current key later r owner (some k) c running there found = there k refl ∙ found
build_missing-current key later r none none c running there found = cc
build_missing-current key later r (some owner) none c running there found =
    rw running (lookup-insert key key c.next c.m ∙ rw (eq_refl key) found)

or_build-current :
    (key : String) (later r : ℕ) (owner : Option Owner) (o : Option ℕ) (c : SessionCache)
    → c.closed ≡ false
    → ((k : ℕ) → o ≡ some k → lookup key c.m ≡ some k)
    → (or_build key later owner (o, c)).0 ≡ some r
    → lookup key (or_build key later owner (o, c)).1.m ≡ some r
unfolding or_build
or_build-current key later r owner (some k) c running there found = there k refl ∙ found
or_build-current key later r owner none c running there found =
    build_missing-current key later r owner (get key later c).0 (get key later c).1
      (get-open key later c ∙ running) (λ k e. get-current key later k c e) found

-- The session that getOrBuild returns is the one filed under the key, while the cache is open.
pub get_or_build-current :
    (key : String) (now later r : ℕ) (owner : Option Owner) (c : SessionCache)
    → c.closed ≡ false
    → (get_or_build key now later owner c).0 ≡ some r
    → lookup key (get_or_build key now later owner c).1.m ≡ some r
unfolding get_or_build
get_or_build-current key now later r owner c running found =
    or_build-current key later r owner (get key now c).0 (get key now c).1
      (get-open key now c ∙ running) (λ k e. get-current key now k c e) found
