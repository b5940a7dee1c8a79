-- ===== src/Gateway/WithSession/Own.antt =====
-- A request is served by its own session only.
use orbeat_community.Prelude.{
  Bool-cases, List, Option, String, arith, eq_iff, false, inl, inr, none, refl, some, subst, sym,
  true, ℕ, ◌&&◌, ◌==◌, ◌≡◌, ◌≢◌,
}
use orbeat_community.Prelude.Assoc.{lookup}
use orbeat_community.RateLimit.Adapters.{Principal, key_for}
use orbeat_community.Gateway.SessionCache.{
  TransportBinding, SessionCache, points_to, get_or_build, Step, fetch, step, steps,
  new_session_cache,
}
use orbeat_community.Gateway.SessionCache.Drops.{IsAccounted}
use orbeat_community.Gateway.SessionCache.Accounts.{steps-IsAccounted, step-IsAccounted}
use orbeat_community.Gateway.SessionCache.Current.{get_or_build-current}
use orbeat_community.Gateway.SessionCache.Bindings.{points_to_iff}
use orbeat_community.Gateway.WithSession.{
  Request, passed, looked_up, lookup_transport, check_transport, with_built, owned_by,
  with_principal, with_session,
}

abbrev pub session_of : Option TransportBinding → Option ℕ
session_of none = none
session_of (some b) = b.sess

looked_up-session :
    (o : Option TransportBinding) (r : ℕ)
    → ((looked_up o).known && points_to (looked_up o).sess r) ≡ true
    → session_of o ≡ some r
looked_up-session none r h = cc
looked_up-session (some b) r h = points_to_iff b.sess r h

ne_false : {a b : String} → a ≢ b → a == b ≡ false
ne_false {a} {b} apart = ground (arith, eq_iff a b)

passed_inj : {o o' : Option ℕ} → passed o ≡ passed o' → o ≡ o'
passed_inj e = ground arith

-- Past the two exemptions, the switch lets through only what is bound to the session.
check_transport-passed :
    (subject : String) (request : Request) (r : ℕ) (c : SessionCache) (o : Option ℕ)
    → request.mcp_session_id == "" ≡ false
    → request.method == "DELETE" ≡ false
    → check_transport subject request r c (lookup_transport request.mcp_session_id c) ≡ passed o
    → (o ≡ some r) × (session_of (lookup request.mcp_session_id c.bound) ≡ some r)
unfolding check_transport lookup_transport
check_transport-passed subject request r c o named kept found =
    let b = looked_up (lookup request.mcp_session_id c.bound) in
    elim (Bool-cases (b.known && points_to b.sess r)) [
      | inl hit ↦ (
        sym (passed_inj (rw (named, kept, hit) at found)),
        looked_up-session (lookup request.mcp_session_id c.bound) r hit,
      )
      | inr miss ↦ elim (Bool-cases b.known) [
        | inl known ↦ cc (rw (named, kept, miss, known) at found)
        | inr unknown ↦ cc (rw (named, kept, miss, unknown) at found)
      ]
    ]

-- A session that was fetched in one state and that its transport is bound to in a later one.
abbrev pub IsOwn : String → String → SessionCache → SessionCache → Option ℕ → Type 0
IsOwn key id fetched later none = ⊥
IsOwn key id fetched later (some r) =
    (lookup key fetched.m ≡ some r)
    × ((fetched.heap r).cache_key ≡ key)
    × ((fetched.heap r).closes ≡ 0)
    × (session_of (lookup id later.bound) ≡ some r)

with_built-passed :
    (subject key : String) (request : Request) (between : List Step) (o o' : Option ℕ)
    (c : SessionCache)
    → ((r : ℕ) → o ≡ some r → lookup key c.m ≡ some r)
    → IsAccounted c
    → request.mcp_session_id == "" ≡ false
    → request.method == "DELETE" ≡ false
    → (with_built subject request between (o, c)).0 ≡ passed o'
    → IsOwn key request.mcp_session_id c (steps c between) o'
unfolding with_built
with_built-passed subject key request between none o' c current accounted named kept found = cc
with_built-passed subject key request between (some r) o' c current accounted named kept found =
    let (same, bound) =
      check_transport-passed subject request r (steps c between) o' named kept found in
    let there : lookup key c.m ≡ some r = current r refl in
    let (made, fresh, filed) = accounted.cached key r there in
    subst (IsOwn key request.mcp_session_id c (steps c between)) (sym same)
      (there, filed, fresh, bound)

-- From a new cache, after any calls and with the cache open: when a request with a principal and a
-- transport id, not a DELETE, is passed on, it runs in the session that was cached under the
-- principal's key when it was fetched, filed under that key and never closed, and the transport it
-- names is bound to that very session when it is looked up, whatever other requests did in
-- between. A transport of another principal's session is not served.
pub with_session-IsOwn :
    (ttl max_age : ℕ) (ss between : List Step) (request : Request) (p : Principal) (now later : ℕ)
    (tenant : Option String) (o : Option ℕ)
    → let c = steps (new_session_cache ttl max_age) ss in
      let fetched = step c (fetch (key_for p) now later (owned_by p.subject tenant)) in
      c.closed ≡ false
      → request.principal ≡ some p
      → request.mcp_session_id ≢ ""
      → request.method ≢ "DELETE"
      → (with_session request now later tenant between c).0 ≡ passed o
      → IsOwn (key_for p) request.mcp_session_id fetched (steps fetched between) o
unfolding with_session with_principal step
with_session-IsOwn ttl max_age ss between request p now later tenant o running known named kept
      found =
    let c = steps (new_session_cache ttl max_age) ss in
    let owner = owned_by p.subject tenant in
    let got = get_or_build (key_for p) now later owner c in
    let found_p : (with_built p.subject request between got).0 ≡ passed o =
      subst (λ q. (with_principal request now later tenant between c q).0 ≡ passed o) known found in
    with_built-passed p.subject (key_for p) request between got.0 o got.1
      (λ r e. get_or_build-current (key_for p) now later r owner c running e)
      (step-IsAccounted c (fetch (key_for p) now later owner) (steps-IsAccounted ttl max_age ss))
      (ne_false named) (ne_false kept) found_p
