-- ===== src/Gateway/WithSession/Tests.antt =====
-- withSession at concrete inputs.
use orbeat_community.Prelude.{◌≡◌, refl, false, none, some, List, [], ◌∷◌}
use orbeat_community.Prelude.Assoc.{lookup, insert}
use orbeat_community.RateLimit.Adapters.{Principal, key_for}
use orbeat_community.Gateway.SessionCache.{
  SessionCache, get_checked, get_found, get, put, build_missing, or_build, get_or_build, bind_found,
  bind_transport, reclaim_cause, Step, fetch, bind, step, steps, new_session_cache,
}
use orbeat_community.Gateway.WithSession.{
  Request, Rejection, passed, rejected, lookup_transport, bound_rejection, refuse_bound,
  check_transport, with_built, owned_by, with_principal, with_session,
}
use orbeat_community.Gateway.WithSession.Own.{IsOwn, with_session-IsOwn}
use orbeat_community.Gateway.WithSession.Markers.{Tells, Logs, with_session-Tells}

-- Alice's session has a transport.
abbrev history : List Step
history =
    fetch "alice" 1 1 (some (record { subject = "alice"; tenant_id = "acme" }))
    ∷ (bind "transport" 0 ∷ [])

abbrev cache : SessionCache
cache = steps (new_session_cache 10 100) history

abbrev alice : Principal
alice = record { subject = "alice"; client_id = "" }

abbrev mallory : Principal
mallory = record { subject = "mallory"; client_id = "" }

abbrev call : Principal → Request
call p = record { principal = some p; method = "POST"; mcp_session_id = "transport" }

cache_open : cache.closed ≡ false
unfolding steps step get_or_build or_build build_missing get get_found get_checked put
    bind_transport bind_found lookup insert
cache_open = refl

alice_served : (with_session (call alice) 2 2 none [] cache).0 ≡ passed (some 0)
unfolding with_session with_principal with_built check_transport lookup_transport key_for steps step
    get_or_build or_build build_missing get get_found get_checked put bind_transport bind_found
    reclaim_cause lookup insert
alice_served = refl

with_session-IsOwn_example :
    let fetched = step cache (fetch (key_for alice) 2 2 none) in
    IsOwn (key_for alice) "transport" fetched (steps fetched []) (some 0)
with_session-IsOwn_example =
    with_session-IsOwn 10 100 history [] (call alice) alice 2 2 none (some 0) cache_open refl
      (λ e. cc) (λ e. cc) alice_served

abbrev refusal : Rejection
refusal = record {
  header = "unknown";
  cause = "cross_subject";
  why = "transport session replayed by another subject";
}

mallory_refused : (with_session (call mallory) 2 2 (some "acme") [] cache).0 ≡ rejected refusal
unfolding with_session with_principal with_built check_transport lookup_transport refuse_bound
    bound_rejection key_for steps step get_or_build or_build build_missing get get_found get_checked
    put bind_transport bind_found reclaim_cause lookup insert
mallory_refused = refl

with_session-Tells_example :
    let seen =
      steps (step cache (fetch (key_for mallory) 2 2 (owned_by "mallory" (some "acme")))) [] in
    Tells refusal (lookup "transport" seen.bound)
    × Logs "mallory" seen refusal (lookup "transport" seen.bound)
with_session-Tells_example =
    with_session-Tells 10 100 history [] (call mallory) mallory 2 2 (some "acme") refusal refl
      mallory_refused
