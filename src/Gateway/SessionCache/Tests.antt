-- ===== src/Gateway/SessionCache/Tests.antt =====
-- The session cache at concrete inputs.
use orbeat_community.Prelude.{◌≡◌, refl, some, List, [], ◌∷◌}
use orbeat_community.Prelude.Assoc.{lookup, insert}
use orbeat_community.Gateway.SessionCache.{
  TransportBinding, SessionCache, get_checked, get_found, get, put, build_missing, or_build,
  get_or_build, bind_found, bind_transport, drop_entry, drop_where, sweep_binding, sweep_bindings,
  reclaim_cause, reap, Step, fetch, bind, collect, step, steps, new_session_cache,
}
use orbeat_community.Gateway.SessionCache.Drops.{IsAccounted}
use orbeat_community.Gateway.SessionCache.Accounts.{steps-IsAccounted}
use orbeat_community.Gateway.SessionCache.Bindings.{collect-IsLive}

abbrev history : List Step
history =
    fetch "alice" 1 1 (some (record { subject = "alice"; tenant_id = "acme" }))
    ∷ (bind "transport" 0 ∷ [])

steps-IsAccounted_example : IsAccounted (steps (new_session_cache 10 100) history)
steps-IsAccounted_example = steps-IsAccounted 10 100 history

abbrev binding : TransportBinding
binding = record { sess = some 0; cause = ""; stale_at = 0 }

abbrev reaped : SessionCache
reaped = step (steps (new_session_cache 10 100) history) (collect 5)

still_bound : lookup "transport" reaped.bound ≡ some binding
unfolding steps step reap drop_where drop_entry sweep_bindings sweep_binding get_or_build or_build
    build_missing get get_found get_checked put bind_transport bind_found reclaim_cause lookup
    insert
still_bound = refl

collect-IsLive_example :
    (lookup (reaped.heap 0).cache_key reaped.m ≡ some 0) × ((reaped.heap 0).closes ≡ 0)
collect-IsLive_example = collect-IsLive 10 100 history 5 "transport" binding 0 still_bound refl
