-- ===== src/Gateway/BuildSession/Owners.antt =====
-- Every slug has one connection, and a registered tool is authorised for the server it calls.
use orbeat_community.Prelude.{
  String, ◌≡◌, ◌≢◌, refl, sym, ap, ◌∙◌, inl, inr, Bool, true, false, ◌&&◌, Option, none, some, List,
  [], ◌∷◌, ◌==◌, subst, arith, All, Among, eq_iff, eq_refl, Bool-cases, if◌then◌else◌,
}
use orbeat_community.Prelude.Assoc.{Assoc, lookup, insert, lookup-insert, All-insert}
use orbeat_community.Rbac.{Entitlement, visible_server_ids}
use orbeat_community.RateLimit.Adapters.{Principal}
use orbeat_community.Gateway.Naming.{namespace}
use orbeat_community.Gateway.Authorize.{tool_call_authorization}
use orbeat_community.Gateway.Authorize.Server.{server_of, tool_call_allowed-server}
use orbeat_community.Gateway.ToolCall.{Session}
use orbeat_community.Gateway.BuildSession.{
  McpServer, UpstreamConn, Outside, DialOutcome, skipped, connected, Building, nothing_built,
  close_conn, skip_upstream, slug_of, dial_upstream, may_register, register_proxies, keep_upstream,
  merge_registered, merge_connected, merge_outcome, merge_all, candidates, Identity, Reads,
  identify, build_with, build_for, build_session,
}
use orbeat_community.Gateway.BuildSession.Dialled.{dial_upstream-own}
use orbeat_community.Gateway.BuildSession.Slugs.{
  IsNamed, DistinctSlugs, All-snoc, All-weaken, DistinctSlugs-snoc, All-Among,
}

module _ (w : Outside) (ents : List Entitlement) (key_id : String)
    (key_narrow : Option (List String)) where
  -- The tool may be called on the server of its connection.
  abbrev pub IsEntitled : String × UpstreamConn → Type 0
  IsEntitled (name, conn) = may_register w ents key_id key_narrow conn name ≡ true

  -- Each connection of the session has its own slug, which names its server, and each registered
  -- tool is entitled.
  pub record IsOwned (s : Building) : Type 0 where
    pub named : All (IsNamed s.slug_to_server) s.upstreams
    pub distinct : DistinctSlugs s.upstreams
    pub entitled : All IsEntitled s.registry

  insert_if :
      (conn : UpstreamConn) (name : String) (registry : Assoc UpstreamConn) (may : Bool)
      → may_register w ents key_id key_narrow conn name ≡ may
      → All IsEntitled registry
      → All IsEntitled (if may then insert name conn registry else registry)
  insert_if conn name registry true e h = All-insert IsEntitled name conn registry e h
  insert_if conn name registry false e h = h

  register_proxies-IsEntitled :
      (conn : UpstreamConn) (tools : List (Option String)) (registry : Assoc UpstreamConn)
      → All IsEntitled registry
      → All IsEntitled (register_proxies w ents key_id key_narrow conn tools registry).1
  unfolding register_proxies
  register_proxies-IsEntitled conn [] registry h = h
  register_proxies-IsEntitled conn (none ∷ tools) registry h = h
  register_proxies-IsEntitled conn (some tool ∷ tools) registry h =
      let name = namespace conn.slug tool in
      register_proxies-IsEntitled conn tools _
        (insert_if conn name registry (may_register w ents key_id key_narrow conn name) refl h)

  skip_upstream-IsOwned :
      (id : String) (conn : Option UpstreamConn) (s : Building)
      → IsOwned s
      → IsOwned (skip_upstream id conn s)
  unfolding skip_upstream close_conn
  skip_upstream-IsOwned id none s h = record {
    named = h.named;
    distinct = h.distinct;
    entitled = h.entitled;
  }
  skip_upstream-IsOwned id (some conn) s h = record {
    named = h.named;
    distinct = h.distinct;
    entitled = h.entitled;
  }

  -- A slug that names no server yet is no connection's.
  IsNamed-insert :
      (conn d : UpstreamConn) (id : String) (slugs : Assoc String)
      → lookup conn.slug slugs ≡ none
      → IsNamed slugs d
      → IsNamed (insert conn.slug id slugs) d
  IsNamed-insert conn d id slugs free there =
      let apart : conn.slug == d.slug ≡ false = ground (arith, eq_iff conn.slug d.slug) in
      lookup-insert conn.slug d.slug id slugs ∙ rw apart there

  keep_upstream-IsOwned :
      (id : String) (conn : UpstreamConn) (s : Building)
      → lookup conn.slug s.slug_to_server ≡ none
      → conn.server_id ≡ id
      → IsOwned s
      → IsOwned (keep_upstream w ents key_id key_narrow id conn s)
  unfolding keep_upstream
  keep_upstream-IsOwned id conn s free own h =
      let slugs = insert conn.slug id s.slug_to_server in
      record {
        named =
            All-snoc (IsNamed slugs) s.upstreams conn
              (All-weaken (IsNamed s.slug_to_server) (IsNamed slugs) s.upstreams
                (λ d there. IsNamed-insert conn d id s.slug_to_server free there) h.named)
              (lookup-insert conn.slug conn.slug id s.slug_to_server
                ∙ rw (eq_refl conn.slug) (ap some (sym own)));
        distinct =
            DistinctSlugs-snoc s.upstreams conn
              (All-weaken (IsNamed s.slug_to_server) (λ d. d.slug ≢ conn.slug) s.upstreams
                (λ d there e.
                  let same : lookup d.slug s.slug_to_server ≡ none =
                    ap (λ x. lookup x s.slug_to_server) e ∙ free in
                  cc)
                h.named)
              h.distinct;
        entitled = h.entitled;
      }

  merge_registered-IsOwned :
      (id : String) (conn : UpstreamConn) (s : Building) (listed : Bool)
      (registry : Assoc UpstreamConn)
      → lookup conn.slug s.slug_to_server ≡ none
      → conn.server_id ≡ id
      → All IsEntitled registry
      → IsOwned s
      → IsOwned (merge_registered w ents key_id key_narrow id conn s (listed, registry))
  unfolding merge_registered
  merge_registered-IsOwned id conn s listed registry free own allowed h =
      let s' = record s { registry = registry } in
      let h' : IsOwned s' = record { named = h.named; distinct = h.distinct; entitled = allowed } in
      elim (Bool-cases (listed && w.stops conn)) [
        | inl live ↦ rw live (keep_upstream-IsOwned id conn s' free own h')
        | inr dead ↦ rw dead (skip_upstream-IsOwned id (some conn) s' h')
      ]

  merge_connected-IsOwned :
      (id : String) (conn : UpstreamConn) (s : Building) (taken : Option String)
      → (taken ≡ none → lookup conn.slug s.slug_to_server ≡ none)
      → conn.server_id ≡ id
      → IsOwned s
      → IsOwned (merge_connected w ents key_id key_narrow id conn s taken)
  unfolding merge_connected
  merge_connected-IsOwned id conn s (some winner) free own h =
      skip_upstream-IsOwned id (some conn) s h
  merge_connected-IsOwned id conn s none free own h =
      let found = register_proxies w ents key_id key_narrow conn (w.tools conn) s.registry in
      merge_registered-IsOwned id conn s found.0 found.1 (free refl) own
        (register_proxies-IsEntitled conn (w.tools conn) s.registry h.entitled) h

  merge_outcome-IsOwned :
      (srv : McpServer) (s : Building) (o : DialOutcome)
      → dial_upstream w srv ≡ o
      → IsOwned s
      → IsOwned (merge_outcome w ents key_id key_narrow srv s o)
  unfolding merge_outcome
  merge_outcome-IsOwned srv s (skipped reason true) e h = skip_upstream-IsOwned srv.id none s h
  merge_outcome-IsOwned srv s (skipped reason false) e h = record {
    named = h.named;
    distinct = h.distinct;
    entitled = h.entitled;
  }
  merge_outcome-IsOwned srv s (connected conn) e h =
      let (own, slug) = dial_upstream-own w srv conn e in
      merge_connected-IsOwned srv.id conn s (lookup (slug_of w srv) s.slug_to_server)
        (λ free. ap (λ x. lookup x s.slug_to_server) slug ∙ free) own h

  merge_all-IsOwned :
      (servers : List McpServer) (s : Building)
      → IsOwned s
      → IsOwned (merge_all w ents key_id key_narrow servers s)
  unfolding merge_all
  merge_all-IsOwned [] s h = h
  merge_all-IsOwned (srv ∷ servers) s h =
      merge_all-IsOwned servers _ (merge_outcome-IsOwned srv s (dial_upstream w srv) refl h)

  -- At the start there is nothing that could be wrong.
  pub nothing_built-IsOwned : IsOwned nothing_built
  nothing_built-IsOwned = record { named = tt; distinct = tt; entitled = tt }

  IsOwned-server :
      (s : Building) (name : String) (conn : UpstreamConn)
      → IsOwned s
      → Among (name, conn) s.registry
      → Among conn s.upstreams
      → server_of (tool_call_authorization name s.slug_to_server ents key_id key_narrow)
        ≡ some conn.server_id
  IsOwned-server s name conn h registered live =
      tool_call_allowed-server ents key_id key_narrow name conn.slug conn.server_id s.slug_to_server
        (All-Among (IsNamed s.slug_to_server) s.upstreams conn h.named live)
        (All-Among IsEntitled s.registry (name, conn) h.entitled registered)

-- A registered tool of a live connection is authorised for the connection's server.
abbrev IsServed : String → UpstreamConn → Option (Session × Building) → Type 0
IsServed name conn none = Unit
IsServed name conn (some (sess, s)) =
    Among (name, conn) s.registry
    → Among conn s.upstreams
    → server_of (
        tool_call_authorization name sess.slug_to_server sess.entitlements sess.key_id
          sess.key_narrow)
      ≡ some conn.server_id

build_with-IsServed :
    (w : Outside) (p : Principal) (identity : Identity) (ents : Option (List Entitlement))
    (servers : Option (List McpServer)) (name : String) (conn : UpstreamConn)
    → IsServed name conn (build_with w p identity ents servers)
unfolding build_with
build_with-IsServed w p identity none servers name conn = tt
build_with-IsServed w p identity (some ents) none name conn = tt
build_with-IsServed w p identity (some ents) (some servers) name conn =
    let chosen = candidates (visible_server_ids ents) servers in
    IsOwned-server w ents identity.key_id identity.key_narrow _ name conn (
      merge_all-IsOwned w ents identity.key_id identity.key_narrow chosen nothing_built
        (nothing_built-IsOwned w ents identity.key_id identity.key_narrow))

build_for-IsServed :
    (w : Outside) (db : Reads) (p : Principal) (identity : Option Identity) (name : String)
    (conn : UpstreamConn)
    → IsServed name conn (build_for w db p identity)
unfolding build_for
build_for-IsServed w db p none name conn = tt
build_for-IsServed w db p (some identity) name conn = build_with-IsServed w p identity _ _ name conn

-- In a session that buildSession returns, for a person or for a key: a tool that is registered for a
-- connection of the session is one that the caller may call, and the check that every call passes
-- decides on it by the entitlements of the very server that the connection leads to, also where
-- several servers' names have one slug.
pub build_session-server :
    (w : Outside) (db : Reads) (p : Principal) (sess : Session) (s : Building) (name : String)
    (conn : UpstreamConn)
    → build_session w db p ≡ some (sess, s)
    → Among (name, conn) s.registry
    → Among conn s.upstreams
    → server_of (
        tool_call_authorization name sess.slug_to_server sess.entitlements sess.key_id
          sess.key_narrow)
      ≡ some conn.server_id
unfolding build_session
build_session-server w db p sess s name conn built registered live =
    let served : IsServed name conn (some (sess, s)) =
      subst (IsServed name conn) built
        (build_for-IsServed w db p (identify db p (db.resolve_virtual_key p)) name conn) in
    served registered live
