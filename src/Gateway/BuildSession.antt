-- ===== src/Gateway/BuildSession.antt =====
-- internal/gateway: buildSession, dialUpstream and skipUpstream of server.go, connectUpstream and
-- registerProxies of broker.go. The dials run at once and touch nothing shared, so what each gives is
-- a function of its server. The transports' own pools, metrics, logs and spans are outside the model.
mod Tests
pub mod Account
pub mod Dialled
pub mod Slugs
pub mod Settled
pub mod Owners
use orbeat_community.Prelude.{
  String, Bool, true, false, not, ◌&&◌, ◌||◌, Option, none, some, List, [], ◌∷◌, ◌++◌, ◌==◌,
  if◌then◌else◌,
}
use orbeat_community.Prelude.Assoc.{Assoc, lookup, insert}
use orbeat_community.Rbac.{Entitlement, visible_server_ids, is_some}
use orbeat_community.RateLimit.Adapters.{Principal}
use orbeat_community.Gateway.Naming.{namespace, slugify}
use orbeat_community.Gateway.Authorize.{tool_call_allowed}
use orbeat_community.Gateway.ToolCall.{Session}

-- store.MCPServer, as far as the session's building reads it.
pub record McpServer : Type 0 where
  pub id : String
  pub name : String
  pub transport : String
  pub endpoint_or_command : String
  pub secret_ref : String
  pub tls_ca_ref : String
  pub status : String

pub record UpstreamConn : Type 0 where
  pub server_id : String
  pub slug : String

-- What lies outside: strings.ToLower, the secrets, url.Parse, the check of a CA, the SDK's client,
-- the names it lists (none where the listing fails), and whether the watchdog is stopped in time.
pub record Outside : Type 0 where
  pub to_lower : String → String
  pub resolve_secret : String → Option String
  pub parses : String → Bool
  pub is_ca : String → Bool
  pub connects : McpServer → String → String → Bool
  pub tools : UpstreamConn → List (Option String)
  pub stops : UpstreamConn → Bool

-- A failed dial has a reason, and a watchdog with a context if it came that far.
pub data DialOutcome : Type 0 where
  skipped : String → Bool → DialOutcome
  connected : UpstreamConn → DialOutcome

-- What the loop writes: the session's slugs, connections and registered tools, the connections that
-- were closed, the servers whose context was cancelled, and the audit rows.
pub record Building : Type 0 where
  pub slug_to_server : Assoc String
  pub upstreams : List UpstreamConn
  pub registry : Assoc UpstreamConn
  pub closed : List UpstreamConn
  pub cancelled : List String
  pub audits : List (String × String)

abbrev pub nothing_built : Building
nothing_built = record {
  slug_to_server = [];
  upstreams = [];
  registry = [];
  closed = [];
  cancelled = [];
  audits = [];
}

-- s.audit of "gateway.upstream.connect"
abbrev pub audit : String → String → Building → Building
audit id decision s = record s { audits = s.audits ++ (id, decision) ∷ [] }

-- skipUpstream
pub close_conn : Option UpstreamConn → Building → Building
close_conn none s = s
close_conn (some conn) s = record s { closed = s.closed ++ conn ∷ [] }

pub skip_upstream : String → Option UpstreamConn → Building → Building
skip_upstream id conn s =
    let shut = close_conn conn s in
    audit id "error" (record shut { cancelled = shut.cancelled ++ id ∷ [] })

module _ (w : Outside) where
  abbrev pub slug_of : McpServer → String
  slug_of srv = slugify w.to_lower srv.name

  unfoldable pub connect_upstream : McpServer → String → String → Option UpstreamConn
  connect_upstream srv secret ca_pem =
      if slug_of srv == "" || not (w.parses srv.endpoint_or_command)
      then none
      else if not (ca_pem == "") && not (w.is_ca ca_pem)
      then none
      else if not (srv.transport == "http") && not (srv.transport == "sse")
      then none
      else if w.connects srv secret ca_pem
      then some (record { server_id = srv.id; slug = slug_of srv })
      else none

  abbrev pub dialled : Option UpstreamConn → DialOutcome
  dialled none = skipped "connect" true
  dialled (some conn) = connected conn

  pub dial_with : McpServer → Option String → Option String → DialOutcome
  dial_with srv none ca_pem = skipped "secret resolve" false
  dial_with srv (some secret) none = skipped "tls ca resolve" false
  dial_with srv (some secret) (some ca_pem) = dialled (connect_upstream srv secret ca_pem)

  unfoldable pub dial_upstream : McpServer → DialOutcome
  dial_upstream srv =
      if not (srv.transport == "http") && not (srv.transport == "sse")
      then skipped "unsupported transport" false
      else dial_with srv (w.resolve_secret srv.secret_ref)
          (if srv.tls_ca_ref == "" then some "" else w.resolve_secret srv.tls_ca_ref)

  module _ (ents : List Entitlement) (key_id : String) (key_narrow : Option (List String)) where
    abbrev pub may_register : UpstreamConn → String → Bool
    may_register conn proxy_name =
        tool_call_allowed proxy_name ((conn.slug, conn.server_id) ∷ []) ents key_id key_narrow

    -- registerProxies: false where the listing fails; what was registered by then stays.
    pub register_proxies :
        UpstreamConn → List (Option String) → Assoc UpstreamConn → Bool × Assoc UpstreamConn
    register_proxies conn [] registry = (true, registry)
    register_proxies conn (none ∷ tools) registry = (false, registry)
    register_proxies conn (some tool ∷ tools) registry =
        let proxy_name = namespace conn.slug tool in
        register_proxies conn tools
          (if may_register conn proxy_name then insert proxy_name conn registry else registry)

    pub keep_upstream : String → UpstreamConn → Building → Building
    keep_upstream id conn s = audit id "allow" (record s {
      slug_to_server = insert conn.slug id s.slug_to_server;
      upstreams = s.upstreams ++ conn ∷ [];
    })

    pub merge_registered : String → UpstreamConn → Building → Bool × Assoc UpstreamConn → Building
    merge_registered id conn s (listed, registry) =
        let s' = record s { registry = registry } in
        if listed && w.stops conn then keep_upstream id conn s' else skip_upstream id (some conn) s'

    pub merge_connected : String → UpstreamConn → Building → Option String → Building
    merge_connected id conn s (some winner) = skip_upstream id (some conn) s
    merge_connected id conn s none =
        merge_registered id conn s (register_proxies conn (w.tools conn) s.registry)

    -- The body of the loop over the results.
    pub merge_outcome : McpServer → Building → DialOutcome → Building
    merge_outcome srv s (skipped reason true) = skip_upstream srv.id none s
    merge_outcome srv s (skipped reason false) = audit srv.id "error" s
    merge_outcome srv s (connected conn) =
        merge_connected srv.id conn s (lookup (slug_of srv) s.slug_to_server)

    pub merge_all : List McpServer → Building → Building
    merge_all [] s = s
    merge_all (srv ∷ rest) s = merge_all rest (merge_outcome srv s (dial_upstream srv))

-- The loop over the servers.
unfoldable pub candidates : Assoc (Unit {0}) → List McpServer → List McpServer
candidates visible [] = []
candidates visible (srv ∷ servers) =
    let rest = candidates visible servers in
    if is_some (lookup srv.id visible) && srv.status == "active" then srv ∷ rest else rest

pub record Identity : Type 0 where
  pub tenant_id : String
  pub role_ids : List String
  pub key_id : String
  pub key_narrow : Option (List String)

-- resolveVirtualKey: a failure, the identity of a key, or no key.
pub data KeyLookup : Type 0 where
  key_failed : KeyLookup
  key_of : Identity → KeyLookup
  no_key : KeyLookup

-- The reads of the database; none is an error.
pub record Reads : Type 0 where
  pub resolve_virtual_key : Principal → KeyLookup
  pub resolve : Principal → Option (String × List String)
  pub list_entitlements_by_roles : String → List String → Option (List Entitlement)
  pub list_mcp_servers_by_tenant : String → Option (List McpServer)

abbrev pub person : Option (String × List String) → Option Identity
person none = none
person (some (tenant, roles)) =
    some (record { tenant_id = tenant; role_ids = roles; key_id = ""; key_narrow = none })

pub identify : Reads → Principal → KeyLookup → Option Identity
identify db p key_failed = none
identify db p (key_of identity) = some identity
identify db p no_key = person (db.resolve p)

abbrev pub session_of : Principal → Identity → List Entitlement → Building → Session
session_of p identity ents s = record {
  subject = p.subject;
  tenant_id = identity.tenant_id;
  entitlements = ents;
  slug_to_server = s.slug_to_server;
  key_id = identity.key_id;
  key_narrow = identity.key_narrow;
  key_client_id = if identity.key_id == "" then "" else p.client_id;
}

pub build_with :
    Outside
    → Principal
    → Identity
    → Option (List Entitlement)
    → Option (List McpServer)
    → Option (Session × Building)
build_with w p identity none servers = none
build_with w p identity (some ents) none = none
build_with w p identity (some ents) (some servers) =
    let s =
      merge_all w ents identity.key_id identity.key_narrow
        (candidates (visible_server_ids ents) servers) nothing_built in
    some (session_of p identity ents s, s)

pub build_for : Outside → Reads → Principal → Option Identity → Option (Session × Building)
build_for w db p none = none
build_for w db p (some identity) =
    build_with w p identity (db.list_entitlements_by_roles identity.tenant_id identity.role_ids)
      (db.list_mcp_servers_by_tenant identity.tenant_id)

unfoldable pub build_session : Outside → Reads → Principal → Option (Session × Building)
build_session w db p = build_for w db p (identify db p (db.resolve_virtual_key p))
