-- ===== src/Gateway/BuildSession/Tests.antt =====
-- The building of a session at concrete inputs: two servers whose names have one slug, and one that
-- is not reached.
use orbeat_community.Prelude.{String, ◌≡◌, refl, true, not, inl, none, some, List, [], ◌∷◌, ◌==◌}
use orbeat_community.RateLimit.Adapters.{Principal}
use orbeat_community.Rbac.{
  Entitlement, authorizing_entitlement, collect_ids, grants, tool_allowed, visible_server_ids,
}
use orbeat_community.Prelude.Assoc.{lookup, insert}
use orbeat_community.Gateway.Naming.{slugify, dash_runs, trim_left, trim_right, namespace, split}
use orbeat_community.Gateway.Authorize.{
  tool_call_authorization, tool_call_allowed, authorize_split, authorize_on, authorize_found,
  allowed_on,
}
use orbeat_community.Gateway.Authorize.Server.{server_of}
use orbeat_community.Gateway.ToolCall.{Session}
use orbeat_community.Gateway.BuildSession.{
  Building, McpServer, Outside, Reads, UpstreamConn, build_for, build_session, build_with,
  candidates, close_conn, connect_upstream, dial_upstream, dial_with, identify, keep_upstream,
  merge_all, merge_connected, merge_outcome, merge_registered, no_key, nothing_built,
  register_proxies, skip_upstream,
}
use orbeat_community.Gateway.BuildSession.Account.{IsSettled}
use orbeat_community.Gateway.BuildSession.Settled.{merge_all-IsSettled}
use orbeat_community.Gateway.BuildSession.Owners.{build_session-server}

abbrev server : String → String → McpServer
server id name = record {
  id = id;
  name = name;
  transport = "http";
  endpoint_or_command = "https://mcp";
  secret_ref = "";
  tls_ca_ref = "";
  status = "active";
}

abbrev servers : List McpServer
servers = server "1" "git" ∷ (server "2" "git" ∷ (server "3" "down" ∷ []))

abbrev outside : Outside
outside = record {
  to_lower = λ s. s;
  resolve_secret = λ ref. some "";
  parses = λ url. true;
  is_ca = λ pem. true;
  connects = λ srv secret pem. not (srv.name == "down");
  tools = λ conn. some "get" ∷ [];
  stops = λ conn. true;
}

abbrev entitlement : String → Entitlement
entitlement id = record { mcp_server_id = id; role_id = "dev"; allowed_tools = none }

abbrev ents : List Entitlement
ents = entitlement "1" ∷ (entitlement "2" ∷ (entitlement "3" ∷ []))

merge_all-IsSettled_example :
    IsSettled outside servers (merge_all outside ents "" none servers nothing_built)
merge_all-IsSettled_example = merge_all-IsSettled outside ents "" none servers

abbrev db : Reads
db = record {
  resolve_virtual_key = λ p. no_key;
  resolve = λ p. some ("acme", "dev" ∷ []);
  list_entitlements_by_roles = λ tenant roles. some ents;
  list_mcp_servers_by_tenant = λ tenant. some servers;
}

abbrev alice : Principal
alice = record { subject = "alice"; client_id = "" }

abbrev git : UpstreamConn
git = record { server_id = "1"; slug = "git" }

abbrev session : Session
session = record {
  subject = "alice";
  tenant_id = "acme";
  entitlements = ents;
  slug_to_server = ("git", "1") ∷ [];
  key_id = "";
  key_narrow = none;
  key_client_id = "";
}

abbrev state : Building
state = record {
  slug_to_server = ("git", "1") ∷ [];
  upstreams = git ∷ [];
  registry = ("git__get", git) ∷ [];
  closed = record { server_id = "2"; slug = "git" } ∷ [];
  cancelled = "2" ∷ ("3" ∷ []);
  audits = ("1", "allow") ∷ (("2", "error") ∷ (("3", "error") ∷ []));
}

built : build_session outside db alice ≡ some (session, state)
unfolding build_session build_for build_with identify candidates merge_all merge_outcome
    merge_connected merge_registered register_proxies keep_upstream skip_upstream close_conn
    dial_upstream dial_with connect_upstream slugify dash_runs trim_left trim_right namespace split
    visible_server_ids collect_ids tool_call_allowed tool_call_authorization authorize_split
    authorize_on authorize_found allowed_on tool_allowed authorizing_entitlement grants lookup
    insert
built = refl

build_session-server_example :
    server_of (tool_call_authorization "git__get" (("git", "1") ∷ []) ents "" none) ≡ some "1"
build_session-server_example =
    build_session-server outside db alice session state "git__get" git built (inl refl) (inl refl)
