-- ===== src/Gateway/WithSession.antt =====
-- internal/gateway/server.go: withSession, which every MCP request passes, over the session cache
-- (lookupTransport of internal/gateway/session.go included). The cache's mutex is free between the
-- fetch of the session and the look at the transport: `between` is what other requests do there.
-- The wrapped handler, the request id and the log's subject and tenant are outside the model.
mod Tests
pub mod Own
pub mod Markers
use orbeat_community.Prelude.{
  ℕ, String, Bool, true, false, not, ◌&&◌, Option, none, some, List, ◌==◌, if◌then◌else◌,
}
use orbeat_community.Prelude.Assoc.{lookup}
use orbeat_community.RateLimit.Adapters.{Principal, key_for}
use orbeat_community.Gateway.SessionCache.{
  TransportBinding, Owner, SessionCache, points_to, get_or_build, Step, steps,
}

-- The request, as far as withSession reads it; `principal` is none without a verified token.
pub record Request : Type 0 where
  pub principal : Option Principal
  pub method : String
  pub mcp_session_id : String

-- transportLookup
pub record TransportLookup : Type 0 where
  pub known : Bool
  pub sess : Option ℕ
  pub cause : String

pub record Rejection : Type 0 where
  pub header : String
  pub cause : String
  pub why : String

-- What withSession does: it calls the next handler, with a session in the context or with none; it
-- answers 503, with Retry-After "5"; or it answers 404, with the rejection's header.
pub data Reply : Type 0 where
  passed : Option ℕ → Reply
  unavailable : Reply
  rejected : Rejection → Reply

abbrev pub unknown_transport : TransportLookup
unknown_transport = record { known = false; sess = none; cause = "" }

abbrev pub looked_up : Option TransportBinding → TransportLookup
looked_up none = unknown_transport
looked_up (some b) = record { known = true; sess = b.sess; cause = b.cause }

unfoldable pub lookup_transport : String → SessionCache → TransportLookup
lookup_transport id c = if id == "" then unknown_transport else looked_up (lookup id c.bound)

abbrev pub marked_rejection : String → String → Rejection
marked_rejection cause why = record { header = cause; cause = cause; why = why }

-- The header of an id that is bound, but not to the session that serves the request.
unfoldable pub bound_rejection : String → Rejection
bound_rejection cause =
    let rej = marked_rejection cause "gateway session rebuilt" in
    if rej.header == "" then marked_rejection "unknown" rej.why else rej

abbrev pub is_foreign : String → SessionCache → Option ℕ → Bool
is_foreign subject c none = false
is_foreign subject c (some r) = not ((c.heap r).subject == subject)

-- The log's cause is finer than the header.
unfoldable pub refuse_bound : String → SessionCache → TransportLookup → Rejection
refuse_bound subject c b =
    let rej = bound_rejection b.cause in
    if is_foreign subject c b.sess
    then record rej {
      cause = "cross_subject";
      why = "transport session replayed by another subject";
    }
    else rej

abbrev pub refuse_unbound : Rejection
refuse_unbound = marked_rejection "unbound" "no binding for this transport session"

-- The switch, for the session that was fetched.
unfoldable pub check_transport : String → Request → ℕ → SessionCache → TransportLookup → Reply
check_transport subject request r c b =
    if request.mcp_session_id == ""
    then passed (some r)
    else if request.method == "DELETE"
    then passed (some r)
    else if b.known && points_to b.sess r
    then passed (some r)
    else if b.known
    then rejected (refuse_bound subject c b)
    else rejected refuse_unbound

pub with_built : String → Request → List Step → Option ℕ × SessionCache → Reply × SessionCache
with_built subject request between (none, c) = (unavailable, steps c between)
with_built subject request between (some r, c) =
    let c' = steps c between in
    (check_transport subject request r c' (lookup_transport request.mcp_session_id c'), c')

abbrev pub owned_by : String → Option String → Option Owner
owned_by subject none = none
owned_by subject (some tenant) = some (record { subject = subject; tenant_id = tenant })

-- `tenant` is none where buildSession fails.
pub with_principal :
    Request
    → ℕ
    → ℕ
    → Option String
    → List Step
    → SessionCache
    → Option Principal
    → Reply × SessionCache
with_principal request now later tenant between c none = (passed none, c)
with_principal request now later tenant between c (some p) =
    with_built p.subject request between
      (get_or_build (key_for p) now later (owned_by p.subject tenant) c)

unfoldable pub with_session :
    Request → ℕ → ℕ → Option String → List Step → SessionCache → Reply × SessionCache
with_session request now later tenant between c =
    with_principal request now later tenant between c request.principal
