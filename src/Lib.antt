-- ===== src/Lib.antt =====
-- orbeat: an MCP gateway, its admin API and its sync client, in Go. This library models the parts
-- of it that decide: who may call what, how often, and what is recorded of it.
--
-- The parts and how they interact. An MCP request gets the session of its principal, and its
-- transport must be bound to that session (internal/gateway/server.go, session.go). A tools/call passes the rate limiter and the concurrency cap
-- (internal/ratelimit), then the gateway's handler (internal/gateway/rbac_middleware.go), which
-- asks the virtual key's revocation check, decides with the session's entitlements
-- (internal/rbac), scans the arguments (internal/govern), asks the quota and forwards; the result
-- is scanned before the caller gets it (internal/gateway/intercept.go).
--
-- A sync client asks the API for the artifacts of its user (internal/api/sync.go), with the
-- revisions that the user pins (internal/api/sync_pins.go).
--
-- Which file models which part:
--   RateLimit/Sample, RateLimit/Limiter: internal/ratelimit/sample.go and ratelimit.go. A Limiter
--     is its map of buckets with its four settings; decide_at is decideAt, sweep is sweep.
--   RateLimit/TokenBucket: golang.org/x/time/rate and the floats, as a parameter.
--   RateLimit/Concurrency: internal/ratelimit/concurrency.go. A System is a limiter with the
--     release functions that its callers hold.
--   RateLimit/Adapters: internal/ratelimit/http.go, mcp.go and key.go.
--   Authz: internal/authz (hasAnyRole, Resolve, the seat cap, Middleware) and the users table of
--     internal/store/user.go, as a map from subjects.
--   Rbac: internal/rbac/rbac.go and virtualkey.go.
--   Govern: internal/govern/scanner.go, composite.go and call.go, less the default scanner.
--   Gateway/Naming: internal/gateway/naming.go and internal/naming/naming.go.
--   Gateway/Authorize, Gateway/ToolCall: internal/gateway/rbac_middleware.go and intercept.go.
--   Gateway/SessionCache: internal/gateway/session.go. The sessions live in a heap by address, since
--     the map and the transports share them.
--   Gateway/WithSession: withSession of internal/gateway/server.go, the door of every MCP request.
--   Gateway/BuildSession: buildSession, dialUpstream and skipUpstream of internal/gateway/server.go,
--     connectUpstream and registerProxies of internal/gateway/broker.go. A Building is what the loop
--     over the dialled servers writes, the connections that it closes included.
--   Api/Pins: internal/api/sync_pins.go, and the writing of the parameters in
--     internal/syncclient/api.go.
--   Api/SyncList: handleSyncArtifacts of internal/api/sync.go.
--   Api/Precondition: ifMatch and etag of internal/api/precondition.go.
--   SyncClient/ManagedPath, SyncClient/Reconcile: internal/syncclient/reconcile.go. A Run is the disk,
--     the ledger that is being rebuilt and the result; which operations of the operating system
--     fail is given for each path.
--   SyncClient/Block: the managed block of internal/syncclient/rules.go and seed.go, generic in its
--     markers. SyncClient/Rules: the rules' text, the files of a project and ReconcileRules. A disk
--     gives the files below each root; a Run is the disk, the ledger that is being built, the sets
--     of the code and the result.
--   SyncClient/Rules/Global: internal/syncclient/rules_global.go. SyncClient/Rules/Removal:
--     StripProjectRules of rules.go.
--   SyncClient/Projects: internal/syncclient/projects.go, on the entries of the file.
--   Text: the strconv functions, the pieces of regexp and strings that the blocks use, and the regular expressions for ids and slugs that these use.
--   Prelude: shared names, Go maps as association lists, Boolean tests on numbers.
-- Each part's theorems stand in its child modules, named for what they prove.
--
-- Conventions. A mutex that a method holds from start to end makes the method one step, so an
-- execution is a list of calls. A time is the number of nanoseconds since the zero time. Numbers
-- are natural; where the source's int may be negative, the module's comment says which branch it
-- takes. A Go map is an association list. A function that can return an error returns an Option or
-- a result type. Audit rows and usage counts are events beside a handler's result.
--
-- Fuel: Text/Decimal.digits_before takes n + 1 rounds for n, and its round trip shows that they are
-- enough. The search for managed blocks takes as many rounds as the text has characters; a block has
-- at least one (Rules/Stripping, Block/Health). All other recursion is structural.
--
-- Not modelled: SQL, but for the statements that Authz makes on the users table, HTTP and JSON
-- encoding, metrics and logs, the regular expressions of the
-- default scanner, the OIDC library, process wiring, the portal, dry runs.
-- The admin handlers, which are I/O around SQL, are not modelled either, nor are seeds, pins, the
-- doctor and the sign-in of the sync client.
mod Prelude
pub mod RateLimit
pub mod Rbac
pub mod Govern
pub mod Gateway
pub mod Text
pub mod SyncClient
pub mod Api
pub mod Authz
