-- ===== src/Gateway/SessionCache.antt =====
-- internal/gateway/session.go: the cache of MCP sessions, and the transports that are bound to them.
-- Sessions are shared by pointer, so they live in a heap, by address. Each method holds the mutex
-- from its first read to its last write; the building of a session is serialised for a key by
-- singleflight, and nothing else caches a session under that key meanwhile, so getOrBuild is one
-- step. Metrics and the reaper's ticker are outside the model; close counts its calls.
mod Tests
pub mod Accounts
pub mod Bindings
pub mod Causes
pub mod Current
pub mod Drops
use Prim.Native.String
use orbeat_community.Prelude.{
  ℕ, ◌+◌, ◌*◌, String, Bool, true, false, not, ◌||◌, Option, none, some, List, [], ◌∷◌, ◌++◌, ◌==◌,
  ltb, eqb, if◌then◌else◌,
}
use orbeat_community.Prelude.Assoc.{Assoc, lookup, insert, erase}

pub record CachedSession : Type 0 where
  pub cache_key : String
  pub subject : String
  pub tenant_id : String
  pub last_seen : ℕ
  pub built_at : ℕ
  pub transport_ids : List String
  pub dirty : Bool
  -- how often close() was called
  pub closes : ℕ

-- What buildSession resolves for a session.
pub record Owner : Type 0 where
  pub subject : String
  pub tenant_id : String

pub record TransportBinding : Type 0 where
  pub sess : Option ℕ
  pub cause : String
  pub stale_at : ℕ

pub record SessionCache : Type 0 where
  pub heap : ℕ → CachedSession
  -- the first address that holds no session
  pub next : ℕ
  pub m : Assoc ℕ
  pub bound : Assoc TransportBinding
  pub ttl : ℕ
  pub max_age : ℕ
  pub closed : Bool

abbrev pub modify : ℕ → (CachedSession → CachedSession) → (ℕ → CachedSession) → ℕ → CachedSession
modify r f heap k = if eqb k r then f (heap k) else heap k

-- reclaimCause; a duration past a limit is a time past the sum.
unfoldable pub reclaim_cause : ℕ → ℕ → ℕ → CachedSession → Option String
reclaim_cause ttl max_age now s =
    if s.dirty
    then some "dirty"
    else if ltb (s.built_at + max_age) now
    then some "max_age"
    else if ltb (s.last_seen + ttl) now
    then some "idle_timeout"
    else none

abbrev pub points_to : Option ℕ → ℕ → Bool
points_to none r = false
points_to (some k) r = eqb k r

-- staleTransportsLocked on one binding, if the id has one.
pub stale_binding :
    ℕ
    → String
    → ℕ
    → String
    → Assoc TransportBinding
    → Option TransportBinding
    → Assoc TransportBinding
stale_binding r cause now id bound none = bound
stale_binding r cause now id bound (some b) =
    if points_to b.sess r
    then insert id (record { sess = none; cause = cause; stale_at = now }) bound
    else bound

pub stale_bindings : ℕ → String → ℕ → List String → Assoc TransportBinding → Assoc TransportBinding
stale_bindings r cause now [] bound = bound
stale_bindings r cause now (id ∷ ids) bound =
    stale_bindings r cause now ids (stale_binding r cause now id bound (lookup id bound))

pub stale_transports : ℕ → String → ℕ → SessionCache → SessionCache
stale_transports r cause now c = record c {
  bound = stale_bindings r cause now (c.heap r).transport_ids c.bound;
  heap = modify r (λ s. record s { transport_ids = [] }) c.heap;
}

pub close_session : ℕ → SessionCache → SessionCache
close_session r c = record c { heap = modify r (λ s. record s { closes = s.closes + 1 }) c.heap }

-- What a reclaim does: the transports go stale, the entry goes, and the session is closed.
pub drop : String → ℕ → String → ℕ → SessionCache → SessionCache
drop key r cause now c =
    let stale = stale_transports r cause now c in
    close_session r (record stale { m = erase key stale.m })

-- get, on what the map holds and on the cause for a reclaim.
unfoldable pub get_checked : String → ℕ → ℕ → SessionCache → Option String → Option ℕ × SessionCache
get_checked key now r c (some cause) = (none, drop key r cause now c)
get_checked key now r c none =
    (some r, record c { heap = modify r (λ s. record s { last_seen = now }) c.heap })

unfoldable pub get_found : String → ℕ → SessionCache → Option ℕ → Option ℕ × SessionCache
get_found key now c none = (none, c)
get_found key now c (some r) =
    get_checked key now r c (reclaim_cause c.ttl c.max_age now (c.heap r))

unfoldable pub get : String → ℕ → SessionCache → Option ℕ × SessionCache
get key now c = get_found key now c (lookup key c.m)

-- put of the session at an address.
unfoldable pub put : String → ℕ → ℕ → SessionCache → SessionCache
put key r now c =
    if c.closed then close_session r (stale_transports r "explicit_close" now c) else record c {
      m = insert key r c.m;
      heap = modify r (λ s. record s { last_seen = now; built_at = now; cache_key = key }) c.heap;
    }

-- build: a new session of the owner at the next address.
abbrev pub new_session : Owner → CachedSession
new_session owner = record {
  cache_key = "";
  subject = owner.subject;
  tenant_id = owner.tenant_id;
  last_seen = 0;
  built_at = 0;
  transport_ids = [];
  dirty = false;
  closes = 0;
}

abbrev pub build : Owner → SessionCache → SessionCache
build owner c = record c { heap = modify c.next (λ s. new_session owner) c.heap; next = c.next + 1 }

-- The function that singleflight runs, after its own get; `owner` is none where the build fails.
unfoldable pub build_missing :
    String → ℕ → Option Owner → Option ℕ × SessionCache → Option ℕ × SessionCache
build_missing key later owner (some r, c) = (some r, c)
build_missing key later none (none, c) = (none, c)
build_missing key later (some owner) (none, c) = (some c.next, put key c.next later (build owner c))

unfoldable pub or_build :
    String → ℕ → Option Owner → Option ℕ × SessionCache → Option ℕ × SessionCache
or_build key later owner (some r, c) = (some r, c)
or_build key later owner (none, c) = build_missing key later owner (get key later c)

unfoldable pub get_or_build : String → ℕ → ℕ → Option Owner → SessionCache → Option ℕ × SessionCache
get_or_build key now later owner c = or_build key later owner (get key now c)

-- bindTransport of a session that is not nil; the first binding of an id stays.
unfoldable pub bind_found : String → ℕ → SessionCache → Option TransportBinding → SessionCache
bind_found id r c (some b) = c
bind_found id r c none = record c {
  bound = insert id (record { sess = some r; cause = ""; stale_at = 0 }) c.bound;
  heap = modify r (λ s. record s { transport_ids = s.transport_ids ++ id ∷ [] }) c.heap;
}

unfoldable pub bind_transport : String → ℕ → SessionCache → SessionCache
bind_transport id r c = if id == "" || c.closed then c else bind_found id r c (lookup id c.bound)

pub mark_dirty : ℕ → SessionCache → SessionCache
mark_dirty r c = record c { heap = modify r (λ s. record s { dirty = true }) c.heap }

-- The loops over the map: the entries with a cause are dropped.
pub drop_entry :
    (CachedSession → Option String) → String → ℕ → ℕ → SessionCache → Option String → SessionCache
drop_entry why key r now c none = c
drop_entry why key r now c (some cause) = drop key r cause now c

pub drop_where : (CachedSession → Option String) → ℕ → Assoc ℕ → SessionCache → SessionCache
drop_where why now [] c = c
drop_where why now ((key, r) ∷ rest) c =
    drop_where why now rest (drop_entry why key r now c (why (c.heap r)))

abbrev pub of_tenant : String → CachedSession → Option String
of_tenant tenant s = if s.tenant_id == tenant then some "entitlement_change" else none

unfoldable pub invalidate_tenant : String → ℕ → SessionCache → SessionCache
invalidate_tenant tenant now c = if c.closed then c else drop_where (of_tenant tenant) now c.m c

-- sweepTransportsLocked on one binding: none where it goes.
abbrev pub is_current : SessionCache → ℕ → Bool
is_current c r = points_to (lookup (c.heap r).cache_key c.m) r

pub sweep_binding : SessionCache → ℕ → TransportBinding → Option ℕ → Option TransportBinding
sweep_binding c now b (some r) =
    some (if is_current c r then b else record { sess = none; cause = "unknown"; stale_at = now })
sweep_binding c now b none = if ltb (b.stale_at + 2 * c.max_age) now then none else some b

abbrev pub keep_swept :
    String → Option TransportBinding → Assoc TransportBinding → Assoc TransportBinding
keep_swept id none rest = rest
keep_swept id (some b) rest = (id, b) ∷ rest

pub sweep_bindings : SessionCache → ℕ → Assoc TransportBinding → Assoc TransportBinding
sweep_bindings c now [] = []
sweep_bindings c now ((id, b) ∷ rest) =
    keep_swept id (sweep_binding c now b b.sess) (sweep_bindings c now rest)

unfoldable pub reap : ℕ → SessionCache → SessionCache
reap now c =
    let c' = drop_where (reclaim_cause c.ttl c.max_age now) now c.m c in
    record c' { bound = sweep_bindings c' now c'.bound }

abbrev pub explicit : CachedSession → Option String
explicit s = some "explicit_close"

unfoldable pub close_all : ℕ → SessionCache → SessionCache
close_all now c = drop_where explicit now c.m (record c { closed = true })

-- The calls that change the cache.
pub data Step : Type 0 where
  fetch : String → ℕ → ℕ → Option Owner → Step
  bind : String → ℕ → Step
  soil : ℕ → Step
  invalidate : String → ℕ → Step
  collect : ℕ → Step
  shut : ℕ → Step

unfoldable pub step : SessionCache → Step → SessionCache
step c (fetch key now later owner) = (get_or_build key now later owner c).1
step c (bind id r) = bind_transport id r c
step c (soil r) = mark_dirty r c
step c (invalidate tenant now) = invalidate_tenant tenant now c
step c (collect now) = reap now c
step c (shut now) = close_all now c

unfoldable pub steps : SessionCache → List Step → SessionCache
steps c [] = c
steps c (s ∷ ss) = steps (step c s) ss

-- newSessionCache
abbrev pub new_session_cache : ℕ → ℕ → SessionCache
new_session_cache ttl max_age = record {
  heap = λ k. new_session (record { subject = ""; tenant_id = "" });
  next = 0;
  m = [];
  bound = [];
  ttl = ttl;
  max_age = max_age;
  closed = false;
}
