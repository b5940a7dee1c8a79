-- ===== src/Gateway/WithSession/Markers.antt =====
-- The values of the rejection's header.
use orbeat_community.Prelude.{
  ℕ, String, ◌≡◌, refl, sym, inl, inr, true, false, ◌&&◌, Option, none, some, List, ◌==◌, Among,
  arith, contains, contains_iff, eq_iff, Bool-cases, subst, if◌then◌else◌,
}
use orbeat_community.Prelude.Assoc.{lookup}
use orbeat_community.RateLimit.Adapters.{Principal, key_for}
use orbeat_community.Gateway.SessionCache.{
  TransportBinding, SessionCache, points_to, get_or_build, Step, fetch, step, steps,
  new_session_cache,
}
use orbeat_community.Gateway.SessionCache.Causes.{
  causes, Marked, AllMarked, step-AllMarked, steps-AllMarked, lookup-IsMarked,
}
use orbeat_community.Gateway.WithSession.{
  Request, TransportLookup, Rejection, rejected, looked_up, lookup_transport, bound_rejection,
  is_foreign, refuse_bound, refuse_unbound, check_transport, with_built, owned_by, with_principal,
  with_session,
}

-- What the rejection tells the client of the binding: a tombstone's cause, "unknown" where the
-- binding has a session, "unbound" where there is none.
abbrev pub TellsBound : Rejection → Option ℕ → String → Type 0
TellsBound rej none cause = (rej.header ≡ cause) × Among rej.header causes
TellsBound rej (some r) cause = rej.header ≡ "unknown"

abbrev pub Tells : Rejection → Option TransportBinding → Type 0
Tells rej none = rej.header ≡ "unbound"
Tells rej (some b) = TellsBound rej b.sess b.cause

-- What it tells the log beyond that: that the session is another subject's, where it is.
abbrev pub Logs : String → SessionCache → Rejection → Option TransportBinding → Type 0
Logs subject c rej none = rej.cause ≡ rej.header
Logs subject c rej (some b) =
    rej.cause ≡ (if is_foreign subject c b.sess then "cross_subject" else rej.header)

refuse_bound-header :
    (subject : String) (c : SessionCache) (b : TransportLookup)
    → (refuse_bound subject c b).header ≡ (bound_rejection b.cause).header
unfolding refuse_bound
refuse_bound-header subject c b = elim (Bool-cases (is_foreign subject c b.sess)) [
  | inl foreign ↦ rw foreign refl
  | inr own ↦ rw own refl
]

bound_rejection-cause :
    (cause : String) → (bound_rejection cause).cause ≡ (bound_rejection cause).header
unfolding bound_rejection
bound_rejection-cause cause = elim (Bool-cases (cause == "")) [
  | inl empty ↦ rw empty refl
  | inr full ↦ rw full refl
]

refuse_bound-cause :
    (subject : String) (c : SessionCache) (b : TransportLookup)
    → (refuse_bound subject c b).cause
      ≡ (if is_foreign subject c b.sess then "cross_subject" else (refuse_bound subject c b).header)
unfolding refuse_bound
refuse_bound-cause subject c b = elim (Bool-cases (is_foreign subject c b.sess)) [
  | inl foreign ↦ rw foreign refl
  | inr own ↦ rw own (bound_rejection-cause b.cause)
]

causes_named : (cause : String) → Among cause causes → cause == "" ≡ false
unfolding contains
causes_named cause h = elim (Bool-cases (cause == "")) [
  | inr full ↦ full
  | inl empty ↦
      let none_named : Among "" causes =
        subst (λ x. Among x causes) ((eq_iff cause "").0 empty) h in
      let hit : contains causes "" ≡ true = (contains_iff causes "").1 none_named in cc
]

bound_rejection-Tells :
    (rej : Rejection) (o : Option ℕ) (cause : String)
    → Marked o cause
    → rej.header ≡ (bound_rejection cause).header
    → TellsBound rej o cause
unfolding bound_rejection
bound_rejection-Tells rej none cause named told =
    let e : rej.header ≡ cause = rw (causes_named cause named) at told in
    (e, subst (λ x. Among x causes) (sym e) named)
bound_rejection-Tells rej (some r) cause fresh told = rw fresh at told

rejected_inj : {a b : Rejection} → rejected a ≡ rejected b → a ≡ b
rejected_inj e = ground arith

refusal-Tells :
    (subject : String) (c : SessionCache) (o : Option TransportBinding) (rej : Rejection)
    → ((b : TransportBinding) → o ≡ some b → Marked b.sess b.cause)
    → (if (looked_up o).known
        then rejected (refuse_bound subject c (looked_up o))
        else rejected refuse_unbound)
      ≡ rejected rej
    → Tells rej o × Logs subject c rej o
refusal-Tells subject c none rej marked e =
    let same : refuse_unbound ≡ rej = rejected_inj e in
    subst (λ x. Tells x none × Logs subject c x none) same (refl, refl)
refusal-Tells subject c (some b) rej marked e =
    let same : refuse_bound subject c (looked_up (some b)) ≡ rej = rejected_inj e in
    subst (λ x. Tells x (some b) × Logs subject c x (some b)) same
      (
        bound_rejection-Tells (refuse_bound subject c (looked_up (some b))) b.sess b.cause
            (marked b refl) (refuse_bound-header subject c (looked_up (some b))),
        refuse_bound-cause subject c (looked_up (some b)),
      )

check_transport-Tells :
    (subject : String) (request : Request) (r : ℕ) (c : SessionCache) (rej : Rejection)
    → AllMarked c
    → check_transport subject request r c (lookup_transport request.mcp_session_id c) ≡ rejected rej
    → Tells rej (lookup request.mcp_session_id c.bound)
      × Logs subject c rej (lookup request.mcp_session_id c.bound)
unfolding check_transport lookup_transport
check_transport-Tells subject request r c rej h e =
    let id = request.mcp_session_id in
    let o = lookup id c.bound in
    elim (Bool-cases (id == "")) [
      | inl empty ↦ cc (rw empty at e)
      | inr named ↦ elim (Bool-cases (request.method == "DELETE")) [
        | inl deleted ↦ cc (rw (named, deleted) at e)
        | inr kept ↦ elim (Bool-cases ((looked_up o).known && points_to (looked_up o).sess r)) [
          | inl hit ↦ cc (rw (named, kept, hit) at e)
          | inr miss ↦
              refusal-Tells subject c o rej (λ b there. lookup-IsMarked id c.bound b h there)
                (rw (named, kept, miss) at e)
        ]
      ]
    ]

with_built-Tells :
    (subject : String) (request : Request) (between : List Step) (o : Option ℕ) (c : SessionCache)
    (rej : Rejection)
    → AllMarked c
    → (with_built subject request between (o, c)).0 ≡ rejected rej
    → Tells rej (lookup request.mcp_session_id (steps c between).bound)
      × Logs subject (steps c between) rej (lookup request.mcp_session_id (steps c between).bound)
unfolding with_built
with_built-Tells subject request between none c rej h e = cc
with_built-Tells subject request between (some r) c rej h e =
    check_transport-Tells subject request r (steps c between) rej (steps-AllMarked c between h) e

-- From a new cache, after any calls: a request that is refused with a 404 gets in its header why
-- the transport it names is dead, one of six causes, when the binding is a tombstone; "unknown",
-- never "cross_subject", when the binding has a session; and "unbound" when there is no binding.
-- The log's cause is the header, or "cross_subject" where the bound session is of another subject.
-- The binding is the one found when it is looked up, whatever other requests did since the fetch.
pub with_session-Tells :
    (ttl max_age : ℕ) (ss between : List Step) (request : Request) (p : Principal) (now later : ℕ)
    (tenant : Option String) (rej : Rejection)
    → let c = steps (new_session_cache ttl max_age) ss in
      let seen = steps (step c (fetch (key_for p) now later (owned_by p.subject tenant))) between in
      request.principal ≡ some p
      → (with_session request now later tenant between c).0 ≡ rejected rej
      → Tells rej (lookup request.mcp_session_id seen.bound)
        × Logs p.subject seen rej (lookup request.mcp_session_id seen.bound)
unfolding with_session with_principal step
with_session-Tells ttl max_age ss between request p now later tenant rej known found =
    let c = steps (new_session_cache ttl max_age) ss in
    let owner = owned_by p.subject tenant in
    let got = get_or_build (key_for p) now later owner c in
    let found_p : (with_built p.subject request between got).0 ≡ rejected rej =
      subst (λ q. (with_principal request now later tenant between c q).0 ≡ rejected rej) known
        found in
    with_built-Tells p.subject request between got.0 got.1 rej
      (step-AllMarked c (fetch (key_for p) now later owner)
        (steps-AllMarked (new_session_cache ttl max_age) ss tt))
      found_p
