-- ===== src/Authz/Deactivation.antt =====
-- A deprovisioned user stays out: UpsertUser runs on every request of a user that is let in, and
-- checkDeactivated on every request before it.
use orbeat_community.Prelude.{
  ℕ, String, ◌≡◌, refl, ap, ◌∙◌, inl, inr, Bool, true, false, ◌||◌, Option, none, some, List, [],
  ◌∷◌, ◌==◌, eq_iff, Bool-cases, Option-cases, if◌then◌else◌,
}
use orbeat_community.Prelude.Assoc.{Assoc, lookup, insert, lookup-insert}
use orbeat_community.Prelude.Results.{Result, err}
use orbeat_community.Authz.{
  Principal, User, Faults, AuthError, internal, deactivated, check_deactivated, upsert_row, finish,
  seat_checked, active_checked, resolve, middleware, response, Response, internal_error, forbidden,
  ResolvedContext,
}

-- A request: what fails during it, the cap that stands, who calls and when.
pub record Call : Type 0 where
  pub faults : Faults
  pub limit : ℕ
  pub who : Option Principal
  pub now : ℕ

-- The users table after requests, the first of them first.
unfoldable pub after : (List String → List String) → List Call → Assoc User → Assoc User
after role_ids [] users = users
after role_ids (c ∷ calls) users =
    let (answer, users') = middleware c.faults c.limit role_ids c.who c.now users in
    after role_ids calls users'

-- Both branches of a test have what `g` reads.
if_both :
    {A B : Type 0} (g : A → B) (b : Bool) (x y : A) (c : B)
    → g x ≡ c
    → g y ≡ c
    → g (if b then x else y) ≡ c
if_both g true x y c first second = first
if_both g false x y c first second = second

-- What a result of Resolve leaves of a subject.
abbrev left_for : String → Result AuthError ResolvedContext × Assoc User → Option User
left_for subject r = lookup subject r.1

-- The error of a request by a subject that was deactivated at t.
abbrev refusal : Faults → String → ℕ → AuthError
refusal f subject t = if f.tenant_fails || f.user_fails then internal else deactivated subject t

check_deactivated-row :
    (failed : Bool) (e d : AuthError)
    → (if failed then some e else some d) ≡ some (if failed then e else d)
check_deactivated-row true e d = refl
check_deactivated-row false e d = refl

-- Resolve stops with an error, and writes nothing.
abbrev refuse : AuthError → Assoc User → Result AuthError ResolvedContext × Assoc User
refuse e users = (err e, users)

refuse_either_way :
    (first second : Bool) (e d : AuthError) (users : Assoc User)
    → (if first then refuse e users else refuse (if second then e else d) users)
      ≡ refuse (if first || second then e else d) users
refuse_either_way true second e d users = refl
refuse_either_way false second e d users = refl

response-refusal :
    (failed : Bool) (subject : String) (t : ℕ)
    → response (err (if failed then internal else deactivated subject t))
      ≡ (if failed then internal_error else forbidden)
unfolding response
response-refusal true subject t = refl
response-refusal false subject t = refl

module _ (role_ids : List String → List String) where
  -- A deactivated subject's own request ends at checkDeactivated, or before it.
  resolve-refusal :
      (f : Faults) (limit : ℕ) (p : Principal) (now : ℕ) (users : Assoc User) (u : User) (t : ℕ)
      → lookup p.subject users ≡ some u
      → u.deactivated_at ≡ some t
      → resolve f limit role_ids p now users ≡ refuse (refusal f p.subject t) users
  unfolding resolve active_checked check_deactivated
  resolve-refusal f limit p now users u t row gone =
      rw (row, gone, check_deactivated-row f.user_fails internal (deactivated p.subject t))
        (refuse_either_way f.tenant_fails f.user_fails internal (deactivated p.subject t) users)

  -- Another subject's request writes another row.
  finish-others :
      (f : Faults) (limit : ℕ) (p : Principal) (now : ℕ) (users : Assoc User) (subject : String)
      → (p.subject == subject) ≡ false
      → left_for subject (finish f limit role_ids p now users) ≡ lookup subject users
  unfolding finish
  finish-others f limit p now users subject other =
      let row = upsert_row p now (lookup p.subject users) in
      let kept : lookup subject (insert p.subject row users) ≡ lookup subject users =
        lookup-insert p.subject subject row users ∙ rw other refl in
      if_both (left_for subject) f.upsert_fails _ _ _ refl
        (if_both (left_for subject) f.roles_fails _ _ _ kept kept)

  seat_checked-others :
      (f : Faults) (limit : ℕ) (p : Principal) (now : ℕ) (users : Assoc User) (subject : String)
      (c : Option AuthError)
      → (p.subject == subject) ≡ false
      → left_for subject (seat_checked f limit role_ids p now users c) ≡ lookup subject users
  unfolding seat_checked
  seat_checked-others f limit p now users subject (some e) other = refl
  seat_checked-others f limit p now users subject none other =
      finish-others f limit p now users subject other

  active_checked-others :
      (f : Faults) (limit : ℕ) (p : Principal) (now : ℕ) (users : Assoc User) (subject : String)
      (c : Option AuthError)
      → (p.subject == subject) ≡ false
      → left_for subject (active_checked f limit role_ids p now users c) ≡ lookup subject users
  unfolding active_checked
  active_checked-others f limit p now users subject (some e) other = refl
  active_checked-others f limit p now users subject none other =
      seat_checked-others f limit p now users subject _ other

  resolve-others :
      (f : Faults) (limit : ℕ) (p : Principal) (now : ℕ) (users : Assoc User) (subject : String)
      → (p.subject == subject) ≡ false
      → left_for subject (resolve f limit role_ids p now users) ≡ lookup subject users
  unfolding resolve
  resolve-others f limit p now users subject other =
      if_both (left_for subject) f.tenant_fails _ _ _ refl
        (active_checked-others f limit p now users subject _ other)

  -- Nobody's request touches a deactivated row.
  middleware-row :
      (c : Call) (users : Assoc User) (subject : String) (u : User) (t : ℕ)
      → lookup subject users ≡ some u
      → u.deactivated_at ≡ some t
      → lookup subject (middleware c.faults c.limit role_ids c.who c.now users).1 ≡ some u
  unfolding middleware
  middleware-row c users subject u t row gone = elim (Option-cases c.who) [
    | inl nobody ↦ rw nobody row
    | inr (p, caller) ↦ rw caller (elim (Bool-cases (p.subject == subject)) [
      | inl own ↦
          let same = (eq_iff p.subject subject).0 own in
          rw
            (resolve-refusal c.faults c.limit p c.now users u t
              (ap (λ (s : String). lookup s users) same ∙ row) gone)
            row
      | inr other ↦ resolve-others c.faults c.limit p c.now users subject other ∙ row
    ])
  ]

  after-row :
      (calls : List Call) (users : Assoc User) (subject : String) (u : User) (t : ℕ)
      → lookup subject users ≡ some u
      → u.deactivated_at ≡ some t
      → lookup subject (after role_ids calls users) ≡ some u
  unfolding after
  after-row [] users subject u t row gone = row
  after-row (c ∷ calls) users subject u t row gone =
      after-row calls _ subject u t (middleware-row c users subject u t row gone) gone

-- A user whose row is deactivated is not served again by asking: after any requests that Middleware
-- handles, of anyone, whatever failed and whatever the cap was during each, a request of that user
-- is answered with forbidden, or, where the statement on the tenant or the read of the user fails,
-- with internal_error; it leaves the users table as it found it, with the user's row unchanged
-- since before those requests.
pub middleware-forbidden :
    (role_ids : List String → List String) (calls : List Call) (users : Assoc User) (u : User)
    (t : ℕ) (f : Faults) (limit : ℕ) (p : Principal) (now : ℕ)
    → lookup p.subject users ≡ some u
    → u.deactivated_at ≡ some t
    → let users' = after role_ids calls users in
      (middleware f limit role_ids (some p) now users'
        ≡ (if f.tenant_fails || f.user_fails then internal_error else forbidden, users'))
      × (lookup p.subject users' ≡ some u)
unfolding middleware
middleware-forbidden role_ids calls users u t f limit p now row gone =
    let still = after-row role_ids calls users p.subject u t row gone in
    let users' = after role_ids calls users in
    let failed = f.tenant_fails || f.user_fails in
    (
      rw (resolve-refusal role_ids f limit p now users' u t still gone)
          (ap (λ (r : Response). (r, users')) (response-refusal failed p.subject t)),
      still,
    )
