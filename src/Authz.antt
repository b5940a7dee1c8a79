-- ===== src/Authz.antt =====
-- internal/authz: who is let in. The users table of the tenant (internal/store/user.go) is a map
-- from subjects; each statement on it may fail. The seat cap reads the table before the upsert
-- writes it, and a request is one step: the source accepts that two new subjects race.
mod Tests
pub mod Admission
pub mod Deactivation
use orbeat_community.Prelude.{
  ℕ, ◌+◌, String, Bool, true, false, not, ◌&&◌, ◌||◌, Option, none, some, List, [], ◌∷◌, ◌==◌, ltb,
  leb, contains, if◌then◌else◌,
}
use orbeat_community.Prelude.Assoc.{Assoc, lookup, insert}
use orbeat_community.Prelude.Results.{Result, err, ok}

-- hasAnyRole; hasRole is a search of the list.
unfoldable pub has_any_role : List String → List String → Bool
has_any_role have [] = false
has_any_role have (w ∷ want) =
    let rest = has_any_role have want in
    if w == "" then rest else if contains have w then true else rest

pub record Principal : Type 0 where
  pub subject : String
  pub email : String
  pub roles : List String

-- A row of the users table.
pub record User : Type 0 where
  pub email : String
  pub display_name : String
  pub last_seen_at : Option ℕ
  pub deactivated_at : Option ℕ

-- The statements that fail: of the tenant, of the two reads of the user's row (checkDeactivated,
-- then checkSeatCap), of the count, the upsert and the roles.
pub record Faults : Type 0 where
  pub tenant_fails : Bool
  pub user_fails : Bool
  pub known_fails : Bool
  pub count_fails : Bool
  pub upsert_fails : Bool
  pub roles_fails : Bool

pub data AuthError : Type 0 where
  internal : AuthError
  deactivated : String → ℕ → AuthError
  seat_limit : ℕ → ℕ → AuthError

-- last_seen_at > now - window
abbrev pub seen_within : ℕ → ℕ → Option ℕ → Bool
seen_within window now none = false
seen_within window now (some t) = ltb now (t + window)

abbrev pub is_none : Option ℕ → Bool
is_none none = true
is_none (some t) = false

-- CountActiveUsers
abbrev pub is_active : ℕ → ℕ → User → Bool
is_active window now u = seen_within window now u.last_seen_at && is_none u.deactivated_at

pub count_active_users : ℕ → ℕ → Assoc User → ℕ
count_active_users window now [] = 0
count_active_users window now ((subject, u) ∷ users) =
    (if is_active window now u then 1 else 0) + count_active_users window now users

-- checkDeactivated, on the row that it reads.
abbrev pub refuse_deactivated : String → Option ℕ → Option AuthError
refuse_deactivated subject none = none
refuse_deactivated subject (some t) = some (deactivated subject t)

pub check_deactivated : Faults → String → Option User → Option AuthError
check_deactivated f subject none = if f.user_fails then some internal else none
check_deactivated f subject (some u) =
    if f.user_fails then some internal else refuse_deactivated subject u.deactivated_at

-- What the cap says where it applies: a known subject is let through.
pub seat_for_new : Faults → ℕ → ℕ → Option User → Option AuthError
seat_for_new f limit active (some u) = none
seat_for_new f limit active none =
    if f.count_fails
    then some internal
    else if leb limit active
    then some (seat_limit limit active)
    else none

-- checkSeatCap, on the row that it reads and the number of active users. A limit of 0 or below is
-- the limit 0 here: no cap.
pub check_seat_cap : Faults → ℕ → ℕ → Option User → Option AuthError
check_seat_cap f limit active o =
    if leb limit 0
    then none
    else if f.known_fails
    then some internal
    else seat_for_new f limit active o

abbrev pub last_seen_write_threshold : ℕ
last_seen_write_threshold = 3_600_000_000_000

-- UpsertUser: the row that it leaves.
pub upsert_row : Principal → ℕ → Option User → User
upsert_row p now none = record {
  email = p.email;
  display_name = p.email;
  last_seen_at = some now;
  deactivated_at = none;
}
upsert_row p now (some u) =
    if u.email == p.email
      && u.display_name == p.email
      && seen_within last_seen_write_threshold now u.last_seen_at
    then u
    else record u { email = p.email; display_name = p.email; last_seen_at = some now }

-- ResolvedContext, with the caller's subject for the user's id.
pub record ResolvedContext : Type 0 where
  pub user : String
  pub role_ids : List String

abbrev pub active_seat_window : ℕ
active_seat_window = 604_800_000_000_000

-- Resolve: what it returns, and the table that it leaves. `role_ids` is GetRolesByNames.
module _ (f : Faults) (limit : ℕ) (role_ids : List String → List String) where
  pub finish : Principal → ℕ → Assoc User → Result AuthError ResolvedContext × Assoc User
  finish p now users =
      let users' = insert p.subject (upsert_row p now (lookup p.subject users)) users in
      if f.upsert_fails
      then (err internal, users)
      else if f.roles_fails
      then (err internal, users')
      else (ok (record { user = p.subject; role_ids = role_ids p.roles }), users')

  pub seat_checked :
      Principal → ℕ → Assoc User → Option AuthError → Result AuthError ResolvedContext × Assoc User
  seat_checked p now users (some e) = (err e, users)
  seat_checked p now users none = finish p now users

  pub active_checked :
      Principal → ℕ → Assoc User → Option AuthError → Result AuthError ResolvedContext × Assoc User
  active_checked p now users (some e) = (err e, users)
  active_checked p now users none = seat_checked p now users (
      check_seat_cap f limit (count_active_users active_seat_window now users)
        (lookup p.subject users))

  unfoldable pub resolve :
      Principal → ℕ → Assoc User → Result AuthError ResolvedContext × Assoc User
  resolve p now users =
      if f.tenant_fails
      then (err internal, users)
      else active_checked p now users (check_deactivated f p.subject (lookup p.subject users))

-- What Middleware answers.
pub data Response : Type 0 where
  unauthorized : Response
  payment_required : ℕ → ℕ → Response
  forbidden : Response
  internal_error : Response
  served : ResolvedContext → Response

pub response : Result AuthError ResolvedContext → Response
response (ok rc) = served rc
response (err internal) = internal_error
response (err (deactivated subject t)) = forbidden
response (err (seat_limit limit active)) = payment_required limit active

pub middleware :
    Faults
    → ℕ
    → (List String → List String)
    → Option Principal
    → ℕ
    → Assoc User
    → Response × Assoc User
middleware f limit role_ids none now users = (unauthorized, users)
middleware f limit role_ids (some p) now users =
    let (r, users') = resolve f limit role_ids p now users in (response r, users')
