-- ===== src/Authz/Admission.antt =====
-- Who is let in, exactly.
use orbeat_community.Prelude.{
  if_true, if_false, ℕ, ◌<◌, String, ◌≡◌, ◌≢◌, ◌⊎◌, ◌↔◌, refl, sym, ap, ◌∙◌, inl, inr, Bool, true,
  false, Option, none, some, List, [], ◌∷◌, ◌==◌, contains, contains_iff, Among, arith, eq_iff,
  Bool-cases, Option-cases,
}
use orbeat_community.Prelude.Assoc.{Assoc, lookup}
use orbeat_community.Prelude.Results.{Result, err, ok}
use orbeat_community.Authz.{
  has_any_role, Principal, User, Faults, AuthError, deactivated, count_active_users,
  active_seat_window, refuse_deactivated, check_deactivated, check_seat_cap, seat_for_new, finish,
  seat_checked, active_checked, resolve, ResolvedContext,
}

-- Some role that is wanted, and is no empty name, is had. So a list of wanted roles that is empty, or
-- holds only empty names, lets nobody in.
pub has_any_role_iff :
    (have want : List String)
    → (has_any_role have want ≡ true) ↔ ((w : String) × Among w want × (w ≢ "") × Among w have)
unfolding has_any_role
has_any_role_iff have [] = (λ h. cc, λ h. absurd h.1)
has_any_role_iff have (w ∷ want) =
    let (to, from) = has_any_role_iff have want in
    let later : ((x : String) × Among x want × (x ≢ "") × Among x have)
        → (x : String) × Among x (w ∷ want) × (x ≢ "") × Among x have =
      λ found. (found.0, inr found.1, found.2, found.3) in
    elim (Bool-cases (w == "")) [
      | inl empty ↦ rw empty (
        λ h. later (to h),
        λ found. elim found.1 [
          | inl same ↦ absurd (found.2 (sym same ∙ (eq_iff w "").0 empty))
          | inr among ↦ from (found.0, among, found.2, found.3)
        ],
      )
      | inr named ↦ elim (Bool-cases (contains have w)) [
        | inl had ↦
            let name : w ≢ "" = ground (arith, eq_iff w "") in
            rw (named, had) (λ h. (w, inl refl, name, (contains_iff have w).0 had), λ found. refl)
        | inr lacks ↦
            rw (named, lacks)
              (
                λ h. later (to h),
                λ found. elim found.1 [
                  | inl same ↦ cc (lacks, (contains_iff have w).1 (rw (← same) at found.3))
                  | inr among ↦ from (found.0, among, found.2, found.3)
                ],
              )
      ]
    ]

-- The subject has no row, or a row that is not deactivated.
abbrev pub IsActive : Option User → Type 0
IsActive o = (o ≡ none) ⊎ ((u : User) × (o ≡ some u) × (u.deactivated_at ≡ none))

-- There is no cap, or the subject is known, or there are fewer active users than the cap.
abbrev pub HasSeat : Faults → ℕ → ℕ → Option User → Type 0
HasSeat f limit active o =
    (limit ≡ 0)
    ⊎ ((f.known_fails ≡ false) × ((o ≢ none) ⊎ ((f.count_fails ≡ false) × (active < limit))))

pub record IsAdmitted (f : Faults) (limit now : ℕ) (users : Assoc User) (subject : String)
    : Type 0 where
  pub tenant : f.tenant_fails ≡ false
  pub user : f.user_fails ≡ false
  pub active : IsActive (lookup subject users)
  pub seat :
      HasSeat f limit (count_active_users active_seat_window now users) (lookup subject users)
  pub upsert : f.upsert_fails ≡ false
  pub roles : f.roles_fails ≡ false

abbrev pub is_ok : Result AuthError ResolvedContext → Bool
is_ok (err e) = false
is_ok (ok rc) = true

-- When the row was deactivated, if there is a row and it was.
abbrev deactivation : Option User → Option ℕ
deactivation none = none
deactivation (some u) = u.deactivated_at

finish_iff :
    (f : Faults) (limit : ℕ) (role_ids : List String → List String) (p : Principal) (now : ℕ)
    (users : Assoc User)
    → (is_ok (finish f limit role_ids p now users).0 ≡ true)
      ↔ ((f.upsert_fails ≡ false) × (f.roles_fails ≡ false))
unfolding finish
finish_iff f limit role_ids p now users = ground arith

check_deactivated_iff :
    (f : Faults) (subject : String) (o : Option User)
    → (check_deactivated f subject o ≡ none) ↔ ((f.user_fails ≡ false) × IsActive o)
unfolding check_deactivated
check_deactivated_iff f subject none = elim (Bool-cases f.user_fails) [
  | inl fails ↦ (λ h. cc (if_true _ _ fails, h), λ a. cc (fails, a.0))
  | inr fine ↦ (λ h. (fine, inl refl), λ a. if_false _ _ fine)
]
check_deactivated_iff f subject (some u) = elim (Bool-cases f.user_fails) [
  | inl fails ↦ (λ h. cc (if_true _ _ fails, h), λ a. cc (fails, a.0))
  | inr fine ↦ elim (Option-cases u.deactivated_at) [
    | inl active ↦ (
      λ h. (fine, inr (u, refl, active)),
      λ a. if_false _ _ fine ∙ ap (refuse_deactivated subject) active,
    )
    | inr (t, gone) ↦
        let refused : check_deactivated f subject (some u) ≡ some (deactivated subject t) =
          if_false _ _ fine ∙ ap (refuse_deactivated subject) gone in
        (
          λ h. cc (refused, h),
          λ a. elim a.1 [
            | inl nobody ↦ cc
            | inr (v, same, active) ↦ cc (active, ap deactivation same, gone)
          ],
        )
  ]
]

check_seat_cap_iff :
    (f : Faults) (limit active : ℕ) (o : Option User)
    → (check_seat_cap f limit active o ≡ none) ↔ HasSeat f limit active o
unfolding check_seat_cap seat_for_new
check_seat_cap_iff f limit active (some u) = ground arith
check_seat_cap_iff f limit active none = ground arith

seat_checked_iff :
    (f : Faults) (limit : ℕ) (role_ids : List String → List String) (p : Principal) (now : ℕ)
    (users : Assoc User) (c : Option AuthError)
    → (is_ok (seat_checked f limit role_ids p now users c).0 ≡ true)
      ↔ ((c ≡ none) × (f.upsert_fails ≡ false) × (f.roles_fails ≡ false))
unfolding seat_checked
seat_checked_iff f limit role_ids p now users (some e) = (λ h. cc, λ a. cc (a.0))
seat_checked_iff f limit role_ids p now users none =
    let (to, from) = finish_iff f limit role_ids p now users in
    (λ h. (refl, (to h).0, (to h).1), λ a. from (a.1, a.2))

active_checked_iff :
    (f : Faults) (limit : ℕ) (role_ids : List String → List String) (p : Principal) (now : ℕ)
    (users : Assoc User) (c : Option AuthError)
    → (is_ok (active_checked f limit role_ids p now users c).0 ≡ true) ↔ (
        (c ≡ none)
        × (check_seat_cap f limit
              (count_active_users active_seat_window now users)
              (lookup p.subject users)
            ≡ none)
        × (f.upsert_fails ≡ false)
        × (f.roles_fails ≡ false))
unfolding active_checked
active_checked_iff f limit role_ids p now users (some e) = (λ h. cc, λ a. cc (a.0))
active_checked_iff f limit role_ids p now users none =
    let (to, from) = seat_checked_iff f limit role_ids p now users (
      check_seat_cap f limit (count_active_users active_seat_window now users)
        (lookup p.subject users)) in
    (λ h. (refl, (to h).0, (to h).1, (to h).2), λ a. from (a.1, a.2, a.3))

resolve_checks :
    (f : Faults) (limit : ℕ) (role_ids : List String → List String) (p : Principal) (now : ℕ)
    (users : Assoc User)
    → (is_ok (resolve f limit role_ids p now users).0 ≡ true) ↔ (
        (f.tenant_fails ≡ false)
        × (is_ok
              (active_checked f limit role_ids p now users
                (check_deactivated f p.subject (lookup p.subject users))).0
            ≡ true))
unfolding resolve
resolve_checks f limit role_ids p now users = elim (Bool-cases f.tenant_fails) [
  | inl fails ↦
      let refused : is_ok (resolve f limit role_ids p now users).0 ≡ false =
        ap (λ (r : Result AuthError ResolvedContext × Assoc User). is_ok r.0) (if_true _ _ fails) in
      (λ h. cc (refused, h), λ a. cc (fails, a.0))
  | inr fine ↦
      let passed =
        ap (λ (r : Result AuthError ResolvedContext × Assoc User). is_ok r.0) (if_false _ _ fine) in
      (λ h. (fine, sym passed ∙ h), λ a. passed ∙ a.1)
]

-- A caller is resolved exactly where the tenant and the user's row are read, the row, if there is
-- one, is not deactivated, there is no cap or a seat for the caller, and the row and the roles are
-- then written and read. So every failure of a statement that is made refuses the caller.
pub resolve_iff :
    (f : Faults) (limit : ℕ) (role_ids : List String → List String) (p : Principal) (now : ℕ)
    (users : Assoc User)
    → (is_ok (resolve f limit role_ids p now users).0 ≡ true)
      ↔ IsAdmitted f limit now users p.subject
resolve_iff f limit role_ids p now users =
    let o = lookup p.subject users in
    let tenant = resolve_checks f limit role_ids p now users in
    let rest = active_checked_iff f limit role_ids p now users (check_deactivated f p.subject o) in
    let row = check_deactivated_iff f p.subject o in
    let cap = check_seat_cap_iff f limit (count_active_users active_seat_window now users) o in
    (
      λ h.
          let t = tenant.0 h in
          let r = rest.0 t.1 in
          let d = row.0 r.0 in
          record {
            tenant = t.0;
            user = d.0;
            active = d.1;
            seat = cap.0 r.1;
            upsert = r.2;
            roles = r.3;
          },
      λ a. tenant.1 (a.tenant, rest.1 (row.1 (a.user, a.active), cap.1 a.seat, a.upsert, a.roles)),
    )
