-- ===== src/Authz/Tests.antt =====
-- Admission at concrete inputs: a known user and a new one, under a cap of two.
use orbeat_community.Prelude.{◌≡◌, List, refl, inl, inr, true, false, none, some, [], ◌∷◌, arith}
use orbeat_community.Prelude.Assoc.{Assoc, lookup, insert}
use orbeat_community.Authz.{
  middleware, forbidden, Principal, User, Faults, count_active_users, resolve, active_seat_window,
  active_checked, seat_checked, finish, upsert_row, check_deactivated, check_seat_cap, seat_for_new,
}
use orbeat_community.Authz.Deactivation.{Call, after, middleware-forbidden}
use orbeat_community.Authz.Admission.{resolve_iff, is_ok}

abbrev no_faults : Faults
no_faults = record {
  tenant_fails = false;
  user_fails = false;
  known_fails = false;
  count_fails = false;
  upsert_fails = false;
  roles_fails = false;
}

abbrev ana : User
ana = record {
  email = "ana@example.org";
  display_name = "ana@example.org";
  last_seen_at = some 5;
  deactivated_at = none;
}

abbrev users : Assoc User
users = ("ana", ana) ∷ []

abbrev bob : Principal
bob = record { subject = "bob"; email = "bob@example.org"; roles = "user" ∷ [] }

one_active : count_active_users active_seat_window 10 users ≡ 1
unfolding count_active_users
one_active = refl

resolve_iff_example : is_ok (resolve no_faults 2 (λ names. names) bob 10 users).0 ≡ true
unfolding lookup count_active_users
resolve_iff_example = (resolve_iff no_faults 2 (λ names. names) bob 10 users).1 (record {
  tenant = refl;
  user = refl;
  active = inl refl;
  seat = inr (refl, inr (refl, omega arith));
  upsert = refl;
  roles = refl;
})

-- Carol was deactivated at 7. She calls, then Bob does, while the roles cannot be read; she calls
-- again.
abbrev carol_row : User
carol_row = record ana { deactivated_at = some 7 }

abbrev carol_gone : Assoc User
carol_gone = ("carol", carol_row) ∷ []

abbrev carol : Principal
carol = record { subject = "carol"; email = "carol@example.org"; roles = [] }

abbrev calls : List Call
calls =
    record { faults = no_faults; limit = 2; who = some carol; now = 8 }
    ∷ record {
      faults = record no_faults { roles_fails = true };
      limit = 2;
      who = some bob;
      now = 9;
    }
    ∷ []

bob_is_written :
    lookup "bob" (after (λ names. names) calls carol_gone)
    ≡ some (record ana {
      email = "bob@example.org";
      display_name = "bob@example.org";
      last_seen_at = some 9;
    })
unfolding lookup insert after middleware resolve active_checked seat_checked finish upsert_row
    check_deactivated check_seat_cap seat_for_new count_active_users
bob_is_written = refl

middleware-forbidden_example :
    let users' = after (λ names. names) calls carol_gone in
    (middleware no_faults 2 (λ names. names) (some carol) 10 users' ≡ (forbidden, users'))
    × (lookup "carol" users' ≡ some carol_row)
unfolding lookup
middleware-forbidden_example =
    middleware-forbidden (λ names. names) calls carol_gone carol_row 7 no_faults 2 carol 10 refl
      refl
