-- ===== src/AccessControl/Tests.antt =====
-- The access checks on a small database, and the theorems there.
use sagedockhand.Common.{
  any, All, nat_eq, text_eq, member, unique, ℕ, ◌≡◌, refl, true, false, ◌&&◌, none, some, [], ◌∷◌,
}
use sagedockhand.Common.Text.{codes}
use sagedockhand.AccessControl.Editions.{
  Answers, auth_disabled, enterprise_anonymous, can_access_environment-eq,
}
use sagedockhand.AccessControl.Context.{
  authorize, can_access_environment, get_accessible_environment_ids,
}
use sagedockhand.AccessControl.Grants.{
  role_grants, is_unreadable, IsReadable, check_permission-environment, check_permission-unreadable,
}
use sagedockhand.AccessControl.Roles.{
  Permissions, Role, Database, joined, roles_of, user_has_admin_role,
  get_user_accessible_environments, applies, user_can_access_environment, containers, null,
  unreadable, ids, every_environment, only,
}
use sagedockhand.AccessControl.Environments.{admits}
use sagedockhand.AccessControl.Permission.{empty_permissions, AuthenticatedUser, check_permission}

abbrev viewer : Permissions
viewer containers = some (codes "view" ∷ [])
viewer _ = none

abbrev db : Database
db = record {
  user_ids = 1 ∷ 2 ∷ 3 ∷ [];
  roles =
      record {
        id = 10;
        name = codes "Admin";
        permissions = some empty_permissions;
        environment_ids = null;
      }
      ∷ record {
        id = 11;
        name = codes "Viewer";
        permissions = some viewer;
        environment_ids = ids (4 ∷ 5 ∷ []);
      }
      ∷ record {
        id = 12;
        name = codes "Broken";
        permissions = some viewer;
        environment_ids = unreadable;
      }
      ∷ [];
  user_roles =
      record { user_id = 1; role_id = 10 }
      ∷ record { user_id = 2; role_id = 11 }
      ∷ record { user_id = 3; role_id = 12 }
      ∷ [];
}

abbrev user_of : ℕ → AuthenticatedUser
user_of n = record { id = n; is_admin = false; permissions = empty_permissions }

environments_of_viewer : get_user_accessible_environments db 2 ≡ only (4 ∷ 5 ∷ [])
unfolding get_user_accessible_environments unique
environments_of_viewer = refl

two_plain : user_has_admin_role db 2 ≡ false
unfolding user_has_admin_role
two_plain = refl

two-IsReadable : All IsReadable (roles_of db 2)
unfolding joined
two-IsReadable = ((cc, refl), tt)

two_known : (member 2 db.user_ids ≡ true) × (member 3 db.user_ids ≡ true)
unfolding member
two_known = (refl, refl)

check_permission-environment_example :
    check_permission db true (user_of 2) containers (codes "view") (some 4)
    ≡ some (
        any
          (λ (role : Role).
            applies 4 role.environment_ids && role_grants containers (codes "view") role)
          (roles_of db 2))
check_permission-environment_example =
    check_permission-environment db (user_of 2) containers (codes "view") 4 two_known.0 two_plain
      two-IsReadable

granted_test :
    (check_permission db true (user_of 2) containers (codes "view") (some 4) ≡ some true)
    × (check_permission db true (user_of 2) containers (codes "view") (some 6) ≡ some false)
unfolding check_permission unique
granted_test = (refl, refl)

three_plain :
    (user_has_admin_role db 3 ≡ false)
    × (any (λ (role : Role). is_unreadable role.environment_ids) (roles_of db 3) ≡ true)
unfolding user_has_admin_role joined
three_plain = (refl, refl)

check_permission-unreadable_example :
    (user_can_access_environment db 3 6 ≡ true)
    × (check_permission db true (user_of 3) containers (codes "view") (some 6) ≡ none)
check_permission-unreadable_example =
    check_permission-unreadable db (user_of 3) containers (codes "view") 6 two_known.1 three_plain.0
      three_plain.1

auth_disabled_example : Answers db (authorize db false true none none) true every_environment true
auth_disabled_example = auth_disabled db true none none

one_admin : user_has_admin_role db 1 ≡ true
unfolding user_has_admin_role
one_admin = refl

enterprise_anonymous_example : Answers db (authorize db true true none none) false (only []) false
enterprise_anonymous_example = enterprise_anonymous db

can_access_environment-eq_example :
    can_access_environment db (authorize db true true (some (user_of 2)) none) 5
    ≡ admits (get_accessible_environment_ids db (authorize db true true (some (user_of 2)) none)) 5
can_access_environment-eq_example =
    can_access_environment-eq db (authorize db true true (some (user_of 2)) none) 5
