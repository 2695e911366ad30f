-- ===== src/AccessControl/Permission.antt =====
-- src/lib/server/auth.ts: merging the permissions of roles, and `checkPermission`.
use sagedockhand.Common.{
  if◌then◌else◌, find?, ◌==◌, nat_eq, text_eq, member, unique, ℕ, Bool, true, false, not, Option,
  none, some, List, [], ◌∷◌, ◌++◌,
}
use sagedockhand.Common.Text.{Text, codes}
use sagedockhand.AccessControl.Roles.{
  Resource, Permissions, Role, Database, user_has_admin_role, RoleData,
  get_user_roles_for_environment, get_user_roles,
}

abbrev pub empty_permissions : Permissions
empty_permissions resource = some []

-- `merged[key] = [...new Set([...merged[key], ...perms[key]])]` if `perms[key]` is there
abbrev pub merge_actions : List Text → Option (List Text) → List Text
merge_actions merged none = merged
merge_actions merged (some actions) = unique (merged ++ actions)

-- The loop over the roles, at one key of `merged`.
unfoldable pub merged_at : Resource → List Text → List RoleData → List Text
unfolding unique
merged_at resource merged [] = merged
merged_at resource merged (role ∷ roles) =
    merged_at resource (merge_actions merged (role.permissions resource)) roles

unfoldable pub merge_permissions : List RoleData → Permissions
unfolding merged_at
merge_permissions roles resource = some (merged_at resource [] roles)

-- `getRoleByName('Admin')`, and `adminRole?.permissions ?? EMPTY_PERMISSIONS`
abbrev pub admin_permissions : Option Role → Option Permissions
admin_permissions none = some empty_permissions
admin_permissions (some role) = role.permissions

unfoldable pub get_admin_permissions : Database → Option Permissions
get_admin_permissions db =
    admin_permissions (find? (λ (role : Role). role.name == codes "Admin") db.roles)

abbrev pub merge_rows : Option (List RoleData) → Option Permissions
merge_rows none = none
merge_rows (some roles) = some (merge_permissions roles)

-- `getUserPermissionsById(userId)`
unfoldable pub get_user_permissions_by_id : Database → ℕ → Option Permissions
unfolding member user_has_admin_role get_admin_permissions merge_permissions get_user_roles
get_user_permissions_by_id db user_id =
    if not (member user_id db.user_ids)
    then some empty_permissions
    else if user_has_admin_role db user_id
    then get_admin_permissions db
    else merge_rows (get_user_roles db user_id)

-- `getUserPermissionsForEnvironment(userId, environmentId)`
unfoldable pub get_user_permissions_for_environment : Database → ℕ → ℕ → Option Permissions
unfolding member user_has_admin_role get_admin_permissions merge_permissions
    get_user_roles_for_environment
get_user_permissions_for_environment db user_id environment_id =
    if not (member user_id db.user_ids)
    then some empty_permissions
    else if user_has_admin_role db user_id
    then get_admin_permissions db
    else merge_rows (get_user_roles_for_environment db user_id environment_id)

-- What the authorization code reads of an `AuthenticatedUser`.
pub record AuthenticatedUser : Type 0 where
  pub id : ℕ
  pub is_admin : Bool
  pub permissions : Permissions

-- `actions?.includes(action) ?? false`
abbrev pub includes_action : Option (List Text) → Text → Bool
includes_action none action = false
includes_action (some actions) action = member action actions

abbrev pub granted_in : Option Permissions → Resource → Text → Option Bool
granted_in none resource action = none
granted_in (some permissions) resource action = some (includes_action (permissions resource) action)

-- The last two statements of `checkPermission`, by the environment that is asked about, if any.
abbrev pub granted : Database → AuthenticatedUser → Resource → Text → Option ℕ → Option Bool
granted db user resource action (some environment_id) =
    granted_in (get_user_permissions_for_environment db user.id environment_id) resource action
granted db user resource action none = granted_in (some user.permissions) resource action

-- `checkPermission(user, resource, action, environmentId)`
unfoldable pub check_permission :
    Database → Bool → AuthenticatedUser → Resource → Text → Option ℕ → Option Bool
unfolding member user_has_admin_role get_user_permissions_for_environment
check_permission db enterprise user resource action environment_id =
    if not enterprise
    then some true
    else if user_has_admin_role db user.id
    then some true
    else granted db user resource action environment_id

-- `buildAuthenticatedUser(user, provider)`
abbrev pub with_permissions : ℕ → Bool → Option Permissions → Option AuthenticatedUser
with_permissions user_id is_admin none = none
with_permissions user_id is_admin (some permissions) =
    some (record { id = user_id; is_admin = is_admin; permissions = permissions })

unfoldable pub build_authenticated_user : Database → Bool → ℕ → Option AuthenticatedUser
unfolding get_user_permissions_by_id user_has_admin_role
build_authenticated_user db enterprise user_id =
    with_permissions user_id (if enterprise then user_has_admin_role db user_id else true)
      (get_user_permissions_by_id db user_id)
