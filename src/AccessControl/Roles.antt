-- ===== src/AccessControl/Roles.antt =====
-- src/lib/server/db.ts: which roles a user has, and where they apply.
use sagedockhand.Common.{
  if◌then◌else◌, any, keep, ◌==◌, nat_eq, text_eq, member, unique, ℕ, Bool, true, false, Option,
  none, some, List, [], ◌∷◌, ◌++◌,
}
use sagedockhand.Common.Text.{Text, codes}

-- The keys of `Permissions`.
pub data Resource : Type 0 where
  containers images volumes networks stacks environments registries notifications : Resource
  configsets settings users git license audit_logs activity schedules : Resource

-- A parsed `permissions` column: the actions granted on a resource, `none` where the key is missing.
abbrev pub Permissions : Type 0
Permissions = Resource → Option (List Text)

-- The column `roles.environmentIds`: NULL, the empty text, a text that does not parse, or the JSON text of
-- an array of ids; the text of other JSON is not modelled.
pub data EnvironmentIds : Type 0 where
  null empty_text unreadable : EnvironmentIds
  ids : List ℕ → EnvironmentIds

-- The column `permissions` is `none` if its text does not parse.
pub record Role : Type 0 where
  pub id : ℕ
  pub name : Text
  pub permissions : Option Permissions
  pub environment_ids : EnvironmentIds

pub record UserRole : Type 0 where
  pub user_id : ℕ
  pub role_id : ℕ

pub record Database : Type 0 where
  pub user_ids : List ℕ
  pub roles : List Role
  pub user_roles : List UserRole

-- `.from(userRoles).innerJoin(roles, eq(userRoles.roleId, roles.id)).where(eq(userRoles.userId, userId))`
unfoldable pub joined : List UserRole → List Role → ℕ → List Role
joined [] roles user_id = []
joined (row ∷ rows) roles user_id =
    let rest = joined rows roles user_id in
    if row.user_id == user_id
    then keep (λ (role : Role). role.id == row.role_id) roles ++ rest
    else rest

abbrev pub roles_of : Database → ℕ → List Role
roles_of db user_id = joined db.user_roles db.roles user_id

-- `userHasAdminRole(userId)`
unfoldable pub user_has_admin_role : Database → ℕ → Bool
unfolding joined
user_has_admin_role db user_id =
    any (λ (role : Role). role.name == codes "Admin") (roles_of db user_id)

-- The result of `getUserAccessibleEnvironments`: `null` is every environment.
pub data Access : Type 0 where
  every_environment : Access
  only : List ℕ → Access

-- Its loop over the rows.
unfoldable pub accessible_from : List ℕ → List Role → Access
accessible_from found [] = only (unique found)
accessible_from found (role ∷ roles) = elim role.environment_ids [
  | null ↦ every_environment
  | empty_text ↦ every_environment
  | unreadable ↦ every_environment
  | ids env_ids ↦ accessible_from (found ++ env_ids) roles
]

-- `getUserAccessibleEnvironments(userId)`
unfoldable pub get_user_accessible_environments : Database → ℕ → Access
unfolding accessible_from joined
get_user_accessible_environments db user_id = accessible_from [] (roles_of db user_id)

-- The test of the filter in `getUserRolesForEnvironment`.
unfoldable pub applies : ℕ → EnvironmentIds → Bool
unfolding member
applies environment_id null = true
applies environment_id empty_text = true
applies environment_id unreadable = true
applies environment_id (ids env_ids) = member environment_id env_ids

-- The role object that the last `map` builds from a row: `none` if one of its columns does not parse.
pub record RoleData : Type 0 where
  pub name : Text
  pub permissions : Permissions
  pub environment_ids : Option (List ℕ)

-- `row.roleEnvironmentIds ? JSON.parse(row.roleEnvironmentIds) : null`
unfoldable pub parse_environment_ids : EnvironmentIds → Option (Option (List ℕ))
parse_environment_ids null = some none
parse_environment_ids empty_text = some none
parse_environment_ids unreadable = none
parse_environment_ids (ids env_ids) = some (some env_ids)

abbrev pub role_data : Text → Option Permissions → Option (Option (List ℕ)) → Option RoleData
role_data name (some permissions) (some env_ids) =
    some (record { name = name; permissions = permissions; environment_ids = env_ids })
role_data name _ _ = none

unfoldable pub to_role_data : Role → Option RoleData
unfolding parse_environment_ids
to_role_data role =
    role_data role.name role.permissions (parse_environment_ids role.environment_ids)

-- `rows.map(…)` where the callback may throw.
abbrev pub cons? {ℓ} : {A : Type ℓ} → Option A → Option (List A) → Option (List A)
cons? (some x) (some xs) = some (x ∷ xs)
cons? _ _ = none

unfoldable pub map? {ℓ κ} : {A : Type ℓ} {B : Type κ} → (A → Option B) → List A → Option (List B)
map? f [] = some []
map? f (x ∷ xs) = cons? (f x) (map? f xs)

-- `getUserRolesForEnvironment(userId, environmentId)`
unfoldable pub get_user_roles_for_environment : Database → ℕ → ℕ → Option (List RoleData)
unfolding map? to_role_data applies joined
get_user_roles_for_environment db user_id environment_id =
    map? to_role_data
      (keep (λ (role : Role). applies environment_id role.environment_ids) (roles_of db user_id))

-- The role object of `getUserRoles`, which does not read the environments.
unfoldable pub to_global_role_data : Role → Option RoleData
to_global_role_data role = role_data role.name role.permissions (some none)

-- `getUserRoles(userId)`
unfoldable pub get_user_roles : Database → ℕ → Option (List RoleData)
unfolding map? to_global_role_data joined
get_user_roles db user_id = map? to_global_role_data (roles_of db user_id)

-- The loop of `userCanAccessEnvironment` over the rows.
unfoldable pub can_access_from : ℕ → List Role → Bool
unfolding member
can_access_from environment_id [] = false
can_access_from environment_id (role ∷ roles) = elim role.environment_ids [
  | null ↦ true
  | empty_text ↦ true
  | unreadable ↦ true
  | ids env_ids ↦
      if member environment_id env_ids then true else can_access_from environment_id roles
]

-- `userCanAccessEnvironment(userId, environmentId)`
unfoldable pub user_can_access_environment : Database → ℕ → ℕ → Bool
unfolding can_access_from joined
user_can_access_environment db user_id environment_id =
    can_access_from environment_id (roles_of db user_id)
