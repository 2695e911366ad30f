-- ===== src/AccessControl/Context.antt =====
-- src/lib/server/authorize.ts: the authorization context of a request and its methods.
use sagedockhand.Common.{if◌then◌else◌, ℕ, Bool, true, false, not, Option, none, some, []}
use sagedockhand.Common.Text.{Text, codes}
use sagedockhand.AccessControl.Roles.{
  Resource, Database, user_has_admin_role, Access, get_user_accessible_environments,
  user_can_access_environment, settings, users, audit_logs, every_environment, only,
}
use sagedockhand.AccessControl.Permission.{AuthenticatedUser, check_permission}

pub record AuthorizationContext : Type 0 where
  pub auth_enabled : Bool
  pub user : Option AuthenticatedUser
  pub is_admin : Bool
  pub is_enterprise : Bool

abbrev pub is_authenticated : AuthorizationContext → Bool
is_authenticated ctx = elim ctx.user [ none ↦ false | some user ↦ true ]

-- `reqCtx?.user ?? (authEnabled ? await validateSession(cookies) : null)`
abbrev pub request_user :
    Option AuthenticatedUser → Bool → Option AuthenticatedUser → Option AuthenticatedUser
request_user (some user) auth_enabled session_user = some user
request_user none auth_enabled session_user = if auth_enabled then session_user else none

-- `isAdmin`, read anew from the roles
abbrev pub fresh_is_admin : Database → Bool → Option AuthenticatedUser → Bool
fresh_is_admin db enterprise none = false
fresh_is_admin db enterprise (some user) =
    if not enterprise then true else user_has_admin_role db user.id

-- `authorize(cookies)`, from the user of the request context and the user of the session.
unfoldable pub authorize :
    Database
    → Bool
    → Bool
    → Option AuthenticatedUser
    → Option AuthenticatedUser
    → AuthorizationContext
unfolding user_has_admin_role
authorize db auth_enabled enterprise context_user session_user =
    let user = request_user context_user auth_enabled session_user in
    record {
      auth_enabled = auth_enabled;
      user = user;
      is_admin = fresh_is_admin db enterprise user;
      is_enterprise = enterprise;
    }

module _ (db : Database) (ctx : AuthorizationContext) where
  abbrev pub can_user : Option AuthenticatedUser → Resource → Text → Option ℕ → Option Bool
  can_user none resource action environment_id = some false
  can_user (some user) resource action environment_id =
      check_permission db ctx.is_enterprise user resource action environment_id

  -- `can(resource, action, environmentId)`
  unfoldable pub can : Resource → Text → Option ℕ → Option Bool
  unfolding check_permission
  can resource action environment_id =
      if not ctx.auth_enabled then some true else can_user ctx.user resource action environment_id

  abbrev pub environment_open_to : Option AuthenticatedUser → ℕ → Bool
  environment_open_to none environment_id = false
  environment_open_to (some user) environment_id =
      if ctx.is_admin
      then true
      else if not ctx.is_enterprise
      then true
      else user_can_access_environment db user.id environment_id

  -- `canAccessEnvironment(environmentId)`
  unfoldable pub can_access_environment : ℕ → Bool
  unfolding user_can_access_environment
  can_access_environment environment_id =
      if not ctx.auth_enabled then true else environment_open_to ctx.user environment_id

  abbrev pub environments_open_to : Option AuthenticatedUser → Access
  environments_open_to none = only []
  environments_open_to (some user) =
      if ctx.is_admin
      then every_environment
      else if not ctx.is_enterprise
      then every_environment
      else get_user_accessible_environments db user.id

  -- `getAccessibleEnvironmentIds()`
  unfoldable pub get_accessible_environment_ids : Access
  unfolding get_user_accessible_environments
  get_accessible_environment_ids =
      if not ctx.auth_enabled then every_environment else environments_open_to ctx.user

  abbrev pub users_managed_by : Option AuthenticatedUser → Option Bool
  users_managed_by none = some false
  users_managed_by (some user) =
      if ctx.is_admin
      then some true
      else if not ctx.is_enterprise
      then some true
      else check_permission db ctx.is_enterprise user users (codes "create") none

  -- `canManageUsers()`
  unfoldable pub can_manage_users : Option Bool
  unfolding check_permission
  can_manage_users = if not ctx.auth_enabled then some true else users_managed_by ctx.user

  abbrev pub settings_managed_by : Option AuthenticatedUser → Option Bool
  settings_managed_by none = some false
  settings_managed_by (some user) =
      if not ctx.is_enterprise
      then some true
      else check_permission db ctx.is_enterprise user settings (codes "edit") none

  -- `canManageSettings()`
  unfoldable pub can_manage_settings : Option Bool
  unfolding check_permission
  can_manage_settings = if not ctx.auth_enabled then some true else settings_managed_by ctx.user

  abbrev pub audit_open_to : Option AuthenticatedUser → Option Bool
  audit_open_to none = some false
  audit_open_to (some user) =
      if user.is_admin
      then some true
      else check_permission db ctx.is_enterprise user audit_logs (codes "view") none

  -- `canViewAuditLog()`
  unfoldable pub can_view_audit_log : Option Bool
  unfolding check_permission
  can_view_audit_log =
      if not ctx.is_enterprise
      then some false
      else if not ctx.auth_enabled
      then some true
      else audit_open_to ctx.user
